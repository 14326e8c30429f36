-- ===== src/McpProgressState.antt =====
-- services/runtime/src/mcp-progress-state.ts: the last progress of each token of each server. `N` is the
-- type of the numbers of a notification and `lt` their order. What the classifier of notifications
-- answers is an argument of `apply`.
pub mod Capacity
pub mod Totals
mod Tests
use Prim.Native.Char.{code, nul}
use nova_test.Common.Map
use nova_test.Common.Map.{Map}
use nova_test.Common.{
  ℕ, zero, suc, ◌+◌, ◌-◌, Bool, true, false, not, List, [], ◌∷◌, String, Option, none, some, ◌⊕◌,
  ltb, leb, ◌==◌, ◌&&◌, ◌||◌, if◌then◌else◌, length,
}
use nova_test.Shared.{ErrorInfo, Result, ok, err, nova_cfg001}

-- A number stands as its text.
pub data ProgressToken : Type 0 where
  named : String → ProgressToken
  numbered : String → ProgressToken

pub record McpProgressNotification (N : Type 0) : Type 0 where
  pub progress_token : ProgressToken
  pub progress : N
  pub total : Option N
  pub message : Option String

pub record McpProgressSnapshot (N : Type 0) : Type 0 where
  pub server_id : String
  pub progress_token : ProgressToken
  pub progress : N
  pub total : Option N
  pub message : Option String

abbrev pub state_error : String → ErrorInfo
state_error message = record {
  code = nova_cfg001;
  message = message;
  retryable = false;
  details = [];
}

abbrev pub max_entries : ℕ
max_entries = 128

-- `[A-Za-z0-9_.-]`
abbrev pub is_id_code : ℕ → Bool
is_id_code c =
    (leb 65 c && leb c 90)
    || (leb 97 c && leb c 122)
    || (leb 48 c && leb c 57)
    || c == 95
    || c == 46
    || c == 45

unfoldable pub all_id_codes : String → Bool
all_id_codes String.[] = true
all_id_codes (String.◌∷◌ c s) = is_id_code (code c) && all_id_codes s

-- The number of UTF-16 code units.
unfoldable pub text_length : String → ℕ
text_length String.[] = 0
text_length (String.◌∷◌ c s) = (if ltb (code c) 0x10000 then 1 else 2) + text_length s

unfoldable pub is_server_id : String → Bool
unfolding all_id_codes text_length
is_server_id s = all_id_codes s && ltb 0 (text_length s) && leb (text_length s) 128

-- A number is a safe integer.
unfoldable pub is_progress_token : ProgressToken → Bool
unfolding text_length
is_progress_token (named s) = ltb 0 (text_length s) && leb (text_length s) 256
is_progress_token (numbered s) = true

abbrev pub token_text : ProgressToken → String
token_text (named s) = "string:" ⊕ s
token_text (numbered s) = "number:" ⊕ s

abbrev pub prefix : String → String
prefix server_id = server_id ⊕ String.◌∷◌ nul String.[]

unfoldable pub key : String → ProgressToken → String
key server_id token = prefix server_id ⊕ token_text token

-- `text.startsWith(prefix)`
unfoldable pub starts_with : String → String → Bool
starts_with s String.[] = true
starts_with String.[] (String.◌∷◌ d p) = false
starts_with (String.◌∷◌ c s) (String.◌∷◌ d p) = code c == code d && starts_with s p

-- `a ?? b`
abbrev pub or_previous : {A : Type 0} → Option A → Option A → Option A
or_previous (some a) b = some a
or_previous none b = b

module _ {N : Type 0} where
  abbrev pub exceeds : (N → N → Bool) → N → Option N → Bool
  exceeds lt progress none = false
  exceeds lt progress (some total) = lt total progress

  abbrev pub total_regresses : (N → N → Bool) → Option N → Option N → Bool
  total_regresses lt (some total) (some previous) = lt total previous
  total_regresses lt _ _ = false

  abbrev pub regression :
      (N → N → Bool) → McpProgressNotification N → Option (McpProgressSnapshot N) → Option ErrorInfo
  regression lt n none = none
  regression lt n (some previous) =
      if lt n.progress previous.progress
      then some (state_error "MCP progress cannot regress for an active token.")
      else if total_regresses lt n.total previous.total
      then some (state_error "MCP progress total cannot regress for an active token.")
      else none

  abbrev pub previous_total : Option (McpProgressSnapshot N) → Option N
  previous_total none = none
  previous_total (some s) = s.total

  abbrev pub previous_message : Option (McpProgressSnapshot N) → Option String
  previous_message none = none
  previous_message (some s) = s.message

  unfoldable pub snapshot_of :
      String → McpProgressNotification N → Option (McpProgressSnapshot N) → McpProgressSnapshot N
  snapshot_of server_id n previous = record {
    server_id = server_id;
    progress_token = n.progress_token;
    progress = n.progress;
    total = or_previous n.total (previous_total previous);
    message = or_previous n.message (previous_message previous);
  }

  -- The loop that drops the oldest entries, by how many there are too many. The keys are distinct.
  unfoldable pub drop_oldest : ℕ → Map (McpProgressSnapshot N) → Map (McpProgressSnapshot N)
  drop_oldest zero entries = entries
  drop_oldest (suc n) [] = []
  drop_oldest (suc n) ((k, s) ∷ entries) = drop_oldest n entries

  unfoldable pub evict : Map (McpProgressSnapshot N) → Map (McpProgressSnapshot N)
  unfolding drop_oldest
  evict entries = drop_oldest (length entries - max_entries) entries

  unfoldable pub store :
      (N → N → Bool)
      → Map (McpProgressSnapshot N)
      → String
      → McpProgressNotification N
      → Map (McpProgressSnapshot N) × Result (McpProgressSnapshot N)
  unfolding snapshot_of evict key
  store lt entries server_id n =
      let k = key server_id n.progress_token in
      let s = snapshot_of server_id n (Map.get entries k) in
      elim (regression lt n (Map.get entries k)) [
        | some e ↦ (entries, err e)
        | none ↦ (evict (Map.set entries k s), ok s)
      ]

  unfoldable pub apply :
      (N → N → Bool)
      → Map (McpProgressSnapshot N)
      → String
      → Result (McpProgressNotification N)
      → Map (McpProgressSnapshot N) × Result (McpProgressSnapshot N)
  unfolding is_server_id store
  apply lt entries server_id parsed =
      if is_server_id server_id
      then (elim parsed [
        | err e ↦ (entries, err e)
        | ok n ↦
            if exceeds lt n.progress n.total
            then (entries, err (state_error "MCP progress exceeds the reported total."))
            else store lt entries server_id n
      ])
      else (entries, err (state_error "MCP progress state server id is invalid."))

  -- A miss is `none`.
  unfoldable pub get :
      Map (McpProgressSnapshot N) → String → ProgressToken → Result (Option (McpProgressSnapshot N))
  unfolding is_server_id is_progress_token key
  get entries server_id token =
      if is_server_id server_id && is_progress_token token
      then ok (Map.get entries (key server_id token))
      else err (state_error "MCP progress state lookup is invalid.")

  unfoldable pub drop_prefix : String → Map (McpProgressSnapshot N) → Map (McpProgressSnapshot N)
  unfolding starts_with
  drop_prefix p [] = []
  drop_prefix p ((k, s) ∷ entries) =
      let rest = drop_prefix p entries in if starts_with k p then rest else (k, s) ∷ rest

  unfoldable pub clear_server :
      Map (McpProgressSnapshot N) → String → Map (McpProgressSnapshot N) × Result (Unit {0})
  unfolding is_server_id drop_prefix
  clear_server entries server_id =
      if is_server_id server_id
      then (drop_prefix (prefix server_id) entries, ok tt)
      else (entries, err (state_error "MCP progress state cleanup server id is invalid."))

  unfoldable pub clear :
      Map (McpProgressSnapshot N)
      → String
      → ProgressToken
      → Map (McpProgressSnapshot N) × Result (Unit {0})
  unfolding is_server_id is_progress_token key
  clear entries server_id token =
      if is_server_id server_id && is_progress_token token
      then (Map.delete entries (key server_id token), ok tt)
      else (entries, err (state_error "MCP progress state clear is invalid."))
