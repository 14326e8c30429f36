-- ===== src/CrossDeviceSync.antt =====
-- services/runtime/src/cross-device-sync.ts: replicas that pull and push changes of the fields of
-- entities. `V` is the type of a field's value. The transport, JSON and the moments at which a
-- promise settles are arguments. A logical clock is a natural number, also in a local change, which the
-- source does not validate.
mod Merging
pub mod Winners
pub mod Pulling
pub mod Replicas
pub mod Ties
pub mod Repeats
pub mod Pushing
mod Tests
use nova_test.Common.Map
use nova_test.Common.Map.{Map}
use nova_test.Common.Sort.{sort}
use nova_test.Common.{
  ℕ, Bool, true, false, not, ◌&&◌, ◌||◌, List, [], ◌∷◌, ◌++◌, String, Option, none, some, ltb, leb,
  ◌==◌, if◌then◌else◌, contains, add, map, or_else,
}
use nova_test.Shared.{ErrorInfo, Result, ok, err, nova_evt001}

pub data SyncCategory : Type 0 where
  security task_state episodic_memory knowledge_graph configuration : SyncCategory

abbrev pub priority : SyncCategory → ℕ
priority security = 0
priority task_state = 1
priority episodic_memory = 2
priority knowledge_graph = 3
priority configuration = 4

-- A number of JavaScript: a natural one, or one that is negative, fractional or not finite.
pub data Number : Type 0 where
  natural : ℕ → Number
  other_number : Number

-- `Number.isSafeInteger(n) && n >= 0`, with the value.
unfoldable pub safe_natural : Number → Option ℕ
safe_natural (natural n) = if leb n 9007199254740991 then some n else none
safe_natural other_number = none

abbrev pub event_error : String → ErrorInfo
event_error message = record {
  code = nova_evt001;
  message = message;
  retryable = true;
  details = [];
}

pub record SyncResult : Type 0 where
  pub checkpoint : ℕ
  pub applied_change_ids : List String

-- The names of the properties that an object literal inherits.
unfoldable pub is_inherited : String → Bool
unfolding contains
is_inherited name =
    contains
      ("constructor" ∷ "__defineGetter__" ∷ "__defineSetter__" ∷ "hasOwnProperty"
        ∷ "__lookupGetter__" ∷ "__lookupSetter__" ∷ "isPrototypeOf" ∷ "propertyIsEnumerable"
        ∷ "toString" ∷ "valueOf" ∷ "__proto__" ∷ "toLocaleString" ∷ [])
      name

module _ (V : Type 0) where
  pub record SyncChange : Type 0 where
    pub change_id : String
    pub entity_id : String
    pub category : SyncCategory
    pub logical_clock : ℕ
    pub partition : String
    pub fields : Map V

  pub record LocalRecord : Type 0 where
    pub fields : Map V
    pub field_clocks : Map ℕ
    pub history : List SyncChange

  pub record SyncManager : Type 0 where
    pub checkpoint : ℕ
    pub records : Map LocalRecord
    pub pending : Map SyncChange
    pub applied : List String
    pub applied_order : List String

  abbrev pub new : SyncManager
  new = record { checkpoint = 0; records = []; pending = []; applied = []; applied_order = [] }

  -- The answer of `pull`.
  pub record Pulled : Type 0 where
    pub next_clock : Number
    pub envelopes : List String

  -- An envelope: not decrypted or not JSON, not a change, or a change.
  pub data Parsed : Type 0 where
    unreadable invalid : Parsed
    change : SyncChange → Parsed

  -- One field of a change. Under a name that objects inherit, `fieldClocks` gives no number, and the
  -- comparison with it fails.
  unfoldable pub apply_field : ℕ → LocalRecord → String → V → LocalRecord
  apply_field clock r field value =
      if is_inherited field then r else elim (Map.get r.field_clocks field) [
        | none ↦ record r {
          fields = Map.set r.fields field value;
          field_clocks = Map.set r.field_clocks field clock;
        }
        | some current ↦
            if leb current clock
            then record r {
              fields = Map.set r.fields field value;
              field_clocks = Map.set r.field_clocks field clock;
            }
            else r
      ]

  unfoldable pub apply_fields : ℕ → LocalRecord → Map V → LocalRecord
  unfolding apply_field
  apply_fields clock r [] = r
  apply_fields clock r ((field, value) ∷ rest) =
      apply_fields clock (apply_field clock r field value) rest

  abbrev pub blank : LocalRecord
  blank = record { fields = []; field_clocks = []; history = [] }

  unfoldable pub merge : LocalRecord → SyncChange → LocalRecord
  unfolding apply_fields
  merge r c = apply_fields c.logical_clock (record r { history = r.history ++ c ∷ [] }) c.fields

  unfoldable pub apply : Map LocalRecord → SyncChange → Map LocalRecord
  unfolding merge
  apply records c =
      Map.set records c.entity_id (merge (or_else (Map.get records c.entity_id) blank) c)

  unfoldable pub apply_local : SyncManager → SyncChange → SyncManager
  unfolding apply
  apply_local m c = record m {
    records = apply m.records c;
    pending = Map.set m.pending c.change_id c;
  }

  unfoldable pub change_le : SyncChange → SyncChange → Bool
  change_le a b =
      ltb (priority a.category) (priority b.category)
      || (priority a.category == priority b.category) && leb a.logical_clock b.logical_clock

  -- The loop over the envelopes.
  unfoldable pub read_envelopes :
      (String → Parsed) → List String → List String → Result (List SyncChange)
  read_envelopes parse granted [] = ok []
  read_envelopes parse granted (e ∷ es) = elim (parse e) [
    | unreadable ↦ err (event_error "Sync envelope could not be decrypted or parsed.")
    | invalid ↦ err (event_error "Sync envelope failed schema validation.")
    | change c ↦ elim (read_envelopes parse granted es) [
      | err x ↦ err x
      | ok cs ↦ ok (if contains granted c.partition then c ∷ cs else cs)
    ]
  ]

  -- The loop that applies the changes: the manager and the identifiers that it applied.
  unfoldable pub apply_all : SyncManager → List SyncChange → SyncManager × List String
  unfolding apply
  apply_all m [] = (m, [])
  apply_all m (c ∷ cs) =
      let skipped = apply_all m cs in
      let done =
        apply_all
          (record m {
            records = apply m.records c;
            applied = add m.applied c.change_id;
            applied_order = m.applied_order ++ c.change_id ∷ [];
          })
          cs in
      if contains m.applied c.change_id then skipped else (done.0, c.change_id ∷ done.1)

  unfoldable pub sync_changes : SyncManager → ℕ → List SyncChange → SyncManager × Result SyncResult
  unfolding apply_all change_le
  sync_changes m next changes =
      let done = apply_all m (sort change_le changes) in
      (
        record (done.0) { checkpoint = next },
        ok (record { checkpoint = next; applied_change_ids = done.1 }),
      )

  unfoldable pub sync_from :
      SyncManager → ℕ → Result (List SyncChange) → SyncManager × Result SyncResult
  unfolding sync_changes
  sync_from m next (err x) = (m, err x)
  sync_from m next (ok changes) = sync_changes m next changes

  -- `sync`, from the settling of `pull` on: `none` if it was rejected.
  unfoldable pub sync :
      (String → Parsed)
      → List String
      → SyncManager
      → Option Pulled
      → SyncManager × Result SyncResult
  unfolding safe_natural read_envelopes sync_from
  sync parse granted m none =
      (m, err (event_error "Sync pull failed; local replica remains available."))
  sync parse granted m (some p) = elim (safe_natural p.next_clock) [
    | none ↦ (m, err (event_error "Sync pull returned an invalid logical checkpoint."))
    | some next ↦
        if ltb next m.checkpoint
        then (m, err (event_error "Sync pull returned an invalid logical checkpoint."))
        else sync_from m next (read_envelopes parse granted p.envelopes)
  ]

  abbrev pub ids : List SyncChange → List String
  ids = map (λ c. c.change_id)

  unfoldable pub drop_pending : Map SyncChange → List SyncChange → Map SyncChange
  drop_pending pending [] = pending
  drop_pending pending (c ∷ cs) = drop_pending (Map.delete pending c.change_id) cs

  -- `flush`: `push` is what the transport answers, if it can push, and `meanwhile` what happens to
  -- the manager until it does.
  unfoldable pub flush :
      (SyncChange → String)
      → Option (List String → Bool)
      → (SyncManager → SyncManager)
      → SyncManager
      → SyncManager × Result (List String)
  unfolding drop_pending
  flush encode push meanwhile m = elim (Map.values m.pending) [
    | [] ↦ (m, ok [])
    | c ∷ cs ↦ elim push [
      | none ↦ (m, err (event_error "Sync transport does not support pushing local changes."))
      | some send ↦
          if send (map encode (c ∷ cs))
          then (
            record (meanwhile m) { pending = drop_pending (meanwhile m).pending (c ∷ cs) },
            ok (ids (c ∷ cs)),
          )
          else (meanwhile m, err (event_error "Sync push failed; local changes remain queued."))
    ]
  ]

  -- `record`, and `history` of an entity.
  unfoldable pub record_of : SyncManager → String → Option (Map V × List SyncChange)
  record_of m entity = elim (Map.get m.records entity) [
    | none ↦ none
    | some r ↦ some (r.fields, r.history)
  ]

  unfoldable pub history : SyncManager → String → List SyncChange
  history m entity = elim (Map.get m.records entity) [ none ↦ [] | some r ↦ r.history ]
