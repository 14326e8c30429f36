-- ===== src/McpProgressState/Capacity.antt =====
-- How many entries services/runtime/src/mcp-progress-state.ts keeps, and which.
use mathlib.Core.Path.{subst}
use nova_test.Common.Map
use nova_test.Common.Map.{Map}
use nova_test.Common.{
  ℕ, zero, suc, ◌-◌, ◌≤◌, ◌≡◌, ◌∙◌, ap, refl, sym, Bool, true, [], ◌∷◌, ◌++◌, String, none, some,
  length, length-append, inl, inr, arith, Option-cases, Bool-cases, is_some,
}
use nova_test.Shared.{ok}
use nova_test.McpProgressState.{
  McpProgressNotification, McpProgressSnapshot, is_server_id, is_progress_token, key, exceeds,
  regression, snapshot_of, drop_oldest, evict, store, apply, get, max_entries,
}

module _ {N : Type 0} where
  length-drop_oldest :
      (n : ℕ) (m : Map (McpProgressSnapshot N)) → length (drop_oldest n m) ≡ length m - n
  unfolding drop_oldest
  length-drop_oldest zero m = omega arith
  length-drop_oldest (suc n) [] = omega arith
  length-drop_oldest (suc n) ((k, s) ∷ m) = omega (arith, length-drop_oldest n m)

  set-absent :
      (m : Map (McpProgressSnapshot N)) (k : String) (s : McpProgressSnapshot N)
      → Map.get m k ≡ none
      → Map.set m k s ≡ m ++ (k, s) ∷ []
  unfolding Map.get Map.set
  set-absent [] k s e = refl
  set-absent ((j, x) ∷ m) k s e = ground (arith, set-absent m k s)

  length-set :
      (m : Map (McpProgressSnapshot N)) (k : String) (s : McpProgressSnapshot N)
      → is_some (Map.get m k) ≡ true
      → length (Map.set m k s) ≡ length m
  unfolding Map.get Map.set
  length-set [] k s e = cc
  length-set ((j, x) ∷ m) k s e = ground (arith, length-set m k s)

  get-append :
      (m : Map (McpProgressSnapshot N)) (k : String) (s : McpProgressSnapshot N)
      → Map.get m k ≡ none
      → Map.get (m ++ (k, s) ∷ []) k ≡ some s
  unfolding Map.get
  get-append [] k s e = ground arith
  get-append ((j, x) ∷ m) k s e = ground (arith, get-append m k s)

  get-drop_oldest :
      (n : ℕ) (m : Map (McpProgressSnapshot N)) (k : String) (s : McpProgressSnapshot N)
      → Map.get m k ≡ none
      → n ≤ length m
      → Map.get (drop_oldest n (m ++ (k, s) ∷ [])) k ≡ some s
  unfolding drop_oldest Map.get
  get-drop_oldest zero m k s e l = get-append m k s e
  get-drop_oldest (suc n) [] k s e l = absurd (omega (arith, l))
  get-drop_oldest (suc n) ((j, x) ∷ m) k s e l =
      get-drop_oldest n m k s (ground arith) (omega (arith, l))

  get-evict :
      (m : Map (McpProgressSnapshot N)) (k : String) (s : McpProgressSnapshot N)
      → length m ≤ max_entries
      → Map.get (evict (Map.set m k s)) k ≡ some s
  unfolding evict drop_oldest
  get-evict m k s l = elim (Option-cases (Map.get m k)) [
    | inr (x, e) ↦
        let z : length (Map.set m k s) - max_entries ≡ 0 =
          omega (arith, l, length-set m k s (ground arith)) in
        subst (λ n. Map.get (drop_oldest n (Map.set m k s)) k ≡ some s) (sym z)
          (Map.get-set_self m k s)
    | inl e ↦
        let a : Map.set m k s ≡ m ++ (k, s) ∷ [] = set-absent m k s e in
        let z : length (m ++ (k, s) ∷ []) - max_entries ≤ length m =
          omega (arith, l, length-append m ((k, s) ∷ [])) in
        subst (λ x. Map.get (drop_oldest (length x - max_entries) x) k ≡ some s) (sym a)
          (get-drop_oldest (length (m ++ (k, s) ∷ []) - max_entries) m k s e z)
  ]

  length-evict : (m : Map (McpProgressSnapshot N)) → length (evict m) ≤ max_entries
  unfolding evict
  length-evict m = omega (arith, length-drop_oldest (length m - max_entries) m)

  length-store :
      (lt : N → N → Bool) (m : Map (McpProgressSnapshot N)) (server_id : String)
      (n : McpProgressNotification N)
      → length m ≤ max_entries
      → length (store lt m server_id n).0 ≤ max_entries
  unfolding store
  length-store lt m server_id n l =
      let k = key server_id n.progress_token in
      elim (Option-cases (regression lt n (Map.get m k))) [
        | inl e ↦ ground (arith, length-evict (Map.set m k (snapshot_of server_id n (Map.get m k))))
        | inr (x, e) ↦ ground arith
      ]

  get-store :
      (lt : N → N → Bool) (m : Map (McpProgressSnapshot N)) (server_id : String)
      (n : McpProgressNotification N) (s : McpProgressSnapshot N)
      → length m ≤ max_entries
      → (store lt m server_id n).1 ≡ ok s
      → Map.get (store lt m server_id n).0 (key server_id n.progress_token) ≡ some s
  unfolding store
  get-store lt m server_id n s l e =
      let k = key server_id n.progress_token in
      let x = snapshot_of server_id n (Map.get m k) in
      elim (Option-cases (regression lt n (Map.get m k))) [
        | inl r ↦ ground (arith, get-evict m k x l)
        | inr (y, r) ↦ ground arith
      ]

  -- Among at most 128 entries, the snapshot that an accepted notification answers is what a lookup of
  -- its server and its token then finds, and there are still at most 128 entries. The token is one that
  -- a lookup accepts.
  pub get-apply :
      (lt : N → N → Bool) (entries : Map (McpProgressSnapshot N)) (server_id : String)
      (n : McpProgressNotification N) (s : McpProgressSnapshot N)
      → length entries ≤ max_entries
      → is_progress_token n.progress_token ≡ true
      → (apply lt entries server_id (ok n)).1 ≡ ok s
      → (get (apply lt entries server_id (ok n)).0 server_id n.progress_token ≡ ok (some s))
        × (length (apply lt entries server_id (ok n)).0 ≤ max_entries)
  unfolding apply get
  get-apply lt entries server_id n s l t e = elim (Bool-cases (is_server_id server_id)) [
    | inl v ↦ elim (Bool-cases (exceeds lt n.progress n.total)) [
      | inl x ↦ ground arith
      | inr x ↦
          let a : apply lt entries server_id (ok n) ≡ store lt entries server_id n = ground arith in
          let h : (store lt entries server_id n).1 ≡ ok s = ap (λ r. r.1) (sym a) ∙ e in
          let f = get-store lt entries server_id n s l h in
          let b = length-store lt entries server_id n l in
          subst
            (λ r. (get r.0 server_id n.progress_token ≡ ok (some s)) × (length r.0 ≤ max_entries))
            (sym a) (ground arith, b)
    ]
    | inr v ↦ ground arith
  ]
