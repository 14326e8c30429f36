-- ===== src/McpProgressState/Totals.antt =====
-- The totals that services/runtime/src/mcp-progress-state.ts keeps.
use nova_test.Common.Map
use nova_test.Common.Map.{Map}
use nova_test.Common.{◌≡◌, Bool, true, false, String, none, some, arith}
use nova_test.Shared.{ok}
use nova_test.McpProgressState.{
  McpProgressNotification, McpProgressSnapshot, is_server_id, key, exceeds, snapshot_of, store,
  apply,
}

module _ {N : Type 0} where
  -- A notification without a total is accepted with a progress beyond the total that an earlier one
  -- has reported, and the snapshot keeps that total.
  total_exceeded :
      (lt : N → N → Bool) (entries : Map (McpProgressSnapshot N)) (server_id : String)
      (n : McpProgressNotification N) (previous : McpProgressSnapshot N) (total : N)
      → is_server_id server_id ≡ true
      → Map.get entries (key server_id n.progress_token) ≡ some previous
      → previous.total ≡ some total
      → n.total ≡ none
      → lt n.progress previous.progress ≡ false
      → lt total n.progress ≡ true
      → (s : McpProgressSnapshot N) × ((apply lt entries server_id (ok n)).1 ≡ ok s)
        × (exceeds lt s.progress s.total ≡ true)
  unfolding apply store snapshot_of
  total_exceeded lt entries server_id n previous total v e t u a b =
      (snapshot_of server_id n (some previous), ground arith, ground arith)
