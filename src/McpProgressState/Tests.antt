-- ===== src/McpProgressState/Tests.antt =====
-- Runs of services/runtime/src/mcp-progress-state.ts, and its theorem at a concrete notification.
use nova_test.Common.Map
use nova_test.Common.Map.{Map}
use nova_test.Common.{ℕ, ◌≤◌, ◌≡◌, refl, [], ◌∷◌, Option, some, none, length, ltb, text_dec, arith}
use nova_test.Shared.{ok, err}
use nova_test.McpProgressState.{
  named, McpProgressNotification, McpProgressSnapshot, state_error, max_entries, all_id_codes,
  text_length, is_server_id, is_progress_token, key, starts_with, snapshot_of, drop_oldest, evict,
  store, apply, get, drop_prefix, clear_server, clear,
}
use nova_test.McpProgressState.Capacity.{get-apply}

program : Unit {0}
unfolding text_dec Map.get Map.set Map.delete all_id_codes text_length is_server_id
    is_progress_token key starts_with snapshot_of drop_oldest evict store apply get drop_prefix
    clear_server clear
program = tt

abbrev notification : ℕ → Option ℕ → McpProgressNotification ℕ
notification progress total = record {
  progress_token = named "job";
  progress = progress;
  total = total;
  message = none;
}

abbrev snapshot : ℕ → Option ℕ → McpProgressSnapshot ℕ
snapshot progress total = record {
  server_id = "files";
  progress_token = named "job";
  progress = progress;
  total = total;
  message = none;
}

abbrev entries : Map (McpProgressSnapshot ℕ)
entries = (key "files" (named "job"), snapshot 3 (some 5)) ∷ []

-- A notification that goes back is refused.
apply_regressed :
    (apply ltb entries "files" (ok (notification 2 none))).1
    ≡ err (state_error "MCP progress cannot regress for an active token.")
unfolding program
apply_regressed = refl

apply_beyond :
    (apply ltb entries "files" (ok (notification 6 (some 5)))).1
    ≡ err (state_error "MCP progress exceeds the reported total.")
unfolding program
apply_beyond = refl

clear_server_files : (clear_server entries "files").0 ≡ []
unfolding program
clear_server_files = refl

clear_server_other : (clear_server entries "file").0 ≡ entries
unfolding program
clear_server_other = refl

apply_job : (apply ltb entries "files" (ok (notification 4 none))).1 ≡ ok (snapshot 4 (some 5))
unfolding program
apply_job = refl

get-apply_example :
    (get (apply ltb entries "files" (ok (notification 4 none))).0 "files" (named "job")
      ≡ ok (some (snapshot 4 (some 5))))
    × (length (apply ltb entries "files" (ok (notification 4 none))).0 ≤ max_entries)
unfolding program
get-apply_example =
    get-apply ltb entries "files" (notification 4 none) (snapshot 4 (some 5)) (omega arith) refl
      apply_job
