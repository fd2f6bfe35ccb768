-- ===== src/Scripts/Examples.antt =====
-- A script that one peer may run on another, for realm/features/scripts/feature.go.
use foilen_box.Prelude.{
  ◌≡◌, ◌≢◌, ◌+◌, ◌≤◌, ◌↔◌, ◌⊎◌, refl, some, [], ◌∷◌, codes, text_eq, Map, lookup, Listed,
}
use foilen_box.Model.{Permission}
use foilen_box.Access.{is_allowed}
use foilen_box.Access.Permissions.{Names}
use foilen_box.Scripts.{
  Script, RunRequest, Run, handle_run, starts, action_run, run_script, handle_completion,
  completion_of, on_peer_removed, list_runs, run_retention, new_run, with_completion, succeeded,
}
use foilen_box.Scripts.Starting.{handle_run_lem}
use foilen_box.Scripts.Runs.{completion_overtakes}
use foilen_box.Scripts.Listing.{Filed, ended_run, list_runs_lem}

abbrev backup : Script
backup = record {
  description = [];
  name = codes "backup";
  command = codes "sh";
  args = [];
  working_directory = [];
}

abbrev req : RunRequest
req = record { run_id = codes "1"; name = codes "backup" }

abbrev bob_runs : Permission
bob_runs = record { action = action_run; peer_id = codes "bob"; group_name = [] }

granted : handle_run (bob_runs ∷ []) [] (backup ∷ []) (codes "bob") req ≡ starts backup
unfolding handle_run is_allowed text_eq
granted = refl

handle_run_example :
    Listed backup (backup ∷ [])
    × (backup.name ≡ req.name)
    × ((p : Permission) × Listed p (bob_runs ∷ []) × Names [] (codes "bob") action_run p)
handle_run_example =
    handle_run_lem (bob_runs ∷ []) [] (backup ∷ []) (codes "bob") req backup granted

abbrev old_runs : Map Run
old_runs = (codes "0", new_run (codes "0") (codes "bob") (codes "backup") 5) ∷ []

old_run : Filed old_runs
unfolding lookup
old_run = record { unique = (refl, tt); keyed = (refl, tt) }

list_runs_example :
    let req_0 : RunRequest = record { run_id = codes "0"; name = codes "backup" } in
    let shown = new_run (codes "0") (codes "bob") (codes "backup") 5 in
    let started =
      (run_script (codes "0") (codes "bob") (codes "backup") 9 (some (starts backup)) old_runs).0 in
    let completed = handle_completion (completion_of req_0 backup succeeded) old_runs in
    let removed = on_peer_removed (codes "bob") old_runs in
    (Listed shown (list_runs started) ↔ (
      (new_run (codes "0") (codes "bob") (codes "backup") 9 ≡ shown)
      ⊎ (Listed shown (list_runs old_runs)
          × (codes "0" ≢ shown.run_id)
          × (9 ≤ shown.started_at + run_retention))))
    × (Listed shown (list_runs completed)
        ↔ ((r : Run) × Listed r (list_runs old_runs) × (ended_run (codes "0") succeeded r ≡ shown)))
    × (Listed shown (list_runs removed)
        ↔ (Listed shown (list_runs old_runs) × (shown.peer_id ≢ codes "bob")))
    × Filed started
    × Filed completed
    × Filed removed
list_runs_example =
    list_runs_lem (record { run_id = codes "0"; name = codes "backup" }) backup succeeded
      (codes "bob") 9 old_runs (new_run (codes "0") (codes "bob") (codes "backup") 5) old_run

completion_overtakes_example :
    let c = completion_of req backup succeeded in
    (lookup (codes "1") (
        handle_completion c
          (run_script (codes "1") (codes "bob") (codes "backup") 9 (some (starts backup)) []).0)
      ≡ some (with_completion c (new_run (codes "1") (codes "bob") (codes "backup") 9)))
    × (lookup
          (codes "1")
          (run_script
            (codes "1")
            (codes "bob")
            (codes "backup")
            9
            (some (starts backup))
            (handle_completion c [])).0
        ≡ some (new_run (codes "1") (codes "bob") (codes "backup") 9))
unfolding lookup
completion_overtakes_example = completion_overtakes req backup succeeded (codes "bob") 9 [] tt refl
