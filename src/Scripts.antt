-- ===== src/Scripts.antt =====
-- realm/features/scripts/feature.go: the scripts that a peer may run here, and the runs that were asked
-- of other peers. Identifiers, times and the outcome of a command are arguments.
pub mod Starting
pub mod Runs
pub mod Listing
mod Examples
use foilen_box.Prelude.{
  ℕ, ◌+◌, ◌-◌, ◌*◌, Bool, true, false, not, Option, none, some, List, [], ◌∷◌, Text, codes, text_eq,
  Map, lookup, insert, keep_if, leb, ltb, if◌then◌else◌,
}
use foilen_box.Model.{Permission}
use foilen_box.Peers.{Peers}
use foilen_box.Access.{is_allowed}

pub data ℤ : Type 0 where
  pos negsuc : ℕ → ℤ

pub record Script : Type 0 where
  pub name : Text
  pub description : Text
  pub command : Text
  pub args : List Text
  pub working_directory : Text

pub record RunRequest : Type 0 where
  pub run_id : Text
  pub name : Text

pub record Completion : Type 0 where
  pub run_id : Text
  pub script_name : Text
  pub exit_code : ℤ
  pub success : Bool
  pub error : Text

pub data Status : Type 0 where
  run_started run_completed run_failed : Status

pub record Run : Type 0 where
  pub run_id : Text
  pub peer_id : Text
  pub script_name : Text
  pub started_at : ℕ
  pub status : Status
  pub exit_code : ℤ
  pub error : Text

-- An hour, in nanoseconds.
abbrev pub run_retention : ℕ
run_retention = 3600000000000

abbrev pub action_run : Text
action_run = codes "common/scripts/run"

find_script : Text → List Script → Option Script
find_script name [] = none
find_script name (s ∷ scripts) = if text_eq s.name name then some s else find_script name scripts

-- What `handleRunStream` answers, and the script it starts.
pub data RunAnswer : Type 0 where
  not_allowed no_such_script : RunAnswer
  starts : Script → RunAnswer

unfoldable pub handle_run : List Permission → Peers → List Script → Text → RunRequest → RunAnswer
unfolding find_script
handle_run perms peers scripts remote req =
    if not (is_allowed perms peers remote action_run)
    then not_allowed
    else elim (find_script req.name scripts) [ none ↦ no_such_script | some s ↦ starts s ]

-- How `cmd.Run()` ended.
pub data Ended : Type 0 where
  succeeded : Ended
  exited : ℤ → Text → Ended
  not_run : Text → Ended

unfoldable pub completion_of : RunRequest → Script → Ended → Completion
completion_of req s succeeded = record {
  run_id = req.run_id;
  script_name = s.name;
  exit_code = pos 0;
  success = true;
  error = [];
}
completion_of req s (exited code error) = record {
  run_id = req.run_id;
  script_name = s.name;
  exit_code = code;
  success = false;
  error = error;
}
completion_of req s (not_run error) = record {
  run_id = req.run_id;
  script_name = s.name;
  exit_code = negsuc 0;
  success = false;
  error = error;
}

abbrev pub with_completion : Completion → Run → Run
with_completion c r = record r {
  status = if c.success then run_completed else run_failed;
  exit_code = c.exit_code;
  error = c.error;
}

unfoldable pub handle_completion : Completion → Map Run → Map Run
handle_completion c runs = elim (lookup c.run_id runs) [
  | none ↦ runs
  | some r ↦ insert c.run_id (with_completion c r) runs
]

-- `!r.StartedAt.Before(cutoff)`, where the cutoff is an hour before now.
abbrev pub is_recent : ℕ → Run → Bool
is_recent now r = leb now (r.started_at + run_retention)

unfoldable pub put_run : ℕ → Run → Map Run → Map Run
put_run now run runs = keep_if (λ r. is_recent now r) (insert run.run_id run runs)

unfoldable pub on_peer_removed : Text → Map Run → Map Run
on_peer_removed id = keep_if (λ r. not (text_eq r.peer_id id))

abbrev pub new_run : Text → Text → Text → ℕ → Run
new_run run_id to script_name now = record {
  run_id = run_id;
  peer_id = to;
  script_name = script_name;
  started_at = now;
  status = run_started;
  exit_code = pos 0;
  error = [];
}

-- `RunScript` once the request is sent; the answer is `none` where none was read. The result says
-- whether it succeeded.
unfoldable pub run_script : Text → Text → Text → ℕ → Option RunAnswer → Map Run → Map Run × Bool
unfolding put_run
run_script run_id to script_name now none runs = (runs, false)
run_script run_id to script_name now (some not_allowed) runs = (runs, false)
run_script run_id to script_name now (some no_such_script) runs = (runs, false)
run_script run_id to script_name now (some (starts s)) runs =
    (put_run now (new_run run_id to script_name now) runs, true)

pub insert_run : Run → List Run → List Run
insert_run x [] = x ∷ []
insert_run x (y ∷ ys) =
    let rest = insert_run x ys in if ltb x.started_at y.started_at then y ∷ rest else x ∷ y ∷ ys

-- The newest first.
unfoldable pub list_runs : Map Run → List Run
unfolding insert_run
list_runs [] = []
list_runs ((id, r) ∷ runs) = insert_run r (list_runs runs)
