-- ===== src/Scripts/Runs.antt =====
-- What the list of runs of realm/features/scripts/feature.go says of a run.
use foilen_box.Prelude.{
  ℕ, not, ◌≡◌, refl, ◌∙◌, ap, inl, inr, none, some, arith, Text, text_eq, text_eq_iff, text_eq_refl,
  Map, map_option, lookup, insert, lookup-insert, Unique, insert-Unique, only_if, lookup-keep_if,
  if◌then◌else◌, Option-cases,
}
use foilen_box.Scripts.{
  Run, Completion, with_completion, handle_completion, put_run, is_recent, new_run, run_script,
  starts, on_peer_removed, Script, Ended, RunRequest, completion_of, succeeded, exited, not_run,
}

lookup-put_run :
    (now : ℕ) (run : Run) (id : Text) (runs : Map Run)
    → Unique runs
    → lookup id (put_run now run runs)
      ≡ only_if (λ r. is_recent now r) (if text_eq run.run_id id then some run else lookup id runs)
unfolding put_run
lookup-put_run now run id runs u =
    lookup-keep_if (λ r. is_recent now r) id (insert run.run_id run runs)
      (insert-Unique run.run_id run runs u)
    ∙ ap (only_if (λ r. is_recent now r)) (lookup-insert run.run_id id run runs)

pub lookup-handle_completion :
    (c : Completion) (id : Text) (runs : Map Run)
    → lookup id (handle_completion c runs) ≡ (
        if text_eq c.run_id id
        then map_option (with_completion c) (lookup id runs)
        else lookup id runs)
unfolding handle_completion
lookup-handle_completion c id runs = elim (Option-cases (lookup c.run_id runs)) [
  | inl e ↦ rw (e, handle_completion) (ground (arith, e, text_eq_iff c.run_id id))
  | inr (r, e) ↦
      rw (e, handle_completion)
        (ground
          (arith, e, lookup-insert c.run_id id (with_completion c r) runs, text_eq_iff c.run_id id))
]

-- What a listing says after a start, a completion and the removal of a peer: a run that was accepted
-- is there as started and the others stay unless they began more than an hour ago, a completion sets
-- the outcome of its own run alone, and a removal takes away the runs of that peer alone.
pub lookup-runs :
    (run_id to name id : Text) (now : ℕ) (s : Script) (c : Completion) (runs : Map Run)
    → Unique runs
    → (lookup id (run_script run_id to name now (some (starts s)) runs).0 ≡ (
        if text_eq run_id id
        then some (new_run run_id to name now)
        else only_if (λ r. is_recent now r) (lookup id runs)))
      × (lookup id (handle_completion c runs) ≡ (
          if text_eq c.run_id id
          then map_option (with_completion c) (lookup id runs)
          else lookup id runs))
      × (lookup id (on_peer_removed to runs)
          ≡ only_if (λ r. not (text_eq r.peer_id to)) (lookup id runs))
unfolding run_script on_peer_removed
lookup-runs run_id to name id now s c runs u = (
  lookup-put_run now (new_run run_id to name now) id runs u ∙ ground arith,
  lookup-handle_completion c id runs,
  lookup-keep_if (λ r. not (text_eq r.peer_id to)) id runs u,
)

unknown_completion :
    (c : Completion) (runs : Map Run)
    → lookup c.run_id runs ≡ none
    → handle_completion c runs ≡ runs
unfolding handle_completion
unknown_completion c runs e = rw (e, handle_completion) refl

pub completed_run :
    (req : RunRequest) (s : Script) (e : Ended) → (completion_of req s e).run_id ≡ req.run_id
unfolding completion_of
completed_run req s succeeded = refl
completed_run req s (exited code error) = refl
completed_run req s (not_run error) = refl

-- For a run that is not in the list yet: its completion sets its outcome when it arrives after the run
-- was recorded. When it arrives before that, it is dropped, and the run is then listed as started.
pub completion_overtakes :
    (req : RunRequest) (s : Script) (ended : Ended) (to : Text) (now : ℕ) (runs : Map Run)
    → Unique runs
    → lookup req.run_id runs ≡ none
    → let c = completion_of req s ended in
      (lookup req.run_id
          (handle_completion c (run_script req.run_id to req.name now (some (starts s)) runs).0)
        ≡ some (with_completion c (new_run req.run_id to req.name now)))
      × (lookup req.run_id
            (run_script req.run_id to req.name now (some (starts s)) (handle_completion c runs)).0
          ≡ some (new_run req.run_id to req.name now))
unfolding handle_completion
completion_overtakes req s ended to now runs u fresh =
    let c = completion_of req s ended in
    let after = (run_script req.run_id to req.name now (some (starts s)) runs).0 in
    let recorded : lookup req.run_id after ≡ some (new_run req.run_id to req.name now) =
      (lookup-runs req.run_id to req.name req.run_id now s c runs u).0
      ∙ rw (text_eq_refl req.run_id) refl in
    let mine : c.run_id ≡ req.run_id = completed_run req s ended in
    (
      (lookup-handle_completion c req.run_id after
          ∙ rw (mine, text_eq_refl req.run_id, recorded) refl),
      ap (λ m. lookup req.run_id (run_script req.run_id to req.name now (some (starts s)) m).0)
            (unknown_completion c runs (ap (λ i. lookup i runs) mine ∙ fresh))
          ∙ recorded,
    )
