-- ===== src/Scripts/Listing.antt =====
-- What `ListRuns` of realm/features/scripts/feature.go shows after a start, a completion and the
-- removal of a peer.
use foilen_box.Prelude.{
  ℕ, ◌+◌, ◌≤◌, ◌≡◌, ◌≢◌, refl, sym, ◌∙◌, ap, subst, inl, inr, ◌⊎◌, ◌↔◌, Bool, true, false, not,
  Option, none, some, some_inj, List, [], ◌∷◌, arith, ltb, Text, text_eq, text_eq_iff, Map,
  map_option, lookup, insert, insert-Unique, lookup-insert, keep_if, lookup-keep_if, Unique,
  Entries, Entries-insert, Entries-lookup, only_if, if◌then◌else◌, Bool-cases, Option-cases, Listed,
}
use foilen_box.Scripts.{
  pos, negsuc, Run, RunRequest, Script, Ended, succeeded, exited, not_run, run_completed,
  run_failed, completion_of, with_completion, handle_completion, run_script, starts, new_run,
  is_recent, on_peer_removed, insert_run, list_runs, put_run, run_retention,
}
use foilen_box.Scripts.Runs.{lookup-handle_completion, completed_run}

-- A run stands under its own identifier, and no two have the same.
pub record Filed (runs : Map Run) : Type 0 where
  pub unique : Unique runs
  pub keyed : Entries (λ id r. r.run_id ≡ id) runs

Listed-insert_run :
    (a x : Run) (ys : List Run) → Listed a (insert_run x ys) ↔ ((x ≡ a) ⊎ Listed a ys)
unfolding insert_run
Listed-insert_run a x [] = (λ h. h, λ h. h)
Listed-insert_run a x (y ∷ ys) = elim (Bool-cases (ltb x.started_at y.started_at)) [
  | inr e ↦ rw e (λ h. h, λ h. h)
  | inl e ↦
      let (to, from) = Listed-insert_run a x ys in
      rw e (
        λ h. elim h [
          | inl q ↦ inr (inl q)
          | inr r ↦ elim (to r) [ inl q ↦ inl q | inr s ↦ inr (inr s) ]
        ],
        λ h. elim h [
          | inl q ↦ inr (from (inl q))
          | inr r ↦ elim r [ inl q ↦ inl q | inr s ↦ inr (from (inr s)) ]
        ],
      )
]

-- A listing shows exactly the runs that are filed.
Listed-list_runs :
    (a : Run) (runs : Map Run)
    → Unique runs
    → Entries (λ id r. r.run_id ≡ id) runs
    → Listed a (list_runs runs) ↔ (lookup a.run_id runs ≡ some a)
unfolding list_runs lookup
Listed-list_runs a [] u k = (λ h. absurd h, λ h. absurd (let f : none ≡ some a = h in cc))
Listed-list_runs a ((id, r) ∷ runs) u (same, k) =
    let (to, from) = Listed-insert_run a r (list_runs runs) in
    let (down, up) = Listed-list_runs a runs u.1 k in
    (
      λ h. elim (to h) [
        | inl q ↦ rw ((text_eq_iff id a.run_id).1 (sym same ∙ ap (λ x. x.run_id) q)) (ap some q)
        | inr l ↦ elim (Bool-cases (text_eq id a.run_id)) [
          | inr e ↦ rw e (down l)
          | inl e ↦
              let at : id ≡ a.run_id = (text_eq_iff id a.run_id).0 e in
              let gone : lookup a.run_id runs ≡ none = subst (λ i. lookup i runs ≡ none) at u.0 in
              absurd (let f : none ≡ some a = sym gone ∙ down l in cc)
        ]
      ],
      λ h. from (elim (Bool-cases (text_eq id a.run_id)) [
        | inl e ↦ inl (some_inj (rw e at h))
        | inr e ↦ inr (up (rw e at h))
      ]),
    )

module _ (runs : Map Run) (filed : Filed runs) where
  shown_iff : (a : Run) → Listed a (list_runs runs) ↔ (lookup a.run_id runs ≡ some a)
  shown_iff a = Listed-list_runs a runs filed.unique filed.keyed

  insert-Filed : (r : Run) → Filed (insert r.run_id r runs)
  insert-Filed r = record {
    unique = insert-Unique r.run_id r runs filed.unique;
    keyed = Entries-insert (λ id x. x.run_id ≡ id) r.run_id r runs refl filed.keyed;
  }

  lookup_id : (id : Text) (r : Run) → lookup id runs ≡ some r → r.run_id ≡ id
  lookup_id id r e = Entries-lookup (λ i x. x.run_id ≡ i) id runs filed.keyed e

keep_if-gone :
    (good : Run → Bool) (id : Text) (runs : Map Run)
    → lookup id runs ≡ none
    → lookup id (keep_if good runs) ≡ none
unfolding keep_if lookup
keep_if-gone good id [] h = refl
keep_if-gone good id ((j, r) ∷ runs) h = elim (Bool-cases (text_eq j id)) [
  | inl e ↦ absurd (let f : some r ≡ none = rw e at h in cc)
  | inr e ↦ elim (Bool-cases (good r)) [
    | inl g ↦ rw (g, e) (keep_if-gone good id runs (rw e at h))
    | inr g ↦ rw g (keep_if-gone good id runs (rw e at h))
  ]
]

keep_if-Filed : (good : Run → Bool) (runs : Map Run) → Filed runs → Filed (keep_if good runs)
unfolding keep_if lookup
keep_if-Filed good [] f = record { unique = tt; keyed = tt }
keep_if-Filed good ((id, r) ∷ runs) f =
    let rest = keep_if-Filed good runs (record { unique = f.unique.1; keyed = f.keyed.1 }) in
    elim (Bool-cases (good r)) [
      | inl g ↦ rw g (record {
        unique = (keep_if-gone good id runs f.unique.0, rest.unique);
        keyed = (f.keyed.0, rest.keyed);
      })
      | inr g ↦ rw g rest
    ]

only_if_iff :
    (good : Run → Bool) (o : Option Run) (a : Run)
    → (only_if good o ≡ some a) ↔ ((o ≡ some a) × (good a ≡ true))
only_if_iff good none a =
    (λ h. absurd (let f : none ≡ some a = h in cc), λ h. absurd (let f : none ≡ some a = h.0 in cc))
only_if_iff good (some r) a = elim (Bool-cases (good r)) [
  | inl g ↦ rw g (λ h. (h, ap good (sym (some_inj h)) ∙ g), λ h. h.0)
  | inr g ↦ rw g (
    λ h. absurd (let f : none ≡ some a = h in cc),
    λ h. absurd (let f : false ≡ true = sym g ∙ (ap good (some_inj h.0) ∙ h.1) in cc),
  )
]

-- What the end of a command makes of its run.
abbrev pub outcome : Ended → Run → Run
outcome succeeded r = record r { status = run_completed; exit_code = pos 0; error = [] }
outcome (exited code error) r = record r { status = run_failed; exit_code = code; error = error }
outcome (not_run error) r = record r { status = run_failed; exit_code = negsuc 0; error = error }

with_completion-outcome :
    (req : RunRequest) (s : Script) (ended : Ended) (r : Run)
    → with_completion (completion_of req s ended) r ≡ outcome ended r
unfolding completion_of
with_completion-outcome req s succeeded r = refl
with_completion-outcome req s (exited code error) r = refl
with_completion-outcome req s (not_run error) r = refl

outcome_id : (ended : Ended) (r : Run) → (outcome ended r).run_id ≡ r.run_id
outcome_id succeeded r = refl
outcome_id (exited code error) r = refl
outcome_id (not_run error) r = refl

-- A run after the completion of the run of that identifier.
abbrev pub ended_run : Text → Ended → Run → Run
ended_run run_id ended r = if text_eq run_id r.run_id then outcome ended r else r

ended_run_id :
    (run_id : Text) (ended : Ended) (r : Run) → (ended_run run_id ended r).run_id ≡ r.run_id
ended_run_id run_id ended r = elim (Bool-cases (text_eq run_id r.run_id)) [
  | inl e ↦ rw e (outcome_id ended r)
  | inr e ↦ rw e refl
]

module _ (req : RunRequest) (s : Script) (ended : Ended) (runs : Map Run) (filed : Filed runs) where
  handle_completion-Filed : Filed (handle_completion (completion_of req s ended) runs)
  unfolding handle_completion
  handle_completion-Filed =
      let c = completion_of req s ended in
      elim (Option-cases (lookup c.run_id runs)) [
        | inl e ↦ rw (e, handle_completion) filed
        | inr (r, e) ↦
            rw (e, handle_completion)
              (subst (λ id. Filed (insert id (with_completion c r) runs))
                (lookup_id runs filed c.run_id r e) (insert-Filed runs filed (with_completion c r)))
      ]

  lookup-ended :
      (id : Text)
      → lookup id (handle_completion (completion_of req s ended) runs)
        ≡ map_option (ended_run req.run_id ended) (lookup id runs)
  lookup-ended id =
      let c = completion_of req s ended in
      lookup-handle_completion c id runs
      ∙ (rw (completed_run req s ended) (elim (Option-cases (lookup id runs)) [
        | inl e ↦ rw e (ground arith)
        | inr (r, e) ↦
            let same : r.run_id ≡ id = lookup_id runs filed id r e in
            rw (e, with_completion-outcome req s ended r, sym same) (ground arith)
      ]))

  Listed-ended :
      (a : Run)
      → Listed a (list_runs (handle_completion (completion_of req s ended) runs))
        ↔ ((r : Run) × Listed r (list_runs runs) × (ended_run req.run_id ended r ≡ a))
  Listed-ended a =
      let after = handle_completion (completion_of req s ended) runs in
      let (to, from) = shown_iff after handle_completion-Filed a in
      (
        λ h. elim (Option-cases (lookup a.run_id runs)) [
          | inl e ↦ absurd (
              let f : none ≡ some a =
                sym (lookup-ended a.run_id ∙ ap (map_option (ended_run req.run_id ended)) e)
                ∙ to h in
              cc)
          | inr (r, e) ↦
              let is : some (ended_run req.run_id ended r) ≡ some a =
                sym (lookup-ended a.run_id ∙ ap (map_option (ended_run req.run_id ended)) e)
                ∙ to h in
              (
                r,
                (shown_iff runs filed r).1
                    (ap (λ id. lookup id runs) (lookup_id runs filed a.run_id r e) ∙ e),
                some_inj is,
              )
        ],
        λ (r, l, q).
            let same : a.run_id ≡ r.run_id =
              sym (ap (λ x. x.run_id) q) ∙ ended_run_id req.run_id ended r in
            from (
              lookup-ended a.run_id
              ∙ (ap (map_option (ended_run req.run_id ended))
                    (ap (λ id. lookup id runs) same ∙ (shown_iff runs filed r).0 l)
                  ∙ ap some q)),
      )

module _ (to : Text) (runs : Map Run) (filed : Filed runs) where
  Listed-removed :
      (a : Run)
      → Listed a (list_runs (on_peer_removed to runs))
        ↔ (Listed a (list_runs runs) × (a.peer_id ≢ to))
  unfolding on_peer_removed
  Listed-removed a =
      let good = λ (r : Run). not (text_eq r.peer_id to) in
      let (out, back) = shown_iff (keep_if good runs) (keep_if-Filed good runs filed) a in
      let (down, up) = shown_iff runs filed a in
      let at = lookup-keep_if good a.run_id runs filed.unique in
      let (split, join) = only_if_iff good (lookup a.run_id runs) a in
      (
        λ h.
            let (is, ok) = split (sym at ∙ out h) in
            (up is, λ q. ground (arith, ok, (text_eq_iff a.peer_id to).1 q)),
        λ (l, other). back (at ∙ join (down l, ground (arith, other, text_eq_iff a.peer_id to))),
      )

  module _ (run_id name : Text) (now : ℕ) (s : Script) where
    Listed-started :
        (a : Run)
        → Listed a (list_runs (run_script run_id to name now (some (starts s)) runs).0) ↔ (
            (new_run run_id to name now ≡ a)
            ⊎ (Listed a (list_runs runs)
                × (run_id ≢ a.run_id)
                × (now ≤ a.started_at + run_retention)))
    unfolding run_script put_run
    Listed-started a =
        let new = new_run run_id to name now in
        let good = λ (r : Run). is_recent now r in
        let with_new = insert-Filed runs filed new in
        let with_new_at = lookup-insert run_id a.run_id new runs in
        let (out, back) =
          shown_iff (keep_if good (insert run_id new runs))
            (keep_if-Filed good (insert run_id new runs) with_new) a in
        let (down, up) = shown_iff runs filed a in
        let at = lookup-keep_if good a.run_id (insert run_id new runs) with_new.unique in
        let (split, join) = only_if_iff good (lookup a.run_id (insert run_id new runs)) a in
        (
          λ h.
              let (is, ok) = split (sym at ∙ out h) in
              elim (Bool-cases (text_eq run_id a.run_id)) [
                | inl e ↦ inl (some_inj (rw e at (sym with_new_at ∙ is)))
                | inr e ↦ inr (
                  up (rw e at (sym with_new_at ∙ is)),
                  λ q. ground (arith, e, (text_eq_iff run_id a.run_id).1 q),
                  ground (arith, ok),
                )
              ],
          λ h. elim h [
            | inl q ↦ back (
                at
                ∙ join (
                  with_new_at
                      ∙ rw ((text_eq_iff run_id a.run_id).1 (ap (λ x. x.run_id) q)) (ap some q),
                  ap good (sym q) ∙ ground arith,
                ))
            | inr (l, other, recent) ↦ back (
                at
                ∙ join (
                  with_new_at ∙ ground (arith, other, down l, text_eq_iff run_id a.run_id),
                  ground (arith, recent),
                ))
          ],
        )

-- What the list of runs shows when the runs are filed under their own identifiers, each once. After a
-- start that was accepted: the new run, as started, and the runs shown before that have another
-- identifier and began at most an hour ago. After the completion that the other peer makes of how
-- the command ended: the runs shown before, of which the one of that identifier is now completed with
-- exit code 0 and no error where the command succeeded, failed with its exit code and error where it
-- exited with one, and failed with -1 and the error where it could not run. After the removal of a
-- peer: the runs shown before that are not that peer's. In all three cases the runs stay filed.
pub list_runs_lem :
    (req : RunRequest) (s : Script) (ended : Ended) (to : Text) (now : ℕ) (runs : Map Run) (a : Run)
    → Filed runs
    → let started = (run_script req.run_id to req.name now (some (starts s)) runs).0 in
      let completed = handle_completion (completion_of req s ended) runs in
      let removed = on_peer_removed to runs in
      (Listed a (list_runs started) ↔ (
        (new_run req.run_id to req.name now ≡ a)
        ⊎ (Listed a (list_runs runs)
            × (req.run_id ≢ a.run_id)
            × (now ≤ a.started_at + run_retention))))
      × (Listed a (list_runs completed)
          ↔ ((r : Run) × Listed r (list_runs runs) × (ended_run req.run_id ended r ≡ a)))
      × (Listed a (list_runs removed) ↔ (Listed a (list_runs runs) × (a.peer_id ≢ to)))
      × Filed started
      × Filed completed
      × Filed removed
unfolding run_script put_run on_peer_removed
list_runs_lem req s ended to now runs a filed =
    let new = new_run req.run_id to req.name now in
    (
      Listed-started to runs filed req.run_id req.name now s a,
      Listed-ended req s ended runs filed a,
      Listed-removed to runs filed a,
      keep_if-Filed _ (insert req.run_id new runs) (insert-Filed runs filed new),
      handle_completion-Filed req s ended runs filed,
      keep_if-Filed _ runs filed,
    )
