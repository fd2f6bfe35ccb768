-- ===== src/Scripts/Starting.antt =====
-- Which scripts `handleRunStream` of realm/features/scripts/feature.go starts.
use foilen_box.Prelude.{
  ◌≡◌, sym, ◌∙◌, ap, inl, inr, some, some_inj, List, [], ◌∷◌, Text, text_eq, text_eq_iff, Listed,
  Bool-cases, Option-cases,
}
use foilen_box.Model.{Permission}
use foilen_box.Peers.{Peers}
use foilen_box.Access.{is_allowed}
use foilen_box.Access.Permissions.{Names, is_allowed_iff}
use foilen_box.Scripts.{
  Script, RunRequest, find_script, not_allowed, no_such_script, starts, handle_run, action_run,
}

find_script_lem :
    (name : Text) (scripts : List Script) (s : Script)
    → find_script name scripts ≡ some s
    → Listed s scripts × (s.name ≡ name)
unfolding find_script
find_script_lem name [] s h = cc
find_script_lem name (x ∷ xs) s h = elim (Bool-cases (text_eq x.name name)) [
  | inl e ↦
      let is : x ≡ s = some_inj (rw e at h) in
      (inl is, ap (λ y. y.name) (sym is) ∙ (text_eq_iff x.name name).0 e)
  | inr e ↦ let (l, n) = find_script_lem name xs s (rw e at h) in (inr l, n)
]

-- A script that is started for a peer is one of those configured here, with the name that was asked
-- for, and there is a permission to run scripts for that peer or for a group that it is in.
pub handle_run_lem :
    (perms : List Permission) (peers : Peers) (scripts : List Script) (remote : Text)
    (req : RunRequest) (s : Script)
    → handle_run perms peers scripts remote req ≡ starts s
    → Listed s scripts
      × (s.name ≡ req.name)
      × ((p : Permission) × Listed p perms × Names peers remote action_run p)
unfolding handle_run
handle_run_lem perms peers scripts remote req s h =
    elim (Bool-cases (is_allowed perms peers remote action_run)) [
      | inr e ↦ absurd (let f : not_allowed ≡ starts s = rw (e, handle_run) at h in cc)
      | inl e ↦ elim (Option-cases (find_script req.name scripts)) [
        | inl n ↦ absurd (let f : no_such_script ≡ starts s = rw (e, handle_run, n) at h in cc)
        | inr (t, n) ↦
            let f : starts t ≡ starts s = rw (e, handle_run, n) at h in
            let is : t ≡ s = cc in
            let (listed, name) = find_script_lem req.name scripts s (n ∙ ap some is) in
            let (p, l, names) = (is_allowed_iff perms peers remote action_run).0 e in
            (listed, name, (p, l, names))
      ]
    ]
