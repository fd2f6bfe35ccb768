-- ===== src/Services/Removal.antt =====
-- What is left of the table in realm/features/services/feature.go when a peer is removed.
use foilen_box.Prelude.{
  ℕ, ◌≡◌, ◌≢◌, refl, sym, ◌∙◌, ap, ◌⊎◌, inl, inr, Bool, true, false, some, List, [], ◌∷◌, arith,
  Text, Map, lookup, get_elem?, text_eq, text_eq_iff, if◌then◌else◌, Bool-cases, Option-cases,
}
use foilen_box.Tunnel.{shutdown}
use foilen_box.Services.{
  Entry, Feature, set_session, remove_session, shut, served_by, shut_all, end_sessions_of,
}
use foilen_box.Services.Table.{IsValid, remains, shut-IsValid}

abbrev Among : ℕ → List ℕ → Type 0
Among n [] = ⊥
Among n (m ∷ ms) = (m ≡ n) ⊎ Among n ms

set_session-sessions :
    (n : ℕ) (x : Entry) (f : Feature) (key : Text)
    → lookup key (remove_session x.key n (set_session n (shutdown x.session) f)).sessions
      ≡ lookup key (remove_session x.key n f).sessions
unfolding remove_session set_session
set_session-sessions n x f key = ground arith

pick :
    (b : Bool) (f g : Feature) (key : Text) (n : ℕ)
    → lookup key (if b then f else g).sessions ≡ some n
    → ((b ≡ true) × (lookup key f.sessions ≡ some n))
      ⊎ ((b ≡ false) × (lookup key g.sessions ≡ some n))
pick true f g key n h = inl (refl, h)
pick false f g key n h = inr (refl, h)

-- Once a session is shut, the table names it no more, and nothing that it did not name before.
shut_drops :
    (m : ℕ) (f : Feature) (key : Text) (n : ℕ)
    → IsValid f
    → lookup key (shut m f).sessions ≡ some n
    → (lookup key f.sessions ≡ some n) × (m ≢ n)
unfolding shut
shut_drops m f key n v h = elim (Option-cases (get_elem? f.heap m)) [
  | inl e ↦
      let was : lookup key f.sessions ≡ some n = rw (e, shut) at h in
      (
        was,
        λ q.
            let s = v.sound key n was in
            let here = s.stands in let gone = ap (get_elem? f.heap) (sym q) ∙ e in cc,
      )
  | inr (x, e) ↦
      elim (pick x.session.closed f (remove_session x.key m (set_session m (shutdown x.session) f))
        key n (rw (e, shut) at h)) [
          | inl (c, was) ↦ (
            was,
            λ q.
                let s = v.sound key n was in
                let same : some x ≡ some s.entry = sym e ∙ ap (get_elem? f.heap) q ∙ s.stands in
                let at : x ≡ s.entry = cc in
                let shut_ = sym c ∙ ap (λ y. y.session.closed) at ∙ s.open_ in cc,
          )
          | inr (c, left) ↦ remains f key m n x v e (sym (set_session-sessions m x f key) ∙ left)
        ]
]

shut_all_drops :
    (ns : List ℕ) (f : Feature) (key : Text) (n : ℕ)
    → IsValid f
    → lookup key (shut_all ns f).sessions ≡ some n
    → (lookup key f.sessions ≡ some n) × (Among n ns → ⊥)
unfolding shut_all
shut_all_drops [] f key n v h = (h, λ a. a)
shut_all_drops (m ∷ ns) f key n v h =
    let (was, apart) = shut_all_drops ns (shut m f) key n (shut-IsValid m f v) h in
    let (first, ne) = shut_drops m f key n v was in
    (first, λ a. elim a [ inl q ↦ ne q | inr r ↦ apart r ])

served_by-Among :
    (id : Text) (heap : List Entry) (sessions : Map ℕ) (key : Text) (n : ℕ) (e : Entry)
    → lookup key sessions ≡ some n
    → get_elem? heap n ≡ some e
    → e.peer_id ≡ id
    → Among n (served_by id heap sessions)
unfolding served_by lookup
served_by-Among id heap [] key n e h g p = cc
served_by-Among id heap ((k, m) ∷ sessions) key n e h g p = elim (Bool-cases (text_eq k key)) [
  | inl q ↦
      let at : m ≡ n = (let r : some m ≡ some n = rw q at h in cc) in
      let is : get_elem? heap m ≡ some e = ap (get_elem? heap) at ∙ g in
      let served : text_eq e.peer_id id ≡ true = (text_eq_iff e.peer_id id).1 p in
      rw (is, served_by, served) (inl at)
  | inr q ↦
      let rest = served_by-Among id heap sessions key n e (rw q at h) g p in
      elim (Option-cases (get_elem? heap m)) [
        | inl a ↦ rw (a, served_by) rest
        | inr (x, a) ↦ elim (Bool-cases (text_eq x.peer_id id)) [
          | inl b ↦ rw (a, served_by, b) (inr rest)
          | inr b ↦ rw (a, served_by, b) rest
        ]
      ]
]

-- After a peer is removed, the table names only sessions that it named before and that serve
-- another peer.
pub end_sessions_of_lem :
    (id key : Text) (n : ℕ) (e : Entry) (f : Feature)
    → IsValid f
    → lookup key (end_sessions_of id f).sessions ≡ some n
    → get_elem? f.heap n ≡ some e
    → (lookup key f.sessions ≡ some n) × (e.peer_id ≢ id)
unfolding end_sessions_of
end_sessions_of_lem id key n e f v h g =
    let (was, apart) = shut_all_drops (served_by id f.heap f.sessions) f key n v h in
    (was, λ p. apart (served_by-Among id f.heap f.sessions key n e was g p))
