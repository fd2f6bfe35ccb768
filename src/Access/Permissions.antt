-- ===== src/Access/Permissions.antt =====
-- What `isAllowed` of realm/relay.go grants, and to whom.
use foilen_box.Prelude.{
  ◌≡◌, ◌≢◌, ◌↔◌, refl, sym, subst, ap, ◌⊎◌, inl, inr, true, false, not, ◌&&◌, ◌||◌, some, List, [],
  ◌∷◌, arith, Text, text_eq, text_eq_iff, contains_text, is_empty, Bool-cases, Option-cases,
}
use foilen_box.Model.{Permission, PeerInfo}
use foilen_box.Peers.{Peers, get}
use foilen_box.Access.{any_name, names_of, grants, is_allowed}

abbrev pub Listed : Permission → List Permission → Type 0
Listed p [] = ⊥
Listed p (q ∷ perms) = (q ≡ p) ⊎ Listed p perms

-- What a permission says of a peer: it names the action, and the peer or one of its groups.
abbrev pub Names : Peers → Text → Text → Permission → Type 0
Names peers id action p =
    (p.action ≡ action)
    × (((p.peer_id ≢ []) × (p.peer_id ≡ id))
        ⊎ ((p.group_name ≢ [])
            × ((info : PeerInfo) × (get id peers ≡ some info)
                × (contains_text info.group_names p.group_name ≡ true))))

contains-any : (name : Text) (names : List Text) → any_name name names ≡ contains_text names name
unfolding any_name contains_text
contains-any name [] = refl
contains-any name (gn ∷ names) = ap (◌||◌ (text_eq gn name)) (contains-any name names)

not_empty : (t : Text) → (not (is_empty t) ≡ true) ↔ (t ≢ [])
not_empty [] = (λ h. cc, λ h. absurd (h refl))
not_empty (x ∷ xs) = (λ h e. cc, λ h. refl)

contains-nil : (s : Text) → contains_text [] s ≡ false
unfolding contains_text
contains-nil s = refl

grants_to :
    (peers : Peers) (id action : Text) (p : Permission)
    → grants peers id action p ≡ true
    → Names peers id action p
unfolding grants names_of
grants_to peers id action p h = elim (Bool-cases (text_eq p.action action)) [
  | inr e ↦ absurd (let f : false ≡ true = rw e at h in cc)
  | inl e ↦ (
    (text_eq_iff p.action action).0 e,
    elim (Bool-cases (not (is_empty p.peer_id) && text_eq p.peer_id id)) [
      | inl k ↦ inl (
        (not_empty p.peer_id).0 (ground (arith, k)),
        (text_eq_iff p.peer_id id).0 (ground (arith, k)),
      )
      | inr k ↦ elim (Option-cases (get id peers)) [
        | inl g ↦
            absurd
              (ground (arith, h, e, k, g, contains-any p.group_name [], contains-nil p.group_name))
        | inr (info, g) ↦ inr (
          (not_empty p.group_name).0 (ground (arith, h, e, k, g)),
          (info, g, ground (arith, h, e, k, g, contains-any p.group_name info.group_names)),
        )
      ]
    ],
  )
]

grants_from :
    (peers : Peers) (id action : Text) (p : Permission)
    → Names peers id action p
    → grants peers id action p ≡ true
unfolding grants names_of
grants_from peers id action p (a, inl (n, e)) =
    let x : text_eq p.action action ≡ true = (text_eq_iff p.action action).1 a in
    let y : text_eq p.peer_id id ≡ true = (text_eq_iff p.peer_id id).1 e in
    let z : not (is_empty p.peer_id) ≡ true = (not_empty p.peer_id).1 n in rw (x, z, y)
grants_from peers id action p (a, inr (n, (info, g, c))) =
    let x : text_eq p.action action ≡ true = (text_eq_iff p.action action).1 a in
    let z : not (is_empty p.group_name) ≡ true = (not_empty p.group_name).1 n in
    ground (arith, x, z, g, c, contains-any p.group_name info.group_names)

-- A peer is allowed an action exactly when some permission names that action and either the peer,
-- by an id that is not empty, or, by a name that is not empty, a group that the store has the peer
-- in.
pub is_allowed_iff :
    (perms : List Permission) (peers : Peers) (id action : Text)
    → (is_allowed perms peers id action ≡ true)
      ↔ ((p : Permission) × Listed p perms × Names peers id action p)
unfolding is_allowed
is_allowed_iff [] peers id action = (λ h. cc, λ (p, l, n). absurd l)
is_allowed_iff (q ∷ perms) peers id action =
    let rest = is_allowed_iff perms peers id action in
    (
      λ h. elim (Bool-cases (grants peers id action q)) [
        | inl e ↦ (q, inl refl, grants_to peers id action q e)
        | inr e ↦ let (p, l, n) = rest.0 (rw e at h) in (p, inr l, n)
      ],
      λ (p, l, n). elim l [
        | inl e ↦ rw (grants_from peers id action q (subst (Names peers id action) (sym e) n))
        | inr l ↦ ground (arith, rest.1 (p, l, n))
      ],
    )
