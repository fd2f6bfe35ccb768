-- ===== src/Peers/Groups.antt =====
-- Group names of the peers in realm/peers/store.go, seen as sets.
use foilen_box.Prelude.{
  ◌≡◌, refl, inl, inr, Bool, true, false, not, ◌&&◌, ◌||◌, Option, none, some, List, [], ◌∷◌, ◌++◌,
  arith, Text, lookup, map_option, lookup-insert, lookup-map_values, text_eq, text_eq_iff,
  contains_text, contains_text-append, if◌then◌else◌, Option-cases,
}
use foilen_box.Model.{PeerInfo}
use foilen_box.Peers.{Peers, update_peer, add_group_name, without, remove_group_name}

abbrev groups_in : Option PeerInfo → List Text
groups_in none = []
groups_in (some p) = p.group_names

abbrev pub known : Option PeerInfo → Bool
known none = false
known (some p) = true

-- Whether the store says that a peer is in a group.
unfoldable pub is_member : Text → Text → Peers → Bool
is_member id name m = contains_text (groups_in (lookup id m)) name

contains-without :
    (name g : Text) (gs : List Text)
    → contains_text (without name gs) g ≡ (contains_text gs g && not (text_eq name g))
unfolding without contains_text
contains-without name g [] = refl
contains-without name g (x ∷ xs) =
    ground
      (arith, text_eq_iff x name, text_eq_iff x g, text_eq_iff name g, contains-without name g xs)

lookup-update_peer :
    (f : PeerInfo → PeerInfo) (id j : Text) (m : Peers)
    → lookup j (update_peer f id m)
      ≡ (if text_eq id j then map_option f (lookup j m) else lookup j m)
unfolding update_peer
lookup-update_peer f id j m = elim (Option-cases (lookup id m)) [
  | inl e ↦ ground (arith, text_eq_iff id j)
  | inr (p, e) ↦ ground (arith, lookup-insert id j (f p) m, text_eq_iff id j)
]

abbrev add_to : Text → PeerInfo → PeerInfo
add_to name p =
    if contains_text p.group_names name
    then p
    else record p { group_names = p.group_names ++ name ∷ [] }

contains-nil : (s : Text) → contains_text [] s ≡ false
unfolding contains_text
contains-nil s = refl

add_to-contains :
    (name g : Text) (p : PeerInfo)
    → contains_text (add_to name p).group_names g
      ≡ (contains_text p.group_names g || text_eq name g)
unfolding contains_text
add_to-contains name g p =
    ground (arith, contains_text-append p.group_names (name ∷ []) g, text_eq_iff name g)

-- `AddGroupName` puts a known peer in that group, and changes no other membership.
pub is_member-add :
    (name id j g : Text) (m : Peers)
    → is_member j g (add_group_name name id m)
      ≡ (is_member j g m || (known (lookup id m) && text_eq id j && text_eq name g))
unfolding is_member add_group_name
is_member-add name id j g m =
    rw (lookup-update_peer (add_to name) id j m) (elim (Option-cases (lookup j m)) [
      | inl e ↦ rw e (ground (arith, text_eq_iff id j, contains-nil g))
      | inr (p, e) ↦ rw e (ground (arith, text_eq_iff id j, add_to-contains name g p))
    ])

-- `RemoveGroupName` takes every peer out of that group, and changes no other membership.
pub is_member-remove :
    (name j g : Text) (m : Peers)
    → is_member j g (remove_group_name name m) ≡ (is_member j g m && not (text_eq name g))
unfolding is_member remove_group_name
is_member-remove name j g m =
    rw (lookup-map_values (λ id p. record p { group_names = without name p.group_names }) j m)
      (elim (Option-cases (lookup j m)) [
        | inl e ↦ rw e (ground (arith, contains-nil g))
        | inr (p, e) ↦ rw e (contains-without name g p.group_names)
      ])
