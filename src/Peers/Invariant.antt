-- ===== src/Peers/Invariant.antt =====
-- What every operation of realm/peers/store.go keeps.
use foilen_box.Prelude.{
  ℕ, ◌≡◌, refl, inl, inr, Bool, true, false, List, [], ◌∷◌, ◌++◌, arith, Text, Map, lookup, Entries,
  Entries-lookup, Entries-insert, Entries-delete, Entries-map_values, text_eq, contains_text,
  if◌then◌else◌, Bool-cases, Option-cases, is_empty, sort_by,
}
use foilen_box.Model.{PeerInfo}
use foilen_box.Peers.{
  Peers, no_peer, get_or, merge_addresses, upsert, update_peer, set_connected_on, set_connected,
  set_hostname_description, set_announced_addresses, clear_discovered, clear_discovered_addresses,
  clear_all_discovered_addresses, add_group_name, without, remove_group_name, prune_stale, is_stale,
  remove, removable, reset_all_connected, with_sources,
}
use foilen_box.Peers.Merge.{Distinct, Distinct-snoc}

-- An entry stands under its own id, shows the merge of its sources, and names each group once.
pub record Good (id : Text) (p : PeerInfo) : Type 0 where
  pub keyed : p.id ≡ id
  pub merged : p.addresses ≡ merge_addresses p.addresses_by_source
  pub groups : Distinct p.group_names

abbrev pub IsValid : Peers → Type 0
IsValid = Entries Good

-- Every operation that writes the store.
pub data Op : Type 0 where
  upserts : PeerInfo → Text → Op
  connects : Bool → ℕ → Text → Op
  describes : Text → Text → Bool → Text → Text → Op
  announces : List Text → Text → Op
  clears : Text → Op
  clears_all : Op
  adds_group : Text → Text → Op
  removes_group : Text → Op
  prunes : ℕ → Op
  removes : Text → Op
  resets : Op

pub apply : Op → Peers → Peers
apply (upserts info source) m = upsert info source m
apply (connects c now id) m = set_connected c now id m
apply (describes host about relay version id) m =
    set_hostname_description host about relay version id m
apply (announces addrs id) m = set_announced_addresses addrs id m
apply (clears id) m = (clear_discovered_addresses id m).0
apply clears_all m = clear_all_discovered_addresses m
apply (adds_group name id) m = add_group_name name id m
apply (removes_group name) m = remove_group_name name m
apply (prunes cutoff) m = (prune_stale cutoff m).0
apply (removes id) m = (remove id m).0
apply resets m = reset_all_connected m

update_peer-IsValid :
    (f : PeerInfo → PeerInfo) (id : Text) (m : Peers)
    → ((p : PeerInfo) → Good id p → Good id (f p))
    → IsValid m
    → IsValid (update_peer f id m)
unfolding update_peer
update_peer-IsValid f id m keep v = elim (Option-cases (lookup id m)) [
  | inl e ↦ rw (e, update_peer) v
  | inr (p, e) ↦
      rw (e, update_peer) (Entries-insert Good id (f p) m (keep p (Entries-lookup Good id m v e)) v)
]

set_connected_on-Good :
    (c : Bool) (now : ℕ) (id : Text) (p : PeerInfo) → Good id p → Good id (set_connected_on c now p)
unfolding set_connected_on
set_connected_on-Good true now id p g = record {
  keyed = g.keyed;
  merged = g.merged;
  groups = g.groups;
}
set_connected_on-Good false now id p g = record {
  keyed = g.keyed;
  merged = g.merged;
  groups = g.groups;
}

sources-Good :
    (by_source : Map (List Text)) (id : Text) (p : PeerInfo)
    → Good id p
    → Good id (with_sources by_source p)
sources-Good by_source id p g = record { keyed = g.keyed; merged = refl; groups = g.groups }

without-contains :
    (name x : Text) (gs : List Text)
    → contains_text gs x ≡ false
    → contains_text (without name gs) x ≡ false
unfolding without contains_text
without-contains name x [] h = refl
without-contains name x (g ∷ gs) h = ground (arith, without-contains name x gs)

without-Distinct : (name : Text) (gs : List Text) → Distinct gs → Distinct (without name gs)
unfolding without
without-Distinct name [] d = tt
without-Distinct name (g ∷ gs) d = elim (Bool-cases (text_eq g name)) [
  | inl e ↦ rw e (without-Distinct name gs d.1)
  | inr e ↦ rw e (without-contains name g gs d.0, without-Distinct name gs d.1)
]

prune_stale-IsValid : (cutoff : ℕ) (m : Peers) → IsValid m → IsValid (prune_stale cutoff m).0
unfolding prune_stale
prune_stale-IsValid cutoff [] v = tt
prune_stale-IsValid cutoff ((id, p) ∷ m) v = elim (Bool-cases (is_stale cutoff p)) [
  | inl e ↦ rw e (prune_stale-IsValid cutoff m v.1)
  | inr e ↦ rw e (v.0, prune_stale-IsValid cutoff m v.1)
]

merge_empty : [] ≡ merge_addresses []
unfolding merge_addresses sort_by lookup
merge_empty = refl

existing-merged :
    (id : Text) (m : Peers)
    → IsValid m
    → let e = get_or no_peer (lookup id m) in e.addresses ≡ merge_addresses e.addresses_by_source
existing-merged id m v = elim (Option-cases (lookup id m)) [
  | inl e ↦ rw e merge_empty
  | inr (p, e) ↦ rw e (Entries-lookup Good id m v e).merged
]

upsert-IsValid :
    (info : PeerInfo) (source : Text) (m : Peers)
    → Distinct info.group_names
    → IsValid m
    → IsValid (upsert info source m)
unfolding upsert
upsert-IsValid info source m d v = elim (Bool-cases (is_empty source)) [
  | inl e ↦ rw e (
      Entries-insert Good info.id _ m
        (record { keyed = refl; merged = existing-merged info.id m v; groups = d }) v)
  | inr e ↦
      rw e (Entries-insert Good info.id _ m (record { keyed = refl; merged = refl; groups = d }) v)
]

add_group-Good :
    (name id : Text) (p : PeerInfo)
    → Good id p
    → Good id (
        if contains_text p.group_names name
        then p
        else record p { group_names = p.group_names ++ name ∷ [] })
add_group-Good name id p g = elim (Bool-cases (contains_text p.group_names name)) [
  | inl e ↦ rw e g
  | inr e ↦ rw e (record {
    keyed = g.keyed;
    merged = g.merged;
    groups = Distinct-snoc p.group_names name g.groups e;
  })
]

remove-IsValid : (id : Text) (m : Peers) → IsValid m → IsValid (remove id m).0
unfolding remove
remove-IsValid id m v = elim (Bool-cases (removable (lookup id m))) [
  | inl e ↦ rw e (Entries-delete Good id m v)
  | inr e ↦ rw e v
]

-- An upsert brings group names of its own; the other operations bring nothing that could clash.
abbrev pub Proper : Op → Type 0
Proper (upserts info source) = Distinct info.group_names
Proper _ = Unit {0}

-- Every operation leaves each entry under its own id, its addresses the merge of its sources, and
-- its group names distinct; for an upsert this takes that the group names of the given peer are
-- distinct, since the upsert stores them as they are.
pub apply-IsValid : (op : Op) (m : Peers) → Proper op → IsValid m → IsValid (apply op m)
unfolding apply
apply-IsValid (upserts info source) m d v = upsert-IsValid info source m d v
apply-IsValid (connects c now id) m d v =
    unfold set_connected in update_peer-IsValid _ id m (set_connected_on-Good c now id) v
apply-IsValid (describes host about relay version id) m d v =
    unfold set_hostname_description in
    update_peer-IsValid _ id m
      (λ p g. record { keyed = g.keyed; merged = g.merged; groups = g.groups }) v
apply-IsValid (announces addrs id) m d v =
    unfold set_announced_addresses in update_peer-IsValid _ id m (λ p g. sources-Good _ id p g) v
apply-IsValid (clears id) m d v =
    unfold clear_discovered_addresses clear_discovered in
    update_peer-IsValid _ id m (λ p g. sources-Good _ id p g) v
apply-IsValid clears_all m d v =
    unfold clear_all_discovered_addresses clear_discovered in
    Entries-map_values Good _ m (λ id p g. sources-Good _ id p g) v
apply-IsValid (adds_group name id) m d v =
    unfold add_group_name in update_peer-IsValid _ id m (λ p g. add_group-Good name id p g) v
apply-IsValid (removes_group name) m d v =
    unfold remove_group_name in
    Entries-map_values Good _ m
      (λ id p g. record {
        keyed = g.keyed;
        merged = g.merged;
        groups = without-Distinct name p.group_names g.groups;
      })
      v
apply-IsValid (prunes cutoff) m d v = prune_stale-IsValid cutoff m v
apply-IsValid (removes id) m d v = remove-IsValid id m v
apply-IsValid resets m d v =
    unfold reset_all_connected in
    Entries-map_values Good _ m
      (λ id p g. record { keyed = g.keyed; merged = g.merged; groups = g.groups }) v
