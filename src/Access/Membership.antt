-- ===== src/Access/Membership.antt =====
-- What a change of the configured groups does to the store of peers and to the groups to announce,
-- in realm/peers_helper.go.
use foilen_box.Prelude.{
  ◌≡◌, refl, inl, inr, not, ◌&&◌, List, [], ◌∷◌, arith, Text, text_eq_iff, contains_text,
  Bool-cases,
}
use foilen_box.Model.{Group}
use foilen_box.Peers.{Peers, remove_group_name}
use foilen_box.Peers.Groups.{is_member, is_member-remove}
use foilen_box.Access.{
  group_names_of, group_keys_of, group_key, remove_missing, prune_removed_groups, keep_new,
  added_group_keys,
}

remove_missing_lem :
    (still prev : List Text) (groups : List Group) (j g : Text) (m : Peers)
    → is_member j g (remove_missing still groups m) ≡ (
        is_member j g m
        && not (contains_text (group_names_of groups) g && not (contains_text still g)))
unfolding remove_missing contains_text
remove_missing_lem still prev [] j g m = ground arith
remove_missing_lem still prev (x ∷ xs) j g m = elim (Bool-cases (contains_text still x.name)) [
  | inl e ↦ rw (e, remove_missing_lem still prev xs j g m) (ground (arith, text_eq_iff x.name g, e))
  | inr e ↦
      rw
        (
          e,
          remove_missing_lem still prev xs j g (remove_group_name x.name m),
          is_member-remove x.name j g m,
        )
        (ground (arith, text_eq_iff x.name g, e))
]

-- Pruning takes every peer out of the groups that were configured before and are no longer, and
-- changes no other membership.
pub is_member-prune_removed_groups :
    (prev_groups new_groups : List Group) (j g : Text) (m : Peers)
    → is_member j g (prune_removed_groups prev_groups new_groups m) ≡ (
        is_member j g m
        && not (
            contains_text (group_names_of prev_groups) g
            && not (contains_text (group_names_of new_groups) g)))
unfolding prune_removed_groups
is_member-prune_removed_groups prev_groups new_groups j g m =
    remove_missing_lem (group_names_of new_groups) [] prev_groups j g m

keep_new-keys :
    (prev_keys : List Text) (groups : List Group) (k : Text)
    → contains_text (group_keys_of (keep_new prev_keys groups)) k
      ≡ (contains_text (group_keys_of groups) k && not (contains_text prev_keys k))
unfolding keep_new contains_text
keep_new-keys prev_keys [] k = refl
keep_new-keys prev_keys (g ∷ groups) k = elim (Bool-cases (contains_text prev_keys (group_key g))) [
  | inl e ↦
      rw (e, keep_new-keys prev_keys groups k) (ground (arith, text_eq_iff (group_key g) k, e))
  | inr e ↦
      rw (e, keep_new-keys prev_keys groups k) (ground (arith, text_eq_iff (group_key g) k, e))
]

-- The groups that count as added are those whose private key no earlier group had.
pub keys-added_group_keys :
    (prev_groups new_groups : List Group) (k : Text)
    → contains_text (group_keys_of (added_group_keys prev_groups new_groups)) k ≡ (
        contains_text (group_keys_of new_groups) k
        && not (contains_text (group_keys_of prev_groups) k))
unfolding added_group_keys
keys-added_group_keys prev_groups new_groups k =
    keep_new-keys (group_keys_of prev_groups) new_groups k
