-- ===== src/Model/Labels.antt =====
-- realm/model/label.go.
use foilen_box.Prelude.{
  ◌-◌, ◌≤◌, none, some, List, [], ◌∷◌, ◌++◌, Text, codes, length, drop, arith, leb, if◌then◌else◌,
  is_empty, length-append, length-drop,
}
use foilen_box.Model.{PeerInfo, Group, Identity, find_group_by_id}

unfoldable pub short_id : Text → Text
short_id id =
    if leb (length id) 6
    then codes "[" ++ (id ++ codes "]")
    else codes "[" ++ (drop (length id - 6) id ++ codes "]")

-- `strings.Join(parts, " ")`
join_words : List Text → Text
join_words [] = []
join_words (p ∷ []) = p
join_words (p ∷ q ∷ ps) = p ++ (codes " " ++ join_words (q ∷ ps))

unfoldable pub peer_label : PeerInfo → Text
unfolding join_words short_id
peer_label p =
    let host = if is_empty p.hostname then [] else p.hostname ∷ [] in
    let about =
      if is_empty p.description then [] else (codes "(" ++ (p.description ++ codes ")")) ∷ [] in
    join_words (host ++ (about ++ short_id p.id ∷ []))

unfoldable pub group_label : Group → Text
unfolding short_id
group_label g = g.name ++ (codes " " ++ short_id g.key_pair.id)

unfoldable pub identity_label : Identity → Text
unfolding short_id
identity_label i = i.name ++ (codes " " ++ short_id i.key_pair.id)

-- `GroupLabel`
unfoldable pub label_of_group_id : List Group → Text → Text
unfolding group_label
label_of_group_id groups id = elim (find_group_by_id groups id) [
  | some g ↦ group_label g
  | none ↦ short_id id
]

-- A label shows at most the last six bytes of an id, in brackets, so it has at most eight.
pub length-short_id : (id : Text) → length (short_id id) ≤ 8
unfolding short_id
length-short_id id = ground (
  arith,
  length-append id (codes "]"),
  length-append (drop (length id - 6) id) (codes "]"),
  length-drop (length id - 6) id,
)
