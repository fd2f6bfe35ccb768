-- ===== src/Prelude/Sets.antt =====
-- Go's `map[string]bool` used as a set: the keys that are true, each once.
use mathlib.Core.Path.{◌≡◌, refl}
use mathlib.Core.Logic.{inl, inr}
use mathlib.Core.Bool.{not, ◌&&◌, ◌||◌}
use mathlib.Core.List.{List, [], ◌∷◌}
use native.Mathlib.Omega.{arith}
use foilen_box.Prelude.Tests.{if◌then◌else◌, Bool-cases}
use foilen_box.Prelude.Texts.{Text, text_eq, text_eq_iff, contains_text}

unfoldable pub set_add : Text → List Text → List Text
set_add x xs = if contains_text xs x then xs else x ∷ xs

unfoldable pub set_remove : Text → List Text → List Text
set_remove x [] = []
set_remove x (y ∷ ys) = let rest = set_remove x ys in if text_eq x y then rest else y ∷ rest

pub contains_text-set_add :
    (x y : Text) (xs : List Text)
    → contains_text (set_add x xs) y ≡ (contains_text xs y || text_eq x y)
unfolding set_add contains_text
contains_text-set_add x y xs = elim (Bool-cases (contains_text xs x)) [
  | inl e ↦ rw e (ground (arith, e, text_eq_iff x y))
  | inr e ↦ rw e (ground (arith, e, text_eq_iff x y))
]

pub contains_text-set_remove :
    (x y : Text) (xs : List Text)
    → contains_text (set_remove x xs) y ≡ (contains_text xs y && not (text_eq x y))
unfolding set_remove contains_text
contains_text-set_remove x y [] = refl
contains_text-set_remove x y (z ∷ zs) =
    ground
      (arith, text_eq_iff x z, text_eq_iff x y, text_eq_iff z y, contains_text-set_remove x y zs)
