-- ===== src/Prelude/Prefixes.antt =====
-- `strings.HasPrefix` and `strings.TrimPrefix`.
use mathlib.Core.Path.{◌≡◌, refl, ap, ◌∙◌}
use mathlib.Core.Bool.{Bool, true, false}
use mathlib.Core.Option.{Option, none, some}
use mathlib.Core.List.{[], ◌∷◌, ◌++◌}
use mathlib.Core.Logic.{inl, inr}
use foilen_box.Prelude.Tests.{◌==◌, ==_iff, if◌then◌else◌, Bool-cases}
use foilen_box.Prelude.Texts.{Text, text_eq}

-- What is left of a text after a prefix, if it has that prefix.
unfoldable pub cut_prefix : Text → Text → Option Text
cut_prefix [] t = some t
cut_prefix (x ∷ p) [] = none
cut_prefix (x ∷ p) (y ∷ t) = let rest = cut_prefix p t in if x == y then rest else none

abbrev is_cut : Option Text → Bool
is_cut none = false
is_cut (some t) = true

abbrev or_whole : Text → Option Text → Text
or_whole t none = t
or_whole t (some rest) = rest

unfoldable pub has_prefix : Text → Text → Bool
has_prefix p t = is_cut (cut_prefix p t)

unfoldable pub trim_prefix : Text → Text → Text
trim_prefix p t = or_whole t (cut_prefix p t)

pub cut_prefix-append : (p t : Text) → cut_prefix p (p ++ t) ≡ some t
unfolding cut_prefix
cut_prefix-append [] t = refl
cut_prefix-append (x ∷ p) t = rw ((==_iff x x).1 refl) (cut_prefix-append p t)

pub has_prefix-append : (p t : Text) → has_prefix p (p ++ t) ≡ true
unfolding has_prefix
has_prefix-append p t = rw (cut_prefix-append p t)

pub trim_prefix-append : (p t : Text) → trim_prefix p (p ++ t) ≡ t
unfolding trim_prefix
trim_prefix-append p t = rw (cut_prefix-append p t)

cut_prefix-rest : (p t rest : Text) → cut_prefix p t ≡ some rest → p ++ rest ≡ t
unfolding cut_prefix
cut_prefix-rest [] t rest h = cc
cut_prefix-rest (x ∷ p) [] rest h = cc
cut_prefix-rest (x ∷ p) (y ∷ t) rest h = elim (Bool-cases (x == y)) [
  | inl e ↦
      let same : x ≡ y = (==_iff x y).0 e in
      ap (◌∷◌ x) (cut_prefix-rest p t rest (rw e at h)) ∙ ap (λ z. z ∷ t) same
  | inr e ↦ absurd (let f : none ≡ some rest = rw e at h in cc)
]

pub append-trim_prefix : (p t : Text) → has_prefix p t ≡ true → p ++ trim_prefix p t ≡ t
unfolding has_prefix trim_prefix
append-trim_prefix p t h = go (cut_prefix p t) refl
  where
    go : (o : Option Text) → cut_prefix p t ≡ o → p ++ or_whole t (cut_prefix p t) ≡ t
    go none e = absurd (let f : false ≡ true = rw e at h in cc)
    go (some rest) e = rw e (cut_prefix-rest p t rest e)

pub text_eq-append : (p s t : Text) → text_eq (p ++ s) (p ++ t) ≡ text_eq s t
unfolding text_eq
text_eq-append [] s t = refl
text_eq-append (x ∷ p) s t = rw ((==_iff x x).1 refl) (text_eq-append p s t)
