-- ===== src/Prelude/Sorting.antt =====
-- `sort.Strings` and `sort.Slice` by a string key: an ordered list with the same members.
use mathlib.Core.Path.{◌≡◌, refl}
use mathlib.Core.Bool.{true, ◌||◌}
use mathlib.Core.List.{List, [], ◌∷◌, Perm}
use mathlib.Core.List.Perm
use native.Mathlib.Omega.{arith}
use foilen_box.Prelude.Tests.{if◌then◌else◌, Bool-cases}
use mathlib.Core.Logic.{inl, inr}
use foilen_box.Prelude.Texts.{Text, text_le, text_le_total, text_le_trans, contains_text, text_eq}

module _ {ℓ} {A : Type ℓ} (key : A → Text) where
  insert_by : A → List A → List A
  insert_by x [] = x ∷ []
  insert_by x (y ∷ ys) = if text_le (key x) (key y) then x ∷ y ∷ ys else y ∷ insert_by x ys

  unfoldable pub sort_by : List A → List A
  unfolding insert_by
  sort_by [] = []
  sort_by (x ∷ xs) = insert_by x (sort_by xs)

  -- Each key is at most every later one.
  abbrev pub Above : Text → List A → Type 0
  Above k [] = Unit
  Above k (x ∷ xs) = (text_le k (key x) ≡ true) × Above k xs

  abbrev pub IsSorted : List A → Type 0
  IsSorted [] = Unit
  IsSorted (x ∷ xs) = Above (key x) xs × IsSorted xs

  Above-mono : (j k : Text) (xs : List A) → text_le j k ≡ true → Above k xs → Above j xs
  Above-mono j k [] h a = tt
  Above-mono j k (x ∷ xs) h a = (text_le_trans j k (key x) h a.0, Above-mono j k xs h a.1)

  Above-insert_by :
      (k : Text) (x : A) (ys : List A)
      → text_le k (key x) ≡ true
      → Above k ys
      → Above k (insert_by x ys)
  unfolding insert_by
  Above-insert_by k x [] h a = (h, tt)
  Above-insert_by k x (y ∷ ys) h a = elim (Bool-cases (text_le (key x) (key y))) [
    | inl e ↦ rw e (h, a)
    | inr e ↦ rw e (a.0, Above-insert_by k x ys h a.1)
  ]

  insert_by-IsSorted : (x : A) (ys : List A) → IsSorted ys → IsSorted (insert_by x ys)
  unfolding insert_by
  insert_by-IsSorted x [] s = (tt, tt)
  insert_by-IsSorted x (y ∷ ys) s = elim (Bool-cases (text_le (key x) (key y))) [
    | inl e ↦ rw e ((e, Above-mono (key x) (key y) ys e s.0), s)
    | inr e ↦ rw e (
      Above-insert_by (key y) x ys (text_le_total (key x) (key y) e) s.0,
      insert_by-IsSorted x ys s.1,
    )
  ]

  pub sort_by-IsSorted : (xs : List A) → IsSorted (sort_by xs)
  unfolding sort_by
  sort_by-IsSorted [] = tt
  sort_by-IsSorted (x ∷ xs) = insert_by-IsSorted x (sort_by xs) (sort_by-IsSorted xs)

  insert_by-perm : (x : A) (ys : List A) → Perm (insert_by x ys) (x ∷ ys)
  unfolding insert_by
  insert_by-perm x [] = Perm.refl _
  insert_by-perm x (y ∷ ys) = elim (Bool-cases (text_le (key x) (key y))) [
    | inl e ↦ rw e (Perm.refl _)
    | inr e ↦ rw e (Perm.trans (Perm.cons y (insert_by-perm x ys)) (Perm.swap x y ys))
  ]

  pub sort_by-perm : (xs : List A) → Perm (sort_by xs) xs
  unfolding sort_by
  sort_by-perm [] = Perm.refl _
  sort_by-perm (x ∷ xs) = Perm.trans (insert_by-perm x (sort_by xs)) (Perm.cons x (sort_by-perm xs))

abbrev pub sort_texts : List Text → List Text
sort_texts = sort_by (λ t. t)

contains-insert_by :
    (x : Text) (ys : List Text) (s : Text)
    → contains_text (insert_by (λ t. t) x ys) s ≡ (text_eq x s || contains_text ys s)
unfolding contains_text insert_by
contains-insert_by x [] s = refl
contains-insert_by x (y ∷ ys) s = ground (arith, contains-insert_by x ys s)

pub contains_text-sort :
    (xs : List Text) (s : Text) → contains_text (sort_texts xs) s ≡ contains_text xs s
unfolding contains_text sort_by
contains_text-sort [] s = refl
contains_text-sort (x ∷ xs) s =
    ground (arith, contains-insert_by x (sort_texts xs) s, contains_text-sort xs s)
