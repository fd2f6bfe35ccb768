-- ===== src/Prelude/Times.antt =====
-- `sort.Slice` by a number: an ordered list with the same members. Equal numbers come in some order.
use Prim.Native.Nat.{ℕ, ◌≤◌}
use mathlib.Core.Path.{◌≡◌}
use mathlib.Core.Logic.{◌↔◌, ◌⊎◌, inl, inr}
use mathlib.Core.List.{List, [], ◌∷◌, ◌++◌}
use native.Mathlib.Omega.{arith}
use foilen_box.Prelude.Tests.{leb, if◌then◌else◌, Bool-cases}

-- Membership, with the place where it stands.
abbrev pub Listed : {A : Type 0} → A → List A → Type 0
Listed a [] = ⊥
Listed a (x ∷ xs) = (x ≡ a) ⊎ Listed a xs

pub Listed-append :
    {A : Type 0} (a : A) (xs ys : List A) → Listed a (xs ++ ys) → Listed a xs ⊎ Listed a ys
Listed-append a [] ys l = inr l
Listed-append a (x ∷ xs) ys (inl q) = inl (inl q)
Listed-append a (x ∷ xs) ys (inr r) = elim (Listed-append a xs ys r) [
  | inl s ↦ inl (inr s)
  | inr s ↦ inr s
]

module _ {A : Type 0} (time : A → ℕ) where
  insert_on : A → List A → List A
  insert_on x [] = x ∷ []
  insert_on x (y ∷ ys) =
      let rest = insert_on x ys in if leb (time x) (time y) then x ∷ y ∷ ys else y ∷ rest

  unfoldable pub sort_on : List A → List A
  unfolding insert_on
  sort_on [] = []
  sort_on (x ∷ xs) = insert_on x (sort_on xs)

  abbrev pub From : ℕ → List A → Type 0
  From n [] = Unit {0}
  From n (x ∷ xs) = (n ≤ time x) × From n xs

  abbrev pub Rising : List A → Type 0
  Rising [] = Unit {0}
  Rising (x ∷ xs) = From (time x) xs × Rising xs

  From-mono : (m n : ℕ) (xs : List A) → m ≤ n → From n xs → From m xs
  From-mono m n [] h f = tt
  From-mono m n (x ∷ xs) h f = (omega (arith, f.0), From-mono m n xs h f.1)

  From-insert_on : (n : ℕ) (x : A) (ys : List A) → n ≤ time x → From n ys → From n (insert_on x ys)
  unfolding insert_on
  From-insert_on n x [] h f = (h, tt)
  From-insert_on n x (y ∷ ys) h f = elim (Bool-cases (leb (time x) (time y))) [
    | inl e ↦ rw e (h, f)
    | inr e ↦ rw e (f.0, From-insert_on n x ys h f.1)
  ]

  insert_on-Rising : (x : A) (ys : List A) → Rising ys → Rising (insert_on x ys)
  unfolding insert_on
  insert_on-Rising x [] r = (tt, tt)
  insert_on-Rising x (y ∷ ys) r = elim (Bool-cases (leb (time x) (time y))) [
    | inl e ↦ rw e ((ground (arith, e), From-mono (time x) (time y) ys (ground (arith, e)) r.0), r)
    | inr e ↦ rw e (From-insert_on (time y) x ys (ground (arith, e)) r.0, insert_on-Rising x ys r.1)
  ]

  pub sort_on-Rising : (xs : List A) → Rising (sort_on xs)
  unfolding sort_on
  sort_on-Rising [] = tt
  sort_on-Rising (x ∷ xs) = insert_on-Rising x (sort_on xs) (sort_on-Rising xs)

  Listed-insert_on : (a x : A) (ys : List A) → Listed a (insert_on x ys) ↔ ((x ≡ a) ⊎ Listed a ys)
  unfolding insert_on
  Listed-insert_on a x [] = (λ h. h, λ h. h)
  Listed-insert_on a x (y ∷ ys) = elim (Bool-cases (leb (time x) (time y))) [
    | inl e ↦ rw e (λ h. h, λ h. h)
    | inr e ↦
        let (to, from) = Listed-insert_on a x ys in
        rw e (
          λ h. elim h [
            | inl q ↦ inr (inl q)
            | inr r ↦ elim (to r) [ inl q ↦ inl q | inr s ↦ inr (inr s) ]
          ],
          λ h. elim h [
            | inl q ↦ inr (from (inl q))
            | inr r ↦ elim r [ inl q ↦ inl q | inr s ↦ inr (from (inr s)) ]
          ],
        )
  ]

  pub Listed-sort_on : (a : A) (xs : List A) → Listed a (sort_on xs) ↔ Listed a xs
  unfolding sort_on
  Listed-sort_on a [] = (λ h. h, λ h. h)
  Listed-sort_on a (x ∷ xs) =
      let (to, from) = Listed-insert_on a x (sort_on xs) in
      let (down, up) = Listed-sort_on a xs in
      (
        λ h. elim (to h) [ inl q ↦ inl q | inr r ↦ inr (down r) ],
        λ h. elim h [ inl q ↦ from (inl q) | inr r ↦ from (inr (up r)) ],
      )
