-- ===== src/Ring/Order.antt =====
-- `ringCandidateOrder` of realm/connection_ring.go walks the whole ring, either way round.
use foilen_box.Prelude.{
  ℕ, zero, suc, ◌+◌, ◌-◌, ◌%◌, ◌≤◌, ◌<◌, ◌≡◌, refl, sym, subst, ◌∙◌, ap, inl, inr, ◌⊎◌, none, some,
  List, [], ◌∷◌, ◌++◌, Text, arith, map_option, length, take, drop, get_elem?, append_assoc,
  append-nil, length-append, length-take, length-drop, take-append-drop, take-length-append,
}
use native.Mathlib.Nat.{mod-eq_of_lt, add-mod_right, mod_self}
use foilen_box.Ring.{Direction, backward, forward, step_index, order_from, ring_candidate_order}

abbrev pub reversed {ℓ} : {A : Type ℓ} → List A → List A
reversed [] = []
reversed (x ∷ xs) = reversed xs ++ x ∷ []

module _ {ℓ} {A : Type ℓ} where
  pub reversed-append : (xs ys : List A) → reversed (xs ++ ys) ≡ reversed ys ++ reversed xs
  reversed-append [] ys = sym (append-nil (reversed ys))
  reversed-append (x ∷ xs) ys =
      ap (λ l. l ++ x ∷ []) (reversed-append xs ys)
      ∙ append_assoc (reversed ys) (reversed xs) (x ∷ [])

  length-reversed : (xs : List A) → length (reversed xs) ≡ length xs
  length-reversed [] = refl
  length-reversed (x ∷ xs) = omega (arith, length-append (reversed xs) (x ∷ []), length-reversed xs)

  -- The element at an index, and the list around it.
  split_at :
      (i : ℕ) (xs : List A)
      → i < length xs
      → (x : A) × (get_elem? xs i ≡ some x)
        × (drop i xs ≡ x ∷ drop (suc i) xs)
        × (take (suc i) xs ≡ take i xs ++ x ∷ [])
  split_at i [] h = absurd (omega arith)
  split_at zero (x ∷ xs) h = (x, refl, refl, refl)
  split_at (suc i) (x ∷ xs) h =
      let (y, e, d, t) = split_at i xs (omega arith) in (y, e, d, ap (◌∷◌ x) t)

  take-append_le : (n : ℕ) (xs ys : List A) → n ≤ length xs → take n (xs ++ ys) ≡ take n xs
  take-append_le zero xs ys h = refl
  take-append_le (suc n) [] ys h = absurd (omega arith)
  take-append_le (suc n) (x ∷ xs) ys h = ap (◌∷◌ x) (take-append_le n xs ys (omega arith))

  drop_all : (xs : List A) → drop (length xs) xs ≡ []
  drop_all [] = refl
  drop_all (x ∷ xs) = drop_all xs

  take_exact : (n : ℕ) (xs ys : List A) → n ≡ length xs → take n (xs ++ ys) ≡ xs
  take_exact n xs ys e = ap (λ k. take k (xs ++ ys)) e ∙ take-length-append xs ys

step_forward :
    (n i : ℕ)
    → i < n
    → ((suc i < n) × (step_index n forward i ≡ suc i))
      ⊎ ((suc i ≡ n) × (step_index n forward i ≡ 0))
unfolding step_index
step_forward n i h = elim (let e : (suc i < n) ⊎ (suc i ≡ n) = omega arith in e) [
  | inl lt ↦ inl (lt, add-mod_right (i + 1) n ∙ ap (λ k. k % n) (omega arith) ∙ mod-eq_of_lt lt)
  | inr eq ↦ inr (eq, add-mod_right (i + 1) n ∙ ap (λ k. k % n) (omega (arith, eq)) ∙ mod_self n)
]

step_backward : (n i : ℕ) → i < n → step_index n backward (suc i) ≡ i
unfolding step_index
step_backward n i h =
    ap (λ k. k % n) (let e : suc i + n - 1 ≡ i + n = omega arith in e)
    ∙ add-mod_right i n
    ∙ mod-eq_of_lt h

step_around : (n : ℕ) → step_index (suc n) backward 0 ≡ n
unfolding step_index
step_around n =
    ap (λ k. k % suc n) (let e : 0 + suc n - 1 ≡ n = omega arith in e) ∙ mod-eq_of_lt (omega arith)

-- One turn of the loop.
turn :
    (left : ℕ) (dir : Direction) (i j : ℕ) (members : List Text) (m : Text) (rest : List Text)
    → step_index (length members) dir i ≡ j
    → get_elem? members j ≡ some m
    → order_from left dir j members ≡ some rest
    → order_from (suc left) dir i members ≡ some (m ∷ rest)
unfolding order_from
turn left dir i j members m rest e g r =
    subst
      (λ k.
        elim (get_elem? members k) [
          | none ↦ none
          | some id ↦ map_option (◌∷◌ id) (order_from left dir k members)
        ]
        ≡ some (m ∷ rest))
      (sym e) (rw (g, r))

from_forward :
    (left i : ℕ) (members : List Text)
    → i < length members
    → left < length members
    → order_from left forward i members ≡ some (take left (drop (suc i) members ++ members))
unfolding order_from
from_forward zero i members h k = refl
from_forward (suc left) i members h k = elim (step_forward (length members) i h) [
  | inl (lt, e) ↦
      let (m, g, d, t) = split_at (suc i) members lt in
      turn left forward i (suc i) members m _ e g
        (from_forward left (suc i) members lt (omega arith))
      ∙ ap (λ l. some (take (suc left) (l ++ members))) (sym d)
  | inr (eq, e) ↦
      let (m, g, d, t) = split_at 0 members (omega arith) in
      turn left forward i 0 members m _ e g
        (from_forward left 0 members (omega arith) (omega arith))
      ∙ ap (λ l. some (m ∷ l))
          (take-append_le left (drop 1 members) members (omega (arith, length-drop 1 members)))
      ∙ ap (λ l. some (take (suc left) l)) (sym d)
      ∙ ap (λ l. some (take (suc left) (l ++ members)))
          (sym (ap (λ n. drop n members) eq ∙ drop_all members))
]

from_backward :
    (left i : ℕ) (members : List Text)
    → i < length members
    → left < length members
    → order_from left backward i members
      ≡ some (take left (reversed (take i members) ++ reversed members))
unfolding order_from
from_backward zero i members h k = refl
from_backward (suc left) (suc i) members h k =
    let (m, g, d, t) = split_at i members (omega arith) in
    turn left backward (suc i) i members m _ (step_backward (length members) i (omega arith)) g
      (from_backward left i members (omega arith) (omega arith))
    ∙ ap (λ l. some (take (suc left) (l ++ reversed members)))
        (sym (ap reversed t ∙ reversed-append (take i members) (m ∷ [])))
from_backward (suc left) zero members h k =
    let last = length members - 1 in
    let (m, g, d, t) = split_at last members (omega arith) in
    turn left backward 0 last members m _
      (ap (λ n. step_index n backward 0) (let e : length members ≡ suc last = omega arith in e)
        ∙ step_around last)
      g (from_backward left last members (omega arith) (omega arith))
    ∙ ap (λ l. some (m ∷ l))
        (take-append_le left (reversed (take last members)) (reversed members)
          (omega (arith, length-reversed (take last members), length-take last members)))
    ∙ ap (λ l. some (take (suc left) l)) (sym (whole t))
  where
    whole :
        {m : Text}
        → take (suc (length members - 1)) members ≡ take (length members - 1) members ++ m ∷ []
        → reversed members ≡ m ∷ reversed (take (length members - 1) members)
    whole {m} t =
        ap reversed (
          sym (
            ap (λ n. take n members)
              (let e : suc (length members - 1) ≡ length members = omega arith in e)
            ∙ all))
        ∙ ap reversed t
        ∙ reversed-append (take (length members - 1) members) (m ∷ [])
      where
        all : take (length members) members ≡ members
        all = ap (take (length members)) (sym (append-nil members)) ∙ take-length-append members []

-- Forwards from a member come the members after it and then those before it, so every other member
-- once; backwards come the same ones in the opposite order. No index is out of range.
pub ring_candidate_order_lem :
    (members : List Text) (i : ℕ)
    → i < length members
    → (ring_candidate_order members i forward ≡ some (drop (suc i) members ++ take i members))
      × (ring_candidate_order members i backward
          ≡ some (reversed (drop (suc i) members ++ take i members)))
unfolding ring_candidate_order
ring_candidate_order_lem members i h = (
  from_forward (length members - 1) i members h (omega arith)
      ∙ ap some (
          ap (λ l. take (length members - 1) (drop (suc i) members ++ l))
            (sym (take-append-drop i members))
          ∙ ap (take (length members - 1))
              (sym (append_assoc (drop (suc i) members) (take i members) (drop i members)))
          ∙ take_exact (length members - 1) (drop (suc i) members ++ take i members)
              (drop i members) whole),
  from_backward (length members - 1) i members h (omega arith)
      ∙ ap some (
          ap (λ l. take (length members - 1) (reversed (take i members) ++ l))
            (ap reversed (sym (take-append-drop (suc i) members))
              ∙ reversed-append (take (suc i) members) (drop (suc i) members))
          ∙ ap (take (length members - 1)) (
              sym (
                append_assoc (reversed (take i members)) (reversed (drop (suc i) members))
                  (reversed (take (suc i) members)))
              ∙ ap (λ l. l ++ reversed (take (suc i) members))
                  (sym (reversed-append (drop (suc i) members) (take i members))))
          ∙ take_exact (length members - 1) (reversed (drop (suc i) members ++ take i members))
              (reversed (take (suc i) members))
              (whole ∙ sym (length-reversed (drop (suc i) members ++ take i members)))),
)
  where
    whole : length members - 1 ≡ length (drop (suc i) members ++ take i members)
    whole = omega (
      arith,
      length-append (drop (suc i) members) (take i members),
      length-drop (suc i) members,
      length-take i members,
    )
