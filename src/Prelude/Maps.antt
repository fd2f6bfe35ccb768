-- ===== src/Prelude/Maps.antt =====
-- Go maps with string keys, as association lists. The order of the list is the order in which
-- `range` happens to visit the entries.
use mathlib.Core.Path.{◌≡◌, refl, sym, ap, ◌∙◌, subst₂}
use mathlib.Core.Logic.{inl, inr}
use mathlib.Core.Bool.{Bool}
use mathlib.Core.Option.{Option, none, some}
use mathlib.Core.List.{List, [], ◌∷◌}
use native.Mathlib.Omega.{arith}
use foilen_box.Prelude.Tests.{if◌then◌else◌, Bool-cases}
use foilen_box.Prelude.Texts.{Text, text_eq, text_eq_iff}

abbrev pub Map {ℓ} : Type ℓ → Type ℓ
Map V = List (Text × V)

abbrev pub map_option {ℓ κ} : {A : Type ℓ} {B : Type κ} → (A → B) → Option A → Option B
map_option f none = none
map_option f (some a) = some (f a)

module _ {ℓ} {V : Type ℓ} where
  unfoldable pub lookup : Text → Map V → Option V
  lookup k [] = none
  lookup k ((j, v) ∷ m) = if text_eq j k then some v else lookup k m

  unfoldable pub insert : Text → V → Map V → Map V
  insert k v [] = (k, v) ∷ []
  insert k v ((j, w) ∷ m) = if text_eq j k then (k, v) ∷ m else (j, w) ∷ insert k v m

  unfoldable pub delete : Text → Map V → Map V
  delete k [] = []
  delete k ((j, w) ∷ m) = let rest = delete k m in if text_eq j k then rest else (j, w) ∷ rest

  -- A write to every entry of the map while it is visited.
  unfoldable pub map_values : (Text → V → V) → Map V → Map V
  map_values f [] = []
  map_values f ((j, w) ∷ m) = (j, f j w) ∷ map_values f m

  pub lookup-insert :
      (k j : Text) (v : V) (m : Map V)
      → lookup j (insert k v m) ≡ (if text_eq k j then some v else lookup j m)
  unfolding lookup insert
  lookup-insert k j v [] = refl
  lookup-insert k j v ((i, w) ∷ m) =
      ground (arith, text_eq_iff k j, text_eq_iff i k, text_eq_iff i j, lookup-insert k j v m)

  pub lookup-delete :
      (k j : Text) (m : Map V) → lookup j (delete k m) ≡ (if text_eq k j then none else lookup j m)
  unfolding lookup delete
  lookup-delete k j [] = ground arith
  lookup-delete k j ((i, w) ∷ m) =
      ground (arith, text_eq_iff k j, text_eq_iff i k, text_eq_iff i j, lookup-delete k j m)

  pub lookup-map_values :
      (f : Text → V → V) (k : Text) (m : Map V)
      → lookup k (map_values f m) ≡ map_option (f k) (lookup k m)
  unfolding lookup map_values
  lookup-map_values f k [] = refl
  lookup-map_values f k ((j, w) ∷ m) = ground (arith, text_eq_iff j k, lookup-map_values f k m)

-- No key stands twice, as in a Go map.
abbrev pub Unique {ℓ} : {V : Type ℓ} → Map V → Type ℓ
Unique [] = Unit
Unique ((k, v) ∷ m) = (lookup k m ≡ none) × Unique m

-- A property of every entry of a map.
abbrev pub Entries {ℓ κ} : {V : Type ℓ} → (Text → V → Type κ) → Map V → Type κ
Entries P [] = Unit
Entries P ((k, v) ∷ m) = P k v × Entries P m

module _ {ℓ κ} {V : Type ℓ} (P : Text → V → Type κ) where
  pub Entries-lookup : (k : Text) (m : Map V) {v : V} → Entries P m → lookup k m ≡ some v → P k v
  unfolding lookup
  Entries-lookup k [] h e = cc
  Entries-lookup k ((j, w) ∷ m) {v} h e = elim (Bool-cases (text_eq j k)) [
    | inl q ↦ subst₂ P ((text_eq_iff j k).0 q) (some-injective' (rw q at e)) h.0
    | inr q ↦ Entries-lookup k m h.1 (rw q at e)
  ]
    where
      some-injective' : {a b : V} → some a ≡ some b → a ≡ b
      some-injective' h = cc

  pub Entries-insert :
      (k : Text) (v : V) (m : Map V) → P k v → Entries P m → Entries P (insert k v m)
  unfolding insert
  Entries-insert k v [] p h = (p, tt)
  Entries-insert k v ((j, w) ∷ m) p h = elim (Bool-cases (text_eq j k)) [
    | inl q ↦ rw q (p, h.1)
    | inr q ↦ rw q (h.0, Entries-insert k v m p h.1)
  ]

  pub Entries-delete : (k : Text) (m : Map V) → Entries P m → Entries P (delete k m)
  unfolding delete
  Entries-delete k [] h = tt
  Entries-delete k ((j, w) ∷ m) h = elim (Bool-cases (text_eq j k)) [
    | inl q ↦ rw q (Entries-delete k m h.1)
    | inr q ↦ rw q (h.0, Entries-delete k m h.1)
  ]

  pub Entries-map_values :
      (f : Text → V → V) (m : Map V)
      → ((k : Text) (v : V) → P k v → P k (f k v))
      → Entries P m
      → Entries P (map_values f m)
  unfolding map_values
  Entries-map_values f [] step h = tt
  Entries-map_values f ((j, w) ∷ m) step h = (step j w h.0, Entries-map_values f m step h.1)

module _ {ℓ} {V : Type ℓ} where
  pub insert-Unique : (k : Text) (v : V) (m : Map V) → Unique m → Unique (insert k v m)
  unfolding insert lookup
  insert-Unique k v [] u = (refl, tt)
  insert-Unique k v ((j, w) ∷ m) u = elim (Bool-cases (text_eq j k)) [
    | inl e ↦
        let same : j ≡ k = (text_eq_iff j k).0 e in
        rw e (ap (λ i. lookup i m) (sym same) ∙ u.0, u.1)
    | inr e ↦ rw e (
      ground (arith, e, lookup-insert k j v m, u.0, text_eq_iff k j, text_eq_iff j k),
      insert-Unique k v m u.1,
    )
  ]

  -- `delete` of the entries that fail a test, in a loop over the map.
  unfoldable pub keep_if : (V → Bool) → Map V → Map V
  keep_if good [] = []
  keep_if good ((k, v) ∷ m) = let rest = keep_if good m in if good v then (k, v) ∷ rest else rest

  abbrev pub only_if : (V → Bool) → Option V → Option V
  only_if good none = none
  only_if good (some v) = if good v then some v else none

  pub lookup-keep_if :
      (good : V → Bool) (k : Text) (m : Map V)
      → Unique m
      → lookup k (keep_if good m) ≡ only_if good (lookup k m)
  unfolding keep_if lookup
  lookup-keep_if good k [] u = refl
  lookup-keep_if good k ((j, v) ∷ m) u =
      ground (arith, text_eq_iff j k, lookup-keep_if good k m u.1)
