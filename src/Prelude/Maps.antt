-- ===== src/Prelude/Maps.antt =====
-- Go maps with integer keys, as lists of keys with their values.
use Prim.Native.Nat.{ℕ}
use mathlib.Core.Path.{◌≡◌, refl, sym, ap, ◌∙◌}
use mathlib.Core.Logic.{◌⊎◌, inl, inr}
use mathlib.Core.Bool.{false}
use mathlib.Core.Option.{Option, none, some}
use mathlib.Core.List.{List, [], ◌∷◌}
use native.Mathlib.Omega.{arith}
use unitdb.Prelude.Tests.{◌==◌, if◌then◌else◌, Bool-cases, ==_refl}

abbrev pub Map {ℓ} : Type ℓ → Type ℓ
Map V = List (ℕ × V)

module _ {ℓ} {V : Type ℓ} where
  unfoldable pub find : Map V → ℕ → Option V
  find [] k = none
  find ((j, v) ∷ m) k = let rest = find m k in if j == k then some v else rest

  unfoldable pub insert : Map V → ℕ → V → Map V
  insert [] k v = (k, v) ∷ []
  insert ((j, w) ∷ m) k v = let rest = insert m k v in if j == k then (k, v) ∷ m else (j, w) ∷ rest

  unfoldable pub erase : Map V → ℕ → Map V
  erase [] k = []
  erase ((j, w) ∷ m) k = let rest = erase m k in if j == k then rest else (j, w) ∷ rest

  unfoldable pub keys : Map V → List ℕ
  keys [] = []
  keys ((j, w) ∷ m) = j ∷ keys m

module _ {ℓ} {V : Type ℓ} where
  pub find-insert :
      (m : Map V) (k j : ℕ) (v : V) → find (insert m k v) j ≡ (if k == j then some v else find m j)
  unfolding find insert
  find-insert [] k j v = refl
  find-insert ((i, w) ∷ m) k j v = elim (Bool-cases (i == k)) [
    | inl b ↦ elim (Bool-cases (k == j)) [
      | inl c ↦ rw (b, find, c)
      | inr c ↦ let other : (i == j) ≡ false = ground arith in rw (b, find, c, other)
    ]
    | inr b ↦ elim (Bool-cases (i == j)) [
      | inl c ↦ let other : (k == j) ≡ false = ground arith in rw (b, find, c, other)
      | inr c ↦ rw (b, find, c) (find-insert m k j v)
    ]
  ]

  pub find-insert_self : (m : Map V) (k : ℕ) (v : V) → find (insert m k v) k ≡ some v
  find-insert_self m k v = rw (find-insert m k k v, ==_refl k)

  pub find-insert_ne :
      (m : Map V) (k j : ℕ) (v : V) → (k == j) ≡ false → find (insert m k v) j ≡ find m j
  find-insert_ne m k j v h = rw (find-insert m k j v, h)

  pub find-erase : (m : Map V) (k j : ℕ) → find (erase m k) j ≡ (if k == j then none else find m j)
  unfolding find erase
  find-erase [] k j = elim (Bool-cases (k == j)) [ inl c ↦ rw c | inr c ↦ rw c ]
  find-erase ((i, w) ∷ m) k j = elim (Bool-cases (i == k)) [
    | inl b ↦ elim (Bool-cases (k == j)) [
      | inl c ↦ rw (b, find-erase m k j, c)
      | inr c ↦ let other : (i == j) ≡ false = ground arith in rw (b, other, find-erase m k j, c)
    ]
    | inr b ↦ elim (Bool-cases (i == j)) [
      | inl c ↦ let other : (k == j) ≡ false = ground arith in rw (b, find, c, other)
      | inr c ↦ rw (b, find, c) (find-erase m k j)
    ]
  ]

  -- What an entry of a map is after an insertion: the new one, or one of another key.
  pub find-insert_cases :
      (m : Map V) (k j : ℕ) (v w : V)
      → find (insert m k v) j ≡ some w
      → ((k ≡ j) × (v ≡ w)) ⊎ (((k == j) ≡ false) × (find m j ≡ some w))
  find-insert_cases m k j v w e = elim (Bool-cases (k == j)) [
    | inl b ↦
        let hit : some v ≡ some w =
          sym (find-insert m k j v ∙ ap (λ c. if c then some v else find m j) b) ∙ e in
        inl (ground arith, cc)
    | inr b ↦ inr (b, sym (find-insert_ne m k j v b) ∙ e)
  ]
