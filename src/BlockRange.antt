-- ===== src/BlockRange.antt =====
-- block_writer.go: blockRange, which groups the indexes of the blocks that are written together.
use unitdb.Prelude.{
  ℕ, zero, suc, ◌+◌, ◌-◌, ◌<◌, ◌≡◌, refl, sym, ap, ◌∙◌, inl, inr, true, false, Option, some, none,
  List, [], ◌∷◌, ◌++◌, ltb, leb, ◌==◌, if◌then◌else◌, ◌>>=◌, append-nil, Bool-cases, arith,
}

-- The parts of one run of `n` indexes from `first` to `last`: one of a pair stands by itself, and
-- comes before the other.
unfoldable pub parts_of : ℕ → ℕ → ℕ → List (List ℕ)
parts_of first last n =
    if n == 2
    then (last ∷ []) ∷ (first ∷ []) ∷ []
    else if ltb 2 n
    then (first ∷ last ∷ []) ∷ []
    else (first ∷ []) ∷ []

-- The rest of the indexes, behind a run of `n` of them. `none` is the error of a value that
-- repeats or is out of order.
unfoldable pub runs : ℕ → ℕ → ℕ → List ℕ → Option (List (List ℕ))
unfolding parts_of
runs first last n [] = some (parts_of first last n)
runs first last n (i ∷ is) =
    let same_run = runs first i (suc n) is in
    let next_run = runs i i 1 is in
    if i == last + 1
    then same_run
    else if leb i last
    then none
    else next_run >>= λ parts. some (parts_of first last n ++ parts)

-- The indexes are int32 in the code; those of blocks are below 2 ^ 31 - 1, and `i + 1` does not wrap.
unfoldable pub block_range : List ℕ → Option (List (List ℕ))
unfolding runs
block_range [] = some []
block_range (i ∷ is) = runs i i 1 is

-- The indexes from `first` on, `n` of them.
unfoldable pub range : ℕ → ℕ → List ℕ
range first zero = []
range first (suc n) = first ∷ range (first + 1) n

-- What the writers make of the parts: one index is that block, two are a range of blocks.
unfoldable pub blocks_of : List (List ℕ) → List ℕ
unfolding range
blocks_of [] = []
blocks_of ([] ∷ ps) = blocks_of ps
blocks_of ((a ∷ []) ∷ ps) = a ∷ blocks_of ps
blocks_of ((a ∷ b ∷ _) ∷ ps) = range a (b + 1 - a) ++ blocks_of ps

unfoldable pub occurrences : ℕ → List ℕ → ℕ
occurrences x [] = 0
occurrences x (i ∷ is) = (if i == x then 1 else 0) + occurrences x is

-- Every index is above the one before.
unfoldable pub Ascends : ℕ → List ℕ → Type 0
Ascends i [] = Unit
Ascends i (j ∷ js) = (i < j) × Ascends j js

pub occurrences-append :
    (x : ℕ) (is js : List ℕ) → occurrences x (is ++ js) ≡ occurrences x is + occurrences x js
unfolding occurrences
occurrences-append x [] js = omega arith
occurrences-append x (i ∷ is) js = omega (arith, occurrences-append x is js)

pub occurrences-range_end :
    (x first n : ℕ)
    → occurrences x (range first (suc n))
      ≡ occurrences x (range first n) + (if (first + n) == x then 1 else 0)
unfolding occurrences range
occurrences-range_end x first zero = ground arith
occurrences-range_end x first (suc n) = ground (arith, occurrences-range_end x (first + 1) n)

pub occurrences-parts_of :
    (x first last n : ℕ) (ps : List (List ℕ))
    → 0 < n
    → last + 1 ≡ first + n
    → occurrences x (blocks_of (parts_of first last n ++ ps))
      ≡ occurrences x (range first n) + occurrences x (blocks_of ps)
unfolding occurrences parts_of blocks_of range
occurrences-parts_of x first last zero ps pos e = absurd (omega arith)
occurrences-parts_of x first last (suc zero) ps pos e = ground arith
occurrences-parts_of x first last (suc (suc zero)) ps pos e = two (omega arith)
  where
    two :
        last ≡ first + 1
        → occurrences x (last ∷ first ∷ blocks_of ps)
          ≡ occurrences x (range first 2) + occurrences x (blocks_of ps)
    two e' = ground (arith, e')
occurrences-parts_of x first last (suc (suc (suc n))) ps pos e =
    rw (not_two, more_than_two)
      (occurrences-append x (range first (last + 1 - first)) (blocks_of ps)
        ∙ ap (λ k. occurrences x (range first k) + occurrences x (blocks_of ps)) all)
  where
    all : last + 1 - first ≡ suc (suc (suc n))
    all = omega arith

    not_two : (suc (suc (suc n)) == 2) ≡ false
    not_two = ground arith

    more_than_two : ltb 2 (suc (suc (suc n))) ≡ true
    more_than_two = ground arith

runs-Ascends :
    (is : List ℕ) (first last n : ℕ)
    → 0 < n
    → last + 1 ≡ first + n
    → Ascends last is
    → (ps : List (List ℕ)) × (runs first last n is ≡ some ps)
      × ((x : ℕ) → occurrences x (blocks_of ps) ≡ occurrences x (range first n) + occurrences x is)
unfolding runs occurrences Ascends blocks_of range
runs-Ascends [] first last n pos e asc = (
  parts_of first last n,
  refl,
  λ x.
      ap (λ l. occurrences x (blocks_of l)) (sym (append-nil (parts_of first last n)))
      ∙ occurrences-parts_of x first last n [] pos e,
)
runs-Ascends (i ∷ is) first last n pos e asc = elim (Bool-cases (i == last + 1)) [
  | inl b ↦
      let (ps, eq, count) = runs-Ascends is first i (suc n) (omega arith) (ground arith) asc.1 in
      (ps, rw (runs, b) eq, λ x. ground (arith, count x, occurrences-range_end x first n))
  | inr b ↦
      let (ps, eq, count) = runs-Ascends is i i 1 (omega arith) (omega arith) asc.1 in
      let above : leb i last ≡ false = ground (arith, asc.0) in
      (
        parts_of first last n ++ ps,
        rw (runs, b, above, eq, ◌>>=◌),
        λ x. omega (arith, occurrences-parts_of x first last n ps pos e, count x),
      )
]

-- Indexes that ascend are grouped without an error, and the parts have each of them once and
-- nothing else.
pub block_range-blocks_of :
    (i : ℕ) (is : List ℕ)
    → Ascends i is
    → (ps : List (List ℕ)) × (block_range (i ∷ is) ≡ some ps)
      × ((x : ℕ) → occurrences x (blocks_of ps) ≡ occurrences x (i ∷ is))
unfolding block_range occurrences range
block_range-blocks_of i is asc =
    let (ps, eq, count) = runs-Ascends is i i 1 (omega arith) (omega arith) asc in
    (ps, eq, λ x. omega (arith, count x))
