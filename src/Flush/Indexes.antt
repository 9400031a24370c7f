-- ===== src/Flush/Indexes.antt =====
-- block_writer.go and time_window_writer.go: the indexes that the second loop writes.
use unitdb.Prelude.{
  ℕ, suc, ◌+◌, ◌<◌, ◌≤◌, ◌≡◌, ◌⊎◌, inl, inr, refl, sym, ap, ◌∙◌, Bool, true, false, not, ◌||◌, none,
  some, List, [], ◌∷◌, ◌++◌, leb, ◌==◌, if◌then◌else◌, ◌>>=◌, append-nil, Bool-cases, Option-cases,
  ==_iff, ==_refl, arith,
}
use mathlib.Core.Path.{subst}
use unitdb.Prelude.Maps.{Map, insert, keys}
use unitdb.BlockRange.{
  parts_of, runs, block_range, range, blocks_of, occurrences, occurrences-range_end,
  occurrences-parts_of,
}
use unitdb.Buffer.{Buffer}
use unitdb.Flush.{BlockOps, block_at, own_indexes, insert_index, sort_indexes}

occurrences-insert_index :
    (x i : ℕ) (is : List ℕ)
    → occurrences x (insert_index i is) ≡ (if i == x then 1 else 0) + occurrences x is
unfolding insert_index occurrences
occurrences-insert_index x i [] = refl
occurrences-insert_index x i (j ∷ is) = elim (Bool-cases (leb i j)) [
  | inl b ↦ rw (b) refl
  | inr b ↦ rw (b) (omega (arith, occurrences-insert_index x i is))
]

pub occurrences-sort : (x : ℕ) (is : List ℕ) → occurrences x (sort_indexes is) ≡ occurrences x is
unfolding sort_indexes occurrences
occurrences-sort x [] = refl
occurrences-sort x (i ∷ is) =
    omega (arith, occurrences-insert_index x i (sort_indexes is), occurrences-sort x is)

runs-next :
    (first last n i : ℕ) (is : List ℕ)
    → (i == last + 1) ≡ false
    → leb i last ≡ false
    → runs first last n (i ∷ is)
      ≡ (runs i i 1 is >>= λ parts. some (parts_of first last n ++ parts))
unfolding runs
runs-next first last n i is ne above = rw (runs, ne, above)

-- The parts that come without an error have each of the indexes.
runs-occurrences :
    (is : List ℕ) (first last n : ℕ) (ps : List (List ℕ))
    → 0 < n
    → last + 1 ≡ first + n
    → runs first last n is ≡ some ps
    → (x : ℕ) → occurrences x (blocks_of ps) ≡ occurrences x (range first n) + occurrences x is
unfolding runs occurrences blocks_of range
runs-occurrences [] first last n ps pos e run x =
    let same : parts_of first last n ≡ ps = cc (run) in
    ap (λ l. occurrences x (blocks_of l)) (sym same ∙ sym (append-nil (parts_of first last n)))
    ∙ occurrences-parts_of x first last n [] pos e
runs-occurrences (i ∷ is) first last n ps pos e run x = elim (Bool-cases (i == last + 1)) [
  | inl b ↦
      let run' : runs first i (suc n) is ≡ some ps = sym (rw (runs, b) refl) ∙ run in
      ground (
        arith,
        runs-occurrences is first i (suc n) ps (omega arith) (ground arith) run' x,
        occurrences-range_end x first n,
      )
  | inr b ↦ elim (Bool-cases (leb i last)) [
    | inl c ↦ let stop : runs first last n (i ∷ is) ≡ none = rw (runs, b, c) refl in cc (stop, run)
    | inr c ↦ elim (Option-cases (runs i i 1 is)) [
      | inl r ↦
          let stop : runs first last n (i ∷ is) ≡ none =
            runs-next first last n i is b c ∙ rw (r, ◌>>=◌) refl in
          cc (stop, run)
      | inr (qs, r) ↦
          let done : runs first last n (i ∷ is) ≡ some (parts_of first last n ++ qs) =
            runs-next first last n i is b c ∙ rw (r, ◌>>=◌) refl in
          let same : parts_of first last n ++ qs ≡ ps = cc (done, run) in
          ap (λ l. occurrences x (blocks_of l)) (sym same)
          ∙ omega (
            arith,
            occurrences-parts_of x first last n qs pos e,
            runs-occurrences is i i 1 qs (omega arith) (omega arith) r x,
          )
    ]
  ]
]

pub block_range-occurrences :
    (is : List ℕ) (ps : List (List ℕ))
    → block_range is ≡ some ps
    → (x : ℕ) → occurrences x (blocks_of ps) ≡ occurrences x is
unfolding block_range occurrences blocks_of range
block_range-occurrences [] ps run x =
    let same : [] ≡ ps = cc (run) in ap (λ l. occurrences x (blocks_of l)) (sym same)
block_range-occurrences (i ∷ is) ps run x =
    omega (arith, runs-occurrences is i i 1 ps (omega arith) (omega arith) run x)

-- Putting a value into a map adds its key and no other.
pub keys-insert :
    {V : Type 0} (m : Map V) (i x : ℕ) (v : V)
    → 1 ≤ occurrences x (keys (insert m i v))
    → (1 ≤ occurrences x (keys m)) ⊎ (i ≡ x)
unfolding keys insert occurrences
keys-insert [] i x v h = inr ((==_iff i x).0 (ground arith))
keys-insert ((j, w) ∷ m) i x v h = elim (Bool-cases (j == i)) [
  | inl b ↦ inl (ground arith)
  | inr b ↦ elim (Bool-cases (j == x)) [
    | inl c ↦ inl (ground arith)
    | inr c ↦ elim (keys-insert m i x v (ground arith)) [
      | inl o ↦ inl (omega arith)
      | inr o ↦ inr o
    ]
  ]
]

pub keys-insert_old :
    {V : Type 0} (m : Map V) (i x : ℕ) (v : V)
    → 1 ≤ occurrences x (keys m)
    → 1 ≤ occurrences x (keys (insert m i v))
unfolding keys insert occurrences
keys-insert_old [] i x v h = absurd (omega arith)
keys-insert_old ((j, w) ∷ m) i x v h = elim (Bool-cases (j == i)) [
  | inl b ↦ ground arith
  | inr b ↦ elim (Bool-cases (j == x)) [
    | inl c ↦ ground arith
    | inr c ↦ ground (arith, keys-insert_old m i x v (ground arith))
  ]
]

changed_own :
    (leased dirty : Bool) → (leased || not dirty) ≡ false → (leased ≡ false) × (dirty ≡ true)
changed_own true dirty h = cc (h)
changed_own false true h = (refl, refl)
changed_own false false h = cc (h)

module _ {B Buf : Type 0} (bo : BlockOps B) (ops : Buffer Buf) where
  own_indexes_skip :
      (m : Map B) (i : ℕ) (is : List ℕ)
      → (bo.is_leased (block_at bo ops m i) || not (bo.is_dirty (block_at bo ops m i))) ≡ true
      → own_indexes bo ops m (i ∷ is) ≡ own_indexes bo ops m is
  unfolding own_indexes
  own_indexes_skip m i is b = rw (own_indexes, b) refl

  own_indexes_take :
      (m : Map B) (i : ℕ) (is : List ℕ)
      → (bo.is_leased (block_at bo ops m i) || not (bo.is_dirty (block_at bo ops m i))) ≡ false
      → own_indexes bo ops m (i ∷ is) ≡ i ∷ own_indexes bo ops m is
  unfolding own_indexes
  own_indexes_take m i is b = rw (own_indexes, b) refl

  pub own_indexes_old :
      (m : Map B) (is : List ℕ) (x : ℕ)
      → 1 ≤ occurrences x (own_indexes bo ops m is)
      → (1 ≤ occurrences x is)
        × (bo.is_leased (block_at bo ops m x) ≡ false)
        × (bo.is_dirty (block_at bo ops m x) ≡ true)
  unfolding own_indexes occurrences
  own_indexes_old m [] x h = absurd (omega arith)
  own_indexes_old m (i ∷ is) x h =
      elim (Bool-cases
        (bo.is_leased (block_at bo ops m i) || not (bo.is_dirty (block_at bo ops m i)))) [
          | inl b ↦
              let (o, own, changed) =
                own_indexes_old m is x
                  (subst (λ l. 1 ≤ occurrences x l) (own_indexes_skip m i is b) h) in
              (omega (arith, o), own, changed)
          | inr b ↦
              let now : 1 ≤ (if i == x then 1 else 0) + occurrences x (own_indexes bo ops m is) =
                subst (λ l. 1 ≤ occurrences x l) (own_indexes_take m i is b) h in
              elim (Bool-cases (i == x)) [
                | inl c ↦
                    let same : i ≡ x = (==_iff i x).0 c in
                    let (own, changed) =
                      changed_own (bo.is_leased (block_at bo ops m i))
                        (bo.is_dirty (block_at bo ops m i)) b in
                    (
                      ground arith,
                      subst (λ k. bo.is_leased (block_at bo ops m k) ≡ false) same own,
                      subst (λ k. bo.is_dirty (block_at bo ops m k) ≡ true) same changed,
                    )
                | inr c ↦
                    let (o, own, changed) = own_indexes_old m is x (ground arith) in
                    (ground (arith, o), own, changed)
              ]
        ]

  pub own_indexes-has :
      (m : Map B) (is : List ℕ) (x : ℕ)
      → bo.is_leased (block_at bo ops m x) ≡ false
      → bo.is_dirty (block_at bo ops m x) ≡ true
      → 1 ≤ occurrences x is
      → 1 ≤ occurrences x (own_indexes bo ops m is)
  unfolding own_indexes occurrences
  own_indexes-has m [] x own changed h = h
  own_indexes-has m (i ∷ is) x own changed h = elim (Bool-cases (i == x)) [
    | inl c ↦
        let same : i ≡ x = (==_iff i x).0 c in
        rw (own_indexes, same, own, changed, ==_refl x) (omega arith)
    | inr c ↦
        let later = own_indexes-has m is x own changed (ground arith) in
        elim (Bool-cases
          (bo.is_leased (block_at bo ops m i) || not (bo.is_dirty (block_at bo ops m i)))) [
            | inl b ↦ rw (own_indexes, b) later
            | inr b ↦ rw (own_indexes, b) (omega (arith, later))
          ]
  ]
