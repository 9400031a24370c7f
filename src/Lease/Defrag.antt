-- ===== src/Lease/Defrag.antt =====
-- leasing.go: `defrag` joins free blocks that touch.
use unitdb.Prelude.{
  ℕ, suc, ◌+◌, ◌%◌, ◌^◌, ◌≤◌, ◌<◌, ◌≡◌, refl, sym, ◌++◌, ◌∙◌, ap, inl, inr, Bool, true, false, List,
  [], ◌∷◌, arith, length, add64, ◌==◌, leb, ltb, ltb_int64, Bool-cases, drop, All, length-append,
  length-drop,
}
use mathlib.Core.Path.{subst}
use unitdb.Lease.{FreeBlock, FreeBlocks, insert_by, sort_by, merge, defrag_sorted, defrag}
use unitdb.Lease.Account.{occurs, covers, total, Fits}

module _ (less : FreeBlock → FreeBlock → Bool) where
  covers-insert_by :
      (x : ℕ) (b : FreeBlock) (bs : List FreeBlock)
      → covers x (insert_by less b bs) ≡ occurs x b + covers x bs
  unfolding covers insert_by
  covers-insert_by x b [] = refl
  covers-insert_by x b (c ∷ cs) = ground (arith, covers-insert_by x b cs)

  covers-sort_by : (x : ℕ) (bs : List FreeBlock) → covers x (sort_by less bs) ≡ covers x bs
  unfolding covers sort_by
  covers-sort_by x [] = refl
  covers-sort_by x (b ∷ bs) =
      omega (arith, covers-insert_by x b (sort_by less bs), covers-sort_by x bs)

  length-insert_by :
      (b : FreeBlock) (bs : List FreeBlock) → length (insert_by less b bs) ≡ suc (length bs)
  unfolding insert_by
  length-insert_by b [] = refl
  length-insert_by b (c ∷ cs) = ground (arith, length-insert_by b cs)

  length-sort_by : (bs : List FreeBlock) → length (sort_by less bs) ≡ length bs
  unfolding sort_by
  length-sort_by [] = refl
  length-sort_by (b ∷ bs) = omega (arith, length-insert_by b (sort_by less bs), length-sort_by bs)

  All-insert_by :
      (P : FreeBlock → Type 0) (b : FreeBlock) (bs : List FreeBlock)
      → P b
      → All P bs
      → All P (insert_by less b bs)
  unfolding insert_by
  All-insert_by P b [] pb pbs = (pb, tt)
  All-insert_by P b (c ∷ cs) pb pbs = elim (Bool-cases (less c b)) [
    | inl t ↦ rw (insert_by, t) (pbs.0, All-insert_by P b cs pb pbs.1)
    | inr f ↦ rw (insert_by, f) (pb, pbs)
  ]

  All-sort_by : (P : FreeBlock → Type 0) (bs : List FreeBlock) → All P bs → All P (sort_by less bs)
  unfolding sort_by
  All-sort_by P [] h = h
  All-sort_by P (b ∷ bs) h = All-insert_by P b (sort_by less bs) h.0 (All-sort_by P bs h.1)

  total-insert_by :
      (b : FreeBlock) (bs : List FreeBlock) → total (insert_by less b bs) ≡ b.size + total bs
  unfolding total insert_by
  total-insert_by b [] = refl
  total-insert_by b (c ∷ cs) = ground (arith, total-insert_by b cs)

  total-sort_by : (bs : List FreeBlock) → total (sort_by less bs) ≡ total bs
  unfolding total sort_by
  total-sort_by [] = refl
  total-sort_by (b ∷ bs) = omega (arith, total-insert_by b (sort_by less bs), total-sort_by bs)

-- Joining blocks that touch keeps the bytes that are covered, and how often.
pub covers-merge :
    (x : ℕ) (cur : FreeBlock) (bs : List FreeBlock)
    → Fits cur
    → All Fits bs
    → cur.size + total bs < 2 ^ 32
    → covers x (merge cur bs) ≡ occurs x cur + covers x bs
unfolding covers merge total
covers-merge x cur [] fit fits small = refl
covers-merge x cur (b ∷ bs) fit fits small =
    elim (Bool-cases (add64 cur.offset cur.size == b.offset)) [
      | inl t ↦
          rw (merge, t)
            (ground (
              arith,
              covers-merge x (record { offset = cur.offset; size = (cur.size + b.size) % 2 ^ 32 })
                  bs,
            ))
      | inr f ↦ rw (merge, f) (omega (arith, covers-merge x b bs fits.0 fits.1 (omega arith)))
    ]

length-merge-le : (cur : FreeBlock) (bs : List FreeBlock) → length (merge cur bs) ≤ suc (length bs)
unfolding merge
length-merge-le cur [] = omega arith
length-merge-le cur (b ∷ bs) = ground (
  arith,
  length-merge-le (record { offset = cur.offset; size = (cur.size + b.size) % 2 ^ 32 }) bs,
  length-merge-le b bs,
)

-- The blocks of the list in the order of their offsets, the order in which they are joined.
pub by_offset : List FreeBlock → List FreeBlock
by_offset = sort_by (λ x y. ltb_int64 x.offset y.offset)

-- No block ends where the next one in the list begins.
unfoldable pub Apart : List FreeBlock → Type 0
Apart [] = Unit
Apart (b ∷ []) = Unit
Apart (b ∷ c ∷ bs) = ((add64 b.offset b.size == c.offset) ≡ false) × Apart (c ∷ bs)

-- The first of the joined blocks starts where the first block did.
merge-head :
    (cur : FreeBlock) (bs : List FreeBlock)
    → (c : FreeBlock) × (rest : List FreeBlock) × (merge cur bs ≡ c ∷ rest)
      × (c.offset ≡ cur.offset)
unfolding merge
merge-head cur [] = (cur, [], refl, refl)
merge-head cur (b ∷ bs) = elim (Bool-cases (add64 cur.offset cur.size == b.offset)) [
  | inl t ↦
      let (c, rest, e, same) =
        merge-head (record { offset = cur.offset; size = (cur.size + b.size) % 2 ^ 32 }) bs in
      (c, rest, rw (merge, t) e, same)
  | inr f ↦ (cur, merge b bs, rw (merge, f), refl)
]

Apart-cons :
    (b c : FreeBlock) (cs rest : List FreeBlock) (o : ℕ)
    → cs ≡ c ∷ rest
    → c.offset ≡ o
    → (add64 b.offset b.size == o) ≡ false
    → Apart cs
    → Apart (b ∷ cs)
unfolding Apart
Apart-cons b c cs rest o e same ne h =
    subst (λ l. Apart (b ∷ l)) (sym e)
      (ap (λ x. add64 b.offset b.size == x) same ∙ ne, subst Apart e h)

merge-Apart : (cur : FreeBlock) (bs : List FreeBlock) → Apart (merge cur bs)
unfolding merge Apart
merge-Apart cur [] = tt
merge-Apart cur (b ∷ bs) = elim (Bool-cases (add64 cur.offset cur.size == b.offset)) [
  | inl t ↦
      rw (merge, t)
        (merge-Apart (record { offset = cur.offset; size = (cur.size + b.size) % 2 ^ 32 }) bs)
  | inr f ↦
      let (c, rest, e, same) = merge-head b bs in
      rw (merge, f) (Apart-cons cur c (merge b bs) rest b.offset e same f (merge-Apart b bs))
]

-- The list before is that of the blocks joined as far as they touch, which covers the same bytes as
-- often; the list after has the joined blocks by their size, and behind them the last of the
-- unjoined blocks by their offset, as many as have been joined to another.
pub record Defrags (b b' : FreeBlocks) : Type 0 where
  pub joined : List FreeBlock
  pub same_bytes : (x : ℕ) → covers x joined ≡ covers x b.fb
  pub apart : Apart joined
  pub fewer : length joined ≤ length b.fb
  pub result :
      b'.fb ≡ sort_by (λ y z. ltb y.size z.size) joined ++ drop (length joined) (by_offset b.fb)
  pub same_length : length b'.fb ≡ length b.fb

defrag_sorted-Defrags :
    (fs : List FreeBlock) (b : FreeBlocks)
    → fs ≡ by_offset b.fb
    → All Fits fs
    → total fs < 2 ^ 32
    → 2 ≤ length fs
    → Defrags b (defrag_sorted fs b)
unfolding defrag_sorted covers total by_offset
defrag_sorted-Defrags [] b e fits small two = absurd (omega arith)
defrag_sorted-Defrags (f ∷ fs) b e fits small two =
    let by_size = λ (y z : FreeBlock). ltb y.size z.size in
    let by_place = λ (y z : FreeBlock). ltb_int64 y.offset z.offset in
    let merged = sort_by by_size (merge f fs) in
    let same = length-sort_by by_size (merge f fs) in
    let many : length (f ∷ fs) ≡ length b.fb = ap length e ∙ length-sort_by by_place b.fb in
    record {
      joined = merge f fs;
      same_bytes = λ x.
          covers-merge x f fs fits.0 fits.1 (omega arith)
          ∙ ap (covers x) e
          ∙ covers-sort_by by_place x b.fb;
      apart = merge-Apart f fs;
      fewer = omega (arith, length-merge-le f fs, many);
      result =
          ap (λ n. merged ++ drop n (f ∷ fs)) same
          ∙ ap (λ l. merged ++ drop (length (merge f fs)) l) e;
      same_length = omega (
        arith,
        length-append merged (drop (length merged) (f ∷ fs)),
        length-drop (length merged) (f ∷ fs),
        same,
        length-merge-le f fs,
        many,
      );
    }

-- `defrag` of two or more blocks, of sizes below four gigabytes together and inside the file, joins
-- the blocks that touch and covers the same bytes with them; but the list keeps its length, with
-- the last of the old blocks, in the order of their offsets, behind the joined ones.
pub defrag-Defrags :
    (b : FreeBlocks) → All Fits b.fb → total b.fb < 2 ^ 32 → 2 ≤ length b.fb → Defrags b (defrag b)
unfolding defrag by_offset
defrag-Defrags b fits small two =
    let less = λ (y z : FreeBlock). ltb_int64 y.offset z.offset in
    let fs = sort_by less b.fb in
    let many : leb (length b.fb) 1 ≡ false = ground arith in
    rw many (
      defrag_sorted-Defrags fs b refl (All-sort_by less Fits b.fb fits)
        (omega (arith, total-sort_by less b.fb)) (omega (arith, length-sort_by less b.fb)))

module _ (b c : FreeBlock) (fb : Fits b) (fc : Fits c) (pos : 1 ≤ b.size)
    (touch : b.offset + b.size ≡ c.offset) where
  -- A shard of just two free blocks, which touch and have sizes below four gigabytes together: after
  -- `defrag` every byte of the second is covered twice, by the joined block and by the old one.
  pub defrag_doubles :
      (x : ℕ) (cache : ℕ → Bool)
      → b.size + c.size < 2 ^ 32
      → c.offset ≤ x
      → x < c.offset + c.size
      → covers x (defrag (record { fb = b ∷ c ∷ []; cache = cache })).fb ≡ 2
  unfolding covers defrag defrag_sorted sort_by insert_by merge
  defrag_doubles x cache small lo hi =
      let ordered : ltb_int64 c.offset b.offset ≡ false = ground arith in
      let joined : (add64 b.offset b.size == c.offset) ≡ true = ground arith in
      rw (ordered, merge, joined) (ground arith)
