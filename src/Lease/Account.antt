-- ===== src/Lease/Account.antt =====
-- leasing.go: which bytes the free list covers, how many it holds, and the invariant.
use unitdb.Prelude.{
  ℕ, zero, suc, ◌+◌, ◌%◌, ◌^◌, ◌<◌, ◌≡◌, some, List, [], ◌∷◌, ◌++◌, arith, ltb, leb, length,
  get_elem?, get_elem?-lt, set, if◌then◌else◌, ◌&&◌,
}
use unitdb.Hash.Consistent.{find_block}
use unitdb.Hash.Consistent.Find.{find_block-works}
use unitdb.Hash.Consistent.Valid as Anchor
use unitdb.Lease.{FreeBlock, FreeBlocks, Lease}

-- 1 if the block covers the byte at `x`, and else 0.
abbrev pub occurs : ℕ → FreeBlock → ℕ
occurs x b = if leb b.offset x && ltb x (b.offset + b.size) then 1 else 0

-- How many blocks of the list cover the byte at `x`.
unfoldable pub covers : ℕ → List FreeBlock → ℕ
covers x [] = 0
covers x (b ∷ bs) = occurs x b + covers x bs

unfoldable pub total : List FreeBlock → ℕ
total [] = 0
total (b ∷ bs) = b.size + total bs

-- The same over all shards.
unfoldable pub free_at : ℕ → List FreeBlocks → ℕ
free_at x [] = 0
free_at x (b ∷ bs) = covers x b.fb + free_at x bs

unfoldable pub total_all : List FreeBlocks → ℕ
total_all [] = 0
total_all (b ∷ bs) = total b.fb + total_all bs

-- The block lies in the file: its bytes have nonnegative int64 offsets.
abbrev pub Fits : FreeBlock → Type 0
Fits b = (b.size < 2 ^ 32) × (b.offset + b.size < 2 ^ 63)

-- Every key has a shard, every free block lies in the file, and `size` counts the free bytes.
pub record IsValid (l : Lease) : Type 0 where
  pub anchor : Anchor.IsValid l.consistent
  pub shards : l.consistent.size ≡ length l.blocks
  pub fits :
      (i j : ℕ) (fbs : FreeBlocks) (b : FreeBlock)
      → get_elem? l.blocks i ≡ some fbs
      → get_elem? fbs.fb j ≡ some b
      → Fits b
  pub counted : l.size ≡ total_all l.blocks % 2 ^ 64

pub covers-append :
    (x : ℕ) (xs ys : List FreeBlock) → covers x (xs ++ ys) ≡ covers x xs + covers x ys
unfolding covers
covers-append x [] ys = omega arith
covers-append x (b ∷ xs) ys = omega (arith, covers-append x xs ys)

pub total-append : (xs ys : List FreeBlock) → total (xs ++ ys) ≡ total xs + total ys
unfolding total
total-append [] ys = omega arith
total-append (b ∷ xs) ys = omega (arith, total-append xs ys)

-- Replacing one shard replaces its share of both sums.
pub free_at-set :
    (x : ℕ) (bs : List FreeBlocks) (i : ℕ) (old new : FreeBlocks)
    → get_elem? bs i ≡ some old
    → free_at x (set bs i new) + covers x old.fb ≡ free_at x bs + covers x new.fb
unfolding free_at
free_at-set x [] i old new e = cc
free_at-set x (b ∷ bs) zero old new e = ground arith
free_at-set x (b ∷ bs) (suc i) old new e = omega (arith, free_at-set x bs i old new e)

pub total_all-set :
    (bs : List FreeBlocks) (i : ℕ) (old new : FreeBlocks)
    → get_elem? bs i ≡ some old
    → total_all (set bs i new) + total old.fb ≡ total_all bs + total new.fb
unfolding total_all
total_all-set [] i old new e = cc
total_all-set (b ∷ bs) zero old new e = ground arith
total_all-set (b ∷ bs) (suc i) old new e = omega (arith, total_all-set bs i old new e)

-- A valid free list has a shard for every key.
pub shard-found :
    (l : Lease) (key : ℕ)
    → IsValid l
    → (i : ℕ) × (fbs : FreeBlocks) × (find_block l.consistent key ≡ some i)
      × (get_elem? l.blocks i ≡ some fbs)
shard-found l key v =
    let (i, found, fits, works) = find_block-works l.consistent key v.anchor in
    let (fbs, e) = get_elem?-lt l.blocks i (omega (arith, v.shards)) in (i, fbs, found, e)
