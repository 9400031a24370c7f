-- ===== src/Lease/Taken.antt =====
-- leasing.go: a shard's list after bytes are taken from one of its blocks.
use unitdb.Prelude.{
  ℕ, zero, suc, ◌+◌, ◌-◌, ◌%◌, ◌^◌, ◌≤◌, ◌≡◌, inl, inr, some, List, [], ◌∷◌, arith, get_elem?, set,
  add64, ◌==◌, Bool-cases,
}
use unitdb.Lease.{FreeBlock, take_from, remove_at}
use unitdb.Lease.Account.{occurs, covers, total, Fits}

-- Taking a block out of the list, and putting another in its place.
module _ (x : ℕ) where
  covers-remove_at :
      (fb : List FreeBlock) (j : ℕ) (b : FreeBlock)
      → get_elem? fb j ≡ some b
      → covers x (remove_at j fb) + occurs x b ≡ covers x fb
  unfolding covers remove_at
  covers-remove_at [] j b e = cc
  covers-remove_at (c ∷ fb) zero b e = let same : c ≡ b = cc (e) in rw same (omega arith)
  covers-remove_at (c ∷ fb) (suc j) b e = omega (arith, covers-remove_at fb j b e)

  covers-set :
      (fb : List FreeBlock) (j : ℕ) (b new : FreeBlock)
      → get_elem? fb j ≡ some b
      → covers x (set fb j new) + occurs x b ≡ covers x fb + occurs x new
  unfolding covers
  covers-set [] j b new e = cc
  covers-set (c ∷ fb) zero b new e = let same : c ≡ b = cc (e) in rw same (omega arith)
  covers-set (c ∷ fb) (suc j) b new e = omega (arith, covers-set fb j b new e)

total-remove_at :
    (fb : List FreeBlock) (j : ℕ) (b : FreeBlock)
    → get_elem? fb j ≡ some b
    → total (remove_at j fb) + b.size ≡ total fb
unfolding total remove_at
total-remove_at [] j b e = cc
total-remove_at (c ∷ fb) zero b e = let same : c ≡ b = cc (e) in rw same (omega arith)
total-remove_at (c ∷ fb) (suc j) b e = omega (arith, total-remove_at fb j b e)

total-set :
    (fb : List FreeBlock) (j : ℕ) (b new : FreeBlock)
    → get_elem? fb j ≡ some b
    → total (set fb j new) + b.size ≡ total fb + new.size
unfolding total
total-set [] j b new e = cc
total-set (c ∷ fb) zero b new e = let same : c ≡ b = cc (e) in rw same (omega arith)
total-set (c ∷ fb) (suc j) b new e = omega (arith, total-set fb j b new e)

remove_at-Fits :
    (fb : List FreeBlock) (i : ℕ)
    → ((j : ℕ) (b : FreeBlock) → get_elem? fb j ≡ some b → Fits b)
    → (j : ℕ) (b : FreeBlock) → get_elem? (remove_at i fb) j ≡ some b
    → Fits b
unfolding remove_at
remove_at-Fits [] i h j b e = h j b e
remove_at-Fits (c ∷ fb) zero h j b e = h (suc j) b e
remove_at-Fits (c ∷ fb) (suc i) h zero b e = h zero b e
remove_at-Fits (c ∷ fb) (suc i) h (suc j) b e = remove_at-Fits fb i (λ k. h (suc k)) j b e

set_at-Fits :
    (fb : List FreeBlock) (i : ℕ) (new : FreeBlock)
    → Fits new
    → ((j : ℕ) (b : FreeBlock) → get_elem? fb j ≡ some b → Fits b)
    → (j : ℕ) (b : FreeBlock) → get_elem? (set fb i new) j ≡ some b
    → Fits b
set_at-Fits [] i new hn h j b e = h j b e
set_at-Fits (c ∷ fb) zero new hn h zero b e = ground arith
set_at-Fits (c ∷ fb) zero new hn h (suc j) b e = h (suc j) b e
set_at-Fits (c ∷ fb) (suc i) new hn h zero b e = h zero b e
set_at-Fits (c ∷ fb) (suc i) new hn h (suc j) b e = set_at-Fits fb i new hn (λ k. h (suc k)) j b e

-- The first `size` bytes of the block leave the list, and no other.
module _ (fb : List FreeBlock) (j : ℕ) (b : FreeBlock) (size : ℕ) (e : get_elem? fb j ≡ some b)
    (le : size ≤ b.size) (fit : Fits b) where
  pub take_from-covers :
      (x : ℕ)
      → covers x (take_from j b size fb) + occurs x (record { offset = b.offset; size = size })
        ≡ covers x fb
  unfolding take_from
  take_from-covers x = ground (
    arith,
    covers-remove_at x fb j b e,
    covers-set x fb j b
        (record { size = (b.size + 2 ^ 32 - size) % 2 ^ 32; offset = add64 b.offset size }) e,
  )

  pub take_from-total : total (take_from j b size fb) + size ≡ total fb
  unfolding take_from
  take_from-total = ground (
    arith,
    total-remove_at fb j b e,
    total-set fb j b
        (record { size = (b.size + 2 ^ 32 - size) % 2 ^ 32; offset = add64 b.offset size }) e,
  )

  pub take_from-Fits :
      ((i : ℕ) (c : FreeBlock) → get_elem? fb i ≡ some c → Fits c)
      → (i : ℕ) (c : FreeBlock) → get_elem? (take_from j b size fb) i ≡ some c
      → Fits c
  unfolding take_from
  take_from-Fits h = elim (Bool-cases (b.size == size)) [
    | inl all ↦ rw all (remove_at-Fits fb j h)
    | inr part ↦ rw part (set_at-Fits fb j _ (omega arith) h)
  ]
