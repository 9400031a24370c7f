-- ===== src/Lease/Search.antt =====
-- leasing.go: the binary search for a free block that is large enough.
use unitdb.Prelude.{
  ℕ, zero, suc, ◌+◌, ◌/◌, ◌≤◌, ◌<◌, ◌≡◌, sym, ◌∙◌, Bool, true, false, some, List, arith, leb,
  length, get_elem?, get_elem?-lt, leb→le, le→leb, get_elem?-some-lt,
}
use unitdb.Lease.{FreeBlock, FreeBlocks, search_loop, search, holds}

module _ (f : ℕ → Bool) where
  -- The loop ends inside its range, at a place where the test holds unless it is the end.
  pub search_loop-bounds :
      (fuel i j : ℕ)
      → i ≤ j
      → j ≤ i + fuel
      → let r = search_loop fuel f i j in (i ≤ r) × (r ≤ j) × (r < j → f r ≡ true)
  unfolding search_loop
  search_loop-bounds zero i j le enough = (omega arith, omega arith, λ h. absurd (omega arith))
  search_loop-bounds (suc fuel) i j le enough =
      ground (
        arith,
        search_loop-bounds fuel ((i + j) / 2 + 1) j,
        search_loop-bounds fuel i ((i + j) / 2),
      )

  -- Where the test goes on holding below `n` once it holds, it fails below the end of the loop.
  pub search_loop-first :
      (n : ℕ)
      → ((a b : ℕ) → a ≤ b → b < n → f a ≡ true → f b ≡ true)
      → (fuel i j m : ℕ) → j ≤ n
      → i ≤ m
      → m < search_loop fuel f i j
      → f m ≡ false
  unfolding search_loop
  search_loop-first n mono zero i j m hj lo hi = absurd (omega arith)
  search_loop-first n mono (suc fuel) i j m hj lo hi = ground (
    arith,
    mono m ((i + j) / 2),
    search_loop-first n mono fuel ((i + j) / 2 + 1) j m,
    search_loop-first n mono fuel i ((i + j) / 2) m,
  )

holds-eq :
    (size : ℕ) (fb : List FreeBlock) (i : ℕ) (c : FreeBlock)
    → get_elem? fb i ≡ some c
    → holds size fb i ≡ leb size c.size
holds-eq size fb i c e = rw (holds, e)

-- The place that `search` returns is the end of the list, or holds a block of at least `size`.
pub search-fits :
    (size : ℕ) (b : FreeBlocks)
    → (search size b ≤ length b.fb)
      × ((c : FreeBlock) → get_elem? b.fb (search size b) ≡ some c → size ≤ c.size)
unfolding search
search-fits size b =
    let n = length b.fb in
    let r = search_loop n (holds size b.fb) 0 n in
    let found = search_loop-bounds (holds size b.fb) n 0 n (omega arith) (omega arith) in
    (
      found.1,
      λ c e.
          let h : holds size b.fb r ≡ true = found.2 (get_elem?-some-lt b.fb r c e) in
          leb→le size c.size (sym (holds-eq size b.fb r c e) ∙ h),
    )

-- The blocks stand in the order of their sizes.
abbrev pub IsSorted : List FreeBlock → Type 0
IsSorted fb =
    (i j : ℕ) (x y : FreeBlock)
    → i ≤ j
    → get_elem? fb i ≡ some x
    → get_elem? fb j ≡ some y
    → x.size ≤ y.size

holds_mono :
    (size : ℕ) (fb : List FreeBlock)
    → IsSorted fb
    → (i j : ℕ) → i ≤ j
    → j < length fb
    → holds size fb i ≡ true
    → holds size fb j ≡ true
holds_mono size fb sorted i j le hj h =
    let (x, ex) = get_elem?-lt fb i (omega arith) in
    let (y, ey) = get_elem?-lt fb j hj in
    let h' = sym (holds-eq size fb i x ex) ∙ h in
    let le' : size ≤ y.size = omega (arith, sorted i j x y le ex ey, leb→le size x.size h') in
    holds-eq size fb j y ey ∙ le→leb size y.size le'

-- In a list that is sorted by size, every block in front of that place is too small.
pub search-first :
    (size : ℕ) (b : FreeBlocks) (m : ℕ) (c : FreeBlock)
    → IsSorted b.fb
    → m < search size b
    → get_elem? b.fb m ≡ some c
    → c.size < size
unfolding search
search-first size b m c sorted h e =
    let n = length b.fb in
    let no : holds size b.fb m ≡ false =
      search_loop-first (holds size b.fb) n (holds_mono size b.fb sorted) n 0 n m (omega arith)
        (omega arith) h in
    ground (arith, sym (holds-eq size b.fb m c e) ∙ no)
