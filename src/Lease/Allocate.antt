-- ===== src/Lease/Allocate.antt =====
-- leasing.go: taking bytes from a free block.
use unitdb.Prelude.{
  ℕ, ◌+◌, ◌^◌, ◌≤◌, ◌<◌, ◌≡◌, ◌≢◌, refl, sym, ◌∙◌, ◌⊎◌, inl, inr, false, some, arith, get_elem?,
  set, length-set, sub64, minus_one, ◌>>=◌, ◌==◌, ltb_int64, Bool-cases, Option-cases,
}
use unitdb.Lease.{FreeBlock, FreeBlocks, Lease, allocate, search, take_from, mark}
use unitdb.Lease.Search.{search-fits}
use unitdb.Lease.Account.{
  occurs, free_at, total_all, Fits, IsValid, free_at-set, total_all-set, shard-found,
}
use unitdb.Lease.Free.{set-Fits}
use unitdb.Lease.Taken.{take_from-covers, take_from-total, take_from-Fits}

-- What a successful allocation does: the bytes of the block leave the free list, and no other, and
-- are counted off.
pub record Allocates (off size : ℕ) (l l' : Lease) : Type 0 where
  pub in_file : off + size < 2 ^ 63
  pub counts : total_all l'.blocks + size ≡ total_all l.blocks
  pub bytes :
      (x : ℕ)
      → free_at x l'.blocks + occurs x (record { offset = off; size = size }) ≡ free_at x l.blocks

-- The free list after `size` bytes are taken from block `j`, `b`, of shard `i`.
abbrev taken : ℕ → Lease → ℕ → FreeBlocks → ℕ → FreeBlock → Lease
taken size l i fbs j b = record l {
  blocks =
      set l.blocks i
        (record { fb = take_from j b size fbs.fb; cache = mark b.offset false fbs.cache });
  size = sub64 l.size size;
}

module _ (size : ℕ) (l : Lease) (i : ℕ) (fbs : FreeBlocks) (j : ℕ) (b : FreeBlock) (v : IsValid l)
    (e : get_elem? l.blocks i ≡ some fbs) (eb : get_elem? fbs.fb j ≡ some b)
    (le : size ≤ b.size) where
  fit : Fits b
  fit = v.fits i j fbs b e eb

  new : FreeBlocks
  new = record { fb = take_from j b size fbs.fb; cache = mark b.offset false fbs.cache }

  taken-IsValid : IsValid (taken size l i fbs j b)
  unfolding new
  taken-IsValid = record {
    anchor = v.anchor;
    shards = v.shards ∙ sym (length-set l.blocks i new);
    fits =
        set-Fits l.blocks i new v.fits
          (take_from-Fits fbs.fb j b size eb le fit (λ k c. v.fits i k fbs c e));
    counted = omega (
      arith,
      v.counted,
      fit,
      total_all-set l.blocks i fbs new e,
      take_from-total fbs.fb j b size eb le fit,
    );
  }

  taken-Allocates : Allocates b.offset size l (taken size l i fbs j b)
  unfolding new
  taken-Allocates = record {
    in_file = omega (arith, fit);
    counts =
        omega
          (arith, total_all-set l.blocks i fbs new e, take_from-total fbs.fb j b size eb le fit);
    bytes = λ x.
        omega
          (arith, free_at-set x l.blocks i fbs new e, take_from-covers fbs.fb j b size eb le fit x);
  }

-- An allocation of at least one byte never panics and keeps the invariant. It returns -1 and changes
-- nothing, or the offset of bytes in the file that were free.
pub allocate-Allocates :
    (size : ℕ) (l : Lease)
    → 1 ≤ size
    → IsValid l
    → (off : ℕ) × (l' : Lease) × (allocate size l ≡ some (off, l'))
      × IsValid l'
      × (((off ≡ minus_one) × (l' ≡ l)) ⊎ Allocates off size l l')
unfolding allocate
allocate-Allocates size l pos v =
    let nonzero : (size == 0) ≡ false = ground arith in
    let (i, fbs, found, e) = shard-found l size v in
    elim (Bool-cases (ltb_int64 l.size l.minimum_free_blocks_size)) [
      | inl few ↦ (minus_one, l, rw (nonzero, few), v, inl (refl, refl))
      | inr many ↦ elim (Option-cases (get_elem? fbs.fb (search size fbs))) [
        | inl absent ↦
            (minus_one, l, rw (nonzero, many, found, e, ◌>>=◌, absent), v, inl (refl, refl))
        | inr (b, eb) ↦
            let le = (search-fits size fbs).1 b eb in
            let j = search size fbs in
            (
              b.offset,
              taken size l i fbs j b,
              rw (nonzero, many, found, e, ◌>>=◌, eb),
              taken-IsValid size l i fbs j b v e eb le,
              inr (taken-Allocates size l i fbs j b v e eb le),
            )
      ]
    ]

-- If no byte is free twice, the bytes that are allocated were free and are free no more.
pub allocate-exclusive :
    (size off : ℕ) (l l' : Lease) (x : ℕ)
    → 1 ≤ size
    → IsValid l
    → ((y : ℕ) → free_at y l.blocks ≤ 1)
    → allocate size l ≡ some (off, l')
    → off ≢ minus_one
    → off ≤ x
    → x < off + size
    → (free_at x l.blocks ≡ 1) × (free_at x l'.blocks ≡ 0)
allocate-exclusive size off l l' x pos v once run found lo hi =
    let (o, k, run', _, effect) = allocate-Allocates size l pos v in
    let same_off : o ≡ off = cc (run, run') in
    let same : k ≡ l' = cc (run, run') in
    elim effect [
      | inl e ↦ absurd (found (sym same_off ∙ e.0))
      | inr a ↦
          let here : occurs x (record { offset = off; size = size }) ≡ 1 = ground arith in
          let bytes : free_at x l'.blocks + occurs x (record { offset = off; size = size })
              ≡ free_at x l.blocks =
            rw (← same_off, ← same) (a.bytes x) in
          omega (arith, once x)
    ]
