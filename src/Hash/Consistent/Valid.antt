-- ===== src/Hash/Consistent/Valid.antt =====
-- hash/consistent.go: the invariant of the arrays, of a new anchor and kept by a removal.
use unitdb.Prelude.{
  ℕ, suc, ◌+◌, ◌-◌, ◌^◌, ◌≤◌, ◌<◌, ◌≡◌, ◌≢◌, ◌⊎◌, inl, inr, some, arith, ◌==◌, if◌then◌else◌,
  Bool-cases, ==_iff, ◌∷◌, ◌%◌,
}
use native.Mathlib.Decide.{dec_lt}
use unitdb.Hash.Consistent.{Consistent, update, walk, init_consistent, remove_block}
use unitdb.Hash.Consistent.Walk.{walk-stop, walk-update, walk-remove}

-- A block is working where `a` is 0. The places below `n` of `w` list the working blocks and `l` is
-- the inverse; a removed block has the size of the working set just after its removal, so at least
-- `n`. For every size that the working set has had since, the walk from each place ends.
pub record IsValid (c : Consistent) : Type 0 where
  pub fits : c.size < 2 ^ 16
  pub some_work : 1 ≤ c.n
  pub n_le : c.n ≤ c.size
  pub working : (p : ℕ) → p < c.n → (c.w p < c.size) × (c.a (c.w p) ≡ 0) × (c.l (c.w p) ≡ p)
  pub located : (b : ℕ) → b < c.size → c.a b ≡ 0 → (c.l b < c.n) × (c.w (c.l b) ≡ b)
  pub removed : (b : ℕ) → (c.a b ≡ 0) ⊎ (c.n ≤ c.a b)
  pub below : (b : ℕ) → b < c.size → c.a b < c.size
  pub ends : (p : ℕ) → p < c.n → walk (suc (c.size - c.n)) c.a c.k c.n p ≡ some (c.w p)
  pub walks :
      (t p : ℕ)
      → c.n ≤ t
      → t ≤ c.size
      → p < t
      → (r : ℕ) × (r < c.size) × (walk (suc (c.size - t)) c.a c.k t p ≡ some r)
  -- A working block is its own successor.
  pub own : (b : ℕ) → b < c.size → c.a b ≡ 0 → c.k b ≡ b

-- A new anchor is valid, however many of its blocks are used.
pub init_consistent-IsValid :
    (blocks used : ℕ)
    → 1 ≤ used
    → used ≤ blocks
    → blocks < 2 ^ 16
    → IsValid (init_consistent blocks used)
unfolding init_consistent
init_consistent-IsValid blocks used pos le fits = record {
  fits = fits;
  some_work = pos;
  n_le = le;
  working = λ p h. ground arith;
  located = λ b h z. ground arith;
  removed = λ b. ground arith;
  below = λ b h. ground arith;
  ends = λ p h.
      let c = init_consistent blocks used in
      ground (arith, walk-stop (blocks - used) c.a c.k used p);
  walks = λ t p lo hi h.
      let c = init_consistent blocks used in
      (p, omega arith, walk-stop (blocks - t) c.a c.k t p (ground arith));
  own = λ b h z. ground arith;
}

-- What `RemoveBlock` does to a working block, with the new size of the working set written `m`.
unfoldable pub removal : ℕ → ℕ → Consistent → Consistent
removal b m c = record c {
  a = update b m c.a;
  k = update b (c.w m) c.k;
  w = update (c.l b) (c.w m) c.w;
  l = update (c.w m) (c.l b) c.l;
  r = b ∷ c.r;
  n = m;
}

pub remove_block-eq :
    (b m : ℕ) (c : Consistent)
    → c.a b ≡ 0
    → suc m ≡ c.n
    → c.n < 2 ^ 16
    → remove_block b c ≡ removal b m c
unfolding remove_block removal
remove_block-eq b m c z e fits =
    let n' : (c.n + 2 ^ 16 - 1) % 2 ^ 16 ≡ m = omega arith in
    let same : update (c.l b) (c.w m) c.w m ≡ c.w m = ground arith in rw (n', same, z)

module _ (b m : ℕ) (c : Consistent) (hb : b < c.size) (z : c.a b ≡ 0) (e : suc m ≡ c.n)
    (pos : 1 ≤ m) (v : IsValid c) where
  -- The removed block stands in the last place only if it is the last block.
  apart : (p : ℕ) → p < m → c.w p ≡ b → c.w m ≢ b
  apart p h same = ground (arith, v.working p (omega arith), v.working m (omega arith))

  removal-working :
      (p : ℕ)
      → p < m
      → let d = removal b m c in (d.w p < d.size) × (d.a (d.w p) ≡ 0) × (d.l (d.w p) ≡ p)
  unfolding removal
  removal-working p h =
      ground (arith, v.working p (omega arith), v.working m (omega arith), v.located b hb z)

  removal-located :
      (j : ℕ) → j < c.size → let d = removal b m c in d.a j ≡ 0 → (d.l j < d.n) × (d.w (d.l j) ≡ j)
  unfolding removal
  removal-located j h zj =
      ground (arith, v.working m (omega arith), v.located b hb z, v.located j h)

  removal-ends :
      (p : ℕ)
      → p < m
      → let d = removal b m c in walk (suc (d.size - d.n)) d.a d.k d.n p ≡ some (d.w p)
  unfolding removal
  removal-ends p h =
      let fuel : c.size - m ≡ suc (c.size - suc m) = omega (arith, v.n_le) in
      let old : walk (suc (c.size - suc m)) c.a c.k (suc m) p ≡ some (c.w p) =
        rw e (v.ends p (omega arith)) in
      let w' : (if c.w p == b then c.w m else c.w p) ≡ update (c.l b) (c.w m) c.w p =
        ground (arith, v.working p (omega arith), v.located b hb z) in
      rw (
        fuel,
        walk-remove (suc (c.size - suc m)) c.a c.k m b (c.w m) p (c.w p) (λ j. rw e (v.removed j))
            pos z (v.working m (omega arith)).1 (apart p h) old,
        w',
      )

  pub removal-IsValid : IsValid (removal b m c)
  unfolding removal
  removal-IsValid = record {
    fits = v.fits;
    some_work = pos;
    n_le = omega (arith, v.n_le);
    working = removal-working;
    located = removal-located;
    removed = λ j. ground (arith, v.removed j);
    below = λ j h. ground (arith, v.below j h, v.n_le);
    ends = removal-ends;
    walks = λ t p lo hi h. elim (dec_lt m t) [
      | yes more ↦
          let (r, fits, run) = v.walks t p (omega arith) hi h in
          (
            r,
            fits,
            rw (walk-update (suc (c.size - t)) c.a c.k t b m (c.w m) p (omega arith) more) run,
          )
      | no last ↦
          let same : t ≡ m = omega arith in
          rw same
            ((removal b m c).w p, (removal-working p (omega arith)).0, removal-ends p (omega arith))
    ];
    own = λ j h zj. ground (arith, v.own j h);
  }

-- Removing one of at least two working blocks keeps the invariant; a block that is removed already
-- is left alone.
pub remove_block-IsValid :
    (b : ℕ) (c : Consistent) → b < c.size → 2 ≤ c.n → IsValid c → IsValid (remove_block b c)
remove_block-IsValid b c hb two v = elim (Bool-cases (c.a b == 0)) [
  | inl z ↦
      rw
        (remove_block-eq b (c.n - 1) c ((==_iff _ _).0 z) (omega arith)
          (omega (arith, v.n_le, v.fits)))
        (removal-IsValid b (c.n - 1) c hb ((==_iff _ _).0 z) (omega arith) (omega arith) v)
  | inr nz ↦ unfold remove_block in rw nz v
]
