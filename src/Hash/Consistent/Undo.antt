-- ===== src/Hash/Consistent/Undo.antt =====
-- hash/consistent.go: `AddBlock` and `RemoveBlock`.
use unitdb.Prelude.{ℕ, suc, ◌+◌, ◌-◌, ◌%◌, ◌^◌, ◌≤◌, ◌<◌, ◌≡◌, ap, fun_ext, some, arith, List, ◌∷◌}
use unitdb.Hash.Consistent.{Consistent, update, init_consistent, add_block, remove_block, count_up}
use unitdb.Hash.Consistent.Valid.{IsValid, removal, remove_block-eq}

module _ (b m : ℕ) (c : Consistent) (hb : b < c.size) (z : c.a b ≡ 0) (e : suc m ≡ c.n)
    (v : IsValid c) where
  a_back : (j : ℕ) → update b 0 (update b m c.a) j ≡ c.a j
  a_back j = ground arith

  k_back : (j : ℕ) → update b b (update b (c.w m) c.k) j ≡ c.k j
  k_back j = ground (arith, v.own b hb z)

  l_back : (j : ℕ) → update (update (c.l b) (c.w m) c.w m) m (update (c.w m) (c.l b) c.l) j ≡ c.l j
  l_back j = ground (arith, v.working m (omega arith))

  w_back :
      (j : ℕ)
      → update
          (update (update (c.l b) (c.w m) c.w m) m (update (c.w m) (c.l b) c.l) b)
          b
          (update (c.l b) (c.w m) c.w)
          j
        ≡ c.w j
  w_back j = rw (l_back b) (ground (arith, v.located b hb z))

  add_block-removal : add_block (removal b m c) ≡ some (b, c)
  unfolding add_block removal
  add_block-removal =
      let n-eq : (m + 1) % 2 ^ 16 ≡ c.n = omega (arith, v.fits, v.n_le) in
      λ i. some (
        b,
        record c {
          a = fun_ext a_back i;
          k = fun_ext k_back i;
          w = fun_ext w_back i;
          l = fun_ext l_back i;
          n = n-eq i;
        },
      )

pub add-remove :
    (b : ℕ) (c : Consistent)
    → b < c.size
    → c.a b ≡ 0
    → 2 ≤ c.n
    → IsValid c
    → add_block (remove_block b c) ≡ some (b, c)
add-remove b c hb z two v =
    rw (remove_block-eq b (c.n - 1) c z (omega arith) (omega (arith, v.n_le, v.fits)))
      (add_block-removal b (c.n - 1) c hb z (omega arith) v)

-- The state after `AddBlock` pops `b` and leaves `r` on the stack.
abbrev added : Consistent → ℕ → List ℕ → Consistent
added c b r =
    let l' = update (c.w c.n) c.n c.l in
    record c {
      a = update b 0 c.a;
      k = update b b c.k;
      w = update (l' b) b c.w;
      l = l';
      r = r;
      n = (c.n + 1) % 2 ^ 16;
    }

add_block-cons :
    (c : Consistent) (b : ℕ) (r : List ℕ) → c.r ≡ b ∷ r → add_block c ≡ some (b, added c b r)
unfolding add_block
add_block-cons c b r e = rw (e, add_block)

-- An anchor that starts with some of its blocks unused has 0 in the tables at those blocks. The
-- first block added then takes the place of block 0, which still counts as working, and its own
-- place goes on naming block 0.
pub add_block_unused :
    (blocks used : ℕ)
    → 1 ≤ used
    → used < blocks
    → blocks < 2 ^ 16
    → (c : Consistent) × (add_block (init_consistent blocks used) ≡ some (used, c))
      × (c.n ≡ used + 1)
      × (c.w 0 ≡ used)
      × (c.w used ≡ 0)
      × (c.a 0 ≡ 0)
unfolding init_consistent
add_block_unused blocks used pos more fits =
    let k = blocks - used - 1 in
    let e : blocks - used ≡ suc k = omega arith in
    let c = init_consistent blocks used in
    (
      added c used (count_up k (used + 1)),
      add_block-cons c used (count_up k (used + 1)) (ap (λ (j : ℕ). count_up j used) e),
      omega arith,
      ground arith,
      ground arith,
      ground arith,
    )
