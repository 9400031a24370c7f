-- ===== src/Hash/Consistent/Find.antt =====
-- hash/consistent.go: `FindBlock` ends, at a working block.
use unitdb.Prelude.{ℕ, zero, suc, ◌-◌, ◌%◌, ◌^◌, ◌≤◌, ◌<◌, ◌≡◌, some, arith, lt→ltb, ◌∙◌}
use native.Mathlib.Decide.{dec_lt}
use unitdb.Hash.Flea.{
  Flea, flea_init, flea_round, fast_mod, fast_mod-lt, flea_round-lt, flea_init-lt,
}
use unitdb.Hash.Consistent.{Consistent, walk, find_loop, find_block}
use unitdb.Hash.Consistent.Walk.{walk-end-lt, walk-fuel}
use unitdb.Hash.Consistent.Valid.{IsValid}

fast_mod16-lt : (x m : ℕ) → x < 2 ^ 32 → 0 < m → m < 2 ^ 16 → fast_mod x m % 2 ^ 16 < m
fast_mod16-lt x m hx hm fits = omega (arith, fast_mod-lt x m hx hm (omega arith))

module _ (fuel : ℕ) (c : Consistent) (s : Flea) (b : ℕ) where
  find_loop-stop : c.a b ≡ 0 → find_loop (suc fuel) c s b ≡ some b
  unfolding find_loop
  find_loop-stop z = ground arith

  find_loop-step :
      (h : ℕ)
      → 0 < c.a b
      → walk (suc c.size) c.a c.k (c.a b) (fast_mod (flea_round s).d (c.a b) % 2 ^ 16) ≡ some h
      → find_loop (suc fuel) c s b ≡ find_loop fuel c (flea_round s) h
  unfolding find_loop
  find_loop-step h pos run = rw (lt→ltb 0 (c.a b) pos, find_loop, run)

-- One round: the walk ends at a block that was removed later, or at a working one.
round_lem :
    (c : Consistent) (s : Flea) (b : ℕ)
    → IsValid c
    → b < c.size
    → 0 < c.a b
    → (r : ℕ) × (walk (suc c.size) c.a c.k (c.a b) (fast_mod (flea_round s).d (c.a b) % 2 ^ 16)
        ≡ some r)
      × (r < c.size)
      × (c.a r < c.a b)
round_lem c s b v hb pos =
    let h = fast_mod (flea_round s).d (c.a b) % 2 ^ 16 in
    let h-lt : h < c.a b =
      fast_mod16-lt (flea_round s).d (c.a b) (flea_round-lt s) pos
        (omega (arith, v.below b hb, v.fits)) in
    let lo : c.n ≤ c.a b = ground (arith, v.removed b) in
    let (r, r-lt, run) = v.walks (c.a b) h lo (omega (arith, v.below b hb)) h-lt in
    let run' : walk (suc c.size) c.a c.k (c.a b) h ≡ some r =
      walk-fuel (suc (c.size - c.a b)) (suc c.size) c.a c.k (c.a b) h r (omega arith) run in
    (r, run', r-lt, walk-end-lt (suc c.size) c.a c.k (c.a b) h r run')

find_loop-ends :
    (fuel : ℕ) (c : Consistent) (s : Flea) (b : ℕ)
    → IsValid c
    → b < c.size
    → c.a b < fuel
    → (r : ℕ) × (find_loop fuel c s b ≡ some r) × (r < c.size) × (c.a r ≡ 0)
find_loop-ends zero c s b v hb enough = absurd (omega arith)
find_loop-ends (suc fuel) c s b v hb enough = elim (dec_lt 0 (c.a b)) [
  | no stop ↦ (b, find_loop-stop fuel c s b (omega arith), hb, omega arith)
  | yes on ↦
      let (r, run, r-lt, later) = round_lem c s b v hb on in
      let (end, found, fits, works) = find_loop-ends fuel c (flea_round s) r v r-lt (omega arith) in
      (end, find_loop-step fuel c s b r on run ∙ found, fits, works)
]

-- In a valid anchor the search for any key ends, at a working block: the fuel, one more than the
-- number of blocks for each of the two loops, is never used up.
pub find_block-works :
    (c : Consistent) (key : ℕ)
    → IsValid c
    → (b : ℕ) × (find_block c key ≡ some b) × (b < c.size) × (c.a b ≡ 0)
unfolding find_block
find_block-works c key v =
    let b = fast_mod (flea_init key).d c.size % 2 ^ 16 in
    let b-lt : b < c.size =
      fast_mod16-lt (flea_init key).d c.size (flea_init-lt key) (omega (arith, v.some_work, v.n_le))
        v.fits in
    find_loop-ends (suc c.size) c (flea_init key) b v b-lt (omega (arith, v.below b b-lt))
