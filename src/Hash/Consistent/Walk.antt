-- ===== src/Hash/Consistent/Walk.antt =====
-- hash/consistent.go: how the inner loop of `FindBlock` runs after a removal.
use unitdb.Prelude.{ℕ, zero, suc, ◌≤◌, ◌<◌, ◌≡◌, ◌≢◌, ◌⊎◌, refl, some, arith, ◌==◌, if◌then◌else◌}
use unitdb.Hash.Consistent.{update, walk}

module _ (fuel : ℕ) (a k : ℕ → ℕ) (bound h : ℕ) where
  pub walk-stop : a h < bound → walk (suc fuel) a k bound h ≡ some h
  unfolding walk
  walk-stop p = ground arith

  pub walk-step : bound ≤ a h → walk (suc fuel) a k bound h ≡ walk fuel a k bound (k h)
  unfolding walk
  walk-step p = ground arith

-- A change at an index where the walk stops before and after does not show.
pub walk-update :
    (fuel : ℕ) (a k : ℕ → ℕ) (bound b n v h : ℕ)
    → a b < bound
    → n < bound
    → walk fuel (update b n a) (update b v k) bound h ≡ walk fuel a k bound h
walk-update zero a k bound b n v h p q = unfold walk in refl
walk-update (suc fuel) a k bound b n v h p q = ground (
  arith,
  walk-stop fuel a k bound h,
  walk-step fuel a k bound h,
  walk-stop fuel (update b n a) (update b v k) bound h,
  walk-step fuel (update b n a) (update b v k) bound h,
  walk-update fuel a k bound b n v (k h) p q,
)

-- More fuel does not change a walk that has ended.
pub walk-fuel :
    (fuel more : ℕ) (a k : ℕ → ℕ) (bound h r : ℕ)
    → fuel ≤ more
    → walk fuel a k bound h ≡ some r
    → walk more a k bound h ≡ some r
walk-fuel zero more a k bound h r le e = unfold walk in cc
walk-fuel (suc fuel) zero a k bound h r le e = absurd (omega arith)
walk-fuel (suc fuel) (suc more) a k bound h r le e = ground (
  arith,
  walk-stop fuel a k bound h,
  walk-step fuel a k bound h,
  walk-stop more a k bound h,
  walk-step more a k bound h,
  walk-fuel fuel more a k bound (k h) r,
)

-- The end of a walk is below its bound.
pub walk-end-lt :
    (fuel : ℕ) (a k : ℕ → ℕ) (bound h r : ℕ) → walk fuel a k bound h ≡ some r → a r < bound
walk-end-lt zero a k bound h r e = unfold walk in cc
walk-end-lt (suc fuel) a k bound h r e = ground (
  arith,
  walk-stop fuel a k bound h,
  walk-step fuel a k bound h,
  walk-end-lt fuel a k bound (k h) r,
)

-- After `b` is removed with successor `v`, the walk for the new bound ends where it ended before,
-- or at `v` where that was `b`.
pub walk-remove :
    (fuel : ℕ) (a k : ℕ → ℕ) (n b v h r : ℕ)
    → ((j : ℕ) → (a j ≡ 0) ⊎ (suc n ≤ a j))
    → 1 ≤ n
    → a b ≡ 0
    → a v ≡ 0
    → (r ≡ b → v ≢ b)
    → walk fuel a k (suc n) h ≡ some r
    → walk (suc fuel) (update b n a) (update b v k) n h ≡ some (if r == b then v else r)
walk-remove zero a k n b v h r removed pos ab av apart e = unfold walk in cc
walk-remove (suc fuel) a k n b v h r removed pos ab av apart e = ground (
  arith,
  removed h,
  walk-stop fuel a k (suc n) h,
  walk-step fuel a k (suc n) h,
  walk-stop (suc fuel) (update b n a) (update b v k) n h,
  walk-step (suc fuel) (update b n a) (update b v k) n h,
  walk-stop fuel (update b n a) (update b v k) n v,
  walk-remove fuel a k n b v (k h) r removed pos ab av apart,
)
