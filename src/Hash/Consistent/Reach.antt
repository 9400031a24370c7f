-- ===== src/Hash/Consistent/Reach.antt =====
-- hash/consistent.go: what any run of `AddBlock` and `RemoveBlock` from a new anchor leads to.
use unitdb.Prelude.{ℕ, ◌-◌, ◌^◌, ◌≤◌, ◌<◌, ◌≡◌, sym, some, none, arith}
use mathlib.Core.Path.{subst}
use native.Mathlib.Decide.{ℕ_discrete}
use unitdb.Hash.Consistent.{Consistent, init_consistent, add_block, remove_block, find_block}
use unitdb.Hash.Consistent.Valid.{IsValid, init_consistent-IsValid, remove_block-IsValid}
use unitdb.Hash.Consistent.Undo.{add-remove}
use unitdb.Hash.Consistent.Find.{find_block-works}

-- The states that calls reach from an anchor whose blocks are all used, as long as one block is
-- left working. A removal names a block of the anchor; an addition does not panic.
pub data Reach (blocks : ℕ) : Consistent → Type 0 where
  start : Reach blocks (init_consistent blocks blocks)
  remove :
      {c : Consistent} (b : ℕ)
      → b < c.size
      → 2 ≤ c.n
      → Reach blocks c
      → Reach blocks (remove_block b c)
  add : {c d : Consistent} {b : ℕ} → add_block c ≡ some (b, d) → Reach blocks c → Reach blocks d

-- The same by removals alone.
data Removed (blocks : ℕ) : Consistent → Type 0 where
  whole : Removed blocks (init_consistent blocks blocks)
  without :
      {c : Consistent} (b : ℕ)
      → b < c.size
      → c.a b ≡ 0
      → 2 ≤ c.n
      → Removed blocks c
      → Removed blocks (remove_block b c)

module _ (blocks : ℕ) (pos : 1 ≤ blocks) (fits : blocks < 2 ^ 16) where
  Removed-IsValid : {c : Consistent} → Removed blocks c → IsValid c
  Removed-IsValid whole = init_consistent-IsValid blocks blocks pos (omega arith) fits
  Removed-IsValid (without {c} b hb z two r) = remove_block-IsValid b c hb two (Removed-IsValid r)

  add-whole : add_block (init_consistent blocks blocks) ≡ none
  unfolding add_block init_consistent
  add-whole = let e : blocks - blocks ≡ 0 = omega arith in rw (add_block, e)

  remove-Removed :
      {c : Consistent} (b : ℕ)
      → b < c.size
      → 2 ≤ c.n
      → Removed blocks c
      → Removed blocks (remove_block b c)
  remove-Removed {c} b hb two r = elim (ℕ_discrete (c.a b) 0) [
    | yes z ↦ without b hb z two r
    | no nz ↦
        let same : remove_block b c ≡ c = unfold remove_block in ground arith in
        subst (Removed blocks) (sym same) r
  ]

  -- An addition takes back the last removal.
  add-Removed :
      {c : Consistent}
      → Removed blocks c
      → (b : ℕ) (d : Consistent) → add_block c ≡ some (b, d)
      → Removed blocks d
  add-Removed whole b d h = cc (add-whole)
  add-Removed (without {c} b' hb z two r) b d h =
      let back = add-remove b' c hb z two (Removed-IsValid r) in
      let same : c ≡ d = cc (back, h) in subst (Removed blocks) same r

  Reach-Removed : {c : Consistent} → Reach blocks c → Removed blocks c
  Reach-Removed start = whole
  Reach-Removed (remove b hb two r) = remove-Removed b hb two (Reach-Removed r)
  Reach-Removed (add {d = d} {b = b} h r) = add-Removed (Reach-Removed r) b d h

-- From an anchor with all its blocks used, after any additions and removals that leave a block,
-- every key is found a working block.
pub Reach-find :
    (blocks : ℕ) {c : Consistent} (key : ℕ)
    → 1 ≤ blocks
    → blocks < 2 ^ 16
    → Reach blocks c
    → (b : ℕ) × (find_block c key ≡ some b) × (b < c.size) × (c.a b ≡ 0)
Reach-find blocks {c} key pos fits r =
    find_block-works c key (Removed-IsValid blocks pos fits (Reach-Removed blocks pos fits r))
