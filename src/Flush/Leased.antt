-- ===== src/Flush/Leased.antt =====
-- block_writer.go and time_window_writer.go: what writing a block of the file leaves of the map.
pub mod Loop
use unitdb.Prelude.{
  ℕ, ◌≡◌, ◌≤◌, ◌⊎◌, inl, inr, refl, sym, ap, ◌∙◌, Bool, true, false, not, ◌||◌, Option, none, some,
  List, [], ◌∷◌, ◌==◌, if◌then◌else◌, length, Bool-cases, ==_iff, ==_refl, arith,
}
use mathlib.Core.Path.{subst}
use unitdb.Prelude.Maps.{insert, keys}
use unitdb.Block.{block_size}
use unitdb.BlockRange.{occurrences}
use unitdb.Buffer.{Buffer, IsBuffer}
use unitdb.BlockReader.{Error}
use unitdb.Flush.{BlockOps, Flush, block_at, write_block, write_leased}
use unitdb.Flush.Writes.{put_all}
use unitdb.Flush.Parts.{
  IsBlockOps, After, After-weaken, After-then, Holds, Wrote, write_block-Wrote, block_at-insert,
}
use unitdb.Flush.Grouped.{Wrote-trans}
use unitdb.Flush.Indexes.{keys-insert, keys-insert_old}

module _ {B Buf : Type 0} (bo : BlockOps B) (ops : Buffer Buf) where
  -- What writing `is` leaves of the map.
  pub record SameBlocks (s : Flush B Buf) (is : List ℕ) (s' : Flush B Buf) : Type 0 where
    pub leased :
        (x : ℕ)
        → bo.is_leased (block_at bo ops s'.blocks x) ≡ bo.is_leased (block_at bo ops s.blocks x)
    pub dirty :
        (x : ℕ)
        → occurrences x is ≡ 0
        → bo.is_dirty (block_at bo ops s'.blocks x) ≡ bo.is_dirty (block_at bo ops s.blocks x)
    pub keys_new :
        (x : ℕ)
        → 1 ≤ occurrences x (keys s'.blocks)
        → (1 ≤ occurrences x (keys s.blocks)) ⊎ (1 ≤ occurrences x is)
    pub keys_old : (x : ℕ) → 1 ≤ occurrences x (keys s.blocks) → 1 ≤ occurrences x (keys s'.blocks)
    pub buffer : s'.buffer ≡ s.buffer

  -- A block is written by the first loop.
  abbrev pub IsChangedLeased : Flush B Buf → ℕ → Type 0
  IsChangedLeased s x =
      (bo.is_leased (block_at bo ops s.blocks x) ≡ true)
      × (bo.is_dirty (block_at bo ops s.blocks x) ≡ true)

  -- What the first loop over `is` does: it writes some of them, and all the changed ones of the file.
  pub record Leased (content : ℕ → List ℕ) (s : Flush B Buf) (is : List ℕ) (s' : Flush B Buf)
      : Type 0 where
    pub written : List ℕ
    pub wrote : Wrote bo ops content s written s'
    pub kept : SameBlocks s written s'
    pub within : (x : ℕ) → 1 ≤ occurrences x written → (1 ≤ occurrences x is) × IsChangedLeased s x
    pub has : (x : ℕ) → 1 ≤ occurrences x is → IsChangedLeased s x → 1 ≤ occurrences x written

  -- Both facts of a block that is written.
  pub both :
      (P Q : Flush B Buf → Type 0) (r : Flush B Buf × Option Error)
      → After bo ops P r
      → After bo ops Q r
      → After bo ops (λ s. P s × Q s) r
  both P Q (s, none) h k = (h, k)
  both P Q (s, some e) h k = tt

module _ {B Buf : Type 0} (bo : BlockOps B) (ops : Buffer Buf) (bl : IsBlockOps bo) where
  pub write_block-SameBlocks :
      (s : Flush B Buf) (i : ℕ)
      → After bo ops (SameBlocks bo ops s (i ∷ [])) (write_block bo ops s i)
  unfolding write_block occurrences
  write_block-SameBlocks s i = elim (Bool-cases (bo.valid i (block_at bo ops s.blocks i))) [
    | inr v ↦ rw (write_block, v) tt
    | inl v ↦
        let b = bo.clean (block_at bo ops s.blocks i) in
        let at : (x : ℕ)
            → block_at bo ops (insert s.blocks i b) x
              ≡ (if i == x then b else block_at bo ops s.blocks x) =
          λ x. block_at-insert bo ops s.blocks i x b in
        rw (write_block, v)
          (record {
            leased = λ x. ap bo.is_leased (at x) ∙ elim (Bool-cases (i == x)) [
              | inl c ↦
                  let same : i ≡ x = (==_iff i x).0 c in
                  rw (c) (
                    bl.leased_clean (block_at bo ops s.blocks i)
                    ∙ ap (λ k. bo.is_leased (block_at bo ops s.blocks k)) same)
              | inr c ↦ rw (c) refl
            ];
            dirty = λ x absent. ap bo.is_dirty (at x) ∙ elim (Bool-cases (i == x)) [
              | inl c ↦ absurd (ground arith)
              | inr c ↦ rw (c) refl
            ];
            keys_new = λ x o. elim (keys-insert s.blocks i x b o) [
              | inl old ↦ inl old
              | inr same ↦ inr (ground (arith, same, ==_refl x))
            ];
            keys_old = λ x o. keys-insert_old s.blocks i x b o;
            buffer = refl;
          })
  ]
