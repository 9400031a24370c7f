-- ===== src/Flush/Leased/Loop.antt =====
-- block_writer.go and time_window_writer.go: the first loop, over the blocks that come from the file.
use unitdb.Prelude.{
  ℕ, ◌≡◌, ◌≤◌, inl, inr, refl, sym, ◌∙◌, Bool, true, false, not, ◌||◌, none, some, List, [], ◌∷◌,
  ◌==◌, length, Bool-cases, ==_iff, arith,
}
use mathlib.Core.Path.{subst}
use unitdb.Block.{block_size}
use unitdb.BlockRange.{occurrences}
use unitdb.Buffer.{Buffer, IsBuffer}
use unitdb.Flush.{BlockOps, Flush, block_at, write_block, write_leased}
use unitdb.Flush.Writes.{put_all}
use unitdb.Flush.Parts.{
  IsBlockOps, After, After-weaken, After-then, Holds, Wrote, write_block-Wrote,
}
use unitdb.Flush.Grouped.{Wrote-trans}
use unitdb.Flush.Leased.{SameBlocks, Leased, write_block-SameBlocks, both}

changed_leased :
    (leased dirty : Bool) → (not leased || not dirty) ≡ false → (leased ≡ true) × (dirty ≡ true)
changed_leased true true h = (refl, refl)
changed_leased true false h = cc (h)
changed_leased false dirty h = cc (h)

none_occurs : (x : ℕ) → ¬ (1 ≤ occurrences x [])
unfolding occurrences
none_occurs x h = omega arith

module _ {B Buf : Type 0} (bo : BlockOps B) (ops : Buffer Buf) (bl : IsBlockOps bo)
    (laws : IsBuffer ops) (content : ℕ → List ℕ)
    (full : (i : ℕ) → length (content i) ≡ block_size) where
  write_leased_skip :
      (s : Flush B Buf) (i : ℕ) (is : List ℕ)
      → (not (bo.is_leased (block_at bo ops s.blocks i))
          || not (bo.is_dirty (block_at bo ops s.blocks i)))
        ≡ true
      → write_leased bo ops s (i ∷ is) ≡ write_leased bo ops s is
  unfolding write_leased
  write_leased_skip s i is c = rw (write_leased, c) refl

  write_leased_take :
      (s : Flush B Buf) (i : ℕ) (is : List ℕ)
      → (not (bo.is_leased (block_at bo ops s.blocks i))
          || not (bo.is_dirty (block_at bo ops s.blocks i)))
        ≡ false
      → write_leased bo ops s (i ∷ is) ≡ elim (write_block bo ops s i).1 [
        | some error ↦ ((write_block bo ops s i).0, some error)
        | none ↦ write_leased bo ops (write_block bo ops s i).0 is
      ]
  unfolding write_leased
  write_leased_take s i is c = rw (write_leased, c) refl

  Leased-skip :
      (s s' : Flush B Buf) (i : ℕ) (is : List ℕ)
      → (not (bo.is_leased (block_at bo ops s.blocks i))
          || not (bo.is_dirty (block_at bo ops s.blocks i)))
        ≡ true
      → Leased bo ops content s is s'
      → Leased bo ops content s (i ∷ is) s'
  unfolding occurrences
  Leased-skip s s' i is c l = record {
    written = l.written;
    wrote = l.wrote;
    kept = l.kept;
    within = λ x o. (omega (arith, (l.within x o).0), (l.within x o).1);
    has = λ x o changed. elim (Bool-cases (i == x)) [
      | inl b ↦
          let same : i ≡ x = (==_iff i x).0 b in
          let c' =
            subst
              (λ k.
                (not (bo.is_leased (block_at bo ops s.blocks k))
                  || not (bo.is_dirty (block_at bo ops s.blocks k)))
                ≡ true)
              same c in
          cc (c', changed.0, changed.1)
      | inr b ↦ l.has x (ground arith) changed
    ];
  }

  Leased-take :
      (s s₁ s' : Flush B Buf) (i : ℕ) (is : List ℕ)
      → (not (bo.is_leased (block_at bo ops s.blocks i))
          || not (bo.is_dirty (block_at bo ops s.blocks i)))
        ≡ false
      → Wrote bo ops content s (i ∷ []) s₁
      → SameBlocks bo ops s (i ∷ []) s₁
      → Leased bo ops content s₁ is s'
      → Leased bo ops content s (i ∷ is) s'
  unfolding occurrences
  Leased-take s s₁ s' i is c w k l = record {
    written = i ∷ l.written;
    wrote =
        Wrote-trans bo ops bl laws content full s s₁ s' (i ∷ []) l.written (i ∷ l.written) refl w
          l.wrote;
    kept = record {
      leased = λ x. l.kept.leased x ∙ k.leased x;
      dirty = λ x absent. l.kept.dirty x (omega arith) ∙ k.dirty x (omega arith);
      keys_new = λ x o. elim (l.kept.keys_new x o) [
        | inl before ↦ elim (k.keys_new x before) [
          | inl old ↦ inl old
          | inr now ↦ inr (omega arith)
        ]
        | inr after ↦ inr (omega arith)
      ];
      keys_old = λ x o. l.kept.keys_old x (k.keys_old x o);
      buffer = l.kept.buffer ∙ k.buffer;
    };
    within = λ x o. elim (Bool-cases (i == x)) [
      | inl b ↦
          let same : i ≡ x = (==_iff i x).0 b in
          let c' =
            subst
              (λ j.
                (not (bo.is_leased (block_at bo ops s.blocks j))
                  || not (bo.is_dirty (block_at bo ops s.blocks j)))
                ≡ false)
              same c in
          (
            ground arith,
            changed_leased (bo.is_leased (block_at bo ops s.blocks x))
                (bo.is_dirty (block_at bo ops s.blocks x)) c',
          )
      | inr b ↦
          let behind = l.within x (ground arith) in
          (
            omega (arith, behind.0),
            (sym (k.leased x) ∙ behind.1.0, sym (k.dirty x (ground arith)) ∙ behind.1.1),
          )
    ];
    has = λ x o changed. elim (Bool-cases (i == x)) [
      | inl b ↦ ground arith
      | inr b ↦ ground (
        arith,
        l.has x (ground arith) (k.leased x ∙ changed.0, k.dirty x (ground arith) ∙ changed.1),
      )
    ];
  }

  pub write_leased-Leased :
      (is : List ℕ) (s : Flush B Buf)
      → Holds bo ops content s.blocks
      → After bo ops (Leased bo ops content s is) (write_leased bo ops s is)
  unfolding write_leased put_all
  write_leased-Leased [] s h = record {
    written = [];
    wrote = record { file = refl; blocks = h };
    kept = record {
      leased = λ x. refl;
      dirty = λ x absent. refl;
      keys_new = λ x o. inl o;
      keys_old = λ x o. o;
      buffer = refl;
    };
    within = λ x o. absurd (none_occurs x o);
    has = λ x o changed. o;
  }
  write_leased-Leased (i ∷ is) s h =
      elim (Bool-cases (
        not (bo.is_leased (block_at bo ops s.blocks i))
        || not (bo.is_dirty (block_at bo ops s.blocks i)))) [
          | inl c ↦
              subst (After bo ops (Leased bo ops content s (i ∷ is)))
                (sym (write_leased_skip s i is c))
                (After-weaken bo ops (Leased bo ops content s is) (Leased bo ops content s (i ∷ is))
                  (λ s' l. Leased-skip s s' i is c l) (write_leased bo ops s is)
                  (write_leased-Leased is s h))
          | inr c ↦
              let step =
                both bo ops (λ s'. Wrote bo ops content s (i ∷ []) s' × (s'.buffer ≡ s.buffer))
                  (SameBlocks bo ops s (i ∷ [])) (write_block bo ops s i)
                  (write_block-Wrote bo ops bl laws content full s i h)
                  (write_block-SameBlocks bo ops bl s i) in
              subst (After bo ops (Leased bo ops content s (i ∷ is)))
                (sym (write_leased_take s i is c))
                (After-then bo ops
                  (λ s'.
                    (Wrote bo ops content s (i ∷ []) s' × (s'.buffer ≡ s.buffer))
                    × SameBlocks bo ops s (i ∷ []) s')
                  (Leased bo ops content s (i ∷ is)) (λ s'. write_leased bo ops s' is)
                  (λ s₁ w.
                    After-weaken bo ops (Leased bo ops content s₁ is)
                      (Leased bo ops content s (i ∷ is))
                      (λ s' l. Leased-take s s₁ s' i is c w.0.0 w.1 l) (write_leased bo ops s₁ is)
                      (write_leased-Leased is s₁ w.0.0.blocks))
                  (write_block bo ops s i) step)
        ]
