-- ===== src/Flush/Kept.antt =====
-- block_writer.go and time_window_writer.go: the parts of the range leave the rest of the file
-- alone, also where the buffer fails to take a block.
use unitdb.Prelude.{
  ℕ, zero, suc, ◌+◌, ◌-◌, ◌*◌, ◌≡◌, ◌≤◌, ◌⊎◌, inl, inr, refl, sym, ap, ◌∙◌, Option, none, some,
  List, [], ◌∷◌, ◌++◌, append_assoc, append-nil, length, length-append, overwrite, slice,
  slice-overwrite_apart, length-overwrite-le, Bool-cases, Option-cases, ==_refl, arith,
}
use unitdb.Prelude.Maps.{insert}
use unitdb.Block.{block_size}
use unitdb.BlockRange.{range, occurrences, occurrences-append, blocks_of}
use unitdb.File.{write_at}
use unitdb.Buffer.{Buffer, IsBuffer}
use unitdb.BlockReader.{Error}
use unitdb.Flush.{
  BlockOps, Flush, place_of, block_at, append_block, write_block, buffer_blocks, write_buffered,
  write_part, write_parts,
}
use unitdb.Flush.Writes.{put_all, place_exact, put_all_apart}
use unitdb.Flush.Parts.{
  IsBlockOps, After, After-weaken, Holds, Holds-insert, Wrote, write_block-Wrote, write_buffered_ok,
}
use unitdb.Flush.Grouped.{part_blocks, blocks_of-part, Small, AfterPart}

-- Bytes that the places of the blocks do not touch.
abbrev pub Apart : ℕ → ℕ → List ℕ → Type 0
Apart o n is =
    (i : ℕ) → 1 ≤ occurrences i is → (o + n ≤ block_size * i) ⊎ (block_size * (i + 1) ≤ o)

range-Apart :
    (k a o n : ℕ)
    → Apart o (suc n) (range a (suc k))
    → (o + suc n ≤ block_size * a) ⊎ (block_size * (a + suc k) ≤ o)
unfolding occurrences range
range-Apart zero a o n apart = apart a (ground (arith, ==_refl a))
range-Apart (suc k) a o n apart = elim (range-Apart k (a + 1) o n (λ i h. apart i (omega arith))) [
  | inr behind ↦ inr (omega arith)
  | inl before ↦ elim (apart a (ground (arith, ==_refl a))) [
    | inl there ↦ inl there
    | inr here ↦ absurd (omega arith)
  ]
]

-- No more than the bytes of the range, written from its place on.
overwrite-Apart :
    (k a o n : ℕ) (bs d : List ℕ)
    → o + n ≤ length bs
    → length d ≤ block_size * k
    → Small (range a k)
    → Apart o n (range a k)
    → slice o n (overwrite bs (place_of a) d) ≡ slice o n bs
unfolding overwrite range occurrences
overwrite-Apart zero a o n bs [] inside few small apart = refl
overwrite-Apart zero a o n bs (x ∷ d) inside few small apart = absurd (omega arith)
overwrite-Apart (suc k) a o zero bs d inside few small apart = refl
overwrite-Apart (suc k) a o (suc n) bs d inside few small apart =
    let place = place_exact a (small a (ground (arith, ==_refl a))) in
    slice-overwrite_apart bs (place_of a) o (suc n) d inside (elim (range-Apart k a o n apart) [
      | inl before ↦ inl (omega (arith, place))
      | inr behind ↦ inr (omega (arith, place))
    ])

module _ {B Buf : Type 0} (bo : BlockOps B) (ops : Buffer Buf) (content : ℕ → List ℕ) where
  -- From `s` to `s'` the bytes of the file at `o` stay.
  pub record Kept (o n : ℕ) (s s' : Flush B Buf) : Type 0 where
    pub same : slice o n s'.file.bytes ≡ slice o n s.file.bytes
    pub room : length s.file.bytes ≤ length s'.file.bytes
    pub blocks : Holds bo ops content s'.blocks

  -- From `s` to `s'` at most the bytes of `k` blocks were put into the buffer.
  record Appended (k : ℕ) (s s' : Flush B Buf) : Type 0 where
    file : s'.file ≡ s.file
    new : List ℕ
    buffer : ops.bytes s'.buffer ≡ ops.bytes s.buffer ++ new
    few : length new ≤ block_size * k
    blocks : Holds bo ops content s'.blocks

module _ {B Buf : Type 0} (bo : BlockOps B) (ops : Buffer Buf) (bl : IsBlockOps bo)
    (laws : IsBuffer ops) (content : ℕ → List ℕ)
    (full : (i : ℕ) → length (content i) ≡ block_size) where
  append_block_some :
      (b : Buf) (d : List ℕ)
      → (new : List ℕ) × (ops.bytes (append_block bo ops b d) ≡ ops.bytes b ++ new)
        × (length new ≤ length d)
  unfolding append_block
  append_block_some b d = elim (Option-cases (ops.write b d)) [
    | inl e ↦ ([], rw (append_block, e) (sym (append-nil (ops.bytes b))), omega arith)
    | inr (b', e) ↦ (d, rw (append_block, e) (laws.write_bytes b b' d e), omega arith)
  ]

  buffer_blocks-Appended :
      (n i : ℕ) (s : Flush B Buf)
      → Holds bo ops content s.blocks
      → After bo ops (Appended bo ops content n s) (buffer_blocks bo ops s i n)
  unfolding buffer_blocks Holds
  buffer_blocks-Appended zero i s h = record {
    file = refl;
    new = [];
    buffer = sym (append-nil (ops.bytes s.buffer));
    few = omega arith;
    blocks = h;
  }
  buffer_blocks-Appended (suc n) i s h =
      elim (Bool-cases (bo.valid i (block_at bo ops s.blocks i))) [
        | inr v ↦ rw (buffer_blocks, v) tt
        | inl v ↦
            let b = block_at bo ops s.blocks i in
            let (new, e, few) = append_block_some s.buffer (bo.marshal b) in
            let s₁ = record s {
              buffer = append_block bo ops s.buffer (bo.marshal b);
              blocks = insert s.blocks i (bo.clean b);
            } in
            rw (buffer_blocks, v)
              (After-weaken bo ops (Appended bo ops content n s₁)
                (Appended bo ops content (suc n) s)
                (λ s' w. record {
                  file = w.file;
                  new = new ++ w.new;
                  buffer =
                      w.buffer
                      ∙ ap (λ l. l ++ w.new) e
                      ∙ append_assoc (ops.bytes s.buffer) new w.new;
                  few = omega (arith, length-append new w.new, few, w.few, ap length (h i), full i);
                  blocks = w.blocks;
                })
                (buffer_blocks bo ops s₁ (i + 1) n)
                (buffer_blocks-Appended n (i + 1) s₁
                  (Holds-insert bo ops bl laws content full s.blocks i h)))
      ]

  single_part-Kept :
      (s : Flush B Buf) (a o n : ℕ) (r : Flush B Buf × Option Error)
      → o + n ≤ length s.file.bytes
      → Small (a ∷ [])
      → Apart o n (a ∷ [])
      → After bo ops (λ s'. Wrote bo ops content s (a ∷ []) s' × (s'.buffer ≡ s.buffer)) r
      → AfterPart bo ops bl laws content full
          (Kept bo ops content o n s)
          (r.0, r.1, length (ops.bytes s.buffer))
  unfolding AfterPart put_all occurrences
  single_part-Kept s a o n (s', none) inside small apart h = (
    record {
      same =
          ap (slice o n) h.0.file
          ∙ put_all_apart content full (a ∷ []) s.file.bytes o n
              (small a (ground (arith, ==_refl a)), tt) inside apart;
      room =
          omega
            (arith, ap length h.0.file, length-overwrite-le s.file.bytes (place_of a) (content a));
      blocks = h.0.blocks;
    },
    ap (λ b. length (ops.bytes b)) (sym h.1),
  )
  single_part-Kept s a o n (s', some e) inside small apart h = tt

  range_part-Kept :
      (s : Flush B Buf) (a k o n : ℕ) (r : Flush B Buf × Option Error)
      → o + n ≤ length s.file.bytes
      → Small (range a k)
      → Apart o n (range a k)
      → After bo ops (Appended bo ops content k s) r
      → AfterPart bo ops bl laws content full (Kept bo ops content o n s) (elim r.1 [
        | some error ↦ (r.0, some error, length (ops.bytes s.buffer))
        | none ↦ write_buffered bo ops r.0 (length (ops.bytes s.buffer)) a
      ])
  unfolding AfterPart write_at
  range_part-Kept s a k o n (s', some e) inside small apart h = tt
  range_part-Kept s a k o n (s', none) inside small apart h =
      let there = ap (λ f. overwrite f.bytes (place_of a) h.new) h.file in
      rw (write_buffered_ok bo ops bl laws content full s' (ops.bytes s.buffer) h.new a h.buffer) (
        record {
          same =
              ap (slice o n) there
              ∙ overwrite-Apart k a o n s.file.bytes h.new inside h.few small apart;
          room =
              omega (arith, ap length there, length-overwrite-le s.file.bytes (place_of a) h.new);
          blocks = h.blocks;
        },
        refl,
      )

  write_part-Kept :
      (p : List ℕ) (s : Flush B Buf) (o n : ℕ)
      → o + n ≤ length s.file.bytes
      → Small (part_blocks p)
      → Apart o n (part_blocks p)
      → Holds bo ops content s.blocks
      → AfterPart bo ops bl laws content full
          (Kept bo ops content o n s)
          (write_part bo ops s (length (ops.bytes s.buffer)) p)
  unfolding AfterPart write_part part_blocks
  write_part-Kept [] s o n inside small apart h =
      (record { same = refl; room = omega arith; blocks = h }, refl)
  write_part-Kept (a ∷ []) s o n inside small apart h =
      single_part-Kept s a o n (write_block bo ops s a) inside small apart
        (write_block-Wrote bo ops bl laws content full s a h)
  write_part-Kept (a ∷ b ∷ _) s o n inside small apart h =
      range_part-Kept s a (b + 1 - a) o n (buffer_blocks bo ops s a (b + 1 - a)) inside small apart
        (buffer_blocks-Appended (b + 1 - a) a s h)

  pub Kept-trans :
      (o n : ℕ) (s s₁ s₂ : Flush B Buf)
      → Kept bo ops content o n s s₁
      → Kept bo ops content o n s₁ s₂
      → Kept bo ops content o n s s₂
  Kept-trans o n s s₁ s₂ k l = record {
    same = l.same ∙ k.same;
    room = omega (arith, k.room, l.room);
    blocks = l.blocks;
  }

  parts_behind-Kept :
      (s : Flush B Buf) (o n : ℕ) (next : Flush B Buf → ℕ → Flush B Buf × Option Error)
      → o + n ≤ length s.file.bytes
      → ((s' : Flush B Buf)
          → o + n ≤ length s'.file.bytes
          → Holds bo ops content s'.blocks
          → After bo ops (Kept bo ops content o n s') (next s' (length (ops.bytes s'.buffer))))
      → (r : Flush B Buf × Option Error × ℕ)
      → AfterPart bo ops bl laws content full (Kept bo ops content o n s) r
      → After bo ops
          (Kept bo ops content o n s)
          (elim r.1 [ some error ↦ (r.0, some error) | none ↦ next r.0 r.2 ])
  unfolding AfterPart
  parts_behind-Kept s o n next inside f (s', some error, off) h = tt
  parts_behind-Kept s o n next inside f (s', none, off) h = rw (h.1) (
      After-weaken bo ops (Kept bo ops content o n s') (Kept bo ops content o n s)
        (λ s₂ v. Kept-trans o n s s' s₂ h.0 v) (next s' (length (ops.bytes s'.buffer)))
        (f s' (omega (arith, h.0.room)) h.0.blocks))

  -- The parts change no byte that the places of their blocks do not touch.
  pub write_parts-Kept :
      (ps : List (List ℕ)) (s : Flush B Buf) (o n : ℕ)
      → o + n ≤ length s.file.bytes
      → Small (blocks_of ps)
      → Apart o n (blocks_of ps)
      → Holds bo ops content s.blocks
      → After bo ops
          (Kept bo ops content o n s)
          (write_parts bo ops s (length (ops.bytes s.buffer)) ps)
  unfolding write_parts blocks_of
  write_parts-Kept [] s o n inside small apart h = record {
    same = refl;
    room = omega arith;
    blocks = h;
  }
  write_parts-Kept (p ∷ ps) s o n inside small apart h =
      let split : (x : ℕ)
          → occurrences x (blocks_of (p ∷ ps))
            ≡ occurrences x (part_blocks p) + occurrences x (blocks_of ps) =
        λ x.
          ap (occurrences x) (blocks_of-part p ps)
          ∙ occurrences-append x (part_blocks p) (blocks_of ps) in
      parts_behind-Kept s o n (λ s' off. write_parts bo ops s' off ps) inside
        (λ s' inside' h'.
          write_parts-Kept ps s' o n inside' (λ x c. small x (omega (arith, split x)))
            (λ x c. apart x (omega (arith, split x))) h')
        (write_part bo ops s (length (ops.bytes s.buffer)) p)
        (write_part-Kept p s o n inside (λ x c. small x (omega (arith, split x)))
          (λ x c. apart x (omega (arith, split x))) h)
