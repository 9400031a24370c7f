-- ===== src/Flush/Grouped.antt =====
-- block_writer.go and time_window_writer.go: the parts of the range, and what they put into the file.
use unitdb.Prelude.{
  ℕ, zero, suc, ◌+◌, ◌-◌, ◌^◌, ◌≡◌, ◌<◌, ◌≤◌, refl, sym, ap, ◌∙◌, Option, none, some, List, [], ◌∷◌,
  ◌++◌, length, overwrite, ==_refl, arith,
}
use unitdb.Block.{block_size}
use unitdb.BlockRange.{range, occurrences, occurrences-append, occurrences-range_end, blocks_of}
use unitdb.File.{write_at}
use unitdb.Buffer.{Buffer, IsBuffer, Takes}
use unitdb.BlockReader.{Error}
use unitdb.Flush.{
  BlockOps, Flush, place_of, write_block, buffer_blocks, write_buffered, write_part, write_parts,
}
use unitdb.Flush.Writes.{put_all, contents, put_all-append, overwrite-contents}
use unitdb.Flush.Parts.{
  IsBlockOps, After, After-weaken, Holds, Wrote, Buffered, write_block-Wrote,
  buffer_blocks-Buffered, write_buffered_ok,
}

-- The indexes of a part.
unfoldable pub part_blocks : List ℕ → List ℕ
part_blocks [] = []
part_blocks (a ∷ []) = a ∷ []
part_blocks (a ∷ b ∷ _) = range a (b + 1 - a)

pub blocks_of-part :
    (p : List ℕ) (ps : List (List ℕ)) → blocks_of (p ∷ ps) ≡ part_blocks p ++ blocks_of ps
unfolding blocks_of part_blocks
blocks_of-part [] ps = refl
blocks_of-part (a ∷ []) ps = refl
blocks_of-part (a ∷ b ∷ _) ps = refl

-- Every index that occurs is below the bound of the file.
abbrev pub Small : List ℕ → Type 0
Small is = (x : ℕ) → 1 ≤ occurrences x is → x < 2 ^ 19

range-Small : (a n : ℕ) → Small (range a (suc n)) → a + suc n ≤ 2 ^ 19
range-Small a n h =
    let last = h (a + n) (ground (arith, occurrences-range_end (a + n) a n, ==_refl (a + n))) in
    omega (arith, last)

module _ {B Buf : Type 0} (bo : BlockOps B) (ops : Buffer Buf) (bl : IsBlockOps bo)
    (laws : IsBuffer ops) (content : ℕ → List ℕ)
    (full : (i : ℕ) → length (content i) ≡ block_size) where
  overwrite-range :
      (n a : ℕ) (bs : List ℕ)
      → Small (range a n)
      → overwrite bs (place_of a) (contents content a n) ≡ put_all content bs (range a n)
  unfolding contents put_all range overwrite
  overwrite-range zero a bs h = refl
  overwrite-range (suc n) a bs h = overwrite-contents content full (suc n) a bs (range-Small a n h)

  -- The state after a part, and the offset behind what is in the buffer.
  unfoldable pub AfterPart : (Flush B Buf → Type 0) → Flush B Buf × Option Error × ℕ → Type 0
  AfterPart P (s, none, off) = P s × (off ≡ length (ops.bytes s.buffer))
  AfterPart P (s, some e, off) = Unit

  single_part :
      (s : Flush B Buf) (a : ℕ) (r : Flush B Buf × Option Error)
      → After bo ops (λ s'. Wrote bo ops content s (a ∷ []) s' × (s'.buffer ≡ s.buffer)) r
      → AfterPart (Wrote bo ops content s (a ∷ [])) (r.0, r.1, length (ops.bytes s.buffer))
  unfolding AfterPart
  single_part s a (s', none) h = (h.0, ap (λ b. length (ops.bytes b)) (sym h.1))
  single_part s a (s', some e) h = tt

  -- A range is one piece of the buffer.
  range_part :
      (s : Flush B Buf) (a n : ℕ) (r : Flush B Buf × Option Error)
      → Small (range a n)
      → After bo ops (Buffered bo ops content s a n) r
      → AfterPart (Wrote bo ops content s (range a n)) (elim r.1 [
        | some error ↦ (r.0, some error, length (ops.bytes s.buffer))
        | none ↦ write_buffered bo ops r.0 (length (ops.bytes s.buffer)) a
      ])
  unfolding AfterPart write_at
  range_part s a n (s', some e) small h = tt
  range_part s a n (s', none) small h =
      rw
        (write_buffered_ok bo ops bl laws content full s' (ops.bytes s.buffer)
          (contents content a n) a h.buffer)
        (
          record {
            file =
                ap (λ f. overwrite f.bytes (place_of a) (contents content a n)) h.file
                ∙ overwrite-range n a s.file.bytes small;
            blocks = h.blocks;
          },
          refl,
        )

  write_part-Wrote :
      (p : List ℕ) (s : Flush B Buf)
      → Takes ops
      → Small (part_blocks p)
      → Holds bo ops content s.blocks
      → AfterPart
          (Wrote bo ops content s (part_blocks p))
          (write_part bo ops s (length (ops.bytes s.buffer)) p)
  unfolding AfterPart write_part part_blocks put_all
  write_part-Wrote [] s takes small h = (record { file = refl; blocks = h }, refl)
  write_part-Wrote (a ∷ []) s takes small h =
      single_part s a (write_block bo ops s a) (write_block-Wrote bo ops bl laws content full s a h)
  write_part-Wrote (a ∷ b ∷ _) s takes small h =
      range_part s a (b + 1 - a) (buffer_blocks bo ops s a (b + 1 - a)) small
        (buffer_blocks-Buffered bo ops bl laws content full (b + 1 - a) a s takes h)

  pub Wrote-trans :
      (s s₁ s₂ : Flush B Buf) (is js ks : List ℕ)
      → ks ≡ is ++ js
      → Wrote bo ops content s is s₁
      → Wrote bo ops content s₁ js s₂
      → Wrote bo ops content s ks s₂
  Wrote-trans s s₁ s₂ is js ks e w v = record {
    file =
        v.file
        ∙ ap (λ bs. put_all content bs js) w.file
        ∙ sym (put_all-append content full s.file.bytes is js)
        ∙ ap (put_all content s.file.bytes) (sym e);
    blocks = v.blocks;
  }

  -- The parts behind a part, from the state and the offset that it leaves.
  parts_behind :
      (s : Flush B Buf) (is js ks : List ℕ) (next : Flush B Buf → ℕ → Flush B Buf × Option Error)
      → ks ≡ is ++ js
      → ((s' : Flush B Buf)
          → Holds bo ops content s'.blocks
          → After bo ops (Wrote bo ops content s' js) (next s' (length (ops.bytes s'.buffer))))
      → (r : Flush B Buf × Option Error × ℕ) → AfterPart (Wrote bo ops content s is) r
      → After bo ops
          (Wrote bo ops content s ks)
          (elim r.1 [ some error ↦ (r.0, some error) | none ↦ next r.0 r.2 ])
  unfolding AfterPart
  parts_behind s is js ks next e f (s', some error, off) h = tt
  parts_behind s is js ks next e f (s', none, off) h = rw (h.1) (
      After-weaken bo ops (Wrote bo ops content s' js) (Wrote bo ops content s ks)
        (λ s₂ v. Wrote-trans s s' s₂ is js ks e h.0 v) (next s' (length (ops.bytes s'.buffer)))
        (f s' h.0.blocks))

  pub write_parts-Wrote :
      (ps : List (List ℕ)) (s : Flush B Buf)
      → Takes ops
      → Small (blocks_of ps)
      → Holds bo ops content s.blocks
      → After bo ops
          (Wrote bo ops content s (blocks_of ps))
          (write_parts bo ops s (length (ops.bytes s.buffer)) ps)
  unfolding write_parts blocks_of put_all
  write_parts-Wrote [] s takes small h = record { file = refl; blocks = h }
  write_parts-Wrote (p ∷ ps) s takes small h =
      let split : (x : ℕ)
          → occurrences x (blocks_of (p ∷ ps))
            ≡ occurrences x (part_blocks p) + occurrences x (blocks_of ps) =
        λ x.
          ap (occurrences x) (blocks_of-part p ps)
          ∙ occurrences-append x (part_blocks p) (blocks_of ps) in
      parts_behind s (part_blocks p) (blocks_of ps) (blocks_of (p ∷ ps))
        (λ s' off. write_parts bo ops s' off ps) (blocks_of-part p ps)
        (λ s' h'. write_parts-Wrote ps s' takes (λ x o. small x (omega (arith, split x))) h')
        (write_part bo ops s (length (ops.bytes s.buffer)) p)
        (write_part-Wrote p s takes (λ x o. small x (omega (arith, split x))) h)
