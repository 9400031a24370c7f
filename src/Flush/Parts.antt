-- ===== src/Flush/Parts.antt =====
-- block_writer.go and time_window_writer.go: the loops of `write` put the blocks to their places.
use unitdb.Prelude.{
  ℕ, zero, suc, ◌+◌, ◌-◌, ◌≡◌, inl, inr, refl, sym, ap, ◌∙◌, false, Option, none, some, List, [],
  ◌∷◌, ◌++◌, ◌==◌, if◌then◌else◌, length, length-append, append_assoc, append-nil, overwrite,
  drop-append, take, drop, Bool-cases, ==_iff, arith,
}
use unitdb.Prelude.Maps.{Map, insert, find-insert}
use unitdb.Block.{block_size}
use unitdb.File.{write_at}
use unitdb.Buffer.{Buffer, IsBuffer, Takes}
use unitdb.BlockReader.{Error}
use unitdb.Flush.{
  BlockOps, Flush, place_of, block_at, write_block, append_block, buffer_blocks, write_buffered,
}
use unitdb.Flush.Writes.{put_all, contents}

-- Writing a block changes neither its bytes nor where it comes from, and it is clean afterwards.
pub record IsBlockOps {B : Type 0} (bo : BlockOps B) : Type 0 where
  pub marshal_clean : (b : B) → bo.marshal (bo.clean b) ≡ bo.marshal b
  pub leased_clean : (b : B) → bo.is_leased (bo.clean b) ≡ bo.is_leased b
  pub dirty_clean : (b : B) → bo.is_dirty (bo.clean b) ≡ false

module _ {B Buf : Type 0} (bo : BlockOps B) (ops : Buffer Buf) where
  -- The state after a loop, if it reports no error.
  abbrev pub After : (Flush B Buf → Type 0) → Flush B Buf × Option Error → Type 0
  After P (s, none) = P s
  After P (s, some r) = Unit

  pub After-weaken :
      (P Q : Flush B Buf → Type 0)
      → ((s : Flush B Buf) → P s → Q s)
      → (r : Flush B Buf × Option Error) → After P r
      → After Q r
  After-weaken P Q f (s, none) h = f s h
  After-weaken P Q f (s, some e) h = tt

  -- A loop behind another one.
  pub After-then :
      (P Q : Flush B Buf → Type 0) (next : Flush B Buf → Flush B Buf × Option Error)
      → ((s : Flush B Buf) → P s → After Q (next s))
      → (r : Flush B Buf × Option Error) → After P r
      → After Q (elim r.1 [ some error ↦ (r.0, some error) | none ↦ next r.0 ])
  After-then P Q next f (s, none) h = f s h
  After-then P Q next f (s, some e) h = tt

  pub block_at-insert :
      (m : Map B) (i j : ℕ) (b : B)
      → block_at bo ops (insert m i b) j ≡ (if i == j then b else block_at bo ops m j)
  unfolding block_at
  block_at-insert m i j b = elim (Bool-cases (i == j)) [
    | inl c ↦ rw (block_at, find-insert m i j b, c)
    | inr c ↦ rw (block_at, find-insert m i j b, c)
  ]

  -- The blocks have the bytes `content`.
  unfoldable pub Holds : (ℕ → List ℕ) → Map B → Type 0
  Holds content m = (i : ℕ) → bo.marshal (block_at bo ops m i) ≡ content i

  pub Holds-own : (m : Map B) → Holds (λ i. bo.marshal (block_at bo ops m i)) m
  unfolding Holds
  Holds-own m i = refl

  -- From `s` to `s'` the blocks `is` were written.
  pub record Wrote (content : ℕ → List ℕ) (s : Flush B Buf) (is : List ℕ) (s' : Flush B Buf)
      : Type 0 where
    pub file : s'.file.bytes ≡ put_all content s.file.bytes is
    pub blocks : Holds content s'.blocks

  -- From `s` to `s'` blocks were put into the buffer.
  pub record Buffered (content : ℕ → List ℕ) (s : Flush B Buf) (i n : ℕ) (s' : Flush B Buf)
      : Type 0 where
    pub file : s'.file ≡ s.file
    pub buffer : ops.bytes s'.buffer ≡ ops.bytes s.buffer ++ contents content i n
    pub blocks : Holds content s'.blocks

module _ {B Buf : Type 0} (bo : BlockOps B) (ops : Buffer Buf) (bl : IsBlockOps bo)
    (laws : IsBuffer ops) (content : ℕ → List ℕ)
    (full : (i : ℕ) → length (content i) ≡ block_size) where
  pub Holds-insert :
      (m : Map B) (i : ℕ)
      → Holds bo ops content m
      → Holds bo ops content (insert m i (bo.clean (block_at bo ops m i)))
  unfolding Holds
  Holds-insert m i h j = elim (Bool-cases (i == j)) [
    | inl c ↦
        let same : i ≡ j = (==_iff i j).0 c in
        rw (block_at-insert bo ops m i j (bo.clean (block_at bo ops m i)), c)
          (bl.marshal_clean (block_at bo ops m i) ∙ h i ∙ ap content same)
    | inr c ↦ rw (block_at-insert bo ops m i j (bo.clean (block_at bo ops m i)), c) (h j)
  ]

  pub write_block-Wrote :
      (s : Flush B Buf) (i : ℕ)
      → Holds bo ops content s.blocks
      → After bo ops
          (λ s'. Wrote bo ops content s (i ∷ []) s' × (s'.buffer ≡ s.buffer))
          (write_block bo ops s i)
  unfolding write_block put_all write_at Holds
  write_block-Wrote s i h = elim (Bool-cases (bo.valid i (block_at bo ops s.blocks i))) [
    | inl v ↦
        rw (write_block, v)
          (
            record {
              file = ap (overwrite s.file.bytes (place_of i)) (h i);
              blocks = Holds-insert s.blocks i h;
            },
            refl,
          )
    | inr v ↦ rw (write_block, v) tt
  ]

  append_block_taken :
      (b : Buf) (d : List ℕ) → Takes ops → ops.bytes (append_block bo ops b d) ≡ ops.bytes b ++ d
  unfolding append_block
  append_block_taken b d takes =
      let (b', run) = takes b d in rw (append_block, run) (laws.write_bytes b b' d run)

  pub buffer_blocks-Buffered :
      (n i : ℕ) (s : Flush B Buf)
      → Takes ops
      → Holds bo ops content s.blocks
      → After bo ops (Buffered bo ops content s i n) (buffer_blocks bo ops s i n)
  unfolding buffer_blocks contents Holds
  buffer_blocks-Buffered zero i s takes h = record {
    file = refl;
    buffer = sym (append-nil (ops.bytes s.buffer));
    blocks = h;
  }
  buffer_blocks-Buffered (suc n) i s takes h =
      elim (Bool-cases (bo.valid i (block_at bo ops s.blocks i))) [
        | inr v ↦ rw (buffer_blocks, v) tt
        | inl v ↦
            let b = block_at bo ops s.blocks i in
            let s₁ = record s {
              buffer = append_block bo ops s.buffer (bo.marshal b);
              blocks = insert s.blocks i (bo.clean b);
            } in
            rw (buffer_blocks, v)
              (After-weaken bo ops (Buffered bo ops content s₁ (i + 1) n)
                (Buffered bo ops content s i (suc n))
                (λ s' w. record {
                  file = w.file;
                  buffer =
                      w.buffer
                      ∙ ap (λ l. l ++ contents content (i + 1) n)
                          (append_block_taken s.buffer (bo.marshal b) takes
                            ∙ ap (λ l. ops.bytes s.buffer ++ l) (h i))
                      ∙ append_assoc (ops.bytes s.buffer) (content i) (contents content (i + 1) n);
                  blocks = w.blocks;
                })
                (buffer_blocks bo ops s₁ (i + 1) n)
                (buffer_blocks-Buffered n (i + 1) s₁ takes (Holds-insert s.blocks i h)))
      ]

  take_all : (l : List ℕ) → take (length l) l ≡ l
  take_all [] = refl
  take_all (x ∷ l) = ap (λ r. x ∷ r) (take_all l)

  read_tail :
      (b : Buf) (old new : List ℕ)
      → ops.bytes b ≡ old ++ new
      → ops.read b (length old) (length (ops.bytes b)) ≡ some new
  read_tail b old new e =
      let total = ap length e ∙ length-append old new in
      laws.read_bytes b (length old) (length (ops.bytes b)) (omega (arith, total)) (omega arith)
      ∙ ap some (
          ap (λ l. take (length (ops.bytes b) - length old) (drop (length old) l)) e
          ∙ ap (take (length (ops.bytes b) - length old)) (drop-append old new)
          ∙ ap (λ k. take k new) (omega (arith, total))
          ∙ take_all new)

  pub write_buffered_ok :
      (s : Flush B Buf) (old new : List ℕ) (i : ℕ)
      → ops.bytes s.buffer ≡ old ++ new
      → write_buffered bo ops s (length old) i
        ≡ (record s { file = write_at s.file new (place_of i) }, none, length (ops.bytes s.buffer))
  unfolding write_buffered
  write_buffered_ok s old new i e = rw (write_buffered, read_tail s.buffer old new e)
