-- ===== src/Flush/Result.antt =====
-- block_writer.go and time_window_writer.go: what the loops leave in the file.
use unitdb.Prelude.{
  ℕ, ◌+◌, ◌*◌, ◌^◌, ◌≡◌, ◌<◌, ◌≤◌, ◌⊎◌, inl, inr, refl, sym, ap, ◌∙◌, true, false, none, some, List,
  [], ◌∷◌, ◌++◌, ltb, length, slice, All, Bool-cases, Option-cases, ==_refl, arith,
}
use mathlib.Core.Path.{subst}
use unitdb.Prelude.Maps.{keys}
use unitdb.Block.{block_size}
use unitdb.BlockRange.{occurrences, occurrences-append, blocks_of, block_range}
use unitdb.Buffer.{Buffer, IsBuffer, Takes}
use unitdb.BlockReader.{io}
use unitdb.Flush.{
  BlockOps, Flush, block_at, write_leased, write_parts, own_indexes, sort_indexes, flush,
}
use unitdb.Flush.Writes.{put_all_apart, put_all_there, length-put_all}
use unitdb.Flush.Parts.{IsBlockOps, After, After-weaken, After-then, Holds, Holds-own, Wrote}
use unitdb.Flush.Grouped.{Small, Wrote-trans, write_parts-Wrote}
use unitdb.Flush.Kept.{Kept, Kept-trans, write_parts-Kept}
use unitdb.Flush.Indexes.{
  occurrences-sort, block_range-occurrences, own_indexes_old, own_indexes-has,
}
use unitdb.Flush.Leased.{Leased}
use unitdb.Flush.Leased.Loop.{write_leased-Leased}

All-occurrences : (P : ℕ → Type 0) (is : List ℕ) → ((x : ℕ) → 1 ≤ occurrences x is → P x) → All P is
unfolding occurrences
All-occurrences P [] h = tt
All-occurrences P (i ∷ is) h =
    (h i (ground (arith, ==_refl i)), All-occurrences P is (λ x o. h x (omega arith)))

module _ {B Buf : Type 0} (bo : BlockOps B) (ops : Buffer Buf) where
  -- A block that the writer holds and has changed.
  abbrev pub IsChanged : Flush B Buf → ℕ → Type 0
  IsChanged s x =
      (1 ≤ occurrences x (keys s.blocks)) × (bo.is_dirty (block_at bo ops s.blocks x) ≡ true)

  record Flushed (content : ℕ → List ℕ) (s : Flush B Buf) (s' : Flush B Buf) : Type 0 where
    written : List ℕ
    wrote : Wrote bo ops content s written s'
    has : (x : ℕ) → IsChanged s x → 1 ≤ occurrences x written
    within : (x : ℕ) → 1 ≤ occurrences x written → IsChanged s x

module _ {B Buf : Type 0} (bo : BlockOps B) (ops : Buffer Buf) (bl : IsBlockOps bo)
    (laws : IsBuffer ops) (content : ℕ → List ℕ)
    (full : (i : ℕ) → length (content i) ≡ block_size) where
  Leased-unwritten :
      (s s₁ : Flush B Buf) (x : ℕ) (l : Leased bo ops content s (keys s.blocks) s₁)
      → bo.is_leased (block_at bo ops s.blocks x) ≡ false
      → occurrences x l.written ≡ 0
  Leased-unwritten s s₁ x l own = elim (Bool-cases (ltb 0 (occurrences x l.written))) [
    | inl b ↦ let leased = (l.within x (ground arith)).1.0 in cc (leased, own)
    | inr b ↦ ground arith
  ]

  -- A block of the second loop is a changed one that the first loop left.
  own-IsChanged :
      (s s₁ : Flush B Buf) (x : ℕ)
      → Leased bo ops content s (keys s.blocks) s₁
      → 1 ≤ occurrences x (own_indexes bo ops s₁.blocks (keys s₁.blocks))
      → IsChanged bo ops s x
  own-IsChanged s s₁ x l o =
      let (o', own₁, dirty₁) = own_indexes_old bo ops s₁.blocks (keys s₁.blocks) x o in
      let own = sym (l.kept.leased x) ∙ own₁ in
      let dirty = sym (l.kept.dirty x (Leased-unwritten s s₁ x l own)) ∙ dirty₁ in
      elim (l.kept.keys_new x o') [ inl old ↦ (old, dirty) | inr now ↦ ((l.within x now).0, dirty) ]

  -- The first loop leaves bytes alone that no changed block touches.
  first-Kept :
      (s s₁ : Flush B Buf) (o n : ℕ)
      → Small (keys s.blocks)
      → o + n ≤ length s.file.bytes
      → ((x : ℕ) → IsChanged bo ops s x → (o + n ≤ block_size * x) ⊎ (block_size * (x + 1) ≤ o))
      → Leased bo ops content s (keys s.blocks) s₁
      → Kept bo ops content o n s s₁
  first-Kept s s₁ o n small inside apart l = record {
    same =
        ap (slice o n) l.wrote.file
        ∙ put_all_apart content full l.written s.file.bytes o n
            (All-occurrences (λ i. i < 2 ^ 19) l.written (λ x c. small x (l.within x c).0)) inside
            (λ i c. let (known, changed) = l.within i c in apart i (known, changed.1));
    room =
        omega (arith, ap length l.wrote.file, length-put_all content full l.written s.file.bytes);
    blocks = l.wrote.blocks;
  }

  -- A changed block is one of the first loop, or of the second.
  IsChanged-written :
      (s s₁ : Flush B Buf) (x : ℕ) (l : Leased bo ops content s (keys s.blocks) s₁)
      → IsChanged bo ops s x
      → 1 ≤ occurrences x l.written + occurrences x (own_indexes bo ops s₁.blocks (keys s₁.blocks))
  IsChanged-written s s₁ x l (o, dirty) =
      elim (Bool-cases (bo.is_leased (block_at bo ops s.blocks x))) [
        | inl leased ↦ omega (arith, l.has x o (leased, dirty))
        | inr own ↦
            let dirty₁ = l.kept.dirty x (Leased-unwritten s s₁ x l own) ∙ dirty in
            omega (
              arith,
              own_indexes-has bo ops s₁.blocks (keys s₁.blocks) x (l.kept.leased x ∙ own) dirty₁
                  (l.kept.keys_old x o),
            )
      ]

  -- The blocks of the second loop were changed.
  second-IsChanged :
      (s s₁ : Flush B Buf) (ps : List (List ℕ)) (x : ℕ)
      → Leased bo ops content s (keys s.blocks) s₁
      → block_range (sort_indexes (own_indexes bo ops s₁.blocks (keys s₁.blocks))) ≡ some ps
      → 1 ≤ occurrences x (blocks_of ps)
      → IsChanged bo ops s x
  second-IsChanged s s₁ ps x l run o =
      let own = own_indexes bo ops s₁.blocks (keys s₁.blocks) in
      own-IsChanged s s₁ x l (
        omega
          (arith, block_range-occurrences (sort_indexes own) ps run x, occurrences-sort x own, o))

  -- The second loop leaves bytes alone that no changed block touches.
  Kept-second :
      (s s₁ : Flush B Buf) (o n : ℕ)
      → ops.bytes s.buffer ≡ []
      → Small (keys s.blocks)
      → o + n ≤ length s.file.bytes
      → ((x : ℕ) → IsChanged bo ops s x → (o + n ≤ block_size * x) ⊎ (block_size * (x + 1) ≤ o))
      → Leased bo ops content s (keys s.blocks) s₁
      → After bo ops
          (Kept bo ops content o n s)
          (elim (block_range (sort_indexes (own_indexes bo ops s₁.blocks (keys s₁.blocks)))) [
            | none ↦ (s₁, some io)
            | some parts ↦ write_parts bo ops s₁ 0 parts
          ])
  Kept-second s s₁ o n fresh small inside apart l =
      let first = first-Kept s s₁ o n small inside apart l in
      elim (Option-cases
        (block_range (sort_indexes (own_indexes bo ops s₁.blocks (keys s₁.blocks))))) [
          | inl r ↦ rw (r) tt
          | inr (ps, r) ↦
              let start : 0 ≡ length (ops.bytes s₁.buffer) =
                sym (ap (λ b. length (ops.bytes b)) l.kept.buffer ∙ ap length fresh) in
              rw (r, start)
                (After-weaken bo ops (Kept bo ops content o n s₁) (Kept bo ops content o n s)
                  (λ s' k. Kept-trans bo ops bl laws content full o n s s₁ s' first k)
                  (write_parts bo ops s₁ (length (ops.bytes s₁.buffer)) ps)
                  (write_parts-Kept bo ops bl laws content full ps s₁ o n
                    (omega (arith, first.room))
                    (λ x c. small x (second-IsChanged s s₁ ps x l r c).0)
                    (λ x c. apart x (second-IsChanged s s₁ ps x l r c)) l.wrote.blocks))
        ]

  flush-Kept :
      (s : Flush B Buf) (o n : ℕ)
      → ops.bytes s.buffer ≡ []
      → Small (keys s.blocks)
      → Holds bo ops content s.blocks
      → o + n ≤ length s.file.bytes
      → ((x : ℕ) → IsChanged bo ops s x → (o + n ≤ block_size * x) ⊎ (block_size * (x + 1) ≤ o))
      → After bo ops (Kept bo ops content o n s) (flush bo ops s)
  unfolding flush
  flush-Kept s o n fresh small h inside apart =
      After-then bo ops (Leased bo ops content s (keys s.blocks)) (Kept bo ops content o n s)
        (λ s₁. elim (block_range (sort_indexes (own_indexes bo ops s₁.blocks (keys s₁.blocks)))) [
          | none ↦ (s₁, some io)
          | some parts ↦ write_parts bo ops s₁ 0 parts
        ])
        (λ s₁ l. Kept-second s s₁ o n fresh small inside apart l)
        (write_leased bo ops s (keys s.blocks))
        (write_leased-Leased bo ops bl laws content full (keys s.blocks) s h)

  -- The second loop, behind the first, where the buffer takes every block.
  Flushed-behind :
      (s s₁ : Flush B Buf) (ps : List (List ℕ))
      → ops.bytes s.buffer ≡ []
      → Small (keys s.blocks)
      → Takes ops
      → Leased bo ops content s (keys s.blocks) s₁
      → block_range (sort_indexes (own_indexes bo ops s₁.blocks (keys s₁.blocks))) ≡ some ps
      → After bo ops (Flushed bo ops content s) (write_parts bo ops s₁ 0 ps)
  Flushed-behind s s₁ ps fresh small takes l run =
      let second : (x : ℕ)
          → occurrences x (blocks_of ps)
            ≡ occurrences x (own_indexes bo ops s₁.blocks (keys s₁.blocks)) =
        λ x.
          block_range-occurrences (sort_indexes (own_indexes bo ops s₁.blocks (keys s₁.blocks))) ps
            run x
          ∙ occurrences-sort x (own_indexes bo ops s₁.blocks (keys s₁.blocks)) in
      let both : (x : ℕ)
          → occurrences x (l.written ++ blocks_of ps)
            ≡ occurrences x l.written + occurrences x (blocks_of ps) =
        λ x. occurrences-append x l.written (blocks_of ps) in
      let changed : (x : ℕ) → 1 ≤ occurrences x (blocks_of ps) → IsChanged bo ops s x =
        λ x o. own-IsChanged s s₁ x l (omega (arith, second x)) in
      let start : 0 ≡ length (ops.bytes s₁.buffer) =
        sym (ap (λ b. length (ops.bytes b)) l.kept.buffer ∙ ap length fresh) in
      rw (start) (
        After-weaken bo ops (Wrote bo ops content s₁ (blocks_of ps)) (Flushed bo ops content s)
          (λ s' w. record {
            written = l.written ++ blocks_of ps;
            wrote =
                Wrote-trans bo ops bl laws content full s s₁ s' l.written (blocks_of ps)
                  (l.written ++ blocks_of ps) refl l.wrote w;
            has = λ x c. omega (arith, both x, second x, IsChanged-written s s₁ x l c);
            within = λ x o. elim (Bool-cases (ltb 0 (occurrences x l.written))) [
              | inl b ↦ let (known, c) = l.within x (ground arith) in (known, c.1)
              | inr b ↦ changed x (ground (arith, both x))
            ];
          })
          (write_parts bo ops s₁ (length (ops.bytes s₁.buffer)) ps)
          (write_parts-Wrote bo ops bl laws content full ps s₁ takes
            (λ x o. small x (changed x o).0) l.wrote.blocks))

  Flushed-second :
      (s s₁ : Flush B Buf)
      → ops.bytes s.buffer ≡ []
      → Small (keys s.blocks)
      → Takes ops
      → Leased bo ops content s (keys s.blocks) s₁
      → After bo ops
          (Flushed bo ops content s)
          (elim (block_range (sort_indexes (own_indexes bo ops s₁.blocks (keys s₁.blocks)))) [
            | none ↦ (s₁, some io)
            | some parts ↦ write_parts bo ops s₁ 0 parts
          ])
  Flushed-second s s₁ fresh small takes l =
      elim (Option-cases
        (block_range (sort_indexes (own_indexes bo ops s₁.blocks (keys s₁.blocks))))) [
          | inl r ↦ rw (r) tt
          | inr (ps, r) ↦ rw (r) (Flushed-behind s s₁ ps fresh small takes l r)
        ]

  flush-Flushed :
      (s : Flush B Buf)
      → ops.bytes s.buffer ≡ []
      → Small (keys s.blocks)
      → Takes ops
      → Holds bo ops content s.blocks
      → After bo ops (Flushed bo ops content s) (flush bo ops s)
  unfolding flush
  flush-Flushed s fresh small takes h =
      After-then bo ops (Leased bo ops content s (keys s.blocks)) (Flushed bo ops content s)
        (λ s₁. elim (block_range (sort_indexes (own_indexes bo ops s₁.blocks (keys s₁.blocks)))) [
          | none ↦ (s₁, some io)
          | some parts ↦ write_parts bo ops s₁ 0 parts
        ])
        (λ s₁ l. Flushed-second s s₁ fresh small takes l) (write_leased bo ops s (keys s.blocks))
        (write_leased-Leased bo ops bl laws content full (keys s.blocks) s h)

module _ {B Buf : Type 0} (bo : BlockOps B) (ops : Buffer Buf) (s s' : Flush B Buf)
    (bl : IsBlockOps bo) (laws : IsBuffer ops)
    (full : (i : ℕ) → length (bo.marshal (block_at bo ops s.blocks i)) ≡ block_size)
    (small : Small (keys s.blocks)) (fresh : ops.bytes s.buffer ≡ [])
    (run : flush bo ops s ≡ (s', none)) where
  content : ℕ → List ℕ
  content i = bo.marshal (block_at bo ops s.blocks i)

  flushed : Takes ops → Flushed bo ops content s s'
  unfolding content
  flushed takes =
      subst (After bo ops (Flushed bo ops content s)) run
        (flush-Flushed bo ops bl laws content full s fresh small takes (Holds-own bo ops s.blocks))

  below : (f : Flushed bo ops content s s') → All (λ i. i < 2 ^ 19) f.written
  below f = All-occurrences (λ i. i < 2 ^ 19) f.written (λ x o. small x (f.within x o).0)

  -- Where the blocks have 4096 bytes and lie below two gigabytes, and the buffer is empty and takes
  -- every write: a flush that reports no error leaves the bytes of every changed block at its place in
  -- the file, whether the block is written alone or in a range.
  pub flush-writes :
      (i : ℕ)
      → Takes ops
      → IsChanged bo ops s i
      → slice (block_size * i) block_size s'.file.bytes ≡ bo.marshal (block_at bo ops s.blocks i)
  unfolding content
  flush-writes i takes c =
      let f = flushed takes in
      ap (slice (block_size * i) block_size) f.wrote.file
      ∙ put_all_there content full f.written s.file.bytes i (below f) (f.has i c)

  -- Where the blocks have 4096 bytes and lie below two gigabytes, and the buffer is empty: a flush
  -- that reports no error leaves the bytes of the file that the place of no changed block touches,
  -- also where the buffer fails to take a block.
  pub flush-keeps :
      (o n : ℕ)
      → o + n ≤ length s.file.bytes
      → ((i : ℕ) → IsChanged bo ops s i → (o + n ≤ block_size * i) ⊎ (block_size * (i + 1) ≤ o))
      → slice o n s'.file.bytes ≡ slice o n s.file.bytes
  unfolding content
  flush-keeps o n inside apart =
      let kept : Kept bo ops content o n s s' =
        subst (After bo ops (Kept bo ops content o n s)) run (
          flush-Kept bo ops bl laws content full s o n fresh small (Holds-own bo ops s.blocks)
            inside apart) in
      kept.same
