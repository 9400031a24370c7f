-- ===== src/Flush.antt =====
-- block_writer.go and time_window_writer.go: the second half of both `write`s, which puts the
-- changed blocks into the file. The two differ in the kind of block, and the window writer does
-- not validate.
pub mod Writes
pub mod Parts
pub mod Grouped
pub mod Kept
pub mod Indexes
pub mod Leased
pub mod Result
use unitdb.Prelude.{
  ℕ, zero, suc, ◌+◌, ◌-◌, ◌*◌, ◌%◌, ◌^◌, Bool, true, false, not, ◌&&◌, ◌||◌, Option, none, some,
  List, [], ◌∷◌, ◌++◌, ltb, leb, ◌==◌, if◌then◌else◌, ◌>>=◌, length,
}
use unitdb.Prelude.Maps.{Map, find, insert, keys}
use unitdb.Block.{block_size, int32_to_int64}
use unitdb.BlockRange.{block_range}
use unitdb.File.{File, write_at}
use unitdb.Buffer.{Buffer}
use unitdb.BlockReader.{Error, io, validation_failed}

-- What the loops use of a block.
pub record BlockOps (B : Type 0) : Type 0 where
  pub zero_block : B
  pub marshal : B → List ℕ
  pub valid : ℕ → B → Bool
  pub is_leased : B → Bool
  pub is_dirty : B → Bool
  pub clean : B → B

pub record Flush (B : Type 0) (Buf : Type 0) : Type 0 where
  pub blocks : Map B
  pub buffer : Buf
  pub file : File

-- `int64(blockSize * idx)`; `blockOffset` gives the same, but for index -1, which no sequence has.
abbrev pub place_of : ℕ → ℕ
place_of i = int32_to_int64 (block_size * i % 2 ^ 32)

-- The indexes in ascending order, as `sort.Slice` leaves them.
unfoldable pub insert_index : ℕ → List ℕ → List ℕ
insert_index i [] = i ∷ []
insert_index i (j ∷ js) = let rest = insert_index i js in if leb i j then i ∷ j ∷ js else j ∷ rest

unfoldable pub sort_indexes : List ℕ → List ℕ
unfolding insert_index
sort_indexes [] = []
sort_indexes (i ∷ is) = insert_index i (sort_indexes is)

module _ {B Buf : Type 0} (bo : BlockOps B) (ops : Buffer Buf) where
  -- The block of the map, or the zero block.
  unfoldable pub block_at : Map B → ℕ → B
  unfolding find
  block_at m i = elim (find m i) [ none ↦ bo.zero_block | some b ↦ b ]

  -- One block, written to its own place.
  unfoldable pub write_block : Flush B Buf → ℕ → Flush B Buf × Option Error
  unfolding write_at insert block_at
  write_block s i =
      let b = block_at s.blocks i in
      if bo.valid i b
      then (
        record s {
          file = write_at s.file (bo.marshal b) (place_of i);
          blocks = insert s.blocks i (bo.clean b);
        },
        none,
      )
      else (s, some validation_failed)

  -- The loop over the map, for the blocks that come from the file.
  unfoldable pub write_leased : Flush B Buf → List ℕ → Flush B Buf × Option Error
  unfolding write_block block_at
  write_leased s [] = (s, none)
  write_leased s (i ∷ is) =
      let b = block_at s.blocks i in
      let skip = write_leased s is in
      if not (bo.is_leased b) || not (bo.is_dirty b)
      then skip
      else (let (s', r) = write_block s i in
          elim r [ some error ↦ (s', some error) | none ↦ write_leased s' is ])

  -- The error of `w.buffer.Write` is not looked at: where the write fails, the buffer is as it was.
  unfoldable pub append_block : Buf → List ℕ → Buf
  append_block b d = elim (ops.write b d) [ none ↦ b | some b' ↦ b' ]

  -- The blocks of a range, one behind the other in the buffer; a block counts as written where the
  -- buffer failed to take it, too.
  unfoldable pub buffer_blocks : Flush B Buf → ℕ → ℕ → Flush B Buf × Option Error
  unfolding append_block insert block_at
  buffer_blocks s i zero = (s, none)
  buffer_blocks s i (suc n) =
      let b = block_at s.blocks i in
      if bo.valid i b
      then buffer_blocks
          (record s {
            buffer = append_block s.buffer (bo.marshal b);
            blocks = insert s.blocks i (bo.clean b);
          })
          (i + 1) n
      else (s, some validation_failed)

  -- The part of the buffer from `off` on, written to the place of block `i`, and the offset of its
  -- end.
  unfoldable pub write_buffered : Flush B Buf → ℕ → ℕ → Flush B Buf × Option Error × ℕ
  unfolding write_at
  write_buffered s off i = elim (ops.read s.buffer off (length (ops.bytes s.buffer))) [
    | none ↦ (s, some io, off)
    | some d ↦
        (record s { file = write_at s.file d (place_of i) }, none, length (ops.bytes s.buffer))
  ]

  unfoldable pub write_part : Flush B Buf → ℕ → List ℕ → Flush B Buf × Option Error × ℕ
  unfolding write_block buffer_blocks write_buffered
  write_part s off [] = (s, none, off)
  write_part s off (i ∷ []) = let (s', r) = write_block s i in (s', r, off)
  write_part s off (i ∷ j ∷ _) =
      let (s', r) = buffer_blocks s i (j + 1 - i) in
      elim r [ some error ↦ (s', some error, off) | none ↦ write_buffered s' off i ]

  unfoldable pub write_parts : Flush B Buf → ℕ → List (List ℕ) → Flush B Buf × Option Error
  unfolding write_part
  write_parts s off [] = (s, none)
  write_parts s off (p ∷ ps) =
      let (s', r, off') = write_part s off p in
      elim r [ some error ↦ (s', some error) | none ↦ write_parts s' off' ps ]

  -- The indexes of the changed blocks that do not come from the file.
  unfoldable pub own_indexes : Map B → List ℕ → List ℕ
  unfolding block_at
  own_indexes m [] = []
  own_indexes m (i ∷ is) =
      let b = block_at m i in
      let rest = own_indexes m is in
      if bo.is_leased b || not (bo.is_dirty b) then rest else i ∷ rest

  -- `none` from `blockRange` cannot be, as the indexes ascend; it is given as an error of the read.
  unfoldable pub flush : Flush B Buf → Flush B Buf × Option Error
  unfolding write_leased write_parts own_indexes keys sort_indexes block_range
  flush s =
      let (s', r) = write_leased s (keys s.blocks) in
      elim r [
        | some error ↦ (s', some error)
        | none ↦ elim (block_range (sort_indexes (own_indexes s'.blocks (keys s'.blocks)))) [
          | none ↦ (s', some io)
          | some parts ↦ write_parts s' 0 parts
        ]
      ]
