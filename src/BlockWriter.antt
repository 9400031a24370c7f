-- ===== src/BlockWriter.antt =====
-- block_writer.go: the writer of index entries and messages, over the buffer of the pool.
pub mod Place
pub mod Append
pub mod Errors
pub mod Session
use unitdb.Prelude.{
  ℕ, zero, suc, ◌+◌, ◌*◌, ◌/◌, ◌-◌, ◌%◌, ◌^◌, Bool, true, false, not, ◌&&◌, Option, none, some,
  List, [], ◌∷◌, ◌++◌, ltb, leb, ltb_int32, ◌==◌, if◌then◌else◌, ◌>>=◌, ◌>>◌, guard, add64,
  minus_one, length, set, get_elem?,
}
use unitdb.Prelude.Maps.{Map, find, insert, erase, keys}
use unitdb.Block.{
  IndexEntry, IndexBlock, no_entry, no_block, block_size, block_index, block_offset, validation,
}
use unitdb.Lease.{Lease, allocate, free_block}
use unitdb.File.{File, write_at, write, truncate, extend, curr_size}
use unitdb.Buffer.{Buffer}
use unitdb.BlockReader.{
  Error, entry_invalid, entry_exist, io, validation_failed, Result, ok, err, read_index_block, scan,
}

-- `block_idx` is an int32 that starts at -1, kept as its bit pattern; `index_leases` is a set.
pub record BlockWriter (Buf : Type 0) : Type 0 where
  pub block_idx : ℕ
  pub index_blocks : Map IndexBlock
  pub lease : Lease
  pub buffer : Buf
  pub index_leases : List ℕ
  pub data_leases : Map ℕ
  pub index_file : File
  pub data_file : File
  pub offset : ℕ
  pub index_offset : ℕ
  pub data_offset : ℕ

-- The message of an entry, which may be nil.
abbrev pub message : IndexEntry → List ℕ
message e = elim e.cache [ none ↦ [] | some d ↦ d ]

module _ {Buf : Type 0} (ops : Buffer Buf) where
  -- The block of an index: the writer's, one read from the file, or a new one. `none` is the error
  -- of the read.
  unfoldable pub open_block : BlockWriter Buf → ℕ → Option IndexBlock
  unfolding read_index_block block_offset
  open_block w i = elim (find w.index_blocks i) [
    | some b ↦ some b
    | none ↦
        if ltb_int32 i w.block_idx
        then (read_index_block w.index_file (block_offset i) >>= λ b.
            some (record b { leased = true }))
        else some no_block
  ]

  -- A message behind the others of the buffer; `none` is an error of the buffer.
  unfoldable pub append_data : BlockWriter Buf → List ℕ → BlockWriter Buf × Option ℕ
  append_data w d = elim (ops.extend w.buffer (length d)) [
    | none ↦ (w, none)
    | some (off, grown) ↦ elim (ops.write_at grown d off) [
      | none ↦ (record w { buffer = grown }, none)
      | some written ↦
          (record w { buffer = written; offset = add64 w.offset (length d) }, some w.offset)
    ]
  ]

  -- The place of a message: in free space of the file, else in the buffer.
  unfoldable pub place : BlockWriter Buf → List ℕ → Option (BlockWriter Buf × Option ℕ)
  unfolding append_data write_at insert
  place w d = do
    (off, l) ← allocate (length d % 2 ^ 32) w.lease
    some (
        if off == minus_one then append_data (record w { lease = l }) d else (
          record w {
            lease = l;
            data_file = write_at w.data_file d off;
            data_leases = insert w.data_leases off (length d % 2 ^ 32);
          },
          some off,
        ))

  -- `none` is the panic on a block that is full.
  unfoldable pub put_entry :
      BlockWriter Buf → ℕ → IndexBlock → IndexEntry → Option (BlockWriter Buf × Option Error)
  unfolding validation insert
  put_entry w i b e = do
    guard (ltb b.entry_idx (length b.entries))
    let b' = record b {
      entries = set b.entries b.entry_idx e;
      dirty = true;
      entry_idx = (b.entry_idx + 1) % 2 ^ 16;
    }
    let leases = if b.leased then e.seq ∷ w.index_leases else w.index_leases
    some (
        if validation b' i
        then (record w { index_leases = leases; index_blocks = insert w.index_blocks i b' }, none)
        else (record w { index_leases = leases }, some validation_failed))

  -- What `append` does with a sequence that the block does not have.
  unfoldable pub append_new :
      BlockWriter Buf
      → ℕ
      → IndexBlock
      → IndexEntry
      → List ℕ
      → Option (BlockWriter Buf × Option Error)
  unfolding place put_entry
  append_new w i b e d =
      if length d == 0
      then some (w, some entry_invalid)
      else place w d >>= λ placed. elim placed.1 [
        | none ↦ some (placed.0, some io)
        | some off ↦ put_entry placed.0 i b (record e { msg_offset = off })
      ]

  -- The outer `none` is a panic.
  unfoldable pub append : BlockWriter Buf → IndexEntry → Option (BlockWriter Buf × Option Error)
  unfolding open_block scan append_new block_index
  append w e = do
    guard (not (e.seq == 0))
    elim (open_block w (block_index e.seq)) [
      | none ↦ some (w, some io)
      | some b ↦ scan b.entry_idx e.seq b.entries >>= λ found. elim found [
        | some _ ↦ some (w, some entry_exist)
        | none ↦ append_new w (block_index e.seq) b e (message e)
      ]
    ]

  -- Marks an entry as deleted, and gives it back with its offset gone.
  unfoldable pub del : BlockWriter Buf → ℕ → Option (BlockWriter Buf × Result IndexEntry)
  unfolding read_index_block scan insert block_index block_offset
  del w seq =
      if ltb_int32 w.block_idx (block_index seq)
      then some (w, ok no_entry)
      else elim (read_index_block w.index_file (block_offset (block_index seq))) [
        | none ↦ some (w, err io)
        | some b ↦ scan b.entry_idx seq b.entries >>= λ found. elim found [
          | none ↦ some (w, ok no_entry)
          | some k ↦ get_elem? b.entries k >>= λ e. some (
            record w {
              index_blocks = insert w.index_blocks (block_index seq) (record b {
                entries = set b.entries k (record e { msg_offset = minus_one });
                dirty = true;
              });
            },
            ok (record e { msg_offset = minus_one }),
          )
        ]
      ]
