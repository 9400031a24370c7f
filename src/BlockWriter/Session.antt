-- ===== src/BlockWriter/Session.antt =====
-- block_writer.go: the writer from one sync to the next, where `write` ends one that succeeds and
-- `abort` one that fails.
pub mod Write
use unitdb.Prelude.{
  ℕ, zero, suc, ◌+◌, ◌*◌, ◌/◌, ◌-◌, ◌%◌, ◌^◌, Bool, true, false, Option, none, some, List, [], ◌∷◌,
  ltb, leb, ◌==◌, if◌then◌else◌, ◌>>=◌, length,
}
use unitdb.Prelude.Maps.{Map, insert}
use unitdb.Block.{
  IndexBlock, no_block, block_size, block_index, block_offset, validation, marshal_binary,
}
use unitdb.Lease.{Lease, free_block}
use unitdb.File.{File, write, truncate, extend, curr_size}
use unitdb.Buffer.{Buffer}
use unitdb.BlockReader.{Error, io, Result, ok, err, read_index_block}
use unitdb.Flush.{BlockOps, Flush, flush}
use unitdb.BlockWriter.{BlockWriter, del}

-- What the loops of `write` use of an index block.
abbrev pub index_ops : BlockOps IndexBlock
index_ops = record {
  zero_block = no_block;
  marshal = marshal_binary;
  valid = λ i b. validation b i;
  is_leased = λ b. b.leased;
  is_dirty = λ b. b.dirty;
  clean = λ b. record b { dirty = false };
}

-- The writer on the two files, which were opened before. `none` is the error of the read.
unfoldable pub new_block_writer :
    {Buf : Type 0} → File → File → Lease → Buf → Option (BlockWriter Buf)
unfolding curr_size read_index_block block_offset insert
new_block_writer {Buf} index messages l buf =
    let (index_size, index') = curr_size index in
    let (data_size, messages') = curr_size messages in
    let last = index_size / block_size % 2 ^ 32 in
    let w : BlockWriter Buf = record {
      block_idx = if index_size == 0 then 2 ^ 32 - 1 else last;
      index_blocks = [];
      lease = l;
      buffer = buf;
      index_leases = [];
      data_leases = [];
      index_file = index';
      data_file = messages';
      offset = data_size;
      index_offset = index_size;
      data_offset = data_size;
    } in
    if index_size == 0
    then some w
    else (if ltb (block_size * last) index_size
        then (read_index_block index' (block_offset last) >>= λ b.
            some (record w { index_blocks = insert [] last b }))
        else some w)

-- Makes the index file reach the block of a sequence; gives its size before.
unfoldable pub extend_index : {Buf : Type 0} → BlockWriter Buf → ℕ → ℕ × BlockWriter Buf
unfolding curr_size extend block_offset block_index
extend_index w upper_seq =
    let off = block_offset (block_index upper_seq) in
    let (size, index) = curr_size w.index_file in
    if leb off size
    then (size, record w { index_file = index })
    else (let (old, grown) = extend index ((off - size) % 2 ^ 32) in
        (old, record w { index_file = grown }))

-- Gives free space back; `none` is a panic.
unfoldable pub free_leases : Lease → Map ℕ → Option Lease
unfolding free_block
free_leases l [] = some l
free_leases l ((off, size) ∷ m) = free_block off size l >>= λ l'. free_leases l' m

module _ {Buf : Type 0} (ops : Buffer Buf) where
  unfoldable pub delete_leases : BlockWriter Buf → List ℕ → Option (BlockWriter Buf × Option Error)
  unfolding del
  delete_leases w [] = some (w, none)
  delete_leases w (seq ∷ seqs) = del ops w seq >>= λ deleted. elim deleted.1 [
    | err e ↦ some (deleted.0, some e)
    | ok _ ↦ delete_leases deleted.0 seqs
  ]

  unfoldable pub rollback : BlockWriter Buf → Option (BlockWriter Buf × Option Error)
  unfolding free_leases delete_leases
  rollback w = free_leases w.lease w.data_leases >>= λ l.
      delete_leases (record w { lease = l }) w.index_leases

  unfoldable pub abort : BlockWriter Buf → Option (BlockWriter Buf × Option Error)
  unfolding truncate rollback
  abort w = rollback (record w {
    index_file = truncate w.index_file w.index_offset;
    data_file = truncate w.data_file w.data_offset;
  })

  unfoldable pub reset : BlockWriter Buf → BlockWriter Buf
  unfolding curr_size
  reset w =
      let (index_size, index) = curr_size w.index_file in
      let (data_size, messages) = curr_size w.data_file in
      record w {
        buffer = ops.reset w.buffer;
        index_file = index;
        data_file = messages;
        index_offset = index_size;
        block_idx = index_size / block_size % 2 ^ 32;
        data_offset = data_size;
      }

  -- The messages of the buffer go behind the data file, the index blocks to their places.
  unfoldable pub write_all : BlockWriter Buf → BlockWriter Buf × Option Error
  unfolding write flush
  write_all w =
      let (f, r) =
        flush index_ops ops
          (record { blocks = w.index_blocks; buffer = ops.reset w.buffer; file = w.index_file }) in
      (
        record w {
          data_file = write w.data_file (ops.bytes w.buffer);
          index_blocks = f.blocks;
          buffer = f.buffer;
          index_file = f.file;
        },
        r,
      )
