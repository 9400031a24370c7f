-- ===== src/BlockWriter/Session/Write.antt =====
-- block_writer.go: what `write` leaves in the files, as the readers of block_reader.go find it.
use unitdb.Prelude.{
  ℕ, ◌*◌, ◌≡◌, refl, sym, ap, ◌∙◌, none, some, List, ◌>>=◌, length, slice, overwrite, overwrite_end,
  arith,
}
use unitdb.Prelude.Maps.{keys}
use unitdb.Block.{
  IndexBlock, no_block, block_size, block_offset, first_seq, marshal_binary, unmarshal_binary,
}
use unitdb.Block.Place.{block_offset_exact}
use unitdb.Block.Roundtrip.{IsValid, reloaded_all, marshal-unmarshal}
use unitdb.File.{File, write}
use unitdb.File.Read.{read_slice_whole}
use unitdb.Buffer.{Buffer, IsBuffer, Takes}
use unitdb.BlockReader.{read_index_block}
use unitdb.Flush.{Flush, block_at, flush}
use unitdb.Flush.Parts.{IsBlockOps}
use unitdb.Flush.Grouped.{Small}
use unitdb.Flush.Result.{IsChanged, flush-writes}
use unitdb.BlockWriter.{BlockWriter}
use unitdb.BlockWriter.Place.{pending}
use unitdb.BlockWriter.Session.{index_ops, write_all}

pub index_ops-IsBlockOps : IsBlockOps index_ops
unfolding marshal_binary
index_ops-IsBlockOps = record {
  marshal_clean = λ b. refl;
  leased_clean = λ b. refl;
  dirty_clean = λ b. refl;
}

-- The writer's index blocks with the index file, as the second half of `write` finds them.
abbrev pub flush_of : {Buf : Type 0} → Buffer Buf → BlockWriter Buf → Flush IndexBlock Buf
flush_of ops w = record {
  blocks = w.index_blocks;
  buffer = ops.reset w.buffer;
  file = w.index_file;
}

read_index_block-slice :
    (f : File) (off : ℕ) (d : List ℕ)
    → slice off block_size f.bytes ≡ d
    → length d ≡ block_size
    → read_index_block f off ≡ unmarshal_binary no_block d
unfolding read_index_block
read_index_block-slice f off d e h =
    rw (read_index_block, read_slice_whole f off block_size d e h (omega arith), ◌>>=◌) refl

module _ {Buf : Type 0} (ops : Buffer Buf) (laws : IsBuffer ops) where
  -- Where the buffer takes every write, the blocks are well formed and they lie below two gigabytes:
  -- a `write` that reports no error puts the messages of the buffer behind the data file, and every
  -- changed index block is read back from the index file with its entries.
  pub write_all-reads :
      (w w' : BlockWriter Buf)
      → w.data_file.size ≡ length w.data_file.bytes
      → ((i : ℕ) → IsValid (block_at index_ops ops w.index_blocks i))
      → Small (keys w.index_blocks)
      → Takes ops
      → write_all ops w ≡ (w', none)
      → (i : ℕ) → IsChanged index_ops ops (flush_of ops w) i
      → (w'.data_file.bytes ≡ pending ops w)
        × (read_index_block w'.index_file (block_offset i)
            ≡ some (record no_block {
              entries =
                  reloaded_all no_block.entries (block_at index_ops ops w.index_blocks i).entries;
              base_seq = first_seq (block_at index_ops ops w.index_blocks i).entries;
              entry_idx = (block_at index_ops ops w.index_blocks i).entry_idx;
            }))
  unfolding write_all write
  write_all-reads w w' size valid small takes run i changed =
      let s' = (flush index_ops ops (flush_of ops w)).0 in
      let done : (flush index_ops ops (flush_of ops w)).1 ≡ none = ap (λ p. p.1) run in
      let ran : flush index_ops ops (flush_of ops w) ≡ (s', none) = ap (λ r. (s', r)) done in
      let file : w'.index_file ≡ s'.file = sym (ap (λ p. p.0.index_file) run) in
      let messages : w'.data_file.bytes ≡ pending ops w =
        sym (ap (λ p. p.0.data_file.bytes) run)
        ∙ ap (λ n. overwrite w.data_file.bytes n (ops.bytes w.buffer)) size
        ∙ overwrite_end w.data_file.bytes (ops.bytes w.buffer) in
      let b = block_at index_ops ops w.index_blocks i in
      let (full, back) = marshal-unmarshal no_block b (valid i) refl in
      let full_all : (j : ℕ)
          → length (index_ops.marshal (block_at index_ops ops w.index_blocks j)) ≡ block_size =
        λ j.
          (marshal-unmarshal no_block (block_at index_ops ops w.index_blocks j) (valid j) refl).0 in
      let there : slice (block_size * i) block_size s'.file.bytes ≡ marshal_binary b =
        flush-writes index_ops ops (flush_of ops w) s' index_ops-IsBlockOps laws full_all small
          (laws.reset_bytes w.buffer) ran i takes changed in
      let place : block_offset i ≡ block_size * i =
        (block_offset_exact i (omega (arith, small i changed.0))).1 (small i changed.0) in
      (
        messages,
        ap (λ f. read_index_block f (block_offset i)) file
            ∙ ap (read_index_block s'.file) place
            ∙ read_index_block-slice s'.file (block_size * i) (marshal_binary b) there full
            ∙ back,
      )
