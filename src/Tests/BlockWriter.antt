-- ===== src/Tests/BlockWriter.antt =====
-- block_writer.go and block_reader.go: a new writer, its first message, and a write of its block.
use unitdb.Prelude.{
  ℕ, ◌-◌, ◌*◌, ◌^◌, ◌≡◌, ◌<◌, ◌≤◌, ◌⊎◌, inl, inr, refl, true, none, some, List, [], ◌∷◌, ◌==◌,
  length, replicate, All-replicate, slice, Bool-cases, ==_iff, arith,
}
use unitdb.Prelude.Maps.{find, keys}
use unitdb.Tests.Buffers.{list_ops, list_ops-IsBuffer, list_ops-Takes}
use unitdb.Block.{
  IndexEntry, IndexBlock, no_entry, no_block, block_size, block_index, block_offset, first_seq,
  validation,
}
use unitdb.Block.Roundtrip.{IsPlaced, IsValid, reloaded_all, marshal-unmarshal}
use unitdb.BlockRange.{occurrences}
use unitdb.Lease.{new_lease}
use unitdb.Lease.Store.{new_lease-IsValid, free_at-new}
use unitdb.File.{File}
use unitdb.BlockReader.{entry_invalid, io, validation_failed, read_index_block, scan}
use unitdb.BlockWriter.{BlockWriter, open_block, append, append_new}
use unitdb.BlockWriter.Place.{IsReady}
use unitdb.BlockWriter.Append.{IsOwn, Stores, append-Stores}
use unitdb.BlockWriter.Errors.{append-errors}
use unitdb.BlockWriter.Session.{index_ops, write_all}
use unitdb.BlockWriter.Session.Write.{flush_of, write_all-reads, index_ops-IsBlockOps}
use unitdb.Flush.{Flush, block_at, flush}
use unitdb.Flush.Result.{IsChanged, flush-writes, flush-keeps}

abbrev empty_file : File
empty_file = record { bytes = []; size = 0 }

abbrev writer : BlockWriter (List ℕ)
writer = record {
  block_idx = 2 ^ 32 - 1;
  index_blocks = [];
  lease = new_lease 0;
  buffer = [];
  index_leases = [];
  data_leases = [];
  index_file = empty_file;
  data_file = empty_file;
  offset = 0;
  index_offset = 0;
  data_offset = 0;
}

abbrev entry : IndexEntry
entry = record no_entry { seq = 2; topic_size = 1; value_size = 1; cache = some (7 ∷ 8 ∷ []) }

writer-IsReady : IsReady list_ops writer
writer-IsReady = record {
  lease = new_lease-IsValid 0;
  size = refl;
  offset = refl;
  inside = λ x h. absurd (omega (arith, free_at-new x 0));
}

writer_opens : open_block list_ops writer (block_index entry.seq) ≡ some no_block
unfolding open_block find block_index
writer_opens = refl

writer_fresh : scan no_block.entry_idx entry.seq no_block.entries ≡ some none
unfolding scan
writer_fresh = refl

no_block-IsOwn : IsOwn (block_index entry.seq) no_block
no_block-IsOwn = inl refl

append-Stores_example :
    (w' : BlockWriter (List ℕ)) × (append list_ops writer entry ≡ some (w', none))
    × Stores list_ops writer no_block entry w'
append-Stores_example =
    append-Stores list_ops list_ops-IsBuffer writer entry no_block 0 (0 ∷ 0 ∷ []) writer-IsReady
      (omega arith) writer_opens writer_fresh (omega arith) no_block-IsOwn (omega arith)
      (omega arith) (omega arith) refl

abbrev nil_entry : IndexEntry
nil_entry = record no_entry { seq = 2 }

append_nil : append list_ops writer nil_entry ≡ some (writer, some entry_invalid)
unfolding append append_new open_block scan find block_index
append_nil = refl

append-errors_example :
    (writer.index_blocks ≡ writer.index_blocks)
    × (writer.index_file ≡ writer.index_file)
    × ((writer ≡ writer) ⊎ ((entry_invalid ≡ io) ⊎ (entry_invalid ≡ validation_failed)))
append-errors_example = append-errors list_ops writer writer nil_entry entry_invalid append_nil

-- One block with one entry.
abbrev block : IndexBlock
block = record no_block {
  entries = record entry { msg_offset = 0 } ∷ replicate 254 no_entry;
  entry_idx = 1;
  dirty = true;
}

abbrev full_writer : BlockWriter (List ℕ)
full_writer = record writer {
  index_blocks = (0, block) ∷ [];
  buffer = 7 ∷ 8 ∷ [];
  offset = 2;
  index_file = record { bytes = replicate 4097 9; size = 4097 };
}

no_entry-IsPlaced : (base : ℕ) → IsPlaced base no_entry
no_entry-IsPlaced base = record {
  seq_width = omega arith;
  topic_width = omega arith;
  value_width = omega arith;
  offset_width = omega arith;
  place = inl refl;
}

no_block-IsValid : IsValid no_block
no_block-IsValid = record {
  full = refl;
  base_width = omega arith;
  placed = All-replicate (IsPlaced 0) 255 no_entry (no_entry-IsPlaced 0);
  idx_width = omega arith;
}

block-IsValid : IsValid block
unfolding block_index
block-IsValid = record {
  full = refl;
  base_width = omega arith;
  placed = (
    record {
      seq_width = omega arith;
      topic_width = omega arith;
      value_width = omega arith;
      offset_width = omega arith;
      place = inr refl;
    },
    All-replicate (IsPlaced 2) 254 no_entry (no_entry-IsPlaced 2),
  );
  idx_width = omega arith;
}

blocks-IsValid : (i : ℕ) → IsValid (block_at index_ops list_ops full_writer.index_blocks i)
unfolding block_at find
blocks-IsValid i = elim (Bool-cases (0 == i)) [
  | inl b ↦ rw (block_at, find, b) block-IsValid
  | inr b ↦ rw (block_at, find, b) no_block-IsValid
]

only_block : (x : ℕ) → 1 ≤ occurrences x (keys full_writer.index_blocks) → x < 2 ^ 19
unfolding keys occurrences
only_block x h = elim (Bool-cases (0 == x)) [ inl b ↦ ground arith | inr b ↦ absurd (ground arith) ]

block-IsChanged : IsChanged index_ops list_ops (flush_of list_ops full_writer) 0
unfolding keys occurrences block_at find
block-IsChanged = (omega arith, refl)

blocks_full :
    (i : ℕ)
    → length (index_ops.marshal (block_at index_ops list_ops full_writer.index_blocks i))
      ≡ block_size
blocks_full i =
    (marshal-unmarshal no_block (block_at index_ops list_ops full_writer.index_blocks i)
      (blocks-IsValid i) refl).0

written : Flush IndexBlock (List ℕ)
written = (flush index_ops list_ops (flush_of list_ops full_writer)).0

written_runs : flush index_ops list_ops (flush_of list_ops full_writer) ≡ (written, none)
unfolding flush written validation
written_runs = refl

flush-writes_example :
    slice (block_size * 0) block_size written.file.bytes
    ≡ index_ops.marshal (block_at index_ops list_ops full_writer.index_blocks 0)
flush-writes_example =
    flush-writes index_ops list_ops (flush_of list_ops full_writer) written index_ops-IsBlockOps
      list_ops-IsBuffer blocks_full only_block refl written_runs 0 list_ops-Takes block-IsChanged

flush-keeps_example :
    slice block_size 1 written.file.bytes ≡ slice block_size 1 full_writer.index_file.bytes
unfolding occurrences keys
flush-keeps_example =
    flush-keeps index_ops list_ops (flush_of list_ops full_writer) written index_ops-IsBlockOps
      list_ops-IsBuffer blocks_full only_block refl written_runs block_size 1 (omega arith)
      (λ i c. elim (Bool-cases (0 == i)) [
        | inl b ↦ let same : 0 ≡ i = (==_iff 0 i).0 b in inr (omega (arith, same))
        | inr b ↦
            let absent : occurrences i (0 ∷ []) ≡ 0 = rw (occurrences, b) refl in
            absurd (omega (arith, c.0, absent))
      ])

after_write : BlockWriter (List ℕ)
after_write = (write_all list_ops full_writer).0

after_write_runs : write_all list_ops full_writer ≡ (after_write, none)
unfolding write_all flush after_write validation
after_write_runs = refl

write_all-reads_example :
    (after_write.data_file.bytes ≡ 7 ∷ 8 ∷ [])
    × (read_index_block after_write.index_file (block_offset 0)
        ≡ some (record no_block {
          entries =
              reloaded_all no_block.entries
                (block_at index_ops list_ops full_writer.index_blocks 0).entries;
          base_seq = first_seq (block_at index_ops list_ops full_writer.index_blocks 0).entries;
          entry_idx = (block_at index_ops list_ops full_writer.index_blocks 0).entry_idx;
        }))
write_all-reads_example =
    write_all-reads list_ops list_ops-IsBuffer full_writer after_write refl blocks-IsValid
      only_block list_ops-Takes after_write_runs 0 block-IsChanged
