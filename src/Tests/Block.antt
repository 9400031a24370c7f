-- ===== src/Tests/Block.antt =====
-- block.go: a block with two entries.
use unitdb.Prelude.{
  ℕ, ◌*◌, ◌<◌, ◌≡◌, ◌^◌, ◌↔◌, refl, some, none, inl, inr, arith, ◌∷◌, false, length, replicate,
  All-replicate,
}
use unitdb.Block.{
  IndexEntry, IndexBlock, no_entry, no_block, block_index, block_offset, block_size, marshal_binary,
  unmarshal_binary,
}
use unitdb.Block.Roundtrip.{IsValid, IsPlaced, marshal-unmarshal, reloaded_all}
use unitdb.Block.Place.{block_offset_exact}

abbrev entry : ℕ → IndexEntry
entry seq = record { seq = seq; topic_size = 0; value_size = 20; msg_offset = 77; cache = none }

abbrev two_entries : IndexBlock
two_entries = record {
  entries = entry 300 ∷ entry 290 ∷ replicate 253 no_entry;
  base_seq = 0;
  entry_idx = 2;
  dirty = false;
  leased = false;
}

two_entries-IsValid : IsValid two_entries
unfolding block_index
two_entries-IsValid = record {
  full = refl;
  base_width = omega arith;
  placed = (
    record {
      seq_width = omega arith;
      topic_width = omega arith;
      value_width = omega arith;
      offset_width = omega arith;
      place = inr refl;
    },
    (
      record {
        seq_width = omega arith;
        topic_width = omega arith;
        value_width = omega arith;
        offset_width = omega arith;
        place = inr refl;
      },
      All-replicate (IsPlaced 300) 253 no_entry (record {
        seq_width = omega arith;
        topic_width = omega arith;
        value_width = omega arith;
        offset_width = omega arith;
        place = inl refl;
      }),
    ),
  );
  idx_width = omega arith;
}

marshal-unmarshal_example :
    (length (marshal_binary two_entries) ≡ block_size)
    × (unmarshal_binary no_block (marshal_binary two_entries)
        ≡ some (record no_block {
          entries = reloaded_all no_block.entries two_entries.entries;
          base_seq = 300;
          entry_idx = 2;
        }))
marshal-unmarshal_example = marshal-unmarshal no_block two_entries two_entries-IsValid refl

block_offset_exact_example : (block_offset 7 ≡ block_size * 7) ↔ (7 < 2 ^ 19)
block_offset_exact_example = block_offset_exact 7 (omega arith)
