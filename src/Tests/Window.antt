-- ===== src/Tests/Window.antt =====
-- time_window.go and time_window_writer.go: a window of two topics.
use unitdb.Prelude.{
  ℕ, List, read_uint, ◌*◌, ◌≡◌, ◌<◌, ◌≤◌, ◌^◌, refl, inl, inr, Bool-cases, some, none, [], ◌∷◌,
  ◌++◌, true, false, replicate, All-replicate, arith, ◌==◌,
}
use unitdb.Prelude.Maps.{find, keys}
use unitdb.BlockRange.{occurrences}
use unitdb.Flush.{block_at, flush}
use unitdb.Flush.Result.{IsChanged}
use unitdb.Window.Session.{win_ops, write_windows, scan_entries, del}
use unitdb.Window.Session.Delete.{Deletes, del-Deletes}
use unitdb.Window.Session.Write.{windows_of, write_windows-reads}
use unitdb.Tests.Buffers.{list_ops, list_ops-IsBuffer, list_ops-Takes}
use unitdb.Block.{block_size}
use unitdb.Window.{WinEntry, WinBlock, no_win_block, no_win_entry, marshal_binary, unmarshal_binary}
use unitdb.Window.Codec.{IsWide, IsValid}
use unitdb.Window.Writer.{WindowWriter, append, read_window_block, win_block_offset}
use unitdb.Window.Writer.Chain.{Chain, last, held, over, live}
use unitdb.Window.Writer.Append.{stored_at, append-Chain, append-new}

abbrev entry : ℕ → WinEntry
entry seq = record { sequence = seq; expires_at = 0 }

abbrev block : WinBlock
block = record {
  topic_hash = 77;
  entries = entry 5 ∷ entry 9 ∷ replicate 333 no_win_entry;
  next = 0;
  cutoff_time = 0;
  entry_idx = 2;
  dirty = true;
  leased = false;
}

abbrev writer : WindowWriter (List ℕ)
writer = record {
  window_idx = 4;
  win_blocks = (3, block) ∷ [];
  win_leases = [];
  buffer = [];
  win_file = record { bytes = []; size = 0 };
  offset = 0;
}

narrow : IsWide no_win_entry
narrow = record { sequence = omega arith; expires = omega arith }

append-Chain_example :
    (w' : WindowWriter (List ℕ)) × (i' : ℕ) × (append writer 77
        (block_size * 3)
        (entry 12 ∷ entry 0 ∷ entry 14 ∷ [])
        1600
      ≡ some (w', block_size * i'))
    × Chain
        (stored_at w')
        77
        i'
        ((entry 5 ∷ entry 9 ∷ []) ++ live (entry 12 ∷ entry 0 ∷ entry 14 ∷ []))
    × (0 < i')
unfolding held over find
append-Chain_example =
    append-Chain writer 77 3 block (entry 12 ∷ entry 0 ∷ entry 14 ∷ []) (entry 5 ∷ entry 9 ∷ [])
      1600 refl (last block refl refl refl refl) refl (omega arith) (omega arith) (omega arith)
      (omega arith)

append-new_example :
    (w' : WindowWriter (List ℕ)) × (i' : ℕ) × (append writer 88 0 (entry 12 ∷ entry 14 ∷ []) 1600
      ≡ some (w', block_size * i'))
    × Chain (find w'.win_blocks) 88 i' (live (entry 12 ∷ entry 14 ∷ []))
    × (0 < i')
unfolding find
append-new_example = append-new writer 88 (entry 12 ∷ entry 14 ∷ []) 1600 refl (omega arith)

-- The file has the block at index 0.
abbrev file_writer : WindowWriter (List ℕ)
unfolding marshal_binary
file_writer = record writer {
  win_file = record { bytes = marshal_binary block; size = block_size };
}

abbrev stored : WinBlock
stored = record block { dirty = false }

file_writer_opens : read_window_block file_writer.win_file (win_block_offset 0) ≡ some stored
unfolding read_window_block win_block_offset unmarshal_binary marshal_binary read_uint
file_writer_opens = refl

stored_has : scan_entries stored.entry_idx 9 stored.entries ≡ some (some 1)
unfolding scan_entries
stored_has = refl

del-Deletes_example :
    (w' : WindowWriter (List ℕ)) × (b' : WinBlock) × (del file_writer 9 0 ≡ some (w', none))
    × (find w'.win_blocks 0 ≡ some b')
    × Deletes 9 1 stored b'
del-Deletes_example =
    del-Deletes file_writer 9 0 1 stored file_writer_opens stored_has (omega arith) (omega arith)

block-IsValid : IsValid block
block-IsValid = record {
  full = refl;
  wide = (
    record { sequence = omega arith; expires = omega arith },
    (
      record { sequence = omega arith; expires = omega arith },
      All-replicate IsWide 333 no_win_entry narrow,
    ),
  );
  hash = omega arith;
  next = omega arith;
  cutoff = omega arith;
  idx = omega arith;
}

no_win_block-IsValid : IsValid no_win_block
no_win_block-IsValid = record {
  full = refl;
  wide = All-replicate IsWide 335 no_win_entry narrow;
  hash = omega arith;
  next = omega arith;
  cutoff = omega arith;
  idx = omega arith;
}

blocks-IsValid : (i : ℕ) → IsValid (block_at win_ops list_ops writer.win_blocks i)
unfolding block_at find
blocks-IsValid i = elim (Bool-cases (3 == i)) [
  | inl b ↦ rw (block_at, find, b) block-IsValid
  | inr b ↦ rw (block_at, find, b) no_win_block-IsValid
]

only_block : (x : ℕ) → 1 ≤ occurrences x (keys writer.win_blocks) → x < 2 ^ 19
unfolding keys occurrences
only_block x h = elim (Bool-cases (3 == x)) [ inl b ↦ ground arith | inr b ↦ absurd (ground arith) ]

block-IsChanged : IsChanged win_ops list_ops (windows_of writer) 3
unfolding keys occurrences block_at find
block-IsChanged = (omega arith, refl)

after_write : WindowWriter (List ℕ)
after_write = (write_windows list_ops writer).0

after_write_runs : write_windows list_ops writer ≡ (after_write, none)
unfolding write_windows flush after_write
after_write_runs = refl

write_windows-reads_example :
    read_window_block after_write.win_file (win_block_offset 3)
    ≡ some
        (record (block_at win_ops list_ops writer.win_blocks 3) { dirty = false; leased = false })
write_windows-reads_example =
    write_windows-reads list_ops list_ops-IsBuffer writer after_write refl blocks-IsValid only_block
      list_ops-Takes after_write_runs 3 block-IsChanged
