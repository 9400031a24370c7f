-- ===== src/Tests/Lookup.antt =====
-- time_window.go: a lookup over two linked blocks of a window file.
use unitdb.Prelude.{ℕ, ◌*◌, ◌≡◌, refl, some, [], ◌∷◌, ◌++◌, take, replicate, read_uint, arith}
use mathlib.Core.List.{reverse}
use unitdb.Block.{block_size}
use unitdb.File.{File}
use unitdb.Window.{
  WinEntry, WinBlock, no_win_block, no_win_entry, marshal_binary, unmarshal_binary, is_expired,
  cutoff,
}
use unitdb.Window.Writer.{read_window_block}
use unitdb.Window.Writer.Chain.{held}
use unitdb.Window.Lookup.{Found, walk}
use unitdb.Window.Lookup.Newest.{FileChain, last, link, walk-newest}

abbrev entry : ℕ → WinEntry
entry seq = record { sequence = seq; expires_at = 0 }

abbrev older : WinBlock
older = record no_win_block {
  topic_hash = 77;
  entries = entry 5 ∷ entry 9 ∷ replicate 333 no_win_entry;
  entry_idx = 2;
}

abbrev newer : WinBlock
newer = record no_win_block {
  topic_hash = 77;
  entries = entry 12 ∷ replicate 334 no_win_entry;
  entry_idx = 1;
  next = block_size;
}

abbrev file : File
unfolding marshal_binary
file = record {
  bytes = replicate block_size 0 ++ (marshal_binary older ++ marshal_binary newer);
  size = block_size * 3;
}

older_read : read_window_block file block_size ≡ some older
unfolding read_window_block unmarshal_binary marshal_binary read_uint
older_read = refl

newer_read : read_window_block file (block_size * 2) ≡ some newer
unfolding read_window_block unmarshal_binary marshal_binary read_uint
newer_read = refl

chain : FileChain file 1000 77 0 2 (block_size * 2) (held older ++ held newer)
unfolding held is_expired cutoff
chain =
    link 1 (held older) newer newer_read refl (omega arith) (refl, tt) refl (omega arith)
      (last older older_read refl (omega arith) (refl, (refl, tt)) refl)

abbrev nothing : Found
nothing = record { entries = []; expired = [] }

walk-newest_example :
    walk 2 file 1000 77 0 (block_size * 2) 2 nothing
    ≡ some (record nothing { entries = [] ++ take 2 (reverse (held older ++ held newer)) })
walk-newest_example =
    walk-newest file 1000 77 0 2 (block_size * 2) 2 2 (held older ++ held newer) nothing chain
      (omega arith) (omega arith)

-- The newest two of the three entries.
newest_two : take 2 (reverse (held older ++ held newer)) ≡ entry 12 ∷ entry 9 ∷ []
unfolding held
newest_two = refl
