-- ===== src/Tests/Bucket.antt =====
-- time_window.go: the first entry of a new bucket.
use unitdb.Prelude.{◌≡◌, refl, some, [], ◌∷◌, ◌++◌, if◌then◌else◌, arith}
use unitdb.Hash.Consistent.{init_consistent}
use unitdb.Hash.Consistent.Valid as Anchor
use unitdb.Lease.{n_shards}
use unitdb.Window.{WinEntry}
use unitdb.Window.Bucket.{Key, WindowBlocks, same_key, new_window_blocks, add}
use unitdb.Window.Bucket.Entries.{IsValid, entries_at, add-entries_at}

new_window_blocks-IsValid : IsValid new_window_blocks
unfolding new_window_blocks
new_window_blocks-IsValid = record {
  anchor =
      Anchor.init_consistent-IsValid n_shards n_shards (omega arith) (omega arith) (omega arith);
  shards = unfold init_consistent in refl;
}

abbrev key : Key
key = record { time_id = 5; topic_hash = 77 }

abbrev entry : WinEntry
entry = record { sequence = 12; expires_at = 0 }

add-entries_at_example :
    (w' : WindowBlocks) × (add new_window_blocks 5 77 entry ≡ some w')
    × IsValid w'
    × (entries_at w' key ≡ (
        if same_key key key
        then entries_at new_window_blocks key ++ entry ∷ []
        else entries_at new_window_blocks key))
add-entries_at_example = add-entries_at new_window_blocks 5 77 entry key new_window_blocks-IsValid
