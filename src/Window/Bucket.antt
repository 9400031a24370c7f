-- ===== src/Window/Bucket.antt =====
-- time_window.go: the entries of the time blocks that are not synced yet, by time and topic, in shards.
pub mod Entries
use unitdb.Prelude.{
  ℕ, Bool, ◌&&◌, Option, none, some, List, [], ◌∷◌, ◌++◌, ◌==◌, if◌then◌else◌, ◌>>=◌, set,
  get_elem?, replicate,
}
use unitdb.Prelude.Maps.{Map, insert, find}
use unitdb.Hash.Consistent.{Consistent, init_consistent, find_block}
use unitdb.Lease.{n_shards}
use unitdb.Window.{WinEntry}

pub record Key : Type 0 where
  pub time_id : ℕ
  pub topic_hash : ℕ

-- `==` on keys.
unfoldable pub same_key : Key → Key → Bool
same_key k k' = (k.time_id == k'.time_id) && (k.topic_hash == k'.topic_hash)

-- The entries of a shard, a Go map.
abbrev pub TimeWindow : Type 0
TimeWindow = List (Key × List WinEntry)

pub record WindowBlocks : Type 0 where
  pub window : List TimeWindow
  pub consistent : Consistent

unfoldable pub new_window_blocks : WindowBlocks
unfolding init_consistent
new_window_blocks = record {
  window = replicate n_shards [];
  consistent = init_consistent n_shards n_shards;
}

-- `none` is a panic.
unfoldable pub get_window_block : WindowBlocks → ℕ → Option (ℕ × TimeWindow)
unfolding find_block
get_window_block w block_id = do
  i ← find_block w.consistent block_id
  b ← get_elem? w.window i
  some (i, b)

-- The entry goes behind those of its key.
unfoldable pub add_entry : TimeWindow → Key → WinEntry → TimeWindow
unfolding same_key
add_entry [] key e = (key, e ∷ []) ∷ []
add_entry ((k, es) ∷ b) key e =
    let rest = add_entry b key e in if same_key k key then (k, es ++ e ∷ []) ∷ b else (k, es) ∷ rest

unfoldable pub add : WindowBlocks → ℕ → ℕ → WinEntry → Option WindowBlocks
unfolding get_window_block add_entry
add w time_id topic_hash e = do
  (i, b) ← get_window_block w topic_hash
  some (record w {
    window = set w.window i (add_entry b (record { time_id = time_id; topic_hash = topic_hash }) e);
  })

unfoldable pub delete_key : TimeWindow → Key → TimeWindow
unfolding same_key
delete_key [] key = []
delete_key ((k, es) ∷ b) key =
    let rest = delete_key b key in if same_key k key then rest else (k, es) ∷ rest

-- The keys of a shard, by their time; those of the shards before are in `released`.
unfoldable pub collect_keys : Map (List Key) → TimeWindow → Map (List Key)
unfolding find insert
collect_keys released [] = released
collect_keys released ((k, es) ∷ b) =
    collect_keys
      (insert released k.time_id
        (elim (find released k.time_id) [ none ↦ k ∷ [] | some ks ↦ ks ++ k ∷ [] ]))
      b

unfoldable pub collect_all : Map (List Key) → List TimeWindow → Map (List Key)
unfolding collect_keys
collect_all released [] = released
collect_all released (b ∷ bs) = collect_all (collect_keys released b) bs

unfoldable pub delete_keys : WindowBlocks → List Key → Option WindowBlocks
unfolding get_window_block delete_key
delete_keys w [] = some w
delete_keys w (k ∷ ks) = do
  (i, b) ← get_window_block w k.topic_hash
  delete_keys (record w { window = set w.window i (delete_key b k) }) ks

-- The map that `release` makes for the function that it returns.
unfoldable pub release : WindowBlocks → Map (List Key)
unfolding collect_all
release w = collect_all [] w.window

-- That function: the inner `none` is `errBadRequest`, the outer one a panic.
unfoldable pub release_time : Map (List Key) → WindowBlocks → ℕ → Option (Option WindowBlocks)
unfolding find delete_keys
release_time released w time_id = elim (find released time_id) [
  | none ↦ some none
  | some ks ↦ delete_keys w ks >>= λ w'. some (some w')
]
