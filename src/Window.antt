-- ===== src/Window.antt =====
-- time_window.go, time_window_writer.go: the window blocks of the topics, in the file and in the
-- writer.
pub mod Codec
pub mod Writer
pub mod Session
pub mod Bucket
pub mod Lookup
use unitdb.Prelude.{
  ℕ, zero, suc, ◌+◌, ◌-◌, ◌*◌, ◌/◌, ◌%◌, ◌^◌, Bool, true, false, ◌&&◌, not, Option, none, some,
  List, [], ◌∷◌, ◌++◌, ltb, leb, ◌==◌, if◌then◌else◌, ltb_int64, ◌>>=◌, ◌>>◌, guard, length, set,
  get_elem?, take, drop, replicate, put_uint, read_uint,
}
use unitdb.Block.{block_size}

abbrev pub entries_per_window_block : ℕ
entries_per_window_block = 335

pub record WinEntry : Type 0 where
  pub sequence : ℕ
  pub expires_at : ℕ

abbrev pub no_win_entry : WinEntry
no_win_entry = record { sequence = 0; expires_at = 0 }

-- `entries` is an array of 335 entries; `next` and `cutoff_time` are int64.
pub record WinBlock : Type 0 where
  pub topic_hash : ℕ
  pub entries : List WinEntry
  pub next : ℕ
  pub cutoff_time : ℕ
  pub entry_idx : ℕ
  pub dirty : Bool
  pub leased : Bool

abbrev pub no_win_block : WinBlock
no_win_block = record {
  topic_hash = 0;
  entries = replicate entries_per_window_block no_win_entry;
  next = 0;
  cutoff_time = 0;
  entry_idx = 0;
  dirty = false;
  leased = false;
}

-- `now` is the clock, in seconds.
unfoldable pub is_expired : ℕ → WinEntry → Bool
is_expired now e = not (e.expires_at == 0) && leb e.expires_at (now % 2 ^ 32)

unfoldable pub cutoff : WinBlock → ℕ → Bool
cutoff b time = not (b.cutoff_time == 0) && ltb_int64 b.cutoff_time time

unfoldable pub marshal_entries : List WinEntry → List ℕ → List ℕ
unfolding put_uint
marshal_entries [] rest = rest
marshal_entries (e ∷ es) rest =
    put_uint 8 e.sequence ++ (put_uint 4 e.expires_at ++ marshal_entries es rest)

-- The buffer has `blockSize` zero bytes, and the fields are written from its start.
unfoldable pub marshal_binary : WinBlock → List ℕ
unfolding marshal_entries
marshal_binary b = marshal_entries b.entries (
    put_uint 8 b.cutoff_time
    ++ (put_uint 8 b.topic_hash
        ++ (put_uint 8 b.next
            ++ (put_uint 2 b.entry_idx
                ++ replicate (block_size - (12 * entries_per_window_block + 26)) 0))))

-- One round of the loop; `data[12]` must be there.
unfoldable pub unmarshal_entry : List ℕ → Option (WinEntry × List ℕ)
unmarshal_entry d = do
  guard (ltb 12 (length d))
  (seq, d₁) ← read_uint 8 d
  (expires_at, d₂) ← read_uint 4 d₁
  some (record { sequence = seq; expires_at = expires_at }, d₂)

unfoldable pub unmarshal_entries : List WinEntry → List ℕ → Option (List WinEntry × List ℕ)
unfolding unmarshal_entry
unmarshal_entries [] d = some ([], d)
unmarshal_entries (old ∷ olds) d = do
  (e, d₁) ← unmarshal_entry d
  (es, d₂) ← unmarshal_entries olds d₁
  some (e ∷ es, d₂)

-- Overwrites the block in place; `none` is a panic on data that is too short.
unfoldable pub unmarshal_binary : WinBlock → List ℕ → Option WinBlock
unfolding unmarshal_entries
unmarshal_binary b d = do
  (es, d₁) ← unmarshal_entries b.entries d
  (cutoff_time, d₂) ← read_uint 8 d₁
  (topic_hash, d₃) ← read_uint 8 d₂
  (next, d₄) ← read_uint 8 d₃
  (idx, d₅) ← read_uint 2 d₄
  some (record b {
    entries = es;
    cutoff_time = cutoff_time;
    topic_hash = topic_hash;
    next = next;
    entry_idx = idx;
  })

-- True where `validation` returns no error.
unfoldable pub validation : WinBlock → ℕ → Bool
validation b topic_hash = b.topic_hash == topic_hash
