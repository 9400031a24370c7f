-- ===== src/MemBlock.antt =====
-- memdb/block.go: a time block of the memory store, which keeps its records in a buffer.
pub mod Keys
pub mod Records
use unitdb.Prelude.{
  ℕ, zero, suc, ◌+◌, ◌-◌, ◌%◌, ◌^◌, Bool, true, false, ◌&&◌, Option, none, some, List, [], ◌∷◌,
  ◌++◌, ltb, leb, ◌==◌, if◌then◌else◌, ◌>>=◌, ◌>>◌, guard, length, drop, put_uint, read_uint, add64,
  sub64,
}
use unitdb.Buffer.{Buffer}

pub record Key : Type 0 where
  pub del_flag : ℕ
  pub key : ℕ

unfoldable pub i_key : Bool → ℕ → Key
i_key del_flag k = record { del_flag = if del_flag then 1 else 0; key = k }

-- `==` on keys.
unfoldable pub same_key : Key → Key → Bool
same_key k k' = (k.del_flag == k'.del_flag) && (k.key == k'.key)

-- The Go map of the offsets.
unfoldable pub find_record : List (Key × ℕ) → Key → Option ℕ
unfolding same_key
find_record [] key = none
find_record ((k, off) ∷ m) key =
    let rest = find_record m key in if same_key k key then some off else rest

-- A key that is not there is taken to stand at offset 0.
unfoldable pub offset_of : List (Key × ℕ) → Key → ℕ
unfolding find_record
offset_of m k = elim (find_record m k) [ none ↦ 0 | some off ↦ off ]

unfoldable pub insert_record : List (Key × ℕ) → Key → ℕ → List (Key × ℕ)
unfolding same_key
insert_record [] key v = (key, v) ∷ []
insert_record ((k, off) ∷ m) key v =
    let rest = insert_record m key v in if same_key k key then (key, v) ∷ m else (k, off) ∷ rest

unfoldable pub erase_record : List (Key × ℕ) → Key → List (Key × ℕ)
unfolding same_key
erase_record [] key = []
erase_record ((k, off) ∷ m) key =
    let rest = erase_record m key in if same_key k key then rest else (k, off) ∷ rest

-- `count` is an int64, kept as its bit pattern.
pub record MemBlock (Buf : Type 0) : Type 0 where
  pub count : ℕ
  pub contents : Buf
  pub records : List (Key × ℕ)
  pub time_refs : List ℕ
  pub last_offset : ℕ

-- The length of a key with its flag, and of the number that says how long a record is.
abbrev pub header_size : ℕ
header_size = 8 + 1 + 4

-- The flag and the key, as they stand in a record.
unfoldable pub key_bytes : Key → List ℕ
unfolding put_uint
key_bytes k = k.del_flag ∷ put_uint 8 k.key

module _ {Buf : Type 0} (ops : Buffer Buf) where
  -- `none` is an error of the buffer, or the panic on a record without room for its header.
  unfoldable pub get : MemBlock Buf → ℕ → Option (List ℕ)
  unfolding read_uint
  get b off = do
    scratch ← ops.read b.contents off (off + 4)
    (data_len, rest) ← read_uint 4 scratch
    row ← ops.read b.contents off (off + data_len)
    guard (leb header_size (length row))
    some (drop header_size row)

  -- Errors are `none`.
  unfoldable pub put : MemBlock Buf → Key → List ℕ → Option (MemBlock Buf)
  unfolding put_uint key_bytes insert_record
  put b k d = do
    (off, b₁) ← ops.extend b.contents (length d + header_size)
    b₂ ← ops.write_at b₁ (put_uint 4 ((length d + header_size) % 2 ^ 32)) off
    b₃ ← ops.write_at b₂ (key_bytes k) (off + 4)
    b₄ ← ops.write_at b₃ d (off + header_size)
    some (record b {
      contents = b₄;
      count = if k.del_flag == 0 then add64 b.count 1 else b.count;
      records = insert_record b.records k off;
    })

  unfoldable pub delete : MemBlock Buf → ℕ → Option (MemBlock Buf)
  unfolding i_key offset_of erase_record key_bytes
  delete b key =
      ops.write_at b.contents (key_bytes (i_key true key))
        (offset_of b.records (i_key false key) + 4)
      >>= λ b'. some (record b {
        contents = b';
        records = erase_record b.records (i_key false key);
        count = sub64 b.count 1;
      })
