-- ===== src/Block.antt =====
-- block.go: an entry of the index file and the 4096-byte index block that holds 255 of them.
pub mod Roundtrip
pub mod Place
use unitdb.Prelude.{
  ℕ, ◌+◌, ◌-◌, ◌*◌, ◌/◌, ◌%◌, ◌^◌, Bool, true, false, not, Option, none, some, List, [], ◌∷◌, ◌++◌,
  ltb, leb, ◌==◌, if◌then◌else◌, sub64, add64, ◌>>=◌, ◌>>◌, guard, length, replicate, put_uint,
  read_uint,
}

abbrev pub block_size : ℕ
block_size = 4096

abbrev pub entries_per_index_block : ℕ
entries_per_index_block = 255

-- The message ID prefix with the encryption bit.
abbrev pub id_size : ℕ
id_size = 9

-- `msg_offset` is an int64, kept as its bit pattern. `cache` is nil unless the block is in memdb.
pub record IndexEntry : Type 0 where
  pub seq : ℕ
  pub topic_size : ℕ
  pub value_size : ℕ
  pub msg_offset : ℕ
  pub cache : Option (List ℕ)

abbrev pub no_entry : IndexEntry
no_entry = record { seq = 0; topic_size = 0; value_size = 0; msg_offset = 0; cache = none }

-- `entries` is an array of 255 entries.
pub record IndexBlock : Type 0 where
  pub entries : List IndexEntry
  pub base_seq : ℕ
  pub entry_idx : ℕ
  pub dirty : Bool
  pub leased : Bool

abbrev pub no_block : IndexBlock
no_block = record {
  entries = replicate entries_per_index_block no_entry;
  base_seq = 0;
  entry_idx = 0;
  dirty = false;
  leased = false;
}

-- How many blocks of 255 sequences lie in front of a sequence.
abbrev pub blocks_before : ℕ → ℕ
blocks_before seq = sub64 seq 1 / entries_per_index_block

-- The code divides as float64 and converts to int32. For a quotient below 2 ^ 31 the rounding error is
-- less than 1 / 255, so the result is the integer quotient. One that does not fit is left to the
-- implementation: amd64 gives the least int32, whose bit pattern this is.
unfoldable pub block_index : ℕ → ℕ
block_index seq = if ltb (blocks_before seq) (2 ^ 31) then blocks_before seq else 2 ^ 31

-- `int64(x)` of an int32, on bit patterns.
abbrev pub int32_to_int64 : ℕ → ℕ
int32_to_int64 v = if ltb v (2 ^ 31) then v else v + (2 ^ 64 - 2 ^ 32)

-- The product is an int32 product, widened afterwards.
unfoldable pub block_offset : ℕ → ℕ
block_offset idx = if idx == 2 ^ 32 - 1 then 0 else int32_to_int64 (block_size * idx % 2 ^ 32)

unfoldable pub m_size : IndexEntry → ℕ
m_size e = (id_size + e.topic_size + e.value_size) % 2 ^ 32

abbrev pub first_seq : List IndexEntry → ℕ
first_seq [] = 0
first_seq (e ∷ _) = e.seq

-- True where `validation` returns no error.
unfoldable pub validation : IndexBlock → ℕ → Bool
unfolding block_index
validation b block_idx = block_index (first_seq b.entries) == block_idx

-- `uint16(int16(seq - baseSeq) + 255)`, and 0 for an empty place.
pub relative_seq : ℕ → ℕ → ℕ
relative_seq base seq =
    if seq == 0 then 0 else (sub64 seq base % 2 ^ 16 + entries_per_index_block) % 2 ^ 16

marshal_entries : ℕ → List IndexEntry → List ℕ → List ℕ
marshal_entries base [] rest = rest
marshal_entries base (s ∷ es) rest =
    put_uint 2 (relative_seq base s.seq)
    ++ (put_uint 2 s.topic_size
        ++ (put_uint 4 s.value_size ++ (put_uint 8 s.msg_offset ++ marshal_entries base es rest)))

-- The buffer has `blockSize` zero bytes, and the fields are written from its start.
unfoldable pub marshal_binary : IndexBlock → List ℕ
unfolding marshal_entries
marshal_binary b =
    let base = first_seq b.entries in
    put_uint 8 base
    ++ marshal_entries base b.entries (
        put_uint 2 b.entry_idx ++ replicate (block_size - (8 + 16 * entries_per_index_block + 2)) 0)

-- `b.baseSeq + uint64(seq) - 255` for an int16 `seq`, which is widened with its sign.
pub absolute_seq : ℕ → ℕ → ℕ
absolute_seq base v =
    if v == 0
    then 0
    else sub64 (add64 base (if ltb v (2 ^ 15) then v else v + (2 ^ 64 - 2 ^ 16)))
        entries_per_index_block

-- One round of the loop; `data[16]` must be there.
unmarshal_entry : ℕ → IndexEntry → List ℕ → Option (IndexEntry × List ℕ)
unmarshal_entry base old d = do
  guard (ltb 16 (length d))
  (v, d₁) ← read_uint 2 d
  (topic_size, d₂) ← read_uint 2 d₁
  (value_size, d₃) ← read_uint 4 d₂
  (msg_offset, d₄) ← read_uint 8 d₃
  some (
    record old {
      seq = absolute_seq base v;
      topic_size = topic_size;
      value_size = value_size;
      msg_offset = msg_offset;
    },
    d₄,
  )

unmarshal_entries : ℕ → List IndexEntry → List ℕ → Option (List IndexEntry × List ℕ)
unmarshal_entries base [] d = some ([], d)
unmarshal_entries base (old ∷ olds) d = do
  (e, d₁) ← unmarshal_entry base old d
  (es, d₂) ← unmarshal_entries base olds d₁
  some (e ∷ es, d₂)

-- Overwrites the block in place; `none` is a panic on data that is too short.
unfoldable pub unmarshal_binary : IndexBlock → List ℕ → Option IndexBlock
unfolding unmarshal_entries unmarshal_entry
unmarshal_binary b d = do
  (base, d₁) ← read_uint 8 d
  (es, d₂) ← unmarshal_entries base b.entries d₁
  (idx, d₃) ← read_uint 2 d₂
  some (record b { base_seq = base; entries = es; entry_idx = idx })
