-- ===== src/BlockReader.antt =====
-- block_reader.go: the reads of index blocks, entries and messages.
use unitdb.Prelude.{
  ℕ, zero, suc, ◌+◌, ◌-◌, ◌%◌, ◌^◌, Option, none, some, List, [], ◌∷◌, ◌==◌, if◌then◌else◌, leb,
  ◌>>=◌, ◌>>◌, guard, length, take, drop, slice, get_elem?, minus_one,
}
use unitdb.Block.{
  IndexEntry, IndexBlock, no_block, block_size, entries_per_index_block, id_size, block_index,
  block_offset, m_size, unmarshal_binary,
}
use unitdb.File.{File, read_slice}

-- `errMsgIDDeleted`, `errEntryInvalid`, `errEntryExist`, an error of a read or a buffer, and the
-- error of `validation`.
pub data Error : Type 0 where
  msg_id_deleted : Error
  entry_invalid : Error
  entry_exist : Error
  io : Error
  validation_failed : Error

pub data Result {ℓ} (A : Type ℓ) : Type ℓ where
  ok : A → Result A
  err : Error → Result A

-- `none` is the error of the read; the 4096 bytes of a block are always enough to parse.
unfoldable pub read_index_block : File → ℕ → Option IndexBlock
unfolding read_slice
read_index_block f off = do d ← read_slice f off (off + block_size); unmarshal_binary no_block d

-- The loop that looks for a sequence among the first entries. The outer `none` is the panic on an
-- index out of range, the inner one says that the sequence is not there.
unfoldable pub scan : ℕ → ℕ → List IndexEntry → Option (Option ℕ)
scan zero seq es = some none
scan (suc n) seq [] = none
scan (suc n) seq (e ∷ es) =
    let rest = scan n seq es in
    if e.seq == seq then some (some 0) else rest >>= λ found. some (found >>= λ i. some (suc i))

unfoldable pub entry_of : IndexBlock → Option ℕ → Result IndexEntry
entry_of b none = err entry_invalid
entry_of b (some i) = elim (get_elem? b.entries i) [
  | none ↦ err entry_invalid
  | some e ↦ if e.msg_offset == minus_one then err msg_id_deleted else ok e
]

-- The outer `none` is a panic. A block has as many entries as the loop reads.
unfoldable pub read_entry : File → ℕ → Option (Result IndexEntry)
unfolding block_index block_offset read_index_block scan entry_of
read_entry f seq = elim (read_index_block f (block_offset (block_index seq))) [
  | none ↦ some (err io)
  | some b ↦ do found ← scan entries_per_index_block seq b.entries; some (entry_of b found)
]

-- The identifier and the payload; the sum of the sizes is a uint16 and wraps. `none` is an error of the read, or a panic on a message that is
-- too short.
unfoldable pub split_message : IndexEntry → List ℕ → Option (List ℕ × List ℕ)
split_message e message = do
  guard (leb id_size (length message))
  guard (leb ((e.topic_size + id_size) % 2 ^ 16) (length message))
  some (take id_size message, drop ((e.topic_size + id_size) % 2 ^ 16) message)

unfoldable pub read_message : File → IndexEntry → Option (List ℕ × List ℕ)
unfolding m_size read_slice split_message
read_message f e = elim e.cache [
  | some message ↦ split_message e message
  | none ↦ do message ← read_slice f e.msg_offset (e.msg_offset + m_size e); split_message e message
]

unfoldable pub read_topic : File → IndexEntry → Option (List ℕ)
unfolding read_slice
read_topic f e = elim e.cache [
  | some message ↦ do
    guard (leb ((e.topic_size + id_size) % 2 ^ 16) (length message))
    guard (leb id_size ((e.topic_size + id_size) % 2 ^ 16))
    some (slice id_size ((e.topic_size + id_size) % 2 ^ 16 - id_size) message)
  | none ↦ read_slice f (e.msg_offset + id_size) (e.msg_offset + e.topic_size + id_size)
]
