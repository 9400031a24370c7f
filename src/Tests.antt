-- ===== src/Tests.antt =====
-- The theorems at concrete inputs, and runs of the definitions.
mod Hash
mod Lease
mod Block
mod Trie
mod Filter
mod Files
mod Window
mod MessageId
mod TimeMark
mod BlockRange
mod BlockWriter
mod Buffers
mod Lookup
mod MemBlock
mod Bucket
mod Expiry
mod Topic
mod Store
mod Wal
