-- ===== src/Lib.antt =====
-- unitdb: a time-series database for messages. An entry has a topic, a payload and a sequence. It is
-- put into the memory store (memdb/), which writes a log (wal/) and cuts time into blocks; a sync
-- (db_sync.go) moves the entries of a finished time block into the files: the index file has an
-- entry for every sequence, the data file the messages, the window file the sequences of each topic,
-- newest block first. A query goes from a topic to its trie node, from there to its window blocks,
-- and from each sequence to the index and the data. The free list gives deleted space to new
-- messages, and a bloom filter answers for sequences that were never written.
--
-- The parts that are modelled, by file:
-- - Hash: hash/. The anchor hash that picks the shard of a key, with its removals and additions, and
--   the random numbers it walks by. Parent modules are definitions, children are proofs.
-- - Block: block.go. The index entries, the block of 255 of them, its place in the file, its bytes.
-- - Lease: leasing.go. The free blocks, allocation, joining of neighbours, and the lease file. The
--   shard of a block comes from Hash.
-- - Entry and Info: entry.go and db_info.go. The header of an entry and the info file.
-- - Window: time_window.go, time_window_writer.go and time_window_reader.go. The window block and its
--   bytes; in Window/Writer the append, which links the blocks of a topic; in Window/Session the
--   deletions and what goes from one sync to the next, where the code's `write` is `write_windows`;
--   in Window/Bucket the entries in memory; in Window/Lookup the lookup through memory and file. The
--   block size is that of Block, the shards come from Hash.
-- - Topic: message/topic.go. A topic with its options, which is parsed into the hashes of its parts and
--   written as bytes; in Topic/Fields the functions on texts that it uses. Hash/Text, of hash/hash.go,
--   gives the salted hash of a part. The trie takes the parts and the hash of a topic.
-- - Trie: trie.go. The trie of topics, which holds the offset that the window writer gives for each
--   topic, and finds the topics that a query means.
-- - Filter: filter/. The bloom filter and its bytes.
-- - MessageId: message/id.go and the clock part of uid/uid.go. The identifier of a message.
-- - Expiry: expiry_window.go. The entries of the window that have expired, by time.
-- - Store: memdb/db.go and memdb/db_internal.go. The store of time blocks with the filters of its
--   shards: what is put into it, looked up, deleted and released; in Store/Batch the batches of
--   memdb/batch.go. A time block is a MemBlock, its filters are those of Filter, the shard of a key
--   comes from Hash, and TimeMark says which blocks are released.
-- - MemBlock: memdb/block.go. The time block of the memory store, whose records stand in a buffer.
-- - Wal: wal/header.go and wal/file.go. The header of a log and the store of the log files.
-- - TimeMark: memdb/time_mark.go. Which time blocks of the memory store are released.
-- - File: the bytes and the size of a file of file.go. Buffer: the buffer of github.com/unit-io/bpool
--   that the writers fill; it is a parameter, with the laws that its documentation states.
-- - BlockReader: block_reader.go. BlockWriter: block_writer.go, with the appends and deletions, and in
--   BlockWriter/Session what goes from one sync to the next. The code's `write` is `write_all`, and
--   `extend` is `extend_index`. Lease gives the free space, Block the form of the blocks.
-- - Flush: the loops by which both writers put blocks into their file, for any kind of block. The
--   blocks of a range go through the buffer. BlockRange: blockRange of block_writer.go, by which the
--   blocks are grouped. A write to the buffer may fail, which the code does not look at.
-- - Prelude has the shared names, tests, lists and byte slices; Tests has the examples.
--
-- How code becomes definitions: a method becomes a function from the state to the new state, with
-- `none` for a panic or for the error that the comment names. Go's maps are functions or lists of
-- keys with values. Unsigned numbers are naturals below 2 ^ w, and signed ones their bit patterns;
-- every wrap is written out. A division of floats in `blockIndex` is the division of integers that
-- it rounds to, and a quotient that does not fit an int32 becomes what amd64 makes of it. A pointer to a trie node is the path of the node, as nodes never move. The clock
-- and the random numbers are arguments. Locks are left out: each operation holds the lock of its
-- shard from start to end. The operating system's calls are taken to succeed, but for reads past the
-- end of a file.
--
-- Loops are recursion on the list or the tree they run over. The walk of the anchor hash runs on
-- fuel, as many rounds as the anchor has places, and is shown to end before. The walk over the window
-- blocks of a topic runs on fuel, and as much as the topic has blocks is shown to be enough.
--
-- Not modelled: the opening, naming and locking of files, the inside of the buffer pool
-- (github.com/unit-io/bpool), the writer, the reader and the recovery of the log, the queries of the
-- memory store and their caches,
-- the options, the server, the metrics and the ciphers.
mod Prelude
pub mod Hash
pub mod Topic
pub mod File
pub mod Buffer
pub mod BlockReader
pub mod BlockWriter
pub mod Flush
pub mod MemBlock
pub mod Store
pub mod Wal
pub mod Expiry
pub mod Block
pub mod Lease
pub mod Entry
pub mod Info
pub mod Trie
pub mod Filter
pub mod Window
pub mod MessageId
pub mod TimeMark
pub mod BlockRange
mod Tests
