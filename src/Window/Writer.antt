-- ===== src/Window/Writer.antt =====
-- time_window_writer.go: the appends to the window blocks. The block that the file holds at an offset
-- is read by `read_window_block` of time_window_reader.go.
pub mod Chain
pub mod Append
use unitdb.Prelude.{
  ℕ, zero, suc, ◌+◌, ◌*◌, ◌/◌, ◌%◌, ◌^◌, Bool, true, false, Option, none, some, List, [], ◌∷◌, ◌++◌,
  ltb, leb, ◌==◌, if◌then◌else◌, ◌>>=◌, ◌>>◌, guard, length, set, get_elem?, slice,
}
use unitdb.Prelude.Maps.{Map, find, insert}
use unitdb.File.{File, read_slice}
use unitdb.Block.{block_size, int32_to_int64}
use unitdb.Window.{WinEntry, WinBlock, no_win_block, entries_per_window_block, unmarshal_binary}

-- `window_idx` is an int32 that starts at -1, kept as its bit pattern.
pub record WindowWriter (Buf : Type 0) : Type 0 where
  pub window_idx : ℕ
  pub win_blocks : Map WinBlock
  pub win_leases : Map (List ℕ)
  pub buffer : Buf
  pub win_file : File
  pub offset : ℕ

-- `none` is the error of a read past the end of the file.
unfoldable pub read_window_block : File → ℕ → Option WinBlock
unfolding read_slice
read_window_block f off = do
  d ← read_slice f off (off + block_size)
  unmarshal_binary no_win_block d

-- `int64(blockSize * idx)`: the product is an int32 product.
unfoldable pub win_block_offset : ℕ → ℕ
win_block_offset idx = int32_to_int64 (block_size * idx % 2 ^ 32)

-- `a <= b` on int32.
unfoldable pub leb_int32 : ℕ → ℕ → Bool
leb_int32 a b = leb ((a + 2 ^ 31) % 2 ^ 32) ((b + 2 ^ 31) % 2 ^ 32)

-- The writer with the block that the loop works on, and the index of the block.
pub record Cursor (Buf : Type 0) : Type 0 where
  pub writer : WindowWriter Buf
  pub block : WinBlock
  pub idx : ℕ

-- A full block is stored, with `now` as its cutoff time, and a new one is linked to it.
unfoldable pub next_block : {Buf : Type 0} → ℕ → Cursor Buf → Cursor Buf
unfolding win_block_offset insert
next_block now c =
    if c.block.entry_idx == entries_per_window_block
    then (let full = record c.block { cutoff_time = now } in
        let idx' = (c.writer.window_idx + 1) % 2 ^ 32 in
        record {
          writer = record c.writer {
            win_blocks = insert c.writer.win_blocks c.idx full;
            window_idx = idx';
          };
          block = record no_win_block {
            topic_hash = c.block.topic_hash;
            next = win_block_offset c.idx;
          };
          idx = idx';
        })
    else c

-- The sequences of a block's leases, or nil.
unfoldable pub leases_at : Map (List ℕ) → ℕ → List ℕ
unfolding find
leases_at m i = elim (find m i) [ none ↦ [] | some seqs ↦ seqs ]

unfoldable pub lease : {Buf : Type 0} → ℕ → Cursor Buf → Cursor Buf
unfolding insert leases_at
lease seq c = record c {
  writer = record c.writer {
    win_leases =
        if c.block.leased
        then insert c.writer.win_leases c.idx (leases_at c.writer.win_leases c.idx ++ seq ∷ [])
        else c.writer.win_leases;
  };
}

-- `none` is the panic on an index out of range.
unfoldable pub put_entry : {Buf : Type 0} → WinEntry → Cursor Buf → Option (Cursor Buf)
put_entry e c = do
  guard (ltb c.block.entry_idx (length c.block.entries))
  some (record c {
    block = record c.block {
      entries = set c.block.entries c.block.entry_idx e;
      dirty = true;
      entry_idx = (c.block.entry_idx + 1) % 2 ^ 16;
    };
  })

unfoldable pub append_entries :
    {Buf : Type 0} → ℕ → List WinEntry → Cursor Buf → Option (Cursor Buf)
unfolding next_block lease put_entry
append_entries now [] c = some c
append_entries now (e ∷ es) c =
    let rest = append_entries now es in
    if e.sequence == 0 then rest c else put_entry e (lease e.sequence (next_block now c)) >>= rest

unfoldable pub or_new : Option WinBlock → WinBlock
or_new none = no_win_block
or_new (some b) = b

-- The block at which an append starts: a new one at offset 0, else that of the offset, from the
-- writer or from the file. `none` is the error of the read.
unfoldable pub start_block : {Buf : Type 0} → WindowWriter Buf → ℕ → Option (Cursor Buf)
unfolding leb_int32 read_window_block or_new find
start_block w off =
    if off == 0
    then (let idx' = (w.window_idx + 1) % 2 ^ 32 in
        some (record {
          writer = record w { window_idx = idx' };
          block = or_new (find w.win_blocks idx');
          idx = idx';
        }))
    else (let idx' = off / block_size % 2 ^ 32 in
        elim (find w.win_blocks idx') [
          | some b ↦ some (record { writer = w; block = b; idx = idx' })
          | none ↦
              if leb_int32 idx' w.window_idx
              then elim (read_window_block w.win_file off) [
                | none ↦ none
                | some b ↦
                    some (record { writer = w; block = record b { leased = true }; idx = idx' })
              ]
              else some (record { writer = w; block = no_win_block; idx = idx' })
        ])

-- Gives the writer, and the offset of the block that the topic starts at from now on.
unfoldable pub append :
    {Buf : Type 0} → WindowWriter Buf → ℕ → ℕ → List WinEntry → ℕ → Option (WindowWriter Buf × ℕ)
unfolding start_block append_entries win_block_offset insert
append w topic_hash off es now = do
  start ← start_block w off
  c ←
      append_entries now es
        (record start { block = record start.block { topic_hash = topic_hash } })
  some (
    record c.writer { win_blocks = insert c.writer.win_blocks c.idx c.block },
    win_block_offset c.idx,
  )
