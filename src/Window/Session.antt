-- ===== src/Window/Session.antt =====
-- time_window_writer.go: deletions, and the writer from one sync to the next; time_window_reader.go: the
-- walk over the first blocks of the topics.
pub mod Delete
pub mod Write
use unitdb.Prelude.{
  ℕ, zero, suc, ◌+◌, ◌*◌, ◌/◌, ◌-◌, ◌%◌, ◌^◌, Bool, true, false, not, ◌||◌, Option, none, some,
  List, [], ◌∷◌, ltb, leb, ◌==◌, if◌then◌else◌, ◌>>=◌, length, set, get_elem?,
}
use unitdb.Prelude.Maps.{Map, insert}
use unitdb.Block.{block_size, entries_per_index_block}
use unitdb.File.{File, truncate, curr_size}
use unitdb.Buffer.{Buffer}
use unitdb.BlockReader.{Error, io}
use unitdb.Flush.{BlockOps, Flush, flush}
use unitdb.Window.{WinEntry, WinBlock, no_win_entry, no_win_block, marshal_binary}
use unitdb.Window.Writer.{WindowWriter, read_window_block, win_block_offset}

-- What the loops of `write` use of a window block; there is no validation.
abbrev pub win_ops : BlockOps WinBlock
win_ops = record {
  zero_block = no_win_block;
  marshal = marshal_binary;
  valid = λ i b. true;
  is_leased = λ b. b.leased;
  is_dirty = λ b. b.dirty;
  clean = λ b. record b { dirty = false };
}

-- The writer on the window file, which was opened before.
unfoldable pub new_window_writer : {Buf : Type 0} → File → Buf → WindowWriter Buf
unfolding curr_size
new_window_writer f buf =
    let (size, f') = curr_size f in
    record {
      window_idx = if size == 0 then 2 ^ 32 - 1 else size / block_size % 2 ^ 32;
      win_blocks = [];
      win_leases = [];
      buffer = buf;
      win_file = f';
      offset = size;
    }

-- The loop that looks for a sequence among the first entries. The outer `none` is the panic on an
-- index out of range, the inner one says that the sequence is not there.
unfoldable pub scan_entries : ℕ → ℕ → List WinEntry → Option (Option ℕ)
scan_entries zero seq es = some none
scan_entries (suc n) seq [] = none
scan_entries (suc n) seq (e ∷ es) =
    let rest = scan_entries n seq es in
    if e.sequence == seq
    then some (some 0)
    else rest >>= λ found. some (found >>= λ i. some (suc i))

unfoldable pub entry_at : List WinEntry → ℕ → WinEntry
entry_at es i = elim (get_elem? es i) [ none ↦ no_win_entry | some e ↦ e ]

-- The loop that moves entries one place down, `n` rounds from index `i`, and empties the last place.
unfoldable pub shift : ℕ → ℕ → List WinEntry → List WinEntry
unfolding entry_at
shift zero i es = set es i no_win_entry
shift (suc n) i es = shift n (suc i) (set es i (entry_at es (suc i)))

-- The block without the entry at `k`. The loop goes to the last place of an index block.
unfoldable pub without : WinBlock → ℕ → WinBlock
unfolding shift
without b k = record b {
  dirty = true;
  entry_idx = (b.entry_idx + 2 ^ 16 - 1) % 2 ^ 16;
  entries = shift (entries_per_index_block - 1 - k) k b.entries;
}

module _ {Buf : Type 0} where
  -- The outer `none` is a panic.
  unfoldable pub del : WindowWriter Buf → ℕ → ℕ → Option (WindowWriter Buf × Option Error)
  unfolding read_window_block win_block_offset scan_entries without insert
  del w seq win_idx = elim (read_window_block w.win_file (win_block_offset win_idx)) [
    | none ↦ some (w, some io)
    | some b ↦ scan_entries b.entry_idx seq b.entries >>= λ found. elim found [
      | none ↦ some (w, none)
      | some k ↦ some (record w { win_blocks = insert w.win_blocks win_idx (without b k) }, none)
    ]
  ]

  unfoldable pub delete_each :
      WindowWriter Buf → ℕ → List ℕ → Option (WindowWriter Buf × Option Error)
  unfolding del
  delete_each w win_idx [] = some (w, none)
  delete_each w win_idx (seq ∷ seqs) = del w seq win_idx >>= λ deleted. elim deleted.1 [
    | some e ↦ some deleted
    | none ↦ delete_each deleted.0 win_idx seqs
  ]

  unfoldable pub delete_leases :
      WindowWriter Buf → Map (List ℕ) → Option (WindowWriter Buf × Option Error)
  unfolding delete_each
  delete_leases w [] = some (w, none)
  delete_leases w ((win_idx, seqs) ∷ m) = delete_each w win_idx seqs >>= λ deleted. elim deleted.1 [
    | some e ↦ some deleted
    | none ↦ delete_leases deleted.0 m
  ]

  unfoldable pub rollback : WindowWriter Buf → Option (WindowWriter Buf × Option Error)
  unfolding delete_leases
  rollback w = delete_leases w w.win_leases

  unfoldable pub abort : WindowWriter Buf → Option (WindowWriter Buf × Option Error)
  unfolding truncate rollback
  abort w = rollback (record w { win_file = truncate w.win_file w.offset })

module _ {Buf : Type 0} (ops : Buffer Buf) where
  unfoldable pub reset : WindowWriter Buf → WindowWriter Buf
  unfolding curr_size
  reset w =
      let (size, f) = curr_size w.win_file in
      record w { buffer = ops.reset w.buffer; win_file = f; offset = size }

  unfoldable pub write_windows : WindowWriter Buf → WindowWriter Buf × Option Error
  unfolding flush
  write_windows w =
      let (f, r) =
        flush win_ops ops
          (record { blocks = w.win_blocks; buffer = w.buffer; file = w.win_file }) in
      (record w { win_blocks = f.blocks; buffer = f.buffer; win_file = f.file }, r)

-- The walk over the blocks that start the chains of their topics, with the state `S` of the callback,
-- which gets the first sequence, the hash and the offset. It ends where the callback stops, or at
-- the end of the file; `none` is a panic or the error of the callback. `n` is the number of blocks
-- that are left.
module _ {S : Type 0} (f : S → ℕ → ℕ → ℕ → Option (S × Bool)) where
  unfoldable pub iterate_blocks : File → ℕ → ℕ → S → Option S
  unfolding read_window_block win_block_offset
  iterate_blocks file i zero s = some s
  iterate_blocks file i (suc n) s = elim (read_window_block file (win_block_offset i)) [
    | none ↦ some s
    | some b ↦
        let rest = iterate_blocks file (i + 1) n in
        if (b.entry_idx == 0) || not (b.next == 0)
        then rest s
        else (get_elem? b.entries 0 >>= λ e.
            f s e.sequence b.topic_hash (win_block_offset i) >>= λ result.
            if result.1 then some result.0 else rest result.0)
  ]

  unfoldable pub block_iterator : File → S → Option S
  unfolding iterate_blocks curr_size
  block_iterator file s =
      let (size, file') = curr_size file in
      if size == 0 then some s else iterate_blocks file' 0 (size / block_size % 2 ^ 32 + 1) s
