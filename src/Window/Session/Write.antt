-- ===== src/Window/Session/Write.antt =====
-- time_window_writer.go: what `write` leaves in the window file, as the reader of
-- time_window_reader.go finds it.
use unitdb.Prelude.{
  ℕ, ◌*◌, ◌≡◌, refl, sym, ap, ◌∙◌, false, none, some, List, [], ◌>>=◌, length, slice, arith,
}
use unitdb.Prelude.Maps.{keys}
use unitdb.Block.{block_size}
use unitdb.File.{File}
use unitdb.File.Read.{read_slice_whole}
use unitdb.Buffer.{Buffer, IsBuffer, Takes}
use unitdb.Flush.{Flush, block_at, flush}
use unitdb.Flush.Parts.{IsBlockOps}
use unitdb.Flush.Grouped.{Small}
use unitdb.Flush.Result.{IsChanged, flush-writes}
use unitdb.Window.{WinBlock, no_win_block, marshal_binary, unmarshal_binary}
use unitdb.Window.Codec.{IsValid, unmarshal-marshal_window}
use unitdb.Window.Writer.{WindowWriter, read_window_block, win_block_offset}
use unitdb.Window.Writer.Chain.{offset_exact}
use unitdb.Window.Session.{win_ops, write_windows}

pub win_ops-IsBlockOps : IsBlockOps win_ops
unfolding marshal_binary
win_ops-IsBlockOps = record {
  marshal_clean = λ b. refl;
  leased_clean = λ b. refl;
  dirty_clean = λ b. refl;
}

-- The writer's window blocks with the window file, as `write` finds them.
abbrev pub windows_of : {Buf : Type 0} → WindowWriter Buf → Flush WinBlock Buf
windows_of w = record { blocks = w.win_blocks; buffer = w.buffer; file = w.win_file }

read_window_block-slice :
    (f : File) (off : ℕ) (d : List ℕ)
    → slice off block_size f.bytes ≡ d
    → length d ≡ block_size
    → read_window_block f off ≡ unmarshal_binary no_win_block d
unfolding read_window_block
read_window_block-slice f off d e h =
    rw (read_window_block, read_slice_whole f off block_size d e h (omega arith), ◌>>=◌) refl

module _ {Buf : Type 0} (ops : Buffer Buf) (laws : IsBuffer ops) where
  -- Where the buffer is empty and takes every write, the blocks are well formed and they lie below two
  -- gigabytes: after a `write` that reports no error every changed window block is read back from the
  -- window file as it was, but for the two marks that are not persisted.
  pub write_windows-reads :
      (w w' : WindowWriter Buf)
      → ops.bytes w.buffer ≡ []
      → ((i : ℕ) → IsValid (block_at win_ops ops w.win_blocks i))
      → Small (keys w.win_blocks)
      → Takes ops
      → write_windows ops w ≡ (w', none)
      → (i : ℕ) → IsChanged win_ops ops (windows_of w) i
      → read_window_block w'.win_file (win_block_offset i)
        ≡ some (record (block_at win_ops ops w.win_blocks i) { dirty = false; leased = false })
  unfolding write_windows
  write_windows-reads w w' fresh valid small takes run i changed =
      let s' = (flush win_ops ops (windows_of w)).0 in
      let done : (flush win_ops ops (windows_of w)).1 ≡ none = ap (λ p. p.1) run in
      let ran : flush win_ops ops (windows_of w) ≡ (s', none) = ap (λ r. (s', r)) done in
      let file : w'.win_file ≡ s'.file = sym (ap (λ p. p.0.win_file) run) in
      let b = block_at win_ops ops w.win_blocks i in
      let (full, back) = unmarshal-marshal_window no_win_block b (valid i) refl in
      let full_all : (j : ℕ)
          → length (win_ops.marshal (block_at win_ops ops w.win_blocks j)) ≡ block_size =
        λ j.
          (unmarshal-marshal_window no_win_block (block_at win_ops ops w.win_blocks j) (valid j)
            refl).0 in
      let there : slice (block_size * i) block_size s'.file.bytes ≡ marshal_binary b =
        flush-writes win_ops ops (windows_of w) s' win_ops-IsBlockOps laws full_all small fresh ran
          i takes changed in
      ap (λ f. read_window_block f (win_block_offset i)) file
      ∙ ap (read_window_block s'.file) (offset_exact i (small i changed.0))
      ∙ read_window_block-slice s'.file (block_size * i) (marshal_binary b) there full
      ∙ back
