-- ===== src/Window/Writer/Append.antt =====
-- time_window_writer.go: what an append leaves in the chain of a topic's blocks.
use unitdb.Prelude.{
  ℕ, ◌+◌, ◌*◌, ◌/◌, ◌%◌, ◌^◌, ◌≡◌, ◌<◌, ◌≤◌, refl, inl, inr, sym, ap, ◌∙◌, true, false, Option,
  none, some, take, List, [], ◌∷◌, ◌++◌, ◌==◌, ◌>>=◌, length, append_assoc, append-nil, Bool-cases,
  Option-cases, length-replicate, arith,
}
use mathlib.Core.Path.{subst}
use unitdb.Prelude.Maps.{find, insert}
use unitdb.Block.{block_size}
use unitdb.Window.{WinEntry, WinBlock, no_win_block, no_win_entry, entries_per_window_block}
use unitdb.Window.Writer.{
  WindowWriter, Cursor, next_block, lease, append_entries, start_block, or_new, leb_int32,
  read_window_block, append,
}
use unitdb.Window.Writer.Chain.{
  held, over, over_found, over_missing, over-find, Chain, last, link, Open, sole, linked,
  Chain-stored, Holds, offset_exact, next_block-Holds, put_entry-Holds, lease-Holds, live,
}

live_skip : (e : WinEntry) (es : List WinEntry) → (e.sequence == 0) ≡ true → live (e ∷ es) ≡ live es
unfolding live
live_skip e es h = rw (live, h)

live_keep :
    (e : WinEntry) (es : List WinEntry) → (e.sequence == 0) ≡ false → live (e ∷ es) ≡ e ∷ live es
unfolding live
live_keep e es h = rw (live, h)

-- The loop does not touch the window file.
win_file-next_block :
    {Buf : Type 0} (now : ℕ) (c : Cursor Buf)
    → (next_block now c).writer.win_file ≡ c.writer.win_file
unfolding next_block
win_file-next_block now c = elim (Bool-cases (c.block.entry_idx == entries_per_window_block)) [
  | inl e ↦ rw (next_block, e)
  | inr e ↦ rw (next_block, e)
]

append_entries-Holds :
    {Buf : Type 0} (base : ℕ → Option WinBlock) (topic_hash now : ℕ) (es acc : List WinEntry)
    (c : Cursor Buf)
    → Holds base topic_hash c acc
    → c.writer.window_idx + length es < 2 ^ 19
    → (c' : Cursor Buf) × (append_entries now es c ≡ some c')
      × Holds base topic_hash c' (acc ++ live es)
      × (c'.writer.window_idx ≤ c.writer.window_idx + length es)
      × (c'.writer.win_file ≡ c.writer.win_file)
unfolding append_entries live lease
append_entries-Holds base topic_hash now [] acc c h room =
    (c, refl, subst (Holds base topic_hash c) (sym (append-nil acc)) h, omega arith, refl)
append_entries-Holds base topic_hash now (e ∷ es) acc c h room =
    elim (Bool-cases (e.sequence == 0)) [
      | inl skip ↦
          let (c', eq, h', le, same) =
            append_entries-Holds base topic_hash now es acc c h (omega arith) in
          (
            c',
            rw (append_entries, skip) eq,
            subst (λ l. Holds base topic_hash c' (acc ++ l)) (sym (live_skip e es skip)) h',
            omega arith,
            same,
          )
      | inr keep ↦
          let (h₁, lt₁, le₁) = next_block-Holds base topic_hash now c acc h (omega arith) in
          let c₁ = lease e.sequence (next_block now c) in
          let (c₂, eq₂, h₂, (same₂, file₂)) =
            put_entry-Holds base topic_hash e c₁ acc
              (lease-Holds base topic_hash e.sequence (next_block now c) acc h₁) lt₁ in
          let (c', eq, h', le, file) =
            append_entries-Holds base topic_hash now es (acc ++ e ∷ []) c₂ h₂
              (omega (arith, same₂, le₁)) in
          (
            c',
            rw (append_entries, keep, eq₂, ◌>>=◌) eq,
            subst (Holds base topic_hash c')
                (append_assoc acc (e ∷ []) (live es)
                  ∙ ap (λ l. acc ++ l) (sym (live_keep e es keep)))
                h',
            omega (arith, same₂, le₁, le),
            file ∙ file₂ ∙ win_file-next_block now c,
          )
    ]

-- A block that is opened with the same link and entries, of another mark.
Open-Chain :
    (look : ℕ → Option WinBlock) (topic_hash i : ℕ) (b b' : WinBlock) (acc : List WinEntry)
    → Chain look topic_hash i acc
    → look i ≡ some b
    → b'.next ≡ b.next
    → held b' ≡ held b
    → Open look topic_hash i (record b' { topic_hash = topic_hash }) acc
unfolding held
Open-Chain look topic_hash i b b' acc (last b₁ e t n eq) here next same_held =
    let same : b₁ ≡ b = cc (e, here) in
    sole refl (next ∙ sym (ap (λ x. x.next) same) ∙ n) (eq ∙ ap held same ∙ sym same_held)
Open-Chain look topic_hash i b b' acc (link b₁ j before e t n pos lt c eq) here next same_held =
    let same : b₁ ≡ b = cc (e, here) in
    linked j before refl (next ∙ sym (ap (λ x. x.next) same) ∙ n) pos lt c
      (eq ∙ ap (λ x. before ++ x) (ap held same ∙ sym same_held))

-- What an append gives where the loop starts with a block that holds `acc`.
append_from :
    {Buf : Type 0} (base : ℕ → Option WinBlock) (w : WindowWriter Buf) (topic_hash off : ℕ)
    (es acc : List WinEntry) (now : ℕ) (start : Cursor Buf)
    → start_block w off ≡ some start
    → Holds base topic_hash
        (record start { block = record start.block { topic_hash = topic_hash } })
        acc
    → start.writer.window_idx + length es < 2 ^ 19
    → (w' : WindowWriter Buf) × (i' : ℕ) × (append w topic_hash off es now
        ≡ some (w', block_size * i'))
      × Chain (over base w'.win_blocks) topic_hash i' (acc ++ live es)
      × (0 < i')
      × (w'.win_file ≡ start.writer.win_file)
unfolding append
append_from base w topic_hash off es acc now start found h room =
    let opened = record start { block = record start.block { topic_hash = topic_hash } } in
    let (c, eq, h', le, file) = append_entries-Holds base topic_hash now es acc opened h room in
    (
      record c.writer { win_blocks = insert c.writer.win_blocks c.idx c.block },
      c.idx,
      rw (found, ◌>>=◌, eq, ◌>>=◌)
          (ap
            (λ k.
              some (record c.writer { win_blocks = insert c.writer.win_blocks c.idx c.block }, k))
            (offset_exact c.idx (omega (arith, h'.below, le, room)))),
      Chain-stored base topic_hash c.writer.win_blocks c.idx c.block (acc ++ live es) h'.chain,
      h'.pos,
      file,
    )

-- The block at an index, from the writer, or else from the window file.
abbrev pub stored_at : {Buf : Type 0} → WindowWriter Buf → ℕ → Option WinBlock
stored_at w = over (λ i. read_window_block w.win_file (block_size * i)) w.win_blocks

known_idx : (i n : ℕ) → i ≤ n → n < 2 ^ 19 → leb_int32 i n ≡ true
unfolding leb_int32
known_idx i n below room = ground arith

-- An append starts with the block that the writer or the file has: the same but for its mark.
start_block-stored :
    {Buf : Type 0} (w : WindowWriter Buf) (i : ℕ) (b : WinBlock)
    → stored_at w i ≡ some b
    → 0 < i
    → i ≤ w.window_idx
    → w.window_idx < 2 ^ 19
    → (b' : WinBlock) × (start_block w (block_size * i)
        ≡ some (record { writer = w; block = b'; idx = i }))
      × (b'.next ≡ b.next)
      × (b'.entries ≡ b.entries)
      × (b'.entry_idx ≡ b.entry_idx)
unfolding start_block over
start_block-stored w i b here pos below room =
    let away : (block_size * i == 0) ≡ false = ground arith in
    let idx_of : block_size * i / block_size % 2 ^ 32 ≡ i = omega arith in
    let known : leb_int32 (block_size * i / block_size % 2 ^ 32) w.window_idx ≡ true =
      ap (λ k. leb_int32 k w.window_idx) idx_of ∙ known_idx i w.window_idx below room in
    elim (Option-cases (find w.win_blocks i)) [
      | inr (b₁, e) ↦
          let same : b₁ ≡ b = cc (
            here,
            over_found (λ j. read_window_block w.win_file (block_size * j)) w.win_blocks i b₁ e,
          ) in
          (b, rw (away, idx_of, e, idx_of, same), refl, refl, refl)
      | inl e ↦
          let opened : read_window_block w.win_file (block_size * i) ≡ some b =
            sym (over_missing (λ j. read_window_block w.win_file (block_size * j)) w.win_blocks i e)
            ∙ here in
          (
            record b { leased = true },
            rw (away, idx_of, e, known, opened, idx_of),
            refl,
            refl,
            refl,
          )
    ]

-- An append to a topic whose latest block, at index `i` above 0, the writer or the window file has
-- puts the entries that have a sequence behind those of the topic's chain, in order, over as many
-- new blocks as it takes, all under the topic's hash; the offset that it gives is where the chain now
-- starts. The blocks of the chain may be in the writer or in the file. The block is an array of 335
-- entries, and the blocks stay below index 2 ^ 19.
pub append-Chain :
    {Buf : Type 0} (w : WindowWriter Buf) (topic_hash i : ℕ) (b : WinBlock) (es acc : List WinEntry)
    (now : ℕ)
    → stored_at w i ≡ some b
    → Chain (stored_at w) topic_hash i acc
    → length b.entries ≡ entries_per_window_block
    → b.entry_idx ≤ entries_per_window_block
    → 0 < i
    → i ≤ w.window_idx
    → w.window_idx + length es < 2 ^ 19
    → (w' : WindowWriter Buf) × (i' : ℕ) × (append w topic_hash (block_size * i) es now
        ≡ some (w', block_size * i'))
      × Chain (stored_at w') topic_hash i' (acc ++ live es)
      × (0 < i')
unfolding held
append-Chain w topic_hash i b es acc now here chain full count pos below room =
    let base : ℕ → Option WinBlock = λ j. read_window_block w.win_file (block_size * j) in
    let (b', start, next, same, number) = start_block-stored w i b here pos below (omega arith) in
    let (w', i', run, chain', pos', file) =
      append_from base w topic_hash (block_size * i) es acc now
        (record { writer = w; block = b'; idx = i }) start
        (record {
          chain =
              Open-Chain (stored_at w) topic_hash i b b' acc chain here next
                (ap (λ n. take n b'.entries) number ∙ ap (take b.entry_idx) same);
          pos = pos;
          below = below;
          full = ap length same ∙ full;
          count = omega (arith, number);
        })
        room in
    (
      w',
      i',
      run,
      subst
          (λ f.
            Chain (over (λ j. read_window_block f (block_size * j)) w'.win_blocks) topic_hash i'
              (acc ++ live es))
          (sym file) chain',
      pos',
    )

-- An append to a new topic starts a chain of its own with the entries that have a sequence, in
-- order, under the topic's hash and in the writer. The new block is not the first of the file, nor in
-- the writer, and the blocks stay below index 2 ^ 19.
pub append-new :
    {Buf : Type 0} (w : WindowWriter Buf) (topic_hash : ℕ) (es : List WinEntry) (now : ℕ)
    → find w.win_blocks (w.window_idx + 1) ≡ none
    → w.window_idx + 1 + length es < 2 ^ 19
    → (w' : WindowWriter Buf) × (i' : ℕ) × (append w topic_hash 0 es now
        ≡ some (w', block_size * i'))
      × Chain (find w'.win_blocks) topic_hash i' (live es)
      × (0 < i')
unfolding start_block held or_new
append-new w topic_hash es now fresh room =
    let (w', i', run, chain, pos, _) =
      append_from (λ i. none) w topic_hash 0 es [] now
        (record {
          writer = record w { window_idx = w.window_idx + 1 };
          block = no_win_block;
          idx = w.window_idx + 1;
        })
        (rw (small, fresh))
        (record {
          chain = sole refl refl refl;
          pos = omega arith;
          below = omega arith;
          full = length-replicate entries_per_window_block no_win_entry;
          count = omega arith;
        })
        room in
    (
      w',
      i',
      run,
      subst (λ look. Chain look topic_hash i' (live es)) (over-find w'.win_blocks) chain,
      pos,
    )
  where
    small : (w.window_idx + 1) % 2 ^ 32 ≡ w.window_idx + 1
    small = omega arith
