-- ===== src/Window/Writer/Chain.antt =====
-- time_window_writer.go: the blocks of a topic, each linked to the one before it.
use unitdb.Prelude.{
  ℕ, zero, suc, ◌+◌, ◌*◌, ◌%◌, ◌^◌, ◌≡◌, ◌<◌, ◌≤◌, refl, inl, inr, sym, ap, ◌∙◌, true, Option, none,
  some, List, [], ◌∷◌, ◌++◌, ◌==◌, if◌then◌else◌, ◌>>=◌, length, set, take, length-set,
  length-replicate, lt→ltb, append_assoc, append-nil, Bool-cases, Option-cases, arith,
}
use unitdb.Prelude.Maps.{Map, find, insert, find-insert_self, find-insert_ne}
use unitdb.Block.{block_size}
use unitdb.Window.{WinEntry, WinBlock, no_win_entry, entries_per_window_block}
use unitdb.Window.Writer.{Cursor, win_block_offset, next_block, lease, put_entry}

-- The entries that a block holds.
unfoldable pub held : WinBlock → List WinEntry
held b = take b.entry_idx b.entries

-- The block at an index: that of the writer, or what `base` gives.
unfoldable pub over : (ℕ → Option WinBlock) → Map WinBlock → ℕ → Option WinBlock
unfolding find
over base blocks i = elim (find blocks i) [ none ↦ base i | some b ↦ some b ]

-- The blocks of a topic from index `i` on, back along the links, hold these entries, the oldest
-- first. Each has the hash of the topic, and a link of 0 ends the chain.
pub data Chain (look : ℕ → Option WinBlock) (topic_hash : ℕ) : ℕ → List WinEntry → Type 0 where
  last :
      {i : ℕ} {es : List WinEntry} (b : WinBlock)
      → look i ≡ some b
      → b.topic_hash ≡ topic_hash
      → b.next ≡ 0
      → es ≡ held b
      → Chain look topic_hash i es
  link :
      {i : ℕ} {es : List WinEntry} (b : WinBlock) (j : ℕ) (before : List WinEntry)
      → look i ≡ some b
      → b.topic_hash ≡ topic_hash
      → b.next ≡ block_size * j
      → 0 < j
      → j < i
      → Chain look topic_hash j before
      → es ≡ before ++ held b
      → Chain look topic_hash i es

-- The same with a block at `i` that is not stored yet.
pub data Open (look : ℕ → Option WinBlock) (topic_hash i : ℕ) (b : WinBlock) (es : List WinEntry)
    : Type 0 where
  sole : b.topic_hash ≡ topic_hash → b.next ≡ 0 → es ≡ held b → Open look topic_hash i b es
  linked :
      (j : ℕ) (before : List WinEntry)
      → b.topic_hash ≡ topic_hash
      → b.next ≡ block_size * j
      → 0 < j
      → j < i
      → Chain look topic_hash j before
      → es ≡ before ++ held b
      → Open look topic_hash i b es

Open-hash :
    (look : ℕ → Option WinBlock) (topic_hash i : ℕ) (b : WinBlock) (es : List WinEntry)
    → Open look topic_hash i b es
    → b.topic_hash ≡ topic_hash
Open-hash look topic_hash i b es (sole t n eq) = t
Open-hash look topic_hash i b es (linked j before t n pos lt c eq) = t

pub over_found :
    (base : ℕ → Option WinBlock) (blocks : Map WinBlock) (i : ℕ) (b : WinBlock)
    → find blocks i ≡ some b
    → over base blocks i ≡ some b
unfolding over
over_found base blocks i b e = rw (over, e)

pub over_missing :
    (base : ℕ → Option WinBlock) (blocks : Map WinBlock) (i : ℕ)
    → find blocks i ≡ none
    → over base blocks i ≡ base i
unfolding over
over_missing base blocks i e = rw (over, e)

-- With no block but the writer's.
pub over-find : (blocks : Map WinBlock) → over (λ i. none) blocks ≡ find blocks
unfolding over
over-find blocks = λ k i. here i k
  where
    here : (i : ℕ) → over (λ j. none) blocks i ≡ find blocks i
    here i = elim (Option-cases (find blocks i)) [
      | inl e ↦ rw (over, e)
      | inr (b, e) ↦ rw (over, e)
    ]

module _ (base : ℕ → Option WinBlock) (topic_hash : ℕ) where
  over-insert_self :
      (blocks : Map WinBlock) (i : ℕ) (v : WinBlock) → over base (insert blocks i v) i ≡ some v
  unfolding over
  over-insert_self blocks i v = rw (over, find-insert_self blocks i v)

  over-insert_above :
      (blocks : Map WinBlock) (i j : ℕ) (v : WinBlock)
      → j < i
      → over base (insert blocks i v) j ≡ over base blocks j
  unfolding over
  over-insert_above blocks i j v h =
      ap (λ found. elim found [ none ↦ base j | some b ↦ some b ])
        (find-insert_ne blocks i j v (ground arith))

  -- A block above a chain is not in it.
  Chain-insert :
      (blocks : Map WinBlock) (i k : ℕ) (v : WinBlock) (es : List WinEntry)
      → i < k
      → Chain (over base blocks) topic_hash i es
      → Chain (over base (insert blocks k v)) topic_hash i es
  Chain-insert blocks i k v es h (last b e t n eq) =
      last b (over-insert_above blocks k i v h ∙ e) t n eq
  Chain-insert blocks i k v es h (link b j before e t n pos lt c eq) =
      link b j before (over-insert_above blocks k i v h ∙ e) t n pos lt
        (Chain-insert blocks j k v before (omega arith) c) eq

  pub Chain-stored :
      (blocks : Map WinBlock) (i : ℕ) (b : WinBlock) (es : List WinEntry)
      → Open (over base blocks) topic_hash i b es
      → Chain (over base (insert blocks i b)) topic_hash i es
  Chain-stored blocks i b es (sole t n eq) = last b (over-insert_self blocks i b) t n eq
  Chain-stored blocks i b es (linked j before t n pos lt c eq) =
      link b j before (over-insert_self blocks i b) t n pos lt
        (Chain-insert blocks j i b before lt c) eq

  -- The writer's state in the loop: the entries so far are in the chain of the block.
  pub record Holds {Buf : Type 0} (c : Cursor Buf) (es : List WinEntry) : Type 0 where
    pub chain : Open (over base c.writer.win_blocks) topic_hash c.idx c.block es
    pub pos : 0 < c.idx
    pub below : c.idx ≤ c.writer.window_idx
    pub full : length c.block.entries ≡ entries_per_window_block
    pub count : c.block.entry_idx ≤ entries_per_window_block

Open-cutoff :
    (look : ℕ → Option WinBlock) (topic_hash i : ℕ) (b : WinBlock) (es : List WinEntry) (now : ℕ)
    → Open look topic_hash i b es
    → Open look topic_hash i (record b { cutoff_time = now }) es
unfolding held
Open-cutoff look topic_hash i b es now (sole t n eq) = sole t n eq
Open-cutoff look topic_hash i b es now (linked j before t n pos lt c eq) =
    linked j before t n pos lt c eq

pub offset_exact : (i : ℕ) → i < 2 ^ 19 → win_block_offset i ≡ block_size * i
unfolding win_block_offset
offset_exact i h = ground arith

pub next_block-Holds :
    {Buf : Type 0} (base : ℕ → Option WinBlock) (topic_hash now : ℕ) (c : Cursor Buf)
    (es : List WinEntry)
    → Holds base topic_hash c es
    → c.writer.window_idx + 1 < 2 ^ 19
    → Holds base topic_hash (next_block now c) es
      × ((next_block now c).block.entry_idx < entries_per_window_block)
      × ((next_block now c).writer.window_idx ≤ c.writer.window_idx + 1)
unfolding next_block held
next_block-Holds base topic_hash now c es h room =
    elim (Bool-cases (c.block.entry_idx == entries_per_window_block)) [
      | inr e ↦ rw (next_block, e) (h, ground arith, omega arith)
      | inl e ↦
          rw (next_block, e)
            (
              record {
                chain =
                    linked c.idx es
                      (Open-hash (over base c.writer.win_blocks) topic_hash c.idx c.block es
                        h.chain)
                      (offset_exact c.idx (omega arith)) h.pos (omega (arith, h.below))
                      (Chain-stored base topic_hash c.writer.win_blocks c.idx
                        (record c.block { cutoff_time = now }) es
                        (Open-cutoff (over base c.writer.win_blocks) topic_hash c.idx c.block es now
                          h.chain))
                      (sym (append-nil es));
                pos = omega arith;
                below = omega arith;
                full = length-replicate entries_per_window_block no_win_entry;
                count = omega arith;
              },
              omega arith,
              omega arith,
            )
    ]

take-set :
    (n : ℕ) (e : WinEntry) (xs : List WinEntry)
    → n < length xs
    → take (suc n) (set xs n e) ≡ take n xs ++ e ∷ []
take-set n e [] h = absurd (omega arith)
take-set zero e (x ∷ xs) h = refl
take-set (suc n) e (x ∷ xs) h = ap (λ l. x ∷ l) (take-set n e xs (omega arith))

Open-put :
    (look : ℕ → Option WinBlock) (topic_hash i : ℕ) (b b' : WinBlock) (es : List WinEntry)
    (e : WinEntry)
    → Open look topic_hash i b es
    → b'.topic_hash ≡ b.topic_hash
    → b'.next ≡ b.next
    → held b' ≡ held b ++ e ∷ []
    → Open look topic_hash i b' (es ++ e ∷ [])
Open-put look topic_hash i b b' es e (sole t n eq) topic same more =
    sole (topic ∙ t) (same ∙ n) (ap (λ l. l ++ e ∷ []) eq ∙ sym more)
Open-put look topic_hash i b b' es e (linked j before t n pos lt c eq) topic same more =
    linked j before (topic ∙ t) (same ∙ n) pos lt c (
      ap (λ l. l ++ e ∷ []) eq
      ∙ append_assoc before (held b) (e ∷ [])
      ∙ ap (λ l. before ++ l) (sym more))

pub put_entry-Holds :
    {Buf : Type 0} (base : ℕ → Option WinBlock) (topic_hash : ℕ) (e : WinEntry) (c : Cursor Buf)
    (es : List WinEntry)
    → Holds base topic_hash c es
    → c.block.entry_idx < entries_per_window_block
    → (c' : Cursor Buf) × (put_entry e c ≡ some c')
      × Holds base topic_hash c' (es ++ e ∷ [])
      × ((c'.writer.window_idx ≡ c.writer.window_idx) × (c'.writer.win_file ≡ c.writer.win_file))
unfolding put_entry held
put_entry-Holds base topic_hash e c es h room =
    let b = record c.block {
      entries = set c.block.entries c.block.entry_idx e;
      dirty = true;
      entry_idx = (c.block.entry_idx + 1) % 2 ^ 16;
    } in
    let next_idx : (c.block.entry_idx + 1) % 2 ^ 16 ≡ suc c.block.entry_idx = omega arith in
    let inside : c.block.entry_idx < length c.block.entries = omega (arith, h.full) in
    (
      record c { block = b },
      rw (lt→ltb _ _ inside, ◌>>=◌),
      record {
        chain =
            Open-put (over base c.writer.win_blocks) topic_hash c.idx c.block b es e h.chain refl
              refl
              (ap (λ n. take n b.entries) next_idx
                ∙ take-set c.block.entry_idx e c.block.entries inside);
        pos = h.pos;
        below = h.below;
        full = length-set c.block.entries c.block.entry_idx e ∙ h.full;
        count = omega arith;
      },
      (refl, refl),
    )

pub lease-Holds :
    {Buf : Type 0} (base : ℕ → Option WinBlock) (topic_hash seq : ℕ) (c : Cursor Buf)
    (es : List WinEntry)
    → Holds base topic_hash c es
    → Holds base topic_hash (lease seq c) es
unfolding lease
lease-Holds base topic_hash seq c es h = record {
  chain = h.chain;
  pos = h.pos;
  below = h.below;
  full = h.full;
  count = h.count;
}

-- The entries with a sequence; the others are skipped.
unfoldable pub live : List WinEntry → List WinEntry
live [] = []
live (e ∷ es) = let rest = live es in if e.sequence == 0 then rest else e ∷ rest
