-- ===== src/BlockWriter/Append.antt =====
-- block_writer.go: what an append leaves in the index block and among the messages.
use unitdb.Prelude.{
  ℕ, zero, suc, ◌+◌, ◌%◌, ◌^◌, ◌≡◌, ◌<◌, ◌≤◌, ◌⊎◌, inl, inr, refl, sym, ap, ◌∙◌, true, false,
  Option, none, some, List, [], ◌∷◌, ◌==◌, if◌then◌else◌, ◌>>=◌, length, set, slice, overwrite,
  slice-overwrite_self, All, Bool-cases, lt→ltb, ==_refl, ==_iff, arith,
}
use unitdb.Prelude.Maps.{find, insert, find-insert_self}
use unitdb.Block.{IndexEntry, IndexBlock, block_index, validation, first_seq}
use unitdb.Lease.Account.{free_at}
use unitdb.BlockRange.{range}
use unitdb.Buffer.{Buffer, IsBuffer}
use unitdb.BlockReader.{scan}
use unitdb.BlockWriter.{BlockWriter, open_block, place, put_entry, append_new, append, message}
use unitdb.BlockWriter.Place.{pending, IsReady, place-Places}

-- What a round of the loop makes of the rounds behind it.
abbrev later : Option (Option ℕ) → Option (Option ℕ)
later rest = rest >>= λ found. some (found >>= λ i. some (suc i))

later_miss : (rest : Option (Option ℕ)) → later rest ≡ some none → rest ≡ some none
later_miss none h = cc (h)
later_miss (some none) h = refl
later_miss (some (some i)) h = cc (h)

scan_next :
    (n seq : ℕ) (e : IndexEntry) (es : List IndexEntry)
    → (e.seq == seq) ≡ false
    → scan (suc n) seq (e ∷ es) ≡ later (scan n seq es)
unfolding scan
scan_next n seq e es h = rw (scan, h)

scan_hit :
    (n seq : ℕ) (e : IndexEntry) (es : List IndexEntry)
    → (e.seq == seq) ≡ true
    → scan (suc n) seq (e ∷ es) ≡ some (some 0)
unfolding scan
scan_hit n seq e es h = rw (scan, h)

scan_miss :
    (n seq : ℕ) (e : IndexEntry) (es : List IndexEntry)
    → scan (suc n) seq (e ∷ es) ≡ some none
    → ((e.seq == seq) ≡ false) × (scan n seq es ≡ some none)
scan_miss n seq e es h = elim (Bool-cases (e.seq == seq)) [
  | inl b ↦ cc (h, scan_hit n seq e es b)
  | inr b ↦ (b, later_miss (scan n seq es) (sym (scan_next n seq e es b) ∙ h))
]

scan-set :
    (n seq : ℕ) (es : List IndexEntry) (e : IndexEntry)
    → scan n seq es ≡ some none
    → n < length es
    → e.seq ≡ seq
    → scan (suc n) seq (set es n e) ≡ some (some n)
scan-set n seq [] e h lt same = absurd (omega arith)
scan-set zero seq (x ∷ es) e h lt same = scan_hit 0 seq e es ((==_iff e.seq seq).1 same)
scan-set (suc n) seq (x ∷ es) e h lt same =
    let (ne, rest) = scan_miss n seq x es h in
    scan_next (suc n) seq x (set es n e) ne ∙ ap later (scan-set n seq es e rest (omega arith) same)

-- The block's first sequence is in the block's range, or the block is empty.
abbrev pub IsOwn : ℕ → IndexBlock → Type 0
IsOwn i b = (b.entry_idx ≡ 0) ⊎ (validation b i ≡ true)

first-set :
    (n : ℕ) (es : List IndexEntry) (e : IndexEntry)
    → n < length es
    → first_seq (set es n e) ≡ (if n == 0 then e.seq else first_seq es)
first-set n [] e h = absurd (omega arith)
first-set zero (x ∷ es) e h = refl
first-set (suc n) (x ∷ es) e h = ground arith

-- The block with an entry behind its others.
abbrev pub with_entry : IndexBlock → IndexEntry → IndexBlock
with_entry b e = record b {
  entries = set b.entries b.entry_idx e;
  dirty = true;
  entry_idx = (b.entry_idx + 1) % 2 ^ 16;
}

validation-with_entry :
    (b : IndexBlock) (e : IndexEntry)
    → IsOwn (block_index e.seq) b
    → b.entry_idx < length b.entries
    → validation (with_entry b e) (block_index e.seq) ≡ true
unfolding validation
validation-with_entry b e (inl empty) h =
    rw (first-set b.entry_idx b.entries e h, empty, ==_refl (block_index e.seq))
validation-with_entry b e (inr own) h = elim (Bool-cases (b.entry_idx == 0)) [
  | inl z ↦ rw (first-set b.entry_idx b.entries e h, z, ==_refl (block_index e.seq))
  | inr nz ↦ rw (first-set b.entry_idx b.entries e h, nz) own
]

module _ {Buf : Type 0} (ops : Buffer Buf) where
  put_entry_ok :
      (w : BlockWriter Buf) (i : ℕ) (b : IndexBlock) (e : IndexEntry)
      → b.entry_idx < length b.entries
      → validation (with_entry b e) i ≡ true
      → put_entry ops w i b e
        ≡ some (
          record w {
            index_leases = if b.leased then e.seq ∷ w.index_leases else w.index_leases;
            index_blocks = insert w.index_blocks i (with_entry b e);
          },
          none,
        )
  unfolding put_entry
  put_entry_ok w i b e h own = rw (put_entry, lt→ltb _ _ h, ◌>>=◌, own)

  append_new_ok :
      (w w' w'' : BlockWriter Buf) (i off : ℕ) (b : IndexBlock) (e : IndexEntry) (d : List ℕ)
      → 1 ≤ length d
      → place ops w d ≡ some (w', some off)
      → put_entry ops w' i b (record e { msg_offset = off }) ≡ some (w'', none)
      → append_new ops w i b e d ≡ some (w'', none)
  unfolding append_new
  append_new_ok w w' w'' i off b e d pos placed put =
      let given : (length d == 0) ≡ false = ground arith in
      rw (append_new, given, placed, ◌>>=◌) put

  append_fresh :
      (w : BlockWriter Buf) (e : IndexEntry) (b : IndexBlock)
      → 1 ≤ e.seq
      → open_block ops w (block_index e.seq) ≡ some b
      → scan b.entry_idx e.seq b.entries ≡ some none
      → append ops w e ≡ append_new ops w (block_index e.seq) b e (message e)
  unfolding append
  append_fresh w e b pos opened fresh =
      let given : (e.seq == 0) ≡ false = ground arith in
      rw (append, given, ◌>>=◌, opened, fresh, ◌>>=◌)

All-range :
    (P : ℕ → Type 0) (off n : ℕ) → ((x : ℕ) → off ≤ x → x < off + n → P x) → All P (range off n)
unfolding range
All-range P off zero h = tt
All-range P off (suc n) h = (
  h off (omega arith) (omega arith),
  All-range P (off + 1) n (λ x lo hi. h x (omega arith) (omega arith)),
)

-- The entry of `e` stands in its block, its message can be read at its offset, and the messages are
-- overwritten there and nowhere else.
pub record Stores {Buf : Type 0} (ops : Buffer Buf) (w : BlockWriter Buf) (b : IndexBlock)
    (e : IndexEntry) (w' : BlockWriter Buf) : Type 0 where
  pub off : ℕ
  pub block :
      find w'.index_blocks (block_index e.seq) ≡ some (with_entry b (record e { msg_offset = off }))
  pub entry :
      scan (suc b.entry_idx) e.seq (with_entry b (record e { msg_offset = off })).entries
      ≡ some (some b.entry_idx)
  pub message_at : slice off (length (message e)) (pending ops w') ≡ message e
  pub messages : pending ops w' ≡ overwrite (pending ops w) off (message e)
  pub free_space :
      All (λ x. 1 ≤ free_at x w.lease.blocks) (range off (length (message e)))
      ⊎ (off ≡ length (pending ops w))
  pub ready : IsReady ops w'

module _ {Buf : Type 0} (ops : Buffer Buf) (laws : IsBuffer ops) where
  -- An append of a new sequence ends without an error, where the block has room and the buffer
  -- too: the entry is in its block and its message can be read at its offset, which was free space
  -- or the end of the messages, and no other byte of the messages changes.
  pub append-Stores :
      (w : BlockWriter Buf) (e : IndexEntry) (b : IndexBlock) (k : ℕ) (grown : Buf)
      → IsReady ops w
      → 1 ≤ e.seq
      → open_block ops w (block_index e.seq) ≡ some b
      → scan b.entry_idx e.seq b.entries ≡ some none
      → b.entry_idx < length b.entries
      → IsOwn (block_index e.seq) b
      → 1 ≤ length (message e)
      → length (message e) < 2 ^ 32
      → w.offset + length (message e) < 2 ^ 63
      → ops.extend w.buffer (length (message e)) ≡ some (k, grown)
      → (w' : BlockWriter Buf) × (append ops w e ≡ some (w', none)) × Stores ops w b e w'
  append-Stores w e b k grown v pos opened fresh space own some_bytes small room ext =
      let (w₁, off, placed, p) =
        place-Places ops laws w (message e) v some_bytes small room k grown ext in
      let e' = record e { msg_offset = off } in
      let leases = if b.leased then e.seq ∷ w₁.index_leases else w₁.index_leases in
      let blocks = insert w₁.index_blocks (block_index e.seq) (with_entry b e') in
      let w₂ = record w₁ { index_leases = leases; index_blocks = blocks } in
      (
        w₂,
        append_fresh ops w e b pos opened fresh
            ∙ append_new_ok ops w w₁ w₂ (block_index e.seq) off b e (message e) some_bytes placed (
                put_entry_ok ops w₁ (block_index e.seq) b e' space
                  (validation-with_entry b e' own space)),
        record {
          off = off;
          block = find-insert_self w₁.index_blocks (block_index e.seq) (with_entry b e');
          entry = scan-set b.entry_idx e.seq b.entries e' fresh space refl;
          message_at =
              ap (slice off (length (message e))) p.messages
              ∙ slice-overwrite_self (pending ops w) off (message e);
          messages = p.messages;
          free_space = elim p.free_space [
            | inl free ↦
                inl (All-range (λ x. 1 ≤ free_at x w.lease.blocks) off (length (message e)) free)
            | inr end ↦ inr end
          ];
          ready = record {
            lease = p.ready.lease;
            size = p.ready.size;
            offset = p.ready.offset;
            inside = p.ready.inside;
          };
        },
      )
