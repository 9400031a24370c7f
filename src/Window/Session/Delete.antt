-- ===== src/Window/Session/Delete.antt =====
-- time_window_writer.go: what a deletion leaves of a block.
use mathlib.Core.Path.{subst}
use unitdb.Prelude.{
  inl, inr, true, false, Bool-cases, ==_iff, ℕ, zero, suc, ◌+◌, ◌-◌, ◌%◌, ◌^◌, ◌≡◌, ◌<◌, ◌≤◌, refl,
  sym, ap, ◌∙◌, Option, none, some, List, All, [], ◌∷◌, ◌++◌, ◌==◌, ◌>>=◌, length, set, take, drop,
  arith,
}
use unitdb.Prelude.Maps.{find, insert, find-insert_self}
use unitdb.Block.{entries_per_index_block}
use unitdb.Window.{WinEntry, WinBlock, no_win_entry}
use unitdb.Window.Writer.{WindowWriter, read_window_block, win_block_offset}
use unitdb.Window.Writer.Chain.{held}
use unitdb.Window.Session.{scan_entries, entry_at, shift, without, del}

shift_behind :
    (n i : ℕ) (e : WinEntry) (es : List WinEntry) → shift n (suc i) (e ∷ es) ≡ e ∷ shift n i es
unfolding shift entry_at
shift_behind zero i e es = refl
shift_behind (suc n) i e es = shift_behind n (suc i) e (set es i (entry_at es (suc i)))

shift_front :
    (n : ℕ) (e : WinEntry) (es : List WinEntry)
    → n ≤ length es
    → shift n 0 (e ∷ es) ≡ take n es ++ no_win_entry ∷ drop n es
unfolding shift entry_at
shift_front zero e es h = refl
shift_front (suc n) e [] h = absurd (omega arith)
shift_front (suc n) e (x ∷ es) h =
    shift_behind n 0 x (x ∷ es) ∙ ap (λ l. x ∷ l) (shift_front n x es (omega arith))

take_inside :
    (m n : ℕ) (xs ys : List WinEntry) → m ≤ n → n ≤ length xs → take m (take n xs ++ ys) ≡ take m xs
take_inside zero n xs ys h h' = refl
take_inside (suc m) zero xs ys h h' = absurd (omega arith)
take_inside (suc m) (suc n) [] ys h h' = absurd (omega arith)
take_inside (suc m) (suc n) (x ∷ xs) ys h h' =
    ap (λ l. x ∷ l) (take_inside m n xs ys (omega arith) (omega arith))

take-shift :
    (k m n : ℕ) (es : List WinEntry)
    → k ≤ m
    → m ≤ k + n
    → k + n < length es
    → take m (shift n k es) ≡ take k es ++ drop (suc k) (take (suc m) es)
take-shift k m n [] h h' inside = absurd (omega arith)
take-shift zero m n (e ∷ es) h h' inside =
    ap (take m) (shift_front n e es (omega arith))
    ∙ take_inside m n es (no_win_entry ∷ drop n es) (omega arith) (omega arith)
take-shift (suc k) zero n (e ∷ es) h h' inside = absurd (omega arith)
take-shift (suc k) (suc m) n (e ∷ es) h h' inside =
    ap (take (suc m)) (shift_behind n k e es)
    ∙ ap (λ l. e ∷ l) (take-shift k m n es (omega arith) (omega arith) (omega arith))

take-take : (k n : ℕ) (es : List WinEntry) → k ≤ n → take k (take n es) ≡ take k es
take-take zero n es h = refl
take-take (suc k) zero es h = absurd (omega arith)
take-take (suc k) (suc n) [] h = refl
take-take (suc k) (suc n) (e ∷ es) h = ap (λ l. e ∷ l) (take-take k n es (omega arith))

length-take_in : (n : ℕ) (es : List WinEntry) → n ≤ length es → length (take n es) ≡ n
length-take_in zero es h = refl
length-take_in (suc n) [] h = absurd (omega arith)
length-take_in (suc n) (e ∷ es) h = ap suc (length-take_in n es (omega arith))

held-without :
    (b : WinBlock) (k : ℕ)
    → k < b.entry_idx
    → b.entry_idx ≤ entries_per_index_block
    → entries_per_index_block ≤ length b.entries
    → held (without b k) ≡ take k (held b) ++ drop (suc k) (held b)
unfolding held without
held-without b k h few full =
    let fewer : (b.entry_idx + 2 ^ 16 - 1) % 2 ^ 16 ≡ b.entry_idx - 1 = omega arith in
    let back : suc (b.entry_idx - 1) ≡ b.entry_idx = omega arith in
    ap (λ n. take n (shift (entries_per_index_block - 1 - k) k b.entries)) fewer
    ∙ take-shift k (b.entry_idx - 1) (entries_per_index_block - 1 - k) b.entries (omega arith)
        (omega arith) (omega arith)
    ∙ ap (λ n. take k b.entries ++ drop (suc k) (take n b.entries)) back
    ∙ ap (λ l. l ++ drop (suc k) (take b.entry_idx b.entries))
        (sym (take-take k b.entry_idx b.entries (omega arith)))

abbrev later : Option (Option ℕ) → Option (Option ℕ)
later rest = rest >>= λ found. some (found >>= λ i. some (suc i))

later_found :
    (rest : Option (Option ℕ)) (k : ℕ)
    → later rest ≡ some (some k)
    → (j : ℕ) × (rest ≡ some (some j)) × (k ≡ suc j)
later_found none k h = cc (h)
later_found (some none) k h = cc (h)
later_found (some (some j)) k h = (j, refl, cc (h))

scan_next :
    (n seq : ℕ) (e : WinEntry) (es : List WinEntry)
    → (e.sequence == seq) ≡ false
    → scan_entries (suc n) seq (e ∷ es) ≡ later (scan_entries n seq es)
unfolding scan_entries
scan_next n seq e es h = rw (scan_entries, h)

scan_hit :
    (n seq : ℕ) (e : WinEntry) (es : List WinEntry)
    → (e.sequence == seq) ≡ true
    → scan_entries (suc n) seq (e ∷ es) ≡ some (some 0)
unfolding scan_entries
scan_hit n seq e es h = rw (scan_entries, h)

-- The first entry of a sequence among the first `n`.
record FoundAt (n seq : ℕ) (es : List WinEntry) (k : ℕ) : Type 0 where
  inside : k < n
  entry : WinEntry
  sequence : entry.sequence ≡ seq
  front : All (λ (e : WinEntry). (e.sequence == seq) ≡ false) (take k (take n es))
  parts : take n es ≡ take k (take n es) ++ entry ∷ drop (suc k) (take n es)

scan-FoundAt :
    (n seq : ℕ) (es : List WinEntry) (k : ℕ)
    → scan_entries n seq es ≡ some (some k)
    → FoundAt n seq es k
unfolding scan_entries
scan-FoundAt zero seq es k h = cc (h)
scan-FoundAt (suc n) seq [] k h = cc (h)
scan-FoundAt (suc n) seq (e ∷ es) k h = elim (Bool-cases (e.sequence == seq)) [
  | inl b ↦
      let first : 0 ≡ k = cc (h, scan_hit n seq e es b) in
      subst (FoundAt (suc n) seq (e ∷ es)) first (record {
        inside = omega arith;
        entry = e;
        sequence = (==_iff e.sequence seq).0 b;
        front = tt;
        parts = refl;
      })
  | inr b ↦
      let (j, found, next) =
        later_found (scan_entries n seq es) k (sym (scan_next n seq e es b) ∙ h) in
      let f = scan-FoundAt n seq es j found in
      subst (FoundAt (suc n) seq (e ∷ es)) (sym next) (record {
        inside = omega (arith, f.inside);
        entry = f.entry;
        sequence = f.sequence;
        front = (b, f.front);
        parts = ap (λ l. e ∷ l) f.parts;
      })
]

-- The block is without the first of its entries that has the sequence, which has `k` entries in
-- front of it.
pub record Deletes (seq k : ℕ) (b b' : WinBlock) : Type 0 where
  pub before : List WinEntry
  pub entry : WinEntry
  pub after : List WinEntry
  pub sequence : entry.sequence ≡ seq
  pub earlier : All (λ (e : WinEntry). (e.sequence == seq) ≡ false) before
  pub place : length before ≡ k
  pub was : held b ≡ before ++ entry ∷ after
  pub now : held b' ≡ before ++ after
  pub next : b'.next ≡ b.next
  pub hash : b'.topic_hash ≡ b.topic_hash

del_found :
    {Buf : Type 0} (w : WindowWriter Buf) (seq i k : ℕ) (b : WinBlock)
    → read_window_block w.win_file (win_block_offset i) ≡ some b
    → scan_entries b.entry_idx seq b.entries ≡ some (some k)
    → del w seq i ≡ some (record w { win_blocks = insert w.win_blocks i (without b k) }, none)
unfolding del
del_found w seq i k b opened found = rw (del, opened, found, ◌>>=◌)

-- A deletion from a window block of at most 255 entries takes the first entry with the sequence out
-- of the block, and leaves the other entries in their order and the links.
pub del-Deletes :
    {Buf : Type 0} (w : WindowWriter Buf) (seq i k : ℕ) (b : WinBlock)
    → read_window_block w.win_file (win_block_offset i) ≡ some b
    → scan_entries b.entry_idx seq b.entries ≡ some (some k)
    → b.entry_idx ≤ entries_per_index_block
    → entries_per_index_block ≤ length b.entries
    → (w' : WindowWriter Buf) × (b' : WinBlock) × (del w seq i ≡ some (w', none))
      × (find w'.win_blocks i ≡ some b')
      × Deletes seq k b b'
unfolding held without
del-Deletes w seq i k b opened found few full =
    let f = scan-FoundAt b.entry_idx seq b.entries k found in
    (
      record w { win_blocks = insert w.win_blocks i (without b k) },
      without b k,
      del_found w seq i k b opened found,
      find-insert_self w.win_blocks i (without b k),
      record {
        before = take k (held b);
        entry = f.entry;
        after = drop (suc k) (held b);
        sequence = f.sequence;
        earlier = f.front;
        place =
            length-take_in k (held b)
              (omega (arith, f.inside, length-take_in b.entry_idx b.entries (omega (arith))));
        was = f.parts;
        now = held-without b k f.inside few full;
        next = refl;
        hash = refl;
      },
    )
