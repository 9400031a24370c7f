-- ===== src/Window/Bucket/Entries.antt =====
-- time_window.go: the bucket as a map from keys to entries, whatever the shards.
use unitdb.Prelude.{
  ℕ, ◌<◌, ◌≡◌, ◌≢◌, refl, sym, ap, ◌∙◌, inl, inr, true, false, none, some, List, [], ◌∷◌, ◌++◌,
  ◌==◌, ==_refl, ==_iff, if◌then◌else◌, length, set, length-set, get_elem?, get_elem?-set_self,
  get_elem?-set_ne, get_elem?-lt, Bool-cases, arith,
}
use mathlib.Core.Path.{subst}
use unitdb.Hash.Consistent.{find_block}
use unitdb.Hash.Consistent.Valid as Anchor
use unitdb.Hash.Consistent.Find.{find_block-works}
use unitdb.Window.{WinEntry}
use unitdb.Window.Bucket.{Key, TimeWindow, WindowBlocks, same_key, get_window_block, add_entry, add}

-- The shards and the anchor that picks them fit.
pub record IsValid (w : WindowBlocks) : Type 0 where
  pub anchor : Anchor.IsValid w.consistent
  pub shards : w.consistent.size ≡ length w.window

pub find_key : TimeWindow → Key → List WinEntry
unfolding same_key
find_key [] key = []
find_key ((k, es) ∷ b) key = let rest = find_key b key in if same_key k key then es else rest

-- The entries of a key, in the shard of its topic.
unfoldable pub entries_at : WindowBlocks → Key → List WinEntry
unfolding get_window_block find_key
entries_at w key = elim (get_window_block w key.topic_hash) [
  | none ↦ []
  | some (i, b) ↦ find_key b key
]

same_key-eq : (k k' : Key) → same_key k k' ≡ true → k ≡ k'
unfolding same_key
same_key-eq k k' h = elim (Bool-cases (k.time_id == k'.time_id)) [
  | inl b ↦ elim (Bool-cases (k.topic_hash == k'.topic_hash)) [
    | inl c ↦
        let t : k.time_id ≡ k'.time_id = (==_iff k.time_id k'.time_id).0 b in
        let u : k.topic_hash ≡ k'.topic_hash = (==_iff k.topic_hash k'.topic_hash).0 c in
        ap (λ x. record { time_id = x; topic_hash = k.topic_hash }) t
        ∙ ap (λ x. record { time_id = k'.time_id; topic_hash = x }) u
    | inr c ↦ let no : same_key k k' ≡ false = rw (same_key, b, c) refl in cc (no, h)
  ]
  | inr b ↦ let no : same_key k k' ≡ false = rw (same_key, b) refl in cc (no, h)
]

same_key_refl : (k : Key) → same_key k k ≡ true
unfolding same_key
same_key_refl k = rw (same_key, ==_refl k.time_id, ==_refl k.topic_hash) refl

same_key_other : (j k key : Key) → j ≡ k → same_key j key ≡ false → same_key key k ≡ false
same_key_other j k key same c = elim (Bool-cases (same_key key k)) [
  | inr d ↦ d
  | inl d ↦
      let back : j ≡ key = same ∙ sym (same_key-eq key k d) in
      let yes : same_key j key ≡ true =
        subst (λ x. same_key x key ≡ true) (sym back) (same_key_refl key) in
      cc (yes, c)
]

find_key-add_entry :
    (b : TimeWindow) (key k : Key) (e : WinEntry)
    → find_key (add_entry b key e) k
      ≡ (if same_key key k then find_key b key ++ e ∷ [] else find_key b k)
unfolding find_key add_entry
find_key-add_entry [] key k e = refl
find_key-add_entry ((j, es) ∷ b) key k e = elim (Bool-cases (same_key j key)) [
  | inl c ↦
      let same : j ≡ key = same_key-eq j key c in
      elim (Bool-cases (same_key j k)) [
        | inl d ↦ rw (add_entry, c, find_key, d, subst (λ x. same_key x k ≡ true) same d) refl
        | inr d ↦ rw (add_entry, c, find_key, d, subst (λ x. same_key x k ≡ false) same d) refl
      ]
  | inr c ↦ elim (Bool-cases (same_key j k)) [
    | inl d ↦
        let other : same_key key k ≡ false = same_key_other j k key (same_key-eq j k d) c in
        rw (add_entry, c, find_key, d, other) refl
    | inr d ↦ rw (add_entry, c, find_key, d) (find_key-add_entry b key k e)
  ]
]

entries_at-eq :
    (w : WindowBlocks) (k : Key) (i : ℕ) (b : TimeWindow)
    → find_block w.consistent k.topic_hash ≡ some i
    → get_elem? w.window i ≡ some b
    → entries_at w k ≡ find_key b k
unfolding entries_at get_window_block
entries_at-eq w k i b found here = rw (entries_at, get_window_block, found, here)

shard :
    (w : WindowBlocks) (h : ℕ)
    → IsValid w
    → (i : ℕ) × (b : TimeWindow) × (find_block w.consistent h ≡ some i)
      × (get_elem? w.window i ≡ some b)
      × (i < length w.window)
shard w h v =
    let (i, found, lt, works) = find_block-works w.consistent h v.anchor in
    let inside : i < length w.window = omega (arith, lt, v.shards) in
    let (b, here) = get_elem?-lt w.window i inside in (i, b, found, here, inside)

add_ok :
    (w : WindowBlocks) (t h i : ℕ) (b : TimeWindow) (e : WinEntry)
    → find_block w.consistent h ≡ some i
    → get_elem? w.window i ≡ some b
    → add w t h e
      ≡ some (record w {
        window = set w.window i (add_entry b (record { time_id = t; topic_hash = h }) e);
      })
unfolding add get_window_block
add_ok w t h i b e found here = rw (add, get_window_block, found, here)

foreign_shard :
    (w : WindowBlocks) (key k : Key) (i j : ℕ)
    → find_block w.consistent key.topic_hash ≡ some i
    → find_block w.consistent k.topic_hash ≡ some j
    → i ≢ j
    → same_key key k ≡ false
foreign_shard w key k i j found found' ne = elim (Bool-cases (same_key key k)) [
  | inr d ↦ d
  | inl d ↦
      let hash = ap (λ x. find_block w.consistent x.topic_hash) (same_key-eq key k d) in
      let same : i ≡ j = cc (hash, found, found') in absurd (ne same)
]

-- Adding an entry to the bucket never panics: the entry comes behind those of its time block and topic,
-- and every other key keeps its entries.
pub add-entries_at :
    (w : WindowBlocks) (t h : ℕ) (e : WinEntry) (k : Key)
    → IsValid w
    → (w' : WindowBlocks) × (add w t h e ≡ some w')
      × IsValid w'
      × (entries_at w' k ≡ (
          if same_key (record { time_id = t; topic_hash = h }) k
          then entries_at w (record { time_id = t; topic_hash = h }) ++ e ∷ []
          else entries_at w k))
add-entries_at w t h e k v =
    let key : Key = record { time_id = t; topic_hash = h } in
    let (i, b, found, here, inside) = shard w h v in
    let (j, c, found', here', inside') = shard w k.topic_hash v in
    let w' = record w { window = set w.window i (add_entry b key e) } in
    let now = get_elem?-set_self w.window i (add_entry b key e) inside in
    (
      w',
      add_ok w t h i b e found here,
      record {
        anchor = v.anchor;
        shards = v.shards ∙ sym (length-set w.window i (add_entry b key e));
      },
      elim (Bool-cases (i == j)) [
        | inl s ↦
            let same : i ≡ j = (==_iff i j).0 s in
            let found_i : find_block w.consistent k.topic_hash ≡ some i =
              found' ∙ ap some (sym same) in
            entries_at-eq w' k i (add_entry b key e) found_i now
            ∙ find_key-add_entry b key k e
            ∙ sym (rw (entries_at-eq w key i b found here, entries_at-eq w k i b found_i here) refl)
        | inr s ↦
            let ne : i ≢ j = λ p. cc ((==_iff i j).1 p, s) in
            let foreign : same_key key k ≡ false = foreign_shard w key k i j found found' ne in
            entries_at-eq w' k j c found'
              (get_elem?-set_ne w.window i j (add_entry b key e) ne ∙ here')
            ∙ sym (rw (foreign) (entries_at-eq w k j c found' here'))
      ],
    )
