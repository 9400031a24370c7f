-- ===== src/Window/Lookup/Newest.antt =====
-- time_window.go: what the walk over a topic's blocks in the file finds.
use unitdb.Prelude.{
  ℕ, zero, suc, ◌+◌, ◌-◌, ◌≡◌, ◌<◌, ◌≤◌, refl, sym, ap, ◌∙◌, inl, inr, Bool, true, false, ◌||◌,
  some, List, [], ◌∷◌, ◌++◌, ltb, leb, lt→ltb, ltb→lt, le→leb, ◌==◌, ==_iff, ◌>>=◌, length,
  length-append, length-take, take, append_assoc, append-nil, Bool-cases, All, arith,
}
use mathlib.Core.List.{reverse, reverse-cons, reverse-append}
use unitdb.File.{File}
use unitdb.Window.{WinEntry, WinBlock, is_expired, cutoff}
use unitdb.Window.Writer.{read_window_block}
use unitdb.Window.Writer.Chain.{held}
use unitdb.Window.Lookup.{Found, collect, visit, walk}

-- The blocks of a topic in the file, `n` of them, from offset `off` on, hold these entries, the oldest
-- first; none of them has expired, and no block is behind the cutoff.
pub data FileChain (f : File) (now topic_hash cutoff_time : ℕ)
    : ℕ → ℕ → List WinEntry → Type 0 where
  last :
      {off : ℕ} (b : WinBlock)
      → read_window_block f off ≡ some b
      → b.topic_hash ≡ topic_hash
      → b.entry_idx ≤ length b.entries
      → All (λ e. is_expired now e ≡ false) (reverse (held b))
      → b.next ≡ 0
      → FileChain f now topic_hash cutoff_time 1 off (held b)
  link :
      {off : ℕ} (n : ℕ) (before : List WinEntry) (b : WinBlock)
      → read_window_block f off ≡ some b
      → b.topic_hash ≡ topic_hash
      → b.entry_idx ≤ length b.entries
      → All (λ e. is_expired now e ≡ false) (reverse (held b))
      → cutoff b cutoff_time ≡ false
      → 0 < b.next
      → FileChain f now topic_hash cutoff_time n b.next before
      → FileChain f now topic_hash cutoff_time (suc n) off (before ++ held b)

-- No entry has expired: all are found.
collect_fresh :
    (now : ℕ) (es : List WinEntry) (s : Found)
    → All (λ e. is_expired now e ≡ false) es
    → collect now es s ≡ record s { entries = s.entries ++ es }
unfolding collect
collect_fresh now [] s h = ap (λ l. record s { entries = l }) (sym (append-nil s.entries))
collect_fresh now (e ∷ es) s h =
    rw (collect, h.0)
      (collect_fresh now es (record s { entries = s.entries ++ e ∷ [] }) h.1
        ∙ ap (λ l. record s { entries = l }) (append_assoc s.entries (e ∷ []) es))

All-take : (P : WinEntry → Type 0) (n : ℕ) (es : List WinEntry) → All P es → All P (take n es)
All-take P zero es h = tt
All-take P (suc n) [] h = tt
All-take P (suc n) (e ∷ es) h = (h.0, All-take P n es h.1)

take_more : (n : ℕ) (es rest : List WinEntry) → n ≤ length es → take n (es ++ rest) ≡ take n es
take_more zero es rest h = refl
take_more (suc n) [] rest h = absurd (omega arith)
take_more (suc n) (e ∷ es) rest h = ap (λ l. e ∷ l) (take_more n es rest (omega arith))

take_past :
    (n k : ℕ) (es rest : List WinEntry)
    → n ≡ length es + k
    → take n (es ++ rest) ≡ es ++ take k rest
take_past n k [] rest h = ap (λ m. take m rest) (omega (arith, h))
take_past zero k (e ∷ es) rest h = absurd (omega (arith, h))
take_past (suc n) k (e ∷ es) rest h = ap (λ l. e ∷ l) (take_past n k es rest (omega (arith, h)))

length-reverse : (es : List WinEntry) → length (reverse es) ≡ length es
length-reverse [] = refl
length-reverse (e ∷ es) =
    ap length (reverse-cons e es)
    ∙ omega (arith, length-append (reverse es) (e ∷ []), length-reverse es)

-- A block with the topic's hash whose entries have not expired: all are taken, or as many as the limit
-- leaves room for.
visit_roomy :
    (now topic_hash cutoff_time limit : ℕ) (b : WinBlock) (s : Found)
    → b.topic_hash ≡ topic_hash
    → b.entry_idx ≤ length b.entries
    → All (λ e. is_expired now e ≡ false) (reverse (held b))
    → length s.entries + b.entry_idx ≤ limit
    → visit now topic_hash cutoff_time b limit s
      ≡ some (limit, record s { entries = s.entries ++ reverse (held b) }, cutoff b cutoff_time)
unfolding visit held
visit_roomy now topic_hash cutoff_time limit b s own full fresh room =
    let same : (b.topic_hash == topic_hash) ≡ true = (==_iff b.topic_hash topic_hash).1 own in
    let roomy : ltb limit (length s.entries + b.entry_idx) ≡ false = ground arith in
    rw (visit, same, le→leb _ _ full, roomy, ◌>>=◌, collect_fresh now (reverse (held b)) s fresh)
      refl

visit_full :
    (now topic_hash cutoff_time limit : ℕ) (b : WinBlock) (s : Found)
    → b.topic_hash ≡ topic_hash
    → b.entry_idx ≤ length b.entries
    → All (λ e. is_expired now e ≡ false) (reverse (held b))
    → length s.entries ≤ limit
    → limit < length s.entries + b.entry_idx
    → visit now topic_hash cutoff_time b limit s
      ≡ some (
        limit - length s.entries,
        record s { entries = s.entries ++ take (limit - length s.entries) (reverse (held b)) },
        true,
      )
unfolding visit held
visit_full now topic_hash cutoff_time limit b s own full fresh under over =
    let same : (b.topic_hash == topic_hash) ≡ true = (==_iff b.topic_hash topic_hash).1 own in
    let l = limit - length s.entries in
    let newest = reverse (held b) in
    let size : length newest ≡ b.entry_idx =
      length-reverse (held b) ∙ omega (arith, length-take b.entry_idx b.entries) in
    let taken : length (s.entries ++ take l newest) ≡ limit =
      omega (arith, length-append s.entries (take l newest), length-take l newest, size) in
    let met : leb l (length (s.entries ++ take l newest)) ≡ true =
      le→leb _ _ (omega (arith, taken)) in
    rw
      (
        visit,
        same,
        le→leb _ _ full,
        lt→ltb _ _ over,
        ◌>>=◌,
        collect_fresh now (take l newest) s
            (All-take (λ e. is_expired now e ≡ false) l newest fresh),
        met,
      )
      refl

length-newest :
    (b : WinBlock) → b.entry_idx ≤ length b.entries → length (reverse (held b)) ≡ b.entry_idx
unfolding held
length-newest b full = length-reverse (held b) ∙ omega (arith, length-take b.entry_idx b.entries)

take_nil : (n : ℕ) → take {A = WinEntry} n [] ≡ []
take_nil zero = refl
take_nil (suc n) = refl

take_whole : (n : ℕ) (es : List WinEntry) → length es ≤ n → take n es ≡ es
take_whole n [] h = take_nil n
take_whole zero (e ∷ es) h = absurd (omega arith)
take_whole (suc n) (e ∷ es) h = ap (λ l. e ∷ l) (take_whole n es (omega arith))

or_true : (b : Bool) → (b || true) ≡ true
or_true true = refl
or_true false = refl

walk_stop :
    (n now topic_hash cutoff_time off limit l : ℕ) (f : File) (b : WinBlock) (s t : Found)
    (stop : Bool)
    → read_window_block f off ≡ some b
    → visit now topic_hash cutoff_time b limit s ≡ some (l, t, stop)
    → (stop || (b.next == 0)) ≡ true
    → walk (suc n) f now topic_hash cutoff_time off limit s ≡ some t
unfolding walk
walk_stop n now topic_hash cutoff_time off limit l f b s t stop opened visited over =
    rw (walk, opened, visited, ◌>>=◌, over) refl

walk_next :
    (n now topic_hash cutoff_time off limit : ℕ) (f : File) (b : WinBlock) (s t : Found)
    → read_window_block f off ≡ some b
    → visit now topic_hash cutoff_time b limit s ≡ some (limit, t, false)
    → 0 < b.next
    → walk (suc n) f now topic_hash cutoff_time off limit s
      ≡ walk n f now topic_hash cutoff_time b.next limit t
unfolding walk
walk_next n now topic_hash cutoff_time off limit f b s t opened visited linked =
    let linked' : (b.next == 0) ≡ false = ground arith in
    rw (walk, opened, visited, ◌>>=◌, linked') refl

-- The walk over the blocks of a topic, with fuel for each of them, ends and adds the newest entries of
-- the topic's chain to those that were found before, newest first, as many as the limit leaves room
-- for; where no entry has expired and no block that has one before it is behind the cutoff.
pub walk-newest :
    (f : File) (now topic_hash cutoff_time n off limit fuel : ℕ) (es : List WinEntry) (s : Found)
    → FileChain f now topic_hash cutoff_time n off es
    → n ≤ fuel
    → length s.entries ≤ limit
    → walk fuel f now topic_hash cutoff_time off limit s
      ≡ some (record s { entries = s.entries ++ take (limit - length s.entries) (reverse es) })
unfolding held
walk-newest f now topic_hash cutoff_time n off limit zero es s (last b opened own full fresh end)
      enough under =
    absurd (omega arith)
walk-newest f now topic_hash cutoff_time n off limit (suc fuel) es s
      (last b opened own full fresh end) enough under =
    elim (Bool-cases (ltb limit (length s.entries + b.entry_idx))) [
      | inl over ↦
          walk_stop fuel now topic_hash cutoff_time off limit (limit - length s.entries) f b s
            (record s { entries = s.entries ++ take (limit - length s.entries) (reverse (held b)) })
            true opened
            (visit_full now topic_hash cutoff_time limit b s own full fresh under (ltb→lt _ _ over))
            refl
      | inr room ↦
          walk_stop fuel now topic_hash cutoff_time off limit limit f b s
            (record s { entries = s.entries ++ reverse (held b) }) (cutoff b cutoff_time) opened
            (visit_roomy now topic_hash cutoff_time limit b s own full fresh (ground arith))
            (ap (λ m. cutoff b cutoff_time || (m == 0)) end ∙ or_true (cutoff b cutoff_time))
          ∙ ap (λ l. some (record s { entries = s.entries ++ l }))
              (sym (
                take_whole (limit - length s.entries) (reverse (held b))
                  (ground (arith, length-newest b full))))
    ]
walk-newest f now topic_hash cutoff_time n off limit zero es s
      (link m before b opened own full fresh current linked chain) enough under =
    absurd (omega arith)
walk-newest f now topic_hash cutoff_time n off limit (suc fuel) es s
      (link m before b opened own full fresh current linked chain) enough under =
    let newest : reverse (before ++ held b) ≡ reverse (held b) ++ reverse before =
      reverse-append before (held b) in
    elim (Bool-cases (ltb limit (length s.entries + b.entry_idx))) [
      | inl over ↦
          walk_stop fuel now topic_hash cutoff_time off limit (limit - length s.entries) f b s
            (record s { entries = s.entries ++ take (limit - length s.entries) (reverse (held b)) })
            true opened
            (visit_full now topic_hash cutoff_time limit b s own full fresh under (ltb→lt _ _ over))
            refl
          ∙ ap (λ l. some (record s { entries = s.entries ++ l }))
              (sym (
                ap (take (limit - length s.entries)) newest
                ∙ take_more (limit - length s.entries) (reverse (held b)) (reverse before)
                    (ground (arith, length-newest b full))))
      | inr room ↦
          let t = record s { entries = s.entries ++ reverse (held b) } in
          let size : length t.entries ≡ length s.entries + b.entry_idx =
            length-append s.entries (reverse (held b))
            ∙ ap (λ k. length s.entries + k) (length-newest b full) in
          walk_next fuel now topic_hash cutoff_time off limit f b s t opened
            (visit_roomy now topic_hash cutoff_time limit b s own full fresh (ground arith)
              ∙ ap (λ c. some (limit, t, c)) current)
            linked
          ∙ walk-newest f now topic_hash cutoff_time m b.next limit fuel before t chain
              (omega arith) (ground (arith, size))
          ∙ ap (λ l. some (record s { entries = l }))
              (append_assoc s.entries (reverse (held b))
                  (take (limit - length t.entries) (reverse before))
                ∙ ap (λ l. s.entries ++ l)
                    (sym (
                      ap (take (limit - length s.entries)) newest
                      ∙ take_past (limit - length s.entries) (limit - length t.entries)
                          (reverse (held b)) (reverse before)
                          (ground (arith, size, length-newest b full)))))
    ]
