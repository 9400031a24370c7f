-- ===== src/Store/Search.antt =====
-- memdb/db.go: the search for the newest time block with a key.
use unitdb.Prelude.{
  ℕ, ◌^◌, ◌≡◌, ◌≢◌, ◌<◌, ◌⊎◌, inl, inr, refl, sym, ap, ◌∙◌, true, false, Option, none, some, List,
  [], ◌∷◌, ◌==◌, ltb_int64, ◌>>=◌, Option-cases, Bool-cases, All, arith,
}
use mathlib.Core.Path.{subst}
use unitdb.Prelude.Maps.{Map, find, keys}
use unitdb.Filter.{Filter, test}
use unitdb.MemBlock.{MemBlock, i_key, find_record}
use unitdb.Store.Filtered.{Live, LiveAt, ShardOf, IsFiltered, some_inj}
use unitdb.Store.{Store, TimeFilter, insert_newest, newest_first, search_blocks}

-- `t` stands in the list.
abbrev pub In : ℕ → List ℕ → Type 0
In t [] = ⊥
In t (x ∷ xs) = (x ≡ t) ⊎ In t xs

-- Descending; every ID has 64 bits.
abbrev pub IsNewestFirst : List ℕ → Type 0
IsNewestFirst [] = Unit
IsNewestFirst (x ∷ xs) = (x < 2 ^ 64) × All (λ y. ltb_int64 x y ≡ false) xs × IsNewestFirst xs

All-insert_newest :
    (P : ℕ → Type 0) (x : ℕ) (xs : List ℕ) → P x → All P xs → All P (insert_newest x xs)
unfolding insert_newest
All-insert_newest P x [] p ps = (p, tt)
All-insert_newest P x (y ∷ ys) p ps = elim (Bool-cases (ltb_int64 x y)) [
  | inl b ↦ rw b (ps.0, All-insert_newest P x ys p ps.1)
  | inr b ↦ rw b (p, ps)
]

All-older :
    (x y : ℕ) (ys : List ℕ)
    → ltb_int64 x y ≡ false
    → All (λ z. ltb_int64 y z ≡ false) ys
    → All (λ z. ltb_int64 x z ≡ false) ys
All-older x y [] e h = tt
All-older x y (z ∷ ys) e h = (ground arith, All-older x y ys e h.1)

insert_newest-IsNewestFirst :
    (x : ℕ) (xs : List ℕ) → x < 2 ^ 64 → IsNewestFirst xs → IsNewestFirst (insert_newest x xs)
unfolding insert_newest
insert_newest-IsNewestFirst x [] small h = (small, tt, tt)
insert_newest-IsNewestFirst x (y ∷ ys) small h = elim (Bool-cases (ltb_int64 x y)) [
  | inl b ↦ rw b (
    h.0,
    All-insert_newest (λ z. ltb_int64 y z ≡ false) x ys (ground arith) h.1,
    insert_newest-IsNewestFirst x ys small h.2,
  )
  | inr b ↦ rw b (small, (b, All-older x y ys b h.1), h)
]

pub newest_first-IsNewestFirst :
    (xs : List ℕ) → All (λ x. x < 2 ^ 64) xs → IsNewestFirst (newest_first xs)
unfolding newest_first
newest_first-IsNewestFirst [] h = tt
newest_first-IsNewestFirst (x ∷ xs) h =
    insert_newest-IsNewestFirst x (newest_first xs) h.0 (newest_first-IsNewestFirst xs h.1)

In-insert_newest : (t x : ℕ) (xs : List ℕ) → In t (x ∷ xs) → In t (insert_newest x xs)
unfolding insert_newest
In-insert_newest t x [] i = i
In-insert_newest t x (y ∷ ys) i = elim (Bool-cases (ltb_int64 x y)) [
  | inl b ↦ rw b (elim i [
    | inl e ↦ inr (In-insert_newest t x ys (inl e))
    | inr j ↦ elim j [ inl e ↦ inl e | inr k ↦ inr (In-insert_newest t x ys (inr k)) ]
  ])
  | inr b ↦ rw b i
]

pub In-newest_first : (t : ℕ) (xs : List ℕ) → In t xs → In t (newest_first xs)
unfolding newest_first
In-newest_first t [] i = i
In-newest_first t (x ∷ xs) i =
    In-insert_newest t x (newest_first xs)
      (elim i [ inl e ↦ inl e | inr j ↦ inr (In-newest_first t xs j) ])

module _ {V : Type 0} where
  pub In-keys : (m : Map V) (t : ℕ) (v : V) → find m t ≡ some v → In t (keys m)
  unfolding find keys
  In-keys [] t v e = cc
  In-keys ((j, w) ∷ m) t v e = elim (Bool-cases (j == t)) [
    | inl b ↦ inl (ground arith)
    | inr b ↦ inr (In-keys m t v (rw b at e))
  ]

  pub find-keys : (m : Map V) (t : ℕ) → In t (keys m) → (v : V) × (find m t ≡ some v)
  unfolding find keys
  find-keys [] t i = elim i [ ]
  find-keys ((j, w) ∷ m) t i = elim (Bool-cases (j == t)) [
    | inl b ↦ (w, rw b refl)
    | inr b ↦ elim i [
      | inl e ↦ absurd (ground arith)
      | inr k ↦ let (v, e) = find-keys m t k in (v, rw b e)
    ]
  ]

All-In : (P : ℕ → Type 0) (xs : List ℕ) (t : ℕ) → All P xs → In t xs → P t
All-In P [] t h i = elim i [ ]
All-In P (x ∷ xs) t h (inl e) = subst P e h.0
All-In P (x ∷ xs) t h (inr i) = All-In P xs t h.1 i

pub In-All : (P : ℕ → Type 0) (xs : List ℕ) → ((t : ℕ) → In t xs → P t) → All P xs
In-All P [] h = tt
In-All P (x ∷ xs) h = (h x (inl refl), In-All P xs (λ t i. h t (inr i)))

pub All-newest_first : (P : ℕ → Type 0) (xs : List ℕ) → All P xs → All P (newest_first xs)
unfolding newest_first
All-newest_first P [] h = tt
All-newest_first P (x ∷ xs) h =
    All-insert_newest P x (newest_first xs) h.0 (All-newest_first P xs h.1)

strictly :
    (t u : ℕ) → t < 2 ^ 64 → u < 2 ^ 64 → ltb_int64 t u ≡ false → t ≢ u → ltb_int64 u t ≡ true
strictly t u ht hu h ne = ground arith

not_later : (t u : ℕ) → t ≡ u → ltb_int64 t u ≡ false
not_later t u e = ground arith

module _ {Buf : Type 0} (db : Store Buf) (r : TimeFilter) (key u : ℕ) where
  -- The newest block of the list with the key, which is at least as new as `u`.
  abbrev pub Newest : Option (Option (ℕ × MemBlock Buf)) → Type 0
  Newest o =
      (t : ℕ) × (b : MemBlock Buf) × (o ≡ some (some (t, b)))
      × (find db.time_blocks t ≡ some b)
      × Live b key
      × (ltb_int64 t u ≡ false)

  search_absent :
      (t : ℕ) (ts : List ℕ)
      → find db.time_blocks t ≡ none
      → search_blocks db r key (t ∷ ts) ≡ search_blocks db r key ts
  unfolding search_blocks
  search_absent t ts e = rw (search_blocks, e) refl

  search_found :
      (t : ℕ) (ts : List ℕ) (b : MemBlock Buf) (off : ℕ)
      → find db.time_blocks t ≡ some b
      → find_record b.records (i_key false key) ≡ some off
      → search_blocks db r key (t ∷ ts) ≡ some (some (t, b))
  unfolding search_blocks
  search_found t ts b off e e' = rw (search_blocks, e, e') refl

  search_passed :
      (t : ℕ) (ts : List ℕ) (b : MemBlock Buf) (f : Filter)
      → find db.time_blocks t ≡ some b
      → find_record b.records (i_key false key) ≡ none
      → find r.time_records t ≡ some f
      → test f key ≡ some true
      → search_blocks db r key (t ∷ ts) ≡ search_blocks db r key ts
  unfolding search_blocks
  search_passed t ts b f e e' ef et = rw (search_blocks, e, e', ef, ◌>>=◌, et) refl

  -- A block that is absent, or has no record of the key, is not `u`.
  other_absent : (t : ℕ) → LiveAt db u key → find db.time_blocks t ≡ none → t ≢ u
  other_absent t (b, e, _) h same = clash (sym h ∙ ap (find db.time_blocks) same ∙ e)
    where
      clash : {A : Type 0} {x : A} → none ≡ some x → ⊥
      clash p = cc

  other_without :
      (t : ℕ) (b : MemBlock Buf)
      → LiveAt db u key
      → find db.time_blocks t ≡ some b
      → find_record b.records (i_key false key) ≡ none
      → t ≢ u
  other_without t b (c, e, (off, live)) h lacks same =
      let one : b ≡ c = some_inj (sym h ∙ ap (find db.time_blocks) same ∙ e) in
      clash (sym lacks ∙ ap (λ x. find_record x.records (i_key false key)) one ∙ live)
    where
      clash : {x : ℕ} → none ≡ some x → ⊥
      clash p = cc

  behind_other : (t : ℕ) (ts : List ℕ) → t ≢ u → In u (t ∷ ts) → In u ts
  behind_other t ts ne (inl e) = absurd (ne e)
  behind_other t ts ne (inr i) = i

  pub search-Newest :
      (ts : List ℕ)
      → IsFiltered db
      → ShardOf db key r
      → LiveAt db u key
      → u < 2 ^ 64
      → IsNewestFirst ts
      → All (λ t. (f : Filter) × (find r.time_records t ≡ some f)) ts
      → In u ts
      → Newest (search_blocks db r key ts)
  search-Newest [] i sh live small sorted fs at = elim at [ ]
  search-Newest (t ∷ ts) i sh live small sorted fs at =
      elim (Option-cases (find db.time_blocks t)) [
        | inl e ↦
            let rest = behind_other t ts (other_absent t live e) at in
            subst Newest (sym (search_absent t ts e))
              (search-Newest ts i sh live small sorted.2 fs.1 rest)
        | inr (b, e) ↦ elim (Option-cases (find_record b.records (i_key false key))) [
          | inr (off, e') ↦ (
            t,
            b,
            search_found t ts b off e e',
            e,
            (off, e'),
            elim at [
              | inl same ↦ not_later t u same
              | inr rest ↦ All-In (λ y. ltb_int64 t y ≡ false) ts u sorted.1 rest
            ],
          )
          | inl lacks ↦
              let ne = other_without t b live e lacks in
              let rest = behind_other t ts ne at in
              let (f, ef) = fs.0 in
              let older =
                strictly t u sorted.0 small (All-In (λ y. ltb_int64 t y ≡ false) ts u sorted.1 rest)
                  ne in
              subst Newest
                (sym (search_passed t ts b f e lacks ef (i.covered key u t r f live sh ef older)))
                (search-Newest ts i sh live small sorted.2 fs.1 rest)
        ]
      ]
