-- ===== src/Store/Added.antt =====
-- memdb/db_internal.go: a key that is added to the filters of its shard.
use unitdb.Prelude.{
  ℕ, ◌^◌, ◌≡◌, ◌≢◌, ◌<◌, ◌⊎◌, inl, inr, sym, ap, ◌∙◌, Bool, true, false, some, ◌==◌, ltb_int64,
  if◌then◌else◌, Bool-cases, arith,
}
use mathlib.Core.Path.{subst}
use unitdb.Prelude.Maps.{Map, find, insert, find-insert, find-insert_ne, find-insert_cases}
use unitdb.Filter.{Filter, test}
use unitdb.Filter.Members.{Contains, test_copy, Adds}
use unitdb.Filter.Snapshot.{IsGenerator, add-IsGenerator}
use unitdb.MemBlock.{MemBlock}
use unitdb.Store.Filtered.{
  Live, LiveAt, ShardOf, IsFiltered, Records, some_inj, with_time_record-Records,
  add_time_filter_steps,
}
use unitdb.Store.{Store, TimeFilter, block_key, add_time_filter}

-- The store after the filters of a shard took a key, whose time block is now `b'`.
module _ {Buf : Type 0} (db : Store Buf) (b' : MemBlock Buf) (key bk : ℕ) (r : TimeFilter)
    (m : Map Filter) (f : Filter) where
  abbrev after : Store Buf
  after = record db {
    time_blocks = insert db.time_blocks db.time_id b';
    time_filters = insert db.time_filters bk (record { time_records = m; filter = f });
  }

  -- The shard of the key is `bk`; its filters were `r`. The time block has no other new record.
  record IsAdded (b : MemBlock Buf) : Type 0 where
    filtered : IsFiltered db
    found : find db.time_blocks db.time_id ≡ some b
    fits : db.time_id < 2 ^ 64
    only : (k : ℕ) → Live b' k → (key ≡ k) ⊎ Live b k
    hashed : block_key db key ≡ some bk
    before : find db.time_filters bk ≡ some r
    generator : IsGenerator r.filter
    records : Records r db.time_id m
    adds : Adds r.filter key f
    generates : IsGenerator f

  -- A record that is there now was there before, or is the new one.
  live_cases :
      (b : MemBlock Buf) (k u : ℕ)
      → IsAdded b
      → LiveAt after u k
      → LiveAt db u k ⊎ ((db.time_id ≡ u) × (key ≡ k))
  live_cases b k u i (c, e, live) = elim (find-insert_cases db.time_blocks db.time_id u b' c e) [
    | inr p ↦ inl (c, p.1, live)
    | inl (at, same) ↦ elim (i.only k (subst (λ x. Live x k) (sym same) live)) [
      | inl new ↦ inr (at, new)
      | inr old ↦ inl (b, ap (find db.time_blocks) (sym at) ∙ i.found, old)
    ]
  ]

  -- The shard of a key is the one that changed, or has the filters it had and is not that of the new
  -- key.
  shard_cases :
      (b : MemBlock Buf) (k : ℕ) (s : TimeFilter)
      → IsAdded b
      → ShardOf after k s
      → (ShardOf db k r × (record { time_records = m; filter = f } ≡ s))
        ⊎ (ShardOf db k s × (key ≢ k))
  unfolding block_key
  shard_cases b k s i (bk', e, g) = elim (find-insert_cases db.time_filters bk bk' _ s g) [
    | inr p ↦ inr (
      (bk', e, p.1),
      λ same. apart bk' p.0 (some_inj (sym i.hashed ∙ ap (block_key db) same ∙ e)),
    )
    | inl (at, same) ↦ inl ((bk, e ∙ ap some (sym at), i.before), same)
  ]
    where
      apart : (bk' : ℕ) → (bk == bk') ≡ false → bk ≡ bk' → ⊥
      apart bk' ne e = ground arith

  abbrev changed : TimeFilter
  changed = record { time_records = m; filter = f }

  tracked_after :
      (b : MemBlock Buf) (k u : ℕ) (s : TimeFilter)
      → IsAdded b
      → LiveAt after u k
      → ShardOf after k s
      → Contains s.filter k × (g : Filter) × (find s.time_records u ≡ some g)
  tracked_after b k u s i live sh = elim (live_cases b k u i live) [
    | inl was ↦ elim (shard_cases b k s i sh) [
      | inr (old, other) ↦ i.filtered.tracked k u s was old
      | inl (own, same) ↦
          let (c, g, e) = i.filtered.tracked k u r was own in
          let (g', e') = i.records.keeps u g e in
          subst
            (λ (x : TimeFilter).
              Contains x.filter k × (g : Filter) × (find x.time_records u ≡ some g))
            same (i.adds.keeps k c, g', e')
    ]
    | inr (now, new) ↦ elim (shard_cases b k s i sh) [
      | inr (old, other) ↦ absurd (other new)
      | inl (own, same) ↦
          let (g, e) = i.records.made in
          subst
            (λ (x : TimeFilter).
              Contains x.filter k × (g : Filter) × (find x.time_records u ≡ some g))
            same (subst (Contains f) new i.adds.has, g, ap (find m) (sym now) ∙ e)
    ]
  ]

  -- No filter of the shard is newer than the current time.
  newest_own :
      (b : MemBlock Buf) (t : ℕ) (g : Filter)
      → IsAdded b
      → find m t ≡ some g
      → (ltb_int64 db.time_id t ≡ false) × (t < 2 ^ 64)
  newest_own b t g i e = elim (i.records.cases t g e) [
    | inl was ↦ i.filtered.newest bk t r g i.before was
    | inr (now, copy) ↦ (ground arith, omega (arith, i.fits, now))
  ]

  newest_after :
      (b : MemBlock Buf) (bk' t : ℕ) (s : TimeFilter) (g : Filter)
      → IsAdded b
      → find after.time_filters bk' ≡ some s
      → find s.time_records t ≡ some g
      → (ltb_int64 db.time_id t ≡ false) × (t < 2 ^ 64)
  newest_after b bk' t s g i e e' = elim (find-insert_cases db.time_filters bk bk' changed s e) [
    | inr p ↦ i.filtered.newest bk' t s g p.1 e'
    | inl (at, same) ↦ newest_own b t g i (ap (λ (x : TimeFilter). find x.time_records t) same ∙ e')
  ]

  covered_after :
      (b : MemBlock Buf) (k u t : ℕ) (s : TimeFilter) (g : Filter)
      → IsAdded b
      → LiveAt after u k
      → ShardOf after k s
      → find s.time_records t ≡ some g
      → ltb_int64 u t ≡ true
      → test g k ≡ some true
  covered_after b k u t s g i live sh e older = elim (live_cases b k u i live) [
    | inl was ↦ elim (shard_cases b k s i sh) [
      | inr (old, other) ↦ i.filtered.covered k u t s g was old e older
      | inl (own, same) ↦
          elim (i.records.cases t g (ap (λ (x : TimeFilter). find x.time_records t) same ∙ e)) [
            | inl had ↦ i.filtered.covered k u t r g was own had older
            | inr (now, copy) ↦
                subst (λ x. test x k ≡ some true) copy
                  (test_copy r.filter k (i.filtered.tracked k u r was own).0)
          ]
    ]
    | inr (now, new) ↦
        let (late, _) = newest_after b (sh.0) t s g i sh.2 e in
        absurd (clash (ap (λ x. ltb_int64 x t) now) older late)
  ]
    where
      clash : {x y : Bool} → x ≡ y → y ≡ true → x ≡ false → ⊥
      clash p q r = cc

  shard_after :
      (b : MemBlock Buf) (k : ℕ)
      → IsAdded b
      → (s : TimeFilter) × IsGenerator s.filter × ShardOf after k s
  unfolding block_key
  shard_after b k i =
      let (s, g, (bk', e, e')) = i.filtered.shard k in
      elim (Bool-cases (bk == bk')) [
        | inl same ↦ (
          changed,
          i.generates,
          (
            bk',
            e,
            find-insert db.time_filters bk bk' changed
                ∙ ap (λ c. if c then some changed else find db.time_filters bk') same,
          ),
        )
        | inr other ↦ (s, g, (bk', e, find-insert_ne db.time_filters bk bk' changed other ∙ e'))
      ]

  IsFiltered-after : (b : MemBlock Buf) → IsAdded b → IsFiltered after
  IsFiltered-after b i = record {
    shard = λ k. shard_after b k i;
    tracked = λ k u s live sh. tracked_after b k u s i live sh;
    covered = λ k u t s g live sh e older. covered_after b k u t s g i live sh e older;
    newest = λ bk' t s g e e'. newest_after b bk' t s g i e e';
  }

-- A key that is added to the filters, after its record was put into the block of the current time.
pub add_time_filter-IsFiltered :
    {Buf : Type 0} (db : Store Buf) (b b' : MemBlock Buf) (key : ℕ)
    → IsFiltered db
    → find db.time_blocks db.time_id ≡ some b
    → db.time_id < 2 ^ 64
    → ((k : ℕ) → Live b' k → (key ≡ k) ⊎ Live b k)
    → (filters : Map TimeFilter) × (add_time_filter
          (record db { time_blocks = insert db.time_blocks db.time_id b' })
          db.time_id
          key
        ≡ some (record db {
          time_blocks = insert db.time_blocks db.time_id b';
          time_filters = filters;
        }))
      × IsFiltered
          (record db { time_blocks = insert db.time_blocks db.time_id b'; time_filters = filters })
unfolding block_key
add_time_filter-IsFiltered db b b' key i found fits only =
    let (r, g, (bk, e, e')) = i.shard key in
    let (m, em, rs) = with_time_record-Records r db.time_id g in
    let (f, ef, gf, a) = add-IsGenerator r.filter key g in
    (
      insert db.time_filters bk (record { time_records = m; filter = f }),
      add_time_filter_steps (record db { time_blocks = insert db.time_blocks db.time_id b' })
          db.time_id key bk r m f e e' em ef,
      IsFiltered-after db b' key bk r m f b (record {
        filtered = i;
        found = found;
        fits = fits;
        only = only;
        hashed = e;
        before = e';
        generator = g;
        records = rs;
        adds = a;
        generates = gf;
      }),
    )
