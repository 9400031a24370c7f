-- ===== src/Store/Lifecycle.antt =====
-- memdb/db_internal.go: the filters of the time blocks stay true when time goes on and when a block is
-- released.
use unitdb.Prelude.{
  ℕ, zero, suc, ◌≡◌, ◌<◌, inl, inr, refl, sym, ap, ◌∙◌, Bool, true, false, none, some, List, [],
  ◌++◌, ◌==◌, ltb_int64, if◌then◌else◌, Option-cases, Bool-cases, arith,
}
use mathlib.Core.Path.{subst}
use unitdb.Prelude.Maps.{Map, find, insert, erase, find-insert_cases, find-erase}
use unitdb.Filter.{Filter}
use unitdb.Filter.Snapshot.{IsGenerator}
use unitdb.Hash.Consistent.{init_consistent}
use unitdb.Hash.Consistent.Reach.{start, Reach-find}
use unitdb.MemBlock.{MemBlock, i_key, find_record}
use unitdb.TimeMark.{TimeMark, add, time_unref}
use unitdb.Store.Filtered.{Live, LiveAt, IsFiltered, some_inj}
use unitdb.Store.{
  Store, TimeFilter, Reply, done, failed, entry_does_not_exist, block_key, new_filters, new_store,
  add_time_block, new_tiny_log, release_log,
}

find-new_filters :
    (generator : ℕ → Filter) (n bk : ℕ)
    → bk < n
    → find (new_filters generator n) bk ≡ some (record { time_records = []; filter = generator bk })
unfolding find new_filters
find-new_filters generator zero bk h = absurd (omega arith)
find-new_filters generator (suc n) bk h = elim (Bool-cases (n == bk)) [
  | inl b ↦
      let same : n ≡ bk = ground arith in
      rw b (ap (λ i. some (record { time_records = []; filter = generator i })) same)
  | inr b ↦ rw b (find-new_filters generator n bk (ground arith))
]

-- What a new store finds in its filters.
none_recorded :
    (generator : ℕ → Filter) (n bk : ℕ) (r : TimeFilter)
    → find (new_filters generator n) bk ≡ some r
    → r.time_records ≡ []
unfolding find new_filters
none_recorded generator zero bk r e = cc
none_recorded generator (suc n) bk r e = elim (Bool-cases (n == bk)) [
  | inl b ↦
      let same : record { time_records = []; filter = generator n } ≡ r = some_inj (rw b at e) in
      ap (λ (x : TimeFilter). x.time_records) (sym same)
  | inr b ↦ none_recorded generator n bk r (rw b at e)
]

no_block : {Buf : Type 0} {b : MemBlock Buf} (u : ℕ) → find [] u ≡ some b → ⊥
unfolding find
no_block u e = cc

no_filter : {f : Filter} (u : ℕ) → find [] u ≡ some f → ⊥
unfolding find
no_filter u e = cc

module _ {Buf : Type 0} where
  pub IsFiltered-new_store :
      (generator : ℕ → Filter)
      → ((i : ℕ) → IsGenerator (generator i))
      → IsFiltered {Buf = Buf} (new_store generator)
  unfolding new_store block_key init_consistent
  IsFiltered-new_store generator g = record {
    shard = λ key.
        let (bk, e, below, _) = Reach-find 27 key (omega arith) (omega arith) start in
        (
          record { time_records = []; filter = generator bk },
          g bk,
          (bk, e, find-new_filters generator 27 bk below),
        );
    tracked = λ key u r (b, e, _) sh. absurd (no_block u e);
    covered = λ key u t r f (b, e, _) sh had older. absurd (no_block u e);
    newest = λ bk t r f e had.
        absurd (no_filter t (ap (λ m. find m t) (sym (none_recorded generator 27 bk r e)) ∙ had));
  }

  -- A store with other blocks that have no more records, where time did not go back.
  pub IsFiltered-fewer :
      (db : Store Buf) (m : Map (MemBlock Buf)) (tm : TimeMark) (now : ℕ) (s : List ℕ)
      → IsFiltered db
      → ltb_int64 now db.time_id ≡ false
      → ((u k : ℕ) → LiveAt (record db { time_blocks = m }) u k → LiveAt db u k)
      → IsFiltered (record db { time_blocks = m; time_mark = tm; time_id = now; signals = s })
  unfolding block_key
  IsFiltered-fewer db m tm now s i later fewer = record {
    shard = i.shard;
    tracked = λ key u r live sh. i.tracked key u r (fewer u key live) sh;
    covered =
        λ key u t r f live sh had older. i.covered key u t r f (fewer u key live) sh had older;
    newest = λ bk t r f e had. let (late, small) = i.newest bk t r f e had in (ground arith, small);
  }

  pub no_record : (k : ℕ) (b : MemBlock Buf) → b.records ≡ [] → Live b k → ⊥
  unfolding find_record
  no_record k b e (off, h) = clash (ap (λ l. find_record l (i_key false k)) (sym e) ∙ h)
    where
      clash : {x : ℕ} → none ≡ some x → ⊥
      clash p = cc

  abbrev empty_block : Buf → MemBlock Buf
  empty_block contents = record {
    count = 0;
    contents = contents;
    records = [];
    time_refs = [];
    last_offset = 0;
  }

  add_time_block_old :
      (db : Store Buf) (now : ℕ) (contents : Buf) (b : MemBlock Buf)
      → find db.time_blocks now ≡ some b
      → add_time_block db now contents ≡ (db, false)
  unfolding add_time_block
  add_time_block_old db now contents b e = rw (add_time_block, e) refl

  add_time_block_new :
      (db : Store Buf) (now : ℕ) (contents : Buf)
      → find db.time_blocks now ≡ none
      → add_time_block db now contents
        ≡ (record db { time_blocks = insert db.time_blocks now (empty_block contents) }, true)
  unfolding add_time_block
  add_time_block_new db now contents e = rw (add_time_block, e) refl

  pub IsFiltered-new_tiny_log :
      (db : Store Buf) (now : ℕ) (contents : Buf)
      → IsFiltered db
      → ltb_int64 now db.time_id ≡ false
      → IsFiltered (new_tiny_log db now contents)
  unfolding new_tiny_log
  IsFiltered-new_tiny_log db now contents i later = elim (Option-cases (find db.time_blocks now)) [
    | inr (b, e) ↦ subst After (sym (add_time_block_old db now contents b e)) (
        IsFiltered-fewer db db.time_blocks (add db.time_mark now) now db.signals i later
          (λ u k live. live))
    | inl e ↦ subst After (sym (add_time_block_new db now contents e)) (
        IsFiltered-fewer db (insert db.time_blocks now (empty_block contents))
          (add db.time_mark now) now db.signals i later
          (λ u k (b, eb, live).
            elim (find-insert_cases db.time_blocks now u (empty_block contents) b eb) [
              | inr p ↦ (b, p.1, live)
              | inl (at, same) ↦
                  absurd (no_record k b (ap (λ (x : MemBlock Buf). x.records) (sym same)) live)
            ]))
  ]
    where
      After : Store Buf × Bool → Type 0
      After r = IsFiltered (record r.0 { time_mark = add r.0.time_mark now; time_id = now })

  pub release_log_ok :
      (db : Store Buf) (t : ℕ) (b : MemBlock Buf)
      → find db.time_blocks t ≡ some b
      → release_log db t ≡ (
        record db {
          time_blocks = erase db.time_blocks t;
          time_mark = time_unref db.time_mark t;
          signals = db.signals ++ b.time_refs;
        },
        done tt,
      )
  unfolding release_log
  release_log_ok db t b e = rw (release_log, e) refl

  pub release_log_missing :
      (db : Store Buf) (t : ℕ)
      → find db.time_blocks t ≡ none
      → release_log db t ≡ (db, failed entry_does_not_exist)
  unfolding release_log
  release_log_missing db t e = rw (release_log, e) refl

  pub LiveAt-erase :
      (db : Store Buf) (t u k : ℕ)
      → LiveAt (record db { time_blocks = erase db.time_blocks t }) u k
      → LiveAt db u k
  LiveAt-erase db t u k (c, ec, live) = elim (Bool-cases (t == u)) [
    | inl at ↦ absurd (gone (sym (erased at) ∙ ec))
    | inr other ↦ (c, sym (erased other) ∙ ec, live)
  ]
    where
      gone : {x : MemBlock Buf} → none ≡ some x → ⊥
      gone p = cc

      erased :
          {x : Bool}
          → (t == u) ≡ x
          → find (erase db.time_blocks t) u ≡ (if x then none else find db.time_blocks u)
      erased p =
          find-erase db.time_blocks t u ∙ ap (λ x. if x then none else find db.time_blocks u) p

  pub IsFiltered-release_log :
      (db : Store Buf) (t : ℕ) → IsFiltered db → IsFiltered (release_log db t).0
  IsFiltered-release_log db t i = elim (Option-cases (find db.time_blocks t)) [
    | inl e ↦ subst After (sym (release_log_missing db t e)) i
    | inr (b, e) ↦ subst After (sym (release_log_ok db t b e)) (
        IsFiltered-fewer db (erase db.time_blocks t) (time_unref db.time_mark t) db.time_id
          (db.signals ++ b.time_refs) i (same_time db.time_id)
          (λ u k live. LiveAt-erase db t u k live))
  ]
    where
      After : Store Buf × Reply (Unit {0}) → Type 0
      After r = IsFiltered r.0

      same_time : (x : ℕ) → ltb_int64 x x ≡ false
      same_time x = ground arith
