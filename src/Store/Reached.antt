-- ===== src/Store/Reached.antt =====
-- memdb/db.go: the stores that time, puts, deletions and releases lead to. A key that is in one of them is found.
use unitdb.Prelude.{
  ℕ, ◌+◌, ◌^◌, ◌≡◌, ◌<◌, inl, inr, refl, sym, ap, ◌∙◌, false, some, List, ltb_int64, if◌then◌else◌,
  ◌>>=◌, length, Option-cases, arith,
}
use mathlib.Core.Path.{subst}
use unitdb.Prelude.Maps.{find, keys}
use unitdb.Buffer.{Buffer, IsBuffer}
use unitdb.Filter.{Filter}
use unitdb.Filter.Snapshot.{IsGenerator}
use unitdb.MemBlock.{MemBlock, header_size}
use unitdb.Store.Filtered.{Live, LiveAt, IsFiltered, some_inj}
use unitdb.Store.Lifecycle.{
  IsFiltered-new_store, IsFiltered-new_tiny_log, IsFiltered-release_log, release_log_ok,
  release_log_missing,
}
use unitdb.Store.Fewer.{Fewer, IsFiltered-Fewer}
use unitdb.Store.Deleted.{delete-Fewer}
use unitdb.Store.Put.{put-Puts}
use unitdb.Store.Search.{
  search-Newest, In-keys, find-keys, In-newest_first, In-All, All-newest_first,
  newest_first-IsNewestFirst,
}
use unitdb.Store.{
  Reply, Store, TimeFilter, done, failed, closed, block_key, new_store, new_tiny_log,
  add_time_block, newest_first, search_blocks, put, release_log, delete_from, delete,
}

module _ {Buf : Type 0} (ops : Buffer Buf) (generator : ℕ → Filter) where
  -- A store after any steps: time that goes on, with a new block; a put for which the buffer of the
  -- current block has room; a deletion that gives any answer; a release.
  pub data Reached : Store Buf → Type 0 where
    opened : Reached (new_store generator)
    tick :
        {db : Store Buf} (now : ℕ) (contents : Buf)
        → now < 2 ^ 64
        → ltb_int64 now db.time_id ≡ false
        → Reached db
        → Reached (new_tiny_log db now contents)
    puts :
        {db db' : Store Buf} (b : MemBlock Buf) (key off : ℕ) (d : List ℕ) (grown : Buf)
        → find db.time_blocks db.time_id ≡ some b
        → length d + header_size < 2 ^ 32
        → ops.extend b.contents (length d + header_size) ≡ some (off, grown)
        → put ops db key d ≡ some (db', done db.time_id)
        → Reached db
        → Reached db'
    deletes :
        {db db' : Store Buf} {reply : Reply (Unit {0})} (key : ℕ)
        → delete ops db key ≡ some (db', reply)
        → Reached db
        → Reached db'
    releases : {db : Store Buf} (t : ℕ) → Reached db → Reached (release_log db t).0

  -- What every such store keeps.
  pub record IsKept (db : Store Buf) : Type 0 where
    pub alive : db.is_closed ≡ false
    pub fits : db.time_id < 2 ^ 64
    pub filtered : IsFiltered db

is_closed-new_tiny_log :
    {Buf : Type 0} (db : Store Buf) (now : ℕ) (contents : Buf)
    → (new_tiny_log db now contents).is_closed ≡ db.is_closed
unfolding new_tiny_log add_time_block
is_closed-new_tiny_log db now contents = elim (Option-cases (find db.time_blocks now)) [
  | inl e ↦ rw (new_tiny_log, add_time_block, e) refl
  | inr (b, e) ↦ rw (new_tiny_log, add_time_block, e) refl
]

release_log-same :
    {Buf : Type 0} (db : Store Buf) (t : ℕ)
    → ((release_log db t).0.is_closed ≡ db.is_closed) × ((release_log db t).0.time_id ≡ db.time_id)
release_log-same db t = elim (Option-cases (find db.time_blocks t)) [
  | inl e ↦
      subst (λ r. (r.0.is_closed ≡ db.is_closed) × (r.0.time_id ≡ db.time_id))
        (sym (release_log_missing db t e)) (refl, refl)
  | inr (b, e) ↦
      subst (λ r. (r.0.is_closed ≡ db.is_closed) × (r.0.time_id ≡ db.time_id))
        (sym (release_log_ok db t b e)) (refl, refl)
]

module _ {Buf : Type 0} (ops : Buffer Buf) (laws : IsBuffer ops) (generator : ℕ → Filter) where
  pub Reached-IsKept :
      ((i : ℕ) → IsGenerator (generator i))
      → {db : Store Buf} → Reached ops generator db
      → IsKept ops generator db
  unfolding new_store new_tiny_log
  Reached-IsKept g opened = record {
    alive = refl;
    fits = omega arith;
    filtered = IsFiltered-new_store generator g;
  }
  Reached-IsKept g (tick {db} now contents small later r) =
      let k = Reached-IsKept g r in
      record {
        alive = is_closed-new_tiny_log db now contents ∙ k.alive;
        fits = small;
        filtered = IsFiltered-new_tiny_log db now contents k.filtered later;
      }
  Reached-IsKept g (puts {db} {db'} b key off d grown found small ext run r) =
      let k = Reached-IsKept g r in
      let (db₁, p) =
        put-Puts ops laws db b key off d grown k.alive k.filtered k.fits found small ext in
      let same : (db₁, done db.time_id) ≡ (db', done db.time_id) = some_inj (sym p.answer ∙ run) in
      subst (λ x. IsKept ops generator x.0) same
        (record {
          alive = p.alive;
          fits = subst (λ x. x < 2 ^ 64) (sym p.now) k.fits;
          filtered = p.filtered;
        })
  Reached-IsKept g (deletes {db} {db'} {reply} key run r) =
      let k = Reached-IsKept g r in
      let w : Fewer db db' = (delete-Fewer ops db key).given (db', reply) run in
      record {
        alive = w.closing ∙ k.alive;
        fits = subst (λ x. x < 2 ^ 64) (sym w.now) k.fits;
        filtered = IsFiltered-Fewer db db' w k.filtered;
      }
  Reached-IsKept g (releases {db} t r) =
      let k = Reached-IsKept g r in
      let (c, at) = release_log-same db t in
      record {
        alive = c ∙ k.alive;
        fits = subst (λ x. x < 2 ^ 64) (sym at) k.fits;
        filtered = IsFiltered-release_log db t k.filtered;
      }

module _ {Buf : Type 0} (ops : Buffer Buf) where
  delete_steps :
      (db : Store Buf) (key bk t : ℕ) (r : TimeFilter) (b : MemBlock Buf)
      → db.is_closed ≡ false
      → block_key db key ≡ some bk
      → find db.time_filters bk ≡ some r
      → search_blocks db r key (newest_first (keys r.time_records)) ≡ some (some (t, b))
      → delete ops db key ≡ delete_from ops db t b key
  unfolding delete
  delete_steps db key bk t r b e₀ e₁ e₂ e₃ =
      rw (delete, e₁, ◌>>=◌, e₂, e₃)
        (ap (λ c. if c then some (db, failed closed) else delete_from ops db t b key) e₀)

  -- A key that stands in a time block of a filtered store is deleted from the newest block with it.
  pub delete_found :
      (db : Store Buf) (key u : ℕ)
      → db.is_closed ≡ false
      → IsFiltered db
      → LiveAt db u key
      → (t : ℕ) × (b : MemBlock Buf) × (find db.time_blocks t ≡ some b)
        × Live b key
        × (ltb_int64 t u ≡ false)
        × (delete ops db key ≡ delete_from ops db t b key)
  delete_found db key u alive i live =
      let (r, _, (bk, e, e')) = i.shard key in
      let (_, f, ef) = i.tracked key u r live (bk, e, e') in
      let ids = keys r.time_records in
      let recorded =
        In-All (λ t. (f : Filter) × (find r.time_records t ≡ some f)) ids
          (λ t at. find-keys r.time_records t at) in
      let small =
        In-All (λ t. t < 2 ^ 64) ids
          (λ t at. let (g, eg) = find-keys r.time_records t at in (i.newest bk t r g e' eg).1) in
      let (t, b, es, found, has, late) =
        search-Newest db r key u (newest_first ids) i (bk, e, e') live (i.newest bk u r f e' ef).1
          (newest_first-IsNewestFirst ids small)
          (All-newest_first (λ t. (f : Filter) × (find r.time_records t ≡ some f)) ids recorded)
          (In-newest_first u ids (In-keys r.time_records u f ef)) in
      (t, b, found, has, late, delete_steps db key bk t r b alive e e' es)

-- In a store that time, puts, deletions and releases have led to, a deletion of a key that stands in some time
-- block goes to the newest time block with the key: no filter on the way denies the key. The filters
-- that the store starts with have the size and the random words that the code takes.
pub delete-newest :
    {Buf : Type 0} (ops : Buffer Buf) (laws : IsBuffer ops) (generator : ℕ → Filter)
    (db : Store Buf) (key u : ℕ)
    → ((i : ℕ) → IsGenerator (generator i))
    → Reached ops generator db
    → LiveAt db u key
    → (t : ℕ) × (b : MemBlock Buf) × (find db.time_blocks t ≡ some b)
      × Live b key
      × (ltb_int64 t u ≡ false)
      × (delete ops db key ≡ delete_from ops db t b key)
delete-newest ops laws generator db key u g reached live =
    let k = Reached-IsKept ops laws generator g reached in
    delete_found ops db key u k.alive k.filtered live
