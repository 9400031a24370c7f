-- ===== src/Store/Filtered.antt =====
-- memdb/db_internal.go: what the filters of the time blocks hold.
use unitdb.Prelude.{
  ℕ, ◌^◌, ◌≡◌, ◌<◌, ◌⊎◌, inl, inr, refl, ap, ◌∙◌, true, false, none, some, ◌==◌, ltb_int64,
  if◌then◌else◌, ◌>>=◌, Option-cases, Bool-cases,
}
use unitdb.Prelude.Maps.{
  Map, find, insert, find-insert, find-insert_self, find-insert_ne, find-insert_cases,
}
use unitdb.Filter.{Filter, new_filter_block, bytes, add, test}
use unitdb.Filter.Members.{Contains}
use unitdb.Filter.Snapshot.{IsGenerator, snapshot}
use unitdb.MemBlock.{MemBlock, i_key, find_record}
use unitdb.Store.{Store, TimeFilter, block_key, with_time_record, add_time_filter}

-- The time block has a record of the key.
abbrev pub Live : {Buf : Type 0} → MemBlock Buf → ℕ → Type 0
Live b key = (off : ℕ) × (find_record b.records (i_key false key) ≡ some off)

-- A time block of the store has a record of the key.
abbrev pub LiveAt : {Buf : Type 0} → Store Buf → ℕ → ℕ → Type 0
LiveAt {Buf} db u key = (b : MemBlock Buf) × (find db.time_blocks u ≡ some b) × Live b key

-- The filters of the key's shard.
abbrev pub ShardOf : {Buf : Type 0} → Store Buf → ℕ → TimeFilter → Type 0
ShardOf db key r = (bk : ℕ) × (block_key db key ≡ some bk) × (find db.time_filters bk ≡ some r)

-- Every key has the filters of its shard. The shard's filter has the keys of its time blocks, which
-- have filters; that of a time block has the keys of all older ones. No filter is newer than the
-- current time.
pub record IsFiltered {Buf : Type 0} (db : Store Buf) : Type 0 where
  pub shard : (key : ℕ) → (r : TimeFilter) × IsGenerator r.filter × ShardOf db key r
  pub tracked :
      (key u : ℕ) (r : TimeFilter)
      → LiveAt db u key
      → ShardOf db key r
      → Contains r.filter key × (f : Filter) × (find r.time_records u ≡ some f)
  pub covered :
      (key u t : ℕ) (r : TimeFilter) (f : Filter)
      → LiveAt db u key
      → ShardOf db key r
      → find r.time_records t ≡ some f
      → ltb_int64 u t ≡ true
      → test f key ≡ some true
  pub newest :
      (bk t : ℕ) (r : TimeFilter) (f : Filter)
      → find db.time_filters bk ≡ some r
      → find r.time_records t ≡ some f
      → (ltb_int64 db.time_id t ≡ false) × (t < 2 ^ 64)

-- The filters with one for the time block: it is a copy of the shard's filter, where it is new.
pub record Records (r : TimeFilter) (time_id : ℕ) (m : Map Filter) : Type 0 where
  pub made : (f : Filter) × (find m time_id ≡ some f)
  pub keeps :
      (t : ℕ) (f : Filter) → find r.time_records t ≡ some f → (g : Filter) × (find m t ≡ some g)
  pub cases :
      (t : ℕ) (f : Filter)
      → find m t ≡ some f
      → (find r.time_records t ≡ some f) ⊎ ((time_id ≡ t) × (record r.filter { n = 0 } ≡ f))

with_new_record :
    (r : TimeFilter) (time_id : ℕ) (f : Filter)
    → find r.time_records time_id ≡ none
    → new_filter_block (bytes r.filter) ≡ some f
    → with_time_record r time_id ≡ some (insert r.time_records time_id f)
unfolding with_time_record
with_new_record r time_id f e e' = rw (with_time_record, e, e', ◌>>=◌)

pub with_time_record-Records :
    (r : TimeFilter) (time_id : ℕ)
    → IsGenerator r.filter
    → (m : Map Filter) × (with_time_record r time_id ≡ some m) × Records r time_id m
unfolding with_time_record
with_time_record-Records r time_id g = elim (Option-cases (find r.time_records time_id)) [
  | inr (f, e) ↦ (
    r.time_records,
    rw (with_time_record, e) refl,
    record { made = (f, e); keeps = λ t f' h. (f', h); cases = λ t f' h. inl h },
  )
  | inl e ↦
      let copy : Filter = record r.filter { n = 0 } in
      let m : Map Filter = insert r.time_records time_id copy in
      (
        m,
        with_new_record r time_id copy e (snapshot r.filter g),
        record {
          made = (copy, find-insert_self r.time_records time_id copy);
          keeps = λ t f h. kept copy t f h;
          cases = λ t f h. elim (find-insert_cases r.time_records time_id t copy f h) [
            | inl p ↦ inr p
            | inr p ↦ inl p.1
          ];
        },
      )
]
  where
    kept :
        (copy : Filter) (t : ℕ) (f : Filter)
        → find r.time_records t ≡ some f
        → (g : Filter) × (find (insert r.time_records time_id copy) t ≡ some g)
    kept copy t f h = elim (Bool-cases (time_id == t)) [
      | inl b ↦ (
        copy,
        find-insert r.time_records time_id t copy
            ∙ ap (λ c. if c then some copy else find r.time_records t) b,
      )
      | inr b ↦ (f, find-insert_ne r.time_records time_id t copy b ∙ h)
    ]

pub some_inj : {A : Type 0} {a b : A} → some a ≡ some b → a ≡ b
some_inj e = cc

pub add_time_filter_steps :
    {Buf : Type 0} (db : Store Buf) (time_id key bk : ℕ) (r : TimeFilter) (m : Map Filter)
    (f : Filter)
    → block_key db key ≡ some bk
    → find db.time_filters bk ≡ some r
    → with_time_record r time_id ≡ some m
    → add r.filter key ≡ some f
    → add_time_filter db time_id key
      ≡ some (record db {
        time_filters = insert db.time_filters bk (record { time_records = m; filter = f });
      })
unfolding add_time_filter
add_time_filter_steps db time_id key bk r m f e₁ e₂ e₃ e₄ =
    rw (add_time_filter, e₁, ◌>>=◌, e₂, e₃, e₄)
