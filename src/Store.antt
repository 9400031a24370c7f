-- ===== src/Store.antt =====
-- memdb/db.go and memdb/db_internal.go: the memory store, whose time blocks are those of MemBlock.
pub mod Batch
pub mod Filtered
pub mod Added
pub mod Search
pub mod Put
pub mod Lifecycle
pub mod Fewer
pub mod Deleted
pub mod Reached
pub mod Removed
use unitdb.Prelude.{
  ℕ, zero, suc, ◌+◌, ◌%◌, ◌^◌, Bool, true, false, ◌&&◌, Option, none, some, List, [], ◌∷◌, ◌++◌,
  ◌==◌, ltb_int64, if◌then◌else◌, ◌>>=◌, put_uint, add64, length,
}
use unitdb.Prelude.Maps.{Map, find, insert, erase, keys}
use unitdb.Buffer.{Buffer}
use unitdb.Filter.{Filter, new_filter_block, bytes, add, test}
use unitdb.Hash.Consistent.{Consistent, init_consistent, find_block}
use unitdb.MemBlock.{
  Key, MemBlock, i_key, find_record, insert_record, get, put as put_record, delete as delete_record,
}
use unitdb.TimeMark.{TimeMark, new_time_mark, add as add_time, time_refs, time_unref}

-- `filter` has every key of the shard; the filter of a time block has those that were there before it.
pub record TimeFilter : Type 0 where
  pub time_records : Map Filter
  pub filter : Filter

-- `time_id` is that of the log manager. `signals` are the time references for which the write-ahead log
-- was told that they are applied. The caches of the query manager are left out.
pub record Store (Buf : Type 0) : Type 0 where
  pub time_blocks : Map (MemBlock Buf)
  pub time_filters : Map TimeFilter
  pub consistent : Consistent
  pub time_mark : TimeMark
  pub time_id : ℕ
  pub is_closed : Bool
  pub signals : List ℕ

pub data Failure : Type 0 where
  closed : Failure
  entry_does_not_exist : Failure
  forbidden : Failure

pub data Reply {ℓ} (A : Type ℓ) : Type ℓ where
  done : (a : A) → Reply A
  failed : (e : Failure) → Reply A

unfoldable pub block_key : {Buf : Type 0} → Store Buf → ℕ → Option ℕ
unfolding find_block
block_key db key = find_block db.consistent key

-- `data` is the new buffer of the pool.
unfoldable pub add_time_block : {Buf : Type 0} → Store Buf → ℕ → Buf → Store Buf × Bool
unfolding find insert
add_time_block db time_id contents = elim (find db.time_blocks time_id) [
  | some b ↦ (db, false)
  | none ↦
      let b : MemBlock _ = record {
        count = 0;
        contents = contents;
        records = [];
        time_refs = [];
        last_offset = 0;
      } in
      (record db { time_blocks = insert db.time_blocks time_id b }, true)
]

abbrev pub n_blocks : ℕ
n_blocks = 27

-- The filters of the shards below `n`; `generator` gives the new filter of each.
unfoldable pub new_filters : (ℕ → Filter) → ℕ → Map TimeFilter
new_filters generator zero = []
new_filters generator (suc n) =
    (n, record { time_records = []; filter = generator n }) ∷ new_filters generator n

-- The store as `Open` makes it, before its first time block.
unfoldable pub new_store : {Buf : Type 0} → (ℕ → Filter) → Store Buf
unfolding new_filters init_consistent new_time_mark
new_store generator = record {
  time_blocks = [];
  time_filters = new_filters generator n_blocks;
  consistent = init_consistent n_blocks n_blocks;
  time_mark = new_time_mark;
  time_id = 0;
  is_closed = false;
  signals = [];
}

-- `now` is the clock, cut to the duration of a block.
unfoldable pub new_tiny_log : {Buf : Type 0} → Store Buf → ℕ → Buf → Store Buf
unfolding add_time_block add_time
new_tiny_log db now contents =
    let db' = (add_time_block db now contents).0 in
    record db' { time_mark = add_time db'.time_mark now; time_id = now }

-- `none` is the error on a store that is closed already. The log is taken to close without one.
unfoldable pub close : {Buf : Type 0} → Store Buf → Option (Store Buf)
close db = if db.is_closed then none else some (record db { is_closed = true; time_blocks = [] })

-- The filters of a shard, with a filter for the time block: a copy of what the shard's filter has now.
unfoldable pub with_time_record : TimeFilter → ℕ → Option (Map Filter)
unfolding find insert
with_time_record r time_id = elim (find r.time_records time_id) [
  | some f ↦ some r.time_records
  | none ↦ do f ← new_filter_block (bytes r.filter); some (insert r.time_records time_id f)
]

-- `none` is a panic, such as that of a shard without filters.
unfoldable pub add_time_filter : {Buf : Type 0} → Store Buf → ℕ → ℕ → Option (Store Buf)
unfolding block_key find insert with_time_record add
add_time_filter db time_id key = do
  bk ← block_key db key
  r ← find db.time_filters bk
  records ← with_time_record r time_id
  f ← add r.filter key
  some (record db {
    time_filters = insert db.time_filters bk (record { time_records = records; filter = f });
  })

-- `sort.Slice` in descending order.
unfoldable pub insert_newest : ℕ → List ℕ → List ℕ
insert_newest x [] = x ∷ []
insert_newest x (y ∷ ys) =
    let rest = insert_newest x ys in if ltb_int64 x y then y ∷ rest else x ∷ y ∷ ys

unfoldable pub newest_first : List ℕ → List ℕ
unfolding insert_newest
newest_first [] = []
newest_first (x ∷ xs) = insert_newest x (newest_first xs)

-- The newest time block with the key. The search gives up at a block without the key whose filter
-- does not have it. The outer `none` is the panic of a block without a filter.
unfoldable pub search_blocks :
    {Buf : Type 0} → Store Buf → TimeFilter → ℕ → List ℕ → Option (Option (ℕ × MemBlock Buf))
unfolding find find_record i_key test
search_blocks db r key [] = some none
search_blocks db r key (time_id ∷ time_ids) =
    let rest = search_blocks db r key time_ids in
    elim (find db.time_blocks time_id) [
      | none ↦ rest
      | some b ↦ elim (find_record b.records (i_key false key)) [
        | some off ↦ some (some (time_id, b))
        | none ↦ do
          f ← find r.time_records time_id
          maybe ← test f key
          if maybe then rest else some none
      ]
    ]

unfoldable pub live_keys : List (Key × ℕ) → List ℕ
live_keys [] = []
live_keys ((k, off) ∷ m) = let rest = live_keys m in if k.del_flag == 0 then k.key ∷ rest else rest

unfoldable pub keys_of : {Buf : Type 0} → Map (MemBlock Buf) → List ℕ
unfolding live_keys
keys_of [] = []
keys_of ((t, b) ∷ m) = live_keys b.records ++ keys_of m

unfoldable pub all_keys : {Buf : Type 0} → Store Buf → List ℕ
unfolding keys_of
all_keys db = keys_of db.time_blocks

unfoldable pub size_of : {Buf : Type 0} → Map (MemBlock Buf) → ℕ
size_of [] = 0
size_of ((t, b) ∷ m) = add64 b.count (size_of m)

unfoldable pub size : {Buf : Type 0} → Store Buf → ℕ
unfolding size_of
size db = size_of db.time_blocks

-- The released time blocks with their keys, as the iterator gives them to its function, which says
-- whether to stop and with which error.
unfoldable pub iterate :
    {Buf S E : Type 0}
    → Store Buf
    → (S → ℕ → List ℕ → S × Bool × Option E)
    → S
    → List ℕ
    → S × Option E
unfolding find live_keys
iterate db f s [] = (s, none)
iterate db f s (time_id ∷ time_ids) = elim (find db.time_blocks time_id) [
  | none ↦ iterate db f s time_ids
  | some b ↦ elim (live_keys b.records) [
    | [] ↦ iterate db f s time_ids
    | k ∷ ks ↦
        let (s', stop, e) = f s time_id (k ∷ ks) in
        elim stop [
          | true ↦ (s', e)
          | false ↦ elim e [ some err ↦ (s', some err) | none ↦ iterate db f s' time_ids ]
        ]
  ]
]

unfoldable pub block_iterator :
    {Buf S E : Type 0} → Store Buf → (S → ℕ → List ℕ → S × Bool × Option E) → S → S × Option E
unfolding iterate time_refs
block_iterator db f s = iterate db f s (time_refs db.time_mark db.time_id)

-- The buffer goes back to the pool.
unfoldable pub release_log : {Buf : Type 0} → Store Buf → ℕ → Store Buf × Reply (Unit {0})
unfolding find erase time_unref
release_log db time_id = elim (find db.time_blocks time_id) [
  | none ↦ (db, failed entry_does_not_exist)
  | some b ↦ (
    record db {
      time_blocks = erase db.time_blocks time_id;
      time_mark = time_unref db.time_mark time_id;
      signals = db.signals ++ b.time_refs;
    },
    done tt,
  )
]

module _ {Buf : Type 0} (ops : Buffer Buf) where
  -- A put into a time block. `none` is an error of the buffer, or a panic.
  unfoldable pub put_at : Store Buf → ℕ → ℕ → List ℕ → Option (Store Buf × Reply ℕ)
  unfolding find insert i_key put_record add_time_filter
  put_at db time_id key d =
      if db.is_closed then some (db, failed closed) else elim (find db.time_blocks time_id) [
        | none ↦ some (db, failed forbidden)
        | some b ↦ do
          b' ← put_record ops b (i_key false key) d
          db' ←
              add_time_filter (record db { time_blocks = insert db.time_blocks time_id b' }) time_id
                key
          some (db', done time_id)
      ]

  unfoldable pub put : Store Buf → ℕ → List ℕ → Option (Store Buf × Reply ℕ)
  unfolding put_at
  put db key d = put_at db db.time_id key d

  unfoldable pub lookup : Store Buf → ℕ → ℕ → Option (Reply (List ℕ))
  unfolding find find_record i_key get
  lookup db time_id key =
      if db.is_closed then some (failed closed) else elim (find db.time_blocks time_id) [
        | none ↦ some (failed entry_does_not_exist)
        | some b ↦ elim (find_record b.records (i_key false key)) [
          | none ↦ some (failed entry_does_not_exist)
          | some off ↦ get ops b off >>= λ d. some (done d)
        ]
      ]

  -- The record of a deletion, in the current block. Its offset in the map is first the time ID.
  unfoldable pub move : Store Buf → ℕ → ℕ → Option (Store Buf × Reply (Unit {0}))
  unfolding find insert i_key insert_record put_record put_uint
  move db time_id key = elim (find db.time_blocks db.time_id) [
    | none ↦ some (db, failed forbidden)
    | some b ↦ do
      b' ←
          put_record ops
            (record b { records = insert_record b.records (i_key true key) db.time_id })
            (i_key true key) (put_uint 8 time_id)
      some (record db { time_blocks = insert db.time_blocks db.time_id b' }, done tt)
  ]

  -- The block with its mark; an error of the buffer is not looked at.
  unfoldable pub marked : MemBlock Buf → ℕ → MemBlock Buf
  unfolding delete_record
  marked b key = elim (delete_record ops b key) [ none ↦ b | some b' ↦ b' ]

  -- Where the buffer fails to take the mark, `move` leaves its key in the map.
  unfoldable pub mark_only : Store Buf → ℕ → Store Buf
  unfolding find insert i_key insert_record
  mark_only db key = elim (find db.time_blocks db.time_id) [
    | none ↦ db
    | some b ↦ record db {
      time_blocks =
          insert db.time_blocks db.time_id
            (record b { records = insert_record b.records (i_key true key) db.time_id });
    }
  ]

  -- What is left of a block without entries: the offsets in it are taken for time IDs, and those that
  -- are a time block's lead to a move. A move into the block itself waits for the block's own lock,
  -- which is `none` too. Errors of `move` are not looked at.
  unfoldable pub drain : Store Buf → ℕ → List (Key × ℕ) → Option (Store Buf)
  unfolding move mark_only find
  drain db time_id [] = some db
  drain db time_id ((k, off) ∷ m) = elim (find db.time_blocks off) [
    | none ↦ drain db time_id m
    | some b ↦ if time_id == db.time_id then none else elim (move db off k.key) [
      | none ↦ drain (mark_only db k.key) time_id m
      | some r ↦ drain r.0 time_id m
    ]
  ]

  unfoldable pub without_records : Store Buf → ℕ → Store Buf
  unfolding find insert
  without_records db time_id = elim (find db.time_blocks time_id) [
    | none ↦ db
    | some b ↦ record db { time_blocks = insert db.time_blocks time_id (record b { records = [] }) }
  ]

  unfoldable pub delete_from :
      Store Buf → ℕ → MemBlock Buf → ℕ → Option (Store Buf × Reply (Unit {0}))
  unfolding marked insert drain without_records release_log move
  delete_from db time_id b key =
      let b' = marked b key in
      let db' = record db { time_blocks = insert db.time_blocks time_id b' } in
      if b'.count == 0
      then (drain db' time_id b'.records >>= λ drained.
          let rest = without_records drained time_id in
          if ltb_int64 time_id db.time_id
          then some (release_log rest time_id)
          else move rest time_id key)
      else move db' time_id key

  unfoldable pub delete : Store Buf → ℕ → Option (Store Buf × Reply (Unit {0}))
  unfolding block_key find keys newest_first search_blocks
  delete db key =
      if db.is_closed
      then some (db, failed closed)
      else block_key db key >>= λ bk. elim (find db.time_filters bk) [
        | none ↦ some (db, failed entry_does_not_exist)
        | some r ↦ search_blocks db r key (newest_first (keys r.time_records)) >>= λ found.
            elim found [
              | none ↦ some (db, failed entry_does_not_exist)
              | some (time_id, b) ↦ delete_from db time_id b key
            ]
      ]
