-- ===== src/Store/Removed.antt =====
-- memdb/db.go: a key that is deleted from its only or newest time block is looked up there no more.
use unitdb.Prelude.{
  ℕ, ◌+◌, ◌^◌, ◌≡◌, ◌<◌, refl, sym, ap, ◌∙◌, true, false, some, List, ◌==◌, ltb_int64, ◌>>=◌,
  put_uint, sub64, length-put_uint, arith,
}
use mathlib.Core.Path.{subst}
use unitdb.Prelude.Maps.{find, insert, find-insert_self}
use unitdb.Buffer.{Buffer, IsBuffer}
use unitdb.Filter.{Filter}
use unitdb.Filter.Snapshot.{IsGenerator}
use unitdb.MemBlock.{MemBlock, i_key, insert_record, header_size, put as put_record}
use unitdb.MemBlock.Records.{put_written}
use unitdb.Store.Filtered.{Live, LiveAt, IsFiltered, some_inj}
use unitdb.Store.Fewer.{
  Fewer, Fewer-trans, IsFiltered-Fewer, with_mark, with_mark-Fewer, delete_from-Fewer,
}
use unitdb.Store.Deleted.{marked_gone, marked-count, lookup_gone}
use unitdb.Store.Put.{StoredIn}
use unitdb.Store.Reached.{Reached, Reached-IsKept, delete_found}
use unitdb.Store.{
  Store, done, failed, entry_does_not_exist, marked, move, delete_from, delete, lookup,
}

module _ {Buf : Type 0} (ops : Buffer Buf) (laws : IsBuffer ops) where
  move_steps :
      (db : Store Buf) (t key : ℕ) (b b' : MemBlock Buf)
      → find db.time_blocks db.time_id ≡ some b
      → put_record ops
          (record b { records = insert_record b.records (i_key true key) db.time_id })
          (i_key true key)
          (put_uint 8 t)
        ≡ some b'
      → move ops db t key
        ≡ some (record db { time_blocks = insert db.time_blocks db.time_id b' }, done tt)
  unfolding move
  move_steps db t key b b' e p =
      rw (move, e)
        (ap
          (λ o. o >>= (λ x.
            some (record db { time_blocks = insert db.time_blocks db.time_id x }, done tt)))
          p)

  -- A move ends where the buffer of the current block has room for its record.
  move_ok :
      (db : Store Buf) (t key off : ℕ) (b : MemBlock Buf) (grown : Buf)
      → find db.time_blocks db.time_id ≡ some b
      → ops.extend b.contents (8 + header_size) ≡ some (off, grown)
      → (db' : Store Buf) × (move ops db t key ≡ some (db', done tt))
  move_ok db t key off b grown e ext =
      let (b', p, _, _, _, _) =
        put_written ops laws
          (record b { records = insert_record b.records (i_key true key) db.time_id })
          (i_key true key) (put_uint 8 t) off grown
          (ap (λ n. ops.extend b.contents (n + header_size)) (length-put_uint 8 t) ∙ ext) in
      (
        record db { time_blocks = insert db.time_blocks db.time_id b' },
        move_steps db t key b b' e p,
      )

  delete_from_some :
      (db : Store Buf) (t key : ℕ) (b : MemBlock Buf)
      → ((marked ops b key).count == 0) ≡ false
      → delete_from ops db t b key ≡ move ops (with_mark ops db t b key) t key
  unfolding delete_from
  delete_from_some db t key b c = rw (delete_from, c) refl

same_time :
    (t u : ℕ) → t < 2 ^ 64 → u < 2 ^ 64 → ltb_int64 t u ≡ false → ltb_int64 u t ≡ false → t ≡ u
same_time t u ht hu p q = ground arith

-- A time block with a record is filtered, so its ID has 64 bits and is not newer than the current time.
pub LiveAt-late :
    {Buf : Type 0} (db : Store Buf) (u key : ℕ)
    → IsFiltered db
    → LiveAt db u key
    → (ltb_int64 db.time_id u ≡ false) × (u < 2 ^ 64)
LiveAt-late db u key i live =
    let (r, _, (bk, e, e')) = i.shard key in
    let (_, f, ef) = i.tracked key u r live (bk, e, e') in i.newest bk u r f e' ef

LiveAt-lt :
    {Buf : Type 0} (db : Store Buf) (u key : ℕ) → IsFiltered db → LiveAt db u key → u < 2 ^ 64
LiveAt-lt db u key i live = (LiveAt-late db u key i live).1

-- In a store that time, puts, deletions and releases have led to, a key is deleted whose newest record
-- stands in a time block that has other entries, where the buffer of the current block has room for the
-- record of the deletion: the deletion reports no error, the key is not looked up in that block any
-- more, and the filters stay true.
pub delete-lookup :
    {Buf : Type 0} (ops : Buffer Buf) (laws : IsBuffer ops) (generator : ℕ → Filter)
    (db : Store Buf) (key t off : ℕ) (b c : MemBlock Buf) (d : List ℕ) (grown : Buf)
    → ((i : ℕ) → IsGenerator (generator i))
    → Reached ops generator db
    → find db.time_blocks t ≡ some b
    → StoredIn ops b key d
    → ((u : ℕ) → LiveAt db u key → ltb_int64 t u ≡ false)
    → (sub64 b.count 1 == 0) ≡ false
    → find (with_mark ops db t b key).time_blocks db.time_id ≡ some c
    → ops.extend c.contents (8 + header_size) ≡ some (off, grown)
    → (db' : Store Buf) × (delete ops db key ≡ some (db', done tt))
      × (lookup ops db' t key ≡ some (failed entry_does_not_exist))
      × IsFiltered db'
delete-lookup ops laws generator db key t off b c d grown g reached found stored newest others
      current ext =
    let k = Reached-IsKept ops laws generator g reached in
    let live : LiveAt db t key = (b, found, (stored.0, stored.1)) in
    let (t', b', found', has, late, runs) = delete_found ops db key t k.alive k.filtered live in
    let at : t' ≡ t =
      same_time t' t (LiveAt-lt db t' key k.filtered (b', found', has))
        (LiveAt-lt db t key k.filtered live) late (newest t' (b', found', has)) in
    let one : b' ≡ b = some_inj (sym found' ∙ ap (find db.time_blocks) at ∙ found) in
    let marks = with_mark ops db t b key in
    let (db', moved) = move_ok ops laws marks t key off c grown current ext in
    let ran : delete_from ops db t b key ≡ some (db', done tt) =
      delete_from_some ops laws db t key b
        (ap (λ n. n == 0) (marked-count ops laws b key d stored) ∙ others)
      ∙ moved in
    let w : Fewer marks db' = (delete_from-Fewer ops db t b key).given (db', done tt) ran in
    (
      db',
      runs
          ∙ ap (λ x. delete_from ops db x b' key) at
          ∙ ap (λ x. delete_from ops db t x key) one
          ∙ ran,
      lookup_gone ops laws db' t key (w.closing ∙ k.alive) (λ l.
          let (x, ex, lx) = w.live t key l in
          let same : marked ops b key ≡ x =
            some_inj (sym (find-insert_self db.time_blocks t (marked ops b key)) ∙ ex) in
          marked_gone ops laws b key d stored (subst (λ y. Live y key) (sym same) lx)),
      IsFiltered-Fewer db db' (Fewer-trans db marks db' (with_mark-Fewer ops db t b key found) w)
          k.filtered,
    )
