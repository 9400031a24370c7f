-- ===== src/Tests/Store.antt =====
-- memdb/db.go: a store with two keys.
use unitdb.Prelude.{
  ℕ, ◌^◌, ◌≡◌, ◌<◌, refl, ap, ◌∙◌, add64, sub64, ◌==◌, ◌&&◌, false, none, some, List, [], ◌∷◌, ◌++◌,
  ltb_int64, length, replicate, length-replicate, All-replicate, arith,
}
use unitdb.Prelude.Maps.{find, find-insert_self}
use unitdb.Filter.{Filter, bloom_bits}
use unitdb.Filter.Snapshot.{IsGenerator}
use unitdb.MemBlock.{MemBlock, i_key}
use unitdb.Store.{
  failed, entry_does_not_exist, marked, search_blocks, newest_first, Store, done, new_store,
  new_tiny_log, add_time_block, put, lookup, delete, delete_from,
}
use unitdb.Store.Removed.{LiveAt-late, delete-lookup}
use unitdb.Store.Filtered.{Live, LiveAt, IsFiltered}
use unitdb.Store.Put.{Puts, put-Puts, put-lookup}
use unitdb.Store.Reached.{Reached, opened, tick, puts, Reached-IsKept, IsKept, delete-newest}
use unitdb.Tests.Buffers.{list_ops, list_ops-IsBuffer}

abbrev generator : ℕ → Filter
generator i = record {
  bits = replicate 2500 0;
  keys = 1 ∷ 2 ∷ 3 ∷ 4 ∷ 5 ∷ 6 ∷ 7 ∷ [];
  m = bloom_bits;
  n = 0;
}

generator-IsGenerator : (i : ℕ) → IsGenerator (generator i)
generator-IsGenerator i = record {
  valid = record {
    some_bits = omega arith;
    full = length-replicate {A = ℕ} 2500 0;
    widths = All-replicate (λ w. w < 2 ^ 64) 2500 0 (omega arith);
  };
  size = refl;
  hashes = refl;
  widths = (
    omega arith,
    (omega arith, (omega arith, (omega arith, (omega arith, (omega arith, (omega arith, tt)))))),
  );
}

abbrev started : Store (List ℕ)
started = new_tiny_log (new_store generator) 1000 []

started-Reached : Reached list_ops generator started
unfolding new_store
started-Reached = tick 1000 [] (omega arith) refl opened

abbrev fresh : MemBlock (List ℕ)
fresh = record { count = 0; contents = []; records = []; time_refs = []; last_offset = 0 }

started_block : find started.time_blocks started.time_id ≡ some fresh
unfolding new_tiny_log new_store add_time_block find
started_block = refl

first_put :
    (db : Store (List ℕ)) × Puts list_ops list_ops-IsBuffer started fresh 300 (7 ∷ 8 ∷ []) db
first_put =
    let k =
      Reached-IsKept list_ops list_ops-IsBuffer generator generator-IsGenerator started-Reached in
    put-Puts list_ops list_ops-IsBuffer started fresh 300 0 (7 ∷ 8 ∷ []) (replicate 15 0) k.alive
      k.filtered k.fits started_block (omega arith) refl

abbrev one_key : Store (List ℕ)
one_key = first_put.0

one_key-Reached : Reached list_ops generator one_key
one_key-Reached =
    puts fresh 300 0 (7 ∷ 8 ∷ []) (replicate 15 0) started_block (omega arith) refl
      first_put.1.answer started-Reached

one_key-IsKept : IsKept list_ops generator one_key
one_key-IsKept =
    Reached-IsKept list_ops list_ops-IsBuffer generator generator-IsGenerator one_key-Reached

one_key-LiveAt : LiveAt one_key started.time_id 300
one_key-LiveAt = let (b, e, (off, e', _)) = first_put.1.has in (b, e, (off, e'))

delete-newest_example :
    (t : ℕ) × (b : MemBlock (List ℕ)) × (find one_key.time_blocks t ≡ some b)
    × Live b 300
    × (ltb_int64 t started.time_id ≡ false)
    × (delete list_ops one_key 300 ≡ delete_from list_ops one_key t b 300)
delete-newest_example =
    delete-newest list_ops list_ops-IsBuffer generator one_key 300 started.time_id
      generator-IsGenerator one_key-Reached one_key-LiveAt

abbrev one_block : MemBlock (List ℕ)
one_block = first_put.1.has.0

one_block_now : find one_key.time_blocks one_key.time_id ≡ some one_block
one_block_now = ap (find one_key.time_blocks) first_put.1.now ∙ first_put.1.has.1

put-lookup_example :
    (db' : Store (List ℕ)) × (put list_ops one_key 400 (9 ∷ []) ≡ some (db', done one_key.time_id))
    × (lookup list_ops db' one_key.time_id 400 ≡ some (done (9 ∷ [])))
    × (lookup list_ops db' started.time_id 300 ≡ some (done (7 ∷ 8 ∷ [])))
    × IsFiltered db'
put-lookup_example =
    put-lookup list_ops list_ops-IsBuffer one_key one_block 400 (length one_block.contents)
      started.time_id 300 (9 ∷ []) (7 ∷ 8 ∷ []) (one_block.contents ++ replicate 14 0)
      one_key-IsKept.alive one_key-IsKept.filtered one_key-IsKept.fits one_block_now (omega arith)
      refl first_put.1.has other
  where
    other : ((started.time_id == one_key.time_id) && (300 == 400)) ≡ false
    other = ground arith

second_put :
    (db : Store (List ℕ)) × Puts list_ops list_ops-IsBuffer one_key one_block 400 (9 ∷ []) db
second_put =
    put-Puts list_ops list_ops-IsBuffer one_key one_block 400 (length one_block.contents) (9 ∷ [])
      (one_block.contents ++ replicate 14 0) one_key-IsKept.alive one_key-IsKept.filtered
      one_key-IsKept.fits one_block_now (omega arith) refl

abbrev two_keys : Store (List ℕ)
two_keys = second_put.0

abbrev two_block : MemBlock (List ℕ)
two_block = second_put.1.has.0

two_keys-Reached : Reached list_ops generator two_keys
two_keys-Reached =
    puts one_block 400 (length one_block.contents) (9 ∷ []) (one_block.contents ++ replicate 14 0)
      one_block_now (omega arith) refl second_put.1.answer one_key-Reached

two_block_now : find two_keys.time_blocks two_keys.time_id ≡ some two_block
two_block_now = ap (find two_keys.time_blocks) second_put.1.now ∙ second_put.1.has.1

two_block-count : two_block.count ≡ 2
two_block-count = second_put.1.more ∙ ap (λ n. add64 n 1) first_put.1.more

delete-lookup_example :
    (db' : Store (List ℕ)) × (delete list_ops two_keys 400 ≡ some (db', done tt))
    × (lookup list_ops db' two_keys.time_id 400 ≡ some (failed entry_does_not_exist))
    × IsFiltered db'
delete-lookup_example =
    delete-lookup list_ops list_ops-IsBuffer generator two_keys 400 two_keys.time_id
      (length (marked list_ops two_block 400).contents) two_block (marked list_ops two_block 400)
      (9 ∷ []) ((marked list_ops two_block 400).contents ++ replicate 21 0) generator-IsGenerator
      two_keys-Reached two_block_now second_put.1.has.2 newest
      (ap (λ n. sub64 n 1 == 0) two_block-count)
      (find-insert_self two_keys.time_blocks two_keys.time_id (marked list_ops two_block 400)) refl
  where
    newest : (u : ℕ) → LiveAt two_keys u 400 → ltb_int64 two_keys.time_id u ≡ false
    newest u live = (LiveAt-late two_keys u 400 second_put.1.filtered live).0

-- A filter of 64 bits without any key.
abbrev no_keys : Filter
no_keys = record { bits = 0 ∷ []; keys = 1 ∷ []; m = 64; n = 0 }

abbrev old_block : MemBlock (List ℕ)
unfolding i_key
old_block = record fresh { records = (i_key false 300, 0) ∷ [] }

-- Block 1500 of a batch is newer than block 1000, and its filter was made before key 300 was put there.
abbrev with_batch : Store (List ℕ)
unfolding i_key
with_batch = record started { time_blocks = (1000, old_block) ∷ (1500, fresh) ∷ [] }

-- The search gives up at the block of the batch.
denied :
    search_blocks with_batch
      (record { time_records = (1000, no_keys) ∷ (1500, no_keys) ∷ []; filter = no_keys })
      300
      (newest_first (1000 ∷ 1500 ∷ []))
    ≡ some none
unfolding search_blocks newest_first i_key
denied = refl
