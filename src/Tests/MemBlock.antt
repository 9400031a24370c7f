-- ===== src/Tests/MemBlock.antt =====
-- memdb/block.go: a record that is put behind another one.
use unitdb.Prelude.{ℕ, ◌≡◌, refl, false, some, List, [], ◌∷◌, ◌++◌, put_uint, arith}
use unitdb.Prelude.{replicate}
use unitdb.MemBlock.{Key, MemBlock, i_key, find_record, get, put, key_bytes}
use unitdb.MemBlock.Records.{IsRow, row, put-get}
use unitdb.Tests.Buffers.{list_ops, list_ops-IsBuffer}

abbrev first : Key
unfolding i_key
first = i_key false 300

abbrev second : Key
unfolding i_key
second = i_key false 400

-- A block with one record of two bytes.
abbrev block : MemBlock (List ℕ)
unfolding row key_bytes put_uint
block = record {
  count = 1;
  contents = row first (7 ∷ 8 ∷ []);
  records = (first, 0) ∷ [];
  time_refs = [];
  last_offset = 0;
}

put-get_example :
    (b' : MemBlock (List ℕ)) × (put list_ops block second (9 ∷ []) ≡ some b')
    × (find_record b'.records second ≡ some 15)
    × (get list_ops b' 15 ≡ some (9 ∷ []))
    × IsRow list_ops b' 15 second (9 ∷ [])
    × (b'.contents ≡ block.contents ++ row second (9 ∷ []))
unfolding row key_bytes put_uint
put-get_example =
    put-get list_ops list_ops-IsBuffer block second (9 ∷ []) 15 (block.contents ++ replicate 14 0)
      (omega arith) refl
