-- ===== src/Tests/Files.antt =====
-- entry.go and db_info.go: an entry and an info.
use unitdb.Prelude.{◌≡◌, ◌++◌, some, [], ◌∷◌, arith, false, true}
use unitdb.Entry
use unitdb.Info

abbrev an_entry : Entry.Entry
an_entry = record {
  seq = 300;
  topic_size = 12;
  value_size = 100;
  expires_at = 0;
  parsed = true;
  topic_hash = 77;
  cache = 1 ∷ [];
}

abbrev no_entry : Entry.Entry
no_entry = record {
  seq = 0;
  topic_size = 0;
  value_size = 0;
  expires_at = 0;
  parsed = false;
  topic_hash = 0;
  cache = [];
}

unmarshal-marshal_entry_example :
    Entry.unmarshal_binary no_entry (Entry.marshal_binary an_entry ++ 9 ∷ [])
    ≡ some (record an_entry { parsed = false; cache = [] })
unmarshal-marshal_entry_example = Entry.unmarshal-marshal_entry no_entry an_entry (9 ∷ []) (record {
  seq = omega arith;
  topic = omega arith;
  value = omega arith;
  expires = omega arith;
  hash = omega arith;
})

abbrev an_info : Info.DbInfo
an_info = record {
  signature = 117 ∷ 110 ∷ 105 ∷ 116 ∷ 100 ∷ 98 ∷ 14 ∷ [];
  version = 1;
  encryption = 0;
  sequence = 500;
  count = 400;
}
