-- ===== src/Tests/Wal.antt =====
-- wal/file.go: a log of two bytes.
use unitdb.Prelude.{ℕ, List, ◌≡◌, refl, true, some, [], ◌∷◌, arith}
use unitdb.Tests.Buffers.{list_ops, list_ops-IsBuffer}
use unitdb.Wal.{FileStore, LogInfo, put, read, read-put}

abbrev store : FileStore
store = record { opened = true; logs = [] }

abbrev info : LogInfo
info = record { version = 1; time_id = 1000; count = 1; size = 2 }

read-put_example :
    (fs' : FileStore) × (buf' : List ℕ) × (put store info (7 ∷ 8 ∷ []) ≡ some fs')
    × (read list_ops fs' 1000 [] ≡ (info, buf', fs'))
    × (buf' ≡ 7 ∷ 8 ∷ [])
read-put_example =
    read-put list_ops list_ops-IsBuffer store info (7 ∷ 8 ∷ []) [] (0 ∷ 0 ∷ []) 0 refl
      (record {
        version = omega arith;
        time_id = omega arith;
        count = omega arith;
        size = omega arith;
      })
      refl refl refl
