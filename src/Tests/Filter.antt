-- ===== src/Tests/Filter.antt =====
-- filter/bloom.go: a filter of 128 bits and two hashes.
use unitdb.Prelude.{◌≡◌, some, true, [], ◌∷◌, All, ◌>>=◌, arith}
use unitdb.Filter.{Filter, new_filter, new_filter_from_bytes, bytes, test, append_all}
use unitdb.Filter.Reload.{test-reload}

test-reload_example :
    (f : Filter) × (f' : Filter) × ((new_filter 128 (5 ∷ 77 ∷ []) >>= λ new.
    append_all new (3 ∷ 900 ∷ []))
      ≡ some f)
    × (new_filter_from_bytes (bytes f) 128 2 ≡ some f')
    × All (λ h. test f' h ≡ some true) (3 ∷ 900 ∷ [])
test-reload_example =
    test-reload 128 (5 ∷ 77 ∷ []) (3 ∷ 900 ∷ []) (omega arith) (omega arith, (omega arith, tt))
