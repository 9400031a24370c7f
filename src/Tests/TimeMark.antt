-- ===== src/Tests/TimeMark.antt =====
-- memdb/time_mark.go: two time IDs, one of them released before.
use unitdb.Prelude.{◌≡◌, true, false, none, [], ◌∷◌, arith}
use unitdb.TimeMark.{TimeMark, find, add, release, time_refs, time_unref}
use unitdb.TimeMark.Lifecycle.{has, time_refs-release}

abbrev marks : TimeMark
marks = record {
  records = (9, record { refs = 1; last_unref = 0 }) ∷ [];
  released_records = (7, record { refs = 0; last_unref = 7 }) ∷ [];
}

time_refs-release_example :
    (find (release (add marks 9) 9).records 9 ≡ none)
    × (has 9 (time_refs (release (add marks 9) 9) 20) ≡ true)
    × (has 9 (time_refs (time_unref (release (add marks 9) 9) 9) 20) ≡ false)
time_refs-release_example = time_refs-release marks 9 20 (omega arith) (omega arith) (omega arith)
