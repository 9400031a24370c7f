-- ===== src/TimeMark.antt =====
-- memdb/time_mark.go: which time blocks of the memory store are released. The maps are lists of
-- keys with their values; a time ID is an int64, kept as its bit pattern.
pub mod Lifecycle
use unitdb.Prelude.{
  ℕ, ◌+◌, ◌-◌, ◌%◌, ◌^◌, Bool, true, false, ◌&&◌, Option, none, some, List, [], ◌∷◌, ◌==◌,
  ltb_int64, if◌then◌else◌, sub64,
}

-- `refs` is an int, kept as its bit pattern.
pub record TimeRecord : Type 0 where
  pub refs : ℕ
  pub last_unref : ℕ

pub record TimeMark : Type 0 where
  pub records : List (ℕ × TimeRecord)
  pub released_records : List (ℕ × TimeRecord)

unfoldable pub new_time_mark : TimeMark
new_time_mark = record { records = []; released_records = [] }

unfoldable pub find : List (ℕ × TimeRecord) → ℕ → Option TimeRecord
find [] k = none
find ((j, r) ∷ rs) k = let rest = find rs k in if j == k then some r else rest

unfoldable pub insert : List (ℕ × TimeRecord) → ℕ → TimeRecord → List (ℕ × TimeRecord)
insert [] k v = (k, v) ∷ []
insert ((j, r) ∷ rs) k v = let rest = insert rs k v in if j == k then (k, v) ∷ rs else (j, r) ∷ rest

unfoldable pub erase : List (ℕ × TimeRecord) → ℕ → List (ℕ × TimeRecord)
erase [] k = []
erase ((j, r) ∷ rs) k = let rest = erase rs k in if j == k then rest else (j, r) ∷ rest

-- The count of a record that is there is raised on a copy only.
unfoldable pub add : TimeMark → ℕ → TimeMark
unfolding insert
add tm time_id = record tm {
  records = insert tm.records time_id (record { refs = 1; last_unref = 0 });
}

unfoldable pub release : TimeMark → ℕ → TimeMark
unfolding find insert erase
release tm time_id = elim (find tm.records time_id) [
  | none ↦ tm
  | some mark ↦
      let left = record mark { refs = sub64 mark.refs 1 } in
      if ltb_int64 0 left.refs
      then record tm { records = insert tm.records time_id left }
      else record {
        records = erase tm.records time_id;
        released_records =
            insert tm.released_records time_id (record left { last_unref = time_id });
      }
]

-- `sort.Slice` in ascending order.
unfoldable pub insert_sorted : ℕ → List ℕ → List ℕ
insert_sorted x [] = x ∷ []
insert_sorted x (y ∷ ys) =
    let rest = insert_sorted x ys in if ltb_int64 y x then y ∷ rest else x ∷ y ∷ ys

unfoldable pub sort : List ℕ → List ℕ
unfolding insert_sorted
sort [] = []
sort (x ∷ xs) = insert_sorted x (sort xs)

unfoldable pub refs_before : List (ℕ × TimeRecord) → ℕ → List ℕ
refs_before [] time_ref = []
refs_before ((k, r) ∷ rs) time_ref =
    let rest = refs_before rs time_ref in
    if ltb_int64 0 r.last_unref && ltb_int64 r.last_unref time_ref then k ∷ rest else rest

unfoldable pub time_refs : TimeMark → ℕ → List ℕ
unfolding sort refs_before
time_refs tm time_ref = sort (refs_before tm.released_records time_ref)

unfoldable pub keys : List (ℕ × TimeRecord) → List ℕ
keys [] = []
keys ((k, r) ∷ rs) = k ∷ keys rs

unfoldable pub all_refs : TimeMark → List ℕ
unfolding sort keys
all_refs tm = sort (keys tm.released_records)

unfoldable pub time_unref : TimeMark → ℕ → TimeMark
unfolding erase
time_unref tm time_id = record tm { released_records = erase tm.released_records time_id }
