-- ===== src/TimeMark/Lifecycle.antt =====
-- memdb/time_mark.go: a time ID from its addition to the end of its release.
use unitdb.Prelude.{
  ℕ, ◌^◌, ◌<◌, ◌≡◌, refl, ap, ◌∙◌, Bool, true, false, ◌&&◌, ◌||◌, none, some, List, [], ◌∷◌, ◌==◌,
  ltb_int64, ==_refl, Bool-cases, inl, inr, arith,
}
use unitdb.TimeMark.{
  TimeRecord, TimeMark, find, insert, erase, add, release, insert_sorted, sort, refs_before,
  time_refs, time_unref,
}

unfoldable pub has : ℕ → List ℕ → Bool
has t [] = false
has t (x ∷ xs) = (x == t) || has t xs

has-insert_sorted : (t x : ℕ) (xs : List ℕ) → has t (insert_sorted x xs) ≡ ((x == t) || has t xs)
unfolding has insert_sorted
has-insert_sorted t x [] = refl
has-insert_sorted t x (y ∷ ys) = elim (Bool-cases (ltb_int64 y x)) [
  | inl b ↦ rw b (ground (arith, has-insert_sorted t x ys))
  | inr b ↦ rw b
]

has-sort : (t : ℕ) (xs : List ℕ) → has t (sort xs) ≡ has t xs
unfolding has sort
has-sort t [] = refl
has-sort t (x ∷ xs) = has-insert_sorted t x (sort xs) ∙ ap (λ b. (x == t) || b) (has-sort t xs)

find-insert :
    (rs : List (ℕ × TimeRecord)) (k : ℕ) (v : TimeRecord) → find (insert rs k v) k ≡ some v
unfolding find insert
find-insert [] k v = rw (==_refl k)
find-insert ((j, r) ∷ rs) k v = elim (Bool-cases (j == k)) [
  | inl b ↦ rw (b, find, ==_refl k)
  | inr b ↦ rw (b, find, b) (find-insert rs k v)
]

find-erase : (rs : List (ℕ × TimeRecord)) (k : ℕ) → find (erase rs k) k ≡ none
unfolding find erase
find-erase [] k = refl
find-erase ((j, r) ∷ rs) k = elim (Bool-cases (j == k)) [
  | inl b ↦ rw b (find-erase rs k)
  | inr b ↦ rw (b, find, b) (find-erase rs k)
]

has-refs_erased :
    (rs : List (ℕ × TimeRecord)) (k ref : ℕ) → has k (refs_before (erase rs k) ref) ≡ false
unfolding has refs_before erase
has-refs_erased [] k ref = refl
has-refs_erased ((j, r) ∷ rs) k ref = elim (Bool-cases (j == k)) [
  | inl b ↦ rw b (has-refs_erased rs k ref)
  | inr b ↦ elim (Bool-cases (ltb_int64 0 r.last_unref && ltb_int64 r.last_unref ref)) [
    | inl c ↦ rw (b, refs_before, c, has, b) (has-refs_erased rs k ref)
    | inr c ↦ rw (b, refs_before, c) (has-refs_erased rs k ref)
  ]
]

has-refs_inserted :
    (rs : List (ℕ × TimeRecord)) (k ref : ℕ) (v : TimeRecord)
    → (ltb_int64 0 v.last_unref && ltb_int64 v.last_unref ref) ≡ true
    → has k (refs_before (insert rs k v) ref) ≡ true
unfolding has refs_before insert
has-refs_inserted [] k ref v h = rw (h, has, ==_refl k)
has-refs_inserted ((j, r) ∷ rs) k ref v h = elim (Bool-cases (j == k)) [
  | inl b ↦ rw (b, refs_before, h, has, ==_refl k)
  | inr b ↦ elim (Bool-cases (ltb_int64 0 r.last_unref && ltb_int64 r.last_unref ref)) [
    | inl c ↦ rw (b, refs_before, c, has, b) (has-refs_inserted rs k ref v h)
    | inr c ↦ rw (b, refs_before, c) (has-refs_inserted rs k ref v h)
  ]
]

-- One release after an addition gives up a time ID, however often it was added before.
release-add :
    (tm : TimeMark) (t : ℕ)
    → release (add tm t) t ≡ record {
      records = erase (add tm t).records t;
      released_records = insert tm.released_records t (record { refs = 0; last_unref = t });
    }
unfolding release add
release-add tm t = rw (release, find-insert tm.records t (record { refs = 1; last_unref = 0 }))

-- A positive time ID that is added and released once is no record any more, however often it was
-- added before; it is among the released ones for every later time, until it is taken out.
pub time_refs-release :
    (tm : TimeMark) (t ref : ℕ)
    → 0 < t
    → t < ref
    → ref < 2 ^ 63
    → (find (release (add tm t) t).records t ≡ none)
      × (has t (time_refs (release (add tm t) t) ref) ≡ true)
      × (has t (time_refs (time_unref (release (add tm t) t) t) ref) ≡ false)
unfolding time_refs time_unref
time_refs-release tm t ref pos lt small = rw (release-add tm t) (
  find-erase (add tm t).records t,
  has-sort t _
      ∙ has-refs_inserted tm.released_records t ref (record { refs = 0; last_unref = t }) later,
  has-sort t _
      ∙ has-refs_erased (insert tm.released_records t (record { refs = 0; last_unref = t })) t ref,
)
  where
    later : (ltb_int64 0 t && ltb_int64 t ref) ≡ true
    later = ground arith
