-- ===== src/MemBlock/Keys.antt =====
-- memdb/block.go: the offset of a key that was put.
use unitdb.Prelude.{
  ℕ, ◌≡◌, ◌∙◌, none, if◌then◌else◌, inl, inr, refl, true, false, arith, some, List, [], ◌∷◌,
  ==_refl, Bool-cases,
}
use unitdb.MemBlock.{Key, same_key, find_record, insert_record, erase_record}

pub same_key_refl : (k : Key) → same_key k k ≡ true
unfolding same_key
same_key_refl k = rw (==_refl k.del_flag, ==_refl k.key) refl

same_key_trans : (i k j : Key) → same_key i k ≡ true → same_key k j ≡ false → same_key i j ≡ false
unfolding same_key
same_key_trans i k j b h = ground arith

pub find-insert_record :
    (m : List (Key × ℕ)) (k : Key) (off : ℕ) → find_record (insert_record m k off) k ≡ some off
unfolding find_record insert_record
find-insert_record [] k off = rw (same_key_refl k) refl
find-insert_record ((j, o) ∷ m) k off = elim (Bool-cases (same_key j k)) [
  | inl b ↦ rw (insert_record, b, same_key_refl k) refl
  | inr b ↦ rw (insert_record, b, find_record, b) (find-insert_record m k off)
]

pub find-insert_record_ne :
    (m : List (Key × ℕ)) (k j : Key) (off : ℕ)
    → same_key k j ≡ false
    → find_record (insert_record m k off) j ≡ find_record m j
unfolding find_record insert_record
find-insert_record_ne [] k j off h = rw h
find-insert_record_ne ((i, o) ∷ m) k j off h = elim (Bool-cases (same_key i k)) [
  | inl b ↦
      let other : same_key i j ≡ false = same_key_trans i k j b h in
      rw (insert_record, b, find_record, h, other) refl
  | inr b ↦ rw (insert_record, b, find_record, find-insert_record_ne m k j off h) refl
]

same_key_join : (i k j : Key) → same_key i k ≡ false → same_key i j ≡ true → same_key k j ≡ false
unfolding same_key
same_key_join i k j b h = ground arith

-- A record that is erased is found no more, and the others as before.
pub find-erase_record :
    (m : List (Key × ℕ)) (k j : Key)
    → find_record (erase_record m k) j ≡ (if same_key k j then none else find_record m j)
unfolding find_record erase_record
find-erase_record [] k j = elim (Bool-cases (same_key k j)) [
  | inl c ↦ rw c refl
  | inr c ↦ rw c refl
]
find-erase_record ((i, p) ∷ m) k j = elim (Bool-cases (same_key i k)) [
  | inl b ↦ elim (Bool-cases (same_key k j)) [
    | inl c ↦ rw (erase_record, b) (find-erase_record m k j ∙ rw c refl)
    | inr c ↦
        let other = same_key_trans i k j b c in
        rw (erase_record, b, other) (find-erase_record m k j)
  ]
  | inr b ↦ elim (Bool-cases (same_key i j)) [
    | inl c ↦
        let other = same_key_join i k j b c in rw (erase_record, b, find_record, c, other) refl
    | inr c ↦ rw (erase_record, b, find_record, c) (find-erase_record m k j)
  ]
]
