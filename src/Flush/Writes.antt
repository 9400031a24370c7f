-- ===== src/Flush/Writes.antt =====
-- block_writer.go and time_window_writer.go: a file after blocks are written to their places.
use unitdb.Prelude.{
  ℕ, zero, suc, ◌+◌, ◌*◌, ◌^◌, ◌≡◌, ◌<◌, ◌≤◌, ◌⊎◌, inl, inr, refl, sym, ap, ◌∙◌, false, List, [],
  ◌∷◌, ◌++◌, ◌==◌, ltb, length, append-nil, overwrite, overwrite_join, slice, slice-overwrite_self,
  slice-overwrite_apart, length-overwrite-le, le-length-overwrite, All, Bool-cases, ==_iff, ==_refl,
  arith,
}
use unitdb.Block.{block_size}
use unitdb.BlockRange.{range, occurrences}
use unitdb.Flush.{place_of}

-- Block `i` has the bytes `content i`: its place is in the file below two gigabytes.
unfoldable pub put_all : (ℕ → List ℕ) → List ℕ → List ℕ → List ℕ
put_all content bs [] = bs
put_all content bs (i ∷ is) = put_all content (overwrite bs (place_of i) (content i)) is

-- The blocks from `i` on, `n` of them, one behind the other.
unfoldable pub contents : (ℕ → List ℕ) → ℕ → ℕ → List ℕ
contents content i zero = []
contents content i (suc n) = content i ++ contents content (i + 1) n

pub place_exact : (i : ℕ) → i < 2 ^ 19 → place_of i ≡ block_size * i
place_exact i h = ground arith

module _ (content : ℕ → List ℕ) (full : (i : ℕ) → length (content i) ≡ block_size) where
  pub put_all-append :
      (bs is js : List ℕ)
      → put_all content bs (is ++ js) ≡ put_all content (put_all content bs is) js
  unfolding put_all
  put_all-append bs [] js = refl
  put_all-append bs (i ∷ is) js = put_all-append (overwrite bs (place_of i) (content i)) is js

  -- A range that is written as one piece is written block by block.
  pub overwrite-contents :
      (n i : ℕ) (bs : List ℕ)
      → i + n ≤ 2 ^ 19
      → overwrite bs (place_of i) (contents content i n) ≡ put_all content bs (range i n)
  unfolding contents put_all range overwrite
  overwrite-contents zero i bs h = refl
  overwrite-contents (suc zero) i bs h = ap (overwrite bs (place_of i)) (append-nil (content i))
  overwrite-contents (suc (suc n)) i bs h =
      let next : place_of (i + 1) ≡ place_of i + length (content i) =
        omega (arith, place_exact i (omega arith), place_exact (i + 1) (omega arith), full i) in
      overwrite_join bs (place_of i) (place_of (i + 1)) (content i)
        (contents content (i + 1) (suc n)) next
      ∙ overwrite-contents (suc n) (i + 1) (overwrite bs (place_of i) (content i)) (omega arith)

  pub length-put_all : (is bs : List ℕ) → length bs ≤ length (put_all content bs is)
  unfolding put_all
  length-put_all [] bs = omega arith
  length-put_all (i ∷ is) bs = omega (
    arith,
    length-overwrite-le bs (place_of i) (content i),
    length-put_all is (overwrite bs (place_of i) (content i)),
  )

  apart_here :
      (o n i : ℕ)
      → i < 2 ^ 19
      → (o + n ≤ block_size * i) ⊎ (block_size * (i + 1) ≤ o)
      → (o + n ≤ place_of i) ⊎ (place_of i + length (content i) ≤ o)
  apart_here o n i h (inl before) = inl (omega (arith, place_exact i h))
  apart_here o n i h (inr behind) = inr (omega (arith, place_exact i h, full i))

  apart_ne :
      (i k : ℕ)
      → (k == i) ≡ false
      → (block_size * i + block_size ≤ block_size * k) ⊎ (block_size * (k + 1) ≤ block_size * i)
  apart_ne i k ne = elim (Bool-cases (ltb i k)) [
    | inl b ↦ inl (ground arith)
    | inr b ↦ inr (ground arith)
  ]

  occurs_ne :
      (i k : ℕ) (is : List ℕ) → occurrences i is ≡ 0 → 1 ≤ occurrences k is → (k == i) ≡ false
  occurs_ne i k is none_here some_here = elim (Bool-cases (k == i)) [
    | inr b ↦ b
    | inl b ↦
        let same : k ≡ i = (==_iff k i).0 b in
        absurd (omega (arith, ap (λ x. occurrences x is) same))
  ]

  -- Bytes that no block's place touches stay.
  pub put_all_apart :
      (is bs : List ℕ) (o n : ℕ)
      → All (λ i. i < 2 ^ 19) is
      → o + n ≤ length bs
      → ((i : ℕ) → 1 ≤ occurrences i is → (o + n ≤ block_size * i) ⊎ (block_size * (i + 1) ≤ o))
      → slice o n (put_all content bs is) ≡ slice o n bs
  unfolding put_all occurrences
  put_all_apart [] bs o n small inside apart = refl
  put_all_apart (i ∷ is) bs o n small inside apart =
      put_all_apart is (overwrite bs (place_of i) (content i)) o n small.1
        (omega (arith, length-overwrite-le bs (place_of i) (content i)))
        (λ j h. apart j (omega arith))
      ∙ slice-overwrite_apart bs (place_of i) o n (content i) inside
          (apart_here o n i small.0 (apart i (ground (arith, ==_refl i))))

  -- Every block that is written can be read at its place.
  pub put_all_there :
      (is bs : List ℕ) (i : ℕ)
      → All (λ i. i < 2 ^ 19) is
      → 1 ≤ occurrences i is
      → slice (block_size * i) block_size (put_all content bs is) ≡ content i
  unfolding put_all occurrences
  put_all_there [] bs i small h = absurd (omega arith)
  put_all_there (j ∷ is) bs i small h = elim (Bool-cases (ltb 0 (occurrences i is))) [
    | inl later ↦ put_all_there is (overwrite bs (place_of j) (content j)) i small.1 (ground arith)
    | inr not_later ↦
        let absent : occurrences i is ≡ 0 = ground arith in
        let same : j ≡ i = ground (arith, absent) in
        put_all_apart is (overwrite bs (place_of j) (content j)) (block_size * i) block_size small.1
          (omega (
            arith,
            place_exact j small.0,
            full j,
            same,
            le-length-overwrite bs (place_of j) (content j),
          ))
          (λ k h'. apart_ne i k (occurs_ne i k is absent h'))
        ∙ ap (λ k. slice k block_size (overwrite bs (place_of j) (content j)))
            (omega (arith, place_exact j small.0, same))
        ∙ ap (λ k. slice (place_of j) k (overwrite bs (place_of j) (content j))) (sym (full j))
        ∙ slice-overwrite_self bs (place_of j) (content j)
        ∙ ap content same
  ]
