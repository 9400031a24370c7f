-- ===== src/Hash/Text/Shuffled.antt =====
-- hash/hash.go: the shuffle permutes the bytes of the text.
use unitdb.Prelude.{
  ℕ, zero, suc, ◌+◌, ◌-◌, ◌%◌, ◌^◌, ◌≡◌, ◌<◌, ◌⊎◌, inl, inr, refl, ◌∙◌, Option, some, List, [], ◌∷◌,
  ◌==◌, if◌then◌else◌, ◌>>=◌, length, get_elem?, get_elem?-lt, set, length-set, put_uint,
  length-put_uint, Bool-cases, arith,
}
use unitdb.Hash.Text.{swap, shuffle_from, shuffle_in_place, with_salt}
use unitdb.Hash.Text.Mixed.{new_total}

-- How often a byte stands in a text.
unfoldable pub count : ℕ → List ℕ → ℕ
count c [] = 0
count c (x ∷ xs) = (if x == c then 1 else 0) + count c xs

count-set :
    (c : ℕ) (xs : List ℕ) (i x v : ℕ)
    → get_elem? xs i ≡ some x
    → count c (set xs i v) + (if x == c then 1 else 0) ≡ count c xs + (if v == c then 1 else 0)
unfolding count
count-set c [] i x v e = cc
count-set c (y ∷ xs) zero x v e = ground arith
count-set c (y ∷ xs) (suc i) x v e = omega (arith, count-set c xs i x v e)

get-set :
    (xs : List ℕ) (i j x y : ℕ)
    → get_elem? xs i ≡ some x
    → get_elem? xs j ≡ some y
    → get_elem? (set xs i y) j ≡ some y
get-set [] i j x y e f = cc
get-set (z ∷ xs) zero zero x y e f = refl
get-set (z ∷ xs) zero (suc j) x y e f = f
get-set (z ∷ xs) (suc i) zero x y e f = f
get-set (z ∷ xs) (suc i) (suc j) x y e f = get-set xs i j x y e f

-- A text of the same length with the same bytes, each as often.
abbrev Shuffles : ℕ → List ℕ → Option (List ℕ) → Type 0
Shuffles c xs o =
    (ys : List ℕ) × (o ≡ some ys) × (length ys ≡ length xs) × (count c ys ≡ count c xs)

Shuffles-swap :
    (c : ℕ) (xs : List ℕ) (i j : ℕ) → i < length xs → j < length xs → Shuffles c xs (swap xs i j)
unfolding swap
Shuffles-swap c xs i j hi hj =
    let (x, ex) = get_elem?-lt xs i hi in
    let (y, ey) = get_elem?-lt xs j hj in
    let first = count-set c xs i x y ex in
    let second = count-set c (set xs i y) j y x (get-set xs i j x y ex ey) in
    (
      set (set xs i y) j x,
      rw (ex, ◌>>=◌, ey) refl,
      length-set (set xs i y) j x ∙ length-set xs i y,
      omega arith,
    )

Shuffles-shuffle_from :
    (c i v p : ℕ) (salt xs : List ℕ)
    → length salt ≡ 4
    → v < 4
    → (i ≡ 0) ⊎ (i < length xs)
    → Shuffles c xs (shuffle_from i v p salt xs)
unfolding shuffle_from
Shuffles-shuffle_from c zero v p salt xs four hv hi = (xs, refl, refl, refl)
Shuffles-shuffle_from c (suc i) v p salt xs four hv (inl z) = absurd (omega arith)
Shuffles-shuffle_from c (suc i) v p salt xs four hv (inr inside) =
    let (s, es) = get_elem?-lt salt v (omega arith) in
    let (ys, ey, len, same) =
      Shuffles-swap c xs (suc i) ((s + v + (p + s)) % suc i) inside (omega arith) in
    let (zs, ez, len', same') =
      Shuffles-shuffle_from c i ((v + 1) % 4) (p + s) salt ys four (omega arith)
        (inr (omega arith)) in
    (zs, rw (es, ◌>>=◌, ey) ez, len' ∙ len, same' ∙ same)

start : (n : ℕ) → (n - 1 ≡ 0) ⊎ (n - 1 < n)
start n = ground arith

-- The shuffle never panics, and its result has every byte as often as the text.
pub shuffle-count :
    (c : ℕ) (text : List ℕ) (contract : ℕ)
    → (result : List ℕ) × (shuffle_in_place text contract ≡ some result)
      × (length result ≡ length text)
      × (count c result ≡ count c text)
unfolding shuffle_in_place
shuffle-count c text contract = elim (Bool-cases (contract == 0)) [
  | inl b ↦ (text, rw b refl, refl, refl)
  | inr b ↦ rw b (
      Shuffles-shuffle_from c (length text - 1) 0 0 (put_uint 4 contract) text
        (length-put_uint 4 contract) (omega arith) (start (length text)))
]

pub with_salt_total :
    (text : List ℕ) (salt : ℕ) → (h : ℕ) × (with_salt text salt ≡ some h) × (h < 2 ^ 32)
unfolding with_salt
with_salt_total text salt =
    let (b, e, _, _) = shuffle-count 0 text salt in
    let (h, f, lt) = new_total b in (h, rw (e, ◌>>=◌) f, lt)
