-- ===== src/Topic/Hashing.antt =====
-- message/topic.go: the hash of a topic does not tell in which order its parts stand.
use Prim.Native.Nat.{bit_or, bit_xor, differ, digits, bit_xor-bitwise}
use unitdb.Prelude.{
  ℕ, zero, suc, ◌+◌, ◌*◌, ◌/◌, ◌%◌, ◌^◌, ◌≡◌, ◌≤◌, ◌<◌, refl, sym, ap, ◌∙◌, some, List, [], ◌∷◌,
  ◌++◌, All, arith,
}
use native.Mathlib.Nat.{pow-succ'}
use unitdb.Topic.{Part, Topic, xor_parts, get_hash}
use unitdb.Topic.Codec.{IsPart}

abbrev xor_digits : ℕ → ℕ → ℕ → ℕ
xor_digits n a b = digits (λ b. b) differ n a b

xor_digits_fuel : (n m a b : ℕ) → a ≤ n → a ≤ m → xor_digits n a b ≡ xor_digits m a b
xor_digits_fuel zero zero a b p q = refl
xor_digits_fuel zero (suc m) zero b p q = refl
xor_digits_fuel zero (suc m) (suc a) b p q = absurd (omega arith)
xor_digits_fuel (suc n) zero zero b p q = refl
xor_digits_fuel (suc n) zero (suc a) b p q = absurd (omega arith)
xor_digits_fuel (suc n) (suc m) zero b p q = refl
xor_digits_fuel (suc n) (suc m) (suc a) b p q =
    ap (λ k. k * 2 + differ (suc a % 2) (b % 2))
      (xor_digits_fuel n m (suc a / 2) (b / 2) (omega arith) (omega arith))

bit_xor_zero : (b : ℕ) → bit_xor 0 b ≡ b
bit_xor_zero b = bit_xor-bitwise 0 b

bit_xor_step : (a b : ℕ) → bit_xor a b ≡ bit_xor (a / 2) (b / 2) * 2 + differ (a % 2) (b % 2)
bit_xor_step zero b = omega (arith, bit_xor_zero b, bit_xor_zero (b / 2))
bit_xor_step (suc a) b =
    bit_xor-bitwise (suc a) b
    ∙ ap (λ k. k * 2 + differ (suc a % 2) (b % 2))
        (xor_digits_fuel a (suc a / 2) (suc a / 2) (b / 2) (omega arith) (omega arith)
          ∙ sym (bit_xor-bitwise (suc a / 2) (b / 2)))

differ_bits : (a b c : ℕ) → a < 2 → b < 2 → c < 2 → differ (differ a b) c ≡ differ (differ a c) b
differ_bits zero zero zero ha hb hc = refl
differ_bits zero zero (suc c) ha hb hc = refl
differ_bits zero (suc b) zero ha hb hc = refl
differ_bits zero (suc zero) (suc zero) ha hb hc = refl
differ_bits (suc zero) zero zero ha hb hc = refl
differ_bits (suc zero) zero (suc zero) ha hb hc = refl
differ_bits (suc zero) (suc zero) zero ha hb hc = refl
differ_bits (suc zero) (suc zero) (suc zero) ha hb hc = refl
differ_bits (suc (suc a)) b c ha hb hc = absurd (omega arith)
differ_bits a (suc (suc b)) c ha hb hc = absurd (omega arith)
differ_bits a b (suc (suc c)) ha hb hc = absurd (omega arith)

differ-lt : (a b : ℕ) → a < 2 → b < 2 → differ a b < 2
differ-lt zero b ha hb = hb
differ-lt (suc a) zero ha hb = ha
differ-lt (suc a) (suc b) ha hb = differ-lt a b (omega arith) (omega arith)

bit_xor-half : (a b : ℕ) → bit_xor a b / 2 ≡ bit_xor (a / 2) (b / 2)
bit_xor-half a b =
    omega (arith, bit_xor_step a b, differ-lt (a % 2) (b % 2) (omega arith) (omega arith))

bit_xor-odd : (a b : ℕ) → bit_xor a b % 2 ≡ differ (a % 2) (b % 2)
bit_xor-odd a b =
    omega (arith, bit_xor_step a b, differ-lt (a % 2) (b % 2) (omega arith) (omega arith))

-- The order in which two words are mixed into a third does not matter.
bit_xor_swap :
    (k h a b : ℕ)
    → h < 2 ^ k
    → a < 2 ^ k
    → b < 2 ^ k
    → bit_xor (bit_xor h a) b ≡ bit_xor (bit_xor h b) a
bit_xor_swap zero h a b p q r =
    ap (λ x. bit_xor (bit_xor h x) b) {y = b} (omega arith)
    ∙ ap (λ x. bit_xor (bit_xor h b) x) {y = a} (omega arith)
bit_xor_swap (suc k) h a b p q r =
    step h a b
    ∙ ap (λ x. x * 2 + differ (differ (h % 2) (a % 2)) (b % 2))
        (bit_xor_swap k (h / 2) (a / 2) (b / 2) (omega (arith, pow-succ' 2 k))
          (omega (arith, pow-succ' 2 k)) (omega (arith, pow-succ' 2 k)))
    ∙ ap (λ x. bit_xor (bit_xor (h / 2) (b / 2)) (a / 2) * 2 + x)
        (differ_bits (h % 2) (a % 2) (b % 2) (omega arith) (omega arith) (omega arith))
    ∙ sym (step h b a)
  where
    step :
        (h a b : ℕ)
        → bit_xor (bit_xor h a) b
          ≡ bit_xor (bit_xor (h / 2) (a / 2)) (b / 2) * 2 + differ (differ (h % 2) (a % 2)) (b % 2)
    step h a b = bit_xor_step (bit_xor h a) b ∙ rw (bit_xor-half h a, bit_xor-odd h a) refl

bit_xor_comm : (a b : ℕ) → a < 2 ^ 32 → b < 2 ^ 32 → bit_xor a b ≡ bit_xor b a
bit_xor_comm a b ha hb =
    sym (ap (λ x. bit_xor x b) (bit_xor_zero a))
    ∙ bit_xor_swap 32 0 a b (omega arith) ha hb
    ∙ ap (λ x. bit_xor x a) (bit_xor_zero b)

bit_xor-lt : (k a b : ℕ) → a < 2 ^ k → b < 2 ^ k → bit_xor a b < 2 ^ k
bit_xor-lt zero zero b ha hb = omega (arith, bit_xor_zero b)
bit_xor-lt zero (suc a) b ha hb = absurd (omega arith)
bit_xor-lt (suc k) a b ha hb = omega (
  arith,
  bit_xor_step a b,
  differ-lt (a % 2) (b % 2) (omega arith) (omega arith),
  pow-succ' 2 k,
  bit_xor-lt k (a / 2) (b / 2) (omega (arith, pow-succ' 2 k)) (omega (arith, pow-succ' 2 k)),
)

xor_parts-swap :
    (h : ℕ) (ps qs : List Part) (p q : Part)
    → h < 2 ^ 32
    → All IsPart ps
    → IsPart p
    → IsPart q
    → xor_parts h (ps ++ (p ∷ q ∷ qs)) ≡ xor_parts h (ps ++ (q ∷ p ∷ qs))
unfolding xor_parts
xor_parts-swap h [] qs p q hh hs hp hq =
    ap (λ x. xor_parts x qs) (bit_xor_swap 32 h p.hash q.hash hh hp hq)
xor_parts-swap h (s ∷ ps) qs p q hh hs hp hq =
    xor_parts-swap (bit_xor h s.hash) ps qs p q (bit_xor-lt 32 h s.hash hh hs.0) hs.1 hp hq

-- Two parts that stand one behind the other may change places: the hash of the topic stays. So topics
-- with the same parts in any order have one hash. The hashes of the parts have 32 bits.
pub get_hash-swap :
    (t : Topic) (ps qs : List Part) (p q : Part) (contract : ℕ)
    → All IsPart ps
    → IsPart p
    → IsPart q
    → get_hash (record t { parts = ps ++ (p ∷ q ∷ qs) }) contract
      ≡ get_hash (record t { parts = ps ++ (q ∷ p ∷ qs) }) contract
unfolding get_hash xor_parts
get_hash-swap t [] qs p q contract hs hp hq =
    ap (λ x. some ((xor_parts x qs * 2 ^ 32 + bit_or (contract * 2 ^ 8 % 2 ^ 32) t.depth) % 2 ^ 64))
      (bit_xor_comm p.hash q.hash hp hq)
get_hash-swap t (r ∷ []) qs p q contract hs hp hq =
    ap (λ x. some ((x * 2 ^ 32 + bit_or (contract * 2 ^ 8 % 2 ^ 32) t.depth) % 2 ^ 64))
      (xor_parts-swap r.hash [] qs p q hs.0 tt hp hq)
get_hash-swap t (r ∷ s ∷ ps) qs p q contract hs hp hq =
    ap (λ x. some ((x * 2 ^ 32 + bit_or (contract * 2 ^ 8 % 2 ^ 32) t.depth) % 2 ^ 64))
      (xor_parts-swap r.hash (s ∷ ps) qs p q hs.0 hs.1 hp hq)
