-- ===== src/Hash/Flea.antt =====
-- hash/rand.go and hash/modulo.go.
use Prim.Native.Nat.{bit_xor}
use unitdb.Prelude.{ℕ, zero, suc, ◌+◌, ◌*◌, ◌/◌, ◌%◌, ◌^◌, ◌<◌, ◌-◌, arith}

pub record Flea : Type 0 where
  pub a : ℕ
  pub b : ℕ
  pub c : ℕ
  pub d : ℕ

-- `bits.RotateLeft32`.
unfoldable pub rotate_left32 : ℕ → ℕ → ℕ
rotate_left32 x k = (x * 2 ^ k) % 2 ^ 32 + x / 2 ^ (32 - k)

unfoldable pub flea_round : Flea → Flea
unfolding rotate_left32
flea_round s =
    let e : ℕ = (s.a + 2 ^ 32 - rotate_left32 s.b 27 % 2 ^ 32) % 2 ^ 32 in
    let a' : ℕ = bit_xor s.b (rotate_left32 s.c 17) in
    let d' : ℕ = (e + a') % 2 ^ 32 in
    record { a = a'; b = (s.c + s.d) % 2 ^ 32; c = (s.d + e) % 2 ^ 32; d = d' }

flea_rounds : ℕ → Flea → Flea
flea_rounds zero s = s
flea_rounds (suc n) s = flea_rounds n (flea_round s)

-- Three rounds from the seed.
unfoldable pub flea_init : ℕ → Flea
unfolding flea_rounds flea_round
flea_init key =
    let seed : ℕ = bit_xor (key / 2 ^ 32) key % 2 ^ 32 in
    flea_rounds 3 (record { a = 0xf1ea5eed; b = seed; c = seed; d = seed })

unfoldable pub fast_mod : ℕ → ℕ → ℕ
fast_mod x m = x * m % 2 ^ 64 / 2 ^ 32 % 2 ^ 32

-- A 32-bit value is reduced below the modulus.
pub fast_mod-lt : (x m : ℕ) → x < 2 ^ 32 → 0 < m → m < 2 ^ 32 → fast_mod x m < m
unfolding fast_mod
fast_mod-lt x m hx hm fits = omega (arith, product)
  where
    product : x * m < 2 ^ 32 * m
    product = grind arith

pub flea_round-lt : (s : Flea) → (flea_round s).d < 2 ^ 32
unfolding flea_round
flea_round-lt s = omega arith

pub flea_init-lt : (key : ℕ) → (flea_init key).d < 2 ^ 32
unfolding flea_init
flea_init-lt key = omega arith
