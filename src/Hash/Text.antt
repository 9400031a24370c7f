-- ===== src/Hash/Text.antt =====
-- hash/hash.go: the hash of a part of a topic, salted with the contract.
pub mod Mixed
pub mod Shuffled
use Prim.Native.Nat.{bit_xor}
use unitdb.Prelude.{
  ℕ, zero, suc, ◌+◌, ◌*◌, ◌/◌, ◌-◌, ◌%◌, ◌^◌, Option, some, List, [], ◌∷◌, ◌==◌, if◌then◌else◌,
  ◌>>=◌, length, get_elem?, set, drop, put_uint,
}

abbrev pub init : ℕ
init = 0xcc9e2d51

abbrev pub prime32 : ℕ
prime32 = 0x1b873593

-- `h = (h ^ uint32(c)) * prime32`.
unfoldable pub mix : ℕ → ℕ → ℕ
mix h c = bit_xor h c * prime32 % 2 ^ 32

unfoldable pub mix_rest : ℕ → List ℕ → ℕ
unfolding mix
mix_rest h [] = h
mix_rest h (c ∷ cs) = mix_rest (mix h c) cs

-- `none` is the panic on an index out of range, here and below.
unfoldable pub mix_at : List ℕ → ℕ → ℕ → Option ℕ
unfolding mix
mix_at b i h = get_elem? b i >>= λ c. some (mix h c)

-- One round of the unrolled loop.
unfoldable pub mix_eight : List ℕ → ℕ → ℕ → Option ℕ
unfolding mix_at
mix_eight b i h = do
  h₁ ← mix_at b i h
  h₂ ← mix_at b (i + 1) h₁
  h₃ ← mix_at b (i + 2) h₂
  h₄ ← mix_at b (i + 3) h₃
  h₅ ← mix_at b (i + 4) h₄
  h₆ ← mix_at b (i + 5) h₅
  h₇ ← mix_at b (i + 6) h₆
  mix_at b (i + 7) h₇

-- The unrolled loop, by the rounds that are left.
unfoldable pub mix_eights : ℕ → List ℕ → ℕ → ℕ → Option ℕ
unfolding mix_eight
mix_eights zero b i h = some h
mix_eights (suc k) b i h = do h' ← mix_eight b i h; mix_eights k b (i + 8) h'

unfoldable pub new : List ℕ → Option ℕ
unfolding mix_eights mix_rest
new b = do h ← mix_eights (length b / 8) b 0 init; some (mix_rest h (drop (length b / 8 * 8) b))

unfoldable pub swap : List ℕ → ℕ → ℕ → Option (List ℕ)
swap xs i j = do x ← get_elem? xs i; y ← get_elem? xs j; some (set (set xs i y) j x)

-- `p` is an int; it grows by at most 255 for each byte of the text, so it does not overflow.
unfoldable pub shuffle_from : ℕ → ℕ → ℕ → List ℕ → List ℕ → Option (List ℕ)
unfolding swap
shuffle_from zero v p salt result = some result
shuffle_from (suc i) v p salt result = do
  s ← get_elem? salt v
  result' ← swap result (suc i) ((s + v + (p + s)) % suc i)
  shuffle_from i ((v + 1) % 4) (p + s) salt result'

unfoldable pub shuffle_in_place : List ℕ → ℕ → Option (List ℕ)
unfolding shuffle_from put_uint
shuffle_in_place text contract =
    if contract == 0
    then some text
    else shuffle_from (length text - 1) 0 0 (put_uint 4 contract) text

unfoldable pub with_salt : List ℕ → ℕ → Option ℕ
unfolding shuffle_in_place new
with_salt text salt = do b ← shuffle_in_place text salt; new b
