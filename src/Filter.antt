-- ===== src/Filter.antt =====
-- filter/bloom.go and filter/filter.go: the bloom filter of the keys.
pub mod Bits
pub mod Reload
pub mod Members
pub mod Snapshot
use Prim.Native.Nat.{bit_or, bit_xor}
use unitdb.Prelude.{
  ℕ, zero, suc, ◌+◌, ◌*◌, ◌/◌, ◌%◌, ◌^◌, ◌≡◌, Bool, true, false, Option, none, some, List, [], ◌∷◌,
  ◌++◌, ◌==◌, ltb, if◌then◌else◌, add64, length, get_elem?, set, take, drop, replicate, put_uint,
  uint, ◌>>=◌,
}

abbrev pub bloom_hashes : ℕ
bloom_hashes = 7

abbrev pub bloom_bits : ℕ
bloom_bits = 160000

abbrev pub m_min : ℕ
m_min = 2

pub record Filter : Type 0 where
  pub bits : List ℕ
  pub keys : List ℕ
  pub m : ℕ
  pub n : ℕ

-- `keys` are the random numbers that the filter draws; nil is `none`.
unfoldable pub new_filter : ℕ → List ℕ → Option Filter
new_filter m keys =
    if ltb m m_min
    then none
    else some (record { m = m; n = 0; bits = replicate ((m + 63) / 64) 0; keys = keys })

-- `binary.Read` of `n` words: if there are too few bytes, the words stay 0 and the bytes are gone.
unfoldable pub words : ℕ → List ℕ → List ℕ
unfolding uint
words zero d = []
words (suc n) d = uint (take 8 d) ∷ words n (drop 8 d)

unfoldable pub read_words : ℕ → List ℕ → List ℕ × List ℕ
unfolding words
read_words n d = if ltb (length d) (8 * n) then (replicate n 0, []) else (words n d, drop (8 * n) d)

unfoldable pub new_filter_from_bytes : List ℕ → ℕ → ℕ → Option Filter
unfolding read_words
new_filter_from_bytes b m k =
    if ltb m m_min
    then none
    else let (keys, rest) = read_words k b in
      let (bits, _) = read_words ((m + 63) / 64) rest in
      some (record { m = m; n = 0; bits = bits; keys = keys })

-- The filter that `NewFilterBlock` makes of the bytes of another one.
unfoldable pub new_filter_block : List ℕ → Option Filter
unfolding new_filter_from_bytes
new_filter_block b = new_filter_from_bytes b bloom_bits bloom_hashes

unfoldable pub put_words : List ℕ → List ℕ
unfolding put_uint
put_words [] = []
put_words (w ∷ ws) = put_uint 8 w ++ put_words ws

unfoldable pub bytes : Filter → List ℕ
unfolding put_words
bytes f = put_words f.keys ++ put_words f.bits

unfoldable pub hash : List ℕ → ℕ → List ℕ
hash [] h = []
hash (k ∷ ks) h = bit_xor h k ∷ hash ks h

-- `b.bits[i>>6] |= 1 << uint(i&0x3f)`; `none` is the panic on an index out of range.
unfoldable pub set_bit : List ℕ → ℕ → Option (List ℕ)
set_bit bits i = do w ← get_elem? bits (i / 64); some (set bits (i / 64) (bit_or w (2 ^ (i % 64))))

unfoldable pub set_bits : ℕ → List ℕ → List ℕ → Option (List ℕ)
unfolding set_bit
set_bits m bits [] = some bits
set_bits m bits (i ∷ is) = do bits' ← set_bit bits (i % m); set_bits m bits' is

unfoldable pub add : Filter → ℕ → Option Filter
unfolding set_bits hash
add f h = do
  bits ← set_bits f.m f.bits (hash f.keys h)
  some (record f { bits = bits; n = add64 f.n 1 })

unfoldable pub test_bit : List ℕ → ℕ → Option Bool
test_bit bits i = do w ← get_elem? bits (i / 64); some ((w / 2 ^ (i % 64)) % 2 == 1)

unfoldable pub test_bits : ℕ → List ℕ → List ℕ → Option Bool
unfolding test_bit
test_bits m bits [] = some true
test_bits m bits (i ∷ is) = do
  b ← test_bit bits (i % m)
  let rest = test_bits m bits is in if b then rest else some false

unfoldable pub test : Filter → ℕ → Option Bool
unfolding test_bits hash
test f h = test_bits f.m f.bits (hash f.keys h)

-- The generator's appends, in order.
unfoldable pub append_all : Filter → List ℕ → Option Filter
unfolding add
append_all f [] = some f
append_all f (h ∷ hs) = do f' ← add f h; append_all f' hs
