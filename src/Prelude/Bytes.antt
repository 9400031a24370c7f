-- ===== src/Prelude/Bytes.antt =====
-- `encoding/binary.LittleEndian` on byte slices. A byte slice is a list of numbers below 256.
-- Serialisers append to a list; deserialisers read from the front and return what is left, as the
-- code's `buf = buf[n:]` and `data = data[n:]` do.
use Prim.Native.Nat.{ℕ, zero, suc, ◌+◌, ◌*◌, ◌/◌, ◌%◌, ◌^◌, ◌≤◌, ◌<◌}
use mathlib.Core.Path.{◌≡◌, refl, ap}
use mathlib.Core.List.{List, [], ◌∷◌, ◌++◌, append-nil}
use mathlib.Core.Option.{Option, none, some}
use mathlib.Core.Logic.{◌⊎◌, inl, inr}
use native.Mathlib.Omega.{arith}
use native.Mathlib.Nat.{pow-suc}
use unitdb.Prelude.Lists.{length, take, drop}

-- `PutUint16`, `PutUint32` and `PutUint64`, by the width in bytes.
unfoldable pub put_uint : ℕ → ℕ → List ℕ
put_uint zero v = []
put_uint (suc n) v = v % 256 ∷ put_uint n (v / 256)

-- `Uint16`, `Uint32` and `Uint64` of exactly as many bytes.
unfoldable pub uint : List ℕ → ℕ
uint [] = 0
uint (b ∷ bs) = b + 256 * uint bs

-- A read of `n` bytes; `none` is the panic of a slice out of range.
unfoldable pub read_uint : ℕ → List ℕ → Option (ℕ × List ℕ)
read_uint zero data' = some (0, data')
read_uint (suc n) [] = none
read_uint (suc n) (b ∷ bs) = elim (read_uint n bs) [
  | none ↦ none
  | some (v, rest) ↦ some (b + 256 * v, rest)
]

pub length-put_uint : (n v : ℕ) → length (put_uint n v) ≡ n
unfolding put_uint
length-put_uint zero v = refl
length-put_uint (suc n) v = ap suc (length-put_uint n (v / 256))

pub uint-put_uint : (n v : ℕ) → v < 256 ^ n → uint (put_uint n v) ≡ v
unfolding put_uint uint
uint-put_uint zero v h = omega arith
uint-put_uint (suc n) v h = omega (arith, uint-put_uint n (v / 256) (omega (arith, pow-suc 256 n)))

-- What was put is read back, whatever follows.
pub read_uint-put_uint :
    (n v : ℕ) (rest : List ℕ) → v < 256 ^ n → read_uint n (put_uint n v ++ rest) ≡ some (v, rest)
unfolding put_uint read_uint
read_uint-put_uint zero v rest h = ap (λ (k : ℕ). some (k, rest)) (omega arith)
read_uint-put_uint (suc n) v rest h =
    rw (read_uint-put_uint n (v / 256) rest (omega (arith, pow-suc 256 n)))
      (ap (λ (k : ℕ). some (k, rest)) (omega arith))

-- A value that is too wide loses its high bits.
pub uint-put_uint_mod : (n v : ℕ) → uint (put_uint n v) < 256 ^ n
unfolding put_uint uint
uint-put_uint_mod zero v = omega arith
uint-put_uint_mod (suc n) v = omega (arith, uint-put_uint_mod n (v / 256), pow-suc 256 n)

-- `copy(buf[off:], data)` and `WriteAt(data, off)`: writes over the bytes from `off` on. A gap in
-- front of the data is filled with zeros.
unfoldable pub overwrite : List ℕ → ℕ → List ℕ → List ℕ
overwrite bs off [] = bs
overwrite [] zero (d ∷ ds) = d ∷ overwrite [] zero ds
overwrite (b ∷ bs) zero (d ∷ ds) = d ∷ overwrite bs zero ds
overwrite [] (suc off) (d ∷ ds) = 0 ∷ overwrite [] off (d ∷ ds)
overwrite (b ∷ bs) (suc off) (d ∷ ds) = b ∷ overwrite bs off (d ∷ ds)

-- `data[off : off+n]`.
abbrev pub slice : ℕ → ℕ → List ℕ → List ℕ
slice off n d = take n (drop off d)

pub length-overwrite :
    (bs : List ℕ) (off : ℕ) (d : List ℕ)
    → off + length d ≤ length bs
    → length (overwrite bs off d) ≡ length bs
unfolding overwrite
length-overwrite bs off [] h = refl
length-overwrite [] off (d ∷ ds) h = absurd (omega arith)
length-overwrite (b ∷ bs) zero (d ∷ ds) h = ap suc (length-overwrite bs zero ds (omega arith))
length-overwrite (b ∷ bs) (suc off) (d ∷ ds) h =
    ap suc (length-overwrite bs off (d ∷ ds) (omega arith))

-- Data that is written is read back.
pub slice-overwrite_self :
    (bs : List ℕ) (off : ℕ) (d : List ℕ) → slice off (length d) (overwrite bs off d) ≡ d
unfolding overwrite
slice-overwrite_self bs off [] = refl
slice-overwrite_self [] zero (d ∷ ds) = ap (λ l. d ∷ l) (slice-overwrite_self [] zero ds)
slice-overwrite_self (b ∷ bs) zero (d ∷ ds) = ap (λ l. d ∷ l) (slice-overwrite_self bs zero ds)
slice-overwrite_self [] (suc off) (d ∷ ds) = slice-overwrite_self [] off (d ∷ ds)
slice-overwrite_self (b ∷ bs) (suc off) (d ∷ ds) = slice-overwrite_self bs off (d ∷ ds)

-- What lies in front of the data stays.
pub slice-overwrite_before :
    (bs : List ℕ) (off o n : ℕ) (d : List ℕ)
    → o + n ≤ off
    → o + n ≤ length bs
    → slice o n (overwrite bs off d) ≡ slice o n bs
unfolding overwrite
slice-overwrite_before bs off o n [] h k = refl
slice-overwrite_before bs off o zero (d ∷ ds) h k = refl
slice-overwrite_before bs zero o (suc n) (d ∷ ds) h k = absurd (omega arith)
slice-overwrite_before [] (suc off) o (suc n) (d ∷ ds) h k = absurd (omega arith)
slice-overwrite_before (b ∷ bs) (suc off) zero (suc n) (d ∷ ds) h k =
    ap (λ l. b ∷ l) (slice-overwrite_before bs off zero n (d ∷ ds) (omega arith) (omega arith))
slice-overwrite_before (b ∷ bs) (suc off) (suc o) (suc n) (d ∷ ds) h k =
    slice-overwrite_before bs off o (suc n) (d ∷ ds) (omega arith) (omega arith)

-- So does what lies behind it.
pub drop-overwrite :
    (bs : List ℕ) (off o : ℕ) (d : List ℕ)
    → off + length d ≤ o
    → o ≤ length bs
    → drop o (overwrite bs off d) ≡ drop o bs
unfolding overwrite
drop-overwrite bs off o [] h k = refl
drop-overwrite bs off zero (d ∷ ds) h k = absurd (omega arith)
drop-overwrite [] off (suc o) (d ∷ ds) h k = absurd (omega arith)
drop-overwrite (b ∷ bs) zero (suc o) (d ∷ ds) h k =
    drop-overwrite bs zero o ds (omega arith) (omega arith)
drop-overwrite (b ∷ bs) (suc off) (suc o) (d ∷ ds) h k =
    drop-overwrite bs off o (d ∷ ds) (omega arith) (omega arith)

-- A write at the end of the bytes is an append.
pub overwrite_end : (bs d : List ℕ) → overwrite bs (length bs) d ≡ bs ++ d
unfolding overwrite
overwrite_end [] [] = refl
overwrite_end [] (d ∷ ds) = ap (λ l. d ∷ l) (overwrite_end [] ds)
overwrite_end (b ∷ bs) [] = ap (λ l. b ∷ l) (overwrite_end bs [])
overwrite_end (b ∷ bs) (d ∷ ds) = ap (λ l. b ∷ l) (overwrite_end bs (d ∷ ds))

-- A slice inside the first part of two.
pub slice-append :
    (o n : ℕ) (bs ds : List ℕ) → o + n ≤ length bs → slice o n (bs ++ ds) ≡ slice o n bs
slice-append o zero bs ds h = refl
slice-append o (suc n) [] ds h = absurd (omega arith)
slice-append zero (suc n) (b ∷ bs) ds h = ap (λ l. b ∷ l) (slice-append zero n bs ds (omega arith))
slice-append (suc o) (suc n) (b ∷ bs) ds h = slice-append o (suc n) bs ds (omega arith)

-- A write that ends inside the first of two parts.
pub overwrite-append :
    (bs ds : List ℕ) (off : ℕ) (d : List ℕ)
    → off + length d ≤ length bs
    → overwrite (bs ++ ds) off d ≡ overwrite bs off d ++ ds
unfolding overwrite
overwrite-append bs ds off [] h = refl
overwrite-append [] ds off (d ∷ ds') h = absurd (omega arith)
overwrite-append (b ∷ bs) ds zero (d ∷ ds') h =
    ap (λ l. d ∷ l) (overwrite-append bs ds zero ds' (omega arith))
overwrite-append (b ∷ bs) ds (suc off) (d ∷ ds') h =
    ap (λ l. b ∷ l) (overwrite-append bs ds off (d ∷ ds') (omega arith))

empty : (new : List ℕ) → length new ≡ 0 → new ≡ []
empty [] h = refl
empty (n ∷ ns) h = absurd (omega arith)

-- A write over the whole second of two parts.
pub overwrite_tail :
    (bs new d : List ℕ) → length new ≡ length d → overwrite (bs ++ new) (length bs) d ≡ bs ++ d
unfolding overwrite
overwrite_tail [] [] [] h = refl
overwrite_tail [] (n ∷ ns) [] h = absurd (omega arith)
overwrite_tail [] [] (d ∷ ds) h = absurd (omega arith)
overwrite_tail [] (n ∷ ns) (d ∷ ds) h = ap (λ l. d ∷ l) (overwrite_tail [] ns ds (omega arith))
overwrite_tail (b ∷ bs) new [] h = ap (λ l. (b ∷ bs) ++ l) (empty new h)
overwrite_tail (b ∷ bs) new (d ∷ ds) h = ap (λ l. b ∷ l) (overwrite_tail bs new (d ∷ ds) h)

-- A slice that the data does not touch.
pub slice-overwrite_apart :
    (bs : List ℕ) (off o n : ℕ) (d : List ℕ)
    → o + n ≤ length bs
    → (o + n ≤ off) ⊎ (off + length d ≤ o)
    → slice o n (overwrite bs off d) ≡ slice o n bs
slice-overwrite_apart bs off o n d inside (inl before) =
    slice-overwrite_before bs off o n d before inside
slice-overwrite_apart bs off o n d inside (inr behind) =
    ap (take n) (drop-overwrite bs off o d behind (omega arith))

-- Two pieces that are written one behind the other.
pub overwrite_join :
    (bs : List ℕ) (off k : ℕ) (d e : List ℕ)
    → k ≡ off + length d
    → overwrite bs off (d ++ e) ≡ overwrite (overwrite bs off d) k e
unfolding overwrite
overwrite_join bs off k [] e h = ap (λ j. overwrite bs j e) (omega arith)
overwrite_join bs off k (x ∷ d) [] h = ap (overwrite bs off) (append-nil (x ∷ d))
overwrite_join bs off zero (x ∷ d) (y ∷ e) h = absurd (omega arith)
overwrite_join [] zero (suc k) (x ∷ d) (y ∷ e) h =
    ap (λ l. x ∷ l) (overwrite_join [] zero k d (y ∷ e) (omega arith))
overwrite_join (b ∷ bs) zero (suc k) (x ∷ d) (y ∷ e) h =
    ap (λ l. x ∷ l) (overwrite_join bs zero k d (y ∷ e) (omega arith))
overwrite_join [] (suc off) (suc k) (x ∷ d) (y ∷ e) h =
    ap (λ l. 0 ∷ l) (overwrite_join [] off k (x ∷ d) (y ∷ e) (omega arith))
overwrite_join (b ∷ bs) (suc off) (suc k) (x ∷ d) (y ∷ e) h =
    ap (λ l. b ∷ l) (overwrite_join bs off k (x ∷ d) (y ∷ e) (omega arith))

pub length-overwrite-le :
    (bs : List ℕ) (off : ℕ) (d : List ℕ) → length bs ≤ length (overwrite bs off d)
unfolding overwrite
length-overwrite-le bs off [] = omega arith
length-overwrite-le [] off (d ∷ ds) = omega arith
length-overwrite-le (b ∷ bs) zero (d ∷ ds) = omega (arith, length-overwrite-le bs zero ds)
length-overwrite-le (b ∷ bs) (suc off) (d ∷ ds) = omega (arith, length-overwrite-le bs off (d ∷ ds))

pub le-length-overwrite :
    (bs : List ℕ) (off : ℕ) (d : List ℕ)
    → 1 ≤ length d
    → off + length d ≤ length (overwrite bs off d)
unfolding overwrite
le-length-overwrite bs off [] h = absurd (omega arith)
le-length-overwrite [] zero (d ∷ []) h = omega arith
le-length-overwrite [] zero (d ∷ e ∷ ds) h = omega (arith, le-length-overwrite [] zero (e ∷ ds))
le-length-overwrite (b ∷ bs) zero (d ∷ []) h = omega arith
le-length-overwrite (b ∷ bs) zero (d ∷ e ∷ ds) h =
    omega (arith, le-length-overwrite bs zero (e ∷ ds))
le-length-overwrite [] (suc off) (d ∷ ds) h = omega (arith, le-length-overwrite [] off (d ∷ ds) h)
le-length-overwrite (b ∷ bs) (suc off) (d ∷ ds) h =
    omega (arith, le-length-overwrite bs off (d ∷ ds) h)
