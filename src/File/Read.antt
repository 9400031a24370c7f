-- ===== src/File/Read.antt =====
-- file.go: a read of bytes that are known to be in the file.
use unitdb.Prelude.{
  ℕ, ◌+◌, ◌-◌, ◌≡◌, ◌≤◌, refl, ap, true, some, List, leb, le→leb, ◌>>=◌, length, slice, drop,
  length-take, length-drop, arith,
}
use unitdb.File.{File, read_slice}

slice-length :
    (o n : ℕ) (bs d : List ℕ) → slice o n bs ≡ d → length d ≡ n → 1 ≤ n → o + n ≤ length bs
slice-length o n bs d e h pos =
    omega (arith, ap length e, length-take n (drop o bs), length-drop o bs)

pub read_slice_whole :
    (f : File) (off n : ℕ) (d : List ℕ)
    → slice off n f.bytes ≡ d
    → length d ≡ n
    → 1 ≤ n
    → read_slice f off (off + n) ≡ some d
unfolding read_slice
read_slice_whole f off n d e h pos =
    let inside : leb (off + n) (length f.bytes) ≡ true =
      le→leb _ _ (slice-length off n f.bytes d e h pos) in
    let same : off + n - off ≡ n = omega arith in rw (read_slice, inside, ◌>>=◌, same, e) refl
