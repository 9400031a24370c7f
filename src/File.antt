-- ===== src/File.antt =====
-- file.go: a file with its size as the program keeps it. The operating system's calls are taken to
-- succeed; a read past the end is an error.
pub mod Read
use unitdb.Prelude.{
  ℕ, ◌+◌, ◌-◌, List, ◌++◌, Option, some, ◌>>◌, guard, leb, length, take, replicate, overwrite,
  slice,
}

-- `bytes` are the contents; `size` is the field of that name, which `currSize` brings up to date.
pub record File : Type 0 where
  pub bytes : List ℕ
  pub size : ℕ

unfoldable pub write_at : File → List ℕ → ℕ → File
write_at f d off = record f { bytes = overwrite f.bytes off d }

-- `os.File.Truncate` cuts the file, or fills it up with zeros.
abbrev pub resize : List ℕ → ℕ → List ℕ
resize bs n = take n bs ++ replicate (n - length bs) 0

unfoldable pub truncate : File → ℕ → File
truncate f n = record { bytes = resize f.bytes n; size = n }

-- Gives the old size.
unfoldable pub extend : File → ℕ → ℕ × File
extend f n = (f.size, record { bytes = resize f.bytes (f.size + n); size = f.size + n })

-- The bytes from `start` to `stop`; `none` is the error of a read past the end.
unfoldable pub read_slice : File → ℕ → ℕ → Option (List ℕ)
read_slice f start stop = do
  guard (leb stop (length f.bytes))
  some (slice start (stop - start) f.bytes)

unfoldable pub write : File → List ℕ → File
write f d = record { bytes = overwrite f.bytes f.size d; size = f.size + length d }

unfoldable pub curr_size : File → ℕ × File
curr_size f = (length f.bytes, record f { size = length f.bytes })
