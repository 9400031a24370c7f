-- ===== src/Buffer.antt =====
-- The byte buffer of github.com/unit-io/bpool, as the writers and the memory store call it. It is a
-- parameter: its operations, and the laws that its documentation states of them.
use unitdb.Prelude.{ℕ, ◌+◌, ◌-◌, ◌≤◌, ◌≡◌, Option, some, List, [], ◌++◌, length, overwrite, slice}

-- An operation that may fail gives `none` for the error. `internal` is the slice that `Internal`
-- gives, and `fill` the buffer after bytes are read into the front of that slice.
pub record Buffer (Buf : Type 0) : Type 0 where
  pub bytes : Buf → List ℕ
  pub extend : Buf → ℕ → Option (ℕ × Buf)
  pub write_at : Buf → List ℕ → ℕ → Option Buf
  pub write : Buf → List ℕ → Option Buf
  pub read : Buf → ℕ → ℕ → Option (List ℕ)
  pub reset : Buf → Buf
  pub internal : Buf → List ℕ
  pub fill : Buf → List ℕ → Buf

-- `Extend` gives the offset of the new bytes, which follow the old ones; `WriteAt` writes inside
-- the buffer; `Write`, where it does not fail, behind it; `Slice` reads inside it; `Reset` empties it;
-- the slice that `Internal` gives has the buffer's bytes, and what is read into it stands in the
-- buffer.
pub record IsBuffer {Buf : Type 0} (ops : Buffer Buf) : Type 0 where
  pub extend_bytes :
      (b b' : Buf) (n off : ℕ)
      → ops.extend b n ≡ some (off, b')
      → (off ≡ length (ops.bytes b))
        × (new : List ℕ) × (length new ≡ n)
        × (ops.bytes b' ≡ ops.bytes b ++ new)
  pub write_at_bytes :
      (b : Buf) (d : List ℕ) (off : ℕ)
      → off + length d ≤ length (ops.bytes b)
      → (b' : Buf) × (ops.write_at b d off ≡ some b')
        × (ops.bytes b' ≡ overwrite (ops.bytes b) off d)
  pub write_bytes :
      (b b' : Buf) (d : List ℕ) → ops.write b d ≡ some b' → ops.bytes b' ≡ ops.bytes b ++ d
  pub read_bytes :
      (b : Buf) (start stop : ℕ)
      → start ≤ stop
      → stop ≤ length (ops.bytes b)
      → ops.read b start stop ≡ some (slice start (stop - start) (ops.bytes b))
  pub reset_bytes : (b : Buf) → ops.bytes (ops.reset b) ≡ []
  pub internal_bytes : (b : Buf) → ops.internal b ≡ ops.bytes b
  pub fill_bytes :
      (b : Buf) (d : List ℕ)
      → length d ≤ length (ops.internal b)
      → ops.bytes (ops.fill b d) ≡ overwrite (ops.bytes b) 0 d

-- No write behind the bytes of a buffer fails.
abbrev pub Takes : {Buf : Type 0} → Buffer Buf → Type 0
Takes {Buf} ops = (b : Buf) (d : List ℕ) → (b' : Buf) × (ops.write b d ≡ some b')
