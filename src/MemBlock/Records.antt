-- ===== src/MemBlock/Records.antt =====
-- memdb/block.go: the records of a time block, as rows of its buffer.
use unitdb.Prelude.{
  ℕ, zero, suc, ◌+◌, ◌%◌, ◌^◌, ◌≡◌, ◌<◌, ◌≤◌, refl, sym, ap, ◌∙◌, true, some, List, [], ◌∷◌, ◌++◌,
  leb, le→leb, ◌==◌, if◌then◌else◌, ◌>>=◌, length, length-append, take, drop, take-append,
  drop-append, put_uint, read_uint, add64, read_uint-put_uint, length-put_uint, slice, slice-append,
  overwrite, overwrite_join, overwrite_tail, length-overwrite-le, append_assoc, append-nil, arith,
}
use unitdb.Buffer.{Buffer, IsBuffer}
use unitdb.MemBlock.Keys.{find-insert_record}
use unitdb.MemBlock.{Key, MemBlock, find_record, insert_record, header_size, key_bytes, get, put}

-- A record in the buffer: its length, its key with the flag, and its bytes.
unfoldable pub row : Key → List ℕ → List ℕ
row k d = put_uint 4 ((length d + header_size) % 2 ^ 32) ++ (key_bytes k ++ d)

pub length-key_bytes : (k : Key) → length (key_bytes k) ≡ 9
unfolding key_bytes
length-key_bytes k = omega (arith, length-put_uint 8 k.key)

pub length-row : (k : Key) (d : List ℕ) → length (row k d) ≡ length d + header_size
unfolding row
length-row k d = omega (
  arith,
  length-append (put_uint 4 ((length d + header_size) % 2 ^ 32)) (key_bytes k ++ d),
  length-append (key_bytes k) d,
  length-put_uint 4 ((length d + header_size) % 2 ^ 32),
  length-key_bytes k,
)

take-take : (m n : ℕ) (bs : List ℕ) → m ≤ n → take m (take n bs) ≡ take m bs
take-take zero n bs h = refl
take-take (suc m) zero bs h = absurd (omega arith)
take-take (suc m) (suc n) [] h = refl
take-take (suc m) (suc n) (b ∷ bs) h = ap (λ l. b ∷ l) (take-take m n bs (omega arith))

slice-head :
    (off : ℕ) (bs d e : List ℕ)
    → slice off (length (d ++ e)) bs ≡ d ++ e
    → slice off (length d) bs ≡ d
slice-head off bs d e h =
    sym (take-take (length d) (length (d ++ e)) (drop off bs) (omega (arith, length-append d e)))
    ∙ ap (take (length d)) h
    ∙ take-append d e

module _ {Buf : Type 0} (ops : Buffer Buf) where
  -- The record of a key and its bytes stand at an offset.
  pub record IsRow (b : MemBlock Buf) (off : ℕ) (k : Key) (d : List ℕ) : Type 0 where
    pub stands : slice off (length (row k d)) (ops.bytes b.contents) ≡ row k d
    pub inside : off + length (row k d) ≤ length (ops.bytes b.contents)
    pub small : length d + header_size < 2 ^ 32

module _ {Buf : Type 0} (ops : Buffer Buf) (laws : IsBuffer ops) where
  get_steps :
      (b : MemBlock Buf) (off n : ℕ) (scratch rest whole : List ℕ)
      → ops.read b.contents off (off + 4) ≡ some scratch
      → read_uint 4 scratch ≡ some (n, rest)
      → ops.read b.contents off (off + n) ≡ some whole
      → leb header_size (length whole) ≡ true
      → get ops b off ≡ some (drop header_size whole)
  unfolding get
  get_steps b off n scratch rest whole first number second room =
      rw (get, first, ◌>>=◌, number, second, room)

  pub get_row :
      (b : MemBlock Buf) (off : ℕ) (k : Key) (d : List ℕ)
      → IsRow ops b off k d
      → get ops b off ≡ some d
  unfolding row
  get_row b off k d r =
      let bs = ops.bytes b.contents in
      let size = length d + header_size in
      let len : List ℕ = put_uint 4 (size % 2 ^ 32) in
      let wide : size % 2 ^ 32 ≡ size = omega (arith, r.small) in
      let four : length len ≡ 4 = length-put_uint 4 (size % 2 ^ 32) in
      let whole = length-row k d in
      let first : ops.read b.contents off (off + 4) ≡ some len =
        laws.read_bytes b.contents off (off + 4) (omega arith) (omega (arith, r.inside, whole))
        ∙ ap some (
            ap (λ n. slice off n bs) (omega (arith, four))
            ∙ slice-head off bs len (key_bytes k ++ d) r.stands) in
      let number : read_uint 4 len ≡ some (size, []) =
        ap (read_uint 4) (sym (append-nil len))
        ∙ read_uint-put_uint 4 (size % 2 ^ 32) [] (omega arith)
        ∙ ap (λ n. some (n, [])) wide in
      let second : ops.read b.contents off (off + size) ≡ some (row k d) =
        laws.read_bytes b.contents off (off + size) (omega arith) (omega (arith, r.inside, whole))
        ∙ ap some (ap (λ n. slice off n bs) (omega (arith, whole)) ∙ r.stands) in
      let room : leb header_size (length (row k d)) ≡ true = le→leb _ _ (omega (arith, whole)) in
      get_steps b off size len [] (row k d) first number second room
      ∙ ap some (
          ap (drop header_size) (sym (append_assoc len (key_bytes k) d))
          ∙ ap (λ n. drop n ((len ++ key_bytes k) ++ d)) {x = header_size}
              (omega (arith, length-append len (key_bytes k), four, length-key_bytes k))
          ∙ drop-append (len ++ key_bytes k) d)

  put_steps :
      (b : MemBlock Buf) (k : Key) (d : List ℕ) (off : ℕ) (b₁ b₂ b₃ b₄ : Buf)
      → ops.extend b.contents (length d + header_size) ≡ some (off, b₁)
      → ops.write_at b₁ (put_uint 4 ((length d + header_size) % 2 ^ 32)) off ≡ some b₂
      → ops.write_at b₂ (key_bytes k) (off + 4) ≡ some b₃
      → ops.write_at b₃ d (off + header_size) ≡ some b₄
      → put ops b k d
        ≡ some (record b {
          contents = b₄;
          count = if k.del_flag == 0 then add64 b.count 1 else b.count;
          records = insert_record b.records k off;
        })
  unfolding put
  put_steps b k d off b₁ b₂ b₃ b₄ e₁ e₂ e₃ e₄ = rw (put, e₁, ◌>>=◌, e₂, e₃, e₄)

  slice-end : (old new : List ℕ) → slice (length old) (length new) (old ++ new) ≡ new
  slice-end old new =
      ap (take (length new)) (drop-append old new)
      ∙ ap (take (length new)) (sym (append-nil new))
      ∙ take-append new []

  -- A buffer that has a row behind the bytes of the block.
  pub IsRow-behind :
      (b b' : MemBlock Buf) (k : Key) (d : List ℕ) (off : ℕ)
      → length d + header_size < 2 ^ 32
      → off ≡ length (ops.bytes b.contents)
      → ops.bytes b'.contents ≡ ops.bytes b.contents ++ row k d
      → IsRow ops b' off k d
  IsRow-behind b b' k d off small at e = record {
    stands =
        ap (slice off (length (row k d))) e
        ∙ ap (λ o. slice o (length (row k d)) (ops.bytes b.contents ++ row k d)) at
        ∙ slice-end (ops.bytes b.contents) (row k d);
    inside = omega (arith, ap length e, length-append (ops.bytes b.contents) (row k d), at);
    small = small;
  }

  pub IsRow-before :
      (b b' : MemBlock Buf) (k : Key) (d new : List ℕ) (o : ℕ)
      → ops.bytes b'.contents ≡ ops.bytes b.contents ++ new
      → IsRow ops b o k d
      → IsRow ops b' o k d
  IsRow-before b b' k d new o e r = record {
    stands =
        ap (slice o (length (row k d))) e
        ∙ slice-append o (length (row k d)) (ops.bytes b.contents) new r.inside
        ∙ r.stands;
    inside = omega (arith, ap length e, length-append (ops.bytes b.contents) new, r.inside);
    small = r.small;
  }

  -- The three writes put the row behind the bytes that were there.
  row_written :
      (old new : List ℕ) (k : Key) (d : List ℕ)
      → length new ≡ length d + header_size
      → overwrite
          (overwrite
            (overwrite (old ++ new) (length old) (put_uint 4 ((length d + header_size) % 2 ^ 32)))
            (length old + 4)
            (key_bytes k))
          (length old + header_size)
          d
        ≡ old ++ row k d
  unfolding row
  row_written old new k d size =
      let len : List ℕ = put_uint 4 ((length d + header_size) % 2 ^ 32) in
      let four : length len ≡ 4 = length-put_uint 4 ((length d + header_size) % 2 ^ 32) in
      sym (
        overwrite_join (overwrite (old ++ new) (length old) len) (length old + 4)
          (length old + header_size) (key_bytes k) d (omega (arith, length-key_bytes k)))
      ∙ sym (
          overwrite_join (old ++ new) (length old) (length old + 4) len (key_bytes k ++ d)
            (omega (arith, four)))
      ∙ overwrite_tail old new (len ++ (key_bytes k ++ d)) (size ∙ sym (length-row k d))

  -- Where the buffer has room, a put writes the row of the record behind the bytes of the block.
  pub put_written :
      (b : MemBlock Buf) (k : Key) (d : List ℕ) (off : ℕ) (grown : Buf)
      → ops.extend b.contents (length d + header_size) ≡ some (off, grown)
      → (b' : MemBlock Buf) × (put ops b k d ≡ some b')
        × (off ≡ length (ops.bytes b.contents))
        × (ops.bytes b'.contents ≡ ops.bytes b.contents ++ row k d)
        × (b'.records ≡ insert_record b.records k off)
        × (b'.count ≡ (if k.del_flag == 0 then add64 b.count 1 else b.count))
  put_written b k d off grown ext =
      let old = ops.bytes b.contents in
      let len : List ℕ = put_uint 4 ((length d + header_size) % 2 ^ 32) in
      let four : length len ≡ 4 = length-put_uint 4 ((length d + header_size) % 2 ^ 32) in
      let nine = length-key_bytes k in
      let (at, new, size, e₁) =
        laws.extend_bytes b.contents grown (length d + header_size) off ext in
      let room₁ : length (ops.bytes grown) ≡ off + (length d + header_size) =
        omega (arith, ap length e₁, length-append old new, size, at) in
      let (b₂, w₂, e₂) = laws.write_at_bytes grown len off (omega (arith, room₁, four)) in
      let room₂ : off + (length d + header_size) ≤ length (ops.bytes b₂) =
        omega (arith, ap length e₂, length-overwrite-le (ops.bytes grown) off len, room₁) in
      let (b₃, w₃, e₃) =
        laws.write_at_bytes b₂ (key_bytes k) (off + 4) (omega (arith, room₂, nine)) in
      let room₃ : off + (length d + header_size) ≤ length (ops.bytes b₃) =
        omega (
          arith,
          ap length e₃,
          length-overwrite-le (ops.bytes b₂) (off + 4) (key_bytes k),
          room₂,
        ) in
      let (b₄, w₄, e₄) = laws.write_at_bytes b₃ d (off + header_size) (omega (arith, room₃)) in
      let b' = record b {
        contents = b₄;
        count = if k.del_flag == 0 then add64 b.count 1 else b.count;
        records = insert_record b.records k off;
      } in
      let written : ops.bytes b₄ ≡ old ++ row k d =
        e₄
        ∙ ap (λ x. overwrite x (off + header_size) d)
            (e₃
              ∙ ap (λ x. overwrite x (off + 4) (key_bytes k))
                  (e₂ ∙ ap (λ x. overwrite x off len) e₁))
        ∙ ap
            (λ p.
              overwrite (overwrite (overwrite (old ++ new) p len) (p + 4) (key_bytes k))
                (p + header_size) d)
            at
        ∙ row_written old new k d size in
      (b', put_steps b k d off grown b₂ b₃ b₄ ext w₂ w₃ w₄, at, written, refl, refl)

  -- A record that is put where the buffer has room, the first of a block included, can be read back
  -- at its offset, which the map has for its key. The bytes that stood in the block before stay in
  -- front of it. Its bytes, with the header, are less than four gigabytes.
  pub put-get :
      (b : MemBlock Buf) (k : Key) (d : List ℕ) (off : ℕ) (grown : Buf)
      → length d + header_size < 2 ^ 32
      → ops.extend b.contents (length d + header_size) ≡ some (off, grown)
      → (b' : MemBlock Buf) × (put ops b k d ≡ some b')
        × (find_record b'.records k ≡ some off)
        × (get ops b' off ≡ some d)
        × IsRow ops b' off k d
        × (ops.bytes b'.contents ≡ ops.bytes b.contents ++ row k d)
  put-get b k d off grown small ext =
      let (b', e, at, written, same, _) = put_written b k d off grown ext in
      let r₁ = IsRow-behind b b' k d off small at written in
      (
        b',
        e,
        ap (λ m. find_record m k) same ∙ find-insert_record b.records k off,
        get_row b' off k d r₁,
        r₁,
        written,
      )

  -- A record that stood in the block before can be read after the put, too.
  pub get-put_before :
      (b b' : MemBlock Buf) (k : Key) (d new : List ℕ) (o : ℕ)
      → ops.bytes b'.contents ≡ ops.bytes b.contents ++ new
      → IsRow ops b o k d
      → get ops b' o ≡ some d
  get-put_before b b' k d new o e r = get_row b' o k d (IsRow-before b b' k d new o e r)
