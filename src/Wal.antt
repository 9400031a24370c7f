-- ===== src/Wal.antt =====
-- wal/header.go and wal/file.go: the header of a log, and the store of the log files.
use unitdb.Prelude.{
  ℕ, ◌^◌, ◌≡◌, ◌<◌, refl, sym, ap, ◌∙◌, Bool, true, false, Option, none, some, List, [], ◌++◌,
  append-nil, overwrite, overwrite_tail, ltb, if◌then◌else◌, ◌>>=◌, length, length-append, take,
  drop, take-append, drop-append, put_uint, read_uint, read_uint-put_uint, arith,
}
use unitdb.Buffer.{Buffer, IsBuffer}
use unitdb.Prelude.Maps.{Map, find, insert, erase, find-insert_self}

abbrev log_header_size : ℕ
log_header_size = 18

-- `time_id` is the bit pattern of an int64.
pub record LogInfo : Type 0 where
  pub version : ℕ
  pub time_id : ℕ
  pub count : ℕ
  pub size : ℕ

abbrev blank : LogInfo
blank = record { version = 0; time_id = 0; count = 0; size = 0 }

unfoldable pub marshal_binary : LogInfo → List ℕ
unfolding put_uint
marshal_binary l =
    put_uint 2 l.version ++ (put_uint 8 l.time_id ++ (put_uint 4 l.count ++ put_uint 4 l.size))

-- `none` is the panic on buf that is too short.
unfoldable pub unmarshal_binary : List ℕ → Option LogInfo
unfolding read_uint
unmarshal_binary bytes = do
  (version, bytes₁) ← read_uint 2 bytes
  (time_id, bytes₂) ← read_uint 8 bytes₁
  (count, bytes₃) ← read_uint 4 bytes₂
  (size, rest) ← read_uint 4 bytes₃
  some (record { version = version; time_id = time_id; count = count; size = size })

-- The logs by time ID, each as the bytes of its file.
pub record FileStore : Type 0 where
  pub opened : Bool
  pub logs : Map (List ℕ)

-- `none` is the error on a store that is not open.
unfoldable pub put : FileStore → LogInfo → List ℕ → Option FileStore
unfolding marshal_binary insert
put fs info bytes =
    if fs.opened
    then some (record fs { logs = insert fs.logs info.time_id (marshal_binary info ++ bytes) })
    else none

-- A log that cannot be read is taken aside.
unfoldable pub corrupt : FileStore → ℕ → FileStore
unfolding erase
corrupt fs time_id = record fs { logs = erase fs.logs time_id }

module _ {Buf : Type 0} (ops : Buffer Buf) where
  -- The header, the caller's buffer and the store afterwards. The buffer is extended by the size that
  -- the header gives, and the bytes behind the header are read into its whole internal slice; a log
  -- with fewer bytes fills the front of it. A buffer that cannot be extended ends the read.
  unfoldable pub read_log : FileStore → ℕ → List ℕ → Buf → LogInfo × Buf × FileStore
  unfolding unmarshal_binary corrupt
  read_log fs time_id log buf = elim (unmarshal_binary (take log_header_size log)) [
    | none ↦ (blank, buf, corrupt fs time_id)
    | some info ↦ elim (ops.extend buf info.size) [
      | none ↦ (info, buf, fs)
      | some (_, grown) ↦
          let rest = drop log_header_size log in
          if ltb (length rest) (length (ops.internal grown))
          then (info, ops.fill grown rest, corrupt fs time_id)
          else (info, ops.fill grown (take (length (ops.internal grown)) rest), fs)
    ]
  ]

  unfoldable pub read : FileStore → ℕ → Buf → LogInfo × Buf × FileStore
  unfolding find read_log corrupt
  read fs time_id buf =
      if fs.opened
      then elim (find fs.logs time_id) [
        | none ↦ (blank, buf, fs)
        | some log ↦
            if ltb (length log) log_header_size
            then (blank, buf, corrupt fs time_id)
            else read_log fs time_id log buf
      ]
      else (blank, buf, fs)

unfoldable pub del : FileStore → ℕ → FileStore
unfolding erase
del fs time_id = if fs.opened then record fs { logs = erase fs.logs time_id } else fs

-- The fields have their machine widths.
pub record IsLogInfo (l : LogInfo) : Type 0 where
  pub version : l.version < 2 ^ 16
  pub time_id : l.time_id < 2 ^ 64
  pub count : l.count < 2 ^ 32
  pub size : l.size < 2 ^ 32

unmarshal_steps :
    (bs b₁ b₂ b₃ rest : List ℕ) (v t c s : ℕ)
    → read_uint 2 bs ≡ some (v, b₁)
    → read_uint 8 b₁ ≡ some (t, b₂)
    → read_uint 4 b₂ ≡ some (c, b₃)
    → read_uint 4 b₃ ≡ some (s, rest)
    → unmarshal_binary bs ≡ some (record { version = v; time_id = t; count = c; size = s })
unfolding unmarshal_binary
unmarshal_steps bs b₁ b₂ b₃ rest v t c s e₁ e₂ e₃ e₄ = rw (unmarshal_binary, e₁, ◌>>=◌, e₂, e₃, e₄)

unmarshal-marshal_log : (l : LogInfo) → IsLogInfo l → unmarshal_binary (marshal_binary l) ≡ some l
unfolding marshal_binary
unmarshal-marshal_log l i =
    unmarshal_steps _ _ _ (put_uint 4 l.size) [] l.version l.time_id l.count l.size
      (read_uint-put_uint 2 l.version _ (omega (arith, i.version)))
      (read_uint-put_uint 8 l.time_id _ (omega (arith, i.time_id)))
      (read_uint-put_uint 4 l.count (put_uint 4 l.size) (omega (arith, i.count)))
      (ap (read_uint 4) (sym (append-nil (put_uint 4 l.size)))
        ∙ read_uint-put_uint 4 l.size [] (omega (arith, i.size)))

length-marshal_log : (l : LogInfo) → length (marshal_binary l) ≡ 18
unfolding marshal_binary put_uint
length-marshal_log l = refl

put_steps :
    (fs : FileStore) (info : LogInfo) (bytes : List ℕ)
    → fs.opened ≡ true
    → put fs info bytes
      ≡ some (record fs { logs = insert fs.logs info.time_id (marshal_binary info ++ bytes) })
unfolding put
put_steps fs info bytes opened =
    ap
      (λ c.
        if c
        then some (record fs { logs = insert fs.logs info.time_id (marshal_binary info ++ bytes) })
        else none)
      opened

module _ {Buf : Type 0} (ops : Buffer Buf) (laws : IsBuffer ops) where
  read_log_ok :
      (fs : FileStore) (time_id off : ℕ) (log bytes : List ℕ) (l : LogInfo) (buf grown : Buf)
      → unmarshal_binary (take log_header_size log) ≡ some l
      → drop log_header_size log ≡ bytes
      → ops.extend buf l.size ≡ some (off, grown)
      → length (ops.internal grown) ≡ length bytes
      → read_log ops fs time_id log buf ≡ (l, ops.fill grown bytes, fs)
  unfolding read_log
  read_log_ok fs time_id off log bytes l buf grown e d ext s =
      let whole : ltb (length bytes) (length (ops.internal grown)) ≡ false = ground arith in
      let all : take (length (ops.internal grown)) bytes ≡ bytes =
        ap (λ n. take n bytes) s
        ∙ ap (take (length bytes)) (sym (append-nil bytes))
        ∙ take-append bytes [] in
      rw (read_log, e, ext, d, whole) (ap (λ x. (l, ops.fill grown x, fs)) all)

  read_steps :
      (fs : FileStore) (time_id : ℕ) (log : List ℕ) (buf : Buf)
      → fs.opened ≡ true
      → find fs.logs time_id ≡ some log
      → ltb (length log) log_header_size ≡ false
      → read ops fs time_id buf ≡ read_log ops fs time_id log buf
  unfolding read
  read_steps fs time_id log buf opened found long =
      rw (read, found, long)
        (ap (λ c. if c then read_log ops fs time_id log buf else (blank, buf, fs)) opened)

  -- A buffer that was empty and is extended has room for just the bytes that are read into it.
  fill-extended :
      (buf grown : Buf) (n off : ℕ) (bytes : List ℕ)
      → ops.bytes buf ≡ []
      → ops.extend buf n ≡ some (off, grown)
      → n ≡ length bytes
      → (length (ops.internal grown) ≡ length bytes) × (ops.bytes (ops.fill grown bytes) ≡ bytes)
  fill-extended buf grown n off bytes empty ext size =
      let (_, new, many, e) = laws.extend_bytes buf grown n off ext in
      let e' : ops.bytes grown ≡ new = e ∙ ap (λ l. l ++ new) empty in
      let room : length (ops.internal grown) ≡ length bytes =
        ap length (laws.internal_bytes grown) ∙ ap length e' ∙ many ∙ size in
      (
        room,
        laws.fill_bytes grown bytes (omega (arith, room))
            ∙ ap (λ l. overwrite l 0 bytes) e'
            ∙ overwrite_tail [] new bytes (many ∙ size),
      )

  -- A log that is put into an open store is read back with its header and its bytes into an empty
  -- buffer that can be extended by their size, where the header has their size and its fields have
  -- their machine widths; the read changes nothing in the store.
  pub read-put :
      (fs : FileStore) (info : LogInfo) (bytes : List ℕ) (buf grown : Buf) (off : ℕ)
      → fs.opened ≡ true
      → IsLogInfo info
      → info.size ≡ length bytes
      → ops.bytes buf ≡ []
      → ops.extend buf info.size ≡ some (off, grown)
      → (fs' : FileStore) × (buf' : Buf) × (put fs info bytes ≡ some fs')
        × (read ops fs' info.time_id buf ≡ (info, buf', fs'))
        × (ops.bytes buf' ≡ bytes)
  read-put fs info bytes buf grown off opened i size empty ext =
      let header = marshal_binary info in
      let fs' : FileStore = record fs { logs = insert fs.logs info.time_id (header ++ bytes) } in
      let eighteen = length-marshal_log info in
      let long : ltb (length (header ++ bytes)) log_header_size ≡ false =
        ground (arith, length-append header bytes, eighteen) in
      let (room, filled) = fill-extended buf grown info.size off bytes empty ext size in
      (
        fs',
        ops.fill grown bytes,
        put_steps fs info bytes opened,
        read_steps fs' info.time_id (header ++ bytes) buf opened
              (find-insert_self fs.logs info.time_id (header ++ bytes)) long
            ∙ read_log_ok fs' info.time_id off (header ++ bytes) bytes info buf grown
                (ap unmarshal_binary
                    (ap (λ n. take n (header ++ bytes)) (sym eighteen) ∙ take-append header bytes)
                  ∙ unmarshal-marshal_log info i)
                (ap (λ n. drop n (header ++ bytes)) (sym eighteen) ∙ drop-append header bytes) ext
                room,
        filled,
      )
