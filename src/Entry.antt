-- ===== src/Entry.antt =====
-- entry.go: the header of an entry in the log and in memdb.
use unitdb.Prelude.{
  ℕ, ◌^◌, ◌<◌, ◌≡◌, Bool, Option, some, List, ◌++◌, ◌>>=◌, put_uint, read_uint, read_uint-put_uint,
  append_assoc,
}

pub record Entry : Type 0 where
  pub seq : ℕ
  pub topic_size : ℕ
  pub value_size : ℕ
  pub expires_at : ℕ
  pub parsed : Bool
  pub topic_hash : ℕ
  pub cache : List ℕ

unfoldable pub marshal_binary : Entry → List ℕ
marshal_binary e =
    put_uint 8 e.seq
    ++ (put_uint 2 e.topic_size
        ++ (put_uint 4 e.value_size ++ (put_uint 4 e.expires_at ++ put_uint 8 e.topic_hash)))

-- `none` is the panic on data that is too short; what follows the 26 bytes is not read.
unfoldable pub unmarshal_binary : Entry → List ℕ → Option Entry
unmarshal_binary e d = do
  (seq, d₁) ← read_uint 8 d
  (topic_size, d₂) ← read_uint 2 d₁
  (value_size, d₃) ← read_uint 4 d₂
  (expires_at, d₄) ← read_uint 4 d₃
  (topic_hash, d₅) ← read_uint 8 d₄
  some (record e {
    seq = seq;
    topic_size = topic_size;
    value_size = value_size;
    expires_at = expires_at;
    topic_hash = topic_hash;
  })

-- The fields have their machine widths.
pub record IsWide (e : Entry) : Type 0 where
  pub seq : e.seq < 2 ^ 64
  pub topic : e.topic_size < 2 ^ 16
  pub value : e.value_size < 2 ^ 32
  pub expires : e.expires_at < 2 ^ 32
  pub hash : e.topic_hash < 2 ^ 64

-- An entry whose fields have their machine widths is read back from its 26 bytes, whatever follows
-- them; the parse mark and the cache of the receiver stay.
pub unmarshal-marshal_entry :
    (old e : Entry) (rest : List ℕ)
    → IsWide e
    → unmarshal_binary old (marshal_binary e ++ rest)
      ≡ some (record e { parsed = old.parsed; cache = old.cache })
unfolding marshal_binary unmarshal_binary
unmarshal-marshal_entry old e rest w = rw (
  append_assoc (put_uint 8 e.seq) _ rest,
  append_assoc (put_uint 2 e.topic_size) _ rest,
  append_assoc (put_uint 4 e.value_size) _ rest,
  append_assoc (put_uint 4 e.expires_at) _ rest,
  read_uint-put_uint 8 e.seq _ w.seq,
  read_uint-put_uint 2 e.topic_size _ w.topic,
  read_uint-put_uint 4 e.value_size _ w.value,
  read_uint-put_uint 4 e.expires_at _ w.expires,
  read_uint-put_uint 8 e.topic_hash _ w.hash,
)
