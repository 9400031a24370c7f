-- ===== src/Block/Roundtrip.antt =====
-- block.go: an index block is read back from the bytes that it was written as.
use unitdb.Prelude.{
  true, ℕ, ◌+◌, ◌*◌, ◌^◌, ◌≤◌, ◌<◌, ◌≡◌, refl, sym, ◌∙◌, ◌⊎◌, inl, inr, List, [], ◌∷◌, ◌++◌, some,
  arith, length, replicate, length-append, length-put_uint, put_uint, read_uint-put_uint, All, ltb,
  lt→ltb,
}
use unitdb.Block.{
  IndexEntry, IndexBlock, blocks_before, first_seq, relative_seq, absolute_seq, marshal_entries,
  marshal_binary, unmarshal_entry, unmarshal_entries, unmarshal_binary, entries_per_index_block,
  block_size,
}

-- The fields have their machine widths, and the sequence, unless it is 0, belongs to the block of
-- `base`.
pub record IsPlaced (base : ℕ) (e : IndexEntry) : Type 0 where
  pub seq_width : e.seq < 2 ^ 64
  pub topic_width : e.topic_size < 2 ^ 16
  pub value_width : e.value_size < 2 ^ 32
  pub offset_width : e.msg_offset < 2 ^ 64
  pub place : (e.seq ≡ 0) ⊎ (blocks_before e.seq ≡ blocks_before base)

-- What `append` keeps: every sequence of a block belongs to the block of the first.
pub record IsValid (b : IndexBlock) : Type 0 where
  pub full : length b.entries ≡ entries_per_index_block
  pub base_width : first_seq b.entries < 2 ^ 64
  pub placed : All (IsPlaced (first_seq b.entries)) b.entries
  pub idx_width : b.entry_idx < 2 ^ 16

relative_seq-lt : (base seq : ℕ) → relative_seq base seq < 2 ^ 16
unfolding relative_seq
relative_seq-lt base seq = ground arith

absolute-relative :
    (base seq : ℕ)
    → base < 2 ^ 64
    → seq < 2 ^ 64
    → (seq ≡ 0) ⊎ (blocks_before seq ≡ blocks_before base)
    → absolute_seq base (relative_seq base seq) ≡ seq
unfolding absolute_seq relative_seq
absolute-relative base seq hb hs (inl e) = ground arith
absolute-relative base seq hb hs (inr e) = ground arith

-- What is read into the entry `old` from the bytes of `e`: the cache is not stored.
pub reloaded : IndexEntry → IndexEntry → IndexEntry
reloaded old e = record e { cache = old.cache }

pub reloaded_all : List IndexEntry → List IndexEntry → List IndexEntry
reloaded_all [] es = []
reloaded_all (o ∷ os) [] = []
reloaded_all (o ∷ os) (e ∷ es) = reloaded o e ∷ reloaded_all os es

enough :
    (e : IndexEntry) (base : ℕ) (rest : List ℕ)
    → 1 ≤ length rest
    → ltb 16 (
        length (
          put_uint 2 (relative_seq base e.seq)
          ++ (put_uint 2 e.topic_size
              ++ (put_uint 4 e.value_size ++ (put_uint 8 e.msg_offset ++ rest)))))
      ≡ true
enough e base rest h = lt→ltb _ _ (omega (arith, length-append {0}, length-put_uint))

entry_roundtrip :
    (base : ℕ) (old e : IndexEntry) (rest : List ℕ)
    → base < 2 ^ 64
    → IsPlaced base e
    → 1 ≤ length rest
    → unmarshal_entry base old (
        put_uint 2 (relative_seq base e.seq)
        ++ (put_uint 2 e.topic_size
            ++ (put_uint 4 e.value_size ++ (put_uint 8 e.msg_offset ++ rest))))
      ≡ some (reloaded old e, rest)
unfolding unmarshal_entry reloaded
entry_roundtrip base old e rest hb p more = rw (
  enough e base rest more,
  read_uint-put_uint 2 (relative_seq base e.seq) _ (relative_seq-lt base e.seq),
  read_uint-put_uint 2 e.topic_size _ p.topic_width,
  read_uint-put_uint 4 e.value_size _ p.value_width,
  read_uint-put_uint 8 e.msg_offset _ p.offset_width,
  absolute-relative base e.seq hb p.seq_width p.place,
)

length-marshal_entries :
    (base : ℕ) (es : List IndexEntry) (rest : List ℕ)
    → length (marshal_entries base es rest) ≡ 16 * length es + length rest
unfolding marshal_entries
length-marshal_entries base [] rest = omega arith
length-marshal_entries base (e ∷ es) rest =
    omega (arith, length-append {0}, length-put_uint, length-marshal_entries base es rest)

entries_roundtrip :
    (base : ℕ) (olds es : List IndexEntry) (rest : List ℕ)
    → base < 2 ^ 64
    → length olds ≡ length es
    → All (IsPlaced base) es
    → 1 ≤ length rest
    → unmarshal_entries base olds (marshal_entries base es rest) ≡ some (reloaded_all olds es, rest)
unfolding unmarshal_entries marshal_entries reloaded_all
entries_roundtrip base [] [] rest hb same p more = refl
entries_roundtrip base [] (e ∷ es) rest hb same p more = absurd (omega arith)
entries_roundtrip base (o ∷ olds) [] rest hb same p more = absurd (omega arith)
entries_roundtrip base (o ∷ olds) (e ∷ es) rest hb same p more = rw (
  entry_roundtrip base o e (marshal_entries base es rest) hb p.0
      (omega (arith, length-marshal_entries base es rest)),
  entries_roundtrip base olds es rest hb (omega arith) p.1 more,
)

-- A block that is written holds as many bytes as a block has room for, and a block that is read
-- from them has the entries that were written, with the caches that it had before.
pub marshal-unmarshal :
    (old b : IndexBlock)
    → IsValid b
    → length old.entries ≡ entries_per_index_block
    → (length (marshal_binary b) ≡ block_size)
      × (unmarshal_binary old (marshal_binary b)
          ≡ some (record old {
            entries = reloaded_all old.entries b.entries;
            base_seq = first_seq b.entries;
            entry_idx = b.entry_idx;
          }))
unfolding marshal_binary unmarshal_binary
marshal-unmarshal old b v full =
    let base = first_seq b.entries in
    let tail = put_uint 2 b.entry_idx ++ replicate 6 0 in
    (
      omega (
        arith,
        length-append {0},
        length-put_uint,
        length-marshal_entries base b.entries tail,
        v.full,
      ),
      rw (
        read_uint-put_uint 8 base _ v.base_width,
        entries_roundtrip base old.entries b.entries tail v.base_width (full ∙ sym v.full) v.placed
            (omega (arith, length-append {0}, length-put_uint)),
        read_uint-put_uint 2 b.entry_idx _ v.idx_width,
      ),
    )
