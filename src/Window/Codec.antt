-- ===== src/Window/Codec.antt =====
-- time_window.go: a window block and its 4096 bytes.
use unitdb.Prelude.{
  ℕ, ◌+◌, ◌*◌, ◌^◌, ◌≡◌, ◌<◌, ◌≤◌, refl, ◌∙◌, sym, true, some, List, [], ◌∷◌, ◌++◌, ltb, length,
  replicate, put_uint, read_uint-put_uint, length-append, length-put_uint, lt→ltb, All, arith,
}
use unitdb.Block.{block_size}
use unitdb.Window.{
  WinEntry, WinBlock, entries_per_window_block, marshal_entries, marshal_binary, unmarshal_entry,
  unmarshal_entries, unmarshal_binary,
}

pub record IsWide (e : WinEntry) : Type 0 where
  pub sequence : e.sequence < 2 ^ 64
  pub expires : e.expires_at < 2 ^ 32

-- The array is full, and the fields have their machine widths.
pub record IsValid (b : WinBlock) : Type 0 where
  pub full : length b.entries ≡ entries_per_window_block
  pub wide : All IsWide b.entries
  pub hash : b.topic_hash < 2 ^ 64
  pub next : b.next < 2 ^ 64
  pub cutoff : b.cutoff_time < 2 ^ 64
  pub idx : b.entry_idx < 2 ^ 16

length-marshal_entries :
    (es : List WinEntry) (rest : List ℕ)
    → length (marshal_entries es rest) ≡ 12 * length es + length rest
unfolding marshal_entries
length-marshal_entries [] rest = omega arith
length-marshal_entries (e ∷ es) rest =
    omega (arith, length-append {0}, length-put_uint, length-marshal_entries es rest)

enough :
    (e : WinEntry) (rest : List ℕ)
    → 1 ≤ length rest
    → ltb 12 (length (put_uint 8 e.sequence ++ (put_uint 4 e.expires_at ++ rest))) ≡ true
enough e rest h = lt→ltb _ _ (omega (arith, length-append {0}, length-put_uint))

entry_roundtrip :
    (e : WinEntry) (rest : List ℕ)
    → IsWide e
    → 1 ≤ length rest
    → unmarshal_entry (put_uint 8 e.sequence ++ (put_uint 4 e.expires_at ++ rest)) ≡ some (e, rest)
unfolding unmarshal_entry
entry_roundtrip e rest w more = rw (
  enough e rest more,
  read_uint-put_uint 8 e.sequence _ w.sequence,
  read_uint-put_uint 4 e.expires_at _ w.expires,
)

entries_roundtrip :
    (olds es : List WinEntry) (rest : List ℕ)
    → length olds ≡ length es
    → All IsWide es
    → 1 ≤ length rest
    → unmarshal_entries olds (marshal_entries es rest) ≡ some (es, rest)
unfolding unmarshal_entries marshal_entries
entries_roundtrip [] [] rest same p more = refl
entries_roundtrip [] (e ∷ es) rest same p more = absurd (omega arith)
entries_roundtrip (o ∷ olds) [] rest same p more = absurd (omega arith)
entries_roundtrip (o ∷ olds) (e ∷ es) rest same p more = rw (
  entry_roundtrip e (marshal_entries es rest) p.0 (omega (arith, length-marshal_entries es rest)),
  entries_roundtrip olds es rest (omega arith) p.1 more,
)

-- A window block that is written holds as many bytes as a block has room for, and the block that
-- is read from them is the one that was written, but for the two marks that are not persisted.
pub unmarshal-marshal_window :
    (old b : WinBlock)
    → IsValid b
    → length old.entries ≡ entries_per_window_block
    → (length (marshal_binary b) ≡ block_size)
      × (unmarshal_binary old (marshal_binary b)
          ≡ some (record b { dirty = old.dirty; leased = old.leased }))
unfolding marshal_binary unmarshal_binary
unmarshal-marshal_window old b v full =
    let tail =
      put_uint 8 b.cutoff_time
      ++ (put_uint 8 b.topic_hash
          ++ (put_uint 8 b.next ++ (put_uint 2 b.entry_idx ++ replicate 50 0))) in
    (
      omega (
        arith,
        length-append {0},
        length-put_uint,
        length-marshal_entries b.entries tail,
        v.full,
      ),
      rw (
        entries_roundtrip old.entries b.entries tail (full ∙ sym v.full) v.wide
            (omega (arith, length-append {0}, length-put_uint)),
        read_uint-put_uint 8 b.cutoff_time _ v.cutoff,
        read_uint-put_uint 8 b.topic_hash _ v.hash,
        read_uint-put_uint 8 b.next _ v.next,
        read_uint-put_uint 2 b.entry_idx _ v.idx,
      ),
    )
