-- ===== src/BlockWriter/Errors.antt =====
-- block_writer.go: what an append that fails leaves behind.
use unitdb.Prelude.{
  ℕ, ◌%◌, ◌^◌, ◌≡◌, ◌⊎◌, inl, inr, refl, true, false, Option, none, some, List, ◌∷◌, ltb, ◌==◌,
  if◌then◌else◌, ◌>>=◌, length, minus_one, Bool-cases, Option-cases,
}
use mathlib.Core.Path.{subst}
use unitdb.Prelude.Maps.{insert}
use unitdb.Block.{IndexEntry, IndexBlock, block_index, validation}
use unitdb.Lease.{allocate}
use unitdb.Buffer.{Buffer}
use unitdb.BlockReader.{Error, io, entry_exist, entry_invalid, validation_failed, scan}
use unitdb.BlockWriter.Append.{with_entry}
use unitdb.BlockWriter.{
  BlockWriter, open_block, append_data, place, put_entry, append_new, append, message,
}

module _ {Buf : Type 0} (ops : Buffer Buf) where
  append_data-blocks :
      (w : BlockWriter Buf) (d : List ℕ)
      → ((append_data ops w d).0.index_blocks ≡ w.index_blocks)
        × ((append_data ops w d).0.index_file ≡ w.index_file)
  unfolding append_data
  append_data-blocks w d = elim (Option-cases (ops.extend w.buffer (length d))) [
    | inl e ↦ rw (append_data, e) (refl, refl)
    | inr ((k, b), e) ↦ elim (Option-cases (ops.write_at b d k)) [
      | inl ew ↦ rw (append_data, e, ew) (refl, refl)
      | inr (b', ew) ↦ rw (append_data, e, ew) (refl, refl)
    ]
  ]

  -- An error: the index blocks and the file stay; all stays, but for some errors.
  record Fails (w : BlockWriter Buf) (r : Error) (w' : BlockWriter Buf) : Type 0 where
    blocks : w'.index_blocks ≡ w.index_blocks
    file : w'.index_file ≡ w.index_file
    whole : (w' ≡ w) ⊎ ((r ≡ io) ⊎ (r ≡ validation_failed))

  -- An outcome whose error, if there is one, is such an error.
  Safe : BlockWriter Buf → Option (BlockWriter Buf × Option Error) → Type 0
  Safe w none = Unit
  Safe w (some (w', none)) = Unit
  Safe w (some (w', some r)) = Fails w r w'

  refused : (w : BlockWriter Buf) (r : Error) → Fails w r w
  refused w r = record { blocks = refl; file = refl; whole = inl refl }

  put_entry_foreign :
      (w : BlockWriter Buf) (i : ℕ) (b : IndexBlock) (e : IndexEntry)
      → ltb b.entry_idx (length b.entries) ≡ true
      → validation (with_entry b e) i ≡ false
      → put_entry ops w i b e
        ≡ some (
          record w { index_leases = if b.leased then e.seq ∷ w.index_leases else w.index_leases },
          some validation_failed,
        )
  unfolding put_entry
  put_entry_foreign w i b e space foreign = rw (put_entry, space, ◌>>=◌, foreign)

  put_entry_own :
      (w : BlockWriter Buf) (i : ℕ) (b : IndexBlock) (e : IndexEntry)
      → ltb b.entry_idx (length b.entries) ≡ true
      → validation (with_entry b e) i ≡ true
      → put_entry ops w i b e
        ≡ some (
          record w {
            index_leases = if b.leased then e.seq ∷ w.index_leases else w.index_leases;
            index_blocks = insert w.index_blocks i (with_entry b e);
          },
          none,
        )
  unfolding put_entry
  put_entry_own w i b e space own = rw (put_entry, space, ◌>>=◌, own)

  put_entry-Safe :
      (w w₁ : BlockWriter Buf) (i : ℕ) (b : IndexBlock) (e : IndexEntry)
      → w₁.index_blocks ≡ w.index_blocks
      → w₁.index_file ≡ w.index_file
      → Safe w (put_entry ops w₁ i b e)
  unfolding put_entry Safe
  put_entry-Safe w w₁ i b e same file = elim (Bool-cases (ltb b.entry_idx (length b.entries))) [
    | inr full ↦ rw (put_entry, full, ◌>>=◌, Safe) tt
    | inl space ↦ elim (Bool-cases (validation (with_entry b e) i)) [
      | inl own ↦ rw (put_entry_own w₁ i b e space own) tt
      | inr foreign ↦
          rw (put_entry_foreign w₁ i b e space foreign)
            (record { blocks = same; file = file; whole = inr (inr refl) })
    ]
  ]

  -- An outcome of `place` that keeps the index blocks and the file.
  Kept : BlockWriter Buf → Option (BlockWriter Buf × Option ℕ) → Type 0
  Kept w none = Unit
  Kept w (some (w', o)) = (w'.index_blocks ≡ w.index_blocks) × (w'.index_file ≡ w.index_file)

  place-Kept : (w : BlockWriter Buf) (d : List ℕ) → Kept w (place ops w d)
  unfolding place Kept
  place-Kept w d = elim (Option-cases (allocate (length d % 2 ^ 32) w.lease)) [
    | inl e ↦ rw (place, e, ◌>>=◌, Kept) tt
    | inr ((off, l), e) ↦ elim (Bool-cases (off == minus_one)) [
      | inl b ↦ rw (place, e, ◌>>=◌, b, Kept) (append_data-blocks (record w { lease = l }) d)
      | inr b ↦ rw (place, e, ◌>>=◌, b, Kept) (refl, refl)
    ]
  ]

  append_new-Safe :
      (w : BlockWriter Buf) (i : ℕ) (b : IndexBlock) (e : IndexEntry) (d : List ℕ)
      → Safe w (append_new ops w i b e d)
  unfolding append_new Safe Kept
  append_new-Safe w i b e d = elim (Bool-cases (length d == 0)) [
    | inl z ↦ rw (append_new, z, Safe) (refused w entry_invalid)
    | inr nz ↦ elim (Option-cases (place ops w d)) [
      | inl p ↦ rw (append_new, nz, p, ◌>>=◌, Safe) tt
      | inr ((w₁, none), p) ↦
          let kept : Kept w (some (w₁, none)) = subst (Kept w) p (place-Kept w d) in
          rw (append_new, nz, p, ◌>>=◌, Safe)
            (record { blocks = kept.0; file = kept.1; whole = inr (inl refl) })
      | inr ((w₁, some off), p) ↦
          let kept : Kept w (some (w₁, some off)) = subst (Kept w) p (place-Kept w d) in
          rw (append_new, nz, p, ◌>>=◌)
            (put_entry-Safe w w₁ i b (record e { msg_offset = off }) kept.0 kept.1)
    ]
  ]

  append-Safe : (w : BlockWriter Buf) (e : IndexEntry) → Safe w (append ops w e)
  unfolding append Safe
  append-Safe w e = elim (Bool-cases (e.seq == 0)) [
    | inl z ↦ rw (append, z, ◌>>=◌, Safe) tt
    | inr nz ↦ elim (Option-cases (open_block ops w (block_index e.seq))) [
      | inl o ↦ rw (append, nz, ◌>>=◌, o, Safe) (refused w io)
      | inr (b, o) ↦ elim (Option-cases (scan b.entry_idx e.seq b.entries)) [
        | inl s ↦ rw (append, nz, ◌>>=◌, o, s, Safe) tt
        | inr (none, s) ↦
            rw (append, nz, ◌>>=◌, o, s) (append_new-Safe w (block_index e.seq) b e (message e))
        | inr (some k, s) ↦ rw (append, nz, ◌>>=◌, o, s, Safe) (refused w entry_exist)
      ]
    ]
  ]

  -- An append that reports an error leaves the index blocks and the index file as they were. It
  -- changes nothing at all, unless the error is one of a read or the buffer, or of the validation.
  pub append-errors :
      (w w' : BlockWriter Buf) (e : IndexEntry) (r : Error)
      → append ops w e ≡ some (w', some r)
      → (w'.index_blocks ≡ w.index_blocks)
        × (w'.index_file ≡ w.index_file)
        × ((w' ≡ w) ⊎ ((r ≡ io) ⊎ (r ≡ validation_failed)))
  unfolding Safe
  append-errors w w' e r run =
      let fails : Safe w (some (w', some r)) = subst (Safe w) run (append-Safe w e) in
      (fails.blocks, fails.file, fails.whole)
