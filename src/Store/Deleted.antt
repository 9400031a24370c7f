-- ===== src/Store/Deleted.antt =====
-- memdb/db.go: what a deletion leaves of its key.
use unitdb.Prelude.{
  ℕ, ◌+◌, ◌≡◌, inl, inr, refl, sym, ap, ◌∙◌, Bool, true, false, Option, none, some, List, [], ◌∷◌,
  if◌then◌else◌, ◌>>=◌, sub64, Option-cases, arith,
}
use unitdb.Prelude.Maps.{find, keys}
use unitdb.Buffer.{Buffer, IsBuffer}
use unitdb.Filter.{test}
use unitdb.MemBlock.{
  MemBlock, i_key, key_bytes, offset_of, find_record, erase_record, delete as delete_record,
}
use unitdb.MemBlock.Keys.{find-erase_record, same_key_refl}
use unitdb.MemBlock.Records.{length-row, length-key_bytes}
use unitdb.Store.Filtered.{Live, LiveAt}
use unitdb.Store.Fewer.{
  Fewer-refl, Fewer-trans, Yields, Yields-bind, Yields-some, Yields-next, Yields-map, Lessens,
  with_mark, with_mark-Fewer, delete_from-Fewer,
}
use unitdb.Store.Put.{StoredIn}
use unitdb.Store.{
  Store, TimeFilter, failed, entry_does_not_exist, block_key, newest_first, search_blocks, marked,
  delete_from, delete, lookup,
}

-- The result of a search is a block of the store.
abbrev Hit : {Buf : Type 0} → Store Buf → Option (ℕ × MemBlock Buf) → Type 0
Hit db none = Unit
Hit db (some (t, b)) = find db.time_blocks t ≡ some b

Yields-if :
    {B : Type 0} {P : B → Type 0} (c : Bool) {x y : Option B}
    → Yields P x
    → Yields P y
    → Yields P (if c then x else y)
Yields-if true p q = p
Yields-if false p q = q

search-Hit :
    {Buf : Type 0} (db : Store Buf) (r : TimeFilter) (key : ℕ) (ts : List ℕ)
    → Yields (Hit db) (search_blocks db r key ts)
unfolding search_blocks
search-Hit db r key [] = Yields-some none tt
search-Hit db r key (t ∷ ts) = elim (Option-cases (find db.time_blocks t)) [
  | inl e ↦ rw (search_blocks, e) (search-Hit db r key ts)
  | inr (b, e) ↦ elim (Option-cases (find_record b.records (i_key false key))) [
    | inr (off, e') ↦ rw (search_blocks, e, e') (Yields-some (some (t, b)) e)
    | inl e' ↦
        rw (search_blocks, e, e')
          (Yields-bind (find r.time_records t) (λ f.
            Yields-bind (test f key)
              (λ maybe. Yields-if maybe (search-Hit db r key ts) (Yields-some none tt))))
  ]
]

module _ {Buf : Type 0} (ops : Buffer Buf) where
  -- Whatever a deletion gives, it makes no key live and keeps the filters.
  pub delete-Fewer : (db : Store Buf) (key : ℕ) → Yields (Lessens ops db) (delete ops db key)
  unfolding delete
  delete-Fewer db key =
      Yields-if db.is_closed (Yields-some _ (Fewer-refl db))
        (Yields-bind (block_key db key) (λ bk. from_filters (find db.time_filters bk)))
    where
      from_found :
          (found : Option (ℕ × MemBlock Buf))
          → Hit db found
          → Yields (Lessens ops db) (elim found [
            | none ↦ some (db, failed entry_does_not_exist)
            | some (t, b) ↦ delete_from ops db t b key
          ])
      from_found none h = Yields-some _ (Fewer-refl db)
      from_found (some (t, b)) h =
          Yields-map _
            (λ r w.
              Fewer-trans db (with_mark ops db t b key) r.0 (with_mark-Fewer ops db t b key h) w)
            (delete_from-Fewer ops db t b key)

      from_filters :
          (o : Option TimeFilter)
          → Yields (Lessens ops db) (elim o [
            | none ↦ some (db, failed entry_does_not_exist)
            | some r ↦ search_blocks db r key (newest_first (keys r.time_records)) >>= λ found.
                elim found [
                  | none ↦ some (db, failed entry_does_not_exist)
                  | some (t, b) ↦ delete_from ops db t b key
                ]
          ])
      from_filters none = Yields-some _ (Fewer-refl db)
      from_filters (some r) =
          Yields-next (Hit db) _ (search-Hit db r key (newest_first (keys r.time_records)))
            (λ found h. from_found found h)

module _ {Buf : Type 0} (ops : Buffer Buf) (laws : IsBuffer ops) where
  delete_steps :
      (b : MemBlock Buf) (key off : ℕ) (c : Buf)
      → find_record b.records (i_key false key) ≡ some off
      → ops.write_at b.contents (key_bytes (i_key true key)) (off + 4) ≡ some c
      → delete_record ops b key
        ≡ some (record b {
          contents = c;
          records = erase_record b.records (i_key false key);
          count = sub64 b.count 1;
        })
  unfolding delete_record offset_of
  delete_steps b key off c e w = rw (delete_record, offset_of, e, w, ◌>>=◌) refl

  -- Where the record of the key stands in the buffer, it can be marked, and is live no more.
  pub marked_gone :
      (b : MemBlock Buf) (key : ℕ) (d : List ℕ)
      → StoredIn ops b key d
      → Live (marked ops b key) key
      → ⊥
  unfolding marked
  marked_gone b key d (off, e, r) (o, l) =
      let (c, w, _) = laws.write_at_bytes b.contents (key_bytes (i_key true key)) (off + 4) (
        omega
          (arith, r.inside, length-row (i_key false key) d, length-key_bytes (i_key true key))) in
      let ran = delete_steps b key off c e w in
      let there : find_record (erase_record b.records (i_key false key)) (i_key false key)
          ≡ some o =
        ap (λ x. find_record (unmarked x).records (i_key false key)) (sym ran) ∙ l in
      clash (
        sym (
          find-erase_record b.records (i_key false key) (i_key false key)
          ∙ ap (λ x. if x then none else find_record b.records (i_key false key))
              (same_key_refl (i_key false key)))
        ∙ there)
    where
      clash : {x : ℕ} → none ≡ some x → ⊥
      clash p = cc

      unmarked : Option (MemBlock Buf) → MemBlock Buf
      unmarked o = elim o [ none ↦ b | some b' ↦ b' ]

  pub marked-count :
      (b : MemBlock Buf) (key : ℕ) (d : List ℕ)
      → StoredIn ops b key d
      → (marked ops b key).count ≡ sub64 b.count 1
  unfolding marked
  marked-count b key d (off, e, r) =
      let (c, w, _) = laws.write_at_bytes b.contents (key_bytes (i_key true key)) (off + 4) (
        omega
          (arith, r.inside, length-row (i_key false key) d, length-key_bytes (i_key true key))) in
      ap (λ x. (unmarked x).count) (delete_steps b key off c e w)
    where
      unmarked : Option (MemBlock Buf) → MemBlock Buf
      unmarked o = elim o [ none ↦ b | some b' ↦ b' ]

  pub lookup_gone :
      (db : Store Buf) (t key : ℕ)
      → db.is_closed ≡ false
      → (LiveAt db t key → ⊥)
      → lookup ops db t key ≡ some (failed entry_does_not_exist)
  unfolding lookup
  lookup_gone db t key alive gone = elim (Option-cases (find db.time_blocks t)) [
    | inl e ↦ rw (lookup, alive, e) refl
    | inr (b, e) ↦ elim (Option-cases (find_record b.records (i_key false key))) [
      | inl e' ↦ rw (lookup, alive, e, e') refl
      | inr (off, e') ↦ absurd (gone (b, e, (off, e')))
    ]
  ]
