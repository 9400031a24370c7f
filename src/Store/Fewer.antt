-- ===== src/Store/Fewer.antt =====
-- memdb/db.go: a deletion makes no key live, and keeps the filters true.
use unitdb.Prelude.{
  ℕ, ◌+◌, ◌%◌, ◌^◌, ◌≡◌, ◌<◌, inl, inr, refl, sym, ap, ◌∙◌, Bool, true, false, Option, none, some,
  List, [], ◌∷◌, ◌==◌, ltb_int64, if◌then◌else◌, ◌>>=◌, length, put_uint, Option-cases, Bool-cases,
}
use mathlib.Core.Path.{subst}
use unitdb.Prelude.Maps.{find, insert, find-insert_cases}
use unitdb.Buffer.{Buffer}
use unitdb.Hash.Consistent.{find_block}
use unitdb.MemBlock.{
  Key, MemBlock, header_size, key_bytes, offset_of, i_key, same_key, find_record, insert_record,
  put as put_record, delete as delete_record,
}
use unitdb.MemBlock.Keys.{find-insert_record_ne, find-erase_record}
use unitdb.Store.Filtered.{Live, LiveAt, ShardOf, IsFiltered, some_inj}
use unitdb.Store.Lifecycle.{LiveAt-erase, no_record, release_log_ok, release_log_missing}
use unitdb.Store.{
  Store, TimeFilter, block_key, release_log, move, marked, mark_only, drain, without_records,
  delete_from,
}

-- The same store, but for blocks with no other live keys, the time marks and the signals.
pub record Fewer {Buf : Type 0} (db db' : Store Buf) : Type 0 where
  pub filters : db'.time_filters ≡ db.time_filters
  pub hashes : db'.consistent ≡ db.consistent
  pub now : db'.time_id ≡ db.time_id
  pub closing : db'.is_closed ≡ db.is_closed
  pub live : (u k : ℕ) → LiveAt db' u k → LiveAt db u k

pub Fewer-refl : {Buf : Type 0} (db : Store Buf) → Fewer db db
Fewer-refl db = record {
  filters = refl;
  hashes = refl;
  now = refl;
  closing = refl;
  live = λ u k l. l;
}

pub Fewer-trans : {Buf : Type 0} (a b c : Store Buf) → Fewer a b → Fewer b c → Fewer a c
Fewer-trans a b c f g = record {
  filters = g.filters ∙ f.filters;
  hashes = g.hashes ∙ f.hashes;
  now = g.now ∙ f.now;
  closing = g.closing ∙ f.closing;
  live = λ u k l. f.live u k (g.live u k l);
}

pub IsFiltered-Fewer :
    {Buf : Type 0} (db db' : Store Buf) → Fewer db db' → IsFiltered db → IsFiltered db'
unfolding block_key
IsFiltered-Fewer db db' w i = record {
  shard = λ key.
      let (r, g, (bk, e, e')) = i.shard key in
      (r, g, (bk, ap (λ c. find_block c key) w.hashes ∙ e, ap (λ m. find m bk) w.filters ∙ e'));
  tracked = λ key u r l sh. i.tracked key u r (w.live u key l) (back key r sh);
  covered = λ key u t r f l sh had older.
      i.covered key u t r f (w.live u key l) (back key r sh) had older;
  newest = λ bk t r f e had.
      subst (λ x. (ltb_int64 x t ≡ false) × (t < 2 ^ 64)) (sym w.now)
        (i.newest bk t r f (ap (λ m. find m bk) (sym w.filters) ∙ e) had);
}
  where
    back : (key : ℕ) (r : TimeFilter) → ShardOf db' key r → ShardOf db key r
    back key r (bk, e, e') = (
      bk,
      ap (λ c. find_block c key) (sym w.hashes) ∙ e,
      ap (λ m. find m bk) (sym w.filters) ∙ e',
    )

-- A store with another block in the place of one: it has no live keys that the old one had not.
Fewer-insert :
    {Buf : Type 0} (db : Store Buf) (t : ℕ) (b b' : MemBlock Buf)
    → find db.time_blocks t ≡ some b
    → ((k : ℕ) → Live b' k → Live b k)
    → Fewer db (record db { time_blocks = insert db.time_blocks t b' })
Fewer-insert db t b b' found fewer = record {
  filters = refl;
  hashes = refl;
  now = refl;
  closing = refl;
  live = λ u k (c, e, l). elim (find-insert_cases db.time_blocks t u b' c e) [
    | inr p ↦ (c, p.1, l)
    | inl (at, same) ↦
        (b, ap (find db.time_blocks) (sym at) ∙ found, fewer k (subst (λ x. Live x k) (sym same) l))
  ];
}

-- What a step gives, where it gives something, has a property.
pub record Yields {B : Type 0} (P : B → Type 0) (o : Option B) : Type 0 where
  pub given : (y : B) → o ≡ some y → P y

pub Yields-bind :
    {A B : Type 0} {P : B → Type 0} (o : Option A) {f : A → Option B}
    → ((x : A) → Yields P (f x))
    → Yields P (o >>= f)
Yields-bind none h = record { given = λ y e. elim (clash e) [ ] }
  where
    clash : {A : Type 0} {x : A} → none ≡ some x → ⊥
    clash p = cc
Yields-bind (some x) h = h x

-- The next step may use what is known of the first.
pub Yields-next :
    {A B : Type 0} {P : B → Type 0} (Q : A → Type 0) (o : Option A) {f : A → Option B}
    → Yields Q o
    → ((x : A) → Q x → Yields P (f x))
    → Yields P (o >>= f)
Yields-next Q none q h = record { given = λ y e. elim (clash e) [ ] }
  where
    clash : {A : Type 0} {x : A} → none ≡ some x → ⊥
    clash p = cc
Yields-next Q (some x) q h = h x (q.given x refl)

pub Yields-none : {B : Type 0} {P : B → Type 0} → Yields P none
Yields-none = record { given = λ y e. elim (clash e) [ ] }
  where
    clash : {A : Type 0} {x : A} → none ≡ some x → ⊥
    clash p = cc

pub Yields-map :
    {B : Type 0} {P Q : B → Type 0} (o : Option B) → ((y : B) → P y → Q y) → Yields P o → Yields Q o
Yields-map o h p = record { given = λ y e. h y (p.given y e) }

pub Yields-some : {B : Type 0} {P : B → Type 0} (x : B) → P x → Yields P (some x)
Yields-some {P = P} x p = record { given = λ y e. subst P (some_inj e) p }

-- The mark of a deletion is another key.
apart : (k j : ℕ) → same_key (i_key true k) (i_key false j) ≡ false
unfolding same_key i_key
apart k j = refl

module _ {Buf : Type 0} (ops : Buffer Buf) where
  put-records :
      (b : MemBlock Buf) (k : Key) (d : List ℕ)
      → Yields
          (λ b'. (off : ℕ) × (b'.records ≡ insert_record b.records k off))
          (put_record ops b k d)
  unfolding put_record
  put-records b k d = Yields-bind (ops.extend b.contents (length d + header_size)) λ p.
      Yields-bind (ops.write_at p.1 (put_uint 4 ((length d + header_size) % 2 ^ 32)) p.0) λ b₂.
        Yields-bind (ops.write_at b₂ (key_bytes k) (p.0 + 4))
          λ b₃. Yields-bind (ops.write_at b₃ d (p.0 + header_size)) λ b₄. Yields-some _ (p.0, refl)

  -- The block with the mark has no new key.
  delete-Live :
      (b : MemBlock Buf) (key : ℕ)
      → Yields (λ b'. (k : ℕ) → Live b' k → Live b k) (delete_record ops b key)
  unfolding delete_record
  delete-Live b key =
      Yields-bind
        (ops.write_at b.contents (key_bytes (i_key true key))
          (offset_of b.records (i_key false key) + 4))
        λ c.
          Yields-some _
            (λ k l. left _ (find-erase_record b.records (i_key false key) (i_key false k)) l)
    where
      left :
          (c : Bool) {x y : Option ℕ}
          → x ≡ (if c then none else y)
          → (o : ℕ) × (x ≡ some o)
          → (o : ℕ) × (y ≡ some o)
      left true p (o, e) = elim (clash (sym p ∙ e)) [ ]
        where
          clash : {x : ℕ} → none ≡ some x → ⊥
          clash p = cc
      left false p (o, e) = (o, sym p ∙ e)

  marked-Live : (b : MemBlock Buf) (key k : ℕ) → Live (marked ops b key) k → Live b k
  unfolding marked
  marked-Live b key k l = elim (Option-cases (delete_record ops b key)) [
    | inl e ↦ subst (λ x. Live x k) (ap unmarked e) l
    | inr (b', e) ↦ (delete-Live b key).given b' e k (subst (λ x. Live x k) (ap unmarked e) l)
  ]
    where
      unmarked : Option (MemBlock Buf) → MemBlock Buf
      unmarked o = elim o [ none ↦ b | some b' ↦ b' ]

  -- The two records that a move puts are of a mark.
  records-Live :
      (b b' : MemBlock Buf) (key k off now : ℕ)
      → b'.records
        ≡ insert_record (insert_record b.records (i_key true key) now) (i_key true key) off
      → Live b' k
      → Live b k
  records-Live b b' key k off now e (o, h) = (
    o,
    sym (
          find-insert_record_ne (insert_record b.records (i_key true key) now) (i_key true key)
            (i_key false k) off (apart key k)
          ∙ find-insert_record_ne b.records (i_key true key) (i_key false k) now (apart key k))
        ∙ ap (λ m. find_record m (i_key false k)) (sym e)
        ∙ h,
  )

  -- A step from a store that leads to one with fewer live keys.
  abbrev pub Lessens : {A : Type 0} → Store Buf → Store Buf × A → Type 0
  Lessens db r = Fewer db r.0

  move-Fewer : (db : Store Buf) (t key : ℕ) → Yields (Lessens db) (move ops db t key)
  unfolding move
  move-Fewer db t key = elim (Option-cases (find db.time_blocks db.time_id)) [
    | inl e ↦ rw (move, e) (Yields-some _ (Fewer-refl db))
    | inr (b, e) ↦
        rw (move, e)
          (Yields-next
            (λ b'.
              (off : ℕ) × (b'.records
                ≡ insert_record (insert_record b.records (i_key true key) db.time_id)
                    (i_key true key) off))
            _
            (put-records
              (record b { records = insert_record b.records (i_key true key) db.time_id })
              (i_key true key) (put_uint 8 t))
            (λ b' (off, e'). Yields-some _ (
              Fewer-insert db db.time_id b b' e
                (λ k l. records-Live b b' key k off db.time_id e' l))))
  ]

  -- The mark alone is no live key.
  mark_only-Fewer : (db : Store Buf) (key : ℕ) → Fewer db (mark_only ops db key)
  unfolding mark_only
  mark_only-Fewer db key = elim (Option-cases (find db.time_blocks db.time_id)) [
    | inl e ↦ rw (mark_only, e) (Fewer-refl db)
    | inr (b, e) ↦
        rw (mark_only, e)
          (Fewer-insert db db.time_id b
            (record b { records = insert_record b.records (i_key true key) db.time_id }) e
            (λ k (o, h). (
              o,
              sym (
                    find-insert_record_ne b.records (i_key true key) (i_key false k) db.time_id
                      (apart key k))
                  ∙ h,
            )))
  ]

  drain-Fewer : (t : ℕ) (m : List (Key × ℕ)) (db : Store Buf) → Yields (Fewer db) (drain ops db t m)
  unfolding drain
  drain-Fewer t [] db = Yields-some db (Fewer-refl db)
  drain-Fewer t ((k, off) ∷ m) db = elim (Option-cases (find db.time_blocks off)) [
    | inl e ↦ rw (drain, e) (drain-Fewer t m db)
    | inr (b, e) ↦ elim (Bool-cases (t == db.time_id)) [
      | inl c ↦ rw (drain, e, c) Yields-none
      | inr c ↦
          rw (drain, e, c)
            (elim (Option-cases (move ops db off k.key)) [
              | inl n ↦ rw (n) (
                  Yields-map _
                    (λ y v. Fewer-trans db (mark_only ops db k.key) y (mark_only-Fewer db k.key) v)
                    (drain-Fewer t m (mark_only ops db k.key)))
              | inr (r, g) ↦ rw (g) (
                  Yields-map _ (λ y v. Fewer-trans db r.0 y ((move-Fewer db off k.key).given r g) v)
                    (drain-Fewer t m r.0))
            ])
    ]
  ]

  without_records-Fewer : (db : Store Buf) (t : ℕ) → Fewer db (without_records ops db t)
  unfolding without_records
  without_records-Fewer db t = elim (Option-cases (find db.time_blocks t)) [
    | inl e ↦ rw (without_records, e) (Fewer-refl db)
    | inr (b, e) ↦
        rw (without_records, e)
          (Fewer-insert db t b (record b { records = [] }) e
            (λ k l. absurd (no_record k (record b { records = [] }) refl l)))
  ]

  release_log-Fewer : (db : Store Buf) (t : ℕ) → Lessens db (release_log db t)
  release_log-Fewer db t = elim (Option-cases (find db.time_blocks t)) [
    | inl e ↦ subst (Lessens db) (sym (release_log_missing db t e)) (Fewer-refl db)
    | inr (b, e) ↦ subst (Lessens db) (sym (release_log_ok db t b e)) (record {
      filters = refl;
      hashes = refl;
      now = refl;
      closing = refl;
      live = λ u k l. LiveAt-erase db t u k l;
    })
  ]

  -- The store with the mark of a deletion in one block.
  abbrev pub with_mark : Store Buf → ℕ → MemBlock Buf → ℕ → Store Buf
  with_mark db t b key = record db { time_blocks = insert db.time_blocks t (marked ops b key) }

  pub with_mark-Fewer :
      (db : Store Buf) (t : ℕ) (b : MemBlock Buf) (key : ℕ)
      → find db.time_blocks t ≡ some b
      → Fewer db (with_mark db t b key)
  with_mark-Fewer db t b key found =
      Fewer-insert db t b (marked ops b key) found (λ k l. marked-Live b key k l)

  pub delete_from-Fewer :
      (db : Store Buf) (t : ℕ) (b : MemBlock Buf) (key : ℕ)
      → Yields (Lessens (with_mark db t b key)) (delete_from ops db t b key)
  unfolding delete_from
  delete_from-Fewer db t b key = elim (Bool-cases ((marked ops b key).count == 0)) [
    | inr c ↦ rw (delete_from, c) (move-Fewer db' t key)
    | inl c ↦
        rw (delete_from, c)
          (Yields-next (Fewer db') _ (drain-Fewer t (marked ops b key).records db') (λ d w.
            let rest = without_records ops d t in
            last rest (Fewer-trans db' d rest w (without_records-Fewer d t))))
  ]
    where
      db' : Store Buf
      db' = with_mark db t b key

      last :
          (rest : Store Buf)
          → Fewer db' rest
          → Yields
              (Lessens db')
              (if ltb_int64 t db.time_id then some (release_log rest t) else move ops rest t key)
      last rest w = elim (Bool-cases (ltb_int64 t db.time_id)) [
        | inl c ↦ rw c (
            Yields-some _
              (Fewer-trans db' rest (release_log rest t).0 w (release_log-Fewer rest t)))
        | inr c ↦ rw c (Yields-map _ (λ r v. Fewer-trans db' rest r.0 w v) (move-Fewer rest t key))
      ]
