-- ===== src/Store/Put.antt =====
-- memdb/db.go: what is put into the store is looked up again.
use unitdb.Prelude.{
  add64, ℕ, ◌+◌, ◌^◌, ◌≡◌, ◌<◌, ◌⊎◌, inl, inr, refl, sym, ap, ◌∙◌, false, ◌&&◌, some, List, ◌++◌,
  ◌==◌, ◌>>=◌, length, Bool-cases, arith,
}
use mathlib.Core.Path.{subst}
use unitdb.Buffer.{Buffer, IsBuffer}
use unitdb.Prelude.Maps.{find, insert, find-insert_self, find-insert_ne}
use unitdb.MemBlock.{
  Key, MemBlock, i_key, same_key, find_record, insert_record, header_size, get, put as put_record,
}
use unitdb.MemBlock.Keys.{find-insert_record, find-insert_record_ne}
use unitdb.MemBlock.Records.{IsRow, IsRow-behind, IsRow-before, put_written, get_row, row}
use unitdb.Store.Filtered.{IsFiltered}
use unitdb.Store.Added.{add_time_filter-IsFiltered}
use unitdb.Store.{Store, done, add_time_filter, put_at, put, lookup}

other_key : (k j : ℕ) → (k == j) ≡ false → same_key (i_key false k) (i_key false j) ≡ false
unfolding same_key i_key
other_key k j h = rw h refl

apart : (t u k key : ℕ) → u ≡ t → ((t == u) && (k == key)) ≡ false → (key == k) ≡ false
apart t u k key same h = ground arith

-- A put changes the records of no other key.
only_new :
    (m m' : List (Key × ℕ)) (key k off : ℕ)
    → m' ≡ insert_record m (i_key false key) off
    → (o : ℕ) × (find_record m' (i_key false k) ≡ some o)
    → (key ≡ k) ⊎ ((o : ℕ) × (find_record m (i_key false k) ≡ some o))
only_new m m' key k off e (o, h) = elim (Bool-cases (key == k)) [
  | inl b ↦ inl (ground arith)
  | inr b ↦ inr (
    o,
    sym (find-insert_record_ne m (i_key false key) (i_key false k) off (other_key key k b))
        ∙ ap (λ l. find_record l (i_key false k)) (sym e)
        ∙ h,
  )
]

module _ {Buf : Type 0} (ops : Buffer Buf) where
  -- A time block has the record of a key with its data.
  abbrev pub StoredIn : MemBlock Buf → ℕ → List ℕ → Type 0
  StoredIn b k d =
      (off : ℕ) × (find_record b.records (i_key false k) ≡ some off)
      × IsRow ops b off (i_key false k) d

  abbrev pub Stored : Store Buf → ℕ → ℕ → List ℕ → Type 0
  Stored db t k d = (b : MemBlock Buf) × (find db.time_blocks t ≡ some b) × StoredIn b k d

  put_steps :
      (db db' : Store Buf) (b b' : MemBlock Buf) (t key : ℕ) (d : List ℕ)
      → db.is_closed ≡ false
      → find db.time_blocks t ≡ some b
      → put_record ops b (i_key false key) d ≡ some b'
      → add_time_filter (record db { time_blocks = insert db.time_blocks t b' }) t key ≡ some db'
      → put_at ops db t key d ≡ some (db', done t)
  unfolding put_at
  put_steps db db' b b' t key d e₀ e₁ e₂ e₃ = rw (put_at, e₀, e₁, e₂, ◌>>=◌, e₃)

  lookup_steps :
      (db : Store Buf) (b : MemBlock Buf) (t key off : ℕ) (d : List ℕ)
      → db.is_closed ≡ false
      → find db.time_blocks t ≡ some b
      → find_record b.records (i_key false key) ≡ some off
      → get ops b off ≡ some d
      → lookup ops db t key ≡ some (done d)
  unfolding lookup
  lookup_steps db b t key off d e₀ e₁ e₂ e₃ = rw (lookup, e₀, e₁, e₂, e₃, ◌>>=◌)

module _ {Buf : Type 0} (ops : Buffer Buf) (laws : IsBuffer ops) where
  lookup-Stored :
      (db : Store Buf) (t k : ℕ) (d : List ℕ)
      → db.is_closed ≡ false
      → Stored ops db t k d
      → lookup ops db t k ≡ some (done d)
  lookup-Stored db t k d alive (b, e, (off, e', r)) =
      lookup_steps ops db b t k off d alive e e' (get_row ops laws b off (i_key false k) d r)

  -- What a put of a key into the current time block gives.
  pub record Puts (db : Store Buf) (b : MemBlock Buf) (key : ℕ) (d : List ℕ) (db' : Store Buf)
      : Type 0 where
    pub answer : put ops db key d ≡ some (db', done db.time_id)
    pub filtered : IsFiltered db'
    pub now : db'.time_id ≡ db.time_id
    pub alive : db'.is_closed ≡ false
    pub has : Stored ops db' db.time_id key d
    pub more : has.0.count ≡ add64 b.count 1
    pub keeps :
        (t k : ℕ) (d' : List ℕ)
        → Stored ops db t k d'
        → ((t == db.time_id) && (k == key)) ≡ false
        → Stored ops db' t k d'

  StoredIn-put :
      (b b' : MemBlock Buf) (k key off : ℕ) (d d' : List ℕ)
      → b'.records ≡ insert_record b.records (i_key false key) off
      → ops.bytes b'.contents ≡ ops.bytes b.contents ++ row (i_key false key) d
      → (key == k) ≡ false
      → StoredIn ops b k d'
      → StoredIn ops b' k d'
  StoredIn-put b b' k key off d d' er eb ne (o, e, r) = (
    o,
    ap (λ l. find_record l (i_key false k)) er
        ∙ find-insert_record_ne b.records (i_key false key) (i_key false k) off (other_key key k ne)
        ∙ e,
    IsRow-before ops laws b b' (i_key false k) d' (row (i_key false key) d) o eb r,
  )

  pub put-Puts :
      (db : Store Buf) (b : MemBlock Buf) (key off : ℕ) (d : List ℕ) (grown : Buf)
      → db.is_closed ≡ false
      → IsFiltered db
      → db.time_id < 2 ^ 64
      → find db.time_blocks db.time_id ≡ some b
      → length d + header_size < 2 ^ 32
      → ops.extend b.contents (length d + header_size) ≡ some (off, grown)
      → (db' : Store Buf) × Puts db b key d db'
  unfolding put i_key
  put-Puts db b key off d grown alive i fits found small ext =
      let (b', e, at, written, er, counted) =
        put_written ops laws b (i_key false key) d off grown ext in
      let (filters, ea, i') =
        add_time_filter-IsFiltered db b b' key i found fits
          (λ k live. only_new b.records b'.records key k off er live) in
      let db' : Store Buf = record db {
        time_blocks = insert db.time_blocks db.time_id b';
        time_filters = filters;
      } in
      (
        db',
        record {
          answer = put_steps ops db db' b b' db.time_id key d alive found e ea;
          filtered = i';
          now = refl;
          alive = alive;
          has = (
            b',
            find-insert_self db.time_blocks db.time_id b',
            (
              off,
              ap (λ l. find_record l (i_key false key)) er
                  ∙ find-insert_record b.records (i_key false key) off,
              IsRow-behind ops laws b b' (i_key false key) d off small at written,
            ),
          );
          more = counted;
          keeps = λ t k d' (c, ec, s) ne. elim (Bool-cases (db.time_id == t)) [
            | inr other ↦ (c, find-insert_ne db.time_blocks db.time_id t b' other ∙ ec, s)
            | inl same ↦
                let now : db.time_id ≡ t = ground arith in
                let one : some b ≡ some c = sym found ∙ ap (find db.time_blocks) now ∙ ec in
                let was : b ≡ c = cc in
                (
                  b',
                  ap (find (insert db.time_blocks db.time_id b')) (sym now)
                      ∙ find-insert_self db.time_blocks db.time_id b',
                  StoredIn-put b b' k key off d d' er written (apart t db.time_id k key now ne)
                      (subst (λ x. StoredIn ops x k d') (sym was) s),
                )
          ];
        },
      )

  -- A key that is put with its data into an open store, where the buffer of the current time block has
  -- room, is looked up with that data under the time ID that the put gives; and what was stored under
  -- another key or time ID is looked up as before. The filters stay true. A record with its header is
  -- less than four gigabytes.
  pub put-lookup :
      (db : Store Buf) (b : MemBlock Buf) (key off t k : ℕ) (d d' : List ℕ) (grown : Buf)
      → db.is_closed ≡ false
      → IsFiltered db
      → db.time_id < 2 ^ 64
      → find db.time_blocks db.time_id ≡ some b
      → length d + header_size < 2 ^ 32
      → ops.extend b.contents (length d + header_size) ≡ some (off, grown)
      → Stored ops db t k d'
      → ((t == db.time_id) && (k == key)) ≡ false
      → (db' : Store Buf) × (put ops db key d ≡ some (db', done db.time_id))
        × (lookup ops db' db.time_id key ≡ some (done d))
        × (lookup ops db' t k ≡ some (done d'))
        × IsFiltered db'
  put-lookup db b key off t k d d' grown alive i fits found small ext stored other =
      let (db', p) = put-Puts db b key off d grown alive i fits found small ext in
      (
        db',
        p.answer,
        lookup-Stored db' db.time_id key d p.alive p.has,
        lookup-Stored db' t k d' p.alive (p.keeps t k d' stored other),
        p.filtered,
      )
