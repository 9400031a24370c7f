-- ===== src/Lease/Store.antt =====
-- leasing.go: the free list in the lease file.
use unitdb.Prelude.{
  ℕ, suc, ◌+◌, ◌*◌, ◌%◌, ◌^◌, ◌<◌, true, leb, le→leb, ◌>>=◌, take, take-append, length-append,
  length-put_uint, ◌≡◌, ◌≢◌, refl, sym, ◌∙◌, ap, false, List, [], ◌∷◌, ◌++◌, arith, length,
  if◌then◌else◌, ◌==◌, All, some, put_uint, read_uint-put_uint, append_assoc, append-nil, get_elem?,
  get_elem?-replicate, All-append,
}
use unitdb.Hash.Consistent.{init_consistent}
use unitdb.Hash.Consistent.Valid.{init_consistent-IsValid}
use unitdb.Lease.{
  FreeBlock, FreeBlocks, Lease, new_lease, marshal_blocks, marshal_binary, unmarshal_binary,
  all_blocks, write, read, free_each, no_free_blocks, n_shards,
}
use unitdb.Lease.Account.{
  covers, total, free_at, total_all, Fits, IsValid, covers-append, shard-found,
}
use unitdb.Lease.Free.{is_marked, is_marked-eq, free_block-Frees}

-- The blocks that are read back: those at offset 0 are lost.
pub kept : List FreeBlock → List FreeBlock
kept [] = []
kept (b ∷ bs) = if b.offset == 0 then kept bs else b ∷ kept bs

-- What was written is read back, but for blocks at offset 0, whatever follows.
pub unmarshal-marshal :
    (fb : List FreeBlock) (rest : List ℕ)
    → All Fits fb
    → unmarshal_binary (length fb) (marshal_blocks fb ++ rest) ≡ some (kept fb)
unfolding unmarshal_binary marshal_blocks kept
unmarshal-marshal [] rest fits = refl
unmarshal-marshal (b ∷ bs) rest fits = rw (
  append_assoc (put_uint 8 b.offset) (put_uint 4 b.size ++ marshal_blocks bs) rest,
  append_assoc (put_uint 4 b.size) (marshal_blocks bs) rest,
  read_uint-put_uint 8 b.offset _ (omega (arith, fits.0)),
  read_uint-put_uint 4 b.size _ (omega (arith, fits.0)),
  unmarshal-marshal bs rest fits.1,
)

-- No two blocks share their offset, and none stands at 0.
unfoldable pub Distinct : List FreeBlock → Type 0
Distinct [] = Unit
Distinct (b ∷ bs) = (b.offset ≢ 0) × All (λ (c : FreeBlock). c.offset ≢ b.offset) bs × Distinct bs

kept-Distinct : (bs : List FreeBlock) → Distinct bs → kept bs ≡ bs
unfolding kept Distinct
kept-Distinct [] h = refl
kept-Distinct (b ∷ bs) h = ground (arith, kept-Distinct bs h.2)

still_unmarked :
    (off : ℕ) (l l' : Lease) (bs : List FreeBlock)
    → ((o : ℕ) → o ≢ off → is_marked o l' ≡ is_marked o l)
    → All (λ (c : FreeBlock). c.offset ≢ off) bs
    → All (λ (c : FreeBlock). is_marked c.offset l ≡ false) bs
    → All (λ (c : FreeBlock). is_marked c.offset l' ≡ false) bs
still_unmarked off l l' [] same apart h = tt
still_unmarked off l l' (c ∷ cs) same apart h =
    (same c.offset apart.0 ∙ h.0, still_unmarked off l l' cs same apart.1 h.1)

-- Freeing blocks of different offsets, none of them marked, makes exactly their bytes free.
free_each-lem :
    (bs : List FreeBlock) (l : Lease)
    → All Fits bs
    → Distinct bs
    → All (λ (c : FreeBlock). is_marked c.offset l ≡ false) bs
    → IsValid l
    → (l' : Lease) × (free_each bs l ≡ some l')
      × IsValid l'
      × ((x : ℕ) → free_at x l'.blocks ≡ free_at x l.blocks + covers x bs)
unfolding free_each covers Distinct
free_each-lem [] l fits apart fresh v = (l, refl, v, λ x. omega arith)
free_each-lem (b ∷ bs) l fits apart fresh v =
    let (l₁, run₁, f) = free_block-Frees b.offset b.size l fits.0 v in
    let (l₂, run₂, v₂, bytes) =
      free_each-lem bs l₁ fits.1 apart.2 (still_unmarked b.offset l l₁ bs f.others apart.1 fresh.1)
        f.valid in
    (l₂, rw run₁ run₂, v₂, λ x. ground (arith, bytes x, f.bytes x, fresh.0))

-- A new free list is valid, and nothing is free in it.
pub new_lease-IsValid : (m : ℕ) → IsValid (new_lease m)
unfolding new_lease total_all total
new_lease-IsValid m = record {
  anchor = init_consistent-IsValid n_shards n_shards (omega arith) (omega arith) (omega arith);
  shards = unfold init_consistent in refl;
  fits = λ i j fbs b e eb.
      let empty : fbs ≡ no_free_blocks = get_elem?-replicate n_shards i no_free_blocks fbs e in
      let eb' : get_elem? [] j ≡ some b = rw empty at eb in cc (eb');
  counted = refl;
}

pub free_at-new : (x m : ℕ) → free_at x (new_lease m).blocks ≡ 0
unfolding new_lease free_at covers
free_at-new x m = refl

new-unmarked : (o m : ℕ) → is_marked o (new_lease m) ≡ false
unfolding new_lease
new-unmarked o m =
    let l = new_lease m in
    let (i, fbs, found, e) = shard-found l o (new_lease-IsValid m) in
    let empty : fbs ≡ no_free_blocks = get_elem?-replicate n_shards i no_free_blocks fbs e in
    is_marked-eq o l i fbs found e ∙ rw empty

All-unmarked :
    (m : ℕ) (bs : List FreeBlock)
    → All (λ (c : FreeBlock). is_marked c.offset (new_lease m) ≡ false) bs
All-unmarked m [] = tt
All-unmarked m (b ∷ bs) = (new-unmarked b.offset m, All-unmarked m bs)

covers-all_blocks : (x : ℕ) (bs : List FreeBlocks) → covers x (all_blocks bs) ≡ free_at x bs
unfolding free_at all_blocks covers
covers-all_blocks x [] = refl
covers-all_blocks x (b ∷ bs) =
    omega (arith, covers-append x b.fb (all_blocks bs), covers-all_blocks x bs)

Fits-each :
    (fb : List FreeBlock)
    → ((j : ℕ) (b : FreeBlock) → get_elem? fb j ≡ some b → Fits b)
    → All Fits fb
Fits-each [] h = tt
Fits-each (b ∷ bs) h = (h 0 b refl, Fits-each bs (λ j. h (suc j)))

Fits-All :
    (bs : List FreeBlocks)
    → ((i j : ℕ) (fbs : FreeBlocks) (b : FreeBlock)
        → get_elem? bs i ≡ some fbs
        → get_elem? fbs.fb j ≡ some b
        → Fits b)
    → All Fits (all_blocks bs)
unfolding all_blocks
Fits-All [] h = tt
Fits-All (b ∷ bs) h =
    All-append Fits b.fb (all_blocks bs) (Fits-each b.fb (λ j c. h 0 j b c refl))
      (Fits-All bs (λ i. h (suc i)))

length-marshal_blocks : (fb : List FreeBlock) → length (marshal_blocks fb) ≡ 12 * length fb
unfolding marshal_blocks
length-marshal_blocks [] = refl
length-marshal_blocks (b ∷ bs) = omega (
  arith,
  length-append (put_uint 8 b.offset) (put_uint 4 b.size ++ marshal_blocks bs),
  length-append (put_uint 4 b.size) (marshal_blocks bs),
  length-put_uint 8 b.offset,
  length-put_uint 4 b.size,
  length-marshal_blocks bs,
)

-- The file has the bytes of its blocks, if their number does not wrap.
read_steps :
    (fb : List FreeBlock) (l : Lease)
    → 12 * length fb < 2 ^ 32
    → unmarshal_binary (length fb) (marshal_blocks fb) ≡ some fb
    → read (put_uint 4 (length fb) ++ marshal_blocks fb) l ≡ free_each fb l
unfolding read
read_steps fb l few back =
    let size = length-marshal_blocks fb in
    let wide : 12 * length fb % 2 ^ 32 ≡ length (marshal_blocks fb) = omega (arith, size) in
    let whole : take (12 * length fb % 2 ^ 32) (marshal_blocks fb) ≡ marshal_blocks fb =
      ap (λ n. take n (marshal_blocks fb)) wide
      ∙ ap (take (length (marshal_blocks fb))) (sym (append-nil (marshal_blocks fb)))
      ∙ take-append (marshal_blocks fb) [] in
    let room : leb (12 * length fb % 2 ^ 32) (length (marshal_blocks fb)) ≡ true =
      le→leb _ _ (omega (arith, wide)) in
    rw (
      read,
      read_uint-put_uint 4 (length fb) (marshal_blocks fb) (omega arith),
      room,
      whole,
      ◌>>=◌,
      back,
    )

-- A free list of fewer than 357913942 blocks that is written and read into a new one is valid again,
-- and makes the same bytes free, as often. Its blocks must stand at different offsets, none of them
-- 0.
pub read-write :
    (l : Lease) (m : ℕ)
    → IsValid l
    → 12 * length (all_blocks l.blocks) < 2 ^ 32
    → Distinct (all_blocks l.blocks)
    → (l' : Lease) × (read (write l) (new_lease m) ≡ some l')
      × IsValid l'
      × ((x : ℕ) → free_at x l'.blocks ≡ free_at x l.blocks)
unfolding write marshal_binary
read-write l m v few apart =
    let fb = all_blocks l.blocks in
    let fits = Fits-All l.blocks v.fits in
    let back : unmarshal_binary (length fb) (marshal_blocks fb) ≡ some fb =
      ap (unmarshal_binary (length fb)) (sym (append-nil (marshal_blocks fb)))
      ∙ (unmarshal-marshal fb [] fits ∙ ap some (kept-Distinct fb apart)) in
    let (l', run, v', bytes) =
      free_each-lem fb (new_lease m) fits apart (All-unmarked m fb) (new_lease-IsValid m) in
    (
      l',
      read_steps fb (new_lease m) (omega arith) back ∙ run,
      v',
      λ x. omega (arith, bytes x, free_at-new x m, covers-all_blocks x l.blocks),
    )
