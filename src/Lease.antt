-- ===== src/Lease.antt =====
-- leasing.go: the free blocks of the data file, spread over shards by a consistent hash.
pub mod Search
pub mod Account
pub mod Free
mod Taken
pub mod Allocate
pub mod Defrag
pub mod Store
use unitdb.Prelude.{
  ℕ, zero, suc, ◌+◌, ◌-◌, ◌*◌, ◌/◌, ◌%◌, ◌^◌, Bool, true, false, not, Option, none, some, List, [],
  ◌∷◌, ◌++◌, ltb, leb, ◌==◌, if◌then◌else◌, sub64, add64, ltb_int64, minus_one, ◌>>=◌, ◌>>◌, guard,
  length, replicate, take, drop, set, get_elem?, put_uint, read_uint,
}
use unitdb.Hash.Consistent.{Consistent, init_consistent, find_block}

-- `offset` is an int64, `size` an uint32.
pub record FreeBlock : Type 0 where
  pub offset : ℕ
  pub size : ℕ

pub record FreeBlocks : Type 0 where
  pub fb : List FreeBlock
  pub cache : ℕ → Bool

pub record Lease : Type 0 where
  pub blocks : List FreeBlocks
  pub size : ℕ
  pub minimum_free_blocks_size : ℕ
  pub consistent : Consistent

abbrev pub n_shards : ℕ
n_shards = 27

abbrev pub no_free_blocks : FreeBlocks
no_free_blocks = record { fb = []; cache = λ off. false }

unfoldable pub new_lease : ℕ → Lease
new_lease minimum_size = record {
  blocks = replicate n_shards no_free_blocks;
  size = 0;
  minimum_free_blocks_size = minimum_size;
  consistent = init_consistent n_shards n_shards;
}

-- A write to the set of free offsets.
abbrev pub mark : ℕ → Bool → (ℕ → Bool) → ℕ → Bool
mark off v cache o = if o == off then v else cache o

-- `sort.Search`: the loop over `i` and `j`, on fuel.
unfoldable pub search_loop : ℕ → (ℕ → Bool) → ℕ → ℕ → ℕ
search_loop zero f i j = i
search_loop (suc fuel) f i j =
    let h = (i + j) / 2 in
    elim (ltb i j) [
      | false ↦ i
      | true ↦ elim (f h) [ false ↦ search_loop fuel f (h + 1) j | true ↦ search_loop fuel f i h ]
    ]

abbrev pub holds : ℕ → List FreeBlock → ℕ → Bool
holds size fb i = elim (get_elem? fb i) [ none ↦ false | some b ↦ leb size b.size ]

unfoldable pub search : ℕ → FreeBlocks → ℕ
search size b = search_loop (length b.fb) (holds size b.fb) 0 (length b.fb)

-- `copy(fb[i:], fb[i+1:])` and the cut of the last element.
unfoldable pub remove_at : ℕ → List FreeBlock → List FreeBlock
remove_at i [] = []
remove_at zero (b ∷ bs) = bs
remove_at (suc i) (b ∷ bs) = b ∷ remove_at i bs

-- The free list after `size` bytes are taken from the front of its block `i`.
unfoldable pub take_from : ℕ → FreeBlock → ℕ → List FreeBlock → List FreeBlock
take_from i b size fb =
    if b.size == size
    then remove_at i fb
    else set fb i
        (record { size = (b.size + 2 ^ 32 - size) % 2 ^ 32; offset = add64 b.offset size })

-- `none` is a panic, and the offset -1 says that no block is free.
unfoldable pub allocate : ℕ → Lease → Option (ℕ × Lease)
allocate size l = do
  guard (not (size == 0))
  if ltb_int64 l.size l.minimum_free_blocks_size then some (minus_one, l) else do
    i ← find_block l.consistent size
    fbs ← get_elem? l.blocks i
    let j = search size fbs
    elim (get_elem? fbs.fb j) [
      | none ↦ some (minus_one, l)
      | some b ↦ some (
        b.offset,
        record l {
          blocks =
              set l.blocks i
                (record { fb = take_from j b size fbs.fb; cache = mark b.offset false fbs.cache });
          size = sub64 l.size size;
        },
      )
    ]

-- A block whose offset is marked free already is left alone.
unfoldable pub free_block : ℕ → ℕ → Lease → Option Lease
free_block off size l = do
  i ← find_block l.consistent off
  fbs ← get_elem? l.blocks i
  if fbs.cache off
      then some l
      else some (record l {
        blocks = set l.blocks i (record {
          fb = fbs.fb ++ record { offset = off; size = size } ∷ [];
          cache = mark off true fbs.cache;
        });
        size = add64 l.size size;
      })

unfoldable pub free : ℕ → ℕ → ℕ → Lease → Option Lease
unfolding free_block
free seq off size l = do guard (not (size == 0)); free_block off size l

-- `sort.Slice` by a test `less`; where neither of two elements is less, the order is the input's.
insert_by : (FreeBlock → FreeBlock → Bool) → FreeBlock → List FreeBlock → List FreeBlock
insert_by less b [] = b ∷ []
insert_by less b (c ∷ cs) = if less c b then c ∷ insert_by less b cs else b ∷ c ∷ cs

unfoldable pub sort_by : (FreeBlock → FreeBlock → Bool) → List FreeBlock → List FreeBlock
unfolding insert_by
sort_by less [] = []
sort_by less (b ∷ bs) = insert_by less b (sort_by less bs)

-- The loop that joins a block to the one that it touches.
unfoldable pub merge : FreeBlock → List FreeBlock → List FreeBlock
merge cur [] = cur ∷ []
merge cur (b ∷ bs) = elim (add64 cur.offset cur.size == b.offset) [
  | true ↦ merge (record { offset = cur.offset; size = (cur.size + b.size) % 2 ^ 32 }) bs
  | false ↦ cur ∷ merge b bs
]

-- The offsets of joined blocks are deleted from the cache.
merged_cache : FreeBlock → List FreeBlock → (ℕ → Bool) → ℕ → Bool
merged_cache cur [] cache = cache
merged_cache cur (b ∷ bs) cache = elim (add64 cur.offset cur.size == b.offset) [
  | true ↦
      merged_cache (record { offset = cur.offset; size = (cur.size + b.size) % 2 ^ 32 }) bs
        (mark b.offset false cache)
  | false ↦ merged_cache b bs cache
]

defrag_sorted : List FreeBlock → FreeBlocks → FreeBlocks
defrag_sorted [] b = b
defrag_sorted (f ∷ fs) b =
    let merged = sort_by (λ x y. ltb x.size y.size) (merge f fs) in
    record { fb = merged ++ drop (length merged) (f ∷ fs); cache = merged_cache f fs b.cache }

-- The merged blocks are copied over the front of the list, whose length stays.
unfoldable pub defrag : FreeBlocks → FreeBlocks
unfolding defrag_sorted merge sort_by merged_cache
defrag b =
    if leb (length b.fb) 1
    then b
    else defrag_sorted (sort_by (λ x y. ltb_int64 x.offset y.offset) b.fb) b

defrag_each : List FreeBlocks → List FreeBlocks
defrag_each [] = []
defrag_each (b ∷ bs) = defrag b ∷ defrag_each bs

unfoldable pub defrag_all : Lease → Lease
unfolding defrag_each defrag
defrag_all l = record l { blocks = defrag_each l.blocks }

pub marshal_blocks : List FreeBlock → List ℕ
marshal_blocks [] = []
marshal_blocks (b ∷ bs) = put_uint 8 b.offset ++ (put_uint 4 b.size ++ marshal_blocks bs)

unfoldable pub marshal_binary : List FreeBlock → List ℕ
unfolding marshal_blocks
marshal_binary fb = put_uint 4 (length fb) ++ marshal_blocks fb

-- `none` is the panic on data that is too short. A block at offset 0 is passed over.
unfoldable pub unmarshal_binary : ℕ → List ℕ → Option (List FreeBlock)
unmarshal_binary zero d = some []
unmarshal_binary (suc n) d = do
  (off, d₁) ← read_uint 8 d
  (size, d₂) ← read_uint 4 d₁
  rest ← unmarshal_binary n d₂
  some (if off == 0 then rest else record { offset = off; size = size } ∷ rest)

-- `write` puts the blocks of every shard into one list, in the order of the shards.
unfoldable pub all_blocks : List FreeBlocks → List FreeBlock
all_blocks [] = []
all_blocks (b ∷ bs) = b.fb ++ all_blocks bs

-- The contents that `write` gives the lease file.
unfoldable pub write : Lease → List ℕ
unfolding marshal_binary all_blocks
write l = marshal_binary (all_blocks l.blocks)

free_each : List FreeBlock → Lease → Option Lease
free_each [] l = some l
free_each (b ∷ bs) l = do l' ← free_block b.offset b.size l; free_each bs l'

-- `read` of a lease file that is there; the blocks are freed one by one. A file with fewer than four
-- bytes ends the read without an error. The size of the bytes that are read for the blocks is a
-- uint32 and wraps. `none` is the error on a file that is too short, or the panic.
unfoldable pub read : List ℕ → Lease → Option Lease
unfolding free_each unmarshal_binary
read contents l = elim (read_uint 4 contents) [
  | none ↦ some l
  | some (size, d) ↦ do
    guard (leb (12 * size % 2 ^ 32) (length d))
    fb ← unmarshal_binary size (take (12 * size % 2 ^ 32) d)
    free_each fb l
]
