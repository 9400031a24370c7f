-- ===== src/Tests/Lease.antt =====
-- leasing.go: a free list with one block of 50 bytes.
use unitdb.Prelude.{
  ℕ, ◌≤◌, ◌≡◌, refl, some, arith, ◌⊎◌, minus_one, [], ◌∷◌, false, zero, suc, set, replicate, true,
}
use mathlib.Core.Path.{subst}
use unitdb.Hash.Flea.{flea_init, fast_mod}
use unitdb.Hash.Consistent.{find_block, init_consistent}
use unitdb.Lease.{
  FreeBlocks, Lease, new_lease, free_block, allocate, defrag, search, write, read, all_blocks,
  n_shards, no_free_blocks, mark, search_loop, take_from,
}
use unitdb.Lease.Account.{IsValid, covers, free_at, total}
use unitdb.Lease.Search.{IsSorted}
use unitdb.Lease.Free.{Frees, free_block-Frees}
use unitdb.Lease.Allocate.{Allocates, allocate-Allocates, allocate-exclusive}
use unitdb.Lease.Defrag.{Defrags, defrag-Defrags, defrag_doubles}
use unitdb.Lease.Store.{read-write, new_lease-IsValid, free_at-new, Distinct}

abbrev fresh : Lease
fresh = new_lease 0

free_block-Frees_example : (l : Lease) × (free_block 38 50 fresh ≡ some l) × Frees 38 50 fresh l
free_block-Frees_example = free_block-Frees 38 50 fresh (omega arith) (new_lease-IsValid 0)

-- Offset 38 and size 36 fall into the same shard.
abbrev freed : Lease
freed = record fresh {
  blocks =
      set (replicate n_shards no_free_blocks) 22
        (record { fb = record { offset = 38; size = 50 } ∷ []; cache = mark 38 true (λ o. false) });
  size = 50;
}

freed_runs : free_block 38 50 fresh ≡ some freed
unfolding free_block new_lease find_block init_consistent flea_init fast_mod
freed_runs = refl

freed-Frees : Frees 38 50 fresh freed
freed-Frees =
    let (l, run, f) = free_block-Frees_example in
    let same : l ≡ freed = cc (run, freed_runs) in subst (Frees 38 50 fresh) same f

allocate-Allocates_example :
    (off : ℕ) × (l : Lease) × (allocate 36 freed ≡ some (off, l))
    × IsValid l
    × (((off ≡ minus_one) × (l ≡ freed)) ⊎ Allocates off 36 freed l)
allocate-Allocates_example = allocate-Allocates 36 freed (omega arith) freed-Frees.valid

abbrev after : Lease
after = record fresh {
  blocks = set (replicate n_shards no_free_blocks) 22 (record {
    fb = record { offset = 74; size = 14 } ∷ [];
    cache = mark 38 false (mark 38 true (λ o. false));
  });
  size = 14;
}

allocate_runs : allocate 36 freed ≡ some (38, after)
unfolding allocate new_lease find_block init_consistent flea_init fast_mod search search_loop
    take_from
allocate_runs = refl

once : (y : ℕ) → free_at y freed.blocks ≤ 1
once y = ground (arith, freed-Frees.bytes y, free_at-new y 0)

allocate-exclusive_example : (free_at 40 freed.blocks ≡ 1) × (free_at 40 after.blocks ≡ 0)
allocate-exclusive_example =
    allocate-exclusive 36 38 freed after 40 (omega arith) freed-Frees.valid once allocate_runs
      (omega arith) (omega arith) (omega arith)

abbrev ladder : FreeBlocks
ladder = record {
  fb = record { offset = 100; size = 10 } ∷ record { offset = 200; size = 20 } ∷ [];
  cache = λ o. false;
}

ladder-IsSorted : IsSorted ladder.fb
ladder-IsSorted zero zero x y le ex ey = let e : x ≡ y = cc (ex, ey) in rw e (omega arith)
ladder-IsSorted zero (suc zero) x y le ex ey =
    let e : record { offset = 100; size = 10 } ≡ x = cc (ex) in
    let f : record { offset = 200; size = 20 } ≡ y = cc (ey) in rw (← e, ← f) (omega arith)
ladder-IsSorted zero (suc (suc j)) x y le ex ey = cc
ladder-IsSorted (suc i) zero x y le ex ey = absurd (omega arith)
ladder-IsSorted (suc zero) (suc zero) x y le ex ey =
    let e : x ≡ y = cc (ex, ey) in rw e (omega arith)
ladder-IsSorted (suc zero) (suc (suc j)) x y le ex ey = cc
ladder-IsSorted (suc (suc i)) (suc j) x y le ex ey = cc

abbrev touching : FreeBlocks
touching = record {
  fb = record { offset = 100; size = 10 } ∷ record { offset = 110; size = 20 } ∷ [];
  cache = λ o. false;
}

defrag-Defrags_example : Defrags touching (defrag touching)
unfolding total
defrag-Defrags_example = defrag-Defrags touching (omega arith) (omega arith) (omega arith)

defrag_doubles_example : covers 115 (defrag touching).fb ≡ 2
defrag_doubles_example =
    defrag_doubles (record { offset = 100; size = 10 }) (record { offset = 110; size = 20 })
      (omega arith) (omega arith) (omega arith) refl 115 (λ o. false) (omega arith) (omega arith)
      (omega arith)

read-write_example :
    (l : Lease) × (read (write freed) (new_lease 0) ≡ some l)
    × IsValid l
    × ((x : ℕ) → free_at x l.blocks ≡ free_at x freed.blocks)
unfolding all_blocks Distinct
read-write_example = read-write freed 0 freed-Frees.valid (omega arith) (omega arith, tt, tt)
