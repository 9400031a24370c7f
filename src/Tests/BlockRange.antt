-- ===== src/Tests/BlockRange.antt =====
-- block_writer.go: six blocks in three runs.
use unitdb.Prelude.{ℕ, ◌≡◌, some, List, [], ◌∷◌, arith}
use unitdb.BlockRange.{block_range, blocks_of, occurrences, Ascends, block_range-blocks_of}

ascending : Ascends 3 (4 ∷ 5 ∷ 8 ∷ 10 ∷ 11 ∷ [])
unfolding Ascends
ascending = (omega arith, (omega arith, (omega arith, (omega arith, (omega arith, tt)))))

block_range-blocks_of_example :
    (ps : List (List ℕ)) × (block_range (3 ∷ 4 ∷ 5 ∷ 8 ∷ 10 ∷ 11 ∷ []) ≡ some ps)
    × ((x : ℕ) → occurrences x (blocks_of ps) ≡ occurrences x (3 ∷ 4 ∷ 5 ∷ 8 ∷ 10 ∷ 11 ∷ []))
block_range-blocks_of_example = block_range-blocks_of 3 (4 ∷ 5 ∷ 8 ∷ 10 ∷ 11 ∷ []) ascending
