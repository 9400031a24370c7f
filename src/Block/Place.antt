-- ===== src/Block/Place.antt =====
-- block.go: where a sequence stands in the index file.
use unitdb.Prelude.{ℕ, ◌+◌, ◌*◌, ◌^◌, ◌≤◌, ◌<◌, ◌≡◌, ◌↔◌, arith}
use unitdb.Block.{block_index, block_offset, block_size, entries_per_index_block}

-- Two sequences share an index block exactly when both lie in the block's range of 255 sequences,
-- which starts just behind a multiple of 255. Their indexes fit an int32.
pub block_index-eq_iff :
    (seq idx : ℕ)
    → 1 ≤ seq
    → seq ≤ entries_per_index_block * 2 ^ 31
    → (block_index seq ≡ idx) ↔ (
        (entries_per_index_block * idx < seq)
        × (seq ≤ entries_per_index_block * idx + entries_per_index_block))
unfolding block_index
block_index-eq_iff seq idx lo hi = (λ h. ground arith, λ h. ground arith)

-- The offset of a block is 4096 times its index exactly below index 2 ^ 19, where the file reaches
-- two gigabytes: from there the int32 product wraps.
pub block_offset_exact :
    (idx : ℕ) → idx < 2 ^ 31 → (block_offset idx ≡ block_size * idx) ↔ (idx < 2 ^ 19)
unfolding block_offset
block_offset_exact idx h = (λ e. ground arith, λ e. ground arith)
