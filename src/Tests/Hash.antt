-- ===== src/Tests/Hash.antt =====
-- hash/: an anchor of three blocks.
use unitdb.Prelude.{ℕ, ◌<◌, ◌≡◌, refl, some, arith}
use unitdb.Hash.Flea.{flea_init, fast_mod}
use unitdb.Hash.Consistent.{Consistent, init_consistent, remove_block, find_block}
use unitdb.Hash.Consistent.Find.{find_block-works}
use unitdb.Hash.Consistent.Valid.{IsValid, init_consistent-IsValid}
use unitdb.Hash.Consistent.Reach.{Reach, start, remove, Reach-find}

abbrev three : Consistent
three = init_consistent 3 3

three-IsValid : IsValid three
three-IsValid = init_consistent-IsValid 3 3 (omega arith) (omega arith) (omega arith)

abbrev two_left : Consistent
two_left = remove_block 1 three

find_runs : find_block two_left 7 ≡ some 0
unfolding find_block init_consistent remove_block flea_init fast_mod
find_runs = refl

find_block-works_example :
    (b : ℕ) × (find_block three 7 ≡ some b) × (b < three.size) × (three.a b ≡ 0)
find_block-works_example = find_block-works three 7 three-IsValid

two_left-Reach : Reach 3 two_left
unfolding init_consistent
two_left-Reach = remove 1 (omega arith) (omega arith) start

Reach-find_example :
    (b : ℕ) × (find_block two_left 7 ≡ some b) × (b < two_left.size) × (two_left.a b ≡ 0)
Reach-find_example = Reach-find 3 7 (omega arith) (omega arith) two_left-Reach
