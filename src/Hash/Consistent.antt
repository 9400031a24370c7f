-- ===== src/Hash/Consistent.antt =====
-- hash/consistent.go: AnchorHash. The arrays are functions of the index with their length beside
-- them, and the stack `r` has its top first (the code's last element).
pub mod Walk
pub mod Valid
pub mod Find
pub mod Undo
pub mod Reach
use unitdb.Prelude.{
  ℕ, zero, suc, ◌+◌, ◌-◌, ◌%◌, ◌^◌, Bool, true, false, Option, none, some, List, [], ◌∷◌, ◌++◌, ltb,
  leb, ◌==◌, if◌then◌else◌,
}
use unitdb.Hash.Flea.{Flea, flea_init, flea_round, fast_mod}

pub record Consistent : Type 0 where
  pub size : ℕ
  pub a : ℕ → ℕ
  pub k : ℕ → ℕ
  pub w : ℕ → ℕ
  pub l : ℕ → ℕ
  pub r : List ℕ
  pub n : ℕ

abbrev pub update : ℕ → ℕ → (ℕ → ℕ) → ℕ → ℕ
update i v f j = if j == i then v else f j

abbrev pub count_up : ℕ → ℕ → List ℕ
count_up zero b = []
count_up (suc n) b = b ∷ count_up n (b + 1)

-- For 1 ≤ used ≤ blocks < 2 ^ 16; with no block used the second loop does not end, and with more
-- used than there are blocks `make` panics.
unfoldable pub init_consistent : ℕ → ℕ → Consistent
init_consistent blocks used = record {
  size = blocks;
  a = λ b. if ltb b used then 0 else b;
  k = λ b. if ltb b used then b else 0;
  w = λ b. if ltb b used then b else 0;
  l = λ b. if ltb b used then b else 0;
  r = count_up (blocks - used) used;
  n = used;
}

-- `for A[h] >= A[b] { h = K[h] }`, for `bound` = A[b]; `none` means that the fuel ran out.
unfoldable pub walk : ℕ → (ℕ → ℕ) → (ℕ → ℕ) → ℕ → ℕ → Option ℕ
walk zero a k bound h = none
walk (suc fuel) a k bound h = elim (leb bound (a h)) [
  | true ↦ walk fuel a k bound (k h)
  | false ↦ some h
]

-- `for A[b] > 0 { … }`.
unfoldable pub find_loop : ℕ → Consistent → Flea → ℕ → Option ℕ
find_loop zero c s b = none
find_loop (suc fuel) c s b = elim (ltb 0 (c.a b)) [
  | false ↦ some b
  | true ↦
      let s' = flea_round s in
      elim (walk (suc c.size) c.a c.k (c.a b) (fast_mod s'.d (c.a b) % 2 ^ 16)) [
        | none ↦ none
        | some h ↦ find_loop fuel c s' h
      ]
]

unfoldable pub find_block : Consistent → ℕ → Option ℕ
unfolding find_loop walk
find_block c key =
    let s = flea_init key in find_loop (suc c.size) c s (fast_mod s.d c.size % 2 ^ 16)

-- The search as it was before the last removal. `A` and `K` are the tables of `c` itself, so the two
-- writes stay. `none` is the panic where nothing was removed.
unfoldable pub find_previous_block : Consistent → ℕ → Option (ℕ × Consistent)
unfolding find_block
find_previous_block c key = elim c.r [
  | [] ↦ none
  | last ∷ _ ↦
      let n' : ℕ = (c.n + 2 ^ 16 - 1) % 2 ^ 16 in
      let c' = record c { a = update last n' c.a; k = update last (c.w n') c.k } in
      elim (find_block c' key) [ none ↦ none | some b ↦ some (b, c') ]
]

-- The walk, with the blocks that it comes through.
unfoldable pub walk_path : ℕ → (ℕ → ℕ) → (ℕ → ℕ) → ℕ → ℕ → Option (ℕ × List ℕ)
walk_path zero a k bound h = none
walk_path (suc fuel) a k bound h = elim (leb bound (a h)) [
  | true ↦ elim (walk_path fuel a k bound (k h)) [
    | none ↦ none
    | some (end, path) ↦ some (end, k h ∷ path)
  ]
  | false ↦ some (h, [])
]

unfoldable pub path_loop : ℕ → Consistent → Flea → ℕ → Option (List ℕ)
unfolding walk_path
path_loop zero c s b = none
path_loop (suc fuel) c s b = elim (ltb 0 (c.a b)) [
  | false ↦ some []
  | true ↦
      let s' = flea_round s in
      let h = fast_mod s'.d (c.a b) % 2 ^ 16 in
      elim (walk_path (suc c.size) c.a c.k (c.a b) h) [
        | none ↦ none
        | some (end, path) ↦ elim (path_loop fuel c s' end) [
          | none ↦ none
          | some rest ↦ some (h ∷ path ++ rest)
        ]
      ]
]

-- The blocks of the search, behind those of the buffer.
unfoldable pub get_path : Consistent → ℕ → List ℕ → Option (List ℕ)
unfolding path_loop
get_path c key path_buffer =
    let s = flea_init key in
    let b = fast_mod s.d c.size % 2 ^ 16 in
    elim (path_loop (suc c.size) c s b) [ none ↦ none | some rest ↦ some (path_buffer ++ b ∷ rest) ]

-- `none` is the panic of a pop from the empty stack. The code's index `L[b]` reads `L` after the
-- assignment before it.
unfoldable pub add_block : Consistent → Option (ℕ × Consistent)
add_block c = elim c.r [
  | [] ↦ none
  | b ∷ r ↦
      let l' = update (c.w c.n) c.n c.l in
      some (
        b,
        record c {
          a = update b 0 c.a;
          k = update b b c.k;
          w = update (l' b) b c.w;
          l = l';
          r = r;
          n = (c.n + 1) % 2 ^ 16;
        },
      )
]

unfoldable pub remove_block : ℕ → Consistent → Consistent
remove_block b c =
    let n' : ℕ = (c.n + 2 ^ 16 - 1) % 2 ^ 16 in
    let w' = update (c.l b) (c.w n') c.w in
    if c.a b == 0
    then record c {
      a = update b n' c.a;
      k = update b (c.w n') c.k;
      w = w';
      l = update (w' n') (c.l b) c.l;
      r = b ∷ c.r;
      n = n';
    }
    else c
