-- ===== src/Lease/Free.antt =====
-- leasing.go: what freeing a block does.
use unitdb.Prelude.{
  ℕ, zero, suc, ◌+◌, ◌≡◌, ◌≢◌, refl, sym, ◌∙◌, inl, inr, refl, Bool, true, false, some, none, List,
  [], ◌∷◌, ◌++◌, arith, get_elem?, Bool-cases, set, length-set, if◌then◌else◌, add64, ◌>>=◌,
  get_elem?-some-lt, get_elem?-set_self, get_elem?-set_ne,
}
use mathlib.Core.Path.{subst}
use native.Mathlib.Decide.{ℕ_discrete}
use unitdb.Hash.Consistent.{find_block}
use unitdb.Lease.{FreeBlock, FreeBlocks, Lease, free_block, mark}
use unitdb.Lease.Account.{
  occurs, covers, total, free_at, total_all, Fits, IsValid, covers-append, total-append,
  free_at-set, total_all-set, shard-found,
}

-- The list of a shard after `free_block` has put a block at its end.
abbrev pub grown : ℕ → ℕ → FreeBlocks → FreeBlocks
grown off size fbs = record {
  fb = fbs.fb ++ record { offset = off; size = size } ∷ [];
  cache = mark off true fbs.cache;
}

grown-Fits :
    (fb : List FreeBlock) (new : FreeBlock)
    → Fits new
    → ((j : ℕ) (b : FreeBlock) → get_elem? fb j ≡ some b → Fits b)
    → (j : ℕ) (b : FreeBlock) → get_elem? (fb ++ new ∷ []) j ≡ some b
    → Fits b
grown-Fits [] new hn h zero b e = ground arith
grown-Fits [] new hn h (suc j) b e = cc
grown-Fits (c ∷ fb) new hn h zero b e = h zero b e
grown-Fits (c ∷ fb) new hn h (suc j) b e = grown-Fits fb new hn (λ i. h (suc i)) j b e

-- A write to one shard keeps what holds of every block of every shard.
pub set-Fits :
    (bs : List FreeBlocks) (i : ℕ) (new : FreeBlocks)
    → ((k j : ℕ) (fbs : FreeBlocks) (b : FreeBlock)
        → get_elem? bs k ≡ some fbs
        → get_elem? fbs.fb j ≡ some b
        → Fits b)
    → ((j : ℕ) (b : FreeBlock) → get_elem? new.fb j ≡ some b → Fits b)
    → (k j : ℕ) (fbs : FreeBlocks) (b : FreeBlock) → get_elem? (set bs i new) k ≡ some fbs
    → get_elem? fbs.fb j ≡ some b
    → Fits b
set-Fits [] i new h hn k j fbs b e eb = h k j fbs b e eb
set-Fits (c ∷ bs) zero new h hn zero j fbs b e eb =
    let same : fbs ≡ new = cc (e) in
    hn j b (subst (λ (f : FreeBlocks). get_elem? f.fb j ≡ some b) same eb)
set-Fits (c ∷ bs) zero new h hn (suc k) j fbs b e eb = h (suc k) j fbs b e eb
set-Fits (c ∷ bs) (suc i) new h hn zero j fbs b e eb = h zero j fbs b e eb
set-Fits (c ∷ bs) (suc i) new h hn (suc k) j fbs b e eb =
    set-Fits bs i new (λ m. h (suc m)) hn k j fbs b e eb

-- Whether the shard of the offset has it marked as free.
pub is_marked : ℕ → Lease → Bool
is_marked off l = elim (find_block l.consistent off) [
  | none ↦ false
  | some i ↦ elim (get_elem? l.blocks i) [ none ↦ false | some fbs ↦ fbs.cache off ]
]

pub is_marked-eq :
    (off : ℕ) (l : Lease) (i : ℕ) (fbs : FreeBlocks)
    → find_block l.consistent off ≡ some i
    → get_elem? l.blocks i ≡ some fbs
    → is_marked off l ≡ fbs.cache off
unfolding is_marked
is_marked-eq off l i fbs found e = rw (is_marked, found, e)

-- What freeing does: the bytes of the block are covered once more, and counted, unless the offset
-- was marked; afterwards it is marked.
pub record Frees (off size : ℕ) (l l' : Lease) : Type 0 where
  pub valid : IsValid l'
  pub counts : total_all l'.blocks ≡ total_all l.blocks + (if is_marked off l then 0 else size)
  pub bytes :
      (x : ℕ)
      → free_at x l'.blocks
        ≡ free_at x l.blocks
          + (if is_marked off l then 0 else occurs x (record { offset = off; size = size }))
  pub marks : is_marked off l' ≡ true
  pub others : (o : ℕ) → o ≢ off → is_marked o l' ≡ is_marked o l

module _ (off size : ℕ) (l : Lease) (i : ℕ) (fbs : FreeBlocks)
    (fit : Fits (record { offset = off; size = size })) (v : IsValid l)
    (found : find_block l.consistent off ≡ some i) (e : get_elem? l.blocks i ≡ some fbs) where
  grown-IsValid :
      IsValid (record l { blocks = set l.blocks i (grown off size fbs); size = add64 l.size size })
  grown-IsValid =
      let new = grown off size fbs in
      let b : FreeBlock = record { offset = off; size = size } in
      let more : total new.fb ≡ total fbs.fb + size =
        total-append fbs.fb (b ∷ []) ∙ (unfold total in omega arith) in
      record {
        anchor = v.anchor;
        shards = v.shards ∙ sym (length-set l.blocks i new);
        fits = set-Fits l.blocks i new v.fits (grown-Fits fbs.fb b fit (λ j c. v.fits i j fbs c e));
        counted = omega (arith, v.counted, total_all-set l.blocks i fbs new e);
      }

  -- The marks of other offsets stay, in this shard and in the others.
  grown-others :
      (o : ℕ)
      → o ≢ off
      → is_marked o
          (record l { blocks = set l.blocks i (grown off size fbs); size = add64 l.size size })
        ≡ is_marked o l
  grown-others o ne =
      let (k, fk, foundk, ek) = shard-found l o v in
      let new = grown off size fbs in
      let old = is_marked-eq o l k fk foundk ek in
      elim (ℕ_discrete i k) [
        | yes same ↦
            let at : get_elem? (set l.blocks i new) k ≡ some new =
              rw (← same)
                (get_elem?-set_self l.blocks i new (get_elem?-some-lt l.blocks i fbs e)) in
            let one : fk ≡ fbs = cc (ek, e, same) in
            is_marked-eq o _ k new foundk at ∙ (rw old (rw one (ground arith)))
        | no apart ↦
            is_marked-eq o _ k fk foundk (get_elem?-set_ne l.blocks i k new apart ∙ ek) ∙ sym old
      ]

  grown-Frees :
      fbs.cache off ≡ false
      → Frees off size l
          (record l { blocks = set l.blocks i (grown off size fbs); size = add64 l.size size })
  grown-Frees fresh =
      let new = grown off size fbs in
      let b : FreeBlock = record { offset = off; size = size } in
      let more : total new.fb ≡ total fbs.fb + size =
        total-append fbs.fb (b ∷ []) ∙ (unfold total in omega arith) in
      let once : (x : ℕ) → covers x new.fb ≡ covers x fbs.fb + occurs x b =
        λ x. covers-append x fbs.fb (b ∷ []) ∙ (unfold covers in omega arith) in
      let unmarked = is_marked-eq off l i fbs found e ∙ fresh in
      record {
        valid = grown-IsValid;
        counts = rw unmarked (omega (arith, total_all-set l.blocks i fbs new e));
        bytes = λ x. rw unmarked (omega (arith, once x, free_at-set x l.blocks i fbs new e));
        marks =
            is_marked-eq off _ i new found
              (get_elem?-set_self l.blocks i new (get_elem?-some-lt l.blocks i fbs e))
            ∙ ground arith;
        others = grown-others;
      }

  kept-Frees : fbs.cache off ≡ true → Frees off size l l
  kept-Frees marked =
      let old = is_marked-eq off l i fbs found e ∙ marked in
      record {
        valid = v;
        counts = rw old (omega arith);
        bytes = λ x. rw old (omega arith);
        marks = old;
        others = λ o ne. refl;
      }

-- Freeing a block that lies in the file always ends, and the list stays valid. Where its offset is
-- not marked, its bytes are free once more than before and its size is counted; where it is marked,
-- neither changes. The offset is marked then, and other offsets keep their marks.
pub free_block-Frees :
    (off size : ℕ) (l : Lease)
    → Fits (record { offset = off; size = size })
    → IsValid l
    → (l' : Lease) × (free_block off size l ≡ some l') × Frees off size l l'
unfolding free_block
free_block-Frees off size l fit v =
    let (i, fbs, found, e) = shard-found l off v in
    elim (Bool-cases (fbs.cache off)) [
      | inl marked ↦ (l, rw (found, e, marked), kept-Frees off size l i fbs fit v found e marked)
      | inr fresh ↦ (
        record l { blocks = set l.blocks i (grown off size fbs); size = add64 l.size size },
        rw (found, e, fresh),
        grown-Frees off size l i fbs fit v found e fresh,
      )
    ]

-- A marked offset is not freed a second time, whatever the size.
pub free_block_marked :
    (off size : ℕ) (l : Lease) → IsValid l → is_marked off l ≡ true → free_block off size l ≡ some l
unfolding free_block
free_block_marked off size l v h =
    let (i, fbs, found, e) = shard-found l off v in
    let marked = sym (is_marked-eq off l i fbs found e) ∙ h in rw (found, e, marked)

-- Freeing the same offset twice does what freeing it once does.
pub free_block_twice :
    (off size again : ℕ) (l : Lease)
    → Fits (record { offset = off; size = size })
    → IsValid l
    → (free_block off size l >>= free_block off again) ≡ free_block off size l
free_block_twice off size again l fit v =
    let (l', run, f) = free_block-Frees off size l fit v in
    rw run (free_block_marked off again l' f.valid f.marks)
