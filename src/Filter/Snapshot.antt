-- ===== src/Filter/Snapshot.antt =====
-- filter/filter.go: the filter of a generator as it is at one time, and a key that is appended.
use unitdb.Prelude.{ℕ, ◌^◌, ◌≡◌, ◌<◌, refl, sym, ap, ◌∙◌, some, length, All, arith}
use mathlib.Core.Path.{subst}
use unitdb.Filter.{
  Filter, bloom_bits, bloom_hashes, new_filter_from_bytes, new_filter_block, bytes, add,
}
use unitdb.Filter.Members.{IsValid, Adds, add-Adds}
use unitdb.Filter.Reload.{reload_as}

-- A filter of the size that the code takes, with as many random words.
pub record IsGenerator (f : Filter) : Type 0 where
  pub valid : IsValid f
  pub size : f.m ≡ bloom_bits
  pub hashes : length f.keys ≡ bloom_hashes
  pub widths : All (λ k. k < 2 ^ 64) f.keys

pub snapshot : (f : Filter) → IsGenerator f → new_filter_block (bytes f) ≡ some (record f { n = 0 })
unfolding new_filter_block
snapshot f g =
    ap (new_filter_from_bytes (bytes f) bloom_bits) (sym g.hashes)
    ∙ reload_as f bloom_bits f.keys g.valid (omega arith) g.widths g.size refl

pub add-IsGenerator :
    (f : Filter) (h : ℕ)
    → IsGenerator f
    → (f' : Filter) × (add f h ≡ some f') × IsGenerator f' × Adds f h f'
add-IsGenerator f h g =
    let (f', e, a) = add-Adds f h g.valid in
    let same : f'.keys ≡ f.keys = a.keys in
    (
      f',
      e,
      record {
        valid = a.valid;
        size = a.m ∙ g.size;
        hashes = ap length same ∙ g.hashes;
        widths = subst (λ l. All (λ k. k < 2 ^ 64) l) (sym same) g.widths;
      },
      a,
    )
