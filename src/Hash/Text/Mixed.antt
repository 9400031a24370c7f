-- ===== src/Hash/Text/Mixed.antt =====
-- hash/hash.go: the unrolled loop mixes in the bytes one after the other.
use unitdb.Prelude.{
  ℕ, zero, suc, ◌+◌, ◌*◌, ◌/◌, ◌^◌, ◌≡◌, ◌≤◌, ◌<◌, refl, ap, sym, ◌∙◌, Option, some, List, [], ◌∷◌,
  ◌>>=◌, length, get_elem?, drop, arith,
}
use unitdb.Hash.Text.{init, mix, mix_rest, mix_at, mix_eight, mix_eights, new}

get-drop :
    (b : List ℕ) (i : ℕ)
    → i < length b
    → (c : ℕ) × (get_elem? b i ≡ some c) × (drop i b ≡ c ∷ drop (suc i) b)
get-drop [] i h = absurd (omega arith)
get-drop (c ∷ b) zero h = (c, refl, refl)
get-drop (c ∷ b) (suc i) h = get-drop b i (omega arith)

-- The bytes from `i` up to `j` are mixed in.
abbrev Mixes : List ℕ → ℕ → ℕ → ℕ → Option ℕ → Type 0
Mixes b i j h o = (r : ℕ) × (o ≡ some r) × (mix_rest r (drop j b) ≡ mix_rest h (drop i b))

Mixes-bind :
    (b : List ℕ) (i j k h : ℕ) (o : Option ℕ) (f : ℕ → Option ℕ)
    → Mixes b i j h o
    → ((r : ℕ) → Mixes b j k r (f r))
    → Mixes b i k h (o >>= f)
Mixes-bind b i j k h o f (r, e, m) next = let (s, e', m') = next r in (s, rw (e, ◌>>=◌) e', m' ∙ m)

Mixes-last : (b : List ℕ) (i j h : ℕ) → j ≡ suc i → i < length b → Mixes b i j h (mix_at b i h)
unfolding mix_at mix_rest
Mixes-last b i j h next inside =
    let (c, e, d) = get-drop b i inside in
    (
      mix h c,
      rw (e, ◌>>=◌) refl,
      ap (λ n. mix_rest (mix h c) (drop n b)) next ∙ sym (ap (mix_rest h) d),
    )

-- The byte at `i` is mixed in first.
Mixes-mix_at :
    (b : List ℕ) (i j k h : ℕ) {f : ℕ → Option ℕ}
    → j ≡ suc i
    → i < length b
    → ((r : ℕ) → Mixes b j k r (f r))
    → Mixes b i k h (mix_at b i h >>= f)
Mixes-mix_at b i j k h {f} next inside behind =
    Mixes-bind b i j k h (mix_at b i h) f (Mixes-last b i j h next inside) behind

Mixes-mix_eight : (b : List ℕ) (i h : ℕ) → i + 8 ≤ length b → Mixes b i (i + 8) h (mix_eight b i h)
unfolding mix_eight
Mixes-mix_eight b i h room = Mixes-mix_at b i (i + 1) (i + 8) h (omega arith) (omega arith) λ h₁.
    Mixes-mix_at b (i + 1) (i + 2) (i + 8) h₁ (omega arith) (omega arith) λ h₂.
      Mixes-mix_at b (i + 2) (i + 3) (i + 8) h₂ (omega arith) (omega arith) λ h₃.
        Mixes-mix_at b (i + 3) (i + 4) (i + 8) h₃ (omega arith) (omega arith) λ h₄.
          Mixes-mix_at b (i + 4) (i + 5) (i + 8) h₄ (omega arith) (omega arith) λ h₅.
            Mixes-mix_at b (i + 5) (i + 6) (i + 8) h₅ (omega arith) (omega arith) λ h₆.
              Mixes-mix_at b (i + 6) (i + 7) (i + 8) h₆ (omega arith) (omega arith)
                λ h₇. Mixes-last b (i + 7) (i + 8) h₇ (omega arith) (omega arith)

Mixes-mix_eights :
    (k : ℕ) (b : List ℕ) (i h : ℕ)
    → i + k * 8 ≤ length b
    → Mixes b i (i + k * 8) h (mix_eights k b i h)
unfolding mix_eights
Mixes-mix_eights zero b i h inside = (h, refl, ap (λ j. mix_rest h (drop j b)) (omega arith))
Mixes-mix_eights (suc k) b i h inside =
    Mixes-bind b i (i + 8) (i + suc k * 8) h (mix_eight b i h) (mix_eights k b (i + 8))
      (Mixes-mix_eight b i h (omega arith))
      (λ r.
        let m = Mixes-mix_eights k b (i + 8) r (omega arith) in
        (m.0, m.1, ap (λ j. mix_rest m.0 (drop j b)) {x = i + suc k * 8} (omega arith) ∙ m.2))

-- The hash of a text never panics: the unrolled loop and the loop over the rest mix its bytes in, one
-- after the other.
pub new-mix_rest : (b : List ℕ) → new b ≡ some (mix_rest init b)
unfolding new
new-mix_rest b =
    let (r, e, m) = Mixes-mix_eights (length b / 8) b 0 init (omega arith) in
    rw (e, ◌>>=◌)
      (ap some (ap (λ n. mix_rest r (drop n b)) {y = 0 + length b / 8 * 8} (omega arith) ∙ m))

mix_rest-lt : (h : ℕ) (b : List ℕ) → h < 2 ^ 32 → mix_rest h b < 2 ^ 32
unfolding mix_rest mix
mix_rest-lt h [] lt = lt
mix_rest-lt h (c ∷ cs) lt = mix_rest-lt (mix h c) cs (omega arith)

pub new_total : (b : List ℕ) → (h : ℕ) × (new b ≡ some h) × (h < 2 ^ 32)
new_total b = (mix_rest init b, new-mix_rest b, mix_rest-lt init b (omega arith))
