-- ===== src/Topic/Scanned.antt =====
-- message/topic.go: the loop over the parts of a wildcard topic never panics.
use unitdb.Prelude.{
  ℕ, zero, suc, ◌+◌, ◌%◌, ◌^◌, ◌≡◌, ◌<◌, ◌≤◌, ◌⊎◌, refl, ap, ◌∙◌, inl, inr, true, Option, none,
  some, List, [], ◌∷◌, ◌==◌, ltb, ◌>>=◌, length, length-append, length-set, get_elem?, get_elem?-lt,
  set, All, All-append, Bool-cases, arith,
}
use mathlib.Core.Path.{subst}
use unitdb.Hash.Text.Shuffled.{with_salt_total}
use unitdb.Topic.Codec.{IsPart}
use unitdb.Topic.Fields.{has_suffix}
use unitdb.Topic.{
  Part, Scan, topic_wildcard_symbol, scan_part, scan_parts, scan_plain, scan_wildcard, marked,
  set_wildchars, add_part,
}

-- Between two rounds of the loop: `idx` fields were read.
pub record IsScan (d₀ idx : ℕ) (s : Scan) : Type 0 where
  pub small : All IsPart s.parts
  pub few : length s.parts ≤ idx
  pub enough : idx ≤ length s.parts + s.wildcharcount
  pub some_part : (idx ≡ 0) ⊎ (0 < length s.parts)
  pub unseen : (0 < idx) ⊎ (s.wildchars ≡ 0)
  pub deep : s.depth ≡ (d₀ + idx) % 2 ^ 8

-- A step that ends without a panic in a state with a property.
abbrev pub Ends : {A : Type 0} → (A → Type 0) → Option A → Type 0
Ends {A} P o = (a : A) × (o ≡ some a) × P a

Ends-bind :
    {A B : Type 0} (P : A → Type 0) (Q : B → Type 0) (o : Option A) (f : A → Option B)
    → Ends P o
    → ((a : A) → P a → Ends Q (f a))
    → Ends Q (o >>= f)
Ends-bind P Q o f (a, e, p) next = let (b, e', q) = next a p in (b, rw (e, ◌>>=◌) e', q)

-- Parts of a given number, with small hashes.
abbrev pub IsParts : ℕ → List Part → Type 0
IsParts n ps = (length ps ≡ n) × All IsPart ps

pub add_part-IsParts :
    (ps : List Part) (h : ℕ) → h < 2 ^ 32 → All IsPart ps → IsParts (length ps + 1) (add_part ps h)
unfolding add_part
add_part-IsParts ps h lt small = (
  length-append ps (record { hash = h; wildchars = 0 } ∷ []),
  All-append IsPart ps _ small (lt, tt),
)

All-set : (ps : List Part) (i : ℕ) (p : Part) → All IsPart ps → IsPart p → All IsPart (set ps i p)
All-set [] i p hs hp = tt
All-set (q ∷ ps) zero p hs hp = (hp, hs.1)
All-set (q ∷ ps) (suc i) p hs hp = (hs.0, All-set ps i p hs.1 hp)

All-get : (ps : List Part) (i : ℕ) (p : Part) → All IsPart ps → get_elem? ps i ≡ some p → IsPart p
All-get [] i p hs e = cc
All-get (q ∷ ps) zero p hs e =
    let same : q.hash ≡ p.hash =
      ap (λ (o : Option Part). elim o [ none ↦ 0 | some r ↦ r.hash ]) e in
    omega (arith, hs.0)
All-get (q ∷ ps) (suc i) p hs e = All-get ps i p hs.1 e

pub set_wildchars-IsParts :
    (ps : List Part) (i n : ℕ)
    → i < length ps
    → All IsPart ps
    → Ends (IsParts (length ps)) (set_wildchars ps i n)
unfolding set_wildchars
set_wildchars-IsParts ps i n inside small =
    let (p, e) = get_elem?-lt ps i inside in
    let marked_part = record p { wildchars = n } in
    (
      set ps i marked_part,
      rw (e, ◌>>=◌) refl,
      (length-set ps i marked_part, All-set ps i marked_part small (All-get ps i p small e)),
    )

scan_wildcard-IsScan :
    (contract d₀ idx : ℕ) (w : List ℕ) (s : Scan)
    → IsScan d₀ idx s
    → Ends (IsScan d₀ (idx + 1)) (scan_wildcard contract idx w s)
unfolding scan_wildcard
scan_wildcard-IsScan contract d₀ idx w s i =
    let next : List Part → Scan = λ ps. record {
      parts = ps;
      depth = (s.depth + 1) % 2 ^ 8;
      wildchars = (s.wildchars + 1) % 2 ^ 8;
      wildcharcount = s.wildcharcount + 1;
      starred = true;
    } in
    elim (Bool-cases (idx == 0)) [
      | inl b ↦
          let (h, e, lt) = with_salt_total w contract in
          let (len, small) = add_part-IsParts s.parts h lt i.small in
          let few = i.few in
          (
            next (add_part s.parts h),
            rw (b, e, ◌>>=◌) refl,
            record {
              small = small;
              few = omega arith;
              enough = omega (arith, i.enough);
              some_part = inr (omega arith);
              unseen = inl (omega arith);
              deep = omega (arith, i.deep);
            },
          )
      | inr b ↦ (
        next s.parts,
        rw (b, ◌>>=◌) refl,
        record {
          small = i.small;
          few = omega (arith, i.few);
          enough = omega (arith, i.enough);
          some_part = inr (ground (arith, i.some_part));
          unseen = inl (omega arith);
          deep = omega (arith, i.deep);
        },
      )
    ]

marked-lt : (idx n len : ℕ) → idx ≤ len + n → marked idx n < len + 1
unfolding marked
marked-lt idx n len h = ground arith

scan_plain-IsScan :
    (contract d₀ idx : ℕ) (w : List ℕ) (s : Scan)
    → IsScan d₀ idx s
    → Ends (IsScan d₀ (idx + 1)) (scan_plain contract idx w s)
unfolding scan_plain
scan_plain-IsScan contract d₀ idx w s i =
    let (h, e, lt) = with_salt_total w contract in
    let (len, small) = add_part-IsParts s.parts h lt i.small in
    let next : List Part → Scan =
      λ ps. record s { parts = ps; depth = (s.depth + 1) % 2 ^ 8; wildchars = 0 } in
    let after : (ps : List Part) → IsParts (length s.parts + 1) ps → IsScan d₀ (idx + 1) (next ps) =
      λ ps (n, sm). record {
        small = sm;
        few = omega (arith, i.few);
        enough = omega (arith, i.enough);
        some_part = inr (omega arith);
        unseen = inl (omega arith);
        deep = omega (arith, i.deep);
      } in
    elim (Bool-cases (ltb 0 s.wildchars)) [
      | inl b ↦
          let (ps, eps, (n, sm)) =
            set_wildchars-IsParts (add_part s.parts h) (marked idx s.wildcharcount) s.wildchars
              (omega (arith, marked-lt idx s.wildcharcount (length s.parts) i.enough)) small in
          (next ps, rw (e, ◌>>=◌, b, eps) refl, after ps (n ∙ len, sm))
      | inr b ↦ (
        next (add_part s.parts h),
        rw (e, ◌>>=◌, b) refl,
        after (add_part s.parts h) (len, small),
      )
    ]

pub scan_parts-IsScan :
    (contract d₀ idx : ℕ) (ws : List (List ℕ)) (s : Scan)
    → IsScan d₀ idx s
    → Ends (IsScan d₀ (idx + length ws)) (scan_parts contract idx ws s)
unfolding scan_parts scan_part
scan_parts-IsScan contract d₀ idx [] s i = (s, refl, subst (λ n. IsScan d₀ n s) (omega arith) i)
scan_parts-IsScan contract d₀ idx (w ∷ ws) s i =
    Ends-bind (IsScan d₀ (idx + 1)) (IsScan d₀ (idx + suc (length ws))) (scan_part contract idx w s)
      (λ s'. scan_parts contract (idx + 1) ws s') step
      (λ s' i'.
        let (r, e, j) = scan_parts-IsScan contract d₀ (idx + 1) ws s' i' in
        (r, e, subst (λ n. IsScan d₀ n r) {x = idx + 1 + length ws} (omega arith) j))
  where
    step : Ends (IsScan d₀ (idx + 1)) (scan_part contract idx w s)
    step = elim (Bool-cases (has_suffix w (topic_wildcard_symbol ∷ []))) [
      | inl b ↦ rw b (scan_wildcard-IsScan contract d₀ idx w s i)
      | inr b ↦ rw b (scan_plain-IsScan contract d₀ idx w s i)
    ]
