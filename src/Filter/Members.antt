-- ===== src/Filter/Members.antt =====
-- filter/bloom.go and filter/filter.go: a key that was appended is found, and stays found in the
-- filter that is read from the bytes of the finished one.
use Prim.Native.Nat.{bit_or}
use unitdb.Prelude.{
  ℕ, zero, suc, ◌+◌, ◌/◌, ◌%◌, ◌^◌, ◌≡◌, ◌<◌, ◌≤◌, inl, inr, refl, ap, sym, ◌∙◌, true, some, add64,
  List, [], ◌∷◌, ◌==◌, length, get_elem?, set, arith, All, Bool-cases, length-set, get_elem?-lt,
  get_elem?-set_self, get_elem?-set_ne, ◌>>=◌, ==_iff, get_elem?-some-lt,
}
use mathlib.Core.Path.{subst}
use native.Mathlib.Nat.{pow-le-pow_right, mod-lt}
use unitdb.Filter.{Filter, set_bit, set_bits, add, test_bit, test_bits, test, append_all, hash}
use unitdb.Filter.Bits.{bit_or-bit, bit_or-lt, bit_self}

-- The words are as many as the code allocates, each of 64 bits, and there is a bit.
pub record IsValid (f : Filter) : Type 0 where
  pub some_bits : 0 < f.m
  pub full : length f.bits ≡ (f.m + 63) / 64
  pub widths : All (λ w. w < 2 ^ 64) f.bits

-- Bit `j` is 1.
pub On : List ℕ → ℕ → Type 0
On bits j = (w : ℕ) × (get_elem? bits (j / 64) ≡ some w) × ((w / 2 ^ (j % 64)) % 2 ≡ 1)

test_bit-On : (bits : List ℕ) (j : ℕ) → On bits j → test_bit bits j ≡ some true
unfolding On test_bit
test_bit-On bits j (w, e, b) = rw (e, ◌>>=◌) (ap some ((==_iff _ 1).1 b))

-- What setting bit `i` does.
record Sets (bits : List ℕ) (i : ℕ) (bits' : List ℕ) : Type 0 where
  full : length bits' ≡ length bits
  widths : All (λ w. w < 2 ^ 64) bits → All (λ w. w < 2 ^ 64) bits'
  on : On bits' i
  stays : (j : ℕ) → On bits j → On bits' j

All-set : (P : ℕ → Type 0) (bits : List ℕ) (i v : ℕ) → All P bits → P v → All P (set bits i v)
All-set P [] i v h hv = tt
All-set P (b ∷ bs) zero v h hv = (hv, h.1)
All-set P (b ∷ bs) (suc i) v h hv = (h.0, All-set P bs i v h.1 hv)

All-get_elem? :
    (P : ℕ → Type 0) (bits : List ℕ) (i w : ℕ) → All P bits → get_elem? bits i ≡ some w → P w
All-get_elem? P [] i w h e = cc
All-get_elem? P (b ∷ bs) zero w h e = subst P (cc (e)) h.0
All-get_elem? P (b ∷ bs) (suc i) w h e = All-get_elem? P bs i w h.1 e

bit-lt : (i : ℕ) → 2 ^ (i % 64) < 2 ^ 64
bit-lt i = omega (arith, pow_mono)
  where
    pow_mono : 2 ^ (i % 64) ≤ 2 ^ 63
    pow_mono = let le : i % 64 ≤ 63 = omega arith in pow-le-pow_right (omega arith) le

On-set :
    (bits : List ℕ) (i j w : ℕ)
    → get_elem? bits (i / 64) ≡ some w
    → On bits j
    → On (set bits (i / 64) (bit_or w (2 ^ (i % 64)))) j
unfolding On
On-set bits i j w e (v, ev, b) = elim (Bool-cases (i / 64 == j / 64)) [
  | inl b_same ↦
      let same : i / 64 ≡ j / 64 = ground arith in
      let eq : v ≡ w = cc (ev, e, same) in
      (
        bit_or w (2 ^ (i % 64)),
        rw (sym same) (get_elem?-set_self bits (i / 64) _ (get_elem?-some-lt bits (i / 64) w e)),
        omega (arith, bit_or-bit (j % 64) w (2 ^ (i % 64)), b, ap (λ x. (x / 2 ^ (j % 64)) % 2) eq),
      )
  | inr b_ne ↦ (v, get_elem?-set_ne bits (i / 64) (j / 64) _ (ground arith) ∙ ev, b)
]

set_bit-Sets :
    (bits : List ℕ) (i : ℕ)
    → i / 64 < length bits
    → (bits' : List ℕ) × (set_bit bits i ≡ some bits') × Sets bits i bits'
unfolding set_bit On
set_bit-Sets bits i h =
    let (w, e) = get_elem?-lt bits (i / 64) h in
    (
      set bits (i / 64) (bit_or w (2 ^ (i % 64))),
      rw (e, ◌>>=◌),
      record {
        full = length-set bits (i / 64) (bit_or w (2 ^ (i % 64)));
        widths = λ ws.
            All-set (λ w. w < 2 ^ 64) bits (i / 64) _ ws
              (bit_or-lt 64 w (2 ^ (i % 64)) (All-get_elem? (λ w. w < 2 ^ 64) bits (i / 64) w ws e)
                (bit-lt i));
        on = (
          bit_or w (2 ^ (i % 64)),
          get_elem?-set_self bits (i / 64) _ h,
          omega (arith, bit_or-bit (i % 64) w (2 ^ (i % 64)), bit_self (i % 64)),
        );
        stays = λ j o. On-set bits i j w e o;
      },
    )

record SetsAll (m : ℕ) (bits : List ℕ) (is : List ℕ) (bits' : List ℕ) : Type 0 where
  full : length bits' ≡ length bits
  widths : All (λ w. w < 2 ^ 64) bits → All (λ w. w < 2 ^ 64) bits'
  on : All (λ i. On bits' (i % m)) is
  stays : (j : ℕ) → On bits j → On bits' j

set_bits-SetsAll :
    (m : ℕ) (bits is : List ℕ)
    → 0 < m
    → length bits ≡ (m + 63) / 64
    → (bits' : List ℕ) × (set_bits m bits is ≡ some bits') × SetsAll m bits is bits'
unfolding set_bits
set_bits-SetsAll m bits [] pos full =
    (bits, refl, record { full = refl; widths = λ ws. ws; on = tt; stays = λ j o. o })
set_bits-SetsAll m bits (i ∷ is) pos full =
    let (bits₁, e₁, s₁) = set_bit-Sets bits (i % m) (in_range m bits i pos full) in
    let (bits₂, e₂, s₂) = set_bits-SetsAll m bits₁ is pos (s₁.full ∙ full) in
    (
      bits₂,
      rw (e₁, ◌>>=◌) e₂,
      record {
        full = s₂.full ∙ s₁.full;
        widths = λ ws. s₂.widths (s₁.widths ws);
        on = (s₂.stays (i % m) s₁.on, s₂.on);
        stays = λ j o. s₂.stays j (s₁.stays j o);
      },
    )
  where
    in_range :
        (m : ℕ) (bits : List ℕ) (i : ℕ)
        → 0 < m
        → length bits ≡ (m + 63) / 64
        → (i % m) / 64 < length bits
    in_range m bits i pos full = omega (arith, mod-lt i pos)

test_bits-On :
    (m : ℕ) (bits is : List ℕ) → All (λ i. On bits (i % m)) is → test_bits m bits is ≡ some true
unfolding test_bits
test_bits-On m bits [] os = refl
test_bits-On m bits (i ∷ is) os =
    rw (test_bit-On bits (i % m) os.0, ◌>>=◌) (test_bits-On m bits is os.1)

-- A key is in the filter if the bits of all its hashes are 1.
pub Contains : Filter → ℕ → Type 0
Contains f h = All (λ i. On f.bits (i % f.m)) (hash f.keys h)

pub test-Contains : (f : Filter) (h : ℕ) → Contains f h → test f h ≡ some true
unfolding test Contains
test-Contains f h c = test_bits-On f.m f.bits (hash f.keys h) c

-- The number of keys that a filter has taken makes no difference.
pub test_copy : (f : Filter) (h : ℕ) → Contains f h → test (record f { n = 0 }) h ≡ some true
unfolding test Contains
test_copy f h c = test_bits-On f.m f.bits (hash f.keys h) c

All-imp : (P Q : ℕ → Type 0) (xs : List ℕ) → ((x : ℕ) → P x → Q x) → All P xs → All Q xs
All-imp P Q [] imp h = tt
All-imp P Q (x ∷ xs) imp h = (imp x h.0, All-imp P Q xs imp h.1)

pub record Adds (f : Filter) (h : ℕ) (f' : Filter) : Type 0 where
  pub valid : IsValid f'
  pub keys : f'.keys ≡ f.keys
  pub m : f'.m ≡ f.m
  pub has : Contains f' h
  pub keeps : (h' : ℕ) → Contains f h' → Contains f' h'

pub add-Adds : (f : Filter) (h : ℕ) → IsValid f → (f' : Filter) × (add f h ≡ some f') × Adds f h f'
unfolding add Contains
add-Adds f h v =
    let (bits, e, s) = set_bits-SetsAll f.m f.bits (hash f.keys h) v.some_bits v.full in
    (
      record f { bits = bits; n = add64 f.n 1 },
      rw (e, ◌>>=◌),
      record {
        valid = record {
          some_bits = v.some_bits;
          full = s.full ∙ v.full;
          widths = s.widths v.widths;
        };
        keys = refl;
        m = refl;
        has = s.on;
        keeps = λ h' c.
            All-imp (λ i. On f.bits (i % f.m)) (λ i. On bits (i % f.m)) (hash f.keys h')
              (λ i o. s.stays (i % f.m) o) c;
      },
    )

-- What appending keys to a filter gives.
pub record Appends (f : Filter) (hs : List ℕ) (f' : Filter) : Type 0 where
  pub valid : IsValid f'
  pub m : f'.m ≡ f.m
  pub hash_keys : f'.keys ≡ f.keys
  pub found : All (λ h. test f' h ≡ some true) hs
  pub stays : (h : ℕ) → Contains f h → Contains f' h

pub append_all-Appends :
    (f : Filter) (hs : List ℕ)
    → IsValid f
    → (f' : Filter) × (append_all f hs ≡ some f') × Appends f hs f'
unfolding append_all
append_all-Appends f [] v =
    (f, refl, record { valid = v; m = refl; hash_keys = refl; found = tt; stays = λ h c. c })
append_all-Appends f (h ∷ hs) v =
    let (f₁, e₁, a₁) = add-Adds f h v in
    let (f₂, e₂, a₂) = append_all-Appends f₁ hs a₁.valid in
    (
      f₂,
      rw (e₁, ◌>>=◌) e₂,
      record {
        valid = a₂.valid;
        m = a₂.m ∙ a₁.m;
        hash_keys = a₂.hash_keys ∙ a₁.keys;
        found = (test-Contains f₂ h (a₂.stays h a₁.has), a₂.found);
        stays = λ h' c. a₂.stays h' (a₁.keeps h' c);
      },
    )
