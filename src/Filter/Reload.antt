-- ===== src/Filter/Reload.antt =====
-- filter/filter.go: the bytes of a finished filter, and the filter that is read from them.
use unitdb.Prelude.{
  ℕ, ◌+◌, ◌*◌, ◌/◌, ◌^◌, ◌≡◌, ◌<◌, ◌≤◌, refl, ap, sym, ◌∙◌, true, false, some, List, [], ◌∷◌, ◌++◌,
  ltb, length, drop, replicate, arith, All, All-replicate, length-replicate, length-append,
  length-put_uint, uint-put_uint, drop-append, put_uint, ◌>>=◌, append-nil,
}
use mathlib.Core.Path.{subst}
use unitdb.Filter.{
  Filter, new_filter, new_filter_from_bytes, words, read_words, put_words, bytes, test, append_all,
  m_min,
}
use unitdb.Filter.Members.{IsValid, append_all-Appends}

length-put_words : (ws : List ℕ) → length (put_words ws) ≡ 8 * length ws
unfolding put_words
length-put_words [] = omega arith
length-put_words (w ∷ ws) = omega (
  arith,
  length-append {0} (put_uint 8 w) (put_words ws),
  length-put_uint 8 w,
  length-put_words ws,
)

words-put_words :
    (ws rest : List ℕ) → All (λ w. w < 2 ^ 64) ws → words (length ws) (put_words ws ++ rest) ≡ ws
unfolding words put_words put_uint
words-put_words [] rest h = refl
words-put_words (w ∷ ws) rest h = rw (words-put_words ws rest h.1, uint-put_uint 8 w h.0)

drop-put_words : (ws rest : List ℕ) → drop (8 * length ws) (put_words ws ++ rest) ≡ rest
drop-put_words ws rest =
    ap (λ n. drop n (put_words ws ++ rest)) (sym (length-put_words ws))
    ∙ drop-append (put_words ws) rest

read_words-put_words :
    (n : ℕ) (ws rest : List ℕ)
    → length ws ≡ n
    → All (λ w. w < 2 ^ 64) ws
    → read_words n (put_words ws ++ rest) ≡ (ws, rest)
unfolding read_words
read_words-put_words n ws rest len h =
    rw (sym len, enough, words-put_words ws rest h, drop-put_words ws rest)
  where
    enough : ltb (length (put_words ws ++ rest)) (8 * length ws) ≡ false
    enough = ground (arith, length-append {0} (put_words ws) rest, length-put_words ws)

-- A filter is read back from its bytes, but for the count of its keys.
new_filter_from_bytes-bytes :
    (f : Filter)
    → IsValid f
    → m_min ≤ f.m
    → All (λ w. w < 2 ^ 64) f.keys
    → new_filter_from_bytes (bytes f) f.m (length f.keys) ≡ some (record f { n = 0 })
unfolding new_filter_from_bytes bytes
new_filter_from_bytes-bytes f v h hk = rw (
  big,
  read_words-put_words (length f.keys) f.keys (put_words f.bits) refl hk,
  sym (append-nil (put_words f.bits)),
  read_words-put_words ((f.m + 63) / 64) f.bits [] v.full v.widths,
)
  where
    big : ltb f.m m_min ≡ false
    big = ground arith

pub reload_as :
    (f : Filter) (m : ℕ) (keys : List ℕ)
    → IsValid f
    → m_min ≤ m
    → All (λ w. w < 2 ^ 64) keys
    → f.m ≡ m
    → f.keys ≡ keys
    → new_filter_from_bytes (bytes f) m (length keys) ≡ some (record f { n = 0 })
reload_as f m keys v h hk em ek =
    rw (sym em, sym ek)
      (new_filter_from_bytes-bytes f v (omega (arith, em))
        (subst (λ l. All (λ k. k < 2 ^ 64) l) (sym ek) hk))

new_filter-IsValid :
    (m : ℕ) (keys : List ℕ)
    → m_min ≤ m
    → (f : Filter) × (new_filter m keys ≡ some f) × IsValid f × (f.m ≡ m) × (f.keys ≡ keys)
unfolding new_filter
new_filter-IsValid m keys h = (
  record { m = m; n = 0; bits = replicate ((m + 63) / 64) 0; keys = keys },
  rw big,
  record {
    some_bits = omega arith;
    full = length-replicate ((m + 63) / 64) 0;
    widths = All-replicate (λ w. w < 2 ^ 64) ((m + 63) / 64) 0 (omega arith);
  },
  refl,
  refl,
)
  where
    big : ltb m m_min ≡ false
    big = ground arith

test_count :
    (f : Filter) (hs : List ℕ)
    → All (λ h. test f h ≡ some true) hs
    → All (λ h. test (record f { n = 0 }) h ≡ some true) hs
unfolding test
test_count f [] t = tt
test_count f (h ∷ hs) t = (t.0, test_count f hs t.1)

-- A filter of at least two bits takes any keys without a panic, and the filter that is read from
-- its bytes answers for every one of them that it may be there. The random numbers of the hashes
-- have 64 bits.
pub test-reload :
    (m : ℕ) (keys hs : List ℕ)
    → m_min ≤ m
    → All (λ k. k < 2 ^ 64) keys
    → (f : Filter) × (f' : Filter) × ((new_filter m keys >>= λ new. append_all new hs) ≡ some f)
      × (new_filter_from_bytes (bytes f) m (length keys) ≡ some f')
      × All (λ h. test f' h ≡ some true) hs
test-reload m keys hs h hk =
    let (new, e, v, em, ek) = new_filter-IsValid m keys h in
    let (f, ea, a) = append_all-Appends new hs v in
    let same_m : f.m ≡ m = a.m ∙ em in
    let same_keys : f.keys ≡ keys = a.hash_keys ∙ ek in
    (
      f,
      record f { n = 0 },
      rw (e, ◌>>=◌) ea,
      reload_as f m keys a.valid h hk same_m same_keys,
      test_count f hs a.found,
    )
