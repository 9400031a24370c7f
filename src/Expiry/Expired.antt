-- ===== src/Expiry/Expired.antt =====
-- expiry_window.go: what a look for expired entries gives.
use unitdb.Prelude.{
  ℕ, zero, suc, ◌+◌, ◌%◌, ◌^◌, ◌≡◌, ◌<◌, refl, inl, inr, not, ◌||◌, Option, none, some, List, [],
  ◌∷◌, ◌++◌, ltb, ltb→lt, ◌==◌, if◌then◌else◌, ◌>>=◌, length, set, get_elem?, All, All-append,
  Bool-cases, Option-cases,
}
use mathlib.Core.Path.{subst}
use unitdb.Prelude.Maps.{erase, keys}
use unitdb.Flush.{sort_indexes}
use unitdb.Window.{WinEntry}
use unitdb.Expiry.{
  ExpiryWindow, ExpiryWindowBucket, entries_of, expired_of, expire_times, expire_shards,
  get_expired_entries,
}

abbrev pub IsExpired : ℕ → WinEntry → Type 0
IsExpired start e = e.expires_at < start

expired_of-All : (start : ℕ) (es : List WinEntry) → All (IsExpired start) (expired_of start es)
unfolding expired_of
expired_of-All start [] = tt
expired_of-All start (e ∷ es) = elim (Bool-cases (ltb e.expires_at start)) [
  | inl b ↦ rw (expired_of, b) (ltb→lt _ _ b, expired_of-All start es)
  | inr b ↦ rw (expired_of, b) (expired_of-All start es)
]

expire_times-All :
    (start max_results : ℕ) (ts : List ℕ) (ws : ExpiryWindow) (acc : List WinEntry)
    → All (IsExpired start) acc
    → All (IsExpired start) (expire_times start max_results ts ws acc).1
unfolding expire_times
expire_times-All start max_results [] ws acc h = h
expire_times-All start max_results (t ∷ ts) ws acc h =
    elim (Bool-cases (ltb start t || ltb max_results (length acc))) [
      | inl b ↦ rw (expire_times, b) h
      | inr b ↦
          let found = expired_of start (entries_of ws t) in
          rw (expire_times, b)
            (expire_times-All start max_results ts
              (if length found == length (entries_of ws t) then erase ws t else ws) (acc ++ found)
              (All-append (IsExpired start) acc found h (expired_of-All start (entries_of ws t))))
    ]

-- The outcome of a loop, if it does not panic.
Gives : ℕ → Option (List ExpiryWindow × List WinEntry) → Type 0
Gives start none = Unit
Gives start (some r) = All (IsExpired start) r.1

expire_shards-Gives :
    (start max_results n i : ℕ) (expiry : List ExpiryWindow) (acc : List WinEntry)
    → All (IsExpired start) acc
    → Gives start (expire_shards start max_results n i expiry acc)
unfolding expire_shards Gives
expire_shards-Gives start max_results zero i expiry acc h = h
expire_shards-Gives start max_results (suc n) i expiry acc h =
    elim (Option-cases (get_elem? expiry i)) [
      | inl e ↦ rw (expire_shards, e, ◌>>=◌) tt
      | inr (ws, e) ↦
          let shard = expire_times start max_results (sort_indexes (keys ws)) ws acc in
          rw (expire_shards, e, ◌>>=◌)
            (expire_shards-Gives start max_results n (i + 1) (set expiry i shard.0) shard.1
              (expire_times-All start max_results (sort_indexes (keys ws)) ws acc h))
    ]

-- A look for expired entries gives none that has still to expire, whatever was put into the bucket.
pub get_expired_entries-All :
    (wb wb' : ExpiryWindowBucket) (now max_results : ℕ) (es : List WinEntry)
    → get_expired_entries wb now max_results ≡ some (wb', es)
    → All (λ e. e.expires_at < now % 2 ^ 32) es
unfolding get_expired_entries Gives
get_expired_entries-All wb wb' now max_results es run =
    elim (Bool-cases (not wb.background_key_expiry || ltb (now % 2 ^ 32) wb.earliest_expiry_hash)) [
      | inl b ↦
          let idle : get_expired_entries wb now max_results ≡ some (wb, []) =
            rw (get_expired_entries, b) refl in
          let same : [] ≡ es = cc (idle, run) in subst (All (IsExpired (now % 2 ^ 32))) same tt
      | inr b ↦
          elim (Option-cases
            (expire_shards (now % 2 ^ 32) max_results wb.max_exp_durations 0 wb.expiry [])) [
              | inl e ↦
                  let stop : get_expired_entries wb now max_results ≡ none =
                    rw (get_expired_entries, b, e, ◌>>=◌) refl in
                  cc (stop, run)
              | inr (r, e) ↦
                  let gives = subst (Gives (now % 2 ^ 32)) e (
                    expire_shards-Gives (now % 2 ^ 32) max_results wb.max_exp_durations 0 wb.expiry
                      [] tt) in
                  let ran : get_expired_entries wb now max_results
                      ≡ some (record wb { expiry = r.0; earliest_expiry_hash = 0 }, r.1) =
                    rw (get_expired_entries, b, e, ◌>>=◌) refl in
                  let same : r.1 ≡ es = cc (ran, run) in
                  subst (All (IsExpired (now % 2 ^ 32))) same gives
            ]
    ]
