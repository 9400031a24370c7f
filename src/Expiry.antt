-- ===== src/Expiry.antt =====
-- expiry_window.go: the entries that have expired, by the time at which they are to be deleted. The
-- entries are those of the window; seconds stand for times and durations. A bucket is given: the anchor
-- that a new one makes, of 100000 shards, is outside the range of the model of the hash.
pub mod Expired
use unitdb.Prelude.{
  ℕ, zero, suc, ◌+◌, ◌-◌, ◌*◌, ◌/◌, ◌%◌, ◌^◌, Bool, true, false, not, ◌||◌, Option, none, some,
  List, [], ◌∷◌, ◌++◌, ltb, ◌==◌, if◌then◌else◌, ◌>>=◌, length, set, get_elem?, replicate,
}
use unitdb.Prelude.Maps.{Map, find, insert, erase, keys}
use unitdb.Hash.Consistent.{Consistent, init_consistent, find_block}
use unitdb.Flush.{sort_indexes}
use unitdb.Window.{WinEntry}

-- A shard: the entries by their expiry hash.
abbrev pub ExpiryWindow : Type 0
ExpiryWindow = Map (List WinEntry)

-- `earliest_expiry_hash` is 0 where nothing was added since the last look.
pub record ExpiryWindowBucket : Type 0 where
  pub expiry : List ExpiryWindow
  pub consistent : Consistent
  pub exp_duration : ℕ
  pub max_exp_durations : ℕ
  pub background_key_expiry : Bool
  pub earliest_expiry_hash : ℕ

-- Seconds from the year 1, from which `Truncate` counts, to 1970.
abbrev pub zero_time : ℕ
zero_time = 62135596800

-- `time.Unix(t, 0).Truncate(d).Add(d).Unix()`; `Truncate` leaves the time where the duration is 0.
unfoldable pub next_time : ℕ → ℕ → ℕ
next_time d t = if d == 0 then t else (t + zero_time) / d * d + d - zero_time

unfoldable pub entries_of : ExpiryWindow → ℕ → List WinEntry
unfolding find
entries_of ws t = elim (find ws t) [ none ↦ [] | some es ↦ es ]

-- `none` is a panic.
unfoldable pub add_expiry : ExpiryWindowBucket → WinEntry → Option ExpiryWindowBucket
unfolding next_time find_block entries_of insert
add_expiry wb e =
    if not wb.background_key_expiry
    then some wb
    else (let hash = next_time wb.exp_duration e.expires_at in
        find_block wb.consistent e.expires_at >>= λ i. get_elem? wb.expiry i >>= λ ws.
        some (record wb {
          expiry = set wb.expiry i (insert ws hash (entries_of ws hash ++ e ∷ []));
          earliest_expiry_hash =
              if wb.earliest_expiry_hash == 0 then hash else wb.earliest_expiry_hash;
        }))

unfoldable pub expired_of : ℕ → List WinEntry → List WinEntry
expired_of start [] = []
expired_of start (e ∷ es) =
    let rest = expired_of start es in if ltb e.expires_at start then e ∷ rest else rest

-- The loop over the times of a shard in ascending order; `acc` are the entries so far.
unfoldable pub expire_times :
    ℕ → ℕ → List ℕ → ExpiryWindow → List WinEntry → ExpiryWindow × List WinEntry
unfolding entries_of expired_of erase
expire_times start max_results [] ws acc = (ws, acc)
expire_times start max_results (t ∷ ts) ws acc =
    let es = entries_of ws t in
    let found = expired_of start es in
    let rest =
      expire_times start max_results ts (if length found == length es then erase ws t else ws)
        (acc ++ found) in
    if ltb start t || ltb max_results (length acc) then (ws, acc) else rest

-- The loop over the shards, `n` of them from `i` on. `none` is the panic where there are not so many.
unfoldable pub expire_shards :
    ℕ → ℕ → ℕ → ℕ → List ExpiryWindow → List WinEntry → Option (List ExpiryWindow × List WinEntry)
unfolding expire_times sort_indexes keys
expire_shards start max_results zero i expiry acc = some (expiry, acc)
expire_shards start max_results (suc n) i expiry acc = get_elem? expiry i >>= λ ws.
    let shard = expire_times start max_results (sort_indexes (keys ws)) ws acc in
    expire_shards start max_results n (i + 1) (set expiry i shard.0) shard.1

-- `now` is the clock, in seconds.
unfoldable pub get_expired_entries :
    ExpiryWindowBucket → ℕ → ℕ → Option (ExpiryWindowBucket × List WinEntry)
unfolding expire_shards
get_expired_entries wb now max_results =
    let start = now % 2 ^ 32 in
    if not wb.background_key_expiry || ltb start wb.earliest_expiry_hash
    then some (wb, [])
    else (expire_shards start max_results wb.max_exp_durations 0 wb.expiry [] >>= λ result.
        some (record wb { expiry = result.0; earliest_expiry_hash = 0 }, result.1))
