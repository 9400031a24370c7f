-- ===== src/Window/Lookup.antt =====
-- time_window.go: the lookup of a topic's entries, newest first, in the bucket and then in the file.
pub mod Newest
use unitdb.Prelude.{
  ℕ, zero, suc, ◌+◌, ◌-◌, Bool, true, false, not, ◌||◌, Option, none, some, List, [], ◌∷◌, ◌++◌,
  ltb, leb, ◌==◌, if◌then◌else◌, ◌>>=◌, ◌>>◌, guard, min, length, take,
}
use mathlib.Core.List.{reverse}
use unitdb.File.{File}
use unitdb.Window.{WinEntry, WinBlock, is_expired, cutoff}
use unitdb.Window.Writer.{read_window_block}
use unitdb.Window.Bucket.{Key, TimeWindow, WindowBlocks, get_window_block}

-- The entries so far, and those that went to the expiry window: `addExpiry` reports no error.
pub record Found : Type 0 where
  pub entries : List WinEntry
  pub expired : List WinEntry

-- The loop over entries, in the order in which it meets them.
unfoldable pub collect : ℕ → List WinEntry → Found → Found
unfolding is_expired
collect now [] s = s
collect now (e ∷ es) s = collect now es (
    if is_expired now e
    then record s { expired = s.expired ++ e ∷ [] }
    else record s { entries = s.entries ++ e ∷ [] })

-- The loop over the keys of a shard. `l` stays between 0 and `limit`.
unfoldable pub lookup_keys : ℕ → ℕ → ℕ → ℕ → TimeWindow → Found → Found
unfolding collect
lookup_keys now topic_hash limit l [] s = s
lookup_keys now topic_hash limit l ((k, es) ∷ b) s =
    let skip = lookup_keys now topic_hash limit l b s in
    let l' = min (length es) (limit - l) in
    let next = lookup_keys now topic_hash limit l' b (collect now (take l' (reverse es)) s) in
    if not (k.topic_hash == topic_hash) || (length es == 0) then skip else next

unfoldable pub ilookup : ℕ → WindowBlocks → ℕ → ℕ → Option Found
unfolding get_window_block lookup_keys
ilookup now w topic_hash limit = do
  (i, b) ← get_window_block w topic_hash
  some (lookup_keys now topic_hash limit 0 b (record { entries = []; expired = [] }))

-- The function that `lookup` calls for each block: the limit and the entries from then on, and
-- whether to stop. `none` is the panic of a slice out of range.
unfoldable pub visit : ℕ → ℕ → ℕ → WinBlock → ℕ → Found → Option (ℕ × Found × Bool)
unfolding collect cutoff
visit now topic_hash cutoff_time b limit s =
    if not (b.topic_hash == topic_hash)
    then some (limit, s, true)
    else (guard (leb b.entry_idx (length b.entries))
        >> (let newest = reverse (take b.entry_idx b.entries) in
            let all : ℕ → Found → Option (ℕ × Found × Bool) =
              λ l t. some (l, collect now newest t, cutoff b cutoff_time) in
            if ltb limit (length s.entries + b.entry_idx)
            then (let l = limit - length s.entries in
                let t = collect now (take l newest) s in
                if leb l (length t.entries) then some (l, t, true) else all l t)
            else all limit s))

-- The walk along the links, on fuel for the blocks. The inner `none` is the error of a read, at which
-- the lookup gives what it has; the outer one is a panic, or fuel that is too little.
unfoldable pub walk : ℕ → File → ℕ → ℕ → ℕ → ℕ → ℕ → Found → Option Found
unfolding read_window_block visit
walk zero f now topic_hash cutoff_time off limit s = none
walk (suc n) f now topic_hash cutoff_time off limit s = elim (read_window_block f off) [
  | none ↦ some s
  | some b ↦ visit now topic_hash cutoff_time b limit s >>= λ visited.
      if visited.2 || (b.next == 0)
      then some visited.1
      else walk n f now topic_hash cutoff_time b.next visited.0 visited.1
]

unfoldable pub lookup : ℕ → ℕ → WindowBlocks → File → ℕ → ℕ → ℕ → ℕ → Option Found
unfolding ilookup walk
lookup fuel now w f topic_hash off cutoff_time limit = do
  s ← ilookup now w topic_hash limit
  if leb limit (length s.entries)
      then some s
      else walk fuel f now topic_hash cutoff_time off limit s
