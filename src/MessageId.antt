-- ===== src/MessageId.antt =====
-- message/id.go and the clock part of uid/uid.go: the identifier of a message. `now` is the clock
-- in seconds.
use unitdb.Prelude.{
  ℕ, ◌+◌, ◌-◌, ◌%◌, ◌^◌, ◌<◌, ◌≤◌, ◌≡◌, refl, ap, Bool, true, false, ◌&&◌, ◌||◌, not, Option, some,
  List, ◌++◌, ltb, leb, ◌==◌, if◌then◌else◌, ◌>>=◌, ◌>>◌, guard, length, take, replicate, put_uint,
  uint, overwrite, slice, arith,
}

abbrev pub epoch_offset : ℕ
epoch_offset = 1555770000

abbrev pub master_contract : ℕ
master_contract = 3376684800

abbrev pub fixed : ℕ
fixed = 16

abbrev pub max_uint32 : ℕ
max_uint32 = 2 ^ 32 - 1

-- `uint32(time.Now().Unix() - Offset)`, taken from the largest uint32.
unfoldable pub new_apoch : ℕ → ℕ
new_apoch now = max_uint32 - (now + 2 ^ 64 - epoch_offset) % 2 ^ 32

unfoldable pub time : List ℕ → ℕ
unfolding uint
time d = (max_uint32 - uint (take 4 d)) + epoch_offset

unfoldable pub new_id : ℕ → ℕ → List ℕ
unfolding new_apoch put_uint
new_id now seq = put_uint 4 (new_apoch now) ++ (put_uint 4 master_contract ++ put_uint 8 seq)

-- `none` is the panic on an identifier that is too short.
unfoldable pub sequence : List ℕ → Option ℕ
unfolding uint
sequence id = do guard (leb 16 (length id)); some (uint (slice 8 8 id))

unfoldable pub set_contract : List ℕ → ℕ → List ℕ
unfolding overwrite put_uint
set_contract id contract =
    overwrite (overwrite (replicate fixed 0) 0 (take fixed id)) 4 (put_uint 4 contract)

unfoldable pub prefix : List ℕ → Option (List ℕ)
unfolding overwrite
prefix id = do guard (leb 8 (length id)); some (overwrite (replicate 8 0) 0 (take 8 id))

-- `cutoff` is an int64; it counts where it is positive.
unfoldable pub eval_prefix : List ℕ → ℕ → ℕ → Option Bool
unfolding time uint
eval_prefix id contract cutoff = do
  guard (leb 8 (length id))
  some (
      if ltb 0 cutoff && ltb cutoff (2 ^ 63)
      then leb cutoff (time (slice 0 4 id)) && (uint (slice 4 4 id) == contract)
      else (uint (slice 4 4 id) == contract))

-- The identifier as the program sets it up.
abbrev made : ℕ → ℕ → ℕ → List ℕ
made now seq contract = put_uint 4 (new_apoch now) ++ (put_uint 4 contract ++ put_uint 8 seq)

set_contract-new_id :
    (now seq contract : ℕ) → set_contract (new_id now seq) contract ≡ made now seq contract
unfolding set_contract new_id put_uint overwrite
set_contract-new_id now seq contract = refl

sequence-made : (now seq contract : ℕ) → seq < 2 ^ 64 → sequence (made now seq contract) ≡ some seq
unfolding sequence put_uint uint
sequence-made now seq contract h = ap some (omega arith)

time-made :
    (now seq contract : ℕ)
    → epoch_offset ≤ now
    → now < epoch_offset + 2 ^ 32
    → time (slice 0 4 (made now seq contract)) ≡ now
unfolding time put_uint uint new_apoch
time-made now seq contract lo hi = omega arith

contract-made :
    (now seq contract : ℕ) → contract < 2 ^ 32 → uint (slice 4 4 (made now seq contract)) ≡ contract
unfolding put_uint uint
contract-made now seq contract h = omega arith

if_bool : (b x y : Bool) → (if b then x && y else y) ≡ (y && (not b || x))
if_bool true true y = ground arith
if_bool true false y = ground arith
if_bool false x y = ground arith

eval_prefix_of :
    (id : List ℕ) (now contract other cutoff : ℕ)
    → leb 8 (length id) ≡ true
    → time (slice 0 4 id) ≡ now
    → uint (slice 4 4 id) ≡ contract
    → eval_prefix id other cutoff
      ≡ some ((contract == other) && (not (ltb 0 cutoff && ltb cutoff (2 ^ 63)) || leb cutoff now))
unfolding eval_prefix
eval_prefix_of id now contract other cutoff long ht hc =
    rw (long, ◌>>=◌, ht, hc)
      (ap some (if_bool (ltb 0 cutoff && ltb cutoff (2 ^ 63)) (leb cutoff now) (contract == other)))

-- An identifier that is made within 2 ^ 32 seconds of the epoch, and given a contract, has its
-- sequence. Its prefix matches the contract, and no other; where a positive cutoff is asked for,
-- it matches if the identifier was made at the cutoff or later.
pub eval_prefix-new_id :
    (now seq contract other cutoff : ℕ)
    → epoch_offset ≤ now
    → now < epoch_offset + 2 ^ 32
    → seq < 2 ^ 64
    → contract < 2 ^ 32
    → (sequence (set_contract (new_id now seq) contract) ≡ some seq)
      × (eval_prefix (set_contract (new_id now seq) contract) other cutoff
          ≡ some (
              (contract == other) && (not (ltb 0 cutoff && ltb cutoff (2 ^ 63)) || leb cutoff now)))
unfolding put_uint
eval_prefix-new_id now seq contract other cutoff lo hi hs hc =
    rw (set_contract-new_id now seq contract) (
      sequence-made now seq contract hs,
      eval_prefix_of (made now seq contract) now contract other cutoff refl
          (time-made now seq contract lo hi) (contract-made now seq contract hc),
    )
