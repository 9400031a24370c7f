-- ===== src/Topic/Fields.antt =====
-- message/topic.go: `bytes.FieldsFunc` at a separator, `bytes.HasSuffix` and `bytes.TrimRight`, and
-- `strconv.ParseInt`, as the topics use them. Texts are lists of bytes.
use unitdb.Prelude.{
  ℕ, ◌+◌, ◌-◌, ◌*◌, ◌^◌, Bool, true, false, ◌&&◌, Option, none, some, List, [], ◌∷◌, ◌==◌, leb,
  if◌then◌else◌, ◌>>=◌, ◌>>◌, guard, sub64,
}

unfoldable pub same_text : List ℕ → List ℕ → Bool
same_text [] [] = true
same_text [] (d ∷ ds) = false
same_text (c ∷ cs) [] = false
same_text (c ∷ cs) (d ∷ ds) = (c == d) && same_text cs ds

-- A run of separators makes no empty field.
unfoldable pub emit : List ℕ → List (List ℕ) → List (List ℕ)
emit [] fs = fs
emit (c ∷ cs) fs = (c ∷ cs) ∷ fs

-- The text up to the first separator, and the fields behind it.
unfoldable pub split : ℕ → List ℕ → List ℕ × List (List ℕ)
unfolding emit
split sep [] = ([], [])
split sep (c ∷ cs) =
    let (first, fs) = split sep cs in if c == sep then ([], emit first fs) else (c ∷ first, fs)

unfoldable pub fields_func : ℕ → List ℕ → List (List ℕ)
unfolding split emit
fields_func sep text = emit (split sep text).0 (split sep text).1

unfoldable pub has_suffix : List ℕ → List ℕ → Bool
unfolding same_text
has_suffix [] q = same_text [] q
has_suffix (c ∷ cs) q = let rest = has_suffix cs q in if same_text (c ∷ cs) q then true else rest

unfoldable pub trim_right : ℕ → List ℕ → List ℕ
trim_right cut [] = []
trim_right cut (c ∷ cs) = elim (trim_right cut cs) [
  | [] ↦ if c == cut then [] else c ∷ []
  | d ∷ ds ↦ c ∷ d ∷ ds
]

unfoldable pub digits : ℕ → List ℕ → Option ℕ
digits acc [] = some acc
digits acc (c ∷ cs) =
    let rest = digits (acc * 10 + (c - b'0')) cs in if leb b'0' c && leb c b'9' then rest else none

-- At least one digit.
unfoldable pub unsigned : List ℕ → Option ℕ
unfolding digits
unsigned [] = none
unsigned (c ∷ cs) = digits 0 (c ∷ cs)

-- The bit pattern of an int64, and `none` where the number is out of range.
unfoldable pub negative : ℕ → Option ℕ
negative n = guard (leb n (2 ^ 63)) >> some (sub64 0 n)

unfoldable pub positive : ℕ → Option ℕ
positive n = guard (leb n (2 ^ 63 - 1)) >> some n

-- `none` is the error on a text that is no decimal number, or one out of range.
unfoldable pub parse_int : List ℕ → Option ℕ
unfolding unsigned negative positive
parse_int [] = none
parse_int (c ∷ cs) =
    if c == b'-'
    then (unsigned cs >>= negative)
    else if c == b'+'
    then (unsigned cs >>= positive)
    else (unsigned (c ∷ cs) >>= positive)
