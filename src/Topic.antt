-- ===== src/Topic.antt =====
-- message/topic.go: a topic, which is parsed into the hashes of its parts and written as bytes.
pub mod Fields
pub mod Codec
pub mod Parsing
pub mod Scanned
pub mod Stored
pub mod Wildcards
pub mod Hashing
use Prim.Native.Nat.{bit_or, bit_xor}
use unitdb.Prelude.{
  ℕ, zero, suc, ◌+◌, ◌*◌, ◌-◌, ◌%◌, ◌^◌, Bool, true, false, Option, none, some, List, [], ◌∷◌, ◌++◌,
  ◌==◌, leb, ltb, ltb_int64, if◌then◌else◌, ◌>>=◌, ◌>>◌, guard, length, get_elem?, set, put_uint,
  read_uint,
}
use unitdb.Hash.Text.{with_salt}
use unitdb.Topic.Fields.{fields_func, has_suffix, trim_right, same_text, parse_int}

abbrev pub topic_invalid : ℕ
topic_invalid = 0

abbrev pub topic_static : ℕ
topic_static = 1

abbrev pub topic_wildcard : ℕ
topic_wildcard = 2

abbrev pub topic_wildcard_symbol : ℕ
topic_wildcard_symbol = b'*'

abbrev pub topic_separator : ℕ
topic_separator = b'.'

abbrev pub topic_generic_symbol : List ℕ
topic_generic_symbol = b'.' ∷ b'.' ∷ b'.' ∷ []

abbrev pub topic_max_depth : ℕ
topic_max_depth = 100

abbrev pub wildcard : ℕ
wildcard = 857445537

pub record TopicOption : Type 0 where
  pub key : List ℕ
  pub value : List ℕ

pub record Part : Type 0 where
  pub hash : ℕ
  pub wildchars : ℕ

-- `text` is the field `Topic`; nil slices are empty lists.
pub record Topic : Type 0 where
  pub text : List ℕ
  pub topic_options : List ℕ
  pub parts : List Part
  pub depth : ℕ
  pub options : List TopicOption
  pub topic_type : ℕ

unfoldable pub add_contract : Topic → ℕ → Topic
add_contract t contract = record t { parts = record { wildchars = 0; hash = contract } ∷ t.parts }

unfoldable pub xor_parts : ℕ → List Part → ℕ
xor_parts h [] = h
xor_parts h (p ∷ ps) = xor_parts (bit_xor h p.hash) ps

-- `none` is the panic on a topic without parts.
unfoldable pub get_hash_code : Topic → Option ℕ
unfolding xor_parts
get_hash_code t = elim t.parts [ [] ↦ none | p ∷ ps ↦ some (xor_parts p.hash ps) ]

unfoldable pub get_hash : Topic → ℕ → Option ℕ
unfolding xor_parts
get_hash t contract = elim t.parts [
  | [] ↦ none
  | p ∷ [] ↦ some contract
  | p ∷ q ∷ ps ↦
      some
        ((xor_parts p.hash (q ∷ ps) * 2 ^ 32 + bit_or (contract * 2 ^ 8 % 2 ^ 32) t.depth) % 2 ^ 64)
]

-- The value of the first option of a name: its text where it is no number, or the number.
unfoldable pub find_option : List TopicOption → List ℕ → List ℕ × ℕ × Bool
unfolding same_text parse_int
find_option [] name = ([], 0, false)
find_option (o ∷ os) name =
    let rest = find_option os name in
    if same_text o.key name
    then elim (parse_int o.value) [ none ↦ (o.value, 0, true) | some n ↦ ([], n, true) ]
    else rest

unfoldable pub get_option : Topic → List ℕ → List ℕ × ℕ × Bool
unfolding find_option
get_option t name = find_option t.options name

-- `expires` is the time of now and a duration, which `time` parses and adds.
unfoldable pub ttl : (List ℕ → ℕ) → Topic → ℕ × Bool
unfolding get_option
ttl expires t =
    let (text, sec, ok) = get_option t (b't' ∷ b't' ∷ b'l' ∷ []) in
    if ltb_int64 0 sec then (sec * 10 ^ 9 % 2 ^ 64 % 2 ^ 32, ok) else (expires text % 2 ^ 32, ok)

-- An option is taken where it has a key and a value.
unfoldable pub option_of : List (List ℕ) → List TopicOption
option_of (k ∷ v ∷ rest) = record { key = k; value = v } ∷ []
option_of (k ∷ []) = []
option_of [] = []

unfoldable pub options_of : List (List ℕ) → List TopicOption
unfolding option_of fields_func
options_of [] = []
options_of (o ∷ os) = option_of (fields_func b'=' o) ++ options_of os

unfoldable pub parse_options : Topic → List ℕ → Topic
unfolding options_of fields_func
parse_options t text = record t { options = t.options ++ options_of (fields_func b'&' text) }

unfoldable pub parse_key : Topic → List ℕ → Topic
unfolding fields_func
parse_key t text = elim (fields_func b'?' text) [
  | [] ↦ record t { topic_type = topic_invalid }
  | p ∷ [] ↦ record t { text = p }
  | p ∷ q ∷ rest ↦ record t { topic_options = q; text = p }
]

-- `none` is a panic of the hash, here and below.
unfoldable pub hash_parts : ℕ → List (List ℕ) → Option (List Part)
unfolding with_salt
hash_parts contract [] = some []
hash_parts contract (p ∷ ps) = do
  h ← with_salt p contract
  rest ← hash_parts contract ps
  some (record { hash = h; wildchars = 0 } ∷ rest)

unfoldable pub parse_static_topic : ℕ → Topic → Option Topic
unfolding parse_options hash_parts fields_func
parse_static_topic contract t = do
  parts ← hash_parts contract (fields_func topic_separator t.text)
  some (record (parse_options t t.topic_options) {
    parts = parts;
    depth = length parts % 2 ^ 8;
    topic_type = topic_static;
  })

-- What the loop over the parts of a wildcard topic carries. `starred` is whether it has set the type.
pub record Scan : Type 0 where
  pub parts : List Part
  pub depth : ℕ
  pub wildchars : ℕ
  pub wildcharcount : ℕ
  pub starred : Bool

unfoldable pub add_part : List Part → ℕ → List Part
add_part parts h = parts ++ record { hash = h; wildchars = 0 } ∷ []

-- `none` is the panic on an index out of range.
unfoldable pub set_wildchars : List Part → ℕ → ℕ → Option (List Part)
set_wildchars parts i n = get_elem? parts i >>= λ p. some (set parts i (record p { wildchars = n }))

-- A part that ends in a wildcard.
unfoldable pub scan_wildcard : ℕ → ℕ → List ℕ → Scan → Option Scan
unfolding with_salt add_part
scan_wildcard contract idx p s = do
  parts ←
      if idx == 0 then (with_salt p contract >>= λ h. some (add_part s.parts h)) else some s.parts
  some (record {
    parts = parts;
    depth = (s.depth + 1) % 2 ^ 8;
    wildchars = (s.wildchars + 1) % 2 ^ 8;
    wildcharcount = s.wildcharcount + 1;
    starred = true;
  })

-- The part that the wildcards in front of part `idx` are counted at.
unfoldable pub marked : ℕ → ℕ → ℕ
marked idx wildcharcount = if leb (wildcharcount + 1) idx then idx - wildcharcount - 1 else 0

-- Any other part.
unfoldable pub scan_plain : ℕ → ℕ → List ℕ → Scan → Option Scan
unfolding with_salt add_part set_wildchars marked
scan_plain contract idx p s = do
  h ← with_salt p contract
  parts ←
      if ltb 0 s.wildchars
      then set_wildchars (add_part s.parts h) (marked idx s.wildcharcount) s.wildchars
      else some (add_part s.parts h)
  some (record s { parts = parts; depth = (s.depth + 1) % 2 ^ 8; wildchars = 0 })

unfoldable pub scan_part : ℕ → ℕ → List ℕ → Scan → Option Scan
unfolding scan_wildcard scan_plain has_suffix
scan_part contract idx p s =
    if has_suffix p (topic_wildcard_symbol ∷ [])
    then scan_wildcard contract idx p s
    else scan_plain contract idx p s

unfoldable pub scan_parts : ℕ → ℕ → List (List ℕ) → Scan → Option Scan
unfolding scan_part
scan_parts contract idx [] s = some s
scan_parts contract idx (p ∷ ps) s = do
  s' ← scan_part contract idx p s
  scan_parts contract (idx + 1) ps s'

-- The parts that follow the loop, where the last parts are wildcards or the topic is generic.
unfoldable pub finish_parts : Scan → Bool → Option (List Part)
unfolding set_wildchars add_part
finish_parts s deepest = do
  parts ←
      if ltb 0 s.wildchars
      then (guard (ltb 0 (length s.parts))
          >> set_wildchars s.parts (length s.parts - 1) s.wildchars)
      else some s.parts
  some (if deepest then add_part parts wildcard else parts)

unfoldable pub parse_wildcard_topic : ℕ → Topic → Option Topic
unfolding parse_options fields_func has_suffix trim_right scan_parts finish_parts
parse_wildcard_topic contract t =
    let generic = has_suffix t.text topic_generic_symbol in
    let text = if generic then trim_right topic_separator t.text else t.text in
    do
      s ← scan_parts contract 0 (fields_func topic_separator text) (record {
        parts = [];
        depth = if generic then 1 else 0;
        wildchars = 0;
        wildcharcount = 0;
        starred = false;
      })
      parts ← finish_parts s (if generic then true else t.depth == topic_max_depth)
      some (record (parse_options t t.topic_options) {
        text = text;
        parts = parts;
        depth = s.depth;
        topic_type =
            if generic
            then topic_wildcard
            else if s.starred
            then topic_wildcard
            else if t.topic_type == topic_wildcard
            then topic_wildcard
            else topic_static;
      })

unfoldable pub parse : ℕ → Bool → Topic → Option Topic
unfolding parse_wildcard_topic parse_static_topic
parse contract is_wildcard t =
    if is_wildcard then parse_wildcard_topic contract t else parse_static_topic contract t

unfoldable pub marshal_parts : List Part → List ℕ
unfolding put_uint
marshal_parts [] = []
marshal_parts (p ∷ ps) = p.wildchars ∷ (put_uint 4 p.hash ++ marshal_parts ps)

unfoldable pub marshal : Topic → List ℕ
unfolding marshal_parts
marshal t = t.depth ∷ marshal_parts t.parts

-- At most so many parts, until the bytes end; `none` is the panic on a part that is cut off.
unfoldable pub unmarshal_parts : ℕ → List ℕ → Option (List Part)
unfolding read_uint
unmarshal_parts zero buf = some []
unmarshal_parts (suc n) [] = some []
unmarshal_parts (suc n) (w ∷ buf) = do
  (h, buf') ← read_uint 4 buf
  ps ← unmarshal_parts n buf'
  some (record { hash = h; wildchars = w } ∷ ps)

-- `none` is the panic on bytes without a depth.
unfoldable pub unmarshal : Topic → List ℕ → Option Topic
unfolding unmarshal_parts
unmarshal t [] = none
unmarshal t (depth ∷ buf) = do
  parts ← unmarshal_parts (depth + 1) buf
  some (record t { depth = depth; parts = parts })
