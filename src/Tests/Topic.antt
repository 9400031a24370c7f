-- ===== src/Tests/Topic.antt =====
-- message/topic.go and hash/hash.go: topics that are parsed, hashed and written.
use mathlib.Core.Option.{map}
use unitdb.Prelude.{ℕ, ◌≡◌, ◌≢◌, refl, true, Option, some, List, [], ◌∷◌, length, arith}
use unitdb.Hash.Text.{init, mix_rest, new, shuffle_in_place, with_salt}
use unitdb.Hash.Text.Mixed.{new-mix_rest}
use unitdb.Hash.Text.Shuffled.{count, shuffle-count}
use unitdb.Topic.{
  Topic, Part, topic_separator, topic_static, wildcard, add_contract, parse, parse_key,
  parse_options, parse_static_topic, parse_wildcard_topic, marshal, unmarshal, get_hash, ttl,
}
use unitdb.Topic.Fields.{fields_func, has_suffix}
use unitdb.Topic.Hashing.{get_hash-swap}
use unitdb.Topic.Parsing.{Hashed, join, parse_static_topic-join}
use unitdb.Topic.Stored.{unmarshal-parse}
use unitdb.Topic.Wildcards.{parse_wildcard_topic-static}

abbrev blank : List ℕ → Topic
blank text = record {
  text = text;
  topic_options = [];
  parts = [];
  depth = 0;
  options = [];
  topic_type = 0;
}

-- "ab.c"
abbrev two_parts : List ℕ
two_parts = b'a' ∷ b'b' ∷ b'.' ∷ b'c' ∷ []

parts_of : Option Topic → Option (List Part)
parts_of = map (λ t. t.parts)

-- A star in front moves the count of the stars behind it: "*.a.*.b" and "*.a.b" have the same parts.
leading_wildcard :
    parts_of (parse 7 true (blank (b'*' ∷ b'.' ∷ b'a' ∷ b'.' ∷ b'*' ∷ b'.' ∷ b'b' ∷ [])))
    ≡ parts_of (parse 7 true (blank (b'*' ∷ b'.' ∷ b'a' ∷ b'.' ∷ b'b' ∷ [])))
unfolding parse parts_of
leading_wildcard = refl

-- The hash of "*" is the constant `Wildcard`.
with_salt_star : with_salt (b'*' ∷ []) 99 ≡ some wildcard
unfolding with_salt
with_salt_star = refl

-- "a?ttl=5" has five seconds to live, in nanoseconds, as 32 bits.
ttl_five :
    ttl
      (λ d. 0)
      (parse_options
        (parse_key (blank []) (b'a' ∷ b'?' ∷ []))
        (b't' ∷ b't' ∷ b'l' ∷ b'=' ∷ b'5' ∷ []))
    ≡ (705032704, true)
unfolding ttl parse_options parse_key
ttl_five = refl

new-mix_rest_example :
    new (1 ∷ 2 ∷ 3 ∷ 4 ∷ 5 ∷ 6 ∷ 7 ∷ 8 ∷ 9 ∷ [])
    ≡ some (mix_rest init (1 ∷ 2 ∷ 3 ∷ 4 ∷ 5 ∷ 6 ∷ 7 ∷ 8 ∷ 9 ∷ []))
new-mix_rest_example = new-mix_rest (1 ∷ 2 ∷ 3 ∷ 4 ∷ 5 ∷ 6 ∷ 7 ∷ 8 ∷ 9 ∷ [])

shuffle-count_example :
    (result : List ℕ) × (shuffle_in_place (1 ∷ 2 ∷ 3 ∷ []) 7 ≡ some result)
    × (length result ≡ 3)
    × (count 2 result ≡ count 2 (1 ∷ 2 ∷ 3 ∷ []))
shuffle-count_example = shuffle-count 2 (1 ∷ 2 ∷ 3 ∷ []) 7

abbrev part : ℕ → Part
part h = record { hash = h; wildchars = 0 }

get_hash-swap_example :
    get_hash (record (blank two_parts) { parts = part 7 ∷ part 5 ∷ part 6 ∷ [] }) 7
    ≡ get_hash (record (blank two_parts) { parts = part 7 ∷ part 6 ∷ part 5 ∷ [] }) 7
get_hash-swap_example =
    get_hash-swap (blank two_parts) (part 7 ∷ []) [] (part 5) (part 6) 7 (omega arith, tt)
      (omega arith) (omega arith)

abbrev words : List (List ℕ)
words = (b'a' ∷ b'b' ∷ []) ∷ (b'c' ∷ []) ∷ []

nonempty : (c : ℕ) (cs : List ℕ) → (c ∷ cs) ≢ []
nonempty c cs e = cc

parse_static_topic-join_example :
    (ps : List Part) × (parse_static_topic 7
        (record (blank []) { text = join topic_separator words })
      ≡ some (record (parse_options (record (blank []) { text = join topic_separator words }) []) {
        parts = ps;
        depth = 2;
        topic_type = topic_static;
      }))
    × Hashed 7 words ps
parse_static_topic-join_example =
    parse_static_topic-join 7 (blank []) words
      ((nonempty b'a' (b'b' ∷ []), (refl, (refl, tt))), ((nonempty b'c' [], (refl, tt)), tt))

parse_wildcard_topic-static_example :
    parse_wildcard_topic 7 (blank two_parts) ≡ parse_static_topic 7 (blank two_parts)
unfolding has_suffix fields_func
parse_wildcard_topic-static_example =
    parse_wildcard_topic-static 7 (blank two_parts) refl (refl, (refl, tt)) refl refl

-- "a.*.b..."
abbrev generic : Topic
generic = blank (b'a' ∷ b'.' ∷ b'*' ∷ b'.' ∷ b'b' ∷ b'.' ∷ b'.' ∷ b'.' ∷ [])

unmarshal-parse_example :
    (t' : Topic) × (parse 7 true generic ≡ some t')
    × (unmarshal (blank []) (marshal (add_contract t' 7))
        ≡ some (record (blank []) { depth = t'.depth; parts = part 7 ∷ t'.parts }))
unfolding fields_func
unmarshal-parse_example = unmarshal-parse 7 true generic (blank []) (omega arith) (omega arith) refl
