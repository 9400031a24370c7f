-- ===== src/Topic/Stored.antt =====
-- message/topic.go: a topic that is parsed, given its contract and written is read back whole.
use unitdb.Prelude.{
  ℕ, zero, suc, ◌+◌, ◌-◌, ◌%◌, ◌^◌, ◌≡◌, ◌<◌, ◌≤◌, refl, ap, ◌∙◌, inl, inr, Bool, true, false, some,
  List, [], ◌∷◌, ◌==◌, ltb, lt→ltb, ltb→lt, if◌then◌else◌, ◌>>=◌, ◌>>◌, guard, length, take, All,
  Bool-cases, arith,
}
use unitdb.Topic.Codec.{IsPart, unmarshal-marshal}
use unitdb.Topic.Parsing.{Hashed, hash_parts_total, length-Hashed, fields_func-trim_right}
use unitdb.Topic.Scanned.{IsScan, Ends, set_wildchars-IsParts, add_part-IsParts, scan_parts-IsScan}
use unitdb.Topic.Fields.{fields_func, has_suffix, trim_right}
use unitdb.Topic.{
  Topic, Part, Scan, topic_separator, topic_generic_symbol, topic_max_depth, wildcard, parse,
  parse_static_topic, parse_wildcard_topic, scan_parts, set_wildchars, add_part, add_contract,
  parse_options, topic_static, topic_wildcard, marshal, unmarshal, finish_parts,
}

abbrev one_if : Bool → ℕ
one_if b = if b then 1 else 0

-- At most so many parts, with small hashes.
abbrev IsWithin : ℕ → List Part → Type 0
IsWithin n ps = (length ps ≤ n) × All IsPart ps

counted :
    (s : Scan) (d₀ n : ℕ)
    → IsScan d₀ n s
    → Ends (IsWithin n) (
        if ltb 0 s.wildchars
        then (guard (ltb 0 (length s.parts))
            >> set_wildchars s.parts (length s.parts - 1) s.wildchars)
        else some s.parts)
counted s d₀ n i = elim (Bool-cases (ltb 0 s.wildchars)) [
  | inl b ↦
      let some_part : 0 < length s.parts =
        ground (arith, ltb→lt 0 s.wildchars b, i.some_part, i.unseen) in
      let (ps, e, (len, small)) =
        set_wildchars-IsParts s.parts (length s.parts - 1) s.wildchars (omega arith) i.small in
      (
        ps,
        rw (b, lt→ltb 0 (length s.parts) some_part, ◌>>=◌, e) refl,
        (omega (arith, i.few), small),
      )
  | inr b ↦ (s.parts, rw b refl, (i.few, i.small))
]

finish_parts-IsWithin :
    (s : Scan) (d₀ n : ℕ) (deepest : Bool)
    → IsScan d₀ n s
    → Ends (IsWithin (n + one_if deepest)) (finish_parts s deepest)
unfolding finish_parts
finish_parts-IsWithin s d₀ n true i =
    let (ps, e, (few, small)) = counted s d₀ n i in
    let (len, small') = add_part-IsParts ps wildcard (omega arith) small in
    (add_part ps wildcard, rw (e, ◌>>=◌) refl, (omega arith, small'))
finish_parts-IsWithin s d₀ n false i =
    let (ps, e, (few, small)) = counted s d₀ n i in (ps, rw (e, ◌>>=◌) refl, (omega arith, small))

-- No more parts than the depth says.
abbrev IsParsed : Topic → Type 0
IsParsed t = IsWithin t.depth t.parts

start : ℕ → Scan
start d₀ = record { parts = []; depth = d₀; wildchars = 0; wildcharcount = 0; starred = false }

-- The loop and what follows it.
scanned :
    (contract d₀ : ℕ) (ws : List (List ℕ)) (deepest : Bool)
    → d₀ + length ws < 2 ^ 8
    → one_if deepest ≤ d₀
    → (s : Scan) × (scan_parts contract 0 ws (start d₀) ≡ some s)
      × (ps : List Part) × (finish_parts s deepest ≡ some ps)
      × IsWithin s.depth ps
unfolding start
scanned contract d₀ ws deepest shallow deep =
    let (s, e, i) = scan_parts-IsScan contract d₀ 0 ws (start d₀) (record {
      small = tt;
      few = omega arith;
      enough = omega arith;
      some_part = inl refl;
      unseen = inr refl;
      deep = omega arith;
    }) in
    let (ps, e', (few, small)) = finish_parts-IsWithin s d₀ (0 + length ws) deepest i in
    (s, e, ps, e', (omega (arith, i.deep), small))

parse_wildcard_topic-IsParsed :
    (contract : ℕ) (t : Topic)
    → length (fields_func topic_separator t.text) < 255
    → (t.depth == topic_max_depth) ≡ false
    → Ends IsParsed (parse_wildcard_topic contract t)
unfolding parse_wildcard_topic start
parse_wildcard_topic-IsParsed contract t few new =
    elim (Bool-cases (has_suffix t.text topic_generic_symbol)) [
      | inl b ↦
          let ws = fields_func topic_separator (trim_right topic_separator t.text) in
          let same : length ws ≡ length (fields_func topic_separator t.text) =
            ap length (fields_func-trim_right topic_separator t.text) in
          let (s, e, ps, e', within) = scanned contract 1 ws true (omega arith) (omega arith) in
          (
            record (parse_options t t.topic_options) {
              text = trim_right topic_separator t.text;
              parts = ps;
              depth = s.depth;
              topic_type = topic_wildcard;
            },
            rw (b, e, ◌>>=◌, e') refl,
            within,
          )
      | inr b ↦
          let ws = fields_func topic_separator t.text in
          let (s, e, ps, e', within) = scanned contract 0 ws false (omega arith) (omega arith) in
          (
            record (parse_options t t.topic_options) {
              parts = ps;
              depth = s.depth;
              topic_type =
                  if s.starred
                  then topic_wildcard
                  else if t.topic_type == topic_wildcard
                  then topic_wildcard
                  else topic_static;
            },
            rw (b, e, ◌>>=◌, new, e') refl,
            within,
          )
    ]

Hashed-small :
    (contract : ℕ) (ws : List (List ℕ)) (ps : List Part) → Hashed contract ws ps → All IsPart ps
Hashed-small contract [] [] h = tt
Hashed-small contract [] (p ∷ ps) h = elim h [ ]
Hashed-small contract (w ∷ ws) [] h = elim h [ ]
Hashed-small contract (w ∷ ws) (p ∷ ps) h = (h.2, Hashed-small contract ws ps h.3)

parse_static_topic-IsParsed :
    (contract : ℕ) (t : Topic)
    → length (fields_func topic_separator t.text) < 255
    → Ends IsParsed (parse_static_topic contract t)
unfolding parse_static_topic
parse_static_topic-IsParsed contract t few =
    let ws = fields_func topic_separator t.text in
    let (ps, e, hashed) = hash_parts_total contract ws in
    let len = length-Hashed contract ws ps hashed in
    (
      record (parse_options t t.topic_options) {
        parts = ps;
        depth = length ps % 2 ^ 8;
        topic_type = topic_static;
      },
      rw (e, ◌>>=◌) refl,
      (omega arith, Hashed-small contract ws ps hashed),
    )

take_enough : (n : ℕ) (ps : List Part) → length ps ≤ n → take n ps ≡ ps
take_enough zero [] h = refl
take_enough zero (p ∷ ps) h = absurd (omega arith)
take_enough (suc n) [] h = refl
take_enough (suc n) (p ∷ ps) h = ap (λ l. p ∷ l) (take_enough n ps (omega arith))

-- A new topic with fewer than 255 fields is parsed without a panic, static or not; and after its contract
-- is added, it is read back from its bytes with its depth and all its parts.
pub unmarshal-parse :
    (contract : ℕ) (is_wildcard : Bool) (t s : Topic)
    → contract < 2 ^ 32
    → length (fields_func topic_separator t.text) < 255
    → (t.depth == topic_max_depth) ≡ false
    → (t' : Topic) × (parse contract is_wildcard t ≡ some t')
      × (unmarshal s (marshal (add_contract t' contract))
          ≡ some (record s {
            depth = t'.depth;
            parts = record { wildchars = 0; hash = contract } ∷ t'.parts;
          }))
unfolding parse add_contract
unmarshal-parse contract is_wildcard t s small few new =
    let (t', e, (within, parts)) = parsed is_wildcard in
    (
      t',
      e,
      unmarshal-marshal (add_contract t' contract) s (small, parts)
          ∙ ap (λ l. some (record s { depth = t'.depth; parts = l }))
              (take_enough (t'.depth + 1) (add_contract t' contract).parts (omega arith)),
    )
  where
    parsed : (b : Bool) → Ends IsParsed (parse contract b t)
    parsed true = parse_wildcard_topic-IsParsed contract t few new
    parsed false = parse_static_topic-IsParsed contract t few
