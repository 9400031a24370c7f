-- ===== src/Topic/Wildcards.antt =====
-- message/topic.go: a wildcard topic without wildcards is parsed as a static one.
use unitdb.Prelude.{
  ℕ, suc, ◌+◌, ◌%◌, ◌^◌, ◌≡◌, ◌<◌, refl, sym, ap, ◌∙◌, false, some, List, [], ◌∷◌, ◌++◌,
  append_assoc, append-nil, ◌==◌, ◌>>=◌, length, All, arith,
}
use unitdb.Hash.Text.{with_salt}
use unitdb.Topic.Parsing.{Hashed, hash_parts_total, length-Hashed}
use unitdb.Topic.Fields.{fields_func, has_suffix}
use unitdb.Topic.{
  Topic, Part, Scan, topic_separator, topic_static, topic_wildcard, topic_wildcard_symbol,
  topic_generic_symbol, topic_max_depth, parse_static_topic, parse_wildcard_topic, scan_part,
  scan_parts, scan_plain, add_part, finish_parts, parse_options,
}

-- A field that does not end in a wildcard.
abbrev pub IsPlain : List ℕ → Type 0
IsPlain w = has_suffix w (topic_wildcard_symbol ∷ []) ≡ false

scan_part-IsPlain :
    (contract idx h : ℕ) (w : List ℕ) (s : Scan)
    → IsPlain w
    → s.wildchars ≡ 0
    → with_salt w contract ≡ some h
    → scan_part contract idx w s
      ≡ some (record s { parts = add_part s.parts h; depth = (s.depth + 1) % 2 ^ 8; wildchars = 0 })
unfolding scan_part scan_plain
scan_part-IsPlain contract idx h w s plain none_seen e = rw (plain, e, ◌>>=◌, none_seen) refl

-- The state of the loop after plain fields.
abbrev added : Scan → List Part → ℕ → Scan
added s parts n = record s { parts = parts; depth = (s.depth + n) % 2 ^ 8; wildchars = 0 }

added_nil : (s : Scan) → s.wildchars ≡ 0 → s.depth < 2 ^ 8 → s ≡ added s (s.parts ++ []) 0
added_nil s zeros small =
    ap (λ l. record s { parts = l }) (sym (append-nil s.parts))
    ∙ ap (λ d. record s { parts = s.parts ++ []; depth = d }) {y = (s.depth + 0) % 2 ^ 8}
        (omega arith)
    ∙ ap (λ n. record s { parts = s.parts ++ []; depth = (s.depth + 0) % 2 ^ 8; wildchars = n })
        zeros

added_cons :
    (s : Scan) (p : Part) (ps : List Part) (n : ℕ)
    → p.wildchars ≡ 0
    → added (added s (add_part s.parts p.hash) 1) (add_part s.parts p.hash ++ ps) n
      ≡ added s (s.parts ++ (p ∷ ps)) (suc n)
unfolding add_part
added_cons s p ps n zeros =
    ap (λ l. added (added s (add_part s.parts p.hash) 1) l n)
      (append_assoc s.parts (record { hash = p.hash; wildchars = 0 } ∷ []) ps
        ∙ ap (λ k. s.parts ++ (record { hash = p.hash; wildchars = k } ∷ ps)) (sym zeros))
    ∙ ap (λ d. record s { parts = s.parts ++ (p ∷ ps); depth = d; wildchars = 0 })
        {x = ((s.depth + 1) % 2 ^ 8 + n) % 2 ^ 8} (omega arith)

-- The loop adds the hashes of plain fields to the parts.
scan_parts-IsPlain :
    (contract idx : ℕ) (ws : List (List ℕ)) (ps : List Part) (s : Scan)
    → All IsPlain ws
    → s.wildchars ≡ 0
    → s.depth < 2 ^ 8
    → Hashed contract ws ps
    → scan_parts contract idx ws s ≡ some (added s (s.parts ++ ps) (length ws))
unfolding scan_parts
scan_parts-IsPlain contract idx [] [] s plain zeros small hs = ap some (added_nil s zeros small)
scan_parts-IsPlain contract idx [] (p ∷ ps) s plain zeros small hs = elim hs [ ]
scan_parts-IsPlain contract idx (w ∷ ws) [] s plain zeros small hs = elim hs [ ]
scan_parts-IsPlain contract idx (w ∷ ws) (p ∷ ps) s plain zeros small hs =
    let next = added s (add_part s.parts p.hash) 1 in
    rw (scan_parts, scan_part-IsPlain contract idx p.hash w s plain.0 zeros hs.0, ◌>>=◌)
      (scan_parts-IsPlain contract (idx + 1) ws ps next plain.1 refl (omega arith) hs.3
        ∙ ap some (added_cons s p ps (length ws) hs.1))

-- A topic with no wildcards in it is parsed as a wildcard topic into the same as if it is parsed as a
-- static one: neither the end of the text nor the end of a field is a wildcard. The topic is new: it
-- has neither the depth nor the type that a wildcard topic has.
pub parse_wildcard_topic-static :
    (contract : ℕ) (t : Topic)
    → has_suffix t.text topic_generic_symbol ≡ false
    → All IsPlain (fields_func topic_separator t.text)
    → (t.depth == topic_max_depth) ≡ false
    → (t.topic_type == topic_wildcard) ≡ false
    → parse_wildcard_topic contract t ≡ parse_static_topic contract t
unfolding parse_wildcard_topic parse_static_topic finish_parts
parse_wildcard_topic-static contract t specific plain shallow static =
    let ws = fields_func topic_separator t.text in
    let (ps, e, hs) = hash_parts_total contract ws in
    let s : Scan = record {
      parts = [];
      depth = 0;
      wildchars = 0;
      wildcharcount = 0;
      starred = false;
    } in
    rw
      (
        specific,
        scan_parts-IsPlain contract 0 ws ps s plain refl (omega arith) hs,
        ◌>>=◌,
        e,
        shallow,
        static,
        length-Hashed contract ws ps hs,
      )
      (ap
        (λ d. some (record (parse_options t t.topic_options) {
          parts = ps;
          depth = d;
          topic_type = topic_static;
        }))
        {x = (0 + length ws) % 2 ^ 8} (omega arith))
