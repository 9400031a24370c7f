-- ===== src/Topic/Parsing.antt =====
-- message/topic.go: the parts of a static topic.
use unitdb.Prelude.{
  ℕ, suc, ◌%◌, ◌^◌, ◌≡◌, ◌≢◌, ◌<◌, ◌⊎◌, refl, sym, ap, ◌∙◌, inl, inr, false, some, List, [], ◌∷◌,
  ◌++◌, ◌==◌, if◌then◌else◌, ◌>>=◌, length, append-nil, ==_refl, All, Bool-cases,
}
use unitdb.Hash.Text.{with_salt}
use unitdb.Hash.Text.Shuffled.{with_salt_total}
use unitdb.Topic.{
  Topic, Part, topic_separator, topic_static, hash_parts, parse_options, parse_static_topic,
}
use unitdb.Topic.Fields.{emit, split, fields_func, trim_right}

-- A field is a text that is not empty, without the separator.
abbrev pub IsField : ℕ → List ℕ → Type 0
IsField sep w = (w ≢ []) × All (λ c. (c == sep) ≡ false) w

-- The fields with a separator between them.
unfoldable pub join : ℕ → List (List ℕ) → List ℕ
join sep [] = []
join sep (w ∷ []) = w
join sep (w ∷ v ∷ ws) = w ++ (sep ∷ join sep (v ∷ ws))

split-word :
    (sep : ℕ) (w rest : List ℕ)
    → All (λ c. (c == sep) ≡ false) w
    → split sep (w ++ rest) ≡ (w ++ (split sep rest).0, (split sep rest).1)
unfolding split
split-word sep [] rest h = refl
split-word sep (c ∷ w) rest h = rw (split-word sep w rest h.1, h.0) refl

emit-field : (w : List ℕ) (ws : List (List ℕ)) → w ≢ [] → emit w ws ≡ w ∷ ws
unfolding emit
emit-field [] ws h = absurd (h refl)
emit-field (c ∷ w) ws h = refl

split-join :
    (sep : ℕ) (w : List ℕ) (ws : List (List ℕ))
    → All (IsField sep) (w ∷ ws)
    → split sep (join sep (w ∷ ws)) ≡ (w, ws)
unfolding split join
split-join sep w [] h =
    ap (split sep) (sym (append-nil w))
    ∙ split-word sep w [] h.0.1
    ∙ ap (λ l. (l, [])) (append-nil w)
split-join sep w (v ∷ ws) h =
    split-word sep w (sep ∷ join sep (v ∷ ws)) h.0.1
    ∙ rw (split-join sep v ws h.1, ==_refl sep, append-nil w, emit-field v ws h.1.0.0) refl

pub fields_func-join :
    (sep : ℕ) (ws : List (List ℕ)) → All (IsField sep) ws → fields_func sep (join sep ws) ≡ ws
unfolding fields_func split join emit
fields_func-join sep [] h = refl
fields_func-join sep (w ∷ ws) h = rw (split-join sep w ws h) (emit-field w ws h.0.0)

-- The parts are the salted hashes of the fields, without wildcards.
abbrev pub Hashed : ℕ → List (List ℕ) → List Part → Type 0
Hashed contract [] [] = Unit
Hashed contract [] (p ∷ ps) = ⊥
Hashed contract (w ∷ ws) [] = ⊥
Hashed contract (w ∷ ws) (p ∷ ps) =
    (with_salt w contract ≡ some p.hash)
    × (p.wildchars ≡ 0)
    × (p.hash < 2 ^ 32)
    × Hashed contract ws ps

pub hash_parts_total :
    (contract : ℕ) (ws : List (List ℕ))
    → (ps : List Part) × (hash_parts contract ws ≡ some ps) × Hashed contract ws ps
unfolding hash_parts
hash_parts_total contract [] = ([], refl, tt)
hash_parts_total contract (w ∷ ws) =
    let (h, e, lt) = with_salt_total w contract in
    let r = hash_parts_total contract ws in
    (record { hash = h; wildchars = 0 } ∷ r.0, rw (e, ◌>>=◌, r.1) refl, (e, refl, lt, r.2))

pub length-Hashed :
    (contract : ℕ) (ws : List (List ℕ)) (ps : List Part)
    → Hashed contract ws ps
    → length ps ≡ length ws
length-Hashed contract [] [] h = refl
length-Hashed contract [] (p ∷ ps) h = elim h [ ]
length-Hashed contract (w ∷ ws) [] h = elim h [ ]
length-Hashed contract (w ∷ ws) (p ∷ ps) h = ap suc (length-Hashed contract ws ps h.3)

-- A topic that is made of fields, with a separator between them, is parsed without a panic into the
-- salted hashes of its fields, in order and with no wildcards; its depth is their number, modulo 256.
pub parse_static_topic-join :
    (contract : ℕ) (t : Topic) (ws : List (List ℕ))
    → All (IsField topic_separator) ws
    → (ps : List Part) × (parse_static_topic contract (record t { text = join topic_separator ws })
        ≡ some
            (record (parse_options (record t { text = join topic_separator ws }) t.topic_options) {
              parts = ps;
              depth = length ws % 2 ^ 8;
              topic_type = topic_static;
            }))
      × Hashed contract ws ps
unfolding parse_static_topic
parse_static_topic-join contract t ws h =
    let (ps, e, hashed) = hash_parts_total contract ws in
    (
      ps,
      rw (fields_func-join topic_separator ws h, e, ◌>>=◌, length-Hashed contract ws ps hashed)
          refl,
      hashed,
    )

List-cases : (xs : List ℕ) → (xs ≡ []) ⊎ ((c : ℕ) × (cs : List ℕ) × (xs ≡ c ∷ cs))
List-cases [] = inl refl
List-cases (c ∷ cs) = inr (c, cs, refl)

split-trim_right : (sep : ℕ) (text : List ℕ) → split sep (trim_right sep text) ≡ split sep text
unfolding split trim_right emit
split-trim_right sep [] = refl
split-trim_right sep (c ∷ cs) = elim (List-cases (trim_right sep cs)) [
  | inl e ↦
      let same : split sep cs ≡ ([], []) = sym (split-trim_right sep cs) ∙ ap (split sep) e in
      elim (Bool-cases (c == sep)) [
        | inl b ↦ rw (e, b, same) refl
        | inr b ↦ rw (e, b, split, b, same) refl
      ]
  | inr (d, ds, e) ↦
      let same : split sep (d ∷ ds) ≡ split sep cs =
        ap (split sep) (sym e) ∙ split-trim_right sep cs in
      rw e (
        ap (λ (r : List ℕ × List (List ℕ)). if c == sep then ([], emit r.0 r.1) else (c ∷ r.0, r.1))
          same)
]

-- Separators behind the text make no difference.
pub fields_func-trim_right :
    (sep : ℕ) (text : List ℕ) → fields_func sep (trim_right sep text) ≡ fields_func sep text
unfolding fields_func
fields_func-trim_right sep text = ap (λ r. emit r.0 r.1) (split-trim_right sep text)
