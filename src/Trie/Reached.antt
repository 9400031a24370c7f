-- ===== src/Trie/Reached.antt =====
-- trie.go: which nodes a lookup reaches, and that it collects their topics.
use unitdb.Prelude.{
  ℕ, ◌≡◌, refl, ap, sym, ◌∙◌, ◌⊎◌, inl, inr, ◌↔◌, Bool, true, false, ◌&&◌, ◌||◌, none, some, List,
  [], ◌∷◌, ◌==◌, ◌≢◌, ◌+◌, ◌%◌, ◌≤◌, ◌<◌, leb, length, drop, if◌then◌else◌, Bool-cases,
  Option-cases, arith,
}
use native.Mathlib.Decide.{ℕ_discrete}
use unitdb.Trie.{
  Topic, add_unique, add_topics, Part, Node, node, Nodes, nil, cons, part, next_query, selected,
  topics, wildcard, topic_static, ilookup, ilookup_children, lookup, TopicTrie,
}

-- A topic of hash `h` is in the list.
unfoldable pub has : ℕ → List Topic → Bool
has h [] = false
has h (t ∷ ts) = (t.hash == h) || has h ts

pub data ChildOf (n : Node) : Nodes → Type 0 where
  first : {ns : Nodes} → ChildOf n (cons n ns)
  next : {m : Node} {ns : Nodes} → ChildOf n ns → ChildOf n (cons m ns)

-- What is left of the query `q ∷ qs` behind a child of part `p`: the child has the query's part; or
-- it has its hash and stands for more parts, which the query has; or it is a wildcard that fits in
-- neither of these ways, and takes no part of the query. The numbers of parts are bytes.
pub data Takes (q p : Part) (qs query : List Part) : Type 0 where
  same : p.hash ≡ q.hash → p.wildchars ≡ q.wildchars → query ≡ qs → Takes q p qs query
  several :
      p.hash ≡ q.hash
      → p.wildchars ≢ q.wildchars
      → (p.wildchars + 1) % 256 ≤ length (q ∷ qs) % 256
      → query ≡ drop ((p.wildchars + 1) % 256) (q ∷ qs)
      → Takes q p qs query
  any_other : p.hash ≡ wildcard → p.hash ≢ q.hash → query ≡ q ∷ qs → Takes q p qs query
  any_short :
      p.hash ≡ wildcard
      → p.hash ≡ q.hash
      → p.wildchars ≢ q.wildchars
      → length (q ∷ qs) % 256 < (p.wildchars + 1) % 256
      → query ≡ q ∷ qs
      → Takes q p qs query

-- The nodes that a query reaches from a node: itself, and what the rest of the query reaches from
-- a child that takes a part of it.
pub data Reaches (m : Node) : List Part → Node → Type 0 where
  stop : {query : List Part} → Reaches m query m
  step :
      {q p : Part} {qs query : List Part} {d : ℕ} {ts : List Topic} {cs : Nodes} (c : Node)
      → ChildOf c cs
      → Takes q (part c) qs query
      → Reaches m query c
      → Reaches m (q ∷ qs) (node p d ts cs)

unfoldable pub depth_of : Node → ℕ
depth_of (node p d ts cs) = d

-- The topics of the node are taken: it is at the depth of the query, or the query is static and the
-- node is a wildcard.
pub data IsTaken (depth topic_type : ℕ) (n : Node) : Type 0 where
  at_depth : depth_of n ≡ depth → IsTaken depth topic_type n
  under_wildcard : topic_type ≡ topic_static → (part n).hash ≡ wildcard → IsTaken depth topic_type n

next_query-Takes :
    (q p : Part) (qs query : List Part) → next_query q qs p ≡ some query → Takes q p qs query
unfolding next_query
next_query-Takes q p qs query e = elim (ℕ_discrete p.hash q.hash) [
  | yes eh ↦ elim (ℕ_discrete q.wildchars p.wildchars) [
    | yes ew ↦ same eh (sym ew) (ground arith)
    | no nw ↦ elim (Bool-cases (leb ((p.wildchars + 1) % 256) (length (q ∷ qs) % 256))) [
      | inl few ↦ several eh (ground arith) (ground arith) (ground arith)
      | inr more ↦ any_short (ground arith) eh (ground arith) (ground arith) (ground arith)
    ]
  ]
  | no nh ↦ any_other (ground arith) nh (ground arith)
]

Takes-next_query :
    (q p : Part) (qs query : List Part) → Takes q p qs query → next_query q qs p ≡ some query
unfolding next_query
Takes-next_query q p qs query (same eh ew e) = ground arith
Takes-next_query q p qs query (several eh nw few e) = ground arith
Takes-next_query q p qs query (any_other w nh e) = ground arith
Takes-next_query q p qs query (any_short w eh nw more e) = ground arith

selected-IsTaken :
    (depth topic_type : ℕ) (n : Node)
    → selected depth topic_type n ≡ true
    → IsTaken depth topic_type n
unfolding selected depth_of part
selected-IsTaken depth topic_type (node p d ts cs) e = elim (ℕ_discrete d depth) [
  | yes e₁ ↦ at_depth e₁
  | no apart ↦ under_wildcard (ground arith) (ground arith)
]

IsTaken-selected :
    (depth topic_type : ℕ) (n : Node)
    → IsTaken depth topic_type n
    → selected depth topic_type n ≡ true
unfolding selected depth_of part
IsTaken-selected depth topic_type (node p d ts cs) (at_depth e) = ground arith
IsTaken-selected depth topic_type (node p d ts cs) (under_wildcard e w) = ground arith

pub has-add_unique :
    (h : ℕ) (ts : List Topic) (t : Topic) → has h (add_unique ts t).0 ≡ (has h ts || (t.hash == h))
unfolding add_unique has
has-add_unique h [] t = ground arith
has-add_unique h (v ∷ ts) t = ground (arith, has-add_unique h ts t)

has-add_topics :
    (h : ℕ) (tops ts : List Topic) → has h (add_topics tops ts) ≡ (has h tops || has h ts)
unfolding add_topics has
has-add_topics h tops [] = ground arith
has-add_topics h tops (t ∷ ts) =
    ground (arith, has-add_topics h (add_unique tops t).0 ts, has-add_unique h tops t)

-- The node's own topics, taken or not.
taken : ℕ → ℕ → Node → List Topic → List Topic
taken depth topic_type n tops =
    if selected depth topic_type n then add_topics tops (topics n) else tops

has-taken :
    (h depth topic_type : ℕ) (n : Node) (tops : List Topic)
    → has h (taken depth topic_type n tops)
      ≡ (has h tops || (selected depth topic_type n && has h (topics n)))
unfolding taken
has-taken h depth topic_type n tops = ground (arith, has-add_topics h tops (topics n))

-- One visit of the loop over the children.
visit : Part → List Part → ℕ → ℕ → Node → List Topic → List Topic
unfolding ilookup
visit q qs depth topic_type n tops = elim (next_query q qs (part n)) [
  | none ↦ tops
  | some query ↦ ilookup n query depth topic_type tops
]

ilookup_step :
    (p q : Part) (d : ℕ) (ts : List Topic) (cs : Nodes) (qs : List Part) (depth topic_type : ℕ)
    (tops : List Topic)
    → ilookup (node p d ts cs) (q ∷ qs) depth topic_type tops
      ≡ ilookup_children cs q qs depth topic_type (taken depth topic_type (node p d ts cs) tops)
unfolding ilookup taken topics
ilookup_step p q d ts cs qs depth topic_type tops = refl

ilookup_stop :
    (n : Node) (depth topic_type : ℕ) (tops : List Topic)
    → ilookup n [] depth topic_type tops ≡ taken depth topic_type n tops
unfolding ilookup taken topics
ilookup_stop (node p d ts cs) depth topic_type tops = refl

children_step :
    (n : Node) (ns : Nodes) (q : Part) (qs : List Part) (depth topic_type : ℕ) (tops : List Topic)
    → ilookup_children (cons n ns) q qs depth topic_type tops
      ≡ ilookup_children ns q qs depth topic_type (visit q qs depth topic_type n tops)
unfolding ilookup visit
children_step n ns q qs depth topic_type tops = refl

mutual
  unfolding ilookup visit taken topics

  -- What is collected before stays.
  ilookup_mono :
      (h : ℕ) (n : Node) (query : List Part) (depth topic_type : ℕ) (tops : List Topic)
      → has h tops ≡ true
      → has h (ilookup n query depth topic_type tops) ≡ true
  ilookup_mono h n [] depth topic_type tops e =
      rw (ilookup_stop n depth topic_type tops, has-taken h depth topic_type n tops, e)
  ilookup_mono h (node p d ts cs) (q ∷ qs) depth topic_type tops e =
      children_mono h cs q qs depth topic_type (taken depth topic_type (node p d ts cs) tops)
        (rw (has-taken h depth topic_type (node p d ts cs) tops, e))

  children_mono :
      (h : ℕ) (cs : Nodes) (q : Part) (qs : List Part) (depth topic_type : ℕ) (tops : List Topic)
      → has h tops ≡ true
      → has h (ilookup_children cs q qs depth topic_type tops) ≡ true
  children_mono h nil q qs depth topic_type tops e = e
  children_mono h (cons n ns) q qs depth topic_type tops e =
      children_mono h ns q qs depth topic_type (visit q qs depth topic_type n tops)
        (elim (Option-cases (next_query q qs (part n))) [
          | inl eq ↦ rw (visit, eq) e
          | inr (query, eq) ↦ rw (visit, eq) (ilookup_mono h n query depth topic_type tops e)
        ])

visit_mono :
    (h : ℕ) (q : Part) (qs : List Part) (depth topic_type : ℕ) (n : Node) (tops : List Topic)
    → has h tops ≡ true
    → has h (visit q qs depth topic_type n tops) ≡ true
unfolding visit
visit_mono h q qs depth topic_type n tops e = elim (Option-cases (next_query q qs (part n))) [
  | inl eq ↦ rw (visit, eq) e
  | inr (query, eq) ↦ rw (visit, eq) (ilookup_mono h n query depth topic_type tops e)
]

-- A child's topics are collected in the visit of the child.
children_at :
    (h : ℕ) (c : Node) (cs : Nodes) (q : Part) (qs query : List Part) (depth topic_type : ℕ)
    (tops : List Topic)
    → ChildOf c cs
    → next_query q qs (part c) ≡ some query
    → ((tops : List Topic) → has h (ilookup c query depth topic_type tops) ≡ true)
    → has h (ilookup_children cs q qs depth topic_type tops) ≡ true
unfolding ilookup visit
children_at h c nil q qs query depth topic_type tops at eq found = elim at [ ]
children_at h c (cons n ns) q qs query depth topic_type tops first eq found =
    children_mono h ns q qs depth topic_type (visit q qs depth topic_type c tops)
      (rw (visit, eq) (found tops))
children_at h c (cons n ns) q qs query depth topic_type tops (next at) eq found =
    children_at h c ns q qs query depth topic_type (visit q qs depth topic_type n tops) at eq found

-- Every reached node whose topics are taken at this depth has its topics collected.
reached-has :
    (h : ℕ) (m n : Node) (query : List Part) (depth topic_type : ℕ) (tops : List Topic)
    → Reaches m query n
    → selected depth topic_type m ≡ true
    → has h (topics m) ≡ true
    → has h (ilookup n query depth topic_type tops) ≡ true
unfolding ilookup taken topics
reached-has h m n [] depth topic_type tops stop sel e =
    rw (ilookup_stop n depth topic_type tops, has-taken h depth topic_type n tops, sel, e)
      (ground arith)
reached-has h m (node p d ts cs) (q ∷ qs) depth topic_type tops stop sel e =
    children_mono h cs q qs depth topic_type (taken depth topic_type (node p d ts cs) tops)
      (rw (has-taken h depth topic_type (node p d ts cs) tops, sel, e) (ground arith))
reached-has h m (node p d ts cs) (q ∷ qs) depth topic_type tops (step c at eq rest) sel e =
    children_at h c cs q qs _ depth topic_type (taken depth topic_type (node p d ts cs) tops) at
      (Takes-next_query q (part c) qs _ eq)
      (λ tops'. reached-has h m c _ depth topic_type tops' rest sel e)

-- A node that the query reaches, with topics that are taken, one of them of hash `h`.
pub record Source (h : ℕ) (n : Node) (query : List Part) (depth topic_type : ℕ) : Type 0 where
  pub at : Node
  pub reached : Reaches at query n
  pub selects : IsTaken depth topic_type at
  pub holds : has h (topics at) ≡ true

taken_inv :
    (h depth topic_type : ℕ) (n : Node) (query : List Part) (tops : List Topic)
    → has h (taken depth topic_type n tops) ≡ true
    → (has h tops ≡ true) ⊎ Source h n query depth topic_type
taken_inv h depth topic_type n query tops e = elim (Bool-cases (has h tops)) [
  | inl b ↦ inl b
  | inr b ↦ inr (record {
    at = n;
    reached = stop;
    selects =
        selected-IsTaken depth topic_type n (ground (arith, has-taken h depth topic_type n tops));
    holds = ground (arith, has-taken h depth topic_type n tops);
  })
]

-- What the children from `cs` on add, where the loop runs over the children of one node.
ChildSource : (h : ℕ) (cs : Nodes) (q : Part) (qs : List Part) (depth topic_type : ℕ) → Type 0
ChildSource h cs q qs depth topic_type =
    (c : Node) × (query : List Part) × ChildOf c cs
    × (next_query q qs (part c) ≡ some query)
    × Source h c query depth topic_type

visit_when_none :
    (q : Part) (qs : List Part) (depth topic_type : ℕ) (n : Node) (tops : List Topic)
    → next_query q qs (part n) ≡ none
    → visit q qs depth topic_type n tops ≡ tops
unfolding visit
visit_when_none q qs depth topic_type n tops e = rw (visit, e)

visit_when_some :
    (q : Part) (qs query : List Part) (depth topic_type : ℕ) (n : Node) (tops : List Topic)
    → next_query q qs (part n) ≡ some query
    → visit q qs depth topic_type n tops ≡ ilookup n query depth topic_type tops
unfolding visit
visit_when_some q qs query depth topic_type n tops e = rw (visit, e)

mutual
  unfolding ilookup visit ChildSource taken topics

  found_where :
      (h : ℕ) (n : Node) (query : List Part) (depth topic_type : ℕ) (tops : List Topic)
      → has h (ilookup n query depth topic_type tops) ≡ true
      → (has h tops ≡ true) ⊎ Source h n query depth topic_type
  found_where h n [] depth topic_type tops e =
      taken_inv h depth topic_type n [] tops (rw (sym (ilookup_stop n depth topic_type tops)) e)
  found_where h (node p d ts cs) (q ∷ qs) depth topic_type tops e =
      elim (found_below h cs q qs depth topic_type (taken depth topic_type (node p d ts cs) tops)
        e) [
          | inl got ↦ taken_inv h depth topic_type (node p d ts cs) (q ∷ qs) tops got
          | inr (c, query, at, eq, src) ↦ inr (record {
            at = src.at;
            reached = step c at (next_query-Takes q (part c) qs query eq) src.reached;
            selects = src.selects;
            holds = src.holds;
          })
        ]

  found_below :
      (h : ℕ) (cs : Nodes) (q : Part) (qs : List Part) (depth topic_type : ℕ) (tops : List Topic)
      → has h (ilookup_children cs q qs depth topic_type tops) ≡ true
      → (has h tops ≡ true) ⊎ ChildSource h cs q qs depth topic_type
  found_below h nil q qs depth topic_type tops e = inl e
  found_below h (cons n ns) q qs depth topic_type tops e =
      elim (found_below h ns q qs depth topic_type (visit q qs depth topic_type n tops) e) [
        | inr (c, query, at, eq, src) ↦ inr (c, query, next at, eq, src)
        | inl got ↦ elim (Option-cases (next_query q qs (part n))) [
          | inl eq ↦ inl (ap (has h) (sym (visit_when_none q qs depth topic_type n tops eq)) ∙ got)
          | inr (query, eq) ↦
              let inside =
                ap (has h) (sym (visit_when_some q qs query depth topic_type n tops eq)) ∙ got in
              elim (found_where h n query depth topic_type tops inside) [
                | inl old ↦ inl old
                | inr src ↦ inr (n, query, first, eq, src)
              ]
        ]
      ]

-- A lookup finds the hashes of the topics at the nodes that the query reaches and that are at its
-- depth, or are wildcards where the query is static; and no others. From node to child the query
-- loses its first part, or the parts that the child stands for, or, below a wildcard, none.
pub lookup_iff :
    (t : TopicTrie) (query : List Part) (depth topic_type h : ℕ)
    → (has h (lookup t query depth topic_type) ≡ true) ↔ Source h t.root query depth topic_type
unfolding lookup has
lookup_iff t query depth topic_type h = (
  (λ e. elim (found_where h t.root query depth topic_type [] e) [ inl empty ↦ cc | inr src ↦ src ]),
  (λ src.
      reached-has h src.at t.root query depth topic_type [] src.reached
        (IsTaken-selected depth topic_type src.at src.selects) src.holds),
)
