-- ===== src/Trie.antt =====
-- trie.go: the trie of topics. A child map is a list of children, each with its part as its key;
-- the map of topic hashes to nodes holds the path of the node, since a node never moves.
pub mod Offsets
pub mod Added
pub mod Reached
use unitdb.Prelude.{
  ℕ, ◌+◌, ◌%◌, ◌≡◌, Bool, true, false, ◌&&◌, ◌||◌, Option, none, some, List, [], ◌∷◌, ◌++◌, ◌==◌,
  leb, if◌then◌else◌, length, drop,
}

-- `wildcard` is the hash of the parts "*" and "...".
abbrev pub wildcard : ℕ
wildcard = 857445537

abbrev pub topic_static : ℕ
topic_static = 1

pub record Topic : Type 0 where
  pub hash : ℕ
  pub offset : ℕ

unfoldable pub add_unique : List Topic → Topic → List Topic × Bool
add_unique [] value = (value ∷ [], true)
add_unique (v ∷ top) value =
    let (rest, added) = add_unique top value in
    if v.hash == value.hash
    then (record v { offset = value.offset } ∷ top, false)
    else (v ∷ rest, added)

pub record Part : Type 0 where
  pub hash : ℕ
  pub wildchars : ℕ

mutual
  pub data Node : Type 0 where
    node : (p : Part) (depth : ℕ) (topics : List Topic) (children : Nodes) → Node

  pub data Nodes : Type 0 where
    nil : Nodes
    cons : (n : Node) (ns : Nodes) → Nodes

unfoldable pub part : Node → Part
part (node p d ts cs) = p

unfoldable pub same_part : Part → Part → Bool
same_part p q = (p.hash == q.hash) && (p.wildchars == q.wildchars)

abbrev pub new_node : Part → Node
new_node p = node p 0 [] nil

-- Changes the child of the given part, which is made first where it is missing.
unfoldable pub at_child : (Node → Node) → Part → Nodes → Nodes
unfolding same_part part
at_child f p nil = cons (f (new_node p)) nil
at_child f p (cons n ns) =
    let rest = at_child f p ns in if same_part (part n) p then cons (f n) ns else cons n rest

-- Changes the node at the end of a path.
unfoldable pub at_path : (Node → Node) → List Part → Node → Node
unfolding at_child
at_path f [] n = f n
at_path f (p ∷ ps) (node q d ts cs) = node q d ts (at_child (at_path f ps) p cs)

unfoldable pub child : Part → Nodes → Option Node
unfolding same_part part
child p nil = none
child p (cons n ns) = let rest = child p ns in if same_part (part n) p then some n else rest

pub record TopicTrie : Type 0 where
  pub summary : List (ℕ × List Part)
  pub root : Node

unfoldable pub new_topic_trie : TopicTrie
new_topic_trie = record { summary = []; root = new_node (record { hash = 0; wildchars = 0 }) }

unfoldable pub in_summary : List (ℕ × List Part) → ℕ → Option (List Part)
in_summary [] h = none
in_summary ((k, path) ∷ rest) h =
    let found = in_summary rest h in if k == h then some path else found

-- The node takes a topic, and a depth that is worked out from its own.
unfoldable pub change_node : (ℕ → ℕ) → Topic → Node → Node
unfolding add_unique
change_node g t (node p d ts cs) = node p (g d) (add_unique ts t).0 cs

unfoldable pub add : TopicTrie → Topic → List Part → ℕ → TopicTrie × Bool
unfolding in_summary at_path change_node
add t topic parts depth = elim (in_summary t.summary topic.hash) [
  | some _ ↦ (t, false)
  | none ↦ (
    record {
      summary = (topic.hash, parts) ∷ t.summary;
      root = at_path (change_node (λ _. depth) topic) parts t.root;
    },
    true,
  )
]

unfoldable pub add_topics : List Topic → List Topic → List Topic
unfolding add_unique
add_topics tops [] = tops
add_topics tops (t ∷ ts) = add_topics (add_unique tops t).0 ts

-- The part of the query that is left behind a child of part `p`, by the three cases of the switch.
unfoldable pub next_query : Part → List Part → Part → Option (List Part)
next_query q qs p =
    if (p.hash == q.hash) && (q.wildchars == p.wildchars)
    then some qs
    else if (p.hash == q.hash) && leb ((p.wildchars + 1) % 256) (length (q ∷ qs) % 256)
    then some (drop ((p.wildchars + 1) % 256) (q ∷ qs))
    else if p.hash == wildcard
    then some (q ∷ qs)
    else none

-- The topics of a node are taken at the depth of the query, or under a wildcard.
unfoldable pub selected : ℕ → ℕ → Node → Bool
selected depth topic_type (node p d ts cs) =
    (d == depth) || ((topic_type == topic_static) && (p.hash == wildcard))

unfoldable pub topics : Node → List Topic
topics (node p d ts cs) = ts

unfoldable mutual
  unfolding selected add_topics next_query part

  pub ilookup : Node → List Part → ℕ → ℕ → List Topic → List Topic
  ilookup (node p d ts cs) query depth topic_type tops =
      let tops' = if selected depth topic_type (node p d ts cs) then add_topics tops ts else tops in
      elim query [ [] ↦ tops' | q ∷ qs ↦ ilookup_children cs q qs depth topic_type tops' ]

  -- The loop over the children.
  pub ilookup_children : Nodes → Part → List Part → ℕ → ℕ → List Topic → List Topic
  ilookup_children nil q qs depth topic_type tops = tops
  ilookup_children (cons n ns) q qs depth topic_type tops =
      ilookup_children ns q qs depth topic_type (elim (next_query q qs (part n)) [
        | none ↦ tops
        | some query ↦ ilookup n query depth topic_type tops
      ])

unfoldable pub lookup : TopicTrie → List Part → ℕ → ℕ → List Topic
unfolding ilookup
lookup t query depth topic_type = ilookup t.root query depth topic_type []

unfoldable pub find_topic : List Topic → ℕ → Option ℕ
find_topic [] h = none
find_topic (t ∷ ts) h = let rest = find_topic ts h in if t.hash == h then some t.offset else rest

-- The topics of the node at the end of a path.
unfoldable pub topics_at : List Part → Node → List Topic
unfolding child
topics_at [] (node p d ts cs) = ts
topics_at (q ∷ qs) (node p d ts cs) = elim (child q cs) [ none ↦ [] | some n ↦ topics_at qs n ]

unfoldable pub get_offset : TopicTrie → ℕ → Option ℕ
unfolding in_summary find_topic topics_at
get_offset t h = elim (in_summary t.summary h) [
  | none ↦ none
  | some path ↦ find_topic (topics_at path t.root) h
]

unfoldable pub set_offset : TopicTrie → Topic → TopicTrie × Bool
unfolding in_summary at_path change_node
set_offset t topic = elim (in_summary t.summary topic.hash) [
  | none ↦ (t, false)
  | some path ↦ (record t { root = at_path (change_node (λ d. d) topic) path t.root }, true)
]

unfoldable pub count : TopicTrie → ℕ
count t = length t.summary
