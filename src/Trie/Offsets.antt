-- ===== src/Trie/Offsets.antt =====
-- trie.go: the offsets of topics, as getOffset sees them.
use unitdb.Prelude.{
  ℕ, ◌≡◌, ◌≢◌, refl, ap, sym, ◌∙◌, inl, inr, Bool, true, false, ◌&&◌, Option, none, some, List, [],
  ◌∷◌, ◌==◌, if◌then◌else◌, Bool-cases, Option-cases, ==_iff, arith, ==_refl,
}
use mathlib.Core.Path.{subst}
use unitdb.Trie.{
  Topic, add_unique, Part, Node, node, Nodes, nil, cons, part, same_part, new_node, at_child,
  at_path, child, TopicTrie, in_summary, change_node, add, find_topic, topics_at, get_offset,
  set_offset,
}

pub same_part_refl : (p : Part) → same_part p p ≡ true
unfolding same_part
same_part_refl p = rw (==_refl p.hash, ==_refl p.wildchars)

pub eq_of_same : (p q : Part) → same_part p q ≡ true → p ≡ q
unfolding same_part
eq_of_same p q h = λ i. record { hash = fst_eq i; wildchars = snd_eq i }
  where
    fst_eq : p.hash ≡ q.hash
    fst_eq = ground arith

    snd_eq : p.wildchars ≡ q.wildchars
    snd_eq = ground arith

pub find_topic-add_unique :
    (ts : List Topic) (t : Topic) → find_topic (add_unique ts t).0 t.hash ≡ some t.offset
unfolding find_topic add_unique
find_topic-add_unique [] t = ground arith
find_topic-add_unique (v ∷ ts) t = ground (arith, find_topic-add_unique ts t)

pub find_topic-add_unique_ne :
    (ts : List Topic) (t : Topic) (h : ℕ)
    → h ≢ t.hash
    → find_topic (add_unique ts t).0 h ≡ find_topic ts h
unfolding find_topic add_unique
find_topic-add_unique_ne [] t h ne = ground arith
find_topic-add_unique_ne (v ∷ ts) t h ne = ground (arith, find_topic-add_unique_ne ts t h ne)

unfoldable pub or_new : Part → Option Node → Node
or_new p none = new_node p
or_new p (some n) = n

pub child-at_child :
    (f : Node → Node) (p : Part) (cs : Nodes)
    → ((n : Node) → part (f n) ≡ part n)
    → child p (at_child f p cs) ≡ some (f (or_new p (child p cs)))
unfolding child at_child or_new part
child-at_child f p nil h = rw (h (new_node p), same_part_refl p)
child-at_child f p (cons n ns) h = elim (Bool-cases (same_part (part n) p)) [
  | inl e ↦ rw (e, child, h n, e)
  | inr e ↦ rw (e, child, e) (child-at_child f p ns h)
]

child-at_child_ne :
    (f : Node → Node) (p q : Part) (cs : Nodes)
    → ((n : Node) → part (f n) ≡ part n)
    → same_part p q ≡ false
    → child q (at_child f p cs) ≡ child q cs
unfolding child at_child part
child-at_child_ne f p q nil h ne = rw (h (new_node p), ne)
child-at_child_ne f p q (cons n ns) h ne = elim (Bool-cases (same_part (part n) p)) [
  | inl e ↦ let same : part n ≡ p = eq_of_same (part n) p e in rw (e, child, h n, same, ne)
  | inr e ↦ rw (e, child, child-at_child_ne f p q ns h ne)
]

pub part-change_node : (g : ℕ → ℕ) (t : Topic) (n : Node) → part (change_node g t n) ≡ part n
unfolding part change_node
part-change_node g t (node p d ts cs) = refl

pub part-at_path :
    (g : ℕ → ℕ) (t : Topic) (path : List Part) (n : Node)
    → part (at_path (change_node g t) path n) ≡ part n
unfolding part at_path
part-at_path g t [] n = part-change_node g t n
part-at_path g t (p ∷ ps) (node q d ts cs) = refl

pub find-at_path :
    (g : ℕ → ℕ) (t : Topic) (path : List Part) (n : Node)
    → find_topic (topics_at path (at_path (change_node g t) path n)) t.hash ≡ some t.offset
unfolding topics_at at_path change_node
find-at_path g t [] (node q d ts cs) = find_topic-add_unique ts t
find-at_path g t (p ∷ ps) (node q d ts cs) =
    rw (topics_at, child-at_child (at_path (change_node g t) ps) p cs (part-at_path g t ps))
      (find-at_path g t ps (or_new p (child p cs)))

topics_at_new : (path : List Part) (p : Part) → topics_at path (new_node p) ≡ []
unfolding topics_at child
topics_at_new [] p = refl
topics_at_new (q ∷ qs) p = refl

topics_at-or_new :
    (path : List Part) (p : Part) (cs : Nodes)
    → topics_at path (or_new p (child p cs)) ≡ topics_at (p ∷ path) (node p 0 [] cs)
unfolding topics_at or_new
topics_at-or_new path p cs = elim (Option-cases (child p cs)) [
  | inl e ↦ rw (topics_at, e) (topics_at_new path p)
  | inr (n, e) ↦ rw (topics_at, e)
]

pub find-at_path_ne :
    (g : ℕ → ℕ) (t : Topic) (h : ℕ) (path path' : List Part) (n : Node)
    → h ≢ t.hash
    → find_topic (topics_at path' (at_path (change_node g t) path n)) h
      ≡ find_topic (topics_at path' n) h
unfolding topics_at at_path change_node
find-at_path_ne g t h [] [] (node q d ts cs) ne = find_topic-add_unique_ne ts t h ne
find-at_path_ne g t h [] (p' ∷ ps') (node q d ts cs) ne = refl
find-at_path_ne g t h (p ∷ ps) [] (node q d ts cs) ne = refl
find-at_path_ne g t h (p ∷ ps) (p' ∷ ps') (node q d ts cs) ne = elim (Bool-cases (same_part p p')) [
  | inl e ↦
      subst
        (λ x.
          find_topic (topics_at (x ∷ ps') (at_path (change_node g t) (p ∷ ps) (node q d ts cs))) h
          ≡ find_topic (topics_at (x ∷ ps') (node q d ts cs)) h)
        (eq_of_same p p' e)
        (rw (topics_at, child-at_child (at_path (change_node g t) ps) p cs (part-at_path g t ps))
          (find-at_path_ne g t h ps ps' (or_new p (child p cs)) ne
            ∙ ap (λ l. find_topic l h) (topics_at-or_new ps' p cs)))
  | inr e ↦
      rw (
        topics_at,
        child-at_child_ne (at_path (change_node g t) ps) p p' cs (part-at_path g t ps) e,
      )
]

get_offset_found :
    (t : TopicTrie) (h : ℕ) (path : List Part)
    → in_summary t.summary h ≡ some path
    → get_offset t h ≡ find_topic (topics_at path t.root) h
unfolding get_offset
get_offset_found t h path e = rw (get_offset, e)

get_offset_missing : (t : TopicTrie) (h : ℕ) → in_summary t.summary h ≡ none → get_offset t h ≡ none
unfolding get_offset
get_offset_missing t h e = rw (get_offset, e)

-- A change of a node that keeps what is found of a topic keeps its offset.
get_offset_ne :
    (t : TopicTrie) (g : ℕ → ℕ) (topic : Topic) (parts : List Part) (h : ℕ)
    → (topic.hash == h) ≡ false
    → get_offset (record t { root = at_path (change_node g topic) parts t.root }) h ≡ get_offset t h
get_offset_ne t g topic parts h ne = elim (Option-cases (in_summary t.summary h)) [
  | inl e ↦ get_offset_missing _ h e ∙ sym (get_offset_missing t h e)
  | inr (path, e) ↦
      get_offset_found (record t { root = at_path (change_node g topic) parts t.root }) h path e
      ∙ find-at_path_ne g topic h parts path t.root (ground arith)
      ∙ sym (get_offset_found t h path e)
]

get_offset_cons :
    (t : TopicTrie) (k h : ℕ) (path : List Part)
    → (k == h) ≡ false
    → get_offset (record t { summary = (k, path) ∷ t.summary }) h ≡ get_offset t h
unfolding get_offset in_summary
get_offset_cons t k h path ne = rw (get_offset, in_summary, ne)

pub is_absent : Option (List Part) → Bool
is_absent none = true
is_absent (some path) = false

-- A topic is added exactly where its hash is not in the summary. It has its offset from then on,
-- and every other topic the offset it had. A topic that is there already is refused, and no offset
-- changes.
pub get_offset-add :
    (t : TopicTrie) (topic : Topic) (parts : List Part) (depth h : ℕ)
    → ((add t topic parts depth).1 ≡ is_absent (in_summary t.summary topic.hash))
      × (get_offset (add t topic parts depth).0 h ≡ (
          if is_absent (in_summary t.summary topic.hash) && (topic.hash == h)
          then some topic.offset
          else get_offset t h))
unfolding add is_absent
get_offset-add t topic parts depth h = elim (Option-cases (in_summary t.summary topic.hash)) [
  | inl e ↦ elim (Bool-cases (topic.hash == h)) [
    | inl eh ↦
        let same : topic.hash ≡ h = (==_iff topic.hash h).0 eh in
        (
          rw (add, e),
          rw (sym same, add, e, ==_refl topic.hash)
              (get_offset_found _ topic.hash parts (rw (in_summary, ==_refl topic.hash))
                ∙ find-at_path (λ _. depth) topic parts t.root),
        )
    | inr eh ↦ (
      rw (add, e),
      rw (add, e, eh)
          (get_offset_cons
              (record t { root = at_path (change_node (λ _. depth) topic) parts t.root }) topic.hash
              h parts eh
            ∙ get_offset_ne t (λ _. depth) topic parts h eh),
    )
  ]
  | inr (path, e) ↦ (rw (add, e), rw (add, e))
]

-- A topic that is there has its new offset from then on, and every other topic the offset it had.
-- A topic that was never added is refused, and no offset changes.
pub get_offset-set_offset :
    (t : TopicTrie) (topic : Topic) (h : ℕ)
    → get_offset (set_offset t topic).0 h
      ≡ (if (set_offset t topic).1 && (topic.hash == h) then some topic.offset else get_offset t h)
unfolding set_offset
get_offset-set_offset t topic h = elim (Option-cases (in_summary t.summary topic.hash)) [
  | inl e ↦ rw (set_offset, e)
  | inr (path, e) ↦ elim (Bool-cases (topic.hash == h)) [
    | inl eh ↦
        let same : topic.hash ≡ h = (==_iff topic.hash h).0 eh in
        rw (sym same, set_offset, e, ==_refl topic.hash)
          (get_offset_found _ topic.hash path e ∙ find-at_path (λ d. d) topic path t.root)
    | inr eh ↦ rw (set_offset, e, eh) (get_offset_ne t (λ d. d) topic path h eh)
  ]
]
