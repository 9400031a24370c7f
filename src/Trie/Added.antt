-- ===== src/Trie/Added.antt =====
-- trie.go: a topic that was added is found by its own parts.
use unitdb.Prelude.{
  refl, ℕ, ◌≡◌, sym, ◌∙◌, ap, inl, inr, true, false, some, List, [], ◌∷◌, Bool-cases, Option-cases,
  arith, ==_refl,
}
use mathlib.Core.Path.{subst}
use unitdb.Trie.{
  Topic, add_unique, Part, Node, node, Nodes, nil, cons, part, same_part, at_child, at_path, child,
  change_node, topics, lookup, TopicTrie, add, in_summary,
}
use unitdb.Trie.Offsets.{child-at_child, part-at_path, eq_of_same, or_new}
use unitdb.Trie.Reached.{
  ChildOf, first, next, stop, step, same, at_depth, depth_of, Source, has, has-add_unique,
  lookup_iff,
}

cond_true :
    (p : Part) (m : Node) (ms : Nodes) → same_part (part m) p ≡ true → child p (cons m ms) ≡ some m
unfolding child
cond_true p m ms b = rw (child, b)

cond_false :
    (p : Part) (m : Node) (ms : Nodes)
    → same_part (part m) p ≡ false
    → child p (cons m ms) ≡ child p ms
unfolding child
cond_false p m ms b = rw (child, b)

ChildOf-child : (p : Part) (cs : Nodes) (n : Node) → child p cs ≡ some n → ChildOf n cs
unfolding child
ChildOf-child p nil n e = cc (e)
ChildOf-child p (cons m ms) n e = elim (Bool-cases (same_part (part m) p)) [
  | inl b ↦
      let alike : m ≡ n = cc (sym (cond_true p m ms b) ∙ e) in
      subst (λ x. ChildOf x (cons m ms)) alike first
  | inr b ↦ next (ChildOf-child p ms n (sym (cond_false p m ms b) ∙ e))
]

part-child : (p : Part) (cs : Nodes) (n : Node) → child p cs ≡ some n → part n ≡ p
unfolding child
part-child p nil n e = cc (e)
part-child p (cons m ms) n e = elim (Bool-cases (same_part (part m) p)) [
  | inl b ↦
      let alike : m ≡ n = cc (sym (cond_true p m ms b) ∙ e) in
      sym (ap part alike) ∙ eq_of_same (part m) p b
  | inr b ↦ part-child p ms n (sym (cond_false p m ms b) ∙ e)
]

part-or_new : (p : Part) (cs : Nodes) → part (or_new p (child p cs)) ≡ p
unfolding or_new part
part-or_new p cs = elim (Option-cases (child p cs)) [
  | inl e ↦ rw (or_new, e)
  | inr (n, e) ↦ rw (or_new, e) (part-child p cs n e)
]

Source-at_path :
    (topic : Topic) (depth topic_type : ℕ) (parts : List Part) (n : Node)
    → Source topic.hash (at_path (change_node (λ _. depth) topic) parts n) parts depth topic_type
unfolding at_path change_node depth_of topics
Source-at_path topic depth topic_type [] (node q d ts cs) = record {
  at = node q depth (add_unique ts topic).0 cs;
  reached = stop;
  selects = at_depth refl;
  holds = rw (has-add_unique topic.hash ts topic, ==_refl topic.hash) (ground arith);
}
Source-at_path topic depth topic_type (p ∷ ps) (node q d ts cs) =
    let f = at_path (change_node (λ _. depth) topic) ps in
    let c = f (or_new p (child p cs)) in
    let keeps = part-at_path (λ _. depth) topic ps in
    let src = Source-at_path topic depth topic_type ps (or_new p (child p cs)) in
    let own : part c ≡ p = keeps (or_new p (child p cs)) ∙ part-or_new p cs in
    record {
      at = src.at;
      reached =
          step c (ChildOf-child p (at_child f p cs) c (child-at_child f p cs keeps))
            (same (ap (λ x. x.hash) own) (ap (λ x. x.wildchars) own) refl) src.reached;
      selects = src.selects;
      holds = src.holds;
    }

-- A topic that was just added under a path of parts is found by that path at its depth.
pub lookup-add :
    (t : TopicTrie) (topic : Topic) (parts : List Part) (depth topic_type : ℕ)
    → (add t topic parts depth).1 ≡ true
    → has topic.hash (lookup (add t topic parts depth).0 parts depth topic_type) ≡ true
unfolding add
lookup-add t topic parts depth topic_type e =
    elim (Option-cases (in_summary t.summary topic.hash)) [
      | inl fresh ↦
          rw (add, fresh)
            ((lookup_iff _ parts depth topic_type topic.hash).1
              (Source-at_path topic depth topic_type parts t.root))
      | inr (path, there) ↦ cc (there, e)
    ]
