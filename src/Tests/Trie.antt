-- ===== src/Tests/Trie.antt =====
-- trie.go: a trie of two topics.
use unitdb.Prelude.{ℕ, ◌≡◌, true, ◌&&◌, some, [], ◌∷◌, ◌==◌, if◌then◌else◌, ◌↔◌}
use unitdb.Trie.{
  Topic, Part, TopicTrie, new_topic_trie, add, in_summary, get_offset, lookup, topic_static,
}
use unitdb.Trie.Offsets.{is_absent, get_offset-add}
use unitdb.Trie.Reached.{has, Source, lookup_iff}

abbrev plain : ℕ → Part
plain h = record { hash = h; wildchars = 0 }

abbrev topic_of : ℕ → ℕ → Topic
topic_of h off = record { hash = h; offset = off }

abbrev one_topic : TopicTrie
unfolding new_topic_trie add
one_topic = (add new_topic_trie (topic_of 11 100) (plain 1 ∷ plain 2 ∷ []) 2).0

get_offset-add_example :
    ((add one_topic (topic_of 12 200) (plain 1 ∷ []) 1).1
      ≡ is_absent (in_summary one_topic.summary 12))
    × (get_offset (add one_topic (topic_of 12 200) (plain 1 ∷ []) 1).0 11 ≡ (
        if is_absent (in_summary one_topic.summary 12) && (12 == 11)
        then some 200
        else get_offset one_topic 11))
get_offset-add_example = get_offset-add one_topic (topic_of 12 200) (plain 1 ∷ []) 1 11

lookup_iff_example :
    (has 11 (lookup one_topic (plain 1 ∷ plain 2 ∷ []) 2 topic_static) ≡ true)
    ↔ Source 11 one_topic.root (plain 1 ∷ plain 2 ∷ []) 2 topic_static
lookup_iff_example = lookup_iff one_topic (plain 1 ∷ plain 2 ∷ []) 2 topic_static 11
