-- ===== src/Topic/Codec.antt =====
-- message/topic.go: a topic is read back from its bytes.
use unitdb.Prelude.{
  ℕ, zero, suc, ◌+◌, ◌^◌, ◌≡◌, ◌<◌, refl, some, List, [], ◌∷◌, ◌++◌, ◌>>=◌, take, put_uint,
  read_uint, read_uint-put_uint, All, arith,
}
use unitdb.Topic.{Part, Topic, marshal_parts, marshal, unmarshal_parts, unmarshal}

-- The hash has its machine width.
abbrev pub IsPart : Part → Type 0
IsPart p = p.hash < 2 ^ 32

unmarshal_part :
    (n w h : ℕ) (buf buf' : List ℕ) (ps : List Part)
    → read_uint 4 buf ≡ some (h, buf')
    → unmarshal_parts n buf' ≡ some ps
    → unmarshal_parts (suc n) (w ∷ buf) ≡ some (record { hash = h; wildchars = w } ∷ ps)
unfolding unmarshal_parts
unmarshal_part n w h buf buf' ps e f = rw (unmarshal_parts, e, ◌>>=◌, f)

unmarshal_parts-marshal_parts :
    (n : ℕ) (ps : List Part)
    → All IsPart ps
    → unmarshal_parts n (marshal_parts ps) ≡ some (take n ps)
unfolding unmarshal_parts marshal_parts
unmarshal_parts-marshal_parts zero ps h = refl
unmarshal_parts-marshal_parts (suc n) [] h = refl
unmarshal_parts-marshal_parts (suc n) (p ∷ ps) h =
    unmarshal_part n p.wildchars p.hash (put_uint 4 p.hash ++ marshal_parts ps) (marshal_parts ps)
      (take n ps) (read_uint-put_uint 4 p.hash (marshal_parts ps) (omega (arith, h.0)))
      (unmarshal_parts-marshal_parts n ps h.1)

-- A topic is read back from its bytes with its depth and as many of its parts as the depth and one,
-- from the first on; the other fields stay as they were. The hashes have 32 bits.
pub unmarshal-marshal :
    (t s : Topic)
    → All IsPart t.parts
    → unmarshal s (marshal t)
      ≡ some (record s { depth = t.depth; parts = take (t.depth + 1) t.parts })
unfolding unmarshal marshal
unmarshal-marshal t s h = rw (unmarshal_parts-marshal_parts (t.depth + 1) t.parts h, ◌>>=◌) refl
