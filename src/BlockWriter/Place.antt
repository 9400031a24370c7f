-- ===== src/BlockWriter/Place.antt =====
-- block_writer.go: where a message is put. The messages are those of the data file with those of
-- the buffer behind them, as `write` will leave them.
use unitdb.Prelude.{
  ℕ, ◌+◌, ◌-◌, ◌%◌, ◌^◌, ◌≡◌, ◌<◌, ◌≤◌, ◌⊎◌, inl, inr, refl, sym, ap, ◌∙◌, false, some, List, ◌++◌,
  ◌==◌, ◌>>=◌, add64, minus_one, length, length-append, overwrite, length-overwrite,
  overwrite-append, overwrite_tail, overwrite_end, append_assoc, arith,
}
use unitdb.Prelude.Maps.{insert}
use unitdb.Lease.{Lease, allocate}
use unitdb.Lease.Account.{free_at, IsValid}
use unitdb.Lease.Allocate.{allocate-Allocates, Allocates}
use unitdb.File.{write_at}
use unitdb.Buffer.{Buffer, IsBuffer}
use unitdb.BlockWriter.{BlockWriter, append_data, place}

module _ {Buf : Type 0} (ops : Buffer Buf) where
  -- The messages, once the buffer is written behind the data file.
  abbrev pub pending : BlockWriter Buf → List ℕ
  pending w = w.data_file.bytes ++ ops.bytes w.buffer

  -- The writer knows the size of the data file and where the next message of the buffer goes; the
  -- free list is valid, and free bytes lie in the file.
  pub record IsReady (w : BlockWriter Buf) : Type 0 where
    pub lease : IsValid w.lease
    pub size : w.data_file.size ≡ length w.data_file.bytes
    pub offset : w.offset ≡ length w.data_file.bytes + length (ops.bytes w.buffer)
    pub inside : (x : ℕ) → 1 ≤ free_at x w.lease.blocks → x < length w.data_file.bytes

  -- A message `d` is put at `off`, in free space or behind all others.
  pub record Places (w : BlockWriter Buf) (d : List ℕ) (off : ℕ) (w' : BlockWriter Buf)
      : Type 0 where
    pub ready : IsReady w'
    pub at : off + length d ≤ length (pending w')
    pub messages : pending w' ≡ overwrite (pending w) off d
    pub index_blocks : w'.index_blocks ≡ w.index_blocks
    pub free_space :
        ((x : ℕ) → off ≤ x → x < off + length d → 1 ≤ free_at x w.lease.blocks)
        ⊎ (off ≡ length (pending w))

module _ {Buf : Type 0} (ops : Buffer Buf) (laws : IsBuffer ops) where
  append_data_room :
      (w : BlockWriter Buf) (d : List ℕ) (k : ℕ) (b b' : Buf)
      → ops.extend w.buffer (length d) ≡ some (k, b)
      → ops.write_at b d k ≡ some b'
      → append_data ops w d
        ≡ (record w { buffer = b'; offset = add64 w.offset (length d) }, some w.offset)
  unfolding append_data
  append_data_room w d k b b' e ew = rw (append_data, e, ew)

  place_buffered :
      (w : BlockWriter Buf) (d : List ℕ)
      → length d < 2 ^ 32
      → allocate (length d) w.lease ≡ some (minus_one, w.lease)
      → place ops w d ≡ some (append_data ops w d)
  unfolding place
  place_buffered w d small run =
      let same : length d % 2 ^ 32 ≡ length d = omega arith in rw (place, same, run, ◌>>=◌)

  place_reused :
      (w : BlockWriter Buf) (d : List ℕ) (off : ℕ) (l : Lease)
      → length d < 2 ^ 32
      → allocate (length d) w.lease ≡ some (off, l)
      → (off == minus_one) ≡ false
      → place ops w d
        ≡ some (
          record w {
            lease = l;
            data_file = write_at w.data_file d off;
            data_leases = insert w.data_leases off (length d % 2 ^ 32);
          },
          some off,
        )
  unfolding place
  place_reused w d off l small run given =
      let same : length d % 2 ^ 32 ≡ length d = omega arith in rw (place, same, run, ◌>>=◌, given)

  append_data-Places :
      (w : BlockWriter Buf) (d : List ℕ)
      → IsReady ops w
      → w.offset + length d < 2 ^ 63
      → (k : ℕ) (b : Buf) → ops.extend w.buffer (length d) ≡ some (k, b)
      → (w' : BlockWriter Buf) × (append_data ops w d ≡ (w', some w.offset))
        × Places ops w d w.offset w'
  unfolding append_data
  append_data-Places w d v room k b e =
      let (at, new, len, grown) = laws.extend_bytes w.buffer b (length d) k e in
      let inside : k + length d ≤ length (ops.bytes b) =
        omega (arith, at, len, ap length grown, length-append (ops.bytes w.buffer) new) in
      let (b', ew, eb) = laws.write_at_bytes b d k inside in
      let behind : ops.bytes b' ≡ ops.bytes w.buffer ++ d =
        eb
        ∙ ap (λ l. overwrite l k d) grown
        ∙ ap (λ j. overwrite (ops.bytes w.buffer ++ new) j d) at
        ∙ overwrite_tail (ops.bytes w.buffer) new d len in
      let end : length (pending ops w) ≡ w.offset =
        omega (arith, v.offset, length-append w.data_file.bytes (ops.bytes w.buffer)) in
      let all : w.data_file.bytes ++ ops.bytes b' ≡ overwrite (pending ops w) w.offset d =
        ap (λ l. w.data_file.bytes ++ l) behind
        ∙ sym (append_assoc w.data_file.bytes (ops.bytes w.buffer) d)
        ∙ sym (overwrite_end (pending ops w) d)
        ∙ ap (λ j. overwrite (pending ops w) j d) end in
      let more : length (ops.bytes b') ≡ length (ops.bytes w.buffer) + length d =
        ap length behind ∙ length-append (ops.bytes w.buffer) d in
      (
        record w { buffer = b'; offset = add64 w.offset (length d) },
        append_data_room w d k b b' e ew,
        record {
          ready = record {
            lease = v.lease;
            size = v.size;
            offset = omega (arith, v.offset, more);
            inside = v.inside;
          };
          at = omega (arith, v.offset, more, length-append w.data_file.bytes (ops.bytes b'));
          messages = all;
          index_blocks = refl;
          free_space = inr (sym end);
        },
      )

  -- A message of at least one byte that is put into free space.
  reused-Places :
      (w : BlockWriter Buf) (d : List ℕ) (off : ℕ) (l : Lease)
      → IsReady ops w
      → 1 ≤ length d
      → IsValid l
      → Allocates off (length d) w.lease l
      → Places ops w d off (record w {
        lease = l;
        data_file = write_at w.data_file d off;
        data_leases = insert w.data_leases off (length d % 2 ^ 32);
      })
  unfolding write_at
  reused-Places w d off l v pos vl a =
      let free : (x : ℕ) → off ≤ x → x < off + length d → 1 ≤ free_at x w.lease.blocks =
        λ x lo hi. ground (arith, a.bytes x) in
      let last : off + length d ≤ length w.data_file.bytes = omega (
        arith,
        v.inside (off + length d - 1) (free (off + length d - 1) (omega arith) (omega arith)),
      ) in
      let same : length (overwrite w.data_file.bytes off d) ≡ length w.data_file.bytes =
        length-overwrite w.data_file.bytes off d last in
      record {
        ready = record {
          lease = vl;
          size = v.size ∙ sym same;
          offset = omega (arith, v.offset, same);
          inside = λ x h. omega (arith, a.bytes x, v.inside x (omega (arith, a.bytes x)), same);
        };
        at = omega (
          arith,
          same,
          last,
          length-append (overwrite w.data_file.bytes off d) (ops.bytes w.buffer),
        );
        messages = sym (overwrite-append w.data_file.bytes (ops.bytes w.buffer) off d last);
        index_blocks = refl;
        free_space = inl free;
      }

  -- A message is put into free space or behind the others, where the buffer has room for it.
  pub place-Places :
      (w : BlockWriter Buf) (d : List ℕ)
      → IsReady ops w
      → 1 ≤ length d
      → length d < 2 ^ 32
      → w.offset + length d < 2 ^ 63
      → (k : ℕ) (b : Buf) → ops.extend w.buffer (length d) ≡ some (k, b)
      → (w' : BlockWriter Buf) × (off : ℕ) × (place ops w d ≡ some (w', some off))
        × Places ops w d off w'
  unfolding place
  place-Places w d v pos small room k b e =
      let (off, l, run, vl, effect) = allocate-Allocates (length d) w.lease pos v.lease in
      elim effect [
        | inl (no_space, kept) ↦
            let run' : allocate (length d) w.lease ≡ some (minus_one, w.lease) =
              run ∙ (λ i. some (no_space i, kept i)) in
            let (w', eq, p) = append_data-Places w d v room k b e in
            (w', w.offset, place_buffered w d small run' ∙ ap some eq, p)
        | inr a ↦
            let given : (off == minus_one) ≡ false = ground (arith, a.in_file) in
            (
              record w {
                lease = l;
                data_file = write_at w.data_file d off;
                data_leases = insert w.data_leases off (length d % 2 ^ 32);
              },
              off,
              place_reused w d off l small run given,
              reused-Places w d off l v pos vl a,
            )
      ]
