-- ===== src/Tests/Buffers.antt =====
-- A buffer as the list of its bytes, for the examples of the writers.
use unitdb.Prelude.{
  ℕ, ◌+◌, ◌-◌, ◌≡◌, refl, none, some, List, [], ◌++◌, leb, le→leb, if◌then◌else◌, length, replicate,
  overwrite, slice, length-replicate,
}
use unitdb.Buffer.{Buffer, IsBuffer, Takes}

-- A buffer of the pool, as the list of its bytes.
abbrev pub list_ops : Buffer (List ℕ)
list_ops = record {
  bytes = λ b. b;
  extend = λ b n. some (length b, b ++ replicate n 0);
  write_at = λ b d off. if leb (off + length d) (length b) then some (overwrite b off d) else none;
  write = λ b d. some (b ++ d);
  read = λ b start stop. if leb stop (length b) then some (slice start (stop - start) b) else none;
  reset = λ b. [];
  internal = λ b. b;
  fill = λ b d. overwrite b 0 d;
}

pub list_ops-IsBuffer : IsBuffer list_ops
list_ops-IsBuffer = record {
  extend_bytes = λ b b' n off run.
      let at : off ≡ length b = cc (run) in
      let grown : b' ≡ b ++ replicate n 0 = cc (run) in
      (at, replicate n 0, length-replicate n 0, grown);
  write_at_bytes = λ b d off h. (overwrite b off d, rw (le→leb _ _ h) refl, refl);
  write_bytes = λ b b' d run. cc (run);
  read_bytes = λ b start stop h h'. rw (le→leb _ _ h') refl;
  reset_bytes = λ b. refl;
  internal_bytes = λ b. refl;
  fill_bytes = λ b d h. refl;
}

pub list_ops-Takes : Takes list_ops
list_ops-Takes b d = (b ++ d, refl)
