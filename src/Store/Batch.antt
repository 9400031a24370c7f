-- ===== src/Store/Batch.antt =====
-- memdb/batch.go: a batch of puts, each written as time blocks of its own.
use unitdb.Prelude.{
  ℕ, Bool, true, false, not, Option, none, some, List, [], ◌∷◌, ◌++◌, ◌>>=◌, ◌>>◌, guard,
}
use unitdb.Buffer.{Buffer}
use unitdb.TimeMark.{TimeMark, add, release}
use unitdb.Store.{Store, Reply, done, failed, add_time_block, put_at, release_log}

-- `time_id` is that of the batch's tiny log.
pub record Batch : Type 0 where
  pub managed : Bool
  pub time_id : ℕ
  pub batch_group : List ℕ

-- `now` is the clock in nanoseconds, `contents` a new buffer of the pool.
unfoldable pub new_batch : {Buf : Type 0} → Store Buf → ℕ → Buf → Store Buf × Batch
unfolding add_time_block
new_batch db now contents = (
  (add_time_block db now contents).0,
  record { managed = false; time_id = now; batch_group = [] },
)

unfoldable pub batch_put :
    {Buf : Type 0} → Buffer Buf → Store Buf → Batch → ℕ → List ℕ → Option (Store Buf × Reply ℕ)
unfolding put_at
batch_put ops db b key d = put_at ops db b.time_id key d

-- The wait for the log manager is left out.
unfoldable pub write : {Buf : Type 0} → Store Buf → Batch → ℕ → Buf → Store Buf × Batch
unfolding add_time_block
write db b now contents = (
  (add_time_block db now contents).0,
  record b { time_id = now; batch_group = b.batch_group ++ b.time_id ∷ [] },
)

unfoldable pub mark_each : TimeMark → List ℕ → TimeMark
unfolding add release
mark_each tm [] = tm
mark_each tm (t ∷ ts) = mark_each (release (add tm t) t) ts

unfoldable pub release_each : {Buf : Type 0} → Store Buf → List ℕ → Store Buf × Reply (Unit {0})
unfolding release_log
release_each db [] = (db, done tt)
release_each db (t ∷ ts) =
    let (db', reply) = release_log db t in
    elim reply [ done u ↦ release_each db' ts | failed e ↦ (db', failed e) ]

-- `none` is the panic of `_assert`, here and below.
unfoldable pub abort : {Buf : Type 0} → Store Buf → Batch → Option (Store Buf × Reply (Unit {0}))
unfolding release_each
abort db b = guard (not b.managed) >> some (release_each db b.batch_group)

-- The deferred `Abort` finds no time IDs left.
unfoldable pub commit : {Buf : Type 0} → Store Buf → Batch → ℕ → Buf → Option (Store Buf × Batch)
unfolding write mark_each abort
commit db b now contents = do
  guard (not b.managed)
  let (db', b') = write db b now contents in
      abort (record db' { time_mark = mark_each db'.time_mark b'.batch_group })
        (record b' { batch_group = [] })
      >>= λ r. some (r.0, record b' { batch_group = [] })

-- `f` makes its puts into the batch, and gives its error. The clock and the buffers are those of the
-- two tiny logs that are made.
unfoldable pub batch :
    {Buf E : Type 0}
    → Store Buf
    → ℕ × Buf
    → ℕ × Buf
    → (Store Buf → Batch → Store Buf × Batch × Option E)
    → Option (Store Buf × Option E)
unfolding new_batch abort commit
batch db first last f =
    let (db₁, b₁) = new_batch db first.0 first.1 in
    let (db₂, b₂, failure) = f db₁ (record b₁ { managed = true }) in
    elim failure [
      | some e ↦ abort db₂ (record b₂ { managed = true }) >>= λ r. some (r.0, some e)
      | none ↦ commit db₂ (record b₂ { managed = false }) last.0 last.1 >>= λ r. some (r.0, none)
    ]
