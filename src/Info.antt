-- ===== src/Info.antt =====
-- db_info.go: the info file.
use unitdb.Prelude.{
  ℕ, ◌%◌, ◌^◌, ◌<◌, ◌≡◌, List, [], ◌∷◌, arith, length, replicate, take, put_uint, uint, overwrite,
  slice, get_elem?, Option, some, ◌>>=◌, ◌>>◌, guard, leb,
}

pub record DbInfo : Type 0 where
  pub signature : List ℕ
  pub version : ℕ
  pub encryption : ℕ
  pub sequence : ℕ
  pub count : ℕ

abbrev pub fixed : ℕ
fixed = 32

-- The sequence is written over the encryption byte.
unfoldable pub marshal_binary : DbInfo → List ℕ
unfolding put_uint overwrite
marshal_binary inf =
    let buf = overwrite (replicate fixed 0) 0 (take 7 inf.signature) in
    let buf₁ = overwrite buf 7 (put_uint 4 inf.version) in
    let buf₂ = overwrite buf₁ 12 (inf.encryption ∷ []) in
    let buf₃ = overwrite buf₂ 12 (put_uint 8 inf.sequence) in
    overwrite buf₃ 20 (put_uint 8 inf.count)

-- `none` is the panic on data that is too short. The encryption byte is taken from index 7.
unfoldable pub unmarshal_binary : List ℕ → Option DbInfo
unfolding uint
unmarshal_binary d = do
  guard (leb 28 (length d))
  encryption ← get_elem? d 7
  some (record {
    signature = take 7 d;
    version = uint (slice 7 4 d);
    encryption = encryption;
    sequence = uint (slice 12 8 d);
    count = uint (slice 20 8 d);
  })

abbrev info_of : List ℕ → ℕ → ℕ → ℕ → ℕ → DbInfo
info_of l v e s k = record { signature = l; version = v; encryption = e; sequence = s; count = k }

info_congr :
    {v v' s s' k k' : ℕ} (l : List ℕ) (e : ℕ)
    → v ≡ v'
    → s ≡ s'
    → k ≡ k'
    → some (info_of l v e s k) ≡ some (info_of l v' e s' k')
info_congr l e hv hs hk = λ i. some (info_of l (hv i) e (hs i) (hk i))

-- The info that is read from a written one has its signature, version, sequence and count; its
-- encryption flag is the low byte of the version, whatever was written.
pub unmarshal-marshal_info :
    (inf : DbInfo)
    → length inf.signature ≡ 7
    → inf.version < 2 ^ 32
    → inf.sequence < 2 ^ 64
    → inf.count < 2 ^ 64
    → unmarshal_binary (marshal_binary inf) ≡ some (record inf { encryption = inf.version % 256 })
unfolding marshal_binary unmarshal_binary put_uint overwrite uint
unmarshal-marshal_info inf len hv hs hc = go inf.signature len
  where
    go :
        (s : List ℕ)
        → length s ≡ 7
        → unmarshal_binary (marshal_binary (record inf { signature = s }))
          ≡ some (record inf { signature = s; encryption = inf.version % 256 })
    go (a ∷ b ∷ c ∷ d ∷ e ∷ f ∷ g ∷ []) h =
        info_congr (a ∷ b ∷ c ∷ d ∷ e ∷ f ∷ g ∷ []) (inf.version % 256) (omega arith) (omega arith)
          (omega arith)
    go _ h = absurd (omega arith)
