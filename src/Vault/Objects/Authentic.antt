-- ===== src/Vault/Objects/Authentic.antt =====
-- internal/vault/vault.go: whatever file `loadChunk` reads, what it returns belongs to the reference.
use text.Mathlib.TextEquality.{eq_iff}
use open_seavault_rclone.Shared.Dict.{Dict, get, string_eq}
use open_seavault_rclone.Shared.Result.{Ensures, Result, ok, err, ◌>>=◌}
use open_seavault_rclone.Shared.{
  String, ◌≡◌, inl, inr, Option, none, some, [], ◌∷◌, arith, length, ◌==◌, str_eq, Option-cases,
  Bool-cases,
}
use open_seavault_rclone.Vault.Objects.{
  Bytes, Crypto, Ref, Objects, ChunkError, decode_encrypted, chunk_magic, present, not_authentic,
  verified, decode_chunk, is_copy_name, try_conflict_chunks, recovered, load_chunk,
}

-- The text has the digest and the length that the reference names.
pub record Belongs (c : Crypto) (r : Ref) (plain : Bytes) : Type 0 where
  pub same_digest : c.digest plain ≡ r.id
  pub same_size : length plain ≡ r.size

module _ (c : Crypto) (r : Ref) where
  verified-Ensures : (plain : Bytes) → Ensures (Belongs c r) (verified c r plain)
  verified-Ensures plain = elim (Bool-cases (length plain == r.size)) [
    | inr n ↦ rw n tt
    | inl y ↦ elim (Bool-cases (str_eq (c.digest plain) r.id)) [
      | inr n ↦ rw (y, n) tt
      | inl z ↦
          rw (y, z)
            (record { same_digest = (eq_iff (c.digest plain) r.id).0 z; same_size = ground arith })
    ]
  ]

  opened-Ensures :
      (o : Option Bytes) → Ensures (Belongs c r) (present not_authentic o >>= verified c r)
  opened-Ensures none = tt
  opened-Ensures (some plain) = verified-Ensures plain

  decoded-Ensures :
      (d : Result ChunkError (Bytes × Bytes))
      → Ensures
          (Belongs c r)
          (d >>= λ p. present not_authentic (c.unseal r.id p.0 p.1) >>= verified c r)
  decoded-Ensures (err e) = tt
  decoded-Ensures (ok (nonce, ct)) = opened-Ensures (c.unseal r.id nonce ct)

  pub decode_chunk-Ensures : (object : Bytes) → Ensures (Belongs c r) (decode_chunk c object r)
  unfolding decode_chunk
  decode_chunk-Ensures object = decoded-Ensures (decode_encrypted chunk_magic c.nonce_size object)

  abbrev EnsuresSome : Option Bytes → Type 0
  EnsuresSome none = Unit
  EnsuresSome (some plain) = Belongs c r plain

  first_copy :
      (d : Result ChunkError Bytes) (o : Option Bytes)
      → Ensures (Belongs c r) d
      → EnsuresSome o
      → EnsuresSome (elim d [ ok plain ↦ some plain | err e ↦ o ])
  first_copy (ok plain) o h g = h
  first_copy (err e) o h g = g

  try_conflict_chunks-Ensures : (m : Dict String Bytes) → EnsuresSome (try_conflict_chunks c m r)
  unfolding try_conflict_chunks
  try_conflict_chunks-Ensures [] = tt
  try_conflict_chunks-Ensures ((name, object) ∷ m) = elim (Bool-cases (is_copy_name r.id name)) [
    | inr n ↦ rw n (try_conflict_chunks-Ensures m)
    | inl y ↦ rw y (
        first_copy (decode_chunk c object r) (try_conflict_chunks c m r)
          (decode_chunk-Ensures object) (try_conflict_chunks-Ensures m))
  ]

  recovered-Ensures :
      (e : ChunkError) (o : Option Bytes) → EnsuresSome o → Ensures (Belongs c r) (recovered c e o)
  recovered-Ensures e none h = tt
  recovered-Ensures e (some plain) h = h

  -- Whatever stands in the directories, what `loadChunk` returns has the digest and the length of
  -- the reference; otherwise it returns an error.
  pub load_chunk-Ensures : (o : Objects) → Ensures (Belongs c r) (load_chunk c o r)
  unfolding load_chunk
  load_chunk-Ensures o = elim (Option-cases (get r.id o.canonical)) [
    | inl a ↦ rw (a, load_chunk) (recovered-Ensures _ _ (try_conflict_chunks-Ensures o.renamed))
    | inr a ↦ rw (a.1, load_chunk) (pick (decode_chunk c a.0 r) (decode_chunk-Ensures a.0))
  ]
    where
      pick :
          (d : Result ChunkError Bytes)
          → Ensures (Belongs c r) d
          → Ensures (Belongs c r) (elim d [
            | ok plain ↦ ok plain
            | err e ↦ recovered c e (try_conflict_chunks c o.renamed r)
          ])
      pick (ok plain) h = h
      pick (err e) h = recovered-Ensures e _ (try_conflict_chunks-Ensures o.renamed)
