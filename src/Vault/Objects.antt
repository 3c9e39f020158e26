-- ===== src/Vault/Objects.antt =====
-- internal/vault/vault.go and crypto.go: the encrypted chunk objects, `storeChunk` and `loadChunk`.
-- `Crypto` stands for the AEAD and the HMAC of the Go library under the vault's keys; `seal` and
-- `unseal` take the object id that is authenticated with the text. The file at `chunkPath(id)` is
-- the entry of `canonical` at `id`; `renamed` holds the other files of the shard directories, by
-- name. Files that are there can be read and written: errors of the disk are left out.
pub mod Authentic
pub mod RoundTrip
mod Tests
use Prim.Native.String.{◌++◌ as append}
use open_seavault_rclone.Shared.Dict.{Dict, get, put, string_eq}
use open_seavault_rclone.Shared.Result.{Result, ok, err, ◌>>=◌}
use open_seavault_rclone.Shared.{
  ℕ, suc, ◌≡◌, String, Bool, true, false, not, ◌&&◌, Option, none, some, List, [], ◌∷◌, ◌++◌, map,
  length, take, drop, leb, ltb, ◌==◌, str_eq, if◌then◌else◌,
}
use open_seavault_rclone.Vault.Path.Content.{codes, lower, has_suffix}

abbrev pub Bytes : Type 0
Bytes = List ℕ

pub record Crypto : Type 0 where
  pub nonce_size : ℕ
  pub seal : String → Bytes → Bytes → Bytes
  pub unseal : String → Bytes → Bytes → Option Bytes
  pub digest : Bytes → String

-- What an AEAD does: it opens what it sealed, under the same nonce and the same data.
pub record IsAead (c : Crypto) : Type 0 where
  pub unseal-seal :
      (id : String) (nonce plain : Bytes) → c.unseal id nonce (c.seal id nonce plain) ≡ some plain

pub record Ref : Type 0 where
  pub id : String
  pub size : ℕ

pub record Objects : Type 0 where
  pub canonical : Dict String Bytes
  pub renamed : Dict String Bytes

pub data ChunkError : Type 0 where
  bad_magic too_short not_authentic wrong_size wrong_id not_present : ChunkError

-- "SVCHNK1\n"
abbrev pub chunk_magic : Bytes
chunk_magic = b'S' ∷ b'V' ∷ b'C' ∷ b'H' ∷ b'N' ∷ b'K' ∷ b'1' ∷ 10 ∷ []

unfoldable pub encode_encrypted : Bytes → Bytes → Bytes → Bytes
encode_encrypted magic nonce ct = magic ++ (nonce ++ ct)

-- `bytes.HasPrefix`, with what follows the prefix.
unfoldable pub after_prefix : Bytes → Bytes → Option Bytes
after_prefix [] xs = some xs
after_prefix (p ∷ ps) [] = none
after_prefix (p ∷ ps) (x ∷ xs) = if p == x then after_prefix ps xs else none

abbrev pub is_some {ℓ} : {A : Type ℓ} → Option A → Bool
is_some none = false
is_some (some a) = true

-- The three conditions of `tryConflictChunks` on the name of a file: not the canonical one, the id as
-- prefix, and the extension in any case.
unfoldable pub is_copy_name : String → String → Bool
unfolding after_prefix has_suffix lower
is_copy_name id name =
    not (str_eq name (append id ".chunk"))
    && (is_some (after_prefix (codes id) (codes name))
        && has_suffix (codes ".chunk") (map lower (codes name)))

abbrev pub split_nonce : ℕ → Option Bytes → Result ChunkError (Bytes × Bytes)
split_nonce n none = err bad_magic
split_nonce n (some rest) =
    if ltb (length rest) n then err too_short else ok (take n rest, drop n rest)

unfoldable pub decode_encrypted : Bytes → ℕ → Bytes → Result ChunkError (Bytes × Bytes)
unfolding after_prefix
decode_encrypted magic n xs = split_nonce n (after_prefix magic xs)

abbrev pub present {ℓ} : {A : Type ℓ} → ChunkError → Option A → Result ChunkError A
present e none = err e
present e (some a) = ok a

module _ (c : Crypto) where
  abbrev pub verified : Ref → Bytes → Result ChunkError Bytes
  verified r plain =
      if not (length plain == r.size)
      then err wrong_size
      else if not (str_eq (c.digest plain) r.id)
      then err wrong_id
      else ok plain

  abbrev pub opened : Ref → Bytes × Bytes → Result ChunkError Bytes
  opened r (nonce, ct) = do plain ← present not_authentic (c.unseal r.id nonce ct); verified r plain

  unfoldable pub decode_chunk : Bytes → Ref → Result ChunkError Bytes
  unfolding decode_encrypted
  decode_chunk object r = do
    sealed ← decode_encrypted chunk_magic c.nonce_size object
    opened r sealed

  -- `tryConflictChunks`
  unfoldable pub try_conflict_chunks : Dict String Bytes → Ref → Option Bytes
  unfolding is_copy_name
  try_conflict_chunks [] r = none
  try_conflict_chunks ((name, object) ∷ m) r =
      let rest = try_conflict_chunks m r in
      if is_copy_name r.id name
      then elim (decode_chunk object r) [ ok plain ↦ some plain | err e ↦ rest ]
      else rest

  abbrev pub recovered : ChunkError → Option Bytes → Result ChunkError Bytes
  recovered e none = err e
  recovered e (some plain) = ok plain

  unfoldable pub load_chunk : Objects → Ref → Result ChunkError Bytes
  unfolding decode_chunk try_conflict_chunks
  load_chunk o r = elim (get r.id o.canonical) [
    | none ↦ recovered not_present (try_conflict_chunks o.renamed r)
    | some object ↦ elim (decode_chunk object r) [
      | ok plain ↦ ok plain
      | err e ↦ recovered e (try_conflict_chunks o.renamed r)
    ]
  ]

  -- `storeChunk` with the nonce that it draws: the objects, the reference, and whether it is new.
  unfoldable pub store_chunk : Objects → Bytes → Bytes → Objects × Ref × Bool
  unfolding encode_encrypted
  store_chunk o nonce plain =
      let id = c.digest plain in
      let ref : Ref = record { id = id; size = length plain } in
      let object = encode_encrypted chunk_magic nonce (c.seal id nonce plain) in
      elim (get id o.canonical) [
        | some _ ↦ (o, ref, false)
        | none ↦ (record o { canonical = put id object o.canonical }, ref, true)
      ]

  -- The callback of `putReader`, over the chunks of a file; `nonces n` is the n-th draw.
  unfoldable pub store_all : (ℕ → Bytes) → ℕ → Objects → List Bytes → Objects × List Ref
  unfolding store_chunk
  store_all nonces n o [] = (o, [])
  store_all nonces n o (plain ∷ ps) =
      let (o1, ref, created) = store_chunk o (nonces n) plain in
      let (o2, refs) = store_all nonces (suc n) o1 ps in (o2, ref ∷ refs)

  -- The loop of `WriteFileTo`: what is written where every chunk can be loaded.
  unfoldable pub write_chunks : Objects → List Ref → Result ChunkError Bytes
  unfolding load_chunk
  write_chunks o [] = ok []
  write_chunks o (r ∷ rs) = do plain ← load_chunk o r; rest ← write_chunks o rs; ok (plain ++ rest)
