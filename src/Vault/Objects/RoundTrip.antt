-- ===== src/Vault/Objects/RoundTrip.antt =====
-- internal/vault/vault.go and chunker.go: a file that is cut, stored and read again is the same.
use mathlib.Core.List.{flatten}
use mathlib.Core.Path.{subst, ap₂}
use mathlib.Core.Option.{some-injective}
use mathlib.Core.Sum.{inr-injective}
use text.Mathlib.TextPositions.{eq_refl}
use text.Mathlib.TextEquality.{eq_iff}
use open_seavault_rclone.Shared.Dict.{get, string_eq, get-put}
use open_seavault_rclone.Shared.Result.{Result, ok, ◌>>=◌}
use open_seavault_rclone.Shared.{
  ℕ, suc, String, ◌≡◌, inl, inr, refl, ap, sym, ◌∙◌, false, none, some, List, [], ◌∷◌, ◌++◌, arith,
  All, length, str_eq, if◌then◌else◌, Option-cases, Bool-cases, length-append, map, ltb,
  take-length-append, drop-length-append,
}
use open_seavault_rclone.Vault.Chunker.{ChunkParams, validate, for_each_chunk}
use open_seavault_rclone.Vault.Chunker.Sizes.{for_each_chunk_lem}
use open_seavault_rclone.Vault.Objects.{
  Bytes, Crypto, IsAead, Ref, Objects, ChunkError, encode_encrypted, after_prefix, decode_encrypted,
  chunk_magic, opened, decode_chunk, load_chunk, store_chunk, store_all, write_chunks,
}

pub after_prefix-append : (p xs : Bytes) → after_prefix p (p ++ xs) ≡ some xs
unfolding after_prefix
after_prefix-append [] xs = refl
after_prefix-append (b ∷ p) xs = ground (arith, after_prefix-append p xs)

-- `decodeEncrypted` takes apart what `encodeEncrypted` put together.
pub decode-encode :
    (magic nonce ct : Bytes)
    → decode_encrypted magic (length nonce) (encode_encrypted magic nonce ct) ≡ ok (nonce, ct)
unfolding decode_encrypted encode_encrypted
decode-encode magic nonce ct =
    let enough : ltb (length (nonce ++ ct)) (length nonce) ≡ false =
      ground (arith, length-append nonce ct) in
    rw (after_prefix-append, enough, take-length-append, drop-length-append) refl

module _ (c : Crypto) where
  abbrev pub ref_of : Bytes → Ref
  ref_of plain = record { id = c.digest plain; size = length plain }

  -- The canonical object of a text is there and decodes to it.
  pub record Holds (o : Objects) (plain : Bytes) : Type 0 where
    pub object : Bytes
    pub stored : get (c.digest plain) o.canonical ≡ some object
    pub decodes : decode_chunk c object (ref_of plain) ≡ ok plain

  -- Every canonical object decodes to some text with the digest that names it.
  pub record IsIntact (o : Objects) : Type 0 where
    pub decodes :
        (id : String) (object : Bytes)
        → get id o.canonical ≡ some object
        → (plain : Bytes) × (c.digest plain ≡ id)
          × (decode_chunk c object (ref_of plain) ≡ ok plain)

  -- No other text has the digest of this one.
  abbrev pub IsUnique : Bytes → Type 0
  IsUnique plain = (other : Bytes) → c.digest other ≡ c.digest plain → other ≡ plain

  pub load-Holds :
      (o : Objects) (plain : Bytes) → Holds o plain → load_chunk c o (ref_of plain) ≡ ok plain
  unfolding load_chunk
  load-Holds o plain h = rw (h.stored, h.decodes, load_chunk) refl

  module _ (aead : IsAead c) where
    sealed_decodes :
        (nonce plain : Bytes)
        → length nonce ≡ c.nonce_size
        → decode_chunk c
            (encode_encrypted chunk_magic nonce (c.seal (c.digest plain) nonce plain))
            (ref_of plain)
          ≡ ok plain
    unfolding decode_chunk
    sealed_decodes nonce plain e =
        let ct = c.seal (c.digest plain) nonce plain in
        let parts : decode_encrypted chunk_magic c.nonce_size
              (encode_encrypted chunk_magic nonce ct)
            ≡ ok (nonce, ct) =
          rw e at (decode-encode chunk_magic nonce ct) in
        ap (λ (d : Result ChunkError (Bytes × Bytes)). d >>= opened c (ref_of plain)) parts
        ∙ rw (aead.unseal-seal, eq_refl (c.digest plain)) (ground arith)

    -- `storeChunk` leaves the text stored, whatever else was stored stored, and the objects intact.
    module _ (nonce plain : Bytes) (o : Objects) (fits : length nonce ≡ c.nonce_size) where
      abbrev after : Objects
      after = (store_chunk c o nonce plain).0

      store_chunk-ref : (store_chunk c o nonce plain).1 ≡ ref_of plain
      unfolding store_chunk
      store_chunk-ref = ground arith

      get-store_chunk :
          (id : String)
          → get id after.canonical ≡ (elim (get (c.digest plain) o.canonical) [
            | some _ ↦ get id o.canonical
            | none ↦
                if str_eq (c.digest plain) id
                then some (encode_encrypted chunk_magic nonce (c.seal (c.digest plain) nonce plain))
                else get id o.canonical
          ])
      unfolding store_chunk
      get-store_chunk id = ground (
        arith,
        get-put (c.digest plain) id
            (encode_encrypted chunk_magic nonce (c.seal (c.digest plain) nonce plain)) o.canonical,
      )

      store_chunk-Holds : IsIntact o → IsUnique plain → Holds after plain
      store_chunk-Holds intact unique = elim (Option-cases (get (c.digest plain) o.canonical)) [
        | inl a ↦ record {
          object = encode_encrypted chunk_magic nonce (c.seal (c.digest plain) nonce plain);
          stored = get-store_chunk (c.digest plain) ∙ rw (a, eq_refl (c.digest plain)) refl;
          decodes = sealed_decodes nonce plain fits;
        }
        | inr a ↦
            let held = intact.decodes (c.digest plain) a.0 a.1 in
            let same = unique held.0 held.1 in
            record {
              object = a.0;
              stored = get-store_chunk (c.digest plain) ∙ rw (a.1, a.1) refl;
              decodes = subst (λ (t : Bytes). decode_chunk c a.0 (ref_of t) ≡ ok t) same held.2;
            }
      ]

      get-store_chunk_some :
          (id : String) (object : Bytes)
          → get id o.canonical ≡ some object
          → get id after.canonical ≡ some object
      get-store_chunk_some id object h = elim (Option-cases (get (c.digest plain) o.canonical)) [
        | inr a ↦ get-store_chunk id ∙ rw a.1 h
        | inl a ↦
            get-store_chunk id
            ∙ rw a (elim (Bool-cases (str_eq (c.digest plain) id)) [
              | inr other ↦ rw other h
              | inl same ↦
                  let clash : get id o.canonical ≡ none =
                    rw ((eq_iff (c.digest plain) id).0 same) at a in
                  absurd (let none_some = sym clash ∙ h in ground arith)
            ])
      ]

      store_chunk-keeps : (other : Bytes) → Holds o other → Holds after other
      store_chunk-keeps other h = record {
        object = h.object;
        stored = get-store_chunk_some (c.digest other) h.object h.stored;
        decodes = h.decodes;
      }

      store_chunk-IsIntact : IsIntact o → IsIntact after
      store_chunk-IsIntact intact = record {
        decodes = λ id object h. elim (Option-cases (get (c.digest plain) o.canonical)) [
          | inr a ↦ intact.decodes id object (let g = sym (get-store_chunk id) ∙ h in rw a.1 at g)
          | inl a ↦
              let g = rw a at (sym (get-store_chunk id) ∙ h) in
              elim (Bool-cases (str_eq (c.digest plain) id)) [
                | inr other ↦ intact.decodes id object (rw other at g)
                | inl same ↦
                    let is_new = some-injective _ _ (rw same at g) in
                    (
                      plain,
                      (eq_iff (c.digest plain) id).0 same,
                      subst (λ (x : Bytes). decode_chunk c x (ref_of plain) ≡ ok plain) is_new
                          (sealed_decodes nonce plain fits),
                    )
              ]
        ];
      }

    -- All chunks of a file, with what was stored before.
    pub store_all-Holds :
        (nonces : ℕ → Bytes) (n : ℕ) (o : Objects) (ps : List Bytes)
        → ((k : ℕ) → length (nonces k) ≡ c.nonce_size)
        → IsIntact o
        → All IsUnique ps
        → let (o', refs) = store_all c nonces n o ps in
          All (Holds o') ps
          × (refs ≡ map ref_of ps)
          × IsIntact o'
          × ((other : Bytes) → Holds o other → Holds o' other)
    unfolding store_all
    store_all-Holds nonces n o [] fits intact unique = (tt, refl, intact, λ other h. h)
    store_all-Holds nonces n o (plain ∷ ps) fits intact unique =
        let o1 = (store_chunk c o (nonces n) plain).0 in
        let rest =
          store_all-Holds nonces (suc n) o1 ps fits
            (store_chunk-IsIntact (nonces n) plain o (fits n) intact) unique.1 in
        (
          (rest.3 plain (store_chunk-Holds (nonces n) plain o (fits n) intact unique.0), rest.0),
          ap₂ ◌∷◌ (store_chunk-ref (nonces n) plain o (fits n)) rest.1,
          rest.2,
          λ other h. rest.3 other (store_chunk-keeps (nonces n) plain o (fits n) other h),
        )

  write_chunks-Holds :
      (o : Objects) (ps : List Bytes)
      → All (Holds o) ps
      → write_chunks c o (map ref_of ps) ≡ ok (flatten ps)
  unfolding write_chunks flatten
  write_chunks-Holds o [] h = refl
  write_chunks-Holds o (plain ∷ ps) (h, hs) =
      rw (load-Holds o plain h, write_chunks-Holds o ps hs) refl

  -- A file that is cut by accepted sizes, stored chunk by chunk, and written out from the references
  -- is the same again, if the objects were intact before, the nonces have the AEAD's length, and no
  -- other text has the digest of one of the chunks.
  pub stored_file_reads_back :
      (p : ChunkParams) (bytes : Bytes) (cs : List Bytes) (o : Objects) (nonces : ℕ → Bytes)
      → IsAead c
      → validate p ≡ none
      → for_each_chunk p bytes ≡ inr cs
      → ((k : ℕ) → length (nonces k) ≡ c.nonce_size)
      → IsIntact o
      → All IsUnique cs
      → let (o', refs) = store_all c nonces 0 o cs in write_chunks c o' refs ≡ ok bytes
  stored_file_reads_back p bytes cs o nonces aead valid cut fits intact unique =
      let t = for_each_chunk_lem p bytes valid in
      let same = inr-injective _ _ (sym cut ∙ t.1) in
      let s = store_all-Holds aead nonces 0 o cs fits intact unique in
      rw s.1 (write_chunks-Holds _ cs s.0) ∙ ap ok (ap flatten same ∙ t.2)
