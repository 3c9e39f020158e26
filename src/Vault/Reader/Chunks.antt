-- ===== src/Vault/Reader/Chunks.antt =====
-- internal/vault/reader.go: a reader of one file, and the chunk that `chunkAtLocked` gives it.
use mathlib.Core.List.{flatten}
use mathlib.Core.Option.{some-injective}
use mathlib.Core.Path.{subst}
use open_seavault_rclone.Shared.Result.{Result, ok, err}
use open_seavault_rclone.Shared.{
  ℕ, zero, suc, String, ◌≡◌, inl, inr, refl, ap, sym, ◌∙◌, false, Option, none, some, List, [], ◌∷◌,
  map, arith, length, get_elem?, ◌==◌, Bool-cases, Option-cases, All,
}
use open_seavault_rclone.Vault.Objects.{Bytes, Crypto, Ref, Objects, ChunkError, load_chunk}
use open_seavault_rclone.Shared.Result.{Ensures}
use open_seavault_rclone.Vault.Objects.Authentic.{Belongs, load_chunk-Ensures}
use open_seavault_rclone.Vault.Objects.RoundTrip.{ref_of, IsUnique}
use open_seavault_rclone.Vault.ChunkCache.{ChunkCache, get_chunk, find}
use open_seavault_rclone.Vault.ChunkCache.Lookup.{
  Keeps, find-Keeps, get_chunk-Keeps, put_chunk-Keeps,
}
use open_seavault_rclone.Vault.Reader.{
  ReadError, load_failed, FileReader, ends, shared_get, shared_put, one_chunk, fetch,
  chunk_at_locked,
}

module _ (c : Crypto) where
  -- Every text of the shared cache has the digest that it is kept under.
  abbrev pub SharedIsSound : Option ChunkCache → Type 0
  SharedIsSound none = Unit
  SharedIsSound (some cache) = Keeps (λ (id : String) (b : Bytes). c.digest b ≡ id) cache.entries

  abbrev pub CachedIsSound : List Bytes → Option (ℕ × Bytes) → Type 0
  CachedIsSound ps none = Unit
  CachedIsSound ps (some (i, b)) = get_elem? ps i ≡ some b

  -- The reader is open on the file whose chunks are `ps`, and its caches hold texts of the file.
  pub record IsServing (ps : List Bytes) (f : FileReader) : Type 0 where
    pub refs : f.refs ≡ map (ref_of c) ps
    pub offsets : f.offsets ≡ 0 ∷ ends 0 (map (ref_of c) ps)
    pub size : f.size ≡ length (flatten ps)
    pub open_now : f.closed ≡ false
    pub cached : CachedIsSound ps f.cached
    pub shared : SharedIsSound f.shared

  get_elem?-map :
      (ps : List Bytes) (i : ℕ) (p : Bytes)
      → get_elem? ps i ≡ some p
      → get_elem? (map (ref_of c) ps) i ≡ some (ref_of c p)
  get_elem?-map [] i p h = absurd (ground arith)
  get_elem?-map (q ∷ ps) zero p h = ap (λ (x : Bytes). some (ref_of c x)) (some-injective _ _ h)
  get_elem?-map (q ∷ ps) (suc i) p h = get_elem?-map ps i p h

  unique-get_elem? :
      (ps : List Bytes) (i : ℕ) (p : Bytes)
      → All (IsUnique c) ps
      → get_elem? ps i ≡ some p
      → IsUnique c p
  unique-get_elem? [] i p a h = absurd (ground arith)
  unique-get_elem? (q ∷ ps) zero p a h = subst (IsUnique c) (some-injective _ _ h) a.0
  unique-get_elem? (q ∷ ps) (suc i) p a h = unique-get_elem? ps i p a.1 h

  shared_get-IsSound :
      (r : Ref) (s : Option ChunkCache)
      → SharedIsSound s
      → SharedIsSound (shared_get r s).0
        × ((b : Bytes) → (shared_get r s).1 ≡ some b → c.digest b ≡ r.id)
  shared_get-IsSound r none h = (tt, λ b e. absurd (ground arith))
  shared_get-IsSound r (some cache) h = (
    get_chunk-Keeps (λ (id : String) (b : Bytes). c.digest b ≡ id) r.id cache h,
    λ b e.
        find-Keeps (λ (id : String) (x : Bytes). c.digest x ≡ id) r.id b cache.entries h
          (found b e),
  )
    where
      found : (b : Bytes) → (get_chunk r.id cache).1 ≡ some b → find r.id cache.entries ≡ some b
      found b e = unfold get_chunk in ground arith

  shared_put-IsSound :
      (p : Bytes) (s : Option ChunkCache)
      → SharedIsSound s
      → SharedIsSound (shared_put (ref_of c p) p s)
  shared_put-IsSound p none h = tt
  shared_put-IsSound p (some cache) h =
      put_chunk-Keeps (λ (id : String) (b : Bytes). c.digest b ≡ id) (c.digest p) p cache h refl

  module _ (o : Objects) (ps : List Bytes) (unique : All (IsUnique c) ps) where
    -- Some chunk of the file cannot be loaded.
    pub record Gap (e : ChunkError) : Type 0 where
      pub plain : Bytes
      pub index : ℕ
      pub held : get_elem? ps index ≡ some plain
      pub fails : load_chunk c o (ref_of c plain) ≡ err e

    abbrev pub Yields : Bytes → Result ReadError Bytes → Type 0
    Yields p (ok b) = b ≡ p
    Yields p (err e) = (x : ChunkError) × (e ≡ load_failed x) × Gap x

    abbrev pub Fetched : Bytes → FileReader × Result ReadError Bytes → Type 0
    Fetched p (f, r) = IsServing ps f × Yields p r

    fetch-Fetched :
        (f : FileReader) (i : ℕ) (p : Bytes)
        → IsServing ps f
        → get_elem? ps i ≡ some p
        → Fetched p (fetch c o f i (ref_of c p))
    unfolding fetch
    fetch-Fetched f i p s h =
        found (shared_get (ref_of c p) f.shared).0 (shared_get (ref_of c p) f.shared).1
          (shared_get-IsSound (ref_of c p) f.shared s.shared)
      where
        serving :
            (k : Option (ℕ × Bytes)) (q : Option ChunkCache)
            → CachedIsSound ps k
            → SharedIsSound q
            → IsServing ps (record f { cached = k; shared = q })
        serving k q a b = record {
          refs = s.refs;
          offsets = s.offsets;
          size = s.size;
          open_now = s.open_now;
          cached = a;
          shared = b;
        }

        loaded :
            (q : Option ChunkCache) (r : Result ChunkError Bytes)
            → SharedIsSound q
            → load_chunk c o (ref_of c p) ≡ r
            → Ensures (Belongs c (ref_of c p)) r
            → Fetched p (elim r [
              | err e ↦ (record f { shared = q }, err (load_failed e))
              | ok plain ↦ (
                record f { shared = shared_put (ref_of c p) plain q; cached = some (i, plain) },
                ok plain,
              )
            ])
        loaded q (err e) a l t = (
          serving f.cached q s.cached a,
          (e, refl, record { plain = p; index = i; held = h; fails = l }),
        )
        loaded q (ok plain) a l t =
            let same = unique-get_elem? ps i p unique h plain t.same_digest in
            subst
              (λ (x : Bytes).
                Fetched p
                  (record f { shared = shared_put (ref_of c p) x q; cached = some (i, x) }, ok x))
              (sym same)
              (
                serving (some (i, p)) (shared_put (ref_of c p) p q) h (shared_put-IsSound p q a),
                refl,
              )

        found :
            (q : Option ChunkCache) (b : Option Bytes)
            → SharedIsSound q × ((x : Bytes) → b ≡ some x → c.digest x ≡ c.digest p)
            → Fetched p (elim b [
              | some plain ↦ (record f { shared = q; cached = some (i, plain) }, ok plain)
              | none ↦ elim (load_chunk c o (ref_of c p)) [
                | err e ↦ (record f { shared = q }, err (load_failed e))
                | ok plain ↦ (
                  record f { shared = shared_put (ref_of c p) plain q; cached = some (i, plain) },
                  ok plain,
                )
              ]
            ])
        found q none a =
            loaded q (load_chunk c o (ref_of c p)) a.0 refl (load_chunk-Ensures c (ref_of c p) o)
        found q (some x) a =
            let same = unique-get_elem? ps i p unique h x (a.1 x refl) in
            (serving (some (i, x)) q (h ∙ ap some (sym same)) a.0, same)

    pub chunk_at_locked-Fetched :
        (f : FileReader) (i : ℕ) (p : Bytes)
        → IsServing ps f
        → get_elem? ps i ≡ some p
        → Fetched p (chunk_at_locked c o f i)
    unfolding chunk_at_locked
    chunk_at_locked-Fetched f i p s h = elim (Option-cases (one_chunk f.cached i)) [
      | inr a ↦ rw (a.1, chunk_at_locked) (s, hit f.cached a.0 s.cached a.1)
      | inl a ↦ rw (a, s.refs, get_elem?-map ps i p h, chunk_at_locked) (fetch-Fetched f i p s h)
    ]
      where
        hit :
            (k : Option (ℕ × Bytes)) (b : Bytes)
            → CachedIsSound ps k
            → one_chunk k i ≡ some b
            → b ≡ p
        hit none b a e = absurd (ground arith)
        hit (some (j, x)) b a e = elim (Bool-cases (j == i)) [
          | inr n ↦ absurd (let z = rw n at e in ground arith)
          | inl y ↦
              let same : j ≡ i = ground arith in
              let z = rw y at e in
              sym (some-injective _ _ z)
              ∙ some-injective _ _ (sym a ∙ ap (λ (n : ℕ). get_elem? ps n) same ∙ h)
        ]
