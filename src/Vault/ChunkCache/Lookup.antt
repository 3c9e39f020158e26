-- ===== src/Vault/ChunkCache/Lookup.antt =====
-- internal/vault/reader.go: what a lookup in the cache returns.
use mathlib.Core.Option.{some-injective}
use mathlib.Core.Path.{subst}
use text.Mathlib.TextEquality.{eq_iff}
use text.Mathlib.TextPositions.{eq_refl}
use open_seavault_rclone.Shared.{
  ℕ, zero, suc, ◌+◌, ◌-◌, ◌≤◌, String, ◌≡◌, inl, inr, refl, false, none, some, List, [], ◌∷◌, arith,
  length, ltb, str_eq, Option-cases, Bool-cases, All,
}
use open_seavault_rclone.Vault.Objects.{Bytes}
use open_seavault_rclone.Vault.ChunkCache.Bounds.{IsBounded, total, total-pop_back}
use open_seavault_rclone.Vault.ChunkCache.{
  Entry, ChunkCache, find, others, move_to_front, get_chunk, pop_back, evict_back, evict_loop,
  insert_front, put_chunk,
}

module _ (P : String → Bytes → Type 0) where
  -- Every entry satisfies `P`.
  abbrev pub Keeps : List Entry → Type 0
  Keeps es = All (λ (e : Entry). P e.id e.bytes) es

  pub find-Keeps :
      (id : String) (b : Bytes) (es : List Entry) → Keeps es → find id es ≡ some b → P id b
  unfolding find
  find-Keeps id b [] h f = absurd (ground arith)
  find-Keeps id b (e ∷ es) h f = elim (Bool-cases (str_eq e.id id)) [
    | inl same ↦
        subst (λ (x : Bytes). P id x) (some-injective _ _ (rw same at f))
          (subst (λ (x : String). P x e.bytes) ((eq_iff e.id id).0 same) h.0)
    | inr other ↦ find-Keeps id b es h.1 (rw other at f)
  ]

  others-Keeps : (id : String) (es : List Entry) → Keeps es → Keeps (others id es)
  unfolding others
  others-Keeps id [] h = tt
  others-Keeps id (e ∷ es) h = elim (Bool-cases (str_eq e.id id)) [
    | inl same ↦ rw same h.1
    | inr other ↦ rw other (h.0, others-Keeps id es h.1)
  ]

  pop_back-Keeps : (e : Entry) (es : List Entry) → Keeps (e ∷ es) → Keeps (pop_back e es).0
  unfolding pop_back
  pop_back-Keeps e [] h = tt
  pop_back-Keeps e (f ∷ es) h = (h.0, pop_back-Keeps f es h.1)

  evict_back-Keeps :
      (bound held : ℕ) (es : List Entry)
      → Keeps es
      → Keeps (evict_back (record { max_bytes = bound; cur_bytes = held; entries = es })).entries
  unfolding evict_back
  evict_back-Keeps bound held [] h = tt
  evict_back-Keeps bound held (e ∷ es) h = pop_back-Keeps e es h

  evict_loop-Keeps : (n : ℕ) (c : ChunkCache) → Keeps c.entries → Keeps (evict_loop n c).entries
  unfolding evict_loop
  evict_loop-Keeps zero c h = h
  evict_loop-Keeps (suc n) c h = elim (Bool-cases (ltb c.max_bytes c.cur_bytes)) [
    | inl over ↦
        rw over
          (evict_loop-Keeps n (evict_back c) (evict_back-Keeps c.max_bytes c.cur_bytes c.entries h))
    | inr fits ↦ rw fits h
  ]

  pub get_chunk-Keeps :
      (id : String) (c : ChunkCache) → Keeps c.entries → Keeps (get_chunk id c).0.entries
  unfolding get_chunk move_to_front
  get_chunk-Keeps id c h = elim (Option-cases (find id c.entries)) [
    | inl a ↦ rw (a, get_chunk) h
    | inr a ↦ rw (a.1, get_chunk) (find-Keeps id a.0 c.entries h a.1, others-Keeps id c.entries h)
  ]

  -- Whatever holds of every text of the cache and of the text that is inserted, holds of every text
  -- of the cache afterwards, after any evictions.
  pub put_chunk-Keeps :
      (id : String) (bytes : Bytes) (c : ChunkCache)
      → Keeps c.entries
      → P id bytes
      → Keeps (put_chunk id bytes c).entries
  unfolding put_chunk move_to_front insert_front
  put_chunk-Keeps id bytes c h p = elim (Option-cases (find id c.entries)) [
    | inr a ↦ rw (a.1, put_chunk) (find-Keeps id a.0 c.entries h a.1, others-Keeps id c.entries h)
    | inl a ↦ elim (Bool-cases (ltb c.max_bytes (length bytes))) [
      | inl big ↦ rw (a, big, put_chunk) h
      | inr fits ↦
          rw (a, fits, put_chunk)
            (evict_loop-Keeps (suc (length c.entries))
              (record {
                max_bytes = c.max_bytes;
                cur_bytes = c.cur_bytes + length bytes;
                entries = record { id = id; bytes = bytes } ∷ c.entries;
              })
              (p, h))
    ]
  ]

module _ (id : String) (b : Bytes) where
  -- The entry that was put in front outlives the evictions, if it fits the bound on its own.
  find-evict_loop :
      (n bound held : ℕ) (es : List Entry)
      → length b ≤ bound
      → held ≡ total (record { id = id; bytes = b } ∷ es)
      → let front : Entry = record { id = id; bytes = b } in
        find id
          (evict_loop n
            (record { max_bytes = bound; cur_bytes = held; entries = front ∷ es })).entries
        ≡ some b
  unfolding find evict_loop evict_back pop_back total
  find-evict_loop zero bound held es fits h = rw (eq_refl id) refl
  find-evict_loop (suc n) bound held [] fits h = elim (Bool-cases (ltb bound held)) [
    | inl over ↦ absurd (ground arith)
    | inr small ↦ rw small (rw (eq_refl id) refl)
  ]
  find-evict_loop (suc n) bound held (f ∷ es) fits h = elim (Bool-cases (ltb bound held)) [
    | inr small ↦ rw small (rw (eq_refl id) refl)
    | inl over ↦
        let (front, back) = pop_back f es in
        rw over (
          find-evict_loop n bound (held - length back.bytes) front fits
            (omega (arith, h, total-pop_back f es)))
  ]

-- A text that fits the bound is found right after it was put: the text that was held under the id
-- before, or else the new one.
pub get-put_chunk :
    (id : String) (b : Bytes) (c : ChunkCache)
    → IsBounded c
    → length b ≤ c.max_bytes
    → (get_chunk id (put_chunk id b c)).1
      ≡ some (elim (find id c.entries) [ none ↦ b | some held ↦ held ])
unfolding get_chunk put_chunk move_to_front insert_front total
get-put_chunk id b c h fits = elim (Option-cases (find id c.entries)) [
  | inr a ↦ rw (a.1, put_chunk) (rw (found a.0 (others id c.entries), get_chunk) refl)
  | inl a ↦ rw (a, small, put_chunk) (rw (kept, get_chunk) refl)
]
  where
    found : (x : Bytes) (es : List Entry) → find id (record { id = id; bytes = x } ∷ es) ≡ some x
    found x es = unfold find in rw (eq_refl id) refl

    small : ltb c.max_bytes (length b) ≡ false
    small = ground arith

    kept :
        find id
          (evict_loop (suc (length c.entries)) (record {
            max_bytes = c.max_bytes;
            cur_bytes = c.cur_bytes + length b;
            entries = record { id = id; bytes = b } ∷ c.entries;
          })).entries
        ≡ some b
    kept =
        find-evict_loop id b (suc (length c.entries)) c.max_bytes (c.cur_bytes + length b) c.entries
          fits (omega (arith, h.counted))
