-- ===== src/Vault/ChunkCache/Bounds.antt =====
-- internal/vault/reader.go: the cache counts its bytes exactly and stays within its bound.
use open_seavault_rclone.Shared.{
  ℕ, zero, suc, ◌+◌, ◌≤◌, String, ◌≡◌, inl, inr, refl, ap, ◌∙◌, some, List, [], ◌∷◌, arith, length,
  ltb, str_eq, Bool-cases, Option-cases,
}
use mathlib.Core.Option.{some-injective}
use open_seavault_rclone.Vault.Objects.{Bytes}
use open_seavault_rclone.Vault.ChunkCache.{
  Entry, ChunkCache, new_chunk_cache, find, others, move_to_front, get_chunk, pop_back, evict_back,
  evict_loop, insert_front, put_chunk,
}

unfoldable pub total : List Entry → ℕ
total [] = 0
total (e ∷ es) = length e.bytes + total es

pub record IsBounded (c : ChunkCache) : Type 0 where
  pub counted : c.cur_bytes ≡ total c.entries
  pub within : c.cur_bytes ≤ c.max_bytes

pub total-pop_back :
    (e : Entry) (es : List Entry)
    → total (e ∷ es) ≡ total (pop_back e es).0 + length (pop_back e es).1.bytes
unfolding total pop_back
total-pop_back e [] = omega arith
total-pop_back e (f ∷ es) = omega (arith, total-pop_back f es)

length-pop_back : (e : Entry) (es : List Entry) → length (e ∷ es) ≡ suc (length (pop_back e es).0)
unfolding pop_back
length-pop_back e [] = omega arith
length-pop_back e (f ∷ es) = omega (arith, length-pop_back f es)

abbrev cache : ℕ → ℕ → List Entry → ChunkCache
cache bound held es = record { max_bytes = bound; cur_bytes = held; entries = es }

-- A turn of the loop keeps the count and the bound, and leaves one entry less.
evict_back_lem :
    (bound held : ℕ) (e : Entry) (es : List Entry)
    → held ≡ total (e ∷ es)
    → let c = evict_back (cache bound held (e ∷ es)) in
      (c.max_bytes ≡ bound)
      × (c.cur_bytes ≡ total c.entries)
      × (suc (length c.entries) ≡ length (e ∷ es))
unfolding evict_back
evict_back_lem bound held e es h =
    (refl, omega (arith, total-pop_back e es), omega (arith, length-pop_back e es))

evict_loop-IsBounded :
    (n bound held : ℕ) (es : List Entry)
    → length es ≤ n
    → held ≡ total es
    → let c = evict_loop n (cache bound held es) in IsBounded c × (c.max_bytes ≡ bound)
unfolding evict_loop
evict_loop-IsBounded zero bound held [] short h =
    let z : held ≡ 0 = unfold total in h in (record { counted = h; within = omega arith }, refl)
evict_loop-IsBounded zero bound held (e ∷ es) short h = absurd (omega arith)
evict_loop-IsBounded (suc n) bound held [] short h = elim (Bool-cases (ltb bound held)) [
  | inr fits ↦ rw fits (record { counted = h; within = ground arith }, refl)
  | inl over ↦ let z : held ≡ 0 = unfold total in h in absurd (ground arith)
]
evict_loop-IsBounded (suc n) bound held (e ∷ es) short h = elim (Bool-cases (ltb bound held)) [
  | inr fits ↦ rw fits (record { counted = h; within = ground arith }, refl)
  | inl over ↦
      let turn = evict_back_lem bound held e es h in
      let c = evict_back (cache bound held (e ∷ es)) in
      let rest = evict_loop-IsBounded n c.max_bytes c.cur_bytes c.entries (omega arith) turn.1 in
      rw over (rest.0, rest.1 ∙ turn.0)
]

total-others :
    (id : String) (b : Bytes) (es : List Entry)
    → find id es ≡ some b
    → length b + total (others id es) ≡ total es
unfolding find others total
total-others id b [] h = absurd (ground arith)
total-others id b (e ∷ es) h = elim (Bool-cases (str_eq e.id id)) [
  | inl same ↦
      let first = some-injective _ _ (rw same at h) in rw same (omega (arith, ap length first))
  | inr other ↦ rw other (omega (arith, total-others id b es (rw other at h)))
]

-- A lookup changes neither the count nor the bound, only the order of use.
pub get_chunk-IsBounded :
    (id : String) (c : ChunkCache) → IsBounded c → IsBounded (get_chunk id c).0
unfolding get_chunk move_to_front total
get_chunk-IsBounded id c h = elim (Option-cases (find id c.entries)) [
  | inl a ↦ rw (a, get_chunk) h
  | inr a ↦
      rw (a.1, get_chunk)
        (record {
          counted = omega (arith, h.counted, total-others id a.0 c.entries a.1);
          within = h.within;
        })
]

-- A new cache counts no byte; each insertion, eviction included, keeps the count exact and within
-- the bound, which it does not change.
pub put_chunk-IsBounded :
    (id : String) (bytes : Bytes) (c : ChunkCache)
    → IsBounded c
    → IsBounded (put_chunk id bytes c) × ((put_chunk id bytes c).max_bytes ≡ c.max_bytes)
unfolding put_chunk move_to_front insert_front total
put_chunk-IsBounded id bytes c h = elim (Option-cases (find id c.entries)) [
  | inr a ↦
      rw (a.1, put_chunk)
        (
          record {
            counted = omega (arith, h.counted, total-others id a.0 c.entries a.1);
            within = h.within;
          },
          refl,
        )
  | inl a ↦ elim (Bool-cases (ltb c.max_bytes (length bytes))) [
    | inl big ↦ rw (a, big, put_chunk) (h, refl)
    | inr fits ↦
        rw (a, fits, put_chunk)
          (evict_loop-IsBounded (suc (length c.entries)) c.max_bytes (c.cur_bytes + length bytes)
            (record { id = id; bytes = bytes } ∷ c.entries) (omega arith)
            (omega (arith, h.counted)))
  ]
]

-- A run of lookups and insertions, from a new cache.
pub data Use : Type 0 where
  got : String → Use
  stored : String → Bytes → Use

abbrev pub after : ChunkCache → List Use → ChunkCache
after c [] = c
after c (got id ∷ us) = after (get_chunk id c).0 us
after c (stored id bytes ∷ us) = after (put_chunk id bytes c) us

after-IsBounded : (us : List Use) (c : ChunkCache) → IsBounded c → IsBounded (after c us)
after-IsBounded [] c h = h
after-IsBounded (got id ∷ us) c h = after-IsBounded us _ (get_chunk-IsBounded id c h)
after-IsBounded (stored id bytes ∷ us) c h =
    after-IsBounded us _ (put_chunk-IsBounded id bytes c h).0

-- After any run of lookups and insertions that starts from a new cache, the cache counts its bytes
-- exactly and holds no more than its bound.
pub new_chunk_cache-IsBounded :
    (bound : ℕ) (us : List Use) → IsBounded (after (new_chunk_cache bound) us)
unfolding new_chunk_cache total
new_chunk_cache-IsBounded bound us =
    after-IsBounded us (new_chunk_cache bound) (record { counted = refl; within = omega arith })
