-- ===== src/Vault/Reader/Presence.antt =====
-- internal/vault/reader.go: what `VerifyChunkPresence` guarantees where it returns no error.
use mathlib.Core.Option.{some-injective}
use mathlib.Core.Path.{subst}
use text.Mathlib.TextEquality.{eq_iff}
use open_seavault_rclone.Shared.Dict.{string_eq}
use open_seavault_rclone.Shared.Int.{ℤ, pos, negsuc, pos_part, ltb_ℤ}
use open_seavault_rclone.Shared.{
  ℕ, zero, suc, ◌+◌, ◌-◌, ◌≤◌, ◌<◌, min, String, ◌≡◌, ◌≢◌, ◌⊎◌, inl, inr, refl, ap, sym, ◌∙◌, Bool,
  true, false, ◌||◌, Option, none, some, List, [], ◌∷◌, arith, take, drop, get_elem?, leb, ◌==◌,
  str_eq, if◌then◌else◌, Bool-cases, Option-cases,
}
use open_seavault_rclone.Vault.Clock.{max_int64}
use open_seavault_rclone.Vault.Objects.{Bytes, Ref, Objects}
use open_seavault_rclone.Vault.ChunkCache.{
  Entry, ChunkCache, find, others, move_to_front, get_chunk,
}
use open_seavault_rclone.Vault.Reader.{
  ReadError, chunks_pending, FileReader, first_above, chunk_index_for, shared_get, is_present,
  int64_end, int64_before, chunk_index_of, past_chunks, verify_loop, verify_chunk_presence,
}

find-others :
    (id other : String) (es : List Entry)
    → str_eq id other ≡ false
    → find other (others id es) ≡ find other es
unfolding find others
find-others id other [] h = refl
find-others id other (e ∷ es) h = elim (Bool-cases (str_eq e.id id)) [
  | inr n ↦ rw (n, find-others id other es h) refl
  | inl y ↦ rw (y, (eq_iff e.id id).0 y, h) refl
]

-- A lookup leaves every lookup after it as it was.
pub find-get_chunk :
    (id other : String) (c : ChunkCache)
    → find other (get_chunk id c).0.entries ≡ find other c.entries
unfolding get_chunk move_to_front find
find-get_chunk id other c = elim (Option-cases (find id c.entries)) [
  | inl a ↦ rw (a, get_chunk) refl
  | inr a ↦
      rw (a.1, get_chunk)
        (elim (Bool-cases (str_eq id other)) [
          | inl y ↦ rw y (sym a.1 ∙ ap (λ (s : String). find s c.entries) ((eq_iff id other).0 y))
          | inr n ↦ rw n (find-others id other c.entries n)
        ])
]

-- The text of the reference can be served without the disk, or its object is there.
abbrev pub Served : Objects → Option ChunkCache → Ref → Type 0
Served o none r = is_present o r ≡ true
Served o (some c) r = (find r.id c.entries ≢ none) ⊎ (is_present o r ≡ true)

module _ (o : Objects) where
  found_Served :
      (r : Ref) (s : Option ChunkCache) (b : Bytes) → (shared_get r s).1 ≡ some b → Served o s r
  found_Served r none b h = absurd (ground arith)
  found_Served r (some c) b h = inl (λ e. let z = found e in absurd (ground arith))
    where
      found : find r.id c.entries ≡ none → (get_chunk r.id c).1 ≡ none
      found e = unfold get_chunk in ground arith

  present_Served : (r : Ref) (s : Option ChunkCache) → is_present o r ≡ true → Served o s r
  present_Served r none h = h
  present_Served r (some c) h = inr h

  before_Served : (r q : Ref) (s : Option ChunkCache) → Served o (shared_get r s).0 q → Served o s q
  before_Served r q none h = h
  before_Served r q (some c) (inr h) = inr h
  before_Served r q (some c) (inl h) = inl (λ e. h (find-get_chunk r.id q.id c ∙ e))

  verify_loop-Served :
      (f : FileReader) (rs : List Ref) (i : ℕ) (q : Ref)
      → (verify_loop o f rs).1 ≡ none
      → get_elem? rs i ≡ some q
      → Served o f.shared q
  unfolding verify_loop
  verify_loop-Served f [] i q h e = absurd (ground arith)
  verify_loop-Served f (r ∷ rs) i q h e =
      chosen i (shared_get r f.shared).1 refl h e (λ j. verify_loop-Served f' rs j q)
    where
      f' : FileReader
      f' = record f { shared = (shared_get r f.shared).0 }

      later :
          (j : ℕ)
          → Served o f.shared r
          → get_elem? (r ∷ rs) j ≡ some q
          → (verify_loop o f' rs).1 ≡ none
          → ((k : ℕ)
              → (verify_loop o f' rs).1 ≡ none
              → get_elem? rs k ≡ some q
              → Served o f'.shared q)
          → Served o f.shared q
      later zero s g t ih = subst (Served o f.shared) (some-injective _ _ g) s
      later (suc j) s g t ih = before_Served r q f.shared (ih j t g)

      chosen :
          (j : ℕ) (found : Option Bytes)
          → (shared_get r f.shared).1 ≡ found
          → (elim found as (λ (_ : Option Bytes). FileReader × Option ReadError) [
            | some _ ↦ verify_loop o f' rs
            | none ↦ if is_present o r then verify_loop o f' rs else (f', some chunks_pending)
          ]).1
            ≡ none
          → get_elem? (r ∷ rs) j ≡ some q
          → ((k : ℕ)
              → (verify_loop o f' rs).1 ≡ none
              → get_elem? rs k ≡ some q
              → Served o f'.shared q)
          → Served o f.shared q
      chosen j (some b) a t g ih = later j (found_Served r f.shared b a) g t ih
      chosen j none a t g ih = elim (Bool-cases (is_present o r)) [
        | inl y ↦ later j (present_Served r f.shared y) g (rw y at t) ih
        | inr n ↦ absurd (let z = rw n at t in ground arith)
      ]

  first_above_mono : (a b : ℕ) (es : List ℕ) → a ≤ b → first_above a es ≤ first_above b es
  unfolding first_above
  first_above_mono a b [] h = omega arith
  first_above_mono a b (e ∷ es) h = let rest = first_above_mono a b es h in ground arith

  get_elem?-take : (k i : ℕ) (xs : List Ref) → i < k → get_elem? (take k xs) i ≡ get_elem? xs i
  get_elem?-take zero i xs h = absurd (omega arith)
  get_elem?-take (suc k) i [] h = refl
  get_elem?-take (suc k) zero (x ∷ xs) h = refl
  get_elem?-take (suc k) (suc i) (x ∷ xs) h = get_elem?-take k i xs (omega arith)

  get_elem?-drop :
      (l i : ℕ) (xs : List Ref) → l ≤ i → get_elem? (drop l xs) (i - l) ≡ get_elem? xs i
  get_elem?-drop zero i xs h = ap (get_elem? xs) {x = i - 0} {y = i} (omega arith)
  get_elem?-drop (suc l) i [] h = refl
  get_elem?-drop (suc l) zero (x ∷ xs) h = absurd (omega arith)
  get_elem?-drop (suc l) (suc i) (x ∷ xs) h =
      ap (get_elem? (drop l xs)) {x = suc i - suc l} {y = i - l} (omega arith)
      ∙ get_elem?-drop l i xs (omega arith)

  -- The position before the end of a range that does not wrap, within a file of int64 size.
  last_position :
      (size start len : ℕ)
      → start + len ≤ max_int64
      → 0 < len
      → start < size
      → int64_before
          (if ltb_ℤ (pos size) (int64_end start len) then pos size else int64_end start len)
        ≡ pos (min (start + len) size - 1)
  unfolding int64_before int64_end
  last_position size start len fits nonempty inside =
      let unwrapped : leb (start + len) max_int64 ≡ true = ground arith in
      rw unwrapped (before (start + len) size (omega arith) (omega arith))
    where
      before :
          (a b : ℕ)
          → 0 < a
          → 0 < b
          → int64_before (if ltb_ℤ (pos b) (pos a) then pos b else pos a) ≡ pos (min a b - 1)
      before zero b p q = absurd (omega arith)
      before (suc a) zero p q = absurd (omega arith)
      before (suc a) (suc b) p q = ground arith

  not_past :
      (past : Bool) (t : FileReader × Option ReadError) → (past_chunks past t).1 ≡ none → t.1 ≡ none
  not_past past (f, none) h = refl
  not_past past (f, some e) h = h

  -- Where `VerifyChunkPresence` returns no error and the end of the range is within int64, the chunk
  -- of every position of the range that lies in the file can be served from the shared cache, or its
  -- object is there. A negative offset counts as 0, a negative length as an empty range.
  pub verify_chunk_presence-Served :
      (f : FileReader) (off len : ℤ) (p : ℕ) (r : Ref)
      → pos_part off + pos_part len ≤ max_int64
      → (verify_chunk_presence o f off len).1 ≡ none
      → pos_part off ≤ p
      → p < pos_part off + pos_part len
      → p < f.size
      → get_elem? f.refs (chunk_index_for f p) ≡ some r
      → Served o f.shared r
  unfolding verify_chunk_presence chunk_index_for chunk_index_of
  verify_chunk_presence-Served f off (negsuc k) p r fits h low high inside e = absurd (omega arith)
  verify_chunk_presence-Served f off (pos len) p r fits h low high inside e =
      elim (Bool-cases (len == 0 || leb f.size (pos_part off))) [
        | inl y ↦ absurd (ground arith)
        | inr n ↦
            let last = last_position f.size (pos_part off) len fits (omega arith) (omega arith) in
            let loop = not_past _ _ (rw last at (rw n at h)) in
            let i = first_above p (drop 1 f.offsets) in
            let l = first_above (pos_part off) (drop 1 f.offsets) in
            let m = first_above (min (pos_part off + len) f.size - 1) (drop 1 f.offsets) in
            let above : l ≤ i = first_above_mono (pos_part off) p (drop 1 f.offsets) low in
            let below : i ≤ m =
              first_above_mono p (min (pos_part off + len) f.size - 1) (drop 1 f.offsets)
                (omega arith) in
            verify_loop-Served f (take (suc m - l) (drop l f.refs)) (i - l) r loop (
              get_elem?-take (suc m - l) (i - l) (drop l f.refs) (omega arith)
              ∙ get_elem?-drop l i f.refs above
              ∙ e)
      ]
