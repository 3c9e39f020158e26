-- ===== src/Vault/Reader/Stored.antt =====
-- internal/vault/reader.go with vault.go and chunker.go: any part of a stored file can be read.
use mathlib.Core.List.{flatten}
use mathlib.Core.Sum.{inr-injective}
use mathlib.Core.Option.{some-injective}
use mathlib.Core.Path.{subst}
use open_seavault_rclone.Shared.Int.{pos}
use open_seavault_rclone.Shared.Result.{ok}
use open_seavault_rclone.Shared.{
  ℕ, zero, suc, ◌≡◌, get_elem?, inl, inr, refl, ap, sym, ◌∙◌, Bool, true, false, Option, none, some,
  List, [], ◌∷◌, map, length, take, drop, leb, ltb, if◌then◌else◌, arith, All,
}
use open_seavault_rclone.Vault.Chunker.{ChunkParams, validate, for_each_chunk}
use open_seavault_rclone.Vault.Chunker.Sizes.{for_each_chunk_lem}
use open_seavault_rclone.Vault.Objects.{Bytes, Crypto, IsAead, Ref, Objects, store_all}
use open_seavault_rclone.Vault.Objects.RoundTrip.{
  ref_of, IsUnique, IsIntact, Holds, load-Holds, store_all-Holds,
}
use open_seavault_rclone.Vault.ChunkCache.{ChunkCache}
use open_seavault_rclone.Vault.Reader.{
  ReadError, eof, FileReader, new_reader, is_present, all_present, open_reader, read_at,
}
use open_seavault_rclone.Vault.Reader.Positions.{last_offset-flatten}
use open_seavault_rclone.Vault.Reader.Chunks.{SharedIsSound, IsServing}
use open_seavault_rclone.Vault.Reader.Reads.{Answers, ending, read_at-Answers}

-- The error that comes with the last bytes of a file, or with a read from its end or later.
abbrev pub end_error : Bytes → ℕ → ℕ → Option ReadError
end_error bytes want off =
    if leb (length bytes) off
    then some eof
    else if ltb (length (take want (drop off bytes))) want
    then some eof
    else none

abbrev pub with_cache : Option ChunkCache → FileReader → FileReader
with_cache cache f = record f { shared = cache }

opens :
    (o : Objects) (skip : Bool) (refs : List Ref)
    → all_present o refs ≡ true
    → open_reader o skip (some refs) ≡ ok (new_reader refs)
unfolding open_reader
opens o true refs h = refl
opens o false refs h = rw h refl

module _ (c : Crypto) where
  -- The reader after reads of given lengths from given positions.
  abbrev pub after_reads : Objects → FileReader → List (ℕ × ℕ) → FileReader
  after_reads o f [] = f
  after_reads o f ((want, off) ∷ rs) = after_reads o (read_at c o f want (pos off)).0 rs

  new_reader-IsServing :
      (ps : List Bytes) (cache : Option ChunkCache)
      → SharedIsSound c cache
      → IsServing c ps (with_cache cache (new_reader (map (ref_of c) ps)))
  unfolding new_reader
  new_reader-IsServing ps cache h = record {
    refs = refl;
    offsets = refl;
    size = last_offset-flatten c 0 ps ∙ omega arith;
    open_now = refl;
    cached = tt;
    shared = h;
  }

  all_present-Holds :
      (o : Objects) (ps : List Bytes)
      → All (Holds c o) ps
      → all_present o (map (ref_of c) ps) ≡ true
  unfolding all_present is_present
  all_present-Holds o [] h = refl
  all_present-Holds o (p ∷ ps) h = rw (h.0.stored, all_present-Holds o ps h.1, is_present) refl

  after_reads-IsServing :
      (o : Objects) (ps : List Bytes) (unique : All (IsUnique c) ps) (f : FileReader)
      (rs : List (ℕ × ℕ))
      → IsServing c ps f
      → IsServing c ps (after_reads o f rs)
  after_reads-IsServing o ps unique f [] s = s
  after_reads-IsServing o ps unique f ((want, off) ∷ rs) s =
      after_reads-IsServing o ps unique (read_at c o f want (pos off)).0 rs
        (read_at-Answers c o ps unique f want off s).0

  held-Holds :
      (o : Objects) (ps : List Bytes) (i : ℕ) (p : Bytes)
      → All (Holds c o) ps
      → get_elem? ps i ≡ some p
      → Holds c o p
  held-Holds o [] i p h e = absurd (ground arith)
  held-Holds o (q ∷ ps) zero p h e = subst (Holds c o) (some-injective _ _ e) h.0
  held-Holds o (q ∷ ps) (suc i) p h e = held-Holds o ps i p h.1 e

  whole-Answers :
      (o : Objects) (ps : List Bytes) (unique : All (IsUnique c) ps) (want off : ℕ)
      (r : FileReader × Bytes × Option ReadError)
      → All (Holds c o) ps
      → Answers c o ps unique want off r
      → (r.1 ≡ take want (drop off (flatten ps))) × (r.2 ≡ ending c o ps unique want off)
  whole-Answers o ps unique want off r h (s, inl a) = a
  whole-Answers o ps unique want off r h (s, inr (k, x, l, e, g, gap)) =
      let z =
        sym gap.fails ∙ load-Holds c o gap.plain (held-Holds o ps gap.index gap.plain h gap.held) in
      absurd (ground arith)

  reads_whole :
      (o : Objects) (ps : List Bytes) (unique : All (IsUnique c) ps) (cache : Option ChunkCache)
      (before : List (ℕ × ℕ)) (want off : ℕ)
      → All (Holds c o) ps
      → SharedIsSound c cache
      → let f = after_reads o (with_cache cache (new_reader (map (ref_of c) ps))) before in
        let (f', got, e) = read_at c o f want (pos off) in
        (got ≡ take want (drop off (flatten ps))) × (e ≡ end_error (flatten ps) want off)
  reads_whole o ps unique cache before want off held sound =
      let f = after_reads o (with_cache cache (new_reader (map (ref_of c) ps))) before in
      whole-Answers o ps unique want off (read_at c o f want (pos off)) held (
        read_at-Answers c o ps unique f want off (
          after_reads-IsServing o ps unique (with_cache cache (new_reader (map (ref_of c) ps)))
            before (new_reader-IsServing ps cache sound)))

  -- A file that was cut by accepted sizes and stored opens, with the check of its objects or without;
  -- and with any shared cache whose texts have the digests that they are kept under, after any reads
  -- before, a read of `want` bytes from `off` returns these bytes of the file, with the end of the
  -- file as its error just when they are fewer or `off` is not before the end. The objects were
  -- intact before, the nonces have the AEAD's length, and no other text has the digest of a chunk.
  pub stored_file_opens_and_reads :
      (p : ChunkParams) (bytes : Bytes) (cs : List Bytes) (o : Objects) (nonces : ℕ → Bytes)
      (skip : Bool) (cache : Option ChunkCache) (before : List (ℕ × ℕ)) (want off : ℕ)
      → IsAead c
      → validate p ≡ none
      → for_each_chunk p bytes ≡ inr cs
      → ((k : ℕ) → length (nonces k) ≡ c.nonce_size)
      → IsIntact c o
      → All (IsUnique c) cs
      → SharedIsSound c cache
      → let (o', refs) = store_all c nonces 0 o cs in
        let f = new_reader refs in
        let (f', got, e) =
          read_at c o' (after_reads o' (with_cache cache f) before) want (pos off) in
        (open_reader o' skip (some refs) ≡ ok f)
        × (got ≡ take want (drop off bytes))
        × (e ≡ end_error bytes want off)
  stored_file_opens_and_reads p bytes cs o nonces skip cache before want off aead valid cut fits
        intact unique sound =
      let t = for_each_chunk_lem p bytes valid in
      let same = ap flatten (inr-injective _ _ (sym cut ∙ t.1)) ∙ t.2 in
      let s = store_all-Holds c aead nonces 0 o cs fits intact unique in
      let o' = (store_all c nonces 0 o cs).0 in
      let (f0, got', e') =
        read_at c o' (after_reads o' (with_cache cache (new_reader (map (ref_of c) cs))) before)
          want (pos off) in
      let read : (got' ≡ take want (drop off bytes)) × (e' ≡ end_error bytes want off) =
        subst (λ (b : Bytes). (got' ≡ take want (drop off b)) × (e' ≡ end_error b want off)) same
          (reads_whole o' cs unique cache before want off s.0 sound) in
      subst
        (λ (refs : List Ref).
          let (f', got, e) =
            read_at c o' (after_reads o' (with_cache cache (new_reader refs)) before) want
              (pos off) in
          (open_reader o' skip (some refs) ≡ ok (new_reader refs))
          × (got ≡ take want (drop off bytes))
          × (e ≡ end_error bytes want off))
        (sym s.1) (opens o' skip (map (ref_of c) cs) (all_present-Holds o' cs s.0), read.0, read.1)
