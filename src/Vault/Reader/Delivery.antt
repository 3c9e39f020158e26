-- ===== src/Vault/Reader/Delivery.antt =====
-- internal/vault/reader.go: what the loop of `ReadAt` delivers.
use mathlib.Core.List.{flatten}
use mathlib.Core.Path.{subst, ap₂}
use open_seavault_rclone.Shared.Result.{Result, ok, err}
use open_seavault_rclone.Shared.{
  ℕ, zero, suc, ◌+◌, ◌-◌, ◌≤◌, ◌<◌, min, ◌≡◌, inl, inr, refl, ap, sym, ◌∙◌, false, ◌&&◌, Option,
  none, some, List, [], ◌∷◌, ◌++◌, map, arith, length, take, drop, get_elem?, length-take,
  length-drop, drop-all, drop-drop, ltb, Bool-cases, All,
}
use open_seavault_rclone.Vault.Objects.{Bytes, Crypto, Objects, ChunkError}
use open_seavault_rclone.Vault.Objects.RoundTrip.{ref_of, IsUnique}
use open_seavault_rclone.Vault.Reader.{
  ReadError, load_failed, FileReader, ends, first_above, chunk_index_for, chunk_at_locked, copy_out,
  turn, read_loop,
}
use open_seavault_rclone.Vault.Reader.Positions.{Covers, first_above-Covers, take-add, take-within}
use open_seavault_rclone.Vault.Reader.Chunks.{IsServing, Gap, Fetched, chunk_at_locked-Fetched}

module _ (c : Crypto) where
  module _ (o : Objects) (ps : List Bytes) (unique : All (IsUnique c) ps) where
    -- What a read of `want` bytes from `p` delivers: all of them, or the first `k` of them up to a
    -- chunk that cannot be loaded.
    pub data Delivers (want p : ℕ) : FileReader × Bytes × Option ReadError → Type 0 where
      whole :
          {f : FileReader} {bytes : Bytes} {e : Option ReadError}
          → IsServing c ps f
          → bytes ≡ take want (drop p (flatten ps))
          → e ≡ none
          → Delivers want p (f, bytes, e)
      broken :
          {f : FileReader} {bytes : Bytes} {e : Option ReadError}
          → IsServing c ps f
          → (k : ℕ) → k ≤ want
          → bytes ≡ take k (drop p (flatten ps))
          → (x : ChunkError) → e ≡ some (load_failed x)
          → Gap c o ps unique x
          → Delivers want p (f, bytes, e)

    module _ (want p : ℕ)
        (cover : Covers c 0 ps p (first_above p (ends 0 (map (ref_of c) ps)))) where
      abbrev piece : Bytes
      piece = take want (drop (p - cover.start) cover.plain)

      piece-length : length piece ≡ min want (cover.start + length cover.plain - p)
      piece-length = omega (
        arith,
        length-take want (drop (p - cover.start) cover.plain),
        length-drop (p - cover.start) cover.plain,
        cover.from,
        cover.until,
      )

      -- The piece is the beginning of what is wanted.
      piece-append :
          (m : ℕ)
          → take (length piece + m) (drop p (flatten ps))
            ≡ piece ++ take m (drop (p + length piece) (flatten ps))
      piece-append m =
          take-add (length piece) m (drop p (flatten ps))
          ∙ ap₂ ◌++◌ first (ap (take m) (drop-drop (length piece) p (flatten ps)))
        where
          tail : Bytes
          tail = drop (p - cover.start) cover.plain

          cut : (n : ℕ) → n ≤ length tail → take n (tail ++ cover.rest) ≡ take n tail
          cut n h = take-within n tail cover.rest h

          first : take (length piece) (drop p (flatten ps)) ≡ piece
          first =
              ap (λ (k : ℕ). take (length piece) (drop k (flatten ps))) {x = p} {y = p - 0}
                (omega arith)
              ∙ ap (take (length piece)) cover.goes_on
              ∙ cut (length piece) (omega (arith, length-take want tail))
              ∙ shorter want tail
            where
              shorter : (n : ℕ) (xs : Bytes) → take (length (take n xs)) xs ≡ take n xs
              shorter zero xs = refl
              shorter (suc n) [] = refl
              shorter (suc n) (x ∷ xs) = ap (λ (r : Bytes). x ∷ r) (shorter n xs)

    abbrev Turned : Bytes → FileReader × Result ReadError Bytes → Type 0
    Turned b (f, ok r) = IsServing c ps f × (r ≡ b)
    Turned b (f, err e) =
        IsServing c ps f × ((x : ChunkError) × (e ≡ load_failed x) × Gap c o ps unique x)

    turn-Turned :
        (f : FileReader) (want p : ℕ)
        → IsServing c ps f
        → (cover : Covers c 0 ps p (first_above p (ends 0 (map (ref_of c) ps))))
        → Turned (piece want p cover) (turn c o want f p)
    unfolding chunk_index_for
    turn-Turned f want p s cover =
        copied (chunk_at_locked c o f ci)
          (chunk_at_locked-Fetched c o ps unique f ci cover.plain s at_index)
      where
        ci : ℕ
        ci = chunk_index_for f p

        index : ci ≡ first_above p (ends 0 (map (ref_of c) ps))
        index = ap (λ (l : List ℕ). first_above p (drop 1 l)) s.offsets

        at_index : get_elem? ps ci ≡ some cover.plain
        at_index = ap (get_elem? ps) index ∙ cover.held

        offset : get_elem? f.offsets ci ≡ some cover.start
        offset = ap₂ get_elem? s.offsets index ∙ cover.offset

        within : ltb (length cover.plain) (p - cover.start) ≡ false
        within = let a = cover.from in let b = cover.until in ground arith

        copied :
            (r : FileReader × Result ReadError Bytes)
            → Fetched c o ps unique cover.plain r
            → Turned (piece want p cover) (elim r.1 [
              | err e ↦ (r.0, err e)
              | ok plain ↦ (r.0, copy_out want p plain (get_elem? f.offsets ci))
            ])
        copied (f', err e) t = t
        copied (f', ok plain) t = unfold copy_out in rw (t.1, offset, within) (t.0, refl)

    nothing :
        (f : FileReader) (want p : ℕ)
        → IsServing c ps f
        → (ltb 0 want && ltb p f.size) ≡ false
        → [] ≡ take want (drop p (flatten ps))
    nothing f zero p s h = refl
    nothing f (suc want) p s h =
        sym (ap (take (suc want)) (drop-all p (flatten ps) (let z = s.size in ground arith)))

    -- A turn and what the rest of the loop delivers, put together.
    onwards :
        (n : ℕ) (want p : ℕ)
        → (cover : Covers c 0 ps p (first_above p (ends 0 (map (ref_of c) ps))))
        → length (piece want p cover) ≤ want
        → ((f : FileReader)
            → IsServing c ps f
            → Delivers (want - length (piece want p cover)) (p + length (piece want p cover)) (
                read_loop c o n f
                  (want - length (piece want p cover))
                  (p + length (piece want p cover))))
        → (t : FileReader × Result ReadError Bytes) → Turned (piece want p cover) t
        → Delivers want p (elim t.1 [
          | err e ↦ (t.0, [], some e)
          | ok b ↦
              let (f'', more, e) = read_loop c o n t.0 (want - length b) (p + length b) in
              (f'', b ++ more, e)
        ])
    onwards n want p cover l rest (f, err e) (s, (x, e1, g)) =
        broken s 0 (omega arith) refl x (ap some e1) g
    onwards n want p cover l rest (f, ok b) (s, same) =
        subst
          (λ (z : Bytes). Delivers want p (
            let (f'', more, e) = read_loop c o n f (want - length z) (p + length z) in
            (f'', z ++ more, e)))
          (sym same) (joined (read_loop c o n f (want - k) (p + k)) (rest f s))
      where
        k : ℕ
        k = length (piece want p cover)

        joined :
            (r : FileReader × Bytes × Option ReadError)
            → Delivers (want - k) (p + k) r
            → Delivers want p (r.0, piece want p cover ++ r.1, r.2)
        joined _ (whole t e1 e2) =
            whole t
              (ap (λ (x : Bytes). piece want p cover ++ x) e1
                ∙ sym (piece-append want p cover (want - k))
                ∙ ap (λ (m : ℕ). take m (drop p (flatten ps))) {x = k + (want - k)} {y = want}
                    (omega arith))
              e2
        joined _ (broken t m le e1 x e2 g) =
            broken t (k + m) (omega arith)
              (ap (λ (y : Bytes). piece want p cover ++ y) e1 ∙ sym (piece-append want p cover m)) x
              e2 g

    pub read_loop-Delivers :
        (n : ℕ) (f : FileReader) (want p : ℕ)
        → IsServing c ps f
        → want ≤ n
        → Delivers want p (read_loop c o n f want p)
    unfolding read_loop
    read_loop-Delivers zero f zero p s h = whole s refl refl
    read_loop-Delivers zero f (suc want) p s h = absurd (omega arith)
    read_loop-Delivers (suc n) f want p s h = elim (Bool-cases (ltb 0 want && ltb p f.size)) [
      | inr stop ↦ rw (stop, read_loop) (whole s (nothing f want p s stop) refl)
      | inl go ↦
          let some_left : 0 < want = ground arith in
          let inside : p < 0 + length (flatten ps) = let z = s.size in ground arith in
          let cover = first_above-Covers c 0 ps p (omega arith) inside in
          rw (go, read_loop)
            (onwards n want p cover (omega (arith, piece-length want p cover))
              (λ f' t.
                read_loop-Delivers n f' (want - length (piece want p cover))
                  (p + length (piece want p cover)) t
                  (omega (arith, piece-length want p cover, cover.until)))
              (turn c o want f p) (turn-Turned f want p s cover))
    ]
