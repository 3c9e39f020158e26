-- ===== src/Vault/Reader/Reads.antt =====
-- internal/vault/reader.go: what `ReadAt` returns is the part of the file that was asked for.
use mathlib.Core.List.{flatten}
use open_seavault_rclone.Shared.Int.{pos}
use open_seavault_rclone.Shared.{
  ℕ, zero, suc, ◌≤◌, ◌≡◌, ◌⊎◌, inl, inr, refl, ap, sym, ◌∙◌, Bool, true, false, Option, none, some,
  List, [], arith, length, take, drop, drop-all, leb, ltb, if◌then◌else◌, All,
}
use open_seavault_rclone.Vault.Objects.{Bytes, Crypto, Objects, ChunkError}
use open_seavault_rclone.Vault.Objects.RoundTrip.{IsUnique}
use open_seavault_rclone.Vault.Reader.{
  ReadError, eof, load_failed, FileReader, read_loop, short_read, read_at, closed_reader,
}
use open_seavault_rclone.Vault.Reader.Chunks.{IsServing, Gap}
use open_seavault_rclone.Vault.Reader.Delivery.{Delivers, whole, broken, read_loop-Delivers}

module _ (c : Crypto) where
  module _ (o : Objects) (ps : List Bytes) (unique : All (IsUnique c) ps) where
    -- How a read of `want` bytes from `off` ends, if no chunk is in the way.
    abbrev pub ending : ℕ → ℕ → Option ReadError
    ending want off =
        if leb (length (flatten ps)) off
        then some eof
        else if ltb (length (take want (drop off (flatten ps)))) want
        then some eof
        else none

    abbrev pub Answers : ℕ → ℕ → FileReader × Bytes × Option ReadError → Type 0
    Answers want off (f, bytes, e) =
        IsServing c ps f
        × (((bytes ≡ take want (drop off (flatten ps))) × (e ≡ ending want off))
            ⊎ ((k : ℕ) × (x : ChunkError) × (k ≤ want)
                × (bytes ≡ take k (drop off (flatten ps)))
                × (e ≡ some (load_failed x))
                × Gap c o ps unique x))

    short_read-Answers :
        (want off : ℕ) (r : FileReader × Bytes × Option ReadError)
        → leb (length (flatten ps)) off ≡ false
        → Delivers c o ps unique want off r
        → Answers want off (short_read want r)
    short_read-Answers want off _ h (whole {f} {bytes} {e} s e1 e2) = rw e2 (
      s,
      inl (e1, ap (λ (b : Bytes). if ltb (length b) want then some eof else none) e1 ∙ rw h refl),
    )
    short_read-Answers want off _ h (broken s k le e1 x e2 g) =
        rw e2 (s, inr (k, x, le, e1, refl, g))

    -- A read of an open reader, from a position on, returns the part of the file that was asked for,
    -- with the end of the file as its error just when that part is shorter or starts at the end or
    -- later; or it returns the first bytes of that part with the error of a chunk of the file that
    -- cannot be loaded. It never stops for lack of fuel or indexes out of range.
    pub read_at-Answers :
        (f : FileReader) (want off : ℕ)
        → IsServing c ps f
        → Answers want off (read_at c o f want (pos off))
    unfolding read_at
    read_at-Answers f want off s =
        chosen f.closed (leb f.size off) s.open_now (ap (λ (n : ℕ). leb n off) s.size)
      where
        take-none : (n : ℕ) → ◌≡◌ {A = Bytes} (take n []) []
        take-none zero = refl
        take-none (suc n) = refl

        chosen :
            (shut past : Bool)
            → shut ≡ false
            → past ≡ leb (length (flatten ps)) off
            → Answers want off (
                if shut
                then (f, [], some closed_reader)
                else if past
                then (f, [], some eof)
                else short_read want (read_loop c o want f want off))
        chosen true past h g = absurd (ground arith)
        chosen false true h g = (
          s,
          inl (
            sym (ap (take want) (drop-all off (flatten ps) (ground arith)) ∙ take-none want),
            rw⁻¹ g refl,
          ),
        )
        chosen false false h g =
            short_read-Answers want off (read_loop c o want f want off) (sym g)
              (read_loop-Delivers c o ps unique want f want off s (omega arith))
