-- ===== src/Vault/Chunker/Sizes.antt =====
-- internal/vault/chunker.go: `ForEachChunk` cuts the bytes it reads, into chunks of bounded size.
use mathlib.Core.List.{append-nil, append_assoc, flatten}
use open_seavault_rclone.Shared.{
  ◌↔◌, ℕ, ◌+◌, ◌*◌, ◌%◌, ◌≤◌, ◌<◌, ◌≡◌, ◌⊎◌, inl, inr, refl, sym, ap, ◌∙◌, none, List, [], ◌∷◌,
  ◌++◌, arith, Bool-cases, leb, ◌==◌, ◌&&◌, ◌||◌, length, length-append,
}
use open_seavault_rclone.Vault.Chunker.{
  ChunkParams, max_cap, validate, gear, word, next_power_of_two, push, last_chunk, cut,
  for_each_chunk,
}

-- What one byte does: it completes a chunk of at least the least size, or it goes on with a chunk
-- that is below the largest size.
push-cases :
    (p : ChunkParams) (h : ℕ) (chunk : List ℕ) (b : ℕ)
    → p.min_size ≤ p.max_size
    → ((push p h chunk b ≡ ((chunk ++ b ∷ []) ∷ [], 0, [])) × (p.min_size ≤ length chunk + 1))
      ⊎ ((h' : ℕ) × (push p h chunk b ≡ ([], h', chunk ++ b ∷ []))
          × (length chunk + 1 < p.max_size))
unfolding push
push-cases p h chunk b le =
    let h' = (2 * h + gear b) % word in
    let len = length-append chunk (b ∷ []) in
    elim (Bool-cases (
      leb p.min_size (length (chunk ++ b ∷ []))
      && (h' % next_power_of_two p.avg_size == 0 || leb p.max_size (length (chunk ++ b ∷ []))))) [
        | inl y ↦ inl (rw y refl, ground (arith, len))
        | inr n ↦ inr (h', rw n refl, ground (arith, len))
      ]

flatten-last_chunk : (chunk : List ℕ) → flatten (last_chunk chunk) ≡ chunk
unfolding flatten
flatten-last_chunk [] = refl
flatten-last_chunk (b ∷ bs) = append-nil (b ∷ bs)

flatten-cut :
    (p : ChunkParams) (h : ℕ) (chunk bytes : List ℕ)
    → p.min_size ≤ p.max_size
    → flatten (cut p h chunk bytes) ≡ chunk ++ bytes
unfolding cut flatten
flatten-cut p h chunk [] le = flatten-last_chunk chunk ∙ sym (append-nil chunk)
flatten-cut p h chunk (b ∷ bs) le = elim (push-cases p h chunk b le) [
  | inl d ↦ rw d.0 (
      ap (λ (r : List ℕ). (chunk ++ b ∷ []) ++ r) (flatten-cut p 0 [] bs le)
      ∙ append_assoc chunk (b ∷ []) bs)
  | inr g ↦ rw g.1 (flatten-cut p g.0 (chunk ++ b ∷ []) bs le ∙ append_assoc chunk (b ∷ []) bs)
]

-- No chunk is empty or above the largest size, and only the last may be below the least size.
abbrev pub AreSized : ChunkParams → List (List ℕ) → Type 0
AreSized p [] = Unit
AreSized p (c ∷ []) = (0 < length c) × (length c ≤ p.max_size)
AreSized p (c ∷ d ∷ cs) =
    (p.min_size ≤ length c) × (0 < length c) × (length c ≤ p.max_size) × AreSized p (d ∷ cs)

AreSized-cons :
    (p : ChunkParams) (c : List ℕ) (cs : List (List ℕ))
    → (p.min_size ≤ length c) × (0 < length c) × (length c ≤ p.max_size)
    → AreSized p cs
    → AreSized p (c ∷ cs)
AreSized-cons p c [] h s = (h.1, h.2)
AreSized-cons p c (d ∷ cs) h s = (h.0, h.1, h.2, s)

cut-AreSized :
    (p : ChunkParams) (h : ℕ) (chunk bytes : List ℕ)
    → p.min_size ≤ p.max_size
    → length chunk < p.max_size
    → AreSized p (cut p h chunk bytes)
unfolding cut
cut-AreSized p h [] [] le small = tt
cut-AreSized p h (b ∷ bs) [] le small = (omega arith, omega arith)
cut-AreSized p h chunk (b ∷ bs) le small =
    let len = length-append chunk (b ∷ []) in
    elim (push-cases p h chunk b le) [
      | inl d ↦ rw d.0 (
          AreSized-cons p (chunk ++ b ∷ []) (cut p 0 [] bs)
            (omega (arith, d.1, len), omega (arith, len), omega (arith, len))
            (cut-AreSized p 0 [] bs le (omega arith)))
      | inr g ↦ rw g.1 (cut-AreSized p g.0 (chunk ++ b ∷ []) bs le (omega (arith, g.2, len)))
    ]

-- `Validate` accepts exactly the sizes that are positive, in order and within the cap.
pub validate_iff :
    (p : ChunkParams)
    → (validate p ≡ none) ↔ (
        (0 < p.min_size)
        × (p.min_size ≤ p.avg_size)
        × (p.avg_size ≤ p.max_size)
        × (p.max_size ≤ max_cap))
unfolding validate
validate_iff p = (λ h. ground arith, λ h. ground arith)

-- With sizes that `Validate` accepts, the chunks of any bytes put together are the bytes again; none
-- is empty or above the largest size, and only the last may be below the least size.
pub for_each_chunk_lem :
    (p : ChunkParams) (bytes : List ℕ)
    → validate p ≡ none
    → (cs : List (List ℕ)) × (for_each_chunk p bytes ≡ inr cs)
      × (flatten cs ≡ bytes)
      × AreSized p cs
unfolding for_each_chunk
for_each_chunk_lem p bytes ok =
    let v = (validate_iff p).0 ok in
    (
      cut p 0 [] bytes,
      rw (ok, for_each_chunk) refl,
      flatten-cut p 0 [] bytes (omega arith),
      cut-AreSized p 0 [] bytes (omega arith) (omega arith),
    )
