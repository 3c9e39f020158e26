-- ===== src/Vault/Reader/Positions.antt =====
-- internal/vault/reader.go: which chunk `chunkIndexFor` finds for a position of the file.
use mathlib.Core.List.{flatten}
use open_seavault_rclone.Shared.{
  ℕ, zero, suc, ◌+◌, ◌-◌, ◌≤◌, ◌<◌, ◌≡◌, inl, inr, refl, ap, sym, ◌∙◌, some, List, [], ◌∷◌, ◌++◌,
  map, arith, length, take, drop, get_elem?, length-append, ltb, Bool-cases,
}
use open_seavault_rclone.Vault.Objects.{Bytes, Crypto}
use open_seavault_rclone.Vault.Objects.RoundTrip.{ref_of}
use open_seavault_rclone.Vault.Reader.{ends, last_offset, first_above}

take-nil : (n : ℕ) → ◌≡◌ {A = Bytes} (take n []) []
take-nil zero = refl
take-nil (suc n) = refl

pub take-add : (k m : ℕ) (xs : Bytes) → take (k + m) xs ≡ take k xs ++ take m (drop k xs)
take-add zero m xs = ap (λ (n : ℕ). take n xs) (omega arith)
take-add (suc k) m [] = take-nil (suc k + m) ∙ sym (take-nil m)
take-add (suc k) m (x ∷ xs) =
    ap (λ (n : ℕ). take n (x ∷ xs)) {x = suc k + m} {y = suc (k + m)} (omega arith)
    ∙ ap (λ (r : Bytes). x ∷ r) (take-add k m xs)

pub take-within : (n : ℕ) (xs ys : Bytes) → n ≤ length xs → take n (xs ++ ys) ≡ take n xs
take-within zero xs ys h = refl
take-within (suc n) [] ys h = absurd (omega arith)
take-within (suc n) (x ∷ xs) ys h = ap (λ (r : Bytes). x ∷ r) (take-within n xs ys (omega arith))

drop-within : (n : ℕ) (xs ys : Bytes) → n ≤ length xs → drop n (xs ++ ys) ≡ drop n xs ++ ys
drop-within zero xs ys h = refl
drop-within (suc n) [] ys h = absurd (omega arith)
drop-within (suc n) (x ∷ xs) ys h = drop-within n xs ys (omega arith)

drop-past : (n : ℕ) (xs ys : Bytes) → length xs ≤ n → drop n (xs ++ ys) ≡ drop (n - length xs) ys
drop-past n [] ys h = ap (λ (k : ℕ). drop k ys) {x = n} {y = n - 0} (omega arith)
drop-past zero (x ∷ xs) ys h = absurd (omega arith)
drop-past (suc n) (x ∷ xs) ys h =
    drop-past n xs ys (omega arith)
    ∙ ap (λ (k : ℕ). drop k ys) {x = n - length xs} {y = suc n - length (x ∷ xs)} (omega arith)

module _ (c : Crypto) where
  -- The length of the file is the last offset.
  pub last_offset-flatten :
      (base : ℕ) (ps : List Bytes)
      → last_offset base (map (ref_of c) ps) ≡ base + length (flatten ps)
  unfolding last_offset flatten
  last_offset-flatten base [] = omega arith
  last_offset-flatten base (p ∷ ps) =
      last_offset-flatten (base + length p) ps ∙ omega (arith, length-append p (flatten ps))

  -- The chunk at `i` starts at `start`, covers `p`, and the file goes on with its bytes.
  pub record Covers (base : ℕ) (ps : List Bytes) (p i : ℕ) : Type 0 where
    pub plain : Bytes
    pub start : ℕ
    pub rest : Bytes
    pub held : get_elem? ps i ≡ some plain
    pub offset : get_elem? (base ∷ ends base (map (ref_of c) ps)) i ≡ some start
    pub from : start ≤ p
    pub until : p < start + length plain
    pub goes_on : drop (p - base) (flatten ps) ≡ drop (p - start) plain ++ rest

  pub first_above-Covers :
      (base : ℕ) (ps : List Bytes) (p : ℕ)
      → base ≤ p
      → p < base + length (flatten ps)
      → Covers base ps p (first_above p (ends base (map (ref_of c) ps)))
  unfolding first_above ends flatten
  first_above-Covers base [] p low high = absurd (omega arith)
  first_above-Covers base (q ∷ ps) p low high = elim (Bool-cases (ltb p (base + length q))) [
    | inl here ↦ rw here (record {
      plain = q;
      start = base;
      rest = flatten ps;
      held = refl;
      offset = refl;
      from = low;
      until = ground arith;
      goes_on = drop-within (p - base) q (flatten ps) (ground arith);
    })
    | inr later ↦
        let below : base + length q ≤ p = ground arith in
        let t =
          first_above-Covers (base + length q) ps p below
            (omega (arith, length-append q (flatten ps))) in
        rw later (record {
          plain = t.plain;
          start = t.start;
          rest = t.rest;
          held = t.held;
          offset = t.offset;
          from = t.from;
          until = t.until;
          goes_on =
              drop-past (p - base) q (flatten ps) (omega arith)
              ∙ ap (λ (k : ℕ). drop k (flatten ps)) {x = p - base - length q}
                  {y = p - (base + length q)} (omega arith)
              ∙ t.goes_on;
        })
  ]
