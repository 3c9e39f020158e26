-- ===== src/Vault/Clock/Aging.antt =====
-- internal/vault/cache.go: `nextRecordClock` and its aging of foreign entries.
use open_seavault_rclone.Shared.Dict.{Dict, get, string_eq}
use open_seavault_rclone.Shared.Int.{ℤ, pos, ◌≤ℤ◌, ◌<ℤ◌}
use open_seavault_rclone.Shared.{
  ℕ, ◌<◌, String, ◌≡◌, ◌≢◌, ◌↔◌, Bool, true, false, not, ◌||◌, none, [], ◌∷◌, arith, Bool-cases,
  inl, inr, if◌then◌else◌, leb, str_eq, eq_iff,
}
use native.Mathlib.Decide.{dec_lt}
use text.Mathlib.TextPositions.{eq_refl}
use open_seavault_rclone.Vault.Clock.{
  Clock, entry, is_empty, join_clock, bump, next_age, age_entries, next_record_clock,
  clock_age_compactions, clock_dominates,
}
use open_seavault_rclone.Vault.Clock.Dominance.{IsClock, clock_dominates_iff}
use open_seavault_rclone.Vault.Clock.Advance.{HasRoom, bumped, bumped-gt, entry-bump, bump-IsClock}

-- Does the entry of device `k` stay? Its own does, and a foreign one that is young enough.
pub stays : String → Dict String ℕ → String → Bool
stays dev ages k = str_eq k dev || not (leb clock_age_compactions (next_age k ages))

module _ (dev : String) (ages : Dict String ℕ) where
  get-age_entries :
      (c : Clock) (k : String)
      → get k (age_entries dev ages c).0 ≡ (if stays dev ages k then get k c else none)
  unfolding age_entries get stays
  get-age_entries [] k = ground arith
  get-age_entries ((j, v) ∷ c) k = ground (arith, get-age_entries c k, eq_iff j k)

  entry-age_entries :
      (c : Clock) (k : String)
      → entry k (age_entries dev ages c).0 ≡ (if stays dev ages k then entry k c else pos 0)
  unfolding entry
  entry-age_entries c k = ground (arith, get-age_entries c k)

  age_entries-IsClock : (c : Clock) → IsClock c → IsClock (age_entries dev ages c).0
  unfolding age_entries
  age_entries-IsClock [] w = w
  age_entries-IsClock ((j, v) ∷ c) w =
      let rest = age_entries-IsClock c (record { distinct = w.distinct.1; nonneg = w.nonneg.1 }) in
      let kept : IsClock ((j, v) ∷ (age_entries dev ages c).0) = record {
        distinct = (rw get-age_entries (ground arith), rest.distinct);
        nonneg = (w.nonneg.0, rest.nonneg);
      } in
      elim (Bool-cases (str_eq j dev)) [
        | inl own ↦ rw (own, age_entries) kept
        | inr foreign ↦ elim (Bool-cases (leb clock_age_compactions (next_age j ages))) [
          | inl old ↦ rw (foreign, old) rest
          | inr young ↦ rw (foreign, young) kept
        ]
      ]

module _ (dev : String) (ages : Dict String ℕ) (wall : ℤ) (prev : Clock) where
  -- Every entry of the clock of a new record of a named device: the writer's own moves past what it saw and the wall
  -- clock, a foreign one is carried over, unless it has aged out and reads as 0.
  pub entry-next_record_clock :
      (k : String)
      → str_eq dev "" ≡ false
      → IsClock prev
      → entry k (next_record_clock dev prev ages wall).0 ≡ (
          if str_eq dev k
          then bumped dev wall prev
          else if stays dev ages k
          then entry k prev
          else pos 0)
  entry-next_record_clock k named w =
      let made : next_record_clock dev prev ages wall
          ≡ age_entries dev ages (bump dev wall (join_clock [] prev)) =
        unfold next_record_clock in rw named in
      rw (made, entry-age_entries, entry-bump dev k wall prev w)
        (unfold stays in ground (arith, eq_iff dev k, eq_iff k dev))

  next-IsClock :
      str_eq dev "" ≡ false
      → IsClock prev
      → HasRoom dev prev wall
      → IsClock (next_record_clock dev prev ages wall).0
  unfolding next_record_clock
  next-IsClock named w r =
      rw named (age_entries-IsClock dev ages _ (bump-IsClock dev wall prev w r))

  -- No foreign device with a positive entry has aged out.
  abbrev pub NoneAged : Type 0
  NoneAged =
      (k : String) → k ≢ dev → pos 0 <ℤ entry k prev → next_age k ages < clock_age_compactions

  kept_entry :
      (k : String)
      → NoneAged
      → IsClock prev
      → HasRoom dev prev wall
      → entry k prev ≤ℤ (
          if str_eq dev k
          then bumped dev wall prev
          else if stays dev ages k
          then entry k prev
          else pos 0)
  unfolding stays
  kept_entry k none_aged w r = elim (Bool-cases (str_eq dev k)) [
    | inl own ↦
        let up = (bumped-gt dev wall prev w r).0 in
        rw (own, ← (eq_iff dev k).0 own) (omega (arith, up))
    | inr foreign ↦ elim (dec_lt (next_age k ages) clock_age_compactions) [
      | yes young ↦ rw foreign (ground (arith, eq_iff k dev))
      | no old ↦
          let other : k ≢ dev = λ e. ground (arith, eq_iff dev k) in
          let zero_left : entry k prev ≤ℤ pos 0 =
            omega (arith, λ (p : pos 0 <ℤ entry k prev). old (none_aged k other p)) in
          rw foreign (ground arith)
    ]
  ]

  -- The clock of a new record of a named device dominates the clock of the record that it supersedes,
  -- if that is not empty and has room below the end of int64, exactly if no foreign entry aged out.
  pub next_dominates_iff :
      str_eq dev "" ≡ false
      → is_empty prev ≡ false
      → IsClock prev
      → HasRoom dev prev wall
      → (clock_dominates (next_record_clock dev prev ages wall).0 prev ≡ true) ↔ NoneAged
  next_dominates_iff named full w r =
      let w' = next-IsClock named w r in
      let iff = clock_dominates_iff _ prev w' w in
      (
        λ h k other positive.
            let below = (iff.0 h).1.0 k in
            let below' = rw (entry-next_record_clock k named w) at below in
            unfold stays in ground (arith, eq_iff dev k, eq_iff k dev),
        λ none_aged. iff.1 (
          full,
          (
            λ k. rw (entry-next_record_clock k named w) (kept_entry k none_aged w r),
            (
              dev,
              rw (entry-next_record_clock dev named w, eq_refl dev) (bumped-gt dev wall prev w r).0,
            ),
          ),
        ),
      )
