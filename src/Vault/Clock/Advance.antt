-- ===== src/Vault/Clock/Advance.antt =====
-- internal/vault/manifest.go and cache.go: `joinClock` is the pointwise maximum, and a clock that a
-- device advances dominates the one that it supersedes.
use open_seavault_rclone.Shared.Dict.{get, put, string_eq, get-put, put-Distinct}
use open_seavault_rclone.Shared.Int.{ℤ, pos, ltb_ℤ, ◌≤ℤ◌, ◌<ℤ◌, eq_of_parts}
use open_seavault_rclone.Shared.{
  String, ◌≡◌, refl, sym, ◌∙◌, true, false, none, [], ◌∷◌, arith, All, Bool-cases, inl, inr,
  if◌then◌else◌, str_eq, eq_iff,
}
use text.Mathlib.TextPositions.{eq_refl}
use open_seavault_rclone.Vault.Clock.{
  Clock, entry, is_empty, join_clock, increment, later_of, bump, advance_clock, max_int64,
  clock_dominates,
}
use open_seavault_rclone.Vault.Clock.Dominance.{IsClock, entry-nonneg, clock_dominates_iff}

abbrev pub larger : ℤ → ℤ → ℤ
larger a b = if ltb_ℤ a b then b else a

pub entry-put :
    (j k : String) (v : ℤ) (c : Clock) → entry k (put j v c) ≡ (if str_eq j k then v else entry k c)
unfolding entry
entry-put j k v c = ground (arith, get-put j k v c)

put-nonneg :
    (k : String) (v : ℤ) (c : Clock)
    → pos 0 ≤ℤ v
    → All (λ e. pos 0 ≤ℤ e.1) c
    → All (λ e. pos 0 ≤ℤ e.1) (put k v c)
unfolding put
put-nonneg k v [] p h = (p, tt)
put-nonneg k v ((j, w) ∷ c) p h = elim (Bool-cases (str_eq j k)) [
  | inl same ↦ rw same (p, h.1)
  | inr other ↦ rw other (h.0, put-nonneg k v c p h.1)
]

pub put-IsClock : (k : String) (v : ℤ) (c : Clock) → pos 0 ≤ℤ v → IsClock c → IsClock (put k v c)
put-IsClock k v c p w = record {
  distinct = put-Distinct k v c w.distinct;
  nonneg = put-nonneg k v c p w.nonneg;
}

abbrev join_step : (k : String) (v : ℤ) (dst : Clock) → Clock
join_step k v dst = if ltb_ℤ (entry k dst) v then put k v dst else dst

join_step-IsClock :
    (k : String) (v : ℤ) (dst : Clock) → pos 0 ≤ℤ v → IsClock dst → IsClock (join_step k v dst)
join_step-IsClock k v dst p w = elim (Bool-cases (ltb_ℤ (entry k dst) v)) [
  | inl y ↦ rw y (put-IsClock k v dst p w)
  | inr n ↦ rw n w
]

entry-join_step :
    (k j : String) (v : ℤ) (dst : Clock)
    → entry j (join_step k v dst) ≡ (if str_eq k j then larger (entry j dst) v else entry j dst)
entry-join_step k j v dst = ground (arith, entry-put k j v dst, eq_iff k j)

pub join_clock-IsClock :
    (src dst : Clock) → IsClock dst → IsClock src → IsClock (join_clock dst src)
unfolding join_clock
join_clock-IsClock [] dst w s = w
join_clock-IsClock ((k, v) ∷ src) dst w s =
    join_clock-IsClock src (join_step k v dst) (join_step-IsClock k v dst s.nonneg.0 w)
      (record { distinct = s.distinct.1; nonneg = s.nonneg.1 })

entry-cons :
    (j k : String) (v : ℤ) (c : Clock)
    → entry k ((j, v) ∷ c) ≡ (if str_eq j k then v else entry k c)
unfolding entry get
entry-cons j k v c = ground arith

join_clock-nil : (dst : Clock) → join_clock dst [] ≡ dst
unfolding join_clock
join_clock-nil dst = refl

join_clock-cons :
    (dst src : Clock) (j : String) (v : ℤ)
    → join_clock dst ((j, v) ∷ src) ≡ join_clock (join_step j v dst) src
unfolding join_clock
join_clock-cons dst src j v = refl

absent-entry : (j k : String) (c : Clock) → get j c ≡ none → str_eq j k ≡ true → entry k c ≡ pos 0
unfolding entry
absent-entry j k c h e = ground (arith, eq_iff j k)

larger_empty : (a : ℤ) → pos 0 ≤ℤ a → larger a (pos 0) ≡ a
larger_empty a h = ground arith

larger_same : (a v : ℤ) → pos 0 ≤ℤ a → pos 0 ≤ℤ v → larger (larger a v) (pos 0) ≡ larger a v
larger_same a v h k = ground arith

-- On clocks of honest writers `joinClock` takes the larger entry for every device.
pub entry-join_clock :
    (src dst : Clock) (k : String)
    → IsClock dst
    → IsClock src
    → entry k (join_clock dst src) ≡ larger (entry k dst) (entry k src)
entry-join_clock [] dst k w s = rw join_clock-nil (
    let empty : entry k [] ≡ pos 0 = unfold entry get in refl in
    rw empty (sym (larger_empty (entry k dst) (entry-nonneg dst k w))))
entry-join_clock ((j, v) ∷ src) dst k w s =
    let tail : IsClock src = record { distinct = s.distinct.1; nonneg = s.nonneg.1 } in
    let w' = join_step-IsClock j v dst s.nonneg.0 w in
    rw
      (
        join_clock-cons,
        entry-join_clock src (join_step j v dst) k w' tail,
        entry-join_step,
        entry-cons,
      )
      (elim (Bool-cases (str_eq j k)) [
        | inl same ↦
            rw (same, absent-entry j k src s.distinct.0 same)
              (larger_same (entry k dst) v (entry-nonneg dst k w) s.nonneg.0)
        | inr other ↦ rw other
      ])

empty-IsClock : IsClock []
empty-IsClock = record { distinct = tt; nonneg = tt }

larger_zero : (v : ℤ) → pos 0 ≤ℤ v → larger (pos 0) v ≡ v
larger_zero v h = ground (arith, eq_of_parts v (pos 0))

entry-copy :
    (prev : Clock) (k : String) → IsClock prev → entry k (join_clock [] prev) ≡ entry k prev
entry-copy prev k w =
    entry-join_clock prev [] k empty-IsClock w
    ∙ (let empty : entry k [] ≡ pos 0 = unfold entry get in refl in
        rw empty (larger_zero (entry k prev) (entry-nonneg prev k w)))

-- Neither the wall clock nor the device's own entry is at the end of the int64 range.
abbrev pub HasRoom : String → Clock → ℤ → Type 0
HasRoom dev c wall = (wall <ℤ pos max_int64) × (entry dev c <ℤ pos max_int64)

abbrev pub bumped : String → ℤ → Clock → ℤ
bumped dev wall c = increment (later_of wall (entry dev c))

pub bumped-gt :
    (dev : String) (wall : ℤ) (c : Clock)
    → IsClock c
    → HasRoom dev c wall
    → (entry dev c <ℤ bumped dev wall c) × (wall <ℤ bumped dev wall c)
unfolding increment
bumped-gt dev wall c w r = ground (arith, entry-nonneg c dev w)

bump-put : (dev : String) (wall : ℤ) (c : Clock) → bump dev wall c ≡ put dev (bumped dev wall c) c
unfolding bump
bump-put dev wall c = refl

-- What a write's bump makes of the clock it supersedes: its own entry, and every other carried over.
pub entry-bump :
    (dev k : String) (wall : ℤ) (prev : Clock)
    → IsClock prev
    → entry k (bump dev wall (join_clock [] prev))
      ≡ (if str_eq dev k then bumped dev wall prev else entry k prev)
entry-bump dev k wall prev w = rw (bump-put, entry-put, entry-copy prev dev w, entry-copy prev k w)

own_entry :
    (dev : String) (wall : ℤ) (prev : Clock)
    → IsClock prev
    → entry dev (bump dev wall (join_clock [] prev)) ≡ bumped dev wall prev
own_entry dev wall prev w = entry-bump dev dev wall prev w ∙ rw (eq_refl dev)

pub bump-IsClock :
    (dev : String) (wall : ℤ) (prev : Clock)
    → IsClock prev
    → HasRoom dev prev wall
    → IsClock (bump dev wall (join_clock [] prev))
bump-IsClock dev wall prev w r = rw bump-put (
    put-IsClock dev _ (join_clock [] prev)
      (rw (entry-copy prev dev w) (
        let up = (bumped-gt dev wall prev w r).0 in
        let base = entry-nonneg prev dev w in omega (arith, up, base)))
      (join_clock-IsClock prev [] empty-IsClock w))

-- The clock that `advanceClock` makes for a named device dominates the clock that it is given, if
-- that one is not empty and has room below the end of int64, and the device's own entry passes the
-- wall clock.
pub advance_dominates :
    (dev : String) (prev : Clock) (wall : ℤ)
    → str_eq dev "" ≡ false
    → is_empty prev ≡ false
    → IsClock prev
    → HasRoom dev prev wall
    → (clock_dominates (advance_clock dev prev wall) prev ≡ true)
      × (wall <ℤ entry dev (advance_clock dev prev wall))
advance_dominates dev prev wall named full w r =
    let made : advance_clock dev prev wall ≡ bump dev wall (join_clock [] prev) =
      unfold advance_clock in rw named in
    let up = bumped-gt dev wall prev w r in
    rw made (
      (clock_dominates_iff _ prev (bump-IsClock dev wall prev w r) w).1 (
        full,
        (
          λ k. rw (entry-bump dev k wall prev w) (elim (Bool-cases (str_eq dev k)) [
            | inl same ↦ rw (same, ← (eq_iff dev k).0 same) (let own = up.0 in omega (arith, own))
            | inr other ↦ rw other (omega arith)
          ]),
          (dev, rw (own_entry dev wall prev w) up.0),
        ),
      ),
      rw (own_entry dev wall prev w) up.1,
    )
