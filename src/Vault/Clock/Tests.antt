-- ===== src/Vault/Clock/Tests.antt =====
-- internal/vault/manifest.go and cache.go: the theorems on clocks, at clocks of a phone and a laptop.
use open_seavault_rclone.Shared.Dict.{Dict, get}
use open_seavault_rclone.Shared.Int.{pos}
use open_seavault_rclone.Shared.{ℕ, String, ◌≡◌, ◌↔◌, refl, true, false, [], ◌∷◌, arith}
use open_seavault_rclone.Vault.Clock.{Clock, entry, is_empty, clock_dominates, next_record_clock}
use open_seavault_rclone.Vault.Clock.Dominance.{IsClock, Within, Ahead, clock_dominates_iff}
use open_seavault_rclone.Vault.Clock.Advance.{HasRoom}
use open_seavault_rclone.Vault.Clock.Aging.{NoneAged, next_dominates_iff}

abbrev phone_clock : Clock
phone_clock = ("phone", pos 7) ∷ []

abbrev both_clock : Clock
both_clock = ("phone", pos 7) ∷ ("laptop", pos 4) ∷ []

abbrev later_clock : Clock
later_clock = ("laptop", pos 9) ∷ ("phone", pos 8) ∷ []

phone-IsClock : IsClock phone_clock
phone-IsClock = unfold get in ground arith

both-IsClock : IsClock both_clock
both-IsClock = unfold get in ground arith

later-IsClock : IsClock later_clock
later-IsClock = unfold get in ground arith

clock_dominates_iff_example : (clock_dominates both_clock phone_clock ≡ true) ↔ (
    (is_empty phone_clock ≡ false) × (Within phone_clock both_clock × Ahead both_clock phone_clock))
clock_dominates_iff_example = clock_dominates_iff both_clock phone_clock both-IsClock phone-IsClock

later_over_both : clock_dominates later_clock both_clock ≡ true
later_over_both = unfold clock_dominates get in refl

both_over_phone : clock_dominates both_clock phone_clock ≡ true
both_over_phone = unfold clock_dominates get in refl

phone_room : HasRoom "laptop" phone_clock (pos 20)
phone_room = unfold entry get in ground arith

-- The phone has been silent for six writes.
abbrev phone_ages : Dict String ℕ
phone_ages = ("phone", 6) ∷ []

next_dominates_iff_example :
    (clock_dominates (next_record_clock "laptop" phone_clock phone_ages (pos 20)).0 phone_clock
      ≡ true)
    ↔ NoneAged "laptop" phone_ages (pos 20) phone_clock
next_dominates_iff_example =
    next_dominates_iff "laptop" phone_ages (pos 20) phone_clock refl refl phone-IsClock phone_room
