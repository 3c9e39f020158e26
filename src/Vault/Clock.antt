-- ===== src/Vault/Clock.antt =====
-- internal/vault/manifest.go and cache.go: vector clocks. A clock is a map from device ids to int64
-- counters; a missing entry reads as 0, and a nil map is an empty one.
pub mod Dominance
pub mod Advance
pub mod Aging
mod Tests
use open_seavault_rclone.Shared.Dict.{Dict, get, put, remove, string_eq}
use open_seavault_rclone.Shared.Int.{ℤ, pos, negsuc, ltb_ℤ, leb_ℤ}
use open_seavault_rclone.Shared.{
  ℕ, suc, ◌+◌, ◌-◌, ◌^◌, String, Bool, true, false, not, ◌&&◌, ◌||◌, Option, none, some, List, [],
  ◌∷◌, ltb, leb, ◌==◌, str_eq, if◌then◌else◌,
}

abbrev pub Clock : Type 0
Clock = Dict String ℤ

-- c[k]
unfoldable pub entry : String → Clock → ℤ
entry k c = elim (get k c) [ none ↦ pos 0 | some v ↦ v ]

abbrev pub is_empty {ℓ} : {A : Type ℓ} → List A → Bool
is_empty [] = true
is_empty (x ∷ xs) = false

-- The first loop of `clockDominates`, over `b`: `none` is the early `return false`.
unfoldable pub covers : Clock → Clock → Bool → Option Bool
unfolding entry
covers a [] strictly = some strictly
covers a ((k, bv) ∷ b) strictly =
    let rest = covers a b (strictly || ltb_ℤ bv (entry k a)) in
    if ltb_ℤ (entry k a) bv then none else rest

-- The second loop, over `a`: is there a positive entry that `b` lacks?
unfoldable pub has_new : Clock → Clock → Bool
has_new [] b = false
has_new ((k, av) ∷ a) b = elim (get k b) [
  | none ↦ ltb_ℤ (pos 0) av || has_new a b
  | some _ ↦ has_new a b
]

unfoldable pub clock_dominates : Clock → Clock → Bool
unfolding covers has_new
clock_dominates a b =
    if is_empty a || is_empty b
    then false
    else elim (covers a b false) [ none ↦ false | some strictly ↦ strictly || has_new a b ]

-- `joinClock`: dst[k] becomes the larger of the two for every k in src.
unfoldable pub join_clock : Clock → Clock → Clock
unfolding entry
join_clock dst [] = dst
join_clock dst ((k, v) ∷ src) = join_clock (if ltb_ℤ (entry k dst) v then put k v dst else dst) src

-- `self++` on an int64
abbrev pub max_int64 : ℕ
max_int64 = 2 ^ 63 - 1

unfoldable pub increment : ℤ → ℤ
increment (pos n) = if n == max_int64 then negsuc max_int64 else pos (n + 1)
increment (negsuc n) = if n == 0 then pos 0 else negsuc (n - 1)

abbrev pub later_of : ℤ → ℤ → ℤ
later_of wall self = if ltb_ℤ self wall then wall else self

-- `dev`'s own entry becomes max(seen, wall) + 1.
unfoldable pub bump : String → ℤ → Clock → Clock
unfolding entry increment
bump dev wall c = put dev (increment (later_of wall (entry dev c))) c

-- `advanceClock`; a blank device id gives no clock.
unfoldable pub advance_clock : String → Clock → ℤ → Clock
unfolding join_clock bump
advance_clock dev prev wall = if str_eq dev "" then [] else bump dev wall (join_clock [] prev)

abbrev pub clock_age_compactions : ℕ
clock_age_compactions = 8

-- `prevAge[k] + 1`: consecutive writes that did not see the device advance. The counts are small.
abbrev pub next_age : String → Dict String ℕ → ℕ
next_age k ages = elim (get k ages) [ none ↦ 1 | some a ↦ a + 1 ]

-- The aging loop, over the entries of the new clock: the entries that stay, and their ages.
unfoldable pub age_entries : String → Dict String ℕ → Clock → Clock × Dict String ℕ
age_entries dev prev [] = ([], [])
age_entries dev prev ((k, v) ∷ c) =
    let (kept, ages) = age_entries dev prev c in
    if str_eq k dev
    then ((k, v) ∷ kept, ages)
    else if leb clock_age_compactions (next_age k prev)
    then (kept, ages)
    else ((k, v) ∷ kept, (k, next_age k prev) ∷ ages)

-- `nextRecordClock`, over the clock and the ages of the record that the write supersedes (both
-- empty where the index has none).
unfoldable pub next_record_clock : String → Clock → Dict String ℕ → ℤ → Clock × Dict String ℕ
unfolding join_clock bump age_entries
next_record_clock dev clock ages wall =
    if str_eq dev "" then ([], []) else age_entries dev ages (bump dev wall (join_clock [] clock))
