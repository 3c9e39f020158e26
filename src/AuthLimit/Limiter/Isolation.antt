-- ===== src/AuthLimit/Limiter/Isolation.antt =====
-- internal/authlimit/authlimit.go: one key's calls and the other keys, and the denial of a locked key.
use open_seavault_rclone.Shared.Dict.{get}
use open_seavault_rclone.Shared.{ℕ, ◌-◌, ◌<◌, ◌≡◌, ◌≢◌, true, false, some, arith}
use open_seavault_rclone.AuthLimit.Bucket.{
  Key, key_Eq, key_eq_iff, State, is_locked, seen, refresh, decide,
}
use open_seavault_rclone.AuthLimit.Bucket.Bounds.{IsWell}
use open_seavault_rclone.AuthLimit.Limiter.{
  Limiter, get_or_create, check, fail_report, success, release,
}
use open_seavault_rclone.AuthLimit.Limiter.Frame.{
  start, get-check, get-fail_report, get-success, get-release, get_or_create-pending,
}
use open_seavault_rclone.AuthLimit.Limiter.Invariant.{IsSound}

-- A success or a release on one key leaves every other key's bucket as it is, locks included.
pub others_untouched :
    (l : Limiter) (k j : Key) (now : ℕ)
    → k ≢ j
    → (get j (success l k now).keys ≡ get j l.keys) × (get j (release l k now).keys ≡ get j l.keys)
others_untouched l k j now ne = (
  ground (arith, get-success l k j now, key_eq_iff k j),
  ground (arith, get-release l k j now, key_eq_iff k j),
)

-- On a sound limiter a check or a failure on one key leaves every other bucket that holds a
-- reservation as it is, even where the map is full and a bucket has to go.
pub reservations_survive :
    (l : Limiter) (k j : Key) (now : ℕ) (st : State)
    → IsSound l
    → k ≢ j
    → get j l.keys ≡ some st
    → 0 < st.pending
    → (get j (check l k now).0.keys ≡ some st) × (get j (fail_report l k now).0.keys ≡ some st)
reservations_survive l k j now st s ne h p =
    let kept = get_or_create-pending l.policy now k j l.keys st s.distinct h p in
    (
      ground (arith, get-check l k j now, key_eq_iff k j),
      ground (arith, get-fail_report l k j now, key_eq_iff k j),
    )

seen_locked :
    (l : Limiter) (k : Key) (now : ℕ) (st : State)
    → IsWell l.policy k st
    → is_locked now st ≡ true
    → seen l.policy k now st ≡ record st { last_seen = now }
unfolding seen refresh
seen_locked l k now st w h = ground arith

-- While a key of a sound limiter is locked, a check of it is denied with the time that the lock has
-- left, which is positive. It reserves nothing: the bucket is as before but for the stamp, and the
-- bucket of any other key is as before.
pub check_locked :
    (l : Limiter) (k j : Key) (now : ℕ) (st : State)
    → IsSound l
    → k ≢ j
    → get k l.keys ≡ some st
    → is_locked now st ≡ true
    → ((check l k now).1 ≡ false)
      × ((check l k now).2 ≡ st.locked_until - now)
      × (0 < (check l k now).2)
      × (get k (check l k now).0.keys ≡ some (record st { last_seen = now }))
      × (get j (check l k now).0.keys ≡ get j l.keys)
unfolding check get_or_create
check_locked l k j now st s ne h lk =
    let sl = seen_locked l k now st (s.wells k st h) lk in
    (
      unfold decide in ground arith,
      unfold decide in ground arith,
      unfold decide in ground arith,
      unfold decide start in ground (arith, get-check l k k now, key_eq_iff k k),
      ground (arith, get-check l k j now, key_eq_iff k j),
    )
