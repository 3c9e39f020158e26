-- ===== src/AuthLimit/Limiter/Size.antt =====
-- internal/authlimit/authlimit.go: the map of buckets is bounded by `MaxKeys`.
use open_seavault_rclone.Shared.Dict.{
  Dict, get, put, length-put, length-remove-some, Distinct, get_of_Elem,
}
use open_seavault_rclone.Shared.{
  ℕ, ◌+◌, ◌<◌, ◌≤◌, ◌⊎◌, inl, inr, arith, leb, All, Bool-cases, Option-cases, length,
}
use open_seavault_rclone.AuthLimit.Policy.{Policy}
use open_seavault_rclone.AuthLimit.Bucket.{Key, key_Eq, State}
use open_seavault_rclone.AuthLimit.Limiter.{Limiter, evict_one, get_or_create, check, fail_report}
use open_seavault_rclone.AuthLimit.Limiter.Evict.{evict_one_lem}
use open_seavault_rclone.AuthLimit.Limiter.Invariant.{IsSound}

evict_one-shorter :
    (now : ℕ) (m : Dict Key State)
    → Distinct m
    → All (λ e. 0 < e.1.pending) m ⊎ (length (evict_one now m) + 1 ≤ length m)
evict_one-shorter now m d = elim (evict_one_lem now m) [
  | inl r ↦ inl r.1
  | inr r ↦ inr (rw r.3 (length-remove-some r.0 r.1 m (get_of_Elem r.0 r.1 m d r.2.present)))
]

-- The entry that the caller writes is already there, or there is room, or every bucket is reserved.
slot :
    (p : Policy ℕ) (now : ℕ) (k : Key) (m : Dict Key State) (st : State)
    → Distinct m
    → length m ≤ p.max_keys
    → All (λ e. 0 < e.1.pending) m ⊎ (length (put k st (get_or_create p now k m).1) ≤ p.max_keys)
slot p now k m st d h = elim (Option-cases (get k m)) [
  | inl absent ↦ elim (Bool-cases (leb p.max_keys (length m))) [
    | inl full ↦ elim (evict_one-shorter now m d) [
      | inl all ↦ inl all
      | inr less ↦ inr (unfold get_or_create in ground (arith, length-put k st (evict_one now m)))
    ]
    | inr room ↦ inr (unfold get_or_create in ground (arith, length-put k st m))
  ]
  | inr present ↦ inr (unfold get_or_create in ground (arith, length-put k st m))
]

-- A check or a failure on a sound limiter within `MaxKeys` leaves the map within it, unless every
-- bucket in the map holds a reservation.
pub size_bounded :
    (l : Limiter) (k : Key) (now : ℕ)
    → IsSound l
    → length l.keys ≤ l.policy.max_keys
    → All (λ e. 0 < e.1.pending) l.keys
      ⊎ ((length (check l k now).0.keys ≤ l.policy.max_keys)
          × (length (fail_report l k now).0.keys ≤ l.policy.max_keys))
unfolding check fail_report
size_bounded l k now s h = elim (slot l.policy now k l.keys _ s.distinct h) [
  | inl all ↦ inl all
  | inr a ↦ elim (slot l.policy now k l.keys _ s.distinct h) [
    | inl all ↦ inl all
    | inr b ↦ inr (a, b)
  ]
]
