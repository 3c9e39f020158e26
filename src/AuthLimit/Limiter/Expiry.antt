-- ===== src/AuthLimit/Limiter/Expiry.antt =====
-- internal/authlimit/authlimit.go: a lock that has run out leaves one attempt.
use open_seavault_rclone.Shared.Dict.{get}
use open_seavault_rclone.Shared.{
  ℕ, ◌+◌, ◌-◌, ◌*◌, ◌<◌, ◌≤◌, ◌≡◌, inr, refl, ap, ◌∙◌, Bool, true, false, some, arith, min,
}
use open_seavault_rclone.AuthLimit.Policy.{Policy, IsNormal}
use open_seavault_rclone.AuthLimit.Bucket.{
  Key, key_Eq, State, threshold_for, refresh, seen, decide, count_failure,
}
use open_seavault_rclone.AuthLimit.Bucket.Bounds.{
  IsWell, max_length, next_lock_len_lem, threshold-pos,
}
use open_seavault_rclone.AuthLimit.Limiter.{Limiter, check, fail_report}
use open_seavault_rclone.AuthLimit.Limiter.Frame.{start, check_self, fail_report_self}
use open_seavault_rclone.AuthLimit.Limiter.Invariant.{IsSound}
use open_seavault_rclone.AuthLimit.Limiter.Lockout.{seen_calm}

-- A refresh after the lock's end leaves one failure to go.
seen_expired :
    (p : Policy ℕ) (k : Key) (now : ℕ) (st : State)
    → IsWell p k st
    → 0 < st.locked_until
    → st.locked_until ≤ now
    → now < st.last_failure + p.window
    → st.pending ≡ 0
    → seen p k now st
      ≡ record st { locked_until = 0; failures = threshold_for p k - 1; last_seen = now }
unfolding seen refresh
seen_expired p k now st w a b c d = ground arith

-- The bucket with that one failure to go, and with its attempt in flight.
abbrev last_chance : Policy ℕ → Key → ℕ → State → State
last_chance p k now st = record st {
  locked_until = 0;
  failures = threshold_for p k - 1;
  last_seen = now;
}

module _ (p : Policy ℕ) (k : Key) (now later : ℕ) (st : State) where
  chance_taken :
      0 < threshold_for p k
      → st.pending ≡ 0
      → decide p k now (last_chance p k now st) ≡ (
        record st {
          locked_until = 0;
          failures = threshold_for p k - 1;
          last_seen = now;
          pending = 1;
        },
        true,
        0,
      )
  unfolding decide
  chance_taken t d = ground arith

  chance_denied :
      0 < threshold_for p k
      → (decide p k later (record (last_chance p k later st) { pending = 1 })).1 ≡ false
  unfolding decide
  chance_denied t = ground arith

  chance_failed :
      IsNormal p
      → p.lock_max < max_length
      → 0 < threshold_for p k
      → 0 < st.lock_len
      → st.lock_len ≤ p.lock_max
      → let r = count_failure p k later (record (last_chance p k later st) { pending = 1 }) in
        (r.1 ≡ true) × (r.2 ≡ min (2 * st.lock_len) p.lock_max)
  unfolding count_failure
  chance_failed n m t a b =
      let len = next_lock_len_lem p k later st.lock_len n m b in (ground arith, ground arith)

module _ (l : Limiter) (k : Key) (now later : ℕ) (st : State) where
  -- On a sound limiter a lock that has run out, with nothing in flight and the last failure within the window, leaves
  -- exactly one attempt: a check is allowed, a second one before the first is resolved is denied, and
  -- a failure locks the key again, for twice the time up to `lock_max`.
  pub one_attempt_after_lock :
      IsSound l
      → get k l.keys ≡ some st
      → 0 < st.locked_until
      → st.locked_until ≤ now
      → now ≤ later
      → later < st.last_failure + l.policy.window
      → st.pending ≡ 0
      → let first = check l k now in
        let second = check first.0 k later in
        let failed = fail_report first.0 k later in
        (first.1 ≡ true)
        × (second.1 ≡ false)
        × (failed.1 ≡ true)
        × (failed.2 ≡ min (2 * st.lock_len) l.policy.lock_max)
  unfolding start
  one_attempt_after_lock s h a b le c d =
      let p = l.policy in
      let w = s.wells k st h in
      let th = threshold-pos p k s.normal in
      let c1 = check_self l k now in
      let first = rw (h, seen_expired p k now st w a b (omega arith) d) at c1 in
      let taken = chance_taken p k now later st th d in
      let held : get k (check l k now).0.keys
          ≡ some (record (last_chance p k now st) { pending = 1 }) =
        first.0 ∙ ap (λ (r : State × Bool × ℕ). some r.0) taken in
      let calm =
        seen_calm p k later (record (last_chance p k now st) { pending = 1 }) (omega arith) refl
          (inr c) (inr (omega arith)) (omega arith) in
      let c2 = check_self (check l k now).0 k later in
      let c3 = fail_report_self (check l k now).0 k later in
      let second = rw (held, first.3, calm) at c2 in
      let failed = rw (held, first.3, calm) at c3 in
      let again = chance_failed p k now later st s.normal s.small th (w.lock_has_len a) w.len_le in
      (
        first.1 ∙ ap (λ (r : State × Bool × ℕ). r.1) taken,
        second.1 ∙ chance_denied p k now later st th,
        failed.1 ∙ again.0,
        failed.2 ∙ again.1,
      )
