-- ===== src/AuthLimit/Bucket/Bounds.antt =====
-- internal/authlimit/authlimit.go: the invariant of one bucket, and every change of it.
use open_seavault_rclone.Shared.{
  ℕ, ◌+◌, ◌*◌, ◌^◌, ◌≤◌, ◌<◌, ◌≡◌, arith, false, ◌==◌, if◌then◌else◌, min,
}
use open_seavault_rclone.AuthLimit.Policy.{Policy, IsNormal}
use open_seavault_rclone.AuthLimit.Bucket.{
  Key, State, threshold_for, is_locked, fresh, refresh, seen, decide, next_lock_len, count_failure,
  cleared, released,
}

-- A lock's length below this bound doubles without overflow: 2 ^ 62 nanoseconds, some 146 years.
abbrev pub max_length : ℕ
max_length = 2 ^ 62

-- What holds of a bucket between two calls.
pub record IsWell (p : Policy ℕ) (k : Key) (st : State) : Type 0 where
  pub pending_le : st.pending ≤ threshold_for p k
  pub len_le : st.lock_len ≤ p.lock_max
  pub lock_reached : 0 < st.locked_until → threshold_for p k ≤ st.failures
  pub lock_has_len : 0 < st.locked_until → 0 < st.lock_len
  pub lock_ends : 0 < st.locked_until → st.locked_until ≡ st.last_failure + st.lock_len

pub threshold-pos : (p : Policy ℕ) (k : Key) → IsNormal p → 0 < threshold_for p k
unfolding threshold_for
threshold-pos p k n = ground arith

module _ (p : Policy ℕ) (k : Key) (now : ℕ) where
  pub fresh-IsWell : IsWell p k (fresh now)
  unfolding fresh
  fresh-IsWell = ground arith

  pub refresh-IsWell : (st : State) → IsWell p k st → IsWell p k (refresh p k now st)
  unfolding refresh
  refresh-IsWell st w = ground arith

  pub seen-IsWell : (st : State) → IsWell p k st → IsWell p k (seen p k now st)
  unfolding seen
  seen-IsWell st w = ground (arith, refresh-IsWell st w)

  pub decide-IsWell : (st : State) → IsWell p k st → IsWell p k (decide p k now st).0
  unfolding decide
  decide-IsWell st w = ground arith

  -- The next length of a lock: the first is `lock_start`, each later one twice the last, up to
  -- `lock_max`.
  pub next_lock_len_lem :
      (len : ℕ)
      → IsNormal p
      → p.lock_max < max_length
      → len ≤ p.lock_max
      → next_lock_len p len ≡ (if len == 0 then p.lock_start else min (2 * len) p.lock_max)
  unfolding next_lock_len
  next_lock_len_lem len n small le = ground arith

  pub next_lock_len_bounds :
      (len : ℕ)
      → IsNormal p
      → p.lock_max < max_length
      → len ≤ p.lock_max
      → (0 < next_lock_len p len) × (next_lock_len p len ≤ p.lock_max)
  next_lock_len_bounds len n small le = ground (arith, next_lock_len_lem len)

  pub count_failure-IsWell :
      (st : State)
      → IsNormal p
      → p.lock_max < max_length
      → IsWell p k st
      → IsWell p k (count_failure p k now st).0
  unfolding count_failure
  count_failure-IsWell st n small w = ground (arith, next_lock_len_bounds st.lock_len)

  pub cleared-IsWell : (st : State) → IsWell p k st → IsWell p k (cleared now st)
  unfolding cleared
  cleared-IsWell st w = ground arith

  pub released-IsWell : (st : State) → IsWell p k st → IsWell p k (released now st)
  unfolding released
  released-IsWell st w = ground arith

-- A lock never lasts longer than `lock_max` after the failure that set it.
pub unlocked_after :
    (p : Policy ℕ) (k : Key) (st : State) (now : ℕ)
    → IsWell p k st
    → st.last_failure + p.lock_max ≤ now
    → is_locked now st ≡ false
unlocked_after p k st now w h = ground arith
