-- ===== src/AuthLimit/Policy.antt =====
-- internal/authlimit/authlimit.go: `Policy`, its defaults and `normalize`.
use open_seavault_rclone.Shared.Int.{ℤ, pos, negsuc}
use open_seavault_rclone.Shared.{ℕ, ◌*◌, ◌≤◌, ◌<◌, ◌≡◌, arith, ltb, if◌then◌else◌}

-- The configuration, over the type of its numbers: `ℤ` as given, `ℕ` once it is normalized.
pub record Policy (N : Type 0) : Type 0 where
  pub failures_before_lock : N
  pub account_failures_before_lock : N
  pub window : N
  pub lock_start : N
  pub lock_max : N
  pub failure_delay : N
  pub max_keys : N

abbrev pub second : ℕ
second = 1000000000

abbrev pub minute : ℕ
minute = 60 * second

unfoldable pub default_policy : Policy ℕ
default_policy = record {
  failures_before_lock = 5;
  account_failures_before_lock = 20;
  window = 15 * minute;
  lock_start = 30 * second;
  lock_max = 15 * minute;
  failure_delay = 250000000;
  max_keys = 10000;
}

-- A field that is zero or negative takes the default.
unfoldable pub positive_or : ℕ → ℤ → ℕ
positive_or d (pos n) = if ltb 0 n then n else d
positive_or d (negsuc n) = d

unfoldable pub at_least_zero : ℤ → ℕ
at_least_zero (pos n) = n
at_least_zero (negsuc n) = 0

-- `if p.LockMax < p.LockStart { p.LockMax = p.LockStart }`, after `LockStart` is positive.
unfoldable pub at_least : ℕ → ℤ → ℕ
at_least start (pos n) = if ltb n start then start else n
at_least start (negsuc n) = start

unfoldable pub normalize : Policy ℤ → Policy ℕ
unfolding default_policy positive_or at_least_zero at_least
normalize p =
    let start = positive_or default_policy.lock_start p.lock_start in
    record {
      failures_before_lock = positive_or default_policy.failures_before_lock p.failures_before_lock;
      account_failures_before_lock =
          positive_or default_policy.account_failures_before_lock p.account_failures_before_lock;
      window = positive_or default_policy.window p.window;
      lock_start = start;
      lock_max = at_least start p.lock_max;
      failure_delay = at_least_zero p.failure_delay;
      max_keys = positive_or default_policy.max_keys p.max_keys;
    }

-- What the limiter relies on.
pub record IsNormal (p : Policy ℕ) : Type 0 where
  pub threshold_pos : 0 < p.failures_before_lock
  pub account_threshold_pos : 0 < p.account_failures_before_lock
  pub window_pos : 0 < p.window
  pub start_pos : 0 < p.lock_start
  pub start_le_max : p.lock_start ≤ p.lock_max
  pub keys_pos : 0 < p.max_keys

-- A policy that `normalize` leaves as it is.
abbrev pub as_given : Policy ℕ → Policy ℤ
as_given p = record {
  failures_before_lock = pos p.failures_before_lock;
  account_failures_before_lock = pos p.account_failures_before_lock;
  window = pos p.window;
  lock_start = pos p.lock_start;
  lock_max = pos p.lock_max;
  failure_delay = pos p.failure_delay;
  max_keys = pos p.max_keys;
}

pub normalize-IsNormal : (p : Policy ℤ) → IsNormal (normalize p)
unfolding normalize
normalize-IsNormal p = ground arith

-- Normalizing a policy that is normal already gives that policy.
pub normalize_normal : (p : Policy ℕ) → IsNormal p → normalize (as_given p) ≡ p
unfolding normalize
normalize_normal p h = ground arith
