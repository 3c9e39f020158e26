-- ===== src/AuthLimit/Bucket.antt =====
-- internal/authlimit/authlimit.go: one bucket of the limiter, its key, and what the methods of
-- `Limiter` do to it: `refreshLocked`, and the bodies of `Check`, `Fail`, `Success` and `release`.
pub mod Bounds
use open_seavault_rclone.Shared.Dict.{Eq}
use open_seavault_rclone.Shared.{
  ℕ, ◌+◌, ◌-◌, ◌*◌, ◌%◌, ◌^◌, ◌≤◌, ◌<◌, String, ◌≡◌, ◌↔◌, Bool, true, false, not, ◌&&◌, ◌||◌, arith,
  eq_iff, ltb, leb, ◌==◌, str_eq, if◌then◌else◌,
}
use open_seavault_rclone.AuthLimit.Policy.{Policy}

-- The surface is a string type in the source; these are its named values.
abbrev pub surface_basic : String
surface_basic = "basic"

abbrev pub surface_login : String
surface_login = "login"

pub record Key : Type 0 where
  pub surface : String
  pub peer : String
  pub account : String

abbrev pub key_eq : Key → Key → Bool
key_eq a b = str_eq a.surface b.surface && (str_eq a.peer b.peer && str_eq a.account b.account)

pub key_eq_iff : (a b : Key) → (key_eq a b ≡ true) ↔ (a ≡ b)
key_eq_iff a b =
    ground (arith, eq_iff a.surface b.surface, eq_iff a.peer b.peer, eq_iff a.account b.account)

instance abbrev pub key_Eq : Eq Key
key_Eq = record { beq = key_eq; beq_iff = key_eq_iff }

pub record State : Type 0 where
  pub failures : ℕ
  pub pending : ℕ
  pub locked_until : ℕ
  pub lock_len : ℕ
  pub last_failure : ℕ
  pub last_seen : ℕ

unfoldable pub threshold_for : Policy ℕ → Key → ℕ
threshold_for p k =
    if str_eq k.peer "" && not (str_eq k.account "")
    then p.account_failures_before_lock
    else p.failures_before_lock

-- int64 arithmetic on the bit pattern of a duration
abbrev pub int64_half : ℕ
int64_half = 2 ^ 63

abbrev pub is_nonpositive : ℕ → Bool
is_nonpositive d = d == 0 || leb int64_half d

abbrev pub double : ℕ → ℕ
double d = (2 * d) % 2 ^ 64

abbrev pub exceeds : ℕ → ℕ → Bool
exceeds d bound = ltb d int64_half && ltb bound d

abbrev pub add_time : ℕ → ℕ → ℕ
add_time now d = if ltb d int64_half then now + d else now - (2 ^ 64 - d)

-- `!st.lockedUntil.IsZero() && now.Before(st.lockedUntil)`
abbrev pub is_locked : ℕ → State → Bool
is_locked now st = not (st.locked_until == 0) && ltb now st.locked_until

unfoldable pub fresh : ℕ → State
fresh now = record {
  failures = 0;
  pending = 0;
  locked_until = 0;
  lock_len = 0;
  last_failure = 0;
  last_seen = now;
}

expire_lock : ℕ → ℕ → State → State
expire_lock threshold now st =
    if not (st.locked_until == 0) && leb st.locked_until now
    then record st {
      locked_until = 0;
      failures = if leb threshold st.failures then threshold - 1 else st.failures;
    }
    else st

expire_window : ℕ → ℕ → State → State
expire_window window now st =
    if st.locked_until == 0 && (not (st.last_failure == 0) && leb window (now - st.last_failure))
    then record st { failures = 0; lock_len = 0; last_failure = 0 }
    else st

decay_pending : ℕ → ℕ → State → State
decay_pending window now st =
    if st.locked_until == 0
      && (ltb 0 st.pending && (not (st.last_seen == 0) && leb window (now - st.last_seen)))
    then record st { pending = 0 }
    else st

clamp_pending : ℕ → State → State
clamp_pending threshold st =
    if ltb threshold st.pending then record st { pending = threshold } else st

unfoldable pub refresh : Policy ℕ → Key → ℕ → State → State
unfolding threshold_for expire_lock expire_window decay_pending clamp_pending
refresh p k now st = clamp_pending (threshold_for p k) (
    decay_pending p.window now
      (expire_window p.window now (expire_lock (threshold_for p k) now st)))

-- What `Check` does to the bucket, after the refresh: the new bucket, allowed, retryAfter.
unfoldable pub decide : Policy ℕ → Key → ℕ → State → State × Bool × ℕ
decide p k now st =
    if is_locked now st
    then (st, false, st.locked_until - now)
    else if leb (threshold_for p k) (st.failures + st.pending)
    then (st, false, p.failure_delay)
    else (record st { pending = st.pending + 1 }, true, 0)

-- A bucket as an operation sees it: refreshed, and stamped as seen now.
unfoldable pub seen : Policy ℕ → Key → ℕ → State → State
seen p k now st = let st' = refresh p k now st in record st' { last_seen = now }

unfoldable pub next_lock_len : Policy ℕ → ℕ → ℕ
next_lock_len p len =
    if is_nonpositive len
    then p.lock_start
    else if exceeds (double len) p.lock_max
    then p.lock_max
    else double len

-- What `failReport` does to the bucket: the new bucket, locked, retryAfter, failures.
unfoldable pub count_failure : Policy ℕ → Key → ℕ → State → State × Bool × ℕ × ℕ
unfolding next_lock_len
count_failure p k now st =
    let failed = record st {
      pending = st.pending - 1;
      failures = st.failures + 1;
      last_failure = now;
    } in
    let len = next_lock_len p st.lock_len in
    if leb (threshold_for p k) (st.failures + 1)
    then (
      record failed { lock_len = len; locked_until = add_time now len },
      true,
      len,
      st.failures + 1,
    )
    else (failed, false, p.failure_delay, st.failures + 1)

unfoldable pub cleared : ℕ → State → State
cleared now st = record {
  failures = 0;
  pending = st.pending - 1;
  locked_until = 0;
  lock_len = 0;
  last_failure = 0;
  last_seen = now;
}

unfoldable pub released : ℕ → State → State
released now st = record st { pending = st.pending - 1; last_seen = now }
