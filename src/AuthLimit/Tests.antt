-- ===== src/AuthLimit/Tests.antt =====
-- internal/authlimit/authlimit.go: the theorems at concrete limiters, with the default policy.
use open_seavault_rclone.Shared.Dict.{get, put}
use open_seavault_rclone.Shared.Int.{ℤ}
use open_seavault_rclone.Shared.{
  ℕ, ◌+◌, ◌*◌, ◌<◌, ◌≤◌, ◌≡◌, ◌≢◌, ◌⊎◌, refl, true, false, some, List, [], ◌∷◌, arith, All, length,
  max, min,
}
use open_seavault_rclone.AuthLimit.Policy.{
  Policy, default_policy, normalize, IsNormal, as_given, second,
}
use open_seavault_rclone.AuthLimit.Bucket.{
  Key, key_Eq, key_eq_iff, State, surface_basic, threshold_for, decide, refresh, seen,
  count_failure, fresh,
}
use open_seavault_rclone.AuthLimit.Limiter.{Limiter, new, check, fail_report, get_or_create}
use open_seavault_rclone.AuthLimit.Limiter.Invariant.{
  IsSound, Call, checked, failed, run, apply, run-IsSound, new-IsSound,
}
use open_seavault_rclone.AuthLimit.Limiter.Isolation.{reservations_survive}
use open_seavault_rclone.AuthLimit.Limiter.Lockout.{wrong_attempts, expected, threshold_locks}
use open_seavault_rclone.AuthLimit.Limiter.Expiry.{one_attempt_after_lock}
use open_seavault_rclone.AuthLimit.Limiter.Burst.{grants, IsCurrent, grants_bounded}
use open_seavault_rclone.AuthLimit.Attempt.{attempt, attempt_fail, attempt_success, attempt_release}
use open_seavault_rclone.AuthLimit.Attempt.Leak.{reservations, attempt_leaves_none}

abbrev policy : Policy ℤ
policy = as_given default_policy

abbrev alice : Key
alice = record { surface = surface_basic; peer = "10.0.0.7"; account = "alice" }

abbrev bob : Key
bob = record { surface = surface_basic; peer = "10.0.0.8"; account = "bob" }

abbrev start : Limiter
start = new policy

start-IsSound : IsSound start
start-IsSound = new-IsSound policy (unfold normalize default_policy in ground arith)

default-IsNormal : IsNormal default_policy
unfolding default_policy
default-IsNormal = ground arith

-- Five failures of alice, then one check of bob that is in flight.
abbrev calls : List (Call × ℕ)
calls =
    (failed alice, second)
    ∷ (failed alice, 2 * second)
    ∷ (failed alice, 3 * second)
    ∷ (failed alice, 4 * second)
    ∷ (failed alice, 5 * second)
    ∷ (checked bob, 6 * second)
    ∷ []

abbrev busy : Limiter
busy = run calls start

busy-IsSound : IsSound busy
busy-IsSound = run-IsSound calls start start-IsSound

run-IsSound_example : IsSound (run calls start)
run-IsSound_example = run-IsSound calls start start-IsSound

abbrev alice_state : State
alice_state = record {
  failures = 5;
  pending = 0;
  locked_until = 35 * second;
  lock_len = 30 * second;
  last_failure = 5 * second;
  last_seen = 5 * second;
}

abbrev bob_state : State
bob_state = record {
  failures = 0;
  pending = 1;
  locked_until = 0;
  lock_len = 0;
  last_failure = 0;
  last_seen = 6 * second;
}

get-alice : get alice busy.keys ≡ some alice_state
unfolding run apply new fail_report check get put get_or_create normalize count_failure
    threshold_for seen refresh fresh
get-alice = refl

get-bob : get bob busy.keys ≡ some bob_state
unfolding run apply new fail_report check get put get_or_create normalize decide seen refresh fresh
get-bob = refl

alice_not_bob : alice ≢ bob
alice_not_bob e = let f : false ≡ true = (key_eq_iff alice bob).1 e in cc

bob_not_alice : bob ≢ alice
bob_not_alice e = let f : false ≡ true = (key_eq_iff bob alice).1 e in cc

reservations_survive_example :
    (get bob (check busy alice (7 * second)).0.keys ≡ some bob_state)
    × (get bob (fail_report busy alice (7 * second)).0.keys ≡ some bob_state)
reservations_survive_example =
    reservations_survive busy alice bob (7 * second) bob_state busy-IsSound alice_not_bob get-bob
      (omega arith)

two_of_many : length busy.keys ≤ busy.policy.max_keys
unfolding run apply new fail_report check get put get_or_create normalize decide seen refresh fresh
two_of_many = omega arith

busy_policy : busy.policy ≡ default_policy
unfolding run apply new fail_report check get put get_or_create normalize default_policy
busy_policy = refl

-- Two wrong attempts of alice on an empty limiter.
abbrev two : List (ℕ × ℕ)
two = (second, 2 * second) ∷ (3 * second, 4 * second) ∷ []

threshold_locks_example :
    wrong_attempts start alice two ≡ expected (threshold_for start.policy alice) 0 two
threshold_locks_example =
    threshold_locks start alice second two (unfold new get in refl) (omega arith)
      (unfold new normalize in ground arith) (unfold new normalize threshold_for in ground arith)

one_attempt_after_lock_example :
    let first = check busy alice (35 * second) in
    let again = check first.0 alice (36 * second) in
    let failed_again = fail_report first.0 alice (36 * second) in
    (first.1 ≡ true)
    × (again.1 ≡ false)
    × (failed_again.1 ≡ true)
    × (failed_again.2 ≡ min (2 * alice_state.lock_len) busy.policy.lock_max)
one_attempt_after_lock_example =
    one_attempt_after_lock busy alice (35 * second) (36 * second) alice_state busy-IsSound get-alice
      (omega arith) (omega arith) (omega arith)
      (rw busy_policy (unfold default_policy in omega arith)) refl

abbrev burst : List ℕ
burst = (7 * second) ∷ (8 * second) ∷ (9 * second) ∷ []

bob-IsCurrent : IsCurrent (threshold_for busy.policy bob) (6 * second) bob_state
unfolding threshold_for default_policy
bob-IsCurrent = rw busy_policy (ground arith)

burst_in_window : All (λ now. (6 * second ≤ now) × (now < 6 * second + busy.policy.window)) burst
unfolding default_policy
burst_in_window = rw busy_policy (ground arith)

grants_bounded_example :
    grants busy bob burst + (bob_state.failures + bob_state.pending)
    ≤ max (threshold_for busy.policy bob) (bob_state.failures + bob_state.pending)
grants_bounded_example =
    grants_bounded burst busy bob (6 * second) bob_state get-bob bob-IsCurrent burst_in_window

attempt_leaves_none_example :
    let clock = λ (n : ℕ). 7 * second + n in
    let clock' = λ (n : ℕ). 8 * second + n in
    let (l', a, allowed, _) = attempt busy surface_basic "10.0.0.8" "bob" clock in
    ((allowed ≡ true) ⊎ (reservations bob l' ≤ reservations bob busy))
    × (reservations bob (attempt_fail l' a clock').0 ≤ reservations bob busy)
    × (reservations bob (attempt_success l' a clock').0 ≤ reservations bob busy)
    × (reservations bob (attempt_release l' a clock').0 ≤ reservations bob busy)
attempt_leaves_none_example =
    attempt_leaves_none busy surface_basic "10.0.0.8" "bob" (λ n. 7 * second + n)
      (λ n. 8 * second + n) bob
