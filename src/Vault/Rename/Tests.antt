-- ===== src/Vault/Rename/Tests.antt =====
-- internal/vault/rename.go: the theorems on the retries, at a reader that leaves after two attempts.
use open_seavault_rclone.Shared.{
  ℕ, ◌+◌, ◌≤◌, ◌<◌, ◌≡◌, refl, All, length, arith, ltb, if◌then◌else◌,
}
use open_seavault_rclone.Vault.Rename.{
  done, absent, retryable, Tries, succeeded, rename_attempts, rename_backoff_cap, rename_with_retry,
  remove_with_retry,
}
use open_seavault_rclone.Vault.Rename.Attempts.{rename_succeeds, rename_bounded}

abbrev busy_twice : Tries
busy_twice n = if ltb n 2 then retryable else done

run_busy_twice : (rename_with_retry busy_twice).attempts ≡ 3
unfolding rename_with_retry
run_busy_twice = refl

removal_of_absent : (remove_with_retry (λ n. absent)).ended ≡ succeeded
unfolding remove_with_retry
removal_of_absent = refl

busy_before : (m : ℕ) → m < 2 → busy_twice m ≡ retryable
busy_before m lt = ground arith

rename_succeeds_example :
    ((rename_with_retry busy_twice).ended ≡ succeeded)
    × ((rename_with_retry busy_twice).attempts ≡ 2 + 1)
rename_succeeds_example = rename_succeeds busy_twice 2 (omega arith) (refl, busy_before)

rename_bounded_example :
    (1 ≤ (rename_with_retry busy_twice).attempts)
    × ((rename_with_retry busy_twice).attempts ≤ rename_attempts)
    × (length (rename_with_retry busy_twice).waits + 1 ≡ (rename_with_retry busy_twice).attempts)
    × All (λ t. t ≤ rename_backoff_cap) (rename_with_retry busy_twice).waits
rename_bounded_example = rename_bounded busy_twice
