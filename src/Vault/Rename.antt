-- ===== src/Vault/Rename.antt =====
-- internal/vault/rename.go: renameWithRetry and removeWithRetry. `Tries` says what each attempt of
-- the system call does, by its number from 0. The loops give their result with the attempts that
-- were made and the waits between them, in milliseconds. The fuel is the bound of the loop.
pub mod Attempts
mod Tests
use open_seavault_rclone.Shared.{
  ℕ, zero, suc, ◌+◌, ◌*◌, ◌≡◌, Bool, true, false, ◌||◌, Option, none, some, List, [], ◌∷◌, ltb,
  ◌==◌, if◌then◌else◌,
}

-- An attempt: it succeeds, the file is not there, or it fails, in a way that may pass or not.
pub data Try : Type 0 where
  done absent retryable fatal : Try

abbrev pub Tries : Type 0
Tries = ℕ → Try

-- `err == nil`, a missing file, or the last error.
pub data Ended : Type 0 where
  succeeded : Ended
  gave_up : Try → Ended

pub record Run : Type 0 where
  pub ended : Ended
  pub attempts : ℕ
  pub waits : List ℕ

abbrev pub rename_attempts : ℕ
rename_attempts = 10

abbrev pub rename_backoff_start : ℕ
rename_backoff_start = 25

abbrev pub rename_backoff_cap : ℕ
rename_backoff_cap = 400

-- `if backoff *= 2; backoff > cap { backoff = cap }`
unfoldable pub next_backoff : ℕ → ℕ
next_backoff b = if ltb rename_backoff_cap (2 * b) then rename_backoff_cap else 2 * b

abbrev pub stopped : Ended → ℕ → Run
stopped e n = record { ended = e; attempts = n + 1; waits = [] }

abbrev pub after_wait : ℕ → Run → Run
after_wait b r = record r { waits = b ∷ r.waits }

module _ (tries : Tries) where
  -- The rename from attempt `n` on, where `left` more attempts may follow it.
  unfoldable pub rename_from : ℕ → ℕ → ℕ → Run
  unfolding next_backoff
  rename_from zero n b = elim (tries n) [
    | done ↦ stopped succeeded n
    | absent ↦ stopped (gave_up absent) n
    | retryable ↦ stopped (gave_up retryable) n
    | fatal ↦ stopped (gave_up fatal) n
  ]
  rename_from (suc left) n b = elim (tries n) [
    | done ↦ stopped succeeded n
    | absent ↦ stopped (gave_up absent) n
    | fatal ↦ stopped (gave_up fatal) n
    | retryable ↦ after_wait b (rename_from left (suc n) (next_backoff b))
  ]

  unfoldable pub rename_with_retry : Run
  unfolding rename_from
  rename_with_retry = rename_from 9 0 rename_backoff_start

  -- The removal, for which a missing file is a success.
  unfoldable pub remove_from : ℕ → ℕ → ℕ → Run
  unfolding next_backoff
  remove_from zero n b = elim (tries n) [
    | done ↦ stopped succeeded n
    | absent ↦ stopped succeeded n
    | retryable ↦ stopped (gave_up retryable) n
    | fatal ↦ stopped (gave_up fatal) n
  ]
  remove_from (suc left) n b = elim (tries n) [
    | done ↦ stopped succeeded n
    | absent ↦ stopped succeeded n
    | fatal ↦ stopped (gave_up fatal) n
    | retryable ↦ after_wait b (remove_from left (suc n) (next_backoff b))
  ]

  unfoldable pub remove_with_retry : Run
  unfolding remove_from
  remove_with_retry = remove_from 9 0 rename_backoff_start
