-- ===== src/Vault/Rename/Attempts.antt =====
-- internal/vault/rename.go: when renameWithRetry succeeds, and how often and how long both loops try.
use open_seavault_rclone.Shared.{ℕ, zero, suc, ◌+◌, ◌≤◌, ◌<◌, ◌≡◌, refl, ◌∙◌, All, length, arith}
use mathlib.Core.Path.{subst}
use open_seavault_rclone.Vault.Rename.{
  Try, done, absent, retryable, fatal, Tries, Ended, succeeded, gave_up, Run, next_backoff, stopped,
  after_wait, rename_attempts, rename_backoff_cap, rename_backoff_start, rename_from,
  rename_with_retry,
}

next_backoff_le : (b : ℕ) → next_backoff b ≤ rename_backoff_cap
unfolding next_backoff
next_backoff_le b = ground arith

-- The attempts of a run that starts at attempt `n` with `left` more, and its waits.
record IsBounded (left n : ℕ) (r : Run) : Type 0 where
  enough : n + 1 ≤ r.attempts
  few : r.attempts ≤ n + 1 + left
  between : length r.waits + n + 1 ≡ r.attempts
  short : All (λ t. t ≤ rename_backoff_cap) r.waits

stopped-IsBounded : (left n : ℕ) (e : Ended) → IsBounded left n (stopped e n)
stopped-IsBounded left n e = record {
  enough = omega arith;
  few = omega arith;
  between = omega arith;
  short = tt;
}

after_wait-IsBounded :
    (left n b : ℕ) (r : Run)
    → b ≤ rename_backoff_cap
    → IsBounded left (suc n) r
    → IsBounded (suc left) n (after_wait b r)
after_wait-IsBounded left n b r le w = record {
  enough = omega (arith, w.enough);
  few = omega (arith, w.few);
  between = omega (arith, w.between);
  short = (le, w.short);
}

module _ (tries : Tries) where
  rename_from-IsBounded :
      (left n b : ℕ) → b ≤ rename_backoff_cap → IsBounded left n (rename_from tries left n b)
  unfolding rename_from
  rename_from-IsBounded zero n b le =
      elim (tries n)
        as (λ t. IsBounded zero n (elim t as (λ _. Run) [
          | done ↦ stopped succeeded n
          | absent ↦ stopped (gave_up absent) n
          | retryable ↦ stopped (gave_up retryable) n
          | fatal ↦ stopped (gave_up fatal) n
        ])) [
          | done ↦ stopped-IsBounded zero n _
          | absent ↦ stopped-IsBounded zero n _
          | retryable ↦ stopped-IsBounded zero n _
          | fatal ↦ stopped-IsBounded zero n _
        ]
  rename_from-IsBounded (suc left) n b le =
      let rest = rename_from-IsBounded left (suc n) (next_backoff b) (next_backoff_le b) in
      elim (tries n)
        as (λ t. IsBounded (suc left) n (elim t as (λ _. Run) [
          | done ↦ stopped succeeded n
          | absent ↦ stopped (gave_up absent) n
          | fatal ↦ stopped (gave_up fatal) n
          | retryable ↦ after_wait b (rename_from tries left (suc n) (next_backoff b))
        ])) [
          | done ↦ stopped-IsBounded (suc left) n _
          | absent ↦ stopped-IsBounded (suc left) n _
          | fatal ↦ stopped-IsBounded (suc left) n _
          | retryable ↦ after_wait-IsBounded left n b _ le rest
        ]

  -- Attempt `n` ends so, and every attempt before it failed in a way that may pass.
  abbrev pub Passes : Try → ℕ → Type 0
  Passes t n = (tries n ≡ t) × ((m : ℕ) → m < n → tries m ≡ retryable)

  now : (n : ℕ) → tries (n + 0) ≡ done → tries n ≡ done
  now n e = subst (λ t. tries t ≡ done) (omega arith) e

  rename_from-done :
      (left n b j : ℕ)
      → j ≤ left
      → tries (n + j) ≡ done
      → ((i : ℕ) → i < j → tries (n + i) ≡ retryable)
      → (rename_from tries left n b).ended ≡ succeeded
        × ((rename_from tries left n b).attempts ≡ n + j + 1)
  unfolding rename_from
  rename_from-done zero n b zero le last before =
      let here = now n last in rw (here, rename_from) (refl, omega arith)
  rename_from-done (suc left) n b zero le last before =
      let here = now n last in rw (here, rename_from) (refl, omega arith)
  rename_from-done zero n b (suc j) le last before = absurd (omega arith)
  rename_from-done (suc left) n b (suc j) le last before =
      let ih =
        rename_from-done left (suc n) (next_backoff b) j (omega arith)
          (subst (λ t. tries t ≡ done) (omega arith) last)
          (λ i lt. subst (λ t. tries t ≡ retryable) (omega arith) (before (suc i) (omega arith))) in
      let here : tries n ≡ retryable =
        subst (λ t. tries t ≡ retryable) (omega arith) (before zero (omega arith)) in
      rw (here, rename_from) (ih.0, ih.1 ∙ omega arith)

  -- If one of the ten attempts of a rename would succeed and all attempts before it fail in a way that
  -- may pass, then the rename succeeds, with exactly this attempt as its last.
  pub rename_succeeds :
      (n : ℕ)
      → n < rename_attempts
      → Passes done n
      → ((rename_with_retry tries).ended ≡ succeeded) × ((rename_with_retry tries).attempts ≡ n + 1)
  unfolding rename_with_retry
  rename_succeeds n lt (last, before) =
      let t =
        rename_from-done 9 0 rename_backoff_start n (omega arith)
          (subst (λ t. tries t ≡ done) (omega arith) last)
          (λ m below. subst (λ t. tries t ≡ retryable) (omega arith) (before m below)) in
      (t.0, t.1 ∙ omega arith)

  -- The rename makes at least one attempt and at most ten, waits once between every two of them, and
  -- never for longer than 400 milliseconds, whatever the attempts do.
  pub rename_bounded :
      (1 ≤ (rename_with_retry tries).attempts)
      × ((rename_with_retry tries).attempts ≤ rename_attempts)
      × (length (rename_with_retry tries).waits + 1 ≡ (rename_with_retry tries).attempts)
      × All (λ t. t ≤ rename_backoff_cap) (rename_with_retry tries).waits
  unfolding rename_with_retry
  rename_bounded =
      let w = rename_from-IsBounded 9 0 rename_backoff_start (omega arith) in
      (omega (arith, w.enough), omega (arith, w.few), omega (arith, w.between), w.short)
