-- ===== src/AuthLimit/Limiter/Lockout.antt =====
-- internal/authlimit/authlimit.go: wrong attempts one after the other lock a key.
use open_seavault_rclone.Shared.Dict.{get}
use open_seavault_rclone.Shared.{
  ℕ, ◌+◌, ◌<◌, ◌≤◌, ◌≡◌, ◌⊎◌, inl, inr, refl, ap, sym, ◌∙◌, Bool, true, Option, none, some, List,
  [], ◌∷◌, arith, leb, length,
}
use mathlib.Core.Path.{ap₂, Σ_path}
use open_seavault_rclone.AuthLimit.Policy.{Policy}
use open_seavault_rclone.AuthLimit.Bucket.{
  Key, key_Eq, State, threshold_for, fresh, refresh, seen, decide, count_failure,
}
use open_seavault_rclone.AuthLimit.Bucket.Bounds.{}
use open_seavault_rclone.AuthLimit.Limiter.{Limiter, check, fail_report}
use open_seavault_rclone.AuthLimit.Limiter.Frame.{start, check_self, fail_report_self}

-- Wrong attempts in a row: the times of each check and of the failure that follows it. The answers
-- are whether the check allowed the attempt, and whether the failure locked the key.
pub wrong_attempts : Limiter → Key → List (ℕ × ℕ) → List (Bool × Bool)
wrong_attempts l k [] = []
wrong_attempts l k ((tc, tf) ∷ ts) =
    let (checked, allowed, _) = check l k tc in
    let (failed, locked, _, _) = fail_report checked k tf in
    (allowed, locked) ∷ wrong_attempts failed k ts

-- What is expected after `f` failures: every attempt is allowed, and the one that completes the
-- threshold locks the key.
pub expected : ℕ → ℕ → List (ℕ × ℕ) → List (Bool × Bool)
expected threshold f [] = []
expected threshold f (t ∷ ts) = (true, leb threshold (f + 1)) ∷ expected threshold (f + 1) ts

-- The clock runs forward from `t`, and no gap reaches the window.
abbrev pub Tight : ℕ → ℕ → List (ℕ × ℕ) → Type 0
Tight window t [] = Unit
Tight window t ((tc, tf) ∷ ts) = (t ≤ tc) × (tc ≤ tf) × (tf < t + window) × Tight window tf ts

-- A bucket in an unlocked streak of `f` failures, the last of them at `t`.
pub record IsStreak (f t : ℕ) (st : State) : Type 0 where
  pub failures_eq : st.failures ≡ f
  pub none_pending : st.pending ≡ 0
  pub unlocked : st.locked_until ≡ 0
  pub last_eq : (st.last_failure ≡ 0) ⊎ (st.last_failure ≡ t)
  pub some_time : 0 < t

seen_unlocked :
    (p : Policy ℕ) (k : Key) (now : ℕ) (st : State)
    → 0 < p.window
    → (st.last_failure ≡ 0) ⊎ (now < st.last_failure + p.window)
    → (st.pending ≡ 0) ⊎ (now < st.last_seen + p.window)
    → st.pending ≤ threshold_for p k
    → seen p k now (record st { locked_until = 0 })
      ≡ record st { locked_until = 0; last_seen = now }
unfolding seen refresh
seen_unlocked p k now st z a b c = ground arith

-- With no lock, and nothing stale, a refresh changes nothing.
pub seen_calm :
    (p : Policy ℕ) (k : Key) (now : ℕ) (st : State)
    → 0 < p.window
    → st.locked_until ≡ 0
    → (st.last_failure ≡ 0) ⊎ (now < st.last_failure + p.window)
    → (st.pending ≡ 0) ⊎ (now < st.last_seen + p.window)
    → st.pending ≤ threshold_for p k
    → seen p k now st ≡ record st { last_seen = now }
seen_calm p k now st z u a b c =
    ap (λ (x : ℕ). seen p k now (record st { locked_until = x })) u
    ∙ seen_unlocked p k now st z a b c
    ∙ ap (λ (x : ℕ). record st { locked_until = x; last_seen = now }) (sym u)

abbrev checked : Policy ℕ → Key → ℕ → State → State × Bool × ℕ
checked p k tc st = decide p k tc (seen p k tc st)

abbrev counted : Policy ℕ → Key → ℕ → State → State × Bool × ℕ × ℕ
counted p k tf st = count_failure p k tf (seen p k tf st)

-- One wrong attempt in a streak.
module _ (p : Policy ℕ) (k : Key) (f t tc tf : ℕ) (st : State) where
  streak_check :
      IsStreak f t st
      → (t ≤ tc) × (tc ≤ tf) × (tf < t + p.window)
      → f < threshold_for p k
      → checked p k tc st ≡ (record st { last_seen = tc; pending = 1 }, true, 0)
  unfolding decide
  streak_check s a h =
      let calm : seen p k tc st ≡ record st { last_seen = tc } =
        seen_calm p k tc st (omega arith) s.unlocked (omega arith) (inl s.none_pending)
          (omega arith) in
      rw calm (ground arith)

  IsStreak-fail :
      IsStreak f t st
      → (t ≤ tc) × (tc ≤ tf) × (tf < t + p.window)
      → f < threshold_for p k
      → let after = counted p k tf (record st { last_seen = tc; pending = 1 }) in
        (after.1 ≡ leb (threshold_for p k) (f + 1))
        × (f + 1 < threshold_for p k → IsStreak (f + 1) tf after.0)
  IsStreak-fail s a h =
      let calm : seen p k tf (record st { last_seen = tc; pending = 1 })
          ≡ record st { last_seen = tf; pending = 1 } =
        seen_calm p k tf _ (omega arith) s.unlocked (omega arith) (inr (omega arith))
          (omega arith) in
      rw calm (unfold count_failure in ground arith, λ g. unfold count_failure in ground arith)

start-IsStreak :
    (f t t' : ℕ) (o : Option State) → IsStreak f t (start t o) → IsStreak f t (start t' o)
unfolding start fresh
start-IsStreak f t t' none s = ground arith
start-IsStreak f t t' (some st) s = s

-- The same attempt on the limiter: both answers, and the streak that goes on.
module _ (l : Limiter) (k : Key) (f t tc tf : ℕ) where
  attempt_step :
      IsStreak f t (start t (get k l.keys))
      → (t ≤ tc) × (tc ≤ tf) × (tf < t + l.policy.window)
      → f < threshold_for l.policy k
      → let l1 = (check l k tc).0 in
        let l2 = fail_report l1 k tf in
        ((check l k tc).1 ≡ true)
        × (l2.1 ≡ leb (threshold_for l.policy k) (f + 1))
        × (l2.0.policy ≡ l.policy)
        × (f + 1 < threshold_for l.policy k → IsStreak (f + 1) tf (start tf (get k l2.0.keys)))
  unfolding start
  attempt_step s a h =
      let st = start tc (get k l.keys) in
      let s' : IsStreak f t st = start-IsStreak f t tc (get k l.keys) s in
      let c = check_self l k tc in
      let sc = streak_check l.policy k f t tc tf st s' a h in
      let held : get k (check l k tc).0.keys ≡ some (record st { last_seen = tc; pending = 1 }) =
        c.0 ∙ ap (λ (r : State × Bool × ℕ). some r.0) sc in
      let d = fail_report_self (check l k tc).0 k tf in
      let d' = rw (held, c.3) at d in
      let sf = IsStreak-fail l.policy k f t tc tf st s' a h in
      (c.1 ∙ ap (λ (r : State × Bool × ℕ). r.1) sc, d'.1 ∙ sf.0, d.3 ∙ c.3, λ g. rw d'.0 (sf.1 g))

attempts_from :
    (ts : List (ℕ × ℕ)) (l : Limiter) (k : Key) (f t : ℕ)
    → IsStreak f t (start t (get k l.keys))
    → Tight l.policy.window t ts
    → f + length ts ≤ threshold_for l.policy k
    → wrong_attempts l k ts ≡ expected (threshold_for l.policy k) f ts
unfolding wrong_attempts expected fail_report check
attempts_from [] l k f t s w h = refl
attempts_from ((tc, tf) ∷ []) l k f t s w h =
    let step = attempt_step l k f t tc tf s (w.0, w.1, w.2) (omega arith) in rw (step.0, step.1)
attempts_from ((tc, tf) ∷ u ∷ ts) l k f t s w h =
    let step = attempt_step l k f t tc tf s (w.0, w.1, w.2) (omega arith) in
    let l2 = (fail_report (check l k tc).0 k tf).0 in
    ap₂ ◌∷◌ (Σ_path step.0 step.1)
      (attempts_from (u ∷ ts) l2 k (f + 1) tf (step.3 (omega arith)) w.3 (omega arith))

-- On a key with no bucket, wrong attempts that follow one another within the window, at most as many
-- as the threshold, are each allowed, and exactly the one that reaches the threshold locks the key.
pub threshold_locks :
    (l : Limiter) (k : Key) (t : ℕ) (ts : List (ℕ × ℕ))
    → get k l.keys ≡ none
    → 0 < t
    → Tight l.policy.window t ts
    → length ts ≤ threshold_for l.policy k
    → wrong_attempts l k ts ≡ expected (threshold_for l.policy k) 0 ts
threshold_locks l k t ts absent pos w h =
    attempts_from ts l k 0 t (rw absent (unfold start fresh in ground arith)) w (omega arith)
