-- ===== src/AuthLimit/Limiter/Burst.antt =====
-- internal/authlimit/authlimit.go: concurrent requests for one key reserve before they verify, so
-- no more of them pass the check than the threshold leaves.
use open_seavault_rclone.Shared.Dict.{get}
use open_seavault_rclone.Shared.{
  ℕ, ◌+◌, ◌<◌, ◌≤◌, ◌≡◌, ◌⊎◌, Bool, true, false, some, List, [], ◌∷◌, arith, if◌then◌else◌, max,
  All,
}
use open_seavault_rclone.AuthLimit.Policy.{Policy}
use open_seavault_rclone.AuthLimit.Bucket.{Key, key_Eq, State, threshold_for, seen, decide}
use open_seavault_rclone.AuthLimit.Limiter.{Limiter, check}
use open_seavault_rclone.AuthLimit.Limiter.Frame.{start, check_self}
use open_seavault_rclone.AuthLimit.Limiter.Lockout.{seen_calm}

abbrev granted : Bool → ℕ → ℕ
granted b n = if b then n + 1 else n

-- How many of the checks at these times are allowed, none of them resolved in between.
pub grants : Limiter → Key → List ℕ → ℕ
grants l k [] = 0
grants l k (now ∷ ts) = let (l', allowed, _) = check l k now in granted allowed (grants l' k ts)

-- The bucket is unlocked, and what it counts is no older than `t`.
pub record IsCurrent (threshold t : ℕ) (st : State) : Type 0 where
  pub unlocked : st.locked_until ≡ 0
  pub seen_since : t ≤ st.last_seen
  pub failed_since : (st.last_failure ≡ 0) ⊎ (t ≤ st.last_failure)
  pub reserved_le : st.pending ≤ threshold

abbrev taken : State → ℕ
taken st = st.failures + st.pending

abbrev count : State × Bool × ℕ → ℕ
count r = if r.1 then 1 else 0

module _ (p : Policy ℕ) (k : Key) (t now : ℕ) (st : State) where
  -- A check either takes one of the places left or finds none.
  check_takes :
      IsCurrent (threshold_for p k) t st
      → (t ≤ now) × (now < t + p.window)
      → let r = decide p k now (seen p k now st) in
        IsCurrent (threshold_for p k) t r.0
        × (taken r.0 ≡ taken st + count r)
        × (taken r.0 ≤ max (threshold_for p k) (taken st))
  check_takes c h =
      let calm : seen p k now st ≡ record st { last_seen = now } =
        seen_calm p k now st (omega arith) c.unlocked (omega arith) (omega arith) c.reserved_le in
      rw calm (
        unfold decide in ground arith,
        unfold decide in ground arith,
        unfold decide in ground arith,
      )

sum_up :
    (b : Bool) (n before after threshold : ℕ)
    → after ≡ before + (if b then 1 else 0)
    → after ≤ max threshold before
    → n + after ≤ max threshold after
    → granted b n + before ≤ max threshold before
sum_up true n before after threshold e f g = omega arith
sum_up false n before after threshold e f g = omega arith

-- Checks of one key that is unlocked and counts nothing older than the window they all fall in, with
-- none of them resolved, pass at most as often as the failures and the reservations that the key has
-- already leave room below its threshold.
pub grants_bounded :
    (ts : List ℕ) (l : Limiter) (k : Key) (t : ℕ) (st : State)
    → get k l.keys ≡ some st
    → IsCurrent (threshold_for l.policy k) t st
    → All (λ now. (t ≤ now) × (now < t + l.policy.window)) ts
    → grants l k ts + (st.failures + st.pending)
      ≤ max (threshold_for l.policy k) (st.failures + st.pending)
unfolding grants start
grants_bounded [] l k t st h c w = omega arith
grants_bounded (now ∷ ts) l k t st h c w =
    let p = l.policy in
    let l' = (check l k now).0 in
    let self = check_self l k now in
    let own = rw h at self in
    let r = decide p k now (seen p k now st) in
    let step = check_takes p k t now st c w.0 in
    let rest = grants_bounded ts l' k t r.0 own.0 (rw self.3 step.0) (rw self.3 w.1) in
    rw own.1 (sum_up r.1 (grants l' k ts) _ _ _ step.1 step.2 (rw self.3 at rest))
