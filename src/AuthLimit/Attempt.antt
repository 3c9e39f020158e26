-- ===== src/AuthLimit/Attempt.antt =====
-- internal/authlimit/authlimit.go: `Attempt`, one authentication attempt across its keys.
-- Every call inside reads the clock anew: `clock n` is the n-th reading. The peer is the one that
-- `PeerKey` gives for the remote address. No other request runs between the calls of one function
-- here; Limiter/Invariant.antt is about all interleavings.
pub mod Leak
use open_seavault_rclone.Shared.{
  ℕ, ◌+◌, String, Bool, true, false, List, [], ◌∷◌, ◌++◌, ltb, str_eq, if◌then◌else◌,
}
use open_seavault_rclone.AuthLimit.Bucket.{Key}
use open_seavault_rclone.AuthLimit.Limiter.{Limiter, check, fail_report, success, release}

pub record LockRecord : Type 0 where
  pub key : Key
  pub duration : ℕ
  pub failures : ℕ

pub record Attempt : Type 0 where
  pub keys : List Key
  pub locks : List LockRecord
  pub consumed : Bool

-- The peer's bucket, and with an account the peer's bucket for it and the account's ceiling.
unfoldable pub attempt_keys : String → String → String → List Key
attempt_keys surface peer account =
    let own : Key = record { surface = surface; peer = peer; account = "" } in
    if str_eq account ""
    then own ∷ []
    else own
      ∷ record { surface = surface; peer = peer; account = account }
      ∷ record { surface = surface; peer = ""; account = account }
      ∷ []

unfoldable pub release_all : List Key → (ℕ → ℕ) → ℕ → Limiter → Limiter
release_all [] clock n l = l
release_all (k ∷ ks) clock n l = release_all ks clock (n + 1) (release l k (clock n))

abbrev pub denied : Attempt
denied = record { keys = []; locks = []; consumed = false }

-- The loop of `Limiter.Attempt`: the first key that denies releases the reservations made so far.
unfoldable pub reserve : List Key → List Key → (ℕ → ℕ) → ℕ → Limiter → Limiter × Attempt × Bool × ℕ
reserve [] reserved clock n l =
    (l, record { keys = reserved; locks = []; consumed = false }, true, 0)
reserve (k ∷ ks) reserved clock n l =
    let (l', allowed, retry) = check l k (clock n) in
    let go_on = reserve ks (reserved ++ k ∷ []) clock (n + 1) l' in
    if allowed then go_on else (release_all reserved clock (n + 1) l', denied, false, retry)

unfoldable pub attempt : Limiter → String → String → String → (ℕ → ℕ) → Limiter × Attempt × Bool × ℕ
unfolding reserve release_all attempt_keys
attempt l surface peer account clock = reserve (attempt_keys surface peer account) [] clock 0 l

-- The loop of `Attempt.Fail`, over the locks, `locked` and `retryAfter` so far.
unfoldable pub fail_loop :
    List Key
    → (ℕ → ℕ)
    → ℕ
    → Limiter
    → List LockRecord × Bool × ℕ
    → Limiter × List LockRecord × Bool × ℕ
fail_loop [] clock n l (locks, locked, retry) = (l, locks, locked, retry)
fail_loop (k ∷ ks) clock n l (locks, locked, retry) =
    let (l', lk, ra, failures) = fail_report l k (clock n) in
    let locks' =
      if lk then locks ++ record { key = k; duration = ra; failures = failures } ∷ [] else locks in
    let locked' = if lk then true else locked in
    let retry' = if ltb retry ra then ra else retry in
    fail_loop ks clock (n + 1) l' (locks', locked', retry')

unfoldable pub attempt_fail : Limiter → Attempt → (ℕ → ℕ) → Limiter × Attempt × Bool × ℕ
unfolding fail_loop
attempt_fail l a clock =
    let (l', locks, locked, retry) = fail_loop a.keys clock 0 l (a.locks, false, 0) in
    if a.consumed
    then (l, a, false, 0)
    else (l', record a { consumed = true; locks = locks }, locked, retry)

unfoldable pub success_all : List Key → (ℕ → ℕ) → ℕ → Limiter → Limiter
success_all [] clock n l = l
success_all (k ∷ ks) clock n l = success_all ks clock (n + 1) (success l k (clock n))

unfoldable pub attempt_success : Limiter → Attempt → (ℕ → ℕ) → Limiter × Attempt
unfolding success_all
attempt_success l a clock =
    if a.consumed then (l, a) else (success_all a.keys clock 0 l, record a { consumed = true })

unfoldable pub attempt_release : Limiter → Attempt → (ℕ → ℕ) → Limiter × Attempt
unfolding release_all
attempt_release l a clock =
    if a.consumed then (l, a) else (release_all a.keys clock 0 l, record a { consumed = true })
