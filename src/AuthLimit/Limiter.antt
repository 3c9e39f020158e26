-- ===== src/AuthLimit/Limiter.antt =====
-- internal/authlimit/authlimit.go: the map of buckets and the methods of `Limiter`.
-- A method reads the clock once, as `now`, and returns the limiter that it leaves. A bucket is found,
-- changed in place and written back.
pub mod Evict
pub mod Frame
pub mod Invariant
pub mod Isolation
pub mod Size
pub mod Lockout
pub mod Expiry
pub mod Burst
use open_seavault_rclone.Shared.Dict.{Dict, get, put, remove}
use open_seavault_rclone.Shared.Int.{ℤ}
use open_seavault_rclone.Shared.{
  ℕ, ◌-◌, ◌<◌, String, Bool, true, false, not, ◌&&◌, Option, none, some, List, [], ◌∷◌, ◌++◌, map,
  ltb, leb, ◌==◌, str_eq, if◌then◌else◌, length,
}
use open_seavault_rclone.AuthLimit.Policy.{Policy, normalize}
use open_seavault_rclone.AuthLimit.Bucket.{
  Key, key_Eq, State, is_locked, fresh, refresh, seen, decide, count_failure, cleared, released,
}

pub record Limiter : Type 0 where
  pub keys : Dict Key State
  pub policy : Policy ℕ

-- `New`, with the clock left to the callers of the methods.
unfoldable pub new : Policy ℤ → Limiter
new p = record { keys = []; policy = normalize p }

-- The oldest candidate so far, replaced only by a strictly older one.
unfoldable pub older : Key → State → Option (Key × ℕ) → Option (Key × ℕ)
older k st none = some (k, st.last_seen)
older k st (some (j, seen)) =
    if ltb st.last_seen seen then some (k, st.last_seen) else some (j, seen)

-- The loop of `evictOneLocked`: the oldest idle key and the oldest locked one.
unfoldable pub scan :
    ℕ → Dict Key State → Option (Key × ℕ) → Option (Key × ℕ) → Option (Key × ℕ) × Option (Key × ℕ)
scan now [] idle lockd = (idle, lockd)
scan now ((k, st) ∷ m) idle lockd =
    let lock_branch = scan now m idle (older k st lockd) in
    let idle_branch = scan now m (older k st idle) lockd in
    let skip = scan now m idle lockd in
    if ltb 0 st.pending then skip else if is_locked now st then lock_branch else idle_branch

unfoldable pub victim : Option (Key × ℕ) × Option (Key × ℕ) → Option Key
victim (some (k, _), _) = some k
victim (none, some (k, _)) = some k
victim (none, none) = none

unfoldable pub delete_victim : Option Key → Dict Key State → Dict Key State
delete_victim none m = m
delete_victim (some k) m = remove k m

unfoldable pub evict_one : ℕ → Dict Key State → Dict Key State
unfolding delete_victim victim
evict_one now m = delete_victim (victim (scan now m none none)) m

-- The bucket that `getOrCreateLocked` returns, and the map beside which it is written back.
unfoldable pub get_or_create : Policy ℕ → ℕ → Key → Dict Key State → State × Dict Key State
get_or_create p now k m = elim (get k m) [
  | some st ↦ (st, m)
  | none ↦ (fresh now, if leb p.max_keys (length m) then evict_one now m else m)
]

unfoldable pub check : Limiter → Key → ℕ → Limiter × Bool × ℕ
check l k now =
    let (st, m) = get_or_create l.policy now k l.keys in
    let (st', allowed, retry) = decide l.policy k now (seen l.policy k now st) in
    (record l { keys = put k st' m }, allowed, retry)

unfoldable pub fail_report : Limiter → Key → ℕ → Limiter × Bool × ℕ × ℕ
fail_report l k now =
    let (st, m) = get_or_create l.policy now k l.keys in
    let (st', locked, retry, n) = count_failure l.policy k now (seen l.policy k now st) in
    (record l { keys = put k st' m }, locked, retry, n)

unfoldable pub fail : Limiter → Key → ℕ → Limiter × Bool × ℕ
fail l k now = let (l', locked, retry, n) = fail_report l k now in (l', locked, retry)

unfoldable pub success : Limiter → Key → ℕ → Limiter
success l k now = elim (get k l.keys) [
  | none ↦ l
  | some st ↦ record l { keys = put k (cleared now st) l.keys }
]

unfoldable pub release : Limiter → Key → ℕ → Limiter
release l k now = elim (get k l.keys) [
  | none ↦ l
  | some st ↦ record l { keys = put k (released now st) l.keys }
]

-- The keys that an attempt of one peer consults, without the shared account ceiling.
unfoldable pub own_keys : String → String → String → List Key
own_keys surface peer account =
    let own : Key = record { surface = surface; peer = peer; account = "" } in
    if str_eq account ""
    then own ∷ []
    else own ∷ record { surface = surface; peer = peer; account = account } ∷ []

-- `if ra > retryAfter { retryAfter = ra; locked = true }`
abbrev pub longer : ℕ → Bool × ℕ → Bool × ℕ
longer ra (locked, retry) = if ltb retry ra then (true, ra) else (locked, retry)

-- One turn of the loop of `SelfState`, on a key that has a bucket.
unfoldable pub observe : Limiter → Key → ℕ → State → Bool × ℕ → Limiter × Bool × ℕ
observe l k now st answer =
    let st' = refresh l.policy k now st in
    let (locked, retry) =
      if is_locked now st' then longer (st'.locked_until - now) answer else answer in
    (record l { keys = put k st' l.keys }, locked, retry)

unfoldable pub self_loop : Limiter → List Key → ℕ → Bool × ℕ → Limiter × Bool × ℕ
self_loop l [] now (locked, retry) = (l, locked, retry)
self_loop l (k ∷ ks) now answer =
    let skip = self_loop l ks now answer in
    elim (get k l.keys) [
      | none ↦ skip
      | some st ↦
          let (l', locked, retry) = observe l k now st answer in self_loop l' ks now (locked, retry)
    ]

-- `SelfState`, with the peer that `PeerKey` gives for the remote address.
unfoldable pub self_state : Limiter → String → String → String → ℕ → Limiter × Bool × ℕ
unfolding own_keys self_loop observe
self_state l surface peer account now = self_loop l (own_keys surface peer account) now (false, 0)

-- The loop that collects the keys to clear. A cleared key is described by its three fields.
unfoldable pub matching : (Key → Bool) → Dict Key State → List Key
matching test [] = []
matching test ((k, st) ∷ m) = let rest = matching test m in if test k then k ∷ rest else rest

unfoldable pub delete_all : List Key → Dict Key State → Dict Key State
delete_all [] m = m
delete_all (k ∷ ks) m = delete_all ks (remove k m)

unfoldable pub clear_matching : Limiter → (Key → Bool) → Limiter × List Key
unfolding matching delete_all
clear_matching l test =
    let hits = matching test l.keys in (record l { keys = delete_all hits l.keys }, hits)

-- `ClearPeer`, with the peer normalized by `PeerKey`.
unfoldable pub clear_peer : Limiter → String → Limiter × List Key
unfolding clear_matching
clear_peer l peer = clear_matching l (λ k. str_eq k.peer peer)

unfoldable pub clear_account : Limiter → String → Limiter × List Key
unfolding clear_matching
clear_account l account =
    if str_eq account "" then (l, []) else clear_matching l (λ k. str_eq k.account account)
