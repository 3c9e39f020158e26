-- ===== src/AuthLimit/Limiter/Invariant.antt =====
-- internal/authlimit/authlimit.go: any sequence of method calls, hence any interleaving of the
-- requests under the mutex, keeps the invariant of the buckets.
use open_seavault_rclone.Shared.Dict.{
  Dict, get, put, remove, get-put, get-remove, Distinct, put-Distinct, remove-Distinct,
}
use open_seavault_rclone.Shared.Int.{ℤ}
use open_seavault_rclone.Shared.{
  ℕ, ◌<◌, ◌≡◌, inl, inr, sym, ◌∙◌, Bool, some, List, [], ◌∷◌, String, arith, Bool-cases,
  Option-cases, str_eq,
}
use mathlib.Core.Path.{subst}
use open_seavault_rclone.AuthLimit.Policy.{Policy, IsNormal, normalize, normalize-IsNormal}
use open_seavault_rclone.AuthLimit.Bucket.{Key, key_Eq, key_eq_iff, State, seen}
use open_seavault_rclone.AuthLimit.Bucket.Bounds.{
  max_length, IsWell, fresh-IsWell, refresh-IsWell, seen-IsWell, decide-IsWell,
  count_failure-IsWell, cleared-IsWell, released-IsWell,
}
use open_seavault_rclone.AuthLimit.Limiter.{
  Limiter, new, get_or_create, check, fail_report, success, release, self_state, self_loop, observe,
  own_keys, clear_peer, clear_account, clear_matching, delete_all, matching,
}
use open_seavault_rclone.AuthLimit.Limiter.Frame.{
  start, get_or_create-get, get_or_create-start, get_or_create-Distinct,
}

pub record IsSound (l : Limiter) : Type 0 where
  pub normal : IsNormal l.policy
  pub small : l.policy.lock_max < max_length
  pub distinct : Distinct l.keys
  pub wells : (j : Key) (st : State) → get j l.keys ≡ some st → IsWell l.policy j st

start-IsWell :
    (l : Limiter) (k : Key) (now : ℕ) → IsSound l → IsWell l.policy k (start now (get k l.keys))
unfolding start
start-IsWell l k now s = elim (Option-cases (get k l.keys)) [
  | inl a ↦ rw (a, start) (fresh-IsWell l.policy k now)
  | inr a ↦ rw (a.1, start) (s.wells k a.0 a.1)
]

-- Writing a good bucket beside buckets that were there keeps the invariant.
write-IsSound :
    (l : Limiter) (k : Key) (st : State) (m : Dict Key State)
    → IsSound l
    → IsWell l.policy k st
    → Distinct m
    → ((j : Key) (t : State) → get j m ≡ some t → get j l.keys ≡ some t)
    → IsSound (record l { keys = put k st m })
write-IsSound l k st m s w d sub = record {
  normal = s.normal;
  small = s.small;
  distinct = put-Distinct k st m d;
  wells = λ j t h. elim (Bool-cases (key_Eq.beq k j)) [
    | inl same ↦
        let here : st ≡ t = ground (arith, get-put k j st m) in
        subst (λ x. IsWell l.policy j x) here
          (subst (λ x. IsWell l.policy x st) ((key_eq_iff k j).0 same) w)
    | inr other ↦ s.wells j t (sub j t (sym (get-put k j st m ∙ rw other) ∙ h))
  ];
}

module _ (l : Limiter) (k : Key) (now : ℕ) (s : IsSound l) where
  first-IsWell : IsWell l.policy k (seen l.policy k now (get_or_create l.policy now k l.keys).0)
  first-IsWell = rw get_or_create-start (seen-IsWell l.policy k now _ (start-IsWell l k now s))

  pub check-IsSound : IsSound (check l k now).0
  unfolding check
  check-IsSound =
      write-IsSound l k _ _ s (decide-IsWell l.policy k now _ first-IsWell)
        (get_or_create-Distinct l.policy now k l.keys s.distinct)
        (λ j t. get_or_create-get l.policy now k j l.keys t)

  pub fail_report-IsSound : IsSound (fail_report l k now).0
  unfolding fail_report
  fail_report-IsSound =
      write-IsSound l k _ _ s (count_failure-IsWell l.policy k now _ s.normal s.small first-IsWell)
        (get_or_create-Distinct l.policy now k l.keys s.distinct)
        (λ j t. get_or_create-get l.policy now k j l.keys t)

  pub success-IsSound : IsSound (success l k now)
  unfolding success
  success-IsSound = elim (Option-cases (get k l.keys)) [
    | inl a ↦ rw (a, success) s
    | inr a ↦
        rw (a.1, success)
          (write-IsSound l k _ _ s (cleared-IsWell l.policy k now a.0 (s.wells k a.0 a.1))
            s.distinct (λ j t h. h))
  ]

  pub release-IsSound : IsSound (release l k now)
  unfolding release
  release-IsSound = elim (Option-cases (get k l.keys)) [
    | inl a ↦ rw (a, release) s
    | inr a ↦
        rw (a.1, release)
          (write-IsSound l k _ _ s (released-IsWell l.policy k now a.0 (s.wells k a.0 a.1))
            s.distinct (λ j t h. h))
  ]

  observe-IsSound :
      (st : State) (b : Bool × ℕ) → get k l.keys ≡ some st → IsSound (observe l k now st b).0
  unfolding observe
  observe-IsSound st b h =
      write-IsSound l k _ _ s (refresh-IsWell l.policy k now st (s.wells k st h)) s.distinct
        (λ j t q. q)

self_loop-IsSound :
    (ks : List Key) (l : Limiter) (now : ℕ) (b : Bool × ℕ)
    → IsSound l
    → IsSound (self_loop l ks now b).0
unfolding self_loop
self_loop-IsSound [] l now b s = s
self_loop-IsSound (k ∷ ks) l now b s = elim (Option-cases (get k l.keys)) [
  | inl a ↦ rw (a, self_loop) (self_loop-IsSound ks l now b s)
  | inr a ↦
      let (l', locked, retry) = observe l k now a.0 b in
      rw (a.1, self_loop)
        (self_loop-IsSound ks l' now (locked, retry) (observe-IsSound l k now s a.0 b a.1))
]

delete-IsSound : (l : Limiter) (k : Key) → IsSound l → IsSound (record l { keys = remove k l.keys })
delete-IsSound l k s = record {
  normal = s.normal;
  small = s.small;
  distinct = remove-Distinct k l.keys s.distinct;
  wells = λ j t h. s.wells j t (ground (arith, get-remove k j l.keys));
}

delete_all-IsSound :
    (ks : List Key) (l : Limiter) → IsSound l → IsSound (record l { keys = delete_all ks l.keys })
unfolding delete_all
delete_all-IsSound [] l s = s
delete_all-IsSound (k ∷ ks) l s = delete_all-IsSound ks _ (delete-IsSound l k s)

clear_matching-IsSound :
    (l : Limiter) (test : Key → Bool) → IsSound l → IsSound (clear_matching l test).0
unfolding clear_matching
clear_matching-IsSound l test s = delete_all-IsSound (matching test l.keys) l s

clear_account-IsSound : (l : Limiter) (a : String) → IsSound l → IsSound (clear_account l a).0
unfolding clear_account
clear_account-IsSound l a s = elim (Bool-cases (str_eq a "")) [
  | inl e ↦ rw (e, clear_account) s
  | inr e ↦ rw (e, clear_account) (clear_matching-IsSound l (λ k. str_eq k.account a) s)
]

-- A call of a method by some request, or by the operator.
pub data Call : Type 0 where
  checked failed succeeded freed : Key → Call
  viewed : String → String → String → Call
  peer_cleared account_cleared : String → Call

unfoldable pub apply : Call → ℕ → Limiter → Limiter
apply (checked k) now l = (check l k now).0
apply (failed k) now l = (fail_report l k now).0
apply (succeeded k) now l = success l k now
apply (freed k) now l = release l k now
apply (viewed s p a) now l = (self_state l s p a now).0
apply (peer_cleared p) now l = (clear_peer l p).0
apply (account_cleared a) now l = (clear_account l a).0

-- The calls in the order in which they take the mutex, each with its reading of the clock.
unfoldable pub run : List (Call × ℕ) → Limiter → Limiter
unfolding apply
run [] l = l
run ((c, now) ∷ cs) l = run cs (apply c now l)

pub apply-IsSound : (c : Call) (now : ℕ) (l : Limiter) → IsSound l → IsSound (apply c now l)
unfolding apply self_state clear_peer
apply-IsSound (checked k) now l s = check-IsSound l k now s
apply-IsSound (failed k) now l s = fail_report-IsSound l k now s
apply-IsSound (succeeded k) now l s = success-IsSound l k now s
apply-IsSound (freed k) now l s = release-IsSound l k now s
apply-IsSound (viewed v p a) now l s = self_loop-IsSound (own_keys v p a) l now _ s
apply-IsSound (peer_cleared p) now l s = clear_matching-IsSound l (λ k. str_eq k.peer p) s
apply-IsSound (account_cleared a) now l s = clear_account-IsSound l a s

-- Whatever calls are made, in whatever order and at whatever times, a sound limiter stays sound: in-flight reservations never exceed the key's threshold, a lock's length never exceeds
-- `lock_max`, a key is locked only with its threshold reached, and the lock ends `lock_len` after
-- its last failure.
pub run-IsSound : (cs : List (Call × ℕ)) (l : Limiter) → IsSound l → IsSound (run cs l)
unfolding run
run-IsSound [] l s = s
run-IsSound ((c, now) ∷ cs) l s = run-IsSound cs (apply c now l) (apply-IsSound c now l s)

-- A new limiter is sound if its normalized `LockMax` is below the bound.
pub new-IsSound : (p : Policy ℤ) → (normalize p).lock_max < max_length → IsSound (new p)
unfolding new
new-IsSound p small = record {
  normal = normalize-IsNormal p;
  small = small;
  distinct = tt;
  wells = λ j st h. absurd (unfold get in ground arith);
}
