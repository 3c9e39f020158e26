-- ===== src/AuthLimit/Attempt/Leak.antt =====
-- internal/authlimit/authlimit.go: an attempt leaves no reservation behind.
use open_seavault_rclone.Shared.Dict.{get}
use open_seavault_rclone.Shared.{
  ℕ, ◌+◌, ◌-◌, ◌≤◌, ◌≡◌, Bool, false, Option, none, some, List, [], ◌∷◌, ◌++◌, String, arith,
  if◌then◌else◌, Option-cases, Bool-cases, inl, inr, refl, true, ◌⊎◌,
}
use open_seavault_rclone.AuthLimit.Policy.{Policy}
use open_seavault_rclone.AuthLimit.Bucket.{
  Key, key_Eq, key_eq_iff, State, seen, refresh, decide, count_failure, cleared, released, fresh,
}
use open_seavault_rclone.AuthLimit.Limiter.{
  Limiter, get_or_create, check, fail_report, success, release,
}
use open_seavault_rclone.AuthLimit.Limiter.Frame.{
  start, get-check, get-fail_report, get-success, get-release, get_or_create-get, check_self,
}
use open_seavault_rclone.AuthLimit.Attempt.{
  LockRecord, Attempt, release_all, reserve, attempt, fail_loop, attempt_fail, success_all,
  attempt_success, attempt_release, attempt_keys,
}

abbrev pub pending_of : Option State → ℕ
pending_of none = 0
pending_of (some st) = st.pending

-- The reservations in flight on a key.
abbrev pub reservations : Key → Limiter → ℕ
reservations j l = pending_of (get j l.keys)

-- How often a key stands in a list.
pub times : Key → List Key → ℕ
times j [] = 0
times j (k ∷ ks) = (if key_Eq.beq k j then 1 else 0) + times j ks

times-append : (j : Key) (ks ls : List Key) → times j (ks ++ ls) ≡ times j ks + times j ls
unfolding times
times-append j [] ls = omega arith
times-append j (k ∷ ks) ls = omega (arith, times-append j ks ls)

pending-seen_le :
    (p : Policy ℕ) (k : Key) (now : ℕ) (st : State) → (seen p k now st).pending ≤ st.pending
unfolding seen refresh
pending-seen_le p k now st = ground arith

pending-decide :
    (p : Policy ℕ) (k : Key) (now : ℕ) (st : State)
    → let r = decide p k now st in r.0.pending ≡ st.pending + (if r.1 then 1 else 0)
unfolding decide
pending-decide p k now st = ground arith

pending-count_failure :
    (p : Policy ℕ) (k : Key) (now : ℕ) (st : State)
    → (count_failure p k now st).0.pending ≡ st.pending - 1
unfolding count_failure
pending-count_failure p k now st = ground arith

pending-start : (now : ℕ) (o : Option State) → (start now o).pending ≡ pending_of o
unfolding start fresh
pending-start now none = refl
pending-start now (some st) = refl

pending-get_or_create :
    (p : Policy ℕ) (now : ℕ) (k j : Key) (l : Limiter)
    → pending_of (get j (get_or_create p now k l.keys).1) ≤ reservations j l
pending-get_or_create p now k j l = elim (Option-cases (get j (get_or_create p now k l.keys).1)) [
  | inl a ↦ rw a (omega arith)
  | inr a ↦ rw (a.1, get_or_create-get p now k j l.keys a.0 a.1) (omega arith)
]

-- What each call does to the reservations of every key.
module _ (l : Limiter) (k j : Key) (now : ℕ) where
  check_reserves :
      reservations j (check l k now).0
      ≤ reservations j l + (if (check l k now).1 then (if key_Eq.beq k j then 1 else 0) else 0)
  check_reserves =
      let st = start now (get k l.keys) in
      elim (Bool-cases (key_Eq.beq k j)) [
        | inl same ↦
            rw (get-check l k j now, same, (check_self l k now).1, ← (key_eq_iff k j).0 same)
              (ground (
                arith,
                pending-decide l.policy k now (seen l.policy k now st),
                pending-seen_le l.policy k now st,
                pending-start now (get k l.keys),
              ))
        | inr other ↦
            rw (get-check l k j now, other)
              (ground (arith, pending-get_or_create l.policy now k j l))
      ]

  fail_resolves :
      reservations j (fail_report l k now).0 ≤ reservations j l - (if key_Eq.beq k j then 1 else 0)
  fail_resolves =
      let st = start now (get k l.keys) in
      elim (Bool-cases (key_Eq.beq k j)) [
        | inl same ↦
            rw (get-fail_report l k j now, same, ← (key_eq_iff k j).0 same)
              (omega (
                arith,
                pending-count_failure l.policy k now (seen l.policy k now st),
                pending-seen_le l.policy k now st,
                pending-start now (get k l.keys),
              ))
        | inr other ↦
            rw (get-fail_report l k j now, other)
              (omega (arith, pending-get_or_create l.policy now k j l))
      ]

  success_resolves :
      reservations j (success l k now) ≡ reservations j l - (if key_Eq.beq k j then 1 else 0)
  success_resolves = unfold cleared in ground (arith, get-success l k j now, key_eq_iff k j)

  release_resolves :
      reservations j (release l k now) ≡ reservations j l - (if key_Eq.beq k j then 1 else 0)
  release_resolves = unfold released in ground (arith, get-release l k j now, key_eq_iff k j)

-- The loops, on the reservations of one key.
module _ (j : Key) (clock : ℕ → ℕ) where
  release_all_resolves :
      (ks : List Key) (n : ℕ) (l : Limiter)
      → reservations j (release_all ks clock n l) ≡ reservations j l - times j ks
  unfolding release_all times
  release_all_resolves [] n l = omega arith
  release_all_resolves (k ∷ ks) n l = omega (
    arith,
    release_all_resolves ks (n + 1) (release l k (clock n)),
    release_resolves l k j (clock n),
  )

  success_all_resolves :
      (ks : List Key) (n : ℕ) (l : Limiter)
      → reservations j (success_all ks clock n l) ≡ reservations j l - times j ks
  unfolding success_all times
  success_all_resolves [] n l = omega arith
  success_all_resolves (k ∷ ks) n l = omega (
    arith,
    success_all_resolves ks (n + 1) (success l k (clock n)),
    success_resolves l k j (clock n),
  )

  fail_loop_resolves :
      (ks : List Key) (n : ℕ) (l : Limiter) (acc : List LockRecord × Bool × ℕ)
      → reservations j (fail_loop ks clock n l acc).0 ≤ reservations j l - times j ks
  unfolding fail_loop times
  fail_loop_resolves [] n l (locks, locked, retry) = omega arith
  fail_loop_resolves (k ∷ ks) n l (locks, locked, retry) = omega (
    arith,
    fail_loop_resolves ks (n + 1) (fail_report l k (clock n)).0 _,
    fail_resolves l k j (clock n),
  )

  -- A denied loop has given back what it took; a granted one holds one reservation for each key.
  reserve_balances :
      (ks reserved : List Key) (n : ℕ) (l : Limiter) (base : ℕ)
      → reservations j l ≤ base + times j reserved
      → let r = reserve ks reserved clock n l in reservations j r.0 ≤ base + times j r.1.keys
  unfolding reserve times
  reserve_balances [] reserved n l base h = h
  reserve_balances (k ∷ ks) reserved n l base h = elim (Bool-cases (check l k (clock n)).1) [
    | inl granted ↦ rw granted (
        reserve_balances ks (reserved ++ k ∷ []) (n + 1) (check l k (clock n)).0 base (
          let one = rw granted at (check_reserves l k j (clock n)) in
          omega (arith, one, times-append j reserved (k ∷ []))))
    | inr refused ↦ rw refused (
        let none_taken = rw refused at (check_reserves l k j (clock n)) in
        omega (arith, none_taken, release_all_resolves reserved (n + 1) (check l k (clock n)).0))
  ]

reserve_shape :
    (ks reserved : List Key) (clock : ℕ → ℕ) (n : ℕ) (l : Limiter)
    → let r = reserve ks reserved clock n l in
      (r.1.consumed ≡ false) × (r.2 ≡ false → r.1.keys ≡ [])
unfolding reserve
reserve_shape [] reserved clock n l = (refl, λ e. cc)
reserve_shape (k ∷ ks) reserved clock n l = elim (Bool-cases (check l k (clock n)).1) [
  | inl granted ↦
      rw granted (reserve_shape ks (reserved ++ k ∷ []) clock (n + 1) (check l k (clock n)).0)
  | inr refused ↦ rw refused (refl, λ e. refl)
]

-- Each way to resolve an open attempt gives back one reservation of each of its keys.
resolve_balances :
    (l : Limiter) (a : Attempt) (clock : ℕ → ℕ) (j : Key) (base : ℕ)
    → a.consumed ≡ false
    → reservations j l ≤ base + times j a.keys
    → (reservations j (attempt_fail l a clock).0 ≤ base)
      × (reservations j (attempt_success l a clock).0 ≤ base)
      × (reservations j (attempt_release l a clock).0 ≤ base)
unfolding attempt_fail attempt_success attempt_release
resolve_balances l a clock j base o h = (
  rw o (omega (arith, fail_loop_resolves j clock a.keys 0 l (a.locks, false, 0))),
  rw o (omega (arith, success_all_resolves j clock a.keys 0 l)),
  rw o (omega (arith, release_all_resolves j clock a.keys 0 l)),
)

-- An attempt leaves no reservation behind: if it is denied, and after its failure, its success or
-- its release if it is granted, no key has more reservations in flight than before the attempt.
pub attempt_leaves_none :
    (l : Limiter) (surface peer account : String) (clock clock' : ℕ → ℕ) (j : Key)
    → let (l', a, allowed, _) = attempt l surface peer account clock in
      ((allowed ≡ true) ⊎ (reservations j l' ≤ reservations j l))
      × (reservations j (attempt_fail l' a clock').0 ≤ reservations j l)
      × (reservations j (attempt_success l' a clock').0 ≤ reservations j l)
      × (reservations j (attempt_release l' a clock').0 ≤ reservations j l)
unfolding attempt
attempt_leaves_none l surface peer account clock clock' j =
    let ks = attempt_keys surface peer account in
    let r = reserve ks [] clock 0 l in
    let held =
      reserve_balances j clock ks [] 0 l (reservations j l) (unfold times in omega arith) in
    let shape = reserve_shape ks [] clock 0 l in
    let allowed = r.2 in
    let resolved = resolve_balances r.0 r.1 clock' j (reservations j l) shape.0 held in
    (
      elim (Bool-cases allowed) [
        | inl granted ↦ inl granted
        | inr refused ↦ inr (
            let none_held = rw (shape.1 refused) at held in
            unfold times in omega (arith, none_held))
      ],
      resolved.0,
      resolved.1,
      resolved.2,
    )
