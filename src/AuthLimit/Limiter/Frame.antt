-- ===== src/AuthLimit/Limiter/Frame.antt =====
-- internal/authlimit/authlimit.go: what an operation on one key leaves of the other buckets.
use open_seavault_rclone.Shared.Dict.{
  Dict, get, get-put, get-remove, Distinct, get_of_Elem, remove-Distinct,
}
use open_seavault_rclone.Shared.{
  ℕ, ◌<◌, ◌≡◌, inl, inr, refl, Bool, true, false, Option, none, some, arith, leb, if◌then◌else◌,
  Option-cases, length,
}
use open_seavault_rclone.AuthLimit.Policy.{Policy}
use open_seavault_rclone.AuthLimit.Bucket.{
  Key, key_Eq, key_eq_iff, State, fresh, seen, decide, count_failure, cleared, released,
}
use open_seavault_rclone.AuthLimit.Limiter.{
  Limiter, evict_one, get_or_create, check, fail_report, success, release,
}
use open_seavault_rclone.AuthLimit.Limiter.Evict.{evict_one_lem}

-- Evicting takes buckets away and changes none.
pub get-evict_one :
    (now : ℕ) (m : Dict Key State) (j : Key) (st : State)
    → get j (evict_one now m) ≡ some st
    → get j m ≡ some st
get-evict_one now m j st h = elim (evict_one_lem now m) [
  | inl r ↦ rw r.0 at h
  | inr r ↦ ground (arith, get-remove r.0 j m)
]

-- A bucket with a reservation survives an eviction.
pub evict_one-pending :
    (now : ℕ) (m : Dict Key State) (j : Key) (st : State)
    → Distinct m
    → get j m ≡ some st
    → 0 < st.pending
    → get j (evict_one now m) ≡ some st
evict_one-pending now m j st d h p = elim (evict_one_lem now m) [
  | inl r ↦ rw r.0 h
  | inr r ↦ ground (
    arith,
    get-remove r.0 j m,
    get_of_Elem r.0 r.1 m d r.2.present,
    r.2.no_reservation,
    key_eq_iff r.0 j,
  )
]

pub evict_one-Distinct : (now : ℕ) (m : Dict Key State) → Distinct m → Distinct (evict_one now m)
evict_one-Distinct now m d = elim (evict_one_lem now m) [
  | inl r ↦ rw r.0 d
  | inr r ↦ rw r.3 (remove-Distinct r.0 m d)
]

-- The bucket that an operation starts from.
unfoldable pub start : ℕ → Option State → State
start now none = fresh now
start now (some st) = st

pub get_or_create-start :
    (p : Policy ℕ) (now : ℕ) (k : Key) (m : Dict Key State)
    → (get_or_create p now k m).0 ≡ start now (get k m)
unfolding get_or_create start
get_or_create-start p now k m = ground arith

pub get_or_create-get :
    (p : Policy ℕ) (now : ℕ) (k j : Key) (m : Dict Key State) (st : State)
    → get j (get_or_create p now k m).1 ≡ some st
    → get j m ≡ some st
unfolding get_or_create
get_or_create-get p now k j m st h = ground (arith, get-evict_one now m j st)

pub get_or_create-pending :
    (p : Policy ℕ) (now : ℕ) (k j : Key) (m : Dict Key State) (st : State)
    → Distinct m
    → get j m ≡ some st
    → 0 < st.pending
    → get j (get_or_create p now k m).1 ≡ some st
unfolding get_or_create
get_or_create-pending p now k j m st d h q = ground (arith, evict_one-pending now m j st d h q)

pub get_or_create-Distinct :
    (p : Policy ℕ) (now : ℕ) (k : Key) (m : Dict Key State)
    → Distinct m
    → Distinct (get_or_create p now k m).1
unfolding get_or_create
get_or_create-Distinct p now k m d = elim (Option-cases (get k m)) [
  | inl absent ↦ rw (absent, get_or_create) (evict_if (leb p.max_keys (length m)))
  | inr present ↦ rw (present.1, get_or_create) d
]
  where
    evict_if : (b : Bool) → Distinct (if b then evict_one now m else m)
    evict_if true = evict_one-Distinct now m d
    evict_if false = d

-- The bucket of the key, and of every other key, after each operation.
module _ (l : Limiter) (k j : Key) (now : ℕ) where
  pub get-check : get j (check l k now).0.keys ≡ (
      if key_Eq.beq k j
      then some (decide l.policy k now (seen l.policy k now (start now (get k l.keys)))).0
      else get j (get_or_create l.policy now k l.keys).1)
  unfolding check
  get-check = rw (get-put, get_or_create-start)

  pub get-fail_report : get j (fail_report l k now).0.keys ≡ (
      if key_Eq.beq k j
      then some (count_failure l.policy k now (seen l.policy k now (start now (get k l.keys)))).0
      else get j (get_or_create l.policy now k l.keys).1)
  unfolding fail_report
  get-fail_report = rw (get-put, get_or_create-start)

  pub get-success : get j (success l k now).keys ≡ (
      if key_Eq.beq k j
      then elim (get k l.keys) [ none ↦ none | some st ↦ some (cleared now st) ]
      else get j l.keys)
  unfolding success
  get-success = elim (Option-cases (get k l.keys)) [
    | inl a ↦ ground (arith, key_eq_iff k j)
    | inr a ↦ ground (arith, get-put k j (cleared now a.0) l.keys)
  ]

  pub get-release : get j (release l k now).keys ≡ (
      if key_Eq.beq k j
      then elim (get k l.keys) [ none ↦ none | some st ↦ some (released now st) ]
      else get j l.keys)
  unfolding release
  get-release = elim (Option-cases (get k l.keys)) [
    | inl a ↦ ground (arith, key_eq_iff k j)
    | inr a ↦ ground (arith, get-put k j (released now a.0) l.keys)
  ]

-- The key's own bucket after a check or a failure, with the answer and the policy.
module _ (l : Limiter) (k : Key) (now : ℕ) where
  pub check_self :
      let after = decide l.policy k now (seen l.policy k now (start now (get k l.keys))) in
      (get k (check l k now).0.keys ≡ some after.0)
      × ((check l k now).1 ≡ after.1)
      × ((check l k now).2 ≡ after.2)
      × ((check l k now).0.policy ≡ l.policy)
  check_self = (
    ground (arith, get-check l k k now, key_eq_iff k k),
    unfold check in rw get_or_create-start,
    unfold check in rw get_or_create-start,
    unfold check in refl,
  )

  pub fail_report_self :
      let after = count_failure l.policy k now (seen l.policy k now (start now (get k l.keys))) in
      (get k (fail_report l k now).0.keys ≡ some after.0)
      × ((fail_report l k now).1 ≡ after.1)
      × ((fail_report l k now).2 ≡ after.2)
      × ((fail_report l k now).0.policy ≡ l.policy)
  fail_report_self = (
    ground (arith, get-fail_report l k k now, key_eq_iff k k),
    unfold fail_report in rw get_or_create-start,
    unfold fail_report in rw get_or_create-start,
    unfold fail_report in refl,
  )
