-- ===== src/AuthLimit/Limiter/Evict.antt =====
-- internal/authlimit/authlimit.go: which bucket `evictOneLocked` gives up.
use open_seavault_rclone.Shared.Dict.{Dict, remove}
use open_seavault_rclone.Shared.{
  ℕ, ◌<◌, ◌≤◌, ◌≡◌, ◌⊎◌, inl, inr, refl, Bool, true, false, not, ◌&&◌, Option, none, some, [], ◌∷◌,
  arith, ltb, if◌then◌else◌, All, Elem, Bool-cases,
}
use native.Mathlib.Nat.{le_refl}
use open_seavault_rclone.AuthLimit.Bucket.{Key, key_Eq, State, is_locked}
use open_seavault_rclone.AuthLimit.Limiter.{older, scan, victim, delete_victim, evict_one}

-- An independent description of the two accumulators: the oldest bucket that passes a test.
oldest : (State → Bool) → Dict Key State → Option (Key × ℕ) → Option (Key × ℕ)
oldest test [] o = o
oldest test ((k, st) ∷ m) o = oldest test m (if test st then older k st o else o)

abbrev pub is_idle : ℕ → State → Bool
is_idle now st = not (ltb 0 st.pending) && not (is_locked now st)

abbrev pub is_lock_victim : ℕ → State → Bool
is_lock_victim now st = not (ltb 0 st.pending) && is_locked now st

scan_lem :
    (now : ℕ) (m : Dict Key State) (i l : Option (Key × ℕ))
    → scan now m i l ≡ (oldest (is_idle now) m i, oldest (is_lock_victim now) m l)
unfolding scan oldest
scan_lem now [] i l = refl
scan_lem now ((k, st) ∷ m) i l =
    ground
      (arith, scan_lem now m i l, scan_lem now m (older k st i) l, scan_lem now m i (older k st l))

older-cases :
    (b : Bool) (k : Key) (st : State) (o : Option (Key × ℕ)) (v : Key) (t : ℕ)
    → (if b then older k st o else o) ≡ some (v, t)
    → (o ≡ some (v, t)) ⊎ ((v ≡ k) × (b ≡ true) × (st.last_seen ≡ t))
unfolding older
older-cases false k st o v t h = inl h
older-cases true k st none v t h = inr (ground arith, refl, ground arith)
older-cases true k st (some (j, s)) v t h = elim (Bool-cases (ltb st.last_seen s)) [
  | inl lt ↦ inr (ground arith, refl, ground arith)
  | inr ge ↦ inl (ground arith)
]

-- The bound that the accumulator puts on the choice.
abbrev Below : Option (Key × ℕ) → ℕ → Type 0
Below none t = Unit
Below (some (j, s)) t = t ≤ s

older-Below :
    (b : Bool) (k : Key) (st : State) (o : Option (Key × ℕ)) (t : ℕ)
    → Below (if b then older k st o else o) t
    → Below o t × (b ≡ true → t ≤ st.last_seen)
unfolding older
older-Below false k st o t h = (h, λ e. cc)
older-Below true k st none t h = (tt, λ _. h)
older-Below true k st (some (j, s)) t h = ground arith

older-none :
    (b : Bool) (k : Key) (st : State) (o : Option (Key × ℕ))
    → (if b then older k st o else o) ≡ none
    → (o ≡ none) × (b ≡ false)
unfolding older
older-none b k st none h = ground arith
older-none b k st (some (j, s)) h = ground arith

module _ (test : State → Bool) where
  -- The chosen bucket is in the map and passes the test, unless it was there at the start.
  oldest-Elem :
      (m : Dict Key State) (o : Option (Key × ℕ)) (v : Key) (t : ℕ)
      → oldest test m o ≡ some (v, t)
      → (o ≡ some (v, t)) ⊎ ((st : State) × Elem (v, st) m × (test st ≡ true) × (st.last_seen ≡ t))
  unfolding oldest
  oldest-Elem [] o v t h = inl h
  oldest-Elem ((k, st) ∷ m) o v t h = elim (oldest-Elem m _ v t h) [
    | inl p ↦ elim (older-cases (test st) k st o v t p) [
      | inl q ↦ inl q
      | inr q ↦ inr (st, inl (ground arith), q.1, q.2)
    ]
    | inr r ↦ inr (r.0, inr r.1, r.2, r.3)
  ]

  oldest-le :
      (m : Dict Key State) (o : Option (Key × ℕ)) (v : Key) (t : ℕ)
      → oldest test m o ≡ some (v, t)
      → Below o t × All (λ e. test e.1 ≡ true → t ≤ e.1.last_seen) m
  unfolding oldest
  oldest-le [] o v t h = rw h (le_refl t, tt)
  oldest-le ((k, st) ∷ m) o v t h =
      let tail = oldest-le m _ v t h in
      let head = older-Below (test st) k st o t tail.0 in (head.0, (head.1, tail.1))

  oldest-none :
      (m : Dict Key State) (o : Option (Key × ℕ))
      → oldest test m o ≡ none
      → (o ≡ none) × All (λ e. test e.1 ≡ false) m
  unfolding oldest
  oldest-none [] o h = (h, tt)
  oldest-none ((k, st) ∷ m) o h =
      let tail = oldest-none m _ h in
      let head = older-none (test st) k st o tail.0 in (head.0, (head.1, tail.1))

-- The bucket `(v, st)` of `m` is given up: it holds no reservation, and either it is the oldest of
-- those that are free and unlocked, or no such bucket exists and it is the oldest of the locked ones.
pub record IsVictim (now : ℕ) (m : Dict Key State) (v : Key) (st : State) : Type 0 where
  pub present : Elem (v, st) m
  pub no_reservation : st.pending ≡ 0
  pub oldest_of_its_kind :
      ((is_locked now st ≡ false)
        × All (λ e. is_idle now e.1 ≡ true → st.last_seen ≤ e.1.last_seen) m)
      ⊎ (All (λ e. is_idle now e.1 ≡ false) m
          × All (λ e. is_lock_victim now e.1 ≡ true → st.last_seen ≤ e.1.last_seen) m)

All-zip :
    (now : ℕ) (m : Dict Key State)
    → All (λ e. is_idle now e.1 ≡ false) m
    → All (λ e. is_lock_victim now e.1 ≡ false) m
    → All (λ e. 0 < e.1.pending) m
All-zip now [] a b = tt
All-zip now ((k, st) ∷ m) a b = (ground arith, All-zip now m a.1 b.1)

pick :
    (now : ℕ) (m : Dict Key State) (i l : Option (Key × ℕ))
    → oldest (is_idle now) m none ≡ i
    → oldest (is_lock_victim now) m none ≡ l
    → ((delete_victim (victim (i, l)) m ≡ m) × All (λ e. 0 < e.1.pending) m)
      ⊎ ((v : Key) × (st : State) × IsVictim now m v st
          × (delete_victim (victim (i, l)) m ≡ remove v m))
unfolding delete_victim victim
pick now m (some (v, t)) l p q = elim (oldest-Elem (is_idle now) m none v t p) [
  | inl h ↦ absurd (ground arith)
  | inr h ↦ inr (
    v,
    h.0,
    record {
      present = h.1;
      no_reservation = ground arith;
      oldest_of_its_kind = inl (ground arith, rw h.3 (oldest-le (is_idle now) m none v t p).1);
    },
    refl,
  )
]
pick now m none (some (v, t)) p q = elim (oldest-Elem (is_lock_victim now) m none v t q) [
  | inl h ↦ absurd (ground arith)
  | inr h ↦ inr (
    v,
    h.0,
    record {
      present = h.1;
      no_reservation = ground arith;
      oldest_of_its_kind = inr (
        (oldest-none (is_idle now) m none p).1,
        rw h.3 (oldest-le (is_lock_victim now) m none v t q).1,
      );
    },
    refl,
  )
]
pick now m none none p q = inl (
  refl,
  All-zip now m (oldest-none (is_idle now) m none p).1
      (oldest-none (is_lock_victim now) m none q).1,
)

-- `evictOneLocked` deletes one bucket that holds no reservation: the oldest unlocked one, or, only
-- if no unlocked one is free, the oldest locked one. It deletes nothing only where every bucket
-- holds a reservation.
pub evict_one_lem :
    (now : ℕ) (m : Dict Key State)
    → ((evict_one now m ≡ m) × All (λ e. 0 < e.1.pending) m)
      ⊎ ((v : Key) × (st : State) × IsVictim now m v st × (evict_one now m ≡ remove v m))
unfolding evict_one
evict_one_lem now m = rw scan_lem (pick now m _ _ refl refl)
