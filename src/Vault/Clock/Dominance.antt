-- ===== src/Vault/Clock/Dominance.antt =====
-- internal/vault/manifest.go: `clockDominates` decides the strict pointwise order of clocks.
use open_seavault_rclone.Shared.Dict.{get, string_eq, Distinct, get_of_Elem, Elem-of_get}
use open_seavault_rclone.Shared.Int.{ℤ, pos, ltb_ℤ, ◌≤ℤ◌, ◌<ℤ◌}
use open_seavault_rclone.Shared.{
  String, ◌≡◌, ◌⊎◌, ◌↔◌, inl, inr, refl, Bool, true, false, ◌||◌, none, some, [], ◌∷◌, arith, All,
  Elem, All-Elem, All-of_Elem, Bool-cases, Option-cases,
}
use mathlib.Core.Path.{subst}
use open_seavault_rclone.Vault.Clock.{Clock, entry, is_empty, covers, has_new, clock_dominates}

-- A clock as honest writers make it: one entry for each device, none negative.
pub record IsClock (c : Clock) : Type 0 where
  pub distinct : Distinct c
  pub nonneg : All (λ e. pos 0 ≤ℤ e.1) c

pub entry_of_Elem : (c : Clock) (k : String) (v : ℤ) → IsClock c → Elem (k, v) c → entry k c ≡ v
unfolding entry
entry_of_Elem c k v w m = ground (arith, get_of_Elem k v c w.distinct m)

pub entry-cases :
    (c : Clock) (k : String)
    → ((get k c ≡ none) × (entry k c ≡ pos 0))
      ⊎ (Elem (k, entry k c) c × (get k c ≡ some (entry k c)))
unfolding entry
entry-cases c k = elim (Option-cases (get k c)) [
  | inl a ↦ inl (a, ground arith)
  | inr a ↦ inr (rw (a.1, entry) (Elem-of_get k a.0 c a.1), rw (a.1, entry))
]

pub entry-nonneg : (c : Clock) (k : String) → IsClock c → pos 0 ≤ℤ entry k c
entry-nonneg c k w = elim (entry-cases c k) [
  | inl a ↦ rw a.1 (omega arith)
  | inr a ↦ All-Elem (λ (e : String × ℤ). pos 0 ≤ℤ e.1) c (k, entry k c) w.nonneg a.0
]

-- The first loop, from its result and to it.
covers_sound :
    (a b : Clock) (s r : Bool)
    → covers a b s ≡ some r
    → All (λ e. e.1 ≤ℤ entry e.0 a) b
      × (r ≡ true → (s ≡ true) ⊎ ((k : String) × (v : ℤ) × Elem (k, v) b × (v <ℤ entry k a)))
unfolding covers
covers_sound a [] s r h = (tt, λ e. inl (ground arith))
covers_sound a ((k, bv) ∷ b) s r h =
    let rest = covers_sound a b (s || ltb_ℤ bv (entry k a)) r (ground arith) in
    (
      (ground arith, rest.0),
      λ e. elim (rest.1 e) [
        | inl t ↦ elim (Bool-cases s) [
          | inl y ↦ inl y
          | inr n ↦ inr (k, bv, inl refl, ground arith)
        ]
        | inr t ↦ inr (t.0, t.1, inr t.2, t.3)
      ],
    )

covers_complete :
    (a b : Clock) (s : Bool)
    → All (λ e. e.1 ≤ℤ entry e.0 a) b
    → (r : Bool) × (covers a b s ≡ some r)
      × (s ≡ true → r ≡ true)
      × ((k : String) (v : ℤ) → Elem (k, v) b → v <ℤ entry k a → r ≡ true)
unfolding covers
covers_complete a [] s h = (s, refl, λ e. e, λ k v m lt. absurd m)
covers_complete a ((k, bv) ∷ b) s h =
    let rest = covers_complete a b (s || ltb_ℤ bv (entry k a)) h.1 in
    (
      rest.0,
      ground arith,
      λ e. rest.2 (ground arith),
      λ j v m lt. elim m [ inl e ↦ rest.2 (ground arith) | inr e ↦ rest.3 j v e lt ],
    )

has_new_sound :
    (a b : Clock)
    → has_new a b ≡ true
    → (k : String) × (v : ℤ) × Elem (k, v) a × (pos 0 <ℤ v) × (get k b ≡ none)
unfolding has_new
has_new_sound [] b h = cc
has_new_sound ((k, av) ∷ a) b h = elim (Option-cases (get k b)) [
  | inl absent ↦ elim (Bool-cases (ltb_ℤ (pos 0) av)) [
    | inl y ↦ (k, av, inl refl, ground arith, absent)
    | inr n ↦
        let rest = has_new_sound a b (ground arith) in (rest.0, rest.1, inr rest.2, rest.3, rest.4)
  ]
  | inr present ↦
      let rest = has_new_sound a b (ground arith) in (rest.0, rest.1, inr rest.2, rest.3, rest.4)
]

has_new_complete :
    (a b : Clock) (k : String) (v : ℤ)
    → Elem (k, v) a
    → pos 0 <ℤ v
    → get k b ≡ none
    → has_new a b ≡ true
unfolding has_new
has_new_complete [] b k v m lt n = absurd m
has_new_complete ((j, av) ∷ a) b k v (inl m) lt n = ground arith
has_new_complete ((j, av) ∷ a) b k v (inr m) lt n = ground (arith, has_new_complete a b k v m lt n)

-- Clock `b` is nowhere ahead of clock `a`.
abbrev pub Within : Clock → Clock → Type 0
Within b a = (k : String) → entry k b ≤ℤ entry k a

-- Somewhere `a` is ahead of `b`.
abbrev pub Ahead : Clock → Clock → Type 0
Ahead a b = (k : String) × (entry k b <ℤ entry k a)

Within-of_All : (a b : Clock) → IsClock a → All (λ e. e.1 ≤ℤ entry e.0 a) b → Within b a
Within-of_All a b w h k = elim (entry-cases b k) [
  | inl n ↦ rw n.1 (entry-nonneg a k w)
  | inr m ↦ All-Elem (λ (e : String × ℤ). e.1 ≤ℤ entry e.0 a) b (k, entry k b) h m.0
]

All-of_Within : (a b : Clock) → IsClock b → Within b a → All (λ e. e.1 ≤ℤ entry e.0 a) b
All-of_Within a b w h =
    All-of_Elem (λ (e : String × ℤ). e.1 ≤ℤ entry e.0 a) b
      (λ e m. subst (λ z. z ≤ℤ entry e.0 a) (entry_of_Elem b e.0 e.1 w m) (h e.0))

absent_entry : (b : Clock) (k : String) → get k b ≡ none → entry k b ≡ pos 0
unfolding entry
absent_entry b k h = rw (h, entry)

dominates_sound :
    (a b : Clock) → IsClock a → IsClock b → clock_dominates a b ≡ true → Within b a × Ahead a b
unfolding clock_dominates
dominates_sound a b wa wb h = elim (Option-cases (covers a b false)) [
  | inl n ↦ absurd (ground arith)
  | inr y ↦
      let sound = covers_sound a b false y.0 y.1 in
      (
        Within-of_All a b wa sound.0,
        elim (Bool-cases y.0) [
          | inl strict ↦ elim (sound.1 strict) [
            | inl e ↦ absurd (cc)
            | inr t ↦ (t.0, rw (entry_of_Elem b t.0 t.1 wb t.2) t.3)
          ]
          | inr flat ↦
              let t = has_new_sound a b (ground arith) in
              (t.0, rw (entry_of_Elem a t.0 t.1 wa t.2, absent_entry b t.0 t.4) t.3)
        ],
      )
]

nonempty_of_positive : (a : Clock) (k : String) → pos 0 <ℤ entry k a → is_empty a ≡ false
unfolding entry get
nonempty_of_positive [] k h = absurd (omega arith)
nonempty_of_positive (e ∷ a) k h = refl

dominates_complete :
    (a b : Clock)
    → IsClock a
    → IsClock b
    → is_empty b ≡ false
    → Within b a
    → Ahead a b
    → clock_dominates a b ≡ true
unfolding clock_dominates
dominates_complete a b wa wb ne h s =
    let k = s.0 in
    let (r, walked, _, strict) = covers_complete a b false (All-of_Within a b wb h) in
    let positive : pos 0 <ℤ entry k a = omega (arith, entry-nonneg b k wb, s.1) in
    let full = nonempty_of_positive a k positive in
    elim (entry-cases b k) [
      | inr m ↦ let found = strict k (entry k b) m.0 s.1 in ground arith
      | inl n ↦ elim (entry-cases a k) [
        | inl z ↦ absurd (let none_left = rw z.1 at positive in omega (arith, none_left))
        | inr m ↦ let new = has_new_complete a b k (entry k a) m.0 positive n.0 in ground arith
      ]
    ]

-- On clocks of honest writers `clockDominates a b` holds exactly if neither is empty, `b` is nowhere
-- ahead of `a`, and `a` is somewhere ahead of `b`, where a missing entry counts as 0.
pub clock_dominates_iff :
    (a b : Clock)
    → IsClock a
    → IsClock b
    → (clock_dominates a b ≡ true) ↔ ((is_empty b ≡ false) × (Within b a × Ahead a b))
clock_dominates_iff a b wa wb = (
  λ h. (unfold clock_dominates in ground arith, dominates_sound a b wa wb h),
  λ t. dominates_complete a b wa wb t.0 t.1.0 t.1.1,
)

-- On clocks of honest writers the relation that `clockDominates` decides is transitive.
pub dominates_trans :
    (a b c : Clock)
    → IsClock a
    → IsClock b
    → IsClock c
    → clock_dominates a b ≡ true
    → clock_dominates b c ≡ true
    → clock_dominates a c ≡ true
dominates_trans a b c wa wb wc h k =
    let ab = ((clock_dominates_iff a b wa wb).0 h).1 in
    let bc = (clock_dominates_iff b c wb wc).0 k in
    let j = bc.1.1.0 in
    (clock_dominates_iff a c wa wc).1
      (bc.0, (λ i. omega (arith, ab.0 i, bc.1.0 i), (j, omega (arith, ab.0 j, bc.1.1.1))))

pub dominates_irrefl : (a : Clock) → IsClock a → clock_dominates a a ≡ false
dominates_irrefl a w = elim (Bool-cases (clock_dominates a a)) [
  | inl y ↦ let t = ((clock_dominates_iff a a w w).0 y).1.1 in absurd (omega (arith, t.1))
  | inr n ↦ n
]
