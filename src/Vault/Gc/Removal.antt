-- ===== src/Vault/Gc/Removal.antt =====
-- internal/vault/gc.go: when a run of `gcConfirm` removes a chunk file.
use open_seavault_rclone.Shared.Dict.{
  Dict, get, remove, string_eq, get-remove, Distinct, get_of_Elem,
}
use open_seavault_rclone.Shared.{
  ap, ℕ, ◌+◌, ◌≤◌, String, ◌≡◌, ◌⊎◌, inl, inr, refl, sym, ◌∙◌, true, false, Option, none, some,
  List, [], ◌∷◌, arith, Elem, Bool-cases, str_eq, eq_iff,
}
use mathlib.Core.Option.{some-injective}
use open_seavault_rclone.Vault.Gc.{
  ChunkFile, LogicalIntent, Store, Report, mem, copies, newest_mtime, remove_files, paths,
  drop_intent, is_nil, is_past, collect, collect_all,
}

Elem-remove_files :
    {A : Type 0} (p : String) (ps : List String) (m : Dict String A) (a : A)
    → get p m ≡ some a
    → get p (remove_files ps m) ≡ none
    → Elem p ps
unfolding remove_files
Elem-remove_files p [] m a h g = absurd (ground arith)
Elem-remove_files p (q ∷ ps) m a h g = elim (Bool-cases (str_eq q p)) [
  | inl same ↦ inl (sym ((eq_iff q p).0 same))
  | inr other ↦ inr (Elem-remove_files p ps (remove q m) a (rw (get-remove q p m, other) h) g)
]

Elem-paths :
    {A : Type 0} (p : String) (m : Dict String A) → Elem p (paths m) → (a : A) × Elem (p, a) m
unfolding paths
Elem-paths p [] e = absurd e
Elem-paths p ((q, a) ∷ m) (inl e) = (a, inl (rw e refl))
Elem-paths p ((q, a) ∷ m) (inr e) = let t = Elem-paths p m e in (t.0, inr t.1)

Elem-copies :
    (id p : String) (f : ChunkFile) (m : Dict String ChunkFile)
    → Elem (p, f) (copies id m)
    → Elem (p, f) m × (f.id ≡ id) × (f.mtime ≤ newest_mtime (copies id m))
unfolding copies newest_mtime
Elem-copies id p f [] e = absurd e
Elem-copies id p f ((q, g) ∷ m) e = elim (Bool-cases (str_eq g.id id)) [
  | inl same ↦ elim (rw same at e) [
    | inl h ↦
        let fg : f ≡ g = ap (λ (x : String × ChunkFile). x.1) h in
        (inl h, rw fg ((eq_iff g.id id).0 same), rw (same, fg) (omega arith))
    | inr h ↦
        let t = Elem-copies id p f m h in (inr t.0, t.1, let le = t.2 in rw same (omega arith))
  ]
  | inr other ↦ let t = Elem-copies id p f m (rw other at e) in (inr t.0, t.1, rw other t.2)
]

-- What the guards of phase 2 establish for a chunk file.
pub record HasExpired (live : List String) (fence t : ℕ) (intents : Dict String LogicalIntent)
    (s : Store) (f : ChunkFile) : Type 0 where
  pub unreferenced : mem f.id live ≡ false
  pub intent_past :
      (li : LogicalIntent) × (recorded : ℕ) × Elem (f.id, li) intents
      × (li.recorded ≡ some recorded)
      × (recorded + fence ≤ t)
  pub seen_past : (first : ℕ) × (get f.id s.seen ≡ some (some first)) × (first + fence ≤ t)
  pub mtime_past : f.mtime + fence ≤ t

past_time :
    (fence t : ℕ) (o : Option ℕ)
    → is_past fence t o ≡ true
    → (since : ℕ) × (o ≡ some since) × (since + fence ≤ t)
past_time fence t none h = absurd (ground arith)
past_time fence t (some since) h = (since, refl, ground arith)

past_seen :
    (fence t : ℕ) (o : Option (Option ℕ))
    → is_past fence t (elim o [ none ↦ none | some time ↦ time ]) ≡ true
    → (first : ℕ) × (o ≡ some (some first)) × (first + fence ≤ t)
past_seen fence t none h = absurd (ground arith)
past_seen fence t (some none) h = absurd (ground arith)
past_seen fence t (some (some first)) h = (first, refl, ground arith)

get-remove_files :
    {A : Type 0} (p : String) (ps : List String) (m : Dict String A)
    → (get p (remove_files ps m) ≡ none) ⊎ (get p (remove_files ps m) ≡ get p m)
unfolding remove_files
get-remove_files p [] m = inr refl
get-remove_files p (q ∷ ps) m = elim (get-remove_files p ps (remove q m)) [
  | inl n ↦ inl n
  | inr e ↦ elim (Bool-cases (str_eq q p)) [
    | inl same ↦ inl (e ∙ get-remove q p m ∙ rw same refl)
    | inr other ↦ inr (e ∙ get-remove q p m ∙ rw other refl)
  ]
]

module _ (live : List String) (fence t : ℕ) (chunks : Dict String ChunkFile) (p : String)
    (f : ChunkFile) where
  abbrev first_seen : String → Store → Option ℕ
  first_seen id s = elim (get id s.seen) [ none ↦ none | some time ↦ time ]

  -- A turn that removes the file has passed all its guards.
  collect_guards :
      (id : String) (li : LogicalIntent) (s : Store) (r : Report)
      → get p s.chunks ≡ some f
      → get p (collect live fence t chunks id li (s, r)).0.chunks ≡ none
      → (mem id live ≡ false)
        × (is_past fence t li.recorded ≡ true)
        × (is_past fence t (first_seen id s) ≡ true)
        × (is_past fence t (some (newest_mtime (copies id chunks))) ≡ true)
        × Elem p (paths (copies id chunks))
  unfolding collect drop_intent
  collect_guards id li s r here gone = elim (Bool-cases (is_nil (copies id chunks))) [
    | inl y ↦ absurd (let g = rw (y, here) at gone in ground arith)
    | inr a ↦ elim (Bool-cases (mem id live)) [
      | inl y ↦ absurd (let g = rw (a, y, here) at gone in ground arith)
      | inr b ↦ elim (Bool-cases (is_past fence t li.recorded)) [
        | inr n ↦ absurd (let g = rw (a, b, n, here) at gone in ground arith)
        | inl c ↦ elim (Bool-cases (is_past fence t (first_seen id s))) [
          | inr n ↦ absurd (let g = rw (a, b, c, n, here) at gone in ground arith)
          | inl e ↦ elim (Bool-cases (is_past fence t (some (newest_mtime (copies id chunks))))) [
            | inr n ↦ absurd (let g = rw (a, b, c, e, n, here) at gone in ground arith)
            | inl k ↦
                (b, c, e, k, Elem-remove_files p _ s.chunks f here (rw (a, b, c, e, k) at gone))
          ]
        ]
      ]
    ]
  ]

  collect_removes :
      (id : String) (li : LogicalIntent) (s : Store) (r : Report)
      → Distinct chunks
      → get p chunks ≡ some f
      → get p s.chunks ≡ some f
      → get p (collect live fence t chunks id li (s, r)).0.chunks ≡ none
      → HasExpired live fence t ((id, li) ∷ []) s f
  collect_removes id li s r d own here gone =
      let g = collect_guards id li s r here gone in
      let at_path = Elem-paths p (copies id chunks) g.4 in
      let held = Elem-copies id p at_path.0 chunks at_path.1 in
      let same : at_path.0 ≡ f =
        some-injective _ _ (sym (get_of_Elem p at_path.0 chunks d held.0) ∙ own) in
      let its_id : f.id ≡ id = ap (λ (x : ChunkFile). x.id) (sym same) ∙ held.1 in
      let recorded = past_time fence t li.recorded g.1 in
      let young = past_time fence t (some (newest_mtime (copies id chunks))) g.3 in
      record {
        unreferenced = rw its_id g.0;
        intent_past = (li, recorded.0, inl (rw its_id refl), recorded.1, recorded.2);
        seen_past = rw its_id (past_seen fence t (get id s.seen) g.2);
        mtime_past =
            let newest = some-injective _ _ young.1 in
            let le : f.mtime ≤ newest_mtime (copies id chunks) = rw same at held.2 in
            omega (arith, young.2);
      }

  collect_keeps :
      (id : String) (li : LogicalIntent) (s : Store) (r : Report)
      → (get p (collect live fence t chunks id li (s, r)).0.chunks ≡ none)
        ⊎ (get p (collect live fence t chunks id li (s, r)).0.chunks ≡ get p s.chunks)
  unfolding collect drop_intent
  collect_keeps id li s r = ground (arith, get-remove_files p (paths (copies id chunks)) s.chunks)

  -- A turn adds no record of a first sighting.
  collect-seen :
      (id k : String) (li : LogicalIntent) (s : Store) (r : Report) (x : Option ℕ)
      → get k (collect live fence t chunks id li (s, r)).0.seen ≡ some x
      → get k s.seen ≡ some x
  unfolding collect drop_intent
  collect-seen id k li s r x h = ground (arith, get-remove id k s.seen)

  pub collect_all_removes :
      (m : Dict String LogicalIntent) (s : Store) (r : Report)
      → Distinct chunks
      → get p chunks ≡ some f
      → get p s.chunks ≡ some f
      → get p (collect_all live fence t chunks m (s, r)).0.chunks ≡ none
      → HasExpired live fence t m s f
  unfolding collect_all
  collect_all_removes [] s r d own here gone = absurd (ground arith)
  collect_all_removes ((id, li) ∷ m) s r d own here gone =
      let next = collect live fence t chunks id li (s, r) in
      elim (collect_keeps id li s r) [
        | inl now_gone ↦
            let x = collect_removes id li s r d own here now_gone in
            record {
              unreferenced = x.unreferenced;
              intent_past =
                  let i = x.intent_past in
                  (i.0, i.1, elim i.2 [ inl e ↦ inl e | inr e ↦ absurd e ], i.3, i.4);
              seen_past = x.seen_past;
              mtime_past = x.mtime_past;
            }
        | inr kept ↦
            let x = collect_all_removes m next.0 next.1 d own (kept ∙ here) gone in
            record {
              unreferenced = x.unreferenced;
              intent_past = let i = x.intent_past in (i.0, i.1, inr i.2, i.3, i.4);
              seen_past =
                  let q = x.seen_past in (q.0, collect-seen id f.id li s r (some q.0) q.1, q.2);
              mtime_past = x.mtime_past;
            }
      ]
