-- ===== src/Vault/Store/Placed.antt =====
-- internal/vault/manifest.go: what `loadManifestIndex` puts in the index at a path that has manifests
-- of its own: the outcome of the reconciliation of this path's copies, and nothing else.
use open_seavault_rclone.Shared.Dict.{get, string_eq, get-put, Distinct}
use open_seavault_rclone.Shared.{
  ◌≡◌, refl, ◌∙◌, String, true, false, Option, none, some, List, [], ◌∷◌, arith, eq_iff, str_eq,
  inl, inr, Bool-cases, if◌then◌else◌,
}
use open_seavault_rclone.Vault.Manifest.{FileRecord, Candidate, PlannedConflict, Host}
use open_seavault_rclone.Vault.Reconcile.{reconcile}
use open_seavault_rclone.Vault.Store.Load.{
  Groups, Loaded, is_there, place_conflict, place_conflicts, with_live, enter, and_then,
  settle_groups,
}

abbrev pub Settled : Type 0
Settled = Option FileRecord × List PlannedConflict × List String

-- A planned conflict changes no path that has manifests of its own.
place_conflict-get :
    (groups : Groups) (p : String) (c : PlannedConflict) (st : Loaded)
    → is_there (get p groups) ≡ true
    → get p (place_conflict groups c st).files ≡ get p st.files
unfolding place_conflict
place_conflict-get groups p c st there = elim (Bool-cases (is_there (get c.path groups))) [
  | inl own ↦ rw own refl
  | inr free ↦ rw free (ground (arith, get-put c.path p c.rec st.files, eq_iff c.path p))
]

place_conflicts-get :
    (groups : Groups) (p : String) (cs : List PlannedConflict) (st : Loaded)
    → is_there (get p groups) ≡ true
    → get p (place_conflicts groups cs st).files ≡ get p st.files
unfolding place_conflicts
place_conflicts-get groups p [] st there = refl
place_conflicts-get groups p (c ∷ cs) st there =
    place_conflicts-get groups p cs (place_conflict groups c st) there
    ∙ place_conflict-get groups p c st there

with_live-get :
    (path p : String) (live : Option FileRecord) (st : Loaded)
    → get p (with_live path live st).files
      ≡ (if str_eq path p then (if is_there live then live else get p st.files) else get p st.files)
with_live-get path p none st = ground arith
with_live-get path p (some rec) st = get-put path p rec st.files

enter-get :
    (groups : Groups) (path p : String) (r : Settled) (st : Loaded)
    → is_there (get p groups) ≡ true
    → (st' : Loaded) → enter groups path (some r) st ≡ some st'
    → get p st'.files
      ≡ (if str_eq path p then (if is_there r.0 then r.0 else get p st.files) else get p st.files)
enter-get groups path p (live, conflicts, removes) st there st' e = cc (
  place_conflicts-get groups p conflicts (with_live path live st) there,
  with_live-get path p live st,
)

-- A group that was entered had an outcome, and what it left is what the other groups start from.
record Entered (h : Host) (groups rest : Groups) (path : String) (list : List Candidate)
    (st st' : Loaded) : Type 0 where
  next : Loaded
  result : Settled
  reconciled : reconcile h path list ≡ some result
  entered : enter groups path (some result) st ≡ some next
  others : settle_groups h groups rest next ≡ some st'

first_group :
    (h : Host) (groups rest : Groups) (path : String) (list : List Candidate) (st st' : Loaded)
    → settle_groups h groups ((path, list) ∷ rest) st ≡ some st'
    → Entered h groups rest path list st st'
unfolding settle_groups
first_group h groups rest path list st st' e = at_result (reconcile h path list) refl e
  where
    at_result :
        (o : Option Settled)
        → reconcile h path list ≡ o
        → and_then (settle_groups h groups rest) (enter groups path o st) ≡ some st'
        → Entered h groups rest path list st st'
    at_result none eq e = absurd (cc e)
    at_result (some (live, conflicts, removes)) eq e = record {
      next = _;
      result = (live, conflicts, removes);
      reconciled = eq;
      entered = refl;
      others = e;
    }

-- The groups of other paths leave a path with manifests of its own as it is.
settle_groups-other :
    (h : Host) (groups rest : Groups) (p : String) (st st' : Loaded)
    → is_there (get p groups) ≡ true
    → get p rest ≡ none
    → settle_groups h groups rest st ≡ some st'
    → get p st'.files ≡ get p st.files
unfolding settle_groups get
settle_groups-other h groups [] p st st' there out e = cc e
settle_groups-other h groups ((path, list) ∷ rest) p st st' there out e =
    let t = first_group h groups rest path list st st' e in
    let other : str_eq path p ≡ false = ground arith in
    settle_groups-other h groups rest p t.next st' there (ground arith) t.others
    ∙ (enter-get groups path p t.result st there t.next t.entered ∙ rw other refl)

same_outcome :
    (a b : Settled) (o : Option Settled)
    → o ≡ some a
    → o ≡ some b
    → (if is_there a.0 then a.0 else none) ≡ b.0
same_outcome a b o e f = cc (kept a.0)
  where
    kept : (x : Option FileRecord) → (if is_there x then x else none) ≡ x
    kept none = refl
    kept (some x) = refl

pub settle_groups-at :
    (h : Host) (groups rest : Groups) (p : String) (list : List Candidate) (st st' : Loaded)
    (r : Settled)
    → is_there (get p groups) ≡ true
    → Distinct rest
    → get p rest ≡ some list
    → reconcile h p list ≡ some r
    → get p st.files ≡ none
    → settle_groups h groups rest st ≡ some st'
    → get p st'.files ≡ r.0
unfolding settle_groups get
settle_groups-at h groups [] p list st st' r there d own rec free e = absurd (cc own)
settle_groups-at h groups ((path, l) ∷ rest) p list st st' r there d own rec free e =
    let t = first_group h groups rest path l st st' e in
    elim (Bool-cases (str_eq path p)) as (λ _. get p st'.files ≡ r.0) [
      | inl same ↦
          settle_groups-other h groups rest p t.next st' there (cc (d.0, (eq_iff path p).0 same))
            t.others
          ∙ (enter-get groups path p t.result st there t.next t.entered
              ∙ rw (same, free)
                  (same_outcome t.result r (reconcile h p list)
                    (cc (t.reconciled, (eq_iff path p).0 same, own)) rec))
      | inr other ↦
          settle_groups-at h groups rest p list t.next st' r there d.1 (ground arith) rec
            (enter-get groups path p t.result st there t.next t.entered ∙ rw other free) t.others
    ]
