-- ===== src/Vault/Store/Sound.antt =====
-- internal/vault/manifest.go: the copies that the walk of `loadManifestIndex` finds, on files that
-- can be read and hold honest clocks: each is in a file of its own.
use mathlib.Core.Path.{subst}
use open_seavault_rclone.Shared.Dict.{string_eq, Distinct, get_of_Elem}
use open_seavault_rclone.Shared.Int.{ℤ}
use open_seavault_rclone.Shared.{
  ◌≡◌, refl, ap, sym, ◌∙◌, String, Bool, true, false, not, Option, none, some, List, [], ◌∷◌, ◌++◌,
  Elem, eq_iff, str_eq, inl, inr, if◌then◌else◌,
}
use open_seavault_rclone.Vault.Clock.Dominance.{IsClock}
use open_seavault_rclone.Vault.Manifest.{ManifestRecord, Candidate, clock_of}
use open_seavault_rclone.Vault.Reconcile.Antichain.{AreHonest}
use open_seavault_rclone.Vault.Path.{is_blank}
use open_seavault_rclone.Vault.Store.{
  Codec, StoredFile, Files, decrypt_manifest, manifest_id_from_file_name,
}
use open_seavault_rclone.Vault.Store.Grouped.{copy_if, copies_of}
use open_seavault_rclone.Vault.Store.Load.{
  Visit, has_marker, classify, skipped, failed, found, visit, walk, later, with_candidate,
  group_path, at_path,
}

-- A file that can be read, with an honest clock if it holds a record.
abbrev pub IsSound : Visit → Type 0
IsSound skipped = Unit
IsSound failed = ⊥
IsSound (found c) = IsClock (clock_of c.rec)

abbrev pub AreSound : Codec → Files → Type 0
AreSound k [] = Unit
AreSound k ((source, f) ∷ files) = IsSound (visit k source f) × AreSound k files

-- The copies that the walk finds.
abbrev pub found_copy : Visit → List Candidate → List Candidate
found_copy skipped cs = cs
found_copy failed cs = cs
found_copy (found c) cs = c ∷ cs

abbrev pub found_in : Codec → Files → List Candidate
found_in k [] = []
found_in k ((source, f) ∷ files) = found_copy (visit k source f) (found_in k files)

with_candidate-some :
    (c : Candidate) (r : ℤ × Option (List Candidate)) (cs : List Candidate)
    → r.1 ≡ some cs
    → (with_candidate c r).1 ≡ some (c ∷ cs)
with_candidate-some c (g, some ds) cs e = cc
with_candidate-some c (g, none) cs e = absurd (cc e)

pub walk-found_in :
    (k : Codec) (seen : ℤ) (files : Files)
    → AreSound k files
    → (walk k seen files).1 ≡ some (found_in k files)
unfolding walk
walk-found_in k seen [] s = refl
walk-found_in k seen ((source, f) ∷ files) s =
    at_visit (visit k source f) s.0 (λ (g : ℤ). walk-found_in k g files s.1)
  where
    at_visit :
        (v : Visit)
        → IsSound v
        → ((g : ℤ) → (walk k g files).1 ≡ some (found_in k files))
        → (elim v as (λ (_ : Visit). ℤ × Option (List Candidate)) [
          | skipped ↦ walk k seen files
          | failed ↦ (seen, none)
          | found c ↦ with_candidate c (walk k (later c.rec.file.generation seen) files)
        ]).1
          ≡ some (found_copy v (found_in k files))
    at_visit skipped t rest = rest seen
    at_visit failed t rest = absurd t
    at_visit (found c) t rest =
        with_candidate-some c (walk k (later c.rec.file.generation seen) files) (found_in k files)
          (rest (later c.rec.file.generation seen))

-- A copy that the walk found: the file it stands in, and what the walk makes of this file.
abbrev Found : Codec → Files → Candidate → Type 0
Found k files c =
    (f : StoredFile) × Elem (c.source, f) files
    × (visit k c.source f ≡ found c)
    × IsClock (clock_of c.rec)

abbrev HasSource : String → Visit → Type 0
HasSource source skipped = Unit
HasSource source failed = Unit
HasSource source (found c) = c.source ≡ source

classify-HasSource :
    (k : Codec) (source id : String) (f : StoredFile) (o : Option ManifestRecord)
    → HasSource source (classify k source f id o)
classify-HasSource k source id f none = tt
classify-HasSource k source id f (some rec) =
    elim (is_blank rec.path)
      as (λ b. HasSource source (
        if b
        then skipped
        else found (record { rec = rec; id = id; name = f.name; source = source }))) [
          | true ↦ tt
          | false ↦ refl
        ]

guarded-HasSource :
    (source : String) (b : Bool) (v : Visit)
    → HasSource source v
    → HasSource source (if b then skipped else v)
guarded-HasSource source true v h = tt
guarded-HasSource source false v h = h

visit-source :
    (k : Codec) (source : String) (f : StoredFile) (c : Candidate)
    → visit k source f ≡ found c
    → c.source ≡ source
unfolding visit
visit-source k source f c e =
    let id = manifest_id_from_file_name f.name in
    subst (HasSource source) e (
      guarded-HasSource source (not (has_marker f.name)) _ (
        guarded-HasSource source (is_blank id) _
          (classify-HasSource k source id f (decrypt_manifest k f.bytes id))))

Found-of_Elem :
    (k : Codec) (files : Files) (c : Candidate)
    → AreSound k files
    → Elem c (found_in k files)
    → Found k files c
Found-of_Elem k [] c s m = absurd m
Found-of_Elem k ((source, f) ∷ files) c s m =
    at_visit (visit k source f) refl s.0 m (λ m'. later_file (Found-of_Elem k files c s.1 m'))
  where
    later_file : Found k files c → Found k ((source, f) ∷ files) c
    later_file (g, n, e, w) = (g, inr n, e, w)

    at_visit :
        (v : Visit)
        → visit k source f ≡ v
        → IsSound v
        → Elem c (found_copy v (found_in k files))
        → (Elem c (found_in k files) → Found k ((source, f) ∷ files) c)
        → Found k ((source, f) ∷ files) c
    at_visit skipped e t m rest = rest m
    at_visit failed e t m rest = absurd t
    at_visit (found d) e t (inr m) rest = rest m
    at_visit (found d) e t (inl same) rest =
        let same_source : c.source ≡ source =
          ap (λ (x : Candidate). x.source) same ∙ visit-source k source f d e in
        (f, inl (cc), cc, subst (λ (x : Candidate). IsClock (clock_of x.rec)) (sym same) t)

-- A copy of a path: a copy that the walk found, with the cleaned path put in.
abbrev CopyFrom : List Candidate → String → Candidate → Type 0
CopyFrom cs p c = (d : Candidate) × Elem d cs × (c ≡ at_path p d)

copy-from :
    (k : Codec) (p : String) (cs : List Candidate) (c : Candidate)
    → Elem c (copies_of k p cs)
    → CopyFrom cs p c
copy-from k p [] c m = absurd m
copy-from k p (d ∷ cs) c m = at_path_of (group_path k d) m (copy-from k p cs c)
  where
    later_copy : CopyFrom cs p c → CopyFrom (d ∷ cs) p c
    later_copy (a, n, e) = (a, inr n, e)

    at_key :
        (path : String) (b : Bool)
        → str_eq path p ≡ b
        → Elem c ((if b then at_path path d ∷ [] else []) ++ copies_of k p cs)
        → (Elem c (copies_of k p cs) → CopyFrom cs p c)
        → CopyFrom (d ∷ cs) p c
    at_key path true same (inl e) rest = (d, inl refl, cc (e, (eq_iff path p).0 same))
    at_key path true same (inr n) rest = later_copy (rest n)
    at_key path false same n rest = later_copy (rest n)

    at_path_of :
        (o : Option String)
        → Elem c (copy_if p o d ++ copies_of k p cs)
        → (Elem c (copies_of k p cs) → CopyFrom cs p c)
        → CopyFrom (d ∷ cs) p c
    at_path_of none n rest = later_copy (rest n)
    at_path_of (some path) n rest = at_key path (str_eq path p) refl n rest

clock_of-at_path : (p : String) (c : Candidate) → clock_of (at_path p c).rec ≡ clock_of c.rec
unfolding clock_of
clock_of-at_path p c = refl

same_found : (a b : Candidate) → found a ≡ found b → a ≡ b
same_found a b e = ap (λ (v : Visit). the_copy a v) e
  where
    the_copy : Candidate → Visit → Candidate
    the_copy other skipped = other
    the_copy other failed = other
    the_copy other (found c) = c

same_copy :
    (k : Codec) (files : Files) (a b : Candidate)
    → Distinct files
    → Found k files a
    → Found k files b
    → a.source ≡ b.source
    → a ≡ b
same_copy k files a b d (f, m, e, _) (g, n, u, _) same =
    let at_a = get_of_Elem a.source f files d m in
    let at_b = get_of_Elem b.source g files d n in
    let file : f ≡ g = some_inj f g (cc (at_a, at_b, same)) in
    same_found a b (cc (e, u, file, same))
  where
    some_inj : (x y : StoredFile) → some x ≡ some y → x ≡ y
    some_inj x y e = cc

pub copies-AreHonest :
    (k : Codec) (files : Files) (p : String)
    → Distinct files
    → AreSound k files
    → AreHonest (copies_of k p (found_in k files))
copies-AreHonest k files p d s = record {
  clocks = λ c m.
      let (a, n, e) = copy-from k p (found_in k files) c m in
      let (f, _, _, w) = Found-of_Elem k files a s n in
      subst IsClock (sym (ap (λ (x : Candidate). clock_of x.rec) e ∙ clock_of-at_path p a)) w;
  own_file = λ c c' m m' same.
      let (a, n, e) = copy-from k p (found_in k files) c m in
      let (b, n', u) = copy-from k p (found_in k files) c' m' in
      let one =
        same_copy k files a b d (Found-of_Elem k files a s n) (Found-of_Elem k files b s n')
          (cc ((eq_iff c.source c'.source).0 same, e, u)) in
      e ∙ (ap (at_path p) one ∙ sym u);
}
