-- ===== src/Vault/Index/Generations.antt =====
-- internal/vault/cache.go and manifest.go: the generation of a write, `nextGeneration`, is above every
-- generation that the load of the index has seen.
use mathlib.Core.Path.{subst}
use Prim.Native.String.{String}
use open_seavault_rclone.Shared.Dict.{string_eq}
use open_seavault_rclone.Shared.Int.{ℤ, pos, negsuc, ◌≤ℤ◌, ◌<ℤ◌, eqb_ℤ}
use open_seavault_rclone.Shared.Result.{Result, ok, err}
use open_seavault_rclone.Shared.{
  ◌≡◌, refl, sym, ap, ◌∙◌, true, false, Option, none, some, List, [], ◌∷◌, arith, Elem, inl, inr,
}
use open_seavault_rclone.Vault.Clock.{increment, max_int64}
use open_seavault_rclone.Vault.Index.{
  FileMap, LegacyCodec, VaultState, IndexError, fold_generations, remembered, cached_or,
  uses_manifest_store, load_index_from_disk, load_index, next_generation,
}
use open_seavault_rclone.Vault.Manifest.{FileRecord, Candidate, Host}
use open_seavault_rclone.Vault.Store.{Codec, Files}
use open_seavault_rclone.Vault.Store.Load.{
  Visit, skipped, failed, found, later, visit, walk, with_candidate, load_manifest_index,
}
use open_seavault_rclone.Vault.Store.Sound.{IsSound, AreSound, found_copy, found_in}

le_trans : (a b c : ℤ) → a ≤ℤ b → b ≤ℤ c → a ≤ℤ c
le_trans a b c p q = ground (arith, p, q)

later-left : (g s : ℤ) → g ≤ℤ later g s
later-left g s = ground arith

later-right : (g s : ℤ) → s ≤ℤ later g s
later-right g s = ground arith

abbrev Walked : Codec → ℤ → Files → Type 0
Walked k seen files =
    (seen ≤ℤ (walk k seen files).0)
    × ((c : Candidate) → Elem c (found_in k files) → c.rec.file.generation ≤ℤ (walk k seen files).0)

with_candidate-seen :
    (c : Candidate) (r : ℤ × Option (List Candidate)) → (with_candidate c r).0 ≡ r.0
with_candidate-seen c (g, none) = refl
with_candidate-seen c (g, some cs) = refl

walk-seen : (k : Codec) (seen : ℤ) (files : Files) → AreSound k files → Walked k seen files
unfolding walk
walk-seen k seen [] s = (ground arith, λ c m. absurd m)
walk-seen k seen ((source, f) ∷ files) s =
    at_visit (visit k source f) s.0 (λ g. walk-seen k g files s.1)
  where
    at_visit :
        (v : Visit)
        → IsSound v
        → ((g : ℤ) → Walked k g files)
        → (let w = elim v as (λ (_ : Visit). ℤ × Option (List Candidate)) [
          | skipped ↦ walk k seen files
          | failed ↦ (seen, none)
          | found c ↦ with_candidate c (walk k (later c.rec.file.generation seen) files)
        ] in
            (seen ≤ℤ w.0)
            × ((c : Candidate)
                → Elem c (found_copy v (found_in k files))
                → c.rec.file.generation ≤ℤ w.0))
    at_visit skipped t rest = rest seen
    at_visit failed t rest = absurd t
    at_visit (found d) t rest =
        let g = d.rec.file.generation in
        let all = walk k (later g seen) files in
        let (from, each) = rest (later g seen) in
        let e = with_candidate-seen d all in
        (
          rw e (le_trans seen (later g seen) all.0 (later-right g seen) from),
          λ c m. rw e (of_copy c m from each),
        )
      where
        of_copy :
            (c : Candidate)
            → Elem c (d ∷ found_in k files)
            → later d.rec.file.generation seen
              ≤ℤ (walk k (later d.rec.file.generation seen) files).0
            → ((c : Candidate)
                → Elem c (found_in k files)
                → c.rec.file.generation ≤ℤ (walk k (later d.rec.file.generation seen) files).0)
            → c.rec.file.generation ≤ℤ (walk k (later d.rec.file.generation seen) files).0
        of_copy c (inl same) from each = rw same (
            le_trans d.rec.file.generation (later d.rec.file.generation seen)
              (walk k (later d.rec.file.generation seen) files).0
              (later-left d.rec.file.generation seen) from)
        of_copy c (inr m) from each = each c m

fold_generations_ge : (seen : ℤ) (files : FileMap) → seen ≤ℤ fold_generations seen files
unfolding fold_generations
fold_generations_ge seen [] = ground arith
fold_generations_ge seen ((p, rec) ∷ files) =
    le_trans seen (later rec.generation seen) (fold_generations (later rec.generation seen) files)
      (later-right rec.generation seen) (fold_generations_ge (later rec.generation seen) files)

fold_generations-Elem :
    (seen : ℤ) (files : FileMap) (p : String) (rec : FileRecord)
    → Elem (p, rec) files
    → rec.generation ≤ℤ fold_generations seen files
unfolding fold_generations
fold_generations-Elem seen [] p rec m = absurd m
fold_generations-Elem seen ((q, r) ∷ files) p rec (inr m) =
    fold_generations-Elem (later r.generation seen) files p rec m
fold_generations-Elem seen ((q, r) ∷ files) p rec (inl e) =
    rw (ap (λ (x : String × FileRecord). x.1.generation) e) (
      le_trans r.generation (later r.generation seen)
        (fold_generations (later r.generation seen) files) (later-left r.generation seen)
        (fold_generations_ge (later r.generation seen) files))

remembered-max_gen :
    (h : Host) (k : Codec) (l : LegacyCodec) (v : VaultState) (r : ℤ × Result IndexError FileMap)
    (idx : FileMap)
    → (remembered h k l v r).1 ≡ ok idx
    → (remembered h k l v r).0.max_gen ≡ fold_generations r.0 idx
remembered-max_gen h k l v (g, ok files) idx e = ap (fold_generations g) (ok_inj files idx e)
  where
    ok_inj : (a b : FileMap) → ◌≡◌ {A = Result IndexError FileMap} (ok a) (ok b) → a ≡ b
    ok_inj a b e = cc
remembered-max_gen h k l v (g, err x) idx e = absurd (cc e)

increment_gt : (m : ℤ) → m <ℤ pos max_int64 → m <ℤ increment m
unfolding increment
increment_gt (pos n) room = ground arith
increment_gt (negsuc n) room = ground arith

next_generation_gt :
    (g wall : ℤ) (v : VaultState)
    → g ≤ℤ v.max_gen
    → v.max_gen <ℤ pos max_int64
    → g <ℤ (next_generation wall v).0
unfolding next_generation
next_generation_gt g wall v le room = let gt = increment_gt v.max_gen room in ground (arith, le, gt)

module _ (h : Host) (k : Codec) (l : LegacyCodec) where
  -- The vault is one of manifests, and none of its configuration says otherwise.
  pub record IsCurrent (v : VaultState) : Type 0 where
    pub modern : uses_manifest_store v ≡ true
    pub version : eqb_ℤ v.version (pos 1) ≡ false

  from_disk-seen :
      (v : VaultState)
      → IsCurrent v
      → (load_index_from_disk h k l v).0 ≡ (walk k v.max_gen v.manifests).0
  unfolding load_index_from_disk load_manifest_index
  from_disk-seen v c = ground (arith, c.modern, c.version)

  cold-max_gen :
      (v : VaultState) (idx : FileMap)
      → IsCurrent v
      → v.cached ≡ none
      → (load_index h k l v).1 ≡ ok idx
      → (load_index h k l v).0.max_gen ≡ fold_generations (walk k v.max_gen v.manifests).0 idx
  unfolding load_index
  cold-max_gen v idx c cold e =
      let disk = load_index_from_disk h k l v in
      let here : cached_or h k l v v.cached ≡ remembered h k l v disk =
        ap (cached_or h k l v) cold in
      ap (λ (x : VaultState × Result IndexError FileMap). x.0.max_gen) here
      ∙ (remembered-max_gen h k l v disk idx
            (ap (λ (x : VaultState × Result IndexError FileMap). x.1) (sym here) ∙ e)
          ∙ ap (λ (g : ℤ). fold_generations g idx) (from_disk-seen v c))

  -- On a vault of manifests that can be read, where the first load of the index succeeds: the next
  -- generation is strictly above the generation of every copy that the walk has found, tombstones
  -- and losing copies included, and of every record of the index, unless the counter is at the end
  -- of int64; and it is what the next call starts from.
  pub next_generation_above :
      (v : VaultState) (idx : FileMap) (wall : ℤ)
      → IsCurrent v
      → v.cached ≡ none
      → AreSound k v.manifests
      → (load_index h k l v).1 ≡ ok idx
      → (load_index h k l v).0.max_gen <ℤ pos max_int64
      → ((c : Candidate)
          → Elem c (found_in k v.manifests)
          → c.rec.file.generation <ℤ (next_generation wall (load_index h k l v).0).0)
        × ((p : String) (rec : FileRecord)
            → Elem (p, rec) idx
            → rec.generation <ℤ (next_generation wall (load_index h k l v).0).0)
        × ((next_generation wall (load_index h k l v).0).1.max_gen
            ≡ (next_generation wall (load_index h k l v).0).0)
  unfolding next_generation
  next_generation_above v idx wall c cold s e room =
      let v' = (load_index h k l v).0 in
      let top = cold-max_gen v idx c cold e in
      let walked = (walk k v.max_gen v.manifests).0 in
      let (_, each) = walk-seen k v.max_gen v.manifests s in
      (
        λ a m.
            next_generation_gt a.rec.file.generation wall v'
              (subst (λ t. a.rec.file.generation ≤ℤ t) (sym top)
                (le_trans a.rec.file.generation walked (fold_generations walked idx) (each a m)
                  (fold_generations_ge walked idx)))
              room,
        (λ p rec m.
            next_generation_gt rec.generation wall v'
              (subst (λ t. rec.generation ≤ℤ t) (sym top)
                (fold_generations-Elem walked idx p rec m))
              room),
        refl,
      )
