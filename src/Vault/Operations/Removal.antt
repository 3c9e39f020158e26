-- ===== src/Vault/Operations/Removal.antt =====
-- internal/vault/vault.go: RemovePath and Remove. The targets are the path itself, or the paths below
-- it; each gets a tombstone with a generation of its own and a clock that is advanced over the record.
use Prim.Native.String.{String, ◌++◌ as append}
use open_seavault_rclone.Shared.Dict.{get, remove, string_eq}
use open_seavault_rclone.Shared.Int.{ℤ, pos}
use open_seavault_rclone.Shared.Result.{Result, ok, err}
use open_seavault_rclone.Shared.{
  ℕ, Bool, true, false, ◌||◌, Option, none, some, List, [], ◌∷◌, length, ◌==◌, str_eq,
  if◌then◌else◌,
}
use open_seavault_rclone.Vault.Clock.{Clock, is_empty, advance_clock}
use open_seavault_rclone.Vault.Index.{
  FileMap, LegacyCodec, VaultState, uses_manifest_store, load_index, next_generation,
  commit_tombstone,
}
use open_seavault_rclone.Vault.Manifest.{FileRecord, Host}
use open_seavault_rclone.Vault.Operations.{
  DeviceClock, LegacyWriter, VaultError, not_found, not_valid, not_written, protected_root,
  old_clock, on_index, save_index,
}
use open_seavault_rclone.Vault.Path.{starts}
use open_seavault_rclone.Vault.Path.Content.{
  content_root, ends_in_slash, normalize_content_dir_path,
}
use open_seavault_rclone.Vault.Store.{Codec}

pub record Burial : Type 0 where
  pub path : String
  pub generation : ℤ
  pub superseded : ℤ
  pub clock : Clock

-- The prefix of the paths below `vp`.
abbrev pub below : String → String
below vp = if str_eq vp "" || ends_in_slash vp then vp else append vp "/"

unfoldable pub paths_below : String → FileMap → List String
paths_below prefix [] = []
paths_below prefix ((p, rec) ∷ files) =
    let rest = paths_below prefix files in if starts prefix p then p ∷ rest else rest

unfoldable pub targets_of : String → FileMap → List String
unfolding paths_below
targets_of vp idx = elim (get vp idx) [ some rec ↦ vp ∷ [] | none ↦ paths_below (below vp) idx ]

abbrev pub generation_of : Option FileRecord → ℤ
generation_of none = pos 0
generation_of (some rec) = rec.generation

-- The first loop: what each tombstone will say.
unfoldable pub plan_burials :
    DeviceClock → FileMap → List String → VaultState → List Burial × VaultState
unfolding next_generation advance_clock
plan_burials d idx [] v = ([], v)
plan_burials d idx (p ∷ ps) v =
    let (g, v') = next_generation d.wall v in
    let (rest, after) = plan_burials d idx ps v' in
    (
      record {
        path = p;
        generation = g;
        superseded = generation_of (get p idx);
        clock = advance_clock d.id (old_clock (get p idx)) d.wall;
      }
          ∷ rest,
      after,
    )

unfoldable pub without : List String → FileMap → FileMap
without [] idx = idx
without (p ∷ ps) idx = without ps (remove p idx)

module _ (h : Host) (k : Codec) (l : LegacyCodec) (w : LegacyWriter) where
  -- The last loop: an error leaves what was committed before it.
  unfoldable pub bury : List Burial → VaultState → VaultState × Bool
  unfolding commit_tombstone
  bury [] v = (v, true)
  bury (b ∷ bs) v = elim (commit_tombstone h k b.path b.generation b.superseded b.clock v) [
    | none ↦ (v, false)
    | some v' ↦ bury bs v'
  ]

  abbrev pub removed_count : ℕ → VaultState × Bool → VaultState × Result VaultError ℕ
  removed_count n (v, true) = (v, ok n)
  removed_count n (v, false) = (v, err not_written)

  abbrev pub saved :
      ℕ → VaultState × Result VaultError (Unit {0}) → VaultState × Result VaultError ℕ
  saved n (v, ok _) = (v, ok n)
  saved n (v, err e) = (v, err e)

  unfoldable pub remove_targets :
      DeviceClock → FileMap → List String → VaultState → VaultState × Result VaultError ℕ
  unfolding plan_burials without bury uses_manifest_store save_index
  remove_targets d idx targets v =
      let (burials, v') = plan_burials d idx targets v in
      if is_empty targets
      then (v, err not_found)
      else if uses_manifest_store v'
      then removed_count (length targets) (bury burials v')
      else saved (length targets) (save_index h k l w (without targets idx) v')

  abbrev pub remove_named :
      DeviceClock → Option String → FileMap → VaultState → VaultState × Result VaultError ℕ
  remove_named d none idx v = (v, err not_valid)
  remove_named d (some vp) idx v =
      if str_eq vp content_root
      then (v, err protected_root)
      else remove_targets d idx (targets_of vp idx) v

  unfoldable pub remove_path : DeviceClock → String → VaultState → VaultState × Result VaultError ℕ
  unfolding load_index normalize_content_dir_path targets_of remove_targets
  remove_path d path v =
      on_index (remove_named d (normalize_content_dir_path path)) (load_index h k l v)

  abbrev pub at_least_one :
      VaultState × Result VaultError ℕ → VaultState × Result VaultError (Unit {0})
  at_least_one (v, err e) = (v, err e)
  at_least_one (v, ok n) = (v, if n == 0 then err not_found else ok tt)

  unfoldable pub remove_present :
      DeviceClock → String → VaultState → VaultState × Result VaultError (Unit {0})
  unfolding remove_path
  remove_present d path v = at_least_one (remove_path d path v)
