-- ===== src/Vault/Index.antt =====
-- internal/vault/cache.go, and LoadIndex and loadIndexFromDisk of internal/vault/vault.go: the index in
-- memory, its load from the manifests or from the single file of an older vault, and the writes that
-- keep it in step with the manifests. A copy of the index that a caller owns is the same value here.
-- `LegacyCodec` stands for the AEAD and the JSON of the older index file. The lock is left out: each
-- operation below is the body that runs under it.
pub mod Coherent
pub mod Generations
use Prim.Native.String.{String}
use open_seavault_rclone.Shared.Dict.{Dict, get, put, remove, string_eq}
use open_seavault_rclone.Shared.Int.{ℤ, pos, ltb_ℤ, leb_ℤ, eqb_ℤ}
use open_seavault_rclone.Shared.Result.{Result, ok, err}
use open_seavault_rclone.Shared.{
  ℕ, ◌≡◌, Bool, true, false, not, ◌&&◌, ◌||◌, Option, none, some, List, [], ◌∷◌, ◌++◌, str_eq,
  if◌then◌else◌,
}
use open_seavault_rclone.Vault.Clock.{Clock, is_empty, increment}
use open_seavault_rclone.Vault.Manifest.{FileRecord, Host}
use open_seavault_rclone.Vault.Objects.{Bytes, decode_encrypted}
use open_seavault_rclone.Vault.Path.{is_blank, clean_virtual_path}
use open_seavault_rclone.Vault.Store.{
  Codec, StoredFile, Files, manifest_id_from_file_name, save_file_manifest, save_tombstone,
}
use open_seavault_rclone.Vault.Store.Load.{Loaded, later, walk, load_manifest_index}

abbrev pub FileMap : Type 0
FileMap = Dict String FileRecord

pub record LegacyCodec : Type 0 where
  pub nonce_size : ℕ
  pub unseal : Bytes → Bytes → Option Bytes
  pub unmarshal : Bytes → Option FileMap

-- The vault as the operations see it: the configuration, what is on the disk, and what is in memory.
pub record VaultState : Type 0 where
  pub version : ℤ
  pub manifest_mode : String
  pub manifests : Files
  pub legacy : Option Bytes
  pub cached : Option FileMap
  pub max_gen : ℤ

pub data IndexError : Type 0 where
  config_inconsistent manifest_unreadable legacy_unreadable invalid_path : IndexError

unfoldable pub uses_manifest_store : VaultState → Bool
uses_manifest_store v = leb_ℤ (pos 2) v.version || not (str_eq v.manifest_mode "")

unfoldable pub manifest_files_present : Files → Bool
manifest_files_present [] = false
manifest_files_present ((source, f) ∷ files) =
    not (is_blank (manifest_id_from_file_name f.name)) || manifest_files_present files

-- "SVIDX1\n"
abbrev pub index_magic : Bytes
index_magic = b'S' ∷ b'V' ∷ b'I' ∷ b'D' ∷ b'X' ∷ b'1' ∷ 10 ∷ []

-- A missing file is an empty index.
unfoldable pub load_legacy_index : LegacyCodec → Option Bytes → Result IndexError FileMap
unfolding decode_encrypted
load_legacy_index l none = ok []
load_legacy_index l (some bytes) = elim (decode_encrypted index_magic l.nonce_size bytes) [
  | err e ↦ err legacy_unreadable
  | ok (nonce, ct) ↦ elim (l.unseal nonce ct) [
    | none ↦ err legacy_unreadable
    | some plain ↦ elim (l.unmarshal plain) [ none ↦ err legacy_unreadable | some files ↦ ok files ]
  ]
]

-- The fold of the generations of the index into `maxGen`.
unfoldable pub fold_generations : ℤ → FileMap → ℤ
fold_generations seen [] = seen
fold_generations seen ((p, rec) ∷ files) = fold_generations (later rec.generation seen) files

module _ (h : Host) (k : Codec) (l : LegacyCodec) where
  -- `plan.sawManifest`, of the candidates of the walk.
  abbrev pub saw_manifest : VaultState → Bool
  saw_manifest v = elim ((walk k v.max_gen v.manifests).1) [
    | none ↦ false
    | some cs ↦ not (is_empty cs)
  ]

  abbrev pub loaded_files : Option Loaded → Result IndexError FileMap
  loaded_files none = err manifest_unreadable
  loaded_files (some st) = ok st.files

  abbrev pub fall_back : Bool → VaultState → Result IndexError FileMap → Result IndexError FileMap
  fall_back saw v (err e) = err e
  fall_back saw v (ok files) = if saw then ok files else load_legacy_index l v.legacy

  -- The index, and the new `maxGen`.
  unfoldable pub load_index_from_disk : VaultState → ℤ × Result IndexError FileMap
  unfolding uses_manifest_store manifest_files_present load_manifest_index
  load_index_from_disk v =
      let (max_gen, index) = load_manifest_index h k v.max_gen v.manifests in
      if (not (uses_manifest_store v) || eqb_ℤ v.version (pos 1))
        && manifest_files_present v.manifests
      then (v.max_gen, err config_inconsistent)
      else if uses_manifest_store v
      then (max_gen, fall_back (saw_manifest v) v (loaded_files index))
      else (v.max_gen, load_legacy_index l v.legacy)

  abbrev pub remembered :
      VaultState → ℤ × Result IndexError FileMap → VaultState × Result IndexError FileMap
  remembered v (max_gen, err e) = (record v { max_gen = max_gen }, err e)
  remembered v (max_gen, ok files) =
      (record v { max_gen = fold_generations max_gen files; cached = some files }, ok files)

  abbrev pub cached_or : VaultState → Option FileMap → VaultState × Result IndexError FileMap
  cached_or v (some files) = (v, ok files)
  cached_or v none = remembered v (load_index_from_disk v)

  -- `cachedIndexLocked`, which is `LoadIndex` too.
  unfoldable pub load_index : VaultState → VaultState × Result IndexError FileMap
  unfolding load_index_from_disk fold_generations
  load_index v = cached_or v v.cached

  unfoldable pub reload_index : VaultState → VaultState × Result IndexError FileMap
  unfolding load_index
  reload_index v = load_index (record v { cached = none })

-- `nextGeneration`, with the addition of an int64.
unfoldable pub next_generation : ℤ → VaultState → ℤ × VaultState
unfolding increment
next_generation wall v =
    let next = increment v.max_gen in
    let g = if ltb_ℤ wall next then next else wall in (g, record v { max_gen = g })

unfoldable pub cache_key : String → String
unfolding clean_virtual_path
cache_key path = elim (clean_virtual_path path) [
  | none ↦ path
  | some cleaned ↦ if str_eq cleaned "" then path else cleaned
]

abbrev pub in_cache : (FileMap → FileMap) → Option FileMap → Option FileMap
in_cache f none = none
in_cache f (some files) = some (f files)

abbrev pub uncached : FileRecord → FileRecord
uncached rec = record rec { conflict_of = "" }

module _ (h : Host) (k : Codec) where
  -- `none` is the error, after which the vault is as it was.
  unfoldable pub commit_file_manifest : String → FileRecord → VaultState → Option VaultState
  unfolding save_file_manifest cache_key
  commit_file_manifest path rec v = elim (save_file_manifest h k path rec v.manifests) [
    | none ↦ none
    | some manifests ↦ some (record v {
      manifests = manifests;
      cached = in_cache (put (cache_key path) (uncached rec)) v.cached;
    })
  ]

  unfoldable pub commit_tombstone : String → ℤ → ℤ → Clock → VaultState → Option VaultState
  unfolding save_tombstone cache_key
  commit_tombstone path generation deleted_generation clock v =
      elim (save_tombstone h k path generation deleted_generation clock v.manifests) [
        | none ↦ none
        | some manifests ↦ some (record v {
          manifests = manifests;
          cached = in_cache (remove (cache_key path)) v.cached;
        })
      ]
