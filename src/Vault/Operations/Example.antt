-- ===== src/Vault/Operations/Example.antt =====
-- A vault with one other file on the disk, with the records, the codec and the facts about them that
-- the theorems on the operations of internal/vault are tried at.
use Prim.Native.String.{String, ◌++◌ as append}
use open_seavault_rclone.Shared.Dict.{get, string_eq, Distinct}
use open_seavault_rclone.Shared.Int.{ℤ, pos}
use open_seavault_rclone.Shared.{
  ℕ, refl, inr, Bool, true, false, Option, none, some, List, [], ◌∷◌, ◌++◌, arith, str_eq, ◌==◌,
  if◌then◌else◌,
}
use open_seavault_rclone.Vault.Clock.Dominance.{IsClock}
use open_seavault_rclone.Vault.Index.{LegacyCodec, VaultState}
use open_seavault_rclone.Vault.Index.Coherent.{IsWritten}
use open_seavault_rclone.Vault.Manifest.{
  ChunkRef, FileRecord, ManifestRecord, Candidate, Host, clock_of,
}
use open_seavault_rclone.Vault.Objects.{Bytes, after_prefix}
use open_seavault_rclone.Vault.Objects.RoundTrip.{after_prefix-append}
use open_seavault_rclone.Vault.Operations.{DeviceClock, Attributes, LegacyWriter}
use open_seavault_rclone.Vault.Path.{clean_virtual_path}
use open_seavault_rclone.Vault.Path.Content.{codes}
use open_seavault_rclone.Vault.Store.Load.{visit, group_path}
use open_seavault_rclone.Vault.Store.{
  Codec, StoredFile, Files, stored_file, completed, live_manifest, tombstone, manifest_id,
  manifest_path,
}
use open_seavault_rclone.Vault.Store.Name.{IsId}
use open_seavault_rclone.Vault.Store.Reload.{IsStable, IsReady}
use open_seavault_rclone.Vault.Store.Saved.{IsCodec}
use open_seavault_rclone.Vault.Store.Sound.{AreSound}

abbrev pub host : Host
host = record {
  parse_time = λ t. none;
  now = pos 1000;
  digest = λ ps. "digest";
  format = λ ps. "clock";
  utc_stamp = λ t. none;
  split = λ p. ("", p);
  join = λ d f. f;
  trim_slash = λ d. d;
  replace_marks = λ t. t;
  first_twelve = λ t. t;
}

abbrev pub notes_id : String
notes_id = "aaaaaaaaaaaaaaaaaaaaaaaaaaaaaaaaaaaaaaaaaaaaaaaaaaaaaaaaaaaaaaaa"

abbrev pub other_id : String
other_id = "bbbbbbbbbbbbbbbbbbbbbbbbbbbbbbbbbbbbbbbbbbbbbbbbbbbbbbbbbbbbbbbb"

abbrev pub hmac : String → String
hmac text = if str_eq text "manifest:content/notes" then notes_id else other_id

pub hmac-IsId : (text : String) → IsId (hmac text)
hmac-IsId text = by_text (str_eq text "manifest:content/notes")
  where
    by_text : (b : Bool) → IsId (if b then notes_id else other_id)
    by_text true = record { digits = refl; size = refl }
    by_text false = record { digits = refl; size = refl }

abbrev pub other_record : ManifestRecord
other_record = record {
  version = pos 1;
  path = "content/other";
  updated_at = "earlier";
  deleted = false;
  deleted_generation = pos 0;
  clock = [];
  file = record {
    size = pos 3;
    mode = 384;
    mod_time = "earlier";
    updated_at = "earlier";
    generation = pos 7;
    chunks = [];
    conflict_of = "";
    clock = [];
    clock_age = [];
  };
}

abbrev pub laptop : DeviceClock
laptop = record { id = "laptop"; wall = pos 1000 }

abbrev pub notes_attributes : Attributes
notes_attributes = record { size = pos 5; mode = 0; mod_time = none }

abbrev pub notes_chunks : List ChunkRef × ℤ
notes_chunks = (record { id = "chunk"; size = pos 5 } ∷ [], pos 5)

-- The JSON of the three records that are written here is a number each.
abbrev pub marshal : ManifestRecord → Bytes
marshal m = if m.deleted then 2 ∷ [] else if str_eq m.path "content/other" then 3 ∷ [] else 1 ∷ []

abbrev pub new_notes : FileRecord
new_notes = record {
  size = pos 5;
  mode = 384;
  mod_time = "today";
  updated_at = "today";
  generation = pos 1000;
  chunks = record { id = "chunk"; size = pos 5 } ∷ [];
  conflict_of = "";
  clock = ("laptop", pos 1001) ∷ [];
  clock_age = [];
}

abbrev pub notes_record : ManifestRecord
notes_record = record {
  version = pos 1;
  path = "content/notes";
  updated_at = "today";
  deleted = false;
  deleted_generation = pos 0;
  clock = ("laptop", pos 1001) ∷ [];
  file = new_notes;
}

abbrev pub deleted_notes : ManifestRecord
deleted_notes = record {
  version = pos 1;
  path = "content/notes";
  updated_at = "today";
  deleted = true;
  deleted_generation = pos 1000;
  clock = ("laptop", pos 1002) ∷ [];
  file = record {
    size = pos 0;
    mode = 0;
    mod_time = "";
    updated_at = "today";
    generation = pos 1001;
    chunks = [];
    conflict_of = "";
    clock = ("laptop", pos 1002) ∷ [];
    clock_age = [];
  };
}

abbrev pub unmarshal_number : ℕ → Option ManifestRecord
unmarshal_number n =
    if n == 1
    then some notes_record
    else if n == 2
    then some deleted_notes
    else if n == 3
    then some other_record
    else none

abbrev pub unmarshal : Bytes → Option ManifestRecord
unmarshal [] = none
unmarshal (n ∷ ns) = unmarshal_number n

-- The seal is the id in front of the text.
abbrev pub codec : Codec
codec = record {
  nonce_size = 2;
  nonce = 7 ∷ 8 ∷ [];
  seal = λ id nonce plain. codes id ++ plain;
  unseal = λ id nonce ct. after_prefix (codes id) ct;
  marshal = marshal;
  unmarshal = unmarshal;
  hmac_hex = hmac;
  now_stamp = "today";
}

abbrev pub no_legacy : LegacyCodec
no_legacy = record { nonce_size = 2; unseal = λ n c. none; unmarshal = λ b. none }

abbrev pub no_writer : LegacyWriter
no_writer = record { nonce = []; seal = λ n b. b; marshal = λ f. [] }

abbrev pub other_file : StoredFile
other_file = stored_file codec other_id other_record

abbrev pub store : Files
store = ("bb/other", other_file) ∷ ("readme.txt", record { name = "readme.txt"; bytes = [] }) ∷ []

abbrev pub vault : VaultState
vault = record {
  version = pos 2;
  manifest_mode = "sharded";
  manifests = store;
  legacy = none;
  cached = some [];
  max_gen = pos 7;
}

pub notes-IsStable : IsStable "content/notes"
notes-IsStable = record { cleaned = unfold clean_virtual_path in refl; not_empty = refl }

abbrev pub other_copy : Candidate
other_copy = record {
  rec = other_record;
  id = other_id;
  name = append other_id ".manifest";
  source = "bb/other";
}

pub deletion-IsClock : IsClock (("laptop", pos 1002) ∷ [])
unfolding get
deletion-IsClock = record { distinct = (refl, tt); nonneg = (omega arith, tt) }

pub store-Distinct : Distinct store
unfolding get
store-Distinct = (refl, (refl, tt))

pub store-AreSound : AreSound codec store
unfolding visit stored_file clock_of get
store-AreSound = (record { distinct = tt; nonneg = tt }, (tt, tt))

pub store-IsReady : IsReady codec "content/notes" store
unfolding visit group_path stored_file manifest_path manifest_id clock_of get
store-IsReady = record {
  distinct = store-Distinct;
  sound = store-AreSound;
  alone = (inr refl, (inr refl, tt));
}

pub new_notes-IsWritten : IsWritten new_notes
unfolding get
new_notes-IsWritten = record {
  stamped = refl;
  ordered = refl;
  clock = record { distinct = (refl, tt); nonneg = (omega arith, tt) };
}

-- The record that is written for the put.
pub notes-IsCodec :
    IsCodec codec
      (completed host codec "content/notes" (live_manifest host codec "content/notes" new_notes))
unfolding completed live_manifest
notes-IsCodec = record {
  unseal-seal = λ id nonce plain. after_prefix-append (codes id) plain;
  unmarshal-marshal = refl;
  ids = hmac-IsId;
  drawn = refl;
}

pub deleted-IsCodec : IsCodec codec (
    completed host codec "content/notes"
      (tombstone host codec "content/notes" (pos 1001) (pos 1000) (("laptop", pos 1002) ∷ [])))
unfolding completed tombstone
deleted-IsCodec = record {
  unseal-seal = λ id nonce plain. after_prefix-append (codes id) plain;
  unmarshal-marshal = refl;
  ids = hmac-IsId;
  drawn = refl;
}
