-- ===== src/Vault/Objects/Tests.antt =====
-- internal/vault/vault.go, crypto.go and reader.go: the theorems at a file of two chunks, with an
-- AEAD that hides nothing and a digest that names the two chunks.
use open_seavault_rclone.Shared.Dict.{get, string_eq}
use open_seavault_rclone.Shared.Int.{pos}
use open_seavault_rclone.Shared.Result.{ok}
use open_seavault_rclone.Shared.{
  ℕ, String, ◌≡◌, ◌≢◌, inl, inr, refl, Bool, true, false, ◌&&◌, none, some, List, [], ◌∷◌, arith,
  All, length, ◌==◌, str_eq, eq_iff, if◌then◌else◌, Bool-cases,
}
use mathlib.Core.List.{flatten}
use mathlib.Core.Path.{ap₂}
use open_seavault_rclone.Vault.Chunker.{
  ChunkParams, validate, for_each_chunk, cut, push, gear, next_power_of_two, double_until,
}
use open_seavault_rclone.Vault.Objects.{
  is_copy_name, Bytes, Crypto, IsAead, Ref, Objects, load_chunk, store_chunk, store_all,
  write_chunks,
}
use open_seavault_rclone.Shared.Result.{Ensures}
use open_seavault_rclone.Vault.Objects.Authentic.{Belongs, load_chunk-Ensures}
use open_seavault_rclone.Vault.Objects.RoundTrip.{IsUnique, IsIntact, stored_file_reads_back}
use open_seavault_rclone.Vault.ChunkCache.{ChunkCache, new_chunk_cache, find, get_chunk}
use open_seavault_rclone.Vault.ChunkCache.Bounds.{
  IsBounded, total, got, stored, after, new_chunk_cache-IsBounded,
}
use open_seavault_rclone.Vault.Reader.{
  FileReader, chunks_pending, open_reader, new_reader, read_at, verify_chunk_presence, verify_loop,
  chunk_index_for, first_above, ends,
}
use open_seavault_rclone.Vault.Reader.Chunks.{IsServing}
use open_seavault_rclone.Vault.Reader.Reads.{Answers, read_at-Answers}
use open_seavault_rclone.Vault.Reader.Stored.{
  after_reads, with_cache, end_error, stored_file_opens_and_reads,
}
use open_seavault_rclone.Vault.Reader.Presence.{Served, verify_chunk_presence-Served}

abbrev first : Bytes
first = 7 ∷ 200 ∷ []

abbrev second : Bytes
second = 13 ∷ []

abbrev file : Bytes
file = 7 ∷ 200 ∷ 13 ∷ []

abbrev bytes_eq : Bytes → Bytes → Bool
bytes_eq [] [] = true
bytes_eq [] (y ∷ ys) = false
bytes_eq (x ∷ xs) [] = false
bytes_eq (x ∷ xs) (y ∷ ys) = (x == y) && bytes_eq xs ys

bytes_eq_lem : (xs ys : Bytes) → bytes_eq xs ys ≡ true → xs ≡ ys
bytes_eq_lem [] [] h = refl
bytes_eq_lem [] (y ∷ ys) h = absurd (ground arith)
bytes_eq_lem (x ∷ xs) [] h = absurd (ground arith)
bytes_eq_lem (x ∷ xs) (y ∷ ys) h = ap₂ ◌∷◌ (ground arith) (bytes_eq_lem xs ys (ground arith))

abbrev name_of : Bytes → String
name_of b = if bytes_eq b first then "first" else if bytes_eq b second then "second" else "other"

abbrev clear : Crypto
clear = record {
  nonce_size = 1;
  seal = λ id nonce plain. plain;
  unseal = λ id nonce ct. some ct;
  digest = name_of;
}

clear-IsAead : IsAead clear
clear-IsAead = record { unseal-seal = λ id nonce plain. refl }

distinct : (s t : String) → str_eq s t ≡ false → s ≢ t
distinct s t h e = let z = (eq_iff s t).1 e in ground arith

first-IsUnique : IsUnique clear first
first-IsUnique other h = elim (Bool-cases (bytes_eq other first)) [
  | inl y ↦ bytes_eq_lem other first y
  | inr n ↦ elim (Bool-cases (bytes_eq other second)) [
    | inl z ↦ absurd (distinct "second" "first" refl (rw (n, z) at h))
    | inr m ↦ absurd (distinct "other" "first" refl (rw (n, m) at h))
  ]
]

second-IsUnique : IsUnique clear second
second-IsUnique other h = elim (Bool-cases (bytes_eq other second)) [
  | inl y ↦ bytes_eq_lem other second y
  | inr m ↦ elim (Bool-cases (bytes_eq other first)) [
    | inl y ↦ absurd (distinct "first" "second" refl (rw y at h))
    | inr n ↦ absurd (distinct "other" "second" refl (rw (n, m) at h))
  ]
]

abbrev chunks : List Bytes
chunks = first ∷ second ∷ []

chunks-IsUnique : All (IsUnique clear) chunks
chunks-IsUnique = (first-IsUnique, (second-IsUnique, tt))

abbrev empty : Objects
empty = record { canonical = []; renamed = [] }

empty-IsIntact : IsIntact clear empty
unfolding get
empty-IsIntact = record { decodes = λ id object h. absurd (ground arith) }

abbrev pairs : ChunkParams
pairs = record { min_size = 2; avg_size = 2; max_size = 2 }

abbrev nonce : ℕ → Bytes
nonce k = 9 ∷ []

pairs_cut : for_each_chunk pairs file ≡ inr chunks
unfolding for_each_chunk validate cut push next_power_of_two double_until gear
pairs_cut = refl

nonce_fits : (k : ℕ) → length (nonce k) ≡ clear.nonce_size
nonce_fits k = refl

abbrev in_file : Ref
in_file = record { id = "first"; size = 2 }

load_chunk-Ensures_example :
    Ensures
      (Belongs clear in_file)
      (load_chunk clear (store_chunk clear empty (9 ∷ []) first).0 in_file)
load_chunk-Ensures_example =
    load_chunk-Ensures clear in_file (store_chunk clear empty (9 ∷ []) first).0

stored_file_reads_back_example :
    write_chunks clear
      (store_all clear nonce 0 empty chunks).0
      (store_all clear nonce 0 empty chunks).1
    ≡ ok file
stored_file_reads_back_example =
    stored_file_reads_back clear pairs file chunks empty nonce clear-IsAead
      (unfold validate in refl) pairs_cut nonce_fits empty-IsIntact chunks-IsUnique

new_chunk_cache-IsBounded_example :
    IsBounded (
      after (new_chunk_cache 2) (stored "second" second ∷ stored "first" first ∷ got "second" ∷ []))
new_chunk_cache-IsBounded_example =
    new_chunk_cache-IsBounded 2 (stored "second" second ∷ stored "first" first ∷ got "second" ∷ [])

abbrev one_entry : ChunkCache
one_entry = record {
  max_bytes = 2;
  cur_bytes = 1;
  entries = record { id = "second"; bytes = second } ∷ [];
}

one_entry-IsBounded : IsBounded one_entry
one_entry-IsBounded = record { counted = unfold total in refl; within = omega arith }

stored_file_opens_and_reads_example :
    let (o, refs) = store_all clear nonce 0 empty chunks in
    let (f, bytes, e) =
      read_at clear o
        (after_reads clear o
          (with_cache (some (new_chunk_cache 2)) (new_reader refs))
          ((1, 2) ∷ []))
        5
        (pos 1) in
    (open_reader o false (some refs) ≡ ok (new_reader refs))
    × (bytes ≡ 200 ∷ 13 ∷ [])
    × (e ≡ end_error file 5 1)
stored_file_opens_and_reads_example =
    stored_file_opens_and_reads clear pairs file chunks empty nonce false (some (new_chunk_cache 2))
      ((1, 2) ∷ []) 5 1 clear-IsAead (unfold validate in refl) pairs_cut nonce_fits empty-IsIntact
      chunks-IsUnique (unfold new_chunk_cache in tt)

abbrev reader : FileReader
reader = record {
  refs = in_file ∷ record { id = "second"; size = 1 } ∷ [];
  offsets = 0 ∷ 2 ∷ 3 ∷ [];
  size = 3;
  cached = none;
  closed = false;
  shared = some one_entry;
}

reader-IsServing : IsServing clear chunks reader
unfolding ends
reader-IsServing = record {
  refs = refl;
  offsets = refl;
  size = unfold flatten in refl;
  open_now = refl;
  cached = tt;
  shared = (refl, tt);
}

read_at-Answers_example :
    Answers clear empty chunks chunks-IsUnique 1 2 (read_at clear empty reader 1 (pos 2))
read_at-Answers_example =
    read_at-Answers clear empty chunks chunks-IsUnique reader 1 2 reader-IsServing

verify_chunk_presence-Served_example :
    Served empty (some one_entry) (record { id = "second"; size = 1 })
unfolding verify_chunk_presence verify_loop chunk_index_for first_above get_chunk find
verify_chunk_presence-Served_example =
    verify_chunk_presence-Served empty reader (pos 2) (pos 1) 2 (record { id = "second"; size = 1 })
      (omega arith) refl (omega arith) (omega arith) (omega arith) refl

-- A renamed copy is tried, the canonical name and another object's copy are not.
copy_names :
    ((is_copy_name "ab" "ab (conflicted copy).CHUNK" ≡ true)
      × (is_copy_name "ab" "ab.chunk" ≡ false)
      × (is_copy_name "ab" "cb.sync-conflict.chunk" ≡ false))
unfolding is_copy_name
copy_names = (refl, refl, refl)

-- Where the end of the range wraps, no chunk is looked at: the one object that is missing here is not
-- noticed.
wrapped_range :
    (verify_chunk_presence empty
      (record reader { shared = none })
      (pos 2)
      (pos 9223372036854775807)).1
    ≡ none
unfolding verify_chunk_presence verify_loop chunk_index_for first_above get
wrapped_range = refl

right_range :
    (verify_chunk_presence empty (record reader { shared = none }) (pos 2) (pos 1)).1
    ≡ some chunks_pending
unfolding verify_chunk_presence verify_loop chunk_index_for first_above get
right_range = refl
