-- ===== src/Vault/Manifest.antt =====
-- internal/vault/manifest.go and index.go: the records of a manifest; the clocks, keys, names and
-- normalized form that reconciliation reads; the comparison of two copies, `candidateCompare`.
-- `Host` stands for what the standard library computes there: `time.Parse` of an RFC 3339 text, as
-- the instant in nanoseconds that `UnixNano` returns and as the compact UTC stamp; one reading of
-- `time.Now`; the text that `fmt.Fprintf` makes of values and its SHA-256 in hexadecimal; `Split`
-- and `Join` of package path; the trimming of one final slash, the replacement of the marks
-- : / \ . in a stamp, and the first twelve characters of a text.
pub mod Order
use Prim.Native.Nat.{Ordering}
use Prim.Native.String.{compare as compare_text, ◌++◌ as append}
use open_seavault_rclone.Shared.Dict.{Dict}
use open_seavault_rclone.Shared.Int.{ℤ, pos, compare_ℤ, eqb_ℤ}
use open_seavault_rclone.Shared.Order.{compare_bool, or_else, is_gt}
use open_seavault_rclone.Shared.{
  ℕ, String, Bool, not, ◌&&◌, Option, none, some, List, [], ◌∷◌, ◌++◌, map, str_eq, if◌then◌else◌,
}
use open_seavault_rclone.Vault.Clock.{Clock, is_empty, clock_dominates}

pub record ChunkRef : Type 0 where
  pub id : String
  pub size : ℤ

pub record FileRecord : Type 0 where
  pub size : ℤ
  pub mode : ℕ
  pub mod_time : String
  pub updated_at : String
  pub generation : ℤ
  pub chunks : List ChunkRef
  pub conflict_of : String
  pub clock : Clock
  pub clock_age : Dict String ℕ

pub record ManifestRecord : Type 0 where
  pub version : ℤ
  pub path : String
  pub updated_at : String
  pub deleted : Bool
  pub deleted_generation : ℤ
  pub clock : Clock
  pub file : FileRecord

pub record Candidate : Type 0 where
  pub rec : ManifestRecord
  pub id : String
  pub name : String
  pub source : String

pub record PlannedConflict : Type 0 where
  pub path : String
  pub rec : FileRecord
  pub source : String

-- The values that are formatted, or written to the hash.
pub data Piece : Type 0 where
  chunk : String → ℤ → Piece
  gen : ℤ → Piece
  updated : String → Piece
  was_deleted : Bool → Piece
  clock_entry : String → ℤ → Piece

pub record Host : Type 0 where
  pub parse_time : String → Option ℤ
  pub now : ℤ
  pub digest : List Piece → String
  pub format : List Piece → String
  pub utc_stamp : String → Option String
  pub split : String → String × String
  pub join : String → String → String
  pub trim_slash : String → String
  pub replace_marks : String → String
  pub first_twelve : String → String

unfoldable pub clock_of : ManifestRecord → Clock
clock_of r = if is_empty r.file.clock then r.clock else r.file.clock

abbrev pub clocked : ManifestRecord → Bool
clocked r = not (is_empty (clock_of r))

abbrev pub both_clocked : ManifestRecord → ManifestRecord → Bool
both_clocked a b = clocked a && clocked b

-- `sort.Strings(keys)`, on the entries that the keys lead to.
unfoldable pub insert_entry : String × ℤ → Clock → Clock
insert_entry e [] = e ∷ []
insert_entry e (f ∷ c) =
    let further = f ∷ insert_entry e c in
    if is_gt (compare_text e.0 f.0) then further else e ∷ f ∷ c

unfoldable pub sort_entries : Clock → Clock
unfolding insert_entry
sort_entries [] = []
sort_entries (e ∷ c) = insert_entry e (sort_entries c)

module _ (h : Host) where
  unfoldable pub unix_nano_or_now : String → ℤ
  unix_nano_or_now ts = elim (h.parse_time ts) [ none ↦ h.now | some t ↦ t ]

  unfoldable pub normalize_record : FileRecord → String → FileRecord
  unfolding unix_nano_or_now
  normalize_record r updated_at =
      let stamp = if str_eq r.updated_at "" then updated_at else r.updated_at in
      record r {
        updated_at = stamp;
        generation = if eqb_ℤ r.generation (pos 0) then unix_nano_or_now stamp else r.generation;
      }

  abbrev pub chunk_pieces : List ChunkRef → List Piece
  chunk_pieces = map (λ c. chunk c.id c.size)

  unfoldable pub content_key : ManifestRecord → String
  content_key r = h.digest (
      chunk_pieces r.file.chunks
      ++ gen r.file.generation ∷ updated r.file.updated_at ∷ was_deleted r.deleted ∷ [])

  unfoldable pub conflict_suffix : FileRecord → String
  conflict_suffix r =
      let stamp : String = elim (h.utc_stamp r.updated_at) [ none ↦ r.updated_at | some t ↦ t ] in
      let hash = h.digest (chunk_pieces r.chunks ++ gen r.generation ∷ updated r.updated_at ∷ []) in
      append "conflict-" (append (h.replace_marks stamp) (append "-" (h.first_twelve hash)))

  unfoldable pub conflict_path : String → FileRecord → String
  unfolding conflict_suffix
  conflict_path original r =
      let (dir, base) = h.split original in
      let file : String = if str_eq base "" then "conflict" else base in
      h.join (h.trim_slash dir) (append file (append "." (conflict_suffix r)))

  unfoldable pub clock_string : Clock → String
  unfolding sort_entries
  clock_string c =
      if is_empty c then "" else h.format (map (λ e. clock_entry e.0 e.1) (sort_entries c))

  unfoldable pub concurrent_tiebreak : Candidate → Candidate → Ordering
  unfolding content_key clock_string
  concurrent_tiebreak a b = or_else (compare_bool a.rec.deleted b.rec.deleted) (
      or_else (compare_text (content_key a.rec) (content_key b.rec))
        (compare_text (clock_string (clock_of a.rec)) (clock_string (clock_of b.rec))))

  -- A tombstone without a generation is ordered by its time.
  unfoldable pub order_generation : ManifestRecord → ℤ
  unfolding unix_nano_or_now
  order_generation r =
      if r.deleted && eqb_ℤ r.file.generation (pos 0)
      then unix_nano_or_now r.updated_at
      else r.file.generation

  -- Decided by the instants if both texts parse to different ones.
  abbrev pub compare_times : Option ℤ → Option ℤ → Ordering
  compare_times (some a) (some b) = compare_ℤ a b
  compare_times (some a) none = Ordering.eq
  compare_times none b = Ordering.eq

  unfoldable pub generation_compare : Candidate → Candidate → Ordering
  unfolding order_generation
  generation_compare a b = or_else (compare_ℤ (order_generation a.rec) (order_generation b.rec)) (
      or_else (compare_times (h.parse_time a.rec.updated_at) (h.parse_time b.rec.updated_at)) (
        or_else (compare_text a.rec.updated_at b.rec.updated_at)
          (or_else (compare_bool a.rec.deleted b.rec.deleted) (compare_text a.id b.id))))

  unfoldable pub candidate_compare : Candidate → Candidate → Ordering
  unfolding concurrent_tiebreak generation_compare
  candidate_compare a b =
      if both_clocked a.rec b.rec
      then if clock_dominates (clock_of a.rec) (clock_of b.rec)
        then Ordering.gt
        else if clock_dominates (clock_of b.rec) (clock_of a.rec)
        then Ordering.lt
        else concurrent_tiebreak a b
      else generation_compare a b
