-- ===== src/Vault/Gc.antt =====
-- internal/vault/gc.go: the two phases of `gcConfirm` and what they read. A directory maps paths
-- to files. A file of chunks or intents carries the chunk id that its name spells; files whose
-- name spells none are left out. A time is a number of nanoseconds, or `none` where
-- `parseSeenTime` reads none. All turns of a phase share one reading of the clock. The model
-- follows a run in which no file operation fails; one that fails stops the run after some of
-- these turns. The report's lists are in the order of the loops, before they are sorted.
pub mod Removal
pub mod Gate
pub mod Fences
pub mod Folding
mod Tests
use Prim.Native.String.{◌++◌ as append}
use open_seavault_rclone.Shared.Dict.{Dict, get, put, remove, string_eq}
use open_seavault_rclone.Shared.{
  ℕ, ◌+◌, ◌-◌, ◌*◌, ◌%◌, String, Bool, true, false, not, Option, none, some, List, [], ◌∷◌, ltb,
  ◌==◌, str_eq, if◌then◌else◌, max,
}

pub record ChunkFile : Type 0 where
  pub id : String
  pub size : ℕ
  pub mtime : ℕ

pub record IntentFile : Type 0 where
  pub id : String
  pub time : Option ℕ

pub record LogicalIntent : Type 0 where
  pub files : List String
  pub recorded : Option ℕ

-- What is on the disk, and this device's record of first sightings.
pub record Store : Type 0 where
  pub chunks : Dict String ChunkFile
  pub intents : Dict String IntentFile
  pub seen : Dict String (Option ℕ)

-- The lists and the byte count of the report that the two phases fill.
pub record Report : Type 0 where
  pub candidates : List String
  pub written : List String
  pub cancelled : List String
  pub reaped : List String
  pub removed : List String
  pub removed_bytes : ℕ

-- live[id]
unfoldable pub mem : String → List String → Bool
mem id [] = false
mem id (x ∷ xs) = let rest = mem id xs in if str_eq x id then true else rest

-- `walkChunkFiles`, at one id.
unfoldable pub copies : String → Dict String ChunkFile → Dict String ChunkFile
copies id [] = []
copies id ((p, f) ∷ m) = let rest = copies id m in if str_eq f.id id then (p, f) ∷ rest else rest

unfoldable pub total_size : Dict String ChunkFile → ℕ
total_size [] = 0
total_size ((p, f) ∷ m) = f.size + total_size m

unfoldable pub newest_mtime : Dict String ChunkFile → ℕ
newest_mtime [] = 0
newest_mtime ((p, f) ∷ m) = max f.mtime (newest_mtime m)

-- The older of two recorded times, where there are any.
abbrev pub oldest : Option ℕ → Option ℕ → Option ℕ
oldest none b = b
oldest (some a) none = some a
oldest (some a) (some b) = if ltb a b then some a else some b

unfoldable pub add_intent :
    String → IntentFile → Dict String LogicalIntent → Dict String LogicalIntent
add_intent p f out = elim (get f.id out) [
  | none ↦ put f.id (record { files = p ∷ []; recorded = f.time }) out
  | some li ↦ put f.id (record { files = p ∷ li.files; recorded = oldest f.time li.recorded }) out
]

-- `walkIntents`: the files of one id become one intent, with the oldest of their times.
unfoldable pub walk_intents : Dict String IntentFile → Dict String LogicalIntent
unfolding add_intent
walk_intents [] = []
walk_intents ((p, f) ∷ m) = add_intent p f (walk_intents m)

-- `removeChunkFiles` and `removeIntentFiles`
unfoldable pub remove_files {ℓ} : {A : Type ℓ} → List String → Dict String A → Dict String A
remove_files [] m = m
remove_files (p ∷ ps) m = remove_files ps (remove p m)

unfoldable pub paths {ℓ} : {A : Type ℓ} → Dict String A → List String
paths [] = []
paths ((p, f) ∷ m) = p ∷ paths m

-- Times are written as RFC 3339, to the second.
abbrev pub to_second : ℕ → ℕ
to_second now = now - now % 1000000000

-- `removeIntentFiles(li)` and `delete(seen, id)`
unfoldable pub drop_intent : String → LogicalIntent → Store → Store
unfolding remove_files
drop_intent id li s = record s {
  intents = remove_files li.files s.intents;
  seen = remove id s.seen;
}

unfoldable pub note_seen : String → ℕ → Store → Store
note_seen id now s = elim (get id s.seen) [
  | none ↦ record s { seen = put id (some (to_second now)) s.seen }
  | some _ ↦ s
]

abbrev pub is_nil {ℓ} : {A : Type ℓ} → List A → Bool
is_nil [] = true
is_nil (x ∷ xs) = false

-- One turn of phase 1 over the intents.
unfoldable pub review : List String → ℕ → String → LogicalIntent → Store × Report → Store × Report
unfolding drop_intent note_seen
review live now id li (s, r) =
    if mem id live
    then (drop_intent id li s, record r { cancelled = id ∷ r.cancelled })
    else if is_nil (copies id s.chunks)
    then (drop_intent id li s, record r { reaped = id ∷ r.reaped })
    else (note_seen id now s, r)

unfoldable pub review_all :
    List String → ℕ → Dict String LogicalIntent → Store × Report → Store × Report
unfolding review
review_all live now [] sr = sr
review_all live now ((id, li) ∷ m) sr = review_all live now m (review live now id li sr)

-- One turn of phase 1 over the ids of the chunks. The intent's file is named after the id.
unfoldable pub mark :
    List String → Dict String LogicalIntent → ℕ → String → Store × Report → Store × Report
mark live intents now id (s, r) =
    let listed = record r { candidates = id ∷ r.candidates } in
    if mem id live then (s, r) else elim (get id intents) [
      | some _ ↦ (s, listed)
      | none ↦ (
        record s {
          intents =
              put (append id ".intent") (record { id = id; time = some (to_second now) }) s.intents;
        },
        record listed { written = id ∷ r.written },
      )
    ]

-- The ids of the chunks, each once.
unfoldable pub chunk_ids : Dict String ChunkFile → List String
chunk_ids [] = []
chunk_ids ((p, f) ∷ m) = let rest = chunk_ids m in if mem f.id rest then rest else f.id ∷ rest

unfoldable pub mark_all :
    List String → Dict String LogicalIntent → ℕ → List String → Store × Report → Store × Report
unfolding mark
mark_all live intents now [] sr = sr
mark_all live intents now (id ∷ ids) sr =
    mark_all live intents now ids (mark live intents now id sr)

-- `t.Sub(since) >= fence`
abbrev pub is_past : ℕ → ℕ → Option ℕ → Bool
is_past fence t none = false
is_past fence t (some since) = if ltb t (since + fence) then false else true

-- One turn of phase 2, over the chunks as the phase found them.
unfoldable pub collect :
    List String
    → ℕ
    → ℕ
    → Dict String ChunkFile
    → String
    → LogicalIntent
    → Store × Report
    → Store × Report
unfolding drop_intent newest_mtime total_size copies
collect live fence t chunks id li (s, r) =
    let files = copies id chunks in
    let first_seen : Option ℕ = elim (get id s.seen) [ none ↦ none | some time ↦ time ] in
    if is_nil files
    then (s, r)
    else if mem id live
    then (drop_intent id li s, record r { cancelled = id ∷ r.cancelled })
    else if not (is_past fence t li.recorded)
    then (s, r)
    else if not (is_past fence t first_seen)
    then (s, r)
    else if not (is_past fence t (some (newest_mtime files)))
    then (s, r)
    else (
      drop_intent id li (record s { chunks = remove_files (paths files) s.chunks }),
      record r { removed = id ∷ r.removed; removed_bytes = r.removed_bytes + total_size files },
    )

unfoldable pub collect_all :
    List String
    → ℕ
    → ℕ
    → Dict String ChunkFile
    → Dict String LogicalIntent
    → Store × Report
    → Store × Report
unfolding collect
collect_all live fence t chunks [] sr = sr
collect_all live fence t chunks ((id, li) ∷ m) sr =
    collect_all live fence t chunks m (collect live fence t chunks id li sr)

abbrev pub empty_report : Report
empty_report = record {
  candidates = [];
  written = [];
  cancelled = [];
  reaped = [];
  removed = [];
  removed_bytes = 0;
}

unfoldable pub phase1 : List String → ℕ → Store → Store × Report
unfolding walk_intents review_all mark_all chunk_ids
phase1 live now s =
    let intents = walk_intents s.intents in
    mark_all live intents now (chunk_ids s.chunks) (review_all live now intents (s, empty_report))

unfoldable pub phase2 : List String → ℕ → ℕ → Store × Report → Store × Report
unfolding walk_intents collect_all
phase2 live fence t (s, r) = collect_all live fence t s.chunks (walk_intents s.intents) (s, r)

abbrev pub live_ids : List String → Option (List String) → List String
live_ids live none = live
live_ids live (some ids) = ids

-- `gcConfirm` after the compaction. The live ids of phase 2 are those of phase 1 unless the
-- fingerprint of the manifests has changed, when `reloaded` holds the ids of the reloaded index.
unfoldable pub confirm : List String → Option (List String) → ℕ → ℕ → ℕ → Store → Store × Report
unfolding phase1 phase2
confirm live reloaded fence now t s = phase2 (live_ids live reloaded) fence t (phase1 live now s)

abbrev hour : ℕ
hour = 3600000000000

-- The fence of a run: by default 72 hours, and at least one.
unfoldable pub effective_fence : ℕ → ℕ
effective_fence fence = if fence == 0 then 72 * hour else if ltb fence hour then hour else fence
