-- ===== src/Vault/Reconcile.antt =====
-- internal/vault/manifest.go: the reconciliation of all copies of one virtual path,
-- `reconcilePathCandidates`, with the pruning, the sort and the fate of the losers.
pub mod Sort
pub mod Largest
pub mod Prune
pub mod Antichain
pub mod Winner
pub mod Losers
pub mod Mixed
pub mod Tests
use Prim.Native.Nat.{Ordering}
use open_seavault_rclone.Shared.Int.{pos, ltb_ℤ, leb_ℤ, eqb_ℤ}
use open_seavault_rclone.Shared.Order.{is_gt}
use open_seavault_rclone.Shared.{
  String, Bool, true, false, not, ◌&&◌, ◌||◌, Option, none, some, List, [], ◌∷◌, ◌++◌, str_eq,
  if◌then◌else◌,
}
use open_seavault_rclone.Vault.Clock.{Clock, clock_dominates}
use open_seavault_rclone.Vault.Manifest.{
  ChunkRef, FileRecord, ManifestRecord, Candidate, PlannedConflict, Host, clock_of, clocked,
  both_clocked, unix_nano_or_now, normalize_record, conflict_path, candidate_compare,
}

unfoldable pub same_chunks : List ChunkRef → List ChunkRef → Bool
same_chunks [] [] = true
same_chunks (x ∷ xs) (y ∷ ys) = (str_eq x.id y.id && eqb_ℤ x.size y.size) && same_chunks xs ys
same_chunks _ _ = false

unfoldable pub same_file_record : FileRecord → FileRecord → Bool
unfolding same_chunks
same_file_record a b = eqb_ℤ a.size b.size && same_chunks a.chunks b.chunks

-- The loop of `isCausallyDominated`.
unfoldable pub dominated_by_some : String → Clock → List Candidate → Bool
dominated_by_some source tc [] = false
dominated_by_some source tc (c ∷ cs) =
    (not (str_eq c.source source) && (clocked c.rec && clock_dominates (clock_of c.rec) tc))
    || dominated_by_some source tc cs

unfoldable pub is_causally_dominated : Candidate → List Candidate → Bool
unfolding dominated_by_some
is_causally_dominated target cs =
    clocked target.rec && dominated_by_some target.source (clock_of target.rec) cs

-- `less(i, j)` of the sort is `is_gt (cmp x y)`. A new element moves left over the elements that it
-- is less than. The sorted prefix is held reversed. `sort.SliceStable` does this for up to twenty
-- elements; above that it merges such blocks, with the same result for a comparison that is an order.
unfoldable pub sift :
    (Candidate → Candidate → Ordering) → Candidate → List Candidate → List Candidate
sift cmp x [] = x ∷ []
sift cmp x (y ∷ ys) = let moved = y ∷ sift cmp x ys in if is_gt (cmp x y) then moved else x ∷ y ∷ ys

unfoldable pub sort_reversed :
    (Candidate → Candidate → Ordering) → List Candidate → List Candidate → List Candidate
unfolding sift
sort_reversed cmp acc [] = acc
sort_reversed cmp acc (x ∷ xs) = sort_reversed cmp (sift cmp x acc) xs

unfoldable pub reverse_onto : List Candidate → List Candidate → List Candidate
reverse_onto [] acc = acc
reverse_onto (x ∷ xs) acc = reverse_onto xs (x ∷ acc)

unfoldable pub stable_sort : (Candidate → Candidate → Ordering) → List Candidate → List Candidate
unfolding sort_reversed reverse_onto
stable_sort cmp xs = reverse_onto (sort_reversed cmp [] xs) []

-- The first loop: the undominated candidates, and the sources of the others.
unfoldable pub prune : List Candidate → List Candidate → List Candidate × List String
prune all [] = ([], [])
prune all (c ∷ cs) =
    let (kept, removed) = prune all cs in
    if is_causally_dominated c all then (kept, c.source ∷ removed) else (c ∷ kept, removed)

pub data Fate : Type 0 where
  duplicate older_tombstone suppressed in_conflict : Fate

abbrev pub bool_eq : Bool → Bool → Bool
bool_eq true b = b
bool_eq false b = not b

module _ (h : Host) where
  -- The generation test of a live loser under a tombstone.
  unfoldable pub is_suppressed : ManifestRecord → ManifestRecord → Bool
  unfolding unix_nano_or_now
  is_suppressed winner loser =
      (winner.deleted
        && (ltb_ℤ (pos 0) winner.deleted_generation && not (both_clocked winner loser)))
      && leb_ℤ
          (if eqb_ℤ loser.file.generation (pos 0)
            then unix_nano_or_now h loser.updated_at
            else loser.file.generation)
          winner.deleted_generation

  -- What the second loop makes of a loser, in the order of its tests.
  unfoldable pub fate : ManifestRecord → ManifestRecord → Fate
  fate winner loser =
      if bool_eq loser.deleted winner.deleted && same_file_record loser.file winner.file
      then duplicate
      else if loser.deleted
      then older_tombstone
      else if is_suppressed winner loser
      then suppressed
      else in_conflict

  unfoldable pub plan_conflict : String → Candidate → PlannedConflict
  unfolding normalize_record conflict_path
  plan_conflict p loser =
      let r = normalize_record h loser.rec.file loser.rec.updated_at in
      record {
        path = conflict_path h p r;
        rec = record r { conflict_of = p };
        source = loser.source;
      }

  -- One turn of the second loop, by the fate of the loser.
  unfoldable pub place :
      String
      → Candidate
      → Fate
      → List PlannedConflict × List String
      → List PlannedConflict × List String
  place p loser in_conflict (conflicts, removes) = (plan_conflict p loser ∷ conflicts, removes)
  place p loser duplicate (conflicts, removes) = (conflicts, loser.source ∷ removes)
  place p loser older_tombstone (conflicts, removes) = (conflicts, loser.source ∷ removes)
  place p loser suppressed (conflicts, removes) = (conflicts, loser.source ∷ removes)

  -- The second loop: the conflicts, and the sources to remove.
  unfoldable pub settle :
      String → ManifestRecord → List Candidate → List PlannedConflict × List String
  settle p winner [] = ([], [])
  settle p winner (loser ∷ losers) = place p loser (fate winner loser.rec) (settle p winner losers)

  unfoldable pub live_record : ManifestRecord → Option FileRecord
  unfolding normalize_record
  live_record winner =
      if winner.deleted then none else some (normalize_record h winner.file winner.updated_at)

  abbrev pub assemble :
      String
      → List Candidate
      → List String
      → Option (Option FileRecord × List PlannedConflict × List String)
  assemble p [] removed = none
  assemble p (winner ∷ losers) removed =
      let (conflicts, removes) = settle p winner.rec losers in
      some (live_record winner.rec, conflicts, removed ++ removes)

  -- `reconcilePathCandidates`: the live record, the conflicts and the sources to remove. `none` is
  -- the panic of `sorted[0]` where every candidate was pruned.
  unfoldable pub reconcile :
      String → List Candidate → Option (Option FileRecord × List PlannedConflict × List String)
  unfolding prune stable_sort is_suppressed same_file_record settle place fate plan_conflict
      live_record candidate_compare
  reconcile p [] = some (none, [], [])
  reconcile p (c ∷ cs) =
      let (antichain, removed) = prune (c ∷ cs) (c ∷ cs) in
      assemble p (stable_sort (candidate_compare h) antichain) removed
