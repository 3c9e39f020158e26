-- ===== src/Vault/Reconcile/Tests.antt =====
-- internal/vault/manifest.go: the theorems on reconciliation, at copies of one path.
use open_seavault_rclone.Shared.Dict.{get}
use open_seavault_rclone.Shared.Int.{ℤ, pos, ◌<ℤ◌}
use open_seavault_rclone.Shared.{
  String, ◌≡◌, inl, inr, refl, true, false, Option, some, none, List, [], ◌∷◌, arith, All, Elem,
  str_eq,
}
use open_seavault_rclone.Vault.Clock.{Clock, clock_dominates}
use open_seavault_rclone.Vault.Clock.Dominance.{IsClock}
use open_seavault_rclone.Vault.Clock.Advance.{}
use open_seavault_rclone.Vault.Clock.Aging.{}
use open_seavault_rclone.Vault.Manifest.{
  concurrent_tiebreak, order_generation, candidate_compare, FileRecord, Candidate, PlannedConflict,
  Host, Piece, clock_of, clocked,
}
use open_seavault_rclone.Vault.Reconcile.{reconcile, prune, stable_sort, is_causally_dominated}
use open_seavault_rclone.Vault.Reconcile.Prune.{SameCandidates}
use open_seavault_rclone.Vault.Reconcile.Antichain.{AreHonest}
use open_seavault_rclone.Vault.Reconcile.Winner.{sorted, Alike, reconcile_returns, winner_unique}
use Prim.Native.Nat.{Ordering}
use open_seavault_rclone.Vault.Reconcile.Mixed.{AreMixed, mixed_winner_by_order}
use open_seavault_rclone.Vault.Reconcile.Losers.{Outcome, no_edit_lost}

abbrev pub phone_clock : Clock
phone_clock = ("phone", pos 7) ∷ []

phone-IsClock : IsClock phone_clock
phone-IsClock = unfold get in ground arith

-- A host that formats nothing: the digest is the first chunk's id.
abbrev pub first_id : List Piece → String
first_id [] = ""
first_id (Piece.chunk i n ∷ ps) = i
first_id (p ∷ ps) = ""

abbrev pub host : Host
host = record {
  parse_time = λ t. none;
  now = pos 1000;
  digest = first_id;
  format = λ ps. "";
  utc_stamp = λ t. none;
  split = λ p. ("", p);
  join = λ d f. f;
  trim_slash = λ d. d;
  replace_marks = λ t. t;
  first_twelve = λ t. t;
}

abbrev pub copy : String → String → Clock → Candidate
copy id source clock = record {
  rec = record {
    version = pos 1;
    path = "notes";
    updated_at = "today";
    deleted = false;
    deleted_generation = pos 0;
    clock = [];
    file = record {
      size = pos 3;
      mode = 420;
      mod_time = "today";
      updated_at = "today";
      generation = pos 10;
      chunks = record { id = id; size = pos 3 } ∷ [];
      conflict_of = "";
      clock = clock;
      clock_age = [];
    };
  };
  id = id;
  name = source;
  source = source;
}

abbrev at_generation : ℤ → Candidate → Candidate
at_generation g c = record c { rec = record c.rec { file = record c.rec.file { generation = g } } }

abbrev pub old_copy : Candidate
old_copy = copy "aa" "a.manifest" phone_clock

abbrev pub desk_copy : Candidate
desk_copy = copy "bb" "b.manifest" (("laptop", pos 5) ∷ ("phone", pos 7) ∷ [])

abbrev pub tablet_copy : Candidate
tablet_copy = copy "cc" "c.manifest" (("tablet", pos 6) ∷ [])

abbrev pub copies : List Candidate
copies = old_copy ∷ desk_copy ∷ tablet_copy ∷ []

abbrev shuffled : List Candidate
shuffled = tablet_copy ∷ old_copy ∷ desk_copy ∷ []

desk-IsClock : IsClock (("laptop", pos 5) ∷ ("phone", pos 7) ∷ [])
desk-IsClock = unfold get in ground arith

tablet-IsClock : IsClock (("tablet", pos 6) ∷ [])
tablet-IsClock = unfold get in ground arith

own_file :
    (c d : Candidate) → Elem c copies → Elem d copies → str_eq c.source d.source ≡ true → c ≡ d
own_file c d (inl p) (inl q) e = cc
own_file c d (inr (inr (inr m))) n e = absurd m
own_file c d (inl p) (inr (inr (inr n))) e = absurd n
own_file c d (inr (inl p)) (inr (inr (inr n))) e = absurd n
own_file c d (inr (inr (inl p))) (inr (inr (inr n))) e = absurd n
own_file c d (inl p) (inr (inl q)) e = absurd (let f : false ≡ true = rw (p, q) at e in cc)
own_file c d (inl p) (inr (inr (inl q))) e = absurd (let f : false ≡ true = rw (p, q) at e in cc)
own_file c d (inr (inl p)) (inl q) e = absurd (let f : false ≡ true = rw (p, q) at e in cc)
own_file c d (inr (inl p)) (inr (inl q)) e = cc
own_file c d (inr (inl p)) (inr (inr (inl q))) e =
    absurd (let f : false ≡ true = rw (p, q) at e in cc)
own_file c d (inr (inr (inl p))) (inl q) e = absurd (let f : false ≡ true = rw (p, q) at e in cc)
own_file c d (inr (inr (inl p))) (inr (inl q)) e =
    absurd (let f : false ≡ true = rw (p, q) at e in cc)
own_file c d (inr (inr (inl p))) (inr (inr (inl q))) e = cc

copies-AreHonest : AreHonest copies
unfolding clock_of
copies-AreHonest = record {
  clocks = λ c m. elim m [
    | inl e ↦ rw e phone-IsClock
    | inr m ↦ elim m [
      | inl e ↦ rw e desk-IsClock
      | inr m ↦ elim m [ inl e ↦ rw e tablet-IsClock | inr m ↦ absurd m ]
    ]
  ];
  own_file = own_file;
}

shuffled-SameCandidates : SameCandidates copies shuffled
shuffled-SameCandidates c = ground arith

reconcile_returns_example :
    (r : Option FileRecord × List PlannedConflict × List String) × (reconcile host "notes" copies
      ≡ some r)
reconcile_returns_example = reconcile_returns host "notes" copies copies-AreHonest

sorted-copies : sorted host copies ≡ tablet_copy ∷ desk_copy ∷ []
unfolding prune stable_sort candidate_compare clock_of clock_dominates get is_causally_dominated
sorted-copies = refl

sorted-shuffled : sorted host shuffled ≡ tablet_copy ∷ desk_copy ∷ []
unfolding prune stable_sort candidate_compare clock_of clock_dominates get is_causally_dominated
sorted-shuffled = refl

copies-clocked : All (λ c. clocked c.rec ≡ true) copies
unfolding clock_of
copies-clocked = (refl, (refl, (refl, tt)))

winner_unique_example : Alike host tablet_copy tablet_copy
winner_unique_example =
    winner_unique host copies shuffled tablet_copy tablet_copy (desk_copy ∷ []) (desk_copy ∷ [])
      copies-AreHonest copies-clocked shuffled-SameCandidates sorted-copies sorted-shuffled

-- The tablet's copy wins, the desk's is a conflict, and the phone's was seen by the desk.
abbrev settled : Option FileRecord × List PlannedConflict × List String
settled = (
  some tablet_copy.rec.file,
  record {
    path = "notes.conflict-today-bb";
    rec = record desk_copy.rec.file { conflict_of = "notes" };
    source = "b.manifest";
  }
      ∷ [],
  "a.manifest" ∷ [],
)

reconcile-copies : reconcile host "notes" copies ≡ some settled
unfolding reconcile clock_of clock_dominates get is_causally_dominated
reconcile-copies = refl

no_edit_lost_example : Outcome host "notes" copies old_copy settled
no_edit_lost_example =
    no_edit_lost host "notes" copies old_copy settled reconcile-copies (inl refl) refl

-- The desk's copy and the tablet's are concurrent; the third is of a writer that keeps no clock.
abbrev low : Candidate
low = at_generation (pos 30) (copy "aa" "a.manifest" (("desk", pos 5) ∷ []))

abbrev high : Candidate
high = at_generation (pos 10) (copy "bb" "b.manifest" (("tablet", pos 5) ∷ []))

abbrev bare : Candidate
bare = at_generation (pos 20) (copy "cc" "c.manifest" [])

trio-AreMixed : AreMixed host low high bare
unfolding clock_of clock_dominates get
trio-AreMixed = record {
  a_clocked = refl;
  b_clocked = refl;
  c_unclocked = refl;
  not_before = refl;
  not_after = refl;
  not_itself_a = refl;
  not_itself_b = refl;
}

low_vs_high :
    (concurrent_tiebreak host high low ≡ Ordering.gt)
    × (concurrent_tiebreak host low high ≡ Ordering.lt)
unfolding concurrent_tiebreak
low_vs_high = (refl, refl)

generations_cross :
    (order_generation host high.rec <ℤ order_generation host bare.rec)
    × (order_generation host bare.rec <ℤ order_generation host low.rec)
unfolding order_generation
generations_cross = (omega arith, omega arith)

mixed_winner_by_order_example :
    (sorted host (low ∷ high ∷ bare ∷ []) ≡ high ∷ low ∷ bare ∷ [])
    × (sorted host (high ∷ bare ∷ low ∷ []) ≡ bare ∷ high ∷ low ∷ [])
mixed_winner_by_order_example =
    mixed_winner_by_order host low high bare trio-AreMixed low_vs_high.0 low_vs_high.1
      generations_cross.0 generations_cross.1
