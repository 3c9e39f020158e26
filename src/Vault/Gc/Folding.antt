-- ===== src/Vault/Gc/Folding.antt =====
-- internal/vault/gc.go: `walkIntents` folds all files of a chunk id into one intent.
use open_seavault_rclone.Shared.Dict.{Dict, get, string_eq, get-put}
use open_seavault_rclone.Shared.{
  ap, ◌∙◌, ℕ, ◌≤◌, String, ◌≡◌, inl, inr, refl, Option, none, some, [], ◌∷◌, arith, Elem,
  Bool-cases, Option-cases, str_eq, eq_iff, if◌then◌else◌, ltb,
}
use text.Mathlib.TextPositions.{eq_refl}
use open_seavault_rclone.Vault.Gc.{IntentFile, LogicalIntent, oldest, add_intent, walk_intents}

-- The first time is not later than the second, where there is a second.
abbrev pub NotLater : Option ℕ → Option ℕ → Type 0
NotLater o none = Unit
NotLater none (some x) = ⊥
NotLater (some r) (some x) = r ≤ x

oldest-NotLater : (a b c : Option ℕ) → NotLater b c → NotLater (oldest a b) c
oldest-NotLater a b none h = tt
oldest-NotLater a none (some x) h = absurd h
oldest-NotLater none (some y) (some x) h = h
oldest-NotLater (some z) (some y) (some x) h = elim (Bool-cases (ltb z y)) [
  | inl l ↦ rw l (ground arith)
  | inr n ↦ rw n h
]

oldest_first : (a b : Option ℕ) → NotLater (oldest a b) a
oldest_first none b = tt
oldest_first (some z) none = omega arith
oldest_first (some z) (some y) = elim (Bool-cases (ltb z y)) [
  | inl l ↦ rw l (omega arith)
  | inr n ↦ rw n (ground arith)
]

-- What the fold holds for a file of the directory.
pub record IsFolded (p : String) (f : IntentFile) (out : Dict String LogicalIntent)
    (li : LogicalIntent) : Type 0 where
  pub found : get f.id out ≡ some li
  pub listed : Elem p li.files
  pub not_later : NotLater li.recorded f.time

NotLater-refl : (o : Option ℕ) → NotLater o o
NotLater-refl none = tt
NotLater-refl (some x) = omega arith

-- What the fold writes for a file, beside what it holds for the id already.
abbrev joined : String → IntentFile → Option LogicalIntent → LogicalIntent
joined p f none = record { files = p ∷ []; recorded = f.time }
joined p f (some li) = record { files = p ∷ li.files; recorded = oldest f.time li.recorded }

get-add_intent :
    (p : String) (f : IntentFile) (out : Dict String LogicalIntent) (k : String)
    → get k (add_intent p f out)
      ≡ (if str_eq f.id k then some (joined p f (get f.id out)) else get k out)
unfolding add_intent
get-add_intent p f out k = elim (Option-cases (get f.id out)) [
  | inl a ↦ rw (a, add_intent) (get-put f.id k (joined p f none) out)
  | inr a ↦ rw (a.1, add_intent) (get-put f.id k (joined p f (some a.0)) out)
]

joined-IsFolded :
    (p : String) (f : IntentFile) (o : Option LogicalIntent)
    → Elem p (joined p f o).files × NotLater (joined p f o).recorded f.time
joined-IsFolded p f none = (inl refl, NotLater-refl f.time)
joined-IsFolded p f (some li) = (inl refl, oldest_first f.time li.recorded)

added :
    (p : String) (f : IntentFile) (out : Dict String LogicalIntent)
    → (li : LogicalIntent) × IsFolded p f (add_intent p f out) li
added p f out =
    let j = joined-IsFolded p f (get f.id out) in
    (
      joined p f (get f.id out),
      record {
        found = get-add_intent p f out f.id ∙ rw (eq_refl f.id) refl;
        listed = j.0;
        not_later = j.1;
      },
    )

kept :
    (p q : String) (f g : IntentFile) (out : Dict String LogicalIntent) (li : LogicalIntent)
    → IsFolded p f out li
    → (li' : LogicalIntent) × IsFolded p f (add_intent q g out) li'
kept p q f g out li h = elim (Bool-cases (str_eq g.id f.id)) [
  | inl same ↦
      let there : get g.id out ≡ some li = rw ((eq_iff g.id f.id).0 same) h.found in
      (
        joined q g (some li),
        record {
          found = get-add_intent q g out f.id ∙ rw (same, there) refl;
          listed = inr h.listed;
          not_later = oldest-NotLater g.time li.recorded f.time h.not_later;
        },
      )
  | inr other ↦ (
    li,
    record {
      found = get-add_intent q g out f.id ∙ rw other h.found;
      listed = h.listed;
      not_later = h.not_later;
    },
  )
]

-- Every file of the intents' directory is in the one intent of its chunk id, and the time of that
-- intent is not later than the time that the file records.
pub walk_intents-IsFolded :
    (m : Dict String IntentFile) (p : String) (f : IntentFile)
    → Elem (p, f) m
    → (li : LogicalIntent) × IsFolded p f (walk_intents m) li
unfolding walk_intents
walk_intents-IsFolded [] p f e = absurd e
walk_intents-IsFolded ((q, g) ∷ m) p f (inl e) =
    let named : (p ≡ q) × (f ≡ g) =
      (ap (λ (x : String × IntentFile). x.0) e, ap (λ (x : String × IntentFile). x.1) e) in
    rw (named.0, named.1) (added q g (walk_intents m))
walk_intents-IsFolded ((q, g) ∷ m) p f (inr e) =
    let t = walk_intents-IsFolded m p f e in kept p q f g (walk_intents m) t.0 t.1
