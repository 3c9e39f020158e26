-- ===== src/Vault/Gc/Fences.antt =====
-- internal/vault/gc.go: phase 1 removes no chunk, and a whole run removes one only past its fences.
use open_seavault_rclone.Shared.Dict.{Dict, get, string_eq, get-remove, get-put, Distinct}
use open_seavault_rclone.Shared.{
  ℕ, ◌+◌, ◌≤◌, ◌<◌, String, ◌≡◌, ◌⊎◌, inl, inr, refl, ◌∙◌, Option, none, some, List, [], ◌∷◌, arith,
}
use open_seavault_rclone.Vault.Gc.{
  ChunkFile, LogicalIntent, Store, Report, to_second, walk_intents, drop_intent, note_seen, review,
  review_all, mark, mark_all, phase1, phase2, confirm, chunk_ids, empty_report, live_ids,
}
use open_seavault_rclone.Vault.Gc.Removal.{HasExpired, collect_all_removes}

module _ (live : List String) (now : ℕ) where
  -- What phase 1 may do to the chunks and to the record of a first sighting.
  pub record Reviewed (before after : Store) : Type 0 where
    pub same_chunks : after.chunks ≡ before.chunks
    pub no_old_sighting :
        (k : String) (x : Option ℕ)
        → get k after.seen ≡ some x
        → (get k before.seen ≡ some x) ⊎ (x ≡ some (to_second now))

  review-Reviewed :
      (id : String) (li : LogicalIntent) (s : Store) (r : Report)
      → Reviewed s (review live now id li (s, r)).0
  unfolding review drop_intent note_seen
  review-Reviewed id li s r = record {
    same_chunks = ground arith;
    no_old_sighting =
        λ k x h. ground (arith, get-remove id k s.seen, get-put id k (some (to_second now)) s.seen);
  }

  Reviewed-trans : (a b c : Store) → Reviewed a b → Reviewed b c → Reviewed a c
  Reviewed-trans a b c p q = record {
    same_chunks = q.same_chunks ∙ p.same_chunks;
    no_old_sighting =
        λ k x h. elim (q.no_old_sighting k x h) [ inl e ↦ p.no_old_sighting k x e | inr e ↦ inr e ];
  }

  review_all-Reviewed :
      (m : Dict String LogicalIntent) (s : Store) (r : Report)
      → Reviewed s (review_all live now m (s, r)).0
  unfolding review_all
  review_all-Reviewed [] s r = record { same_chunks = refl; no_old_sighting = λ k x h. inl h }
  review_all-Reviewed ((id, li) ∷ m) s r =
      let next = review live now id li (s, r) in
      Reviewed-trans _ _ _ (review-Reviewed id li s r) (review_all-Reviewed m next.0 next.1)

  mark-Reviewed :
      (intents : Dict String LogicalIntent) (id : String) (s : Store) (r : Report)
      → Reviewed s (mark live intents now id (s, r)).0
  unfolding mark
  mark-Reviewed intents id s r = record {
    same_chunks = ground arith;
    no_old_sighting = λ k x h. inl (ground arith);
  }

  mark_all-Reviewed :
      (intents : Dict String LogicalIntent) (ids : List String) (s : Store) (r : Report)
      → Reviewed s (mark_all live intents now ids (s, r)).0
  unfolding mark_all
  mark_all-Reviewed intents [] s r = record { same_chunks = refl; no_old_sighting = λ k x h. inl h }
  mark_all-Reviewed intents (id ∷ ids) s r =
      let next = mark live intents now id (s, r) in
      Reviewed-trans _ _ _ (mark-Reviewed intents id s r)
        (mark_all-Reviewed intents ids next.0 next.1)

  phase1-Reviewed : (s : Store) → Reviewed s (phase1 live now s).0
  unfolding phase1
  phase1-Reviewed s =
      let intents = walk_intents s.intents in
      let next = review_all live now intents (s, empty_report) in
      Reviewed-trans _ _ _ (review_all-Reviewed intents s empty_report)
        (mark_all-Reviewed intents (chunk_ids s.chunks) next.0 next.1)

module _ (live : List String) (reloaded : Option (List String)) (fence now t : ℕ) (s : Store)
    (p : String) (f : ChunkFile) where
  -- A run shorter than the fence removes a chunk file only if no live id is its id, its intent, this
  -- device's first sighting and the file itself are all past the fence, and this device had recorded
  -- that sighting before the run.
  pub removed_past_fences :
      Distinct s.chunks
      → get p s.chunks ≡ some f
      → get p (confirm live reloaded fence now t s).0.chunks ≡ none
      → t < to_second now + fence
      → HasExpired
          (live_ids live reloaded)
          fence
          t
          (walk_intents (phase1 live now s).0.intents)
          (phase1 live now s).0
          f
        × ((first : ℕ) × (get f.id s.seen ≡ some (some first)) × (first + fence ≤ t))
  unfolding confirm phase2
  removed_past_fences d here gone short =
      let one = phase1 live now s in
      let kept = phase1-Reviewed live now s in
      let d1 : Distinct one.0.chunks = rw kept.same_chunks d in
      let here1 : get p one.0.chunks ≡ some f = rw kept.same_chunks here in
      let x =
        collect_all_removes (live_ids live reloaded) fence t one.0.chunks p f
          (walk_intents one.0.intents) one.0 one.1 d1 here1 here1 gone in
      let sighted = x.seen_past in
      (
        x,
        elim (kept.no_old_sighting f.id (some sighted.0) sighted.1) [
          | inl e ↦ (sighted.0, e, sighted.2)
          | inr e ↦ absurd (ground arith)
        ],
      )
