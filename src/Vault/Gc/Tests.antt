-- ===== src/Vault/Gc/Tests.antt =====
-- internal/vault/gc.go: the theorems at a store with one old chunk that nothing refers to.
use open_seavault_rclone.Shared.Dict.{get, put, remove, string_eq}
use open_seavault_rclone.Shared.{ℕ, ◌+◌, ◌*◌, ◌≤◌, ◌≡◌, refl, some, none, [], ◌∷◌, arith}
use open_seavault_rclone.Vault.Gc.{
  ChunkFile, Store, walk_intents, phase1, phase2, confirm, mem, paths,
}
use open_seavault_rclone.Vault.Gc.Removal.{HasExpired}
use open_seavault_rclone.Vault.Gc.Fences.{removed_past_fences}

abbrev second : ℕ
second = 1000000000

abbrev fence : ℕ
fence = 3600 * second

abbrev old_chunk : ChunkFile
old_chunk = record { id = "aa"; size = 512; mtime = 500 * second }

abbrev store : Store
store = record {
  chunks = ("aa.chunk", old_chunk) ∷ [];
  intents = ("aa.intent", record { id = "aa"; time = some (1000 * second) }) ∷ [];
  seen = ("aa", some (2000 * second)) ∷ [];
}

chunk_removed :
    get "aa.chunk" (confirm [] none fence (10000 * second) (10001 * second) store).0.chunks ≡ none
unfolding confirm phase1 phase2 get mem put paths remove
chunk_removed = refl

removed_past_fences_example :
    HasExpired [] fence
      (10001 * second)
      (walk_intents (phase1 [] (10000 * second) store).0.intents)
      (phase1 [] (10000 * second) store).0
      old_chunk
    × ((first : ℕ) × (get "aa" store.seen ≡ some (some first)) × (first + fence ≤ 10001 * second))
removed_past_fences_example =
    removed_past_fences [] none fence (10000 * second) (10001 * second) store "aa.chunk" old_chunk
      (unfold get in ground arith) (unfold get in refl) chunk_removed (omega arith)
