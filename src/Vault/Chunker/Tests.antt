-- ===== src/Vault/Chunker/Tests.antt =====
-- internal/vault/chunker.go: the theorems at small sizes.
use mathlib.Core.List.{flatten}
use open_seavault_rclone.Shared.{ℕ, ◌≡◌, refl, inr, List, [], ◌∷◌}
use open_seavault_rclone.Vault.Chunker.{ChunkParams, validate, for_each_chunk}
use open_seavault_rclone.Vault.Chunker.Sizes.{AreSized, for_each_chunk_lem}

abbrev small : ChunkParams
small = record { min_size = 2; avg_size = 4; max_size = 5 }

abbrev bytes : List ℕ
bytes = 7 ∷ 200 ∷ 13 ∷ 7 ∷ 200 ∷ 13 ∷ 0 ∷ 91 ∷ []

for_each_chunk_lem_example :
    (cs : List (List ℕ)) × (for_each_chunk small bytes ≡ inr cs)
    × (flatten cs ≡ bytes)
    × AreSized small cs
for_each_chunk_lem_example = for_each_chunk_lem small bytes (unfold validate in refl)
