-- ===== src/Vault/ChunkCache.antt =====
-- internal/vault/reader.go: `ChunkCache`, the byte-bounded cache of decrypted chunks. The list and
-- the map of the source hold the same entries: here they are one list, most recently used first.
-- The mutex makes each method one step; a nil cache is `none` where a reader may have none.
pub mod Bounds
pub mod Lookup
use open_seavault_rclone.Shared.{
  ℕ, zero, suc, ◌+◌, ◌-◌, String, Bool, Option, none, some, List, [], ◌∷◌, length, ltb, str_eq,
  if◌then◌else◌,
}
use open_seavault_rclone.Vault.Objects.{Bytes}

pub record Entry : Type 0 where
  pub id : String
  pub bytes : Bytes

pub record ChunkCache : Type 0 where
  pub max_bytes : ℕ
  pub cur_bytes : ℕ
  pub entries : List Entry

unfoldable pub new_chunk_cache : ℕ → ChunkCache
new_chunk_cache bound = record { max_bytes = bound; cur_bytes = 0; entries = [] }

-- c.items[id]
unfoldable pub find : String → List Entry → Option Bytes
find id [] = none
find id (e ∷ es) = let rest = find id es in if str_eq e.id id then some e.bytes else rest

-- The entries without the one that moves to the front.
unfoldable pub others : String → List Entry → List Entry
others id [] = []
others id (e ∷ es) = let rest = others id es in if str_eq e.id id then es else e ∷ rest

unfoldable pub move_to_front : String → Bytes → List Entry → List Entry
unfolding others
move_to_front id bytes es = record { id = id; bytes = bytes } ∷ others id es

unfoldable pub get_chunk : String → ChunkCache → ChunkCache × Option Bytes
unfolding find move_to_front
get_chunk id c = elim (find id c.entries) [
  | none ↦ (c, none)
  | some bytes ↦ (record c { entries = move_to_front id bytes c.entries }, some bytes)
]

-- `ll.Back()`, with the entries before it.
unfoldable pub pop_back : Entry → List Entry → List Entry × Entry
pop_back e [] = ([], e)
pop_back e (f ∷ es) = let (front, back) = pop_back f es in (e ∷ front, back)

-- The body of the loop of evictions, on a cache that is not empty.
unfoldable pub evict_back : ChunkCache → ChunkCache
unfolding pop_back
evict_back c = elim c.entries [
  | [] ↦ c
  | e ∷ es ↦
      let (front, back) = pop_back e es in
      record c { entries = front; cur_bytes = c.cur_bytes - length back.bytes }
]

-- The loop. Each turn takes an entry, so there are at most as many turns as entries.
unfoldable pub evict_loop : ℕ → ChunkCache → ChunkCache
unfolding evict_back
evict_loop zero c = c
evict_loop (suc n) c =
    let rest = evict_loop n (evict_back c) in if ltb c.max_bytes c.cur_bytes then rest else c

unfoldable pub insert_front : String → Bytes → ChunkCache → ChunkCache
unfolding evict_loop
insert_front id bytes c =
    let c' = record c {
      entries = record { id = id; bytes = bytes } ∷ c.entries;
      cur_bytes = c.cur_bytes + length bytes;
    } in
    evict_loop (length c'.entries) c'

unfoldable pub put_chunk : String → Bytes → ChunkCache → ChunkCache
unfolding find move_to_front insert_front
put_chunk id bytes c =
    let inserted = insert_front id bytes c in
    elim (find id c.entries) [
      | some held ↦ record c { entries = move_to_front id held c.entries }
      | none ↦ if ltb c.max_bytes (length bytes) then c else inserted
    ]
