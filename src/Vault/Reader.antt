-- ===== src/Vault/Reader.antt =====
-- internal/vault/reader.go: `FileReader`, random access to one file of the vault, with its one-chunk
-- cache and the shared cache. The mutex makes each call one step. Indexing out of range, which
-- panics in Go, is the error `out_of_range`.
pub mod Positions
pub mod Chunks
pub mod Delivery
pub mod Reads
pub mod Presence
pub mod Stored
use open_seavault_rclone.Shared.Dict.{get, string_eq}
use open_seavault_rclone.Shared.Int.{ℤ, pos, negsuc, pos_part, ltb_ℤ}
use open_seavault_rclone.Shared.Result.{Result, ok, err}
use open_seavault_rclone.Shared.{
  ℕ, zero, suc, ◌+◌, ◌-◌, ◌^◌, Bool, true, false, ◌&&◌, ◌||◌, Option, none, some, List, [], ◌∷◌,
  ◌++◌, length, take, drop, get_elem?, leb, ltb, ◌==◌, if◌then◌else◌,
}
use open_seavault_rclone.Vault.Clock.{max_int64}
use open_seavault_rclone.Vault.Objects.{Bytes, Crypto, Ref, Objects, ChunkError, load_chunk}
use open_seavault_rclone.Vault.ChunkCache.{ChunkCache, get_chunk, put_chunk}

pub data ReadError : Type 0 where
  closed_reader negative_offset eof out_of_range stalled not_found chunks_pending : ReadError
  load_failed : ChunkError → ReadError

-- `cached` is `cachedIdx` with `cachedChunk`, or `none` for the index -1.
pub record FileReader : Type 0 where
  pub refs : List Ref
  pub offsets : List ℕ
  pub size : ℕ
  pub cached : Option (ℕ × Bytes)
  pub closed : Bool
  pub shared : Option ChunkCache

unfoldable pub ends : ℕ → List Ref → List ℕ
ends base [] = []
ends base (r ∷ rs) = (base + r.size) ∷ ends (base + r.size) rs

unfoldable pub last_offset : ℕ → List Ref → ℕ
last_offset base [] = base
last_offset base (r ∷ rs) = last_offset (base + r.size) rs

unfoldable pub new_reader : List Ref → FileReader
unfolding ends last_offset
new_reader refs = record {
  refs = refs;
  offsets = 0 ∷ ends 0 refs;
  size = last_offset 0 refs;
  cached = none;
  closed = false;
  shared = none;
}

unfoldable pub is_present : Objects → Ref → Bool
is_present o r = elim (get r.id o.canonical) [ none ↦ false | some _ ↦ true ]

unfoldable pub all_present : Objects → List Ref → Bool
unfolding is_present
all_present o [] = true
all_present o (r ∷ rs) = is_present o r && all_present o rs

-- `OpenReaderAtWithOptions` on the record that `FileInfo` found.
unfoldable pub open_reader : Objects → Bool → Option (List Ref) → Result ReadError FileReader
unfolding all_present new_reader
open_reader o skip none = err not_found
open_reader o skip (some refs) =
    if skip || all_present o refs then ok (new_reader refs) else err chunks_pending

-- `sort.Search` for the first end above `p`.
unfoldable pub first_above : ℕ → List ℕ → ℕ
first_above p [] = 0
first_above p (e ∷ es) = let rest = first_above p es in if ltb p e then 0 else suc rest

unfoldable pub chunk_index_for : FileReader → ℕ → ℕ
unfolding first_above
chunk_index_for f p = first_above p (drop 1 f.offsets)

abbrev pub shared_get : Ref → Option ChunkCache → Option ChunkCache × Option Bytes
shared_get r none = (none, none)
shared_get r (some c) = let (c', found) = get_chunk r.id c in (some c', found)

abbrev pub shared_put : Ref → Bytes → Option ChunkCache → Option ChunkCache
shared_put r plain none = none
shared_put r plain (some c) = some (put_chunk r.id plain c)

abbrev pub one_chunk : Option (ℕ × Bytes) → ℕ → Option Bytes
one_chunk none ci = none
one_chunk (some (i, plain)) ci = if i == ci then some plain else none

-- `copy(p[n:], chunk[within:])`, with the offset of the chunk.
unfoldable pub copy_out : ℕ → ℕ → Bytes → Option ℕ → Result ReadError Bytes
copy_out want p plain none = err out_of_range
copy_out want p plain (some base) =
    if ltb (length plain) (p - base)
    then err out_of_range
    else ok (take want (drop (p - base) plain))

-- Fewer bytes than wanted, with no error, is the end of the file.
abbrev pub short_read :
    ℕ → FileReader × Bytes × Option ReadError → FileReader × Bytes × Option ReadError
short_read want (f, bytes, some e) = (f, bytes, some e)
short_read want (f, bytes, none) = (f, bytes, if ltb (length bytes) want then some eof else none)

module _ (c : Crypto) (o : Objects) where
  unfoldable pub fetch : FileReader → ℕ → Ref → FileReader × Result ReadError Bytes
  fetch f ci r =
      let (shared, found) = shared_get r f.shared in
      elim found [
        | some plain ↦ (record f { shared = shared; cached = some (ci, plain) }, ok plain)
        | none ↦ elim (load_chunk c o r) [
          | err e ↦ (record f { shared = shared }, err (load_failed e))
          | ok plain ↦
              (record f { shared = shared_put r plain shared; cached = some (ci, plain) }, ok plain)
        ]
      ]

  unfoldable pub chunk_at_locked : FileReader → ℕ → FileReader × Result ReadError Bytes
  unfolding fetch
  chunk_at_locked f ci = elim (one_chunk f.cached ci) [
    | some plain ↦ (f, ok plain)
    | none ↦ elim (get_elem? f.refs ci) [ none ↦ (f, err out_of_range) | some r ↦ fetch f ci r ]
  ]

  abbrev pub turn : ℕ → FileReader → ℕ → FileReader × Result ReadError Bytes
  turn want f p =
      let ci = chunk_index_for f p in
      let (f', r) = chunk_at_locked f ci in
      elim r [
        | err e ↦ (f', err e)
        | ok plain ↦ (f', copy_out want p plain (get_elem? f.offsets ci))
      ]

  -- The loop, on fuel: what is still wanted, from which position. Gives the bytes that it copies.
  unfoldable pub read_loop : ℕ → FileReader → ℕ → ℕ → FileReader × Bytes × Option ReadError
  unfolding chunk_at_locked chunk_index_for copy_out
  read_loop zero f want p = (f, [], if ltb 0 want && ltb p f.size then some stalled else none)
  read_loop (suc n) f want p = elim (ltb 0 want && ltb p f.size) [
    | false ↦ (f, [], none)
    | true ↦
        let (f', r) = turn want f p in
        elim r [
          | err e ↦ (f', [], some e)
          | ok piece ↦
              let (f'', more, e) = read_loop n f' (want - length piece) (p + length piece) in
              (f'', piece ++ more, e)
        ]
  ]

  unfoldable pub read_at : FileReader → ℕ → ℤ → FileReader × Bytes × Option ReadError
  unfolding read_loop
  read_at f want (negsuc k) = (f, [], some (if f.closed then closed_reader else negative_offset))
  read_at f want (pos off) =
      if f.closed
      then (f, [], some closed_reader)
      else if leb f.size off
      then (f, [], some eof)
      else short_read want (read_loop want f want off)

-- `VerifyChunkPresence` on the references of the chunks in the range.
unfoldable pub verify_loop : Objects → FileReader → List Ref → FileReader × Option ReadError
unfolding is_present
verify_loop o f [] = (f, none)
verify_loop o f (r ∷ rs) =
    let (shared, found) = shared_get r f.shared in
    let f' = record f { shared = shared } in
    let rest = verify_loop o f' rs in
    elim found [ some _ ↦ rest | none ↦ if is_present o r then rest else (f', some chunks_pending) ]

-- `off + length` on two int64 that are not negative, and `end - 1`.
unfoldable pub int64_end : ℕ → ℕ → ℤ
int64_end start len =
    if leb (start + len) max_int64 then pos (start + len) else negsuc (2 ^ 64 - 1 - (start + len))

unfoldable pub int64_before : ℤ → ℤ
int64_before (pos zero) = negsuc 0
int64_before (pos (suc n)) = pos n
int64_before (negsuc n) = if n == max_int64 then pos max_int64 else negsuc (suc n)

-- `chunkIndexFor` of an int64: every end of a chunk is above a negative position.
unfoldable pub chunk_index_of : FileReader → ℤ → ℕ
unfolding chunk_index_for
chunk_index_of f (pos p) = chunk_index_for f p
chunk_index_of f (negsuc k) = 0

-- After the last chunk `f.rec.Chunks[ci]` panics.
abbrev pub past_chunks : Bool → FileReader × Option ReadError → FileReader × Option ReadError
past_chunks past (f, some e) = (f, some e)
past_chunks past (f, none) = (f, if past then some out_of_range else none)

unfoldable pub verify_chunk_presence : Objects → FileReader → ℤ → ℤ → FileReader × Option ReadError
unfolding chunk_index_for verify_loop int64_end int64_before chunk_index_of
verify_chunk_presence o f off (negsuc k) = (f, none)
verify_chunk_presence o f off (pos len) =
    let start = pos_part off in
    let end = int64_end start len in
    let low = chunk_index_for f start in
    let high =
      chunk_index_of f (int64_before (if ltb_ℤ (pos f.size) end then pos f.size else end)) in
    if len == 0 || leb f.size start
    then (f, none)
    else past_chunks (leb low high && leb (length f.refs) high)
        (verify_loop o f (take (suc high - low) (drop low f.refs)))

unfoldable pub close : FileReader → FileReader
close f = record f { closed = true; cached = none }
