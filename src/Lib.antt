-- ===== src/Lib.antt =====
-- Verification of open-seavault-rclone: an encrypted vault that file-sync clients carry between
-- devices, with a local server in front of it. These parts are modelled: the limiter that stands
-- before every check of a credential, what the vault decides when several devices have left
-- several manifests for one virtual path, the two-phase collection of unreferenced chunks, the
-- chunker that cuts files, the manifest store with the index that is kept of it in memory, the
-- operations that put, find and delete files, the encrypted objects that the chunks are stored
-- in with the reader that serves parts of a file from them, the names that are allowed in a
-- vault, and the configuration of the vault with its key derivation costs, its rotations and the
-- gate against rollback.
--
--   AuthLimit/ is internal/authlimit/authlimit.go. Policy.antt is Policy and normalize;
--     Bucket.antt is the type state and what Check, Fail, Success and release do to one
--     bucket, with refreshLocked; Limiter.antt is the map of buckets, the eviction and all
--     methods of Limiter; Attempt.antt is the bundle of reservations of one attempt. The
--     modules below Limiter and Attempt are proofs.
--   Vault/Clock.antt is clockDominates and joinClock of internal/vault/manifest.go,
--     advanceClock and nextRecordClock of internal/vault/cache.go. Clock/Dominance,
--     Clock/Advance and Clock/Aging are the proofs on them.
--   Vault/Manifest.antt is the records of internal/vault/manifest.go and index.go with
--     candidateCompare and what it reads. Vault/Reconcile.antt is reconcilePathCandidates:
--     pruning, sort, fate of the losers. The modules below it are the proofs.
--   Vault/Path.antt is internal/vault/path.go and Path/Content.antt is
--     internal/vault/content.go, with the functions of package path that they call;
--     Path/Stack and Path/Clean are the proofs.
--   Vault/Store.antt is the manifest files of internal/vault/manifest.go: their names,
--     saveManifestRecord, saveFileManifest and saveTombstoneWithClock. Store/Load.antt is
--     loadManifestIndex: the walk, the groups by path, the reconciliation of each and the
--     conflicts that are placed. Store/Name, Saved, Sound, Grouped, Placed, Returned,
--     Replaced and Reload are the proofs.
--   Vault/Index.antt is the cached index of internal/vault/cache.go with LoadIndex and
--     loadIndexFromDisk of internal/vault/vault.go: nextGeneration, commitFileManifest,
--     commitTombstone, ReloadIndex. Index/Coherent and Index/Generations are the proofs.
--   Vault/Operations.antt is PutReader, FileInfo, Files and SaveIndex of
--     internal/vault/vault.go; Operations/Removal.antt is RemovePath and Remove;
--     Operations/Directories.antt is internal/vault/directories.go. Operations/Stored,
--     Operations/Removed, Operations/Deleted, Operations/Refused and Operations/Downgraded
--     are the proofs; Operations/Example has the data of their tests.
--   Vault/Rename.antt is internal/vault/rename.go, with the proofs in Rename/Attempts.
--   Vault/Gc.antt is gcConfirm of internal/vault/gc.go after the compaction, with
--     walkIntents and the fence: phase 1 as phase1, phase 2 as phase2. Gc/Gate.antt is
--     gcRefusalGate, with its theorem and inspectManifestStore of
--     internal/vault/manifest.go. Gc/Removal, Gc/Fences and Gc/Folding are the proofs.
--   Vault/Chunker.antt is internal/vault/chunker.go: Validate, ForEachChunk, nextPowerOfTwo
--     and gearTable. Chunker/Sizes and Chunker/Mask are the proofs.
--   Vault/Objects.antt is storeChunk, loadChunk, decodeChunk and tryConflictChunks of
--     internal/vault/vault.go with the loops of putReader and WriteFileTo over them, and
--     encodeEncrypted and decodeEncrypted of internal/vault/crypto.go. Objects/Authentic
--     and Objects/RoundTrip are the proofs; Objects/Tests serves the reader and the cache
--     too.
--   Vault/ChunkCache.antt is ChunkCache and Vault/Reader.antt is FileReader of
--     internal/vault/reader.go: opening, ReadAt, VerifyChunkPresence and Close.
--     ChunkCache/Bounds and ChunkCache/Lookup, Reader/Positions, Reader/Chunks,
--     Reader/Delivery, Reader/Reads, Reader/Stored and Reader/Presence are the proofs.
--   Vault/Portable.antt is internal/vault/portable.go, with the proofs in
--     Portable/Sanitized.
--   Vault/Kdf.antt is NormalizeKDFConfig, ValidateKDFStrength, checkKDFRange, raiseToFloor
--     and the calls of deriveWrapKey of internal/vault/crypto.go. Kdf/Normal, Kdf/Floor and
--     Kdf/Range are the proofs.
--   Vault/Config.antt is VaultConfig with unlockWith and recoveryEntryFor of
--     internal/vault/vault.go. Config/Rotation.antt is the rewrites of
--     internal/vault/rotation.go and seal.go as functions on it; Config/Anchor.antt is
--     rewriteConfig, the operations on a vault and its files, checkConfigIntegrity and
--     checkFreshness of internal/vault/configmac.go, and recordAnchor of
--     internal/vault/anchor.go. Config/Freshness, Config/Passwords, Config/Changes and
--     Config/Redemption are the proofs.
--   Vault/Compact.antt is compact and sweepTmpOrphans of internal/vault/compact.go with
--     saveFileManifest of internal/vault/manifest.go; Compact/Kept and Compact/Planned are
--     the proofs.
--   Shared/ has the tests on numbers and texts, association lists, integers, and
--     comparisons that answer an ordering.
--
-- How the parts meet: nextRecordClock makes the clock of a write, the clocks decide in the
-- reconciliation which copies are superseded, and a server consults the limiter before it opens
-- anything. An operation loads the index, which is the reconciliation of the manifests path by
-- path, changes it, and commits the manifest of the changed path before it changes the index in
-- memory. A file that is put is cut by the chunker into the objects, and the reader finds the
-- objects again by the references of the record. A rotation rebuilds its wraps at a cost that
-- Vault/Kdf.antt raises to the floor, and the anchor that it leaves decides what the next
-- opening accepts. The compaction carries out what the reconciliation plans. The collector reads
-- the ids that the reconciled index refers to as the live ones. A Go map is an association list
-- with distinct keys; a method that changes its receiver is a function that returns the new one;
-- the mutex makes each method of the limiter one step, so an interleaving of requests is a list
-- of calls. A panic is the answer none. A loop over a Go map has no fixed order; the model goes
-- through the list in its order, and the theorems hold for every list.
--
-- Numbers: times are nanoseconds after the zero time and durations the bit patterns of int64,
-- whose doubling wraps in the model; the theorems that need it ask for a longest lock below 2^62
-- ns. Clock entries, generations and epochs of the configuration are integers with the increment
-- of int64, which wraps at its end; the theorems ask for room below it. The fence of a run is in
-- nanoseconds too, and times that the collector writes lose their fraction of a second. Sizes
-- and offsets of a reader are natural numbers, with an integer for an offset that a caller
-- gives; the end of the range of VerifyChunkPresence wraps as an int64; the costs of key
-- derivation are integers, since vault.json may name any, and what deriveWrapKey narrows is
-- reduced by 2^32 or 2^8. Fuel stands in five loops: double_until has 64 for nextPowerOfTwo,
-- which is enough for every size up to 2^64; read_loop of ReadAt has the number of bytes that
-- are wanted, since every turn copies at least one, and the theorem on ReadAt covers every read
-- and has no outcome for fuel that ran out; evict_loop has the number of entries, since every
-- turn takes one; rename_from and remove_from have the nine attempts that may follow the first,
-- as the loop of the source has. All other loops run over lists.
--
-- Parameters: the record Crypto of Vault/Objects.antt holds the AEAD and the HMAC of the chunks,
-- with the law IsAead; the record Wrapping of Vault/Config.antt holds the derivation and the
-- AEAD of the wraps, the trial run of scrypt and the HMAC of the configuration, with the laws
-- IsSealing: a wrap opens under the secret that made it and under no other; and IsTagging: the
-- text of the HMAC is never empty. Whether a salt is base64 is an argument of derive_call. The
-- record System of Vault/Compact.antt says which operations on files succeed, and holds the
-- clock and the names of manifest files. The record Host of Vault/Manifest.antt holds what the
-- Go library computes there (time.Parse, time.Now, fmt.Fprintf, SHA-256, package path). The
-- record Codec of Vault/Store.antt holds the AEAD, the HMAC and the JSON of the manifests, with
-- the laws IsCodec for the record that is written; LegacyCodec and LegacyWriter hold those of
-- the older index file. Tries of Vault/Rename.antt says what each attempt of a system call does.
-- A test instantiates each.
--
-- Not modelled: errors of the disk other than a missing file, and the refresh of the time of an
-- object that is stored again; ReadRange, which is a loop of io.Copy over ReadAt; the parsing of
-- vault.json, the version fences before an unlock, and an anchor file that cannot be written;
-- the derivations themselves; the fingerprint of the manifest store with ReloadIfChanged, the
-- putting and exporting of whole directories, PeerKey and the words of the log lines of the
-- limiter, the dry run of the collector, file operations that fail within it, the load before a
-- compaction and the cached index after it, errors of the reader and the callback of the
-- chunker, names that are not UTF-8, the recovery phrase, and the servers, the command line, the
-- setup and the drivers of external programs around the vault.
pub mod Shared
pub mod AuthLimit
pub mod Vault
