-- ===== src/Vault.antt =====
-- internal/vault: the vault's records, their reconciliation and the collection of chunks.
pub mod Clock
pub mod Manifest
pub mod Reconcile
pub mod Gc
pub mod Chunker
pub mod Objects
pub mod ChunkCache
pub mod Reader
pub mod Portable
pub mod Kdf
pub mod Config
pub mod Path
pub mod Store
pub mod Index
pub mod Operations
pub mod Rename
pub mod Compact
