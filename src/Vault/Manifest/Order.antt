-- ===== src/Vault/Manifest/Order.antt =====
-- internal/vault/manifest.go: where `candidateCompare` is an order.
use open_seavault_rclone.Shared.Order.{
  IsOrder, by_key-IsOrder, by_then-IsOrder, text_IsOrder, bool_IsOrder,
}
use open_seavault_rclone.Vault.Manifest.{
  Candidate, Host, clock_of, content_key, clock_string, concurrent_tiebreak,
}

module _ (h : Host) where
  pub tiebreak-IsOrder : IsOrder (concurrent_tiebreak h)
  unfolding concurrent_tiebreak
  tiebreak-IsOrder =
      by_then-IsOrder (by_key-IsOrder (λ (c : Candidate). c.rec.deleted) bool_IsOrder) (
        by_then-IsOrder (by_key-IsOrder (λ (c : Candidate). content_key h c.rec) text_IsOrder)
          (by_key-IsOrder (λ (c : Candidate). clock_string h (clock_of c.rec)) text_IsOrder))
