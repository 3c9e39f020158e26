-- ===== src/Vault/Chunker/Mask.antt =====
-- internal/vault/chunker.go: the fuel of `nextPowerOfTwo` is enough.
use Prim.Native.Nat.{◌^◌, ◌*◌}
use native.Mathlib.Nat.{pow-suc, mul_assoc}
use open_seavault_rclone.Shared.{ℕ, zero, suc, ◌≤◌, ◌≡◌, inl, inr, arith, ltb, leb, Bool-cases}
use open_seavault_rclone.Vault.Chunker.{double_until, next_power_of_two}

pow_step : (fuel p : ℕ) → 2 ^ suc fuel * p ≡ 2 ^ fuel * (2 * p)
pow_step fuel p = rw pow-suc (mul_assoc (2 ^ fuel) 2 p)

double_until_lem : (fuel p n : ℕ) → n ≤ 2 ^ fuel * p → n ≤ double_until fuel p n
unfolding double_until
double_until_lem zero p n h = omega arith
double_until_lem (suc fuel) p n h = elim (Bool-cases (ltb p n)) [
  | inl y ↦ rw y (double_until_lem fuel (2 * p) n (omega (arith, pow_step fuel p)))
  | inr m ↦ rw m (ground arith)
]

-- For every size up to 2 ^ 64 the power is at least the size: the doubling stops before its fuel.
pub next_power_of_two-ge : (n : ℕ) → n ≤ 2 ^ 64 → n ≤ next_power_of_two n
unfolding next_power_of_two
next_power_of_two-ge n h = elim (Bool-cases (leb n 1)) [
  | inl y ↦ rw y (ground arith)
  | inr m ↦ rw m (double_until_lem 64 1 n (omega arith))
]
