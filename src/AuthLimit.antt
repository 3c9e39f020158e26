-- ===== src/AuthLimit.antt =====
-- internal/authlimit/authlimit.go: the per-process limiter of credential checks.
-- `time.Time` is a number of nanoseconds after the zero time, so `IsZero` is the test for 0 and a
-- clock that runs returns positive values. A `time.Duration` is the bit pattern of its int64. The two
-- counters of a bucket count calls and stay far below the range of an `int`.
-- Each operation takes the reading of the clock and returns the limiter that it leaves; the mutex
-- makes every one of them a single step.
mod Tests
pub mod Policy
pub mod Bucket
pub mod Limiter
pub mod Attempt
