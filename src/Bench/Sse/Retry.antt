-- ===== src/Bench/Sse/Retry.antt =====
-- The time that the benchmarker's event source waits before it asks again.
use isucon6_final.Common.{ℕ, ◌≡◌, Bool, true, false}
use isucon6_final.Bench.Sse.{Bytes, bytes_eq, retry_field, split_field, field_value}

-- A line whose field is `retry` only if `atoi` accepts its value.
abbrev pub IsNumberedRetry : (Bytes → ℕ × Bool) → Bytes → Type 0
IsNumberedRetry atoi l =
    bytes_eq (split_field l).0 retry_field ≡ true → (atoi (field_value (split_field l).1)).1 ≡ false
