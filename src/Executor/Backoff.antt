-- ===== src/Executor/Backoff.antt =====
-- `calculate_backoff`. A `Duration` is a number of nanoseconds; its seconds are a `u64`, and a
-- multiplication that leaves this range panics, which is `none`.
use konf.Shared.{ℕ, ◌+◌, ◌-◌, ◌*◌, ◌/◌, ◌%◌, ◌^◌, min, Option, none, some, if◌then◌else◌, leb}
use konf.Engine.{EngineConfig}
use konf.Workflow.{RetryPolicy, BackoffStrategy, fixed, exponential, linear}

abbrev pub millisecond : ℕ
millisecond = 1_000_000

abbrev pub u64_max : ℕ
u64_max = 2 ^ 64 - 1

abbrev pub max_duration : ℕ
max_duration = 2 ^ 64 * 1_000_000_000 - 1

unfoldable pub from_millis : ℕ → ℕ
from_millis n = n * millisecond

-- `d.as_millis() as u64`
unfoldable pub as_millis : ℕ → ℕ
as_millis d = d / millisecond % 2 ^ 64

unfoldable pub saturating_mul : ℕ → ℕ → ℕ
saturating_mul a b = min (a * b) u64_max

unfoldable pub saturating_pow : ℕ → ℕ → ℕ
saturating_pow a n = min (a ^ n) u64_max

-- `d * n`
unfoldable pub times : ℕ → ℕ → Option ℕ
times d n = if leb (d * n) max_duration then some (d * n) else none

-- `d.saturating_add(e)`
unfoldable pub saturating_add : ℕ → ℕ → ℕ
saturating_add d e = min (d + e) max_duration

-- `attempt - 1` on a `u32`
abbrev pub before : ℕ → ℕ
before attempt = (attempt + 2 ^ 32 - 1) % 2 ^ 32

abbrev pub add_to : ℕ → Option ℕ → Option ℕ
add_to base none = none
add_to base (some d) = some (saturating_add base d)

unfoldable pub raw_delay : BackoffStrategy → (base attempt : ℕ) → Option ℕ
raw_delay fixed base attempt = some base
raw_delay exponential base attempt =
    some (from_millis (saturating_mul (as_millis base) (saturating_pow 2 (before attempt))))
raw_delay (linear increment) base attempt = add_to base (times increment (before attempt))

abbrev pub at_most : ℕ → Option ℕ → Option ℕ
at_most max none = none
at_most max (some d) = some (min d max)

unfoldable pub calculate_backoff : Option RetryPolicy → (attempt : ℕ) → EngineConfig → Option ℕ
calculate_backoff none attempt config = some (from_millis config.default_retry_backoff_ms)
calculate_backoff (some policy) attempt config =
    at_most policy.max_delay (raw_delay policy.backoff policy.base_delay attempt)
