-- ===== src/Executor/Retry/Tests.antt =====
-- A tool that fails twice and then answers, and the theorems about it.
use konf.Shared.{
  ◌≡◌, refl, ◌*◌, ◌-◌, ◌^◌, min, true, false, none, some, [], ◌∷◌, if◌then◌else◌, ◌==◌, text, Json,
  null, ok, err, arith,
}
use konf.Capability.{ToolError, execution_failed}
use konf.Envelope.{Envelope, for_tool_dispatch}
use konf.Engine.{default_config}
use konf.Workflow.{Step, RetryPolicy, exponential, linear, new_step}
use konf.Executor.{tool}
use konf.Executor.Backoff.{
  millisecond, from_millis, as_millis, saturating_mul, saturating_pow, times, raw_delay,
  calculate_backoff,
}
use konf.Executor.Retry.{
  slept, invoked, tool_end, tool_retry, Surroundings, no_attempts, max_attempts, duration_at,
  answer_at, attempts_from, invoke_with_retry, is_retryable, is_past,
}
use konf.Executor.Retry.Course.{Course, invoke_with_retry-Course}
use konf.Executor.Retry.Delays.{calculate_backoff-exponential}

abbrev policy : RetryPolicy
policy = record {
  max_attempts = 2;
  backoff = exponential;
  base_delay = 100 * millisecond;
  max_delay = 150 * millisecond;
}

abbrev retried : Step
retried = record (new_step (text "a") (text "echo")) { retry = some policy }

abbrev envelope : Envelope Json
envelope = for_tool_dispatch 0 0 (text "echo") null [] 1 (text "n") (text "u") (text "s")

abbrev flaky : Surroundings
flaky = record {
  cancelled_at = λ attempt. false;
  time_at = λ attempt. 0;
  called_at = λ attempt. 0;
  answer = λ attempt duration env.
      some (if attempt == 3 then ok env else err (execution_failed (text "busy") true));
}

abbrev busy : ToolError
busy = execution_failed (text "busy") true

-- The third attempt succeeds, after sleeps of 100 and 150 milliseconds.
flaky_run : invoke_with_retry default_config retried (text "w") flaky envelope ≡ (
  some (ok envelope),
  invoked 1 (30_000 * millisecond)
      ∷ tool_retry 1 busy
      ∷ slept (100 * millisecond)
      ∷ invoked 2 (30_000 * millisecond)
      ∷ tool_retry 2 busy
      ∷ slept (150 * millisecond)
      ∷ invoked 3 (30_000 * millisecond)
      ∷ tool_end 3
      ∷ [],
)
unfolding invoke_with_retry attempts_from max_attempts calculate_backoff raw_delay from_millis
    as_millis saturating_mul saturating_pow is_retryable is_past duration_at answer_at
    for_tool_dispatch new_step
flaky_run = refl

-- The largest number of retries wraps to no attempt at all.
unlimited_run :
    invoke_with_retry default_config
      (record retried { retry = some (record policy { max_attempts = 4_294_967_295 }) })
      (text "w")
      flaky
      envelope
    ≡ (some (err (tool no_attempts)), [])
unfolding invoke_with_retry attempts_from max_attempts
unlimited_run = refl

invoke_with_retry-Course_example :
    Course default_config retried
      (text "w")
      flaky
      envelope
      0
      (invoke_with_retry default_config retried (text "w") flaky envelope)
invoke_with_retry-Course_example =
    invoke_with_retry-Course default_config retried (text "w") flaky envelope

calculate_backoff-exponential_example :
    calculate_backoff (some policy) 2 default_config
    ≡ some (min (100 * 2 ^ (2 - 1) * millisecond) policy.max_delay)
calculate_backoff-exponential_example =
    calculate_backoff-exponential default_config policy 100 2 refl refl (omega arith) (omega arith)
      (omega arith) (omega arith)

-- A linear delay whose product leaves the range of durations panics.
linear_overflow :
    calculate_backoff
      (some (record policy { backoff = linear (2 ^ 64 * 1_000_000_000 - 1) }))
      3
      default_config
    ≡ none
unfolding calculate_backoff raw_delay times
linear_overflow = refl
