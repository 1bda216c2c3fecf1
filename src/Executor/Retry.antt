-- ===== src/Executor/Retry.antt =====
-- `invoke_with_retry`: the attempts to call a tool. What the surroundings give each attempt is a
-- function of its number, that is whether the run is cancelled, the times that are read, and what
-- the tool answers in the time that it has: nothing if that time is up. A panic is `none`.
pub mod Course
pub mod Delays
mod Tests
use konf.Shared.{
  ℕ, zero, suc, ◌+◌, ◌-◌, ◌%◌, ◌^◌, ◌/◌, min, Bool, true, false, not, ◌||◌, Option, none, some,
  List, [], ◌∷◌, if◌then◌else◌, leb, ltb, Text, text, Json, Result, ok, err,
}
use konf.Capability.{ToolError, invalid_input, execution_failed, timeout, access_denied, not_found}
use konf.Envelope.{Envelope}
use konf.Engine.{EngineConfig}
use konf.Workflow.{Step, RetryPolicy}
use konf.Executor.{KonfluxError, execution, tool, cancelled}
use konf.Executor.Backoff.{from_millis, as_millis, calculate_backoff}

-- The steps of the attempts that can be seen from outside.
pub data RetryEvent : Type 0 where
  slept : (delay : ℕ) → RetryEvent
  invoked : (attempt duration : ℕ) → RetryEvent
  tool_end : (attempt : ℕ) → RetryEvent
  tool_retry : (attempt : ℕ) (error : ToolError) → RetryEvent

pub record Surroundings : Type 0 where
  pub cancelled_at : (attempt : ℕ) → Bool
  pub time_at : (attempt : ℕ) → ℕ
  pub called_at : (attempt : ℕ) → ℕ
  pub answer : (attempt duration : ℕ) → Envelope Json → Option (Result (Envelope Json) ToolError)

-- What the attempts come to, and the events on the way.
abbrev pub Attempts : Type 0
Attempts = Option (Result (Envelope Json) KonfluxError) × List RetryEvent

abbrev pub stop : Result (Envelope Json) KonfluxError → Attempts
stop r = (some r, [])

abbrev pub then_event : RetryEvent → Attempts → Attempts
then_event e (r, es) = (r, e ∷ es)

unfoldable pub is_retryable : ToolError → Bool
is_retryable (execution_failed message retryable) = retryable
is_retryable (timeout after_ms) = true
is_retryable _ = false

unfoldable pub is_past : ℕ → Option ℕ → Bool
is_past now none = false
is_past now (some deadline) = ltb deadline now

abbrev pub default_timeout : EngineConfig → Option ℕ → ℕ
default_timeout config none = from_millis config.default_timeout_ms
default_timeout config (some d) = d

-- The subtraction stops at 0, as the conversion of a negative duration does.
abbrev pub clamp : ℕ → Option ℕ → ℕ → ℕ
clamp now none d = d
clamp now (some deadline) d = min d (deadline - now)

-- `r.max_attempts + 1` on a `u32`, which wraps
unfoldable pub max_attempts : Option RetryPolicy → ℕ
max_attempts none = 1
max_attempts (some r) = (r.max_attempts + 1) % 2 ^ 32

abbrev pub no_attempts : ToolError
no_attempts = execution_failed (text "No execution attempts were permitted by retry policy") false

abbrev pub last_error : Option ToolError → KonfluxError
last_error none = tool no_attempts
last_error (some e) = tool e

-- The tool's answer, or the timeout that stands for it.
abbrev pub answered :
    ℕ → Option (Result (Envelope Json) ToolError) → Result (Envelope Json) ToolError
answered duration none = err (timeout (as_millis duration))
answered duration (some r) = r

module _ (config : EngineConfig) (step : Step) (workflow_id : Text) (world : Surroundings)
    (env : Envelope Json) where
  unfoldable pub duration_at : (attempt : ℕ) → ℕ
  duration_at attempt =
      clamp (world.called_at attempt) env.deadline (default_timeout config step.timeout)

  unfoldable pub answer_at : (attempt : ℕ) → Result (Envelope Json) ToolError
  answer_at attempt =
      answered (duration_at attempt) (world.answer attempt (duration_at attempt) env)

  -- What follows an answer; `next` makes the next attempt with the error as the last one.
  abbrev pub after_answer :
      (max attempt : ℕ)
      → (Option ToolError → Attempts)
      → Result (Envelope Json) ToolError
      → Attempts
  after_answer max attempt next (ok output) = then_event (tool_end attempt) (stop (ok output))
  after_answer max attempt next (err e) =
      if not (is_retryable e) || leb max attempt
      then stop (err (tool e))
      else then_event (tool_retry attempt e) (next (some e))

  abbrev pub attempt_now : (max attempt : ℕ) → (Option ToolError → Attempts) → Attempts
  attempt_now max attempt next =
      then_event (invoked attempt (duration_at attempt))
        (after_answer max attempt next (answer_at attempt))

  -- The sleep before an attempt that is not the first.
  abbrev pub after_sleep : Option ℕ → Attempts → Attempts
  after_sleep none rest = (none, [])
  after_sleep (some delay) rest = then_event (slept delay) rest

  abbrev pub one_attempt : (max attempt : ℕ) → (Option ToolError → Attempts) → Attempts
  one_attempt max attempt next =
      if world.cancelled_at attempt
      then stop (err (execution (cancelled workflow_id)))
      else if is_past (world.time_at attempt) env.deadline
      then stop (err (tool (timeout 0)))
      else if ltb 1 attempt
      then after_sleep (calculate_backoff step.retry (attempt - 1) config)
          (attempt_now max attempt next)
      else attempt_now max attempt next

  -- The loop, with the number of attempts that are left.
  unfoldable pub attempts_from : (left max attempt : ℕ) → Option ToolError → Attempts
  attempts_from zero max attempt last = stop (err (last_error last))
  attempts_from (suc left) max attempt last =
      one_attempt max attempt (attempts_from left max (suc attempt))

  unfoldable pub invoke_with_retry : Attempts
  unfolding attempts_from
  invoke_with_retry = let max = max_attempts step.retry in attempts_from max max 1 none
