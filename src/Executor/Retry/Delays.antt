-- ===== src/Executor/Retry/Delays.antt =====
-- About the sleeps between the attempts, and the delay of `calculate_backoff`.
use konf.Shared.{
  ℕ, zero, suc, ◌+◌, ◌-◌, ◌*◌, ◌^◌, ◌≤◌, ◌<◌, ◌≡◌, refl, ap, min, not, ◌||◌, Option, none, some,
  List, [], ◌∷◌, leb, ltb, arith, inl, inr, Bool-cases, Text, Json, Result, ok, err,
}
use konf.Capability.{ToolError}
use konf.Envelope.{Envelope}
use konf.Engine.{EngineConfig}
use konf.Workflow.{Step, RetryPolicy, exponential}
use konf.Executor.Backoff.{
  millisecond, u64_max, before, from_millis, as_millis, saturating_mul, saturating_pow, at_most,
  raw_delay, calculate_backoff,
}
use konf.Executor.Retry.{
  RetryEvent, slept, invoked, tool_end, tool_retry, Surroundings, Attempts, is_retryable, is_past,
  max_attempts, answer_at, after_answer, attempt_now, after_sleep, one_attempt, attempts_from,
  invoke_with_retry,
}

-- `before` is the subtraction, for a `u32` that is not 0.
before-pred : (k : ℕ) → 0 < k → k < 2 ^ 32 → before k ≡ k - 1
before-pred k pos small = omega arith

le-mul : (a b : ℕ) → 0 < a → b ≤ a * b
le-mul a b pos = grind arith

-- The saturations do not show below the cap.
saturation :
    (a q m d : ℕ)
    → d ≤ m * millisecond
    → min (min (a * min q m) m * millisecond) d ≡ min (a * q * millisecond) d
saturation zero q m d h = grind arith
saturation (suc a) q m d h = elim (Bool-cases (leb q m)) [
  | inl e ↦ grind (arith, le-mul (suc a) q (omega arith))
  | inr e ↦ grind (arith, le-mul (suc a) q (omega arith), le-mul (suc a) m (omega arith))
]

as_millis-whole : (n : ℕ) → n < 2 ^ 64 → as_millis (n * millisecond) ≡ n
unfolding as_millis
as_millis-whole n h = omega arith

raw_delay-exponential :
    (n k : ℕ)
    → n < 2 ^ 64
    → 0 < k
    → k < 2 ^ 32
    → raw_delay exponential (n * millisecond) k
      ≡ some (min (n * min (2 ^ (k - 1)) u64_max) u64_max * millisecond)
unfolding raw_delay from_millis saturating_mul saturating_pow
raw_delay-exponential n k small pos bound = rw (as_millis-whole n small, before-pred k pos bound)

-- A delay in whole milliseconds doubles with each attempt, up to the maximal delay, if this is a
-- number of milliseconds that a `u64` holds: no step of the computation saturates below it.
pub calculate_backoff-exponential :
    (config : EngineConfig) (p : RetryPolicy) (base_ms k : ℕ)
    → p.backoff ≡ exponential
    → p.base_delay ≡ base_ms * millisecond
    → base_ms < 2 ^ 64
    → p.max_delay ≤ u64_max * millisecond
    → 0 < k
    → k < 2 ^ 32
    → calculate_backoff (some p) k config
      ≡ some (min (base_ms * 2 ^ (k - 1) * millisecond) p.max_delay)
unfolding calculate_backoff
calculate_backoff-exponential config p base_ms k kind base small cap pos bound =
    rw (kind, base, raw_delay-exponential base_ms k small pos bound)
      (ap some (saturation base_ms (2 ^ (k - 1)) u64_max p.max_delay cap))

-- No delay of a policy is longer than its maximal delay.
at_most-le : (max : ℕ) (o : Option ℕ) {d : ℕ} → at_most max o ≡ some d → d ≤ max
at_most-le max none h = cc
at_most-le max (some e) h = grind arith

-- What may be slept: nothing without a policy, and no longer than its maximal delay with one.
abbrev pub Permitted : Option RetryPolicy → ℕ → Type 0
Permitted none d = ⊥
Permitted (some p) d = d ≤ p.max_delay

abbrev pub SleepsPermitted : Option RetryPolicy → List RetryEvent → Type 0
SleepsPermitted o [] = Unit {0}
SleepsPermitted o (slept d ∷ es) = Permitted o d × SleepsPermitted o es
SleepsPermitted o (invoked attempt duration ∷ es) = SleepsPermitted o es
SleepsPermitted o (tool_end attempt ∷ es) = SleepsPermitted o es
SleepsPermitted o (tool_retry attempt error ∷ es) = SleepsPermitted o es

-- With one attempt at most there is no second.
calculate_backoff-Permitted :
    (o : Option RetryPolicy) (attempt : ℕ) (config : EngineConfig) {d : ℕ}
    → 1 < max_attempts o
    → calculate_backoff o attempt config ≡ some d
    → Permitted o d
unfolding calculate_backoff max_attempts
calculate_backoff-Permitted none attempt config more h = absurd (omega arith)
calculate_backoff-Permitted (some p) attempt config more h =
    at_most-le p.max_delay (raw_delay p.backoff p.base_delay attempt) h

module _ (config : EngineConfig) (step : Step) (workflow_id : Text) (world : Surroundings)
    (env : Envelope Json) where
  abbrev Fine : Attempts → Type 0
  Fine o = SleepsPermitted step.retry o.1

  after_answer-Fine :
      (max attempt : ℕ) (next : Option ToolError → Attempts) (r : Result (Envelope Json) ToolError)
      → ((last : Option ToolError) → Fine (next last))
      → Fine (after_answer config step workflow_id world env max attempt next r)
  after_answer-Fine max attempt next (ok output) f = tt
  after_answer-Fine max attempt next (err e) f =
      elim (Bool-cases (not (is_retryable e) || leb max attempt)) [
        | inl over ↦ rw over tt
        | inr more ↦ rw more (f (some e))
      ]

  after_sleep-Fine :
      (o : Option ℕ) (rest : Attempts)
      → ((d : ℕ) → o ≡ some d → Permitted step.retry d)
      → Fine rest
      → Fine (after_sleep config step workflow_id world env o rest)
  after_sleep-Fine none rest p f = tt
  after_sleep-Fine (some d) rest p f = (p d refl, f)

  one_attempt-Fine :
      (attempt : ℕ) (next : Option ToolError → Attempts)
      → attempt ≤ max_attempts step.retry
      → ((last : Option ToolError) → Fine (next last))
      → Fine (one_attempt config step workflow_id world env (max_attempts step.retry) attempt next)
  one_attempt-Fine attempt next le f =
      let max = max_attempts step.retry in
      let now =
        after_answer-Fine max attempt next (answer_at config step workflow_id world env attempt)
          f in
      elim (Bool-cases (world.cancelled_at attempt)) [
        | inl e ↦ rw e tt
        | inr on ↦ rw on (elim (Bool-cases (is_past (world.time_at attempt) env.deadline)) [
          | inl e ↦ rw e tt
          | inr in_time ↦ rw in_time (elim (Bool-cases (ltb 1 attempt)) [
            | inr first ↦ rw first now
            | inl again ↦ rw again (
                after_sleep-Fine (calculate_backoff step.retry (attempt - 1) config)
                  (attempt_now config step workflow_id world env max attempt next)
                  (λ d h.
                    calculate_backoff-Permitted step.retry (attempt - 1) config (ground arith) h)
                  now)
          ])
        ])
      ]

  attempts_from-Fine :
      (left made : ℕ) (last : Option ToolError)
      → made + left ≡ max_attempts step.retry
      → Fine (
          attempts_from config step workflow_id world env left
            (max_attempts step.retry)
            (suc made)
            last)
  unfolding attempts_from
  attempts_from-Fine zero made last sum = tt
  attempts_from-Fine (suc left) made last sum =
      one_attempt-Fine (suc made)
        (attempts_from config step workflow_id world env left (max_attempts step.retry)
          (suc (suc made)))
        (omega arith) (λ e. attempts_from-Fine left (suc made) e (omega arith))

  -- However the attempts go, no sleep between them is longer than the policy's maximal delay, and
  -- without a policy there is none.
  pub invoke_with_retry-SleepsPermitted :
      SleepsPermitted step.retry (invoke_with_retry config step workflow_id world env).1
  unfolding invoke_with_retry
  invoke_with_retry-SleepsPermitted =
      attempts_from-Fine (max_attempts step.retry) 0 none (omega arith)
