-- ===== src/Executor/Retry/Course.antt =====
-- About the course of `invoke_with_retry`.
use konf.Shared.{
  ℕ, zero, suc, ◌+◌, ◌-◌, ◌≤◌, ◌<◌, ◌≡◌, refl, ap, ◌∙◌, ◌⊎◌, inl, inr, true, false, not, ◌||◌,
  Option, none, some, List, [], ◌∷◌, leb, ltb, arith, Bool-cases, Text, Json, Result, ok, err,
}
use konf.Capability.{ToolError, timeout}
use konf.Envelope.{Envelope}
use konf.Engine.{EngineConfig}
use konf.Workflow.{Step}
use konf.Executor.{KonfluxError, execution, tool, cancelled}
use konf.Executor.Backoff.{calculate_backoff}
use konf.Executor.Retry.{
  RetryEvent, slept, invoked, tool_end, tool_retry, Surroundings, Attempts, then_event,
  is_retryable, is_past, max_attempts, no_attempts, answer_at, duration_at, after_answer,
  attempt_now, after_sleep, one_attempt, attempts_from, invoke_with_retry,
}

-- The attempts that called the tool.
abbrev pub invocations : List RetryEvent → List ℕ
invocations [] = []
invocations (invoked attempt duration ∷ es) = attempt ∷ invocations es
invocations (slept delay ∷ es) = invocations es
invocations (tool_end attempt ∷ es) = invocations es
invocations (tool_retry attempt error ∷ es) = invocations es

-- `n` numbers in sequence, behind `made`.
abbrev pub numbers : (made n : ℕ) → List ℕ
numbers made zero = []
numbers made (suc n) = suc made ∷ numbers (suc made) n

one_less : (n : ℕ) → suc n - 1 ≡ n
one_less n = omega arith

module _ (config : EngineConfig) (step : Step) (workflow_id : Text) (world : Surroundings)
    (env : Envelope Json) where
  abbrev pub answer_of : ℕ → Result (Envelope Json) ToolError
  answer_of = answer_at config step workflow_id world env

  -- The attempt failed, with an error that allows another one.
  abbrev pub FailsAgain : ℕ → Type 0
  FailsAgain j = (e : ToolError) × (answer_of j ≡ err e) × (is_retryable e ≡ true)

  -- Why the attempts end after the first `k`, and with what.
  pub data Stop (k : ℕ) : Option (Result (Envelope Json) KonfluxError) → Type 0 where
    was_cancelled :
        k < max_attempts step.retry
        → world.cancelled_at (suc k) ≡ true
        → Stop k (some (err (execution (cancelled workflow_id))))
    was_late :
        k < max_attempts step.retry
        → is_past (world.time_at (suc k)) env.deadline ≡ true
        → Stop k (some (err (tool (timeout 0))))
    panicked :
        0 < k
        → k < max_attempts step.retry
        → calculate_backoff step.retry k config ≡ none
        → Stop k none
    succeeded :
        {output : Envelope Json} → 0 < k → answer_of k ≡ ok output → Stop k (some (ok output))
    gave_up :
        {e : ToolError}
        → 0 < k
        → answer_of k ≡ err e
        → (is_retryable e ≡ false) ⊎ (k ≡ max_attempts step.retry)
        → Stop k (some (err (tool e)))
    not_tried : k ≡ 0 → max_attempts step.retry ≡ 0 → Stop k (some (err (tool no_attempts)))

  abbrev pub Course : ℕ → Attempts → Type 0
  Course made (r, es) =
      (k : ℕ) × (n : ℕ) × (made + n ≡ k)
      × (k ≤ max_attempts step.retry)
      × (invocations es ≡ numbers made n)
      × ((j : ℕ) → made < j → j < k → FailsAgain j)
      × Stop k r

  -- What the attempts from this one on have to show, if it calls the tool.
  abbrev Next : ℕ → (Option ToolError → Attempts) → Type 0
  Next made next =
      (last : Option ToolError) → suc made < max_attempts step.retry → Course (suc made) (next last)

  at_least :
      (made : ℕ) (o : Attempts) (e : ToolError) (d : ℕ)
      → answer_of (suc made) ≡ err e
      → is_retryable e ≡ true
      → Course (suc made) o
      → Course made (then_event (invoked (suc made) d) (then_event (tool_retry (suc made) e) o))
  at_least made (r, es) e d answer again (k, n, sum, le, nums, fails, why) = (
    k,
    suc n,
    omega arith,
    le,
    ap (λ z. suc made ∷ z) nums,
    λ j above below. elim (Bool-cases (ltb (suc made) j)) [
      | inl more ↦ fails j (ground arith) below
      | inr first ↦ let same : j ≡ suc made = ground arith in (e, ap answer_of same ∙ answer, again)
    ],
    why,
  )

  -- The attempts end after this call.
  ends_here :
      (made d : ℕ) (es : List RetryEvent) {r : Option (Result (Envelope Json) KonfluxError)}
      → suc made ≤ max_attempts step.retry
      → invocations es ≡ []
      → Stop (suc made) r
      → Course made (then_event (invoked (suc made) d) (r, es))
  ends_here made d es le silent why = (
    suc made,
    1,
    omega arith,
    le,
    ap (λ z. suc made ∷ z) silent,
    λ j above below. absurd (omega arith),
    why,
  )

  after_answer-Course :
      (made : ℕ) (next : Option ToolError → Attempts) (r : Result (Envelope Json) ToolError)
      → answer_of (suc made) ≡ r
      → suc made ≤ max_attempts step.retry
      → Next made next
      → Course made (
          then_event
            (invoked (suc made) (duration_at config step workflow_id world env (suc made)))
            (after_answer config step workflow_id world env
              (max_attempts step.retry)
              (suc made)
              next
              r))
  after_answer-Course made next (ok output) answer le go =
      ends_here made (duration_at config step workflow_id world env (suc made))
        (tool_end (suc made) ∷ []) le refl (succeeded (omega arith) answer)
  after_answer-Course made next (err e) answer le go =
      elim (Bool-cases (not (is_retryable e) || leb (max_attempts step.retry) (suc made))) [
        | inl over ↦ rw over (
            ends_here made (duration_at config step workflow_id world env (suc made)) [] le refl
              (gave_up (omega arith) answer (why over)))
        | inr more ↦ rw more (
            at_least made (next (some e)) e
              (duration_at config step workflow_id world env (suc made)) answer (ground arith)
              (go (some e) (ground arith)))
      ]
    where
      why :
          (not (is_retryable e) || leb (max_attempts step.retry) (suc made)) ≡ true
          → (is_retryable e ≡ false) ⊎ (suc made ≡ max_attempts step.retry)
      why h = elim (Bool-cases (is_retryable e)) [
        | inr no_more ↦ inl no_more
        | inl again ↦ inr (ground arith)
      ]

  attempt_now-Course :
      (made : ℕ) (next : Option ToolError → Attempts)
      → suc made ≤ max_attempts step.retry
      → Next made next
      → Course made
          (attempt_now config step workflow_id world env (max_attempts step.retry) (suc made) next)
  attempt_now-Course made next le go =
      after_answer-Course made next (answer_of (suc made)) refl le go

  -- The attempts end before this call.
  ends_before :
      (made : ℕ) {r : Option (Result (Envelope Json) KonfluxError)}
      → made ≤ max_attempts step.retry
      → Stop made r
      → Course made (r, [])
  ends_before made le why =
      (made, 0, omega arith, le, refl, λ j above below. absurd (omega arith), why)

  after_sleep-Course :
      (made : ℕ) (next : Option ToolError → Attempts) (o : Option ℕ)
      → calculate_backoff step.retry made config ≡ o
      → 0 < made
      → suc made ≤ max_attempts step.retry
      → Next made next
      → Course made (
          after_sleep config step workflow_id world env o (
            attempt_now config step workflow_id world env
              (max_attempts step.retry)
              (suc made)
              next))
  after_sleep-Course made next none e pos le go =
      ends_before made (omega arith) (panicked pos (omega arith) e)
  after_sleep-Course made next (some d) e pos le go = attempt_now-Course made next le go

  one_attempt-Course :
      (made : ℕ) (next : Option ToolError → Attempts)
      → suc made ≤ max_attempts step.retry
      → Next made next
      → Course made
          (one_attempt config step workflow_id world env (max_attempts step.retry) (suc made) next)
  one_attempt-Course made next le go = elim (Bool-cases (world.cancelled_at (suc made))) [
    | inl e ↦ rw e (ends_before made (omega arith) (was_cancelled (omega arith) e))
    | inr on ↦ rw on (elim (Bool-cases (is_past (world.time_at (suc made)) env.deadline)) [
      | inl e ↦ rw e (ends_before made (omega arith) (was_late (omega arith) e))
      | inr in_time ↦ rw in_time (elim (Bool-cases (ltb 1 (suc made))) [
        | inl again ↦
            rw (again, one_less made)
              (after_sleep-Course made next (calculate_backoff step.retry made config) refl
                (ground arith) le go)
        | inr first ↦ rw first (attempt_now-Course made next le go)
      ])
    ])
  ]

  attempts_from-Course :
      (left made : ℕ) (last : Option ToolError)
      → made + left ≡ max_attempts step.retry
      → (0 < made → 0 < left)
      → (made ≡ 0 → last ≡ none)
      → Course made (
          attempts_from config step workflow_id world env left
            (max_attempts step.retry)
            (suc made)
            last)
  unfolding attempts_from
  attempts_from-Course zero made last sum some_left first =
      let none_made : made ≡ 0 = ground arith in
      rw (first none_made) (ends_before made (omega arith) (not_tried none_made (omega arith)))
  attempts_from-Course (suc left) made last sum some_left first =
      one_attempt-Course made
        (attempts_from config step workflow_id world env left (max_attempts step.retry)
          (suc (suc made)))
        (omega arith)
        (λ e more.
          attempts_from-Course left (suc made) e (omega arith) (λ _. omega arith)
            (λ h. absurd (omega arith)))

  -- The tool is called in a row of attempts that are numbered from 1, no more than the policy
  -- permits. Every one before the last failed with a retryable error. The result is the last one's
  -- answer, if that is a value, if it is an error that is not retryable, or if no attempt is left.
  -- Otherwise the next attempt was stopped by a cancellation, by the deadline, or by a panic in the
  -- computation of its delay, or the policy permits no attempt at all.
  pub invoke_with_retry-Course : Course 0 (invoke_with_retry config step workflow_id world env)
  unfolding invoke_with_retry
  invoke_with_retry-Course =
      attempts_from-Course (max_attempts step.retry) 0 none (omega arith)
        (λ h. absurd (omega arith)) (λ _. refl)
