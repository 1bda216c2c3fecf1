-- ===== src/Dispatcher/Cases.antt =====
-- `Dispatcher::dispatch_tool`: the ways that a dispatch can go.
use konf.Shared.{
  ◌≡◌, refl, inl, inr, true, false, Option, none, some, Bool-cases, Option-cases, Table, Json,
  lookup, Result, ok, err,
}
use konf.Capability.{ToolError}
use konf.Envelope.{Envelope}
use konf.Guard.{Tool}
use konf.Scope.{RuntimeError, check_tool, deadline_exceeded}
use konf.Wrapping.{wrap}
use konf.Journal.{JournalRow}
use konf.Dispatcher.{
  Formats, Moment, Dispatcher, Call, Dispatched, past_deadline, scoped_key, dispatch_envelope,
  cached, stop, replay, invoke, missing, dispatch_wrapped, dispatch_granted, dispatch_checked,
  dispatch_tool,
}

module _ {S : Type 0} (formats : Formats) (self : Dispatcher S) (moment : Moment)
    (call : Call) where
  -- The answer of the wrapped tool.
  abbrev pub answer : Table Json → Tool → Result (Envelope Json) ToolError
  answer bindings raw =
      wrap call.tool_name self.tool_guards bindings raw (dispatch_envelope moment call)

  abbrev pub cached_row : S → Option JournalRow
  cached_row s = cached self.journal (scoped_key call.tool_name call.ctx.idempotency_key) s

  -- Why a dispatch stops before the tool is called.
  pub data Refusal : RuntimeError → Type 0 where
    not_granted : {e : RuntimeError} → check_tool call.scope call.tool_name ≡ err e → Refusal e
    not_registered :
        {e : RuntimeError}
        → lookup call.tool_name call.registry ≡ none
        → e ≡ missing call.tool_name
        → Refusal e
    too_late :
        {e : RuntimeError}
        → past_deadline moment.now call.ctx.deadline ≡ true
        → e ≡ deadline_exceeded call.tool_name
        → Refusal e

  -- What a dispatch comes to, from the state `s`.
  pub data Course (s : S) (d : Dispatched S) : Type 0 where
    refused : (e : RuntimeError) → Refusal e → d ≡ stop e s → Course s d
    replayed :
        (bindings : Table Json) (row : JournalRow)
        → check_tool call.scope call.tool_name ≡ ok bindings
        → cached_row s ≡ some row
        → d ≡ replay row s
        → Course s d
    invoked :
        (bindings : Table Json) (raw : Tool)
        → check_tool call.scope call.tool_name ≡ ok bindings
        → lookup call.tool_name call.registry ≡ some raw
        → past_deadline moment.now call.ctx.deadline ≡ false
        → cached_row s ≡ none
        → d ≡ invoke formats self moment call bindings (answer bindings raw) s
        → Course s d

  wrapped-Course :
      (bindings : Table Json) (raw : Tool) (s : S)
      → check_tool call.scope call.tool_name ≡ ok bindings
      → lookup call.tool_name call.registry ≡ some raw
      → Course s (dispatch_wrapped formats self moment call bindings raw s)
  unfolding dispatch_wrapped
  wrapped-Course bindings raw s g l =
      elim (Bool-cases (past_deadline moment.now call.ctx.deadline)) [
        | inl late ↦ refused (deadline_exceeded call.tool_name) (too_late late refl) (rw late)
        | inr soon ↦ elim (Option-cases (cached_row s)) [
          | inl e ↦ invoked bindings raw g l soon e (rw (soon, e))
          | inr (row, e) ↦ replayed bindings row g e (rw (soon, e))
        ]
      ]

  granted-Course :
      (bindings : Table Json) (o : Option Tool) (s : S)
      → check_tool call.scope call.tool_name ≡ ok bindings
      → lookup call.tool_name call.registry ≡ o
      → Course s (dispatch_granted formats self moment call bindings o s)
  unfolding dispatch_granted
  granted-Course bindings none s g l = refused (missing call.tool_name) (not_registered l refl) refl
  granted-Course bindings (some raw) s g l = wrapped-Course bindings raw s g l

  checked-Course :
      (r : Result (Table Json) RuntimeError) (s : S)
      → check_tool call.scope call.tool_name ≡ r
      → Course s (dispatch_checked formats self moment call r s)
  unfolding dispatch_checked
  checked-Course (err e) s h = refused e (not_granted h) refl
  checked-Course (ok b) s h = granted-Course b (lookup call.tool_name call.registry) s h refl

  -- A dispatch stops with an error before the tool is called, replays a row of the journal, or
  -- invokes the wrapped tool.
  pub dispatch_tool-Course : (s : S) → Course s (dispatch_tool formats self moment call s)
  unfolding dispatch_tool
  dispatch_tool-Course s = checked-Course (check_tool call.scope call.tool_name) s refl
