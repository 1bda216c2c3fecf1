-- ===== src/Dispatcher/Effects.antt =====
-- `Dispatcher::dispatch_tool`: what its caller, the journal and the event bus see of a dispatch.
use konf.Shared.{
  ℕ, ◌≡◌, refl, sym, ap, subst, ◌++◌, Option, none, some, List, [], ◌∷◌, Text, text, Table, Json,
  lookup, false, Result, ok, err, is_ok,
}
use konf.Capability.{ToolError}
use konf.Envelope.{Envelope}
use konf.Guard.{Tool}
use konf.Scope.{RuntimeError, tool_failed, check_tool}
use konf.EventBus.{RunEvent, tool_invoked, journal_appended}
use konf.Journal.{
  Interaction, InteractionStatus, success, failure, tool_dispatch, JournalEntry, JournalRow,
  JournalStore, JournalError,
}
use konf.Dispatcher.{
  Formats, Moment, Dispatcher, Call, Dispatched, describe, past_deadline, payload_of, status_of,
  interaction_of, entry_of, appended, append_to, invoke, scoped_key, dispatch_tool,
}
use konf.Dispatcher.Cases.{
  answer, cached_row, Refusal, Course, refused, replayed, invoked, dispatch_tool-Course,
}

abbrev pub Answer : Type 0
Answer = Result (Envelope Json) ToolError

module _ {S : Type 0} (formats : Formats) (self : Dispatcher S) (moment : Moment)
    (call : Call) where
  -- The caller gets the payload of the answer, or an error with the text of the answer's error.
  abbrev pub Returns : Answer → Result Json RuntimeError → Type 0
  Returns (ok env) r = r ≡ ok env.payload
  Returns (err e) r = r ≡ err (tool_failed call.tool_name (describe formats e))

  abbrev pub Status : Answer → InteractionStatus → Type 0
  Status (ok env) status = status ≡ success
  Status (err e) status = status ≡ failure (describe formats e)

  -- The key of an entry: that of the call behind the tool's name, where the call has one.
  abbrev pub Key : Option Text → Option Text → Type 0
  Key none key = key ≡ none
  Key (some k) key = key ≡ some (call.tool_name ++ (text ":" ++ k))

  -- The entry tells of the call and of its answer.
  pub record TellsOf (a : Answer) (entry : JournalEntry) : Type 0 where
    pub interaction : Interaction
    pub payload : entry.payload ≡ formats.interaction_json interaction
    pub event_type : entry.event_type ≡ text "interaction"
    pub session_id : entry.session_id ≡ call.ctx.session_id
    pub namespace : entry.namespace ≡ call.scope.namespace
    pub run_id : entry.run_id ≡ none
    pub key : Key call.ctx.idempotency_key entry.idempotency_key
    pub target : interaction.target ≡ text "tool:" ++ call.tool_name
    pub kind : interaction.kind ≡ tool_dispatch
    pub actor : interaction.actor ≡ call.scope.actor
    pub trace_id : interaction.trace_id ≡ call.ctx.trace_id
    pub parent_id : interaction.parent_id ≡ call.ctx.parent_interaction_id
    pub status : Status a interaction.status

  abbrev pub call_event : Answer → RunEvent
  call_event a = tool_invoked call.tool_name call.scope.namespace moment.ended_at (is_ok a)

  -- The call is announced, and where there is a journal it has one more entry, which tells of the
  -- call; the entry is announced behind the call if it was written.
  abbrev pub Announced : Option (JournalStore S) → S → Answer → S → List RunEvent → Type 0
  Announced none s a after events = (after ≡ s) × (events ≡ call_event a ∷ [])
  Announced (some journal) s a after events =
      (entry : JournalEntry) × TellsOf a entry
      × (after ≡ (journal.append entry s).0)
      × ((n : ℕ)
          → (journal.append entry s).1 ≡ ok n
          → events
            ≡ call_event a ∷ journal_appended n (text "interaction") call.scope.namespace 0 ∷ [])
      × ((e : JournalError) → (journal.append entry s).1 ≡ err e → events ≡ call_event a ∷ [])

  pub data Observed (s : S) (d : Dispatched S) : Type 0 where
    is_refused :
        (e : RuntimeError)
        → Refusal formats self moment call e
        → d.result ≡ err e
        → d.state ≡ s
        → d.events ≡ []
        → Observed s d
    is_replayed :
        (bindings : Table Json) (row : JournalRow)
        → check_tool call.scope call.tool_name ≡ ok bindings
        → cached_row formats self moment call s ≡ some row
        → d.result ≡ ok row.payload
        → d.state ≡ s
        → d.events ≡ []
        → Observed s d
    is_invoked :
        (bindings : Table Json) (raw : Tool)
        → check_tool call.scope call.tool_name ≡ ok bindings
        → lookup call.tool_name call.registry ≡ some raw
        → past_deadline moment.now call.ctx.deadline ≡ false
        → cached_row formats self moment call s ≡ none
        → Returns (answer formats self moment call bindings raw) d.result
        → Announced self.journal s (answer formats self moment call bindings raw) d.state d.events
        → Observed s d

  payload_of-Returns : (a : Answer) → Returns a (payload_of formats call.tool_name a)
  payload_of-Returns (ok env) = refl
  payload_of-Returns (err e) = refl

  status_of-Status : (a : Answer) → Status a (status_of formats a)
  status_of-Status (ok env) = refl
  status_of-Status (err e) = refl

  scoped_key-Key : (o : Option Text) → Key o (scoped_key call.tool_name o)
  scoped_key-Key none = refl
  scoped_key-Key (some k) = refl

  entry_of-TellsOf :
      (bindings : Table Json) (a : Answer) → TellsOf a (entry_of formats moment call bindings a)
  unfolding entry_of interaction_of
  entry_of-TellsOf bindings a = record {
    interaction = interaction_of formats moment call bindings a;
    payload = refl;
    event_type = refl;
    session_id = refl;
    namespace = refl;
    run_id = refl;
    key = scoped_key-Key call.ctx.idempotency_key;
    target = refl;
    kind = refl;
    actor = refl;
    trace_id = refl;
    parent_id = refl;
    status = status_of-Status a;
  }

  append_to-Announced :
      (o : Option (JournalStore S)) (bindings : Table Json) (a : Answer) (s : S)
      → (let (after, events) =
            append_to o call.scope.namespace (entry_of formats moment call bindings a) s in
          Announced o s a after (call_event a ∷ events))
  append_to-Announced none bindings a s = (refl, refl)
  append_to-Announced (some journal) bindings a s = (
    entry_of formats moment call bindings a,
    entry_of-TellsOf bindings a,
    refl,
    λ n q. ap (λ r. call_event a ∷ appended call.scope.namespace r) q,
    λ e q. ap (λ r. call_event a ∷ appended call.scope.namespace r) q,
  )

  Course-Observed : (s : S) (d : Dispatched S) → Course formats self moment call s d → Observed s d
  unfolding invoke
  Course-Observed s d (refused e why q) =
      is_refused e why (ap (λ (z : Dispatched S). z.result) q)
        (ap (λ (z : Dispatched S). z.state) q) (ap (λ (z : Dispatched S). z.events) q)
  Course-Observed s d (replayed bindings row g c q) =
      is_replayed bindings row g c (ap (λ (z : Dispatched S). z.result) q)
        (ap (λ (z : Dispatched S). z.state) q) (ap (λ (z : Dispatched S). z.events) q)
  Course-Observed s d (invoked bindings raw g l soon c q) =
      let a = answer formats self moment call bindings raw in
      is_invoked bindings raw g l soon c
        (subst (λ (z : Dispatched S). Returns a z.result) (sym q) (payload_of-Returns a))
        (subst (λ (z : Dispatched S). Announced self.journal s a z.state z.events) (sym q)
          (append_to-Announced self.journal bindings a s))

  -- A dispatch goes one of three ways. It is refused with an error, because the scope does not grant
  -- the tool, the registry lacks it or the deadline has passed: then the journal stays as it is and
  -- no event is emitted. Or the payload of a row of the journal is its result, likewise without
  -- effect. Or the wrapped tool is called: then the result is the payload of its answer or an error
  -- that names the tool and has the text of its error, the call is announced, and where there is a
  -- journal, an entry that tells of the call, of who made it and of how it ended has been appended,
  -- which is announced too if it was written.
  pub dispatch_tool-Observed : (s : S) → Observed s (dispatch_tool formats self moment call s)
  dispatch_tool-Observed s =
      Course-Observed s (dispatch_tool formats self moment call s)
        (dispatch_tool-Course formats self moment call s)
