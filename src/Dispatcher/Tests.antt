-- ===== src/Dispatcher/Tests.antt =====
-- Dispatches with a concrete journal, and the theorems about them.
use mathlib.Core.Option
use konf.Shared.{
  ℕ, ◌≡◌, refl, ap, ◌∙◌, Bool, false, Option, none, some, List, [], ◌∷◌, if◌then◌else◌, Text, text,
  text_eq, text_eq_self, strip_suffix, starts_with_then, starts_with, char_is, Json, string, object,
  field, end, lookup, insert, length, as_object, as_str, insert_field, get_field, Result, ok, err,
  is_ok,
}
use konf.Capability.{matches, ToolError}
use konf.Envelope.{Envelope, for_tool_dispatch}
use konf.Guard.{
  guarded, Tool, deny, contains_text, evaluate, predicate_matches, resolve_path, resolve_segments,
  split, contains, allow_unmatched,
}
use konf.Process.{user_agent}
use konf.Context.{inject_bindings, virtualized}
use konf.Scope.{ExecutionScope, RuntimeError, default_limits, grant_matches, check_tool}
use konf.Scope.Check.{GrantsTool, check_tool-iff-GrantsTool}
use konf.Wrapping.{ToolGuardEntry, wrap}
use konf.Execution.{ExecutionContext, context_of}
use konf.Journal.{JournalStore, JournalEntry, JournalRow}
use konf.Dispatcher.{
  Formats, Moment, Dispatcher, Call, stop, dispatch_envelope, interaction_of, invoke,
  dispatch_wrapped, dispatch_granted, dispatch_checked, dispatch_tool,
}
use konf.Dispatcher.Effects.{Observed, dispatch_tool-Observed}
use konf.Dispatcher.Safe.{LetThrough, dispatch_tool-LetThrough, dispatch_tool-denied}
use konf.Dispatcher.Metadata.{context_of-dispatch_envelope}
use konf.Dispatcher.Replay.{FindsLast, dispatch_tool-repeat}

abbrev Rows : Type 0
Rows = List JournalRow

abbrev row_of : JournalEntry → ℕ → JournalRow
row_of entry id = record {
  id = id;
  run_id = entry.run_id;
  session_id = entry.session_id;
  namespace = entry.namespace;
  event_type = entry.event_type;
  payload = entry.payload;
  created_at = 0;
  valid_to = entry.valid_to;
  idempotency_key = entry.idempotency_key;
}

abbrev key_is : Option Text → Text → Bool
key_is none key = false
key_is (some k) key = text_eq k key

abbrev find_key : Text → Rows → Option JournalRow
find_key key [] = none
find_key key (row ∷ rows) =
    let rest = find_key key rows in if key_is row.idempotency_key key then some row else rest

-- A journal that keeps its rows, the last one first.
abbrev rows_journal : JournalStore Rows
rows_journal = record {
  append = λ entry s. (row_of entry (length s) ∷ s, ok (length s));
  get_by_idempotency_key = λ key s. ok (find_key key s);
}

abbrev AnyRows : Rows → Type 0
AnyRows s = Unit {0}

rows_journal-FindsLast : FindsLast rows_journal AnyRows
rows_journal-FindsLast entry key s n v w e a = (
  row_of entry (length s),
  ap (λ (b : Bool). ok (if b then some (row_of entry (length s)) else find_key key s))
      (ap (λ (o : Option Text). key_is o key) e ∙ text_eq_self key),
  refl,
)

abbrev formats : Formats
formats = record { interaction_json = λ i. string i.target; decimal = λ n. [] }

abbrev memory_search : Text
memory_search = text "memory:search"

abbrev agent : ExecutionScope
agent = record {
  namespace = text "konf:a";
  capabilities =
      record {
        pattern = text "memory:*";
        bindings = (text "namespace", string (text "konf:a")) ∷ [];
      }
      ∷ [];
  limits = default_limits;
  actor = record { id = text "bot"; role = user_agent };
  depth = 2;
}

abbrev once : ExecutionContext
once = record {
  trace_id = 5;
  parent_interaction_id = none;
  session_id = text "s";
  deadline = some 90;
  idempotency_key = some (text "k");
}

abbrev echo : Tool
echo env = ok env

abbrev search : Call
search = record {
  tool_name = memory_search;
  input = object (field (text "query") (string (text "cats")) end);
  scope = agent;
  ctx = once;
  registry = (memory_search, echo) ∷ [];
}

abbrev delete : Call
delete = record search { tool_name = text "shell:exec" }

abbrev moment : Moment
moment = record {
  now = 10;
  envelope_id = 1;
  emitted_at = 10;
  interaction_id = 2;
  started_at = 10;
  ended_at = 20;
  state_before_hash = none;
  state_after_hash = none;
}

abbrev no_secrets : ToolGuardEntry
no_secrets = record {
  rules = deny (contains_text (text "query") (text "secret")) (text "no secrets") ∷ [];
  default_action = allow_unmatched;
  alias = none;
}

abbrev self : Dispatcher Rows
self = record { tool_guards = (memory_search, no_secrets) ∷ []; journal = some rows_journal }

abbrev found : Json
found = object (
    field (text "query") (string (text "cats"))
      (field (text "namespace") (string (text "konf:a")) end))

dispatched : (dispatch_tool formats self moment search []).result ≡ ok found
unfolding dispatch_tool dispatch_checked dispatch_granted dispatch_wrapped invoke check_tool
    grant_matches matches text_eq strip_suffix starts_with_then starts_with char_is lookup insert
    wrap evaluate predicate_matches resolve_path resolve_segments split contains virtualized
    inject_bindings as_object as_str insert_field get_field dispatch_envelope for_tool_dispatch
    Option.bind guarded
dispatched = refl

dispatch_tool-Observed_example :
    Observed formats self moment search [] (dispatch_tool formats self moment search [])
dispatch_tool-Observed_example = dispatch_tool-Observed formats self moment search []

dispatch_tool-LetThrough_example : LetThrough formats self moment search found
dispatch_tool-LetThrough_example =
    dispatch_tool-LetThrough formats self moment search [] found refl dispatched

shell_refused : is_ok (check_tool agent (text "shell:exec")) ≡ false
unfolding check_tool grant_matches matches text_eq strip_suffix starts_with_then starts_with char_is
shell_refused = refl

not_covered : GrantsTool agent.capabilities (text "shell:exec") → ⊥
not_covered g = cc (shell_refused, (check_tool-iff-GrantsTool agent (text "shell:exec")).1 g)

dispatch_tool-denied_example :
    (e : RuntimeError) × (dispatch_tool formats self moment delete [] ≡ stop e [])
dispatch_tool-denied_example = dispatch_tool-denied formats self moment delete [] not_covered

context_of-dispatch_envelope_example :
    context_of (dispatch_envelope moment search) ≡ record once { parent_interaction_id = none }
context_of-dispatch_envelope_example = context_of-dispatch_envelope moment search

-- The answer of a first call that failed.
abbrev first_failed : Result (Envelope Json) ToolError
first_failed = err (ToolError.timeout 5)

search_granted :
    check_tool agent memory_search ≡ ok ((text "namespace", string (text "konf:a")) ∷ [])
unfolding check_tool grant_matches matches text_eq strip_suffix starts_with_then starts_with char_is
search_granted = refl

search_registered : lookup memory_search search.registry ≡ some echo
unfolding lookup text_eq
search_registered = refl

dispatch_tool-repeat_example :
    (dispatch_tool formats self moment search
      (invoke formats self moment search [] first_failed []).state).result
    ≡ ok (string (text "tool:memory:search"))
unfolding interaction_of
dispatch_tool-repeat_example =
    dispatch_tool-repeat formats self rows_journal moment moment search search [] []
      ((text "namespace", string (text "konf:a")) ∷ []) echo first_failed 0 (text "k") AnyRows
      rows_journal-FindsLast tt refl refl refl refl refl search_granted search_registered refl
