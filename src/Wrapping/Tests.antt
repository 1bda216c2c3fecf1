-- ===== src/Wrapping/Tests.antt =====
-- A scoped engine, and the theorems about the wrapping at concrete inputs.
use konf.Shared.{
  ◌≡◌, refl, none, some, [], ◌∷◌, Text, text, text_eq, strip_suffix, starts_with_then, starts_with,
  char_is, Table, Json, string, lookup, insert, ok,
}
use konf.Capability.{matches}
use konf.Envelope.{Envelope}
use konf.Guard.{
  Tool, deny, exists, allow_unmatched, evaluate, predicate_matches, resolve_path, resolve_segments,
  split, guarded,
}
use konf.Process.{user_agent}
use konf.Scope.{ExecutionScope, default_limits, grant, grant_matches, check_tool}
use konf.Wrapping.{ToolGuardEntry, wrap, register_tool, register_all, build_scoped_engine}
use konf.Wrapping.Scoped.{Source, build_scoped_engine-Source}
use konf.Wrapping.Layers.{RulesPassed, Called, wrap-ok}

abbrev scope : ExecutionScope
scope = record {
  namespace = text "konf:a";
  capabilities = grant (text "memory:*") ∷ [];
  limits = default_limits;
  actor = record { id = text "bot"; role = user_agent };
  depth = 0;
}

abbrev search : Text
search = text "memory:search"

abbrev safe_search : Text
safe_search = text "workflow:safe"

abbrev echo : Tool
echo env = ok env

abbrev registry : Table Tool
registry = (search, echo) ∷ (safe_search, echo) ∷ (text "shell:exec", echo) ∷ []

abbrev redirect : ToolGuardEntry
redirect = record { rules = []; default_action = allow_unmatched; alias = some safe_search }

-- The alias of a granted tool is there, under its own name, although no grant covers that name.
alias_registered :
    lookup safe_search (build_scoped_engine scope ((search, redirect) ∷ []) registry) ≡ some echo
unfolding build_scoped_engine register_all register_tool lookup insert check_tool grant_matches
    matches text_eq strip_suffix starts_with_then starts_with char_is
alias_registered = refl

original_gone : lookup search (build_scoped_engine scope ((search, redirect) ∷ []) registry) ≡ none
unfolding build_scoped_engine register_all register_tool lookup insert check_tool grant_matches
    matches text_eq strip_suffix starts_with_then starts_with char_is
original_gone = refl

build_scoped_engine-Source_example :
    Source scope ((search, redirect) ∷ []) registry safe_search echo
build_scoped_engine-Source_example =
    build_scoped_engine-Source scope ((search, redirect) ∷ []) registry safe_search echo
      alias_registered

abbrev call : Envelope Json
call = record {
  id = 1;
  trace_id = 2;
  parent_id = none;
  actor_id = text "bot";
  namespace = text "konf:a";
  capabilities = record { capabilities = [] };
  target = search;
  payload_type = text "tool_input";
  payload = string (text "cats");
  emitted_at = 3;
  step_index = 0;
  stream_id = text "s";
  deadline = none;
  idempotency_key = none;
  qos_class = none;
  references = none;
  metadata = [];
}

abbrev no_key : ToolGuardEntry
no_key = record {
  rules = deny (exists (text "key")) (text "no key") ∷ [];
  default_action = allow_unmatched;
  alias = none;
}

answered : wrap search ((search, no_key) ∷ []) [] echo call ≡ ok call
unfolding wrap lookup text_eq guarded evaluate predicate_matches resolve_path resolve_segments split
answered = refl

wrap-ok_example :
    RulesPassed search (lookup search ((search, no_key) ∷ [])) call.payload
    × Called [] echo call call
wrap-ok_example = wrap-ok search ((search, no_key) ∷ []) [] echo call call answered
