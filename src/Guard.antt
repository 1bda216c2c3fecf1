-- ===== src/Guard.antt =====
-- crates/konf-runtime/src/guard.rs: deny and allow rules over a tool's input. A tool is what it
-- answers to an envelope; `GuardedTool` and `VirtualizedTool` wrap one.
pub mod Glob
pub mod Paths
pub mod Evaluate
mod Tests
use mathlib.Core.Option
use konf.Shared.{
  ℕ, ◌+◌, ◌*◌, ◌-◌, ◌^◌, Bool, true, false, not, ◌&&◌, ◌||◌, Option, none, some, List, [], ◌∷◌,
  ◌++◌, if◌then◌else◌, leb, ltb, ◌==◌, Text, text, text_eq, starts_with, Json, null, array, object,
  as_str, is_null, get_field, get_item, json_eq, Result, ok, err, ◌>>◌,
}
use konf.Capability.{ToolError, capability_denied}
use konf.Envelope.{Envelope}
use Glob.{glob_matches}

-- `s.contains(value)`
unfoldable pub contains : Text → Text → Bool
contains [] value = text_eq [] value
contains (c ∷ s) value = starts_with (c ∷ s) value || contains s value

abbrev pub cons_first : ℕ → List Text → List Text
cons_first c [] = (c ∷ []) ∷ []
cons_first c (s ∷ segments) = (c ∷ s) ∷ segments

-- `s.split(separator)`
unfoldable pub split : ℕ → Text → List Text
split separator [] = [] ∷ []
split separator (c ∷ s) =
    let segments = split separator s in
    if c == separator then [] ∷ segments else cons_first c segments

abbrev is_digit : ℕ → Bool
is_digit c = leb b'0' c && leb c b'9'

-- The digits of a `usize`, with the overflow check.
parse_digits : ℕ → Text → Option ℕ
parse_digits n [] = if ltb n (2 ^ 64) then some n else none
parse_digits n (c ∷ s) =
    let more = parse_digits (n * 10 + (c - b'0')) s in
    if is_digit c && ltb n (2 ^ 64) then more else none

unsigned : Text → Option ℕ
unsigned [] = none
unsigned (c ∷ s) = parse_digits 0 (c ∷ s)

-- `segment.parse::<usize>()`: digits, behind a plus sign or not.
unfoldable pub parse_usize : Text → Option ℕ
unfolding unsigned parse_digits
parse_usize [] = none
parse_usize (c ∷ s) = if c == b'+' then unsigned s else unsigned (c ∷ s)

abbrev item_at : Option ℕ → (ℕ → Option Json) → Option Json
item_at none f = none
item_at (some i) f = f i

resolve_segment : Json → Text → Option Json
resolve_segment (object fs) segment = get_field segment fs
resolve_segment (array vs) segment = item_at (parse_usize segment) (get_item vs)
resolve_segment _ segment = none

-- The loop of `resolve_path` over the segments.
unfoldable pub resolve_segments : Option Json → List Text → Option Json
unfolding resolve_segment
resolve_segments current [] = current
resolve_segments none (segment ∷ segments) = none
resolve_segments (some v) (segment ∷ segments) =
    resolve_segments (resolve_segment v segment) segments

unfoldable pub resolve_path : Json → Text → Option Json
resolve_path value path = resolve_segments (some value) (split b'.' path)

mutual
  pub data Predicate : Type 0 where
    contains_text : Text → Text → Predicate
    matches_glob : Text → Text → Predicate
    equals : Text → Json → Predicate
    exists : Text → Predicate
    negation : Predicate → Predicate
    all_of : Predicates → Predicate
    any_of : Predicates → Predicate

  pub data Predicates : Type 0 where
    nil : Predicates
    cons : Predicate → Predicates → Predicates

-- `and_then(as_str).is_some_and(test)` and `is_some_and(test)`
abbrev pub on_text : (Text → Bool) → Option Json → Bool
on_text test v = elim (Option.bind v as_str) [ none ↦ false | some s ↦ test s ]

abbrev pub on_value : (Json → Bool) → Option Json → Bool
on_value test none = false
on_value test (some v) = test v

unfoldable mutual
  pub predicate_matches : Predicate → Json → Bool
  predicate_matches (contains_text path value) input =
      on_text (λ s. contains s value) (resolve_path input path)
  predicate_matches (matches_glob path pattern) input =
      on_text (glob_matches pattern) (resolve_path input path)
  predicate_matches (equals path value) input =
      on_value (λ v. json_eq v value) (resolve_path input path)
  predicate_matches (exists path) input = on_value (λ v. not (is_null v)) (resolve_path input path)
  predicate_matches (negation p) input = not (predicate_matches p input)
  predicate_matches (all_of ps) input = all_match ps input
  predicate_matches (any_of ps) input = any_match ps input

  pub all_match : Predicates → Json → Bool
  all_match nil input = true
  all_match (cons p ps) input = predicate_matches p input && all_match ps input

  pub any_match : Predicates → Json → Bool
  any_match nil input = false
  any_match (cons p ps) input = predicate_matches p input || any_match ps input

pub data Rule : Type 0 where
  deny : Predicate → Text → Rule
  allow : Predicate → Rule

pub data DefaultAction : Type 0 where
  allow_unmatched deny_unmatched : DefaultAction

abbrev pub unmatched : Text → DefaultAction → Result (Unit {0}) ToolError
unmatched tool_name allow_unmatched = ok tt
unmatched tool_name deny_unmatched = err (
    capability_denied
      (text "guard denied: no rule matched for tool '" ++ (tool_name ++ text "' (default: deny)")))

-- `GuardedTool::evaluate`; `tool_name` is the inner tool's.
unfoldable pub evaluate : Text → List Rule → DefaultAction → Json → Result (Unit {0}) ToolError
evaluate tool_name [] default_action input = unmatched tool_name default_action
evaluate tool_name (deny p message ∷ rules) default_action input =
    let next = evaluate tool_name rules default_action input in
    if predicate_matches p input
    then err (capability_denied (text "guard denied: " ++ message))
    else next
evaluate tool_name (allow p ∷ rules) default_action input =
    let next = evaluate tool_name rules default_action input in
    if predicate_matches p input then ok tt else next

abbrev pub Tool : Type 0
Tool = Envelope Json → Result (Envelope Json) ToolError

-- `GuardedTool::invoke`
unfoldable pub guarded : Text → List Rule → DefaultAction → Tool → Tool
guarded tool_name rules default_action inner env =
    evaluate tool_name rules default_action env.payload >> inner env
