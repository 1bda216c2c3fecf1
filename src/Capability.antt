-- ===== src/Capability.antt =====
-- The capability types of crates/konflux-substrate/src/envelope.rs and the wrappers of
-- crates/konflux-substrate/src/capability.rs. Text is a list of code points; the byte slice that
-- `matches` takes is the character behind the prefix, since the prefix ends at a character.

pub mod Covers
pub mod Access
pub mod Attenuate
mod Tests
use konf.Shared.{
  ℕ, Bool, true, false, ◌||◌, Option, none, some, List, [], ◌∷◌, ◌++◌, map, if◌then◌else◌, Text,
  text, text_eq, strip_suffix, starts_with_then, any, Result, ok, err, ◌>>=◌, ◌>>◌,
}

-- `ToolError` of crates/konflux-substrate/src/error.rs
pub data ToolError : Type 0 where
  invalid_input : Text → Option Text → ToolError
  execution_failed : Text → Bool → ToolError
  timeout : ℕ → ToolError
  capability_denied : Text → ToolError
  access_denied : Text → ToolError
  not_found : Text → ToolError

abbrev pub star : Text
star = text "*"

abbrev pub colon_star : Text
colon_star = text ":*"

pub record Capability : Type 0 where
  pub pattern : Text

-- `Capability::new`
abbrev pub new : Text → Capability
new pattern = record { pattern = pattern }

unfoldable pub matches : Capability → Text → Bool
matches self tool_name =
    if text_eq self.pattern star then true else elim (strip_suffix self.pattern colon_star) [
      | some prefix ↦ starts_with_then tool_name prefix b':'
      | none ↦ text_eq self.pattern tool_name
    ]

pub record CapSet : Type 0 where
  pub capabilities : List Capability

unfoldable pub from_patterns : List Text → CapSet
from_patterns patterns = record { capabilities = map new patterns }

unfoldable pub patterns : CapSet → List Text
patterns self = map (λ (c : Capability). c.pattern) self.capabilities

-- `self.0.iter().any(|c| c.matches(name))`
abbrev pub any_matches : List Capability → Text → Bool
any_matches caps name = any (λ c. matches c name) caps

check_nonempty : List Capability → Text → Result (Unit {0}) ToolError
check_nonempty [] tool_name = err (capability_denied (text "ALL (empty capability set)"))
check_nonempty (c ∷ cs) tool_name =
    if any_matches (c ∷ cs) tool_name then ok tt else err (capability_denied tool_name)

unfoldable pub check_access : CapSet → Text → Result (Unit {0}) ToolError
unfolding check_nonempty
check_access self tool_name = check_nonempty self.capabilities tool_name

abbrev pub cannot_be_granted : Text → Text
cannot_be_granted pat =
    text "capability '" ++ (pat ++ text "' cannot be granted — parent does not have it")

-- The loop of `attenuate` over the child's patterns.
check_grants : List Capability → List Text → Result (Unit {0}) Text
check_grants parent [] = ok tt
check_grants parent (pat ∷ pats) =
    let rest = check_grants parent pats in
    if any_matches parent pat then rest else err (cannot_be_granted pat)

attenuate_nonempty : List Capability → List Text → Result CapSet Text
attenuate_nonempty parent [] = ok (record { capabilities = [] })
attenuate_nonempty [] (pat ∷ pats) = err (text "parent has no capabilities to grant from")
attenuate_nonempty (c ∷ cs) (pat ∷ pats) =
    check_grants (c ∷ cs) (pat ∷ pats) >> ok (from_patterns (pat ∷ pats))

unfoldable pub attenuate : CapSet → List Text → Result CapSet Text
unfolding attenuate_nonempty check_grants
attenuate self child_patterns = attenuate_nonempty self.capabilities child_patterns

-- capability.rs
unfoldable pub check_tool_access : Text → List Text → Result (Unit {0}) ToolError
check_tool_access tool_name capabilities = check_access (from_patterns capabilities) tool_name

abbrev discard : CapSet → Result (Unit {0}) Text
discard _ = ok tt

unfoldable pub validate_grant : List Text → List Text → Result (Unit {0}) Text
validate_grant grant parent_capabilities =
    attenuate (from_patterns parent_capabilities) grant >>= discard
