-- ===== src/Capability/Tests.antt =====
-- Runs of the capability code, and the theorems about it at concrete inputs.
use konf.Shared.{
  ◌≡◌, refl, false, List, [], ◌∷◌, Text, text, ok, err, text_eq, strip_suffix, starts_with_then,
  starts_with, char_is,
}
use konf.Capability.{
  CapSet, capability_denied, matches, new, check_access, from_patterns, attenuate,
}
use konf.Capability.Access.{check_access-denied}
use konf.Capability.Attenuate.{AllGranted, root, delegate, attenuate-ok, check_access-Delegates}

abbrev memory_all : Text
memory_all = text "memory:*"

abbrev memory_search : Text
memory_search = text "memory:search"

prefix_needs_colon : matches (new memory_all) (text "memorysearch") ≡ false
unfolding matches text_eq strip_suffix starts_with_then starts_with char_is
prefix_needs_colon = refl

abbrev agent_caps : CapSet
agent_caps = record { capabilities = new memory_all ∷ new (text "echo") ∷ [] }

abbrev no_caps : CapSet
no_caps = record { capabilities = [] }

check_access-denied_example :
    check_access no_caps (text "echo") ≡ err (capability_denied (text "ALL (empty capability set)"))
check_access-denied_example = check_access-denied no_caps (text "echo") (λ (c, i, h). elim i [ ])

abbrev narrowed : List Text
narrowed = memory_search ∷ []

attenuate-narrowed : attenuate agent_caps narrowed ≡ ok (from_patterns narrowed)
unfolding attenuate matches from_patterns text_eq strip_suffix starts_with_then starts_with char_is
attenuate-narrowed = refl

attenuate-ok_example :
    AllGranted agent_caps.capabilities narrowed × (from_patterns narrowed ≡ from_patterns narrowed)
attenuate-ok_example = attenuate-ok agent_caps narrowed (from_patterns narrowed) attenuate-narrowed

search_allowed : check_access (from_patterns narrowed) memory_search ≡ ok tt
unfolding check_access matches from_patterns text_eq strip_suffix
search_allowed = refl

check_access-Delegates_example : check_access agent_caps memory_search ≡ ok tt
check_access-Delegates_example =
    check_access-Delegates memory_search (delegate narrowed (root refl) attenuate-narrowed)
      search_allowed
