-- ===== src/Guard/Tests.antt =====
-- Runs of the guard code, and the theorems about it at concrete inputs.
use mathlib.Core.Option
use konf.Shared.{
  ◌≡◌, refl, ◌↔◌, ◌⊎◌, is_null, true, false, none, some, List, [], ◌∷◌, arith, Text, text, Json,
  string, object, field, end, ok, as_str, get_field, text_eq,
}
use konf.Envelope.{Envelope}
use konf.Guard.{
  Rule, deny, allow, matches_glob, exists, deny_unmatched, unmatched, evaluate, guarded,
  predicate_matches, resolve_path, resolve_segments, split, Tool,
}
use konf.Guard.Glob.{glob_matches, glob_loop, only_stars}
use konf.Guard.Glob.Relation.{Glob}
use konf.Guard.Glob.Complete.{NoStar, glob_matches-iff-Glob}
use konf.Guard.Paths.{then_resolve, resolve_path-dot}
use konf.Guard.Evaluate.{FirstRule, NoneApplies, outcome, evaluate-FirstRule, guarded-ok}

abbrev rm_all : Text
rm_all = text "rm*"

rm_denied : glob_matches rm_all (text "rm -rf /") ≡ true
unfolding glob_matches glob_loop only_stars
rm_denied = refl

-- The star of the text is taken for the star of the pattern.
rm_star_missed : glob_matches rm_all (text "rm*x") ≡ false
unfolding glob_matches glob_loop only_stars
rm_star_missed = refl

plain : NoStar (text "rm x")
plain = omega arith

glob_matches-iff-Glob_example :
    (glob_matches rm_all (text "rm x") ≡ true) ↔ Glob rm_all (text "rm x")
glob_matches-iff-Glob_example = glob_matches-iff-Glob rm_all (text "rm x") plain

abbrev input : Json
input =
    object (field (text "config") (object (field (text "level") (string (text "admin")) end)) end)

level_found : resolve_path input (text "config.level") ≡ some (string (text "admin"))
unfolding resolve_path resolve_segments split get_field text_eq
level_found = refl

resolve_path-dot_example :
    resolve_path input (text "config.level")
    ≡ then_resolve (resolve_path input (text "config")) (text "level")
resolve_path-dot_example = resolve_path-dot input (text "config") (text "level")

abbrev rules : List Rule
rules =
    deny (matches_glob (text "command") rm_all) (text "no rm")
    ∷ allow (exists (text "command"))
    ∷ []

abbrev listing : Json
listing = object (field (text "command") (string (text "ls")) end)

evaluate-FirstRule_example :
    ((r : Rule) × FirstRule rules listing r
      × (evaluate (text "shell") rules deny_unmatched listing ≡ outcome r))
    ⊎ (NoneApplies rules listing
        × (evaluate (text "shell") rules deny_unmatched listing
            ≡ unmatched (text "shell") deny_unmatched))
evaluate-FirstRule_example = evaluate-FirstRule (text "shell") rules deny_unmatched listing

abbrev call : Envelope Json
call = record {
  id = 1;
  trace_id = 2;
  parent_id = none;
  actor_id = text "bot";
  namespace = text "konf:a";
  capabilities = record { capabilities = [] };
  target = text "shell";
  payload_type = text "tool_input";
  payload = listing;
  emitted_at = 3;
  step_index = 0;
  stream_id = text "s";
  deadline = none;
  idempotency_key = none;
  qos_class = none;
  references = none;
  metadata = [];
}

abbrev echo : Tool
echo env = ok env

listing_allowed : guarded (text "shell") rules deny_unmatched echo call ≡ ok call
unfolding guarded evaluate predicate_matches resolve_path resolve_segments split get_field text_eq
    as_str glob_matches glob_loop only_stars is_null Option.bind
listing_allowed = refl

guarded-ok_example :
    (evaluate (text "shell") rules deny_unmatched listing ≡ ok tt) × (echo call ≡ ok call)
guarded-ok_example = guarded-ok (text "shell") rules deny_unmatched echo call call listing_allowed
