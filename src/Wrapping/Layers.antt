-- ===== src/Wrapping/Layers.antt =====
-- The layers round a tool: what an answer through them shows.
use konf.Shared.{◌≡◌, refl, Option, none, some, List, [], ◌∷◌, Text, Table, Json, lookup, ok}
use konf.Envelope.{Envelope}
use konf.Guard.{Rule, DefaultAction, Tool, evaluate}
use konf.Guard.Evaluate.{guarded-ok}
use konf.Context.{inject_bindings}
use konf.Context.Inject.{virtualized-ok}
use konf.Wrapping.{ToolGuardEntry, with_bindings, with_rules, with_guards, wrap}

abbrev pub RulesHold : Text → List Rule → DefaultAction → Json → Type 0
RulesHold name [] default_action input = Unit {0}
RulesHold name (r ∷ rules) default_action input =
    evaluate name (r ∷ rules) default_action input ≡ ok tt

-- The rules of the entry, if there are any, let the input through.
abbrev pub RulesPassed : Text → Option ToolGuardEntry → Json → Type 0
RulesPassed name none input = Unit {0}
RulesPassed name (some entry) input = RulesHold name entry.rules entry.default_action input

-- The tool was called with the injected envelope, and this is its answer.
abbrev pub Called : Table Json → Tool → Envelope Json → Envelope Json → Type 0
Called bindings raw env out =
    (seen : Envelope Json) × (inject_bindings bindings env ≡ ok seen) × (raw seen ≡ ok out)

with_bindings-ok :
    (bindings : Table Json) (raw : Tool) (env out : Envelope Json)
    → with_bindings bindings raw env ≡ ok out
    → Called bindings raw env out
unfolding inject_bindings
with_bindings-ok [] raw env out h = (env, refl, h)
with_bindings-ok (b ∷ bindings) raw env out h = virtualized-ok (b ∷ bindings) raw env out h

with_rules-ok :
    (name : Text) (rules : List Rule) (d : DefaultAction) (inner : Tool) (env out : Envelope Json)
    → with_rules name rules d inner env ≡ ok out
    → RulesHold name rules d env.payload × (inner env ≡ ok out)
with_rules-ok name [] d inner env out h = (tt, h)
with_rules-ok name (r ∷ rules) d inner env out h = guarded-ok name (r ∷ rules) d inner env out h

with_guards-ok :
    (name : Text) (o : Option ToolGuardEntry) (inner : Tool) (env out : Envelope Json)
    → with_guards name o inner env ≡ ok out
    → RulesPassed name o env.payload × (inner env ≡ ok out)
with_guards-ok name none inner env out h = (tt, h)
with_guards-ok name (some entry) inner env out h =
    with_rules-ok name entry.rules entry.default_action inner env out h

-- A wrapped tool that answers has let the input, as the caller sent it, through its guard rules, and
-- the tool inside answered the envelope that the bindings were injected into.
pub wrap-ok :
    (name : Text) (guards : Table ToolGuardEntry) (bindings : Table Json) (raw : Tool)
    (env out : Envelope Json)
    → wrap name guards bindings raw env ≡ ok out
    → RulesPassed name (lookup name guards) env.payload × Called bindings raw env out
unfolding wrap
wrap-ok name guards bindings raw env out h =
    let (passed, inner) =
      with_guards-ok name (lookup name guards) (with_bindings bindings raw) env out h in
    (passed, with_bindings-ok bindings raw env out inner)
