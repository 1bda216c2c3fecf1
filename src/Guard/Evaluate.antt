-- ===== src/Guard/Evaluate.antt =====
-- About `GuardedTool::evaluate` and `GuardedTool::invoke`.
use konf.Shared.{
  ◌≡◌, refl, ap, ◌∙◌, inl, inr, ◌⊎◌, Bool, true, false, List, [], ◌∷◌, ◌++◌, arith, Bool-cases,
  Text, text, Json, Result, ok, err,
}
use konf.Capability.{ToolError, capability_denied}
use konf.Envelope.{Envelope}
use konf.Guard.{
  predicate_matches, Rule, deny, allow, DefaultAction, unmatched, evaluate, Tool, guarded,
}

abbrev pub rule_applies : Rule → Json → Bool
rule_applies (deny p message) input = predicate_matches p input
rule_applies (allow p) input = predicate_matches p input

abbrev pub outcome : Rule → Result (Unit {0}) ToolError
outcome (deny p message) = err (capability_denied (text "guard denied: " ++ message))
outcome (allow p) = ok tt

abbrev pub NoneApplies : List Rule → Json → Type 0
NoneApplies [] input = Unit {0}
NoneApplies (r ∷ rs) input = (rule_applies r input ≡ false) × NoneApplies rs input

pub record FirstRule (rules : List Rule) (input : Json) (r : Rule) : Type 0 where
  pub before : List Rule
  pub after : List Rule
  pub split : rules ≡ before ++ r ∷ after
  pub passed_over : NoneApplies before input
  pub applies : rule_applies r input ≡ true

evaluate-before :
    (name : Text) (before after : List Rule) (r : Rule) (d : DefaultAction) (input : Json)
    → NoneApplies before input
    → rule_applies r input ≡ true
    → evaluate name (before ++ r ∷ after) d input ≡ outcome r
unfolding evaluate
evaluate-before name [] after (deny p m) d input n h = rw h
evaluate-before name [] after (allow p) d input n h = rw h
evaluate-before name (deny p m ∷ before) after r d input n h =
    rw n.0 (evaluate-before name before after r d input n.1 h)
evaluate-before name (allow p ∷ before) after r d input n h =
    rw n.0 (evaluate-before name before after r d input n.1 h)

evaluate-NoneApplies :
    (name : Text) (rules : List Rule) (d : DefaultAction) (input : Json)
    → NoneApplies rules input
    → evaluate name rules d input ≡ unmatched name d
unfolding evaluate
evaluate-NoneApplies name [] d input n = refl
evaluate-NoneApplies name (deny p m ∷ rules) d input n =
    rw n.0 (evaluate-NoneApplies name rules d input n.1)
evaluate-NoneApplies name (allow p ∷ rules) d input n =
    rw n.0 (evaluate-NoneApplies name rules d input n.1)

FirstRule-cases :
    (rules : List Rule) (input : Json)
    → ((r : Rule) × FirstRule rules input r) ⊎ NoneApplies rules input
FirstRule-cases [] input = inr tt
FirstRule-cases (r ∷ rules) input = elim (Bool-cases (rule_applies r input)) [
  | inl e ↦
      inl (r, record { before = []; after = rules; split = refl; passed_over = tt; applies = e })
  | inr e ↦ elim (FirstRule-cases rules input) [
    | inl (q, f) ↦ inl (
      q,
      record {
        before = r ∷ f.before;
        after = f.after;
        split = ap (λ (l : List Rule). r ∷ l) f.split;
        passed_over = (e, f.passed_over);
        applies = f.applies;
      },
    )
    | inr n ↦ inr (e, n)
  ]
]

-- Either some rule applies, and the first one that does decides: an allow rule lets the input
-- through, a deny rule refuses it with its message. Or none applies, and the default action decides.
pub evaluate-FirstRule :
    (name : Text) (rules : List Rule) (d : DefaultAction) (input : Json)
    → ((r : Rule) × FirstRule rules input r × (evaluate name rules d input ≡ outcome r))
      ⊎ (NoneApplies rules input × (evaluate name rules d input ≡ unmatched name d))
evaluate-FirstRule name rules d input = elim (FirstRule-cases rules input) [
  | inl (r, f) ↦ inl (
    r,
    f,
    ap (λ (l : List Rule). evaluate name l d input) f.split
        ∙ evaluate-before name f.before f.after r d input f.passed_over f.applies,
  )
  | inr n ↦ inr (n, evaluate-NoneApplies name rules d input n)
]

-- A guarded tool answers only if the rules let the input through, and then as the inner tool does.
pub guarded-ok :
    (name : Text) (rules : List Rule) (d : DefaultAction) (inner : Tool) (env out : Envelope Json)
    → guarded name rules d inner env ≡ ok out
    → (evaluate name rules d env.payload ≡ ok tt) × (inner env ≡ ok out)
unfolding guarded
guarded-ok name rules d inner env out h = (ground arith, ground arith)
