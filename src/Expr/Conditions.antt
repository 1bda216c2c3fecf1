-- ===== src/Expr/Conditions.antt =====
-- The evaluator as executor.rs calls it, over the outputs of the steps and with the error as text.
use konf.Shared.{
  ◌++◌, ◌≡◌, refl, Bool, Option, none, some, [], Text, text, Json, Table, Result, ok, err,
}
use konf.Expr.Values.{
  ExprError, ExprValue, parse_error, type_error, unknown_reference, division_by_zero, Entries,
  Floats, to_bool,
}
use konf.Expr.Eval.{to_expr_context, Evaluated, value_to_bool, evaluate, evaluate_as_bool}
use konf.Expr.Total.{evaluate_total}

-- `Display` of an error
unfoldable pub describe : ExprError → Text
describe (parse_error message) = text "parse error: " ++ message
describe (type_error expected got) =
    text "type error: expected " ++ (expected ++ (text ", got " ++ got))
describe (unknown_reference name) = text "unknown reference: " ++ name
describe division_by_zero = text "division by zero"

-- The case without a value does not occur.
abbrev pub described : Option (Result Bool ExprError) → Result Bool Text
described none = err []
described (some (ok b)) = ok b
described (some (err e)) = err (describe e)

-- A condition over the outputs, as the executor asks for it
unfoldable pub condition_value :
    {F : Type 0} → Floats F → Table Json → (condition : Text) → Result Bool Text
condition_value floats outputs condition =
    described (evaluate_as_bool floats (to_expr_context floats outputs) condition)

module _ {F : Type 0} (floats : Floats F) (context : Entries F) where
  value_to_bool-some :
      (e : Evaluated floats context) (r : Result (ExprValue F) ExprError)
      → e ≡ some r
      → (t : Result Bool ExprError) × (value_to_bool floats context e ≡ some t)
  value_to_bool-some none r h = cc h
  value_to_bool-some (some (ok v)) r h = (ok (to_bool floats v), refl)
  value_to_bool-some (some (err e)) r h = (err e, refl)

  -- A condition is true or false, or has an error.
  pub evaluate_as_bool_total :
      (condition : Text)
      → (t : Result Bool ExprError) × (evaluate_as_bool floats context condition ≡ some t)
  unfolding evaluate_as_bool
  evaluate_as_bool_total condition =
      let (r, h) = evaluate_total floats context condition in
      value_to_bool-some (evaluate floats context condition) r h
