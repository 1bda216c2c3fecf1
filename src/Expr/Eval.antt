-- ===== src/Expr/Eval.antt =====
-- `eval_expr` of expr.rs, on fuel: one unit for each expression in another, which is shorter.
use konf.Shared.{
  ℕ, zero, suc, ◌&&◌, ◌||◌, Bool, true, false, not, Option, none, some, List, [], ◌∷◌, length, Text,
  text, trim, strip_prefix, Json, Table, Result, ok, err, ◌>>=◌, ℤ, pos, negsuc, if◌then◌else◌,
}
use konf.Expr.Values.{
  ExprError, ExprValue, bool, Entries, end, Floats, insert_entry, json_to_expr_value, to_bool,
  equals, compare, is_empty_text,
}
use konf.Expr.Basic.{keyword_or_value}

-- What stands before and behind the first and the last occurrence of a text that is not empty.
abbrev pub first_part : ℕ → Option (Text × Text) → Option (Text × Text)
first_part c none = none
first_part c (some (before, after)) = some (c ∷ before, after)

abbrev pub at_start : Option Text → Option (Text × Text)
at_start none = none
at_start (some after) = some ([], after)

abbrev pub or_later : Option (Text × Text) → Option (Text × Text) → Option (Text × Text)
or_later none later = later
or_later (some parts) later = some parts

unfoldable pub find : Text → Text → Option (Text × Text)
find [] sep = at_start (strip_prefix [] sep)
find (c ∷ s) sep = or_later (at_start (strip_prefix (c ∷ s) sep)) (first_part c (find s sep))

unfoldable pub rfind : Text → Text → Option (Text × Text)
rfind [] sep = at_start (strip_prefix [] sep)
rfind (c ∷ s) sep = or_later (first_part c (rfind s sep)) (at_start (strip_prefix (c ∷ s) sep))

pub data Comparison : Type 0 where
  is_equal is_different is_at_least is_at_most is_above is_below : Comparison

unfoldable pub separator : Comparison → Text
separator is_equal = text " == "
separator is_different = text " != "
separator is_at_least = text " >= "
separator is_at_most = text " <= "
separator is_above = text " > "
separator is_below = text " < "

-- The comparisons in the order in which they are looked for.
abbrev pub comparisons : List Comparison
comparisons = is_equal ∷ is_different ∷ is_at_least ∷ is_at_most ∷ is_above ∷ is_below ∷ []

abbrev pub with_op : Comparison → Option (Text × Text) → Option (Comparison × Text × Text)
with_op op none = none
with_op op (some (l, r)) = some (op, l, r)

abbrev pub or_other :
    Option (Comparison × Text × Text)
    → Option (Comparison × Text × Text)
    → Option (Comparison × Text × Text)
or_other none other = other
or_other (some found) other = some found

unfoldable pub find_comparison : List Comparison → Text → Option (Comparison × Text × Text)
find_comparison [] s = none
find_comparison (op ∷ ops) s = or_other (with_op op (find s (separator op))) (find_comparison ops s)

abbrev pub is_positive : ℤ → Bool
is_positive (pos zero) = false
is_positive (pos (suc n)) = true
is_positive (negsuc n) = false

abbrev pub is_negative : ℤ → Bool
is_negative (pos n) = false
is_negative (negsuc n) = true

module _ {F : Type 0} (floats : Floats F) (context : Entries F) where
  -- `none` stands for fuel that has run out.
  abbrev pub Evaluated : Type 0
  Evaluated = Option (Result (ExprValue F) ExprError)

  abbrev pub or_values : ExprValue F → ExprValue F → Result (ExprValue F) ExprError
  or_values a b = ok (bool (to_bool floats a || to_bool floats b))

  abbrev pub and_values : ExprValue F → ExprValue F → Result (ExprValue F) ExprError
  and_values a b = ok (bool (to_bool floats a && to_bool floats b))

  abbrev pub sign_test : (ℤ → Bool) → ExprValue F → ExprValue F → Result (ExprValue F) ExprError
  sign_test test a b = compare floats a b >>= λ sign. ok (bool (test sign))

  unfoldable pub apply : Comparison → ExprValue F → ExprValue F → Result (ExprValue F) ExprError
  apply is_equal a b = ok (bool (equals floats a b))
  apply is_different a b = ok (bool (not (equals floats a b)))
  apply is_at_least a b = sign_test (λ sign. not (is_negative sign)) a b
  apply is_at_most a b = sign_test (λ sign. not (is_positive sign)) a b
  apply is_above a b = sign_test is_positive a b
  apply is_below a b = sign_test is_negative a b

  -- The left side is evaluated first, and its error is returned first; both sides are evaluated.
  unfoldable pub both :
      (ExprValue F → ExprValue F → Result (ExprValue F) ExprError)
      → Evaluated
      → Evaluated
      → Evaluated
  both f none right = none
  both f (some (err e)) right = some (err e)
  both f (some (ok a)) none = none
  both f (some (ok a)) (some (err e)) = some (err e)
  both f (some (ok a)) (some (ok b)) = some (f a b)

  unfoldable pub negate : Evaluated → Evaluated
  negate none = none
  negate (some (err e)) = some (err e)
  negate (some (ok v)) = some (ok (bool (not (to_bool floats v))))

  module _ (again : Text → Evaluated) (s : Text) where
    unfoldable pub negation_or : Option Text → Evaluated
    negation_or none = some (keyword_or_value floats context s)
    negation_or (some rest) = negate (again rest)

    unfoldable pub comparison_or : Option (Comparison × Text × Text) → Evaluated
    comparison_or none = negation_or (strip_prefix s (text "!"))
    comparison_or (some (op, l, r)) = both (apply op) (again (trim l)) (again (trim r))

    unfoldable pub and_or : Option (Text × Text) → Evaluated
    and_or none = comparison_or (find_comparison comparisons s)
    and_or (some (l, r)) = both and_values (again l) (again r)

    unfoldable pub or_or : Option (Text × Text) → Evaluated
    or_or none = and_or (rfind s (text " && "))
    or_or (some (l, r)) = both or_values (again l) (again r)

  unfoldable pub eval_expr : (fuel : ℕ) → Text → Evaluated
  eval_expr zero expr = none
  eval_expr (suc fuel) expr = let s = trim expr in or_or (eval_expr fuel) s (rfind s (text " || "))

  -- `ExprEvaluator::evaluate` and `evaluate_as_bool`
  unfoldable pub evaluate : Text → Evaluated
  unfolding eval_expr
  evaluate expr =
      let s = trim expr in
      if is_empty_text floats s then some (ok (bool true)) else eval_expr (suc (length s)) s

  abbrev pub value_to_bool : Evaluated → Option (Result Bool ExprError)
  value_to_bool none = none
  value_to_bool (some (err e)) = some (err e)
  value_to_bool (some (ok v)) = some (ok (to_bool floats v))

  unfoldable pub evaluate_as_bool : Text → Option (Result Bool ExprError)
  evaluate_as_bool expr = value_to_bool (evaluate expr)

-- `to_expr_context` of executor.rs
unfoldable pub to_expr_context : {F : Type 0} → Floats F → Table Json → Entries F
to_expr_context floats [] = end
to_expr_context floats ((k, v) ∷ outputs) =
    insert_entry floats k (json_to_expr_value floats v) (to_expr_context floats outputs)
