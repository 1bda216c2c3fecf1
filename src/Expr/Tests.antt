-- ===== src/Expr/Tests.antt =====
-- Conditions over the outputs of a step, with integers for floats, and the theorems about them.
use konf.Shared.{
  false, Tight, ℤ, ltb_ℤ, Table, ◌≡◌, refl, ◌++◌, true, none, some, [], ◌∷◌, Text, text, text_eq,
  trim, trim_start, trim_end, is_whitespace, strip_prefix, strip_suffix, Json, Result, ok, err,
  arith, pos, number, pos_int, object, field, end,
}
use konf.Guard.{split}
use konf.Expr.Values.{
  bool, ExprError, ExprValue, unknown_reference, Entries, Floats, insert_entry, get_entry,
  json_to_expr_value, as_i64, int_eq, equals, to_bool, compare, to_float,
}
use konf.Expr.Basic.{
  more_digits, parse_i64, unquoted, follow_reference, reference, eval_value, keyword_or_value,
}
use konf.Expr.Eval.{
  find, rfind, separator, find_comparison, apply, both, negate, negation_or, comparison_or, and_or,
  or_or, eval_expr, evaluate, evaluate_as_bool, to_expr_context,
}
use konf.Expr.Conditions.{condition_value}
use konf.Executor.Edges.{evaluate_edges_targets, sort_edges, insert_edge, follow, cleaned}
use konf.Workflow.{Step, step, new_step}
use konf.Expr.Total.{evaluate_total}
use konf.Expr.Laws.{evaluate-or}

-- Integers in the place of floats.
abbrev integers : Floats ℤ
integers = record {
  parse_float = λ s. err (text "invalid float literal");
  of_int = λ i. i;
  as_f64 = as_i64;
  show_number = λ n. [];
  debug_number = λ n. [];
  is_zero = int_eq (pos 0);
  below = ltb_ℤ;
  near = int_eq;
  same = int_eq;
  debug = λ v. [];
}

abbrev outputs : Table Json
outputs =
    (text "a", object (field (text "code") (number (pos_int 3)) end))
    ∷ (text "b", Json.string (text "ok"))
    ∷ []

abbrev context : Entries ℤ
context = to_expr_context integers outputs

code_four : Text
code_four = text "a.code == 4"

b_ok : Text
b_ok = text "b == \"ok\""

either_run :
    evaluate_as_bool integers context (text "a.code > 4 || !b || b == \"ok\"") ≡ some (ok true)
unfolding evaluate_as_bool evaluate eval_expr or_or and_or comparison_or negation_or both negate
    find rfind find_comparison separator apply strip_prefix strip_suffix trim trim_start trim_end
    keyword_or_value eval_value text_eq parse_i64 more_digits unquoted reference follow_reference
    split get_entry insert_entry json_to_expr_value as_i64 equals int_eq to_bool to_expr_context
    compare to_float
either_run = refl

-- A step with a condition on its edge, which the outputs make true.
abbrev branching : Step
branching = record (new_step (text "b") (text "echo")) {
  edges =
      record {
        target = step (text "next");
        condition = some (text "{{ b == \"ok\" }}");
        priority = pos 0;
      }
      ∷ [];
}

branching_run :
    evaluate_edges_targets (condition_value integers outputs) branching (text "w")
    ≡ ok (step (text "next") ∷ [])
unfolding evaluate_edges_targets sort_edges insert_edge follow cleaned condition_value new_step
    evaluate_as_bool evaluate eval_expr or_or and_or comparison_or both find rfind find_comparison
    separator apply strip_prefix strip_suffix trim trim_start trim_end keyword_or_value eval_value
    text_eq parse_i64 more_digits unquoted reference follow_reference split get_entry insert_entry
    json_to_expr_value as_i64 equals to_bool to_expr_context negation_or
branching_run = refl

-- An operator in a quoted text is taken for one of the expression.
quoted_run :
    evaluate integers context (text "b == \"x || y\"") ≡ some (err (unknown_reference (text "\"x")))
unfolding evaluate eval_expr or_or and_or comparison_or negation_or both negate find rfind
    find_comparison separator apply strip_prefix strip_suffix trim trim_start trim_end
    keyword_or_value eval_value text_eq parse_i64 more_digits unquoted reference follow_reference
    split get_entry insert_entry json_to_expr_value as_i64 equals int_eq to_bool to_expr_context
quoted_run = refl

evaluate_total_example :
    (r : Result (ExprValue ℤ) ExprError) × (evaluate integers context b_ok ≡ some r)
evaluate_total_example = evaluate_total integers context b_ok

code_four-Tight : Tight code_four
unfolding code_four trim_start trim_end is_whitespace
code_four-Tight = (omega arith, refl, refl)

b_ok-Tight : Tight b_ok
unfolding b_ok trim_start trim_end is_whitespace
b_ok-Tight = (omega arith, refl, refl)

one_operator : rfind (b' ' ∷ b_ok) (text " || ") ≡ none
unfolding b_ok rfind strip_prefix
one_operator = refl

four_value : evaluate integers context code_four ≡ some (ok (bool false))
unfolding evaluate eval_expr or_or and_or comparison_or negation_or both negate find rfind
    find_comparison separator apply strip_prefix strip_suffix trim trim_start trim_end
    keyword_or_value eval_value text_eq parse_i64 more_digits unquoted reference follow_reference
    split get_entry insert_entry json_to_expr_value as_i64 equals int_eq to_bool to_expr_context
    code_four
four_value = refl

ok_value : evaluate integers context b_ok ≡ some (ok (bool true))
unfolding evaluate eval_expr or_or and_or comparison_or negation_or both negate find rfind
    find_comparison separator apply strip_prefix strip_suffix trim trim_start trim_end
    keyword_or_value eval_value text_eq parse_i64 more_digits unquoted reference follow_reference
    split get_entry insert_entry json_to_expr_value as_i64 equals int_eq to_bool to_expr_context
    b_ok
ok_value = refl

evaluate-or_example :
    evaluate integers context (code_four ++ (text " || " ++ b_ok)) ≡ some (ok (bool true))
unfolding to_bool
evaluate-or_example =
    evaluate-or integers context code_four b_ok (ok (bool false)) (ok (bool true)) code_four-Tight
      b_ok-Tight one_operator four_value ok_value
