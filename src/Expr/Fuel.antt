-- ===== src/Expr/Fuel.antt =====
-- `eval_expr` does not depend on its fuel, where the fuel is more than the length of the expression.
use konf.Shared.{
  trim-length, ℕ, zero, suc, ◌<◌, ◌≡◌, refl, ap, ap₂, Option, none, some, length, arith, Text, text,
  trim, strip_prefix, Result,
}
use konf.Expr.Values.{ExprError, ExprValue, Entries, Floats}
use konf.Expr.Eval.{
  at_start, rfind, Comparison, comparisons, find_comparison, Evaluated, or_values, and_values,
  apply, both, negate, negation_or, comparison_or, and_or, or_or, eval_expr,
}
use konf.Expr.Parts.{Fits, Shorter, strip_prefix-Fits, rfind-Fits, find_comparison-Shorter}

module _ {F : Type 0} (floats : Floats F) (context : Entries F) where
  module _ (f g : Text → Evaluated floats context) (s : Text)
      (agree : (t : Text) → length t < length s → f t ≡ g t) where
    negation_or-agree :
        (o : Option Text)
        → Fits s (text "!") (at_start o)
        → negation_or floats context f s o ≡ negation_or floats context g s o
    unfolding negation_or
    negation_or-agree none fits = refl
    negation_or-agree (some rest) fits = ap (negate floats context) (agree rest (omega arith))

    both-agree :
        (h : ExprValue F → ExprValue F → Result (ExprValue F) ExprError) (l r : Text)
        → length l < length s
        → length r < length s
        → both floats context h (f l) (f r) ≡ both floats context h (g l) (g r)
    both-agree h l r left right = ap₂ (both floats context h) (agree l left) (agree r right)

    comparison_or-agree :
        (o : Option (Comparison × Text × Text))
        → Shorter s o
        → comparison_or floats context f s o ≡ comparison_or floats context g s o
    unfolding comparison_or
    comparison_or-agree none short =
        negation_or-agree (strip_prefix s (text "!")) (strip_prefix-Fits s (text "!"))
    comparison_or-agree (some (op, l, r)) (left, right) =
        both-agree (apply floats context op) (trim l) (trim r) (omega (arith, trim-length l))
          (omega (arith, trim-length r))

    and_or-agree :
        (o : Option (Text × Text))
        → Fits s (text " && ") o
        → and_or floats context f s o ≡ and_or floats context g s o
    unfolding and_or
    and_or-agree none fits =
        comparison_or-agree (find_comparison comparisons s) (find_comparison-Shorter comparisons s)
    and_or-agree (some (l, r)) fits =
        both-agree (and_values floats context) l r (omega arith) (omega arith)

    or_or-agree :
        (o : Option (Text × Text))
        → Fits s (text " || ") o
        → or_or floats context f s o ≡ or_or floats context g s o
    unfolding or_or
    or_or-agree none fits = and_or-agree (rfind s (text " && ")) (rfind-Fits s (text " && "))
    or_or-agree (some (l, r)) fits =
        both-agree (or_values floats context) l r (omega arith) (omega arith)

  -- Any two amounts of fuel that are enough give the same value.
  pub eval_expr-agree :
      (f g : ℕ) (s : Text)
      → length s < f
      → length s < g
      → eval_expr floats context f s ≡ eval_expr floats context g s
  unfolding eval_expr
  eval_expr-agree zero g s h k = absurd (omega arith)
  eval_expr-agree (suc f) zero s h k = absurd (omega arith)
  eval_expr-agree (suc f) (suc g) s h k =
      or_or-agree (eval_expr floats context f) (eval_expr floats context g) (trim s)
        (λ t i. eval_expr-agree f g t (omega (arith, trim-length s)) (omega (arith, trim-length s)))
        (rfind (trim s) (text " || ")) (rfind-Fits (trim s) (text " || "))
