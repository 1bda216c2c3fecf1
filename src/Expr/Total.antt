-- ===== src/Expr/Total.antt =====
-- The fuel of `eval_expr` is enough: each expression in another is shorter.
use konf.Shared.{
  trim-length, ℕ, zero, suc, ◌<◌, ◌≡◌, refl, inl, inr, true, Option, none, some, length, arith,
  Bool-cases, Text, text, trim, strip_prefix, is_some, Result, ok, err,
}
use konf.Expr.Values.{ExprError, ExprValue, Entries, Floats, is_empty_text}
use konf.Expr.Eval.{
  at_start, rfind, Comparison, comparisons, find_comparison, Evaluated, or_values, and_values,
  apply, both, negate, negation_or, comparison_or, and_or, or_or, eval_expr, evaluate,
}
use konf.Expr.Parts.{Fits, Shorter, strip_prefix-Fits, rfind-Fits, find_comparison-Shorter}

module _ {F : Type 0} (floats : Floats F) (context : Entries F) where
  abbrev Ends : Evaluated floats context → Type 0
  Ends e = is_some e ≡ true

  both-Ends :
      (f : ExprValue F → ExprValue F → Result (ExprValue F) ExprError)
      (left right : Evaluated floats context)
      → Ends left
      → Ends right
      → Ends (both floats context f left right)
  unfolding both
  both-Ends f none right h k = cc h
  both-Ends f (some (err e)) right h k = refl
  both-Ends f (some (ok a)) none h k = cc k
  both-Ends f (some (ok a)) (some (err e)) h k = refl
  both-Ends f (some (ok a)) (some (ok b)) h k = refl

  negate-Ends : (e : Evaluated floats context) → Ends e → Ends (negate floats context e)
  unfolding negate
  negate-Ends none h = cc h
  negate-Ends (some (err e)) h = refl
  negate-Ends (some (ok v)) h = refl

  module _ (again : Text → Evaluated floats context) (s : Text)
      (ends : (t : Text) → length t < length s → Ends (again t)) where
    negation_or-Ends :
        (o : Option Text)
        → Fits s (text "!") (at_start o)
        → Ends (negation_or floats context again s o)
    unfolding negation_or
    negation_or-Ends none fits = refl
    negation_or-Ends (some rest) fits = negate-Ends (again rest) (ends rest (omega arith))

    comparison_or-Ends :
        (o : Option (Comparison × Text × Text))
        → Shorter s o
        → Ends (comparison_or floats context again s o)
    unfolding comparison_or
    comparison_or-Ends none short =
        negation_or-Ends (strip_prefix s (text "!")) (strip_prefix-Fits s (text "!"))
    comparison_or-Ends (some (op, l, r)) (left, right) =
        both-Ends (apply floats context op) (again (trim l)) (again (trim r))
          (ends (trim l) (omega (arith, trim-length l)))
          (ends (trim r) (omega (arith, trim-length r)))

    and_or-Ends :
        (o : Option (Text × Text)) → Fits s (text " && ") o → Ends (and_or floats context again s o)
    unfolding and_or
    and_or-Ends none fits =
        comparison_or-Ends (find_comparison comparisons s) (find_comparison-Shorter comparisons s)
    and_or-Ends (some (l, r)) fits =
        both-Ends (and_values floats context) (again l) (again r) (ends l (omega arith))
          (ends r (omega arith))

    or_or-Ends :
        (o : Option (Text × Text)) → Fits s (text " || ") o → Ends (or_or floats context again s o)
    unfolding or_or
    or_or-Ends none fits = and_or-Ends (rfind s (text " && ")) (rfind-Fits s (text " && "))
    or_or-Ends (some (l, r)) fits =
        both-Ends (or_values floats context) (again l) (again r) (ends l (omega arith))
          (ends r (omega arith))

  pub eval_expr-Ends :
      (fuel : ℕ) (s : Text) → length s < fuel → Ends (eval_expr floats context fuel s)
  unfolding eval_expr
  eval_expr-Ends zero s h = absurd (omega arith)
  eval_expr-Ends (suc fuel) s h =
      or_or-Ends (eval_expr floats context fuel) (trim s)
        (λ t k. eval_expr-Ends fuel t (omega (arith, trim-length s))) (rfind (trim s) (text " || "))
        (rfind-Fits (trim s) (text " || "))

  some_of :
      (e : Evaluated floats context) → Ends e → (r : Result (ExprValue F) ExprError) × (e ≡ some r)
  some_of none h = cc h
  some_of (some r) h = (r, refl)

  evaluate-Ends : (s : Text) → Ends (evaluate floats context s)
  unfolding evaluate
  evaluate-Ends s = elim (Bool-cases (is_empty_text floats (trim s))) [
    | inl e ↦ rw e refl
    | inr e ↦ rw e (eval_expr-Ends (suc (length (trim s))) (trim s) (omega arith))
  ]

  -- An expression has a value or an error, whatever the context: the fuel, which is its length and
  -- one, does not run out.
  pub evaluate_total :
      (s : Text) → (r : Result (ExprValue F) ExprError) × (evaluate floats context s ≡ some r)
  evaluate_total s = some_of (evaluate floats context s) (evaluate-Ends s)
