-- ===== src/Expr/Laws.antt =====
-- What an expression of two expressions with an operator between comes to.
use konf.Shared.{
  inl, inr, Bool-cases, true, if◌then◌else◌, Result, ok, err, ℕ, suc, ◌<◌, ◌≡◌, refl, sym, ap₂, ◌∙◌,
  false, ◌++◌, none, some, [], ◌∷◌, length, length-append, arith, Text, text, trim, strip_prefix,
  Tight, trim-Tight, join-Tight,
}
use konf.Expr.Values.{ExprError, ExprValue, bool, to_bool, Entries, Floats, is_empty_text}
use konf.Expr.Eval.{rfind, or_values, both, or_or, eval_expr, evaluate}
use konf.Expr.Fuel.{eval_expr-agree}

rfind-append :
    (a s sep after : Text) → rfind s sep ≡ some ([], after) → rfind (a ++ s) sep ≡ some (a, after)
unfolding rfind
rfind-append [] s sep after h = h
rfind-append (c ∷ a) s sep after h = rw (rfind-append a s sep after h) refl

rfind_skip :
    (c : ℕ) (s sep : Text)
    → rfind s sep ≡ none
    → strip_prefix (c ∷ s) sep ≡ none
    → rfind (c ∷ s) sep ≡ none
unfolding rfind
rfind_skip c s sep h k = rw (h, k) refl

rfind_hit :
    (c : ℕ) (s sep after : Text)
    → rfind s sep ≡ none
    → strip_prefix (c ∷ s) sep ≡ some after
    → rfind (c ∷ s) sep ≡ some ([], after)
unfolding rfind
rfind_hit c s sep after h k = rw (h, k) refl

-- An operator of two characters between blanks is found where it stands, if it is not found behind.
rfind_operator :
    (a b : Text)
    → rfind (b' ' ∷ b) (text " || ") ≡ none
    → rfind (a ++ (text " || " ++ b)) (text " || ") ≡ some (a, b)
unfolding strip_prefix
rfind_operator a b h = rfind-append a (text " || " ++ b) (text " || ") b (
    rfind_hit b' ' (text "|| " ++ b) (text " || ") b
      (rfind_skip b'|' (text "| " ++ b) (text " || ")
        (rfind_skip b'|' (text " " ++ b) (text " || ") h refl) refl)
      refl)

module _ {F : Type 0} (floats : Floats F) (context : Entries F) where
  nonempty_text : (s : Text) → 0 < length s → is_empty_text floats s ≡ false
  nonempty_text [] pos = absurd (omega arith)
  nonempty_text (c ∷ s) pos = refl

  evaluate-Tight :
      (fuel : ℕ) (s : Text)
      → Tight s
      → length s < fuel
      → eval_expr floats context fuel s ≡ evaluate floats context s
  unfolding evaluate
  evaluate-Tight fuel s tight h =
      rw (trim-Tight s tight, nonempty_text s tight.0)
        (eval_expr-agree floats context fuel (suc (length s)) s h (omega arith))

  eval_expr_or :
      (fuel : ℕ) (s l r : Text)
      → trim s ≡ s
      → rfind s (text " || ") ≡ some (l, r)
      → eval_expr floats context (suc fuel) s
        ≡ both floats context
            (or_values floats context)
            (eval_expr floats context fuel l)
            (eval_expr floats context fuel r)
  unfolding eval_expr or_or
  eval_expr_or fuel s l r same found = rw (same, found) refl

  -- What an expression with `||` should come to: the error of its first side that has one, and
  -- else whether one of its sides is true. Both sides are evaluated.
  abbrev pub disjunction :
      Result (ExprValue F) ExprError
      → Result (ExprValue F) ExprError
      → Result (ExprValue F) ExprError
  disjunction (err e) r = err e
  disjunction (ok v) (err e) = err e
  disjunction (ok v) (ok w) = ok (bool (if to_bool floats v then true else to_bool floats w))

  both-disjunction :
      (r s : Result (ExprValue F) ExprError)
      → both floats context (or_values floats context) (some r) (some s) ≡ some (disjunction r s)
  unfolding both
  both-disjunction (err e) s = refl
  both-disjunction (ok v) (err e) = refl
  both-disjunction (ok v) (ok w) = elim (Bool-cases (to_bool floats v)) [
    | inl h ↦ rw h refl
    | inr h ↦ rw h refl
  ]

  -- Two expressions without blanks at their ends and with `||` between, where each has a value or
  -- an error by itself: the whole has the error of the first that has one, and else it is true if
  -- one of the two is true and false if none is, provided that no `||` stands in the second
  -- expression, not even in a quoted text. In the first expression others may stand.
  pub evaluate-or :
      (a b : Text) (r s : Result (ExprValue F) ExprError)
      → Tight a
      → Tight b
      → rfind (b' ' ∷ b) (text " || ") ≡ none
      → evaluate floats context a ≡ some r
      → evaluate floats context b ≡ some s
      → evaluate floats context (a ++ (text " || " ++ b)) ≡ some (disjunction r s)
  evaluate-or a b r s left right none_behind value_a value_b =
      let whole = a ++ (text " || " ++ b) in
      let tight = join-Tight a (text " || ") b left right in
      let longer = length-append a (text " || " ++ b) in
      sym (evaluate-Tight (suc (length whole)) whole tight (omega arith))
      ∙ eval_expr_or (length whole) whole a b (trim-Tight whole tight)
          (rfind_operator a b none_behind)
      ∙ ap₂ (both floats context (or_values floats context))
          (evaluate-Tight (length whole) a left (omega (arith, longer)) ∙ value_a)
          (evaluate-Tight (length whole) b right (omega (arith, longer)) ∙ value_b)
      ∙ both-disjunction r s
