-- ===== src/Budget/Tests.antt =====
-- Runs of the budget table, and the theorems about it at concrete inputs.
use konf.Shared.{
  ◌-◌, ◌≡◌, refl, some, List, [], ◌∷◌, arith, ok, err, pos, negsuc, ltb, if◌then◌else◌,
}
use konf.Budget.{BudgetTable, insufficient, remaining, insert, decrement}
use konf.Budget.Account.{Op, mints, decrements, decrement-pos, remaining-decrement_ne}

abbrev cells : BudgetTable
cells = (7, pos 100) ∷ (8, pos 5) ∷ []

abbrev ops : List Op
ops = decrements 7 (pos 30) ∷ decrements 8 (negsuc 4) ∷ mints 7 (pos 9) ∷ decrements 7 (pos 80) ∷ []

held : remaining 7 cells ≡ some (pos 100)
unfolding remaining
held = refl

decrement-pos_example : decrement 7 (pos 130) cells ≡ (
    if ltb 100 130
    then (cells, err (insufficient (pos 100) (pos 130)))
    else (insert 7 (pos (100 - 130)) cells, ok (pos (100 - 130))))
decrement-pos_example = decrement-pos 7 130 100 cells held (omega arith)

remaining-decrement_ne_example : remaining 7 (decrement 8 (pos 1) cells).0 ≡ remaining 7 cells
remaining-decrement_ne_example = remaining-decrement_ne 7 8 (pos 1) cells (omega arith)
