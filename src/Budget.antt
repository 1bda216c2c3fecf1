-- ===== src/Budget.antt =====
-- crates/konf-runtime/src/budget.rs: per-trace budget cells. Each operation takes the lock of the
-- table for its whole run, so a run of the program is a sequence of operations. A trace id is a
-- number; amounts are `i64`.
pub mod Account
mod Tests
use konf.Shared.{
  ℕ, Bool, true, false, Option, none, some, List, [], ◌∷◌, if◌then◌else◌, ◌==◌, Result, ok, err, ℤ,
  ◌-ℤ◌, ltb_ℤ, wrap_i64,
}

abbrev pub BudgetTable : Type 0
BudgetTable = List (ℕ × ℤ)

abbrev pub empty : BudgetTable
empty = []

pub data BudgetError : Type 0 where
  not_found already_exists : BudgetError
  insufficient : ℤ → ℤ → BudgetError

-- `HashMap::get`, `insert` and `remove`
unfoldable pub remaining : ℕ → BudgetTable → Option ℤ
remaining trace_id [] = none
remaining trace_id ((t, a) ∷ cells) = if t == trace_id then some a else remaining trace_id cells

unfoldable pub insert : ℕ → ℤ → BudgetTable → BudgetTable
insert trace_id amount [] = (trace_id, amount) ∷ []
insert trace_id amount ((t, a) ∷ cells) =
    if t == trace_id then (t, amount) ∷ cells else (t, a) ∷ insert trace_id amount cells

unfoldable pub erase : ℕ → BudgetTable → BudgetTable
erase trace_id [] = []
erase trace_id ((t, a) ∷ cells) =
    let kept = erase trace_id cells in if t == trace_id then kept else (t, a) ∷ kept

-- Each operation returns the table that it leaves and its result.
unfoldable pub mint : ℕ → ℤ → BudgetTable → BudgetTable × Result (Unit {0}) BudgetError
mint trace_id amount cells = elim (remaining trace_id cells) [
  | some _ ↦ (cells, err already_exists)
  | none ↦ (insert trace_id amount cells, ok tt)
]

take_amount : ℕ → ℤ → BudgetTable → ℤ → BudgetTable × Result ℤ BudgetError
take_amount trace_id amount cells current =
    if ltb_ℤ current amount
    then (cells, err (insufficient current amount))
    else (let left = wrap_i64 (current -ℤ amount) in (insert trace_id left cells, ok left))

unfoldable pub decrement : ℕ → ℤ → BudgetTable → BudgetTable × Result ℤ BudgetError
unfolding take_amount
decrement trace_id amount cells = elim (remaining trace_id cells) [
  | none ↦ (cells, err not_found)
  | some current ↦ take_amount trace_id amount cells current
]

unfoldable pub remove : ℕ → BudgetTable → BudgetTable × Option ℤ
remove trace_id cells = (erase trace_id cells, remaining trace_id cells)
