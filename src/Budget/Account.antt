-- ===== src/Budget/Account.antt =====
-- A budget cell through any sequence of operations.
use konf.Shared.{
  ℕ, ◌+◌, ◌-◌, ◌^◌, ltb, ◌<◌, ◌≡◌, ◌≢◌, refl, inl, inr, true, false, none, some, List, [], ◌∷◌,
  arith, ◌==◌, if◌then◌else◌, Bool-cases, Option-cases, Result, ok, err, ℤ, pos, negsuc, ◌-ℤ◌,
  wrap_i64,
}
use konf.Budget.{
  BudgetTable, BudgetError, remaining, insert, erase, mint, decrement, take_amount, remove,
  insufficient,
}

pub remaining-insert :
    (t u : ℕ) (a : ℤ) (cells : BudgetTable)
    → remaining u (insert t a cells) ≡ (if t == u then some a else remaining u cells)
unfolding remaining insert
remaining-insert t u a [] = refl
remaining-insert t u a ((k, b) ∷ cells) = ground (arith, remaining-insert t u a cells)

pub remaining-erase :
    (t u : ℕ) (cells : BudgetTable)
    → remaining u (erase t cells) ≡ (if t == u then none else remaining u cells)
unfolding remaining erase
remaining-erase t u [] = ground arith
remaining-erase t u ((k, b) ∷ cells) = ground (arith, remaining-erase t u cells)

pub data Op : Type 0 where
  mints : ℕ → ℤ → Op
  decrements : ℕ → ℤ → Op
  removes : ℕ → Op

pub step : Op → BudgetTable → BudgetTable
step (mints t a) cells = (mint t a cells).0
step (decrements t a) cells = (decrement t a cells).0
step (removes t) cells = (remove t cells).0

pub run : List Op → BudgetTable → BudgetTable
run [] cells = cells
run (op ∷ ops) cells = run ops (step op cells)

-- What an operation takes from the cell of trace `t`, if it succeeds.
abbrev granted : Result ℤ BudgetError → ℤ → ℕ
granted (ok left) (pos n) = n
granted _ amount = 0

spent_by : ℕ → Op → BudgetTable → ℕ
spent_by t (decrements u a) cells = if u == t then granted (decrement u a cells).1 a else 0
spent_by t _ cells = 0

pub spent : ℕ → List Op → BudgetTable → ℕ
unfolding spent_by
spent t [] cells = 0
spent t (op ∷ ops) cells = spent_by t op cells + spent t ops (step op cells)

-- The operations that the account is about: no negative decrement of the trace, and no removal.
abbrev pub Ordinary : ℕ → Op → Type 0
Ordinary t (mints u a) = Unit {0}
Ordinary t (decrements u (pos n)) = Unit {0}
Ordinary t (decrements u (negsuc n)) = u ≢ t
Ordinary t (removes u) = u ≢ t

abbrev pub AllOrdinary : ℕ → List Op → Type 0
AllOrdinary t [] = Unit {0}
AllOrdinary t (op ∷ ops) = Ordinary t op × AllOrdinary t ops

ne→==_false : (u t : ℕ) → u ≢ t → (u == t) ≡ false
ne→==_false u t n = ground arith

==_self : (t : ℕ) → (t == t) ≡ true
==_self t = ground arith

-- A decrement of one trace leaves the cells of the others alone.
pub remaining-decrement_ne :
    (t u : ℕ) (b : ℤ) (cells : BudgetTable)
    → u ≢ t
    → remaining t (decrement u b cells).0 ≡ remaining t cells
unfolding decrement
remaining-decrement_ne t u b cells n = elim (Option-cases (remaining u cells)) [
  | inl e ↦ rw (e, decrement)
  | inr (c, e) ↦ ground (arith, ne→==_false u t n, remaining-insert u t (wrap_i64 (c -ℤ b)) cells)
]

take_pos :
    (t n a : ℕ) (cells : BudgetTable)
    → a < 2 ^ 63
    → take_amount t (pos n) cells (pos a) ≡ (
        if ltb a n
        then (cells, err (insufficient (pos a) (pos n)))
        else (insert t (pos (a - n)) cells, ok (pos (a - n))))
unfolding take_amount wrap_i64 ◌-ℤ◌
take_pos t n a cells lt = ground arith

-- A decrement by an amount that is not negative: refused and without effect if more than the cell
-- holds, and otherwise taken off the cell, with the rest returned.
pub decrement-pos :
    (t n a : ℕ) (cells : BudgetTable)
    → remaining t cells ≡ some (pos a)
    → a < 2 ^ 63
    → decrement t (pos n) cells ≡ (
        if ltb a n
        then (cells, err (insufficient (pos a) (pos n)))
        else (insert t (pos (a - n)) cells, ok (pos (a - n))))
unfolding decrement wrap_i64 ◌-ℤ◌
decrement-pos t n a cells h lt = rw (h, decrement) (take_pos t n a cells lt)

pub remaining-decrement_self :
    (t n a : ℕ) (cells : BudgetTable)
    → remaining t cells ≡ some (pos a)
    → a < 2 ^ 63
    → (r : ℕ) × (remaining t (decrement t (pos n) cells).0 ≡ some (pos r))
      × (r + granted (decrement t (pos n) cells).1 (pos n) ≡ a)
remaining-decrement_self t n a cells h lt = elim (Bool-cases (ltb a n)) [
  | inl e ↦ rw (decrement-pos t n a cells h lt, e) (a, h, omega arith)
  | inr e ↦
      rw (decrement-pos t n a cells h lt, e)
        (a - n, ground (arith, remaining-insert t t (pos (a - n)) cells, ==_self t), ground arith)
]

-- A decrement by a negative amount succeeds, and the cell grows by it.
pub decrement-negsuc :
    (t n a : ℕ) (cells : BudgetTable)
    → remaining t cells ≡ some (pos a)
    → a + n + 1 < 2 ^ 63
    → (remaining t (decrement t (negsuc n) cells).0 ≡ some (pos (a + n + 1)))
      × ((decrement t (negsuc n) cells).1 ≡ ok (pos (a + n + 1)))
unfolding decrement wrap_i64 ◌-ℤ◌
decrement-negsuc t n a cells h lt =
    (ground (arith, remaining-insert t t (pos (a + n + 1)) cells, ==_self t), ground arith)
