-- ===== src/Expr/Parts.antt =====
-- How long the parts are into which expr.rs splits an expression.
use konf.Shared.{
  ℕ, ◌+◌, ◌<◌, ◌≡◌, inl, inr, Option, none, some, List, [], ◌∷◌, ◌==◌, length, arith, Bool-cases,
  Text, strip_prefix,
}
use konf.Expr.Eval.{
  first_part, at_start, or_later, find, rfind, Comparison, is_equal, is_different, is_at_least,
  is_at_most, is_above, is_below, separator, with_op, or_other, find_comparison,
}

-- The parts of a text round an occurrence are as long as they can be.
abbrev pub Fits : Text → Text → Option (Text × Text) → Type 0
Fits s sep none = Unit {0}
Fits s sep (some (l, r)) = length s ≡ length l + length sep + length r

longer-Fits :
    (c p : ℕ) (s ps : Text) (o : Option Text)
    → Fits s ps (at_start o)
    → Fits (c ∷ s) (p ∷ ps) (at_start o)
longer-Fits c p s ps none fits = tt
longer-Fits c p s ps (some r) fits = omega arith

pub strip_prefix-Fits : (s p : Text) → Fits s p (at_start (strip_prefix s p))
unfolding strip_prefix
strip_prefix-Fits s [] = omega arith
strip_prefix-Fits [] (p ∷ ps) = tt
strip_prefix-Fits (c ∷ s) (p ∷ ps) = elim (Bool-cases (c == p)) [
  | inl e ↦ rw e (longer-Fits c p s ps (strip_prefix s ps) (strip_prefix-Fits s ps))
  | inr e ↦ rw e tt
]

first_part-Fits :
    (c : ℕ) (s sep : Text) (o : Option (Text × Text))
    → Fits s sep o
    → Fits (c ∷ s) sep (first_part c o)
first_part-Fits c s sep none fits = tt
first_part-Fits c s sep (some (l, r)) fits = omega arith

or_later-Fits :
    (s sep : Text) (o later : Option (Text × Text))
    → Fits s sep o
    → Fits s sep later
    → Fits s sep (or_later o later)
or_later-Fits s sep none later fits next = next
or_later-Fits s sep (some parts) later fits next = fits

find-Fits : (s sep : Text) → Fits s sep (find s sep)
unfolding find
find-Fits [] sep = strip_prefix-Fits [] sep
find-Fits (c ∷ s) sep =
    or_later-Fits (c ∷ s) sep (at_start (strip_prefix (c ∷ s) sep)) (first_part c (find s sep))
      (strip_prefix-Fits (c ∷ s) sep) (first_part-Fits c s sep (find s sep) (find-Fits s sep))

pub rfind-Fits : (s sep : Text) → Fits s sep (rfind s sep)
unfolding rfind
rfind-Fits [] sep = strip_prefix-Fits [] sep
rfind-Fits (c ∷ s) sep =
    or_later-Fits (c ∷ s) sep (first_part c (rfind s sep)) (at_start (strip_prefix (c ∷ s) sep))
      (first_part-Fits c s sep (rfind s sep) (rfind-Fits s sep)) (strip_prefix-Fits (c ∷ s) sep)

-- The sides of a comparison are shorter.
abbrev pub Shorter : Text → Option (Comparison × Text × Text) → Type 0
Shorter s none = Unit {0}
Shorter s (some (op, l, r)) = (length l < length s) × (length r < length s)

separator_pos : (op : Comparison) → 0 < length (separator op)
unfolding separator
separator_pos is_equal = omega arith
separator_pos is_different = omega arith
separator_pos is_at_least = omega arith
separator_pos is_at_most = omega arith
separator_pos is_above = omega arith
separator_pos is_below = omega arith

with_op-Shorter :
    (op : Comparison) (s : Text) (o : Option (Text × Text))
    → Fits s (separator op) o
    → Shorter s (with_op op o)
with_op-Shorter op s none fits = tt
with_op-Shorter op s (some (l, r)) fits =
    (omega (arith, separator_pos op), omega (arith, separator_pos op))

or_other-Shorter :
    (s : Text) (o other : Option (Comparison × Text × Text))
    → Shorter s o
    → Shorter s other
    → Shorter s (or_other o other)
or_other-Shorter s none other short next = next
or_other-Shorter s (some found) other short next = short

pub find_comparison-Shorter : (ops : List Comparison) (s : Text) → Shorter s (find_comparison ops s)
unfolding find_comparison
find_comparison-Shorter [] s = tt
find_comparison-Shorter (op ∷ ops) s =
    or_other-Shorter s (with_op op (find s (separator op))) (find_comparison ops s)
      (with_op-Shorter op s (find s (separator op)) (find-Fits s (separator op)))
      (find_comparison-Shorter ops s)
