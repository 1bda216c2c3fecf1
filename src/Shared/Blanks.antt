-- ===== src/Shared/Blanks.antt =====
-- About the trimming of texts.
use Prim.Native.Nat.{ℕ, suc, ◌≤◌, ◌<◌}
use mathlib.Core.Path.{◌≡◌, refl, ap, ◌∙◌}
use mathlib.Core.Logic.{inl, inr}
use mathlib.Core.List.{[], ◌∷◌, ◌++◌}
use native.Mathlib.Omega.{arith}
use konf.Shared.Tests.{Bool-cases}
use konf.Shared.Lists.{length, length-append}
use konf.Shared.Strings.{Text}
use konf.Shared.Trim.{is_whitespace, trim_start, unless_blank, trim_end, trim}

trim_start-length : (s : Text) → length (trim_start s) ≤ length s
unfolding trim_start
trim_start-length [] = omega arith
trim_start-length (c ∷ s) = ground (arith, trim_start-length s)

unless_blank-length : (c : ℕ) (s : Text) → length (unless_blank c s) ≤ suc (length s)
unless_blank-length c [] = ground arith
unless_blank-length c (d ∷ s) = omega arith

trim_end-length : (s : Text) → length (trim_end s) ≤ length s
unfolding trim_end
trim_end-length [] = omega arith
trim_end-length (c ∷ s) = omega (arith, unless_blank-length c (trim_end s), trim_end-length s)

pub trim-length : (s : Text) → length (trim s) ≤ length s
unfolding trim
trim-length s = omega (arith, trim_end-length (trim_start s), trim_start-length s)

-- A text that is not empty and has no blank at its ends.
abbrev pub Tight : Text → Type 0
Tight s = (0 < length s) × (trim_start s ≡ s) × (trim_end s ≡ s)

pub trim_start-append :
    (a x : Text) → 0 < length a → trim_start a ≡ a → trim_start (a ++ x) ≡ a ++ x
unfolding trim_start
trim_start-append [] x pos h = absurd (omega arith)
trim_start-append (c ∷ a) x pos h = elim (Bool-cases (is_whitespace c)) [
  | inl e ↦ absurd (ground (arith, trim_start-length a, ap (length {0}) h))
  | inr e ↦ rw e refl
]

unless_blank_nonempty : (c : ℕ) (t : Text) → 0 < length t → unless_blank c t ≡ c ∷ t
unless_blank_nonempty c [] pos = absurd (omega arith)
unless_blank_nonempty c (d ∷ t) pos = refl

pub trim_end-append : (x b : Text) → 0 < length b → trim_end b ≡ b → trim_end (x ++ b) ≡ x ++ b
unfolding trim_end
trim_end-append [] b pos h = h
trim_end-append (c ∷ x) b pos h =
    ap (unless_blank c) (trim_end-append x b pos h)
    ∙ unless_blank_nonempty c (x ++ b) (omega (arith, length-append x b))

pub trim-Tight : (s : Text) → Tight s → trim s ≡ s
unfolding trim
trim-Tight s (pos, start, end) = ap trim_end start ∙ end

-- Two tight texts with something between are trimmed.
pub join-Tight : (a m b : Text) → Tight a → Tight b → Tight (a ++ (m ++ b))
join-Tight a m b (pos, start, end) (pos', start', end') = (
  omega (arith, length-append a (m ++ b)),
  trim_start-append a (m ++ b) pos start,
  trim_end-append a (m ++ b) (omega (arith, length-append m b)) (trim_end-append m b pos' end'),
)
