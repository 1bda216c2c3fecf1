-- ===== src/Shared/Distinctness.antt =====
-- Lists of texts with no text twice.
use Prim.Native.Nat.{suc, ◌≤◌}
use mathlib.Core.Path.{◌≡◌, refl, sym, ◌∙◌, subst}
use mathlib.Core.Logic.{◌⊎◌, inl, inr}
use mathlib.Core.Bool.{false}
use mathlib.Core.List.{List, [], ◌∷◌}
use native.Mathlib.Omega.{arith}
use konf.Shared.Lists.{length, In, here, there}
use konf.Shared.Strings.{Text}
use konf.Shared.Members.{member, member_iff}

abbrev pub Distinct : List Text → Type 0
Distinct [] = Unit {0}
Distinct (t ∷ ts) = (member t ts ≡ false) × Distinct ts

-- A list without one occurrence of a member.
without : {t : Text} (ts : List Text) → In t ts → List Text
without [] i = []
without (x ∷ ts) (here e) = ts
without (x ∷ ts) (there i) = x ∷ without ts i

length-without : {t : Text} (ts : List Text) (i : In t ts) → length ts ≡ suc (length (without ts i))
unfolding without
length-without [] i = elim i [ ]
length-without (x ∷ ts) (here e) = refl
length-without (x ∷ ts) (there i) = omega (arith, length-without ts i)

In-without : {t u : Text} (ts : List Text) (i : In t ts) → In u ts → (u ≡ t) ⊎ In u (without ts i)
unfolding without
In-without [] i j = elim i [ ]
In-without (x ∷ ts) (here e) (here q) = inl (q ∙ sym e)
In-without (x ∷ ts) (here e) (there j) = inr j
In-without (x ∷ ts) (there i) (here q) = inr (here q)
In-without (x ∷ ts) (there i) (there j) = elim (In-without ts i j) [
  | inl q ↦ inl q
  | inr k ↦ inr (there k)
]

-- A list with no text twice is no longer than one that has all its texts.
pub Distinct-length :
    (ts us : List Text) → Distinct ts → ((t : Text) → In t ts → In t us) → length ts ≤ length us
Distinct-length [] us d sub = omega arith
Distinct-length (t ∷ ts) us d sub =
    let i = sub t (here refl) in
    omega (
      arith,
      length-without us i,
      Distinct-length ts (without us i) d.1 λ u j. elim (In-without us i (sub u (there j))) [
        | inl q ↦ absurd (cc (d.0, (member_iff t ts).1 (subst (λ z. In z ts) q j)))
        | inr k ↦ k
      ],
    )
