-- ===== src/Shared/Members.antt =====
-- Sets of texts as lists of what was inserted, and loops that stop at the first error.
use mathlib.Core.Path.{◌≡◌, refl, sym, ap, ◌∙◌, subst}
use mathlib.Core.Logic.{◌↔◌}
use mathlib.Core.Bool.{Bool, true, ◌&&◌}
use mathlib.Core.List.{List, [], ◌∷◌, ◌++◌}
use native.Mathlib.Omega.{arith}
use konf.Shared.Lists.{any, In, here, there, any→In, In→any}
use konf.Shared.Strings.{Text, text_eq, text_eq_iff, text_eq_self}
use konf.Shared.Results.{Result, ok, err, is_ok, ◌>>◌}

unfoldable pub member : Text → List Text → Bool
member t ts = any (text_eq t) ts

pub member_iff : (t : Text) (ts : List Text) → (member t ts ≡ true) ↔ In t ts
unfolding member
member_iff t ts = (
  λ h.
      let (s, i, e) = any→In (text_eq t) ts h in
      subst (λ z. In z ts) (sym ((text_eq_iff t s).0 e)) i,
  λ i. In→any (text_eq t) ts i (text_eq_self t),
)

-- `for x in xs { f(x)?; }`
unfoldable pub for_each {ℓ κ} :
    {A : Type ℓ} {E : Type κ} → (A → Result (Unit {0}) E) → List A → Result (Unit {0}) E
for_each f [] = ok tt
for_each f (x ∷ xs) = f x >> for_each f xs

pub is_ok-then {κ} :
    {E : Type κ} {B : Type 0} (m : Result (Unit {0}) E) (k : Result B E)
    → is_ok (m >> k) ≡ (is_ok m && is_ok k)
is_ok-then (ok u) k = refl
is_ok-then (err e) k = refl

pub is_ok_iff {κ} : {E : Type κ} (m : Result (Unit {0}) E) → (is_ok m ≡ true) ↔ (m ≡ ok tt)
is_ok_iff (ok u) = (λ h. refl, λ h. refl)
is_ok_iff (err e) = (λ h. absurd (cc h), λ h. absurd (cc h))

>>-assoc {κ} : {E : Type κ} (m k l : Result (Unit {0}) E) → (m >> (k >> l)) ≡ ((m >> k) >> l)
>>-assoc (ok u) k l = refl
>>-assoc (err e) k l = refl

module _ {ℓ κ} {A : Type ℓ} {E : Type κ} (f : A → Result (Unit {0}) E) where
  for_each→all :
      (xs : List A) → is_ok (for_each f xs) ≡ true → (a : A) → In a xs → is_ok (f a) ≡ true
  unfolding for_each
  for_each→all [] h a i = elim i [ ]
  for_each→all (x ∷ xs) h a (here e) =
      subst (λ z. is_ok (f z) ≡ true) (sym e) (ground (arith, is_ok-then (f x) (for_each f xs)))
  for_each→all (x ∷ xs) h a (there i) =
      for_each→all xs (ground (arith, is_ok-then (f x) (for_each f xs))) a i

  all→for_each :
      (xs : List A) → ((a : A) → In a xs → is_ok (f a) ≡ true) → is_ok (for_each f xs) ≡ true
  unfolding for_each
  all→for_each [] g = refl
  all→for_each (x ∷ xs) g = ground (
    arith,
    is_ok-then (f x) (for_each f xs),
    g x (here refl),
    all→for_each xs (λ a i. g a (there i)),
  )

  pub is_ok-for_each :
      (xs : List A) → (is_ok (for_each f xs) ≡ true) ↔ ((a : A) → In a xs → is_ok (f a) ≡ true)
  is_ok-for_each xs = (for_each→all xs, all→for_each xs)

  pub for_each-append : (xs ys : List A) → for_each f (xs ++ ys) ≡ (for_each f xs >> for_each f ys)
  unfolding for_each
  for_each-append [] ys = refl
  for_each-append (x ∷ xs) ys =
      ap (λ z. f x >> z) (for_each-append xs ys) ∙ >>-assoc (f x) (for_each f xs) (for_each f ys)
