-- ===== src/Shared/Results.antt =====
-- Fallible code: `Result A E`, with `do` blocks.
use mathlib.Core.Path.{◌≡◌, refl, ap}
use mathlib.Core.Bool.{Bool, true, false}
use mathlib.Core.Option.{Option, none, some}

pub data Result {ℓ κ} (A : Type ℓ) (E : Type κ) : Type (ℓ ⊔ κ) where
  ok : A → Result A E
  err : E → Result A E

-- `Option::ok_or`
abbrev pub ok_or {ℓ κ} : {A : Type ℓ} {E : Type κ} → Option A → E → Result A E
ok_or none e = err e
ok_or (some a) e = ok a

abbrev pub is_ok {ℓ κ} : {A : Type ℓ} {E : Type κ} → Result A E → Bool
is_ok (ok a) = true
is_ok (err e) = false

abbrev pub is_some {ℓ} : {A : Type ℓ} → Option A → Bool
is_some none = false
is_some (some a) = true

-- The question mark: the value goes on to `next`, an error is returned.
infixl 5 ◌>>=◌ ◌>>◌
abbrev pub ◌>>=◌ {ℓ κ} : {A B : Type ℓ} {E : Type κ} → Result A E → (A → Result B E) → Result B E
err problem >>= next = err problem
ok value >>= next = next value

pub >>=-eq-ok {ℓ κ} :
    {A B : Type ℓ} {E : Type κ} (first : Result A E) (next : A → Result B E) {b : B}
    → (first >>= next) ≡ ok b
    → (a : A) × (first ≡ ok a) × (next a ≡ ok b)
>>=-eq-ok (err problem) next h = cc
>>=-eq-ok (ok value) next h = (value, refl, h)

abbrev pub ◌>>◌ {κ} : {B : Type 0} {E : Type κ} → Result (Unit {0}) E → Result B E → Result B E
first >> second = first >>= λ _. second

pub some-injective {ℓ} : {A : Type ℓ} {a b : A} → some a ≡ some b → a ≡ b
some-injective {A} {a} {b} h = ap (λ (o : Option A). elim o [ none ↦ a | some c ↦ c ]) h

pub ok-injective {ℓ κ} :
    {A : Type ℓ} {E : Type κ} {a b : A} → ◌≡◌ {A = Result A E} (ok a) (ok b) → a ≡ b
ok-injective {A} {E} {a} {b} h = ap (λ (r : Result A E). elim r [ ok c ↦ c | err e ↦ a ]) h
