-- ===== src/Shared/Lists.antt =====
-- Lists measured and indexed by native numbers, under the library's names, and Boolean searches.
use Prim.Native.Nat.{ℕ, zero, suc, ◌+◌}
use mathlib.Core.Path.{◌≡◌, refl, ap}
use mathlib.Core.Logic.{◌⊎◌, inl, inr}
use mathlib.Core.Bool.{Bool, true, false, ◌&&◌, ◌||◌}
use mathlib.Core.List.{List, [], ◌∷◌, ◌++◌, map}
use mathlib.Core.Option.{Option, none, some}
use native.Mathlib.Omega.{arith}

module _ {ℓ} {A : Type ℓ} where
  abbrev pub length : List A → ℕ
  length [] = 0
  length (x ∷ xs) = suc (length xs)

  abbrev pub get_elem? : List A → ℕ → Option A
  get_elem? [] i = none
  get_elem? (x ∷ xs) zero = some x
  get_elem? (x ∷ xs) (suc i) = get_elem? xs i

  pub append_assoc : (xs ys zs : List A) → (xs ++ ys) ++ zs ≡ xs ++ (ys ++ zs)
  append_assoc [] ys zs = refl
  append_assoc (x ∷ xs) ys zs = ap (λ (rest : List A). x ∷ rest) (append_assoc xs ys zs)

  pub append_nil : (xs : List A) → xs ++ [] ≡ xs
  append_nil [] = refl
  append_nil (x ∷ xs) = ap (λ (rest : List A). x ∷ rest) (append_nil xs)

  pub length-append : (xs ys : List A) → length (xs ++ ys) ≡ length xs + length ys
  length-append [] ys = omega arith
  length-append (x ∷ xs) ys = omega (arith, length-append xs ys)

  abbrev pub any : (A → Bool) → List A → Bool
  any p [] = false
  any p (x ∷ xs) = p x || any p xs

  abbrev pub all : (A → Bool) → List A → Bool
  all p [] = true
  all p (x ∷ xs) = p x && all p xs

  -- A member of a list, with its place.
  pub data In (a : A) : List A → Type ℓ where
    here : {x : A} {xs : List A} → a ≡ x → In a (x ∷ xs)
    there : {x : A} {xs : List A} → In a xs → In a (x ∷ xs)

  pub In-middle : (xs : List A) (a : A) (ys : List A) → In a (xs ++ a ∷ ys)
  In-middle [] a ys = here refl
  In-middle (x ∷ xs) a ys = there (In-middle xs a ys)

  any-cons :
      (p : A → Bool) (x : A) (xs : List A) (b : Bool)
      → p x ≡ b
      → (any p xs ≡ true → (a : A) × In a xs × (p a ≡ true))
      → (b || any p xs) ≡ true
      → (a : A) × In a (x ∷ xs) × (p a ≡ true)
  any-cons p x xs true e rest h = (x, here refl, e)
  any-cons p x xs false e rest h = let (a, i, q) = rest h in (a, there i, q)

  pub any→In : (p : A → Bool) (xs : List A) → any p xs ≡ true → (a : A) × In a xs × (p a ≡ true)
  any→In p [] h = cc
  any→In p (x ∷ xs) h = any-cons p x xs (p x) refl (any→In p xs) h

  pub In→any : (p : A → Bool) {a : A} (xs : List A) → In a xs → p a ≡ true → any p xs ≡ true
  In→any p [] i e = elim i [ ]
  In→any p (x ∷ xs) (here q) e = ground (arith, ap p q)
  In→any p (x ∷ xs) (there i) e = ground (arith, In→any p xs i e)

  pub any-append : (p : A → Bool) (xs ys : List A) → any p (xs ++ ys) ≡ (any p xs || any p ys)
  any-append p [] ys = refl
  any-append p (x ∷ xs) ys = ground (arith, any-append p xs ys)

module _ {ℓ κ} {A : Type ℓ} {B : Type κ} (f : A → B) where
  pub In-map : {a : A} (xs : List A) → In a xs → In (f a) (map f xs)
  In-map [] i = elim i [ ]
  In-map (x ∷ xs) (here e) = here (ap f e)
  In-map (x ∷ xs) (there i) = there (In-map xs i)

  pub In-map_inv : {b : B} (xs : List A) → In b (map f xs) → (a : A) × In a xs × (b ≡ f a)
  In-map_inv [] i = elim i [ ]
  In-map_inv (x ∷ xs) (here e) = (x, here refl, e)
  In-map_inv (x ∷ xs) (there i) = let (a, j, e) = In-map_inv xs i in (a, there j, e)

module _ {ℓ} {A : Type ℓ} where
  pub In-append : {a : A} (xs ys : List A) → In a xs ⊎ In a ys → In a (xs ++ ys)
  In-append [] ys (inl i) = elim i [ ]
  In-append [] ys (inr j) = j
  In-append (x ∷ xs) ys (inl (here e)) = here e
  In-append (x ∷ xs) ys (inl (there i)) = there (In-append xs ys (inl i))
  In-append (x ∷ xs) ys (inr j) = there (In-append xs ys (inr j))

  pub In-append_inv : {a : A} (xs ys : List A) → In a (xs ++ ys) → In a xs ⊎ In a ys
  In-append_inv [] ys i = inr i
  In-append_inv (x ∷ xs) ys (here e) = inl (here e)
  In-append_inv (x ∷ xs) ys (there i) = elim (In-append_inv xs ys i) [
    | inl j ↦ inl (there j)
    | inr j ↦ inr j
  ]

  -- The elements of `xs`, in the opposite order, in front of `ys`.
  unfoldable pub onto : List A → List A → List A
  onto [] ys = ys
  onto (x ∷ xs) ys = onto xs (x ∷ ys)
