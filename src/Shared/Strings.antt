-- ===== src/Shared/Strings.antt =====
-- Text as the list of its characters' code points. Rust's `str` methods that the program calls.
use Prim.Native.Nat.{ℕ}
use Prim.Native.Char.{code}
use Prim.Native.String.{String}
use mathlib.Core.Path.{◌≡◌, refl, ap, sym, subst, ◌∙◌}
use mathlib.Core.Logic.{◌↔◌, inl, inr}
use mathlib.Core.Bool.{Bool, true, false, ◌&&◌}
use mathlib.Core.List.{List, [], ◌∷◌, ◌++◌}
use mathlib.Core.Option.{Option, none, some}
use native.Mathlib.Omega.{arith}
use konf.Shared.Tests.{◌==◌, Bool-cases}
use konf.Shared.Lists.{length, get_elem?, length-append}

abbrev pub Text : Type 0
Text = List ℕ

abbrev pub text : String → Text
text String.[] = []
text (String.◌∷◌ c s) = code c ∷ text s

unfoldable pub text_eq : Text → Text → Bool
text_eq [] [] = true
text_eq [] (b ∷ bs) = false
text_eq (a ∷ as') [] = false
text_eq (a ∷ as') (b ∷ bs) = (a == b) && text_eq as' bs

pub text_eq→eq : (s t : Text) → text_eq s t ≡ true → s ≡ t
unfolding text_eq
text_eq→eq [] [] h = refl
text_eq→eq [] (b ∷ bs) h = cc
text_eq→eq (a ∷ s) [] h = cc
text_eq→eq (a ∷ s) (b ∷ t) h = ground (arith, text_eq→eq s t)

pub text_eq_self : (s : Text) → text_eq s s ≡ true
unfolding text_eq
text_eq_self [] = refl
text_eq_self (a ∷ s) = ground (arith, text_eq_self s)

pub text_eq_iff : (s t : Text) → (text_eq s t ≡ true) ↔ (s ≡ t)
text_eq_iff s t = (text_eq→eq s t, λ e. ap (text_eq s) (sym e) ∙ text_eq_self s)

-- `s.starts_with(prefix)`
unfoldable pub starts_with : Text → Text → Bool
starts_with s [] = true
starts_with [] (p ∷ ps) = false
starts_with (c ∷ s) (p ∷ ps) = (c == p) && starts_with s ps

pub starts_with→append : (s p : Text) → starts_with s p ≡ true → (r : Text) × (s ≡ p ++ r)
unfolding starts_with
starts_with→append s [] h = (s, refl)
starts_with→append [] (p ∷ ps) h = cc
starts_with→append (c ∷ s) (p ∷ ps) h =
    let (r, e) = starts_with→append s ps (ground arith) in (r, ground arith)

pub starts_with-append : (p r : Text) → starts_with (p ++ r) p ≡ true
unfolding starts_with
starts_with-append [] r = refl
starts_with-append (c ∷ p) r = ground (arith, starts_with-append p r)

abbrev prepend : ℕ → Option Text → Option Text
prepend c none = none
prepend c (some r) = some (c ∷ r)

-- `s.strip_suffix(suffix)`: what stands before the suffix, if `s` ends with it.
unfoldable pub strip_suffix : Text → Text → Option Text
strip_suffix [] suffix = elim (text_eq [] suffix) [ true ↦ some [] | false ↦ none ]
strip_suffix (c ∷ s) suffix = elim (text_eq (c ∷ s) suffix) [
  | true ↦ some []
  | false ↦ prepend c (strip_suffix s suffix)
]

prepend→append :
    (c : ℕ) (s suffix p : Text) (o : Option Text)
    → ((r : Text) → o ≡ some r → s ≡ r ++ suffix)
    → prepend c o ≡ some p
    → c ∷ s ≡ p ++ suffix
prepend→append c s suffix p none rest h = cc
prepend→append c s suffix p (some r) rest h = cc (rest r refl)

pub strip_suffix→append : (s suffix p : Text) → strip_suffix s suffix ≡ some p → s ≡ p ++ suffix
unfolding strip_suffix
strip_suffix→append [] suffix p h = ground (arith, text_eq→eq [] suffix)
strip_suffix→append (c ∷ s) suffix p h = elim (Bool-cases (text_eq (c ∷ s) suffix)) [
  | inl e ↦ ground (arith, text_eq→eq (c ∷ s) suffix)
  | inr e ↦
      prepend→append c s suffix p (strip_suffix s suffix) (strip_suffix→append s suffix)
        (ground arith)
]

longer-ne : (c : ℕ) (p s : Text) → text_eq (c ∷ (p ++ s)) s ≡ false
longer-ne c p s = elim (Bool-cases (text_eq (c ∷ (p ++ s)) s)) [
  | inl e ↦
      absurd (omega (arith, ap (length {0}) (text_eq→eq (c ∷ (p ++ s)) s e), length-append p s))
  | inr e ↦ e
]

pub strip_suffix-append : (p suffix : Text) → strip_suffix (p ++ suffix) suffix ≡ some p
unfolding strip_suffix
strip_suffix-append [] [] = ground (arith, text_eq_self [])
strip_suffix-append [] (c ∷ s) = ground (arith, text_eq_self (c ∷ s))
strip_suffix-append (c ∷ p) s = ground (arith, longer-ne c p s, strip_suffix-append p s)

pub strip_suffix_iff : (s suffix p : Text) → (strip_suffix s suffix ≡ some p) ↔ (s ≡ p ++ suffix)
strip_suffix_iff s suffix p =
    (strip_suffix→append s suffix p, λ e. rw e (strip_suffix-append p suffix))

-- `s.ends_with(suffix)`
unfoldable pub ends_with : Text → Text → Bool
ends_with s suffix = elim (strip_suffix s suffix) [ none ↦ false | some _ ↦ true ]

-- Whether the character at a place is `c`.
unfoldable pub char_is : Option ℕ → ℕ → Bool
char_is none c = false
char_is (some d) c = d == c

char_is→append :
    (p r : Text) (c : ℕ)
    → char_is (get_elem? (p ++ r) (length p)) c ≡ true
    → (t : Text) × (r ≡ c ∷ t)
unfolding char_is
char_is→append [] [] c h = cc
char_is→append [] (d ∷ r) c h = (r, ground arith)
char_is→append (x ∷ p) r c h = char_is→append p r c h

char_is-append :
    (p : Text) (c : ℕ) (t : Text) → char_is (get_elem? (p ++ c ∷ t) (length p)) c ≡ true
unfolding char_is
char_is-append [] c t = ground arith
char_is-append (x ∷ p) c t = char_is-append p c t

-- `s.starts_with(p) && s.get(p.len()..p.len() + 1) == Some(c)`, for an ASCII character `c`: the
-- slice is the character behind the prefix, since a prefix ends where a character starts.
unfoldable pub starts_with_then : Text → Text → ℕ → Bool
starts_with_then s p c = starts_with s p && char_is (get_elem? s (length p)) c

pub starts_with_then_iff :
    (s p : Text) (c : ℕ) → (starts_with_then s p c ≡ true) ↔ ((r : Text) × (s ≡ p ++ c ∷ r))
unfolding starts_with_then
starts_with_then_iff s p c = (forth, back)
  where
    tail_of :
        (r : Text) → s ≡ p ++ r → starts_with_then s p c ≡ true → (u : Text) × (s ≡ p ++ c ∷ u)
    tail_of r e h =
        let (u, ru) =
          char_is→append p r c
            (subst (λ z. char_is (get_elem? z (length p)) c ≡ true) e (ground arith)) in
        (u, e ∙ ap (λ z. p ++ z) ru)

    forth : starts_with_then s p c ≡ true → (r : Text) × (s ≡ p ++ c ∷ r)
    forth h = let (r, e) = starts_with→append s p (ground arith) in tail_of r e h

    back : ((r : Text) × (s ≡ p ++ c ∷ r)) → starts_with_then s p c ≡ true
    back (r, e) = rw e (ground (arith, starts_with-append p (c ∷ r), char_is-append p c r))
