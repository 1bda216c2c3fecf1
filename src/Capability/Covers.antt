-- ===== src/Capability/Covers.antt =====
-- What a capability pattern means, apart from the code that matches it.
use konf.Shared.{
  ℕ, ◌≡◌, refl, sym, ap, ap₂, ◌∙◌, subst, ◌↔◌, inl, inr, true, [], ◌∷◌, ◌++◌, arith, Text, text_eq,
  text_eq_iff, text_eq_self, strip_suffix, strip_suffix_iff, strip_suffix-append,
  starts_with_then_iff, length, length-append, Bool-cases, Option-cases,
}
use konf.Capability.{new, matches, star, colon_star}

-- `c` covers `t`: it is `*`, or it is `p:*` and `t` is `p:` and more, or it is `t`.
pub data Covers : Text → Text → Type 0 where
  everything : {c t : Text} → c ≡ star → Covers c t
  under : {c t : Text} (p r : Text) → c ≡ p ++ colon_star → t ≡ p ++ b':' ∷ r → Covers c t
  exactly : {c t : Text} → c ≡ t → Covers c t

abbrev first : Text → ℕ
first [] = 0
first (x ∷ t) = x

abbrev rest : Text → Text
rest [] = []
rest (x ∷ t) = t

-- `:` and more cannot be `*`, nor can it start inside the `:*` that ends a pattern.
colon-ne-star : (p r : Text) → p ++ b':' ∷ r ≡ star → ⊥
colon-ne-star [] r e = omega (arith, ap first e)
colon-ne-star (x ∷ p) r e = omega (arith, ap (length {0}) e, length-append p (b':' ∷ r))

-- A pattern `q:*` that starts with `p:` covers only names that start with `p:`.
under-under :
    (p r q s : Text)
    → q ++ colon_star ≡ p ++ b':' ∷ r
    → (r' : Text) × (q ++ b':' ∷ s ≡ p ++ b':' ∷ r')
under-under [] r [] s e = (s, refl)
under-under [] r (x ∷ q) s e = (q ++ b':' ∷ s, ap (λ (y : ℕ). y ∷ (q ++ b':' ∷ s)) (ap first e))
under-under (x ∷ p) r [] s e = absurd (colon-ne-star p r (sym (ap rest e)))
under-under (x ∷ p) r (y ∷ q) s e =
    let (r', e') = under-under p r q s (ap rest e) in (r', ap₂ ◌∷◌ (ap first e) e')

under_trans :
    {b c : Text} (a p r : Text) → a ≡ p ++ colon_star → b ≡ p ++ b':' ∷ r → Covers b c → Covers a c
under_trans a p r ea eb (everything e) = absurd (colon-ne-star p r (sym eb ∙ e))
under_trans a p r ea eb (exactly e) = under p r ea (sym e ∙ eb)
under_trans a p r ea eb (under q s eq ec) =
    let (r', e) = under-under p r q s (sym eq ∙ eb) in under p r' ea (ec ∙ e)

-- Covering composes: what a covered pattern covers is covered.
pub Covers-trans : {a b c : Text} → Covers a b → Covers b c → Covers a c
Covers-trans (everything e) h = everything e
Covers-trans {a} (under p r ea eb) h = under_trans a p r ea eb h
Covers-trans {a} {b} {c} (exactly e) h = subst (λ x. Covers x c) (sym e) h

matches→Covers : (c t : Text) → matches (new c) t ≡ true → Covers c t
unfolding matches
matches→Covers c t h = elim (Bool-cases (text_eq c star)) [
  | inl e ↦ everything ((text_eq_iff c star).0 e)
  | inr e ↦ elim (Option-cases (strip_suffix c colon_star)) [
    | inl f ↦ exactly ((text_eq_iff c t).0 (ground arith))
    | inr (p, f) ↦
        let (r, et) = (starts_with_then_iff t p b':').0 (ground arith) in
        under p r ((strip_suffix_iff c colon_star p).0 f) et
  ]
]

under-matches : (p r : Text) → matches (new (p ++ colon_star)) (p ++ b':' ∷ r) ≡ true
unfolding matches
under-matches p r = ground (
  arith,
  strip_suffix-append p colon_star,
  (starts_with_then_iff (p ++ b':' ∷ r) p b':').1 (r, refl),
)

-- A pattern matches itself.
pub matches_self : (c : Text) → matches (new c) c ≡ true
unfolding matches
matches_self c = elim (Bool-cases (text_eq c star)) [
  | inl e ↦ rw e
  | inr e ↦ elim (Option-cases (strip_suffix c colon_star)) [
    | inl f ↦ ground (arith, text_eq_self c)
    | inr (p, f) ↦
        let ec = (strip_suffix_iff c colon_star p).0 f in
        ground (arith, (starts_with_then_iff c p b':').1 (star, ec))
  ]
]

Covers→matches : (c t : Text) → Covers c t → matches (new c) t ≡ true
Covers→matches c t (everything e) = rw e (unfold matches text_eq in refl)
Covers→matches c t (under p r ec et) = rw (ec, et) (under-matches p r)
Covers→matches c t (exactly e) = rw (← e) (matches_self c)

-- The matching code decides the meaning of the pattern.
pub matches-iff-Covers : (c t : Text) → (matches (new c) t ≡ true) ↔ Covers c t
matches-iff-Covers c t = (matches→Covers c t, Covers→matches c t)
