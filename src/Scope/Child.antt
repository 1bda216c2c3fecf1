-- ===== src/Scope/Child.antt =====
-- About the test of `ExecutionScope::child_scope`, and the substrate's matching.
use konf.Shared.{
  ◌≡◌, refl, ap, subst, inl, inr, true, false, ◌&&◌, ◌||◌, some, [], ◌∷◌, ◌++◌, arith, Bool-cases,
  Option-cases, Text, text_eq, text_eq_iff, strip_suffix, strip_suffix_iff, ends_with,
  starts_with_then, starts_with, char_is, get_elem?, length,
}
use konf.Capability.{matches, new, star, colon_star}
use konf.Capability.Covers.{matches_self}
use konf.Scope.{covered_by, under_prefix}

-- A child's `q:*` lies under the parent's `p:*` exactly if `q` is `p`, or `p:` and more.
prefix_test-eq :
    (q p : Text)
    → (starts_with q p && (text_eq q p || char_is (get_elem? q (length p)) b':'))
      ≡ starts_with_then (q ++ colon_star) p b':'
unfolding starts_with text_eq char_is starts_with_then
prefix_test-eq [] [] = refl
prefix_test-eq (c ∷ q) [] = refl
prefix_test-eq [] (x ∷ []) = ground arith
prefix_test-eq [] (x ∷ y ∷ p) = ground arith
prefix_test-eq (c ∷ q) (x ∷ p) = ground (arith, prefix_test-eq q p)

-- Where the parent's pattern is not `*`, is not the child's, and ends in `:*`.
under_prefix-eq-matches :
    (parent parent_prefix child : Text)
    → text_eq parent star ≡ false
    → strip_suffix parent colon_star ≡ some parent_prefix
    → under_prefix parent parent_prefix child ≡ matches (new parent) child
unfolding under_prefix ends_with matches
under_prefix-eq-matches parent p child ns e = elim (Option-cases (strip_suffix child colon_star)) [
  | inl f ↦ ground arith
  | inr (q, f) ↦
      let ec = (strip_suffix_iff child colon_star q).0 f in
      ground (arith, prefix_test-eq q p, ap (λ (z : Text). starts_with_then z p b':') ec)
]

-- `child_scope` accepts a pattern under a parent's exactly if the parent's pattern matches it as
-- it would match a tool's name, so the runtime and the substrate attenuate by one relation.
pub covered_by-eq-matches :
    (child parent : Text) → covered_by child parent ≡ matches (new parent) child
unfolding covered_by matches
covered_by-eq-matches child parent = elim (Bool-cases (text_eq parent star)) [
  | inl e ↦ rw e
  | inr ns ↦ elim (Bool-cases (text_eq parent child)) [
    | inl e ↦
        let same = (text_eq_iff parent child).0 e in
        ground (arith, subst (λ z. matches (new parent) z ≡ true) same (matches_self parent))
    | inr ne ↦ elim (Option-cases (strip_suffix parent colon_star)) [
      | inl f ↦ ground arith
      | inr (p, f) ↦ ground (arith, under_prefix-eq-matches parent p child ns f)
    ]
  ]
]
