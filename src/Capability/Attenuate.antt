-- ===== src/Capability/Attenuate.antt =====
-- About `CapSet::attenuate` and `validate_grant`: single attenuations and chains of them.
use konf.Shared.{
  ◌≡◌, refl, sym, subst, ◌↔◌, List, [], ◌∷◌, arith, Text, In, here, there, In-map_inv, ok,
  >>=-eq-ok,
}
use konf.Capability.{
  Capability, CapSet, new, check_access, from_patterns, attenuate, check_grants, validate_grant,
  discard,
}
use konf.Capability.Covers.{Covers, Covers-trans}
use konf.Capability.Access.{Grants, any_matches-iff-Grants, check_access-iff-Grants}

-- Every pattern of the child is covered by a capability of the parent.
abbrev pub AllGranted : List Capability → List Text → Type 0
AllGranted parent pats = (pat : Text) → In pat pats → Grants parent pat

check_grants→AllGranted :
    (parent : List Capability) (pats : List Text)
    → check_grants parent pats ≡ ok tt
    → AllGranted parent pats
unfolding check_grants
check_grants→AllGranted parent [] h p i = elim i [ ]
check_grants→AllGranted parent (q ∷ qs) h p (here e) =
    subst (Grants parent) (sym e) ((any_matches-iff-Grants parent q).0 (ground arith))
check_grants→AllGranted parent (q ∷ qs) h p (there i) =
    check_grants→AllGranted parent qs (ground arith) p i

AllGranted→check_grants :
    (parent : List Capability) (pats : List Text)
    → AllGranted parent pats
    → check_grants parent pats ≡ ok tt
unfolding check_grants
AllGranted→check_grants parent [] g = refl
AllGranted→check_grants parent (q ∷ qs) g =
    rw ((any_matches-iff-Grants parent q).1 (g q (here refl)))
      (AllGranted→check_grants parent qs (λ p i. g p (there i)))

-- An attenuation succeeds exactly if all is granted, and then returns the child's patterns.
pub attenuate-ok :
    (s : CapSet) (pats : List Text) (child : CapSet)
    → attenuate s pats ≡ ok child
    → AllGranted s.capabilities pats × (child ≡ from_patterns pats)
unfolding attenuate from_patterns
attenuate-ok s [] child h = (λ p i. elim i [ ], ground arith)
attenuate-ok s (q ∷ qs) child h = go s.capabilities h
  where
    go :
        (caps : List Capability)
        → attenuate (record { capabilities = caps }) (q ∷ qs) ≡ ok child
        → AllGranted caps (q ∷ qs) × (child ≡ from_patterns (q ∷ qs))
    go [] h = cc
    go (c ∷ cs) h =
        let (u, checked, same) =
          >>=-eq-ok (check_grants (c ∷ cs) (q ∷ qs)) (λ _. ok (from_patterns (q ∷ qs))) h in
        (check_grants→AllGranted (c ∷ cs) (q ∷ qs) checked, ground arith)

pub attenuate-AllGranted :
    (s : CapSet) (pats : List Text)
    → AllGranted s.capabilities pats
    → attenuate s pats ≡ ok (from_patterns pats)
unfolding attenuate from_patterns
attenuate-AllGranted s [] g = refl
attenuate-AllGranted s (q ∷ qs) g = go s.capabilities g
  where
    go :
        (caps : List Capability)
        → AllGranted caps (q ∷ qs)
        → attenuate (record { capabilities = caps }) (q ∷ qs) ≡ ok (from_patterns (q ∷ qs))
    go [] g = let (c, i, h) = g q (here refl) in elim i [ ]
    go (c ∷ cs) g = rw (AllGranted→check_grants (c ∷ cs) (q ∷ qs) g)

-- The grants of a set that is built from covered patterns are grants of the parent.
Grants-from_patterns :
    (caps : List Capability) (pats : List Text) (t : Text)
    → AllGranted caps pats
    → Grants (from_patterns pats).capabilities t
    → Grants caps t
unfolding from_patterns
Grants-from_patterns caps pats t g (c, i, h) =
    let (p, j, e) = In-map_inv new pats i in
    let (d, k, f) = g p j in (d, k, Covers-trans f (subst (λ z. Covers z.pattern t) e h))

pub attenuate-Grants :
    (s child : CapSet) (pats : List Text) (t : Text)
    → attenuate s pats ≡ ok child
    → Grants child.capabilities t
    → Grants s.capabilities t
attenuate-Grants s child pats t h g =
    let (all_granted, e) = attenuate-ok s pats child h in
    Grants-from_patterns s.capabilities pats t all_granted
      (subst (λ z. Grants z.capabilities t) e g)

-- A chain of attenuations, each from the set that the one before it returned.
pub data Delegates (s : CapSet) : CapSet → Type 0 where
  root : {t : CapSet} → s ≡ t → Delegates s t
  delegate :
      {t u : CapSet} (pats : List Text) → Delegates s t → attenuate t pats ≡ ok u → Delegates s u

Delegates-Grants :
    {s t : CapSet} (name : Text)
    → Delegates s t
    → Grants t.capabilities name
    → Grants s.capabilities name
Delegates-Grants name (root e) g = subst (λ z. Grants z.capabilities name) (sym e) g
Delegates-Grants name (delegate {t = m} {u = n} pats d h) g =
    Delegates-Grants name d (attenuate-Grants m n pats name h g)

-- Along any chain of attenuations, a tool that the last set may call is one that the first set may
-- call.
pub check_access-Delegates :
    {s t : CapSet} (name : Text)
    → Delegates s t
    → check_access t name ≡ ok tt
    → check_access s name ≡ ok tt
check_access-Delegates {s} {t} name d h =
    (check_access-iff-Grants s name).1
      (Delegates-Grants name d ((check_access-iff-Grants t name).0 h))

-- `validate_grant` accepts a grant exactly if each of its patterns is covered by a pattern of the
-- parent.
pub validate_grant-iff-AllGranted :
    (grant parent : List Text)
    → (validate_grant grant parent ≡ ok tt) ↔ AllGranted (from_patterns parent).capabilities grant
unfolding validate_grant
validate_grant-iff-AllGranted grant parent = (
  λ h.
      let (child, e, f) = >>=-eq-ok (attenuate (from_patterns parent) grant) discard h in
      (attenuate-ok (from_patterns parent) grant child e).0,
  λ g. rw (attenuate-AllGranted (from_patterns parent) grant g),
)

-- A grant that `validate_grant` accepts delegates from the parent.
pub validate_grant-Delegates :
    (grant parent : List Text)
    → validate_grant grant parent ≡ ok tt
    → Delegates (from_patterns parent) (from_patterns grant)
unfolding validate_grant
validate_grant-Delegates grant parent h =
    let (child, e, f) = >>=-eq-ok (attenuate (from_patterns parent) grant) discard h in
    let same = (attenuate-ok (from_patterns parent) grant child e).1 in
    delegate grant (root refl) (subst (λ c. attenuate (from_patterns parent) grant ≡ ok c) same e)
