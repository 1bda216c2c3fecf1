-- ===== src/Capability/Access.antt =====
-- `CapSet::check_access` against the meaning of the patterns.
use konf.Shared.{
  ◌≡◌, refl, ◌↔◌, inl, inr, true, List, [], ◌∷◌, arith, Text, text, Bool-cases, any→In, In→any, In,
  ok, err, is_ok,
}
use konf.Capability.{Capability, CapSet, ToolError, capability_denied, any_matches, check_access}
use konf.Capability.Covers.{Covers, matches-iff-Covers}

-- Some capability of the list covers the name.
abbrev pub Grants : List Capability → Text → Type 0
Grants caps t = (c : Capability) × In c caps × Covers c.pattern t

pub any_matches-iff-Grants :
    (caps : List Capability) (t : Text) → (any_matches caps t ≡ true) ↔ Grants caps t
any_matches-iff-Grants caps t =
    (forth, λ (c, i, h). In→any _ caps i ((matches-iff-Covers c.pattern t).1 h))
  where
    forth : any_matches caps t ≡ true → Grants caps t
    forth h = let (c, i, q) = any→In _ caps h in (c, i, (matches-iff-Covers c.pattern t).0 q)

check_access-ok :
    (s : CapSet) (t : Text) → check_access s t ≡ ok tt → any_matches s.capabilities t ≡ true
unfolding check_access
check_access-ok s t h = go s.capabilities h
  where
    go :
        (caps : List Capability)
        → check_access (record { capabilities = caps }) t ≡ ok tt
        → any_matches caps t ≡ true
    go [] h = cc
    go (c ∷ cs) h = ground arith

any_matches-ok :
    (s : CapSet) (t : Text) → any_matches s.capabilities t ≡ true → check_access s t ≡ ok tt
unfolding check_access
any_matches-ok s t h = go s.capabilities h
  where
    go :
        (caps : List Capability)
        → any_matches caps t ≡ true
        → check_access (record { capabilities = caps }) t ≡ ok tt
    go [] h = cc
    go (c ∷ cs) h = rw h

-- Access is allowed exactly if some capability of the set covers the tool's name.
pub check_access-iff-Grants :
    (s : CapSet) (t : Text) → (check_access s t ≡ ok tt) ↔ Grants s.capabilities t
check_access-iff-Grants s t = (
  λ h. (any_matches-iff-Grants s.capabilities t).0 (check_access-ok s t h),
  λ g. any_matches-ok s t ((any_matches-iff-Grants s.capabilities t).1 g),
)

abbrev pub denial : List Capability → Text → ToolError
denial [] t = capability_denied (text "ALL (empty capability set)")
denial (c ∷ cs) t = capability_denied t

-- Where no capability covers the name, the error names the tool, or says that the set is empty.
pub check_access-denied :
    (s : CapSet) (t : Text)
    → (Grants s.capabilities t → ⊥)
    → check_access s t ≡ err (denial s.capabilities t)
unfolding check_access
check_access-denied s t no_grant = go s.capabilities no_grant
  where
    go :
        (caps : List Capability)
        → (Grants caps t → ⊥)
        → check_access (record { capabilities = caps }) t ≡ err (denial caps t)
    go [] n = refl
    go (c ∷ cs) n = elim (Bool-cases (any_matches (c ∷ cs) t)) [
      | inl e ↦ absurd (n ((any_matches-iff-Grants (c ∷ cs) t).0 e))
      | inr e ↦ rw e
    ]

pub is_ok-check_access :
    (s : CapSet) (t : Text) → is_ok (check_access s t) ≡ any_matches s.capabilities t
unfolding check_access
is_ok-check_access s t = go s.capabilities
  where
    go :
        (caps : List Capability)
        → is_ok (check_access (record { capabilities = caps }) t) ≡ any_matches caps t
    go [] = refl
    go (c ∷ cs) = ground arith
