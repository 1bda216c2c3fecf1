-- ===== src/Scope/Check.antt =====
-- About `ExecutionScope::check_tool`, and the substrate's check of the same patterns.
use konf.Shared.{
  ◌≡◌, ◌↔◌, refl, sym, inl, inr, Option-cases, In-middle, true, some, List, [], ◌∷◌, ◌++◌, map,
  arith, ap, subst, Bool-cases, Text, Table, Json, In, here, there, ok, is_ok, is_some,
}
use konf.Capability.{matches, new, any_matches, check_tool_access, from_patterns}
use konf.Capability.Covers.{Covers, matches-iff-Covers}
use konf.Capability.Access.{is_ok-check_access}
use konf.Scope.{
  CapabilityGrant, ExecutionScope, grant_matches, first_match, check_tool, capability_patterns,
}

-- What a successful search returns: the bindings of the first grant that covers the tool.
pub record FirstGrant (grants : List CapabilityGrant) (t : Text) (b : Table Json) : Type 0 where
  pub before : List CapabilityGrant
  pub chosen : CapabilityGrant
  pub after : List CapabilityGrant
  pub split : grants ≡ before ++ chosen ∷ after
  pub passed_over : (g : CapabilityGrant) → In g before → Covers g.pattern t → ⊥
  pub covers : Covers chosen.pattern t
  pub bindings : b ≡ chosen.bindings

FirstGrant-cons :
    {gs : List CapabilityGrant} {t : Text} {b : Table Json} (g : CapabilityGrant)
    → (Covers g.pattern t → ⊥)
    → FirstGrant gs t b
    → FirstGrant (g ∷ gs) t b
FirstGrant-cons {gs} {t} {b} g miss f = record {
  before = g ∷ f.before;
  chosen = f.chosen;
  after = f.after;
  split = ap (λ (l : List CapabilityGrant). g ∷ l) f.split;
  passed_over = pass;
  covers = f.covers;
  bindings = f.bindings;
}
  where
    pass : (h : CapabilityGrant) → In h (g ∷ f.before) → Covers h.pattern t → ⊥
    pass h (here e) c = miss (subst (λ z. Covers z.pattern t) e c)
    pass h (there i) c = f.passed_over h i c

first_match-FirstGrant :
    (gs : List CapabilityGrant) (t : Text) (b : Table Json)
    → first_match gs t ≡ some b
    → FirstGrant gs t b
unfolding first_match grant_matches
first_match-FirstGrant [] t b h = cc
first_match-FirstGrant (g ∷ gs) t b h = elim (Bool-cases (matches (new g.pattern) t)) [
  | inl e ↦ record {
    before = [];
    chosen = g;
    after = gs;
    split = refl;
    passed_over = λ x i. elim i [ ];
    covers = (matches-iff-Covers g.pattern t).0 e;
    bindings = ground arith;
  }
  | inr e ↦
      FirstGrant-cons g (λ c. cc (e, (matches-iff-Covers g.pattern t).1 c))
        (first_match-FirstGrant gs t b (ground arith))
]

-- An accepted tool gets the bindings of the first grant that covers its name.
pub check_tool-FirstGrant :
    (s : ExecutionScope) (t : Text) (b : Table Json)
    → check_tool s t ≡ ok b
    → FirstGrant s.capabilities t b
unfolding check_tool
check_tool-FirstGrant s t b h = first_match-FirstGrant s.capabilities t b (ground arith)

is_some-first_match :
    (gs : List CapabilityGrant) (t : Text)
    → is_some (first_match gs t)
      ≡ any_matches (from_patterns (map (λ (g : CapabilityGrant). g.pattern) gs)).capabilities t
unfolding first_match grant_matches from_patterns
is_some-first_match [] t = refl
is_some-first_match (g ∷ gs) t = ground (arith, is_some-first_match gs t)

-- The runtime's check of a scope accepts the tools that the substrate's check of the scope's
-- patterns accepts, and no others.
pub is_ok-check_tool :
    (s : ExecutionScope) (t : Text)
    → is_ok (check_tool s t) ≡ is_ok (check_tool_access t (capability_patterns s))
unfolding check_tool check_tool_access capability_patterns
is_ok-check_tool s t = ground (
  arith,
  is_some-first_match s.capabilities t,
  is_ok-check_access (from_patterns (map (λ (g : CapabilityGrant). g.pattern) s.capabilities)) t,
)

-- Some grant of the list covers the name.
abbrev pub GrantsTool : List CapabilityGrant → Text → Type 0
GrantsTool gs t = (g : CapabilityGrant) × In g gs × Covers g.pattern t

check_tool→GrantsTool :
    (s : ExecutionScope) (t : Text) → is_ok (check_tool s t) ≡ true → GrantsTool s.capabilities t
unfolding check_tool
check_tool→GrantsTool s t h = elim (Option-cases (first_match s.capabilities t)) [
  | inl e ↦ absurd (ground arith)
  | inr (b, e) ↦
      let f = first_match-FirstGrant s.capabilities t b e in
      (f.chosen, subst (In f.chosen) (sym f.split) (In-middle f.before f.chosen f.after), f.covers)
]

GrantsTool→first_match :
    (gs : List CapabilityGrant) (t : Text) (g : CapabilityGrant)
    → In g gs
    → Covers g.pattern t
    → is_some (first_match gs t) ≡ true
unfolding first_match grant_matches
GrantsTool→first_match [] t g i c = elim i [ ]
GrantsTool→first_match (x ∷ gs) t g (here e) c =
    let hit = (matches-iff-Covers x.pattern t).1 (subst (λ z. Covers z.pattern t) e c) in
    ground arith
GrantsTool→first_match (x ∷ gs) t g (there i) c = ground (arith, GrantsTool→first_match gs t g i c)

-- A tool passes the scope's check exactly if some grant covers its name.
pub check_tool-iff-GrantsTool :
    (s : ExecutionScope) (t : Text) → (is_ok (check_tool s t) ≡ true) ↔ GrantsTool s.capabilities t
unfolding check_tool
check_tool-iff-GrantsTool s t = (
  check_tool→GrantsTool s t,
  λ (g, i, c). ground (arith, GrantsTool→first_match s.capabilities t g i c),
)
