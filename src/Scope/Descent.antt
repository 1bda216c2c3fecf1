-- ===== src/Scope/Descent.antt =====
-- About `ExecutionScope::child_scope`, and chains of child scopes.
use konf.Shared.{
  ℕ, suc, ◌+◌, ◌≡◌, ◌↔◌, Bool, ◌<◌, refl, sym, ap, ◌∙◌, subst, true, List, [], ◌∷◌, arith, Option,
  Text, In, here, there, ok, >>=-eq-ok, any→In, In→any, is_ok,
}
use konf.Capability.Covers.{matches-iff-Covers, Covers-trans}
use konf.Process.{ProcessTable}
use konf.Scope.{
  CapabilityGrant, ExecutionScope, ResourceLimits, covered_by, check_child, child_of, child_scope,
  check_tool, validate_start,
}
use konf.Scope.Child.{covered_by-eq-matches}
use konf.Scope.Check.{GrantsTool, check_tool-iff-GrantsTool}
use konf.Scope.Limits.{validate_start_iff}

abbrev covers_test : Text → CapabilityGrant → Bool
covers_test pattern p = covered_by pattern p.pattern

check_child-covered :
    (parent : List CapabilityGrant) (namespace : Text) (gs : List CapabilityGrant)
    → check_child parent namespace gs ≡ ok tt
    → (g : CapabilityGrant) → In g gs
    → GrantsTool parent g.pattern
unfolding check_child
check_child-covered parent ns [] h g i = elim i [ ]
check_child-covered parent ns (x ∷ gs) h g (here e) =
    let (p, j, c) = any→In (covers_test x.pattern) parent (ground arith) in
    subst (λ z. GrantsTool parent z.pattern) (sym e)
      (
        p,
        j,
        (matches-iff-Covers p.pattern x.pattern).0
            (subst (λ b. b ≡ true) (covered_by-eq-matches x.pattern p.pattern) c),
      )
check_child-covered parent ns (x ∷ gs) h g (there i) =
    check_child-covered parent ns gs (ground arith) g i

covered-check_child :
    (parent : List CapabilityGrant) (namespace : Text) (gs : List CapabilityGrant)
    → ((g : CapabilityGrant) → In g gs → GrantsTool parent g.pattern)
    → check_child parent namespace gs ≡ ok tt
unfolding check_child
covered-check_child parent ns [] all = refl
covered-check_child parent ns (x ∷ gs) all =
    let (p, i, c) = all x (here refl) in
    let hit = In→any (covers_test x.pattern) parent i (
      subst (λ b. b ≡ true) (sym (covered_by-eq-matches x.pattern p.pattern))
        ((matches-iff-Covers p.pattern x.pattern).1 c)) in
    rw hit (covered-check_child parent ns gs (λ g j. all g (there j)))

-- A child scope is accepted exactly if each of its grants is covered by a grant of the parent; it
-- then has the parent's limits and actor, the next depth, and the namespace that was asked for.
pub child_scope_iff :
    (s : ExecutionScope) (gs : List CapabilityGrant) (ns : Option Text) (c : ExecutionScope)
    → (child_scope s gs ns ≡ ok c) ↔ (
        ((g : CapabilityGrant) → In g gs → GrantsTool s.capabilities g.pattern)
        × (c ≡ child_of s gs ns))
unfolding child_scope
child_scope_iff s gs ns c = (forth, back)
  where
    forth :
        child_scope s gs ns ≡ ok c
        → ((g : CapabilityGrant) → In g gs → GrantsTool s.capabilities g.pattern)
          × (c ≡ child_of s gs ns)
    forth h =
        let (u, e, f) =
          >>=-eq-ok (check_child s.capabilities s.namespace gs) (λ _. ok (child_of s gs ns)) h in
        (check_child-covered s.capabilities s.namespace gs e, cc f)

    back :
        ((g : CapabilityGrant) → In g gs → GrantsTool s.capabilities g.pattern)
          × (c ≡ child_of s gs ns)
        → child_scope s gs ns ≡ ok c
    back (all, e) = rw (covered-check_child s.capabilities s.namespace gs all, e)

-- A chain of `n` child scopes, each of which passed `validate_start` against the process table of
-- its time.
pub data Descends (s : ExecutionScope) : ℕ → ExecutionScope → Type 0 where
  root : {t : ExecutionScope} → s ≡ t → Descends s 0 t
  child :
      {n : ℕ} {t u : ExecutionScope} (gs : List CapabilityGrant) (ns : Option Text)
      (table : ProcessTable)
      → Descends s n t
      → child_scope t gs ns ≡ ok u
      → validate_start u table ≡ ok tt
      → Descends s (suc n) u

Descends-GrantsTool :
    {s u : ExecutionScope} {n : ℕ} (t : Text)
    → Descends s n u
    → GrantsTool u.capabilities t
    → GrantsTool s.capabilities t
Descends-GrantsTool t (root e) g = subst (λ z. GrantsTool z.capabilities t) (sym e) g
Descends-GrantsTool {u = v} t (child {t = m} gs ns table d h start) g =
    let (all, e) = (child_scope_iff m gs ns v).0 h in
    let (x, i, c) = subst (λ (z : ExecutionScope). GrantsTool z.capabilities t) e g in
    let (p, j, f) = all x i in Descends-GrantsTool t d (p, j, Covers-trans f c)

-- Along any chain of child scopes, a tool that the last scope may call is one that the first scope
-- may call.
pub check_tool-Descends :
    {s u : ExecutionScope} {n : ℕ} (t : Text)
    → Descends s n u
    → is_ok (check_tool u t) ≡ true
    → is_ok (check_tool s t) ≡ true
check_tool-Descends {s} {u} t d h =
    (check_tool-iff-GrantsTool s t).1
      (Descends-GrantsTool t d ((check_tool-iff-GrantsTool u t).0 h))

Descends-child_of :
    {s u : ExecutionScope} {n : ℕ}
    → Descends s n u
    → (u.depth ≡ s.depth + n) × (u.limits ≡ s.limits) × (u.actor ≡ s.actor)
Descends-child_of (root e) = (omega (arith, ap (λ (z : ExecutionScope). z.depth) e), cc e, cc e)
Descends-child_of {u = v} (child {t = m} gs ns table d h start) =
    let (dd, dl, da) = Descends-child_of d in
    let (all, e) = (child_scope_iff m gs ns v).0 h in
    (
      omega (arith, dd, ap (λ (z : ExecutionScope). z.depth) e),
      ap (λ (z : ExecutionScope). z.limits) e ∙ dl,
      ap (λ (z : ExecutionScope). z.actor) e ∙ da,
    )

-- A chain of child scopes that all were started keeps the first scope's actor and limits, and is
-- never longer than the depth limit leaves room for.
pub Descends-max_child_depth :
    {s u : ExecutionScope} {n : ℕ}
    → s.depth < s.limits.max_child_depth
    → Descends s n u
    → (s.depth + n < s.limits.max_child_depth) × (u.limits ≡ s.limits) × (u.actor ≡ s.actor)
Descends-max_child_depth h (root e) = (omega arith, cc e, cc e)
Descends-max_child_depth {s} {u = v} h (child {n = k} gs ns table d g start) =
    let (dd, dl, da) = Descends-child_of (child gs ns table d g start) in
    let room = ((validate_start_iff v table).0 start).1 in
    (omega (arith, room, dd, ap (λ (z : ResourceLimits). z.max_child_depth) dl), dl, da)
