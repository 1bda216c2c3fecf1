-- ===== src/Validator/Failure.antt =====
-- About `Validator::dfs` when it fails: the cycle in its error.
use konf.Shared.{
  ℕ, zero, suc, ◌≡◌, refl, sym, subst, inl, inr, ◌⊎◌, List, [], ◌∷◌, arith, Bool-cases, Text, In,
  here, there, member, member_iff, onto, Table,
}
use konf.Schema.{NodeSchema}
use konf.Validator.{
  successors, Search, Outcome, done, failed, out_of_fuel, ValidationError, cycle_detected,
  then_search, visit_all, enter, dfs,
}
use konf.Validator.Acyclicity.{Reaches, stay, onward, Cyclic}

In-onto : {x : Text} (xs ys : List Text) → In x ys → In x (onto xs ys)
unfolding onto
In-onto [] ys i = i
In-onto (z ∷ xs) ys i = In-onto xs (z ∷ ys) (there i)

then_search-failed :
    (o : Outcome) (next : Search → Outcome) {e : ValidationError}
    → then_search o next ≡ failed e
    → (o ≡ failed e) ⊎ ((s : Search) × (next s ≡ failed e))
then_search-failed (done s) next h = inr (s, h)
then_search-failed (failed e) next h = inl h
then_search-failed out_of_fuel next h = absurd (cc h)

visit_all-failed :
    (visit : Text → Search → Outcome) (ts : List Text) (s : Search) {e : ValidationError}
    → visit_all visit ts s ≡ failed e
    → (t : Text) × In t ts × (m : Search) × (visit t m ≡ failed e)
unfolding visit_all
visit_all-failed visit [] s h = absurd (cc h)
visit_all-failed visit (t ∷ ts) s h = elim (then_search-failed (visit t s) (visit_all visit ts) h) [
  | inl f ↦ (t, here refl, s, f)
  | inr (m, f) ↦ let (u, i, k, g) = visit_all-failed visit ts m f in (u, there i, k, g)
]

-- From each step of the path, a path of one target or more leads to the current step.
abbrev Behind : Table NodeSchema → List Text → Text → Type 0
Behind nodes path current =
    (p : Text) → In p path → (y : Text) × In y (successors nodes p) × Reaches nodes y current

Behind-enter :
    (nodes : Table NodeSchema) (path : List Text) (current t : Text)
    → In t (successors nodes current)
    → Behind nodes path current
    → Behind nodes (current ∷ path) t
Behind-enter nodes path current t i b p (here e) =
    (t, subst (λ z. In t (successors nodes z)) (sym e) i, stay refl)
Behind-enter nodes path current t i b p (there j) = let (y, k, r) = b p j in (y, k, onward r i)

-- The error names a cycle: some step of the path in it can be reached and lies on a cycle.
abbrev pub NamesCycle : Table NodeSchema → Text → ValidationError → Type 0
NamesCycle nodes entry e =
    (x : Text) × Reaches nodes entry x
    × Cyclic nodes x
    × (c : List Text) × (e ≡ cycle_detected c)
    × In x c

on_path :
    (nodes : Table NodeSchema) (entry : Text) (path : List Text) (current : Text)
    (e : ValidationError)
    → Reaches nodes entry current
    → Behind nodes path current
    → In current path
    → failed (cycle_detected (onto path (current ∷ []))) ≡ failed e
    → NamesCycle nodes entry e
on_path nodes entry path current e r b i h = (
  current,
  r,
  b current i,
  onto path (current ∷ []),
  cc h,
  In-onto path (current ∷ []) (here refl),
)

dfs-NamesCycle :
    (fuel : ℕ) (nodes : Table NodeSchema) (entry : Text) (path : List Text) (current : Text)
    (s : Search) (e : ValidationError)
    → Reaches nodes entry current
    → Behind nodes path current
    → dfs fuel nodes path current s ≡ failed e
    → NamesCycle nodes entry e
unfolding dfs
dfs-NamesCycle zero nodes entry path current s e r b h = absurd (cc h)
dfs-NamesCycle (suc fuel) nodes entry path current s e r b h =
    elim (Bool-cases (member current path)) [
      | inl on ↦
          on_path nodes entry path current e r b ((member_iff current path).0 on) (ground arith)
      | inr off ↦ elim (Bool-cases (member current s.visited)) [
        | inl seen ↦ absurd (cc (rw (off, seen) at h))
        | inr new ↦
            let (t, i, m, f) =
              visit_all-failed (dfs fuel nodes (current ∷ path)) (successors nodes current)
                (enter current s) (rw (off, new) at h) in
            dfs-NamesCycle fuel nodes entry (current ∷ path) t m e (onward r i)
              (Behind-enter nodes path current t i b) f
      ]
    ]

-- A search from the empty path that fails names a cycle that its start reaches.
pub dfs-cycle_detected :
    (fuel : ℕ) (nodes : Table NodeSchema) (entry : Text) (s : Search) (e : ValidationError)
    → dfs fuel nodes [] entry s ≡ failed e
    → NamesCycle nodes entry e
dfs-cycle_detected fuel nodes entry s e h =
    dfs-NamesCycle fuel nodes entry [] entry s e (stay refl) (λ p i. elim i [ ]) h
