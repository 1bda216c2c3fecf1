-- ===== src/Validator/Total.antt =====
-- About the fuel of `Validator::dfs`.
use konf.Shared.{
  ℕ, zero, suc, ◌+◌, ◌≤◌, ◌<◌, ◌≡◌, refl, sym, subst, inl, inr, ◌⊎◌, false, List, [], ◌∷◌, arith,
  if◌then◌else◌, Bool-cases, Option-cases, Text, text_eq, text_eq_iff, In, here, there, any, length,
  member, some, Table, lookup,
}
use konf.Schema.{NodeSchema}
use konf.Validator.{
  keys, successors, Search, start, Outcome, done, failed, out_of_fuel, then_search, visit_all,
  enter, dfs, dfs_fuel, ValidationError,
}

-- How many of the names have not been visited.
fresh : List Text → List Text → ℕ
fresh visited [] = 0
fresh visited (n ∷ names) =
    let rest = fresh visited names in if member n visited then rest else rest + 1

fresh-cons_le :
    (c : Text) (visited names : List Text) → fresh (c ∷ visited) names ≤ fresh visited names
unfolding fresh member
fresh-cons_le c visited [] = omega arith
fresh-cons_le c visited (n ∷ names) = ground (arith, fresh-cons_le c visited names)

fresh-cons_lt :
    (c : Text) (visited names : List Text)
    → In c names
    → member c visited ≡ false
    → fresh (c ∷ visited) names < fresh visited names
unfolding fresh member
fresh-cons_lt c visited [] i m = elim i [ ]
fresh-cons_lt c visited (n ∷ names) (here e) m =
    let m' : any (text_eq n) visited ≡ false = subst (λ z. member z visited ≡ false) e m in
    ground (arith, fresh-cons_le c visited names, (text_eq_iff n c).1 (cc e))
fresh-cons_lt c visited (n ∷ names) (there i) m = ground (arith, fresh-cons_lt c visited names i m)

fresh-length : (visited names : List Text) → fresh visited names ≤ length names
unfolding fresh
fresh-length visited [] = omega arith
fresh-length visited (n ∷ names) = ground (arith, fresh-length visited names)

length-keys : (nodes : Table NodeSchema) → length (keys nodes) ≡ length nodes
length-keys [] = refl
length-keys (e ∷ nodes) = omega (arith, length-keys nodes)

-- The outcome is not for want of fuel, and the search has not lost what it had visited.
abbrev Ends : Table NodeSchema → ℕ → Outcome → Type 0
Ends nodes n (done s) = fresh s.visited (keys nodes) ≤ n
Ends nodes n (failed e) = Unit {0}
Ends nodes n out_of_fuel = ⊥

abbrev left : Table NodeSchema → Search → ℕ
left nodes s = fresh s.visited (keys nodes)

Ends-le :
    (nodes : Table NodeSchema) (m n : ℕ) (o : Outcome) → m ≤ n → Ends nodes m o → Ends nodes n o
Ends-le nodes m n (done s) h e = omega arith
Ends-le nodes m n (failed x) h e = tt
Ends-le nodes m n out_of_fuel h e = e

then_search-Ends :
    (nodes : Table NodeSchema) (n : ℕ) (o : Outcome) (next : Search → Outcome)
    → Ends nodes n o
    → ((s : Search) → left nodes s ≤ n → Ends nodes n (next s))
    → Ends nodes n (then_search o next)
then_search-Ends nodes n (done s) next e f = f s e
then_search-Ends nodes n (failed x) next e f = tt
then_search-Ends nodes n out_of_fuel next e f = e

visit_all-Ends :
    (nodes : Table NodeSchema) (n : ℕ) (visit : Text → Search → Outcome)
    → ((t : Text) (s : Search) → left nodes s ≤ n → Ends nodes (left nodes s) (visit t s))
    → (ts : List Text) (s : Search) → left nodes s ≤ n
    → Ends nodes n (visit_all visit ts s)
unfolding visit_all
visit_all-Ends nodes n visit each [] s h = h
visit_all-Ends nodes n visit each (t ∷ ts) s h =
    then_search-Ends nodes n (visit t s) (visit_all visit ts)
      (Ends-le nodes (left nodes s) n (visit t s) h (each t s h))
      (λ m k. visit_all-Ends nodes n visit each ts m k)

lookup-In :
    (nodes : Table NodeSchema) (t : Text) (node : NodeSchema)
    → lookup t nodes ≡ some node
    → In t (keys nodes)
unfolding lookup
lookup-In [] t node h = absurd (cc h)
lookup-In ((k, v) ∷ nodes) t node h = elim (Bool-cases (text_eq k t)) [
  | inl e ↦ here (let q = (text_eq_iff k t).0 e in cc q)
  | inr e ↦ there (lookup-In nodes t node (rw e at h))
]

unknown-Ends :
    (nodes : Table NodeSchema) (current : Text) (s : Search) (visit : Text → Search → Outcome)
    → successors nodes current ≡ []
    → Ends nodes (left nodes s) (visit_all visit (successors nodes current) (enter current s))
unfolding visit_all
unknown-Ends nodes current s visit e =
    subst (λ ts. Ends nodes (left nodes s) (visit_all visit ts (enter current s))) (sym e)
      (fresh-cons_le current s.visited (keys nodes))

-- The loop over the successors, from the step that was entered, where the calls end.
successors-Ends :
    (fuel : ℕ) (nodes : Table NodeSchema) (current : Text) (s : Search)
    (visit : Text → Search → Outcome)
    → ((t : Text) (m : Search) → left nodes m < fuel → Ends nodes (left nodes m) (visit t m))
    → member current s.visited ≡ false
    → left nodes s < suc fuel
    → Ends nodes (left nodes s) (visit_all visit (successors nodes current) (enter current s))
unfolding successors
successors-Ends fuel nodes current s visit each new h = elim (Option-cases (lookup current nodes)) [
  | inl e ↦ unknown-Ends nodes current s visit (ground (arith, e))
  | inr (n, e) ↦
      let lt = fresh-cons_lt current s.visited (keys nodes) (lookup-In nodes current n e) new in
      Ends-le nodes (left nodes (enter current s)) (left nodes s)
        (visit_all visit (successors nodes current) (enter current s))
        (fresh-cons_le current s.visited (keys nodes))
        (visit_all-Ends nodes (left nodes (enter current s)) visit (λ t m k. each t m (omega arith))
          (successors nodes current) (enter current s) (omega arith))
]

dfs-Ends :
    (fuel : ℕ) (nodes : Table NodeSchema) (path : List Text) (current : Text) (s : Search)
    → left nodes s < fuel
    → Ends nodes (left nodes s) (dfs fuel nodes path current s)
unfolding dfs
dfs-Ends zero nodes path current s h = absurd (omega arith)
dfs-Ends (suc fuel) nodes path current s h = elim (Bool-cases (member current path)) [
  | inl on ↦ rw on tt
  | inr off ↦ elim (Bool-cases (member current s.visited)) [
    | inl seen ↦ rw (off, seen) (omega arith)
    | inr new ↦
        rw (off, new)
          (successors-Ends fuel nodes current s (dfs fuel nodes (current ∷ path))
            (dfs-Ends fuel nodes (current ∷ path)) new h)
  ]
]

-- The fuel that the check gives the search is enough: it ends with the sets or with an error.
pub dfs_fuel-enough :
    (nodes : Table NodeSchema) (entry : Text)
    → ((s : Search) × (dfs (dfs_fuel nodes) nodes [] entry start ≡ done s))
      ⊎ ((e : ValidationError) × (dfs (dfs_fuel nodes) nodes [] entry start ≡ failed e))
dfs_fuel-enough nodes entry = cases (dfs (dfs_fuel nodes) nodes [] entry start) refl (
    dfs-Ends (dfs_fuel nodes) nodes [] entry start
      (omega (arith, fresh-length [] (keys nodes), length-keys nodes)))
  where
    cases :
        (o : Outcome)
        → dfs (dfs_fuel nodes) nodes [] entry start ≡ o
        → Ends nodes (left nodes start) o
        → ((s : Search) × (dfs (dfs_fuel nodes) nodes [] entry start ≡ done s))
          ⊎ ((e : ValidationError) × (dfs (dfs_fuel nodes) nodes [] entry start ≡ failed e))
    cases (done s) h e = inl (s, h)
    cases (failed x) h e = inr (x, h)
    cases out_of_fuel h e = absurd e
