-- ===== src/Validator/Acyclicity.antt =====
-- About `Validator::dfs` when it succeeds: the paths from its start.
use konf.Shared.{
  ℕ, zero, suc, ◌≡◌, refl, sym, subst, inl, inr, ◌⊎◌, List, [], ◌∷◌, arith, Bool-cases, Text, In,
  here, there, member, member_iff, Table,
}
use konf.Schema.{NodeSchema}
use konf.Validator.{
  successors, Search, Outcome, done, failed, out_of_fuel, then_search, visit_all, reach, enter, dfs,
}

-- Every path of targets from the step ends.
pub data Acyclic (nodes : Table NodeSchema) : Text → Type 0 where
  finish : {x : Text} → ((y : Text) → In y (successors nodes x) → Acyclic nodes y) → Acyclic nodes x

-- There is a path of targets from the one step to the other.
pub data Reaches (nodes : Table NodeSchema) (x : Text) : Text → Type 0 where
  stay : {y : Text} → x ≡ y → Reaches nodes x y
  onward : {y z : Text} → Reaches nodes x y → In z (successors nodes y) → Reaches nodes x z

-- There is a path of one target or more from the step to itself.
abbrev pub Cyclic : Table NodeSchema → Text → Type 0
Cyclic nodes x = (y : Text) × In y (successors nodes x) × Reaches nodes y x

-- The two searches that a loop over targets is made of, if it succeeds.
pub then_search-done :
    (o : Outcome) (next : Search → Outcome) {s' : Search}
    → then_search o next ≡ done s'
    → (s : Search) × (o ≡ done s) × (next s ≡ done s')
then_search-done (done s) next h = (s, refl, h)
then_search-done (failed e) next h = cc
then_search-done out_of_fuel next h = cc

-- What every call keeps, the loop keeps, and what each call shows of its target holds of all.
pub visit_all-done :
    {P : Search → Type 0} {Q : Text → Type 0} (visit : Text → Search → Outcome) (ts : List Text)
    → ((t : Text) (s s' : Search) → In t ts → visit t s ≡ done s' → P s → Q t × P s')
    → (s s' : Search) → visit_all visit ts s ≡ done s'
    → P s
    → ((t : Text) → In t ts → Q t) × P s'
unfolding visit_all
visit_all-done {P} visit [] each s s' h p = (λ t i. elim i [ ], subst P (done_injective h) p)
  where
    done_injective : {a b : Search} → done a ≡ done b → a ≡ b
    done_injective e = cc e
visit_all-done {P} {Q} visit (t ∷ ts) each s s' h p =
    let (m, e, f) = then_search-done (visit t s) (visit_all visit ts) h in
    let (q, k) = each t s m (here refl) e p in
    let (qs, l) =
      visit_all-done {P = P} {Q = Q} visit ts (λ u a b i. each u a b (there i)) m s' f k in
    (all_of q qs, l)
  where
    all_of : Q t → ((u : Text) → In u ts → Q u) → (u : Text) → In u (t ∷ ts) → Q u
    all_of q qs u (here e) = subst Q (sym e) q
    all_of q qs u (there i) = qs u i

-- How a call that succeeds got there: the step was visited before, or the loop over its successors
-- succeeded. In neither case is the step on the path.
pub data Visit (fuel : ℕ) (nodes : Table NodeSchema) (path : List Text) (current : Text)
    (s s' : Search) : Type 0 where
  again :
      (In current path → ⊥)
      → In current s.visited
      → s' ≡ reach current s
      → Visit fuel nodes path current s s'
  deeper :
      (In current path → ⊥)
      → visit_all (dfs fuel nodes (current ∷ path)) (successors nodes current) (enter current s)
        ≡ done s'
      → Visit fuel nodes path current s s'

pub dfs-Visit :
    (fuel : ℕ) (nodes : Table NodeSchema) (path : List Text) (current : Text) (s s' : Search)
    → dfs (suc fuel) nodes path current s ≡ done s'
    → Visit fuel nodes path current s s'
unfolding dfs
dfs-Visit fuel nodes path current s s' h = elim (Bool-cases (member current path)) [
  | inl e ↦ absurd (cc (rw e at h))
  | inr e ↦ elim (Bool-cases (member current s.visited)) [
    | inl f ↦
        again (λ i. cc (e, (member_iff current path).1 i)) ((member_iff current s.visited).0 f)
          (ground arith)
    | inr f ↦ deeper (λ i. cc (e, (member_iff current path).1 i)) (ground arith)
  ]
]

-- Every visited step that is not on the path has been finished.
abbrev Finished : Table NodeSchema → List Text → Search → Type 0
Finished nodes path s = (x : Text) → In x s.visited → In x path ⊎ Acyclic nodes x

Finished-enter :
    (nodes : Table NodeSchema) (path : List Text) (current : Text) (s : Search)
    → Finished nodes path s
    → Finished nodes (current ∷ path) (enter current s)
Finished-enter nodes path current s f x (here e) = inl (here e)
Finished-enter nodes path current s f x (there i) = elim (f x i) [
  | inl j ↦ inl (there j)
  | inr a ↦ inr a
]

Finished-leave :
    (nodes : Table NodeSchema) (path : List Text) (current : Text) (s : Search)
    → Acyclic nodes current
    → Finished nodes (current ∷ path) s
    → Finished nodes path s
Finished-leave nodes path current s a f x i = elim (f x i) [
  | inl (here e) ↦ inr (subst (Acyclic nodes) (sym e) a)
  | inl (there j) ↦ inl j
  | inr b ↦ inr b
]

dfs-Finished :
    (fuel : ℕ) (nodes : Table NodeSchema) (path : List Text) (current : Text) (s s' : Search)
    → dfs fuel nodes path current s ≡ done s'
    → Finished nodes path s
    → Acyclic nodes current × Finished nodes path s'
unfolding dfs
dfs-Finished zero nodes path current s s' h f = absurd (cc h)
dfs-Finished (suc fuel) nodes path current s s' h f =
    elim (dfs-Visit fuel nodes path current s s' h) [
      | again off seen e ↦ (finished_before off seen, subst (Finished nodes path) (sym e) f)
      | deeper off loop ↦
          let (all, g) =
            visit_all-done {P = Finished nodes (current ∷ path)} {Q = Acyclic nodes}
              (dfs fuel nodes (current ∷ path)) (successors nodes current)
              (λ t a b i. dfs-Finished fuel nodes (current ∷ path) t a b) (enter current s) s' loop
              (Finished-enter nodes path current s f) in
          (finish all, Finished-leave nodes path current s' (finish all) g)
    ]
  where
    finished_before : (In current path → ⊥) → In current s.visited → Acyclic nodes current
    finished_before off seen = elim (f current seen) [ inl i ↦ absurd (off i) | inr a ↦ a ]

-- A search from the empty path that succeeds has shown that every path from its start ends.
pub dfs-Acyclic :
    (fuel : ℕ) (nodes : Table NodeSchema) (entry : Text) (s' : Search)
    → dfs fuel nodes [] entry (record { visited = []; reachable = [] }) ≡ done s'
    → Acyclic nodes entry
dfs-Acyclic fuel nodes entry s' h =
    (dfs-Finished fuel nodes [] entry (record { visited = []; reachable = [] }) s' h
      (λ x i. elim i [ ])).0

-- A step that `x` reaches has only paths that end, if `x` has.
Acyclic-step :
    {nodes : Table NodeSchema} {x y : Text} → Acyclic nodes x → Reaches nodes x y → Acyclic nodes y
Acyclic-step {nodes} a (stay e) = subst (Acyclic nodes) e a
Acyclic-step a (onward {z = w} r i) = elim (Acyclic-step a r) [ finish f ↦ f w i ]

first_step :
    {nodes : Table NodeSchema} {y x w : Text}
    → Reaches nodes y x
    → In w (successors nodes x)
    → (z : Text) × In z (successors nodes y) × Reaches nodes z w
first_step {nodes} {w = v} (stay e) i =
    (v, subst (λ u. In v (successors nodes u)) (sym e) i, stay refl)
first_step (onward r j) i = let (z, k, q) = first_step r j in (z, k, onward q i)

Acyclic-ne_Cyclic : {nodes : Table NodeSchema} {x : Text} → Acyclic nodes x → Cyclic nodes x → ⊥
Acyclic-ne_Cyclic (finish f) (y, i, r) = Acyclic-ne_Cyclic (f y i) (first_step r i)

-- Where every path from `x` ends, no step that `x` reaches lies on a cycle.
pub Acyclic→no_Cyclic :
    {nodes : Table NodeSchema} {x y : Text}
    → Acyclic nodes x
    → Reaches nodes x y
    → Cyclic nodes y
    → ⊥
Acyclic→no_Cyclic a r c = Acyclic-ne_Cyclic (Acyclic-step a r) c
