-- ===== src/Executor/Edges/Order.antt =====
-- The order in which `evaluate_edges_targets` visits the edges.
use konf.Shared.{
  ◌≡◌, refl, ap, ◌∙◌, subst, ◌⊎◌, inl, inr, ◌&&◌, not, Bool, true, false, List, [], ◌∷◌,
  if◌then◌else◌, ltb_ℤ, ℤ, arith, Bool-cases, In, here, there,
}
use konf.Workflow.{Edge}
use konf.Executor.Edges.{insert_edge, sort_edges}

-- No edge of a sorted list has a lower priority than one in front of it.
abbrev Sorted : List Edge → Type 0
Sorted [] = Unit {0}
Sorted (e ∷ es) = ((f : Edge) → In f es → ltb_ℤ f.priority e.priority ≡ false) × Sorted es

In-insert_edge :
    (e : Edge) (es : List Edge) (f : Edge) → In f (insert_edge e es) → (f ≡ e) ⊎ In f es
unfolding insert_edge
In-insert_edge e [] f (here q) = inl q
In-insert_edge e [] f (there i) = inr i
In-insert_edge e (x ∷ es) f i = elim (Bool-cases (ltb_ℤ x.priority e.priority)) [
  | inr h ↦ elim (rw h at i) [ here q ↦ inl q | there j ↦ inr j ]
  | inl h ↦ elim (rw h at i) [
    | here q ↦ inr (here q)
    | there j ↦ elim (In-insert_edge e es f j) [ inl q ↦ inl q | inr l ↦ inr (there l) ]
  ]
]

insert_edge-Sorted : (e : Edge) (es : List Edge) → Sorted es → Sorted (insert_edge e es)
unfolding insert_edge
insert_edge-Sorted e [] s = (λ f i. elim i [ ], tt)
insert_edge-Sorted e (x ∷ es) (least, s) = elim (Bool-cases (ltb_ℤ x.priority e.priority)) [
  | inl h ↦ rw h (
    λ f i. elim (In-insert_edge e es f i) [
      | inl q ↦ ground (arith, ap (λ (z : Edge). z.priority) q)
      | inr j ↦ least f j
    ],
    insert_edge-Sorted e es s,
  )
  | inr h ↦ rw h (
    λ f i. elim i [
      | here q ↦ ground (arith, ap (λ (z : Edge). z.priority) q)
      | there j ↦ ground (arith, least f j)
    ],
    (least, s),
  )
]

sort_edges-Sorted : (es : List Edge) → Sorted (sort_edges es)
unfolding sort_edges
sort_edges-Sorted [] = tt
sort_edges-Sorted (e ∷ es) = insert_edge-Sorted e (sort_edges es) (sort_edges-Sorted es)

-- The edges with the priority, in their order.
abbrev is_at : ℤ → Edge → Bool
is_at p e = not (ltb_ℤ e.priority p) && not (ltb_ℤ p e.priority)

unfoldable pub at_priority : ℤ → List Edge → List Edge
at_priority p [] = []
at_priority p (e ∷ es) = let rest = at_priority p es in if is_at p e then e ∷ rest else rest

at_priority-insert_edge :
    (p : ℤ) (e : Edge) (es : List Edge) → at_priority p (insert_edge e es) ≡ at_priority p (e ∷ es)
unfolding at_priority insert_edge
at_priority-insert_edge p e [] = refl
at_priority-insert_edge p e (x ∷ es) = ground (arith, at_priority-insert_edge p e es)

at_priority-sort_edges : (p : ℤ) (es : List Edge) → at_priority p (sort_edges es) ≡ at_priority p es
unfolding at_priority sort_edges
at_priority-sort_edges p [] = refl
at_priority-sort_edges p (e ∷ es) =
    at_priority-insert_edge p e (sort_edges es)
    ∙ ap (λ rest. if is_at p e then e ∷ rest else rest) (at_priority-sort_edges p es)

-- The same edges by rising priority, where those of one priority keep their order.
pub record StablySorted (es ordered : List Edge) : Type 0 where
  pub sorted : Sorted ordered
  pub stable : (p : ℤ) → at_priority p ordered ≡ at_priority p es

pub sort_edges-StablySorted : (es : List Edge) → StablySorted es (sort_edges es)
sort_edges-StablySorted es = record {
  sorted = sort_edges-Sorted es;
  stable = λ p. at_priority-sort_edges p es;
}

In-at_priority : (e : Edge) (es : List Edge) → In e es → In e (at_priority e.priority es)
unfolding at_priority
In-at_priority e [] i = elim i [ ]
In-at_priority e (x ∷ es) (here q) =
    let own : is_at e.priority x ≡ true = ground (arith, ap (λ (z : Edge). z.priority) q) in
    rw own (here q)
In-at_priority e (x ∷ es) (there i) = elim (Bool-cases (is_at e.priority x)) [
  | inl h ↦ rw h (there (In-at_priority e es i))
  | inr h ↦ rw h (In-at_priority e es i)
]

at_priority-In : (p : ℤ) (e : Edge) (es : List Edge) → In e (at_priority p es) → In e es
unfolding at_priority
at_priority-In p e [] i = i
at_priority-In p e (x ∷ es) i = elim (Bool-cases (is_at p x)) [
  | inl h ↦ elim (rw h at i) [ here q ↦ here q | there j ↦ there (at_priority-In p e es j) ]
  | inr h ↦ there (at_priority-In p e es (rw h at i))
]

pub StablySorted-In :
    (es ordered : List Edge) (e : Edge) → StablySorted es ordered → In e ordered → In e es
StablySorted-In es ordered e s i =
    at_priority-In e.priority e es
      (subst (λ z. In e z) (s.stable e.priority) (In-at_priority e ordered i))
