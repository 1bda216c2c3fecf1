-- ===== src/Validator/Reached.antt =====
-- About `Validator::dfs` when it succeeds: the steps that it has reached.
use konf.Shared.{
  ℕ, zero, suc, ◌≡◌, refl, sym, subst, ◌↔◌, inl, inr, ◌⊎◌, List, [], ◌∷◌, Text, In, here, there,
  Table,
}
use konf.Schema.{NodeSchema}
use konf.Validator.{successors, Search, start, Outcome, done, visit_all, reach, enter, dfs}
use konf.Validator.Acyclicity.{
  Reaches, stay, onward, then_search-done, visit_all-done, again, deeper, dfs-Visit,
}

-- Only steps that the entry reaches are in the set.
abbrev OnlyReached : Table NodeSchema → Text → Search → Type 0
OnlyReached nodes entry s = (x : Text) → In x s.reachable → Reaches nodes entry x

OnlyReached-reach :
    (nodes : Table NodeSchema) (entry current : Text) (s : Search)
    → Reaches nodes entry current
    → OnlyReached nodes entry s
    → OnlyReached nodes entry (reach current s)
OnlyReached-reach nodes entry current s r o x (here e) = subst (Reaches nodes entry) (sym e) r
OnlyReached-reach nodes entry current s r o x (there i) = o x i

dfs-OnlyReached :
    (fuel : ℕ) (nodes : Table NodeSchema) (entry : Text) (path : List Text) (current : Text)
    (s s' : Search)
    → Reaches nodes entry current
    → dfs fuel nodes path current s ≡ done s'
    → OnlyReached nodes entry s
    → OnlyReached nodes entry s'
unfolding dfs
dfs-OnlyReached zero nodes entry path current s s' r h o = absurd (cc h)
dfs-OnlyReached (suc fuel) nodes entry path current s s' r h o =
    elim (dfs-Visit fuel nodes path current s s' h) [
      | again off seen e ↦
          subst (OnlyReached nodes entry) (sym e) (OnlyReached-reach nodes entry current s r o)
      | deeper off loop ↦
          (visit_all-done {P = OnlyReached nodes entry} {Q = λ t. Unit {0}}
            (dfs fuel nodes (current ∷ path)) (successors nodes current)
            (λ t a b i k p.
              (tt, dfs-OnlyReached fuel nodes entry (current ∷ path) t a b (onward r i) k p))
            (enter current s) s' loop (OnlyReached-reach nodes entry current s r o)).1
    ]

-- The successors of a visited step that is not on the path have been visited, and what has been
-- visited has been reached.
pub record Closed (nodes : Table NodeSchema) (path : List Text) (s : Search) : Type 0 where
  pub followed :
      (x : Text)
      → In x s.visited
      → In x path ⊎ ((y : Text) → In y (successors nodes x) → In y s.visited)
  pub reached : (x : Text) → In x s.visited → In x s.reachable

-- What a call adds: its step has been visited, and nothing was lost.
abbrev Grows : Table NodeSchema → List Text → Search → Search → Type 0
Grows nodes path s s' = Closed nodes path s' × ((x : Text) → In x s.visited → In x s'.visited)

Closed-enter :
    (nodes : Table NodeSchema) (path : List Text) (current : Text) (s : Search)
    → Closed nodes path s
    → Closed nodes (current ∷ path) (enter current s)
Closed-enter nodes path current s c = record { followed = followed_; reached = reached_ }
  where
    kept :
        {x : Text}
        → In x path ⊎ ((y : Text) → In y (successors nodes x) → In y s.visited)
        → In x (current ∷ path)
          ⊎ ((y : Text) → In y (successors nodes x) → In y (current ∷ s.visited))
    kept (inl i) = inl (there i)
    kept (inr f) = inr (λ y j. there (f y j))

    followed_ :
        (x : Text)
        → In x (current ∷ s.visited)
        → In x (current ∷ path)
          ⊎ ((y : Text) → In y (successors nodes x) → In y (current ∷ s.visited))
    followed_ x (here e) = inl (here e)
    followed_ x (there i) = kept (c.followed x i)

    reached_ : (x : Text) → In x (current ∷ s.visited) → In x (current ∷ s.reachable)
    reached_ x (here e) = here e
    reached_ x (there i) = there (c.reached x i)

Closed-leave :
    (nodes : Table NodeSchema) (path : List Text) (current : Text) (s : Search)
    → ((y : Text) → In y (successors nodes current) → In y s.visited)
    → Closed nodes (current ∷ path) s
    → Closed nodes path s
Closed-leave nodes path current s all c = record { followed = followed_; reached = c.reached }
  where
    off :
        {x : Text}
        → In x (current ∷ path) ⊎ ((y : Text) → In y (successors nodes x) → In y s.visited)
        → In x path ⊎ ((y : Text) → In y (successors nodes x) → In y s.visited)
    off (inl (here e)) = inr (λ y j. all y (subst (λ z. In y (successors nodes z)) e j))
    off (inl (there i)) = inl i
    off (inr f) = inr f

    followed_ :
        (x : Text)
        → In x s.visited
        → In x path ⊎ ((y : Text) → In y (successors nodes x) → In y s.visited)
    followed_ x i = off (c.followed x i)

visit_all-Grows :
    (nodes : Table NodeSchema) (path : List Text) (visit : Text → Search → Outcome)
    → ((t : Text) (s s' : Search)
        → visit t s ≡ done s'
        → Closed nodes path s
        → In t s'.visited × Grows nodes path s s')
    → (ts : List Text) (s s' : Search) → visit_all visit ts s ≡ done s'
    → Closed nodes path s
    → ((t : Text) → In t ts → In t s'.visited) × Grows nodes path s s'
unfolding visit_all
visit_all-Grows nodes path visit each [] s s' h c =
    (λ t i. elim i [ ], subst (Grows nodes path s) (same h) (c, λ x i. i))
  where
    same : {a b : Search} → done a ≡ done b → a ≡ b
    same e = cc e
visit_all-Grows nodes path visit each (t ∷ ts) s s' h c =
    let (m, e, f) = then_search-done (visit t s) (visit_all visit ts) h in
    let (now, (cm, grown)) = each t s m e c in
    let (all, (cs, more)) = visit_all-Grows nodes path visit each ts m s' f cm in
    (all_of (more t now) all, (cs, λ x i. more x (grown x i)))
  where
    all_of :
        In t s'.visited
        → ((u : Text) → In u ts → In u s'.visited)
        → (u : Text) → In u (t ∷ ts)
        → In u s'.visited
    all_of now all u (here e) = subst (λ z. In z s'.visited) (sym e) now
    all_of now all u (there i) = all u i

Closed-again :
    (nodes : Table NodeSchema) (path : List Text) (current : Text) (s : Search)
    → Closed nodes path s
    → Closed nodes path (reach current s)
Closed-again nodes path current s c = record {
  followed = c.followed;
  reached = λ x i. there (c.reached x i);
}

dfs-Grows :
    (fuel : ℕ) (nodes : Table NodeSchema) (path : List Text) (current : Text) (s s' : Search)
    → dfs fuel nodes path current s ≡ done s'
    → Closed nodes path s
    → In current s'.visited × Grows nodes path s s'
unfolding dfs
dfs-Grows zero nodes path current s s' h c = absurd (cc h)
dfs-Grows (suc fuel) nodes path current s s' h c = elim (dfs-Visit fuel nodes path current s s' h) [
  | again off seen e ↦
      subst (λ (z : Search). In current z.visited × Grows nodes path s z) (sym e)
        (seen, (Closed-again nodes path current s c, λ x i. i))
  | deeper off loop ↦
      let (all, (cs, more)) =
        visit_all-Grows nodes (current ∷ path) (dfs fuel nodes (current ∷ path))
          (dfs-Grows fuel nodes (current ∷ path)) (successors nodes current) (enter current s) s'
          loop (Closed-enter nodes path current s c) in
      (
        more current (here refl),
        (Closed-leave nodes path current s' all cs, λ x i. more x (there i)),
      )
]

-- Nothing is on the empty path, so the visited steps are closed under going on.
Closed-Reaches :
    {nodes : Table NodeSchema} {s : Search} {x y : Text}
    → Closed nodes [] s
    → In x s.visited
    → Reaches nodes x y
    → In y s.visited
Closed-Reaches {s} c i (stay e) = subst (λ z. In z s.visited) e i
Closed-Reaches {nodes} {s} c i (onward {y = v} {z = w} r j) =
    elim (c.followed v (Closed-Reaches c i r)) [ inl k ↦ elim k [ ] | inr f ↦ f w j ]

-- A search from the empty path that succeeds has reached exactly the steps that paths of targets
-- from its start lead to.
pub dfs-reachable :
    (fuel : ℕ) (nodes : Table NodeSchema) (entry : Text) (s' : Search)
    → dfs fuel nodes [] entry start ≡ done s'
    → (x : Text) → In x s'.reachable ↔ Reaches nodes entry x
dfs-reachable fuel nodes entry s' h x = (
  dfs-OnlyReached fuel nodes entry [] entry start s' (stay refl) h (λ y i. elim i [ ]) x,
  λ r.
      let (now, (c, more)) = dfs-Grows fuel nodes [] entry start s' h nothing in
      c.reached x (Closed-Reaches c now r),
)
  where
    nothing : Closed nodes [] start
    nothing = record { followed = λ y i. elim i [ ]; reached = λ y i. elim i [ ] }
