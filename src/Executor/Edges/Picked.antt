-- ===== src/Executor/Edges/Picked.antt =====
-- What `evaluate_edges_targets` picks among the edges.
use konf.Shared.{
  ◌≡◌, refl, sym, ap, ◌∙◌, subst, ◌⊎◌, inl, inr, ◌++◌, append_assoc, append_nil, Bool, true, false,
  Option, none, some, List, [], ◌∷◌, arith, Text, In, here, there, Result, ok, err, ◌>>=◌,
  ok-injective,
}
use konf.Workflow.{Edge, EdgeTarget, return, Step}
use konf.Executor.Edges.{
  sort_edges, cleaned, condition_failed, decide, follow, or_return, evaluate_edges_targets, Targets,
}
use konf.Executor.Edges.Order.{StablySorted, sort_edges-StablySorted, StablySorted-In}

abbrev pub and_then : EdgeTarget → Targets → Targets
and_then t (ok ts) = ok (t ∷ ts)
and_then t (err e) = err e

abbrev behind_all : List EdgeTarget → Targets → Targets
behind_all before (ok ts) = ok (before ++ ts)
behind_all before (err e) = err e

behind_all-and_then :
    (before : List EdgeTarget) (t : EdgeTarget) (r : Targets)
    → behind_all (before ++ t ∷ []) r ≡ behind_all before (and_then t r)
behind_all-and_then before t (ok ts) = ap ok (append_assoc before (t ∷ []) ts)
behind_all-and_then before t (err e) = refl

module _ (evaluate_as_bool : Text → Result Bool Text) (step : Step) (workflow_id : Text) where
  -- What is picked from edges in the order in which they are visited. An edge without a condition is
  -- picked, and the next one is visited. One with a condition is passed where it does not hold, and
  -- is the last one where it holds or fails.
  pub data Picks : List Edge → Targets → Type 0 where
    ended : Picks [] (ok [])
    unconditional :
        {e : Edge} {es : List Edge} {r : Targets}
        → e.condition ≡ none
        → Picks es r
        → Picks (e ∷ es) (and_then e.target r)
    passed :
        {e : Edge} {es : List Edge} {r : Targets} (c : Text)
        → e.condition ≡ some c
        → evaluate_as_bool (cleaned c) ≡ ok false
        → Picks es r
        → Picks (e ∷ es) r
    holds :
        {e : Edge} {es : List Edge} (c : Text)
        → e.condition ≡ some c
        → evaluate_as_bool (cleaned c) ≡ ok true
        → Picks (e ∷ es) (ok (e.target ∷ []))
    fails :
        {e : Edge} {es : List Edge} (c problem : Text)
        → e.condition ≡ some c
        → evaluate_as_bool (cleaned c) ≡ err problem
        → Picks (e ∷ es) (err (condition_failed step workflow_id problem))

  -- Where nothing is picked, the step returns.
  abbrev pub Answers : Targets → Targets → Type 0
  Answers (ok []) r = r ≡ ok (return ∷ [])
  Answers (ok (t ∷ ts)) r = r ≡ ok (t ∷ ts)
  Answers (err e) r = r ≡ err e

  pub record Picked (r : Targets) : Type 0 where
    pub ordered : List Edge
    pub order : StablySorted step.edges ordered
    pub found : Targets
    pub picks : Picks ordered found
    pub answers : Answers found r

  -- How an edge at the head of the list goes on, by its condition.
  chosen : (o : Option Text) (e : Edge) (es : List Edge) (targets : List EdgeTarget) → Targets
  chosen none e es targets = follow evaluate_as_bool step workflow_id es (targets ++ e.target ∷ [])
  chosen (some c) e es targets =
      decide evaluate_as_bool step workflow_id (evaluate_as_bool (cleaned c)) e.target targets
        (follow evaluate_as_bool step workflow_id es targets)

  follow-chosen :
      (e : Edge) (es : List Edge) (targets : List EdgeTarget)
      → follow evaluate_as_bool step workflow_id (e ∷ es) targets ≡ chosen e.condition e es targets
  unfolding follow chosen
  follow-chosen e es targets = ground arith

  abbrev Follow : List Edge → List EdgeTarget → Targets → Type 0
  Follow es before result = (r : Targets) × Picks es r × (result ≡ behind_all before r)

  decide-Follow :
      (e : Edge) (es : List Edge) (before : List EdgeTarget) (c : Text) (rest : Targets)
      (v : Result Bool Text)
      → e.condition ≡ some c
      → evaluate_as_bool (cleaned c) ≡ v
      → Follow es before rest
      → Follow (e ∷ es) before (decide evaluate_as_bool step workflow_id v e.target before rest)
  decide-Follow e es before c rest (ok true) q h k = (ok (e.target ∷ []), holds c q h, refl)
  decide-Follow e es before c rest (ok false) q h (r, picks, same) = (r, passed c q h picks, same)
  decide-Follow e es before c rest (err problem) q h k =
      (err (condition_failed step workflow_id problem), fails c problem q h, refl)

  chosen-Follow :
      (e : Edge) (es : List Edge)
      → ((before : List EdgeTarget)
          → Follow es before (follow evaluate_as_bool step workflow_id es before))
      → (o : Option Text) (before : List EdgeTarget) → e.condition ≡ o
      → Follow (e ∷ es) before (chosen o e es before)
  unfolding chosen
  chosen-Follow e es rest none before q =
      let (r, picks, same) = rest (before ++ e.target ∷ []) in
      (and_then e.target r, unconditional q picks, same ∙ behind_all-and_then before e.target r)
  chosen-Follow e es rest (some c) before q =
      decide-Follow e es before c (follow evaluate_as_bool step workflow_id es before)
        (evaluate_as_bool (cleaned c)) q refl (rest before)

  follow-Follow :
      (es : List Edge) (before : List EdgeTarget)
      → Follow es before (follow evaluate_as_bool step workflow_id es before)
  follow-Follow [] before = (ok [], ended, unfold follow in ap ok (sym (append_nil before)))
  follow-Follow (e ∷ es) before =
      subst (Follow (e ∷ es) before) (sym (follow-chosen e es before))
        (chosen-Follow e es (follow-Follow es) e.condition before refl)

  or_return-Answers :
      (found result : Targets)
      → result ≡ behind_all [] found
      → Answers found
          (result >>= λ targets. ok (or_return evaluate_as_bool step workflow_id targets))
  or_return-Answers (ok []) result q = rw q refl
  or_return-Answers (ok (t ∷ ts)) result q = rw q refl
  or_return-Answers (err e) result q = rw q refl

  -- The edges of a step are visited by rising priority, those of one priority in their order. An
  -- edge without a condition is picked. The first one whose condition holds is picked too, and ends
  -- the visit; the first one whose condition fails makes the whole an error; those whose condition
  -- does not hold are passed. The targets are those of the picked edges, in this order, or the
  -- return alone where none is picked.
  pub evaluate_edges_targets-Picked :
      Picked (evaluate_edges_targets evaluate_as_bool step workflow_id)
  unfolding evaluate_edges_targets
  evaluate_edges_targets-Picked =
      let (found, picks, same) = follow-Follow (sort_edges step.edges) [] in
      record {
        ordered = sort_edges step.edges;
        order = sort_edges-StablySorted step.edges;
        found = found;
        picks = picks;
        answers =
            or_return-Answers found
              (follow evaluate_as_bool step workflow_id (sort_edges step.edges) []) same;
      }

  -- Each target is that of one of the edges.
  abbrev From : List Edge → Targets → Type 0
  From es (ok ts) = (t : EdgeTarget) → In t ts → (e : Edge) × In e es × (e.target ≡ t)
  From es (err e) = Unit {0}

  From-and_then :
      (e : Edge) (es : List Edge) (r : Targets) → From es r → From (e ∷ es) (and_then e.target r)
  From-and_then e es (ok ts) from = λ t i. elim i [
    | here q ↦ (e, here refl, sym q)
    | there l ↦ let (f, j, same) = from t l in (f, there j, same)
  ]
  From-and_then e es (err x) from = tt

  From-cons : (e : Edge) (es : List Edge) (r : Targets) → From es r → From (e ∷ es) r
  From-cons e es (ok ts) from = λ t i. let (f, j, same) = from t i in (f, there j, same)
  From-cons e es (err x) from = tt

  Picks→From : (es : List Edge) (r : Targets) → Picks es r → From es r
  Picks→From _ _ ended = λ t i. elim i [ ]
  Picks→From _ _ (unconditional {e} {es} {r} q picks) = From-and_then e es r (Picks→From es r picks)
  Picks→From _ _ (passed {e} {es} {r} c q h picks) = From-cons e es r (Picks→From es r picks)
  Picks→From _ _ (holds {e} {es} c q h) =
      λ t i. elim i [ here p ↦ (e, here refl, sym p) | there j ↦ elim j [ ] ]
  Picks→From _ _ (fails c problem q h) = tt

  answered :
      (found : Targets) (ts : List EdgeTarget) (t : EdgeTarget)
      → From step.edges found
      → Answers found (ok ts)
      → In t ts
      → (t ≡ return) ⊎ ((e : Edge) × In e step.edges × (e.target ≡ t))
  answered (ok []) ts t from q i = elim (subst (λ z. In t z) (ok-injective q) i) [
    | here p ↦ inl p
    | there j ↦ elim j [ ]
  ]
  answered (ok (x ∷ xs)) ts t from q i = inr (from t (subst (λ z. In t z) (ok-injective q) i))
  answered (err e) ts t from q i = absurd (cc q)

  From-ordered :
      (ordered : List Edge) (r : Targets)
      → StablySorted step.edges ordered
      → From ordered r
      → From step.edges r
  From-ordered ordered (ok ts) s from =
      λ t i. let (e, j, same) = from t i in (e, StablySorted-In step.edges ordered e s j, same)
  From-ordered ordered (err x) s from = tt

  -- A target is the return or that of an edge.
  pub picked_edge :
      (ts : List EdgeTarget) (t : EdgeTarget)
      → evaluate_edges_targets evaluate_as_bool step workflow_id ≡ ok ts
      → In t ts
      → (t ≡ return) ⊎ ((e : Edge) × In e step.edges × (e.target ≡ t))
  picked_edge ts t h i =
      let p = subst Picked h evaluate_edges_targets-Picked in
      answered p.found ts t
        (From-ordered p.ordered p.found p.order (Picks→From p.ordered p.found p.picks)) p.answers i
