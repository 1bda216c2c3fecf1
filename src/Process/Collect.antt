-- ===== src/Process/Collect.antt =====
-- About `ProcessTable::gc`: which runs are removed.
use konf.Shared.{
  ℕ, ◌≡◌, refl, ◌∙◌, subst, inl, inr, Bool, false, Option, none, some, List, [], ◌∷◌, map, arith,
  ==_iff, if◌then◌else◌, ◌==◌, ◌||◌, Bool-cases,
}
use konf.Process.{WorkflowRun, ProcessTable, get, remove, select, remove_all, gc, collectable}

-- One run to an id.
abbrev pub Distinct : ProcessTable → Type 0
Distinct [] = Unit {0}
Distinct (run ∷ table) = (get run.id table ≡ none) × Distinct table

get-remove :
    (k id : ℕ) (table : ProcessTable)
    → Distinct table
    → get id (remove k table) ≡ (if k == id then none else get id table)
unfolding get remove
get-remove k id [] d = ground arith
get-remove k id (run ∷ table) d = elim (Bool-cases (run.id == k)) [
  | inl e ↦
      let same = (==_iff run.id k).0 e in
      ground (arith, get-remove k id table d.1, subst (λ (z : ℕ). get z table ≡ none) same d.0)
  | inr e ↦ ground (arith, get-remove k id table d.1)
]

Distinct-remove : (k : ℕ) (table : ProcessTable) → Distinct table → Distinct (remove k table)
unfolding remove
Distinct-remove k [] d = tt
Distinct-remove k (run ∷ table) d = elim (Bool-cases (run.id == k)) [
  | inl e ↦ rw e d.1
  | inr e ↦ rw e (ground (arith, get-remove k run.id table d.1, d.0), Distinct-remove k table d.1)
]

among : ℕ → List ℕ → Bool
among id [] = false
among id (k ∷ ks) = (k == id) || among id ks

get-remove_all :
    (ids : List ℕ) (id : ℕ) (table : ProcessTable)
    → Distinct table
    → get id (remove_all ids table) ≡ (if among id ids then none else get id table)
unfolding remove_all among
get-remove_all [] id table d = refl
get-remove_all (k ∷ ids) id table d = ground (
  arith,
  get-remove_all ids id (remove k table) (Distinct-remove k table d),
  get-remove k id table d,
)

-- The run with the id, if the test selects it.
abbrev pub kept : (WorkflowRun → Bool) → Option WorkflowRun → Option WorkflowRun
kept p none = none
kept p (some run) = if p run then none else some run

abbrev ids_of : ProcessTable → List ℕ
ids_of table = map (λ (run : WorkflowRun). run.id) table

among-none :
    (p : WorkflowRun → Bool) (id : ℕ) (table : ProcessTable)
    → get id table ≡ none
    → among id (ids_of (select p table)) ≡ false
unfolding among select get
among-none p id [] h = refl
among-none p id (run ∷ table) h =
    ground (arith, λ (k : get id table ≡ none). among-none p id table k)

selected-kept :
    (p : WorkflowRun → Bool) (id : ℕ) (table : ProcessTable)
    → Distinct table
    → (if among id (ids_of (select p table)) then none else get id table) ≡ kept p (get id table)
unfolding among select get
selected-kept p id [] d = refl
selected-kept p id (run ∷ table) d = elim (Bool-cases (run.id == id)) [
  | inl e ↦
      let same = (==_iff run.id id).0 e in
      ground (
        arith,
        among-none p id table (subst (λ (z : ℕ). get z table ≡ none) same d.0),
        selected-kept p id table d.1,
      )
  | inr e ↦ ground (arith, selected-kept p id table d.1)
]

-- After a collection a run is in the table exactly if it was, and was not both over and completed
-- before the cutoff; and then it is unchanged. In particular no running run is removed.
pub get-gc :
    (cutoff id : ℕ) (table : ProcessTable)
    → Distinct table
    → get id (gc cutoff table) ≡ kept (collectable cutoff) (get id table)
unfolding gc
get-gc cutoff id table d =
    get-remove_all (ids_of (select (collectable cutoff) table)) id table d
    ∙ selected-kept (collectable cutoff) id table d
