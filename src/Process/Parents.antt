-- ===== src/Process/Parents.antt =====
-- The parents of the runs in the process table.
use konf.Shared.{ℕ, ◌≡◌, refl, ◌∙◌, none, List, [], ◌∷◌, map, Bool-cases, inl, inr, ◌==◌}
use konf.Process.{
  WorkflowRun, ProcessTable, insert, update, remove, remove_all, select, children_of, gc,
  collectable,
}

-- No run of the table has a parent.
abbrev pub NoParents : ProcessTable → Type 0
NoParents [] = Unit {0}
NoParents (r ∷ table) = (r.parent_id ≡ none) × NoParents table

pub NoParents-insert :
    (r : WorkflowRun) (table : ProcessTable)
    → r.parent_id ≡ none
    → NoParents table
    → NoParents (insert r table)
unfolding insert
NoParents-insert r [] e n = (e, tt)
NoParents-insert r (old ∷ table) e n = elim (Bool-cases (old.id == r.id)) [
  | inl q ↦ rw q (e, n.1)
  | inr q ↦ rw q (n.0, NoParents-insert r table e n.1)
]

pub NoParents-update :
    (id : ℕ) (f : WorkflowRun → WorkflowRun) (table : ProcessTable)
    → ((r : WorkflowRun) → (f r).parent_id ≡ r.parent_id)
    → NoParents table
    → NoParents (update id f table)
unfolding update
NoParents-update id f [] e n = tt
NoParents-update id f (r ∷ table) e n = elim (Bool-cases (r.id == id)) [
  | inl q ↦ rw q (e r ∙ n.0, n.1)
  | inr q ↦ rw q (n.0, NoParents-update id f table e n.1)
]

NoParents-remove : (id : ℕ) (table : ProcessTable) → NoParents table → NoParents (remove id table)
unfolding remove
NoParents-remove id [] n = tt
NoParents-remove id (r ∷ table) n = elim (Bool-cases (r.id == id)) [
  | inl q ↦ rw q n.1
  | inr q ↦ rw q (n.0, NoParents-remove id table n.1)
]

NoParents-remove_all :
    (ids : List ℕ) (table : ProcessTable) → NoParents table → NoParents (remove_all ids table)
unfolding remove_all
NoParents-remove_all [] table n = n
NoParents-remove_all (id ∷ ids) table n =
    NoParents-remove_all ids (remove id table) (NoParents-remove id table n)

pub children_of-nil : (id : ℕ) (table : ProcessTable) → NoParents table → children_of id table ≡ []
unfolding children_of select
children_of-nil id [] n = refl
children_of-nil id (r ∷ table) n = rw n.0 (children_of-nil id table n.1)

pub NoParents-gc :
    (cutoff : ℕ) (table : ProcessTable) → NoParents table → NoParents (gc cutoff table)
unfolding gc
NoParents-gc cutoff table n =
    NoParents-remove_all (map (λ (r : WorkflowRun). r.id) (select (collectable cutoff) table)) table
      n
