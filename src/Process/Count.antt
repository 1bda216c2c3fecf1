-- ===== src/Process/Count.antt =====
-- How the operations of the process table change the number of runs that a test selects.
use konf.Shared.{
  ℕ, ◌+◌, ◌≤◌, ◌≡◌, Bool, true, false, [], ◌∷◌, arith, map, List, length, Bool-cases, inl, inr,
}
use konf.Process.{
  WorkflowRun, ProcessTable, insert, update, remove, select, remove_all, gc, collectable,
}

module _ (p : WorkflowRun → Bool) where
  abbrev pub count : ProcessTable → ℕ
  count table = length (select p table)

  pub count-insert :
      (run : WorkflowRun) (table : ProcessTable) → count (insert run table) ≤ count table + 1
  unfolding select insert
  count-insert run [] = ground arith
  count-insert run (old ∷ table) = ground (arith, count-insert run table)

  -- A run that the test rejects adds nothing.
  pub count-insert_rejected :
      (run : WorkflowRun) (table : ProcessTable)
      → p run ≡ false
      → count (insert run table) ≤ count table
  unfolding select insert
  count-insert_rejected run [] h = ground arith
  count-insert_rejected run (old ∷ table) h = ground (arith, count-insert_rejected run table h)

  pub count-update :
      (id : ℕ) (f : WorkflowRun → WorkflowRun) (table : ProcessTable)
      → ((run : WorkflowRun) → p (f run) ≡ true → p run ≡ true)
      → count (update id f table) ≤ count table
  unfolding select update
  count-update id f [] h = omega arith
  count-update id f (run ∷ table) h = elim (Bool-cases (p (f run))) [
    | inl e ↦ ground (arith, h run e, count-update id f table h)
    | inr e ↦ ground (arith, count-update id f table h)
  ]

  pub count-remove : (id : ℕ) (table : ProcessTable) → count (remove id table) ≤ count table
  unfolding select remove
  count-remove id [] = omega arith
  count-remove id (run ∷ table) = ground (arith, count-remove id table)

  count-remove_all :
      (ids : List ℕ) (table : ProcessTable) → count (remove_all ids table) ≤ count table
  unfolding remove_all
  count-remove_all [] table = omega arith
  count-remove_all (id ∷ ids) table =
      omega (arith, count-remove_all ids (remove id table), count-remove id table)

  pub count-gc : (cutoff : ℕ) (table : ProcessTable) → count (gc cutoff table) ≤ count table
  unfolding gc
  count-gc cutoff table =
      count-remove_all (map (λ (run : WorkflowRun). run.id) (select (collectable cutoff) table))
        table
