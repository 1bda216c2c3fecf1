-- ===== src/RedbJournal/Queries.antt =====
-- The rows that the queries of the redb journal return.
use konf.Shared.{
  ℕ, zero, suc, ◌≤◌, ◌≡◌, refl, Bool, List, [], ◌∷◌, arith, Bool-cases, inl, inr, length, Text,
}
use konf.Journal.{JournalRow, JournalFilter, filter_matches}
use konf.RedbJournal.{RedbJournal, newest, query, take, retain, is_live, recent}

take-zero : (rows : List JournalRow) → take 0 rows ≡ []
unfolding take
take-zero [] = refl
take-zero (r ∷ rows) = refl

newest-eq :
    (p : JournalRow → Bool) (rows : List JournalRow) (limit : ℕ)
    → newest p limit rows ≡ take limit (retain p rows)
unfolding newest take retain
newest-eq p [] limit = refl
newest-eq p (r ∷ rows) zero = elim (Bool-cases (p r)) [
  | inl e ↦ rw e
  | inr e ↦ rw (e, take-zero (retain p rows))
]
newest-eq p (r ∷ rows) (suc n) = elim (Bool-cases (p r)) [
  | inl e ↦ rw (e, newest-eq p rows n)
  | inr e ↦ rw (e, newest-eq p rows (suc n))
]

-- A query returns the newest rows that match its filter, as many as the limit allows: rows that do
-- not match take nothing from the limit.
pub query-take-retain :
    (show : ℕ → Text) (now : ℕ) (filter : JournalFilter) (limit : ℕ) (self : RedbJournal)
    → query show now filter limit self
      ≡ take limit (retain (filter_matches show now filter) self.events)
unfolding query
query-take-retain show now filter limit self =
    newest-eq (filter_matches show now filter) self.events limit

length-retain :
    (p : JournalRow → Bool) (rows : List JournalRow) → length (retain p rows) ≤ length rows
unfolding retain
length-retain p [] = omega arith
length-retain p (r ∷ rows) = ground (arith, length-retain p rows)

retain-take :
    (p : JournalRow → Bool) (rows : List JournalRow) (n : ℕ)
    → length (retain p (take n rows)) ≤ length (take n (retain p rows))
unfolding take retain
retain-take p [] n = omega arith
retain-take p (r ∷ rows) zero = omega arith
retain-take p (r ∷ rows) (suc n) = elim (Bool-cases (p r)) [
  | inl e ↦ rw e (omega (arith, retain-take p rows n))
  | inr e ↦ rw e (omega (arith, retain-take p rows n, take-suc n (retain p rows)))
]
  where
    take-suc : (m : ℕ) (l : List JournalRow) → length (take m l) ≤ length (take (suc m) l)
    take-suc m [] = omega arith
    take-suc zero (x ∷ l) = omega arith
    take-suc (suc m) (x ∷ l) = omega (arith, take-suc m l)

-- The recent rows are never more than the live rows that the limit would allow; expired rows do
-- take from the limit.
pub recent-le :
    (now limit : ℕ) (self : RedbJournal)
    → length (recent now limit self) ≤ length (take limit (retain (is_live now) self.events))
unfolding recent
recent-le now limit self = retain-take (is_live now) self.events limit
