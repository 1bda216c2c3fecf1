-- ===== src/RedbJournal.antt =====
-- crates/konf-runtime/src/journal/redb.rs: the journal over redb tables. The database itself, its
-- transactions and the encoding of the rows are taken to work: a stored row is read back as it is,
-- with its times in whole microseconds.
-- The events are a list, the newest first; an index is a list of a key and a sequence id, in the
-- order of the ids.
pub mod Keys
pub mod Queries
pub mod Indexes
pub mod Valid
mod Tests
use konf.Shared.{
  ℕ, zero, suc, ◌+◌, any, length, ◌&&◌, Bool, true, false, not, Option, none, some, List, [], ◌∷◌,
  ◌++◌, if◌then◌else◌, leb, ◌==◌, Text, text_eq, Result, ok, err,
}
use konf.Journal.{
  JournalEntry, JournalRow, JournalError, JournalStore, JournalFilter, filter_matches, is_expired,
}

pub record RedbJournal : Type 0 where
  pub events : List JournalRow
  pub by_run : List (ℕ × ℕ)
  pub by_session : List (Text × ℕ)
  pub by_idempotency : List (Text × ℕ)

abbrev pub empty : RedbJournal
empty = record { events = []; by_run = []; by_session = []; by_idempotency = [] }

-- One more than the last id of the events.
abbrev pub after_last : List JournalRow → ℕ
after_last [] = 1
after_last (row ∷ rows) = row.id + 1

abbrev pub row_of : (id now : ℕ) → JournalEntry → JournalRow
row_of id now entry = record {
  id = id;
  run_id = entry.run_id;
  session_id = entry.session_id;
  namespace = entry.namespace;
  event_type = entry.event_type;
  payload = entry.payload;
  created_at = now;
  valid_to = entry.valid_to;
  idempotency_key = entry.idempotency_key;
}

-- An index has an entry for a row that has the key.
abbrev pub indexed {ℓ} : {K : Type ℓ} → Option K → ℕ → List (K × ℕ) → List (K × ℕ)
indexed none id index = index
indexed (some key) id index = index ++ (key, id) ∷ []

-- `RedbJournal::append`, at the time `now`
unfoldable pub append : (now : ℕ) → JournalEntry → RedbJournal → RedbJournal × Result ℕ JournalError
append now entry self =
    let next_id = after_last self.events in
    (
      record {
        events = row_of next_id now entry ∷ self.events;
        by_run = indexed entry.run_id next_id self.by_run;
        by_session = indexed (some entry.session_id) next_id self.by_session;
        by_idempotency = indexed entry.idempotency_key next_id self.by_idempotency;
      },
      ok next_id,
    )

unfoldable pub get_row : ℕ → List JournalRow → Option JournalRow
get_row id [] = none
get_row id (row ∷ rows) = if row.id == id then some row else get_row id rows

-- The ids that an index has for a key.
unfoldable pub ids_of : Text → List (Text × ℕ) → List ℕ
ids_of key [] = []
ids_of key ((k, id) ∷ index) =
    let more = ids_of key index in if text_eq k key then id ∷ more else more

-- The better of the best row so far and the row with the id.
abbrev pub better : Option JournalRow → ℕ → Option JournalRow → Option JournalRow
better none id found = found
better (some best) id none = some best
better (some best) id (some row) = if leb id best.id then some best else some row

unfoldable pub best_row : List JournalRow → List ℕ → Option JournalRow → Option JournalRow
best_row events [] best = best
best_row events (id ∷ ids) best = best_row events ids (better best id (get_row id events))

abbrev pub unless_expired : ℕ → Option JournalRow → Option JournalRow
unless_expired now none = none
unless_expired now (some row) = if is_expired now row.valid_to then none else some row

unfoldable pub get_by_idempotency_key :
    (now : ℕ) → Text → RedbJournal → Result (Option JournalRow) JournalError
get_by_idempotency_key now key self =
    ok (unless_expired now (best_row self.events (ids_of key self.by_idempotency) none))

-- The newest rows that pass the test, up to the limit: the loop of `query`, and of
-- `query_by_session` over the session's rows.
unfoldable pub newest : (JournalRow → Bool) → ℕ → List JournalRow → List JournalRow
newest p limit [] = []
newest p limit (row ∷ rows) = elim limit [
  | zero ↦ []
  | suc n ↦ if p row then row ∷ newest p n rows else newest p (suc n) rows
]

-- `RedbJournal::query`; `show` writes a UUID as text.
unfoldable pub query :
    (show : ℕ → Text) (now : ℕ) → JournalFilter → (limit : ℕ) → RedbJournal → List JournalRow
query show now filter limit self = newest (filter_matches show now filter) limit self.events

unfoldable pub take : ℕ → List JournalRow → List JournalRow
take n [] = []
take n (row ∷ rows) = elim n [ zero ↦ [] | suc m ↦ row ∷ take m rows ]

unfoldable pub retain : (JournalRow → Bool) → List JournalRow → List JournalRow
retain p [] = []
retain p (row ∷ rows) = let rest = retain p rows in if p row then row ∷ rest else rest

abbrev pub is_live : ℕ → JournalRow → Bool
is_live now row = not (is_expired now row.valid_to)

-- `RedbJournal::recent`: the limit is applied first, then the expired rows are dropped.
unfoldable pub recent : (now limit : ℕ) → RedbJournal → List JournalRow
recent now limit self = retain (is_live now) (take limit self.events)

-- Whether a row is deleted at the time `now`: a row may be due that is not yet expired.
unfoldable pub is_due : ℕ → JournalRow → Bool
is_due now row = elim row.valid_to [ none ↦ false | some valid_to ↦ leb valid_to now ]

abbrev pub has_text : Option Text → Text → Bool
has_text none t = false
has_text (some s) t = text_eq s t

abbrev pub has_number : Option ℕ → ℕ → Bool
has_number none n = false
has_number (some m) n = m == n

-- `remove` of the index entry of each row of the list.
unfoldable pub unindex {ℓ} :
    {K : Type ℓ} → (JournalRow → K → Bool) → List JournalRow → List (K × ℕ) → List (K × ℕ)
unindex has rows [] = []
unindex has rows ((key, id) ∷ index) =
    let rest = unindex has rows index in
    if any (λ (r : JournalRow). r.id == id && has r key) rows then rest else (key, id) ∷ rest

-- `RedbJournal::delete_expired`, with the number of rows that are deleted
unfoldable pub delete_expired : (now : ℕ) → RedbJournal → RedbJournal × ℕ
delete_expired now self =
    let expired = retain (is_due now) self.events in
    (
      record {
        events = retain (λ r. not (is_due now r)) self.events;
        by_run = unindex (λ r k. has_number r.run_id k) expired self.by_run;
        by_session = unindex (λ r k. text_eq r.session_id k) expired self.by_session;
        by_idempotency = unindex (λ r k. has_text r.idempotency_key k) expired self.by_idempotency;
      },
      length expired,
    )

-- What the dispatcher uses of the journal, at the time `now`.
abbrev pub redb_journal : (now : ℕ) → JournalStore RedbJournal
redb_journal now = record {
  append = append now;
  get_by_idempotency_key = get_by_idempotency_key now;
}
