-- ===== src/RedbJournal/Tests.antt =====
-- A journal with a few rows, and the theorems about it.
use konf.Shared.{List, ℕ, ◌≡◌, refl, none, some, [], ◌∷◌, Text, text, null, false, ok}
use konf.Journal.{JournalEntry, JournalFilter, filter_matches}
use konf.RedbJournal.{
  RedbJournal, delete_expired, is_due, newest, empty, after_last, row_of, append,
  get_by_idempotency_key, query, take, retain, recent,
}
use konf.RedbJournal.Keys.{KeysBelow, append-KeysBelow, get_by_idempotency_key-append}
use konf.RedbJournal.Valid.{Valid, Op, appends, deletes, step, run}

abbrev entry : JournalEntry
entry = record {
  run_id = none;
  session_id = text "s";
  namespace = text "konf:a";
  event_type = text "interaction";
  payload = null;
  valid_to = none;
  idempotency_key = some (text "memory:search:k");
}

abbrev fleeting : JournalEntry
fleeting = record entry { valid_to = some 5; idempotency_key = none }

abbrev once : RedbJournal
once = (append 1 entry empty).0

abbrev twice : RedbJournal
twice = (append 2 fleeting once).0

none_below : KeysBelow empty
none_below e i = elim i [ ]

get_by_idempotency_key-append_example :
    get_by_idempotency_key 9 (text "memory:search:k") (append 3 entry twice).0
    ≡ ok (some (row_of (after_last twice.events) 3 entry))
get_by_idempotency_key-append_example =
    get_by_idempotency_key-append 3 9 entry (text "memory:search:k") twice
      (append-KeysBelow 2 fleeting once (append-KeysBelow 1 entry empty none_below)) refl refl

abbrev anything : JournalFilter
anything = record {
  namespace = none;
  event_type = none;
  run_id = none;
  session_id = none;
  trace_id = none;
  include_expired = false;
}

abbrev print : ℕ → Text
print n = []

-- One row is asked for and a live one is there: the query finds it, `recent` does not.
query_found : query print 9 anything 1 twice ≡ row_of 1 1 entry ∷ []
unfolding query append filter_matches newest
query_found = refl

recent_short : recent 9 1 twice ≡ []
unfolding recent append take retain
recent_short = refl

abbrev ops : List Op
ops = appends 1 entry ∷ appends 2 fleeting ∷ deletes 9 ∷ appends 10 entry ∷ []

-- The id of the deleted row is given out again.
id_again : (append 2 fleeting once).1 ≡ (append 10 entry (run (deletes 9 ∷ []) twice)).1
unfolding append run step delete_expired retain is_due
id_again = refl
