-- ===== src/RedbJournal/Valid.antt =====
-- About the tables of the redb journal through appends and deletions.
use konf.Shared.{ℕ, ◌<◌, ap, some, List, [], ◌∷◌, arith, In, here, there}
use konf.Journal.{JournalEntry, JournalRow}
use konf.RedbJournal.{RedbJournal, after_last, append, delete_expired}
use konf.RedbJournal.Keys.{KeysBelow}
use konf.RedbJournal.Indexes.{Falling, Indexes}

-- The ids of the rows fall, and the three indexes are those of the rows.
pub record Valid (self : RedbJournal) : Type 0 where
  pub falling : Falling self.events
  pub runs : Indexes (λ r. r.run_id) self.events self.by_run
  pub sessions : Indexes (λ r. some r.session_id) self.events self.by_session
  pub keys : Indexes (λ r. r.idempotency_key) self.events self.by_idempotency

In-after_last :
    (rows : List JournalRow) (r : JournalRow) → Falling rows → In r rows → r.id < after_last rows
In-after_last [] r f i = elim i [ ]
In-after_last (x ∷ rows) r f (here e) = omega (arith, ap (λ (z : JournalRow). z.id) e)
In-after_last (x ∷ rows) r f (there i) = omega (arith, f.0 r i)

-- In a valid journal the ids in the index are below the next one.
pub Valid→KeysBelow : (self : RedbJournal) → Valid self → KeysBelow self
Valid→KeysBelow self v e i =
    let (r, j, same, key) = (v.keys e).0 i in
    omega (arith, same, In-after_last self.events r v.falling j)

pub data Op : Type 0 where
  appends : (now : ℕ) → JournalEntry → Op
  deletes : (now : ℕ) → Op

unfoldable pub step : Op → RedbJournal → RedbJournal
step (appends now entry) self = (append now entry self).0
step (deletes now) self = (delete_expired now self).0

unfoldable pub run : List Op → RedbJournal → RedbJournal
run [] self = self
run (op ∷ ops) self = run ops (step op self)
