-- ===== src/RedbJournal/Keys.antt =====
-- About the index of idempotency keys in the redb journal.
use konf.Shared.{
  ℕ, ◌+◌, ◌<◌, ◌≡◌, refl, ap, ◌∙◌, inl, inr, Option, none, some, List, [], ◌∷◌, ◌++◌, if◌then◌else◌,
  leb, ◌==◌, arith, Bool-cases, Text, text_eq, text_eq_self, In, here, there, In-append_inv, ok,
}
use konf.Journal.{JournalEntry, JournalRow, is_expired}
use konf.Dispatcher.Replay.{FindsLast}
use konf.RedbJournal.{
  RedbJournal, after_last, row_of, indexed, append, get_row, ids_of, better, best_row,
  unless_expired, get_by_idempotency_key, redb_journal,
}

-- Every id in the index of the keys is one that has been given out.
abbrev pub KeysBelow : RedbJournal → Type 0
KeysBelow self = (e : Text × ℕ) → In e self.by_idempotency → e.1 < after_last self.events

indexed-below :
    (o : Option Text) (n : ℕ) (index : List (Text × ℕ))
    → ((e : Text × ℕ) → In e index → e.1 < n)
    → (e : Text × ℕ) → In e (indexed o n index)
    → e.1 < n + 1
indexed-below none n index below e i = omega (arith, below e i)
indexed-below (some key) n index below e i = elim (In-append_inv index ((key, n) ∷ []) i) [
  | inl j ↦ omega (arith, below e j)
  | inr (here q) ↦ omega (arith, ap (λ (z : Text × ℕ). z.1) q)
  | inr (there j) ↦ elim j [ ]
]

-- An append keeps the index of the keys below the next id.
pub append-KeysBelow :
    (now : ℕ) (entry : JournalEntry) (self : RedbJournal)
    → KeysBelow self
    → KeysBelow (append now entry self).0
unfolding append
append-KeysBelow now entry self below =
    indexed-below entry.idempotency_key (after_last self.events) self.by_idempotency below

get_row-id :
    (id : ℕ) (rows : List JournalRow) (r : JournalRow) → get_row id rows ≡ some r → r.id ≡ id
unfolding get_row
get_row-id id [] r h = absurd (ground arith)
get_row-id id (x ∷ rows) r h = elim (Bool-cases (x.id == id)) [
  | inl e ↦ let same : x ≡ r = cc (rw e at h) in ground (arith, ap (λ (z : JournalRow). z.id) same)
  | inr e ↦ get_row-id id rows r (rw e at h)
]

-- The row, if there is one, has an id below `n`.
abbrev Below : ℕ → Option JournalRow → Type 0
Below n none = Unit {0}
Below n (some r) = r.id < n

found-Below :
    (n id : ℕ) (rows : List JournalRow) (o : Option JournalRow)
    → get_row id rows ≡ o
    → id < n
    → Below n o
found-Below n id rows none h lt = tt
found-Below n id rows (some r) h lt = omega (arith, get_row-id id rows r h)

better-Below :
    (n id : ℕ) (best found : Option JournalRow)
    → Below n best
    → Below n found
    → Below n (better best id found)
better-Below n id none found b f = f
better-Below n id (some r) none b f = b
better-Below n id (some r) (some q) b f = elim (Bool-cases (leb id r.id)) [
  | inl e ↦ rw e b
  | inr e ↦ rw e f
]

best_row-Below :
    (n : ℕ) (rows : List JournalRow) (ids : List ℕ) (best : Option JournalRow)
    → ((id : ℕ) → In id ids → id < n)
    → Below n best
    → Below n (best_row rows ids best)
unfolding best_row
best_row-Below n rows [] best below b = b
best_row-Below n rows (id ∷ ids) best below b =
    best_row-Below n rows ids (better best id (get_row id rows)) (λ k i. below k (there i))
      (better-Below n id best (get_row id rows) b
        (found-Below n id rows (get_row id rows) refl (below id (here refl))))

best_row-append :
    (rows : List JournalRow) (xs : List ℕ) (n : ℕ) (best : Option JournalRow)
    → best_row rows (xs ++ n ∷ []) best ≡ better (best_row rows xs best) n (get_row n rows)
unfolding best_row
best_row-append rows [] n best = refl
best_row-append rows (x ∷ xs) n best = best_row-append rows xs n (better best x (get_row x rows))

better-last :
    (n : ℕ) (best : Option JournalRow) (r : JournalRow)
    → Below n best
    → better best n (some r) ≡ some r
better-last n none r b = refl
better-last n (some q) r b = ground arith

ids_of-append :
    (key : Text) (index : List (Text × ℕ)) (n : ℕ)
    → ids_of key (index ++ (key, n) ∷ []) ≡ ids_of key index ++ n ∷ []
unfolding ids_of
ids_of-append key [] n = rw (text_eq_self key)
ids_of-append key ((k, i) ∷ index) n = elim (Bool-cases (text_eq k key)) [
  | inl e ↦ rw (e, ids_of-append key index n)
  | inr e ↦ rw (e, ids_of-append key index n)
]

ids_of-below :
    (key : Text) (index : List (Text × ℕ)) (n : ℕ)
    → ((e : Text × ℕ) → In e index → e.1 < n)
    → (id : ℕ) → In id (ids_of key index)
    → id < n
unfolding ids_of
ids_of-below key [] n below id i = elim i [ ]
ids_of-below key ((k, x) ∷ index) n below id i = elim (Bool-cases (text_eq k key)) [
  | inl e ↦ elim (rw e at i) [
    | here q ↦ omega (arith, q, below (k, x) (here refl))
    | there j ↦ ids_of-below key index n (λ z l. below z (there l)) id j
  ]
  | inr e ↦ ids_of-below key index n (λ z l. below z (there l)) id (rw e at i)
]

get_row-first : (row : JournalRow) (rows : List JournalRow) → get_row row.id (row ∷ rows) ≡ some row
unfolding get_row
get_row-first row rows = ground arith

-- After an append of an entry with a key that does not expire, the key is answered with its row, as
-- long as the ids in the index of the keys were below the next one.
pub get_by_idempotency_key-append :
    (now later : ℕ) (entry : JournalEntry) (key : Text) (s : RedbJournal)
    → KeysBelow s
    → entry.valid_to ≡ none
    → entry.idempotency_key ≡ some key
    → get_by_idempotency_key later key (append now entry s).0
      ≡ ok (some (row_of (after_last s.events) now entry))
unfolding append get_by_idempotency_key
get_by_idempotency_key-append now later entry key s below live k = ap ok found
  where
    next : ℕ
    next = after_last s.events

    row : JournalRow
    row = row_of next now entry

    ids : List ℕ
    ids = ids_of key s.by_idempotency

    best : best_row (row ∷ s.events) (ids ++ next ∷ []) none ≡ some row
    best =
        best_row-append (row ∷ s.events) ids next none
        ∙ ap (better (best_row (row ∷ s.events) ids none) next) (get_row-first row s.events)
        ∙ better-last next (best_row (row ∷ s.events) ids none) row (
            best_row-Below next (row ∷ s.events) ids none
              (ids_of-below key s.by_idempotency next below) tt)

    found :
        unless_expired later (
          best_row
            (row ∷ s.events)
            (ids_of key (indexed entry.idempotency_key next s.by_idempotency))
            none)
        ≡ some row
    found =
        ap
          (λ (o : Option Text).
            unless_expired later
              (best_row (row ∷ s.events) (ids_of key (indexed o next s.by_idempotency)) none))
          k
        ∙ ap (λ (l : List ℕ). unless_expired later (best_row (row ∷ s.events) l none))
            (ids_of-append key s.by_idempotency next)
        ∙ ap (unless_expired later) best
        ∙ ap (λ (v : Option ℕ). if is_expired later v then none else some row) live

-- The redb journal is one that the dispatcher's statement about repeated keys is about.
pub redb_journal-FindsLast : (now : ℕ) → FindsLast (redb_journal now) KeysBelow
unfolding append
redb_journal-FindsLast now entry key s n below live k a = (
  row_of (after_last s.events) now entry,
  get_by_idempotency_key-append now now entry key s below live k,
  refl,
)
