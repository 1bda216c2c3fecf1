-- ===== src/RedbJournal/Indexes.antt =====
-- The rows and the indexes of the redb journal, and what a deletion leaves of them.
use konf.Shared.{
  some-injective, ℕ, ◌<◌, ◌≡◌, ◌↔◌, refl, sym, ap, ap₂, ◌∙◌, subst, inl, inr, Bool, true, false,
  not, ◌&&◌, any, Option, none, some, List, [], ◌∷◌, ◌==◌, arith, Bool-cases, Text, text_eq_iff, In,
  here, there, In→any, any→In, In-append, In-append_inv,
}
use konf.Journal.{JournalRow}
use konf.RedbJournal.{indexed, retain, is_due, has_number, has_text, unindex}

-- The ids of the rows fall.
abbrev pub Falling : List JournalRow → Type 0
Falling [] = Unit {0}
Falling (row ∷ rows) = ((r : JournalRow) → In r rows → r.id < row.id) × Falling rows

-- An index has an entry for a key and an id exactly where a row has both.
abbrev pub Indexes :
    {K : Type 0} → (JournalRow → Option K) → List JournalRow → List (K × ℕ) → Type 0
Indexes {K} key rows index =
    (e : K × ℕ) → In e index ↔ (r : JournalRow) × In r rows × (r.id ≡ e.1) × (key r ≡ some e.0)

-- Rows with the same id are the same.
same_row :
    (rows : List JournalRow) (r s : JournalRow)
    → Falling rows
    → In r rows
    → In s rows
    → r.id ≡ s.id
    → r ≡ s
same_row [] r s f i j q = elim i [ ]
same_row (x ∷ rows) r s f (here p) (here p') q = p ∙ sym p'
same_row (x ∷ rows) r s f (here p) (there j) q =
    absurd (omega (arith, ap (λ (z : JournalRow). z.id) p, f.0 s j, q))
same_row (x ∷ rows) r s f (there i) (here p) q =
    absurd (omega (arith, ap (λ (z : JournalRow). z.id) p, f.0 r i, q))
same_row (x ∷ rows) r s f (there i) (there j) q = same_row rows r s f.1 i j q

pub Indexes-indexed :
    {K : Type 0} (key : JournalRow → Option K) (o : Option K) (row : JournalRow)
    (rows : List JournalRow) (index : List (K × ℕ))
    → key row ≡ o
    → Indexes key rows index
    → Indexes key (row ∷ rows) (indexed o row.id index)
Indexes-indexed key none row rows index k all e = (
  λ i. let (r, j, same, has) = (all e).0 i in (r, there j, same, has),
  λ (r, j, same, has). elim j [
    | here q ↦ absurd (cc (k, ap key q, has))
    | there l ↦ (all e).1 (r, l, same, has)
  ],
)
Indexes-indexed {K} key (some t) row rows index k all e = (
  λ i. elim (In-append_inv index ((t, row.id) ∷ []) i) [
    | inl j ↦ let (r, l, same, has) = (all e).0 j in (r, there l, same, has)
    | inr (here q) ↦
        (row, here refl, ap (λ (z : K × ℕ). z.1) (sym q), k ∙ ap (λ (z : K × ℕ). some z.0) (sym q))
    | inr (there j) ↦ elim j [ ]
  ],
  λ (r, j, same, has). elim j [
    | here q ↦ In-append index ((t, row.id) ∷ []) (
        inr (
          here (
            ap₂ (λ (x : K) (n : ℕ). (x, n)) (some-injective (sym has ∙ ap key q ∙ k))
              (sym same ∙ ap (λ (z : JournalRow). z.id) q))))
    | there l ↦ In-append index ((t, row.id) ∷ []) (inl ((all e).1 (r, l, same, has)))
  ],
)

In-retain :
    (p : JournalRow → Bool) (rows : List JournalRow) (r : JournalRow)
    → In r rows
    → p r ≡ true
    → In r (retain p rows)
unfolding retain
In-retain p [] r i h = elim i [ ]
In-retain p (x ∷ rows) r (here e) h =
    let h' : p x ≡ true = subst (λ z. p z ≡ true) e h in rw h' (here e)
In-retain p (x ∷ rows) r (there i) h = elim (Bool-cases (p x)) [
  | inl e ↦ rw e (there (In-retain p rows r i h))
  | inr e ↦ rw e (In-retain p rows r i h)
]

retain-In :
    (p : JournalRow → Bool) (rows : List JournalRow) (r : JournalRow)
    → In r (retain p rows)
    → In r rows × (p r ≡ true)
unfolding retain
retain-In p [] r i = elim i [ ]
retain-In p (x ∷ rows) r i = elim (Bool-cases (p x)) [
  | inl e ↦ elim (rw e at i) [
    | here q ↦ (here q, ap p q ∙ e)
    | there j ↦ let (l, h) = retain-In p rows r j in (there l, h)
  ]
  | inr e ↦ let (l, h) = retain-In p rows r (rw e at i) in (there l, h)
]

pub Falling-retain :
    (p : JournalRow → Bool) (rows : List JournalRow) → Falling rows → Falling (retain p rows)
unfolding retain
Falling-retain p [] f = tt
Falling-retain p (x ∷ rows) f = elim (Bool-cases (p x)) [
  | inl e ↦ rw e (λ r i. f.0 r (retain-In p rows r i).0, Falling-retain p rows f.1)
  | inr e ↦ rw e (Falling-retain p rows f.1)
]

module _ {K : Type 0} (key : JournalRow → Option K) (has : JournalRow → K → Bool)
    (has_iff : (r : JournalRow) (k : K) → (has r k ≡ true) ↔ (key r ≡ some k)) where
  -- The entry is that of one of the rows.
  abbrev belongs : List JournalRow → K × ℕ → Bool
  belongs rows e = any (λ (r : JournalRow). r.id == e.1 && has r e.0) rows

  -- What is left of an index was there, and is the entry of none of the rows.
  unindex-In :
      (rows : List JournalRow) (index : List (K × ℕ)) (e : K × ℕ)
      → In e (unindex has rows index)
      → In e index × (belongs rows e ≡ false)
  unfolding unindex
  unindex-In rows [] e i = elim i [ ]
  unindex-In rows ((k, n) ∷ index) e i = elim (Bool-cases (belongs rows (k, n))) [
    | inl h ↦ let (j, q) = unindex-In rows index e (rw h at i) in (there j, q)
    | inr h ↦ elim (rw h at i) [
      | here q ↦ (here q, subst (λ z. belongs rows z ≡ false) (sym q) h)
      | there j ↦ let (l, q) = unindex-In rows index e j in (there l, q)
    ]
  ]

  In-unindex :
      (rows : List JournalRow) (index : List (K × ℕ)) (e : K × ℕ)
      → In e index
      → belongs rows e ≡ false
      → In e (unindex has rows index)
  unfolding unindex
  In-unindex rows [] e i h = elim i [ ]
  In-unindex rows ((k, n) ∷ index) e (here q) h =
      let h' : belongs rows (k, n) ≡ false = subst (λ z. belongs rows z ≡ false) q h in
      rw h' (here q)
  In-unindex rows ((k, n) ∷ index) e (there i) h = elim (Bool-cases (belongs rows (k, n))) [
    | inl g ↦ rw g (In-unindex rows index e i h)
    | inr g ↦ rw g (there (In-unindex rows index e i h))
  ]

  -- An entry belongs to a row that is due exactly where its row is due.
  belongs-In :
      (rows : List JournalRow) (e : K × ℕ) (r : JournalRow)
      → In r rows
      → r.id ≡ e.1
      → key r ≡ some e.0
      → belongs rows e ≡ true
  belongs-In rows e r i same k =
      In→any (λ (x : JournalRow). x.id == e.1 && has x e.0) rows i
        (ground (arith, same, (has_iff r e.0).1 k))

  In-belongs :
      (rows : List JournalRow) (e : K × ℕ)
      → belongs rows e ≡ true
      → (r : JournalRow) × In r rows × (r.id ≡ e.1)
  In-belongs rows e h =
      let (r, i, q) = any→In (λ (x : JournalRow). x.id == e.1 && has x e.0) rows h in
      (r, i, ground (arith, q))

  pub Indexes-unindex :
      (now : ℕ) (rows : List JournalRow) (index : List (K × ℕ))
      → Falling rows
      → Indexes key rows index
      → Indexes key
          (retain (λ r. not (is_due now r)) rows)
          (unindex has (retain (is_due now) rows) index)
  Indexes-unindex now rows index falling all e = (
    λ i.
        let (j, h) = unindex-In (retain (is_due now) rows) index e i in
        let (r, l, same, k) = (all e).0 j in
        (r, In-retain (λ x. not (is_due now x)) rows r l (not_due r l same k h), same, k),
    λ (r, i, same, k).
        let (l, kept) = retain-In (λ x. not (is_due now x)) rows r i in
        In-unindex (retain (is_due now) rows) index e ((all e).1 (r, l, same, k))
          (no_entry r l same kept),
  )
    where
      not_due :
          (r : JournalRow)
          → In r rows
          → r.id ≡ e.1
          → key r ≡ some e.0
          → belongs (retain (is_due now) rows) e ≡ false
          → not (is_due now r) ≡ true
      not_due r l same k h = elim (Bool-cases (is_due now r)) [
        | inr f ↦ rw f
        | inl f ↦
            let hit =
              belongs-In (retain (is_due now) rows) e r (In-retain (is_due now) rows r l f) same
                k in
            absurd (cc (h, hit))
      ]

      no_entry :
          (r : JournalRow)
          → In r rows
          → r.id ≡ e.1
          → not (is_due now r) ≡ true
          → belongs (retain (is_due now) rows) e ≡ false
      no_entry r l same kept = elim (Bool-cases (belongs (retain (is_due now) rows) e)) [
        | inr f ↦ f
        | inl f ↦
            let (s, i, same') = In-belongs (retain (is_due now) rows) e f in
            let (j, due) = retain-In (is_due now) rows s i in
            let one = same_row rows r s falling l j (same ∙ sym same') in
            absurd (ground (arith, ap (is_due now) one, due, kept))
      ]

pub has_number_iff : (o : Option ℕ) (n : ℕ) → (has_number o n ≡ true) ↔ (o ≡ some n)
has_number_iff none n = (λ h. cc h, λ h. cc h)
has_number_iff (some m) n = (
  λ h. let h' : (m == n) ≡ true = h in ap some (ground (arith, h')),
  λ h. let same = some-injective h in let goal : (m == n) ≡ true = ground (arith, same) in goal,
)

pub has_text_iff : (o : Option Text) (t : Text) → (has_text o t ≡ true) ↔ (o ≡ some t)
has_text_iff none t = (λ h. cc h, λ h. cc h)
has_text_iff (some s) t =
    (λ h. ap some ((text_eq_iff s t).0 h), λ h. (text_eq_iff s t).1 (some-injective h))
