-- ===== src/RunnerIntents/Listing.antt =====
-- About the sets of intents that are listed.
use konf.Shared.{
  ◌≡◌, refl, sym, ap, subst, ◌↔◌, ◌⊎◌, inl, inr, Bool, true, false, not, Option, none, some, List,
  [], ◌∷◌, map, ltb, is_some, arith, Bool-cases, Text, text_eq, text_eq_iff, Table, lookup, In,
  here, there, member_iff, Distinct,
}
use konf.RunnerIntents.{
  RunnerIntent, RunnerIntentStore, get, TerminalStatus, insert_by_time, sort_by_time, select,
  is_unterminated, list_unterminated,
}

abbrev pub keys : Table RunnerIntent → List Text
keys t = map (λ (e : Text × RunnerIntent). e.0) t

-- A table with one entry to a key, which is the id of its intent.
pub record Keyed (t : Table RunnerIntent) : Type 0 where
  pub distinct : Distinct (keys t)
  pub named : (e : Text × RunnerIntent) → In e t → e.0 ≡ e.1.run_id

pub lookup-In :
    (k : Text) (t : Table RunnerIntent) {i : RunnerIntent} → lookup k t ≡ some i → In (k, i) t
unfolding lookup
lookup-In k [] h = cc
lookup-In k ((j, x) ∷ t) {i} h = elim (Bool-cases (text_eq j k)) [
  | inl e ↦
      let same : x ≡ i = ground arith in here (λ p. (sym ((text_eq_iff j k).0 e) p, sym same p))
  | inr e ↦ there (lookup-In k t (ground arith))
]

In-keys : (k : Text) (i : RunnerIntent) (t : Table RunnerIntent) → In (k, i) t → In k (keys t)
In-keys k i [] j = elim j [ ]
In-keys k i (e ∷ t) (here q) = here (ap (λ (z : Text × RunnerIntent). z.0) q)
In-keys k i (e ∷ t) (there j) = there (In-keys k i t j)

In-lookup :
    (k : Text) (i : RunnerIntent) (t : Table RunnerIntent)
    → Distinct (keys t)
    → In (k, i) t
    → lookup k t ≡ some i
unfolding lookup
In-lookup k i [] d j = elim j [ ]
In-lookup k i ((x, y) ∷ t) d (here q) =
    let same_key : k ≡ x = ap (λ (z : Text × RunnerIntent). z.0) q in
    let same : i ≡ y = ap (λ (z : Text × RunnerIntent). z.1) q in
    ground (arith, (text_eq_iff x k).1 (sym same_key))
In-lookup k i ((x, y) ∷ t) d (there j) =
    let fresh : text_eq x k ≡ false = elim (Bool-cases (text_eq x k)) [
      | inr e ↦ e
      | inl e ↦ absurd (
          cc (
            d.0,
            (member_iff x (keys t)).1
                (subst (λ z. In z (keys t)) (sym ((text_eq_iff x k).0 e)) (In-keys k i t j)),
          ))
    ] in
    ground (arith, In-lookup k i t d.1 j)

In-select :
    (p : RunnerIntent → Bool) (t : Table RunnerIntent) (i : RunnerIntent)
    → In i (select p t)
    → (k : Text) × In (k, i) t × (p i ≡ true)
unfolding select
In-select p [] i j = elim j [ ]
In-select p ((k, x) ∷ t) i j = elim (Bool-cases (p x)) [
  | inr e ↦ let (l, m, q) = In-select p t i (rw e at j) in (l, there m, q)
  | inl e ↦ elim (rw e at j) [
    | here q ↦ (k, here (λ r. (k, q r)), subst (λ z. p z ≡ true) (sym q) e)
    | there m ↦ let (l, n, q) = In-select p t i m in (l, there n, q)
  ]
]

select-In :
    (p : RunnerIntent → Bool) (t : Table RunnerIntent) (k : Text) (i : RunnerIntent)
    → In (k, i) t
    → p i ≡ true
    → In i (select p t)
unfolding select
select-In p [] k i j h = elim j [ ]
select-In p ((l, x) ∷ t) k i (here q) h =
    let same : i ≡ x = ap (λ (z : Text × RunnerIntent). z.1) q in
    let e : p x ≡ true = subst (λ z. p z ≡ true) same h in rw e (here same)
select-In p ((l, x) ∷ t) k i (there j) h = elim (Bool-cases (p x)) [
  | inl e ↦ rw e (there (select-In p t k i j h))
  | inr e ↦ rw e (select-In p t k i j h)
]

In-insert_by_time :
    (i : RunnerIntent) (xs : List RunnerIntent) (x : RunnerIntent)
    → In x (insert_by_time i xs) ↔ ((x ≡ i) ⊎ In x xs)
unfolding insert_by_time
In-insert_by_time i [] x = (
  λ j. elim j [ here q ↦ inl q | there k ↦ inr k ],
  λ h. elim h [ inl q ↦ here q | inr k ↦ there k ],
)
In-insert_by_time i (y ∷ ys) x = elim (Bool-cases (ltb y.spawned_at i.spawned_at)) [
  | inr e ↦ rw e (
    λ j. elim j [ here q ↦ inl q | there k ↦ inr k ],
    λ h. elim h [ inl q ↦ here q | inr k ↦ there k ],
  )
  | inl e ↦
      let ih = In-insert_by_time i ys x in
      rw e (
        λ j. elim j [
          | here q ↦ inr (here q)
          | there k ↦ elim (ih.0 k) [ inl q ↦ inl q | inr l ↦ inr (there l) ]
        ],
        λ h. elim h [
          | inl q ↦ there (ih.1 (inl q))
          | inr (here q) ↦ here q
          | inr (there k) ↦ there (ih.1 (inr k))
        ],
      )
]

In-sort_by_time : (xs : List RunnerIntent) (x : RunnerIntent) → In x (sort_by_time xs) ↔ In x xs
unfolding sort_by_time
In-sort_by_time [] x = (λ j. j, λ j. j)
In-sort_by_time (i ∷ xs) x =
    let ih = In-sort_by_time xs x in
    let step = In-insert_by_time i (sort_by_time xs) x in
    (
      λ j. elim (step.0 j) [ inl q ↦ here q | inr k ↦ there (ih.0 k) ],
      λ j. step.1 (elim j [ here q ↦ inl q | there k ↦ inr (ih.1 k) ]),
    )

unterminated_iff : (i : RunnerIntent) → (is_unterminated i ≡ true) ↔ (i.terminal ≡ none)
unterminated_iff i = by_terminal i.terminal
  where
    by_terminal : (o : Option TerminalStatus) → (not (is_some o) ≡ true) ↔ (o ≡ none)
    by_terminal none = (λ h. refl, λ h. refl)
    by_terminal (some s) = (λ h. absurd (cc h), λ h. absurd (cc h))

-- The replay set holds exactly the intents that are stored under their id and are not terminal.
pub list_unterminated_iff :
    (self : RunnerIntentStore) (i : RunnerIntent)
    → Keyed self.intents
    → In i (list_unterminated self) ↔ ((get i.run_id self ≡ some i) × (i.terminal ≡ none))
unfolding list_unterminated get
list_unterminated_iff self i keyed = (
  λ j.
      let listed = (In-sort_by_time (select is_unterminated self.intents) i).0 j in
      let (k, m, p) = In-select is_unterminated self.intents i listed in
      let name : k ≡ i.run_id = keyed.named (k, i) m in
      (
        In-lookup i.run_id i self.intents keyed.distinct
            (subst (λ z. In (z, i) self.intents) name m),
        (unterminated_iff i).0 p,
      ),
  λ (found, open_end). (In-sort_by_time (select is_unterminated self.intents) i).1 (
      select-In is_unterminated self.intents i.run_id i (lookup-In i.run_id self.intents found)
        ((unterminated_iff i).1 open_end)),
)
