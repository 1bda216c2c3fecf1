-- ===== src/RunnerIntents/Keys.antt =====
-- About the keys of the table of intents: each is there once, and is the id of its intent.
use konf.Shared.{
  ◌≡◌, refl, sym, ap, ◌∙◌, subst, ◌⊎◌, inl, inr, false, List, [], ◌∷◌, arith, Bool-cases, Text,
  text_eq, text_eq_iff, Table, insert, remove, In, here, there, member, Distinct,
}
use konf.RunnerIntents.{RunnerIntent, remove_intents}
use konf.RunnerIntents.Listing.{keys, Keyed}

In-insert :
    (k : Text) (i : RunnerIntent) (t : Table RunnerIntent) (e : Text × RunnerIntent)
    → In e (insert k i t)
    → (e ≡ (k, i)) ⊎ In e t
unfolding insert
In-insert k i [] e (here q) = inl q
In-insert k i [] e (there j) = inr j
In-insert k i ((x, y) ∷ t) e j = elim (Bool-cases (text_eq x k)) [
  | inl h ↦ elim (rw h at j) [ here q ↦ inl q | there l ↦ inr (there l) ]
  | inr h ↦ elim (rw h at j) [
    | here q ↦ inr (here q)
    | there l ↦ elim (In-insert k i t e l) [ inl q ↦ inl q | inr m ↦ inr (there m) ]
  ]
]

member-insert :
    (k j : Text) (i : RunnerIntent) (t : Table RunnerIntent)
    → text_eq j k ≡ false
    → member j (keys t) ≡ false
    → member j (keys (insert k i t)) ≡ false
unfolding member insert
member-insert k j i [] h m = ground arith
member-insert k j i ((x, y) ∷ t) h m = elim (Bool-cases (text_eq x k)) [
  | inl e ↦ rw e (ground arith)
  | inr e ↦ let rest = member-insert k j i t h (ground arith) in rw e (ground arith)
]

insert-Distinct :
    (k : Text) (i : RunnerIntent) (t : Table RunnerIntent)
    → Distinct (keys t)
    → Distinct (keys (insert k i t))
unfolding insert
insert-Distinct k i [] d = (unfold member in refl, tt)
insert-Distinct k i ((x, y) ∷ t) d = elim (Bool-cases (text_eq x k)) [
  | inl e ↦ rw e (subst (λ z. member z (keys t) ≡ false) ((text_eq_iff x k).0 e) d.0, d.1)
  | inr e ↦ rw e (member-insert k x i t e d.0, insert-Distinct k i t d.1)
]

pub insert-Keyed :
    (i : RunnerIntent) (t : Table RunnerIntent) → Keyed t → Keyed (insert i.run_id i t)
insert-Keyed i t keyed = record {
  distinct = insert-Distinct i.run_id i t keyed.distinct;
  named = λ e j. elim (In-insert i.run_id i t e j) [
    | inl q ↦
        ap (λ (z : Text × RunnerIntent). z.0) q
        ∙ sym (ap (λ (z : Text × RunnerIntent). z.1.run_id) q)
    | inr k ↦ keyed.named e k
  ];
}

In-remove :
    (k : Text) (t : Table RunnerIntent) (e : Text × RunnerIntent) → In e (remove k t) → In e t
unfolding remove
In-remove k [] e j = j
In-remove k ((x, y) ∷ t) e j = elim (Bool-cases (text_eq x k)) [
  | inl h ↦ there (In-remove k t e (rw h at j))
  | inr h ↦ elim (rw h at j) [ here q ↦ here q | there l ↦ there (In-remove k t e l) ]
]

member-remove :
    (k j : Text) (t : Table RunnerIntent)
    → member j (keys t) ≡ false
    → member j (keys (remove k t)) ≡ false
unfolding member remove
member-remove k j [] m = refl
member-remove k j ((x, y) ∷ t) m = elim (Bool-cases (text_eq x k)) [
  | inl e ↦ rw e (member-remove k j t (ground arith))
  | inr e ↦ let rest = member-remove k j t (ground arith) in rw e (ground arith)
]

remove-Distinct :
    (k : Text) (t : Table RunnerIntent) → Distinct (keys t) → Distinct (keys (remove k t))
unfolding remove
remove-Distinct k [] d = tt
remove-Distinct k ((x, y) ∷ t) d = elim (Bool-cases (text_eq x k)) [
  | inl e ↦ rw e (remove-Distinct k t d.1)
  | inr e ↦ rw e (member-remove k x t d.0, remove-Distinct k t d.1)
]

pub remove_intents-Keyed :
    (vs : List (Text × Text)) (t : Table RunnerIntent) → Keyed t → Keyed (remove_intents vs t)
unfolding remove_intents
remove_intents-Keyed [] t keyed = keyed
remove_intents-Keyed ((k, ns) ∷ vs) t keyed = remove_intents-Keyed vs (remove k t) (record {
  distinct = remove-Distinct k t keyed.distinct;
  named = λ e j. keyed.named e (In-remove k t e j);
})
