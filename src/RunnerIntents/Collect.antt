-- ===== src/RunnerIntents/Collect.antt =====
-- About the collection of old intents.
use konf.Shared.{
  ℕ, ◌≡◌, refl, subst, inl, inr, Bool, false, any, Option, none, some, List, [], ◌∷◌, if◌then◌else◌,
  arith, Bool-cases, Text, text_eq, text_eq_iff, text_eq_self, Table, lookup, remove, member,
  Distinct, lookup-remove,
}
use konf.RunnerIntents.{
  RunnerIntent, RunnerIntentStore, get, is_old, victims, remove_intents, delete, gc,
}
use konf.RunnerIntents.Listing.{keys, Keyed}

-- Whether the id is among those of the victims.
abbrev is_victim : Text → List (Text × Text) → Bool
is_victim j vs = any (λ (v : Text × Text). text_eq v.0 j) vs

lookup-remove_intents :
    (j : Text) (vs : List (Text × Text)) (t : Table RunnerIntent)
    → lookup j (remove_intents vs t) ≡ (if is_victim j vs then none else lookup j t)
unfolding remove_intents
lookup-remove_intents j [] t = refl
lookup-remove_intents j ((k, ns) ∷ vs) t =
    ground (arith, lookup-remove_intents j vs (remove k t), lookup-remove k j t)

abbrev pub old_at : (cutoff : ℕ) → Option RunnerIntent → Bool
old_at cutoff none = false
old_at cutoff (some i) = is_old cutoff i

absent : (k : Text) (t : Table RunnerIntent) → member k (keys t) ≡ false → lookup k t ≡ none
unfolding lookup member
absent k [] m = refl
absent k ((x, y) ∷ t) m =
    ground (arith, absent k t, text_eq_iff x k, text_eq_iff k x, text_eq_self k)

is_victim-victims :
    (cutoff : ℕ) (j : Text) (t : Table RunnerIntent)
    → Distinct (keys t)
    → is_victim j (victims cutoff t) ≡ old_at cutoff (lookup j t)
unfolding victims lookup
is_victim-victims cutoff j [] d = refl
is_victim-victims cutoff j ((x, y) ∷ t) d = elim (Bool-cases (text_eq x j)) [
  | inr e ↦ ground (arith, is_victim-victims cutoff j t d.1)
  | inl e ↦
      let gone : lookup j t ≡ none =
        absent j t (subst (λ z. member z (keys t) ≡ false) ((text_eq_iff x j).0 e) d.0) in
      ground (arith, is_victim-victims cutoff j t d.1, gone)
]

-- A collection removes exactly the intents that are terminal and were spawned before the cutoff, as
-- they were at its first transaction, and leaves every other as it is at the second.
pub get-gc :
    (cutoff : ℕ) (between : RunnerIntentStore → RunnerIntentStore) (self : RunnerIntentStore)
    (id : Text)
    → Keyed self.intents
    → get id (gc cutoff between self).0
      ≡ (if old_at cutoff (get id self) then none else get id (between self))
unfolding get gc delete
get-gc cutoff between self id keyed = ground (
  arith,
  lookup-remove_intents id (victims cutoff self.intents) (between self).intents,
  is_victim-victims cutoff id self.intents keyed.distinct,
)
