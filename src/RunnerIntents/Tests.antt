-- ===== src/RunnerIntents/Tests.antt =====
-- A store with an open intent and one that has succeeded.
use konf.Shared.{
  ℕ, ◌≡◌, ◌≢◌, refl, false, List, [], ◌∷◌, Text, text, text_eq, text_eq_iff, null, lookup, insert,
  remove, In,
}
use konf.Process.{Actor, system}
use konf.RunnerIntents.{
  RunnerIntent, RunnerIntentStore, empty, new_intent, insert_intent, get, mark_terminal, succeeded,
  gc, victims, delete, list_unterminated, insert_by_time,
}
use konf.RunnerIntents.Listing.{Keyed}
use konf.RunnerIntents.Replay.{
  Op, inserts, marks, collects, step, run, run-replayed, run-not_replayed,
}
use konf.RunnerIntents.Keys.{insert-Keyed}

abbrev someone : Actor
someone = record { id = text "u"; role = system }

abbrev intent : Text → ℕ → RunnerIntent
intent id time = new_intent time id (text "report") null (text "konf:a") [] someone (text "s")

empty-Keyed : Keyed empty.intents
empty-Keyed = record { distinct = tt; named = λ e j. elim j [ ] }

abbrev ops : List Op
ops =
    inserts (intent (text "b") 2)
    ∷ marks (text "b") succeeded
    ∷ collects 9
    ∷ inserts (intent (text "c") 1)
    ∷ []

abbrev after : RunnerIntentStore
after = run ops (insert_intent (intent (text "a") 5) empty)

-- The open intents, the oldest first; the one that has succeeded is collected.
after_listed : list_unterminated after ≡ intent (text "c") 1 ∷ intent (text "a") 5 ∷ []
unfolding list_unterminated insert_by_time run step insert_intent mark_terminal get gc delete
    victims new_intent insert lookup remove text_eq
after_listed = refl

differ : (x y : Text) → text_eq x y ≡ false → x ≢ y
differ x y h e = absurd (cc (h, (text_eq_iff x y).1 e))

b_ne_a : text "b" ≢ text "a"
unfolding text_eq
b_ne_a = differ (text "b") (text "a") refl

c_ne_a : text "c" ≢ text "a"
unfolding text_eq
c_ne_a = differ (text "c") (text "a") refl

run-replayed_example :
    In
      (intent (text "a") 5)
      (list_unterminated (run ops (insert_intent (intent (text "a") 5) empty)))
unfolding new_intent
run-replayed_example =
    run-replayed ops empty (intent (text "a") 5) empty-Keyed refl
      (b_ne_a, (b_ne_a, (tt, (c_ne_a, tt))))

abbrev one : RunnerIntentStore
one = insert_intent (intent (text "a") 5) empty

one-Keyed : Keyed one.intents
unfolding insert_intent
one-Keyed = insert-Keyed (intent (text "a") 5) empty.intents empty-Keyed

run-not_replayed_example :
    ¬ In
      (intent (text "a") 5)
      (list_unterminated (run ops (mark_terminal (text "a") succeeded one)))
unfolding new_intent
run-not_replayed_example =
    run-not_replayed ops one succeeded (intent (text "a") 5) one-Keyed
      (b_ne_a, (b_ne_a, (tt, (c_ne_a, tt))))
