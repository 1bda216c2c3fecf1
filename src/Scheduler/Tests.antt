-- ===== src/Scheduler/Tests.antt =====
-- A scheduler with a job that repeats and one that does not.
use konf.Shared.{
  ℕ, ◌+◌, ◌≡◌, refl, true, none, some, [], ◌∷◌, Text, text, null, err, pos, In, here, starts_with,
}
use konf.Process.{system}
use konf.Scheduler.{
  Timer, TimerRecord, RedbScheduler, once, fixed, empty, lookup_id, remove_id, insert_timer,
  insert_new, validate_record, schedule_once, schedule_fixed, cancel, list, len, is_due, due_timers,
  collect_due, Surroundings, next_at, next_fire_after, reschedule, fire_and_reschedule, fire_all,
  tick,
}
use konf.Scheduler.Tables.{Valid}
use konf.Scheduler.Fires.{about, event_of, tick-fires}
use konf.Scheduler.Firing.{next_ms}
use konf.Scheduler.Reach.{Reach, starts, writes, cancels, ticks, Reach-Valid}
use konf.Scheduler.Race.{cancel-fire}

abbrev job : ℕ → TimerRecord
job id = record {
  job_id = id;
  workflow = text "report";
  input = null;
  namespace = text "konf:a";
  capabilities = text "*" ∷ [];
  actor = record { id = text "u"; role = system };
  mode = once;
  created_at = 0;
  created_by = text "u";
}

abbrev repeating : TimerRecord
repeating = record (job 1) { mode = fixed 5_000 }

abbrev later_job : TimerRecord
later_job = record (job 2) { mode = once }

abbrev print : ℕ → Text
print n = []

abbrev two : RedbScheduler
two = insert_new later_job (pos 90_000) (insert_new repeating (pos 6_000) empty)

two_scheduled :
    (schedule_once (job 2) (pos 90_000) (schedule_fixed print 1_000 (job 1) 5_000 empty).0).0 ≡ two
unfolding schedule_once schedule_fixed validate_record
two_scheduled = refl

too_short : (schedule_fixed print 1_000 (job 1) 999 empty).0 ≡ empty
unfolding schedule_fixed
too_short = refl

abbrev world : Surroundings
world = record {
  alive = true;
  registered = λ name. true;
  fired_at = λ j. 7_000;
  now = λ j. 7_000;
  library = λ expr now. err (text "no cron");
}

two-Reach : Reach two
unfolding lookup_id remove_id insert_new
two-Reach = writes later_job (pos 90_000) refl (writes repeating (pos 6_000) refl starts)

abbrev first_timer : Timer
first_timer = record { fire_at = 6_000; job = repeating }

first_In : In first_timer two.timers
unfolding insert_new insert_timer
first_In = here refl

first_due : is_due 7_000 first_timer ≡ true
first_due = refl

after_tick : (tick world 7_000 two).0.timers_by_id ≡ (1, 12_000) ∷ (2, 90_000) ∷ []
unfolding tick collect_due due_timers fire_all fire_and_reschedule reschedule next_fire_after
    insert_new remove_id insert_timer
after_tick = refl

Reach-Valid_example : Valid (cancel 2 (tick world 7_000 two).0).0
Reach-Valid_example = Reach-Valid (cancels 2 (ticks world 7_000 two-Reach))

tick-fires_example :
    (about 1 (tick world 7_000 two).1 ≡ event_of world first_timer ∷ [])
    × (lookup_id 1 (tick world 7_000 two).0.timers_by_id ≡ next_ms (next_at world repeating))
tick-fires_example =
    tick-fires world 7_000 two first_timer (Reach-Valid two-Reach) first_In first_due refl

cancel-fire_example :
    let (s, existed) = cancel 1 two in
    let (after, events) = fire_and_reschedule world first_timer s in
    (existed ≡ true)
    × (lookup_id 1 s.timers_by_id ≡ none)
    × (events ≡ event_of world first_timer ∷ [])
    × (lookup_id 1 after.timers_by_id ≡ some (7_000 + 5_000))
cancel-fire_example =
    cancel-fire world two first_timer 5_000 (Reach-Valid two-Reach) first_In refl refl

listed : (len two ≡ 2) × (list (some (text "other")) two ≡ [])
unfolding len list insert_new insert_timer starts_with
listed = (refl, refl)
