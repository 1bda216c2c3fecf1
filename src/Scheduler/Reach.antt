-- ===== src/Scheduler/Reach.antt =====
-- About all that can become of the tables.
use konf.Shared.{ℕ, ◌≡◌, refl, none, ℤ}
use konf.Scheduler.{
  Timer, TimerRecord, RedbScheduler, empty, lookup_id, insert_new, cancel, Surroundings,
  fire_and_reschedule, tick,
}
use konf.Scheduler.Tables.{Valid, AtMostAt, insert_new-Valid, cancel-Valid}
use konf.Scheduler.Fires.{fire-Valid, tick-Valid}

-- What the tables can become, from empty ones: new jobs are written under ids that are not in use,
-- jobs are cancelled, and ticks are made. A tick may also be taken apart, with other operations
-- between its firings: then a timer that it has collected is fired whose job has been cancelled or
-- is still where it was.
pub data Reach : RedbScheduler → Type 0 where
  starts : Reach empty
  writes :
      {s : RedbScheduler} (job : TimerRecord) (run_at : ℤ)
      → lookup_id job.job_id s.timers_by_id ≡ none
      → Reach s
      → Reach (insert_new job run_at s)
  cancels : {s : RedbScheduler} (id : ℕ) → Reach s → Reach (cancel id s).0
  ticks :
      {s : RedbScheduler} (world : Surroundings) (now : ℕ) → Reach s → Reach (tick world now s).0
  fires_one :
      {s : RedbScheduler} (world : Surroundings) (t : Timer)
      → AtMostAt t.fire_at (lookup_id t.job.job_id s.timers_by_id)
      → Reach s
      → Reach (fire_and_reschedule world t s).0

empty-Valid : Valid empty
unfolding lookup_id
empty-Valid = record { ordered = tt; indexed = λ id f. refl }

-- However writes of new jobs, cancellations, ticks and the firings of a tick follow each other, the
-- keys of the timers rise, so no two are equal, and there is a timer under a time and an id exactly
-- if the index has this time for the id: a job has one timer at most, and no timer is left behind.
pub Reach-Valid : {s : RedbScheduler} → Reach s → Valid s
Reach-Valid starts = empty-Valid
Reach-Valid (writes {s} job run_at fresh r) = insert_new-Valid job run_at s fresh (Reach-Valid r)
Reach-Valid (cancels {s} id r) = cancel-Valid id s (Reach-Valid r)
Reach-Valid (ticks {s} world now r) = tick-Valid world now s (Reach-Valid r)
Reach-Valid (fires_one {s} world t known r) = fire-Valid world t s known (Reach-Valid r)
