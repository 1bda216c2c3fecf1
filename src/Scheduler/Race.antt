-- ===== src/Scheduler/Race.antt =====
-- About a cancellation between the two halves of a tick.
use konf.Shared.{ℕ, ◌+◌, ◌≡◌, refl, ap, true, Option, none, some, [], ◌∷◌, arith, In}
use konf.Scheduler.{
  Timer, RedbScheduler, fixed, lookup_id, cancelled_at, cancel, next_at, next_fire_after,
  Surroundings, fire_and_reschedule,
}
use konf.Scheduler.Tables.{Valid, timer-lookup_id, lookup_id-remove_id}
use konf.Scheduler.Fires.{event_of, fire-event}
use konf.Scheduler.Firing.{fires, next_ms, lookup_id-fire}

cancelled :
    (id : ℕ) (self : RedbScheduler) (o : Option ℕ) (f : ℕ)
    → o ≡ some f
    → ((cancelled_at id self o).1 ≡ true)
      × (lookup_id id (cancelled_at id self o).0.timers_by_id ≡ none)
cancelled id self none f q = cc
cancelled id self (some g) f q = (refl, ground (arith, lookup_id-remove_id id id self.timers_by_id))

-- Where the tables agree and the workflow can be called, a timer with a fixed delay that is
-- cancelled after a tick has collected it, and before the tick fires it, is fired all the same and
-- comes back: the cancellation reports success and the index forgets the job, and after the firing
-- it is in the index again, at its next time.
pub cancel-fire :
    (world : Surroundings) (self : RedbScheduler) (t : Timer) (delay_ms : ℕ)
    → Valid self
    → In t self.timers
    → t.job.mode ≡ fixed delay_ms
    → fires world t ≡ true
    → let (s, existed) = cancel t.job.job_id self in
      let (after, events) = fire_and_reschedule world t s in
      (existed ≡ true)
      × (lookup_id t.job.job_id s.timers_by_id ≡ none)
      × (events ≡ event_of world t ∷ [])
      × (lookup_id t.job.job_id after.timers_by_id ≡ some (world.now t.job + delay_ms))
unfolding cancel next_fire_after
cancel-fire world self t delay_ms v i mode f =
    let id = t.job.job_id in
    let o = lookup_id id self.timers_by_id in
    let s = cancelled_at id self o in
    let (existed, forgotten) = cancelled id self o t.fire_at (timer-lookup_id self t v i) in
    let next : next_ms (next_at world t.job) ≡ some (world.now t.job + delay_ms) =
      ap (λ m. next_ms (next_fire_after world.library (world.now t.job) m)) mode in
    (
      existed,
      forgotten,
      fire-event world t s.0 f,
      ground (arith, lookup_id-fire world t id s.0, next),
    )
