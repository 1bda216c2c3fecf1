-- ===== src/Scheduler/Fires.antt =====
-- About a tick of the scheduler.
use konf.Shared.{
  Bool, ◌++◌, ◌==◌, ap₂, ◌∙◌, ℕ, ◌≡◌, ◌≢◌, refl, sym, ap, subst, inl, inr, true, false, ◌&&◌,
  Option, some, List, [], ◌∷◌, if◌then◌else◌, arith, Bool-cases, In, here, there,
}
use konf.EventBus.{RunEvent, schedule_fired, schedule_failed}
use konf.Scheduler.{
  Timer, RedbScheduler, lookup_id, is_due, due_timers, collect_due, Surroundings, tool_name,
  next_at, fire_and_reschedule, fire_all, tick,
}
use konf.Scheduler.Tables.{Valid, AtMostAt, reschedule-Valid, timer-lookup_id}
use konf.Scheduler.Firing.{
  next_ms, fires, lookup_id-fire, DistinctJobs, fire_all-others, fire_all-job, In-due_timers,
  due_timers-In, due_timers-DistinctJobs,
}

abbrev pub event_of : Surroundings → Timer → RunEvent
event_of world t = schedule_fired t.job.job_id t.job.workflow t.job.namespace (world.fired_at t.job)

pub fire-event :
    (world : Surroundings) (t : Timer) (self : RedbScheduler)
    → fires world t ≡ true
    → (fire_and_reschedule world t self).1 ≡ event_of world t ∷ []
unfolding fire_and_reschedule
fire-event world t self f = ground arith

-- The announcements about a job.
abbrev is_about : ℕ → RunEvent → Bool
is_about id (schedule_fired job_id workflow namespace fired_at) = job_id == id
is_about id (schedule_failed job_id workflow reason) = job_id == id
is_about id _ = false

unfoldable pub about : ℕ → List RunEvent → List RunEvent
about id [] = []
about id (e ∷ es) = let rest = about id es in if is_about id e then e ∷ rest else rest

about-append : (id : ℕ) (es fs : List RunEvent) → about id (es ++ fs) ≡ about id es ++ about id fs
unfolding about
about-append id [] fs = refl
about-append id (e ∷ es) fs = elim (Bool-cases (is_about id e)) [
  | inl h ↦ rw (h, about-append id es fs) refl
  | inr h ↦ rw (h, about-append id es fs) refl
]

-- The firing of another job is not about this one.
fire-about_other :
    (world : Surroundings) (t : Timer) (id : ℕ) (self : RedbScheduler)
    → t.job.job_id ≢ id
    → about id (fire_and_reschedule world t self).1 ≡ []
unfolding fire_and_reschedule about
fire-about_other world t id self other = ground arith

fire-about_self :
    (world : Surroundings) (t : Timer) (self : RedbScheduler)
    → fires world t ≡ true
    → about t.job.job_id (fire_and_reschedule world t self).1 ≡ event_of world t ∷ []
unfolding about
fire-about_self world t self f = rw (fire-event world t self f) (ground arith)

fire_all-about_others :
    (world : Surroundings) (due : List Timer) (id : ℕ) (self : RedbScheduler)
    → ((u : Timer) → In u due → u.job.job_id ≢ id)
    → about id (fire_all world due self).1 ≡ []
unfolding fire_all
fire_all-about_others world [] id self others = unfold about in refl
fire_all-about_others world (x ∷ due) id self others =
    let (next, events) = fire_and_reschedule world x self in
    about-append id events (fire_all world due next).1
    ∙ ap₂ (◌++◌) (fire-about_other world x id self (others x (here refl)))
        (fire_all-about_others world due id next (λ u i. others u (there i)))

-- A timer among those that are fired is announced once.
fire_all-about :
    (world : Surroundings) (due : List Timer) (t : Timer) (self : RedbScheduler)
    → DistinctJobs due
    → In t due
    → fires world t ≡ true
    → about t.job.job_id (fire_all world due self).1 ≡ event_of world t ∷ []
unfolding fire_all
fire_all-about world [] t self d i f = elim i [ ]
fire_all-about world (x ∷ due) t self d (there i) f =
    let (next, events) = fire_and_reschedule world x self in
    about-append t.job.job_id events (fire_all world due next).1
    ∙ ap₂ (◌++◌) (fire-about_other world x t.job.job_id self (λ same. d.0 t i (sym same)))
        (fire_all-about world due t next d.1 i f)
fire_all-about world (x ∷ due) t self d (here q) f =
    subst
      (λ (z : Timer). about z.job.job_id (fire_all world (x ∷ due) self).1 ≡ event_of world z ∷ [])
      (sym q)
      (let (next, events) = fire_and_reschedule world x self in
        about-append x.job.job_id events (fire_all world due next).1
        ∙ ap₂ (◌++◌) (fire-about_self world x self (subst (λ z. fires world z ≡ true) q f))
            (fire_all-about_others world due x.job.job_id next d.0))

pub fire-Valid :
    (world : Surroundings) (t : Timer) (self : RedbScheduler)
    → AtMostAt t.fire_at (lookup_id t.job.job_id self.timers_by_id)
    → Valid self
    → Valid (fire_and_reschedule world t self).0
unfolding fire_and_reschedule
fire-Valid world t self known v = elim (Bool-cases world.alive) [
  | inr e ↦ rw e v
  | inl e ↦ elim (Bool-cases (world.registered (tool_name t.job))) [
    | inr k ↦ rw (e, k) v
    | inl k ↦ rw (e, k) (reschedule-Valid t.fire_at t.job (next_at world t.job) self known v)
  ]
]

fire_all-Valid :
    (world : Surroundings) (due : List Timer) (self : RedbScheduler)
    → DistinctJobs due
    → ((t : Timer) → In t due → AtMostAt t.fire_at (lookup_id t.job.job_id self.timers_by_id))
    → Valid self
    → Valid (fire_all world due self).0
unfolding fire_all
fire_all-Valid world [] self d known v = v
fire_all-Valid world (x ∷ due) self d known v =
    fire_all-Valid world due (fire_and_reschedule world x self).0 d.1
      (λ t i. subst (AtMostAt t.fire_at) (same t i) (known t (there i)))
      (fire-Valid world x self (known x (here refl)) v)
  where
    same :
        (t : Timer)
        → In t due
        → lookup_id t.job.job_id self.timers_by_id
          ≡ lookup_id t.job.job_id (fire_and_reschedule world x self).0.timers_by_id
    same t i = ground (arith, lookup_id-fire world x t.job.job_id self, d.0 t i)

pub tick-Valid :
    (world : Surroundings) (now : ℕ) (self : RedbScheduler)
    → Valid self
    → Valid (tick world now self).0
unfolding tick collect_due
tick-Valid world now self v =
    fire_all-Valid world (due_timers now self.timers) self
      (due_timers-DistinctJobs now self self.timers v (λ t i. i) v.ordered)
      (λ t i.
        subst (AtMostAt t.fire_at)
          (sym (timer-lookup_id self t v (In-due_timers now self.timers t i).0)) refl)
      v

-- What is left for a timer after a tick: its next time if it fired, and else its time.
abbrev pub time_after : Surroundings → (now : ℕ) → Timer → Option ℕ
time_after world now t =
    if is_due now t && fires world t then next_ms (next_at world t.job) else some t.fire_at

tick-time :
    (world : Surroundings) (now : ℕ) (self : RedbScheduler) (t : Timer)
    → Valid self
    → In t self.timers
    → lookup_id t.job.job_id (tick world now self).0.timers_by_id ≡ time_after world now t
unfolding tick collect_due
tick-time world now self t v i =
    let at = timer-lookup_id self t v i in
    let distinct = due_timers-DistinctJobs now self self.timers v (λ u j. j) v.ordered in
    elim (Bool-cases (is_due now t)) [
      | inl e ↦ ground (
        arith,
        fire_all-job world (due_timers now self.timers) t self distinct
            (due_timers-In now self.timers t i e),
        at,
      )
      | inr e ↦ ground (
        arith,
        fire_all-others world (due_timers now self.timers) t.job.job_id self (others e),
        at,
      )
    ]
  where
    -- A due timer of the same job would be this one.
    others :
        is_due now t ≡ false
        → (u : Timer) → In u (due_timers now self.timers)
        → u.job.job_id ≢ t.job.job_id
    others e u j same =
        let (k, d) = In-due_timers now self.timers u j in
        let at = timer-lookup_id self t v i in
        let at' = timer-lookup_id self u v k in
        absurd (ground (arith, ap (λ z. lookup_id z self.timers_by_id) same))

-- Where the tables agree, a tick fires every timer that is due and whose workflow can be called
-- exactly once: what it announces about the timer's job is this one firing, and the timer is then
-- at the next time that its mode gives, or gone if there is none.
pub tick-fires :
    (world : Surroundings) (now : ℕ) (self : RedbScheduler) (t : Timer)
    → Valid self
    → In t self.timers
    → is_due now t ≡ true
    → fires world t ≡ true
    → (about t.job.job_id (tick world now self).1 ≡ event_of world t ∷ [])
      × (lookup_id t.job.job_id (tick world now self).0.timers_by_id
          ≡ next_ms (next_at world t.job))
tick-fires world now self t v i due f = (
  unfold tick collect_due in
      fire_all-about world (due_timers now self.timers) t self
        (due_timers-DistinctJobs now self self.timers v (λ u j. j) v.ordered)
        (due_timers-In now self.timers t i due) f,
  ground (arith, tick-time world now self t v i),
)

-- A tick leaves every timer in its place that is not due or whose workflow is missing.
pub tick-keeps :
    (world : Surroundings) (now : ℕ) (self : RedbScheduler) (t : Timer)
    → Valid self
    → In t self.timers
    → (is_due now t && fires world t) ≡ false
    → lookup_id t.job.job_id (tick world now self).0.timers_by_id ≡ some t.fire_at
tick-keeps world now self t v i not_now = ground (arith, tick-time world now self t v i)
