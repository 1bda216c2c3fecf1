-- ===== src/Scheduler/Firing.antt =====
-- About the firings of a tick, one after the other.
use konf.Shared.{
  ℕ, ◌≡◌, ◌≢◌, refl, sym, ap, subst, inl, inr, Bool, true, ◌&&◌, Option, none, some, List, [], ◌∷◌,
  if◌then◌else◌, ◌==◌, arith, Bool-cases, In, here, there, ℤ,
}
use konf.Scheduler.{
  Timer, TimerRecord, RedbScheduler, is_before, lookup_id, to_millis, is_due, due_timers,
  reschedule, Surroundings, tool_name, next_at, fire_and_reschedule, fire_all,
}
use konf.Scheduler.Tables.{
  Ordered, Valid, lookup_id-remove_id, lookup_id-insert_id, timer-lookup_id,
}

-- The next time, as it is stored.
abbrev pub next_ms : Option ℤ → Option ℕ
next_ms none = none
next_ms (some run_at) = some (to_millis run_at)

-- The job's workflow can be called.
abbrev pub fires : Surroundings → Timer → Bool
fires world t = world.alive && world.registered (tool_name t.job)

lookup_id-reschedule :
    (i old : ℕ) (job : TimerRecord) (next : Option ℤ) (self : RedbScheduler)
    → lookup_id i (reschedule old job next self).timers_by_id
      ≡ (if job.job_id == i then next_ms next else lookup_id i self.timers_by_id)
unfolding reschedule
lookup_id-reschedule i old job none self = lookup_id-remove_id i job.job_id self.timers_by_id
lookup_id-reschedule i old job (some run_at) self =
    lookup_id-insert_id i job.job_id (to_millis run_at) self.timers_by_id

pub lookup_id-fire :
    (world : Surroundings) (t : Timer) (i : ℕ) (self : RedbScheduler)
    → lookup_id i (fire_and_reschedule world t self).0.timers_by_id ≡ (
        if fires world t && (t.job.job_id == i)
        then next_ms (next_at world t.job)
        else lookup_id i self.timers_by_id)
unfolding fire_and_reschedule
lookup_id-fire world t i self =
    ground (arith, lookup_id-reschedule i t.fire_at t.job (next_at world t.job) self)

-- No two timers are of one job.
abbrev pub DistinctJobs : List Timer → Type 0
DistinctJobs [] = Unit {0}
DistinctJobs (t ∷ ts) = ((u : Timer) → In u ts → u.job.job_id ≢ t.job.job_id) × DistinctJobs ts

-- The timers of other jobs leave a job as it is.
pub fire_all-others :
    (world : Surroundings) (due : List Timer) (i : ℕ) (self : RedbScheduler)
    → ((u : Timer) → In u due → u.job.job_id ≢ i)
    → lookup_id i (fire_all world due self).0.timers_by_id ≡ lookup_id i self.timers_by_id
unfolding fire_all
fire_all-others world [] i self others = refl
fire_all-others world (t ∷ due) i self others = ground (
  arith,
  fire_all-others world due i (fire_and_reschedule world t self).0 (λ u j. others u (there j)),
  lookup_id-fire world t i self,
  others t (here refl),
)

pub fire_all-job :
    (world : Surroundings) (due : List Timer) (t : Timer) (self : RedbScheduler)
    → DistinctJobs due
    → In t due
    → lookup_id t.job.job_id (fire_all world due self).0.timers_by_id ≡ (
        if fires world t
        then next_ms (next_at world t.job)
        else lookup_id t.job.job_id self.timers_by_id)
unfolding fire_all
fire_all-job world [] t self d i = elim i [ ]
fire_all-job world (x ∷ due) t self d (there i) = ground (
  arith,
  fire_all-job world due t (fire_and_reschedule world x self).0 d.1 i,
  lookup_id-fire world x t.job.job_id self,
  d.0 t i,
)
fire_all-job world (x ∷ due) t self d (here q) =
    subst
      (λ (z : Timer). lookup_id z.job.job_id (fire_all world (x ∷ due) self).0.timers_by_id ≡ (
        if fires world z
        then next_ms (next_at world z.job)
        else lookup_id z.job.job_id self.timers_by_id))
      (sym q)
      (ground (
        arith,
        fire_all-others world due x.job.job_id (fire_and_reschedule world x self).0 d.0,
        lookup_id-fire world x x.job.job_id self,
      ))

pub In-due_timers :
    (now : ℕ) (ts : List Timer) (t : Timer)
    → In t (due_timers now ts)
    → In t ts × (is_due now t ≡ true)
unfolding due_timers
In-due_timers now [] t i = elim i [ ]
In-due_timers now (x ∷ ts) t i = elim (Bool-cases (is_due now x)) [
  | inl e ↦ elim (rw e at i) [
    | here q ↦ (here q, subst (λ z. is_due now z ≡ true) (sym q) e)
    | there j ↦ let (k, d) = In-due_timers now ts t j in (there k, d)
  ]
  | inr e ↦ let (k, d) = In-due_timers now ts t (rw e at i) in (there k, d)
]

pub due_timers-In :
    (now : ℕ) (ts : List Timer) (t : Timer)
    → In t ts
    → is_due now t ≡ true
    → In t (due_timers now ts)
unfolding due_timers
due_timers-In now [] t i d = elim i [ ]
due_timers-In now (x ∷ ts) t (here q) d =
    let e : is_due now x ≡ true = subst (λ z. is_due now z ≡ true) q d in rw e (here q)
due_timers-In now (x ∷ ts) t (there i) d = elim (Bool-cases (is_due now x)) [
  | inl e ↦ rw e (there (due_timers-In now ts t i d))
  | inr e ↦ rw e (due_timers-In now ts t i d)
]

-- Two timers of one job would have one key.
other_job :
    (self : RedbScheduler) (t u : Timer)
    → Valid self
    → In t self.timers
    → In u self.timers
    → is_before t u ≡ true
    → u.job.job_id ≢ t.job.job_id
other_job self t u v i j before same =
    let at = timer-lookup_id self t v i in
    let at' = timer-lookup_id self u v j in
    absurd (ground (arith, ap (λ z. lookup_id z self.timers_by_id) same))

pub due_timers-DistinctJobs :
    (now : ℕ) (self : RedbScheduler) (ts : List Timer)
    → Valid self
    → ((t : Timer) → In t ts → In t self.timers)
    → Ordered ts
    → DistinctJobs (due_timers now ts)
unfolding due_timers
due_timers-DistinctJobs now self [] v from o = tt
due_timers-DistinctJobs now self (x ∷ ts) v from (least, o) =
    let rest = due_timers-DistinctJobs now self ts v (λ t i. from t (there i)) o in
    elim (Bool-cases (is_due now x)) [
      | inr e ↦ rw e rest
      | inl e ↦ rw e (
        λ u i.
            let (j, d) = In-due_timers now ts u i in
            other_job self x u v (from x (here refl)) (from u (there j)) (least u j),
        rest,
      )
    ]
