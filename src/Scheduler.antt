-- ===== src/Scheduler.antt =====
-- crates/konf-runtime/src/scheduler.rs: the durable timers. The two tables of the database are lists,
-- `timers` in the order of its keys. The database and the encoding of its rows are taken to work; a
-- time of creation is in whole microseconds, as it is stored. Times to fire are milliseconds.
-- A read of the clock, the parser of cron expressions and the registry are arguments.
pub mod Tables
pub mod Firing
pub mod Fires
pub mod Reach
pub mod Race
mod Tests
use konf.Shared.{
  ℕ, zero, suc, ◌+◌, ◌-◌, ◌*◌, ◌^◌, min, Bool, true, false, not, ◌&&◌, ◌||◌, Option, none, some,
  List, [], ◌∷◌, ◌++◌, if◌then◌else◌, ltb, leb, ◌==◌, length, Text, text, starts_with, Json, Result,
  ok, err, ◌>>=◌, ◌>>◌, ℤ, pos, pos_part,
}
use konf.Capability.{ToolError}
use konf.Envelope.{Envelope, for_tool_dispatch}
use konf.Process.{Actor}
use konf.EventBus.{RunEvent, schedule_fired, schedule_failed}

abbrev pub min_fixed_delay_ms : ℕ
min_fixed_delay_ms = 1_000

abbrev pub max_fixed_delay_ms : ℕ
max_fixed_delay_ms = 7 * 24 * 3600 * 1_000

-- The errors of the storage are left out.
pub data SchedulerError : Type 0 where
  invalid : Text → SchedulerError
  not_found : (job_id : ℕ) → SchedulerError

pub data TimerMode : Type 0 where
  once : TimerMode
  fixed : (delay_ms : ℕ) → TimerMode
  cron : (expr : Text) → TimerMode

pub record TimerRecord : Type 0 where
  pub job_id : ℕ
  pub workflow : Text
  pub input : Json
  pub namespace : Text
  pub capabilities : List Text
  pub actor : Actor
  pub mode : TimerMode
  pub created_at : ℕ
  pub created_by : Text

-- A row of `TIMERS`; its key is the time and the id of the job.
pub record Timer : Type 0 where
  pub fire_at : ℕ
  pub job : TimerRecord

pub record RedbScheduler : Type 0 where
  pub timers : List Timer
  pub timers_by_id : List (ℕ × ℕ)

-- `RedbScheduler::new` on an empty database
abbrev pub empty : RedbScheduler
empty = record { timers = []; timers_by_id = [] }

-- The order of the keys.
abbrev pub is_before : Timer → Timer → Bool
is_before t u = ltb t.fire_at u.fire_at || (t.fire_at == u.fire_at && ltb t.job.job_id u.job.job_id)

abbrev pub has_key : ℕ → ℕ → Timer → Bool
has_key fire_at id t = t.fire_at == fire_at && t.job.job_id == id

unfoldable pub insert_timer : Timer → List Timer → List Timer
insert_timer t [] = t ∷ []
insert_timer t (u ∷ us) =
    if is_before t u
    then t ∷ u ∷ us
    else if has_key t.fire_at t.job.job_id u
    then t ∷ us
    else u ∷ insert_timer t us

unfoldable pub remove_timer : (fire_at id : ℕ) → List Timer → List Timer
remove_timer fire_at id [] = []
remove_timer fire_at id (t ∷ ts) =
    let rest = remove_timer fire_at id ts in if has_key fire_at id t then rest else t ∷ rest

unfoldable pub lookup_id : ℕ → List (ℕ × ℕ) → Option ℕ
lookup_id id [] = none
lookup_id id ((j, fire_at) ∷ index) = if j == id then some fire_at else lookup_id id index

unfoldable pub remove_id : ℕ → List (ℕ × ℕ) → List (ℕ × ℕ)
remove_id id [] = []
remove_id id ((j, fire_at) ∷ index) =
    let rest = remove_id id index in if j == id then rest else (j, fire_at) ∷ rest

abbrev pub insert_id : (id fire_at : ℕ) → List (ℕ × ℕ) → List (ℕ × ℕ)
insert_id id fire_at index = (id, fire_at) ∷ remove_id id index

-- `run_at.timestamp_millis().max(0) as u64`
abbrev pub to_millis : ℤ → ℕ
to_millis run_at = pos_part run_at

-- `insert_new`, which is one transaction
unfoldable pub insert_new : TimerRecord → (run_at : ℤ) → RedbScheduler → RedbScheduler
insert_new job run_at self = record {
  timers = insert_timer (record { fire_at = to_millis run_at; job = job }) self.timers;
  timers_by_id = insert_id job.job_id (to_millis run_at) self.timers_by_id;
}

abbrev pub nonempty : Text → Text → Result (Unit {0}) SchedulerError
nonempty [] message = err (invalid message)
nonempty (c ∷ s) message = ok tt

unfoldable pub validate_record : TimerRecord → Result (Unit {0}) SchedulerError
validate_record job =
    nonempty job.workflow (text "workflow id is empty")
    >> nonempty job.namespace (text "namespace is empty")

abbrev pub Scheduled : Type 0
Scheduled = RedbScheduler × Result ℕ SchedulerError

-- A job that has passed its checks is written, in its mode.
abbrev pub scheduled : TimerRecord → TimerMode → RedbScheduler → Result ℤ SchedulerError → Scheduled
scheduled job mode self (err e) = (self, err e)
scheduled job mode self (ok run_at) =
    (insert_new (record job { mode = mode }) run_at self, ok job.job_id)

unfoldable pub schedule_once : TimerRecord → (run_at : ℤ) → RedbScheduler → Scheduled
schedule_once job run_at self = scheduled job once self (validate_record job >>= λ _. ok run_at)

abbrev pub in_range : ℕ → Bool
in_range delay_ms = leb min_fixed_delay_ms delay_ms && leb delay_ms max_fixed_delay_ms

abbrev pub out_of_range : (show : ℕ → Text) → ℕ → SchedulerError
out_of_range show delay_ms = invalid (
    text "delay_ms="
    ++ (show delay_ms
        ++ (text " out of range ("
            ++ (show min_fixed_delay_ms ++ (text "–" ++ (show max_fixed_delay_ms ++ text ")"))))))

-- `show` prints a number.
unfoldable pub schedule_fixed :
    (show : ℕ → Text) (now : ℕ) → TimerRecord → (delay_ms : ℕ) → RedbScheduler → Scheduled
schedule_fixed show now job delay_ms self =
    if in_range delay_ms
    then scheduled job (fixed delay_ms) self
        (validate_record job >>= λ _. ok (pos (now + delay_ms)))
    else (self, err (out_of_range show delay_ms))

-- What the cron library makes of an expression at a time: its message if it does not parse, or the
-- next time, if there is one.
abbrev pub CronLibrary : Type 0
CronLibrary = (expr : Text) (now : ℕ) → Result (Option ℤ) Text

abbrev pub first_fire : Result (Option ℤ) Text → Result ℤ SchedulerError
first_fire (err problem) = err (invalid (text "cron: " ++ problem))
first_fire (ok none) = err (invalid (text "cron expression has no upcoming fire time"))
first_fire (ok (some run_at)) = ok run_at

unfoldable pub schedule_cron :
    CronLibrary → (now : ℕ) → TimerRecord → (expr : Text) → RedbScheduler → Scheduled
schedule_cron library now job expr self =
    scheduled job (cron expr) self (validate_record job >>= λ _. first_fire (library expr now))

abbrev pub cancelled_at : ℕ → RedbScheduler → Option ℕ → RedbScheduler × Bool
cancelled_at id self none = (self, false)
cancelled_at id self (some fire_at) = (
  record {
    timers = remove_timer fire_at id self.timers;
    timers_by_id = remove_id id self.timers_by_id;
  },
  true,
)

-- `RedbScheduler::cancel`, with whether the id existed
unfoldable pub cancel : ℕ → RedbScheduler → RedbScheduler × Bool
cancel id self = cancelled_at id self (lookup_id id self.timers_by_id)

pub record JobSummary : Type 0 where
  pub job_id : ℕ
  pub workflow : Text
  pub namespace : Text
  pub next_fire_at : ℕ
  pub mode : TimerMode
  pub created_at : ℕ
  pub created_by : Text

abbrev pub summary_of : Timer → JobSummary
summary_of t = record {
  job_id = t.job.job_id;
  workflow = t.job.workflow;
  namespace = t.job.namespace;
  next_fire_at = t.fire_at;
  mode = t.job.mode;
  created_at = t.job.created_at;
  created_by = t.job.created_by;
}

abbrev pub in_namespace : Option Text → Timer → Bool
in_namespace none t = true
in_namespace (some prefix) t = starts_with t.job.namespace prefix

unfoldable pub summaries : Option Text → List Timer → List JobSummary
summaries prefix [] = []
summaries prefix (t ∷ ts) =
    let rest = summaries prefix ts in if in_namespace prefix t then summary_of t ∷ rest else rest

-- `RedbScheduler::list`
unfoldable pub list : Option Text → RedbScheduler → List JobSummary
unfolding summaries
list prefix self = summaries prefix self.timers

-- `RedbScheduler::len`
unfoldable pub len : RedbScheduler → ℕ
len self = length self.timers

-- The range ends below the key of the next millisecond, which saturates.
abbrev pub is_due : ℕ → Timer → Bool
is_due now t = ltb t.fire_at (min (now + 1) (2 ^ 64 - 1))

unfoldable pub due_timers : ℕ → List Timer → List Timer
due_timers now [] = []
due_timers now (t ∷ ts) = let rest = due_timers now ts in if is_due now t then t ∷ rest else rest

-- `collect_due`
unfoldable pub collect_due : (now : ℕ) → RedbScheduler → List Timer
unfolding due_timers
collect_due now self = due_timers now self.timers

abbrev pub next_of_cron : Result (Option ℤ) Text → Option ℤ
next_of_cron (err problem) = none
next_of_cron (ok next) = next

-- `next_fire_after`, at the time `now`
unfoldable pub next_fire_after : CronLibrary → (now : ℕ) → TimerMode → Option ℤ
next_fire_after library now once = none
next_fire_after library now (fixed delay_ms) = some (pos (now + delay_ms))
next_fire_after library now (cron expr) = next_of_cron (library expr now)

-- `reschedule`, which is one transaction
unfoldable pub reschedule :
    (old_fire_at : ℕ) → TimerRecord → Option ℤ → RedbScheduler → RedbScheduler
reschedule old_fire_at job none self = record {
  timers = remove_timer old_fire_at job.job_id self.timers;
  timers_by_id = remove_id job.job_id self.timers_by_id;
}
reschedule old_fire_at job (some next_at) self = record {
  timers =
      insert_timer (record { fire_at = to_millis next_at; job = job })
        (remove_timer old_fire_at job.job_id self.timers);
  timers_by_id = insert_id job.job_id (to_millis next_at) self.timers_by_id;
}

-- What a firing meets: the registry, the clock and the cron library. The times at which a job is
-- fired and its next time computed are functions of the job.
pub record Surroundings : Type 0 where
  pub alive : Bool
  pub registered : (tool_name : Text) → Bool
  pub fired_at : TimerRecord → ℕ
  pub now : TimerRecord → ℕ
  pub library : CronLibrary

abbrev pub tool_name : TimerRecord → Text
tool_name job = text "workflow:" ++ job.workflow

abbrev pub next_at : Surroundings → TimerRecord → Option ℤ
next_at world job = next_fire_after world.library (world.now job) job.mode

abbrev pub unknown_workflow : TimerRecord → Text
unknown_workflow job = text "workflow '" ++ (job.workflow ++ text "' not found in registry")

-- `fire_and_reschedule`, with the events that it emits; the call of the workflow is started and not
-- waited for.
unfoldable pub fire_and_reschedule :
    Surroundings → Timer → RedbScheduler → RedbScheduler × List RunEvent
fire_and_reschedule world t self =
    if not world.alive
    then (self, [])
    else if world.registered (tool_name t.job)
    then (
      reschedule t.fire_at t.job (next_at world t.job) self,
      schedule_fired t.job.job_id t.job.workflow t.job.namespace (world.fired_at t.job) ∷ [],
    )
    else (self, schedule_failed t.job.job_id t.job.workflow (unknown_workflow t.job) ∷ [])

-- The envelope of the call.
unfoldable pub fire_envelope :
    (show : ℕ → Text) (fresh now trace_id : ℕ) → TimerRecord → Envelope Json
fire_envelope show fresh now trace_id job =
    for_tool_dispatch fresh now (tool_name job) job.input job.capabilities trace_id job.namespace
      job.actor.id (text "scheduler:" ++ show job.job_id)

unfoldable pub fire_all : Surroundings → List Timer → RedbScheduler → RedbScheduler × List RunEvent
fire_all world [] self = (self, [])
fire_all world (t ∷ due) self =
    let (next, events) = fire_and_reschedule world t self in
    let (last, more) = fire_all world due next in (last, events ++ more)

-- `tick`
unfoldable pub tick : Surroundings → (now : ℕ) → RedbScheduler → RedbScheduler × List RunEvent
tick world now self = fire_all world (collect_due now self) self
