-- ===== src/Scheduler/Tables.antt =====
-- About the two tables of the scheduler, and the rows that they share.
use konf.Shared.{
  ℕ, ◌≡◌, refl, sym, ◌∙◌, subst, ◌⊎◌, inl, inr, Bool, true, false, not, ◌&&◌, ◌||◌, Option, none,
  some, List, [], ◌∷◌, any, if◌then◌else◌, ◌==◌, arith, Bool-cases, In, here, there, In→any, ℤ,
}
use konf.Scheduler.{
  Timer, TimerRecord, RedbScheduler, is_before, has_key, insert_timer, remove_timer, lookup_id,
  remove_id, insert_id, to_millis, insert_new, cancelled_at, cancel, reschedule,
}

-- The keys rise, so no two are equal.
abbrev pub Ordered : List Timer → Type 0
Ordered [] = Unit {0}
Ordered (t ∷ ts) = ((u : Timer) → In u ts → is_before t u ≡ true) × Ordered ts

abbrev pub holds : (fire_at id : ℕ) → List Timer → Bool
holds fire_at id ts = any (has_key fire_at id) ts

abbrev pub is_at : Option ℕ → ℕ → Bool
is_at none fire_at = false
is_at (some f) fire_at = f == fire_at

-- There is a timer under a time and an id exactly if the index has this time for the id.
abbrev pub Indexed : RedbScheduler → Type 0
Indexed self =
    (id fire_at : ℕ) → holds fire_at id self.timers ≡ is_at (lookup_id id self.timers_by_id) fire_at

pub record Valid (self : RedbScheduler) : Type 0 where
  pub ordered : Ordered self.timers
  pub indexed : Indexed self

holds-insert_timer :
    (f id : ℕ) (t : Timer) (ts : List Timer)
    → holds f id (insert_timer t ts) ≡ (has_key f id t || holds f id ts)
unfolding insert_timer
holds-insert_timer f id t [] = refl
holds-insert_timer f id t (u ∷ us) = ground (arith, holds-insert_timer f id t us)

holds-remove_timer :
    (f id g j : ℕ) (ts : List Timer)
    → holds f id (remove_timer g j ts) ≡ (not (g == f && j == id) && holds f id ts)
unfolding remove_timer
holds-remove_timer f id g j [] = ground arith
holds-remove_timer f id g j (t ∷ ts) = ground (arith, holds-remove_timer f id g j ts)

pub lookup_id-remove_id :
    (i j : ℕ) (index : List (ℕ × ℕ))
    → lookup_id i (remove_id j index) ≡ (if j == i then none else lookup_id i index)
unfolding lookup_id remove_id
lookup_id-remove_id i j [] = ground arith
lookup_id-remove_id i j ((k, f) ∷ index) = ground (arith, lookup_id-remove_id i j index)

pub lookup_id-insert_id :
    (i j f : ℕ) (index : List (ℕ × ℕ))
    → lookup_id i (insert_id j f index) ≡ (if j == i then some f else lookup_id i index)
unfolding lookup_id
lookup_id-insert_id i j f index = ground (arith, lookup_id-remove_id i j index)

In-insert_timer :
    (t : Timer) (ts : List Timer) (u : Timer) → In u (insert_timer t ts) → (u ≡ t) ⊎ In u ts
unfolding insert_timer
In-insert_timer t [] u (here q) = inl q
In-insert_timer t [] u (there i) = inr i
In-insert_timer t (x ∷ ts) u i = elim (Bool-cases (is_before t x)) [
  | inl e ↦ elim (rw e at i) [ here q ↦ inl q | there j ↦ inr j ]
  | inr e ↦ elim (Bool-cases (has_key t.fire_at t.job.job_id x)) [
    | inl k ↦ elim (rw (e, k) at i) [ here q ↦ inl q | there j ↦ inr (there j) ]
    | inr k ↦ elim (rw (e, k) at i) [
      | here q ↦ inr (here q)
      | there j ↦ elim (In-insert_timer t ts u j) [ inl q ↦ inl q | inr l ↦ inr (there l) ]
    ]
  ]
]

In-remove_timer : (f id : ℕ) (ts : List Timer) (u : Timer) → In u (remove_timer f id ts) → In u ts
unfolding remove_timer
In-remove_timer f id [] u i = i
In-remove_timer f id (t ∷ ts) u i = elim (Bool-cases (has_key f id t)) [
  | inl e ↦ there (In-remove_timer f id ts u (rw e at i))
  | inr e ↦ elim (rw e at i) [ here q ↦ here q | there j ↦ there (In-remove_timer f id ts u j) ]
]

is_before_trans :
    (t u v : Timer) → is_before t u ≡ true → is_before u v ≡ true → is_before t v ≡ true
is_before_trans t u v p q = ground arith

-- A key that is neither before another nor equal to it is behind it.
is_before-total :
    (t u : Timer)
    → is_before t u ≡ false
    → has_key t.fire_at t.job.job_id u ≡ false
    → is_before u t ≡ true
is_before-total t u p q = ground arith

same_key-before :
    (t u v : Timer)
    → has_key t.fire_at t.job.job_id u ≡ true
    → is_before u v ≡ true
    → is_before t v ≡ true
same_key-before t u v p q = ground arith

insert_timer-Ordered : (t : Timer) (ts : List Timer) → Ordered ts → Ordered (insert_timer t ts)
unfolding insert_timer
insert_timer-Ordered t [] o = (λ u i. elim i [ ], tt)
insert_timer-Ordered t (x ∷ ts) (least, o) = elim (Bool-cases (is_before t x)) [
  | inl e ↦ rw e (
    λ u i. elim i [
      | here q ↦ subst (λ z. is_before t z ≡ true) (sym q) e
      | there j ↦ is_before_trans t x u e (least u j)
    ],
    (least, o),
  )
  | inr e ↦ elim (Bool-cases (has_key t.fire_at t.job.job_id x)) [
    | inl k ↦ rw (e, k) (λ u i. same_key-before t x u k (least u i), o)
    | inr k ↦
        rw (e, k)
          (
            λ u i. elim (In-insert_timer t ts u i) [
              | inl q ↦ subst (λ z. is_before x z ≡ true) (sym q) (is_before-total t x e k)
              | inr j ↦ least u j
            ],
            insert_timer-Ordered t ts o,
          )
  ]
]

remove_timer-Ordered : (f id : ℕ) (ts : List Timer) → Ordered ts → Ordered (remove_timer f id ts)
unfolding remove_timer
remove_timer-Ordered f id [] o = tt
remove_timer-Ordered f id (t ∷ ts) (least, o) = elim (Bool-cases (has_key f id t)) [
  | inl e ↦ rw e (remove_timer-Ordered f id ts o)
  | inr e ↦ rw e (λ u i. least u (In-remove_timer f id ts u i), remove_timer-Ordered f id ts o)
]

-- The index has no time for a job, or this one.
abbrev pub AtMostAt : ℕ → Option ℕ → Type 0
AtMostAt fire_at none = Unit {0}
AtMostAt fire_at (some f) = f ≡ fire_at

insert_new-Indexed :
    (job : TimerRecord) (run_at : ℤ) (self : RedbScheduler)
    → lookup_id job.job_id self.timers_by_id ≡ none
    → Indexed self
    → Indexed (insert_new job run_at self)
unfolding insert_new
insert_new-Indexed job run_at self fresh indexed id f = ground (
  arith,
  holds-insert_timer f id (record { fire_at = to_millis run_at; job = job }) self.timers,
  lookup_id-insert_id id job.job_id (to_millis run_at) self.timers_by_id,
  indexed id f,
  fresh,
)

-- Both tables forget a job, if its timer is not at another time.
removed :
    (j g : ℕ) (self : RedbScheduler) (o : Option ℕ)
    → lookup_id j self.timers_by_id ≡ o
    → AtMostAt g o
    → Indexed self
    → (id f : ℕ)
    → holds f id (remove_timer g j self.timers)
      ≡ is_at (lookup_id id (remove_id j self.timers_by_id)) f
removed j g self none q known indexed id f = ground (
  arith,
  holds-remove_timer f id g j self.timers,
  lookup_id-remove_id id j self.timers_by_id,
  indexed id f,
  q,
)
removed j g self (some h) q known indexed id f = ground (
  arith,
  holds-remove_timer f id g j self.timers,
  lookup_id-remove_id id j self.timers_by_id,
  indexed id f,
  q,
)

cancelled_at-Indexed :
    (j : ℕ) (self : RedbScheduler) (o : Option ℕ)
    → lookup_id j self.timers_by_id ≡ o
    → Indexed self
    → Indexed (cancelled_at j self o).0
cancelled_at-Indexed j self none q indexed id f = indexed id f
cancelled_at-Indexed j self (some g) q indexed id f = removed j g self (some g) q refl indexed id f

reschedule-Indexed :
    (old : ℕ) (job : TimerRecord) (next : Option ℤ) (self : RedbScheduler)
    → AtMostAt old (lookup_id job.job_id self.timers_by_id)
    → Indexed self
    → Indexed (reschedule old job next self)
unfolding reschedule
reschedule-Indexed old job none self known indexed id f =
    removed job.job_id old self (lookup_id job.job_id self.timers_by_id) refl known indexed id f
reschedule-Indexed old job (some run_at) self known indexed id f =
    let gone =
      removed job.job_id old self (lookup_id job.job_id self.timers_by_id) refl known indexed id
        f in
    ground (
      arith,
      holds-insert_timer f id (record { fire_at = to_millis run_at; job = job })
          (remove_timer old job.job_id self.timers),
      lookup_id-insert_id id job.job_id (to_millis run_at) self.timers_by_id,
      lookup_id-remove_id id job.job_id self.timers_by_id,
      gone,
    )

pub insert_new-Valid :
    (job : TimerRecord) (run_at : ℤ) (self : RedbScheduler)
    → lookup_id job.job_id self.timers_by_id ≡ none
    → Valid self
    → Valid (insert_new job run_at self)
unfolding insert_new
insert_new-Valid job run_at self fresh v = record {
  ordered = insert_timer-Ordered _ self.timers v.ordered;
  indexed = insert_new-Indexed job run_at self fresh v.indexed;
}

cancelled_at-Ordered :
    (id : ℕ) (self : RedbScheduler) (o : Option ℕ)
    → Ordered self.timers
    → Ordered (cancelled_at id self o).0.timers
cancelled_at-Ordered id self none o = o
cancelled_at-Ordered id self (some f) o = remove_timer-Ordered f id self.timers o

pub cancel-Valid : (id : ℕ) (self : RedbScheduler) → Valid self → Valid (cancel id self).0
unfolding cancel
cancel-Valid id self v = record {
  ordered = cancelled_at-Ordered id self (lookup_id id self.timers_by_id) v.ordered;
  indexed = cancelled_at-Indexed id self (lookup_id id self.timers_by_id) refl v.indexed;
}

reschedule-Ordered :
    (old : ℕ) (job : TimerRecord) (next : Option ℤ) (self : RedbScheduler)
    → Ordered self.timers
    → Ordered (reschedule old job next self).timers
unfolding reschedule
reschedule-Ordered old job none self o = remove_timer-Ordered old job.job_id self.timers o
reschedule-Ordered old job (some run_at) self o =
    insert_timer-Ordered _ (remove_timer old job.job_id self.timers)
      (remove_timer-Ordered old job.job_id self.timers o)

pub reschedule-Valid :
    (old : ℕ) (job : TimerRecord) (next : Option ℤ) (self : RedbScheduler)
    → AtMostAt old (lookup_id job.job_id self.timers_by_id)
    → Valid self
    → Valid (reschedule old job next self)
reschedule-Valid old job next self known v = record {
  ordered = reschedule-Ordered old job next self v.ordered;
  indexed = reschedule-Indexed old job next self known v.indexed;
}

-- A timer of the table is where the index says.
pub timer-lookup_id :
    (self : RedbScheduler) (t : Timer)
    → Valid self
    → In t self.timers
    → lookup_id t.job.job_id self.timers_by_id ≡ some t.fire_at
timer-lookup_id self t v i = is_at-some (lookup_id t.job.job_id self.timers_by_id) t.fire_at (
    sym (v.indexed t.job.job_id t.fire_at)
    ∙ In→any (has_key t.fire_at t.job.job_id) self.timers i (ground arith))
  where
    is_at-some : (o : Option ℕ) (f : ℕ) → is_at o f ≡ true → o ≡ some f
    is_at-some none f h = cc
    is_at-some (some g) f h = ground arith
