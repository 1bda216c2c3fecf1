-- ===== src/Runtime/Limit.antt =====
-- The limit of active runs, over any sequence of the runtime's operations.
use konf.Shared.{
  ℕ, zero, suc, ◌+◌, ◌<◌, ◌≤◌, if◌then◌else◌, ◌≡◌, refl, ap, subst, ◌⊎◌, inl, inr, false, Option,
  none, some, List, [], ◌∷◌, arith, Text, starts_with, Result, ok, err, Bool-cases,
}
use konf.Process.{is_running, active_count_in_namespace}
use konf.Process.Count.{count, count-insert, count-insert_rejected, count-gc}
use konf.Scope.{RuntimeError, validate_start}
use konf.Scope.Limits.{validate_start_iff}
use konf.Runtime.Steps.{
  System, Op, begins, enters, finishes, cancels, collects, admit, behind, take_out, entered, step,
  run,
}
use konf.Runtime.{Start, entry_of, enter, collect}
use konf.Runtime.Counts.{active_in, count-cancel, count-finish}

-- The starts that will count against the namespace once they are in the table.
unfoldable pub waiting : Text → List Start → ℕ
waiting ns [] = 0
waiting ns (s ∷ entering) =
    let rest = waiting ns entering in if starts_with s.scope.namespace ns then 1 + rest else rest

abbrev waiting_both : Text → Option (Start × List Start) → ℕ
waiting_both ns none = 0
waiting_both ns (some (s, others)) = waiting ns (s ∷ others)

waiting-behind :
    (ns : Text) (t : Start) (entering : List Start) (o : Option (Start × List Start))
    → ((s : Start) (others : List Start)
        → o ≡ some (s, others)
        → waiting ns entering ≡ waiting ns (s ∷ others))
    → (s : Start) (others : List Start) → behind t o ≡ some (s, others)
    → waiting ns (t ∷ entering) ≡ waiting ns (s ∷ others)
unfolding waiting
waiting-behind ns t entering none rest s others h = absurd (cc h)
waiting-behind ns t entering (some (f, fs)) rest s others h =
    ground (arith, rest f fs refl, ap (waiting_both ns) h)

waiting-take_out :
    (ns : Text) (i : ℕ) (entering : List Start) (s : Start) (others : List Start)
    → take_out i entering ≡ some (s, others)
    → waiting ns entering ≡ waiting ns (s ∷ others)
unfolding take_out
waiting-take_out ns i [] s others h = absurd (cc h)
waiting-take_out ns zero (t ∷ entering) s others h = ap (waiting_both ns) h
waiting-take_out ns (suc i) (t ∷ entering) s others h =
    waiting-behind ns t entering (take_out i entering) (waiting-take_out ns i entering) s others h

-- An operation that keeps to the limit `m` of the namespace: a start that it begins is in exactly
-- this namespace with this limit, or does not count against it.
abbrev pub KeepsTo : Text → ℕ → Op → Type 0
KeepsTo ns m (begins s) =
    ((s.scope.namespace ≡ ns) × (s.scope.limits.max_active_runs_per_namespace ≡ m))
    ⊎ (starts_with s.scope.namespace ns ≡ false)
KeepsTo ns m _ = Unit {0}

abbrev pub AllKeepTo : Text → ℕ → List Op → Type 0
AllKeepTo ns m [] = Unit {0}
AllKeepTo ns m (op ∷ ops) = KeepsTo ns m op × AllKeepTo ns m ops

-- At most `k` starts of the namespace are between their check and the table at any time.
abbrev pub AtMost : Text → ℕ → List Op → System → Type 0
AtMost ns k [] sys = waiting ns sys.entering ≤ k
AtMost ns k (op ∷ ops) sys = (waiting ns sys.entering ≤ k) × AtMost ns k ops (step op sys)

now_AtMost :
    (ns : Text) (k : ℕ) (ops : List Op) (sys : System)
    → AtMost ns k ops sys
    → waiting ns sys.entering ≤ k
now_AtMost ns k [] sys few = few
now_AtMost ns k (op ∷ ops) sys few = few.0

-- The runs of the namespace, and those that will be.
abbrev load : Text → System → ℕ
load ns sys = count (active_in ns) sys.runtime.table + waiting ns sys.entering

admitted-load :
    (ns : Text) (m k : ℕ) (s : Start) (sys : System) (r : Result (Unit {0}) RuntimeError)
    → validate_start s.scope sys.runtime.table ≡ r
    → KeepsTo ns m (begins s)
    → waiting ns (admit s r sys.entering) ≤ k
    → load ns sys < m + k
    → count (active_in ns) sys.runtime.table + waiting ns (admit s r sys.entering) < m + k
unfolding waiting active_count_in_namespace is_running
admitted-load ns m k s sys (err e) h keeps few le = le
admitted-load ns m k s sys (ok u) h (inl (same, limit)) few le =
    let room = ((validate_start_iff s.scope sys.runtime.table).0 h).0 in
    omega (arith, few, room, limit, ap (λ (z : Text). count (active_in z) sys.runtime.table) same)
admitted-load ns m k s sys (ok u) h (inr off) few le = rw off le

entered-load :
    (ns : Text) (i : ℕ) (sys : System) (o : Option (Start × List Start))
    → take_out i sys.entering ≡ o
    → load ns (entered o sys) ≤ load ns sys
unfolding enter waiting is_running
entered-load ns i sys none h = omega arith
entered-load ns i sys (some (s, others)) h = elim (Bool-cases (starts_with s.scope.namespace ns)) [
  | inl e ↦ omega (
    arith,
    count-insert (active_in ns) (entry_of s) sys.runtime.table,
    subst (λ b. waiting ns sys.entering ≡ (if b then 1 + waiting ns others else waiting ns others))
        e (waiting-take_out ns i sys.entering s others h),
  )
  | inr e ↦ omega (
    arith,
    count-insert_rejected (active_in ns) (entry_of s) sys.runtime.table e,
    subst (λ b. waiting ns sys.entering ≡ (if b then 1 + waiting ns others else waiting ns others))
        e (waiting-take_out ns i sys.entering s others h),
  )
]

step-load :
    (ns : Text) (m k : ℕ) (op : Op) (sys : System)
    → KeepsTo ns m op
    → waiting ns (step op sys).entering ≤ k
    → load ns sys < m + k
    → load ns (step op sys) < m + k
unfolding step collect
step-load ns m k (begins s) sys keeps few le =
    admitted-load ns m k s sys (validate_start s.scope sys.runtime.table) refl keeps few le
step-load ns m k (enters i) sys keeps few le =
    omega (arith, le, entered-load ns i sys (take_out i sys.entering) refl)
step-load ns m k (finishes id now result) sys keeps few le =
    omega (arith, le, count-finish ns id now result sys.runtime)
step-load ns m k (cancels fuel id) sys keeps few le =
    omega (arith, le, count-cancel ns fuel id sys.runtime.table)
step-load ns m k (collects cutoff) sys keeps few le =
    omega (arith, le, count-gc (active_in ns) cutoff sys.runtime.table)

run-load :
    (ns : Text) (m k : ℕ) (ops : List Op) (sys : System)
    → AllKeepTo ns m ops
    → AtMost ns k ops sys
    → load ns sys < m + k
    → load ns (run ops sys) < m + k
unfolding run
run-load ns m k [] sys keep few le = le
run-load ns m k (op ∷ ops) sys keep few le =
    run-load ns m k ops (step op sys) keep.1 few.1
      (step-load ns m k op sys keep.0 (now_AtMost ns k ops (step op sys) few.1) le)

-- However the two steps of starts, ends, cancellations and collections follow each other, the
-- running runs of a namespace exceed its limit `m` by less than `k`, if at most `k` starts of the
-- namespace are between their check and the table at any time, none at first, if no more than `m`
-- runs are running at first, and if each run that is started is in exactly this namespace with this
-- limit or does not have the namespace as a prefix of its own. Where starts do not overlap, `k` is 1
-- and the runs stay within the limit.
pub run-limit :
    (ns : Text) (m k : ℕ) (ops : List Op) (sys : System)
    → AllKeepTo ns m ops
    → AtMost ns k ops sys
    → 0 < k
    → sys.entering ≡ []
    → active_count_in_namespace ns sys.runtime.table ≤ m
    → active_count_in_namespace ns (run ops sys).runtime.table < m + k
unfolding active_count_in_namespace waiting
run-limit ns m k ops sys keep few some_start idle le =
    omega (arith, run-load ns m k ops sys keep few (omega (arith, ap (waiting ns) idle)))
