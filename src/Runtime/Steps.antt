-- ===== src/Runtime/Steps.antt =====
-- The runtime's operations in any order. A start has two steps, its check and its entry into the
-- table, and between them other operations and other starts have theirs.
use konf.Shared.{ℕ, zero, suc, ◌≡◌, refl, Option, none, some, List, [], ◌∷◌, Result, ok, err}
use konf.Scope.{RuntimeError, validate_start}
use konf.Runtime.{Runtime, Start, enter, start, RunResult, finish, cancel, collect}

-- The runtime, and the starts that have passed the check and are not in the table yet.
pub record System : Type 0 where
  pub runtime : Runtime
  pub entering : List Start

pub data Op : Type 0 where
  begins : Start → Op
  enters : (index : ℕ) → Op
  finishes : (run_id now : ℕ) → RunResult → Op
  cancels : (fuel run_id : ℕ) → Op
  collects : (cutoff : ℕ) → Op

abbrev pub admit : Start → Result (Unit {0}) RuntimeError → List Start → List Start
admit s (ok u) entering = s ∷ entering
admit s (err e) entering = entering

abbrev pub behind : Start → Option (Start × List Start) → Option (Start × List Start)
behind t none = none
behind t (some (s, others)) = some (s, t ∷ others)

-- One of the starts, and the others.
unfoldable pub take_out : ℕ → List Start → Option (Start × List Start)
take_out i [] = none
take_out zero (s ∷ entering) = some (s, entering)
take_out (suc i) (s ∷ entering) = behind s (take_out i entering)

abbrev pub entered : Option (Start × List Start) → System → System
entered none sys = sys
entered (some (s, others)) sys = record { runtime = (enter s sys.runtime).0; entering = others }

unfoldable pub step : Op → System → System
step (begins s) sys = record sys {
  entering = admit s (validate_start s.scope sys.runtime.table) sys.entering;
}
step (enters i) sys = entered (take_out i sys.entering) sys
step (finishes run_id now result) sys = record sys {
  runtime = (finish run_id now result sys.runtime).0;
}
step (cancels fuel run_id) sys = record sys {
  runtime = record sys.runtime { table = (cancel fuel run_id sys.runtime.table).1 };
}
step (collects cutoff) sys = record sys { runtime = collect cutoff sys.runtime }

unfoldable pub run : List Op → System → System
run [] sys = sys
run (op ∷ ops) sys = run ops (step op sys)

-- The entry of a start into the table is the rest of `start`, where what lies between has made the
-- system one in which it is the first to enter.
start-enters :
    (s : Start) (sys after : System) (others : List Start)
    → validate_start s.scope sys.runtime.table ≡ ok tt
    → after.entering ≡ s ∷ others
    → (start s (λ self. after.runtime) sys.runtime).1 ≡ (step (enters 0) after).runtime
unfolding start step take_out
start-enters s sys after others let_in first = rw (let_in, first) refl
