-- ===== src/RunnerIntents/Replay.antt =====
-- About what is replayed after a restart.
use konf.Shared.{
  ℕ, ◌≡◌, ◌≢◌, refl, ap, ◌∙◌, Bool, true, false, ◌&&◌, Option, none, some, List, [], ◌∷◌, ltb,
  is_some, arith, Text, text_eq_iff, In, lookup-insert, lookup-insert_self,
}
use konf.RunnerIntents.{
  RunnerIntent, RunnerIntentStore, insert_intent, get, marked, mark_terminal, TerminalStatus,
  is_old, victims, delete, gc, list_unterminated,
}
use konf.RunnerIntents.Listing.{Keyed, lookup-In, list_unterminated_iff}
use konf.RunnerIntents.Collect.{old_at, get-gc}
use konf.RunnerIntents.Keys.{insert-Keyed, remove_intents-Keyed}

pub data Op : Type 0 where
  inserts : RunnerIntent → Op
  marks : (run_id : Text) → TerminalStatus → Op
  collects : (cutoff : ℕ) → Op

abbrev pub nothing : RunnerIntentStore → RunnerIntentStore
nothing self = self

unfoldable pub step : Op → RunnerIntentStore → RunnerIntentStore
step (inserts intent) self = insert_intent intent self
step (marks run_id status) self = mark_terminal run_id status self
step (collects cutoff) self = (gc cutoff nothing self).0

unfoldable pub run : List Op → RunnerIntentStore → RunnerIntentStore
run [] self = self
run (op ∷ ops) self = run ops (step op self)

-- The operation is not about this id.
abbrev pub Elsewhere : Text → Op → Type 0
Elsewhere id (inserts intent) = intent.run_id ≢ id
Elsewhere id (marks run_id status) = run_id ≢ id
Elsewhere id (collects cutoff) = Unit {0}

abbrev pub AllElsewhere : Text → List Op → Type 0
AllElsewhere id [] = Unit {0}
AllElsewhere id (op ∷ ops) = Elsewhere id op × AllElsewhere id ops

marked-Keyed :
    (status : TerminalStatus) (self : RunnerIntentStore) (o : Option RunnerIntent)
    → Keyed self.intents
    → Keyed (marked status self o).intents
unfolding insert_intent
marked-Keyed status self none keyed = keyed
marked-Keyed status self (some i) keyed =
    insert-Keyed (record i { terminal = some status }) self.intents keyed

step-Keyed :
    (op : Op) (self : RunnerIntentStore) → Keyed self.intents → Keyed (step op self).intents
unfolding step insert_intent mark_terminal gc delete
step-Keyed (inserts intent) self keyed = insert-Keyed intent self.intents keyed
step-Keyed (marks run_id status) self keyed = marked-Keyed status self (get run_id self) keyed
step-Keyed (collects cutoff) self keyed =
    remove_intents-Keyed (victims cutoff self.intents) self.intents keyed

run-Keyed :
    (ops : List Op) (self : RunnerIntentStore) → Keyed self.intents → Keyed (run ops self).intents
unfolding run
run-Keyed [] self keyed = keyed
run-Keyed (op ∷ ops) self keyed = run-Keyed ops (step op self) (step-Keyed op self keyed)

get-marked :
    (status : TerminalStatus) (self : RunnerIntentStore) (o : Option RunnerIntent)
    (run_id id : Text)
    → Keyed self.intents
    → get run_id self ≡ o
    → run_id ≢ id
    → get id (marked status self o) ≡ get id self
unfolding get insert_intent
get-marked status self none run_id id keyed q other = refl
get-marked status self (some i) run_id id keyed q other =
    let name : run_id ≡ i.run_id = keyed.named (run_id, i) (lookup-In run_id self.intents q) in
    ground (
      arith,
      lookup-insert i.run_id id (record i { terminal = some status }) self.intents,
      text_eq_iff i.run_id id,
      name,
    )

-- An open intent stays as it is through what is not about its id.
step-get :
    (op : Op) (self : RunnerIntentStore) (i : RunnerIntent)
    → Keyed self.intents
    → Elsewhere i.run_id op
    → i.terminal ≡ none
    → get i.run_id self ≡ some i
    → get i.run_id (step op self) ≡ some i
unfolding step
step-get (inserts intent) self i keyed other open_end found =
    unfold get insert_intent in
    ground (
      arith,
      lookup-insert intent.run_id i.run_id intent self.intents,
      text_eq_iff intent.run_id i.run_id,
    )
step-get (marks run_id status) self i keyed other open_end found =
    unfold mark_terminal in
    (get-marked status self (get run_id self) run_id i.run_id keyed refl other ∙ found)
step-get (collects cutoff) self i keyed other open_end found =
    let young : is_old cutoff i ≡ false =
      ap (λ (o : Option TerminalStatus). is_some o && ltb i.spawned_at cutoff) open_end in
    ground (arith, get-gc cutoff nothing self i.run_id keyed, ap (old_at cutoff) found)

run-get :
    (ops : List Op) (self : RunnerIntentStore) (i : RunnerIntent)
    → Keyed self.intents
    → AllElsewhere i.run_id ops
    → i.terminal ≡ none
    → get i.run_id self ≡ some i
    → get i.run_id (run ops self) ≡ some i
unfolding run
run-get [] self i keyed other open_end found = found
run-get (op ∷ ops) self i keyed other open_end found =
    run-get ops (step op self) i (step-Keyed op self keyed) other.1 open_end
      (step-get op self i keyed other.0 open_end found)

insert_intent-get :
    (i : RunnerIntent) (self : RunnerIntentStore) → get i.run_id (insert_intent i self) ≡ some i
unfolding get insert_intent
insert_intent-get i self = lookup-insert_self i.run_id i self.intents

-- An intent that was written and not marked as terminal is replayed after a restart, whatever other
-- intents were written or marked in the meantime, and however often old ones were collected.
pub run-replayed :
    (ops : List Op) (self : RunnerIntentStore) (i : RunnerIntent)
    → Keyed self.intents
    → i.terminal ≡ none
    → AllElsewhere i.run_id ops
    → In i (list_unterminated (run ops (insert_intent i self)))
run-replayed ops self i keyed open_end other =
    let first = insert_intent i self in
    let first_keyed = step-Keyed (inserts i) self keyed in
    let keyed' : Keyed first.intents = unfold step in first_keyed in
    (list_unterminated_iff (run ops first) i (run-Keyed ops first keyed')).1
      (run-get ops first i keyed' other open_end (insert_intent-get i self), open_end)

-- The id has no intent that is open.
abbrev closed_at : Option RunnerIntent → Bool
closed_at none = true
closed_at (some i) = is_some i.terminal

step-closed :
    (op : Op) (self : RunnerIntentStore) (id : Text)
    → Keyed self.intents
    → Elsewhere id op
    → closed_at (get id self) ≡ true
    → closed_at (get id (step op self)) ≡ true
unfolding step
step-closed (inserts intent) self id keyed other closed =
    unfold get insert_intent in
    ground (arith, lookup-insert intent.run_id id intent self.intents, text_eq_iff intent.run_id id)
step-closed (marks run_id status) self id keyed other closed =
    unfold mark_terminal in
    (ap closed_at (get-marked status self (get run_id self) run_id id keyed refl other) ∙ closed)
step-closed (collects cutoff) self id keyed other closed =
    ground (arith, get-gc cutoff nothing self id keyed)

run-closed :
    (ops : List Op) (self : RunnerIntentStore) (id : Text)
    → Keyed self.intents
    → AllElsewhere id ops
    → closed_at (get id self) ≡ true
    → closed_at (get id (run ops self)) ≡ true
unfolding run
run-closed [] self id keyed other closed = closed
run-closed (op ∷ ops) self id keyed other closed =
    run-closed ops (step op self) id (step-Keyed op self keyed) other.1
      (step-closed op self id keyed other.0 closed)

marked-closed :
    (status : TerminalStatus) (self : RunnerIntentStore) (o : Option RunnerIntent) (id : Text)
    → Keyed self.intents
    → get id self ≡ o
    → closed_at (get id (marked status self o)) ≡ true
unfolding get insert_intent
marked-closed status self none id keyed q = ap closed_at q
marked-closed status self (some i) id keyed q =
    let name : id ≡ i.run_id = keyed.named (id, i) (lookup-In id self.intents q) in
    ground (
      arith,
      lookup-insert i.run_id id (record i { terminal = some status }) self.intents,
      text_eq_iff i.run_id id,
      name,
    )

-- Once an intent is marked as terminal it is never replayed, unless it is written again.
pub run-not_replayed :
    (ops : List Op) (self : RunnerIntentStore) (status : TerminalStatus) (i : RunnerIntent)
    → Keyed self.intents
    → AllElsewhere i.run_id ops
    → ¬ In i (list_unterminated (run ops (mark_terminal i.run_id status self)))
run-not_replayed ops self status i keyed other listed =
    let first = mark_terminal i.run_id status self in
    let first_keyed = step-Keyed (marks i.run_id status) self keyed in
    let keyed' : Keyed first.intents = unfold step in first_keyed in
    let closed : closed_at (get i.run_id first) ≡ true =
      unfold mark_terminal in marked-closed status self (get i.run_id self) i.run_id keyed refl in
    let (found, open_end) =
      (list_unterminated_iff (run ops first) i (run-Keyed ops first keyed')).0 listed in
    let still = run-closed ops first i.run_id keyed' other closed in
    absurd (ground (arith, ap closed_at found, ap (is_some {A = TerminalStatus}) open_end))
