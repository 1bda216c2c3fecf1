-- ===== src/RunnerIntents.antt =====
-- crates/konf-runtime/src/runner_intents.rs: the store of the intents to run a workflow. The tables of
-- the database are lists, that of the intents with one entry to an id; the database and the encoding
-- of its rows are taken to work. The time of spawning is in whole microseconds, as it is stored.
-- `gc` reads and deletes in two transactions: what happens between them is given to it.
pub mod Listing
pub mod Keys
pub mod Collect
pub mod Replay
mod Tests
use konf.Shared.{
  ℕ, ◌+◌, ◌∷◌, ◌&&◌, ◌||◌, Bool, true, false, not, Option, none, some, List, [], if◌then◌else◌, ltb,
  leb, length, is_some, Text, text_eq, starts_with, Table, lookup, insert, remove, Json,
}
use konf.Process.{Actor}

pub data TerminalStatus : Type 0 where
  succeeded : TerminalStatus
  failed : (error : Text) → TerminalStatus
  cancelled : (reason : Text) → TerminalStatus

pub record RunnerIntent : Type 0 where
  pub run_id : Text
  pub parent_id : Option Text
  pub workflow : Text
  pub input : Json
  pub namespace : Text
  pub capabilities : List Text
  pub actor : Actor
  pub session_id : Text
  pub spawned_at : ℕ
  pub terminal : Option TerminalStatus
  pub replay_count : ℕ

-- `RunnerIntent::new`, at the time `now`
unfoldable pub new_intent :
    (now : ℕ) (run_id workflow : Text) (input : Json) (namespace : Text) (capabilities : List Text)
    (actor : Actor) (session_id : Text)
    → RunnerIntent
new_intent now run_id workflow input namespace capabilities actor session_id = record {
  run_id = run_id;
  parent_id = none;
  workflow = workflow;
  input = input;
  namespace = namespace;
  capabilities = capabilities;
  actor = actor;
  session_id = session_id;
  spawned_at = now;
  terminal = none;
  replay_count = 0;
}

-- `by_namespace` is a multimap: a list of pairs, each of which is there once at most.
pub record RunnerIntentStore : Type 0 where
  pub intents : Table RunnerIntent
  pub by_namespace : List (Text × Text)

abbrev pub empty : RunnerIntentStore
empty = record { intents = []; by_namespace = [] }

abbrev pub same_pair : (namespace run_id : Text) → Text × Text → Bool
same_pair namespace run_id p = text_eq p.0 namespace && text_eq p.1 run_id

unfoldable pub remove_pair : (namespace run_id : Text) → List (Text × Text) → List (Text × Text)
remove_pair namespace run_id [] = []
remove_pair namespace run_id (p ∷ ps) =
    let rest = remove_pair namespace run_id ps in
    if same_pair namespace run_id p then rest else p ∷ rest

abbrev pub insert_pair : (namespace run_id : Text) → List (Text × Text) → List (Text × Text)
insert_pair namespace run_id ps = (namespace, run_id) ∷ remove_pair namespace run_id ps

-- `RunnerIntentStore::insert`
unfoldable pub insert_intent : RunnerIntent → RunnerIntentStore → RunnerIntentStore
insert_intent intent self = record {
  intents = insert intent.run_id intent self.intents;
  by_namespace = insert_pair intent.namespace intent.run_id self.by_namespace;
}

-- `RunnerIntentStore::get`
unfoldable pub get : Text → RunnerIntentStore → Option RunnerIntent
get run_id self = lookup run_id self.intents

abbrev pub marked : TerminalStatus → RunnerIntentStore → Option RunnerIntent → RunnerIntentStore
marked status self none = self
marked status self (some intent) = insert_intent (record intent { terminal = some status }) self

-- `mark_terminal`
unfoldable pub mark_terminal : Text → TerminalStatus → RunnerIntentStore → RunnerIntentStore
mark_terminal run_id status self = marked status self (get run_id self)

-- The stable sort by the time of spawning.
unfoldable pub insert_by_time : RunnerIntent → List RunnerIntent → List RunnerIntent
insert_by_time i [] = i ∷ []
insert_by_time i (j ∷ js) =
    if ltb j.spawned_at i.spawned_at then j ∷ insert_by_time i js else i ∷ j ∷ js

unfoldable pub sort_by_time : List RunnerIntent → List RunnerIntent
sort_by_time [] = []
sort_by_time (i ∷ is) = insert_by_time i (sort_by_time is)

-- The intents of the table that pass the test, in its order.
unfoldable pub select : (RunnerIntent → Bool) → Table RunnerIntent → List RunnerIntent
select p [] = []
select p ((k, i) ∷ t) = let rest = select p t in if p i then i ∷ rest else rest

abbrev pub is_unterminated : RunnerIntent → Bool
is_unterminated i = not (is_some i.terminal)

-- `list_unterminated`
unfoldable pub list_unterminated : RunnerIntentStore → List RunnerIntent
unfolding sort_by_time select
list_unterminated self = sort_by_time (select is_unterminated self.intents)

abbrev pub is_listed : (prefix : Text) (include_terminal : Bool) → RunnerIntent → Bool
is_listed prefix include_terminal i =
    starts_with i.namespace prefix && (include_terminal || is_unterminated i)

-- `list_by_namespace`
unfoldable pub list_by_namespace :
    (prefix : Text) (include_terminal : Bool) → RunnerIntentStore → List RunnerIntent
unfolding sort_by_time select
list_by_namespace prefix include_terminal self =
    sort_by_time (select (is_listed prefix include_terminal) self.intents)

-- Whether `gc` removes an intent.
abbrev pub is_old : (cutoff : ℕ) → RunnerIntent → Bool
is_old cutoff i = is_some i.terminal && ltb i.spawned_at cutoff

-- The first transaction of `gc`: the ids and namespaces of what it will remove.
unfoldable pub victims : (cutoff : ℕ) → Table RunnerIntent → List (Text × Text)
victims cutoff [] = []
victims cutoff ((k, i) ∷ t) =
    let rest = victims cutoff t in if is_old cutoff i then (k, i.namespace) ∷ rest else rest

unfoldable pub remove_intents : List (Text × Text) → Table RunnerIntent → Table RunnerIntent
remove_intents [] t = t
remove_intents ((k, ns) ∷ vs) t = remove_intents vs (remove k t)

unfoldable pub remove_pairs : List (Text × Text) → List (Text × Text) → List (Text × Text)
remove_pairs [] ps = ps
remove_pairs ((k, ns) ∷ vs) ps = remove_pairs vs (remove_pair ns k ps)

-- Its second transaction. Without victims there is none.
unfoldable pub delete : List (Text × Text) → RunnerIntentStore → RunnerIntentStore
unfolding remove_intents remove_pairs
delete vs self = record {
  intents = remove_intents vs self.intents;
  by_namespace = remove_pairs vs self.by_namespace;
}

-- `RunnerIntentStore::gc`, with the number of victims
unfoldable pub gc :
    (cutoff : ℕ) (between : RunnerIntentStore → RunnerIntentStore)
    → RunnerIntentStore
    → RunnerIntentStore × ℕ
unfolding victims delete
gc cutoff between self =
    let vs = victims cutoff self.intents in (delete vs (between self), length vs)
