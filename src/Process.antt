-- ===== src/Process.antt =====
-- crates/konf-runtime/src/process.rs and crates/konflux-substrate/src/process.rs: the process
-- table. A `RunId` is a number, times are nanoseconds. The concurrent map is a list of runs with
-- one run to an id; what a caller's closure changes in a run is a function on runs.
pub mod Nodes
pub mod Count
pub mod Collect
pub mod Parents
mod Tests
use konf.Shared.{
  ℕ, Bool, true, false, ◌&&◌, Option, none, some, List, [], ◌∷◌, map, if◌then◌else◌, ltb, ◌==◌,
  Text, Table, Json, starts_with, length,
}
use Nodes.{ActiveNode}

pub data ActorRole : Type 0 where
  infra_admin product_admin user infra_agent product_agent user_agent system : ActorRole

pub record Actor : Type 0 where
  pub id : Text
  pub role : ActorRole

pub data RunStatus : Type 0 where
  pending running : RunStatus
  completed : ℕ → Json → RunStatus
  failed : Text → ℕ → RunStatus
  cancelled : Text → ℕ → RunStatus

unfoldable pub is_terminal : RunStatus → Bool
is_terminal pending = false
is_terminal running = false
is_terminal _ = true

unfoldable pub is_running : RunStatus → Bool
is_running running = true
is_running _ = false

-- The cancellation token is its state, whether it was cancelled.
pub record WorkflowRun : Type 0 where
  pub id : ℕ
  pub parent_id : Option ℕ
  pub workflow_id : Text
  pub namespace : Text
  pub actor : Actor
  pub capabilities : List Text
  pub metadata : Table Json
  pub started_at : ℕ
  pub status : RunStatus
  pub completed_at : Option ℕ
  pub active_nodes : List ActiveNode
  pub steps_executed : ℕ
  pub cancel_token : Bool

abbrev pub ProcessTable : Type 0
ProcessTable = List WorkflowRun

-- `runs.get(id)`
unfoldable pub get : ℕ → ProcessTable → Option WorkflowRun
get id [] = none
get id (run ∷ runs) = if run.id == id then some run else get id runs

unfoldable pub insert : WorkflowRun → ProcessTable → ProcessTable
insert run [] = run ∷ []
insert run (old ∷ runs) = if old.id == run.id then run ∷ runs else old ∷ insert run runs

unfoldable pub update : ℕ → (WorkflowRun → WorkflowRun) → ProcessTable → ProcessTable
update id f [] = []
update id f (run ∷ runs) = if run.id == id then f run ∷ runs else run ∷ update id f runs

unfoldable pub remove : ℕ → ProcessTable → ProcessTable
remove id [] = []
remove id (run ∷ runs) = if run.id == id then runs else run ∷ remove id runs

unfoldable pub select : (WorkflowRun → Bool) → ProcessTable → ProcessTable
select p [] = []
select p (run ∷ runs) = let rest = select p runs in if p run then run ∷ rest else rest

abbrev has_parent : Option ℕ → ℕ → Bool
has_parent none id = false
has_parent (some p) id = p == id

unfoldable pub children_of : ℕ → ProcessTable → ProcessTable
unfolding select
children_of parent_id table = select (λ run. has_parent run.parent_id parent_id) table

unfoldable pub active_count : ProcessTable → ℕ
active_count table = length (select (λ run. is_running run.status) table)

unfoldable pub active_count_in_namespace : Text → ProcessTable → ℕ
active_count_in_namespace namespace_prefix table =
    length
      (select (λ run. is_running run.status && starts_with run.namespace namespace_prefix) table)

abbrev completed_before : ℕ → Option ℕ → Bool
completed_before cutoff none = false
completed_before cutoff (some t) = ltb t cutoff

abbrev pub collectable : ℕ → WorkflowRun → Bool
collectable cutoff run = is_terminal run.status && completed_before cutoff run.completed_at

remove_all : List ℕ → ProcessTable → ProcessTable
remove_all [] table = table
remove_all (id ∷ ids) table = remove_all ids (remove id table)

-- The ids are collected first, and then removed one by one.
unfoldable pub gc : (cutoff : ℕ) → ProcessTable → ProcessTable
unfolding remove_all
gc cutoff table =
    remove_all (map (λ (run : WorkflowRun). run.id) (select (collectable cutoff) table)) table
