-- ===== src/Workflow.antt =====
-- crates/konflux-substrate/src/workflow.rs: the workflow that the executor runs. The ids are the
-- texts that they wrap, and a duration is a number of nanoseconds.
use konf.Shared.{
  ℕ, ◌++◌, Bool, false, Option, none, some, List, [], ◌∷◌, if◌then◌else◌, Text, text, text_eq,
  Table, Json, ℤ, pos,
}

pub data Expr : Type 0 where
  literal ref template : Text → Expr
  json : Json → Expr

pub data EdgeTarget : Type 0 where
  step : Text → EdgeTarget
  return : EdgeTarget

-- The priority is an `i32`.
pub record Edge : Type 0 where
  pub target : EdgeTarget
  pub condition : Option Text
  pub priority : ℤ

pub data JoinPolicy : Type 0 where
  all any lenient : JoinPolicy
  quorum : (min : ℕ) → JoinPolicy

pub data ErrorAction : Type 0 where
  fail skip : ErrorAction
  fallback : (value : Text) → ErrorAction
  goto : (step : Text) → ErrorAction

pub data BackoffStrategy : Type 0 where
  fixed exponential : BackoffStrategy
  linear : (increment : ℕ) → BackoffStrategy

-- `max_attempts` is a `u32`.
pub record RetryPolicy : Type 0 where
  pub max_attempts : ℕ
  pub backoff : BackoffStrategy
  pub base_delay : ℕ
  pub max_delay : ℕ

pub record PipeStep : Type 0 where
  pub tool : Text
  pub input : Table Expr

pub data StreamMode : Type 0 where
  default passthrough : StreamMode

-- `max` is a `u32`.
pub record RepeatConfig : Type 0 where
  pub until : Text
  pub max : ℕ
  pub as_var : Option Text

pub record Step : Type 0 where
  pub id : Text
  pub tool : Text
  pub input : Table Expr
  pub edges : List Edge
  pub depends_on : List Text
  pub join : JoinPolicy
  pub on_error : ErrorAction
  pub retry : Option RetryPolicy
  pub timeout : Option ℕ
  pub credentials : Table Text
  pub grant : Option (List Text)
  pub pipe : List PipeStep
  pub stream : StreamMode
  pub repeat : Option RepeatConfig

pub record Workflow : Type 0 where
  pub id : Text
  pub name : Text
  pub version : Text
  pub entry : Text
  pub steps : List Step
  pub capabilities : List Text
  pub metadata : Table Text
  pub description : Option Text
  pub input_schema : Option Json
  pub output_schema : Option Json
  pub register_as_tool : Bool

-- `Workflow::new`
unfoldable pub new_workflow : (id name entry : Text) → Workflow
new_workflow id name entry = record {
  id = id;
  name = name;
  version = text "0.1.0";
  entry = entry;
  steps = [];
  capabilities = [];
  metadata = [];
  description = none;
  input_schema = none;
  output_schema = none;
  register_as_tool = false;
}

unfoldable pub add_step : Workflow → Step → Workflow
add_step self s = record self { steps = self.steps ++ s ∷ [] }

-- `Step::new`
unfoldable pub new_step : (id tool : Text) → Step
new_step id tool = record {
  id = id;
  tool = tool;
  input = [];
  edges = [];
  depends_on = [];
  join = JoinPolicy.all;
  on_error = fail;
  retry = none;
  timeout = none;
  credentials = [];
  grant = none;
  pipe = [];
  stream = default;
  repeat = none;
}

unfoldable pub with_edge : Step → EdgeTarget → Step
with_edge self target = record self {
  edges = self.edges ++ record { target = target; condition = none; priority = pos 0 } ∷ [];
}

unfoldable pub with_depends_on : Step → Text → Step
with_depends_on self dep = record self { depends_on = self.depends_on ++ dep ∷ [] }

unfoldable pub find_step : List Step → Text → Option Step
find_step [] id = none
find_step (s ∷ steps) id = if text_eq s.id id then some s else find_step steps id

-- `Workflow::get_step`
unfoldable pub get_step : Workflow → Text → Option Step
get_step self id = find_step self.steps id
