-- ===== src/Schema.antt =====
-- crates/konflux-substrate/src/parser/schema.rs: the parsed workflow. A map that keeps its order is
-- a table with one entry to a key.
use konf.Shared.{
  ℕ, Bool, true, false, Option, none, some, List, Text, text, text_eq, Table, Json, bool, string,
}

pub record ParallelTaskConfig : Type 0 where
  pub tool : Text
  pub with_args : Option Json

pub data DoBlock : Type 0 where
  single : Text → DoBlock
  parallel : List (Table ParallelTaskConfig) → DoBlock

pub data PipeStepSchema : Type 0 where
  simple : Text → PipeStepSchema
  with_map : Table Json → PipeStepSchema
  full : Text → Option Json → PipeStepSchema

pub record ThenBranchSchema : Type 0 where
  pub when : Option Text
  pub then_step : Option Text
  pub goto : Option Text
  pub else_branch : Option Bool

pub data ThenBlock : Type 0 where
  unconditional : Text → ThenBlock
  multiple : List Text → ThenBlock
  conditional : List ThenBranchSchema → ThenBlock

pub record CatchBranchSchema : Type 0 where
  pub when : Option Json
  pub do_tool : Option Text
  pub with_args : Option Json
  pub then_step : Option Text
  pub else_branch : Option Bool

pub data CatchBlock : Type 0 where
  catch_all : Text → CatchBlock
  branches : List CatchBranchSchema → CatchBlock

pub record RetryConfigSchema : Type 0 where
  pub times : ℕ
  pub delay : Option Text
  pub backoff : Option Text
  pub max_delay : Option Text
  pub on : Option (List Text)

pub record RepeatConfigSchema : Type 0 where
  pub until : Text
  pub max : ℕ
  pub as_var : Option Text

pub record JoinConfigSchema : Type 0 where
  pub wait_for : List Text
  pub policy : Option Text

pub data StreamConfigSchema : Type 0 where
  unset : StreamConfigSchema
  enabled : Bool → StreamConfigSchema
  mode : Text → StreamConfigSchema

pub record NodeSchema : Type 0 where
  pub do_block : Option DoBlock
  pub with_args : Option Json
  pub pipe : List PipeStepSchema
  pub then_block : Option ThenBlock
  pub catch : CatchBlock
  pub retry : Option RetryConfigSchema
  pub timeout : Option Text
  pub entry : Option Bool
  pub repeat : Option RepeatConfigSchema
  pub stream : StreamConfigSchema
  pub return_value : Option Json
  pub join : Option JoinConfigSchema
  pub credentials : Table Text
  pub grant : Option (List Text)

pub record WorkflowSchema : Type 0 where
  pub workflow : Text
  pub version : Text
  pub description : Option Text
  pub capabilities : List Text
  pub input_schema : Option Json
  pub output_schema : Option Json
  pub register_as_tool : Bool
  pub nodes : Table NodeSchema

when_holds : Option Json → Bool
when_holds none = true
when_holds (some (bool b)) = b
when_holds (some (string s)) = text_eq s (text "true")
when_holds _ = false

-- `CatchBranchSchema::is_match`
unfoldable pub is_match : CatchBranchSchema → Bool
unfolding when_holds
is_match self = elim self.else_branch [ some true ↦ true | _ ↦ when_holds self.when ]
