-- ===== src/Process/Nodes.antt =====
-- The nodes of a run that are being executed, from crates/konflux-substrate/src/process.rs.
use konf.Shared.{ℕ, Text}

pub data NodeStatus : Type 0 where
  running : NodeStatus
  retrying : ℕ → ℕ → NodeStatus
  completed : ℕ → NodeStatus
  failed : Text → NodeStatus

pub record ActiveNode : Type 0 where
  pub node_id : Text
  pub tool_name : Text
  pub started_at : ℕ
  pub status : NodeStatus
