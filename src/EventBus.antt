-- ===== src/EventBus.antt =====
-- The events of crates/konf-runtime/src/event_bus.rs. The bus itself is a broadcast channel; an
-- operation that emits returns its events in order.
use konf.Shared.{ℕ, Bool, Option, Text, text}
use konf.Process.Nodes.{NodeStatus}

pub data RunEvent : Type 0 where
  run_started :
      (run_id : ℕ) (workflow_id namespace : Text) (parent_id : Option ℕ) (started_at : ℕ) → RunEvent
  node_start : (run_id : ℕ) (node_id tool : Text) (at : ℕ) → RunEvent
  node_end : (run_id : ℕ) (node_id : Text) (status : NodeStatus) (at : ℕ) → RunEvent
  text_delta : (run_id : ℕ) (node_id delta : Text) → RunEvent
  run_completed : (run_id duration_ms : ℕ) → RunEvent
  run_failed : (run_id duration_ms : ℕ) (error : Text) → RunEvent
  run_cancelled : (run_id : ℕ) (reason : Text) → RunEvent
  tool_invoked : (tool namespace : Text) (at : ℕ) (success : Bool) → RunEvent
  schedule_fired : (job_id : ℕ) (workflow namespace : Text) (fired_at : ℕ) → RunEvent
  schedule_failed : (job_id : ℕ) (workflow reason : Text) → RunEvent
  intent_replayed : (run_id workflow : Text) (replay_count : ℕ) → RunEvent
  journal_appended : (sequence : ℕ) (event_type namespace : Text) (run_id : ℕ) → RunEvent

-- `RunEvent::kind`
unfoldable pub kind : RunEvent → Text
kind (run_started _ _ _ _ _) = text "run_started"
kind (node_start _ _ _ _) = text "node_start"
kind (node_end _ _ _ _) = text "node_end"
kind (text_delta _ _ _) = text "text_delta"
kind (run_completed _ _) = text "run_completed"
kind (run_failed _ _ _) = text "run_failed"
kind (run_cancelled _ _) = text "run_cancelled"
kind (tool_invoked _ _ _ _) = text "tool_invoked"
kind (schedule_fired _ _ _ _) = text "schedule_fired"
kind (schedule_failed _ _ _) = text "schedule_failed"
kind (intent_replayed _ _ _) = text "intent_replayed"
kind (journal_appended _ _ _ _) = text "journal_appended"

-- `RunEvent::namespace`
unfoldable pub namespace_of : RunEvent → Text
namespace_of (run_started _ _ ns _ _) = ns
namespace_of (tool_invoked _ ns _ _) = ns
namespace_of (schedule_fired _ _ ns _) = ns
namespace_of (journal_appended _ _ ns _) = ns
namespace_of _ = text ""
