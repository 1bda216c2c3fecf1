-- ===== src/Journal.antt =====
-- crates/konflux-substrate/src/journal.rs, the contract of a journal, and
-- crates/konf-runtime/src/interaction.rs, the records that the runtime writes to it. A hash is a
-- text; how serde writes an interaction as JSON is an argument of the functions that need it.
use mathlib.Core.Option
use konf.Shared.{
  ℕ, Bool, true, false, ◌&&◌, ◌||◌, not, Option, none, some, List, ltb, ◌==◌, Text, text, text_eq,
  Json, as_object, as_str, get_field, Result,
}
use konf.Process.{Actor}

pub data InteractionKind : Type 0 where
  tool_dispatch node_lifecycle run_lifecycle error user_input llm_response : InteractionKind
  product_defined : Text → InteractionKind

pub data InteractionStatus : Type 0 where
  pending success observed : InteractionStatus
  failure : Text → InteractionStatus

pub record Interaction : Type 0 where
  pub id : ℕ
  pub parent_id : Option ℕ
  pub trace_id : ℕ
  pub run_id : Option ℕ
  pub node_id : Option Text
  pub actor : Actor
  pub namespace : Text
  pub target : Text
  pub kind : InteractionKind
  pub attributes : Json
  pub edge_rules_fired : List Text
  pub status : InteractionStatus
  pub summary : Option Text
  pub timestamp : ℕ
  pub step_index : ℕ
  pub stream_id : Text
  pub state_before_hash : Option Text
  pub state_after_hash : Option Text
  pub references : List ℕ
  pub in_reply_to : Option ℕ

pub data JournalError : Type 0 where
  storage serialization : Text → JournalError
  not_found : JournalError

pub record JournalEntry : Type 0 where
  pub run_id : Option ℕ
  pub session_id : Text
  pub namespace : Text
  pub event_type : Text
  pub payload : Json
  pub valid_to : Option ℕ
  pub idempotency_key : Option Text

pub record JournalRow : Type 0 where
  pub id : ℕ
  pub run_id : Option ℕ
  pub session_id : Text
  pub namespace : Text
  pub event_type : Text
  pub payload : Json
  pub created_at : ℕ
  pub valid_to : Option ℕ
  pub idempotency_key : Option Text

-- What the dispatcher asks of a `JournalStore`, on a journal with state `S`.
pub record JournalStore (S : Type 0) : Type 0 where
  pub append : JournalEntry → S → S × Result ℕ JournalError
  pub get_by_idempotency_key : Text → S → Result (Option JournalRow) JournalError

pub record JournalFilter : Type 0 where
  pub namespace : Option Text
  pub event_type : Option Text
  pub run_id : Option ℕ
  pub session_id : Option Text
  pub trace_id : Option ℕ
  pub include_expired : Bool

abbrev pub wants : Option Text → Text → Bool
wants none t = true
wants (some w) t = text_eq t w

abbrev pub wants_run : Option ℕ → Option ℕ → Bool
wants_run none r = true
wants_run (some w) none = false
wants_run (some w) (some r) = r == w

-- `row.payload.get("trace_id").and_then(as_str)`; `show` writes a UUID as text.
abbrev pub payload_trace : Json → Option Text
payload_trace payload =
    Option.bind (Option.bind (as_object payload) (get_field (text "trace_id"))) as_str

abbrev pub wants_trace : (show : ℕ → Text) → Option ℕ → Json → Bool
wants_trace show none payload = true
wants_trace show (some w) payload = elim (payload_trace payload) [
  | none ↦ true
  | some t ↦ text_eq t (show w)
]

abbrev pub is_expired : (now : ℕ) → Option ℕ → Bool
is_expired now none = false
is_expired now (some valid_to) = ltb valid_to now

-- `JournalFilter::matches`, at the time `now`.
unfoldable pub filter_matches : (show : ℕ → Text) (now : ℕ) → JournalFilter → JournalRow → Bool
filter_matches show now self row =
    wants self.namespace row.namespace
    && (wants self.event_type row.event_type
        && (wants_run self.run_id row.run_id
            && (wants self.session_id row.session_id
                && (wants_trace show self.trace_id row.payload
                    && (self.include_expired || not (is_expired now row.valid_to))))))
