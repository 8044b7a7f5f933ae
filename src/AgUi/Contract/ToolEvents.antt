-- ===== src/AgUi/Contract/ToolEvents.antt =====
-- Tool call, state and custom events of ui/ag-ui/contract.ts. A tag with one value, such as `type`, is the constructor of
-- the union, `unknown` is any value, and a number is a count or a time.
use chanx_kit.Prelude.{Field, List, String, Unknown, ℕ}
use chanx_kit.AgUi.Contract.Messages.{AgUiMessage}

-- Event indicating the start of a tool call.
pub record ToolCallStartEvent : Type 0 where
  pub metadata : Field (List (String × Unknown))
  pub timestamp : Field ℕ
  pub raw_event : Field Unknown
  pub tool_call_id : String
  pub tool_call_name : String
  pub parent_message_id : Field String
  pub subagent_run_id : Field String

-- Event containing tool call arguments.
pub record ToolCallArgsEvent : Type 0 where
  pub metadata : Field (List (String × Unknown))
  pub timestamp : Field ℕ
  pub raw_event : Field Unknown
  pub tool_call_id : String
  pub delta : String
  pub subagent_run_id : Field String

-- Event indicating the end of a tool call.
pub record ToolCallEndEvent : Type 0 where
  pub metadata : Field (List (String × Unknown))
  pub timestamp : Field ℕ
  pub raw_event : Field Unknown
  pub tool_call_id : String
  pub subagent_run_id : Field String

-- Event containing a chunk of tool call content.
pub record ToolCallChunkEvent : Type 0 where
  pub metadata : Field (List (String × Unknown))
  pub timestamp : Field ℕ
  pub raw_event : Field Unknown
  pub tool_call_id : Field String
  pub tool_call_name : Field String
  pub parent_message_id : Field String
  pub delta : Field String
  pub subagent_run_id : Field String

pub data ToolRole : Type 0 where
  tool : ToolRole

-- Event containing the result of a tool call.
pub record ToolCallResultEvent : Type 0 where
  pub metadata : Field (List (String × Unknown))
  pub timestamp : Field ℕ
  pub raw_event : Field Unknown
  pub message_id : String
  pub tool_call_id : String
  pub content : String
  pub role : Field ToolRole
  pub subagent_run_id : Field String

-- Event containing a snapshot of the state.
pub record StateSnapshotEvent : Type 0 where
  pub metadata : Field (List (String × Unknown))
  pub timestamp : Field ℕ
  pub raw_event : Field Unknown
  pub snapshot : Unknown
  pub subagent_run_id : Field String

-- Event containing a delta of the state.
pub record StateDeltaEvent : Type 0 where
  pub metadata : Field (List (String × Unknown))
  pub timestamp : Field ℕ
  pub raw_event : Field Unknown
  pub delta : List Unknown
  pub subagent_run_id : Field String

-- Event containing a snapshot of the messages.
pub record MessagesSnapshotEvent : Type 0 where
  pub metadata : Field (List (String × Unknown))
  pub timestamp : Field ℕ
  pub raw_event : Field Unknown
  pub messages : List AgUiMessage

-- Event containing a raw event.
pub record RawEvent : Type 0 where
  pub metadata : Field (List (String × Unknown))
  pub timestamp : Field ℕ
  pub raw_event : Field Unknown
  pub event : Unknown
  pub source : Field String
  pub subagent_run_id : Field String

-- Event containing a custom event.
pub record CustomEvent : Type 0 where
  pub metadata : Field (List (String × Unknown))
  pub timestamp : Field ℕ
  pub raw_event : Field Unknown
  pub name : String
  pub value : Unknown
  pub subagent_run_id : Field String
