-- ===== src/AgUi/Contract/ReasoningEvents.antt =====
-- Reasoning and activity events of ui/ag-ui/contract.ts. A tag with one value, such as `type`, is the constructor of
-- the union, `unknown` is any value, and a number is a count or a time.
use chanx_kit.Prelude.{Bool, Field, List, Option, String, Unknown, ℕ}

-- Event indicating the start of a reasoning phase.
pub record ReasoningStartEvent : Type 0 where
  pub metadata : Field (List (String × Unknown))
  pub timestamp : Field ℕ
  pub raw_event : Field Unknown
  pub message_id : String
  pub subagent_run_id : Field String

-- Event indicating the start of a reasoning message.
pub record ReasoningMessageStartEvent : Type 0 where
  pub metadata : Field (List (String × Unknown))
  pub timestamp : Field ℕ
  pub raw_event : Field Unknown
  pub message_id : String
  pub subagent_run_id : Field String

-- Event containing a piece of reasoning message content.
pub record ReasoningMessageContentEvent : Type 0 where
  pub metadata : Field (List (String × Unknown))
  pub timestamp : Field ℕ
  pub raw_event : Field Unknown
  pub message_id : String
  pub delta : String
  pub subagent_run_id : Field String

-- Event indicating the end of a reasoning message.
pub record ReasoningMessageEndEvent : Type 0 where
  pub metadata : Field (List (String × Unknown))
  pub timestamp : Field ℕ
  pub raw_event : Field Unknown
  pub message_id : String
  pub subagent_run_id : Field String

-- Event containing a chunk of reasoning message content.
pub record ReasoningMessageChunkEvent : Type 0 where
  pub metadata : Field (List (String × Unknown))
  pub timestamp : Field ℕ
  pub raw_event : Field Unknown
  pub message_id : Field String
  pub delta : Field String
  pub subagent_run_id : Field String

-- Event indicating the end of a reasoning phase.
pub record ReasoningEndEvent : Type 0 where
  pub metadata : Field (List (String × Unknown))
  pub timestamp : Field ℕ
  pub raw_event : Field Unknown
  pub message_id : String
  pub subagent_run_id : Field String

pub data EncryptedSubtype : Type 0 where
  tool_call message : EncryptedSubtype

-- Event containing an encrypted value for a message or tool call.
pub record ReasoningEncryptedValueEvent : Type 0 where
  pub metadata : Field (List (String × Unknown))
  pub timestamp : Field ℕ
  pub raw_event : Field Unknown
  pub subtype : EncryptedSubtype
  pub entity_id : String
  pub encrypted_value : String
  pub subagent_run_id : Field String

-- Event containing a snapshot of an activity message.
pub record ActivitySnapshotEvent : Type 0 where
  pub metadata : Field (List (String × Unknown))
  pub timestamp : Field ℕ
  pub raw_event : Field Unknown
  pub message_id : String
  pub activity_type : String
  pub content : Unknown
  pub replace : Option Bool
  pub subagent_run_id : Field String

-- Event containing a JSON Patch delta for an activity message.
pub record ActivityDeltaEvent : Type 0 where
  pub metadata : Field (List (String × Unknown))
  pub timestamp : Field ℕ
  pub raw_event : Field Unknown
  pub message_id : String
  pub activity_type : String
  pub patch : List Unknown
  pub subagent_run_id : Field String
