-- ===== src/AgUi/Contract/TextEvents.antt =====
-- Text and thinking events of ui/ag-ui/contract.ts. A tag with one value, such as `type`, is the constructor of
-- the union, `unknown` is any value, and a number is a count or a time.
use chanx_kit.Prelude.{Field, List, Option, String, Unknown, ℕ}

pub data TextRole : Type 0 where
  developer system assistant user : TextRole

-- Event indicating the start of a text message.
pub record TextMessageStartEvent : Type 0 where
  pub metadata : Field (List (String × Unknown))
  pub timestamp : Field ℕ
  pub raw_event : Field Unknown
  pub message_id : String
  pub role : Option TextRole
  pub name : Field String
  pub subagent_run_id : Field String

-- Event containing a piece of text message content.
pub record TextMessageContentEvent : Type 0 where
  pub metadata : Field (List (String × Unknown))
  pub timestamp : Field ℕ
  pub raw_event : Field Unknown
  pub message_id : String
  pub delta : String
  pub subagent_run_id : Field String

-- Event indicating the end of a text message.
pub record TextMessageEndEvent : Type 0 where
  pub metadata : Field (List (String × Unknown))
  pub timestamp : Field ℕ
  pub raw_event : Field Unknown
  pub message_id : String
  pub subagent_run_id : Field String

-- Event containing a chunk of text message content.
pub record TextMessageChunkEvent : Type 0 where
  pub metadata : Field (List (String × Unknown))
  pub timestamp : Field ℕ
  pub raw_event : Field Unknown
  pub message_id : Field String
  pub role : Field TextRole
  pub delta : Field String
  pub name : Field String
  pub subagent_run_id : Field String

-- Event indicating the start of a thinking step event.
pub record ThinkingStartEvent : Type 0 where
  pub metadata : Field (List (String × Unknown))
  pub timestamp : Field ℕ
  pub raw_event : Field Unknown
  pub title : Field String

-- Event indicating the end of a thinking step event.
pub record ThinkingEndEvent : Type 0 where
  pub metadata : Field (List (String × Unknown))
  pub timestamp : Field ℕ
  pub raw_event : Field Unknown

-- Event indicating the start of a thinking text message.
pub record ThinkingTextMessageStartEvent : Type 0 where
  pub metadata : Field (List (String × Unknown))
  pub timestamp : Field ℕ
  pub raw_event : Field Unknown

-- Event indicating a piece of a thinking text message.
pub record ThinkingTextMessageContentEvent : Type 0 where
  pub metadata : Field (List (String × Unknown))
  pub timestamp : Field ℕ
  pub raw_event : Field Unknown
  pub delta : String

-- Event indicating the end of a thinking text message.
pub record ThinkingTextMessageEndEvent : Type 0 where
  pub metadata : Field (List (String × Unknown))
  pub timestamp : Field ℕ
  pub raw_event : Field Unknown
