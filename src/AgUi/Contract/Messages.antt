-- ===== src/AgUi/Contract/Messages.antt =====
-- The messages of ui/ag-ui/contract.ts. A tag with one value, such as `type`, is the constructor of
-- the union, `unknown` is any value, and a number is a count or a time.
use chanx_kit.Prelude.{Field, List, String, Unknown}
use chanx_kit.AgUi.Contract.Content.{UserContent}
use chanx_kit.AgUi.Contract.Parts.{ToolCall}

-- A developer message.
pub record DeveloperMessage : Type 0 where
  pub metadata : Field (List (String × Unknown))
  pub id : String
  pub content : String
  pub name : Field String
  pub encrypted_value : Field String
  pub subagent_run_id : Field String

-- A system message.
pub record SystemMessage : Type 0 where
  pub metadata : Field (List (String × Unknown))
  pub id : String
  pub content : String
  pub name : Field String
  pub encrypted_value : Field String
  pub subagent_run_id : Field String

-- An assistant message.
pub record AssistantMessage : Type 0 where
  pub metadata : Field (List (String × Unknown))
  pub id : String
  pub content : Field String
  pub name : Field String
  pub encrypted_value : Field String
  pub subagent_run_id : Field String
  pub tool_calls : Field (List ToolCall)

-- A user message supporting text or multimodal content.
pub record UserMessage : Type 0 where
  pub metadata : Field (List (String × Unknown))
  pub id : String
  pub content : UserContent
  pub name : Field String
  pub encrypted_value : Field String
  pub subagent_run_id : Field String

-- A tool result message.
pub record ToolMessage : Type 0 where
  pub metadata : Field (List (String × Unknown))
  pub id : String
  pub content : String
  pub tool_call_id : String
  pub error : Field String
  pub encrypted_value : Field String
  pub subagent_run_id : Field String

-- An activity progress message emitted between chat messages.
pub record ActivityMessage : Type 0 where
  pub metadata : Field (List (String × Unknown))
  pub id : String
  pub activity_type : String
  pub content : List (String × Unknown)
  pub subagent_run_id : Field String

-- A reasoning message containing the agent's internal reasoning process.
pub record ReasoningMessage : Type 0 where
  pub metadata : Field (List (String × Unknown))
  pub id : String
  pub content : String
  pub encrypted_value : Field String
  pub subagent_run_id : Field String

pub data AgUiMessage : Type 0 where
  developer : DeveloperMessage → AgUiMessage
  system : SystemMessage → AgUiMessage
  assistant : AssistantMessage → AgUiMessage
  user : UserMessage → AgUiMessage
  tool : ToolMessage → AgUiMessage
  activity : ActivityMessage → AgUiMessage
  reasoning : ReasoningMessage → AgUiMessage
