-- ===== src/AgUi/Contract.antt =====
-- The events as one union, and what each side sends of ui/ag-ui/contract.ts. A tag with one value, such as `type`, is the constructor of
-- the union, `unknown` is any value, and a number is a count or a time.
pub mod Parts
pub mod Content
pub mod Messages
pub mod Runs
pub mod TextEvents
pub mod ReasoningEvents
pub mod ToolEvents
use TextEvents.{
  TextMessageStartEvent, TextMessageContentEvent, TextMessageEndEvent, TextMessageChunkEvent,
  ThinkingTextMessageStartEvent, ThinkingTextMessageContentEvent, ThinkingTextMessageEndEvent,
  ThinkingStartEvent, ThinkingEndEvent,
}
use ToolEvents.{
  ToolCallStartEvent, ToolCallArgsEvent, ToolCallEndEvent, ToolCallChunkEvent, ToolCallResultEvent,
  StateSnapshotEvent, StateDeltaEvent, MessagesSnapshotEvent, RawEvent, CustomEvent,
}
use ReasoningEvents.{
  ActivitySnapshotEvent, ActivityDeltaEvent, ReasoningStartEvent, ReasoningMessageStartEvent,
  ReasoningMessageContentEvent, ReasoningMessageEndEvent, ReasoningMessageChunkEvent,
  ReasoningEndEvent, ReasoningEncryptedValueEvent,
}
use Runs.{
  RunStartedEvent, RunFinishedEvent, RunErrorEvent, StepStartedEvent, StepFinishedEvent,
  SubagentStartedEvent, SubagentFinishedEvent, SubagentErrorEvent, AgUiCancelMessage,
  AgUiRunMessage,
}

pub data AgUiEvent : Type 0 where
  text_message_start : TextMessageStartEvent → AgUiEvent
  text_message_content : TextMessageContentEvent → AgUiEvent
  text_message_end : TextMessageEndEvent → AgUiEvent
  text_message_chunk : TextMessageChunkEvent → AgUiEvent
  thinking_text_message_start : ThinkingTextMessageStartEvent → AgUiEvent
  thinking_text_message_content : ThinkingTextMessageContentEvent → AgUiEvent
  thinking_text_message_end : ThinkingTextMessageEndEvent → AgUiEvent
  tool_call_start : ToolCallStartEvent → AgUiEvent
  tool_call_args : ToolCallArgsEvent → AgUiEvent
  tool_call_end : ToolCallEndEvent → AgUiEvent
  tool_call_chunk : ToolCallChunkEvent → AgUiEvent
  tool_call_result : ToolCallResultEvent → AgUiEvent
  thinking_start : ThinkingStartEvent → AgUiEvent
  thinking_end : ThinkingEndEvent → AgUiEvent
  state_snapshot : StateSnapshotEvent → AgUiEvent
  state_delta : StateDeltaEvent → AgUiEvent
  messages_snapshot : MessagesSnapshotEvent → AgUiEvent
  activity_snapshot : ActivitySnapshotEvent → AgUiEvent
  activity_delta : ActivityDeltaEvent → AgUiEvent
  raw : RawEvent → AgUiEvent
  custom : CustomEvent → AgUiEvent
  run_started : RunStartedEvent → AgUiEvent
  run_finished : RunFinishedEvent → AgUiEvent
  run_error : RunErrorEvent → AgUiEvent
  step_started : StepStartedEvent → AgUiEvent
  step_finished : StepFinishedEvent → AgUiEvent
  reasoning_start : ReasoningStartEvent → AgUiEvent
  reasoning_message_start : ReasoningMessageStartEvent → AgUiEvent
  reasoning_message_content : ReasoningMessageContentEvent → AgUiEvent
  reasoning_message_end : ReasoningMessageEndEvent → AgUiEvent
  reasoning_message_chunk : ReasoningMessageChunkEvent → AgUiEvent
  reasoning_end : ReasoningEndEvent → AgUiEvent
  reasoning_encrypted_value : ReasoningEncryptedValueEvent → AgUiEvent
  subagent_started : SubagentStartedEvent → AgUiEvent
  subagent_finished : SubagentFinishedEvent → AgUiEvent
  subagent_error : SubagentErrorEvent → AgUiEvent

-- One AG-UI event on its way to the client, as the protocol's ``Event`` union.
pub record AgUiEventMessage : Type 0 where
  pub payload : AgUiEvent

pub data ContractToServer : Type 0 where
  ag_ui_cancel : AgUiCancelMessage → ContractToServer
  ag_ui_run : AgUiRunMessage → ContractToServer

pub data ContractToClient : Type 0 where
  ag_ui_event : AgUiEventMessage → ContractToClient
