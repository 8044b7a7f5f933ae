-- ===== src/AgUi/Contract/Runs.antt =====
-- Runs, steps and subagents of ui/ag-ui/contract.ts. A tag with one value, such as `type`, is the constructor of
-- the union, `unknown` is any value, and a number is a count or a time.
use chanx_kit.Prelude.{Field, List, Option, String, Unknown, ℕ}
use chanx_kit.AgUi.Contract.Messages.{AgUiMessage}
use chanx_kit.AgUi.Contract.Parts.{Context, Interrupt, ResumeEntry, TokenUsage, Tool}

-- Input for running an agent.
pub record RunAgentInput : Type 0 where
  pub thread_id : String
  pub run_id : String
  pub parent_run_id : Field String
  pub state : Option Unknown
  pub messages : List AgUiMessage
  pub tools : List Tool
  pub context : List Context
  pub forwarded_props : Unknown
  pub resume : Field (List ResumeEntry)

-- Which run to stop. Named rather than implied, so a cancel that arrives after its run has ended cannot stop the one that replaced it.
pub record AgUiCancel : Type 0 where
  pub run_id : String

-- Client asks for the run in flight to stop. AG-UI has no cancellation event: over SSE a client stops a run by dropping the HTTP request, which a shared, long-lived socket has no equivalent for. The protocol leaves this to the transport, so it is asked for explicitly here.
pub record AgUiCancelMessage : Type 0 where
  pub payload : AgUiCancel

-- Client asks the agent to run; the payload is AG-UI's own ``RunAgentInput``.
pub record AgUiRunMessage : Type 0 where
  pub payload : RunAgentInput

-- Event indicating that a run has started.
pub record RunStartedEvent : Type 0 where
  pub metadata : Field (List (String × Unknown))
  pub timestamp : Field ℕ
  pub raw_event : Field Unknown
  pub thread_id : String
  pub run_id : String
  pub parent_run_id : Field String
  pub input : Field RunAgentInput

-- Outcome variant signalling that a run completed normally.
pub data RunFinishedSuccessOutcome : Type 0 where
  run_finished_success_outcome : RunFinishedSuccessOutcome

-- Outcome variant signalling that a run paused on one or more interrupts.
pub record RunFinishedInterruptOutcome : Type 0 where
  pub interrupts : List Interrupt

pub data RunOutcome : Type 0 where
  success : RunFinishedSuccessOutcome → RunOutcome
  interrupt : RunFinishedInterruptOutcome → RunOutcome

-- Event indicating that a run has finished. `outcome` is optional. Producers written before the interrupt-aware run lifecycle simply omit it (legacy back-compat). Newer producers set it explicitly to ``RunFinishedSuccessOutcome`` (``{"type": "success"}``) or ``RunFinishedInterruptOutcome`` (``{"type": "interrupt", "interrupts": [...]}``). The interrupt list lives inside the outcome so it travels with the variant that uses it.
pub record RunFinishedEvent : Type 0 where
  pub metadata : Field (List (String × Unknown))
  pub timestamp : Field ℕ
  pub raw_event : Field Unknown
  pub thread_id : String
  pub run_id : String
  pub result : Field Unknown
  pub outcome : Field RunOutcome
  pub usage : Field (List TokenUsage)

-- Event indicating that a run has encountered an error.
pub record RunErrorEvent : Type 0 where
  pub metadata : Field (List (String × Unknown))
  pub timestamp : Field ℕ
  pub raw_event : Field Unknown
  pub message : String
  pub code : Field String
  pub usage : Field (List TokenUsage)

-- Event indicating that a step has started.
pub record StepStartedEvent : Type 0 where
  pub metadata : Field (List (String × Unknown))
  pub timestamp : Field ℕ
  pub raw_event : Field Unknown
  pub step_name : String
  pub subagent_run_id : Field String

-- Event indicating that a step has finished.
pub record StepFinishedEvent : Type 0 where
  pub metadata : Field (List (String × Unknown))
  pub timestamp : Field ℕ
  pub raw_event : Field Unknown
  pub step_name : String
  pub subagent_run_id : Field String

-- Event indicating a subagent has started within the run.
pub record SubagentStartedEvent : Type 0 where
  pub metadata : Field (List (String × Unknown))
  pub timestamp : Field ℕ
  pub raw_event : Field Unknown
  pub subagent_run_id : String
  pub name : String
  pub description : Field String
  pub parent_subagent_run_id : Field String
  pub parent_tool_call_id : Field String
  pub parent_message_id : Field String

-- Outcome variant signalling that a subagent completed its work.
pub data SubagentFinishedSuccessOutcome : Type 0 where
  subagent_finished_success_outcome : SubagentFinishedSuccessOutcome

-- Outcome variant signalling that a subagent is paused awaiting outside input. The subagent's stream segment closes for THIS run (the run itself ends with an interrupt outcome); on resume the same ``subagent_run_id`` is re-announced as a continuation of the suspended invocation. ``interrupt_ids`` names the run-level interrupts this subagent directly owns — it MAY be empty or omitted for an ancestor suspended because a descendant interrupted.
pub record SubagentFinishedSuspendedOutcome : Type 0 where
  pub interrupt_ids : Field (List String)

pub data SubagentOutcome : Type 0 where
  success : SubagentFinishedSuccessOutcome → SubagentOutcome
  suspended : SubagentFinishedSuspendedOutcome → SubagentOutcome

-- Event indicating a subagent has finished.
pub record SubagentFinishedEvent : Type 0 where
  pub metadata : Field (List (String × Unknown))
  pub timestamp : Field ℕ
  pub raw_event : Field Unknown
  pub subagent_run_id : String
  pub result : Field Unknown
  pub outcome : Field SubagentOutcome

-- Event indicating a subagent has errored (independent of the run).
pub record SubagentErrorEvent : Type 0 where
  pub metadata : Field (List (String × Unknown))
  pub timestamp : Field ℕ
  pub raw_event : Field Unknown
  pub subagent_run_id : String
  pub message : String
  pub code : Field String
