-- ===== src/AgUi/Contract/Parts.antt =====
-- Tools, context and usage of ui/ag-ui/contract.ts. A tag with one value, such as `type`, is the constructor of
-- the union, `unknown` is any value, and a number is a count or a time.
use chanx_kit.Prelude.{Field, List, String, Unknown, ℕ}

-- Name and arguments of a function call.
pub record FunctionCall : Type 0 where
  pub name : String
  pub arguments : String

-- A tool call, modelled after OpenAI tool calls. Carries its own metadata rather than folding into the assistant message that owns it: several tool calls can share one parent, so merging them all into it would make the result depend on their relative order.
pub record ToolCall : Type 0 where
  pub metadata : Field (List (String × Unknown))
  pub id : String
  pub function : FunctionCall
  pub encrypted_value : Field String

-- A tool definition.
pub record Tool : Type 0 where
  pub name : String
  pub description : String
  pub parameters : Field Unknown

-- Additional context for the agent.
pub record Context : Type 0 where
  pub description : String
  pub value : String

-- Numeric-only, per-(provider, model) token usage summary. Deliberately carries no content-bearing or identifying fields (no prompts, completions, messages, thread/run/user IDs) — only provider/model labels and numeric token counts.
pub record TokenUsage : Type 0 where
  pub provider : Field String
  pub model : Field String
  pub input_tokens : Field ℕ
  pub output_tokens : Field ℕ
  pub total_tokens : Field ℕ
  pub reasoning_tokens : Field ℕ
  pub cached_input_tokens : Field ℕ

-- A pause carried inside ``RunFinishedEvent.outcome`` when the outcome is ``RunFinishedInterruptOutcome``. The client resumes by addressing this interrupt in the resume array of the next RunAgentInput.
pub record Interrupt : Type 0 where
  pub id : String
  pub reason : String
  pub message : Field String
  pub tool_call_id : Field String
  pub response_schema : Field (List (String × Unknown))
  pub expires_at : Field String
  pub metadata : Field (List (String × Unknown))
  pub subagent_run_id : Field String

pub data ResumeStatus : Type 0 where
  resolved cancelled : ResumeStatus

-- A per-interrupt response in the resume array of a RunAgentInput. ``metadata`` carries envelope data about the response — signatures, routing keys — as opposed to ``payload``, which is the answer the agent asked for and will act on.
pub record ResumeEntry : Type 0 where
  pub metadata : Field (List (String × Unknown))
  pub interrupt_id : String
  pub status : ResumeStatus
  pub payload : Field Unknown
