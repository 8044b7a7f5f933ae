-- ===== src/AgUi/Thread.antt =====
-- `createAgentThread` of ui/ag-ui/core.ts: the state of one thread and its events. `fresh` is what `newId` would return in the call; `seen` lists the calls of `onEvent`.
pub mod Runs
pub mod Replay
pub mod Streams
pub mod Ids
mod Tests
use chanx_kit.AgUi.Contract
use chanx_kit.AgUi.Contract.{AgUiEvent, AgUiEventMessage}
use chanx_kit.AgUi.Contract.Messages.{AgUiMessage, UserMessage, ToolMessage}
use chanx_kit.AgUi.Contract.Content.{plain}
use chanx_kit.AgUi.Contract.Parts.{Context, ResumeEntry, Tool}
use chanx_kit.AgUi.Contract.Runs.{AgUiCancelMessage, RunStartedEvent}
use chanx_kit.AgUi.Contract.TextEvents.{TextRole}
use chanx_kit.AgUi.Contract.ToolEvents.{ToolCallResultEvent, ToolCallChunkEvent}
use chanx_kit.AgUi.Messages.{
  Message, Role, missing, text, append_args, append_text, made, of_message, start_tool_call,
  tool_call_parent, upsert,
}
use chanx_kit.Prelude.{
  Bool, Entries, Field, List, Option, String, Unknown, [], absent, false, if◌then◌else◌, is_true,
  last?, leb, ltb, map, max, none, not, opt_eq, or_else, read, some, true, ℕ, ◌&&◌, ◌++◌, ◌∷◌,
}
use chanx_kit.Store.{Store, create, publish}

pub record AgentThreadSnapshot : Type 0 where
  pub messages : List Message
  pub run_id : Option String
  pub running : Bool
  pub error : Option String
  pub state : Unknown

pub record AgentThread : Type 0 where
  pub thread_id : String
  pub store : Store AgentThreadSnapshot
  pub last_seq : ℕ
  pub seen : List AgUiEvent

abbrev pub create_agent_thread : String → AgentThread
create_agent_thread thread_id = record {
  thread_id = thread_id;
  store = create (record {
    messages = [];
    run_id = none;
    running = false;
    error = none;
    state = Unknown.undefined;
  });
  last_seq = 0;
  seen = [];
}

abbrev pub snapshot_of : AgentThread → AgentThreadSnapshot
snapshot_of t = t.store.snapshot

abbrev pub show : AgentThreadSnapshot → AgentThread → AgentThread
show next t = record t { store = publish next t.store }

-- `publish({ messages })`
abbrev pub show_messages : List Message → AgentThread → AgentThread
show_messages ms t = show (record (snapshot_of t) { messages = ms }) t

abbrev pub messages_of : AgentThread → List Message
messages_of t = (snapshot_of t).messages

-- The role of a text message that starts.
abbrev pub start_role : Option TextRole → Role
start_role none = Role.assistant
start_role (some TextRole.developer) = Role.developer
start_role (some TextRole.system) = Role.system
start_role (some TextRole.assistant) = Role.assistant
start_role (some TextRole.user) = Role.user

-- `snapshot.messages.at(-1)?.id ?? newId()`
abbrev pub last_id : String → List Message → String
last_id fresh ms = elim (last? ms) [ none ↦ fresh | some m ↦ m.id ]

abbrev pub result_message : ToolCallResultEvent → Message
result_message e = of_message (
    AgUiMessage.tool (record {
      metadata = absent;
      id = e.message_id;
      content = e.content;
      tool_call_id = e.tool_call_id;
      error = absent;
      encrypted_value = absent;
      subagent_run_id = absent;
    }))

-- `appendArgs` publishes only if the call is known.
abbrev pub show_args : String → String → AgentThread → AgentThread
show_args tool_call_id delta t = elim (tool_call_parent tool_call_id (messages_of t)) [
  | none ↦ t
  | some parent ↦ show_messages (append_args tool_call_id delta (messages_of t)) t
]

abbrev pub show_call : String → String → Option String → AgentThread → AgentThread
show_call tool_call_id name parent_id t =
    show_messages (start_tool_call tool_call_id name parent_id (messages_of t)) t

-- `TOOL_CALL_CHUNK`, for a call with an id
abbrev pub show_chunk : String → ToolCallChunkEvent → AgentThread → AgentThread
show_chunk id e t =
    let started : AgentThread = elim (tool_call_parent id (messages_of t)) [
      | none ↦ show_call id (or_else (read e.tool_call_name) "") (read e.parent_message_id) t
      | some parent ↦ t
    ] in
    show_args id (or_else (read e.delta) "") started

-- An error without a number, while a numbered run is in flight, is a refusal to this tab alone.
abbrev pub is_refusal : Option ℕ → AgentThread → Bool
is_refusal none t = ltb 0 t.last_seq && (snapshot_of t).running
is_refusal (some seq) t = false

-- The `switch` of `apply`.
unfoldable pub dispatch : String → AgUiEvent → Option ℕ → AgentThread → AgentThread
dispatch fresh (AgUiEvent.run_started e) seq t =
    show (record (snapshot_of t) { run_id = some e.run_id; running = true; error = none }) t
dispatch fresh (AgUiEvent.run_finished e) seq t =
    show (record (snapshot_of t) { run_id = none; running = false }) t
dispatch fresh (AgUiEvent.run_error e) seq t =
    if is_refusal seq t
    then show (record (snapshot_of t) { error = some e.message }) t
    else show (record (snapshot_of t) { run_id = none; running = false; error = some e.message }) t
dispatch fresh (AgUiEvent.text_message_start e) seq t =
    show_messages
      (upsert e.message_id (λ m. or_else m (made e.message_id (start_role e.role) (text "")))
        (messages_of t))
      t
dispatch fresh (AgUiEvent.text_message_content e) seq t =
    show_messages (append_text e.message_id e.delta (messages_of t)) t
dispatch fresh (AgUiEvent.text_message_chunk e) seq t =
    let id = or_else (read e.message_id) (last_id fresh (messages_of t)) in
    show_messages (append_text id (or_else (read e.delta) "") (messages_of t)) t
dispatch fresh (AgUiEvent.tool_call_start e) seq t =
    show_call e.tool_call_id e.tool_call_name (read e.parent_message_id) t
dispatch fresh (AgUiEvent.tool_call_args e) seq t = show_args e.tool_call_id e.delta t
dispatch fresh (AgUiEvent.tool_call_chunk e) seq t = elim (read e.tool_call_id) [
  | none ↦ t
  | some id ↦ if is_true id then show_chunk id e t else t
]
dispatch fresh (AgUiEvent.tool_call_result e) seq t =
    show_messages (upsert e.message_id (λ m. result_message e) (messages_of t)) t
dispatch fresh (AgUiEvent.messages_snapshot e) seq t = show_messages (map of_message e.messages) t
dispatch fresh (AgUiEvent.state_snapshot e) seq t =
    show (record (snapshot_of t) { state = e.snapshot }) t
dispatch fresh _ seq t = t

abbrev pub is_run_start : AgUiEvent → Option String
is_run_start (AgUiEvent.run_started e) = some e.run_id
is_run_start _ = none

-- `apply` with a number: an event that was applied before is dropped; a run that is not the one in
-- flight starts its own count.
abbrev pub is_other_start : AgUiEvent → AgentThread → Bool
is_other_start event t = elim (is_run_start event) [
  | none ↦ false
  | some id ↦ not (opt_eq (some id) (snapshot_of t).run_id)
]

abbrev pub numbered : ℕ → AgUiEvent → AgentThread → AgentThread
numbered seq event t = record t {
  last_seq = if is_other_start event t then max 0 seq else max t.last_seq seq;
}

abbrev pub is_applied : ℕ → AgUiEvent → AgentThread → Bool
is_applied seq event t = not (is_other_start event t) && leb seq t.last_seq

abbrev pub handle : String → AgUiEvent → Option ℕ → AgentThread → AgentThread
handle fresh event seq t =
    let t' = dispatch fresh event seq t in record t' { seen = t'.seen ++ event ∷ [] }

unfoldable pub apply : String → AgUiEvent → Option ℕ → AgentThread → AgentThread
unfolding dispatch
apply fresh event none t = handle fresh event none t
apply fresh event (some seq) t =
    if is_applied seq event t then t else handle fresh event (some seq) (numbered seq event t)

-- `on.ag_ui_event`, with the number of the envelope
abbrev pub on : String → AgUiEventMessage → Option ℕ → AgentThread → AgentThread
on fresh message seq t = apply fresh message.payload seq t
