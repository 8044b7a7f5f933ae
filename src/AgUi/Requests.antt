-- ===== src/AgUi/Requests.antt =====
-- `run` and `cancel` of `createAgentThread` of ui/ag-ui/core.ts: what a thread asks of the server.
use chanx_kit.AgUi.Contract.Parts.{Context, ResumeEntry, Tool}
use chanx_kit.AgUi.Contract.Runs.{AgUiCancelMessage}
use chanx_kit.AgUi.Messages.{Message, Role, text, made}
use chanx_kit.Prelude.{
  Entries, Field, List, Option, String, Unknown, [], if◌then◌else◌, is_true, none, or_else, some,
  ◌++◌, ◌∷◌,
}
use chanx_kit.AgUi.Thread.{AgentThread, show, snapshot_of}

-- The `input` of `run`: the keys of `RunAgentInput` that it may set; its `messages` are never used.
pub record RunInput : Type 0 where
  pub thread_id : Option String
  pub run_id : Option String
  pub parent_run_id : Field String
  pub state : Option Unknown
  pub tools : Option (List Tool)
  pub context : Option (List Context)
  pub forwarded_props : Option Unknown
  pub resume : Field (List ResumeEntry)

-- The payload of `ag_ui_run`.
pub record RunRequest : Type 0 where
  pub thread_id : String
  pub run_id : String
  pub parent_run_id : Field String
  pub state : Unknown
  pub messages : List Message
  pub tools : List Tool
  pub context : List Context
  pub forwarded_props : Unknown
  pub resume : Field (List ResumeEntry)

-- `snapshot.state ?? {}`
abbrev pub state_or_empty : Unknown → Unknown
state_or_empty Unknown.undefined = Unknown.obj Entries.end
state_or_empty Unknown.nothing = Unknown.obj Entries.end
state_or_empty state = state

-- `{ id: newId(), role: 'user', content: text }`
abbrev pub user_message : String → String → Message
user_message id content = made id Role.user (text content)

-- `run`: the run's id, the request for the server, and the thread. `fresh_run` and `fresh_message`
-- are what the calls of `newId` return.
unfoldable pub run : String → String → String → RunInput → AgentThread → RunRequest × AgentThread
run fresh_run fresh_message content input t =
    let s = snapshot_of t in
    let messages = s.messages ++ user_message fresh_message content ∷ [] in
    (
      record {
        thread_id = or_else input.thread_id t.thread_id;
        run_id = or_else input.run_id fresh_run;
        parent_run_id = input.parent_run_id;
        state = or_else input.state (state_or_empty s.state);
        messages = messages;
        tools = or_else input.tools [];
        context = or_else input.context [];
        forwarded_props = or_else input.forwarded_props (Unknown.obj Entries.end);
        resume = input.resume;
      },
      show (record s { messages = messages; error = none }) t,
    )

-- `cancel`: the message that it sends, if a run is in flight.
unfoldable pub cancel : AgentThread → Option AgUiCancelMessage
cancel t = elim (snapshot_of t).run_id [
  | none ↦ none
  | some id ↦ if is_true id then some (record { payload = record { run_id = id } }) else none
]
