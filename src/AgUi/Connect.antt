-- ===== src/AgUi/Connect.antt =====
-- `connectAgentThread` of ui/ag-ui/core.ts: a thread with the topic controller of its topic.
use chanx_kit.Controller.{Call, controller_start, controller_stop, controller_send}
use chanx_kit.AgUi.Contract.Runs.{AgUiCancelMessage}
use chanx_kit.AgUi.Requests.{RunInput, RunRequest}
use chanx_kit.AgUi.Requests.{run as run_thread, cancel as cancel_thread}
use chanx_kit.AgUi.Contract.{AgUiEventMessage}
use chanx_kit.AgUi.Thread.{on as on_thread}
use chanx_kit.AgUi.Thread.{AgentThread, create_agent_thread}
use chanx_kit.Prelude.{List, Option, String, [], none, or_else, some, ◌++◌, ◌∷◌, ℕ}

-- What is sent to the topic.
pub data ToThread : Type 0 where
  ag_ui_run : RunRequest → ToThread
  ag_ui_cancel : AgUiCancelMessage → ToThread

pub record Connected : Type 0 where
  pub thread : AgentThread
  pub calls : List (Call ToThread)

-- The thread has the id that is given, or else the `thread_id` of the topic.
abbrev pub connect_agent_thread : Option String → Option String → Connected
connect_agent_thread thread_id param = record {
  thread = create_agent_thread (or_else thread_id (or_else param ""));
  calls = [];
}

abbrev pub send : ToThread → Connected → Connected
send message c = record c { calls = c.calls ++ controller_send message ∷ [] }

-- An event of the topic, with the number of its envelope.
unfoldable pub receive : String → AgUiEventMessage → Option ℕ → Connected → Connected
receive fresh message seq c = record c { thread = on_thread fresh message seq c.thread }

-- The connection, and the id of the run that it returns.
unfoldable pub run : String → String → String → RunInput → Connected → Connected × String
run fresh_run fresh_message content input c =
    let asked = run_thread fresh_run fresh_message content input c.thread in
    (send (ag_ui_run asked.0) (record c { thread = asked.1 }), (asked.0).run_id)

abbrev pub send_cancel : Option AgUiCancelMessage → Connected → Connected
send_cancel none c = c
send_cancel (some message) c = send (ag_ui_cancel message) c

unfoldable pub cancel : Connected → Connected
cancel c = send_cancel (cancel_thread c.thread) c

abbrev pub start : Connected → Connected
start c = record c { calls = c.calls ++ controller_start ∷ [] }

abbrev pub stop : Connected → Connected
stop c = record c { calls = c.calls ++ controller_stop ∷ [] }
