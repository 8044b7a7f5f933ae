-- ===== src/Chat/Connect.antt =====
-- `connectChat` of ui/chat/core.ts: a log with the topic controller of its topic.
use chanx_kit.Controller.{Call, controller_start, controller_stop, controller_send}
use chanx_kit.Chat.Contract.{ContractToClient, ContractToServer}
use chanx_kit.Chat.Log.{ChatLog, chat_backlog_request, chat_send, create_chat_log}
use chanx_kit.Chat.Log.{on as on_log}
use chanx_kit.Prelude.{List, Option, String, [], ℕ, ◌++◌, ◌∷◌}

pub record Connected : Type 0 where
  pub log : ChatLog
  pub calls : List (Call ContractToServer)

abbrev pub connect_chat : Connected
connect_chat = record { log = create_chat_log; calls = [] }

unfoldable pub receive : ContractToClient → Connected → Connected
receive message c = record c { log = on_log message c.log }

-- A message shows once the server publishes it back.
abbrev pub send : String → Connected → Connected
send body c = record c { calls = c.calls ++ controller_send (chat_send body) ∷ [] }

abbrev pub request_backlog : Option ℕ → Connected → Connected
request_backlog limit c = record c {
  calls = c.calls ++ controller_send (chat_backlog_request limit) ∷ [];
}

abbrev pub start : Connected → Connected
start c = record c { calls = c.calls ++ controller_start ∷ [] }

abbrev pub stop : Connected → Connected
stop c = record c { calls = c.calls ++ controller_stop ∷ [] }
