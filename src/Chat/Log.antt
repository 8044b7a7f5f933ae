-- ===== src/Chat/Log.antt =====
-- `createChatLog` of ui/chat/core.ts: a store of the entries, oldest first. An entry's id may be
-- missing, and then it equals another missing id, as in a JavaScript `Set`.
pub mod Backlog
pub mod Ids
pub mod Order
mod Tests
use chanx_kit.Chat.Contract.{ChatBacklogPayload, ChatEntry, ContractToClient, ContractToServer}
use chanx_kit.Prelude.{
  value, Bool, List, Option, String, [], any, filter, gtb, if◌then◌else◌, is_true, last?, none, not,
  null, opt_eq, or_else, some, ℕ, ◌&&◌, ◌++◌, ◌∷◌,
}
use chanx_kit.Store.{Store, create, publish}

pub record ChatSnapshot : Type 0 where
  pub entries : List ChatEntry

abbrev pub ChatLog : Type 0
ChatLog = Store ChatSnapshot

abbrev pub create_chat_log : ChatLog
create_chat_log = create (record { entries = [] })

-- `entry.sent_at ?? ''`
abbrev pub sent : ChatEntry → String
sent entry = or_else entry.sent_at ""

-- `entries.some((e) => e.id === id)`, and whether `new Set(entries.map((e) => e.id))` has an id
abbrev pub has_id : Option String → List ChatEntry → Bool
has_id id = any (λ e. opt_eq e.id id)

-- `payload.entries.at(-1)?.sent_at ?? ''`
abbrev pub newest : List ChatEntry → String
newest entries = elim (last? entries) [ none ↦ "" | some e ↦ sent e ]

-- A live entry stays if the backlog does not know it and it is newer than the whole backlog.
abbrev pub is_live : List ChatEntry → ChatEntry → Bool
is_live backlog entry = not (has_id entry.id backlog) && gtb (sent entry) (newest backlog)

unfoldable pub chat_backlog : ChatBacklogPayload → ChatLog → ChatLog
chat_backlog payload log =
    publish
      (record {
        entries = payload.entries ++ filter (is_live payload.entries) log.snapshot.entries;
      })
      log

-- `payload.id` is truthy: it is there and not empty.
abbrev pub is_named : ChatEntry → Bool
is_named entry = is_true (or_else entry.id "")

unfoldable pub chat_message : ChatEntry → ChatLog → ChatLog
chat_message entry log =
    if is_named entry && has_id entry.id log.snapshot.entries
    then log
    else publish (record { entries = log.snapshot.entries ++ entry ∷ [] }) log

-- The handlers by action.
unfoldable pub on : ContractToClient → ChatLog → ChatLog
unfolding chat_backlog chat_message
on (ContractToClient.chat_backlog message) log = chat_backlog message.payload log
on (ContractToClient.chat_message message) log = chat_message message.payload log

unfoldable pub on_all : List ContractToClient → ChatLog → ChatLog
on_all [] log = log
on_all (m ∷ ms) log = on_all ms (on m log)

abbrev pub chat_send : String → ContractToServer
chat_send body = ContractToServer.chat_send (record { payload = record { body = body } })

abbrev pub chat_backlog_request : Option ℕ → ContractToServer
chat_backlog_request limit =
    ContractToServer.chat_backlog_request
      (record { payload = some (record { limit = elim limit [ none ↦ null | some n ↦ value n ] }) })
