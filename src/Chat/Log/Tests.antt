-- ===== src/Chat/Log/Tests.antt =====
-- Runs of the log, after ui/chat/tests/core.test.ts.
use chanx_kit.Chat.Contract
use chanx_kit.Chat.Contract.{ChatBacklogPayload, ChatEntry, ContractToClient}
use chanx_kit.Chat.Log.{ChatLog, chat_backlog, has_id}
use chanx_kit.Chat.Log.Backlog.{has_id-chat_backlog}
use chanx_kit.Prelude.{List, String, [], absent, gtb, refl, some, true, ◌==◌, ◌∷◌, ◌≡◌}

abbrev entry : String → String → ChatEntry
entry id sent_at = record {
  body = "hi";
  author = record { id = "u"; name = absent };
  room = "r";
  id = some id;
  sent_at = some sent_at;
}

abbrev backlog : ChatBacklogPayload
backlog = record { room = "r"; entries = entry "1" "2026-01" ∷ entry "2" "2026-02" ∷ [] }

abbrev log : ChatLog
log = record {
  listeners = [];
  snapshot = record {
    entries = entry "0" "2025-12" ∷ entry "2" "2026-02" ∷ entry "3" "2026-03" ∷ [];
  };
  told = [];
}

abbrev messages : List ContractToClient
messages =
    Contract.ContractToClient.chat_message (record { payload = entry "3" "2026-03" })
    ∷ Contract.ContractToClient.chat_backlog (record { payload = backlog })
    ∷ Contract.ContractToClient.chat_message (record { payload = entry "3" "2026-03" })
    ∷ []

merged :
    (chat_backlog backlog log).snapshot.entries
    ≡ entry "1" "2026-01" ∷ entry "2" "2026-02" ∷ entry "3" "2026-03" ∷ []
unfolding chat_backlog ◌==◌ gtb
merged = refl

has_id-chat_backlog_example : has_id (some "3") (chat_backlog backlog log).snapshot.entries ≡ true
unfolding ◌==◌ gtb
has_id-chat_backlog_example = has_id-chat_backlog backlog log "3" refl
