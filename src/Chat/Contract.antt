-- ===== src/Chat/Contract.antt =====
-- The messages of ui/chat/contract.ts (chat@1). A tag with one value, such as `action`, is the
-- constructor of the union, and a number is a count or a time in milliseconds.
use chanx_kit.Prelude.{Field, List, Option, String, ℕ}

pub record ChatAuthor : Type 0 where
  pub id : String
  pub name : Field String

-- One persisted chat message.
pub record ChatEntry : Type 0 where
  pub body : String
  pub author : ChatAuthor
  pub room : String
  pub id : Option String
  pub sent_at : Option String

pub record ChatBacklogPayload : Type 0 where
  pub room : String
  pub entries : List ChatEntry

-- Recent history, sent to a connection when it joins.
pub record ChatBacklogMessage : Type 0 where
  pub payload : ChatBacklogPayload

pub record ChatBacklogRequestPayload : Type 0 where
  pub limit : Field ℕ

-- Client asks for history again, without reconnecting.
pub record ChatBacklogRequestMessage : Type 0 where
  pub payload : Option ChatBacklogRequestPayload

-- A message published to the room.
pub record ChatMessage : Type 0 where
  pub payload : ChatEntry

pub record ChatSendPayload : Type 0 where
  pub body : String

-- Client posts a message to the room.
pub record ChatSendMessage : Type 0 where
  pub payload : ChatSendPayload

pub data ContractToServer : Type 0 where
  chat_backlog_request : ChatBacklogRequestMessage → ContractToServer
  chat_send : ChatSendMessage → ContractToServer

pub data ContractToClient : Type 0 where
  chat_backlog : ChatBacklogMessage → ContractToClient
  chat_message : ChatMessage → ContractToClient
