-- ===== src/Presence/Contract.antt =====
-- The messages of ui/presence/contract.ts (presence@1). A tag with one value, such as `action`, is the
-- constructor of the union, and a number is a count or a time in milliseconds.
use chanx_kit.Prelude.{Field, List, Option, String, Unknown}

-- Someone present in a scope. ``id`` is what identifies them across connections.
pub record PresenceMember : Type 0 where
  pub id : String
  pub name : Field String
  pub data_value : Option (List (String × Unknown))

pub record PresenceEventPayload : Type 0 where
  pub scope : String
  pub member : PresenceMember

-- Someone became present in the scope.
pub record PresenceJoinMessage : Type 0 where
  pub payload : PresenceEventPayload

-- Someone is no longer present in the scope.
pub record PresenceLeaveMessage : Type 0 where
  pub payload : PresenceEventPayload

-- Client asks for the roster again, without reconnecting.
pub record PresenceRequestMessage : Type 0 where
  pub payload : Field ⊥

pub record PresenceStatePayload : Type 0 where
  pub scope : String
  pub members : List PresenceMember

-- Full member list, sent to a connection when it joins.
pub record PresenceStateMessage : Type 0 where
  pub payload : PresenceStatePayload

pub data ContractToServer : Type 0 where
  presence_request : PresenceRequestMessage → ContractToServer

pub data ContractToClient : Type 0 where
  presence_join : PresenceJoinMessage → ContractToClient
  presence_leave : PresenceLeaveMessage → ContractToClient
  presence_state : PresenceStateMessage → ContractToClient
