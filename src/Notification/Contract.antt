-- ===== src/Notification/Contract.antt =====
-- The messages of ui/notification/contract.ts (notification@1). A tag with one value, such as `action`, is the
-- constructor of the union, and a number is a count or a time in milliseconds.
use chanx_kit.Prelude.{Field, List, Option, String, Unknown}

pub record NotificationAckPayload : Type 0 where
  pub ids : List String

-- Client acknowledges that notifications were seen.
pub record NotificationAckMessage : Type 0 where
  pub payload : NotificationAckPayload

-- Server confirms an acknowledgement was recorded.
pub record NotificationAckedMessage : Type 0 where
  pub payload : NotificationAckPayload

pub data NotificationLevel : Type 0 where
  info success warning error : NotificationLevel

pub record NotificationPayload : Type 0 where
  pub title : String
  pub body : Field String
  pub level : Option NotificationLevel
  pub id : Option String
  pub created_at : Option String
  pub data_value : Option (List (String × Unknown))

-- A notification delivered to the client.
pub record NotificationMessage : Type 0 where
  pub payload : NotificationPayload

pub data ContractToServer : Type 0 where
  notification_ack : NotificationAckMessage → ContractToServer

pub data ContractToClient : Type 0 where
  notification_acked : NotificationAckedMessage → ContractToClient
  notification : NotificationMessage → ContractToClient
