-- ===== src/Notification/Connect.antt =====
-- `connectNotifications` of ui/notification/core.ts: a feed with the controller of its topics, whose `sendTopic`
-- is given a topic and a message.
use chanx_kit.Controller.{Call, controller_start, controller_stop, controller_send}
use chanx_kit.Notification.Contract.{ContractToClient, NotificationAckMessage}
use chanx_kit.Notification.Feed.{NotificationFeed, create_notification_feed, default_limit}
use chanx_kit.Notification.Feed.{ack_all as ack_feed, on as on_feed}
use chanx_kit.Prelude.{List, Option, String, [], map, or_else, ℕ, ◌++◌, ◌∷◌}

pub record Connected : Type 0 where
  pub limit : ℕ
  pub feed : NotificationFeed
  pub calls : List (Call (String × NotificationAckMessage))

abbrev pub connect_notifications : Option ℕ → Connected
connect_notifications limit = record {
  limit = or_else limit default_limit;
  feed = create_notification_feed;
  calls = [];
}

unfoldable pub receive : String → ContractToClient → Option String → Connected → Connected
receive uuid message topic c = record c { feed = on_feed c.limit uuid message topic c.feed }

unfoldable pub ack_all : Connected → Connected
ack_all c =
    let acked = ack_feed c.feed in
    record c { feed = acked.1; calls = c.calls ++ map controller_send acked.0 }

abbrev pub start : Connected → Connected
start c = record c { calls = c.calls ++ controller_start ∷ [] }

abbrev pub stop : Connected → Connected
stop c = record c { calls = c.calls ++ controller_stop ∷ [] }
