-- ===== src/Notification/Feed.antt =====
-- `createNotificationFeed` of ui/notification/core.ts. The feed is a store of the items; `limit`
-- is its option, and `uuid` is what `crypto.randomUUID()` returned in that call.

pub mod Invariant
pub mod Replay
pub mod Acks
mod Tests
use chanx_kit.Notification.Contract.{
  ContractToClient, NotificationAckMessage, NotificationAckPayload, NotificationLevel,
  NotificationPayload,
}
use chanx_kit.Prelude.{
  Field, List, Option, String, Unknown, [], filter, if◌then◌else◌, map, none, not, or_else, take, ℕ,
  ◌++◌, ◌==◌, ◌∷◌,
}
use chanx_kit.Store.{Store, create, publish}

pub record ReceivedNotification : Type 0 where
  pub title : String
  pub body : Field String
  pub level : Option NotificationLevel
  pub created_at : Option String
  pub data_value : Option (List (String × Unknown))
  pub id : String
  pub topic : String

pub record NotificationFeedSnapshot : Type 0 where
  pub items : List ReceivedNotification

abbrev pub NotificationFeed : Type 0
NotificationFeed = Store NotificationFeedSnapshot

abbrev pub default_limit : ℕ
default_limit = 50

abbrev pub create_notification_feed : NotificationFeed
create_notification_feed = create (record { items = [] })

-- `{ ...payload, id: payload.id ?? crypto.randomUUID(), topic: topic ?? '' }`
abbrev pub received : String → NotificationPayload → Option String → ReceivedNotification
received uuid payload topic = record {
  title = payload.title;
  body = payload.body;
  level = payload.level;
  created_at = payload.created_at;
  data_value = payload.data_value;
  id = or_else payload.id uuid;
  topic = or_else topic "";
}

-- The item that `on.notification` puts in front, and the cut to the limit.
unfoldable pub add_item :
    ℕ → ReceivedNotification → List ReceivedNotification → List ReceivedNotification
add_item limit item items =
    take limit (item ∷ filter (λ existing. not (existing.id == item.id)) items)

unfoldable pub on_notification :
    ℕ → String → NotificationPayload → Option String → NotificationFeed → NotificationFeed
unfolding add_item
on_notification limit uuid payload topic feed =
    publish (record { items = add_item limit (received uuid payload topic) feed.snapshot.items })
      feed

-- The handlers by action: an acknowledgement that the server confirms has none.
unfoldable pub on :
    ℕ → String → ContractToClient → Option String → NotificationFeed → NotificationFeed
unfolding on_notification
on limit uuid (ContractToClient.notification message) topic feed =
    on_notification limit uuid message.payload topic feed
on limit uuid (ContractToClient.notification_acked message) topic feed = feed

-- `new Map<string, string[]>()`, in the order of insertion.
abbrev pub TopicMap : Type 0
TopicMap = List (String × List String)

-- `byTopic.set(topic, [...(byTopic.get(topic) ?? []), id])`
pub add_id : String → String → TopicMap → TopicMap
add_id topic id [] = (topic, id ∷ []) ∷ []
add_id topic id ((t, ids) ∷ m) =
    if t == topic then (t, ids ++ id ∷ []) ∷ m else (t, ids) ∷ add_id topic id m

-- The first loop of `ackAll`.
pub group_by_topic : TopicMap → List ReceivedNotification → TopicMap
unfolding add_id
group_by_topic m [] = m
group_by_topic m (item ∷ items) = group_by_topic (add_id item.topic item.id m) items

abbrev pub ack : List String → NotificationAckMessage
ack ids = record { payload = record { ids = ids } }

-- What `ackAll` hands to `sendTopic`, in order, and the feed after it.
unfoldable pub ack_all :
    NotificationFeed → List (String × NotificationAckMessage) × NotificationFeed
unfolding group_by_topic
ack_all feed = (
  map (λ e. (e.0, ack e.1)) (group_by_topic [] feed.snapshot.items),
  publish (record { items = [] }) feed,
)

unfoldable pub dismiss : String → NotificationFeed → NotificationFeed
dismiss id feed =
    publish (record { items = filter (λ item. not (item.id == id)) feed.snapshot.items }) feed
