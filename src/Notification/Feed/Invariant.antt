-- ===== src/Notification/Feed/Invariant.antt =====
-- What holds of the feed between two calls.
use chanx_kit.Notification.Contract.{ContractToClient}
use chanx_kit.Notification.Feed
use chanx_kit.Notification.Feed.{
  ReceivedNotification, NotificationFeed, add_item, on, create_notification_feed,
}
use chanx_kit.Prelude.{
  Distinct, Distinct-filter, Distinct-take, List, Option, String, [], arith, has_key-without,
  length, length-filter-le, length-take, not, or_else, without, ℕ, ◌==◌, ◌∷◌, ◌≤◌,
}
use chanx_kit.Store
use chanx_kit.Store.{Listener, Store}

-- No id is shown twice, and no more than `limit` items are kept.
pub record IsValid (limit : ℕ) (feed : NotificationFeed) : Type 0 where
  pub distinct : Distinct (λ item. item.id) feed.snapshot.items
  pub bounded : length feed.snapshot.items ≤ limit

-- One use of the feed, from outside.
pub data Call : Type 0 where
  subscribe : Listener → Call
  unsubscribe : Listener → Call
  message : String → ContractToClient → Option String → Call
  ack_all : Call
  dismiss : String → Call

unfoldable pub step : ℕ → Call → NotificationFeed → NotificationFeed
step limit (subscribe l) feed = Store.subscribe l feed
step limit (unsubscribe l) feed = Store.unsubscribe l feed
step limit (message uuid m topic) feed = on limit uuid m topic feed
step limit ack_all feed = (Feed.ack_all feed).1
step limit (dismiss id) feed = Feed.dismiss id feed

unfoldable pub run : ℕ → List Call → NotificationFeed → NotificationFeed
run limit [] feed = feed
run limit (c ∷ cs) feed = run limit cs (step limit c feed)

add_item-Distinct :
    (limit : ℕ) (item : ReceivedNotification) (items : List ReceivedNotification)
    → Distinct (λ i. i.id) items
    → Distinct (λ i. i.id) (add_item limit item items)
unfolding add_item
add_item-Distinct limit item items d =
    Distinct-take (λ i. i.id) limit (item ∷ without (λ i. i.id) item.id items)
      (has_key-without (λ i. i.id) item.id items, Distinct-filter (λ i. i.id) _ items d)

step-IsValid :
    (limit : ℕ) (c : Call) (feed : NotificationFeed)
    → IsValid limit feed
    → IsValid limit (step limit c feed)
unfolding step Store.subscribe Store.unsubscribe on Feed.ack_all Feed.dismiss
step-IsValid limit (subscribe l) feed v = ground arith
step-IsValid limit (unsubscribe l) feed v = record { distinct = v.distinct; bounded = v.bounded }
step-IsValid limit (message uuid (ContractToClient.notification_acked m) topic) feed v = v
step-IsValid limit (message uuid (ContractToClient.notification m) topic) feed v = record {
  distinct =
      add_item-Distinct limit (Feed.received uuid m.payload topic) feed.snapshot.items v.distinct;
  bounded = omega (
    arith,
    length-take limit (
        Feed.received uuid m.payload topic
        ∷ without (λ i. i.id) (or_else m.payload.id uuid) feed.snapshot.items),
  );
}
step-IsValid limit ack_all feed v = record { distinct = tt; bounded = omega arith }
step-IsValid limit (dismiss id) feed v = record {
  distinct = Distinct-filter (λ i. i.id) _ feed.snapshot.items v.distinct;
  bounded = omega (arith, length-filter-le {0} (λ i. not (i.id == id)) feed.snapshot.items);
}

run-IsValid :
    (limit : ℕ) (cs : List Call) (feed : NotificationFeed)
    → IsValid limit feed
    → IsValid limit (run limit cs feed)
unfolding run
run-IsValid limit [] feed v = v
run-IsValid limit (c ∷ cs) feed v =
    run-IsValid limit cs (step limit c feed) (step-IsValid limit c feed v)

-- Whatever calls and messages come to a new feed, in any order, it never shows one id twice and
-- never keeps more than `limit` items.
pub feed-IsValid :
    (limit : ℕ) (cs : List Call) → IsValid limit (run limit cs create_notification_feed)
feed-IsValid limit cs = run-IsValid limit cs create_notification_feed (omega arith)
