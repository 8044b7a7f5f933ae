-- ===== src/Notification/Feed/Tests.antt =====
-- Runs of the feed, after ui/notification/tests/core.test.ts.
use chanx_kit.Notification.Contract
use chanx_kit.Notification.Contract.{NotificationPayload}
use chanx_kit.Notification.Feed.{NotificationFeed, ack_all, create_notification_feed, on, received}
use chanx_kit.Notification.Feed.Invariant
use chanx_kit.Notification.Feed.Invariant.{Call, IsValid, feed-IsValid, run, step}
use chanx_kit.Notification.Feed.Acks.{ack_all_lem, ids_of, sent_ids, shown_on}
use chanx_kit.Prelude.{Distinct, List, String, [], map, none, refl, some, ◌==◌, ◌∷◌, ◌≡◌, absent}
use chanx_kit.Store

abbrev payload : String → NotificationPayload
payload id = record {
  title = "Build finished";
  body = absent;
  level = none;
  id = some id;
  created_at = none;
  data_value = none;
}

abbrev arrival : String → String → Call
arrival id topic =
    Call.message "fresh" (Contract.ContractToClient.notification (record { payload = payload id }))
      (some topic)

abbrev calls : List Call
calls =
    arrival "a" "t" ∷ arrival "b" "u" ∷ arrival "a" "u" ∷ Call.subscribe 7 ∷ arrival "c" "t" ∷ []

abbrev shown : NotificationFeed
shown = record {
  listeners = [];
  snapshot = record {
    items = received "x" (payload "b") (some "u") ∷ received "x" (payload "a") (some "t") ∷ [];
  };
  told = [];
}

calls_ids :
    map (λ i. i.id) (Invariant.run 2 calls create_notification_feed).snapshot.items ≡ "c" ∷ "a" ∷ []
unfolding run step on Store.subscribe ◌==◌
calls_ids = refl

acks_sent : sent_ids (ack_all shown).0 ≡ ("u", "b" ∷ []) ∷ ("t", "a" ∷ []) ∷ []
unfolding ack_all ◌==◌
acks_sent = refl

feed-IsValid_example : IsValid 2 (Invariant.run 2 calls create_notification_feed)
feed-IsValid_example = feed-IsValid 2 calls

ack_all_lem_example :
    Distinct (λ e. e.0) (sent_ids (ack_all shown).0)
    × ((topic : String)
        → ids_of topic (sent_ids (ack_all shown).0) ≡ shown_on topic shown.snapshot.items)
    × ((ack_all shown).1.snapshot.items ≡ [])
ack_all_lem_example = ack_all_lem shown
