-- ===== src/Notification/Feed/Acks.antt =====
-- What `ackAll` sends: one acknowledgement for each topic on show, with the ids of its items.
use chanx_kit.Notification.Contract.{NotificationAckMessage}
use chanx_kit.Notification.Feed.{
  TopicMap, add_id, NotificationFeed, ReceivedNotification, ack, ack_all, group_by_topic,
}
use chanx_kit.Prelude.{
  ==_comm, ==_iff, Bool-cases, Distinct, List, String, [], ap, append-nil, append_assoc, arith,
  filter, has_key, if◌then◌else◌, inl, inr, map, refl, sym, ◌++◌, ◌==◌, ◌||◌, ◌∷◌, ◌≡◌, ==_iff,
  List, String, [], arith, if◌then◌else◌, refl, ◌++◌, ◌==◌, ◌∷◌, ◌≡◌,
}

-- `byTopic.get(topic) ?? []`
abbrev pub ids_of : String → TopicMap → List String
ids_of topic [] = []
ids_of topic ((t, ids) ∷ m) = if t == topic then ids else ids_of topic m

ids_of-add_id :
    (topic id u : String) (m : TopicMap)
    → ids_of u (add_id topic id m) ≡ (if topic == u then ids_of u m ++ id ∷ [] else ids_of u m)
unfolding add_id
ids_of-add_id topic id u [] = refl
ids_of-add_id topic id u ((t, ids) ∷ m) =
    ground (arith, ids_of-add_id topic id u m, ==_iff t topic, ==_iff t u, ==_iff topic u)

-- `xs.map((item) => item.id)` of the items on a topic
abbrev pub shown_on : String → List ReceivedNotification → List String
shown_on topic items = map (λ i. i.id) (filter (λ i. i.topic == topic) items)

ids_of-group_by_topic :
    (u : String) (m : TopicMap) (items : List ReceivedNotification)
    → ids_of u (group_by_topic m items) ≡ ids_of u m ++ shown_on u items
unfolding group_by_topic
ids_of-group_by_topic u m [] = sym (append-nil (ids_of u m))
ids_of-group_by_topic u m (i ∷ items) = elim (Bool-cases (i.topic == u)) [
  | inl e ↦
      rw (ids_of-group_by_topic u (add_id i.topic i.id m) items, ids_of-add_id, e)
        (append_assoc (ids_of u m) (i.id ∷ []) (shown_on u items))
  | inr e ↦ rw (ids_of-group_by_topic u (add_id i.topic i.id m) items, ids_of-add_id, e)
]

has_topic-add_id :
    (topic id u : String) (m : TopicMap)
    → has_key (λ e. e.0) u (add_id topic id m) ≡ (topic == u || has_key (λ e. e.0) u m)
unfolding add_id
has_topic-add_id topic id u [] = refl
has_topic-add_id topic id u ((t, ids) ∷ m) =
    ground (arith, has_topic-add_id topic id u m, ==_iff t topic, ==_iff t u, ==_iff topic u)

add_id-Distinct :
    (topic id : String) (m : TopicMap)
    → Distinct (λ e. e.0) m
    → Distinct (λ e. e.0) (add_id topic id m)
unfolding add_id
add_id-Distinct topic id [] d = (refl, tt)
add_id-Distinct topic id ((t, ids) ∷ m) d =
    ground (arith, add_id-Distinct topic id m d.1, has_topic-add_id topic id t m, ==_comm t topic)

group_by_topic-Distinct :
    (m : TopicMap) (items : List ReceivedNotification)
    → Distinct (λ e. e.0) m
    → Distinct (λ e. e.0) (group_by_topic m items)
unfolding group_by_topic
group_by_topic-Distinct m [] d = d
group_by_topic-Distinct m (i ∷ items) d =
    group_by_topic-Distinct (add_id i.topic i.id m) items (add_id-Distinct i.topic i.id m d)

-- The messages as pairs of a topic and the ids that its acknowledgement lists.
abbrev pub Sent : Type 0
Sent = List (String × NotificationAckMessage)

abbrev pub sent_ids : Sent → TopicMap
sent_ids = map (λ e. (e.0, e.1.payload.ids))

sent_ids-ack : (m : TopicMap) → sent_ids (map (λ e. (e.0, ack e.1)) m) ≡ m
sent_ids-ack [] = refl
sent_ids-ack (e ∷ m) = ap (◌∷◌ e) (sent_ids-ack m)

-- `ackAll` sends no topic two acknowledgements, and each topic's one lists exactly the ids shown on
-- it, newest first; then the feed is empty.
pub ack_all_lem :
    (feed : NotificationFeed)
    → Distinct (λ e. e.0) (sent_ids (ack_all feed).0)
      × ((topic : String)
          → ids_of topic (sent_ids (ack_all feed).0) ≡ shown_on topic feed.snapshot.items)
      × ((ack_all feed).1.snapshot.items ≡ [])
unfolding ack_all
ack_all_lem feed =
    let m = group_by_topic [] feed.snapshot.items in
    (
      rw (sent_ids-ack m) (group_by_topic-Distinct [] feed.snapshot.items tt),
      λ topic. rw (sent_ids-ack m) (ids_of-group_by_topic topic [] feed.snapshot.items),
      refl,
    )
