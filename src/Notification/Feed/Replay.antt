-- ===== src/Notification/Feed/Replay.antt =====
-- One notification that reaches the client on two topics, and the removal of an item.
use chanx_kit.Notification.Contract.{NotificationPayload}
use chanx_kit.Notification.Feed.{
  ReceivedNotification, NotificationFeed, add_item, on_notification, dismiss, received,
}
use chanx_kit.Prelude.{
  ==_refl, List, Option, String, ap, arith, has_key, has_key-take-false, has_key-without,
  has_key-without_lem, not, refl, some, suc, take, take-take, without, without_absent, zero, ℕ,
  ◌&&◌, ◌==◌, ◌≡◌, List, Option, String, arith, has_key, not, refl, some, suc, take, take-take,
  without, zero, ℕ, ◌&&◌, ◌==◌, ◌≡◌,
}

abbrev pub id_of : ReceivedNotification → String
id_of i = i.id

add_item_twice :
    (limit : ℕ) (i j : ReceivedNotification) (items : List ReceivedNotification)
    → i.id ≡ j.id
    → add_item limit j (add_item limit i items) ≡ add_item limit j items
unfolding add_item
add_item_twice zero i j items e = refl
add_item_twice (suc n) i j items e =
    let rest = without id_of j.id items in
    rw (
      e,
      ==_refl,
      without_absent id_of j.id (take n rest)
          (has_key-take-false id_of n j.id rest (has_key-without id_of j.id items)),
      take-take,
    )

-- A notification that arrives on a second topic replaces its first copy: the feed shows what it
-- would if only the second had arrived.
pub on_notification_twice :
    (limit : ℕ) (u v id : String) (p : NotificationPayload) (s t : Option String)
    (feed : NotificationFeed)
    → p.id ≡ some id
    → (on_notification limit v p t (on_notification limit u p s feed)).snapshot
      ≡ (on_notification limit v p t feed).snapshot
unfolding on_notification
on_notification_twice limit u v id p s t feed e =
    ap (λ (l : List ReceivedNotification). record { items = l })
      (add_item_twice limit (received u p s) (received v p t) feed.snapshot.items (ground arith))

-- `dismiss` takes away the item with that id, and no other.
pub has_key-dismiss :
    (id j : String) (feed : NotificationFeed)
    → has_key id_of j (dismiss id feed).snapshot.items
      ≡ (not (j == id) && has_key id_of j feed.snapshot.items)
unfolding dismiss
has_key-dismiss id j feed = has_key-without_lem id_of id j feed.snapshot.items
