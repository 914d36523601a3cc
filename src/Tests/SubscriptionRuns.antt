-- ===== src/Tests/SubscriptionRuns.antt =====
-- Subscription calls on a file that holds one row.
use linux_mqtt_sn_gateway.Base.{
  ◌≡◌, ◌≢◌, refl, false, some, List, [], ◌∷◌, bytes_eq, c_str, overlay, arith,
}
use linux_mqtt_sn_gateway.Storage.Entries.{Subscription}
use linux_mqtt_sn_gateway.Persistent.State.{Persistent, client_file, subscribe_file}
use linux_mqtt_sn_gateway.Persistent.Subscriptions.{
  new_subscription, is_subscribed, get_subscription_qos, get_subscription_topic_id,
  add_subscription,
}
use linux_mqtt_sn_gateway.Persistent.Subscriptions.Table.{
  Serves, add_rows, new_subscription-fits, add_subscription-Serves,
}
use linux_mqtt_sn_gateway.Persistent.Subscriptions.Add.{
  IsRequest, is_subscribed-rows, lookup-add_subscription, lookup-add_subscription_ne,
}
use linux_mqtt_sn_gateway.Tests.Board.{board}
use linux_mqtt_sn_gateway.Tests.Samples.{
  door, lamp, IsTopic-door, IsTopic-lamp, ann_entry, ann_on, card_with, Holds-card_with,
}

abbrev one_row : List Subscription
one_row = new_subscription door 3 1 ∷ []

abbrev state : Persistent board
state = ann_on (card_with board.subscription_layout (client_file ann_entry subscribe_file) one_row)

state-Serves : Serves state one_row
state-Serves = record {
  is_ready = refl;
  table =
      Holds-card_with board.subscription_layout (client_file ann_entry subscribe_file) one_row
        (new_subscription-fits door 3 1 IsTopic-door (omega arith) (omega arith), tt);
}

lamp-IsRequest : IsRequest lamp 4 2
lamp-IsRequest = record {
  topic = IsTopic-lamp;
  id_pos = omega arith;
  id_fits = omega arith;
  qos_fits = omega arith;
}

add_subscription-Serves_example :
    Serves (add_subscription (some lamp) 4 2 state) (add_rows lamp 4 2 one_row)
add_subscription-Serves_example =
    add_subscription-Serves lamp 4 2 state one_row state-Serves IsTopic-lamp
      (omega arith, omega arith) (omega arith) (omega arith)

lamp_is_new : is_subscribed (some lamp) state ≡ false
unfolding bytes_eq c_str overlay
lamp_is_new = is_subscribed-rows lamp state one_row state-Serves IsTopic-lamp (omega arith)

lookup-add_subscription_example :
    (get_subscription_topic_id (some lamp) (add_subscription (some lamp) 4 2 state) ≡ 4)
    × (get_subscription_qos (some lamp) (add_subscription (some lamp) 4 2 state) ≡ 2)
lookup-add_subscription_example =
    lookup-add_subscription lamp 4 2 state one_row state-Serves lamp-IsRequest (omega arith)
      lamp_is_new

lamp-ne-door : lamp ≢ door
lamp-ne-door e = absurd (ground (arith, e))

lookup-add_subscription_ne_example :
    (is_subscribed (some door) (add_subscription (some lamp) 4 2 state)
      ≡ is_subscribed (some door) state)
    × (get_subscription_topic_id (some door) (add_subscription (some lamp) 4 2 state)
        ≡ get_subscription_topic_id (some door) state)
    × (get_subscription_qos (some door) (add_subscription (some lamp) 4 2 state)
        ≡ get_subscription_qos (some door) state)
lookup-add_subscription_ne_example =
    lookup-add_subscription_ne lamp 4 2 state one_row state-Serves lamp-IsRequest (omega arith) door
      IsTopic-door lamp-ne-door
