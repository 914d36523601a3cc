-- ===== src/Tests/RemoveRuns.antt =====
-- Deleting subscriptions, on a file that holds two rows.
use linux_mqtt_sn_gateway.Base.{suc, ◌≡◌, refl, List, [], ◌∷◌, arith}
use linux_mqtt_sn_gateway.Storage.Entries.{Subscription}
use linux_mqtt_sn_gateway.Persistent.State.{Persistent, fail, client_file, subscribe_file}
use linux_mqtt_sn_gateway.Persistent.Clients.{delete_client}
use linux_mqtt_sn_gateway.Persistent.Subscriptions.{
  new_subscription, delete_subscription, get_client_subscription_count,
}
use linux_mqtt_sn_gateway.Persistent.Subscriptions.Table.{Serves, new_subscription-fits}
use linux_mqtt_sn_gateway.Persistent.Subscriptions.Remove.{
  get_client_subscription_count-delete_subscription, delete_client-subscribed,
}
use linux_mqtt_sn_gateway.Tests.Board.{board}
use linux_mqtt_sn_gateway.Tests.Samples.{
  ann, door, lamp, IsTopic-door, IsTopic-lamp, ann_entry, ann_on, card_with, Holds-card_with,
}

abbrev second_row : Subscription
second_row = new_subscription lamp 4 2

abbrev two_rows : List Subscription
two_rows = new_subscription door 3 1 ∷ second_row ∷ []

abbrev state : Persistent board
state = ann_on (card_with board.subscription_layout (client_file ann_entry subscribe_file) two_rows)

state-Serves : Serves state two_rows
state-Serves = record {
  is_ready = refl;
  table =
      Holds-card_with board.subscription_layout (client_file ann_entry subscribe_file) two_rows (
        new_subscription-fits door 3 1 IsTopic-door (omega arith) (omega arith),
        (new_subscription-fits lamp 4 2 IsTopic-lamp (omega arith) (omega arith), tt),
      );
}

get_client_subscription_count-delete_subscription_example :
    suc (get_client_subscription_count (delete_subscription 4 state))
    ≡ get_client_subscription_count state
get_client_subscription_count-delete_subscription_example =
    get_client_subscription_count-delete_subscription 4 1 second_row state two_rows state-Serves
      (omega arith) (omega arith) refl

delete_client-subscribed_example : delete_client ann state ≡ fail state
delete_client-subscribed_example =
    delete_client-subscribed ann state two_rows state-Serves (omega arith) (omega arith)
