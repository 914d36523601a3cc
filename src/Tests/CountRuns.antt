-- ===== src/Tests/CountRuns.antt =====
-- Calls on the topic counts, from a file with one row.
use linux_mqtt_sn_gateway.Base.{◌≡◌, refl, some, List, [], ◌∷◌, arith}
use linux_mqtt_sn_gateway.Storage.Entries.{GlobalSubscription}
use linux_mqtt_sn_gateway.Persistent.State.{Persistent, mqtt_sub}
use linux_mqtt_sn_gateway.Persistent.GlobalCounts.{
  increment_global_subscription_count, decrement_global_subscription_count,
  get_global_topic_subscription_count,
}
use linux_mqtt_sn_gateway.Persistent.GlobalCounts.Table.{
  new_count, new_count-fits, count_in, increment_rows, decrement_rows,
}
use linux_mqtt_sn_gateway.Persistent.GlobalCounts.Refine.{
  Counts, increment-Counts, decrement-Counts,
}
use linux_mqtt_sn_gateway.Persistent.GlobalCounts.Calls.{
  Call, subscribe, unsubscribe, run, tally, get_count-run,
}
use linux_mqtt_sn_gateway.Tests.Board.{board}
use linux_mqtt_sn_gateway.Tests.Samples.{
  door, lamp, IsTopic-door, IsTopic-lamp, ann_on, card_with, Holds-card_with,
}

abbrev one_row : List GlobalSubscription
one_row = new_count door ∷ []

abbrev state : Persistent board
state = ann_on (card_with board.global_layout mqtt_sub one_row)

state-Counts : Counts state one_row
state-Counts = record {
  no_error = refl;
  table =
      Holds-card_with board.global_layout mqtt_sub one_row (new_count-fits door IsTopic-door, tt);
  one_row = (λ m k. tt, tt);
}

increment-Counts_example :
    Counts (increment_global_subscription_count (some lamp) state).0 (increment_rows lamp one_row)
increment-Counts_example =
    increment-Counts lamp state one_row state-Counts IsTopic-lamp (omega arith) (omega arith, tt)

decrement-Counts_example :
    Counts (decrement_global_subscription_count (some door) state).0 (decrement_rows door one_row)
decrement-Counts_example =
    decrement-Counts door state one_row state-Counts IsTopic-door (omega arith)

abbrev calls : List Call
calls = subscribe lamp ∷ subscribe door ∷ unsubscribe door ∷ subscribe lamp ∷ unsubscribe door ∷ []

get_count-run_example :
    get_global_topic_subscription_count (some lamp) (run calls state)
    ≡ tally lamp calls (count_in lamp one_row)
get_count-run_example =
    get_count-run lamp calls state one_row state-Counts IsTopic-lamp
      (IsTopic-lamp, (IsTopic-door, (IsTopic-door, (IsTopic-lamp, (IsTopic-door, tt)))))
      (omega arith) (omega arith, tt)
