-- ===== src/Tests/PublishRuns.antt =====
-- Calls on the messages of a client that has two.
use linux_mqtt_sn_gateway.Base.{
  codes, ℕ, suc, ◌≡◌, refl, true, false, some, List, [], ◌∷◌, get_elem?, inr, arith,
}
use linux_mqtt_sn_gateway.Storage.Entries.{Publish, PublishFits, zero_publish}
use linux_mqtt_sn_gateway.Storage.Splice.{put}
use linux_mqtt_sn_gateway.Storage.Table.{whole}
use linux_mqtt_sn_gateway.Persistent.State.{Persistent, client_file, publish_file}
use linux_mqtt_sn_gateway.Persistent.Scan.{free_slot}
use linux_mqtt_sn_gateway.Persistent.Publishes.{
  is_free, new_publish, handed_back, row_of_publish, has_client_publishes, add_client_publish,
  get_next_publish, set_publish_msg_id, remove_publish_by_publish_id, remove_publish_by_msg_id,
}
use linux_mqtt_sn_gateway.Persistent.Publishes.Table.{
  IsMessage, Waiting, used, new_publish-fits, Keeps, add_client_publish-Waiting,
}
use linux_mqtt_sn_gateway.Persistent.Publishes.Deliver.{
  has_client_publishes-used, next_then_remove, set_publish_msg_id-Waiting,
}
use linux_mqtt_sn_gateway.Persistent.Publishes.ByMessageId.{acknowledged_message_stays}
use linux_mqtt_sn_gateway.Tests.Board.{board}
use linux_mqtt_sn_gateway.Tests.Samples.{ann_entry, ann_on, card_with, Holds-card_with}

abbrev hello : List ℕ
hello = codes "hello"

hello-IsMessage : IsMessage hello 5 3 1
hello-IsMessage = record {
  bytes_fit = omega arith;
  len_fits = omega arith;
  enough = omega arith;
  topic_fits = omega arith;
  qos_fits = omega arith;
}

abbrev first_row : Publish
first_row = new_publish hello 5 3 false 1 1

-- The second message was sent with message id 9.
abbrev second_row : Publish
second_row = record (new_publish hello 5 3 false 1 2) { msg_id = 9 }

abbrev two_rows : List Publish
two_rows = first_row ∷ second_row ∷ []

first_row-fits : PublishFits first_row
first_row-fits = new_publish-fits hello 5 3 false 1 1 hello-IsMessage (omega arith)

second_row-fits : PublishFits second_row
second_row-fits =
    let f = new_publish-fits hello 5 3 false 1 2 hello-IsMessage (omega arith) in
    record {
      msg_fits = f.msg_fits;
      length_fits = f.length_fits;
      id_fits = f.id_fits;
      qos_fits = f.qos_fits;
      msg_id_fits = omega arith;
      publish_id_fits = f.publish_id_fits;
      timeout_fits = f.timeout_fits;
    }

abbrev state : Persistent board
state = ann_on (card_with board.publish_layout (client_file ann_entry publish_file) two_rows)

state-Waiting : Waiting state two_rows
state-Waiting = record {
  is_ready = refl;
  table =
      Holds-card_with board.publish_layout (client_file ann_entry publish_file) two_rows
        (first_row-fits, (second_row-fits, tt));
  numbered = (inr refl, (inr refl, tt));
}

add_client_publish-Waiting_example :
    (e : Publish) × Keeps hello 5 3 true 1 (free_slot is_free two_rows) e
    × Waiting
        (add_client_publish hello 5 3 true 1 false 0 state)
        (put two_rows (free_slot is_free two_rows) e)
add_client_publish-Waiting_example =
    add_client_publish-Waiting hello 5 3 true 1 false 0 state two_rows state-Waiting hello-IsMessage
      (omega arith)

has_messages : has_client_publishes state ≡ true
has_messages = has_client_publishes-used state two_rows state-Waiting (omega arith)

next_then_remove_example :
    (i : ℕ) × (e : Publish) × (get_elem? two_rows i ≡ some e)
    × (get_next_publish state ≡ handed_back e)
    × Waiting (remove_publish_by_publish_id e.publish_id state) (put two_rows i zero_publish)
    × (suc (used (put two_rows i zero_publish)) ≡ used two_rows)
next_then_remove_example = next_then_remove state two_rows state-Waiting (omega arith) has_messages

set_publish_msg_id-Waiting_example :
    Waiting
      (set_publish_msg_id first_row.publish_id 7 state)
      (put two_rows 0 (record first_row { msg_id = 7 }))
set_publish_msg_id-Waiting_example =
    set_publish_msg_id-Waiting state two_rows state-Waiting (omega arith) 7 0 first_row
      (omega arith) refl refl (omega arith)

acknowledged_message_stays_example :
    row_of_publish second_row.publish_id (remove_publish_by_msg_id 9 state)
    ≡ some (whole second_row)
acknowledged_message_stays_example =
    acknowledged_message_stays 9 1 second_row state two_rows state-Waiting (omega arith)
      (omega arith) (omega arith) refl (omega arith) refl
