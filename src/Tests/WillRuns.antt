-- ===== src/Tests/WillRuns.antt =====
-- The will of a client whose file has a cleared struct.
use linux_mqtt_sn_gateway.Base.{
  codes, ℕ, ◌≡◌, refl, true, false, none, some, List, [], ◌∷◌, take, arith,
}
use linux_mqtt_sn_gateway.Storage.Entries.{Will, zero_will, zero_will-fits}
use linux_mqtt_sn_gateway.Storage.Splice.{put}
use linux_mqtt_sn_gateway.Persistent.State.{Persistent}
use linux_mqtt_sn_gateway.Persistent.Wills.{
  with_willtopic, with_message, has_client_will, get_client_will, set_client_willtopic,
  set_client_willmessage, delete_will,
}
use linux_mqtt_sn_gateway.Persistent.Wills.Lifecycle.{
  IsWillTopic, HasWills, will_in, get_client_will-set, delete_will-none,
  set_client_willtopic-HasWills, set_client_willmessage-HasWills,
}
use linux_mqtt_sn_gateway.Persistent.State.{client_file, will_file}
use linux_mqtt_sn_gateway.Tests.Board.{board}
use linux_mqtt_sn_gateway.Tests.Samples.{door, ann_entry, ann_on, card_with, Holds-card_with}

abbrev gone : List ℕ
gone = codes "gone"

abbrev one_row : List Will
one_row = zero_will ∷ []

abbrev state : Persistent board
state = ann_on (card_with board.will_layout (client_file ann_entry will_file) one_row)

state-HasWills : HasWills state one_row
state-HasWills = record {
  is_ready = refl;
  table =
      Holds-card_with board.will_layout (client_file ann_entry will_file) one_row
        (zero_will-fits, tt);
}

door-IsWillTopic : IsWillTopic door
door-IsWillTopic = record { text = omega arith; short = omega arith }

set_client_willtopic-HasWills_example :
    HasWills
      (set_client_willtopic door 1 true state)
      (put one_row 0 (with_willtopic door 1 true (will_in one_row)))
set_client_willtopic-HasWills_example =
    set_client_willtopic-HasWills door 1 true state one_row state-HasWills door-IsWillTopic
      (omega arith)

set_client_willmessage-HasWills_example :
    HasWills
      (set_client_willmessage gone 4 state)
      (put one_row 0 (with_message gone 4 (will_in one_row)))
set_client_willmessage-HasWills_example =
    set_client_willmessage-HasWills gone 4 state one_row state-HasWills (omega arith) (omega arith)

get_client_will-set_example :
    get_client_will (set_client_willmessage gone 4 (set_client_willtopic door 1 true state))
    ≡ some
        (record { topic = door; message = take 4 gone; message_length = 4; qos = 1; retain = true })
get_client_will-set_example =
    get_client_will-set door gone 4 1 true state one_row state-HasWills door-IsWillTopic
      (omega arith) (omega arith) (omega arith) (omega arith)

delete_will-none_example :
    (has_client_will (delete_will state) ≡ false) × (get_client_will (delete_will state) ≡ none)
delete_will-none_example = delete_will-none state refl
