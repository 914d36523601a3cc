-- ===== src/Tests/NameRuns.antt =====
-- Registering topics, on a file that holds one row.
use linux_mqtt_sn_gateway.Base.{
  ◌≡◌, refl, none, some, List, [], ◌∷◌, c_str, bytes_eq, overlay, arith,
}
use linux_mqtt_sn_gateway.Storage.Entries.{Registration}
use linux_mqtt_sn_gateway.Persistent.State.{Persistent, client_file, registration_file}
use linux_mqtt_sn_gateway.Persistent.Scan.{find}
use linux_mqtt_sn_gateway.Persistent.Registrations.{
  is_registration_of, add_client_registration, get_topic_name,
}
use linux_mqtt_sn_gateway.Persistent.Registrations.Names.{
  HasNames, new_row, new_row-fits, get_topic_name-add_client_registration,
}
use linux_mqtt_sn_gateway.Tests.Board.{board}
use linux_mqtt_sn_gateway.Tests.Samples.{
  door, lamp, IsTopic-door, IsTopic-lamp, ann_entry, ann_on, card_with, Holds-card_with,
}

abbrev one_row : List Registration
one_row = new_row door 1 ∷ []

abbrev state : Persistent board
state =
    ann_on (card_with board.registration_layout (client_file ann_entry registration_file) one_row)

state-HasNames : HasNames state one_row
state-HasNames = record {
  is_ready = refl;
  table =
      Holds-card_with board.registration_layout (client_file ann_entry registration_file) one_row
        (new_row-fits door 1 IsTopic-door (omega arith), tt);
  numbered = (refl, tt);
}

lamp_is_new : find (is_registration_of lamp) one_row 0 ≡ none
unfolding c_str bytes_eq overlay
lamp_is_new = refl

door_is_known : find (is_registration_of door) one_row 0 ≡ some (0, new_row door 1)
unfolding c_str bytes_eq overlay
door_is_known = refl

get_topic_name-add_client_registration_example :
    ((add_client_registration lamp state).1 ≡ some 2)
    × ((get_topic_name 2 (add_client_registration lamp state).0).1 ≡ some lamp)
get_topic_name-add_client_registration_example =
    get_topic_name-add_client_registration lamp state one_row state-HasNames IsTopic-lamp
      (omega arith) lamp_is_new
