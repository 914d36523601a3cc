-- ===== src/Tests/ClientRuns.antt =====
-- A registry with one client: another is added, and the first changes its attributes.
use linux_mqtt_sn_gateway.Base.{
  ◌≡◌, refl, true, false, none, some, List, [], ◌∷◌, bytes_eq, c_str, overlay, arith,
}
use linux_mqtt_sn_gateway.Storage.Entries.{Client}
use linux_mqtt_sn_gateway.Storage.Table.{Holds}
use linux_mqtt_sn_gateway.Persistent.State.{Persistent, client_registry, parse_file_number_to_int}
use linux_mqtt_sn_gateway.Persistent.Scan.{find}
use linux_mqtt_sn_gateway.Persistent.Clients.{
  has_client_id, new_client, add_client, apply_transaction, start_client_transaction, client_exist,
}
use linux_mqtt_sn_gateway.Persistent.Clients.FileNumber.{parse-file_number_of}
use linux_mqtt_sn_gateway.Persistent.Clients.Registry.{free_row, new_client-fits}
use linux_mqtt_sn_gateway.Persistent.Clients.Add.{start-add_client}
use linux_mqtt_sn_gateway.Persistent.Attributes.{
  set_client_await_message, set_timeout, set_client_state, set_client_await_msg_id,
  get_client_await_message_type, get_client_status, get_client_await_msg_id,
}
use linux_mqtt_sn_gateway.Persistent.Attributes.Durable.{InSync, reopen, settings_survive}
use linux_mqtt_sn_gateway.Tests.Board.{board}
use linux_mqtt_sn_gateway.Tests.Samples.{
  ann, bob, home, IsClient-ann, IsClient-bob, ann_entry, ann_on, card_with, Holds-card_with,
}

abbrev registry : List Client
registry = ann_entry ∷ []

abbrev state : Persistent board
state = ann_on (card_with board.client_layout client_registry registry)

state-Holds : Holds board board.client_layout client_registry state.card registry
state-Holds =
    Holds-card_with board.client_layout client_registry registry
      (new_client-fits ann home 60 0 IsClient-ann, tt)

-- Before a transaction.
abbrev idle : Persistent board
idle = record state { transaction_started = false }

-- In a transaction for an id that no row has.
abbrev unknown : Persistent board
unknown = record state { not_in_client_registry = true }

bob_is_new : find (has_client_id bob) registry 0 ≡ none
unfolding c_str bytes_eq overlay
bob_is_new = refl

start-add_client_example :
    let done = apply_transaction (add_client bob home 60 unknown) in
    let again = start_client_transaction bob done.0 in
    (done.1 ≡ 1)
    × (client_exist again ≡ true)
    × (again.entry_client ≡ new_client board bob home 60 (free_row registry))
    × (parse_file_number_to_int again.entry_client ≡ free_row registry)
start-add_client_example =
    start-add_client bob home 60 unknown registry IsClient-bob state-Holds (omega arith) refl refl
      bob_is_new

ann_row : find (has_client_id ann) registry 0 ≡ some (0, ann_entry)
unfolding c_str bytes_eq overlay
ann_row = refl

state-InSync : InSync ann state registry
state-InSync = record {
  is_ready = refl;
  table = state-Holds;
  row = let q = parse-file_number_of ann_entry 0 refl (omega arith) in rw q ann_row;
}

named : has_client_id ann (record ann_entry { timeout = 30 }) ≡ true
unfolding c_str bytes_eq overlay
named = refl

settings_survive_example :
    ((reopen ann (set_timeout 30 state)).entry_client.timeout ≡ 30)
    × (get_client_status (reopen ann (set_client_state 2 state)) ≡ 2)
    × (get_client_await_message_type (reopen ann (set_client_await_message 7 state)) ≡ 7)
    × (get_client_await_msg_id (reopen ann (set_client_await_msg_id 77 state)) ≡ 77)
settings_survive_example =
    settings_survive ann state registry state-InSync (omega arith) (omega arith) 30 2 7 77
      (omega arith) (omega arith) (omega arith) (omega arith)
