-- ===== src/Tests/SettingsRuns.antt =====
-- A configuration file for a broker at 192.168.0.7, and a client library that accepts every connection.
use linux_mqtt_sn_gateway.Base.{
  All, ℕ, suc, ◌+◌, ◌≡◌, ◌≢◌, ◌<◌, ◌^◌, ◌-◌, refl, true, false, none, some, Option, List, [], ◌∷◌,
  ◌++◌, length, replicate, codes, ltb, ◌==◌, if◌then◌else◌, arith,
}
use linux_mqtt_sn_gateway.Settings.Lines.{
  finished, out_of_fuel, for_lines, text_of, fold_lines, outcome_of, FitsLine, empty-Stops,
  for_lines-ends, for_lines-text_of,
}
use linux_mqtt_sn_gateway.Serial.Numbers.{starts_with}
use linux_mqtt_sn_gateway.Settings.Parse.{value_of}
use linux_mqtt_sn_gateway.Settings.Values.{behind_space, value_of-buffer}
use linux_mqtt_sn_gateway.Settings.Decimal.{ip_text, number_text}
use linux_mqtt_sn_gateway.Settings.Getters.{
  get_predefined_topic_name, Login, WillConfig, unset, get_mqtt_config, read_gateway_id,
}
use linux_mqtt_sn_gateway.Settings.Turns.{IsUnrelated}
use linux_mqtt_sn_gateway.Settings.Broker.{broker_lines, broker_config, get_mqtt_config_lem}
use linux_mqtt_sn_gateway.Settings.Topics.{
  IsTopic, topic_texts, lookup, get_predefined_topic_name-lookup,
}
use linux_mqtt_sn_gateway.Paho.Library.{ConnectData, Library, Core}
use linux_mqtt_sn_gateway.Paho.Handler.{
  Handler, set_server, with_net, open_stack, connect_with, get_config_and_connect, minus_one,
}
use linux_mqtt_sn_gateway.Paho.Connect.{big_endian, served, open_stack-set_server}
use linux_mqtt_sn_gateway.Paho.Broker.{plain_data, get_config_and_connect_lem}

abbrev comment : List ℕ
comment = codes "# broker"

comment-FitsLine : FitsLine 512 comment
comment-FitsLine = (ground arith, omega arith, omega arith)

for_lines-ends_example :
    for_lines 512 read_gateway_id (codes "gatewayid 7") (false, 0) ≢ out_of_fuel
for_lines-ends_example = for_lines-ends 512 read_gateway_id (codes "gatewayid 7") (false, 0)

for_lines-text_of_example :
    for_lines 512 read_gateway_id (text_of (comment ∷ []) ++ []) (false, 0)
    ≡ outcome_of (fold_lines 512 read_gateway_id (comment ∷ []) (false, 0))
for_lines-text_of_example =
    for_lines-text_of 512 read_gateway_id (comment ∷ []) [] (false, 0) (omega arith)
      (comment-FitsLine, tt) empty-Stops

value_of-buffer_example :
    value_of (codes "gatewayid 7" ++ replicate (suc 4) 0) (length (codes "gatewayid 7") + 1)
    ≡ behind_space (codes "gatewayid 7")
value_of-buffer_example = value_of-buffer (codes "gatewayid 7") 4 (ground arith)

abbrev gateway : List ℕ
gateway = codes "gateway"

comment-IsUnrelated : IsUnrelated comment
unfolding starts_with
comment-IsUnrelated = (refl, refl, refl)

abbrev config_file : List ℕ
config_file = text_of ((comment ∷ []) ++ broker_lines 192 168 0 7 1883 gateway) ++ []

ip-long : 7 < length (ip_text 192 168 0 7)
unfolding number_text
ip-long = omega arith

get_mqtt_config_lem_example :
    get_mqtt_config config_file (replicate 4 0) 0 (replicate 24 0)
    ≡ finished (ltb 7 (length (ip_text 192 168 0 7)), broker_config 192 168 0 7 1883 gateway)
get_mqtt_config_lem_example =
    get_mqtt_config_lem (comment ∷ []) 192 168 0 7 1883 gateway [] (comment-FitsLine, tt)
      (comment-IsUnrelated, tt) (omega arith) (omega arith) (omega arith) (omega arith)
      (omega arith) (omega arith) (ground arith, omega arith, omega arith) empty-Stops

-- A library that notes the address and the packet of the last connection.
pub record Wire : Type 0 where
  pub address : ℕ
  pub packet : Option ConnectData

abbrev wire : Library
wire = record {
  Net = Wire;
  connect_host = λ name port net. (true, net);
  connect_ip = λ ip port net. (true, record net { address = ip });
  connect_client = λ fields net. (true, record net { packet = some fields });
  publish = λ topic message net. (true, net);
  subscribe = λ topic qos net. (true, net);
  unsubscribe = λ topic net. (true, net);
  disconnect_client = λ net. net;
  disconnect_stack = λ net. net;
  is_connected = λ net. false;
  yield_for = λ ms net. net;
  initial_retained = false;
}

abbrev fresh : Handler wire
fresh = record {
  hostname = none;
  ip_address = minus_one;
  port = 0;
  net = record { address = 0; packet = none };
  notified = false;
}

open_stack-set_server_example : open_stack (set_server (192 ∷ 168 ∷ 0 ∷ 7 ∷ []) 1883 fresh) ≡ (
    if big_endian 192 168 0 7 == 2 ^ 32 - 1
    then (false, served (192 ∷ 168 ∷ 0 ∷ 7 ∷ []) 1883 fresh)
    else with_net
        (served (192 ∷ 168 ∷ 0 ∷ 7 ∷ []) 1883 fresh)
        (wire.connect_ip (big_endian 192 168 0 7) 1883 fresh.net))
open_stack-set_server_example =
    open_stack-set_server 192 168 0 7 1883 fresh (omega arith) (omega arith) (omega arith)
      (omega arith)

abbrev no_login : Login
no_login = record { username = unset (replicate 24 0); password = unset (replicate 24 0) }

abbrev no_will : WillConfig
no_will = record {
  topic = unset (replicate 255 0);
  msg = unset (replicate 255 0);
  qos = unset 0;
  retain = unset false;
}

abbrev core : Core
core = record {
  get_mqtt_config = λ ip n name. get_mqtt_config config_file ip n name;
  get_mqtt_login_config = λ user pass. finished (false, no_login);
  get_mqtt_will = λ topic msg qos retain. finished (false, no_will);
}

get_config_and_connect_lem_example :
    get_config_and_connect core fresh
    ≡ finished (
        connect_with (some (plain_data gateway)) (
          with_net
            (served (192 ∷ 168 ∷ 0 ∷ 7 ∷ []) 1883 fresh)
            (wire.connect_ip (big_endian 192 168 0 7) 1883 fresh.net)))
get_config_and_connect_lem_example =
    get_config_and_connect_lem core fresh (comment ∷ []) 192 168 0 7 1883 gateway [] no_login
      no_will (λ ip n name. refl) refl refl (comment-FitsLine, tt) (comment-IsUnrelated, tt)
      (omega arith) (omega arith) (omega arith) (omega arith) ip-long (omega arith) (omega arith)
      (omega arith) (ground arith, omega arith, omega arith) empty-Stops

abbrev topics : List (ℕ × List ℕ)
topics = (7, codes "home") ∷ (12, codes "lamp") ∷ (7, codes "door") ∷ []

topics-IsTopic : All IsTopic topics
unfolding number_text
topics-IsTopic = (
  (omega arith, ground arith, omega arith, omega arith, omega arith),
  (
    (omega arith, ground arith, omega arith, omega arith, omega arith),
    ((omega arith, ground arith, omega arith, omega arith, omega arith), tt),
  ),
)

get_predefined_topic_name-lookup_example :
    get_predefined_topic_name false (text_of (topic_texts topics) ++ []) 7
    ≡ finished (lookup 7 topics)
get_predefined_topic_name-lookup_example =
    get_predefined_topic_name-lookup 7 topics [] topics-IsTopic empty-Stops
