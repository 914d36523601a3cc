-- ===== src/Settings/Getters.antt =====
-- The getters of Implementation/LinuxPersistent.cpp that read a configuration file. The files are
-- arguments; an array that a caller passes is a list of its bytes.
use mathlib.Core.Option
use linux_mqtt_sn_gateway.Base.{
  ℕ, zero, suc, ◌+◌, Bool, true, false, not, ◌&&◌, Option, none, some, List, [], ◌∷◌, length, leb,
  ◌==◌, if◌then◌else◌, codes, c_str, strlen,
}
use linux_mqtt_sn_gateway.Serial.Numbers.{starts_with}
use linux_mqtt_sn_gateway.Settings.Lines.{Outcome, for_lines, read_line}
use linux_mqtt_sn_gateway.Settings.Parse.{
  parse_string_after_space, parse_uint16_t_after_space, parse_uint8_t_after_space,
  parse_ipaddress_after_space, atoi, strtok,
}

-- `uint16_t line_length = (uint16_t) (strlen(buffer) + 1)`
abbrev pub line_length : List ℕ → ℕ
line_length buffer = strlen buffer + 1

-- A variable and its `has_…` flag.
abbrev pub Setting : Type 0 → Type 0
Setting A = Bool × A

-- One turn of the loops of `get_advertise_duration` and `get_timeout_check_duration`.
unfoldable pub read_uint16 : List ℕ → List ℕ → Setting ℕ → Option (Setting ℕ)
read_uint16 key buffer (has, n) = some (
    if starts_with key buffer
    then parse_uint16_t_after_space n buffer (line_length buffer)
    else (has, n))

abbrev pub or_default : {A : Type 0} → A → Setting A → A
or_default d (has, a) = if has then a else d

abbrev pub after : {A B : Type 0} → (A → B) → Outcome A → Outcome B
after f (Outcome.finished s) = Outcome.finished (f s)
after f Outcome.outside = Outcome.outside
after f Outcome.out_of_fuel = Outcome.out_of_fuel

-- `get_advertise_duration`
unfoldable pub get_advertise_duration : List ℕ → Outcome ℕ
get_advertise_duration mqttsn_configuration =
    after (or_default 900)
      (for_lines 512 (read_uint16 (codes "advertise")) mqttsn_configuration (false, 0))

-- `get_timeout_check_duration`
unfoldable pub get_timeout_check_duration : List ℕ → Outcome ℕ
get_timeout_check_duration mqttsn_configuration =
    after (or_default 10)
      (for_lines 512 (read_uint16 (codes "timeout")) mqttsn_configuration (false, 0))

-- One turn of the loop of `get_gateway_id`.
unfoldable pub read_gateway_id : List ℕ → Setting ℕ → Option (Setting ℕ)
read_gateway_id buffer (has, n) = some (
    if starts_with (codes "gatewayid") buffer
    then parse_uint8_t_after_space n buffer (line_length buffer)
    else (has, n))

-- `get_gateway_id` into a variable that holds `gateway_id`; it returns true.
unfoldable pub get_gateway_id : List ℕ → ℕ → Outcome (Bool × ℕ)
get_gateway_id mqttsn_configuration gateway_id =
    after (λ found. (true, or_default 0 found))
      (for_lines 512 read_gateway_id mqttsn_configuration (false, gateway_id))

-- The variables of `get_mqtt_config`.
pub record MqttConfig : Type 0 where
  pub server_ip : Setting (List ℕ)
  pub server_port : Setting ℕ
  pub client_id : Setting (List ℕ)

-- One turn of its loop.
unfoldable pub read_mqtt_config : List ℕ → MqttConfig → Option MqttConfig
read_mqtt_config buffer s =
    if starts_with (codes "brokeraddress") buffer
    then some (record s {
      server_ip = parse_ipaddress_after_space s.server_ip.1 buffer (line_length buffer);
    })
    else if starts_with (codes "brokerport") buffer
    then some (record s {
      server_port = parse_uint16_t_after_space s.server_port.1 buffer (line_length buffer);
    })
    else if starts_with (codes "clientid") buffer
    then Option.map (λ found. record s { client_id = found })
        (parse_string_after_space s.client_id.1 buffer (line_length buffer))
    else some s

abbrev pub unset : {A : Type 0} → A → Setting A
unset a = (false, a)

-- What `get_mqtt_config` returns, and what it leaves in the caller's variables.
unfoldable pub get_mqtt_config : List ℕ → List ℕ → ℕ → List ℕ → Outcome (Bool × MqttConfig)
get_mqtt_config mqtt_configuration server_ip server_port client_id =
    after (λ s. (s.server_ip.0 && s.server_port.0 && s.client_id.0, s))
      (for_lines 512 read_mqtt_config mqtt_configuration (record {
        server_ip = unset server_ip;
        server_port = unset server_port;
        client_id = unset client_id;
      }))

-- The variables of `get_mqtt_login_config`.
pub record Login : Type 0 where
  pub username : Setting (List ℕ)
  pub password : Setting (List ℕ)

unfoldable pub read_login : List ℕ → Login → Option Login
read_login buffer s =
    if starts_with (codes "username") buffer
    then Option.map (λ found. record s { username = found })
        (parse_string_after_space s.username.1 buffer (line_length buffer))
    else if starts_with (codes "password") buffer
    then Option.map (λ found. record s { password = found })
        (parse_string_after_space s.password.1 buffer (line_length buffer))
    else some s

-- `get_mqtt_login_config`
unfoldable pub get_mqtt_login_config : List ℕ → List ℕ → List ℕ → Outcome (Bool × Login)
get_mqtt_login_config mqtt_configuration username password =
    after (λ s. (s.username.0 && s.password.0, s))
      (for_lines 128 read_login mqtt_configuration
        (record { username = unset username; password = unset password }))

-- The variables of `get_mqtt_will`.
pub record WillConfig : Type 0 where
  pub topic : Setting (List ℕ)
  pub msg : Setting (List ℕ)
  pub qos : Setting ℕ
  pub retain : Setting Bool

-- The number behind `willretain`, which must be 0 or 1.
abbrev pub stored_retain : Setting Bool → Bool × ℕ → Setting Bool
stored_retain retain (parse_success, n) =
    if parse_success && leb n 1 then (true, not (n == 0)) else retain

unfoldable pub read_will : List ℕ → WillConfig → Option WillConfig
read_will buffer s =
    if starts_with (codes "willtopic") buffer
    then Option.map (λ found. record s { topic = found })
        (parse_string_after_space s.topic.1 buffer (line_length buffer))
    else if starts_with (codes "willmessage") buffer
    then Option.map (λ found. record s { msg = found })
        (parse_string_after_space s.msg.1 buffer (line_length buffer))
    else if starts_with (codes "willqos") buffer
    then some (record s { qos = parse_uint8_t_after_space s.qos.1 buffer (line_length buffer) })
    else if starts_with (codes "willretain") buffer
    then some (record s {
      retain = stored_retain s.retain (parse_uint8_t_after_space 0 buffer (line_length buffer));
    })
    else some s

-- `get_mqtt_will`
unfoldable pub get_mqtt_will : List ℕ → List ℕ → List ℕ → ℕ → Bool → Outcome (Bool × WillConfig)
get_mqtt_will mqtt_configuration will_topic will_msg will_qos will_retain =
    after (λ s. (s.topic.0 && s.msg.0 && s.qos.0 && s.retain.0, s))
      (for_lines 128 read_will mqtt_configuration (record {
        topic = unset will_topic;
        msg = unset will_msg;
        qos = unset will_qos;
        retain = unset will_retain;
      }))

-- What `get_predefined_topic_name` makes of a line.
pub data TopicLine : Type 0 where
  skipped : TopicLine
  crashed : TopicLine
  found : List ℕ → TopicLine

-- The tokens of the line: behind a single one `strlen` gets a null pointer.
abbrev pub topic_tokens : ℕ → List (List ℕ) → TopicLine
topic_tokens topic_id [] = skipped
topic_tokens topic_id (t ∷ []) = crashed
topic_tokens topic_id (t ∷ name ∷ _) =
    if leb 255 (length name)
    then skipped
    else if atoi 65536 t == topic_id
    then found name
    else skipped

abbrev pub topic_line : ℕ → List ℕ → TopicLine
topic_line topic_id line =
    if leb (length line) 3
    then skipped
    else if leb 262 (length line)
    then crashed
    else topic_tokens topic_id (strtok 32 (c_str line))

abbrev pub if_found : List ℕ → TopicLine → Outcome (Option (List ℕ)) → Outcome (Option (List ℕ))
if_found [] t o = Outcome.finished none
if_found (_ ∷ _) skipped o = o
if_found (_ ∷ _) crashed o = Outcome.outside
if_found (_ ∷ _) (found name) o = Outcome.finished (some name)

-- The loop of `get_predefined_topic_name`.
unfoldable pub search_topics : ℕ → ℕ → List ℕ → Outcome (Option (List ℕ))
search_topics zero topic_id file = Outcome.out_of_fuel
search_topics (suc fuel) topic_id file =
    let (line, rest) = read_line 262 file in
    if_found line (topic_line topic_id line) (search_topics fuel topic_id rest)

-- `get_predefined_topic_name` on the file of predefined topics, with `_error`.
unfoldable pub get_predefined_topic_name : Bool → List ℕ → ℕ → Outcome (Option (List ℕ))
get_predefined_topic_name error predefined_topic topic_id =
    if error
    then Outcome.finished none
    else search_topics (suc (length predefined_topic)) topic_id predefined_topic
