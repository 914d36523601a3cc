-- ===== src/Paho/Handler.antt =====
-- The fields of `PahoMqttMessageHandler` and its methods, in the order of the file.
use linux_mqtt_sn_gateway.Base.{
  ℕ, ◌+◌, ◌-◌, ◌*◌, ◌%◌, ◌^◌, Bool, true, false, not, ◌&&◌, Option, none, some, List, [], ◌∷◌,
  length, leb, ltb, ◌==◌, if◌then◌else◌, replicate, c_str,
}
use linux_mqtt_sn_gateway.Settings.Lines.{Outcome, finished, outside, out_of_fuel}
use linux_mqtt_sn_gateway.Settings.Getters.{MqttConfig, Login, WillConfig}
use linux_mqtt_sn_gateway.Paho.Library.{ConnectData, Library, Core}

-- `ip_address` is an `int64_t` in two's complement, -1 being `minus_one`. `notified` tells whether
-- `notify_mqtt_connected` was called.
pub record Handler (l : Library) : Type 0 where
  pub hostname : Option (List ℕ)
  pub ip_address : ℕ
  pub port : ℕ
  pub net : l.Net
  pub notified : Bool

abbrev pub minus_one : ℕ
minus_one = 2 ^ 64 - 1

-- `(*ip++) << 24` as an `int`, widened to 64 bits: negative from 128 on.
abbrev pub shift_24 : ℕ → ℕ
shift_24 a = if ltb a 128 then a * 2 ^ 24 else a * 2 ^ 24 + (2 ^ 64 - 2 ^ 32)

-- The four bytes do not overlap, so that `|=` adds them.
abbrev pub packed : List ℕ → ℕ
packed (a ∷ b ∷ c ∷ d ∷ _) = shift_24 a + b * 2 ^ 16 + c * 2 ^ 8 + d
packed _ = 0

-- The library's levels `QOS0`, `QOS1` and `QOS2`.
abbrev pub qos_level : ℕ → Option ℕ
qos_level qos = if leb qos 2 then some qos else none

abbrev pub will_data :
    List ℕ → Option (List ℕ × List ℕ) → List ℕ → List ℕ → Bool → Option ℕ → Option ConnectData
will_data id login topic msg retained none = none
will_data id login topic msg retained (some qos) = some (record {
  version = 4;
  client_id = id;
  login = login;
  will = some (record { topic = topic; msg = msg; qos = qos; retained = retained });
})

infixl 5 ◌>>=◌
abbrev pub ◌>>=◌ : {A B : Type 0} → Outcome A → (A → Outcome B) → Outcome B
finished a >>= f = f a
outside >>= f = outside
out_of_fuel >>= f = out_of_fuel

module _ {l : Library} where
  -- `setServer` with an address
  unfoldable pub set_server : List ℕ → ℕ → Handler l → Handler l
  set_server ip port s = record s { hostname = none; ip_address = packed ip; port = port }

  -- `setServer` with a name
  unfoldable pub set_server_name : List ℕ → ℕ → Handler l → Handler l
  set_server_name hostname port s = record s {
    ip_address = minus_one;
    hostname = some hostname;
    port = port;
  }

  abbrev pub with_net : Handler l → Bool × l.Net → Bool × Handler l
  with_net s (ok, net) = (ok, record s { net = net })

  -- The beginning of each `connect`: the network connection.
  unfoldable pub open_stack : Handler l → Bool × Handler l
  open_stack s = elim s.hostname [
    | some name ↦ with_net s (l.connect_host name s.port s.net)
    | none ↦
        if not (s.ip_address == minus_one)
        then with_net s (l.connect_ip (s.ip_address % 2 ^ 32) s.port s.net)
        else (false, s)
  ]

  -- The end of each `connect`; `none` is the return on a level of service above 2.
  abbrev pub connect_with : Option ConnectData → Bool × Handler l → Bool × Handler l
  connect_with fields (false, s) = (false, s)
  connect_with none (true, s) = (false, s)
  connect_with (some fields) (true, s) = with_net s (l.connect_client fields s.net)

  -- `connect(id)`
  unfoldable pub connect : List ℕ → Handler l → Bool × Handler l
  connect id s =
      connect_with (some (record { version = 3; client_id = id; login = none; will = none }))
        (open_stack s)

  -- `connect(id, user, pass)`
  unfoldable pub connect_login : List ℕ → List ℕ → List ℕ → Handler l → Bool × Handler l
  connect_login id user pass s =
      connect_with
        (some (record { version = 4; client_id = id; login = some (user, pass); will = none }))
        (open_stack s)

  -- `connect(id, willTopic, …)`; the assignment of `willRetain` is commented out.
  unfoldable pub connect_will : List ℕ → List ℕ → ℕ → Bool → List ℕ → Handler l → Bool × Handler l
  connect_will id topic qos retain msg s =
      connect_with (will_data id none topic msg l.initial_retained (qos_level qos)) (open_stack s)

  -- `connect(id, user, pass, willTopic, …)`
  unfoldable pub connect_login_will :
      List ℕ → List ℕ → List ℕ → List ℕ → ℕ → Bool → List ℕ → Handler l → Bool × Handler l
  connect_login_will id user pass topic qos retain msg s =
      connect_with (will_data id (some (user, pass)) topic msg retain (qos_level qos))
        (open_stack s)

  unfoldable pub disconnect : Handler l → Handler l
  disconnect s = record s { net = l.disconnect_stack (l.disconnect_client s.net) }

  abbrev pub at_level : Option ℕ → (ℕ → l.Net → Bool × l.Net) → Handler l → Bool × Handler l
  at_level none f s = (false, s)
  at_level (some qos) f s = with_net s (f qos s.net)

  unfoldable pub publish : List ℕ → List ℕ → ℕ → Bool → Handler l → Bool × Handler l
  publish topic payload qos retained s =
      at_level (qos_level qos)
        (λ level.
          l.publish topic
            (record { qos = level; payload = payload; retained = retained; dup = false }))
        s

  unfoldable pub subscribe : List ℕ → ℕ → Handler l → Bool × Handler l
  subscribe topic qos s = at_level (qos_level qos) (l.subscribe topic) s

  -- `unsubscribe`, with `none` for the null pointer.
  unfoldable pub unsubscribe : Option (List ℕ) → Handler l → Bool × Handler l
  unsubscribe none s = (true, s)
  unsubscribe (some []) s = (true, s)
  unsubscribe (some (c ∷ topic)) s = with_net s (l.unsubscribe (c ∷ topic) s.net)

  -- The four calls at the end of `getConfigAndConnect`.
  abbrev pub connect_configured :
      MqttConfig → Bool × Login → Bool × WillConfig → Handler l → Bool × Handler l
  connect_configured c (has_login, login) (has_will, will) s =
      let id = c_str c.client_id.1 in
      let user = c_str login.username.1 in
      let pass = c_str login.password.1 in
      let topic = c_str will.topic.1 in
      let msg = c_str will.msg.1 in
      if has_login && has_will
      then connect_login_will id user pass topic will.qos.1 will.retain.1 msg s
      else if has_login
      then connect_login id user pass s
      else if has_will
      then connect_will id topic will.qos.1 will.retain.1 msg s
      else connect id s

  abbrev pub configured : Core → Handler l → Bool × MqttConfig → Outcome (Bool × Handler l)
  configured core s (false, c) = finished (false, s)
  configured core s (true, c) = do
    login ← core.get_mqtt_login_config (replicate 24 0) (replicate 24 0)
    will ← core.get_mqtt_will (replicate 255 0) (replicate 255 0) 0 false
    finished (connect_configured c login will (set_server c.server_ip.1 c.server_port.1 s))

  -- `getConfigAndConnect`
  unfoldable pub get_config_and_connect : Core → Handler l → Outcome (Bool × Handler l)
  get_config_and_connect core s = do
    config ← core.get_mqtt_config (replicate 4 0) 0 (replicate 24 0)
    configured core s config

  abbrev pub notify : Bool × Handler l → Bool × Handler l
  notify (false, s) = (false, s)
  notify (true, s) = (true, record s { notified = true })

  -- `loop`
  unfoldable pub loop : Core → Handler l → Outcome (Bool × Handler l)
  loop core s =
      let connecting = get_config_and_connect core s >>= λ r. finished (notify r) in
      if l.is_connected s.net
      then finished (true, record s { net = l.yield_for 300 s.net })
      else connecting

-- `messageArrived` and `receive_publish`: the topic name and payload that `core->publish` gets, if any.
unfoldable pub message_arrived : List ℕ → List ℕ → Option (List ℕ × List ℕ)
message_arrived topic payload =
    if ltb (length topic) 1024 then some (c_str topic, payload) else none
