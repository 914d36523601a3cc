-- ===== src/Paho/Library.antt =====
-- What PahoMqttMessageHandler.cpp calls and the repository does not hold: the Paho client with its
-- network stack, and the gateway's core. A return code is true where it is 0.
use linux_mqtt_sn_gateway.Base.{ℕ, Bool, Option, List}
use linux_mqtt_sn_gateway.Settings.Lines.{Outcome}
use linux_mqtt_sn_gateway.Settings.Getters.{MqttConfig, Login, WillConfig}

-- The fields of `data.will` that the calls set.
pub record Will : Type 0 where
  pub topic : List ℕ
  pub msg : List ℕ
  pub qos : ℕ
  pub retained : Bool

-- The fields of `MQTTPacket_connectData` that the calls set; a user comes with a password, and `will` is
-- there where `willFlag` is 1.
pub record ConnectData : Type 0 where
  pub version : ℕ
  pub client_id : List ℕ
  pub login : Option (List ℕ × List ℕ)
  pub will : Option Will

-- `MQTT::Message` as `publish` fills it.
pub record Message : Type 0 where
  pub qos : ℕ
  pub payload : List ℕ
  pub retained : Bool
  pub dup : Bool

-- `IPStack` and `MQTT::Client`, with their state and the world behind them in `Net`, and the `retained`
-- of `MQTTPacket_connectData_initializer`.
pub record Library : Type 1 where
  pub Net : Type 0
  pub connect_host : List ℕ → ℕ → Net → Bool × Net
  pub connect_ip : ℕ → ℕ → Net → Bool × Net
  pub connect_client : ConnectData → Net → Bool × Net
  pub publish : List ℕ → Message → Net → Bool × Net
  pub subscribe : List ℕ → ℕ → Net → Bool × Net
  pub unsubscribe : List ℕ → Net → Bool × Net
  pub disconnect_client : Net → Net
  pub disconnect_stack : Net → Net
  pub is_connected : Net → Bool
  pub yield_for : ℕ → Net → Net
  pub initial_retained : Bool

-- The getters of `Core`, with the arrays and variables that they fill.
pub record Core : Type 0 where
  pub get_mqtt_config : List ℕ → ℕ → List ℕ → Outcome (Bool × MqttConfig)
  pub get_mqtt_login_config : List ℕ → List ℕ → Outcome (Bool × Login)
  pub get_mqtt_will : List ℕ → List ℕ → ℕ → Bool → Outcome (Bool × WillConfig)
