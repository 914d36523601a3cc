-- ===== src/Paho/Broker.antt =====
-- `getConfigAndConnect` of PahoMqttMessageHandler.cpp on the configuration file that
-- `LinuxPersistent::get_mqtt_config` reads for it through the core.
use linux_mqtt_sn_gateway.Base.{
  ℕ, zero, suc, ◌-◌, ◌^◌, ◌<◌, ◌≤◌, ◌≡◌, ◌≢◌, refl, ap, ◌∙◌, Bool, true, false, none, some, List,
  [], ◌∷◌, ◌++◌, length, All, ◌==◌, if◌then◌else◌, replicate, c_str, overlay, lt→ltb, arith,
}
use linux_mqtt_sn_gateway.Settings.Lines.{Outcome, finished, text_of, FitsLine, Stops}
use linux_mqtt_sn_gateway.Settings.Values.{IsLineText}
use linux_mqtt_sn_gateway.Settings.Decimal.{ip_text}
use linux_mqtt_sn_gateway.Settings.Getters.{Login, WillConfig, get_mqtt_config}
use linux_mqtt_sn_gateway.Settings.Turns.{IsUnrelated}
use linux_mqtt_sn_gateway.Settings.Broker.{
  broker_lines, broker_config, broker_address, IsId, get_mqtt_config_lem,
}
use linux_mqtt_sn_gateway.Paho.Library.{ConnectData, Library, Core}
use linux_mqtt_sn_gateway.Paho.Handler.{
  Handler, set_server, with_net, open_stack, connect_with, connect, configured,
  get_config_and_connect, ◌>>=◌,
}
use linux_mqtt_sn_gateway.Paho.Connect.{big_endian, served, open_stack-set_server}

c_str-overlay :
    (id : List ℕ) (n : ℕ) → IsLineText id → length id < n → c_str (overlay (replicate n 0) id) ≡ id
unfolding c_str overlay
c_str-overlay [] zero h lt = refl
c_str-overlay [] (suc n) h lt = refl
c_str-overlay (c ∷ id) zero h lt = absurd (omega arith)
c_str-overlay (c ∷ id) (suc n) h lt = ground (arith, c_str-overlay id n h.1)

-- The connect packet of a client without login and will.
abbrev pub plain_data : List ℕ → ConnectData
plain_data id = record { version = 3; client_id = id; login = none; will = none }

>>=-finished :
    {A B : Type 0} (o : Outcome A) (f : A → Outcome B) {a : A} → o ≡ finished a → (o >>= f) ≡ f a
>>=-finished o f e = ap (λ r. r >>= f) e

different : (m n : ℕ) → m ≢ n → (m == n) ≡ false
different m n h = ground arith

broker_address-long :
    (a b c d : ℕ) → 7 < length (ip_text a b c d) → (broker_address a b c d).1 ≡ a ∷ b ∷ c ∷ d ∷ []
broker_address-long a b c d long = rw (lt→ltb 7 (length (ip_text a b c d)) long)

module _ {l : Library} where
  -- `connect(id)`, computed.
  abbrev connect_plain : List ℕ → Handler l → Bool × Handler l
  connect_plain id s = connect_with (some (plain_data id)) (open_stack s)

  configured-broker :
      (core : Core) (s : Handler l) (a b c d port : ℕ) (id : List ℕ) (login : Login)
      (will : WillConfig)
      → core.get_mqtt_login_config (replicate 24 0) (replicate 24 0) ≡ finished (false, login)
      → core.get_mqtt_will (replicate 255 0) (replicate 255 0) 0 false ≡ finished (false, will)
      → a < 256
      → b < 256
      → c < 256
      → d < 256
      → 7 < length (ip_text a b c d)
      → big_endian a b c d ≢ 2 ^ 32 - 1
      → IsId id
      → configured core s (true, broker_config a b c d port id)
        ≡ finished (
            connect_with (some (plain_data id)) (
              with_net
                (served (a ∷ b ∷ c ∷ d ∷ []) port s)
                (l.connect_ip (big_endian a b c d) port s.net)))
  unfolding connect
  configured-broker core s a b c d port id login will e f ha hb hc hd long ne hid =
      >>=-finished (core.get_mqtt_login_config (replicate 24 0) (replicate 24 0)) _ e
      ∙ >>=-finished (core.get_mqtt_will (replicate 255 0) (replicate 255 0) 0 false) _ f
      ∙ ap finished (
          ap (λ i. connect_plain i (set_server (broker_address a b c d).1 port s))
            (c_str-overlay id 24 hid.0 hid.2)
          ∙ ap (λ ip. connect_plain id (set_server ip port s)) (broker_address-long a b c d long)
          ∙ ap (connect_with (some (plain_data id))) (
              open_stack-set_server a b c d port s ha hb hc hd
              ∙ ap
                  (λ t.
                    if t
                    then (false, served (a ∷ b ∷ c ∷ d ∷ []) port s)
                    else with_net (served (a ∷ b ∷ c ∷ d ∷ []) port s)
                        (l.connect_ip (big_endian a b c d) port s.net))
                  (different (big_endian a b c d) (2 ^ 32 - 1) ne)))

  -- On a file of some unrelated lines and the lines of the broker's address, its port and the
  -- client's identifier, which the core passes on, and with no login and no will,
  -- getConfigAndConnect calls the library with the address in network order and the port, and,
  -- where that succeeds, connects with the identifier. The address has more than 7 characters and
  -- is not 255.255.255.255, the port is a uint16_t other than 0, the identifier has 1 to 23
  -- characters, and every line fits its buffer of 512 bytes.
  pub get_config_and_connect_lem :
      (core : Core) (s : Handler l) (others : List (List ℕ)) (a b c d port : ℕ) (id stop : List ℕ)
      (login : Login) (will : WillConfig)
      → ((ip : List ℕ) (n : ℕ) (name : List ℕ)
          → core.get_mqtt_config ip n name
            ≡ get_mqtt_config (text_of (others ++ broker_lines a b c d port id) ++ stop) ip n name)
      → core.get_mqtt_login_config (replicate 24 0) (replicate 24 0) ≡ finished (false, login)
      → core.get_mqtt_will (replicate 255 0) (replicate 255 0) 0 false ≡ finished (false, will)
      → All (FitsLine 512) others
      → All IsUnrelated others
      → a < 256
      → b < 256
      → c < 256
      → d < 256
      → 7 < length (ip_text a b c d)
      → big_endian a b c d ≢ 2 ^ 32 - 1
      → 1 ≤ port
      → port < 65536
      → IsId id
      → Stops stop
      → get_config_and_connect core s
        ≡ finished (
            connect_with (some (plain_data id)) (
              with_net
                (served (a ∷ b ∷ c ∷ d ∷ []) port s)
                (l.connect_ip (big_endian a b c d) port s.net)))
  unfolding get_config_and_connect
  get_config_and_connect_lem core s others a b c d port id stop login will g e f ho hu ha hb hc hd
        long ne hp lt hid hs =
      >>=-finished (core.get_mqtt_config (replicate 4 0) 0 (replicate 24 0)) _ (
        g (replicate 4 0) 0 (replicate 24 0)
        ∙ get_mqtt_config_lem others a b c d port id stop ho hu ha hb hc hd hp lt hid hs
        ∙ ap (λ t. finished (t, broker_config a b c d port id))
            (lt→ltb 7 (length (ip_text a b c d)) long))
      ∙ configured-broker core s a b c d port id login will e f ha hb hc hd long ne hid
