-- ===== src/Settings/Turns.antt =====
-- One turn of the loop of `get_mqtt_config` in Implementation/LinuxPersistent.cpp.
use mathlib.Core.Option
use linux_mqtt_sn_gateway.Base.{
  ℕ, ◌-◌, ◌<◌, ◌≤◌, ◌≡◌, refl, ap, ◌∙◌, Bool, true, false, not, none, some, List, [], ◌∷◌, ◌++◌,
  length, All, leb, ◌==◌, if◌then◌else◌, replicate, codes, append_assoc, arith,
}
use linux_mqtt_sn_gateway.Serial.Numbers.{starts_with, starts_with-append}
use linux_mqtt_sn_gateway.Settings.Lines.{buffer_of, turn, fold_lines, FitsLine}
use linux_mqtt_sn_gateway.Settings.Parse.{
  parse_string_after_space, parse_uint16_t_after_space, parse_ipaddress_after_space, stored_string,
  stored_uint16, stored_ip,
}
use linux_mqtt_sn_gateway.Settings.Decimal.{number_text, length-number_text, atoi-number_text}
use linux_mqtt_sn_gateway.Settings.Entries.{entry, IsEntry, value_of-entry}
use linux_mqtt_sn_gateway.Settings.Getters.{MqttConfig, read_mqtt_config}

abbrev pub buffered : List ℕ → List ℕ → List ℕ
buffered key value = buffer_of 512 (entry key value)

starts_with-buffered : (key value : List ℕ) → starts_with key (buffered key value) ≡ true
starts_with-buffered key value =
    ap (starts_with key)
      (append_assoc key (32 ∷ value) (replicate (512 - length (entry key value)) 0))
    ∙ starts_with-append key (32 ∷ (value ++ replicate (512 - length (entry key value)) 0))

pub read_address :
    (value : List ℕ) (s : MqttConfig)
    → IsEntry 512 (codes "brokeraddress") value
    → read_mqtt_config (buffered (codes "brokeraddress") value) s
      ≡ some (record s { server_ip = stored_ip s.server_ip.1 (some value) })
unfolding read_mqtt_config parse_ipaddress_after_space
read_address value s h = rw (starts_with-buffered (codes "brokeraddress") value) (
    ap (λ v. some (record s { server_ip = stored_ip s.server_ip.1 v }))
      (value_of-entry 512 (codes "brokeraddress") value h))

port-not_address :
    (value : List ℕ)
    → starts_with (codes "brokeraddress") (buffered (codes "brokerport") value) ≡ false
unfolding starts_with
port-not_address value = refl

id-not_address :
    (value : List ℕ)
    → starts_with (codes "brokeraddress") (buffered (codes "clientid") value) ≡ false
unfolding starts_with
id-not_address value = refl

id-not_port :
    (value : List ℕ) → starts_with (codes "brokerport") (buffered (codes "clientid") value) ≡ false
unfolding starts_with
id-not_port value = refl

pub read_port :
    (value : List ℕ) (s : MqttConfig)
    → IsEntry 512 (codes "brokerport") value
    → read_mqtt_config (buffered (codes "brokerport") value) s
      ≡ some (record s { server_port = stored_uint16 s.server_port.1 (some value) })
unfolding read_mqtt_config parse_uint16_t_after_space
read_port value s h =
    rw (port-not_address value, starts_with-buffered (codes "brokerport") value)
      (ap (λ v. some (record s { server_port = stored_uint16 s.server_port.1 v }))
        (value_of-entry 512 (codes "brokerport") value h))

pub read_client_id :
    (value : List ℕ) (s : MqttConfig)
    → IsEntry 512 (codes "clientid") value
    → read_mqtt_config (buffered (codes "clientid") value) s
      ≡ Option.map
          (λ found. record s { client_id = found })
          (stored_string s.client_id.1 (some value))
unfolding read_mqtt_config parse_string_after_space
read_client_id value s h =
    rw (id-not_address value, id-not_port value, starts_with-buffered (codes "clientid") value)
      (ap
        (λ v. Option.map (λ found. record s { client_id = found }) (stored_string s.client_id.1 v))
        (value_of-entry 512 (codes "clientid") value h))

-- A line that begins with none of the keys.
abbrev pub IsUnrelated : List ℕ → Type 0
IsUnrelated l =
    (starts_with (codes "brokeraddress") (buffer_of 512 l) ≡ false)
    × (starts_with (codes "brokerport") (buffer_of 512 l) ≡ false)
    × (starts_with (codes "clientid") (buffer_of 512 l) ≡ false)

read-unrelated :
    (l : List ℕ) (s : MqttConfig) → IsUnrelated l → read_mqtt_config (buffer_of 512 l) s ≡ some s
unfolding read_mqtt_config
read-unrelated l s h = rw (h.0, h.1, h.2)

abbrev pub port_text : ℕ → List ℕ
port_text = number_text 4

leb-short : (n : ℕ) → n < 512 → leb 512 n ≡ false
leb-short n lt = ground arith

short : (n : ℕ) (r q : Bool × ℕ) → n ≤ 6 → (if leb n 6 then r else q) ≡ r
short n r q le = ground arith

-- The port is stored.
pub stored_uint16-port_text :
    (old port : ℕ)
    → 1 ≤ port
    → port < 65536
    → stored_uint16 old (some (port_text port)) ≡ (true, port)
stored_uint16-port_text old port h lt =
    short (length (port_text port)) _ _ (omega (arith, (length-number_text 4 port).1))
    ∙ ap (λ n. (not (n == 0), n)) (atoi-number_text 65536 4 port (omega arith) lt)
    ∙ ground arith

turn-fits :
    (l : List ℕ) (s : MqttConfig)
    → length l < 512
    → turn 512 read_mqtt_config l s ≡ read_mqtt_config (buffer_of 512 l) s
turn-fits l s lt = rw (leb-short (length l) lt)

pub fold_lines-next :
    (l : List ℕ) (ls : List (List ℕ)) (s t : MqttConfig)
    → length l < 512
    → read_mqtt_config (buffer_of 512 l) s ≡ some t
    → fold_lines 512 read_mqtt_config (l ∷ ls) s ≡ fold_lines 512 read_mqtt_config ls t
fold_lines-next l ls s t lt e =
    ap (λ r. elim r [ none ↦ none | some u ↦ fold_lines 512 read_mqtt_config ls u ])
      (turn-fits l s lt ∙ e)

pub fold_lines-unrelated :
    (others ls : List (List ℕ)) (s : MqttConfig)
    → All (FitsLine 512) others
    → All IsUnrelated others
    → fold_lines 512 read_mqtt_config (others ++ ls) s ≡ fold_lines 512 read_mqtt_config ls s
fold_lines-unrelated [] ls s h k = refl
fold_lines-unrelated (l ∷ others) ls s h k =
    fold_lines-next l (others ++ ls) s s h.0.2 (read-unrelated l s k.0)
    ∙ fold_lines-unrelated others ls s h.1 k.1
