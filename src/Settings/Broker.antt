-- ===== src/Settings/Broker.antt =====
-- `get_mqtt_config` of Implementation/LinuxPersistent.cpp on a file with the three lines it looks for.
use mathlib.Core.Option
use linux_mqtt_sn_gateway.Base.{
  ℕ, ◌<◌, ◌≤◌, ◌≡◌, refl, ap, ◌∙◌, Bool, true, false, not, ◌&&◌, some, List, [], ◌∷◌, ◌++◌, length,
  All, All-append, leb, ltb, ◌==◌, if◌then◌else◌, replicate, codes, c_str, overlay, arith,
}
use linux_mqtt_sn_gateway.Settings.Lines.{
  finished, fold_lines, text_of, for_lines-text_of, outcome_of, FitsLine, Stops,
}
use linux_mqtt_sn_gateway.Settings.Parse.{stored_string}
use linux_mqtt_sn_gateway.Settings.Values.{IsLineText}
use linux_mqtt_sn_gateway.Settings.Decimal.{
  number_text-IsDigits, length-number_text, ip_text, length-ip_text, length-ip_text_positive,
  ip_text-IsLineText, digits-IsLineText, stored_ip-ip_text,
}
use linux_mqtt_sn_gateway.Settings.Entries.{entry, IsEntry, entry-FitsLine}
use linux_mqtt_sn_gateway.Settings.Getters.{
  Setting, unset, after, MqttConfig, read_mqtt_config, get_mqtt_config,
}
use linux_mqtt_sn_gateway.Settings.Turns.{
  read_address, read_port, read_client_id, port_text, stored_uint16-port_text, fold_lines-next,
  fold_lines-unrelated, IsUnrelated,
}

-- The lines of the broker's address and port and of the client's identifier.
abbrev pub broker_lines : ℕ → ℕ → ℕ → ℕ → ℕ → List ℕ → List (List ℕ)
broker_lines a b c d port id =
    entry (codes "brokeraddress") (ip_text a b c d)
    ∷ entry (codes "brokerport") (port_text port)
    ∷ entry (codes "clientid") id
    ∷ []

abbrev pub broker_address : ℕ → ℕ → ℕ → ℕ → Setting (List ℕ)
broker_address a b c d =
    if ltb 7 (length (ip_text a b c d)) then (true, a ∷ b ∷ c ∷ d ∷ []) else (false, replicate 4 0)

-- The client's identifier.
abbrev pub IsId : List ℕ → Type 0
IsId id = IsLineText id × (1 ≤ length id) × (length id < 24)

-- The variables behind the loop.
abbrev pub broker_config : ℕ → ℕ → ℕ → ℕ → ℕ → List ℕ → MqttConfig
broker_config a b c d port id = record {
  server_ip = broker_address a b c d;
  server_port = (true, port);
  client_id = (true, overlay (replicate 24 0) id);
}

ip_text-IsEntry : (a b c d : ℕ) → IsEntry 512 (codes "brokeraddress") (ip_text a b c d)
ip_text-IsEntry a b c d = (
  ground arith,
  ip_text-IsLineText a b c d,
  length-ip_text_positive a b c d,
  omega (arith, length-ip_text a b c d),
)

port_text-IsEntry : (port : ℕ) → IsEntry 512 (codes "brokerport") (port_text port)
port_text-IsEntry port = (
  ground arith,
  digits-IsLineText (port_text port) (number_text-IsDigits 4 port),
  (length-number_text 4 port).0,
  omega (arith, (length-number_text 4 port).1),
)

id-IsEntry : (id : List ℕ) → IsId id → IsEntry 512 (codes "clientid") id
id-IsEntry id h = (ground arith, h.0, h.1, omega (arith, h.2))

leb-below : (n : ℕ) → n < 24 → leb 24 n ≡ false
leb-below n lt = ground arith

fits_24 : {A : Type 0} (n : ℕ) (r q : A) → n < 24 → (if leb 24 n then r else q) ≡ q
fits_24 n r q lt = rw (leb-below n lt)

strlen-overlay : (id ds : List ℕ) → IsId id → (length (c_str (overlay (0 ∷ ds) id)) == 0) ≡ false
unfolding c_str overlay
strlen-overlay [] ds h = absurd (omega arith)
strlen-overlay (c ∷ r) ds h = ground arith

stored_string-id :
    (id : List ℕ)
    → IsId id
    → stored_string (replicate 24 0) (some id) ≡ some (true, overlay (replicate 24 0) id)
stored_string-id id h =
    fits_24 (length id) _ _ h.2
    ∙ ap (λ e. some (not e, overlay (replicate 24 0) id)) (strlen-overlay id (replicate 23 0) h)

fold_lines-broker_lines :
    (a b c d port : ℕ) (id : List ℕ)
    → a < 256
    → b < 256
    → c < 256
    → d < 256
    → 1 ≤ port
    → port < 65536
    → IsId id
    → fold_lines 512 read_mqtt_config (broker_lines a b c d port id) (record {
      server_ip = unset (replicate 4 0);
      server_port = unset 0;
      client_id = unset (replicate 24 0);
    })
      ≡ some (broker_config a b c d port id)
fold_lines-broker_lines a b c d port id ha hb hc hd h lt hid =
    let s0 : MqttConfig = record {
      server_ip = unset (replicate 4 0);
      server_port = unset 0;
      client_id = unset (replicate 24 0);
    } in
    let s1 = record s0 { server_ip = broker_address a b c d } in
    let s2 = record s1 { server_port = (true, port) } in
    let address = codes "brokeraddress" in
    let port_line = entry (codes "brokerport") (port_text port) in
    let id_line = entry (codes "clientid") id in
    fold_lines-next (entry address (ip_text a b c d)) (port_line ∷ id_line ∷ []) s0 s1
      (entry-FitsLine 512 address (ip_text a b c d) (ip_text-IsEntry a b c d)).2
      (read_address (ip_text a b c d) s0 (ip_text-IsEntry a b c d)
        ∙ ap (λ ip. some (record s0 { server_ip = ip }))
            (stored_ip-ip_text 0 0 0 0 a b c d ha hb hc hd))
    ∙ fold_lines-next port_line (id_line ∷ []) s1 s2
        (entry-FitsLine 512 (codes "brokerport") (port_text port) (port_text-IsEntry port)).2
        (read_port (port_text port) s1 (port_text-IsEntry port)
          ∙ ap (λ p. some (record s1 { server_port = p })) (stored_uint16-port_text 0 port h lt))
    ∙ fold_lines-next id_line [] s2 (broker_config a b c d port id)
        (entry-FitsLine 512 (codes "clientid") id (id-IsEntry id hid)).2
        (read_client_id id s2 (id-IsEntry id hid)
          ∙ ap (Option.map (λ found. record s2 { client_id = found })) (stored_string-id id hid))

broker_lines-FitsLine :
    (a b c d port : ℕ) (id : List ℕ) → IsId id → All (FitsLine 512) (broker_lines a b c d port id)
broker_lines-FitsLine a b c d port id h = (
  entry-FitsLine 512 (codes "brokeraddress") (ip_text a b c d) (ip_text-IsEntry a b c d),
  (
    entry-FitsLine 512 (codes "brokerport") (port_text port) (port_text-IsEntry port),
    (entry-FitsLine 512 (codes "clientid") id (id-IsEntry id h), tt),
  ),
)

all_found :
    (r : Bool) (x y : List ℕ)
    → (let found : Setting (List ℕ) = if r then (true, x) else (false, y) in
        found.0 && true && true)
      ≡ r
all_found true x y = refl
all_found false x y = refl

-- On a file of some unrelated lines and the lines of the broker's address, its port and the
-- client's identifier, get_mqtt_config gives the port and the identifier as written, and the
-- address as written if it has more than 7 characters; the result is true exactly then. The bytes
-- of the address are below 256, the port is a uint16_t other than 0, the identifier has 1 to 23
-- characters, every line fits its buffer of 512 bytes, and behind the lines the file ends or has
-- an empty line.
pub get_mqtt_config_lem :
    (others : List (List ℕ)) (a b c d port : ℕ) (id stop : List ℕ)
    → All (FitsLine 512) others
    → All IsUnrelated others
    → a < 256
    → b < 256
    → c < 256
    → d < 256
    → 1 ≤ port
    → port < 65536
    → IsId id
    → Stops stop
    → get_mqtt_config
        (text_of (others ++ broker_lines a b c d port id) ++ stop)
        (replicate 4 0)
        0
        (replicate 24 0)
      ≡ finished (ltb 7 (length (ip_text a b c d)), broker_config a b c d port id)
unfolding get_mqtt_config
get_mqtt_config_lem others a b c d port id stop ho hu ha hb hc hd h lt hid hs =
    ap (after _) (
      for_lines-text_of 512 read_mqtt_config (others ++ broker_lines a b c d port id) stop _
        (omega arith)
        (All-append (FitsLine 512) others (broker_lines a b c d port id) ho
          (broker_lines-FitsLine a b c d port id hid))
        hs
      ∙ ap outcome_of (
          fold_lines-unrelated others (broker_lines a b c d port id) _ ho hu
          ∙ fold_lines-broker_lines a b c d port id ha hb hc hd h lt hid))
    ∙ ap (λ r. finished (r, broker_config a b c d port id))
        (all_found (ltb 7 (length (ip_text a b c d))) _ _)
