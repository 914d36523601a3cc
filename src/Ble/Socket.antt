-- ===== src/Ble/Socket.antt =====
-- `BLESocket` (Implementation/Ble/BLESocket.{h,cpp}) and `BLEMessage`: the table of connections, the
-- queue of messages, and the calls of the gateway. Connections are numbered.
use linux_mqtt_sn_gateway.Base.{
  ℕ, Bool, true, false, Option, none, some, List, [], ◌∷◌, ◌++◌, ◌==◌, ltb, if◌then◌else◌, length,
  replicate, overlay, bytes_eq,
}
use linux_mqtt_sn_gateway.Udp.Socket.{Event, connected}
use linux_mqtt_sn_gateway.Ble.Mac.{get_mac_from_device_address, get_device_address_from_mac}

pub record BleMessage : Type 0 where
  pub mac : List ℕ
  pub data_bytes : List ℕ

-- `living`: the connections that a shared pointer still holds, so that `lock` gives them. `sent` is
-- what the connections were told to send; `received` and `events` are the calls of the handler.
pub record BleSocket : Type 0 where
  pub ble_connections : List (List ℕ × ℕ)
  pub ble_message_queue : List BleMessage
  pub own_address : List ℕ
  pub living : List ℕ
  pub sent : List (ℕ × List ℕ)
  pub received : List (List ℕ × List ℕ)
  pub events : List Event

-- `find` on the map, by the MAC address
unfoldable pub find_connection : List ℕ → List (List ℕ × ℕ) → Option ℕ
find_connection mac [] = none
find_connection mac (e ∷ es) = if bytes_eq mac e.0 then some e.1 else find_connection mac es

-- `erase` of the entry of a MAC address
unfoldable pub erase_connection : List ℕ → List (List ℕ × ℕ) → List (List ℕ × ℕ)
erase_connection mac [] = []
erase_connection mac (e ∷ es) = if bytes_eq mac e.0 then es else e ∷ erase_connection mac es

unfoldable pub is_living : ℕ → List ℕ → Bool
is_living c [] = false
is_living c (d ∷ ds) = if c == d then true else is_living c ds

-- `begin`, with whether the acceptor's `start` finds an adapter
unfoldable pub begin : Bool → BleSocket → Bool × BleSocket
begin adapter_found s =
    if adapter_found then (true, record s { events = s.events ++ connected ∷ [] }) else (false, s)

abbrev pub own : BleSocket → Option (List ℕ) → Option (List ℕ × BleSocket)
own s none = none
own s (some address) = some (address, record s { own_address = address })

-- `getAddress`, with the bytes of the local in `getDeviceAddressFromMac` and the adapter's MAC
-- address; none is an exception.
unfoldable pub get_address : List ℕ → List ℕ → BleSocket → Option (List ℕ × BleSocket)
get_address bytes [] s = none
get_address bytes (c ∷ cs) s = own s (get_device_address_from_mac bytes (c ∷ cs))

-- `getMaximumMessageLength`
abbrev pub maximum_message_length : ℕ
maximum_message_length = 20

abbrev pub send_to : List ℕ → List ℕ → Option ℕ → BleSocket → BleSocket
send_to mac bytes none s = s
send_to mac bytes (some c) s =
    if is_living c s.living
    then record s { sent = s.sent ++ (c, bytes) ∷ [] }
    else record s { ble_connections = erase_connection mac s.ble_connections }

-- `send`
unfoldable pub send : List ℕ → List ℕ → BleSocket → Bool × BleSocket
send destination bytes s =
    let mac = get_mac_from_device_address destination in
    (true, send_to mac bytes (find_connection mac s.ble_connections) s)

-- `receiveData` with the address, or the exception.
abbrev pub hand_over : Option (List ℕ) → List ℕ → BleSocket → Option Bool × BleSocket
hand_over none bytes s = (none, s)
hand_over (some address) bytes s = (
  some true,
  record s { received = s.received ++ (address, overlay (replicate 255 0) bytes) ∷ [] },
)

abbrev pub take_message : List ℕ → List BleMessage → BleSocket → Option Bool × BleSocket
take_message bytes [] s = (some true, s)
take_message bytes (m ∷ ms) s =
    let s' = record s { ble_message_queue = ms } in
    if ltb 255 (length m.data_bytes)
    then (some true, s')
    else hand_over (get_device_address_from_mac bytes m.mac) m.data_bytes s'

-- `loop`, with the bytes of the local in `getDeviceAddressFromMac`; none is an exception.
unfoldable pub loop : List ℕ → BleSocket → Option Bool × BleSocket
loop bytes s = take_message bytes s.ble_message_queue s

-- `insert` keeps the entry that a key has.
abbrev pub inserted : List ℕ → ℕ → Option ℕ → List (List ℕ × ℕ) → List (List ℕ × ℕ)
inserted mac c none es = es ++ (mac, c) ∷ []
inserted mac c (some _) es = es

-- `addBLEConnection`
unfoldable pub add_ble_connection : List ℕ → ℕ → BleSocket → BleSocket
add_ble_connection mac c s = record s {
  ble_connections = inserted mac c (find_connection mac s.ble_connections) s.ble_connections;
}

-- `removeBLEConnection`
unfoldable pub remove_ble_connection : List ℕ → BleSocket → BleSocket
remove_ble_connection mac s = record s { ble_connections = erase_connection mac s.ble_connections }

-- `addBLEMessage`
unfoldable pub add_ble_message : BleMessage → BleSocket → BleSocket
add_ble_message m s = record s { ble_message_queue = s.ble_message_queue ++ m ∷ [] }
