-- ===== src/Ble/Connection.antt =====
-- `BLEConnection` (Implementation/Ble/BLEConnection.{h,cpp}): the thread of one device, from
-- `connect` to the end of `handleConnection`.
use linux_mqtt_sn_gateway.Base.{
  ℕ, suc, Bool, true, false, Option, none, some, List, [], ◌∷◌, ◌++◌, ◌==◌, if◌then◌else◌,
}
use linux_mqtt_sn_gateway.Ble.Statistic.{
  BleDeviceStatistic, increment_connect_failed, increment_service_failed, reset,
  unset_connection_in_progress,
}
use linux_mqtt_sn_gateway.Ble.Socket.{
  BleSocket, add_ble_connection, remove_ble_connection, add_ble_message,
}

-- What libBLE answers about a device. `last_messages` has one entry for each of its NUS connections;
-- `polled` is what `getMessage` gives while the device is connected and no stop is signalled. The
-- last two fields tell whether `disconnect` of the NUS connection and of the device return.
pub record BleDevice : Type 0 where
  pub device_mac : List ℕ
  pub connects : Bool
  pub has_nus : Bool
  pub has_multiple_nus : Bool
  pub last_messages : List (List ℕ)
  pub polled : List (List ℕ)
  pub nus_disconnects : Bool
  pub device_disconnects : Bool

-- The calls that change something in libBLE, a NUS connection by its place in the list.
pub data Call : Type 0 where
  remove_device disconnect_device : Call
  read_message connect_nus disconnect_nus : ℕ → Call

-- What the thread shares with others, and its calls.
pub record Session : Type 0 where
  pub statistic : BleDeviceStatistic
  pub socket : BleSocket
  pub calls : List Call

abbrev pub call : Call → Session → Session
call x w = record w { calls = w.calls ++ x ∷ [] }

-- The end of the thread after a failure.
abbrev pub give_up : (BleDeviceStatistic → BleDeviceStatistic) → Session → Session
give_up count w =
    let w' = record w { statistic = count w.statistic } in
    let removed = call remove_device w' in
    record removed { statistic = unset_connection_in_progress removed.statistic }

-- The first NUS connection, from number `i` on, with a last message.
unfoldable pub first_talking : ℕ → List (List ℕ) → Option ℕ
first_talking i [] = none
first_talking i ([] ∷ ms) = first_talking (suc i) ms
first_talking i ((_ ∷ _) ∷ ms) = some i

abbrev pub chosen : Option ℕ → Session → Option ℕ × Session
chosen none w = (none, w)
chosen (some i) w = (some i, call (read_message i) w)

-- The one NUS connection: its message is read, and then the pointer is set to null.
abbrev pub single : List (List ℕ) → Session → Option ℕ × Session
single ((_ ∷ _) ∷ _) w = (none, call (read_message 0) w)
single _ w = (none, w)

-- `bleNUSConnection` after the test for several
unfoldable pub choose_nus : BleDevice → Session → Option ℕ × Session
choose_nus d w =
    if d.has_multiple_nus
    then chosen (first_talking 0 d.last_messages) w
    else single d.last_messages w

-- The body of the message loop, for each message polled.
unfoldable pub take_messages : List ℕ → List (List ℕ) → BleSocket → BleSocket
take_messages mac [] s = s
take_messages mac ([] ∷ ms) s = take_messages mac ms s
take_messages mac ((b ∷ bs) ∷ ms) s =
    take_messages mac ms (add_ble_message (record { mac = mac; data_bytes = b ∷ bs }) s)

abbrev pub gone : ℕ → List ℕ → List ℕ
gone c [] = []
gone c (d ∷ ds) = if c == d then gone c ds else d ∷ gone c ds

-- The block with the handler for exceptions.
abbrev pub leave : ℕ → BleDevice → Session → Session
leave i d w =
    let nus_left = call (disconnect_nus i) w in
    let device_left = call disconnect_device nus_left in
    let forgotten = record device_left {
      socket = remove_ble_connection d.device_mac device_left.socket;
    } in
    if d.nus_disconnects
    then (if d.device_disconnects then call remove_device forgotten else device_left)
    else nus_left

-- The end of the thread, with its last shared pointer to the connection.
abbrev pub finished : ℕ → Session → Session
finished c w = record w {
  statistic = unset_connection_in_progress w.statistic;
  socket = record w.socket { living = gone c w.socket.living };
}

-- From `connect` of the NUS connection to the first test of the message loop.
unfoldable pub join : ℕ → ℕ → ℕ → BleDevice → Session → Session
join now c i d w =
    let w' = call (connect_nus i) w in
    record w' {
      statistic = reset now w.statistic;
      socket = add_ble_connection d.device_mac c (record w.socket { living = c ∷ w.socket.living });
    }

abbrev pub serve_session : ℕ → ℕ → ℕ → BleDevice → Session → Session
serve_session now c i d w =
    let joined = join now c i d w in
    let served = record joined { socket = take_messages d.device_mac d.polled joined.socket } in
    finished c (leave i d served)

-- A device without a MAC address ends the thread with the flag still set.
abbrev pub with_mac : ℕ → ℕ → ℕ → List ℕ → BleDevice → Session → Session
with_mac now c i [] d w = w
with_mac now c i (_ ∷ _) d w = serve_session now c i d w

abbrev pub with_nus : ℕ → ℕ → BleDevice → Option ℕ × Session → Session
with_nus now c d (none, w) = give_up (increment_service_failed now) w
with_nus now c d (some i, w) = with_mac now c i d.device_mac d w

-- The answer of `hasNUS`.
abbrev pub with_service : ℕ → ℕ → BleDevice → Bool → Session → Session
with_service now c d false w = give_up (increment_service_failed now) w
with_service now c d true w = with_nus now c d (choose_nus d w)

-- The answer of the device's `connect`.
abbrev pub with_connection : ℕ → ℕ → BleDevice → Bool → Session → Session
with_connection now c d false w = give_up (increment_connect_failed now) w
with_connection now c d true w = with_service now c d d.has_nus w

-- `handleConnection` of the connection `c`, with the one time it reads from the clock
unfoldable pub handle_connection : ℕ → ℕ → BleDevice → Session → Session
handle_connection now c d w = with_connection now c d d.connects w
