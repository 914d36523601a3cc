-- ===== src/Tests/BleRuns.antt =====
-- A Bluetooth device that talks, one that does not answer, and the replies to the first.
use linux_mqtt_sn_gateway.Base.{
  ℕ, suc, ◌+◌, ◌≤◌, ◌≡◌, refl, true, false, ◌&&◌, none, some, List, [], ◌∷◌, ◌++◌, length, arith,
  bytes_eq,
}
use linux_mqtt_sn_gateway.Ble.Statistic.{
  new_statistic, set_connection_in_progress, has_failures, is_faulty,
}
use linux_mqtt_sn_gateway.Ble.Mac.{
  get_mac_from_device_address, get_device_address_from_mac, hex_digit,
}
use linux_mqtt_sn_gateway.Ble.Addresses.{get_device_address_from_mac-get_mac}
use linux_mqtt_sn_gateway.Ble.Socket.{
  BleSocket, send, add_ble_connection, remove_ble_connection, erase_connection, find_connection,
  is_living,
}
use linux_mqtt_sn_gateway.Ble.Connection.{BleDevice, Session, handle_connection, first_talking}
use linux_mqtt_sn_gateway.Ble.Acceptor.{
  BleConnectionAcceptor, Sighting, find_statistic, visit_known, visits,
}
use linux_mqtt_sn_gateway.Ble.Life.{
  Life, tick, see, run, Reach, here, next, first_seen, session, failures_bound,
}
use linux_mqtt_sn_gateway.Ble.Faulty.{faulty_forever}
use linux_mqtt_sn_gateway.Ble.Lookup.{count_of}
use linux_mqtt_sn_gateway.Ble.Sightings.{one_connection}
use linux_mqtt_sn_gateway.Ble.Delivery.{wrapped, handed, loops, IsTalking, loops-handle_connection}
use linux_mqtt_sn_gateway.Ble.Replies.{send-add_ble_connection, send-stale}

abbrev sensor : List ℕ
sensor = 200 ∷ 0 ∷ 17 ∷ 255 ∷ 9 ∷ 160 ∷ []

abbrev zeros : List ℕ
zeros = 0 ∷ 0 ∷ 0 ∷ 0 ∷ 0 ∷ 0 ∷ []

get_device_address_from_mac-get_mac_example :
    get_device_address_from_mac zeros (get_mac_from_device_address sensor) ≡ some sensor
get_device_address_from_mac-get_mac_example =
    get_device_address_from_mac-get_mac zeros sensor refl refl (omega arith)

abbrev quiet_socket : BleSocket
quiet_socket = record {
  ble_connections = [];
  ble_message_queue = [];
  own_address = [];
  living = 7 ∷ [];
  sent = [];
  received = [];
  events = [];
}

abbrev talker : BleDevice
talker = record {
  device_mac = get_mac_from_device_address sensor;
  connects = true;
  has_nus = true;
  has_multiple_nus = true;
  last_messages = [] ∷ (1 ∷ []) ∷ [];
  polled = (3 ∷ 4 ∷ 1 ∷ []) ∷ [] ∷ (2 ∷ 24 ∷ []) ∷ [];
  nus_disconnects = true;
  device_disconnects = false;
}

abbrev talk : Session
talk = record {
  statistic = set_connection_in_progress (new_statistic (get_mac_from_device_address sensor) 5);
  socket = quiet_socket;
  calls = [];
}

talker-IsTalking : IsTalking talker 1
unfolding first_talking
talker-IsTalking = record { answers = refl; serves = refl; several = refl; talks = refl }

loops-handle_connection_example :
    let queued = wrapped talker.device_mac talker.polled in
    let t = loops zeros (length queued) (handle_connection 6 7 talker talk).socket in
    (t.received ≡ [] ++ handed sensor queued) × (t.ble_message_queue ≡ [])
loops-handle_connection_example =
    loops-handle_connection 6 7 1 zeros sensor talker talk talker-IsTalking refl refl (omega arith)
      refl refl

no_connection : find_connection (get_mac_from_device_address sensor) [] ≡ none
unfolding find_connection
no_connection = refl

seven-living : is_living 7 (7 ∷ []) ≡ true
unfolding is_living
seven-living = refl

send-add_ble_connection_example :
    let mac = get_mac_from_device_address sensor in
    let added = add_ble_connection mac 7 quiet_socket in
    (send sensor (2 ∷ 5 ∷ []) added ≡ (
      true,
      record quiet_socket {
        ble_connections = [] ++ (mac, 7) ∷ [];
        sent = [] ++ (7, 2 ∷ 5 ∷ []) ∷ [];
      },
    ))
    × (send sensor (2 ∷ 5 ∷ []) (remove_ble_connection mac added) ≡ (true, quiet_socket))
send-add_ble_connection_example =
    send-add_ble_connection 7 sensor (2 ∷ 5 ∷ []) quiet_socket no_connection seven-living

abbrev stale_socket : BleSocket
stale_socket = record quiet_socket {
  ble_connections = (get_mac_from_device_address sensor, 3) ∷ [];
}

stale_entry :
    find_connection (get_mac_from_device_address sensor) stale_socket.ble_connections ≡ some 3
unfolding find_connection bytes_eq get_mac_from_device_address hex_digit
stale_entry = refl

three-gone : is_living 3 (7 ∷ []) ≡ false
unfolding is_living
three-gone = refl

send-stale_example :
    let mac = get_mac_from_device_address sensor in
    send sensor (2 ∷ 5 ∷ []) (add_ble_connection mac 7 stale_socket) ≡ (
      true,
      record stale_socket { ble_connections = erase_connection mac stale_socket.ble_connections },
    )
send-stale_example = send-stale 3 7 sensor (2 ∷ 5 ∷ []) stale_socket stale_entry three-gone

abbrev silent : BleDevice
silent = record talker { connects = false }

-- The acceptor starts a connection, the device does not answer, and time passes.
abbrev attempt : Life → Life
attempt s =
    let seen : Life = record s { statistic = (visit_known s.clock 0 s.statistic).1 } in
    let failed : Life = record seen {
      statistic =
          (handle_connection seen.clock 7 silent
            (session seen.statistic quiet_socket [])).statistic;
    } in
    record failed { clock = failed.clock + 1000000000 }

Reach-attempt :
    {s t : Life}
    → Reach s t
    → (visit_known t.clock 0 t.statistic).1.connection_in_progress ≡ true
    → Reach s (attempt t)
Reach-attempt r p = next (next (next r (see 0)) (run 7 silent quiet_socket [] p)) (tick 1000000000)

abbrev first : Life
first = first_seen (get_mac_from_device_address sensor) 12

abbrev given_up : Life
given_up = attempt (attempt (attempt (attempt first)))

given_up-reached : Reach first given_up
unfolding visit_known is_faulty handle_connection
given_up-reached =
    Reach-attempt (Reach-attempt (Reach-attempt (Reach-attempt here refl) refl) refl) refl

given_up-faulty : has_failures given_up.statistic ≡ true
unfolding visit_known is_faulty handle_connection
given_up-faulty = refl

failures_bound_example :
    (given_up.statistic.connect_failed ≤ 4)
    × (given_up.statistic.service_failed ≤ 4)
    × ((given_up.statistic.connection_in_progress && has_failures given_up.statistic) ≡ false)
failures_bound_example = failures_bound given_up-reached

-- An hour later.
abbrev hour_later : Life
hour_later = record given_up { clock = given_up.clock + 3600000000000 }

faulty_forever_example :
    (hour_later.statistic ≡ given_up.statistic)
    × (hour_later.statistic.connection_in_progress ≡ false)
faulty_forever_example =
    faulty_forever given_up-reached given_up-faulty (next here (tick 3600000000000))

abbrev seen_at : List ℕ → ℕ → Sighting
seen_at m time = record { seen_mac = m; is_broken = false; now = time; later = time }

abbrev fresh_acceptor : BleConnectionAcceptor
fresh_acceptor = record {
  device_statistics = [];
  removed = [];
  connecting = [];
  is_stopped = false;
  current_adapter = none;
}

nothing_known : find_statistic (65 ∷ 66 ∷ []) [] ≡ none
unfolding find_statistic
nothing_known = refl

one_connection_example :
    count_of
      (65 ∷ 66 ∷ [])
      (visits
        (seen_at (65 ∷ 66 ∷ []) 1
          ∷ seen_at (65 ∷ 66 ∷ []) 2
          ∷ seen_at (65 ∷ 66 ∷ []) 3
          ∷ seen_at (65 ∷ []) 3
          ∷ [])
        fresh_acceptor).connecting
    ≡ suc (count_of (65 ∷ 66 ∷ []) [])
one_connection_example =
    one_connection 65 (66 ∷ []) (seen_at (65 ∷ 66 ∷ []) 1) (seen_at (65 ∷ 66 ∷ []) 2)
      (seen_at (65 ∷ 66 ∷ []) 3 ∷ seen_at (65 ∷ []) 3 ∷ []) fresh_acceptor (refl, refl) (refl, refl)
      nothing_known
