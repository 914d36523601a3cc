-- ===== src/Ble/Acceptor.antt =====
-- `BLEConnectionAcceptor` (Implementation/Ble/BLEConnectionAcceptor.{h,cpp}): which of the devices that
-- the adapter sees get a connection.
use linux_mqtt_sn_gateway.Base.{
  ℕ, Bool, true, false, Option, none, some, List, [], ◌∷◌, ◌++◌, if◌then◌else◌, bytes_eq,
}
use linux_mqtt_sn_gateway.Ble.Statistic.{
  BleDeviceStatistic, new_statistic, is_faulty, set_connection_in_progress,
}

-- `removed` and `connecting` are the MAC addresses given to `removeBLEDevice` and those of the
-- connections started.
pub record BleConnectionAcceptor : Type 0 where
  pub device_statistics : List BleDeviceStatistic
  pub removed : List (List ℕ)
  pub connecting : List (List ℕ)
  pub is_stopped : Bool
  pub current_adapter : Option (List ℕ)

-- A device of `getDevices`, with the times of up to two calls of the clock.
pub record Sighting : Type 0 where
  pub seen_mac : List ℕ
  pub is_broken : Bool
  pub now : ℕ
  pub later : ℕ

-- `find` on the map
unfoldable pub find_statistic : List ℕ → List BleDeviceStatistic → Option BleDeviceStatistic
find_statistic m [] = none
find_statistic m (d ∷ ds) = if bytes_eq m d.mac then some d else find_statistic m ds

-- The shared statistic of a device, changed.
unfoldable pub put_statistic :
    List ℕ → BleDeviceStatistic → List BleDeviceStatistic → List BleDeviceStatistic
put_statistic m new [] = []
put_statistic m new (d ∷ ds) = if bytes_eq m d.mac then new ∷ ds else d ∷ put_statistic m new ds

abbrev pub judged : Bool × BleDeviceStatistic → Bool × BleDeviceStatistic
judged (true, d) = (false, d)
judged (false, d) = (true, set_connection_in_progress d)

-- A device with a statistic: whether a connection is started, with `connect` up to its thread.
unfoldable pub visit_known : ℕ → ℕ → BleDeviceStatistic → Bool × BleDeviceStatistic
visit_known now later d =
    if d.connection_in_progress then (false, d) else judged (is_faulty now later d)

abbrev pub known :
    List ℕ → Bool × BleDeviceStatistic → BleConnectionAcceptor → BleConnectionAcceptor
known m (started, d) a = record a {
  device_statistics = put_statistic m d a.device_statistics;
  connecting = if started then a.connecting ++ m ∷ [] else a.connecting;
}

abbrev pub looked_up :
    Sighting → Option BleDeviceStatistic → BleConnectionAcceptor → BleConnectionAcceptor
looked_up x none a = record a {
  device_statistics = a.device_statistics ++ new_statistic x.seen_mac x.now ∷ [];
}
looked_up x (some d) a = known x.seen_mac (visit_known x.now x.later d) a

abbrev pub drop_device : Sighting → BleConnectionAcceptor → BleConnectionAcceptor
drop_device x a = record a { removed = a.removed ++ x.seen_mac ∷ [] }

abbrev pub with_mac : List ℕ → Sighting → BleConnectionAcceptor → BleConnectionAcceptor
with_mac [] x a = drop_device x a
with_mac (_ ∷ _) x a = looked_up x (find_statistic x.seen_mac a.device_statistics) a

-- The body of the loop over the devices.
unfoldable pub visit : Sighting → BleConnectionAcceptor → BleConnectionAcceptor
visit x a = if x.is_broken then drop_device x a else with_mac x.seen_mac x a

-- The devices of a scan, one after the other.
unfoldable pub visits : List Sighting → BleConnectionAcceptor → BleConnectionAcceptor
visits [] a = a
visits (x ∷ xs) a = visits xs (visit x a)

-- `getAdapterMac`
unfoldable pub get_adapter_mac : BleConnectionAcceptor → List ℕ
get_adapter_mac a = elim a.current_adapter [ none ↦ [] | some m ↦ m ]

-- `stop`, without the wait for the thread
abbrev pub stop : BleConnectionAcceptor → BleConnectionAcceptor
stop a = record a { is_stopped = true }

-- `start`, with whether the thread finds an adapter within five seconds
unfoldable pub start : Bool → BleConnectionAcceptor → Bool × BleConnectionAcceptor
start found a =
    let cleared = record a { is_stopped = false; device_statistics = [] } in
    if found then (true, cleared) else (false, stop cleared)

-- `waitForAdapter`: at each turn of its loop whether `stopped` is set and the adapters that there
-- are; none while it goes on, and a null pointer inside.
unfoldable pub wait_for_adapter : List (Bool × List (List ℕ)) → Option (Option (List ℕ))
wait_for_adapter [] = none
wait_for_adapter ((true, _) ∷ turns) = some none
wait_for_adapter ((false, []) ∷ turns) = wait_for_adapter turns
wait_for_adapter ((false, m ∷ _) ∷ turns) = some (some m)

-- The adapter is asked for its address at once: none is a call through a null pointer.
abbrev pub adopted : Option (List ℕ) → BleConnectionAcceptor → Option BleConnectionAcceptor
adopted none a = none
adopted (some m) a = some (record a { current_adapter = some m })

abbrev pub scanned :
    Option (List ℕ)
    → Option (List ℕ)
    → List Sighting
    → BleConnectionAcceptor
    → Option BleConnectionAcceptor
scanned none found xs a = adopted found a
scanned (some _) found xs a = some (visits xs a)

-- The body of `loop`, with what `waitForAdapter` returns and the devices visited before a stop.
unfoldable pub turn :
    Option (List ℕ) → List Sighting → BleConnectionAcceptor → Option BleConnectionAcceptor
turn found xs a = scanned a.current_adapter found xs a
