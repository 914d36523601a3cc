-- ===== src/Ble/Statistic.antt =====
-- `BLEDeviceStatistic` (Implementation/Ble/BLEDeviceStatistic.{h,cpp}): the failures of one device. A
-- time is the number of nanoseconds that the system's clock counts, and an argument.
use linux_mqtt_sn_gateway.Base.{
  ℕ, ◌+◌, ◌-◌, ◌/◌, ◌%◌, ◌^◌, Bool, true, false, ◌||◌, List, ltb, if◌then◌else◌,
}

pub record BleDeviceStatistic : Type 0 where
  pub mac : List ℕ
  pub connect_failed : ℕ
  pub service_failed : ℕ
  pub last_changed : ℕ
  pub connection_in_progress : Bool

-- The constructor.
abbrev pub new_statistic : List ℕ → ℕ → BleDeviceStatistic
new_statistic mac now = record {
  mac = mac;
  connect_failed = 0;
  service_failed = 0;
  last_changed = now;
  connection_in_progress = false;
}

-- `incrementConnectFailed`, on a `uint8_t`
abbrev pub increment_connect_failed : ℕ → BleDeviceStatistic → BleDeviceStatistic
increment_connect_failed now d = record d {
  last_changed = now;
  connect_failed = (d.connect_failed + 1) % 256;
}

-- `incrementServiceFailed`
abbrev pub increment_service_failed : ℕ → BleDeviceStatistic → BleDeviceStatistic
increment_service_failed now d = record d {
  last_changed = now;
  service_failed = (d.service_failed + 1) % 256;
}

abbrev pub set_connection_in_progress : BleDeviceStatistic → BleDeviceStatistic
set_connection_in_progress d = record d { connection_in_progress = true }

abbrev pub unset_connection_in_progress : BleDeviceStatistic → BleDeviceStatistic
unset_connection_in_progress d = record d { connection_in_progress = false }

-- `reset`
abbrev pub reset : ℕ → BleDeviceStatistic → BleDeviceStatistic
reset now d = record d { connect_failed = 0; service_failed = 0; last_changed = now }

-- `difference.count() > 300`: the seconds of `lastChanged - now`, which are not positive when the
-- change is not in the future.
abbrev pub is_expired : ℕ → BleDeviceStatistic → Bool
is_expired now d = ltb 300 ((d.last_changed - now) / 10 ^ 9)

abbrev pub has_failures : BleDeviceStatistic → Bool
has_failures d = ltb 3 d.connect_failed || ltb 3 d.service_failed

-- `isFaulty`, with the times of its two calls of the clock
unfoldable pub is_faulty : ℕ → ℕ → BleDeviceStatistic → Bool × BleDeviceStatistic
is_faulty now later d = if is_expired now d then (false, reset later d) else (has_failures d, d)
