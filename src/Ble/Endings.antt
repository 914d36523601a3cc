-- ===== src/Ble/Endings.antt =====
-- How a connection's thread in BLEConnection.cpp leaves the statistic of its device.
use linux_mqtt_sn_gateway.Base.{
  ℕ, ◌≡◌, ◌∙◌, refl, ap, Bool, true, false, Option, none, some, List, [], ◌∷◌, inl, inr, Bool-cases,
}
use linux_mqtt_sn_gateway.Ble.Statistic.{
  BleDeviceStatistic, increment_connect_failed, increment_service_failed, reset,
  unset_connection_in_progress,
}
use linux_mqtt_sn_gateway.Ble.Connection.{
  BleDevice, Session, choose_nus, chosen, single, first_talking, leave, with_mac, with_nus, join,
  with_service, with_connection, handle_connection,
}

pub data Ending : Type 0 where
  connect_fails service_fails abandoned session_ends : Ending

-- What an ending makes of the statistic.
abbrev pub ended : Ending → ℕ → BleDeviceStatistic → BleDeviceStatistic
ended connect_fails now d = unset_connection_in_progress (increment_connect_failed now d)
ended service_fails now d = unset_connection_in_progress (increment_service_failed now d)
ended abandoned now d = d
ended session_ends now d = unset_connection_in_progress (reset now d)

leave-statistic : (i : ℕ) (d : BleDevice) (w : Session) → (leave i d w).statistic ≡ w.statistic
leave-statistic i d w = elim (Bool-cases d.nus_disconnects) [
  | inr e ↦ rw e refl
  | inl e ↦ elim (Bool-cases d.device_disconnects) [
    | inr f ↦ rw (e, f) refl
    | inl f ↦ rw (e, f) refl
  ]
]

with_mac-ended :
    (now c i : ℕ) (mac : List ℕ) (d : BleDevice) (w : Session)
    → (e : Ending) × ((with_mac now c i mac d w).statistic ≡ ended e now w.statistic)
unfolding join
with_mac-ended now c i [] d w = (abandoned, refl)
with_mac-ended now c i (_ ∷ _) d w =
    (session_ends, ap unset_connection_in_progress (leave-statistic i d _))

chosen-statistic : (o : Option ℕ) (w : Session) → (chosen o w).1.statistic ≡ w.statistic
chosen-statistic none w = refl
chosen-statistic (some i) w = refl

single-statistic : (ms : List (List ℕ)) (w : Session) → (single ms w).1.statistic ≡ w.statistic
single-statistic [] w = refl
single-statistic ([] ∷ ms) w = refl
single-statistic ((_ ∷ _) ∷ ms) w = refl

choose_nus-statistic : (d : BleDevice) (w : Session) → (choose_nus d w).1.statistic ≡ w.statistic
unfolding choose_nus
choose_nus-statistic d w = elim (Bool-cases d.has_multiple_nus) [
  | inl e ↦ rw e (chosen-statistic (first_talking 0 d.last_messages) w)
  | inr e ↦ rw e (single-statistic d.last_messages w)
]

with_nus-ended :
    (now c : ℕ) (d : BleDevice) (r : Option ℕ × Session)
    → (e : Ending) × ((with_nus now c d r).statistic ≡ ended e now r.1.statistic)
with_nus-ended now c d (none, w) = (service_fails, refl)
with_nus-ended now c d (some i, w) = with_mac-ended now c i d.device_mac d w

with_service-ended :
    (now c : ℕ) (d : BleDevice) (b : Bool) (w : Session)
    → (e : Ending) × ((with_service now c d b w).statistic ≡ ended e now w.statistic)
with_service-ended now c d false w = (service_fails, refl)
with_service-ended now c d true w =
    let r = with_nus-ended now c d (choose_nus d w) in
    (r.0, r.1 ∙ ap (ended r.0 now) (choose_nus-statistic d w))

with_connection-ended :
    (now c : ℕ) (d : BleDevice) (b : Bool) (w : Session)
    → (e : Ending) × ((with_connection now c d b w).statistic ≡ ended e now w.statistic)
with_connection-ended now c d false w = (connect_fails, refl)
with_connection-ended now c d true w = with_service-ended now c d d.has_nus w

-- The thread counts a failure, resets the statistic or, for a device without a MAC address, changes
-- nothing.
pub handle_connection-ended :
    (now c : ℕ) (d : BleDevice) (w : Session)
    → (e : Ending) × ((handle_connection now c d w).statistic ≡ ended e now w.statistic)
unfolding handle_connection
handle_connection-ended now c d w = with_connection-ended now c d d.connects w
