-- ===== src/Ble/Life.antt =====
-- The life of a device's statistic under the acceptor of BLEConnectionAcceptor.cpp and the threads of
-- BLEConnection.cpp, which take turns in any order while the clock runs.
use linux_mqtt_sn_gateway.Base.{
  ℕ, ◌+◌, ◌≤◌, ◌≡◌, refl, sym, Bool, true, false, ◌&&◌, List, if◌then◌else◌, arith,
}
use mathlib.Core.Path.{subst}
use linux_mqtt_sn_gateway.Ble.Statistic.{
  BleDeviceStatistic, new_statistic, is_expired, has_failures, is_faulty,
}
use linux_mqtt_sn_gateway.Ble.Socket.{BleSocket}
use linux_mqtt_sn_gateway.Ble.Connection.{BleDevice, Call, Session, handle_connection}
use linux_mqtt_sn_gateway.Ble.Endings.{
  Ending, connect_fails, service_fails, abandoned, session_ends, ended, handle_connection-ended,
}
use linux_mqtt_sn_gateway.Ble.Acceptor.{judged, visit_known}

pub record Life : Type 0 where
  pub clock : ℕ
  pub statistic : BleDeviceStatistic

abbrev pub session : BleDeviceStatistic → BleSocket → List Call → Session
session d socket calls = record { statistic = d; socket = socket; calls = calls }

-- `tick`: time passes. `see`: the acceptor visits the known device. `run`: the thread of a
-- connection, which exists while the flag is set.
pub data Step (s : Life) : Life → Type 0 where
  tick : (n : ℕ) → Step s (record s { clock = s.clock + n })
  see : (later : ℕ) → Step s (record s { statistic = (visit_known s.clock later s.statistic).1 })
  run :
      (c : ℕ) (d : BleDevice) (socket : BleSocket) (calls : List Call)
      → s.statistic.connection_in_progress ≡ true
      → Step s (record s {
        statistic = (handle_connection s.clock c d (session s.statistic socket calls)).statistic;
      })

pub data Reach (s : Life) : Life → Type 0 where
  here : Reach s s
  next : {t u : Life} → Reach s t → Step t u → Reach s u

-- The constructor's statistic at the time of the clock.
abbrev pub first_seen : List ℕ → ℕ → Life
first_seen mac now = record { clock = now; statistic = new_statistic mac now }

pub record IsBounded (s : Life) : Type 0 where
  pub connect_bound : s.statistic.connect_failed ≤ 4
  pub service_bound : s.statistic.service_failed ≤ 4
  pub not_ahead : s.statistic.last_changed ≤ s.clock
  pub quiet : s.statistic.connection_in_progress ≡ true → has_failures s.statistic ≡ false

pub first_seen-IsBounded : (mac : List ℕ) (now : ℕ) → IsBounded (first_seen mac now)
first_seen-IsBounded mac now = record {
  connect_bound = omega arith;
  service_bound = omega arith;
  not_ahead = omega arith;
  quiet = λ e. refl;
}

-- A change that is not in the future never expires.
is_faulty-past :
    (now later : ℕ) (d : BleDeviceStatistic)
    → d.last_changed ≤ now
    → is_faulty now later d ≡ (has_failures d, d)
unfolding is_faulty
is_faulty-past now later d h = rw (expired) refl
  where
    expired : is_expired now d ≡ false
    expired = ground arith

-- The acceptor's visit of a device whose last change is not in the future.
pub visit_known-past :
    (now later : ℕ) (d : BleDeviceStatistic)
    → d.last_changed ≤ now
    → visit_known now later d
      ≡ (if d.connection_in_progress then (false, d) else judged (has_failures d, d))
unfolding visit_known
visit_known-past now later d h = rw (is_faulty-past now later d h) refl

judged-IsBounded :
    (s : Life) (b : Bool)
    → IsBounded s
    → has_failures s.statistic ≡ b
    → IsBounded (record s { statistic = (judged (b, s.statistic)).1 })
judged-IsBounded s true h e = h
judged-IsBounded s false h e = record {
  connect_bound = h.connect_bound;
  service_bound = h.service_bound;
  not_ahead = h.not_ahead;
  quiet = λ _. e;
}

visited-IsBounded :
    (s : Life) (b : Bool)
    → IsBounded s
    → IsBounded (record s {
      statistic =
          (if b then (false, s.statistic) else judged (has_failures s.statistic, s.statistic)).1;
    })
visited-IsBounded s true h = h
visited-IsBounded s false h = judged-IsBounded s (has_failures s.statistic) h refl

-- A device that the acceptor connects to has failed at most three times in either way.
few_failures :
    (d : BleDeviceStatistic)
    → has_failures d ≡ false
    → (d.connect_failed ≤ 3) × (d.service_failed ≤ 3)
few_failures d e = ground arith

ended-IsBounded :
    (e : Ending) (s : Life)
    → IsBounded s
    → s.statistic.connection_in_progress ≡ true
    → IsBounded (record s { statistic = ended e s.clock s.statistic })
ended-IsBounded connect_fails s h p =
    let f = few_failures s.statistic (h.quiet p) in
    record {
      connect_bound = omega arith;
      service_bound = omega arith;
      not_ahead = omega arith;
      quiet = λ q. absurd cc;
    }
ended-IsBounded service_fails s h p =
    let f = few_failures s.statistic (h.quiet p) in
    record {
      connect_bound = omega arith;
      service_bound = omega arith;
      not_ahead = omega arith;
      quiet = λ q. absurd cc;
    }
ended-IsBounded abandoned s h p = h
ended-IsBounded session_ends s h p = record {
  connect_bound = omega arith;
  service_bound = omega arith;
  not_ahead = omega arith;
  quiet = λ q. absurd cc;
}

Step-IsBounded : {s t : Life} → Step s t → IsBounded s → IsBounded t
Step-IsBounded {s} (tick n) h =
    let past = h.not_ahead in
    record {
      connect_bound = h.connect_bound;
      service_bound = h.service_bound;
      not_ahead = omega arith;
      quiet = h.quiet;
    }
Step-IsBounded {s} (see later) h =
    subst (λ r. IsBounded (record s { statistic = r.1 }))
      (sym (visit_known-past s.clock later s.statistic h.not_ahead))
      (visited-IsBounded s s.statistic.connection_in_progress h)
Step-IsBounded {s} (run c d socket calls p) h =
    let r = handle_connection-ended s.clock c d (session s.statistic socket calls) in
    subst (λ x. IsBounded (record s { statistic = x })) (sym r.1) (ended-IsBounded r.0 s h p)

pub Reach-IsBounded : {s t : Life} → IsBounded s → Reach s t → IsBounded t
Reach-IsBounded h here = h
Reach-IsBounded h (next r st) = Step-IsBounded st (Reach-IsBounded h r)

-- From the first sighting of a device on, in whatever order the acceptor, the threads of its
-- connections and the clock take their turns, both counters of failures stay at most 4, so that the
-- uint8_t never wraps, and a connection is in progress only while neither is above 3.
pub failures_bound :
    {mac : List ℕ} {now : ℕ} {s : Life}
    → Reach (first_seen mac now) s
    → (s.statistic.connect_failed ≤ 4)
      × (s.statistic.service_failed ≤ 4)
      × ((s.statistic.connection_in_progress && has_failures s.statistic) ≡ false)
failures_bound {mac} {now} r =
    let h = Reach-IsBounded (first_seen-IsBounded mac now) r in
    (h.connect_bound, h.service_bound, ground (arith, h.quiet))
