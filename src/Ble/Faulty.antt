-- ===== src/Ble/Faulty.antt =====
-- Devices that BLEDeviceStatistic.cpp counts as faulty, and how long they stay so.
use linux_mqtt_sn_gateway.Base.{ℕ, ◌≡◌, ◌∙◌, refl, ap, true, false, List, arith}
use linux_mqtt_sn_gateway.Ble.Statistic.{has_failures}
use linux_mqtt_sn_gateway.Ble.Life.{
  Life, Step, tick, see, run, Reach, here, next, first_seen, IsBounded, first_seen-IsBounded,
  visit_known-past, Reach-IsBounded,
}

-- A step from a state with failures leaves the statistic alone.
Step-faulty :
    {s t : Life}
    → Step s t
    → IsBounded s
    → has_failures s.statistic ≡ true
    → t.statistic ≡ s.statistic
Step-faulty (tick n) h f = refl
Step-faulty {s} (see later) h f =
    rw (visit_known-past s.clock later s.statistic h.not_ahead, f) (ground arith)
Step-faulty (run c d socket calls p) h f = absurd (ground (arith, h.quiet p))

faulty_kept :
    {s t : Life}
    → IsBounded s
    → has_failures s.statistic ≡ true
    → Reach s t
    → t.statistic ≡ s.statistic
faulty_kept h f here = refl
faulty_kept h f (next r st) =
    let e = faulty_kept h f r in Step-faulty st (Reach-IsBounded h r) (ap has_failures e ∙ f) ∙ e

-- A device that has become faulty stays so for ever: in every later state, however much time has
-- passed, its statistic is the same, so that no connection to it is in progress. The states are those
-- that the acceptor, the threads of its connections and a clock that does not go back reach from the
-- first sighting of the device, where the acceptor is not started anew.
pub faulty_forever :
    {mac : List ℕ} {now : ℕ} {s t : Life}
    → Reach (first_seen mac now) s
    → has_failures s.statistic ≡ true
    → Reach s t
    → (t.statistic ≡ s.statistic) × (t.statistic.connection_in_progress ≡ false)
faulty_forever {mac} {now} r f later =
    let h = Reach-IsBounded (first_seen-IsBounded mac now) r in
    let e = faulty_kept h f later in (e, ground (arith, e, h.quiet))
