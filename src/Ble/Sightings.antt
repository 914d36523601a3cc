-- ===== src/Ble/Sightings.antt =====
-- One connection for each device: what scans of BLEConnectionAcceptor.cpp start.
use linux_mqtt_sn_gateway.Base.{
  ℕ, suc, ◌≡◌, ◌∙◌, refl, sym, ap, Bool, true, false, Option, none, some, List, [], ◌∷◌, ◌++◌,
  if◌then◌else◌, bytes_eq, bytes_eq_iff, Bool-cases, inl, inr, arith,
}
use mathlib.Core.Path.{subst}
use linux_mqtt_sn_gateway.Ble.Statistic.{BleDeviceStatistic, new_statistic, is_faulty}
use linux_mqtt_sn_gateway.Ble.Acceptor.{
  BleConnectionAcceptor, Sighting, find_statistic, judged, visit_known, known, drop_device,
  looked_up, with_mac, visit, visits,
}
use linux_mqtt_sn_gateway.Ble.Lookup.{
  count_of, count_of-append, find_statistic-mac, find_statistic-put, find_statistic-append,
  find_statistic-append_some, find_statistic-put_other,
}

visit_known-mac : (now later : ℕ) (d : BleDeviceStatistic) → (visit_known now later d).1.mac ≡ d.mac
unfolding visit_known is_faulty
visit_known-mac now later d = ground arith

-- A connection to the device is in progress.
abbrev pub IsConnecting : List ℕ → BleConnectionAcceptor → Type 0
IsConnecting m a =
    (d : BleDeviceStatistic) × (find_statistic m a.device_statistics ≡ some d)
    × (d.connection_in_progress ≡ true)

-- The device's connection stays the one, with no other started.
abbrev Same : List ℕ → BleConnectionAcceptor → BleConnectionAcceptor → Type 0
Same m a b = IsConnecting m b × (count_of m b.connecting ≡ count_of m a.connecting)

visit_known-busy :
    (now later : ℕ) (d : BleDeviceStatistic)
    → d.connection_in_progress ≡ true
    → visit_known now later d ≡ (false, d)
unfolding visit_known
visit_known-busy now later d p =
    ap (λ b. if b then (false, d) else judged (is_faulty now later d)) p

known-own :
    (m : List ℕ) (now later : ℕ) (d : BleDeviceStatistic) (a : BleConnectionAcceptor)
    → find_statistic m a.device_statistics ≡ some d
    → d.connection_in_progress ≡ true
    → Same m a (known m (visit_known now later d) a)
known-own m now later d a e p =
    subst (λ r. Same m a (known m r a)) (sym (visit_known-busy now later d p))
      ((d, find_statistic-put m a.device_statistics d d e (find_statistic-mac m _ d e), p), refl)

known-other :
    (m n : List ℕ) (r : Bool × BleDeviceStatistic) (a : BleConnectionAcceptor)
    → IsConnecting m a
    → bytes_eq m n ≡ false
    → bytes_eq n r.1.mac ≡ true
    → Same m a (known n r a)
known-other m n (false, new) a (d, e, p) h t =
    ((d, find_statistic-put_other m n a.device_statistics new h t ∙ e, p), refl)
known-other m n (true, new) a (d, e, p) h t = (
  (d, find_statistic-put_other m n a.device_statistics new h t ∙ e, p),
  count_of-append m a.connecting n ∙ rw h (omega arith),
)

-- The statistic found, or another.
abbrev value : BleDeviceStatistic → Option BleDeviceStatistic → BleDeviceStatistic
value d none = d
value d (some c) = c

looked_up-Same :
    (m : List ℕ) (x : Sighting) (o : Option BleDeviceStatistic) (a : BleConnectionAcceptor)
    → IsConnecting m a
    → find_statistic x.seen_mac a.device_statistics ≡ o
    → Same m a (looked_up x o a)
looked_up-Same m x none a (d, e, p) f =
    ((d, find_statistic-append_some m a.device_statistics d _ e, p), refl)
looked_up-Same m x (some c) a (d, e, p) f = elim (Bool-cases (bytes_eq m x.seen_mac)) [
  | inl t ↦
      let same = (bytes_eq_iff m x.seen_mac).0 t in
      let found : find_statistic m a.device_statistics ≡ some c = rw same f in
      let one : d ≡ c = ap (value d) (sym e ∙ found) in
      subst (λ n. Same m a (known n (visit_known x.now x.later c) a)) same
        (known-own m x.now x.later c a found (ap (λ y. y.connection_in_progress) (sym one) ∙ p))
  | inr h ↦
      known-other m x.seen_mac (visit_known x.now x.later c) a (d, e, p) h
        (rw (visit_known-mac x.now x.later c) (find_statistic-mac x.seen_mac _ c f))
]

with_mac-Same :
    (m n : List ℕ) (x : Sighting) (a : BleConnectionAcceptor)
    → IsConnecting m a
    → Same m a (with_mac n x a)
with_mac-Same m [] x a h = (h, refl)
with_mac-Same m (_ ∷ _) x a h = looked_up-Same m x _ a h refl

broken-Same :
    (m : List ℕ) (x : Sighting) (a : BleConnectionAcceptor) (b : Bool)
    → IsConnecting m a
    → Same m a (if b then drop_device x a else with_mac x.seen_mac x a)
broken-Same m x a true h = (h, refl)
broken-Same m x a false h = with_mac-Same m x.seen_mac x a h

visit-Same :
    (m : List ℕ) (x : Sighting) (a : BleConnectionAcceptor)
    → IsConnecting m a
    → Same m a (visit x a)
unfolding visit
visit-Same m x a h = broken-Same m x a x.is_broken h

visits-Same :
    (m : List ℕ) (xs : List Sighting) (a : BleConnectionAcceptor)
    → IsConnecting m a
    → Same m a (visits xs a)
unfolding visits
visits-Same m [] a h = (h, refl)
visits-Same m (x ∷ xs) a h =
    let one = visit-Same m x a h in
    let rest = visits-Same m xs (visit x a) one.0 in (rest.0, rest.1 ∙ one.1)

visit_lem :
    (c : ℕ) (cs : List ℕ) (x : Sighting) (a : BleConnectionAcceptor)
    → x.seen_mac ≡ c ∷ cs
    → x.is_broken ≡ false
    → visit x a ≡ looked_up x (find_statistic x.seen_mac a.device_statistics) a
unfolding visit
visit_lem c cs x a e f =
    ap (λ b. if b then drop_device x a else with_mac x.seen_mac x a) f ∙ ap (λ n. with_mac n x a) e

-- A device without failures is connected to, whether or not its time has expired.
visit_known-fresh :
    (now later then_ : ℕ) (m : List ℕ)
    → let r = visit_known now later (new_statistic m then_) in
      (r.0 ≡ true) × (r.1.mac ≡ m) × (r.1.connection_in_progress ≡ true)
unfolding visit_known is_faulty
visit_known-fresh now later then_ m = ground arith

started :
    (m : List ℕ) (r : Bool × BleDeviceStatistic) (d : BleDeviceStatistic)
    (a : BleConnectionAcceptor)
    → find_statistic m a.device_statistics ≡ some d
    → (r.0 ≡ true) × (r.1.mac ≡ m) × (r.1.connection_in_progress ≡ true)
    → IsConnecting m (known m r a)
      × (count_of m (known m r a).connecting ≡ suc (count_of m a.connecting))
started m (false, new) d a e h = absurd cc
started m (true, new) d a e h =
    let same = (bytes_eq_iff m m).1 refl in
    (
      (
        new,
        find_statistic-put m a.device_statistics d new e ((bytes_eq_iff m new.mac).1 (sym h.1)),
        h.2,
      ),
      count_of-append m a.connecting m ∙ rw same (omega arith),
    )

registered :
    (c : ℕ) (cs : List ℕ) (x : Sighting) (a : BleConnectionAcceptor)
    → x.seen_mac ≡ c ∷ cs
    → x.is_broken ≡ false
    → find_statistic (c ∷ cs) a.device_statistics ≡ none
    → (find_statistic (c ∷ cs) (visit x a).device_statistics ≡ some (new_statistic (c ∷ cs) x.now))
      × ((visit x a).connecting ≡ a.connecting)
registered c cs x a e f none_yet =
    let m = c ∷ cs in
    let turn : visit x a ≡ looked_up x none a =
      visit_lem c cs x a e f
      ∙ ap (λ n. looked_up x (find_statistic n a.device_statistics) a) e
      ∙ ap (λ o. looked_up x o a) none_yet in
    (
      ap (λ b. find_statistic m b.device_statistics) turn
          ∙ ap (λ n. find_statistic m (a.device_statistics ++ new_statistic n x.now ∷ [])) e
          ∙ find_statistic-append m a.device_statistics (new_statistic m x.now) none_yet
              ((bytes_eq_iff m m).1 refl),
      ap (λ b. b.connecting) turn,
    )

connected_to :
    (c : ℕ) (cs : List ℕ) (y : Sighting) (a : BleConnectionAcceptor) (since : ℕ)
    → y.seen_mac ≡ c ∷ cs
    → y.is_broken ≡ false
    → find_statistic (c ∷ cs) a.device_statistics ≡ some (new_statistic (c ∷ cs) since)
    → IsConnecting (c ∷ cs) (visit y a)
      × (count_of (c ∷ cs) (visit y a).connecting ≡ suc (count_of (c ∷ cs) a.connecting))
connected_to c cs y a since e f found =
    let m = c ∷ cs in
    let r = visit_known y.now y.later (new_statistic m since) in
    let turn : visit y a ≡ known m r a =
      visit_lem c cs y a e f
      ∙ ap (λ n. looked_up y (find_statistic n a.device_statistics) a) e
      ∙ ap (λ o. looked_up y o a) found
      ∙ ap (λ n. known n r a) e in
    subst (λ b. IsConnecting m b × (count_of m b.connecting ≡ suc (count_of m a.connecting)))
      (sym turn)
      (started m r (new_statistic m since) a found (visit_known-fresh y.now y.later since m))

-- A device that has no statistic yet gets one when it is first seen and exactly one connection when
-- it is seen again at once: no sightings after that, of whatever devices, start another while that
-- connection is in progress. The device is not broken and its MAC address is not empty.
pub one_connection :
    (c : ℕ) (cs : List ℕ) (x y : Sighting) (zs : List Sighting) (a : BleConnectionAcceptor)
    → (x.seen_mac ≡ c ∷ cs) × (x.is_broken ≡ false)
    → (y.seen_mac ≡ c ∷ cs) × (y.is_broken ≡ false)
    → find_statistic (c ∷ cs) a.device_statistics ≡ none
    → count_of (c ∷ cs) (visits (x ∷ y ∷ zs) a).connecting ≡ suc (count_of (c ∷ cs) a.connecting)
unfolding visits
one_connection c cs x y zs a ex ey none_yet =
    let first = registered c cs x a ex.0 ex.1 none_yet in
    let second = connected_to c cs y (visit x a) x.now ey.0 ey.1 first.0 in
    let rest = visits-Same (c ∷ cs) zs (visit y (visit x a)) second.0 in
    rest.1 ∙ second.1 ∙ ap (λ l. suc (count_of (c ∷ cs) l)) first.1
