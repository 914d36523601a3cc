-- ===== src/Ble/Lookup.antt =====
-- Looking up statistics in the map of BLEConnectionAcceptor.cpp behind its changes.
use linux_mqtt_sn_gateway.Base.{
  ℕ, suc, ◌+◌, ◌≡◌, refl, sym, true, false, none, some, List, [], ◌∷◌, ◌++◌, if◌then◌else◌,
  bytes_eq, bytes_eq_iff, Bool-cases, inl, inr, arith,
}
use linux_mqtt_sn_gateway.Ble.Statistic.{BleDeviceStatistic}
use linux_mqtt_sn_gateway.Ble.Acceptor.{find_statistic, put_statistic}

-- How often a connection to a device was started.
unfoldable pub count_of : List ℕ → List (List ℕ) → ℕ
count_of m [] = 0
count_of m (x ∷ xs) = let rest = count_of m xs in if bytes_eq m x then suc rest else rest

pub count_of-append :
    (m : List ℕ) (xs : List (List ℕ)) (x : List ℕ)
    → count_of m (xs ++ x ∷ []) ≡ count_of m xs + (if bytes_eq m x then 1 else 0)
unfolding count_of
count_of-append m [] x = ground arith
count_of-append m (y ∷ ys) x = ground (arith, count_of-append m ys x)

pub find_statistic-mac :
    (m : List ℕ) (ds : List BleDeviceStatistic) (d : BleDeviceStatistic)
    → find_statistic m ds ≡ some d
    → bytes_eq m d.mac ≡ true
unfolding find_statistic
find_statistic-mac m [] d e = absurd cc
find_statistic-mac m (x ∷ xs) d e = ground (arith, find_statistic-mac m xs d)

pub find_statistic-put :
    (m : List ℕ) (ds : List BleDeviceStatistic) (d new : BleDeviceStatistic)
    → find_statistic m ds ≡ some d
    → bytes_eq m new.mac ≡ true
    → find_statistic m (put_statistic m new ds) ≡ some new
unfolding find_statistic put_statistic
find_statistic-put m [] d new e h = absurd cc
find_statistic-put m (x ∷ xs) d new e h = ground (arith, find_statistic-put m xs d new)

pub find_statistic-append :
    (m : List ℕ) (ds : List BleDeviceStatistic) (new : BleDeviceStatistic)
    → find_statistic m ds ≡ none
    → bytes_eq m new.mac ≡ true
    → find_statistic m (ds ++ new ∷ []) ≡ some new
unfolding find_statistic
find_statistic-append m [] new e h = rw h refl
find_statistic-append m (x ∷ xs) new e h = ground (arith, find_statistic-append m xs new)

pub find_statistic-append_some :
    (m : List ℕ) (ds : List BleDeviceStatistic) (d new : BleDeviceStatistic)
    → find_statistic m ds ≡ some d
    → find_statistic m (ds ++ new ∷ []) ≡ some d
unfolding find_statistic
find_statistic-append_some m [] d new e = absurd cc
find_statistic-append_some m (x ∷ xs) d new e =
    ground (arith, find_statistic-append_some m xs d new)

-- Another text is different from all the texts equal to `n`.
bytes_eq-other :
    (m n x : List ℕ) → bytes_eq m n ≡ false → bytes_eq n x ≡ true → bytes_eq m x ≡ false
bytes_eq-other m n x h e = rw (sym ((bytes_eq_iff n x).0 e)) h

pub find_statistic-put_other :
    (m n : List ℕ) (ds : List BleDeviceStatistic) (new : BleDeviceStatistic)
    → bytes_eq m n ≡ false
    → bytes_eq n new.mac ≡ true
    → find_statistic m (put_statistic n new ds) ≡ find_statistic m ds
unfolding find_statistic put_statistic
find_statistic-put_other m n [] new h e = refl
find_statistic-put_other m n (x ∷ xs) new h e = elim (Bool-cases (bytes_eq n x.mac)) [
  | inl t ↦ rw (t, bytes_eq-other m n x.mac h t, bytes_eq-other m n new.mac h e) refl
  | inr f ↦ rw (f, find_statistic-put_other m n xs new h e) refl
]
