-- ===== src/Persistent/GlobalCounts.antt =====
-- How many clients are subscribed to each topic, LinuxPersistent.cpp:
-- decrement_global_subscription_count to get_global_topic_subscription_count. The counts are rows of
-- the file MQTT.SUB.
pub mod Table
pub mod Refine
pub mod Calls
use linux_mqtt_sn_gateway.Base.{
  ℕ, ◌+◌, ◌-◌, ◌*◌, ◌%◌, ◌^◌, Bool, true, false, not, ◌&&◌, Option, none, some, List, c_str, strlen,
  strcpy, bytes_eq, ltb, ◌==◌, if◌then◌else◌,
}
use linux_mqtt_sn_gateway.Storage.Entries.{GlobalSubscription, zero_global}
use linux_mqtt_sn_gateway.Storage.Platform.{Platform}
use linux_mqtt_sn_gateway.Storage.Table.{read_rows, save_at}
use linux_mqtt_sn_gateway.Persistent.State.{Persistent, mqtt_sub, bad_topic}
use linux_mqtt_sn_gateway.Persistent.Scan.{scan_slot, SlotScan, hit, ended, new_offset}

abbrev pub is_unused : GlobalSubscription → Bool
is_unused e = e.client_subscription_count == 0 && strlen e.topic_name == 0

abbrev pub is_count_of : List ℕ → GlobalSubscription → Bool
is_count_of name e =
    not (e.client_subscription_count == 0)
    && (ltb (strlen e.topic_name) 255 && bytes_eq (c_str e.topic_name) name)

abbrev pub incremented : GlobalSubscription → GlobalSubscription
incremented e = record e { client_subscription_count = (e.client_subscription_count + 1) % 2 ^ 32 }

-- The last subscription clears the row.
abbrev pub decremented : GlobalSubscription → GlobalSubscription
decremented e =
    if e.client_subscription_count - 1 == 0
    then zero_global
    else record e { client_subscription_count = e.client_subscription_count - 1 }

-- The struct that the last read left.
abbrev left_global : Option GlobalSubscription → GlobalSubscription
left_global none = zero_global
left_global (some e) = e

abbrev pub first_count : List ℕ → GlobalSubscription → GlobalSubscription
first_count name e = record e {
  topic_name = strcpy e.topic_name name;
  client_subscription_count = 1;
}

abbrev pub scanned_count : SlotScan GlobalSubscription → ℕ
scanned_count (hit n e) = e.client_subscription_count
scanned_count (ended _ _ _) = 0

module _ {p : Platform} where
  abbrev pub save_global : ℕ → GlobalSubscription → Persistent p → Persistent p
  save_global off e s = record s { card = save_at p p.global_layout mqtt_sub off e s.card }

  -- With no empty row test every row that is not the topic's is passed over.
  abbrev pub count_scan :
      (GlobalSubscription → Bool) → List ℕ → Persistent p → SlotScan GlobalSubscription
  count_scan is_empty name s =
      scan_slot true is_empty (is_count_of name) (read_rows p p.global_layout mqtt_sub s.card) none
        0

  abbrev with_name {ℓ} : {A : Type ℓ} → A → (List ℕ → A) → Option (List ℕ) → Persistent p → A
  with_name d f none s = d
  with_name d f (some name) s = if not s.error && not (bad_topic (some name)) then f name else d

  abbrev pub add_count : List ℕ → SlotScan GlobalSubscription → Persistent p → Persistent p
  add_count name (hit n e) s = save_global (n * p.global_layout.size) (incremented e) s
  add_count name (ended first n left) s =
      save_global (new_offset p.global_layout.size first n) (first_count name (left_global left)) s

  unfoldable pub increment_global_subscription_count :
      Option (List ℕ) → Persistent p → Persistent p × Bool
  increment_global_subscription_count topic s =
      with_name (s, false) (λ name. (add_count name (count_scan is_unused name s) s, true)) topic s

  abbrev pub sub_count : SlotScan GlobalSubscription → Persistent p → Persistent p
  sub_count (hit n e) s = save_global (n * p.global_layout.size) (decremented e) s
  sub_count (ended _ _ _) s = s

  unfoldable pub decrement_global_subscription_count :
      Option (List ℕ) → Persistent p → Persistent p × Bool
  decrement_global_subscription_count topic s =
      with_name (s, false) (λ name. (sub_count (count_scan is_unused name s) s, true)) topic s

  unfoldable pub get_global_topic_subscription_count : Option (List ℕ) → Persistent p → ℕ
  get_global_topic_subscription_count topic s =
      with_name 0 (λ name. scanned_count (count_scan (λ _. false) name s)) topic s
