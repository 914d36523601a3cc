-- ===== src/Persistent/Subscriptions.antt =====
-- The subscriptions of the client in the transaction, LinuxPersistent.cpp: is_subscribed to
-- get_client_subscription_count. Each client has one file of `entry_subscription` structs.
pub mod Table
pub mod Add
pub mod Remove
use linux_mqtt_sn_gateway.Base.{
  ℕ, zero, suc, ◌+◌, ◌-◌, ◌*◌, ◌%◌, ◌^◌, Bool, true, false, not, ◌&&◌, Option, none, some, List, [],
  ◌∷◌, c_str, strlen, strcpy, bytes_eq, length, ltb, ◌==◌, if◌then◌else◌, inc16,
}
use linux_mqtt_sn_gateway.Storage.Entries.{Subscription, zero_subscription}
use linux_mqtt_sn_gateway.Storage.Platform.{Platform, Layout}
use linux_mqtt_sn_gateway.Storage.Table.{Read, whole, short, read_rows, read_row, save_at}
use linux_mqtt_sn_gateway.Persistent.State.{
  Persistent, active, ready, fail, client_file, subscribe_file, bad_topic,
}
use linux_mqtt_sn_gateway.Persistent.Scan.{scan, scan_slot, SlotScan, hit, ended, new_offset}

-- The test of the read loops: the stored name ends inside its array and is the topic's name.
abbrev pub is_named : List ℕ → Subscription → Bool
is_named name e = ltb (strlen e.topic_name) 255 && bytes_eq (c_str e.topic_name) name

abbrev pub is_empty_row : Subscription → Bool
is_empty_row e = e.topic_id == 0 && strlen e.topic_name == 0

-- Rows in use, counted in a `uint16_t`.
unfoldable pub count_rows : List (Read Subscription) → ℕ → ℕ
count_rows [] n = n
count_rows (short _ ∷ r) n = count_rows r n
count_rows (whole e ∷ r) n = count_rows r (if e.topic_id == 0 then n else inc16 n)

abbrev pub row_value {ℓ} : {A : Type ℓ} → A → (Subscription → A) → Option (ℕ × Subscription) → A
row_value d f none = d
row_value d f (some (_, e)) = f e

abbrev pub new_subscription : List ℕ → ℕ → ℕ → Subscription
new_subscription name id qos = record {
  topic_id = id;
  qos = qos;
  topic_name = strcpy zero_subscription.topic_name name;
}

abbrev nth_id : Option (Read Subscription) → ℕ
nth_id (some (whole e)) = e.topic_id
nth_id _ = 0

module _ {p : Platform} where
  abbrev pub subscriptions_of : Persistent p → List (Read Subscription)
  subscriptions_of s =
      read_rows p p.subscription_layout (client_file s.entry_client subscribe_file) s.card

  -- The loop that the next three methods share; they use no count of the rows.
  unfoldable pub name_scan : List ℕ → Persistent p → Option (ℕ × Subscription)
  name_scan name s = scan (2 ^ 32) (is_named name) (subscriptions_of s) 0

  abbrev with_topic {ℓ} : {A : Type ℓ} → A → (List ℕ → A) → Option (List ℕ) → Persistent p → A
  with_topic d f none s = d
  with_topic d f (some name) s = if ready s && not (bad_topic (some name)) then f name else d

  unfoldable pub is_subscribed : Option (List ℕ) → Persistent p → Bool
  is_subscribed topic s =
      with_topic false (λ name. row_value false (λ _. true) (name_scan name s)) topic s

  -- An `int8_t` as its bit pattern: the -1 of "not subscribed" is 255.
  unfoldable pub get_subscription_qos : Option (List ℕ) → Persistent p → ℕ
  get_subscription_qos topic s =
      with_topic 0 (λ name. row_value 255 (λ e. e.qos) (name_scan name s)) topic s

  unfoldable pub get_subscription_topic_id : Option (List ℕ) → Persistent p → ℕ
  get_subscription_topic_id topic s =
      with_topic 0 (λ name. row_value 0 (λ e. e.topic_id) (name_scan name s)) topic s

  -- The whole row of `add_subscription` that is already there ends it.
  abbrev pub save_subscription :
      List ℕ → ℕ → ℕ → SlotScan Subscription → Persistent p → Persistent p
  save_subscription name id qos (hit _ _) s = s
  save_subscription name id qos (ended first n _) s = record s {
    card =
        save_at p p.subscription_layout (client_file s.entry_client subscribe_file)
          (new_offset p.subscription_layout.size first n) (new_subscription name id qos) s.card;
  }

  unfoldable pub add_subscription : Option (List ℕ) → ℕ → ℕ → Persistent p → Persistent p
  add_subscription topic id qos s =
      with_topic s
        (λ name.
          if id == 0
          then s
          else save_subscription name id qos
              (scan_slot false is_empty_row (λ e. e.topic_id == id && is_named name e)
                (subscriptions_of s) none 0)
              s)
        topic s

  abbrev pub clear_subscription : Option (ℕ × Subscription) → Persistent p → Persistent p
  clear_subscription none s = fail s
  clear_subscription (some (i, _)) s = record s {
    card =
        save_at p p.subscription_layout (client_file s.entry_client subscribe_file)
          (i * p.subscription_layout.size) zero_subscription s.card;
  }

  -- The `seek` to a row that was just read succeeds.
  unfoldable pub delete_subscription : ℕ → Persistent p → Persistent p
  delete_subscription id s =
      if active s && not (id == 0)
      then clear_subscription (scan (2 ^ 16) (λ e. e.topic_id == id) (subscriptions_of s) 0) s
      else s

  unfoldable pub get_nth_subscribed_topic_id : ℕ → Persistent p → ℕ
  get_nth_subscribed_topic_id n s =
      if active s
      then nth_id (
          read_row p p.subscription_layout (client_file s.entry_client subscribe_file)
            (n * p.subscription_layout.size) s.card)
      else 0

  unfoldable pub get_client_subscription_count : Persistent p → ℕ
  get_client_subscription_count s = if ready s then count_rows (subscriptions_of s) 0 else 0
