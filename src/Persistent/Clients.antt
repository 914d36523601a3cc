-- ===== src/Persistent/Clients.antt =====
-- The client registry, LinuxPersistent.cpp: begin to reset_client, and the helpers of
-- LinuxPersistent.h that they call. The registry is the file CLIENTS of `entry_client` structs; row i
-- belongs to the client whose `file_number` is i.
pub mod FileNumber
pub mod Registry
pub mod Add
pub mod Begin
pub mod Delete
use linux_mqtt_sn_gateway.Base.{
  ℕ, ◌*◌, ◌^◌, Bool, true, false, not, ◌&&◌, ◌||◌, Option, none, some, List, [], ◌∷◌, c_str, strlen,
  strcpy, overlay, bytes_eq, replicate, length, leb, ltb, ◌==◌, if◌then◌else◌, inc16,
}
use linux_mqtt_sn_gateway.Storage.Entries.{Client, Address}
use linux_mqtt_sn_gateway.Storage.Platform.{Platform}
use linux_mqtt_sn_gateway.Storage.Table.{Read, whole, short, read_rows, save_at}
use linux_mqtt_sn_gateway.Persistent.State.{
  Persistent, zero_client, ready, fail, client_registry, mqtt_sub, client_file, registration_file,
  subscribe_file, will_file, publish_file, decimal,
}
use linux_mqtt_sn_gateway.Persistent.Scan.{scan}
use linux_mqtt_sn_gateway.Persistent.Subscriptions.{get_client_subscription_count}

-- The registry rows that the scans look for; an id that fills its array matches nothing.
abbrev pub has_client_id : List ℕ → Client → Bool
has_client_id id e = ltb (strlen e.client_id) 24 && bytes_eq (c_str e.client_id) id

abbrev pub has_address : Address → Client → Bool
has_address a e = ltb (strlen e.client_id) 24 && bytes_eq e.client_address a

-- `find_empty_entry_space_in_registry`: the first row with no id. A short read is tested too.
unfoldable pub empty_entry : List (Read Client) → ℕ → ℕ
empty_entry [] n = n
empty_entry (whole e ∷ r) n =
    let rest = empty_entry r (inc16 n) in if strlen e.client_id == 0 then n else rest
empty_entry (short e ∷ r) n =
    let rest = empty_entry r (inc16 n) in if strlen e.client_id == 0 then n else rest

-- `sprintf(file_number, "%08d", n)`, for n of the type `uint16_t`.
abbrev pub file_number_of : ℕ → List ℕ
file_number_of n = strcpy (replicate 9 0) (decimal 8 n)

module _ (p : Platform) where
  -- `create_file`
  abbrev pub create_file : List ℕ → p.Card → p.Card
  create_file n c = p.open_write n c

  abbrev exists : Option (List ℕ) → Bool
  exists none = false
  exists (some _) = true

  -- `delete_file`
  abbrev pub delete_file : List ℕ → p.Card → p.Card
  delete_file n c = if exists (p.file c n) then p.remove n c else c

  abbrev pub create_files : Client → p.Card → p.Card
  create_files e c = create_file (client_file e publish_file) (
      create_file (client_file e will_file) (
        create_file (client_file e subscribe_file)
          (create_file (client_file e registration_file) c)))

  abbrev pub delete_files : Client → p.Card → p.Card
  delete_files e c = delete_file (client_file e publish_file) (
      delete_file (client_file e will_file) (
        delete_file (client_file e subscribe_file)
          (delete_file (client_file e registration_file) c)))

  abbrev pub new_client : List ℕ → Address → ℕ → ℕ → Client
  new_client id a duration n = record {
    client_id = strcpy (replicate 24 0) id;
    file_number = file_number_of n;
    client_address = overlay (replicate p.address_size 0) a;
    client_status = p.status_active;
    duration = duration;
    timeout = 0;
    await_message_id = 0;
    await_message = p.mqttsn_pingreq;
  }

  -- What `reset_client` writes over the row; its `file_number` stays.
  abbrev pub reset_entry : List ℕ → Address → ℕ → Client → Client
  reset_entry id a duration e = record (new_client id a duration 0) { file_number = e.file_number }

module _ {p : Platform} where
  -- `begin` fails without a core or a logger. `MQTT.SUB` starts empty; `CLIENTS` is kept.
  unfoldable pub begin : Bool → Bool → Persistent p → Persistent p × Bool
  begin has_core has_logger s = if not has_core || not has_logger then (s, false) else (
    record s {
      transaction_started = false;
      not_in_client_registry = false;
      card = create_file p mqtt_sub (create_file p client_registry (p.remove mqtt_sub s.card));
    },
    true,
  )

  abbrev pub registry_of : Persistent p → List (Read Client)
  registry_of s = read_rows p p.client_layout client_registry s.card

  abbrev pub loaded : Option (ℕ × Client) → Persistent p → Persistent p
  loaded none s = record s { entry_client = zero_client p; not_in_client_registry = true }
  loaded (some (_, e)) s = record s { entry_client = e; not_in_client_registry = false }

  abbrev pub opened : Persistent p → Persistent p
  opened s = record s { transaction_started = true; error = false }

  unfoldable pub start_client_transaction : List ℕ → Persistent p → Persistent p
  start_client_transaction id s =
      if s.transaction_started || leb 24 (length id)
      then fail s
      else loaded (scan (2 ^ 32) (has_client_id id) (registry_of s) 0) (opened s)

  -- The overload for a `device_address`.
  unfoldable pub start_address_transaction : Address → Persistent p → Persistent p
  start_address_transaction a s =
      if s.transaction_started
      then fail s
      else loaded (scan (2 ^ 32) (has_address a) (registry_of s) 0) (opened s)

  -- 1 for a transaction that ran without error for a registered client.
  unfoldable pub apply_transaction : Persistent p → Persistent p × ℕ
  apply_transaction s = (
    record s { error = false; transaction_started = false; not_in_client_registry = false },
    if ready s then 1 else 0,
  )

  unfoldable pub client_exist : Persistent p → Bool
  client_exist s = ready s

  abbrev pub save_client : ℕ → Client → Persistent p → Persistent p
  save_client i e s = record s {
    entry_client = e;
    card = save_at p p.client_layout client_registry (i * p.client_layout.size) e s.card;
  }

  abbrev pub erased : Option (ℕ × Client) → Persistent p → Persistent p
  erased none s = record s { entry_client = zero_client p; not_in_client_registry = true }
  erased (some (i, _)) s = record (save_client i (zero_client p) s) {
    not_in_client_registry = true;
  }

  -- The files are those of the client in the transaction, the row is that of `id`.
  abbrev pub erase_client : List ℕ → Persistent p → Persistent p
  erase_client id s = erased (scan (2 ^ 32) (has_client_id id) (registry_of s') 0) s'
    where
      s' : Persistent p
      s' = record s { card = delete_files p s.entry_client s.card }

  unfoldable pub delete_client : List ℕ → Persistent p → Persistent p
  delete_client id s =
      if ready s
      then if leb 24 (length id) || ltb 0 (get_client_subscription_count s)
        then fail s
        else erase_client id s
      else s

  abbrev pub save_new_client : Client → ℕ → Persistent p → Persistent p
  save_new_client e n s = record (save_client n e (record s { card = create_files p e s.card })) {
    not_in_client_registry = false;
  }

  abbrev pub add_at : List ℕ → Address → ℕ → ℕ → Persistent p → Persistent p
  add_at id a duration n s = save_new_client (new_client p id a duration n) n s

  unfoldable pub add_client : List ℕ → Address → ℕ → Persistent p → Persistent p
  add_client id a duration s =
      if s.transaction_started && not s.error
      then if not s.not_in_client_registry || leb 24 (length id)
        then fail s
        else add_at id a duration (empty_entry (registry_of s) 0) s
      else s

  abbrev pub reset_row : List ℕ → Address → ℕ → Option (ℕ × Client) → Persistent p → Persistent p
  reset_row id a duration none s = record s {
    entry_client = zero_client p;
    error = true;
    not_in_client_registry = true;
  }
  reset_row id a duration (some (i, e)) s =
      record (save_client i (reset_entry p id a duration e) s) { not_in_client_registry = false }

  unfoldable pub reset_client : List ℕ → Address → ℕ → Persistent p → Persistent p
  reset_client id a duration s =
      if ready s
      then if leb 24 (length id) || not (bytes_eq (c_str s.entry_client.client_id) id)
        then fail s
        else reset_row id a duration (scan (2 ^ 32) (has_client_id id) (registry_of s) 0) s
      else s
