-- ===== src/Persistent/Attributes.antt =====
-- The attributes of the client in the transaction, LinuxPersistent.cpp: set_client_await_message,
-- get_client_await_message_type, set_timeout, set_client_state, get_client_status, the await message
-- id, get_client_id; the reads of the registry get_last_client_address and get_nth_client; and the
-- two connection flags.
pub mod Durable
use linux_mqtt_sn_gateway.Base.{
  ℕ, ◌*◌, Bool, true, false, ◌&&◌, Option, none, some, List, [], ◌∷◌, c_str, strlen, ltb, ◌==◌,
  if◌then◌else◌,
}
use linux_mqtt_sn_gateway.Storage.Entries.{Client, Address}
use linux_mqtt_sn_gateway.Storage.Platform.{Platform}
use linux_mqtt_sn_gateway.Storage.Table.{Read, whole, short, read_row}
use linux_mqtt_sn_gateway.Persistent.State.{
  Persistent, zero_client, ready, client_registry, parse_file_number_to_int,
}
use linux_mqtt_sn_gateway.Persistent.Clients.{registry_of, save_client}

-- `empty` is the status EMPTY.
abbrev last_address : ℕ → List (Read Client) → Option Address → Option Address
last_address empty [] found = found
last_address empty (short _ ∷ r) found = last_address empty r found
last_address empty (whole e ∷ r) found =
    last_address empty r (if e.client_status == empty then found else some e.client_address)

abbrev pub read_client : Client → Option (Read Client) → Client
read_client zero none = zero
read_client zero (some (whole e)) = e
read_client zero (some (short e)) = e

module _ {p : Platform} where
  -- `_entry_client` is changed and written to the row that its `file_number` names.
  abbrev pub store_entry : Client → Persistent p → Persistent p
  store_entry e s = if ready s then save_client (parse_file_number_to_int e) e s else s

  unfoldable pub set_client_await_message : ℕ → Persistent p → Persistent p
  set_client_await_message msg_type s =
      store_entry (record (s.entry_client) { await_message = msg_type }) s

  unfoldable pub set_timeout : ℕ → Persistent p → Persistent p
  set_timeout t s = store_entry (record (s.entry_client) { timeout = t }) s

  unfoldable pub set_client_state : ℕ → Persistent p → Persistent p
  set_client_state status s = store_entry (record (s.entry_client) { client_status = status }) s

  unfoldable pub set_client_await_msg_id : ℕ → Persistent p → Persistent p
  set_client_await_msg_id id s = store_entry (record (s.entry_client) { await_message_id = id }) s

  unfoldable pub get_client_await_message_type : Persistent p → ℕ
  get_client_await_message_type s =
      if ready s then s.entry_client.await_message else p.mqttsn_pingreq

  unfoldable pub get_client_status : Persistent p → ℕ
  get_client_status s = if ready s then s.entry_client.client_status else p.status_lost

  unfoldable pub get_client_await_msg_id : Persistent p → ℕ
  get_client_await_msg_id s = if ready s then s.entry_client.await_message_id else 0

  -- `none`: the buffer is left alone.
  unfoldable pub get_client_id : Persistent p → Option (List ℕ)
  get_client_id s =
      if ready s && ltb (strlen s.entry_client.client_id) 24
      then some (c_str s.entry_client.client_id)
      else none

  -- The address of the last row in use; `none`: the target is left alone.
  unfoldable pub get_last_client_address : Persistent p → Option Address
  get_last_client_address s = last_address p.status_empty (registry_of s) none

  -- The out-parameters of `get_nth_client`: id, address, status, duration, timeout. The result of the
  -- read is not tested.
  unfoldable pub get_nth_client : ℕ → Persistent p → List ℕ × Address × ℕ × ℕ × ℕ
  get_nth_client n s =
      let e =
        read_client (zero_client p)
          (read_row p p.client_layout client_registry (n * p.client_layout.size) s.card) in
      (c_str e.client_id, e.client_address, e.client_status, e.duration, e.timeout)

  -- The connection flags; the four setters return the core library's `SUCCESS` as well.
  unfoldable pub set_mqttsn_disconnected : Persistent p → Persistent p
  set_mqttsn_disconnected s = record s { mqttsn_online = false }

  unfoldable pub set_mqtt_disconnected : Persistent p → Persistent p
  set_mqtt_disconnected s = record s { mqtt_online = false }

  unfoldable pub set_mqtt_connected : Persistent p → Persistent p
  set_mqtt_connected s = record s { mqtt_online = true }

  unfoldable pub set_mqttsn_connected : Persistent p → Persistent p
  set_mqttsn_connected s = record s { mqttsn_online = true }

  unfoldable pub is_mqttsn_online : Persistent p → Bool
  is_mqttsn_online s = s.mqttsn_online

  unfoldable pub is_mqtt_online : Persistent p → Bool
  is_mqtt_online s = s.mqtt_online
