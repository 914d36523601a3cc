-- ===== src/Persistent/Publishes.antt =====
-- The messages that wait for the client in the transaction, LinuxPersistent.cpp: has_client_publishes,
-- and add_client_publish to remove_publish_by_publish_id. Each client has one file of `entry_publish`
-- structs; a message in use has a `publish_id`, one more than its row.
pub mod Table
pub mod Deliver
pub mod ByMessageId
use linux_mqtt_sn_gateway.Base.{
  ℕ, ◌+◌, ◌*◌, ◌%◌, Bool, true, false, not, ◌&&◌, Option, none, some, List, [], ◌∷◌, overlay, take,
  ◌==◌, if◌then◌else◌,
}
use linux_mqtt_sn_gateway.Storage.Entries.{Publish, zero_publish}
use linux_mqtt_sn_gateway.Storage.Platform.{Platform}
use linux_mqtt_sn_gateway.Storage.Table.{Read, whole, short, read_rows, read_row, save_at}
use linux_mqtt_sn_gateway.Persistent.State.{Persistent, ready, fail, client_file, publish_file}
use linux_mqtt_sn_gateway.Persistent.Scan.{scan_slot, SlotScan, hit, ended, new_offset}

abbrev pub is_free : Publish → Bool
is_free e = e.publish_id == 0

-- `first_empty_space + 1`, after `first_empty_space = entry_number - 1` if none was found.
abbrev pub new_publish_id : Option ℕ → ℕ → ℕ
new_publish_id (some i) n = (i + 1) % 65536
new_publish_id none n = n % 65536

-- What `add_client_publish` writes: `dup` and `msg_id` are not those of the call.
abbrev pub new_publish : List ℕ → ℕ → ℕ → Bool → ℕ → ℕ → Publish
new_publish bytes len topic_id retain qos publish_id = record {
  msg = overlay zero_publish.msg (take len bytes);
  msg_length = len;
  topic_id = topic_id;
  qos = qos;
  retain = retain;
  dup = false;
  msg_id = 0;
  publish_id = publish_id;
  retransmition_timeout = 0;
}

-- What `get_next_publish` hands back; with no message it sets `*data_len` and `*publish_id` to 0.
pub data NextPublish : Type 0 where
  no_publish : NextPublish
  next : List ℕ → ℕ → ℕ → Bool → ℕ → Bool → ℕ → NextPublish

abbrev pub handed_back : Publish → NextPublish
handed_back e =
    next (take e.msg_length e.msg) e.msg_length e.topic_id e.retain e.qos e.dup e.publish_id

-- The second read of `get_next_publish`, whose result is not tested.
abbrev pub reread : Option (Read Publish) → NextPublish
reread none = handed_back zero_publish
reread (some (whole e)) = handed_back e
reread (some (short e)) = handed_back e

abbrev pub is_hit : SlotScan Publish → Bool
is_hit (hit _ _) = true
is_hit (ended _ _ _) = false

module _ {p : Platform} where
  abbrev pub publishes_of : Persistent p → List (Read Publish)
  publishes_of s = read_rows p p.publish_layout (client_file s.entry_client publish_file) s.card

  abbrev pub save_publish : ℕ → Publish → Persistent p → Persistent p
  save_publish off e s = record s {
    card = save_at p p.publish_layout (client_file s.entry_client publish_file) off e s.card;
  }

  unfoldable pub has_client_publishes : Persistent p → Bool
  has_client_publishes s =
      ready s && is_hit (scan_slot true (λ _. false) (λ e. not (is_free e)) (publishes_of s) none 0)

  abbrev pub store_publish :
      List ℕ → ℕ → ℕ → Bool → ℕ → SlotScan Publish → Persistent p → Persistent p
  store_publish bytes len topic_id retain qos (hit _ _) s = s
  store_publish bytes len topic_id retain qos (ended first n _) s =
      save_publish (new_offset p.publish_layout.size first n)
        (new_publish bytes len topic_id retain qos (new_publish_id first n)) s

  -- The loop ends at the end of the file or at a short read.
  unfoldable pub add_client_publish :
      List ℕ → ℕ → ℕ → Bool → ℕ → Bool → ℕ → Persistent p → Persistent p
  add_client_publish bytes len topic_id retain qos dup msg_id s =
      if ready s
      then store_publish bytes len topic_id retain qos
          (scan_slot true is_free (λ _. false) (publishes_of s) none 0) s
      else s

  abbrev pub next_of : SlotScan Publish → Persistent p → NextPublish
  next_of (ended (some last) n _) s = reread (
      read_row p p.publish_layout (client_file s.entry_client publish_file)
        (last * p.publish_layout.size) s.card)
  next_of _ s = no_publish

  -- `last_publish_entry` is the last row in use.
  unfoldable pub get_next_publish : Persistent p → NextPublish
  get_next_publish s =
      if ready s
      then next_of (scan_slot true (λ e. not (is_free e)) (λ _. false) (publishes_of s) none 0) s
      else no_publish

  abbrev pub row_of_publish : ℕ → Persistent p → Option (Read Publish)
  row_of_publish id s =
      read_row p p.publish_layout (client_file s.entry_client publish_file)
        (new_offset p.publish_layout.size none id) s.card

  abbrev pub change_publish :
      (Publish → Publish) → ℕ → Option (Read Publish) → Persistent p → Persistent p
  change_publish f id (some (whole e)) s =
      if e.publish_id == id
      then save_publish (new_offset p.publish_layout.size none id) (f e) s
      else fail s
  change_publish f id _ s = s

  unfoldable pub set_publish_msg_id : ℕ → ℕ → Persistent p → Persistent p
  set_publish_msg_id id msg_id s =
      if ready s
      then change_publish (λ e. record e { msg_id = msg_id }) id (row_of_publish id s) s
      else s

  unfoldable pub remove_publish_by_publish_id : ℕ → Persistent p → Persistent p
  remove_publish_by_publish_id id s =
      if ready s then change_publish (λ _. zero_publish) id (row_of_publish id s) s else s

  -- The offset and the length are multiples of `sizeof(buffer_size)`, which is 2.
  abbrev pub clear_bytes : SlotScan Publish → Persistent p → Persistent p
  clear_bytes (hit n _) s = record s {
    card =
        p.write_at (client_file s.entry_client publish_file) (n * 2) (0 ∷ 0 ∷ [])
          (p.open_write (client_file s.entry_client publish_file) s.card);
  }
  clear_bytes (ended _ _ _) s = s

  -- A zero id sets the error and goes on.
  unfoldable pub remove_publish_by_msg_id : ℕ → Persistent p → Persistent p
  remove_publish_by_msg_id msg_id s =
      if ready s
      then clear_bytes
          (scan_slot true (λ _. false) (λ e. e.msg_id == msg_id) (publishes_of s) none 0)
          (if msg_id == 0 then fail s else s)
      else s
