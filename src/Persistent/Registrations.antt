-- ===== src/Persistent/Registrations.antt =====
-- The topic ids of the client in the transaction, LinuxPersistent.cpp: get_topic_name, is_topic_known,
-- add_client_registration. Each client has one file of `entry_registration` structs.
pub mod Names
use linux_mqtt_sn_gateway.Base.{
  ℕ, ◌^◌, Bool, true, false, not, ◌&&◌, Option, none, some, List, c_str, strlen, strcpy, bytes_eq,
  length, ltb, ◌==◌, if◌then◌else◌,
}
use linux_mqtt_sn_gateway.Storage.Entries.{Registration, zero_registration}
use linux_mqtt_sn_gateway.Storage.Platform.{Platform}
use linux_mqtt_sn_gateway.Storage.Table.{Read, read_rows, save_at}
use linux_mqtt_sn_gateway.Persistent.State.{
  Persistent, active, ready, fail, client_file, registration_file,
}
use linux_mqtt_sn_gateway.Persistent.Scan.{scan, scan_slot, SlotScan, hit, ended, new_offset}

abbrev pub is_vacant : Registration → Bool
is_vacant e = e.topic_id == 0 && strlen e.topic_name == 0

abbrev pub has_id : ℕ → Registration → Bool
has_id id e = e.topic_id == id && ltb (strlen e.topic_name) 255

abbrev pub is_registration_of : List ℕ → Registration → Bool
is_registration_of name e =
    not (e.topic_id == 0) && (ltb (strlen e.topic_name) 255 && bytes_eq (c_str e.topic_name) name)

abbrev left_registration : Option Registration → Registration
left_registration none = zero_registration
left_registration (some e) = e

-- The row that is saved: its id is `entry_number`, wherever it is saved.
abbrev pub new_registration : List ℕ → ℕ → Registration → Registration
new_registration name n e = record e {
  topic_id = n;
  topic_name = strcpy e.topic_name name;
  known = true;
}

module _ {p : Platform} where
  abbrev pub registrations_of : Persistent p → List (Read Registration)
  registrations_of s =
      read_rows p p.registration_layout (client_file s.entry_client registration_file) s.card

  abbrev pub found_name : Option (ℕ × Registration) → Persistent p → Persistent p × Option (List ℕ)
  found_name none s = (record s { registration_entry = zero_registration }, none)
  found_name (some (_, e)) s = (record s { registration_entry = e }, some (c_str e.topic_name))

  -- The text that the returned pointer leads to: the row stays in `_registration_entry`.
  unfoldable pub get_topic_name : ℕ → Persistent p → Persistent p × Option (List ℕ)
  get_topic_name id s =
      if active s && not (id == 0)
      then found_name (scan (2 ^ 32) (has_id id) (registrations_of s) 0) s
      else (s, none)

  abbrev left_state : Option Registration → Persistent p → Persistent p
  left_state left s = record s { registration_entry = left_registration left }

  abbrev pub known_of : SlotScan Registration → Persistent p → Persistent p × Option Bool
  known_of (hit _ e) s = (record s { registration_entry = e }, some e.known)
  known_of (ended _ _ left) s = (left_state left s, none)

  -- `none`: the function ends with no `return` for an id that has no row.
  unfoldable pub is_topic_known : ℕ → Persistent p → Persistent p × Option Bool
  is_topic_known id s =
      if ready s
      then if id == 0
        then (fail s, some false)
        else known_of (scan_slot true is_vacant (has_id id) (registrations_of s) none 0) s
      else (s, some false)

  abbrev pub register : List ℕ → SlotScan Registration → Persistent p → Persistent p × Option ℕ
  register name (hit _ e) s =
      (record s { registration_entry = record e { known = true } }, some e.topic_id)
  register name (ended first n left) s =
      let e = new_registration name n (left_registration left) in
      (
        record s {
          registration_entry = e;
          card =
              save_at p p.registration_layout (client_file s.entry_client registration_file)
                (new_offset p.registration_layout.size first n) e s.card;
        },
        some n,
      )

  -- `none`: `*topic_id` is left alone.
  unfoldable pub add_client_registration : List ℕ → Persistent p → Persistent p × Option ℕ
  add_client_registration name s =
      if ready s
      then if ltb 255 (length name)
        then (fail s, none)
        else register name
            (scan_slot true is_vacant (is_registration_of name) (registrations_of s) none 0) s
      else (s, none)
