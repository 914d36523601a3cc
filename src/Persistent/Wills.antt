-- ===== src/Persistent/Wills.antt =====
-- The will of the client in the transaction, LinuxPersistent.cpp: has_client_will to delete_will. Each
-- client has one file with at most one `entry_will`.
pub mod Lifecycle
use linux_mqtt_sn_gateway.Base.{
  ℕ, Bool, false, not, ◌&&◌, Option, none, some, List, [], ◌∷◌, c_str, strcpy, overlay, take,
  length, ltb, replicate, ◌==◌, if◌then◌else◌,
}
use linux_mqtt_sn_gateway.Storage.Entries.{Will, zero_will}
use linux_mqtt_sn_gateway.Storage.Platform.{Platform}
use linux_mqtt_sn_gateway.Storage.Table.{Read, whole, short, read_rows, save_at}
use linux_mqtt_sn_gateway.Persistent.State.{Persistent, ready, client_file, will_file}

abbrev first_byte_set : List ℕ → Bool
first_byte_set [] = false
first_byte_set (b ∷ _) = not (b == 0)

-- The struct after one read from the start of the file into a zeroed struct.
abbrev pub first_will : List (Read Will) → Will
first_will [] = zero_will
first_will (whole e ∷ _) = e
first_will (short e ∷ _) = e

abbrev pub is_will : List (Read Will) → Bool
is_will (whole e ∷ _) = first_byte_set e.willtopic
is_will _ = false

-- The out-parameters of `get_client_will`: topic, message, its length, qos, retain.
pub record WillValue : Type 0 where
  pub topic : List ℕ
  pub message : List ℕ
  pub message_length : ℕ
  pub qos : ℕ
  pub retain : Bool

abbrev pub will_value : List (Read Will) → Option WillValue
will_value (whole e ∷ _) = some (record {
  topic = c_str e.willtopic;
  message = take e.willmsg_length e.willmsg;
  message_length = e.willmsg_length;
  qos = e.qos;
  retain = e.retain;
})
will_value _ = none

abbrev pub with_willtopic : List ℕ → ℕ → Bool → Will → Will
with_willtopic topic qos retain e = record e {
  willtopic = strcpy (replicate 255 0) topic;
  qos = qos;
  retain = retain;
}

abbrev pub with_message : List ℕ → ℕ → Will → Will
with_message bytes len e = record e {
  willmsg = overlay (replicate 255 0) (take len bytes);
  willmsg_length = len;
}

module _ {p : Platform} where
  abbrev pub will_name : Persistent p → List ℕ
  will_name s = client_file s.entry_client will_file

  abbrev pub wills_of : Persistent p → List (Read Will)
  wills_of s = read_rows p p.will_layout (will_name s) s.card

  abbrev pub save_will : Will → Persistent p → Persistent p
  save_will e s = record s { card = save_at p p.will_layout (will_name s) 0 e s.card }

  unfoldable pub has_client_will : Persistent p → Bool
  has_client_will s = ready s && is_will (wills_of s)

  -- `none`: the out-parameters are left alone.
  unfoldable pub get_client_will : Persistent p → Option WillValue
  get_client_will s = if ready s then will_value (wills_of s) else none

  unfoldable pub set_client_willtopic : List ℕ → ℕ → Bool → Persistent p → Persistent p
  set_client_willtopic topic qos retain s =
      if ready s && ltb (length topic) 255
      then save_will (with_willtopic topic qos retain (first_will (wills_of s))) s
      else s

  unfoldable pub set_client_willmessage : List ℕ → ℕ → Persistent p → Persistent p
  set_client_willmessage bytes len s =
      if ready s then save_will (with_message bytes len (first_will (wills_of s))) s else s

  -- `SD.remove`, then `create_file`.
  unfoldable pub delete_will : Persistent p → Persistent p
  delete_will s =
      if ready s
      then record s { card = p.open_write (will_name s) (p.remove (will_name s) s.card) }
      else s
