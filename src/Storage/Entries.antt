-- ===== src/Storage/Entries.antt =====
-- The structs of LinuxPersistent.h, field by field. `Fits` holds of a value that the C type can
-- hold: numbers below the type's range, arrays of the declared length.
use linux_mqtt_sn_gateway.Base.{
  ℕ, ◌<◌, ◌^◌, ◌≡◌, Bool, false, List, replicate, length, All, All-replicate, length-replicate,
  IsByte, arith,
}

abbrev pub IsArray : ℕ → List ℕ → Type 0
IsArray n bs = (length bs ≡ n) × All IsByte bs

-- `device_address` of the core library, its bytes; the code copies and compares it whole.
abbrev pub Address : Type 0
Address = List ℕ

-- `CLIENT_STATUS` and `message_type` of the core library are numbers.
pub record Client : Type 0 where
  pub client_id : List ℕ
  pub file_number : List ℕ
  pub client_address : Address
  pub client_status : ℕ
  pub duration : ℕ
  pub timeout : ℕ
  pub await_message_id : ℕ
  pub await_message : ℕ

pub record GlobalSubscription : Type 0 where
  pub client_subscription_count : ℕ
  pub topic_name : List ℕ

pub record Will : Type 0 where
  pub willtopic : List ℕ
  pub willmsg : List ℕ
  pub willmsg_length : ℕ
  pub qos : ℕ
  pub retain : Bool

pub record Subscription : Type 0 where
  pub topic_id : ℕ
  pub qos : ℕ
  pub topic_name : List ℕ

pub record Registration : Type 0 where
  pub topic_id : ℕ
  pub topic_name : List ℕ
  pub known : Bool

pub record Publish : Type 0 where
  pub msg : List ℕ
  pub msg_length : ℕ
  pub topic_id : ℕ
  pub qos : ℕ
  pub retain : Bool
  pub dup : Bool
  pub msg_id : ℕ
  pub publish_id : ℕ
  pub retransmition_timeout : ℕ

-- `memset(&entry, 0, sizeof(entry))`
abbrev pub zero_global : GlobalSubscription
zero_global = record { client_subscription_count = 0; topic_name = replicate 255 0 }

abbrev pub zero_will : Will
zero_will = record {
  willtopic = replicate 255 0;
  willmsg = replicate 255 0;
  willmsg_length = 0;
  qos = 0;
  retain = false;
}

abbrev pub zero_subscription : Subscription
zero_subscription = record { topic_id = 0; qos = 0; topic_name = replicate 255 0 }

abbrev pub zero_registration : Registration
zero_registration = record { topic_id = 0; topic_name = replicate 255 0; known = false }

abbrev pub zero_publish : Publish
zero_publish = record {
  msg = replicate 255 0;
  msg_length = 0;
  topic_id = 0;
  qos = 0;
  retain = false;
  dup = false;
  msg_id = 0;
  publish_id = 0;
  retransmition_timeout = 0;
}

pub record ClientFits (address_size status_range message_range : ℕ) (e : Client) : Type 0 where
  pub id_fits : IsArray 24 e.client_id
  pub number_fits : IsArray 9 e.file_number
  pub address_fits : IsArray address_size e.client_address
  pub status_fits : e.client_status < status_range
  pub duration_fits : e.duration < 2 ^ 32
  pub timeout_fits : e.timeout < 2 ^ 32
  pub await_id_fits : e.await_message_id < 65536
  pub await_fits : e.await_message < message_range

pub record GlobalFits (e : GlobalSubscription) : Type 0 where
  pub count_fits : e.client_subscription_count < 2 ^ 32
  pub name_fits : IsArray 255 e.topic_name

pub record WillFits (e : Will) : Type 0 where
  pub topic_fits : IsArray 255 e.willtopic
  pub msg_fits : IsArray 255 e.willmsg
  pub length_fits : e.willmsg_length < 256
  pub qos_fits : e.qos < 256

pub record SubscriptionFits (e : Subscription) : Type 0 where
  pub id_fits : e.topic_id < 65536
  pub qos_fits : e.qos < 256
  pub name_fits : IsArray 255 e.topic_name

pub record RegistrationFits (e : Registration) : Type 0 where
  pub id_fits : e.topic_id < 65536
  pub name_fits : IsArray 255 e.topic_name

pub record PublishFits (e : Publish) : Type 0 where
  pub msg_fits : IsArray 255 e.msg
  pub length_fits : e.msg_length < 256
  pub id_fits : e.topic_id < 65536
  pub qos_fits : e.qos < 256
  pub msg_id_fits : e.msg_id < 65536
  pub publish_id_fits : e.publish_id < 65536
  pub timeout_fits : e.retransmition_timeout < 2 ^ 32

pub zeros-IsArray : (n : ℕ) → IsArray n (replicate n 0)
zeros-IsArray n = (length-replicate n 0, All-replicate IsByte n 0 (omega arith))

pub zero_subscription-fits : SubscriptionFits zero_subscription
zero_subscription-fits = record {
  id_fits = omega arith;
  qos_fits = omega arith;
  name_fits = zeros-IsArray 255;
}

pub zero_global-fits : GlobalFits zero_global
zero_global-fits = record { count_fits = omega arith; name_fits = zeros-IsArray 255 }

pub zero_will-fits : WillFits zero_will
zero_will-fits = record {
  topic_fits = zeros-IsArray 255;
  msg_fits = zeros-IsArray 255;
  length_fits = omega arith;
  qos_fits = omega arith;
}

pub zero_publish-fits : PublishFits zero_publish
zero_publish-fits = record {
  msg_fits = zeros-IsArray 255;
  length_fits = omega arith;
  id_fits = omega arith;
  qos_fits = omega arith;
  msg_id_fits = omega arith;
  publish_id_fits = omega arith;
  timeout_fits = omega arith;
}
