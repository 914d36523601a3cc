-- ===== src/Tcp/Messages.antt =====
-- `Queue` (Implementation/Tcp/Queue.h) and `TcpMessage` (Implementation/Tcp/TcpMessage.{h,cpp}).
use linux_mqtt_sn_gateway.Base.{
  ℕ, Bool, true, false, Option, none, some, List, [], ◌∷◌, ◌++◌, replicate, overlay,
}

-- The queue of `std::queue`, with its front first. The mutex makes each method one step.
abbrev pub push {ℓ} : {A : Type ℓ} → A → List A → List A
push item queue = queue ++ item ∷ []

-- `pop` of either kind; on an empty queue it waits, for which none stands.
abbrev pub pop {ℓ} : {A : Type ℓ} → List A → Option (A × List A)
pop [] = none
pop (item ∷ queue) = some (item, queue)

abbrev pub empty {ℓ} : {A : Type ℓ} → List A → Bool
empty [] = true
empty (_ ∷ _) = false

pub record TcpMessage : Type 0 where
  pub payload : List ℕ
  pub payload_length : ℕ
  pub message_address : List ℕ

-- The constructor, with `sizeof(device_address)`.
abbrev pub new_message : ℕ → TcpMessage
new_message size = record {
  payload = replicate 255 0;
  payload_length = 0;
  message_address = replicate size 0;
}

-- `setPayload`, with the bytes that it copies
abbrev pub set_payload : List ℕ → TcpMessage → TcpMessage
set_payload bytes m = record m { payload = overlay m.payload bytes }

-- `setDeviceAddress`
abbrev pub set_device_address : List ℕ → TcpMessage → TcpMessage
set_device_address address m = record m { message_address = address }
