-- ===== src/Persistent/State.antt =====
-- The fields of `LinuxPersistent`, the guards of its methods and the names of its files. The file
-- handle `_open_file` is no field: every method opens the file that it reads or writes.
use linux_mqtt_sn_gateway.Base.{
  ℕ, zero, suc, ◌+◌, ◌-◌, ◌*◌, ◌/◌, ◌%◌, ◌^◌, Bool, true, not, ◌&&◌, ◌||◌, Option, none, some, List,
  [], ◌∷◌, ◌++◌, c_str, replicate, length, leb, ◌==◌, codes, if◌then◌else◌,
}
use linux_mqtt_sn_gateway.Storage.Entries.{Client, Registration}
use linux_mqtt_sn_gateway.Storage.Platform.{Platform}

pub record Persistent (p : Platform) : Type 0 where
  pub card : p.Card
  pub entry_client : Client
  pub registration_entry : Registration
  pub predefined_registration_entry : Registration
  pub not_in_client_registry : Bool
  pub transaction_started : Bool
  pub error : Bool
  pub mqttsn_online : Bool
  pub mqtt_online : Bool

-- `memset(&_entry_client, 0, sizeof(entry_client))`
abbrev pub zero_client : Platform → Client
zero_client p = record {
  client_id = replicate 24 0;
  file_number = replicate 9 0;
  client_address = replicate p.address_size 0;
  client_status = 0;
  duration = 0;
  timeout = 0;
  await_message_id = 0;
  await_message = 0;
}

module _ {p : Platform} where
  -- `_transaction_started && !_error`: the negation of the first guard of most methods.
  abbrev pub active : Persistent p → Bool
  active s = s.transaction_started && not s.error

  -- Passes the first guard and `if (_not_in_client_registry) return`.
  abbrev pub ready : Persistent p → Bool
  ready s = s.transaction_started && (not s.error && not s.not_in_client_registry)

  abbrev pub fail : Persistent p → Persistent p
  fail s = record s { error = true }

abbrev pub client_registry : List ℕ
client_registry = codes "CLIENTS"

abbrev pub mqtt_sub : List ℕ
mqtt_sub = codes "MQTT.SUB"

pub data Ending : Type 0 where
  registration_file subscribe_file will_file publish_file : Ending

abbrev pub ending : Ending → List ℕ
ending registration_file = codes ".REG"
ending subscribe_file = codes ".SUB"
ending will_file = codes ".WIL"
ending publish_file = codes ".PUB"

-- `filename_with_extension`
unfoldable pub client_file : Client → Ending → List ℕ
client_file e x = c_str e.file_number ++ ending x

-- `topic_name == nullptr || strlen(topic_name) == 0 || strlen(topic_name) >= 255`
abbrev pub bad_topic : Option (List ℕ) → Bool
bad_topic none = true
bad_topic (some name) = length name == 0 || leb 255 (length name)

-- `%08d` of a number below 10 ^ 8, most significant digit first.
unfoldable pub decimal : ℕ → ℕ → List ℕ
decimal zero n = []
decimal (suc k) n = decimal k (n / 10) ++ (48 + n % 10) ∷ []

abbrev pub is_digit : ℕ → Bool
is_digit b = leb 48 b && leb b 57

-- The number that the leading digits give, after those read before.
unfoldable pub digits_value : ℕ → List ℕ → ℕ
digits_value n [] = n
digits_value n (b ∷ bs) =
    let rest = digits_value (n * 10 + (b - 48)) bs in if is_digit b then rest else n

abbrev pub is_space : ℕ → Bool
is_space b = b == 32 || (leb 9 b && leb b 13)

abbrev after_sign : List ℕ → ℕ
after_sign [] = 0
after_sign (b ∷ bs) =
    if b == b'-'
    then (2 ^ 32 - digits_value 0 bs % 2 ^ 32) % 2 ^ 32
    else if b == b'+'
    then digits_value 0 bs
    else digits_value 0 (b ∷ bs)

-- `atoi`, as the bit pattern of its `int`: white space, a sign, digits.
unfoldable pub atoi : List ℕ → ℕ
unfolding digits_value
atoi [] = 0
atoi (b ∷ bs) = let rest = atoi bs in if is_space b then rest else after_sign (b ∷ bs)

-- `parse_file_number_to_int`
unfoldable pub parse_file_number_to_int : Client → ℕ
parse_file_number_to_int e = atoi (c_str e.file_number)
