-- ===== src/Serial/Read.antt =====
-- The `read…` methods of LinuxSerialSocket.cpp. `size` is `sizeof(device_address)`, which the repository
-- does not give.
use linux_mqtt_sn_gateway.Base.{
  ℕ, Bool, true, false, ◌||◌, not, Option, none, some, List, [], ◌∷◌, ◌++◌, length, leb, ◌==◌,
  if◌then◌else◌, replicate, codes, ◌-◌,
}
use linux_mqtt_sn_gateway.Serial.Numbers.{parse_byte, starts_with}
use linux_mqtt_sn_gateway.Serial.State.{failed, Action, calculate, ◌>>=◌}
use linux_mqtt_sn_gateway.Serial.Lines.{read_tokens}

-- The first token is the method's keyword.
abbrev pub has_keyword : List ℕ → List (List ℕ) → Bool
has_keyword word [] = false
has_keyword word (token ∷ _) = starts_with word token

abbrev pub arguments : List (List ℕ) → List (List ℕ)
arguments [] = []
arguments (_ ∷ tokens) = tokens

-- The chain of `memcmp`s on the status; what it assigns is a local variable.
unfoldable pub is_status : List (List ℕ) → Bool
is_status [] = true
is_status (token ∷ _) =
    starts_with (codes "STARTING") token
    || starts_with (codes "IDLE") token
    || starts_with (codes "SEND") token
    || starts_with (codes "RECEIVE") token
    || starts_with (codes "CONFIGURATION") token
    || starts_with (codes "PARSE_FAILURE") token
    || starts_with (codes "ERROR") token

-- `readSendAddress`: the bytes in the tokens, at most `size` of them.
unfoldable pub fill : ℕ → List ℕ → List (List ℕ) → Option (List ℕ)
fill size so_far [] = some so_far
fill size so_far (token ∷ tokens) = elim (parse_byte token) [
  | none ↦ none
  | some n ↦ if leb size (length so_far) then none else fill size (so_far ++ n ∷ []) tokens
]

-- `readBroadcastAddress`: `N/A` ends the loop with an address of zeros.
unfoldable pub fill_broadcast : ℕ → List ℕ → List (List ℕ) → Option (List ℕ)
fill_broadcast size so_far [] = some so_far
fill_broadcast size so_far (token ∷ tokens) =
    if starts_with (codes "N/A") token then some (replicate size 0) else elim (parse_byte token) [
      | none ↦ none
      | some n ↦
          if leb size (length so_far) then none else fill_broadcast size (so_far ++ n ∷ []) tokens
    ]

-- `readOwnAddress`: `N/A` is refused.
unfoldable pub fill_own : ℕ → List ℕ → List (List ℕ) → Option (List ℕ)
fill_own size so_far [] = some so_far
fill_own size so_far (token ∷ tokens) =
    if starts_with (codes "N/A") token then none else elim (parse_byte token) [
      | none ↦ none
      | some n ↦ if leb size (length so_far) then none else fill_own size (so_far ++ n ∷ []) tokens
    ]

-- The last number of the tokens, and 0 without one.
unfoldable pub last_number : ℕ → List (List ℕ) → Option ℕ
last_number n [] = some n
last_number n (token ∷ tokens) = elim (parse_byte token) [
  | none ↦ none
  | some m ↦ last_number m tokens
]

-- `readData`: the bytes of all tokens.
unfoldable pub fill_data : List ℕ → List (List ℕ) → Option (List ℕ)
fill_data so_far [] = some so_far
fill_data so_far (token ∷ tokens) = elim (parse_byte token) [
  | none ↦ none
  | some n ↦ fill_data (so_far ++ n ∷ []) tokens
]

-- The address if it is complete, and zeros otherwise.
abbrev pub complete : ℕ → Option (List ℕ) → List ℕ
complete size none = replicate size 0
complete size (some a) = if length a == size then a else replicate size 0

abbrev pub is_complete : ℕ → Option (List ℕ) → Bool
is_complete size none = false
is_complete size (some a) = length a == size

-- `ownAddress` behind `memset` and the bytes written to it.
abbrev pub padded : ℕ → Option (List ℕ) → List ℕ
padded size none = replicate size 0
padded size (some a) = a ++ replicate (size - length a) 0

abbrev pub is_short : ℕ → Option (List ℕ) → Bool
is_short size none = false
is_short size (some a) = not (length a == size)

abbrev pub or_zero : Option ℕ → ℕ
or_zero none = 0
or_zero (some n) = n

abbrev pub is_some : Option ℕ → Bool
is_some none = false
is_some (some _) = true

abbrev pub or_empty : Option (List ℕ) → List ℕ
or_empty none = []
or_empty (some a) = a

-- What `f` makes of the tokens behind the keyword; `none` without it.
abbrev pub keyed : List ℕ → (List (List ℕ) → Option (List ℕ)) → List (List ℕ) → Option (List ℕ)
keyed word f tokens = if has_keyword word tokens then f (arguments tokens) else none

module _ (size : ℕ) where
  -- `readStatus`
  unfoldable pub read_status : Action Bool
  read_status = do
    tokens ← read_tokens
    calculate λ b.
        if has_keyword (codes "STATUS") tokens
        then (is_status (arguments tokens), record b { from_address = replicate size 0 })
        else (false, record b { status = failed })

  -- `readOwnAddress`; an address that is too short stays in `ownAddress`, and `from_address` is
  -- cleared.
  unfoldable pub read_own_address : Action Bool
  read_own_address = do
    tokens ← read_tokens
    let address = keyed (codes "OWN_ADDRESS") (fill_own size []) tokens
    calculate λ b. (
      is_complete size address,
      record b {
        own_address = padded size address;
        from_address = if is_short size address then replicate size 0 else b.from_address;
      },
    )

  -- `readBroadcastAddress`
  unfoldable pub read_broadcast_address : Action Bool
  read_broadcast_address = do
    tokens ← read_tokens
    let address = keyed (codes "BROADCAST_ADDRESS") (fill_broadcast size []) tokens
    calculate
        λ b. (is_complete size address, record b { broadcast_address = complete size address })

  -- `readSendAddress`
  unfoldable pub read_send_address : Action Unit
  read_send_address = do
    tokens ← read_tokens
    let address = keyed (codes "ADDRESS") (fill size []) tokens
    calculate λ b. (tt, record b { from_address = complete size address })

abbrev pub keyed_number : List ℕ → List (List ℕ) → Option ℕ
keyed_number word tokens =
    if has_keyword word tokens then last_number 0 (arguments tokens) else none

-- `readMaximumMessageLength`
unfoldable pub read_maximum_message_length : Action Bool
read_maximum_message_length = do
  tokens ← read_tokens
  let n = keyed_number (codes "MAXIMUM_MESSAGE_LENGTH") tokens
  calculate λ b. (is_some n, record b { maximum_message_length = or_zero n })

-- `readSerialBufferSize`
unfoldable pub read_serial_buffer_size : Action Bool
read_serial_buffer_size = do
  tokens ← read_tokens
  let n = keyed_number (codes "SERIAL_BUFFER_SIZE") tokens
  calculate λ b. (is_some n, record b { serial_buffer_size = or_zero n })

-- `readData`
unfoldable pub read_data : Action Unit
read_data = do
  tokens ← read_tokens
  let bytes = keyed (codes "DATA") (fill_data []) tokens
  calculate λ b. (tt, record b { message = or_empty bytes })
