-- ===== src/Serial/Commands.antt =====
-- The commands of LinuxSerialSocket.cpp: `begin`, `updateConfiguration`, `send` and `loop`. `size` is
-- `sizeof(device_address)`; the opened port and its attributes are arguments.
use linux_mqtt_sn_gateway.Base.{
  ℕ, Bool, true, false, Option, none, some, List, [], ◌∷◌, ◌++◌, ◌%◌, ◌==◌, if◌then◌else◌,
  replicate, codes, take,
}
use linux_mqtt_sn_gateway.Serial.Numbers.{to_string}
use linux_mqtt_sn_gateway.Serial.State.{
  Descriptor, closed, zero_fd, opened, done, Action, pure, write, and_then, ◌>>=◌, ◌>>◌,
}
use linux_mqtt_sn_gateway.Serial.Lines.{wait_for}
use linux_mqtt_sn_gateway.Serial.Read.{
  read_status, read_own_address, read_broadcast_address, read_maximum_message_length,
  read_serial_buffer_size, read_send_address, read_data,
}

-- A text and the end of its line.
abbrev pub line_of : List ℕ → List ℕ
line_of text = text ++ 10 ∷ []

-- The loops of `sendAddress` and `sendData` over the bytes.
unfoldable pub write_numbers : List ℕ → Action Unit
unfolding to_string
write_numbers [] = pure tt
write_numbers (n ∷ bytes) = do write (32 ∷ []); write (to_string n); write_numbers bytes

-- `sendAddress`
unfoldable pub send_address : List ℕ → Action Unit
unfolding write_numbers
send_address address = do write (codes "ADDRESS"); write_numbers address; write (10 ∷ [])

-- `sendData`; its `len` is a `uint8_t`.
unfoldable pub send_data : List ℕ → ℕ → Action Unit
unfolding write_numbers
send_data bytes len = do
  write (codes "DATA")
  write_numbers (take (len % 256) bytes)
  write (10 ∷ [])

-- `send`, with `bytes` as the buffer and `bytes_len` as its length.
unfoldable pub send : List ℕ → List ℕ → ℕ → Action Bool
send destination bytes bytes_len = do
  write (line_of (codes "SEND"))
  wait_for (line_of (codes "OK AWAIT_ADDRESS"))
  send_address destination
  wait_for (line_of (codes "OK AWAIT_DATA"))
  send_data bytes bytes_len
  wait_for (line_of (codes "OK SENDING"))
  wait_for (line_of (codes "OK IDLE"))
  pure true

-- `if (from_address.bytes[0] != 0) receiveData(&from_address, data)`
unfoldable pub deliver : Action Unit
deliver b = done tt (elim b.from_address [
  | [] ↦ b
  | x ∷ _ ↦
      if x == 0 then b else record b { received = b.received ++ (b.from_address, b.message) ∷ [] }
])

-- `resetController`; the seventh byte written is the literal's NUL.
unfoldable pub reset_controller : Action Bool
reset_controller = do
  write (line_of (codes "RESET") ++ 0 ∷ [])
  wait_for (line_of (codes "OK IDLE"))

module _ (size : ℕ) where
  -- The body of `if (fd > 0)` in `loop`.
  unfoldable pub receive : Action Bool
  receive = do
    write (line_of (codes "RECEIVE"))
    wait_for (line_of (codes "OK SEND_ADDRESS"))
    read_send_address size
    wait_for (line_of (codes "OK SEND_DATA"))
    read_data
    wait_for (line_of (codes "OK IDLE"))
    deliver
    pure true

  -- `loop`; `none` where it falls off its end.
  unfoldable pub loop : Action (Option Bool)
  loop b = elim b.fd [
    | closed ↦ done (some false) b
    | zero_fd ↦ done none b
    | opened ↦ (receive >>= λ ok. pure (some ok)) b
  ]

  -- The answers that `updateConfiguration` waits for and reads.
  abbrev pub read_configuration : Action Bool
  read_configuration = and_then (wait_for (line_of (codes "OK SEND_STATUS"))) (
      and_then (read_status size) (
        and_then (wait_for (line_of (codes "OK SEND_OWN_ADDRESS"))) (
          and_then (read_own_address size) (
            and_then (wait_for (line_of (codes "OK SEND_BROADCAST_ADDRESS"))) (
              and_then (read_broadcast_address size) (
                and_then (wait_for (line_of (codes "OK SEND_MAXIMUM_MESSAGE_LENGTH"))) (
                  and_then read_maximum_message_length (
                    and_then (wait_for (line_of (codes "OK SEND_SERIAL_BUFFER_SIZE"))) (
                      and_then read_serial_buffer_size
                        (wait_for (line_of (codes "OK IDLE"))))))))))))

  -- `updateConfiguration`
  unfoldable pub update_configuration : Action Bool
  update_configuration = do write (line_of (codes "CONFIGURATION")); read_configuration

  -- `initSerialPort`, with the result of `open` and whether the attributes could be set.
  abbrev pub init_serial_port : Descriptor → Bool → Action Bool
  init_serial_port closed attributes b = done false (record b { fd = closed })
  init_serial_port fd attributes b = done attributes (record b { fd = fd })

  abbrev pub notify : Action Bool
  notify b = done true (record b { connected = true })

  abbrev pub clear_addresses : Action Bool
  clear_addresses b =
      done true (record b { broadcast_address = replicate size 0; own_address = replicate size 0 })

  -- `begin`, with whether a logger and a handler are set.
  unfoldable pub begin : Bool → Bool → Descriptor → Bool → Action Bool
  begin has_logger has_handler fd attributes = and_then (pure has_logger) (
      and_then (pure has_handler) (
        and_then clear_addresses (
          and_then (init_serial_port fd attributes)
            (and_then reset_controller (and_then update_configuration notify)))))
