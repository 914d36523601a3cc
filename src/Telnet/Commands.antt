-- ===== src/Telnet/Commands.antt =====
-- The methods of LinuxTelnetSocket.cpp that differ from those of LinuxSerialSocket.cpp. Its readers are the
-- same text on `sock`, and so is `waitFor`: its test of `buffer_read` comes behind the write that leaves
-- the buffer. `sock` is the field `fd`, the results of the system are arguments.
use linux_mqtt_sn_gateway.Base.{
  ℕ, ◌%◌, Bool, true, false, Option, none, some, List, [], ◌∷◌, ◌++◌, codes, take,
}
use linux_mqtt_sn_gateway.Serial.State.{
  Descriptor, closed, zero_fd, opened, done, Action, pure, write, and_then, ◌>>=◌, ◌>>◌,
}
use linux_mqtt_sn_gateway.Serial.Lines.{wait_for}
use linux_mqtt_sn_gateway.Serial.Read.{read_send_address, read_data}
use linux_mqtt_sn_gateway.Serial.Commands.{
  line_of, write_numbers, deliver, read_configuration, clear_addresses, notify,
}

-- `cmd_termination`
abbrev pub cmd_termination : List ℕ
cmd_termination = 13 ∷ 10 ∷ []

-- `sendAddress`
unfoldable pub send_address : List ℕ → Action Unit
send_address address = do write (codes "ADDRESS"); write_numbers address; write cmd_termination

-- `sendData`
unfoldable pub send_data : List ℕ → ℕ → Action Unit
send_data bytes len = do
  write (codes "DATA")
  write_numbers (take (len % 256) bytes)
  write cmd_termination

-- `send`
unfoldable pub send : List ℕ → List ℕ → ℕ → Action Bool
send destination bytes bytes_len = do
  write (codes "SEND" ++ cmd_termination)
  wait_for (line_of (codes "OK AWAIT_ADDRESS"))
  send_address destination
  wait_for (line_of (codes "OK AWAIT_DATA"))
  send_data bytes bytes_len
  wait_for (line_of (codes "OK SENDING"))
  wait_for (line_of (codes "OK IDLE"))
  pure true

-- `initTelnetPort`, with the result of `socket`, whether the calls behind it succeed, and what the new
-- connection gives. The test `!(sock = socket(…)) > 0` refuses the descriptor 0 only.
abbrev pub init_telnet_port : Descriptor → Bool → List ℕ → Action Bool
init_telnet_port zero_fd ok fresh b = done false (record b { fd = zero_fd })
init_telnet_port sock ok fresh b = done ok (record b { fd = sock; input = fresh })

-- `resetController`
unfoldable pub reset_controller : Descriptor → Bool → List ℕ → Action Bool
reset_controller sock ok fresh = do
  write (codes "RESET" ++ cmd_termination)
  and_then (init_telnet_port sock ok fresh)
      (wait_for (line_of (codes "RHRF95DatagramConsoleBridge v0.1 ready!")))

abbrev pub close_socket : Action Unit
close_socket b = done tt (record b { fd = closed })

module _ (size : ℕ) where
  -- The body of `if (sock > 0)` in `loop`.
  unfoldable pub receive : Action Bool
  receive = do
    write (codes "RECEIVE" ++ cmd_termination)
    wait_for (line_of (codes "OK SEND_ADDRESS"))
    read_send_address size
    wait_for (line_of (codes "OK SEND_DATA"))
    read_data
    wait_for (line_of (codes "OK IDLE"))
    deliver
    pure true

  -- `loop`; `none` where it falls off its end.
  unfoldable pub loop : Action (Option Bool)
  loop b = elim b.fd [
    | closed ↦ done (some false) b
    | zero_fd ↦ done none b
    | opened ↦ (receive >>= λ ok. pure (some ok)) b
  ]

  -- `updateConfiguration`
  unfoldable pub update_configuration : Action Bool
  update_configuration = do
    write (codes "CONFIGURATION" ++ cmd_termination)
    read_configuration size

  -- `begin`, with whether a logger and a handler are set; the reset is commented out.
  unfoldable pub begin : Bool → Bool → Descriptor → Bool → List ℕ → Action Bool
  begin has_logger has_handler sock ok fresh = and_then (pure has_logger) (
      and_then (pure has_handler) (
        and_then (clear_addresses size) (
          and_then (init_telnet_port sock ok fresh) (and_then update_configuration (notify size)))))

  -- The length behind a configuration that was read, or `TELNET_SOCKET_MAXIMUM_MESSAGE_LENGTH`.
  abbrev pub length_read : Bool → Action ℕ
  length_read false b = done 255 b
  length_read true b = done (b.maximum_message_length % 256) (record b { fd = closed })

  -- `getMaximumMessageLength`
  unfoldable pub get_maximum_message_length : Descriptor → Bool → List ℕ → Action ℕ
  get_maximum_message_length sock ok fresh b = elim b.fd [
    | closed ↦ (and_then (init_telnet_port sock ok fresh) update_configuration >>= length_read) b
    | _ ↦ done (b.maximum_message_length % 256) b
  ]
