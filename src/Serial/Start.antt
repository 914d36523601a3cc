-- ===== src/Serial/Start.antt =====
-- `begin` and `updateConfiguration` of LinuxSerialSocket.cpp with a controller that answers them.
use linux_mqtt_sn_gateway.Base.{
  ℕ, ◌≤◌, ◌<◌, ◌≡◌, sym, ap, ◌∙◌, true, List, [], ◌∷◌, ◌++◌, length, All, IsByte, replicate, codes,
  arith,
}
use linux_mqtt_sn_gateway.Serial.State.{Bridge, opened, done, and_then-true}
use linux_mqtt_sn_gateway.Serial.Lines.{wait_for}
use linux_mqtt_sn_gateway.Serial.Read.{
  read_status, read_own_address, read_broadcast_address, read_maximum_message_length,
  read_serial_buffer_size,
}
use linux_mqtt_sn_gateway.Serial.Commands.{line_of, update_configuration, reset_controller, begin}
use linux_mqtt_sn_gateway.Serial.Waiting.{IsPlain, wait_for-text_of}
use linux_mqtt_sn_gateway.Serial.Session.{answer}
use linux_mqtt_sn_gateway.Serial.Configuration.{
  keyed_line, status_line, IsStatus, read_status_lem, read_own_address_lem,
  read_broadcast_address_lem, read_maximum_message_length_lem, read_serial_buffer_size_lem,
}

-- The answers of the controller to `CONFIGURATION`.
abbrev pub configuration_answers : List ℕ → List ℕ → List ℕ → ℕ → ℕ → List ℕ → List ℕ
configuration_answers status own broadcast longest buffer rest =
    answer [] (codes "OK SEND_STATUS") (
      status_line status (
        answer [] (codes "OK SEND_OWN_ADDRESS") (
          keyed_line (codes "OWN_ADDRESS") own (
            answer [] (codes "OK SEND_BROADCAST_ADDRESS") (
              keyed_line (codes "BROADCAST_ADDRESS") broadcast (
                answer [] (codes "OK SEND_MAXIMUM_MESSAGE_LENGTH") (
                  keyed_line (codes "MAXIMUM_MESSAGE_LENGTH") (longest ∷ []) (
                    answer [] (codes "OK SEND_SERIAL_BUFFER_SIZE") (
                      keyed_line (codes "SERIAL_BUFFER_SIZE") (buffer ∷ [])
                        (answer [] (codes "OK IDLE") rest))))))))))

broadcast_lem :
    (own broadcast rest : List ℕ) (b : Bridge)
    → All IsByte broadcast
    → length own ≤ 251
    → length broadcast ≡ length own
    → read_broadcast_address
        (length own)
        (record b { input = keyed_line (codes "BROADCAST_ADDRESS") broadcast rest })
      ≡ done true (record b { input = rest; broadcast_address = broadcast })
broadcast_lem own broadcast rest b h le e =
    ap
      (λ n.
        read_broadcast_address n
          (record b { input = keyed_line (codes "BROADCAST_ADDRESS") broadcast rest }))
      (sym e)
    ∙ read_broadcast_address_lem broadcast rest b h (omega arith)

wait_lem :
    (t rest : List ℕ) (b : Bridge)
    → IsPlain t
    → length t ≤ 1023
    → wait_for (line_of t) (record b { input = answer [] t rest })
      ≡ done true (record b { input = rest })
wait_lem t rest b h le = wait_for-text_of t [] rest b h le tt

update_configuration_lem :
    (status own broadcast rest : List ℕ) (longest buffer : ℕ) (b : Bridge)
    → IsStatus status
    → All IsByte own
    → All IsByte broadcast
    → length own ≤ 251
    → length broadcast ≡ length own
    → longest < 256
    → buffer < 256
    → update_configuration
        (length own)
        (record b { input = configuration_answers status own broadcast longest buffer rest })
      ≡ done true (record b {
        input = rest;
        output = b.output ++ line_of (codes "CONFIGURATION");
        from_address = replicate (length own) 0;
        own_address = own;
        broadcast_address = broadcast;
        maximum_message_length = longest;
        serial_buffer_size = buffer;
      })
unfolding update_configuration
update_configuration_lem status own broadcast rest longest buffer b h i j le e k l =
    let r5 = answer [] (codes "OK IDLE") rest in
    let l5 = keyed_line (codes "SERIAL_BUFFER_SIZE") (buffer ∷ []) r5 in
    let r4 = answer [] (codes "OK SEND_SERIAL_BUFFER_SIZE") l5 in
    let l4 = keyed_line (codes "MAXIMUM_MESSAGE_LENGTH") (longest ∷ []) r4 in
    let r3 = answer [] (codes "OK SEND_MAXIMUM_MESSAGE_LENGTH") l4 in
    let l3 = keyed_line (codes "BROADCAST_ADDRESS") broadcast r3 in
    let r2 = answer [] (codes "OK SEND_BROADCAST_ADDRESS") l3 in
    let l2 = keyed_line (codes "OWN_ADDRESS") own r2 in
    let r1 = answer [] (codes "OK SEND_OWN_ADDRESS") l2 in
    let b0 = record b { output = b.output ++ line_of (codes "CONFIGURATION") } in
    let b1 = record b0 { from_address = replicate (length own) 0 } in
    let b2 = record b1 { own_address = own } in
    let b3 = record b2 { broadcast_address = broadcast } in
    let b4 = record b3 { maximum_message_length = longest } in
    let b5 = record b4 { serial_buffer_size = buffer } in
    and_then-true (wait_for (line_of (codes "OK SEND_STATUS"))) _ _
      (wait_lem (codes "OK SEND_STATUS") (status_line status r1) b0 (ground arith) (omega arith))
    ∙ and_then-true (read_status (length own)) _ _ (read_status_lem (length own) status r1 b0 h)
    ∙ and_then-true (wait_for (line_of (codes "OK SEND_OWN_ADDRESS"))) _ _
        (wait_lem (codes "OK SEND_OWN_ADDRESS") l2 b1 (ground arith) (omega arith))
    ∙ and_then-true (read_own_address (length own)) _ _
        (read_own_address_lem own r2 b1 i (omega arith))
    ∙ and_then-true (wait_for (line_of (codes "OK SEND_BROADCAST_ADDRESS"))) _ _
        (wait_lem (codes "OK SEND_BROADCAST_ADDRESS") l3 b2 (ground arith) (omega arith))
    ∙ and_then-true (read_broadcast_address (length own)) _ _
        (broadcast_lem own broadcast r3 b2 j le e)
    ∙ and_then-true (wait_for (line_of (codes "OK SEND_MAXIMUM_MESSAGE_LENGTH"))) _ _
        (wait_lem (codes "OK SEND_MAXIMUM_MESSAGE_LENGTH") l4 b3 (ground arith) (omega arith))
    ∙ and_then-true read_maximum_message_length _ _
        (read_maximum_message_length_lem longest r4 b3 k)
    ∙ and_then-true (wait_for (line_of (codes "OK SEND_SERIAL_BUFFER_SIZE"))) _ _
        (wait_lem (codes "OK SEND_SERIAL_BUFFER_SIZE") l5 b4 (ground arith) (omega arith))
    ∙ and_then-true read_serial_buffer_size _ _ (read_serial_buffer_size_lem buffer r5 b4 l)
    ∙ wait_lem (codes "OK IDLE") rest b5 (ground arith) (omega arith)

reset_controller_lem :
    (rest : List ℕ) (b : Bridge)
    → reset_controller (record b { input = answer [] (codes "OK IDLE") rest })
      ≡ done true
          (record b { input = rest; output = b.output ++ (line_of (codes "RESET") ++ 0 ∷ []) })
unfolding reset_controller
reset_controller_lem rest b =
    wait_lem (codes "OK IDLE") rest
      (record b { output = b.output ++ (line_of (codes "RESET") ++ 0 ∷ []) }) (ground arith)
      (omega arith)

-- With a logger, a handler and an opened port, and a controller that answers RESET and then the
-- five questions of CONFIGURATION, `begin` returns true with the addresses and the two sizes of
-- the answers stored and the handler notified. The status is a word of at most 1000 bytes that
-- begins with a known one, the two addresses have the same length, at most 251, and their bytes
-- and the sizes are below 256.
pub begin_lem :
    (status own broadcast rest : List ℕ) (longest buffer : ℕ) (b : Bridge)
    → IsStatus status
    → All IsByte own
    → All IsByte broadcast
    → length own ≤ 251
    → length broadcast ≡ length own
    → longest < 256
    → buffer < 256
    → begin (length own) true true opened true (record b {
      input =
          answer []
            (codes "OK IDLE")
            (configuration_answers status own broadcast longest buffer rest);
    })
      ≡ done true (record b {
        input = rest;
        output = b.output ++ (line_of (codes "RESET") ++ 0 ∷ []) ++ line_of (codes "CONFIGURATION");
        fd = opened;
        from_address = replicate (length own) 0;
        own_address = own;
        broadcast_address = broadcast;
        maximum_message_length = longest;
        serial_buffer_size = buffer;
        connected = true;
      })
unfolding begin
begin_lem status own broadcast rest longest buffer b h i j le e k l =
    let zeros = replicate (length own) 0 in
    let b0 = record b { fd = opened; broadcast_address = zeros; own_address = zeros } in
    let b1 = record b0 { output = b.output ++ (line_of (codes "RESET") ++ 0 ∷ []) } in
    let answers = configuration_answers status own broadcast longest buffer rest in
    and_then-true reset_controller _ _ (reset_controller_lem answers b0)
    ∙ and_then-true (update_configuration (length own)) _ _
        (update_configuration_lem status own broadcast rest longest buffer b1 h i j le e k l)
