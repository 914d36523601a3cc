-- ===== src/Tests/SerialRuns.antt =====
-- The serial bridge with a controller whose addresses have two bytes.
use linux_mqtt_sn_gateway.Base.{
  ℕ, ◌≡◌, ◌≤◌, refl, true, false, some, List, [], ◌∷◌, ◌++◌, All, All-replicate, IsByte, length,
  replicate, take, codes, ◌%◌, ◌-◌, arith,
}
use linux_mqtt_sn_gateway.Serial.Numbers.{starts_with}
use linux_mqtt_sn_gateway.Telnet.Commands
use linux_mqtt_sn_gateway.Telnet.Commands.{cmd_termination}
use linux_mqtt_sn_gateway.Telnet.Session.{send-send_answers}
use linux_mqtt_sn_gateway.Serial.State.{Bridge, idle, closed, opened, done, overflow}
use linux_mqtt_sn_gateway.Serial.Lines.{wait_for}
use linux_mqtt_sn_gateway.Serial.Read.{read_send_address, read_data, read_own_address, is_status}
use linux_mqtt_sn_gateway.Serial.Commands.{line_of, send_address, send_data, send, loop, begin}
use linux_mqtt_sn_gateway.Serial.Waiting.{text_of, IsOther, wait_for-text_of}
use linux_mqtt_sn_gateway.Serial.RoundTrip.{
  sent, address_text, data_text, read_send_address-send_address, read_data-send_data,
  read_data_overflow,
}
use linux_mqtt_sn_gateway.Serial.Session.{
  answer, handed_over, receive_answers, loop_lem, send_answers, send_lem,
}
use linux_mqtt_sn_gateway.Serial.Configuration.{keyed_line, IsStatus, read_own_address_short}
use linux_mqtt_sn_gateway.Serial.Start.{configuration_answers, begin_lem}

abbrev bridge : Bridge
bridge = record {
  own_address = 1 ∷ 1 ∷ [];
  broadcast_address = 255 ∷ 255 ∷ [];
  maximum_message_length = 60;
  serial_buffer_size = 64;
  from_address = 0 ∷ 0 ∷ [];
  message = [];
  status = idle;
  fd = closed;
  input = [];
  output = [];
  received = [];
  connected = false;
}

abbrev peer : List ℕ
peer = 5 ∷ 200 ∷ []

abbrev hello : List ℕ
hello = 72 ∷ 0 ∷ 255 ∷ []

abbrev noise : List (List ℕ)
noise = codes "DEBUG start" ∷ []

noise-IsOther : All (IsOther (line_of (codes "OK SEND_ADDRESS"))) noise
noise-IsOther = ((ground arith, omega arith, λ e. absurd (ground (arith, e))), tt)

wait_for-text_of_example :
    wait_for
      (line_of (codes "OK SEND_ADDRESS"))
      (record bridge { input = text_of noise ++ (codes "OK SEND_ADDRESS" ++ 10 ∷ []) })
    ≡ done true (record bridge { input = [] })
wait_for-text_of_example =
    wait_for-text_of (codes "OK SEND_ADDRESS") noise [] bridge (ground arith) (omega arith)
      noise-IsOther

read_send_address-send_address_example :
    read_send_address
      (length peer)
      (record bridge { input = sent (send_address peer (record bridge { output = [] })) ++ 7 ∷ [] })
    ≡ done tt (record bridge { input = 7 ∷ []; from_address = peer })
read_send_address-send_address_example =
    read_send_address-send_address peer (7 ∷ []) bridge bridge (omega arith) (omega arith)

read_data-send_data_example :
    read_data (record bridge {
      input = sent (send_data hello (length hello) (record bridge { output = [] })) ++ [];
    })
    ≡ done tt (record bridge { input = []; message = hello })
read_data-send_data_example = read_data-send_data hello [] bridge bridge (omega arith) (omega arith)

abbrev long_message : List ℕ
long_message = replicate 255 100

read_data_overflow_example :
    read_data (record bridge {
      input =
          sent (send_data long_message (length long_message) (record bridge { output = [] })) ++ [];
    })
    ≡ overflow
read_data_overflow_example =
    read_data_overflow long_message [] bridge bridge (All-replicate IsByte 255 100 (omega arith))
      refl (All-replicate (λ n. 100 ≤ n) 255 100 (omega arith))

loop_lem_example :
    loop
      (length peer)
      (record bridge { fd = opened; input = receive_answers noise [] [] peer hello [] })
    ≡ done (some true) (record bridge {
      fd = opened;
      input = [];
      output = [] ++ line_of (codes "RECEIVE");
      from_address = peer;
      message = hello;
      received = handed_over peer hello [];
    })
loop_lem_example =
    loop_lem noise [] [] peer hello [] bridge noise-IsOther tt tt (omega arith) (omega arith)
      (omega arith) (omega arith)

send_lem_example :
    send peer hello 3 (record bridge { input = send_answers [] [] [] [] [] })
    ≡ done true (record bridge {
      input = [];
      output =
          []
          ++ line_of (codes "SEND")
          ++ line_of (address_text peer)
          ++ line_of (data_text (take (3 % 256) hello));
    })
send_lem_example = send_lem [] [] [] [] peer hello [] 3 bridge tt tt tt tt

idle-IsStatus : IsStatus (codes "IDLE")
unfolding is_status starts_with
idle-IsStatus = (ground arith, ground arith, omega arith, refl)

begin_lem_example :
    begin 2 true true opened true (record bridge {
      input =
          answer []
            (codes "OK IDLE")
            (configuration_answers (codes "IDLE") peer (255 ∷ 255 ∷ []) 60 64 []);
    })
    ≡ done true (record bridge {
      input = [];
      output = [] ++ (line_of (codes "RESET") ++ 0 ∷ []) ++ line_of (codes "CONFIGURATION");
      fd = opened;
      from_address = replicate 2 0;
      own_address = peer;
      broadcast_address = 255 ∷ 255 ∷ [];
      maximum_message_length = 60;
      serial_buffer_size = 64;
      connected = true;
    })
begin_lem_example =
    begin_lem (codes "IDLE") peer (255 ∷ 255 ∷ []) [] 60 64 bridge idle-IsStatus (omega arith)
      (omega arith) (omega arith) refl (omega arith) (omega arith)

read_own_address_short_example :
    read_own_address 2 (record bridge { input = keyed_line (codes "OWN_ADDRESS") (9 ∷ []) [] })
    ≡ done false (record bridge {
      input = [];
      own_address = (9 ∷ []) ++ replicate (2 - 1) 0;
      from_address = replicate 2 0;
    })
read_own_address_short_example =
    read_own_address_short 2 (9 ∷ []) [] bridge (omega arith) (omega arith) (omega arith)

send-send_answers_example :
    Commands.send peer hello 3 (record bridge { input = send_answers [] [] [] [] [] })
    ≡ done true (record bridge {
      input = [];
      output =
          []
          ++ (codes "SEND" ++ cmd_termination)
          ++ (address_text peer ++ cmd_termination)
          ++ (data_text (take (3 % 256) hello) ++ cmd_termination);
    })
send-send_answers_example = send-send_answers [] [] [] [] peer hello [] 3 bridge tt tt tt tt
