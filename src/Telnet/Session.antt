-- ===== src/Telnet/Session.antt =====
-- `send` of LinuxTelnetSocket.cpp with a controller that keeps to the protocol.
use linux_mqtt_sn_gateway.Base.{ℕ, ◌%◌, ◌≡◌, ◌∙◌, true, List, ◌++◌, take, codes, arith}
use linux_mqtt_sn_gateway.Serial.State.{Bridge, done, pure, >>=-done}
use linux_mqtt_sn_gateway.Serial.Lines.{wait_for}
use linux_mqtt_sn_gateway.Serial.Commands.{line_of}
use linux_mqtt_sn_gateway.Telnet.Commands.{cmd_termination, send_address, send_data, send}
use linux_mqtt_sn_gateway.Serial.Session.{answer, Others, send_answers}
use linux_mqtt_sn_gateway.Serial.Waiting.{wait_for-text_of}
use linux_mqtt_sn_gateway.Serial.RoundTrip.{address_text, data_text, write_line_lem}

send_address_lem :
    (a : List ℕ) (b : Bridge)
    → send_address a b
      ≡ done tt (record b { output = b.output ++ (address_text a ++ cmd_termination) })
unfolding send_address
send_address_lem a b = write_line_lem (codes "ADDRESS") a cmd_termination b

send_data_lem :
    (m : List ℕ) (len : ℕ) (b : Bridge)
    → send_data m len b
      ≡ done tt
          (record b { output = b.output ++ (data_text (take (len % 256) m) ++ cmd_termination) })
unfolding send_data
send_data_lem m len b = write_line_lem (codes "DATA") (take (len % 256) m) cmd_termination b

-- With a controller that gives its four answers, other lines of at most 1023 bytes before each,
-- the Telnet `send` returns true behind the last one and has written SEND, the address and the
-- first `len % 256` bytes, each line with CR and LF.
pub send-send_answers :
    (before_address before_data before_sending before_idle : List (List ℕ)) (a m rest : List ℕ)
    (len : ℕ) (b : Bridge)
    → Others before_address (codes "OK AWAIT_ADDRESS")
    → Others before_data (codes "OK AWAIT_DATA")
    → Others before_sending (codes "OK SENDING")
    → Others before_idle (codes "OK IDLE")
    → send a m len (record b {
      input = send_answers before_address before_data before_sending before_idle rest;
    })
      ≡ done true (record b {
        input = rest;
        output =
            b.output
            ++ (codes "SEND" ++ cmd_termination)
            ++ (address_text a ++ cmd_termination)
            ++ (data_text (take (len % 256) m) ++ cmd_termination);
      })
unfolding send
send-send_answers before_address before_data before_sending before_idle a m rest len b h i j k =
    let behind_sending = answer before_idle (codes "OK IDLE") rest in
    let behind_data = answer before_sending (codes "OK SENDING") behind_sending in
    let behind_address = answer before_data (codes "OK AWAIT_DATA") behind_data in
    let out = b.output ++ (codes "SEND" ++ cmd_termination) in
    let out' = out ++ (address_text a ++ cmd_termination) in
    let out'' = out' ++ (data_text (take (len % 256) m) ++ cmd_termination) in
    >>=-done (wait_for (line_of (codes "OK AWAIT_ADDRESS"))) _ _ (
      wait_for-text_of (codes "OK AWAIT_ADDRESS") before_address behind_address
        (record b { output = out }) (ground arith) (omega arith) h)
    ∙ >>=-done (send_address a) _ _
        (send_address_lem a (record b { input = behind_address; output = out }))
    ∙ >>=-done (wait_for (line_of (codes "OK AWAIT_DATA"))) _ _ (
        wait_for-text_of (codes "OK AWAIT_DATA") before_data behind_data
          (record b { output = out' }) (ground arith) (omega arith) i)
    ∙ >>=-done (send_data m len) _ _
        (send_data_lem m len (record b { input = behind_data; output = out' }))
    ∙ >>=-done (wait_for (line_of (codes "OK SENDING"))) _ _ (
        wait_for-text_of (codes "OK SENDING") before_sending behind_sending
          (record b { output = out'' }) (ground arith) (omega arith) j)
    ∙ >>=-done (wait_for (line_of (codes "OK IDLE"))) (λ _. pure true) _
        (wait_for-text_of (codes "OK IDLE") before_idle rest (record b { output = out'' })
          (ground arith) (omega arith) k)
