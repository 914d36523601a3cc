-- ===== src/Serial/Session.antt =====
-- Whole exchanges of LinuxSerialSocket.cpp with a controller that keeps to the protocol: `send`, `loop` and
-- `updateConfiguration`. Other lines may come before each answer.
use linux_mqtt_sn_gateway.Base.{
  ℕ, ◌%◌, ◌≤◌, ◌≡◌, refl, ◌∙◌, true, some, List, [], ◌∷◌, ◌++◌, length, take, All, IsByte, codes,
  ◌==◌, if◌then◌else◌, Bool-cases, inl, inr, arith,
}
use linux_mqtt_sn_gateway.Serial.State.{Bridge, opened, done, pure, >>=-done}
use linux_mqtt_sn_gateway.Serial.Lines.{wait_for}
use linux_mqtt_sn_gateway.Serial.Read.{read_send_address, read_data}
use linux_mqtt_sn_gateway.Serial.Commands.{
  line_of, send_address, send_data, send, deliver, receive, loop,
}
use linux_mqtt_sn_gateway.Serial.Waiting.{text_of, IsOther, wait_for-text_of}
use linux_mqtt_sn_gateway.Serial.Words.{length-numbers_le}
use linux_mqtt_sn_gateway.Serial.RoundTrip.{
  address_text, data_text, send_address_lem, send_data_lem, read_send_address_lem, read_data_lem,
}

-- Some lines, and the answer `t` behind them.
abbrev pub answer : List (List ℕ) → List ℕ → List ℕ → List ℕ
answer others t rest = text_of others ++ (t ++ 10 ∷ rest)

abbrev pub Others : List (List ℕ) → List ℕ → Type 0
Others others t = All (IsOther (line_of t)) others

-- The calls of `receiveData` behind a message `m` from `a`.
abbrev pub handed_over : List ℕ → List ℕ → List (List ℕ × List ℕ) → List (List ℕ × List ℕ)
handed_over [] m calls = calls
handed_over (x ∷ a) m calls = if x == 0 then calls else calls ++ (x ∷ a, m) ∷ []

deliver_lem :
    (a m : List ℕ) (b : Bridge)
    → deliver (record b { from_address = a; message = m })
      ≡ done tt (record b { from_address = a; message = m; received = handed_over a m b.received })
unfolding deliver
deliver_lem [] m b = refl
deliver_lem (x ∷ a) m b = elim (Bool-cases (x == 0)) [ inl e ↦ rw e | inr e ↦ rw e ]

-- The answers of the controller to `RECEIVE`.
abbrev pub receive_answers :
    List (List ℕ) → List (List ℕ) → List (List ℕ) → List ℕ → List ℕ → List ℕ → List ℕ
receive_answers before_address before_data before_idle a m rest =
    answer before_address (codes "OK SEND_ADDRESS") (
      address_text a
      ++ 10
        ∷ answer before_data (codes "OK SEND_DATA")
            (data_text m ++ 10 ∷ answer before_idle (codes "OK IDLE") rest))

-- With the port open, and a controller that gives its three answers, its address and its message,
-- `loop` returns true behind the last answer: it has written RECEIVE, and handed over exactly the
-- message with its address, or nothing where the address begins with 0. Before each answer other
-- lines of at most 1023 bytes may come. All bytes are below 256, the address has at most 253 and
-- the message at most 254.
pub loop_lem :
    (before_address before_data before_idle : List (List ℕ)) (a m rest : List ℕ) (b : Bridge)
    → Others before_address (codes "OK SEND_ADDRESS")
    → Others before_data (codes "OK SEND_DATA")
    → Others before_idle (codes "OK IDLE")
    → All IsByte a
    → All IsByte m
    → length a ≤ 253
    → length m ≤ 254
    → loop (length a) (record b {
      fd = opened;
      input = receive_answers before_address before_data before_idle a m rest;
    })
      ≡ done (some true) (record b {
        fd = opened;
        input = rest;
        output = b.output ++ line_of (codes "RECEIVE");
        from_address = a;
        message = m;
        received = handed_over a m b.received;
      })
unfolding loop receive
loop_lem before_address before_data before_idle a m rest b h i j k l le le' =
    let behind_idle = answer before_idle (codes "OK IDLE") rest in
    let behind_data = answer before_data (codes "OK SEND_DATA") (data_text m ++ 10 ∷ behind_idle) in
    let c = record b { fd = opened; output = b.output ++ line_of (codes "RECEIVE") } in
    let e : receive (length a) (record b {
      fd = opened;
      input = receive_answers before_address before_data before_idle a m rest;
    })
        ≡ done true (record c {
          input = rest;
          from_address = a;
          message = m;
          received = handed_over a m b.received;
        }) =
      >>=-done (wait_for (line_of (codes "OK SEND_ADDRESS"))) _ _ (
        wait_for-text_of (codes "OK SEND_ADDRESS") before_address
          (address_text a ++ 10 ∷ behind_data) c (ground arith) (omega arith) h)
      ∙ >>=-done (read_send_address (length a)) _ _
          (read_send_address_lem a behind_data c k (omega (arith, length-numbers_le a)))
      ∙ >>=-done (wait_for (line_of (codes "OK SEND_DATA"))) _ _ (
          wait_for-text_of (codes "OK SEND_DATA") before_data (data_text m ++ 10 ∷ behind_idle)
            (record c { from_address = a }) (ground arith) (omega arith) i)
      ∙ >>=-done read_data _ _ (
          read_data_lem m behind_idle (record c { from_address = a }) l
            (omega (arith, length-numbers_le m)))
      ∙ >>=-done (wait_for (line_of (codes "OK IDLE"))) _ _ (
          wait_for-text_of (codes "OK IDLE") before_idle rest
            (record c { from_address = a; message = m }) (ground arith) (omega arith) j)
      ∙ >>=-done deliver (λ _. pure true) _ (deliver_lem a m (record c { input = rest })) in
    >>=-done (receive (length a)) (λ ok. pure (some ok)) _ e

-- The answers of the controller to `SEND`.
abbrev pub send_answers :
    List (List ℕ) → List (List ℕ) → List (List ℕ) → List (List ℕ) → List ℕ → List ℕ
send_answers before_address before_data before_sending before_idle rest =
    answer before_address (codes "OK AWAIT_ADDRESS") (
      answer before_data (codes "OK AWAIT_DATA")
        (answer before_sending (codes "OK SENDING") (answer before_idle (codes "OK IDLE") rest)))

-- With a controller that gives its four answers, other lines of at most 1023 bytes before each,
-- `send` returns true behind the last one and has written SEND, the line of the address and the
-- line of the first `len % 256` bytes.
pub send_lem :
    (before_address before_data before_sending before_idle : List (List ℕ)) (a m rest : List ℕ)
    (len : ℕ) (b : Bridge)
    → Others before_address (codes "OK AWAIT_ADDRESS")
    → Others before_data (codes "OK AWAIT_DATA")
    → Others before_sending (codes "OK SENDING")
    → Others before_idle (codes "OK IDLE")
    → send a m len (record b {
      input = send_answers before_address before_data before_sending before_idle rest;
    })
      ≡ done true (record b {
        input = rest;
        output =
            b.output
            ++ line_of (codes "SEND")
            ++ line_of (address_text a)
            ++ line_of (data_text (take (len % 256) m));
      })
unfolding send
send_lem before_address before_data before_sending before_idle a m rest len b h i j k =
    let behind_sending = answer before_idle (codes "OK IDLE") rest in
    let behind_data = answer before_sending (codes "OK SENDING") behind_sending in
    let behind_address = answer before_data (codes "OK AWAIT_DATA") behind_data in
    let out = b.output ++ line_of (codes "SEND") in
    let out' = out ++ line_of (address_text a) in
    let out'' = out' ++ line_of (data_text (take (len % 256) m)) in
    >>=-done (wait_for (line_of (codes "OK AWAIT_ADDRESS"))) _ _ (
      wait_for-text_of (codes "OK AWAIT_ADDRESS") before_address behind_address
        (record b { output = out }) (ground arith) (omega arith) h)
    ∙ >>=-done (send_address a) _ _
        (send_address_lem a (record b { input = behind_address; output = out }))
    ∙ >>=-done (wait_for (line_of (codes "OK AWAIT_DATA"))) _ _ (
        wait_for-text_of (codes "OK AWAIT_DATA") before_data behind_data
          (record b { output = out' }) (ground arith) (omega arith) i)
    ∙ >>=-done (send_data m len) _ _
        (send_data_lem m len (record b { input = behind_data; output = out' }))
    ∙ >>=-done (wait_for (line_of (codes "OK SENDING"))) _ _ (
        wait_for-text_of (codes "OK SENDING") before_sending behind_sending
          (record b { output = out'' }) (ground arith) (omega arith) j)
    ∙ >>=-done (wait_for (line_of (codes "OK IDLE"))) (λ _. pure true) _
        (wait_for-text_of (codes "OK IDLE") before_idle rest (record b { output = out'' })
          (ground arith) (omega arith) k)
