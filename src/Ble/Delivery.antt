-- ===== src/Ble/Delivery.antt =====
-- Messages of a device on their way through BLEConnection.cpp and BLESocket.cpp to the handler, and
-- replies on their way back.
use linux_mqtt_sn_gateway.Base.{
  ℕ, zero, suc, ◌≡◌, ◌≢◌, ◌∙◌, refl, sym, ap, true, some, List, [], ◌∷◌, ◌++◌, ltb, if◌then◌else◌,
  length, replicate, overlay, IsByte, All, append_assoc, append-nil, Bool-cases, inl, inr, arith,
}
use linux_mqtt_sn_gateway.Ble.Mac.{get_mac_from_device_address, get_device_address_from_mac}
use linux_mqtt_sn_gateway.Ble.Addresses.{get_device_address_from_mac-get_mac}
use linux_mqtt_sn_gateway.Ble.Socket.{
  BleMessage, BleSocket, loop, add_ble_connection, remove_ble_connection, add_ble_message,
}
use linux_mqtt_sn_gateway.Ble.Connection.{
  BleDevice, Session, call, read_message, take_messages, first_talking, choose_nus, chosen, single,
  leave, join, with_mac, with_nus, with_service, with_connection, handle_connection,
}

-- The messages of a connection that are not empty.
abbrev pub wrapped : List ℕ → List (List ℕ) → List BleMessage
wrapped mac [] = []
wrapped mac ([] ∷ ms) = wrapped mac ms
wrapped mac ((b ∷ bs) ∷ ms) = record { mac = mac; data_bytes = b ∷ bs } ∷ wrapped mac ms

-- The calls of the handler for messages of one address: those of at most 255 bytes, padded.
abbrev pub handed : List ℕ → List BleMessage → List (List ℕ × List ℕ)
handed address [] = []
handed address (m ∷ ms) =
    let rest = handed address ms in
    if ltb 255 (length m.data_bytes)
    then rest
    else (address, overlay (replicate 255 0) m.data_bytes) ∷ rest

-- `n` calls of `loop`.
unfoldable pub loops : List ℕ → ℕ → BleSocket → BleSocket
loops bytes zero s = s
loops bytes (suc n) s = loops bytes n (loop bytes s).1

take_messages-wrapped :
    (mac : List ℕ) (ms : List (List ℕ)) (s : BleSocket)
    → take_messages mac ms s
      ≡ record s { ble_message_queue = s.ble_message_queue ++ wrapped mac ms }
unfolding take_messages add_ble_message
take_messages-wrapped mac [] s =
    ap (λ q. record s { ble_message_queue = q }) (sym (append-nil s.ble_message_queue))
take_messages-wrapped mac ([] ∷ ms) s = take_messages-wrapped mac ms s
take_messages-wrapped mac ((b ∷ bs) ∷ ms) s =
    let m : BleMessage = record { mac = mac; data_bytes = b ∷ bs } in
    take_messages-wrapped mac ms (record s { ble_message_queue = s.ble_message_queue ++ m ∷ [] })
    ∙ ap (λ q. record s { ble_message_queue = q })
        (append_assoc s.ble_message_queue (m ∷ []) (wrapped mac ms))

-- A message at the front of the queue, whose text the address is read from.
loop-front :
    (bytes address : List ℕ) (m : BleMessage) (ms : List BleMessage) (s : BleSocket)
    → s.ble_message_queue ≡ m ∷ ms
    → get_device_address_from_mac bytes m.mac ≡ some address
    → (loop bytes s).1
      ≡ record s { ble_message_queue = ms; received = s.received ++ handed address (m ∷ []) }
unfolding loop
loop-front bytes address m ms s q e = elim (Bool-cases (ltb 255 (length m.data_bytes))) [
  | inl t ↦
      rw (q, t)
        (ap (λ r. record s { ble_message_queue = ms; received = r }) (sym (append-nil s.received)))
  | inr f ↦ rw (q, f, e) refl
]

handed-next :
    (address : List ℕ) (m : BleMessage) (ms : List BleMessage)
    → handed address (m ∷ []) ++ handed address ms ≡ handed address (m ∷ ms)
handed-next address m ms = ground arith

-- As many calls of `loop` as there are messages hand over those that fit, in order.
loops-queue :
    (bytes address mac : List ℕ) (ms rest : List BleMessage) (s : BleSocket)
    → s.ble_message_queue ≡ ms ++ rest
    → All (λ m. m.mac ≡ mac) ms
    → get_device_address_from_mac bytes mac ≡ some address
    → loops bytes (length ms) s
      ≡ record s { ble_message_queue = rest; received = s.received ++ handed address ms }
unfolding loops
loops-queue bytes address mac [] rest s q h e =
    rw⁻¹ q (ap (λ r. record s { received = r }) (sym (append-nil s.received)))
loops-queue bytes address mac (m ∷ ms) rest s q h e =
    let s' = record s {
      ble_message_queue = ms ++ rest;
      received = s.received ++ handed address (m ∷ []);
    } in
    ap (loops bytes (length ms))
      (loop-front bytes address m (ms ++ rest) s q (ap (get_device_address_from_mac bytes) h.0 ∙ e))
    ∙ loops-queue bytes address mac ms rest s' refl h.1 e
    ∙ ap (λ r. record s { ble_message_queue = rest; received = r })
        (append_assoc s.received (handed address (m ∷ [])) (handed address ms)
          ∙ ap (λ l. s.received ++ l) (handed-next address m ms))

wrapped-mac : (mac : List ℕ) (ms : List (List ℕ)) → All (λ m. m.mac ≡ mac) (wrapped mac ms)
wrapped-mac mac [] = tt
wrapped-mac mac ([] ∷ ms) = wrapped-mac mac ms
wrapped-mac mac ((_ ∷ _) ∷ ms) = (refl, wrapped-mac mac ms)

-- What the end of a session keeps of the socket.
abbrev Kept : BleSocket → BleSocket → Type 0
Kept s t = (t.ble_message_queue ≡ s.ble_message_queue) × (t.received ≡ s.received)

leave-Kept : (i : ℕ) (d : BleDevice) (w : Session) → Kept w.socket (leave i d w).socket
unfolding remove_ble_connection
leave-Kept i d w = elim (Bool-cases d.nus_disconnects) [
  | inr e ↦ rw e (refl, refl)
  | inl e ↦ elim (Bool-cases d.device_disconnects) [
    | inr f ↦ rw (e, f) (refl, refl)
    | inl f ↦ rw (e, f) (refl, refl)
  ]
]

-- The socket behind a session whose messages went to the queue.
with_mac-socket :
    (now c i : ℕ) (mac : List ℕ) (d : BleDevice) (w : Session)
    → mac ≢ []
    → let t = (with_mac now c i mac d w).socket in
      (t.ble_message_queue ≡ w.socket.ble_message_queue ++ wrapped d.device_mac d.polled)
      × (t.received ≡ w.socket.received)
unfolding join add_ble_connection
with_mac-socket now c i [] d w ne = absurd (ne refl)
with_mac-socket now c i (_ ∷ _) d w ne =
    let joined = join now c i d w in
    let served = record joined { socket = take_messages d.device_mac d.polled joined.socket } in
    let kept = leave-Kept i d served in
    let put = take_messages-wrapped d.device_mac d.polled joined.socket in
    (kept.0 ∙ ap (λ s. s.ble_message_queue) put, kept.1 ∙ ap (λ s. s.received) put)

-- The device answers, has several NUS connections and number `i` is the first with a message.
pub record IsTalking (d : BleDevice) (i : ℕ) : Type 0 where
  pub answers : d.connects ≡ true
  pub serves : d.has_nus ≡ true
  pub several : d.has_multiple_nus ≡ true
  pub talks : first_talking 0 d.last_messages ≡ some i

handle_connection-talking :
    (now c i : ℕ) (d : BleDevice) (w : Session)
    → IsTalking d i
    → handle_connection now c d w ≡ with_mac now c i d.device_mac d (call (read_message i) w)
unfolding handle_connection choose_nus
handle_connection-talking now c i d w h =
    ap (λ b. with_connection now c d b w) h.answers
    ∙ ap (λ b. with_service now c d b w) h.serves
    ∙ ap
        (λ b.
          with_nus now c d
            (if b then chosen (first_talking 0 d.last_messages) w else single d.last_messages w))
        h.several
    ∙ ap (λ o. with_nus now c d (chosen o w)) h.talks

get_mac-nonempty :
    (address : List ℕ) → length address ≡ 6 → get_mac_from_device_address address ≢ []
unfolding get_mac_from_device_address
get_mac-nonempty [] e n = omega arith
get_mac-nonempty (a ∷ []) e n = omega arith
get_mac-nonempty (a ∷ b ∷ bs) e n = absurd cc

-- The messages that a talking device sends during a session come out of the queue in their order,
-- one for each call of `loop`, and are handed over under the device's address, padded with zeros to
-- 255 bytes. Empty ones are not queued, and longer ones dropped. The queue is empty before, the
-- address of the device has 6 bytes, and `bytes` is what the uninitialised locals hold.
pub loops-handle_connection :
    (now c i : ℕ) (bytes address : List ℕ) (d : BleDevice) (w : Session)
    → IsTalking d i
    → length bytes ≡ 6
    → length address ≡ 6
    → All IsByte address
    → d.device_mac ≡ get_mac_from_device_address address
    → w.socket.ble_message_queue ≡ []
    → let queued = wrapped d.device_mac d.polled in
      let t = loops bytes (length queued) (handle_connection now c d w).socket in
      (t.received ≡ w.socket.received ++ handed address queued) × (t.ble_message_queue ≡ [])
loops-handle_connection now c i bytes address d w h lb la all e q =
    let w' = call (read_message i) w in
    let queued = wrapped d.device_mac d.polled in
    let s = (with_mac now c i d.device_mac d w').socket in
    let turn = handle_connection-talking now c i d w h in
    let ended =
      with_mac-socket now c i d.device_mac d w' (λ n. get_mac-nonempty address la (sym e ∙ n)) in
    let out =
      loops-queue bytes address d.device_mac queued [] s
        (ended.0 ∙ ap (λ l. l ++ queued) q ∙ sym (append-nil queued))
        (wrapped-mac d.device_mac d.polled)
        (ap (get_device_address_from_mac bytes) e
          ∙ get_device_address_from_mac-get_mac bytes address lb la all) in
    (
      ap (λ x. (loops bytes (length queued) x.socket).received) turn
          ∙ ap (λ x. x.received) out
          ∙ ap (λ r. r ++ handed address queued) ended.1,
      ap (λ x. (loops bytes (length queued) x.socket).ble_message_queue) turn
          ∙ ap (λ x. x.ble_message_queue) out,
    )
