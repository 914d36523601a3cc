-- ===== src/Tcp/Interleavings.antt =====
-- The threads of TcpSocket.cpp in any order: what their turns do to the queue of messages.
use linux_mqtt_sn_gateway.Base.{
  ℕ, ◌≡◌, ◌∙◌, refl, sym, ap, Bool, true, false, Option, none, some, List, [], ◌∷◌, ◌++◌, ◌==◌,
  if◌then◌else◌, length, take, get_elem?, overlay, append_assoc, append-nil, Bool-cases, inl, inr,
}
use linux_mqtt_sn_gateway.Udp.Address.{SockAddr}
use linux_mqtt_sn_gateway.Udp.Socket.{buflen}
use linux_mqtt_sn_gateway.Tcp.Descriptors.{Fd, invalid, fd, Sockets}
use linux_mqtt_sn_gateway.Tcp.Messages.{TcpMessage, pop, empty}
use linux_mqtt_sn_gateway.Tcp.Threads.{
  TcpConnection, TcpSocket, Memory, message_of, first_byte, accept_turn, accepted, received, going,
  turn_of, receive_turn, stop_loop, stopped, send_message, send, dropped, loop, find_peer,
}

-- The message that a connection's `recv` makes, if the length in its first byte is the right one.
abbrev pub arrival : ℕ → TcpConnection → Option (List ℕ) → List TcpMessage
arrival size c none = []
arrival size c (some bytes) =
    let read = take buflen bytes in
    let c' : TcpConnection = record c { receive_buffer = overlay c.receive_buffer read } in
    if first_byte c'.receive_buffer == length read
    then message_of size c' (length read) ∷ []
    else []

module _ {k : Sockets} where
  -- A turn of a thread. `stop` is the gateway's call of `stop_loop` for one connection.
  pub data Step (size : ℕ) (s : TcpSocket k) : TcpSocket k → Type 0 where
    accept : (memory : Memory) → Step size s (accept_turn memory s)
    receive : (p : ℕ) → Step size s (receive_turn size p s)
    stop : (p : ℕ) → Step size s (stop_loop p s)
    send_to : (destination bytes : List ℕ) → Step size s (send destination bytes s).1
    poll : Step size s (loop s).1

  -- The messages that a turn takes from the front of the queue.
  abbrev pub taken : {size : ℕ} {s t : TcpSocket k} → Step size s t → List TcpMessage
  taken {s} poll = take 1 s.receiver_queue
  taken _ = []

  abbrev pub arrival_going : ℕ → TcpConnection → Bool → TcpSocket k → List TcpMessage
  arrival_going size c true s = []
  arrival_going size c false s = arrival size c (k.recv c.socketfd s.net).0

  abbrev pub arrival_of : ℕ → Option TcpConnection → TcpSocket k → List TcpMessage
  arrival_of size none s = []
  arrival_of size (some c) s = arrival_going size c c.is_stopped s

  -- The messages that a turn puts behind the queue.
  abbrev pub arrived : {size : ℕ} {s t : TcpSocket k} → Step size s t → List TcpMessage
  arrived {size} {s} (receive p) = arrival_of size (get_elem? s.heap p) s
  arrived _ = []

  -- Turns one after the other, with all that arrived and all that was taken.
  pub data Run (size : ℕ) (s : TcpSocket k)
      : List TcpMessage → List TcpMessage → TcpSocket k → Type 0 where
    start : Run size s [] [] s
    later :
        {ms ns : List TcpMessage} {t u : TcpSocket k}
        → Run size s ms ns t
        → (x : Step size t u) → Run size s (ms ++ arrived x) (ns ++ taken x) u

  received-queue :
      (size p : ℕ) (c : TcpConnection) (r : Option (List ℕ) × k.Net) (s : TcpSocket k)
      → (received size p c r s).receiver_queue ≡ s.receiver_queue ++ arrival size c r.0
  received-queue size p c (none, net) s = sym (append-nil s.receiver_queue)
  received-queue size p c (some bytes, net) s =
      let read = take buflen bytes in
      elim (Bool-cases (first_byte (overlay c.receive_buffer read) == length read)) [
        | inl t ↦ rw t refl
        | inr f ↦ rw f (sym (append-nil s.receiver_queue))
      ]

  going-queue :
      (size p : ℕ) (c : TcpConnection) (b : Bool) (s : TcpSocket k)
      → (going size p c b s).receiver_queue ≡ s.receiver_queue ++ arrival_going size c b s
  going-queue size p c true s = sym (append-nil s.receiver_queue)
  going-queue size p c false s = received-queue size p c (k.recv c.socketfd s.net) s

  turn_of-queue :
      (size p : ℕ) (o : Option TcpConnection) (s : TcpSocket k)
      → (turn_of size p o s).receiver_queue ≡ s.receiver_queue ++ arrival_of size o s
  turn_of-queue size p none s = sym (append-nil s.receiver_queue)
  turn_of-queue size p (some c) s = going-queue size p c c.is_stopped s

  accepted-queue :
      (memory : Memory) (f : Fd) (from : SockAddr) (net : k.Net) (s : TcpSocket k)
      → (accepted memory (f, from, net) s).receiver_queue ≡ s.receiver_queue
  accepted-queue memory invalid from net s = refl
  accepted-queue memory (fd n) from net s = refl

  stopped-queue :
      (o : Option TcpConnection) (p : ℕ) (s : TcpSocket k)
      → (stopped o p s).receiver_queue ≡ s.receiver_queue
  stopped-queue none p s = refl
  stopped-queue (some c) p s = refl

  send_message-queue :
      (bytes : List ℕ) (o : Option TcpConnection) (s : TcpSocket k)
      → (send_message bytes o s).1.receiver_queue ≡ s.receiver_queue
  send_message-queue bytes none s = refl
  send_message-queue bytes (some c) s = refl

  loop-queue :
      (s : TcpSocket k) (queue : List TcpMessage)
      → s.receiver_queue ≡ queue
      → take 1 queue ++ (loop s).1.receiver_queue ≡ queue
  unfolding loop
  loop-queue s [] e = ap (λ q. (if empty q then s else dropped (pop q) s).receiver_queue) e ∙ e
  loop-queue s (m ∷ ms) e =
      ap (λ q. m ∷ (if empty q then s else dropped (pop q) s).receiver_queue) e

  Step-queue :
      {size : ℕ} {s t : TcpSocket k} (x : Step size s t)
      → s.receiver_queue ++ arrived x ≡ taken x ++ t.receiver_queue
  unfolding accept_turn receive_turn stop_loop send
  Step-queue {s} (accept memory) =
      let r = k.accept s.tcp_socket s.net in
      append-nil s.receiver_queue ∙ sym (accepted-queue memory r.0 r.1 r.2 s)
  Step-queue {size} {s} (receive p) = sym (turn_of-queue size p (get_elem? s.heap p) s)
  Step-queue {s} (stop p) =
      append-nil s.receiver_queue ∙ sym (stopped-queue (get_elem? s.heap p) p s)
  Step-queue {s} (send_to destination bytes) =
      append-nil s.receiver_queue
      ∙ sym (send_message-queue bytes (find_peer destination s.heap s.connections) s)
  Step-queue {s} poll = append-nil s.receiver_queue ∙ sym (loop-queue s s.receiver_queue refl)

  -- Whatever turns the threads take, the messages come out of the queue in the order they went in,
  -- none lost and none twice: those that were there and those that arrived are those that `loop` has
  -- taken and those that are there now.
  pub Run-fifo :
      {size : ℕ} {s t : TcpSocket k} {ms ns : List TcpMessage}
      → Run size s ms ns t
      → s.receiver_queue ++ ms ≡ ns ++ t.receiver_queue
  Run-fifo {s} start = append-nil s.receiver_queue
  Run-fifo {s} (later {ms} {ns} {t} {u} r x) =
      sym (append_assoc s.receiver_queue ms (arrived x))
      ∙ ap (λ l. l ++ arrived x) (Run-fifo r)
      ∙ append_assoc ns t.receiver_queue (arrived x)
      ∙ ap (λ l. ns ++ l) (Step-queue x)
      ∙ sym (append_assoc ns (taken x) u.receiver_queue)
