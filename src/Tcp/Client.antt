-- ===== src/Tcp/Client.antt =====
-- The one client of SingleTcpSocket.cpp: its messages, the replies to them, and what happens behind.
use linux_mqtt_sn_gateway.Base.{
  ℕ, zero, suc, ◌<◌, ◌≡◌, ◌∙◌, refl, sym, ap, true, false, Option, none, some, List, [], ◌∷◌, ◌++◌,
  length, append_assoc, append-nil, replicate, overlay, bytes_eq, arith,
}
use linux_mqtt_sn_gateway.Udp.Address.{SockAddr, six_and, get_device_address}
use linux_mqtt_sn_gateway.Tcp.Descriptors.{Fd, fd, is_open, is_positive, Sockets}
use linux_mqtt_sn_gateway.Tcp.Single.{
  SingleTcpSocket, listening_address, received_buffer, send, loop, loops, poll_client, poll_data,
  make_nonblocking, hand_over, accepted, is_written,
}

module _ (k : Sockets) where
  -- The system behind the two calls of `fcntl`.
  abbrev pub flagged_net : Fd → k.Net → k.Net
  flagged_net f net = k.set_nonblocking f (k.get_flags f net).1

  -- Successive calls of `recv` give the messages, none of them empty.
  abbrev pub Incoming : Fd → List (List ℕ) → k.Net → k.Net → Type 0
  Incoming f [] net net' = net ≡ net'
  Incoming f (m ∷ ms) net net' =
      (between : k.Net) × (k.recv f (flagged_net f net) ≡ (some m, between))
      × (0 < length m)
      × Incoming f ms between net'

-- The handler's calls for the messages of a client.
abbrev pub handed : ℕ → SockAddr → List (List ℕ) → List (List ℕ × List ℕ)
handed size addr [] = []
handed size addr (m ∷ ms) = (get_device_address size addr, received_buffer m) ∷ handed size addr ms

module _ {k : Sockets} where
  poll_data_lem :
      (size : ℕ) (s : SingleTcpSocket k) (m : List ℕ) (net : k.Net)
      → k.recv s.connection_socket (flagged_net k s.connection_socket s.net) ≡ (some m, net)
      → 0 < length m
      → poll_data size s ≡ record s {
        save_fd = (k.get_flags s.connection_socket s.net).0;
        net = net;
        received =
            s.received ++ (get_device_address size s.tcp_socket_address, received_buffer m) ∷ [];
      }
  unfolding poll_data make_nonblocking
  poll_data_lem size s [] net e h = absurd (omega arith)
  poll_data_lem size s (b ∷ bs) net e h =
      ap (λ r. hand_over size r (make_nonblocking s.connection_socket s)) e

  loop-client :
      (size : ℕ) (s : SingleTcpSocket k)
      → is_open s.tcp_socket ≡ true
      → is_positive s.connection_socket ≡ true
      → loop size s ≡ (true, poll_data size s)
  unfolding loop
  loop-client size s o p = rw (o, p)

  -- The messages of the connected client are handed over in order, each call of `loop` one, and the
  -- client stays.
  loops-Incoming :
      (size : ℕ) (ms : List (List ℕ)) (s : SingleTcpSocket k) (net : k.Net)
      → is_open s.tcp_socket ≡ true
      → is_positive s.connection_socket ≡ true
      → Incoming k s.connection_socket ms s.net net
      → ((loops size (length ms) s).received ≡ s.received ++ handed size s.tcp_socket_address ms)
        × ((loops size (length ms) s).net ≡ net)
        × ((loops size (length ms) s).connection_socket ≡ s.connection_socket)
  unfolding loops
  loops-Incoming size [] s net o p e = (sym (append-nil s.received), e, refl)
  loops-Incoming size (m ∷ ms) s net o p (between, e, h, rest) =
      let one : List ℕ × List ℕ =
        (get_device_address size s.tcp_socket_address, received_buffer m) in
      let s' : SingleTcpSocket k = record s {
        save_fd = (k.get_flags s.connection_socket s.net).0;
        net = between;
        received = s.received ++ one ∷ [];
      } in
      let turn = ap (λ r. r.1) (loop-client size s o p) ∙ poll_data_lem size s m between e h in
      let ih = loops-Incoming size ms s' net o p rest in
      (
        ap (λ t. (loops size (length ms) t).received) turn
            ∙ ih.0
            ∙ append_assoc _ (one ∷ []) (handed size s.tcp_socket_address ms),
        ap (λ t. (loops size (length ms) t).net) turn ∙ ih.1,
        ap (λ t. (loops size (length ms) t).connection_socket) turn ∙ ih.2,
      )

  loop-no_client :
      (size : ℕ) (s : SingleTcpSocket k) (c : ℕ) (from : SockAddr) (net : k.Net)
      → is_open s.tcp_socket ≡ true
      → is_positive s.connection_socket ≡ false
      → k.accept s.tcp_socket (flagged_net k s.tcp_socket s.net) ≡ (fd (suc c), from, net)
      → loop size s ≡ (
        true,
        record s {
          save_fd = (k.get_flags s.tcp_socket s.net).0;
          connection_socket = fd (suc c);
          connection_socket_address = from;
          net = net;
        },
      )
  unfolding loop poll_client make_nonblocking
  loop-no_client size s c from net o p e =
      rw (o, p) (ap (λ r. (true, accepted r (make_nonblocking s.tcp_socket s))) e)

  -- A client that the system accepts is served from then on: each further call of `loop` hands over
  -- its next message, padded with zeros to 255 bytes, in the order they come, under the address of the
  -- listening socket, and the client stays connected. The listening socket is open, no client is
  -- connected, and `recv` gives the messages one after the other, none empty.
  pub loops-accept :
      (size : ℕ) (s : SingleTcpSocket k) (c : ℕ) (from : SockAddr) (net net' : k.Net)
      (ms : List (List ℕ))
      → is_open s.tcp_socket ≡ true
      → is_positive s.connection_socket ≡ false
      → k.accept s.tcp_socket (flagged_net k s.tcp_socket s.net) ≡ (fd (suc c), from, net)
      → Incoming k (fd (suc c)) ms net net'
      → ((loops size (suc (length ms)) s).received
          ≡ s.received ++ handed size s.tcp_socket_address ms)
        × ((loops size (suc (length ms)) s).net ≡ net')
        × ((loops size (suc (length ms)) s).connection_socket ≡ fd (suc c))
  unfolding loops
  loops-accept size s c from net net' ms o p e incoming =
      let s' : SingleTcpSocket k = record s {
        save_fd = (k.get_flags s.tcp_socket s.net).0;
        connection_socket = fd (suc c);
        connection_socket_address = from;
        net = net;
      } in
      let turn = ap (λ r. r.1) (loop-no_client size s c from net o p e) in
      let ih = loops-Incoming size ms s' net' o refl incoming in
      (
        ap (λ t. (loops size (length ms) t).received) turn ∙ ih.0,
        ap (λ t. (loops size (length ms) t).net) turn ∙ ih.1,
        ap (λ t. (loops size (length ms) t).connection_socket) turn ∙ ih.2,
      )

  -- What one call of `loop` keeps while a client is connected.
  abbrev Kept : SingleTcpSocket k → SingleTcpSocket k → Type 0
  Kept s t =
      (t.connection_socket ≡ s.connection_socket)
      × (t.tcp_socket ≡ s.tcp_socket)
      × (t.events ≡ s.events)

  hand_over-Kept :
      (size : ℕ) (r : Option (List ℕ) × k.Net) (s : SingleTcpSocket k) → Kept s (hand_over size r s)
  hand_over-Kept size (none, net) s = (refl, refl, refl)
  hand_over-Kept size (some [], net) s = (refl, refl, refl)
  hand_over-Kept size (some (b ∷ bs), net) s = (refl, refl, refl)

  poll_data-Kept : (size : ℕ) (s : SingleTcpSocket k) → Kept s (poll_data size s)
  unfolding poll_data make_nonblocking
  poll_data-Kept size s =
      let s' = make_nonblocking s.connection_socket s in
      hand_over-Kept size (k.recv s'.connection_socket s'.net) s'

  loop-Kept :
      (size : ℕ) (s : SingleTcpSocket k)
      → is_open s.tcp_socket ≡ true
      → is_positive s.connection_socket ≡ true
      → Kept s (loop size s).1
  loop-Kept size s o p = rw (loop-client size s o p) (poll_data-Kept size s)

  -- Once a client is connected it holds the socket for ever: whatever `recv` gives, the end of the
  -- connection and errors included, no number of calls of `loop` changes connection_socket or
  -- tcp_socket or notifies the handler.
  pub client_kept :
      (size n : ℕ) (s : SingleTcpSocket k)
      → is_open s.tcp_socket ≡ true
      → is_positive s.connection_socket ≡ true
      → ((loops size n s).connection_socket ≡ s.connection_socket)
        × ((loops size n s).tcp_socket ≡ s.tcp_socket)
        × ((loops size n s).events ≡ s.events)
  unfolding loops
  client_kept size zero s o p = (refl, refl, refl)
  client_kept size (suc n) s o p =
      let h = loop-Kept size s o p in
      let ih = client_kept size n (loop size s).1 (ap is_open h.1 ∙ o) (ap is_positive h.0 ∙ p) in
      (ih.0 ∙ h.0, ih.1 ∙ h.1, ih.2 ∙ h.2)

  -- A message that `recv` gives from a connected client of a listening socket, and the reply that
  -- `send` gets with the address handed over: the reply is written to that client, and the result is
  -- whether all of it was written. A device_address has at least 6 bytes, and `begin` has filled the
  -- two addresses.
  pub send-loop :
      (n c : ℕ) (s : SingleTcpSocket k) (m reply : List ℕ) (net net' : k.Net) (written : Option ℕ)
      → is_open s.tcp_socket ≡ true
      → s.connection_socket ≡ fd (suc c)
      → s.tcp_socket_address ≡ listening_address
      → s.broadcast_address ≡ replicate (six_and n) 255
      → k.recv (fd (suc c)) (flagged_net k (fd (suc c)) s.net) ≡ (some m, net)
      → 0 < length m
      → k.write (fd (suc c)) reply net ≡ (written, net')
      → let address = get_device_address (six_and n) listening_address in
        ((loop (six_and n) s).1.received ≡ s.received ++ (address, received_buffer m) ∷ [])
        × ((send address reply (loop (six_and n) s).1).0 ≡ is_written (length reply) written)
        × ((send address reply (loop (six_and n) s).1).1.net ≡ net')
  unfolding send get_device_address overlay bytes_eq
  send-loop n c s m reply net net' written o p a b r h w =
      let turn =
        loop-client (six_and n) s o (ap is_positive p)
        ∙ ap (λ t. (true, t)) (poll_data_lem (six_and n) s m net (rw p r) h) in
      (rw (turn, a) refl, rw (turn, p, a, b, w) refl, rw (turn, p, a, b, w) refl)
