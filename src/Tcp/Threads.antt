-- ===== src/Tcp/Threads.antt =====
-- `TcpSocket`, `TcpConnection` and `ConnectionAcceptor` (Implementation/Tcp): a thread that accepts
-- clients, a thread for each of them, and the gateway's, which take turns. A pointer to a connection
-- is its place in `heap`, which holds every connection ever made.
use linux_mqtt_sn_gateway.Base.{
  ℕ, zero, suc, Bool, true, false, Option, none, some, List, [], ◌∷◌, ◌++◌, ◌==◌, if◌then◌else◌,
  replicate, take, length, get_elem?, overlay, bytes_eq,
}
use linux_mqtt_sn_gateway.Udp.Address.{SockAddr, bytes32}
use linux_mqtt_sn_gateway.Udp.Socket.{Event, connected, buflen}
use linux_mqtt_sn_gateway.Tcp.Descriptors.{Fd, invalid, fd, is_open, Sockets}
use linux_mqtt_sn_gateway.Tcp.Single.{is_written}
use linux_mqtt_sn_gateway.Tcp.Messages.{
  push, pop, empty, TcpMessage, new_message, set_payload, set_device_address,
}

-- `TcpConnection`
pub record TcpConnection : Type 0 where
  pub socketfd : Fd
  pub connection_address : List ℕ
  pub receive_buffer : List ℕ
  pub is_stopped : Bool

-- `TcpSocket`. `has_acceptor`: the thread of the `ConnectionAcceptor` runs. `has_handler`:
-- `mqttSnMessageHandler` is set; `events` are the calls of it.
pub record TcpSocket (k : Sockets) : Type 0 where
  pub tcp_socket : Fd
  pub tcp_socket_address : SockAddr
  pub broadcast_address : List ℕ
  pub has_handler : Bool
  pub receiver_queue : List TcpMessage
  pub connections : List ℕ
  pub heap : List TcpConnection
  pub has_acceptor : Bool
  pub net : k.Net
  pub events : List Event

-- What the memory of a new connection held: that of the local `address` of `setSocketAddress`, of the
-- flag `stopped` and of the buffer.
pub record Memory : Type 0 where
  pub local_address : List ℕ
  pub stopped_flag : Bool
  pub buffer_bytes : List ℕ

-- INADDR_ANY and `htons(PORT)`, with a PORT of its own
abbrev pub any_address : SockAddr
any_address = record { s_addr = 0; sin_port = 3879 }

-- `setSocketAddress`: `memcpy` of the IP address; `memcmp` leaves the bytes of the port as they were.
unfoldable pub socket_address : List ℕ → SockAddr → List ℕ
socket_address local_bytes addr = overlay local_bytes (bytes32 addr.s_addr)

unfoldable pub put_elem {ℓ} : {A : Type ℓ} → ℕ → A → List A → List A
put_elem i a [] = []
put_elem zero a (x ∷ xs) = a ∷ xs
put_elem (suc i) a (x ∷ xs) = x ∷ put_elem i a xs

-- `receive_buffer[0]`
abbrev pub first_byte : List ℕ → ℕ
first_byte [] = 0
first_byte (b ∷ bs) = b

-- The connection of an element of the list, if its address is equal by `memcmp`, or the other.
abbrev pub peer_or : List ℕ → Option TcpConnection → Option TcpConnection → Option TcpConnection
peer_or destination none rest = rest
peer_or destination (some c) rest =
    if bytes_eq destination c.connection_address then some c else rest

-- The loop of `send` over the connections.
unfoldable pub find_peer : List ℕ → List TcpConnection → List ℕ → Option TcpConnection
find_peer destination heap [] = none
find_peer destination heap (p ∷ ps) =
    peer_or destination (get_elem? heap p) (find_peer destination heap ps)

unfoldable pub contains : ℕ → List ℕ → Bool
contains p [] = false
contains p (q ∷ qs) = if p == q then true else contains p qs

-- The message made of the buffer.
abbrev pub message_of : ℕ → TcpConnection → ℕ → TcpMessage
message_of size c read_length =
    set_payload (take read_length c.receive_buffer)
      (set_device_address c.connection_address (new_message size))

module _ {k : Sockets} where
  -- `start_loop` of the acceptor and what precedes it
  abbrev pub listening : TcpSocket k → Bool × TcpSocket k
  listening s = (true, record s { net = k.listen_on s.tcp_socket s.net; has_acceptor = true })

  abbrev pub bound : Bool × k.Net → TcpSocket k → Bool × TcpSocket k
  bound (false, net) s = (false, record s { net = net })
  bound (true, net) s = listening (record s { net = net })

  abbrev pub reused : Bool × k.Net → TcpSocket k → Bool × TcpSocket k
  reused (false, net) s = (false, record s { net = net })
  reused (true, net) s =
      bound (k.bind_to s.tcp_socket any_address net)
        (record s { tcp_socket_address = any_address; net = net })

  abbrev pub opened : Fd × k.Net → TcpSocket k → Bool × TcpSocket k
  opened (invalid, net) s = (false, record s { tcp_socket = invalid; net = net })
  opened (fd n, net) s =
      reused (k.reuse_address (fd n) net) (record s { tcp_socket = fd n; net = net })

  -- `initTcpSocket`
  unfoldable pub init_tcp_socket : TcpSocket k → Bool × TcpSocket k
  init_tcp_socket s = opened (k.socket s.net) s

  abbrev pub begun : ℕ → Bool × TcpSocket k → Bool × TcpSocket k
  begun size (false, s) = (false, s)
  begun size (true, s) =
      let s' = record s { broadcast_address = replicate size 255 } in
      (
        is_open s.tcp_socket,
        if is_open s.tcp_socket then record s' { events = s.events ++ connected ∷ [] } else s',
      )

  -- `begin`
  unfoldable pub begin : ℕ → TcpSocket k → Bool × TcpSocket k
  begin size s = if s.has_handler then begun size (init_tcp_socket s) else (false, s)

  -- `addTcpConnection` of a new object, from `start_loop`
  abbrev pub add_tcp_connection : TcpConnection → TcpSocket k → TcpSocket k
  add_tcp_connection c s = record s {
    heap = s.heap ++ c ∷ [];
    connections = s.connections ++ length s.heap ∷ [];
  }

  abbrev pub accepted : Memory → Fd × SockAddr × k.Net → TcpSocket k → TcpSocket k
  accepted memory (invalid, _, net) s = record s { net = net }
  accepted memory (fd n, from, net) s =
      let c : TcpConnection = record {
        socketfd = fd n;
        connection_address = socket_address memory.local_address from;
        receive_buffer = memory.buffer_bytes;
        is_stopped = memory.stopped_flag;
      } in
      add_tcp_connection c (record s { net = net })

  -- The body of the acceptor's loop, where its pointer `cli_addr`, which nothing sets, points to
  -- memory that can be written.
  unfoldable pub accept_turn : Memory → TcpSocket k → TcpSocket k
  accept_turn memory s = accepted memory (k.accept s.tcp_socket s.net) s

  -- What follows `recv`, with `receive_message`.
  abbrev pub received : ℕ → ℕ → TcpConnection → Option (List ℕ) × k.Net → TcpSocket k → TcpSocket k
  received size p c (none, net) s = record s { net = net }
  received size p c (some bytes, net) s =
      let read = take buflen bytes in
      let c' = record c { receive_buffer = overlay c.receive_buffer read } in
      let s' = record s { net = net; heap = put_elem p c' s.heap } in
      if first_byte c'.receive_buffer == length read
      then record s' { receiver_queue = push (message_of size c' (length read)) s.receiver_queue }
      else s'

  -- The test of the loop, with the flag `stopped`.
  abbrev pub going : ℕ → ℕ → TcpConnection → Bool → TcpSocket k → TcpSocket k
  going size p c true s = s
  going size p c false s = received size p c (k.recv c.socketfd s.net) s

  abbrev pub turn_of : ℕ → ℕ → Option TcpConnection → TcpSocket k → TcpSocket k
  turn_of size p none s = s
  turn_of size p (some c) s = going size p c c.is_stopped s

  -- The body of the loop of the connection's thread, entered while it is not stopped.
  unfoldable pub receive_turn : ℕ → ℕ → TcpSocket k → TcpSocket k
  receive_turn size p s = turn_of size p (get_elem? s.heap p) s

  -- `stop_loop` of a connection, without the wait for its thread
  abbrev pub stopped : Option TcpConnection → ℕ → TcpSocket k → TcpSocket k
  stopped none p s = s
  stopped (some c) p s = record s { heap = put_elem p (record c { is_stopped = true }) s.heap }

  unfoldable pub stop_loop : ℕ → TcpSocket k → TcpSocket k
  stop_loop p s = stopped (get_elem? s.heap p) p s

  -- `removeTcpConnection`: it erases the element that its loop stands on, from where the loop cannot
  -- go on; none stands for what is undefined then.
  unfoldable pub remove_tcp_connection : ℕ → TcpSocket k → Option (TcpSocket k)
  remove_tcp_connection p s = if contains p s.connections then none else some s

  abbrev pub sent : ℕ → Option ℕ × k.Net → TcpSocket k → Bool × TcpSocket k
  sent payload_length (n, net) s = (is_written payload_length n, record s { net = net })

  -- `send_message` of the connection found
  abbrev pub send_message : List ℕ → Option TcpConnection → TcpSocket k → Bool × TcpSocket k
  send_message bytes none s = (false, s)
  send_message bytes (some c) s = sent (length bytes) (k.write c.socketfd bytes s.net) s

  -- `send`, with `bytes_len` the length of `bytes`
  unfoldable pub send : List ℕ → List ℕ → TcpSocket k → Bool × TcpSocket k
  send destination bytes s = send_message bytes (find_peer destination s.heap s.connections) s

  abbrev pub dropped : Option (TcpMessage × List TcpMessage) → TcpSocket k → TcpSocket k
  dropped none s = s
  dropped (some (m, rest)) s = record s { receiver_queue = rest }

  -- `loop`: a message is taken from the queue and deleted.
  unfoldable pub loop : TcpSocket k → Bool × TcpSocket k
  loop s = (true, if empty s.receiver_queue then s else dropped (pop s.receiver_queue) s)
