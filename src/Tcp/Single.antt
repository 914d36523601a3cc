-- ===== src/Tcp/Single.antt =====
-- `SingleTcpSocket` (Implementation/Tcp/SingleTcpSocket.{h,cpp}): one client at a time. `size` is
-- `sizeof(device_address)`.
use linux_mqtt_sn_gateway.Base.{
  ℕ, zero, suc, ◌-◌, Bool, true, false, Option, none, some, List, [], ◌∷◌, ◌++◌, ◌==◌,
  if◌then◌else◌, replicate, take, length, bytes_eq,
}
use linux_mqtt_sn_gateway.Udp.Address.{SockAddr, get_device_address}
use linux_mqtt_sn_gateway.Udp.Socket.{Event, connected, disconnected, buflen}
use linux_mqtt_sn_gateway.Tcp.Descriptors.{Fd, invalid, fd, is_open, is_positive, is_zero, Sockets}

-- `save_fd` is true where the field is not -1. `has_handler`: `mqttSnMessageHandler` is set;
-- `received` and `events` are the calls of it.
pub record SingleTcpSocket (k : Sockets) : Type 0 where
  pub tcp_socket : Fd
  pub tcp_socket_address : SockAddr
  pub save_fd : Bool
  pub connection_socket : Fd
  pub connection_socket_address : SockAddr
  pub broadcast_address : List ℕ
  pub has_handler : Bool
  pub net : k.Net
  pub received : List (List ℕ × List ℕ)
  pub events : List Event

-- INADDR_ANY and `htons(PORT)`
abbrev pub listening_address : SockAddr
listening_address = record { s_addr = 0; sin_port = 47138 }

-- The buffer that the handler gets: what `recv` stores in 255 cleared bytes.
abbrev pub received_buffer : List ℕ → List ℕ
received_buffer bytes = take buflen bytes ++ replicate (buflen - length bytes) 0

-- The comparison of the number that `write` returns with `bytes_len`.
abbrev pub is_written : ℕ → Option ℕ → Bool
is_written bytes_len none = false
is_written bytes_len (some n) = n == bytes_len

module _ {k : Sockets} where
  abbrev pub notify : Event → SingleTcpSocket k → SingleTcpSocket k
  notify e s = record s { events = s.events ++ e ∷ [] }

  abbrev pub listening : SingleTcpSocket k → Bool × SingleTcpSocket k
  listening s =
      (s.save_fd, record s { net = k.listen_on s.tcp_socket s.net; connection_socket = fd 0 })

  abbrev pub bound : Bool × k.Net → SingleTcpSocket k → Bool × SingleTcpSocket k
  bound (false, net) s = (false, record s { net = net })
  bound (true, net) s = listening (record s { net = net })

  abbrev pub reused : Bool × k.Net → SingleTcpSocket k → Bool × SingleTcpSocket k
  reused (false, net) s = (false, record s { net = net })
  reused (true, net) s =
      bound (k.bind_to s.tcp_socket s.tcp_socket_address net) (record s { net = net })

  -- The test `!(tcp_socket = socket(...)) > 0` holds for the descriptor 0 alone.
  abbrev pub opened : Fd × k.Net → SingleTcpSocket k → Bool × SingleTcpSocket k
  opened (f, net) s =
      let s' = record s { tcp_socket = f; net = net } in
      let s'' = record s' { tcp_socket_address = listening_address } in
      if is_zero f then (false, s') else reused (k.reuse_address f net) s''

  -- `initTcpSocket`
  unfoldable pub init_tcp_socket : SingleTcpSocket k → Bool × SingleTcpSocket k
  init_tcp_socket s = opened (k.socket s.net) s

  abbrev pub begun : ℕ → Bool × SingleTcpSocket k → Bool × SingleTcpSocket k
  begun size (false, s) = (false, s)
  begun size (true, s) =
      let s' = record s { broadcast_address = replicate size 255 } in
      (is_open s.tcp_socket, if is_open s.tcp_socket then notify connected s' else s')

  -- `begin`
  unfoldable pub begin : ℕ → SingleTcpSocket k → Bool × SingleTcpSocket k
  begin size s = if s.has_handler then begun size (init_tcp_socket s) else (false, s)

  abbrev pub written : ℕ → Option ℕ × k.Net → SingleTcpSocket k → Bool × SingleTcpSocket k
  written bytes_len (n, net) s = (is_written bytes_len n, record s { net = net })

  -- `send`, with `bytes_len` the length of `bytes`
  unfoldable pub send : List ℕ → List ℕ → SingleTcpSocket k → Bool × SingleTcpSocket k
  send destination bytes s =
      if bytes_eq destination s.broadcast_address
      then (true, s)
      else if is_zero s.connection_socket
      then (true, s)
      else written (length bytes) (k.write s.connection_socket bytes s.net) s

  abbrev pub flagged : Fd → Bool × k.Net → SingleTcpSocket k → SingleTcpSocket k
  flagged f (ok, net) s = record s { save_fd = ok; net = k.set_nonblocking f net }

  -- The two calls of `fcntl`, with -1 kept by `save_fd |= O_NONBLOCK`.
  unfoldable pub make_nonblocking : Fd → SingleTcpSocket k → SingleTcpSocket k
  make_nonblocking f s = flagged f (k.get_flags f s.net) s

  abbrev pub accepted : Fd × SockAddr × k.Net → SingleTcpSocket k → SingleTcpSocket k
  accepted (invalid, _, net) s = record s { connection_socket = invalid; net = net }
  accepted (f, from, net) s = record s {
    connection_socket = f;
    connection_socket_address = from;
    net = net;
  }

  -- `receiveData` with the address that the code gives it, that of the listening socket.
  abbrev pub hand_over : ℕ → Option (List ℕ) × k.Net → SingleTcpSocket k → SingleTcpSocket k
  hand_over size (some (b ∷ bs), net) s = record s {
    net = net;
    received =
        s.received ++ (get_device_address size s.tcp_socket_address, received_buffer (b ∷ bs)) ∷ [];
  }
  hand_over size (_, net) s = record s { net = net }

  -- The branch of `loop` without a client.
  unfoldable pub poll_client : SingleTcpSocket k → SingleTcpSocket k
  poll_client s =
      let s' = make_nonblocking s.tcp_socket s in accepted (k.accept s'.tcp_socket s'.net) s'

  -- The branch of `loop` with a client.
  unfoldable pub poll_data : ℕ → SingleTcpSocket k → SingleTcpSocket k
  poll_data size s =
      let s' = make_nonblocking s.connection_socket s in
      hand_over size (k.recv s'.connection_socket s'.net) s'

  abbrev pub again : Bool × SingleTcpSocket k → Bool × SingleTcpSocket k
  again (false, s) = (false, s)
  again (true, s) = (true, notify connected s)

  -- `loop`
  unfoldable pub loop : ℕ → SingleTcpSocket k → Bool × SingleTcpSocket k
  loop size s =
      if is_open s.tcp_socket
      then (true, if is_positive s.connection_socket then poll_data size s else poll_client s)
      else again (begin size (notify disconnected s))

  -- `n` calls of `loop`, as the gateway makes them.
  unfoldable pub loops : ℕ → ℕ → SingleTcpSocket k → SingleTcpSocket k
  loops size zero s = s
  loops size (suc n) s = loops size n (loop size s).1
