-- ===== src/Udp/Socket.antt =====
-- `LinuxUdpSocket`: its fields and `begin`, `send`, `loop`, `getBroadcastAddress`. The sockets of the
-- operating system are the record `Sockets`.
use linux_mqtt_sn_gateway.Base.{
  ℕ, ◌-◌, Bool, true, false, ◌&&◌, Option, none, some, List, [], ◌∷◌, ◌++◌, length, if◌then◌else◌,
  replicate, take,
}
use linux_mqtt_sn_gateway.Udp.Address.{SockAddr, get_device_address, get_ip_address, get_port}

-- `udp_socket` and `socket_descriptor`
pub data Channel : Type 0 where
  unicast multicast : Channel

-- The calls that prepare a socket. A time is in microseconds.
pub data SocketOption : Type 0 where
  reuse_address multicast_loop enable_broadcast : SocketOption
  add_membership receive_timeout : ℕ → SocketOption

pub data Call : Type 0 where
  create : Channel → Call
  set_option : Channel → SocketOption → Call
  bind_to : Channel → SockAddr → Call

-- `call` tells whether `socket` gives a descriptor, or whether `setsockopt` or `bind` succeeds.
-- `receive_from` gives a datagram or nothing.
pub record Sockets : Type 1 where
  pub Net : Type 0
  pub call : Call → Net → Bool × Net
  pub send_to : Channel → SockAddr → List ℕ → Net → Net
  pub receive_from : Channel → Net → Option (List ℕ × SockAddr) × Net

pub data Event : Type 0 where
  connected disconnected : Event

-- `has_udp_socket` and `has_descriptor`: the descriptor is not negative. `has_handler`: `mqttsn` is set.
-- `received` and `events` are the calls of the handler.
pub record UdpSocket (k : Sockets) : Type 0 where
  pub has_udp_socket : Bool
  pub has_descriptor : Bool
  pub has_handler : Bool
  pub broadcast_address : List ℕ
  pub si_other : SockAddr
  pub net : k.Net
  pub received : List (List ℕ × List ℕ)
  pub events : List Event

-- `BUFLEN`
abbrev pub buflen : ℕ
buflen = 255

-- 224.0.0.0, port 1234
abbrev pub group : SockAddr
group = record { s_addr = 224; sin_port = 53764 }

-- INADDR_ANY and `htons(PORT)`; INADDR_ANY and `htons(1234)`
abbrev pub own_port : SockAddr
own_port = record { s_addr = 0; sin_port = 47138 }

abbrev pub group_port : SockAddr
group_port = record { s_addr = 0; sin_port = 53764 }

-- A pointer to the field `broadcast_address`, or to another address.
pub data Destination : Type 0 where
  broadcast : Destination
  peer : List ℕ → Destination

-- How a method ends: with its result, or none where the program ends.
abbrev pub Outcome : Sockets → Type 0
Outcome k = Option (Bool × UdpSocket k)

module _ {k : Sockets} where
  abbrev pub notify : Event → UdpSocket k → UdpSocket k
  notify e s = record s { events = s.events ++ e ∷ [] }

  -- Behind a call: `return false` or what follows.
  abbrev pub if_done : (UdpSocket k → Outcome k) → UdpSocket k → Bool × k.Net → Outcome k
  if_done next s (false, net) = some (false, record s { net = net })
  if_done next s (true, net) = next (record s { net = net })

  abbrev pub try_call : Call → (UdpSocket k → Outcome k) → UdpSocket k → Outcome k
  try_call c next s = if_done next s (k.call c s.net)

  -- Behind a call: `exit(EXIT_FAILURE)` or what follows.
  abbrev pub if_done_or_exit : (UdpSocket k → Outcome k) → UdpSocket k → Bool × k.Net → Outcome k
  if_done_or_exit next s (false, net) = none
  if_done_or_exit next s (true, net) = next (record s { net = net })

  abbrev pub call_or_exit : Call → (UdpSocket k → Outcome k) → UdpSocket k → Outcome k
  call_or_exit c next s = if_done_or_exit next s (k.call c s.net)

  -- `socket`, whose result is kept in the field of the channel.
  abbrev pub with_channel : Channel → Bool → UdpSocket k → UdpSocket k
  with_channel unicast valid s = record s { has_udp_socket = valid }
  with_channel multicast valid s = record s { has_descriptor = valid }

  abbrev pub open_channel : Channel → (UdpSocket k → Outcome k) → UdpSocket k → Outcome k
  open_channel channel next s =
      try_call (create channel) (λ t. next (with_channel channel true t))
        (with_channel channel false s)

  abbrev pub succeed : UdpSocket k → Outcome k
  succeed s = some (true, s)

  -- `initUdpSocket`
  unfoldable pub init_udp_socket : UdpSocket k → Outcome k
  init_udp_socket = open_channel unicast (
      try_call (set_option unicast reuse_address) (
        try_call (bind_to unicast own_port) (
          try_call (set_option unicast (receive_timeout 200000))
            (try_call (set_option unicast enable_broadcast) succeed))))

  -- The end of `initMulticastUdpSocket`, which keeps the group's address.
  abbrev pub keep_group : ℕ → UdpSocket k → Outcome k
  keep_group size s = some (true, record s { broadcast_address = get_device_address size group })

  -- `initMulticastUdpSocket`. The group's address is not -1.
  unfoldable pub init_multicast_udp_socket : ℕ → UdpSocket k → Outcome k
  init_multicast_udp_socket size = open_channel multicast (
      call_or_exit (set_option multicast reuse_address) (
        try_call (bind_to multicast group_port) (
          try_call (set_option multicast multicast_loop) (
            try_call (set_option multicast (add_membership 224))
              (try_call (set_option multicast (receive_timeout 200000)) (keep_group size))))))

  -- What follows a call of a method that returned true.
  abbrev pub then_do : (UdpSocket k → Outcome k) → Outcome k → Outcome k
  then_do next none = none
  then_do next (some (false, s)) = some (false, s)
  then_do next (some (true, s)) = next s

  abbrev pub announce : UdpSocket k → Outcome k
  announce s =
      some
        (s.has_udp_socket, if s.has_udp_socket && s.has_descriptor then notify connected s else s)

  -- `begin`
  unfoldable pub begin : ℕ → UdpSocket k → Outcome k
  begin size s =
      if s.has_handler
      then then_do (λ t. then_do announce (init_multicast_udp_socket size t)) (init_udp_socket s)
      else some (false, s)

  -- `getBroadcastAddress`
  unfoldable pub get_broadcast_address : ℕ → UdpSocket k → List ℕ × UdpSocket k
  get_broadcast_address size s =
      let address = if s.has_udp_socket then s.broadcast_address else replicate size 0 in
      (address, record s { broadcast_address = address })

  -- `send`
  unfoldable pub send : Destination → List ℕ → UdpSocket k → Bool × UdpSocket k
  send broadcast bytes s =
      (s.has_descriptor, record s { net = k.send_to multicast group bytes s.net })
  send (peer address) bytes s =
      let other : SockAddr = record {
        s_addr = get_ip_address address;
        sin_port = get_port address;
      } in
      (s.has_udp_socket, record s { si_other = other; net = k.send_to unicast other bytes s.net })

  -- The call of `receiveData` with the buffer. `recvfrom` stores at most its 255 bytes, so that the
  -- test `recv_len <= UINT8_MAX` holds.
  abbrev pub deliver : ℕ → Option (List ℕ × SockAddr) × k.Net → UdpSocket k → UdpSocket k
  deliver size (none, net) s = record s { net = net }
  deliver size (some (bytes, from), net) s =
      let buf = take buflen bytes ++ replicate (buflen - length bytes) 0 in
      record s {
        net = net;
        si_other = from;
        received = s.received ++ (get_device_address size from, buf) ∷ [];
      }

  -- `recvfrom` and what follows it, for one of the two sockets.
  unfoldable pub receive : ℕ → Channel → UdpSocket k → UdpSocket k
  receive size channel s = deliver size (k.receive_from channel s.net) s

  abbrev pub reconnected : UdpSocket k → Outcome k
  reconnected s = some (true, notify connected s)

  -- `loop`, which calls the handler without a test for one.
  unfoldable pub loop : ℕ → UdpSocket k → Outcome k
  loop size s =
      let again = then_do reconnected (begin size (notify disconnected s)) in
      let served = receive size multicast (receive size unicast s) in
      if s.has_udp_socket then some (served.has_udp_socket, served) else again
