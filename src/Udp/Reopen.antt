-- ===== src/Udp/Reopen.antt =====
-- `loop` of LinuxUdpSocket.cpp on a closed socket, by the answers of the system.
use linux_mqtt_sn_gateway.Base.{
  ℕ, ◌≡◌, Bool, true, false, not, Option, none, some, List, [], ◌∷◌, ◌++◌, if◌then◌else◌,
}
use linux_mqtt_sn_gateway.Base.{arith}
use linux_mqtt_sn_gateway.Udp.Address.{get_device_address}
use linux_mqtt_sn_gateway.Udp.Socket.{
  unicast, multicast, Call, create, set_option, bind_to, reuse_address, multicast_loop,
  enable_broadcast, add_membership, receive_timeout, own_port, group_port, group, Sockets,
  UdpSocket, connected, disconnected, Outcome, init_udp_socket, init_multicast_udp_socket, begin,
  loop,
}

-- The calls that each socket needs, in their order.
abbrev pub unicast_calls : List Call
unicast_calls =
    create unicast
    ∷ set_option unicast reuse_address
    ∷ bind_to unicast own_port
    ∷ set_option unicast (receive_timeout 200000)
    ∷ set_option unicast enable_broadcast
    ∷ []

abbrev pub multicast_calls : List Call
multicast_calls =
    create multicast
    ∷ set_option multicast reuse_address
    ∷ bind_to multicast group_port
    ∷ set_option multicast multicast_loop
    ∷ set_option multicast (add_membership 224)
    ∷ set_option multicast (receive_timeout 200000)
    ∷ []

-- The call by which a socket is made.
abbrev pub is_creation : Call → Bool
is_creation (create _) = true
is_creation _ = false

-- The call that the program does not survive.
abbrev pub is_fatal : Call → Bool
is_fatal (set_option multicast reuse_address) = true
is_fatal _ = false

-- The calls one after the other up to the first that fails: that call, or none.
abbrev pub run : (k : Sockets) → List Call → k.Net → Option Call × k.Net
run k [] net = (none, net)
run k (c ∷ cs) net =
    let rest = run k cs (k.call c net).1 in
    if (k.call c net).0 then rest else (some c, (k.call c net).1)

module _ {k : Sockets} where
  -- The object behind a failed attempt.
  abbrev pub failed : Bool → Bool → k.Net → UdpSocket k → UdpSocket k
  failed has_udp has_multicast net s = record s {
    has_udp_socket = has_udp;
    has_descriptor = has_multicast;
    net = net;
    events = s.events ++ disconnected ∷ [];
  }

  -- The object behind two sockets that open.
  abbrev pub reopened : ℕ → UdpSocket k → k.Net → UdpSocket k
  reopened size s net = record s {
    has_udp_socket = true;
    has_descriptor = true;
    broadcast_address = get_device_address size group;
    net = net;
    events = s.events ++ disconnected ∷ [] ++ connected ∷ [] ++ connected ∷ [];
  }

  abbrev pub multicast_verdict : ℕ → UdpSocket k → Option Call × k.Net → Outcome k
  multicast_verdict size s (none, net) = some (true, reopened size s net)
  multicast_verdict size s (some c, net) = elim (is_fatal c) [
    | true ↦ none
    | false ↦ some (false, failed true (not (is_creation c)) net s)
  ]

  abbrev pub verdict : ℕ → UdpSocket k → Option Call × k.Net → Outcome k
  verdict size s (none, net) = multicast_verdict size s (run k multicast_calls net)
  verdict size s (some c, net) = some (false, failed (not (is_creation c)) s.has_descriptor net s)

  -- With a handler, `loop` on a closed socket makes the calls of the unicast socket and then those of
  -- the multicast socket, each up to the first that the system refuses. Where none is refused it
  -- returns true with both sockets open, the group's address as broadcast address, and the handler
  -- notified of one disconnection and two connections. Where SO_REUSEADDR of the multicast socket is
  -- refused the program ends. Where another call is refused it returns false with the handler
  -- notified of one disconnection and the broadcast address as it was, and the socket of that call
  -- counts as closed only if it could not be created.
  pub loop-closed :
      (size : ℕ) (s : UdpSocket k)
      → s.has_udp_socket ≡ false
      → s.has_handler ≡ true
      → loop size s ≡ verdict size s (run k unicast_calls s.net)
  unfolding loop begin init_udp_socket init_multicast_udp_socket
  loop-closed size s e h = ground arith
