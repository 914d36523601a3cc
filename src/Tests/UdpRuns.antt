-- ===== src/Tests/UdpRuns.antt =====
-- A network that holds one datagram, and a clock that wraps.
use linux_mqtt_sn_gateway.Base.{
  ℕ, ◌≡◌, ◌-◌, ◌^◌, refl, true, false, Option, none, some, List, [], ◌∷◌, ◌++◌, arith,
}
use linux_mqtt_sn_gateway.Clock.{Clock, elapsed_sum, total, elapsed_sum-total}
use linux_mqtt_sn_gateway.Udp.Address.{SockAddr, six_and, get_device_address}
use linux_mqtt_sn_gateway.Udp.Socket.{unicast, Sockets, UdpSocket, peer, send, receive, loop}
use linux_mqtt_sn_gateway.Udp.Reply.{answered, buffer, send-receive}
use linux_mqtt_sn_gateway.Udp.Reopen.{reopened, loop-closed}

abbrev sender : SockAddr
sender = record { s_addr = 117483712; sin_port = 0 }

abbrev Inbox : Type 0
Inbox = List (List ℕ × SockAddr)

abbrev next : Inbox → Option (List ℕ × SockAddr) × Inbox
next [] = (none, [])
next (d ∷ ds) = (some d, ds)

abbrev network : Sockets
network = record {
  Net = Inbox;
  call = λ c net. (true, net);
  send_to = λ channel to bytes net. net;
  receive_from = λ channel net. next net;
}

abbrev socket : UdpSocket network
socket = record {
  has_udp_socket = true;
  has_descriptor = true;
  has_handler = true;
  broadcast_address = [];
  si_other = sender;
  net = (2 ∷ 4 ∷ [], sender) ∷ [];
  received = [];
  events = [];
}

send-receive_example :
    ((receive (six_and 1) unicast socket).received
      ≡ [] ++ (get_device_address (six_and 1) sender, buffer (2 ∷ 4 ∷ [])) ∷ [])
    × (send
          (peer (get_device_address (six_and 1) sender))
          (9 ∷ [])
          (receive (six_and 1) unicast socket)
        ≡ (
          true,
          record socket {
            si_other = answered sender;
            net = [];
            received = [] ++ (get_device_address (six_and 1) sender, buffer (2 ∷ 4 ∷ [])) ∷ [];
          },
        ))
send-receive_example =
    send-receive 1 unicast (2 ∷ 4 ∷ []) (9 ∷ []) sender socket [] refl (omega arith) (omega arith)

abbrev closed_socket : UdpSocket network
closed_socket = record socket { has_udp_socket = false }

loop-closed_example : loop 6 closed_socket ≡ some (true, reopened 6 closed_socket closed_socket.net)
loop-closed_example = loop-closed 6 closed_socket refl refl

abbrev clock : Clock
clock = record { heartbeat_period = 10000; heartbeat_current = 0; elapsed_current = 2 ^ 32 - 5 }

elapsed_sum-total_example :
    elapsed_sum (2 ^ 32 - 5) (3 ∷ 4 ∷ 100 ∷ []) clock ≡ total (3 ∷ 4 ∷ 100 ∷ [])
elapsed_sum-total_example =
    elapsed_sum-total (2 ^ 32 - 5) (3 ∷ 4 ∷ 100 ∷ []) clock (omega arith) refl
