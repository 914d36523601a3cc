-- ===== src/Tests/TcpRuns.antt =====
-- A client of the TCP socket that sends two messages, and the interfaces of a gateway.
use linux_mqtt_sn_gateway.Base.{
  ℕ, ◌≡◌, refl, true, false, Option, none, some, List, [], ◌∷◌, ◌++◌, length, replicate, inl, codes,
  bytes_eq, arith,
}
use linux_mqtt_sn_gateway.Udp.Address.{
  six_and, default_port, get_ip_address, get_port, get_device_address,
}
use linux_mqtt_sn_gateway.Udp.Interfaces.{Interface, is_wanted, get_address, get_address_lem}
use linux_mqtt_sn_gateway.Tcp.Descriptors.{fd, Sockets}
use linux_mqtt_sn_gateway.Tcp.Single.{
  SingleTcpSocket, listening_address, received_buffer, is_written, send, loop, loops,
}
use linux_mqtt_sn_gateway.Tcp.Client.{handed, loops-accept, client_kept, send-loop}

abbrev next : List (List ℕ) → Option (List ℕ) × List (List ℕ)
next [] = (none, [])
next (m ∷ ms) = (some m, ms)

-- The network is what the client still sends.
abbrev line : Sockets
line = record {
  Net = List (List ℕ);
  socket = λ net. (fd 3, net);
  reuse_address = λ f net. (true, net);
  bind_to = λ f addr net. (true, net);
  listen_on = λ f net. net;
  get_flags = λ f net. (true, net);
  set_nonblocking = λ f net. net;
  accept = λ f net. (fd 4, listening_address, net);
  recv = λ f net. next net;
  write = λ f bytes net. (some (length bytes), net);
}

abbrev idle : SingleTcpSocket line
idle = record {
  tcp_socket = fd 3;
  tcp_socket_address = listening_address;
  save_fd = true;
  connection_socket = fd 0;
  connection_socket_address = listening_address;
  broadcast_address = replicate 6 255;
  has_handler = true;
  net = (2 ∷ 4 ∷ []) ∷ (3 ∷ 5 ∷ 6 ∷ []) ∷ [];
  received = [];
  events = [];
}

loops-accept_example :
    ((loops 6 3 idle).received
      ≡ [] ++ handed 6 listening_address ((2 ∷ 4 ∷ []) ∷ (3 ∷ 5 ∷ 6 ∷ []) ∷ []))
    × ((loops 6 3 idle).net ≡ [])
    × ((loops 6 3 idle).connection_socket ≡ fd 4)
loops-accept_example =
    loops-accept 6 idle 3 listening_address idle.net [] idle.net refl refl refl
      ((3 ∷ 5 ∷ 6 ∷ []) ∷ [], refl, omega arith, ([], refl, omega arith, refl))

abbrev served : SingleTcpSocket line
served = record idle { connection_socket = fd 4 }

client_kept_example :
    ((loops 6 9 served).connection_socket ≡ fd 4)
    × ((loops 6 9 served).tcp_socket ≡ fd 3)
    × ((loops 6 9 served).events ≡ [])
client_kept_example = client_kept 6 9 served refl refl

send-loop_example :
    ((loop 6 served).1.received
      ≡ [] ++ (get_device_address 6 listening_address, received_buffer (2 ∷ 4 ∷ [])) ∷ [])
    × ((send (get_device_address 6 listening_address) (9 ∷ 1 ∷ []) (loop 6 served).1).0
        ≡ is_written 2 (some 2))
    × ((send (get_device_address 6 listening_address) (9 ∷ 1 ∷ []) (loop 6 served).1).1.net
        ≡ (3 ∷ 5 ∷ 6 ∷ []) ∷ [])
send-loop_example =
    send-loop 0 3 served (2 ∷ 4 ∷ []) (9 ∷ 1 ∷ []) ((3 ∷ 5 ∷ 6 ∷ []) ∷ []) ((3 ∷ 5 ∷ 6 ∷ []) ∷ [])
      (some 2) refl refl refl refl refl (omega arith) refl

abbrev loopback : Interface
loopback = record { has_address = true; is_inet = true; name = codes "lo"; host = some 16777343 }

abbrev ethernet : Interface
ethernet = record { has_address = true; is_inet = true; name = codes "eth0"; host = some 117483712 }

loopback-passed : is_wanted loopback ≡ false
unfolding is_wanted bytes_eq
loopback-passed = refl

ethernet-wanted : is_wanted ethernet ≡ true
unfolding is_wanted bytes_eq
ethernet-wanted = refl

get_address_lem_example :
    (get_ip_address (get_address (six_and 1) true (loopback ∷ ethernet ∷ loopback ∷ []))
      ≡ 117483712)
    × (get_port (get_address (six_and 1) true (loopback ∷ ethernet ∷ loopback ∷ [])) ≡ default_port)
get_address_lem_example =
    get_address_lem 1 (loopback ∷ []) (loopback ∷ []) ethernet 117483712 ethernet-wanted refl
      (inl loopback-passed, tt) (loopback-passed, tt) (omega arith)
