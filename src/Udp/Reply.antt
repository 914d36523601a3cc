-- ===== src/Udp/Reply.antt =====
-- Messages that `LinuxUdpSocket` receives, and the replies to them.
use linux_mqtt_sn_gateway.Base.{
  ℕ, ◌^◌, ◌<◌, ◌≡◌, ap, ◌∙◌, some, List, [], ◌∷◌, ◌++◌, ◌-◌, take, replicate, length,
}
use linux_mqtt_sn_gateway.Udp.Address.{
  SockAddr, known_port, six_and, get_device_address, get_ip_address-get_device_address,
  get_port-get_device_address,
}
use linux_mqtt_sn_gateway.Udp.Socket.{
  Channel, unicast, Sockets, UdpSocket, peer, send, receive, deliver, buflen,
}

-- The address a reply goes to.
abbrev pub answered : SockAddr → SockAddr
answered from = record { s_addr = from.s_addr; sin_port = known_port from.sin_port }

-- The buffer that the handler gets for a datagram.
abbrev pub buffer : List ℕ → List ℕ
buffer bytes = take buflen bytes ++ replicate (buflen - length bytes) 0

module _ {k : Sockets} where
  send-get_device_address :
      (n : ℕ) (from : SockAddr) (bytes : List ℕ) (s : UdpSocket k)
      → from.s_addr < 2 ^ 32
      → from.sin_port < 2 ^ 16
      → send (peer (get_device_address (six_and n) from)) bytes s ≡ (
        s.has_udp_socket,
        record s { si_other = answered from; net = k.send_to unicast (answered from) bytes s.net },
      )
  unfolding send
  send-get_device_address n from bytes s h i =
      rw (get_ip_address-get_device_address n from h, get_port-get_device_address n from i)

  receive_lem :
      (size : ℕ) (channel : Channel) (bytes : List ℕ) (from : SockAddr) (s : UdpSocket k)
      (net : k.Net)
      → k.receive_from channel s.net ≡ (some (bytes, from), net)
      → receive size channel s ≡ record s {
        net = net;
        si_other = from;
        received = s.received ++ (get_device_address size from, buffer bytes) ∷ [];
      }
  unfolding receive
  receive_lem size channel bytes from s net e = ap (λ r. deliver size r s) e

  -- A datagram that the system gives is handed over with the address of its sender, and `send` to
  -- that address goes to the sender's address and port, where a port 0 is replaced by PORT. A
  -- device_address has at least 6 bytes, the address is a uint32_t and the port a uint16_t.
  pub send-receive :
      (n : ℕ) (channel : Channel) (bytes reply : List ℕ) (from : SockAddr) (s : UdpSocket k)
      (net : k.Net)
      → k.receive_from channel s.net ≡ (some (bytes, from), net)
      → from.s_addr < 2 ^ 32
      → from.sin_port < 2 ^ 16
      → ((receive (six_and n) channel s).received
          ≡ s.received ++ (get_device_address (six_and n) from, buffer bytes) ∷ [])
        × (send (peer (get_device_address (six_and n) from)) reply (receive (six_and n) channel s)
            ≡ (
              s.has_udp_socket,
              record s {
                si_other = answered from;
                net = k.send_to unicast (answered from) reply net;
                received = s.received ++ (get_device_address (six_and n) from, buffer bytes) ∷ [];
              },
            ))
  send-receive n channel bytes reply from s net e h i =
      let a = get_device_address (six_and n) from in
      let s' = record s {
        net = net;
        si_other = from;
        received = s.received ++ (a, buffer bytes) ∷ [];
      } in
      (
        ap (λ t. t.received) (receive_lem (six_and n) channel bytes from s net e),
        ap (send (peer a) reply) (receive_lem (six_and n) channel bytes from s net e)
            ∙ send-get_device_address n from reply s' h i,
      )
