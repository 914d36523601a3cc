-- ===== src/Tcp/Senders.antt =====
-- Whose address the messages in the queue of TcpSocket.cpp have, whatever the threads do.
use linux_mqtt_sn_gateway.Base.{◌≡◌, [], length, All}
use linux_mqtt_sn_gateway.Tcp.Descriptors.{Sockets}
use linux_mqtt_sn_gateway.Tcp.Messages.{TcpMessage}
use linux_mqtt_sn_gateway.Tcp.Threads.{TcpSocket}
use linux_mqtt_sn_gateway.Tcp.Heap.{Heap, HasAddress, AllListed}

-- A message from a connection of the heap.
abbrev IsFrom : Heap → TcpMessage → Type 0
IsFrom heap m = HasAddress heap m.message_address × (length m.payload ≡ 255)

module _ {k : Sockets} where
  pub record IsSound (s : TcpSocket k) : Type 0 where
    pub listed : AllListed s.heap s.connections
    pub senders : All (IsFrom s.heap) s.receiver_queue

  -- A socket that has made no connection yet.
  pub record IsFresh (s : TcpSocket k) : Type 0 where
    pub no_heap : s.heap ≡ []
    pub no_message : s.receiver_queue ≡ []
