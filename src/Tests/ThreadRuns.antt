-- ===== src/Tests/ThreadRuns.antt =====
-- Two clients of the TCP socket with threads, and their messages.
use linux_mqtt_sn_gateway.Base.{
  ℕ, ◌≡◌, refl, true, false, Option, none, some, List, [], ◌∷◌, ◌++◌, length, replicate, take,
  overlay,
}
use linux_mqtt_sn_gateway.Tcp.Descriptors.{fd, Sockets}
use linux_mqtt_sn_gateway.Tcp.Messages.{TcpMessage}
use linux_mqtt_sn_gateway.Tcp.Threads.{
  TcpSocket, Memory, any_address, accept_turn, receive_turn, loop, put_elem,
}
use linux_mqtt_sn_gateway.Tcp.Interleavings.{
  accept, receive, poll, arrived, Run, start, later, Run-fifo,
}

abbrev next : List (List ℕ) → Option (List ℕ) × List (List ℕ)
next [] = (none, [])
next (m ∷ ms) = (some m, ms)

-- The network is what will be received, whoever asks first.
abbrev wire : Sockets
wire = record {
  Net = List (List ℕ);
  socket = λ net. (fd 3, net);
  reuse_address = λ f net. (true, net);
  bind_to = λ f addr net. (true, net);
  listen_on = λ f net. net;
  get_flags = λ f net. (true, net);
  set_nonblocking = λ f net. net;
  accept = λ f net. (fd 4, record { s_addr = 16777343; sin_port = 4660 }, net);
  recv = λ f net. next net;
  write = λ f bytes net. (some (length bytes), net);
}

abbrev begun_socket : TcpSocket wire
begun_socket = record {
  tcp_socket = fd 3;
  tcp_socket_address = any_address;
  broadcast_address = replicate 6 255;
  has_handler = true;
  receiver_queue = [];
  connections = [];
  heap = [];
  has_acceptor = true;
  net = (2 ∷ 4 ∷ []) ∷ (3 ∷ 5 ∷ 6 ∷ []) ∷ [];
  events = [];
}

abbrev memory : Memory
memory = record {
  local_address = replicate 6 0;
  stopped_flag = false;
  buffer_bytes = replicate 255 0;
}

abbrev accepted_socket : TcpSocket wire
accepted_socket = accept_turn memory begun_socket

abbrev received_socket : TcpSocket wire
received_socket = receive_turn 6 0 accepted_socket

abbrev arrivals : List TcpMessage
arrivals = arrived {size = 6} {s = accepted_socket} {t = received_socket} (receive 0)

-- A client is accepted, its first message arrives, and `loop` takes it.
abbrev taken_messages : List TcpMessage
taken_messages = take 1 received_socket.receiver_queue

all_turns :
    Run 6 begun_socket
      ([] ++ [] ++ arrivals ++ [])
      ([] ++ [] ++ [] ++ taken_messages)
      (loop received_socket).1
all_turns = later (later (later start (accept memory)) (receive 0)) poll

Run-fifo_example :
    [] ++ ([] ++ [] ++ arrivals ++ [])
    ≡ ([] ++ [] ++ [] ++ taken_messages) ++ (loop received_socket).1.receiver_queue
Run-fifo_example = Run-fifo all_turns

one_arrived : length arrivals ≡ 1
unfolding accept_turn receive_turn put_elem overlay
one_arrived = refl
