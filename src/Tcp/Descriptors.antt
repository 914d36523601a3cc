-- ===== src/Tcp/Descriptors.antt =====
-- The calls of the operating system that SingleTcpSocket.cpp, TcpSocket.cpp, TcpConnection.cpp and
-- ConnectionAcceptor.cpp make.
use linux_mqtt_sn_gateway.Base.{ℕ, Bool, true, false, Option, List, zero, suc}
use linux_mqtt_sn_gateway.Udp.Address.{SockAddr}

-- A descriptor: -1, or a number.
pub data Fd : Type 0 where
  invalid : Fd
  fd : ℕ → Fd

-- `>= 0`
abbrev pub is_open : Fd → Bool
is_open invalid = false
is_open (fd n) = true

-- `> 0`
abbrev pub is_positive : Fd → Bool
is_positive (fd (suc n)) = true
is_positive _ = false

-- `== 0`
abbrev pub is_zero : Fd → Bool
is_zero (fd zero) = true
is_zero _ = false

-- `get_flags` and `set_nonblocking` are the two uses of fcntl. `write` is also send(2): the number
-- of bytes written, or none for -1. `recv` gives the bytes, or none for -1.
pub record Sockets : Type 1 where
  pub Net : Type 0
  pub socket : Net → Fd × Net
  pub reuse_address : Fd → Net → Bool × Net
  pub bind_to : Fd → SockAddr → Net → Bool × Net
  pub listen_on : Fd → Net → Net
  pub get_flags : Fd → Net → Bool × Net
  pub set_nonblocking : Fd → Net → Net
  pub accept : Fd → Net → Fd × SockAddr × Net
  pub recv : Fd → Net → Option (List ℕ) × Net
  pub write : Fd → List ℕ → Net → Option ℕ × Net
