-- ===== src/Serial/State.antt =====
-- The fields of `LinuxSerialSocket` (Implementation/Serial/LinuxSerialSocket.h), the line it is
-- connected to, and how its methods run: they read byte after byte from a blocking file descriptor into
-- a `char buffer[1024]`.
use linux_mqtt_sn_gateway.Base.{ℕ, Bool, true, false, List, ◌++◌, ◌≡◌, ap}

-- `TransmissionProtocolUartBridgeStatus`
pub data BridgeStatus : Type 0 where
  starting idle sending receiving configuring parse_failure failed : BridgeStatus

-- `fd`: below, at or above zero.
pub data Descriptor : Type 0 where
  closed zero_fd opened : Descriptor

-- `message` holds the bytes of `data` before `data_length`. `input` is what the controller still sends,
-- `output` what was written, `received` the calls of `receiveData` and `connected` whether
-- `notify_socket_connected` was called.
pub record Bridge : Type 0 where
  pub own_address : List ℕ
  pub broadcast_address : List ℕ
  pub maximum_message_length : ℕ
  pub serial_buffer_size : ℕ
  pub from_address : List ℕ
  pub message : List ℕ
  pub status : BridgeStatus
  pub fd : Descriptor
  pub input : List ℕ
  pub output : List ℕ
  pub received : List (List ℕ × List ℕ)
  pub connected : Bool

-- A call returns, waits for a byte that does not come, or leaves its buffer.
pub data Run (A : Type 0) : Type 0 where
  done : A → Bridge → Run A
  stuck : Run A
  overflow : Run A

abbrev pub Action : Type 0 → Type 0
Action A = Bridge → Run A

module _ {A : Type 0} where
  abbrev pub pure : A → Action A
  pure a b = done a b

  -- A call that reads and writes nothing.
  abbrev pub calculate : (Bridge → A × Bridge) → Action A
  calculate f b = let (a, c) = f b in done a c

-- What comes behind a call that returns; one that does not return ends the caller as well.
abbrev pub resume : {A B : Type 0} → Run A → (A → Action B) → Run B
resume (done a b) next = next a b
resume stuck next = stuck
resume overflow next = overflow

infixl 5 ◌>>=◌ ◌>>◌
abbrev pub ◌>>=◌ : {A B : Type 0} → Action A → (A → Action B) → Action B
◌>>=◌ call next b = resume (call b) next

abbrev pub ◌>>◌ : {A B : Type 0} → Action A → Action B → Action B
◌>>◌ call next b = resume (call b) (λ _. next)

-- `write(fd, text, n)`
abbrev pub write : List ℕ → Action Unit
write text b = done tt (record b { output = b.output ++ text })

-- `if (!m()) return false;`
abbrev pub and_then : Action Bool → Action Bool → Action Bool
and_then m k = m >>= λ ok. elim ok [ true ↦ k | false ↦ pure false ]

-- Its steps run one behind the other.
pub >>=-done :
    {A B : Type 0} (m : Action A) (f : A → Action B) (b : Bridge) {a : A} {c : Bridge}
    → m b ≡ done a c
    → (m >>= f) b ≡ f a c
>>=-done m f b e = ap (λ r. resume r f) e

pub >>=-overflow :
    {A B : Type 0} (m : Action A) (f : A → Action B) (b : Bridge)
    → m b ≡ overflow
    → (m >>= f) b ≡ overflow
>>=-overflow m f b e = ap (λ r. resume r f) e

pub and_then-true :
    (m k : Action Bool) (b : Bridge) {c : Bridge} → m b ≡ done true c → and_then m k b ≡ k c
and_then-true m k b e = >>=-done m (λ ok. elim ok [ true ↦ k | false ↦ pure false ]) b e
