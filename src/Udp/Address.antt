-- ===== src/Udp/Address.antt =====
-- The addresses of LinuxUdpSocket.cpp: `getDevice_address`, `getIp_address`, `getPort`. The number of an
-- address or a port is that of its bytes in memory, the first byte lowest, as on the machines Linux
-- gateways run on. `size` is `sizeof(device_address)`.
use linux_mqtt_sn_gateway.Base.{
  ℕ, ◌+◌, ◌*◌, ◌/◌, ◌%◌, ◌^◌, ◌<◌, ◌≡◌, List, [], ◌∷◌, ◌++◌, ◌==◌, if◌then◌else◌, replicate,
  overlay, suc, arith,
}

-- `sockaddr_in`: `sin_addr.s_addr` and `sin_port`.
pub record SockAddr : Type 0 where
  pub s_addr : ℕ
  pub sin_port : ℕ

-- `PORT`
abbrev pub default_port : ℕ
default_port = 8888

abbrev pub bytes32 : ℕ → List ℕ
bytes32 n = n % 256 ∷ n / 2 ^ 8 % 256 ∷ n / 2 ^ 16 % 256 ∷ n / 2 ^ 24 % 256 ∷ []

abbrev pub bytes16 : ℕ → List ℕ
bytes16 n = n % 256 ∷ n / 2 ^ 8 % 256 ∷ []

-- `if (port == 0) port = PORT`
abbrev pub known_port : ℕ → ℕ
known_port port = if port == 0 then default_port else port

-- `getDevice_address`
unfoldable pub get_device_address : ℕ → SockAddr → List ℕ
get_device_address size addr =
    overlay (replicate size 0) (bytes32 addr.s_addr ++ bytes16 (known_port addr.sin_port))

-- `getIp_address`
unfoldable pub get_ip_address : List ℕ → ℕ
get_ip_address (a ∷ b ∷ c ∷ d ∷ _) = a + b * 2 ^ 8 + c * 2 ^ 16 + d * 2 ^ 24
get_ip_address _ = 0

-- `getPort`
unfoldable pub get_port : List ℕ → ℕ
get_port (_ ∷ _ ∷ _ ∷ _ ∷ e ∷ f ∷ _) = e + f * 2 ^ 8
get_port _ = 0

-- Six bytes and `n` more: the address and the port fit.
abbrev pub six_and : ℕ → ℕ
six_and n = suc (suc (suc (suc (suc (suc n)))))

four_bytes :
    (n : ℕ)
    → n < 2 ^ 32
    → n % 256 + n / 2 ^ 8 % 256 * 2 ^ 8 + n / 2 ^ 16 % 256 * 2 ^ 16 + n / 2 ^ 24 % 256 * 2 ^ 24 ≡ n
four_bytes n h = omega arith

two_bytes : (n : ℕ) → n < 2 ^ 16 → n % 256 + n / 2 ^ 8 % 256 * 2 ^ 8 ≡ n
two_bytes n h = omega arith

known_port-bound : (n : ℕ) → n < 2 ^ 16 → known_port n < 2 ^ 16
known_port-bound n h = ground arith

pub get_ip_address-get_device_address :
    (n : ℕ) (addr : SockAddr)
    → addr.s_addr < 2 ^ 32
    → get_ip_address (get_device_address (six_and n) addr) ≡ addr.s_addr
unfolding get_ip_address get_device_address overlay
get_ip_address-get_device_address n addr h = four_bytes addr.s_addr h

pub get_port-get_device_address :
    (n : ℕ) (addr : SockAddr)
    → addr.sin_port < 2 ^ 16
    → get_port (get_device_address (six_and n) addr) ≡ known_port addr.sin_port
unfolding get_port get_device_address overlay
get_port-get_device_address n addr h =
    two_bytes (known_port addr.sin_port) (known_port-bound addr.sin_port h)
