-- ===== src/Udp/Interfaces.antt =====
-- `getAddress` of LinuxUdpSocket.cpp, SingleTcpSocket.cpp and TcpSocket.cpp, one text: the search for
-- the address of eth0. What the first half of the method reads with `ioctl` is cleared again.
use linux_mqtt_sn_gateway.Base.{
  ℕ, ◌≡◌, ◌∙◌, ◌^◌, ◌<◌, ◌⊎◌, inl, inr, refl, ap, Bool, true, false, ◌&&◌, Option, none, some, List,
  [], ◌∷◌, ◌++◌, if◌then◌else◌, replicate, codes, overlay, bytes_eq, All, length, Bool-cases, arith,
}
use linux_mqtt_sn_gateway.Udp.Address.{
  SockAddr, bytes32, bytes16, default_port, six_and, get_device_address, get_ip_address, get_port,
  get_ip_address-get_device_address, get_port-get_device_address,
}

-- An entry of the list of `getifaddrs`. `host` is the number that `getnameinfo` and `inet_pton` make
-- of its address, and none where `getnameinfo` fails.
pub record Interface : Type 0 where
  pub has_address : Bool
  pub is_inet : Bool
  pub name : List ℕ
  pub host : Option ℕ

abbrev pub eth0 : List ℕ
eth0 = codes "eth0"

-- `ifa_addr != NULL` and the test for the family and the name
unfoldable pub is_wanted : Interface → Bool
is_wanted ifa = ifa.has_address && ifa.is_inet && bytes_eq eth0 ifa.name

-- What the body of the loop looks at: nothing, or the host.
abbrev pub wanted : Interface → Option (Option ℕ)
wanted ifa = if is_wanted ifa then some ifa.host else none

-- The two calls of `memcpy` with the port PORT.
abbrev pub own_bytes : ℕ → List ℕ
own_bytes ip_address = bytes32 ip_address ++ bytes16 default_port

-- The body of the loop, before the rest of it.
abbrev pub visit : Option (Option ℕ) → (List ℕ → List ℕ) → List ℕ → List ℕ
visit none rest own = rest own
visit (some none) rest own = own
visit (some (some ip)) rest own = rest (overlay own (own_bytes ip))

-- The loop over the list, from the bytes of `own_address` so far.
unfoldable pub walk : List Interface → List ℕ → List ℕ
walk [] own = own
walk (ifa ∷ rest) own = visit (wanted ifa) (λ o. walk rest o) own

-- `getAddress`, where `getifaddrs` succeeds: without it the program ends.
unfoldable pub get_address : ℕ → Bool → List Interface → List ℕ
get_address size has_socket interfaces =
    if has_socket then walk interfaces (replicate size 0) else replicate size 0

-- The entry is passed over, or its address has a name.
abbrev pub IsResolved : Interface → Type 0
IsResolved ifa = (is_wanted ifa ≡ false) ⊎ ((ip : ℕ) × (ifa.host ≡ some ip))

walk-passed :
    (ifa : Interface) (rest : List Interface) (own : List ℕ)
    → is_wanted ifa ≡ false
    → walk (ifa ∷ rest) own ≡ walk rest own
unfolding walk
walk-passed ifa rest own e = rw e refl

walk-taken :
    (ifa : Interface) (rest : List Interface) (own : List ℕ) (ip : ℕ)
    → is_wanted ifa ≡ true
    → ifa.host ≡ some ip
    → walk (ifa ∷ rest) own ≡ walk rest (overlay own (own_bytes ip))
unfolding walk
walk-taken ifa rest own ip e h = rw (e, h)

overlay-overlay :
    (dst a b : List ℕ) → length a ≡ length b → overlay (overlay dst a) b ≡ overlay dst b
unfolding overlay
overlay-overlay [] a b e = refl
overlay-overlay (d ∷ ds) [] [] e = refl
overlay-overlay (d ∷ ds) [] (_ ∷ _) e = absurd (omega arith)
overlay-overlay (d ∷ ds) (_ ∷ _) [] e = absurd (omega arith)
overlay-overlay (d ∷ ds) (a ∷ as') (b ∷ bs) e =
    ap (λ l. b ∷ l) (overlay-overlay ds as' bs (omega arith))

walk-none :
    (ys : List Interface) (own : List ℕ) → All (λ i. is_wanted i ≡ false) ys → walk ys own ≡ own
unfolding walk
walk-none [] own h = refl
walk-none (y ∷ ys) own h = walk-passed y ys own h.0 ∙ walk-none ys own h.1

-- Whatever was written before, the last entry's bytes replace.
walk-last :
    (xs ys : List Interface) (ifa : Interface) (own dst : List ℕ) (ip : ℕ)
    → is_wanted ifa ≡ true
    → ifa.host ≡ some ip
    → All IsResolved xs
    → All (λ i. is_wanted i ≡ false) ys
    → ((a : ℕ) → overlay own (own_bytes a) ≡ overlay dst (own_bytes a))
    → walk (xs ++ ifa ∷ ys) own ≡ overlay dst (own_bytes ip)
walk-last [] ys ifa own dst ip w e h k same =
    walk-taken ifa ys own ip w e ∙ walk-none ys (overlay own (own_bytes ip)) k ∙ same ip
walk-last (x ∷ xs) ys ifa own dst ip w e h k same = elim (Bool-cases (is_wanted x)) [
  | inr f ↦ walk-passed x (xs ++ ifa ∷ ys) own f ∙ walk-last xs ys ifa own dst ip w e h.1 k same
  | inl t ↦ elim h.0 [
    | inl f ↦ absurd cc
    | inr (a, q) ↦
        walk-taken x (xs ++ ifa ∷ ys) own a t q
        ∙ walk-last xs ys ifa (overlay own (own_bytes a)) dst ip w e h.1 k
            (λ b. overlay-overlay own (own_bytes a) (own_bytes b) refl ∙ same b)
  ]
]

-- On an open socket getAddress gives the address of the last eth0 entry of the IPv4 family, with
-- PORT behind it, which getIp_address and getPort read. Each wanted entry before it has a name, a
-- device_address has at least 6 bytes and the address is a uint32_t.
pub get_address_lem :
    (n : ℕ) (xs ys : List Interface) (ifa : Interface) (ip : ℕ)
    → is_wanted ifa ≡ true
    → ifa.host ≡ some ip
    → All IsResolved xs
    → All (λ i. is_wanted i ≡ false) ys
    → ip < 2 ^ 32
    → (get_ip_address (get_address (six_and n) true (xs ++ ifa ∷ ys)) ≡ ip)
      × (get_port (get_address (six_and n) true (xs ++ ifa ∷ ys)) ≡ default_port)
unfolding get_address get_device_address
get_address_lem n xs ys ifa ip w e h k lt =
    let own = walk-last xs ys ifa _ (replicate (six_and n) 0) ip w e h k (λ a. refl) in
    let addr : SockAddr = record { s_addr = ip; sin_port = default_port } in
    (
      ap get_ip_address own ∙ get_ip_address-get_device_address n addr lt,
      ap get_port own ∙ get_port-get_device_address n addr (omega arith),
    )
