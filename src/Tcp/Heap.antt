-- ===== src/Tcp/Heap.antt =====
-- The connections of TcpSocket.cpp, those that were ever made and those in its list, and the search of
-- `send` for the one with an address.
use linux_mqtt_sn_gateway.Base.{
  ℕ, zero, suc, ◌≡◌, ◌∙◌, ◌⊎◌, refl, sym, ap, Bool, true, false, Option, none, some, List, [], ◌∷◌,
  ◌++◌, ◌==◌, ==_iff, if◌then◌else◌, length, get_elem?, bytes_eq, bytes_eq_iff, Bool-cases, inl,
  inr, arith,
}
use mathlib.Core.Path.{subst}
use linux_mqtt_sn_gateway.Tcp.Threads.{TcpConnection, put_elem, peer_or, find_peer, contains}

abbrev pub Heap : Type 0
Heap = List TcpConnection

-- A connection of the heap has the address.
abbrev pub HasAddress : Heap → List ℕ → Type 0
HasAddress heap address =
    (p : ℕ) × (c : TcpConnection) × (get_elem? heap p ≡ some c) × (c.connection_address ≡ address)

-- No connection disappears or gets another address.
abbrev pub Grows : Heap → Heap → Type 0
Grows heap heap' =
    (p : ℕ) (c : TcpConnection)
    → get_elem? heap p ≡ some c
    → (d : TcpConnection) × (get_elem? heap' p ≡ some d)
      × (d.connection_address ≡ c.connection_address)

-- Every connection stands in the list of the socket.
abbrev pub AllListed : Heap → List ℕ → Type 0
AllListed heap ps = (p : ℕ) (c : TcpConnection) → get_elem? heap p ≡ some c → contains p ps ≡ true

pub Grows-refl : (heap : Heap) → Grows heap heap
Grows-refl heap p c e = (c, e, refl)

pub HasAddress-Grows :
    (heap heap' : Heap) (address : List ℕ)
    → Grows heap heap'
    → HasAddress heap address
    → HasAddress heap' address
HasAddress-Grows heap heap' address g (p, c, e, a) = let (d, f, b) = g p c e in (p, d, f, b ∙ a)

pub Grows-append : (heap : Heap) (c : TcpConnection) → Grows heap (heap ++ c ∷ [])
Grows-append [] c p d e = absurd cc
Grows-append (x ∷ xs) c zero d e = (d, e, refl)
Grows-append (x ∷ xs) c (suc p) d e = Grows-append xs c p d e

pub AllListed-append :
    (heap : Heap) (c : TcpConnection) (p : ℕ) (d : TcpConnection)
    → get_elem? (heap ++ c ∷ []) p ≡ some d
    → ((x : TcpConnection) × (get_elem? heap p ≡ some x)) ⊎ (p ≡ length heap)
AllListed-append [] c zero d e = inr refl
AllListed-append [] c (suc p) d e = absurd cc
AllListed-append (x ∷ xs) c zero d e = inl (x, refl)
AllListed-append (x ∷ xs) c (suc p) d e = elim (AllListed-append xs c p d e) [
  | inl h ↦ inl h
  | inr h ↦ inr (ap suc h)
]

pub Grows-put :
    (heap : Heap) (p : ℕ) (c new : TcpConnection)
    → get_elem? heap p ≡ some c
    → new.connection_address ≡ c.connection_address
    → Grows heap (put_elem p new heap)
unfolding put_elem
Grows-put [] p c new e a q d f = absurd cc
Grows-put (x ∷ xs) zero c new e a zero d f = (new, refl, ground (arith))
Grows-put (x ∷ xs) zero c new e a (suc q) d f = (d, f, refl)
Grows-put (x ∷ xs) (suc p) c new e a zero d f = (d, f, refl)
Grows-put (x ∷ xs) (suc p) c new e a (suc q) d f = Grows-put xs p c new e a q d f

pub get_elem?-put :
    (heap : Heap) (p q : ℕ) (new d : TcpConnection)
    → get_elem? (put_elem p new heap) q ≡ some d
    → (x : TcpConnection) × (get_elem? heap q ≡ some x)
unfolding put_elem
get_elem?-put [] p q new d e = absurd cc
get_elem?-put (x ∷ xs) zero zero new d e = (x, refl)
get_elem?-put (x ∷ xs) zero (suc q) new d e = (d, e)
get_elem?-put (x ∷ xs) (suc p) zero new d e = (d, e)
get_elem?-put (x ∷ xs) (suc p) (suc q) new d e = get_elem?-put xs p q new d e

pub contains-append :
    (p q : ℕ) (ps : List ℕ) → contains p ps ≡ true → contains p (ps ++ q ∷ []) ≡ true
unfolding contains
contains-append p q [] h = absurd cc
contains-append p q (x ∷ xs) h = ground (arith, contains-append p q xs)

pub contains-last : (p : ℕ) (ps : List ℕ) → contains p (ps ++ p ∷ []) ≡ true
unfolding contains
contains-last p [] = ground arith
contains-last p (x ∷ xs) = ground (arith, contains-last p xs)

-- A search has found a connection of the address.
abbrev pub IsFound : List ℕ → Option TcpConnection → Type 0
IsFound address r = (c : TcpConnection) × (r ≡ some c) × (c.connection_address ≡ address)

equal-IsFound :
    (address : List ℕ) (c : TcpConnection) (rest : Option TcpConnection) (b : Bool)
    → bytes_eq address c.connection_address ≡ b
    → IsFound address rest ⊎ (b ≡ true)
    → IsFound address (if b then some c else rest)
equal-IsFound address c rest true e h =
    (c, refl, sym ((bytes_eq_iff address c.connection_address).0 e))
equal-IsFound address c rest false e (inl h) = h
equal-IsFound address c rest false e (inr h) = absurd cc

peer_or-IsFound :
    (address : List ℕ) (o rest : Option TcpConnection)
    → IsFound address rest
    → IsFound address (peer_or address o rest)
peer_or-IsFound address none rest h = h
peer_or-IsFound address (some c) rest h = equal-IsFound address c rest _ refl (inl h)

peer_or-own :
    (address : List ℕ) (c : TcpConnection) (rest : Option TcpConnection)
    → c.connection_address ≡ address
    → IsFound address (peer_or address (some c) rest)
peer_or-own address c rest a =
    equal-IsFound address c rest _ refl
      (inr ((bytes_eq_iff address c.connection_address).1 (sym a)))

pub find_peer-IsFound :
    (address : List ℕ) (heap : Heap) (ps : List ℕ) (p : ℕ) (c : TcpConnection)
    → contains p ps ≡ true
    → get_elem? heap p ≡ some c
    → c.connection_address ≡ address
    → IsFound address (find_peer address heap ps)
unfolding contains find_peer
find_peer-IsFound address heap [] p c h e a = absurd cc
find_peer-IsFound address heap (q ∷ qs) p c h e a = elim (Bool-cases (p == q)) [
  | inl t ↦
      let same = (==_iff p q).0 t in
      let found : get_elem? heap q ≡ some c = rw⁻¹ same e in
      subst (λ o. IsFound address (peer_or address o (find_peer address heap qs))) (sym found)
        (peer_or-own address c _ a)
  | inr f ↦
      peer_or-IsFound address (get_elem? heap q) _
        (find_peer-IsFound address heap qs p c (ground arith) e a)
]
