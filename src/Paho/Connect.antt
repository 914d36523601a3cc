-- ===== src/Paho/Connect.antt =====
-- What `setServer` and the network part of `connect` of PahoMqttMessageHandler.cpp do together, and what
-- `getConfigAndConnect` makes of a configuration file.
use linux_mqtt_sn_gateway.Base.{
  ℕ, ◌+◌, ◌-◌, ◌*◌, ◌%◌, ◌^◌, ◌<◌, ◌≡◌, refl, Bool, true, false, not, none, List, [], ◌∷◌, ◌==◌,
  if◌then◌else◌, arith,
}
use linux_mqtt_sn_gateway.Paho.Library.{Library}
use linux_mqtt_sn_gateway.Paho.Handler.{
  Handler, minus_one, packed, set_server, with_net, open_stack,
}

-- The address in network order.
abbrev pub big_endian : ℕ → ℕ → ℕ → ℕ → ℕ
big_endian a b c d = a * 2 ^ 24 + b * 2 ^ 16 + c * 2 ^ 8 + d

packed-low :
    (a b c d : ℕ)
    → a < 256
    → b < 256
    → c < 256
    → d < 256
    → packed (a ∷ b ∷ c ∷ d ∷ []) % 2 ^ 32 ≡ big_endian a b c d
packed-low a b c d ha hb hc hd = ground arith

packed-minus_one :
    (a b c d : ℕ)
    → a < 256
    → b < 256
    → c < 256
    → d < 256
    → (packed (a ∷ b ∷ c ∷ d ∷ []) == minus_one) ≡ (big_endian a b c d == 2 ^ 32 - 1)
packed-minus_one a b c d ha hb hc hd = ground arith

if-not : {A : Type 0} (t : Bool) (x y : A) → (if not t then x else y) ≡ (if t then y else x)
if-not true x y = refl
if-not false x y = refl

module _ {l : Library} where
  -- The handler behind `setServer`.
  abbrev pub served : List ℕ → ℕ → Handler l → Handler l
  served ip port s = record s { hostname = none; ip_address = packed ip; port = port }

  -- After setServer with an address, the network part of `connect` calls the library with the
  -- address in network order and the port, except for 255.255.255.255, for which it returns false
  -- and calls nothing. The four bytes are below 256.
  pub open_stack-set_server :
      (a b c d port : ℕ) (s : Handler l)
      → a < 256
      → b < 256
      → c < 256
      → d < 256
      → open_stack (set_server (a ∷ b ∷ c ∷ d ∷ []) port s) ≡ (
          if big_endian a b c d == 2 ^ 32 - 1
          then (false, served (a ∷ b ∷ c ∷ d ∷ []) port s)
          else with_net
              (served (a ∷ b ∷ c ∷ d ∷ []) port s)
              (l.connect_ip (big_endian a b c d) port s.net))
  unfolding open_stack set_server
  open_stack-set_server a b c d port s ha hb hc hd =
      rw (packed-minus_one a b c d ha hb hc hd, packed-low a b c d ha hb hc hd)
        (if-not (big_endian a b c d == 2 ^ 32 - 1) _ _)
