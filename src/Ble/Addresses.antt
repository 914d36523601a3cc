-- ===== src/Ble/Addresses.antt =====
-- The text of a MAC address, written and read back, as in BLESocket.cpp.
use linux_mqtt_sn_gateway.Base.{
  ℕ, zero, suc, ◌+◌, ◌-◌, ◌*◌, ◌/◌, ◌%◌, ◌<◌, ◌≡◌, ◌∙◌, refl, ap, Bool, true, false, ◌&&◌, ◌||◌,
  none, some, List, [], ◌∷◌, ◌++◌, ◌==◌, length, c_str, overlay, sym, All, IsByte, arith,
}
use native.Mathlib.Nat.{mod-eq_of_lt}
use linux_mqtt_sn_gateway.Ble.Mac.{
  hex_digit, hex_byte, get_mac_from_device_address, is_space, hex_value, skip_spaces, more_digits,
  digits, after_prefix, signed, scan_hex, put_first, then_fields, scan_fields, low_bytes,
  get_device_address_from_mac,
}

-- The value of a byte's two digits.
byte_digits : (b : ℕ) → b / 16 * 16 + b % 16 ≡ b
byte_digits b = omega arith

hex_value-hex_digit : (d : ℕ) → d < 16 → hex_value (hex_digit d) ≡ some d
unfolding hex_value hex_digit
hex_value-hex_digit d h = ground arith

is_space-hex_digit : (d : ℕ) → d < 16 → is_space (hex_digit d) ≡ false
unfolding is_space hex_digit
is_space-hex_digit d h = ground arith

sign-hex_digit : (d : ℕ) → d < 16 → ((hex_digit d == 45) ≡ false) × ((hex_digit d == 43) ≡ false)
unfolding hex_digit
sign-hex_digit d h = ground arith

prefix-hex_digit : (d : ℕ) → d < 16 → (hex_digit d == 120 || hex_digit d == 88) ≡ false
unfolding hex_digit
prefix-hex_digit d h = ground arith

and_false : (b : Bool) → (b && false) ≡ false
and_false true = refl
and_false false = refl

after_prefix-hex_byte : (b : ℕ) (cs : List ℕ) → after_prefix (hex_byte b ++ cs) ≡ hex_byte b ++ cs
unfolding after_prefix
after_prefix-hex_byte b cs =
    rw (prefix-hex_digit (b % 16) (omega arith), and_false (hex_digit (b / 16) == 48)) refl

-- What ends a number.
abbrev IsEnd : List ℕ → Type 0
IsEnd cs = (n : ℕ) → more_digits n cs ≡ (n, cs)

digits-hex_byte :
    (b : ℕ) (cs : List ℕ) → b < 256 → IsEnd cs → digits (hex_byte b ++ cs) ≡ some (b, cs)
unfolding digits more_digits
digits-hex_byte b cs h e =
    rw
      (
        hex_value-hex_digit (b / 16) (omega arith),
        hex_value-hex_digit (b % 16) (omega arith),
        byte_digits b,
      )
      (ap some (e b))

scan_hex-hex_byte :
    (b : ℕ) (cs : List ℕ) → b < 256 → IsEnd cs → scan_hex (hex_byte b ++ cs) ≡ some (b, cs)
unfolding scan_hex skip_spaces signed
scan_hex-hex_byte b cs h e =
    let s = sign-hex_digit (b / 16) (omega arith) in
    rw (is_space-hex_digit (b / 16) (omega arith), s.0, s.1, after_prefix-hex_byte b cs)
      (digits-hex_byte b cs h e)

nil-IsEnd : IsEnd []
unfolding more_digits
nil-IsEnd n = refl

colon-IsEnd : (cs : List ℕ) → IsEnd (58 ∷ cs)
unfolding more_digits hex_value
colon-IsEnd cs n = refl

scan_fields-get_mac :
    (n : ℕ) (address : List ℕ)
    → length address ≡ suc n
    → All IsByte address
    → scan_fields n (get_mac_from_device_address address) ≡ some address
unfolding scan_fields get_mac_from_device_address
scan_fields-get_mac n [] e h = absurd (omega arith)
scan_fields-get_mac zero (b ∷ []) e h =
    ap (then_fields zero (λ _. none)) (scan_hex-hex_byte b [] h.0 nil-IsEnd)
scan_fields-get_mac (suc n) (b ∷ []) e h = absurd (omega arith)
scan_fields-get_mac zero (b ∷ c ∷ bs) e h = absurd (omega arith)
scan_fields-get_mac (suc n) (b ∷ c ∷ bs) e h =
    let rest = get_mac_from_device_address (c ∷ bs) in
    ap (then_fields (suc n) (λ r. scan_fields n r))
      (scan_hex-hex_byte b (58 ∷ rest) h.0 (colon-IsEnd rest))
    ∙ ap (put_first b) (scan_fields-get_mac n (c ∷ bs) (omega arith) h.1)

hex_digit-nonzero : (d : ℕ) → (hex_digit d == 0) ≡ false
unfolding hex_digit
hex_digit-nonzero d = ground arith

c_str-get_mac :
    (address : List ℕ)
    → c_str (get_mac_from_device_address address) ≡ get_mac_from_device_address address
unfolding c_str get_mac_from_device_address
c_str-get_mac [] = refl
c_str-get_mac (b ∷ []) = rw (hex_digit-nonzero (b / 16), hex_digit-nonzero (b % 16)) refl
c_str-get_mac (b ∷ c ∷ bs) =
    rw (hex_digit-nonzero (b / 16), hex_digit-nonzero (b % 16), c_str-get_mac (c ∷ bs)) refl

length-get_mac :
    (b : ℕ) (bs : List ℕ) → length (get_mac_from_device_address (b ∷ bs)) ≡ 3 * length (b ∷ bs) - 1
unfolding get_mac_from_device_address
length-get_mac b [] = refl
length-get_mac b (c ∷ bs) = omega (arith, length-get_mac c bs)

low_bytes-bytes : (address : List ℕ) → All IsByte address → low_bytes address ≡ address
unfolding low_bytes
low_bytes-bytes [] h = refl
low_bytes-bytes (b ∷ bs) h = rw (mod-eq_of_lt h.0, low_bytes-bytes bs h.1) refl

overlay-all : (dst src : List ℕ) → length dst ≡ length src → overlay dst src ≡ src
unfolding overlay
overlay-all [] [] e = refl
overlay-all [] (_ ∷ _) e = absurd (omega arith)
overlay-all (_ ∷ _) [] e = absurd (omega arith)
overlay-all (d ∷ ds) (b ∷ bs) e = ap (λ l. b ∷ l) (overlay-all ds bs (omega arith))

-- getDeviceAddressFromMac reads the text of getMacFromDeviceAddress back, whatever the local array
-- held before. A device_address is 6 bytes.
pub get_device_address_from_mac-get_mac :
    (bytes address : List ℕ)
    → length bytes ≡ 6
    → length address ≡ 6
    → All IsByte address
    → get_device_address_from_mac bytes (get_mac_from_device_address address) ≡ some address
unfolding get_device_address_from_mac
get_device_address_from_mac-get_mac bytes [] l e h = absurd (omega arith)
get_device_address_from_mac-get_mac bytes (b ∷ bs) l e h =
    let address = b ∷ bs in
    rw
      (
        length-get_mac b bs,
        e,
        c_str-get_mac address,
        scan_fields-get_mac 5 address e h,
        low_bytes-bytes address h,
      )
      (ap some (overlay-all bytes address (l ∙ sym e)))
