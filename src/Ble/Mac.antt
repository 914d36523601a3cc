-- ===== src/Ble/Mac.antt =====
-- The two conversions of BLESocket.cpp between a device_address and the text of a MAC address.
use linux_mqtt_sn_gateway.Base.{
  ℕ, zero, suc, ◌+◌, ◌-◌, ◌*◌, ◌/◌, ◌%◌, Bool, ◌&&◌, ◌||◌, Option, none, some, List, [], ◌∷◌, ◌++◌,
  ◌==◌, ltb, leb, if◌then◌else◌, length, c_str, overlay,
}

-- A digit of `std::hex` and `std::uppercase`.
unfoldable pub hex_digit : ℕ → ℕ
hex_digit d = if ltb d 10 then 48 + d else 55 + d

-- A byte with `std::setw(2)` and the fill character 0.
abbrev pub hex_byte : ℕ → List ℕ
hex_byte b = hex_digit (b / 16) ∷ hex_digit (b % 16) ∷ []

-- `getMacFromDeviceAddress`
unfoldable pub get_mac_from_device_address : List ℕ → List ℕ
get_mac_from_device_address [] = []
get_mac_from_device_address (b ∷ []) = hex_byte b
get_mac_from_device_address (b ∷ c ∷ bs) = hex_byte b ++ 58 ∷ get_mac_from_device_address (c ∷ bs)

-- `isspace`
unfoldable pub is_space : ℕ → Bool
is_space c = c == 32 || leb 9 c && leb c 13

-- The value of a hexadecimal digit.
unfoldable pub hex_value : ℕ → Option ℕ
hex_value c =
    if leb 48 c && leb c 57
    then some (c - 48)
    else if leb 65 c && leb c 70
    then some (c - 55)
    else if leb 97 c && leb c 102
    then some (c - 87)
    else none

unfoldable pub skip_spaces : List ℕ → List ℕ
skip_spaces [] = []
skip_spaces (c ∷ cs) = if is_space c then skip_spaces cs else c ∷ cs

abbrev pub further : Option ℕ → ℕ × List ℕ → (ℕ → ℕ × List ℕ) → ℕ × List ℕ
further none stop go = stop
further (some d) stop go = go d

-- The digits behind the first, from the number so far: the number and the rest of the text.
unfoldable pub more_digits : ℕ → List ℕ → ℕ × List ℕ
more_digits n [] = (n, [])
more_digits n (c ∷ cs) = further (hex_value c) (n, c ∷ cs) (λ d. more_digits (n * 16 + d) cs)

-- The digits, where there is a first.
abbrev pub from_first : Option ℕ → List ℕ → Option (ℕ × List ℕ)
from_first none cs = none
from_first (some d) cs = some (more_digits d cs)

unfoldable pub digits : List ℕ → Option (ℕ × List ℕ)
digits [] = none
digits (c ∷ cs) = from_first (hex_value c) cs

-- The letters of a prefix 0x or 0X.
unfoldable pub after_prefix : List ℕ → List ℕ
after_prefix (c ∷ x ∷ cs) = if c == 48 && (x == 120 || x == 88) then cs else c ∷ x ∷ cs
after_prefix cs = cs

abbrev pub negated : Option (ℕ × List ℕ) → Option (ℕ × List ℕ)
negated none = none
negated (some (n, cs)) = some ((256 - n % 256) % 256, cs)

-- A number of `%x`, of which only the lowest byte matters, and the text behind it.
unfoldable pub signed : List ℕ → Option (ℕ × List ℕ)
signed [] = none
signed (c ∷ cs) =
    if c == 45
    then negated (digits (after_prefix cs))
    else if c == 43
    then digits (after_prefix cs)
    else digits (after_prefix (c ∷ cs))

unfoldable pub scan_hex : List ℕ → Option (ℕ × List ℕ)
scan_hex cs = signed (skip_spaces cs)

abbrev pub put_first : ℕ → Option (List ℕ) → Option (List ℕ)
put_first n none = none
put_first n (some ns) = some (n ∷ ns)

-- What a number of `%x` is followed by: the end behind the last, as `%c` must convert nothing, and a
-- colon with the next number behind another.
abbrev pub then_fields : ℕ → (List ℕ → Option (List ℕ)) → Option (ℕ × List ℕ) → Option (List ℕ)
then_fields zero next (some (n, [])) = some (n ∷ [])
then_fields (suc _) next (some (n, c ∷ cs)) = if c == 58 then put_first n (next cs) else none
then_fields _ next _ = none

-- The numbers of `sscanf`, where it converts `suc n` of them and no more.
unfoldable pub scan_fields : ℕ → List ℕ → Option (List ℕ)
scan_fields zero cs = then_fields zero (λ _. none) (scan_hex cs)
scan_fields (suc n) cs = then_fields (suc n) (λ r. scan_fields n r) (scan_hex cs)

-- `(uint8_t) values[i]`
unfoldable pub low_bytes : List ℕ → List ℕ
low_bytes [] = []
low_bytes (n ∷ ns) = n % 256 ∷ low_bytes ns

abbrev pub stored : List ℕ → Option (List ℕ) → List ℕ
stored bytes none = bytes
stored bytes (some values) = overlay bytes (low_bytes values)

-- `getDeviceAddressFromMac`, with the bytes of the uninitialised local first; none is the exception.
unfoldable pub get_device_address_from_mac : List ℕ → List ℕ → Option (List ℕ)
get_device_address_from_mac bytes mac =
    if length mac == 17 then some (stored bytes (scan_fields 5 (c_str mac))) else none
