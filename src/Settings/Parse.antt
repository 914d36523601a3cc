-- ===== src/Settings/Parse.antt =====
-- The parsers of a value behind a space in Implementation/LinuxPersistent.h: `parse_string_after_space`,
-- `parse_uint16_t_after_space`, `parse_uint8_t_after_space` and `parse_ipaddress_after_space`. `source`
-- is the buffer of a line from its first byte on, and `max` the length of the line with its NUL.
use linux_mqtt_sn_gateway.Base.{
  ℕ, zero, suc, ◌+◌, ◌-◌, ◌*◌, ◌%◌, Bool, true, false, not, ◌&&◌, ◌||◌, Option, none, some, List,
  [], ◌∷◌, length, take, leb, ltb, ◌==◌, if◌then◌else◌, c_str, overlay,
}

abbrev pub newline_next : List ℕ → Bool
newline_next [] = false
newline_next (c ∷ _) = c == 10

-- The loop that looks for the space: `start`, and the bytes behind the space.
unfoldable pub find_space : ℕ → ℕ → List ℕ → Option (ℕ × List ℕ)
find_space max start [] = none
find_space max start (c ∷ source) =
    let rest = find_space max (suc start) source in
    if c == 32
    then some (start, source)
    else if newline_next source || suc start == max
    then none
    else rest

-- The loop that looks for the end of the value.
unfoldable pub find_end : ℕ → ℕ → List ℕ → Option ℕ
find_end max end [] = none
find_end max end (c ∷ source) =
    let rest = find_end max (suc end) source in
    if c == 10 || c == 0 then some end else if ltb max (suc end) then none else rest

-- Both loops, and the test `start + 1 < max && start != end` behind them: the bytes
-- `source[start + 1 .. end]` that are then copied.
abbrev pub copied : ℕ → ℕ → List ℕ → Option ℕ → Option (List ℕ)
copied max start value none = none
copied max start value (some end) =
    if ltb (start + 1) max && not (start == end) then some (take (end - start) value) else none

abbrev pub value_behind : ℕ → Option (ℕ × List ℕ) → Option (List ℕ)
value_behind max none = none
value_behind max (some (start, value)) = copied max start value (find_end max start value)

unfoldable pub value_of : List ℕ → ℕ → Option (List ℕ)
value_of source max = value_behind max (find_space max 0 source)

abbrev pub stored_string : List ℕ → Option (List ℕ) → Option (Bool × List ℕ)
stored_string destination none = some (false, destination)
stored_string destination (some value) =
    if leb (length destination) (length value)
    then none
    else some (not (length (c_str (overlay destination value)) == 0), overlay destination value)

-- `parse_string_after_space` into an array; `none` if the value leaves no room for a NUL in it.
unfoldable pub parse_string_after_space : List ℕ → List ℕ → ℕ → Option (Bool × List ℕ)
parse_string_after_space destination source max = stored_string destination (value_of source max)

-- The decimal digits that `atoi` reads behind `n`.
unfoldable pub decimal : ℕ → List ℕ → ℕ
decimal n [] = n
decimal n (c ∷ s) =
    let rest = decimal (n * 10 + (c - 48)) s in if leb 48 c && leb c 57 then rest else n

-- `(uint16_t) atoi(s)` and `(uint8_t) atoi(s)` for `modulus` 65536 and 256.
abbrev pub sign_of : ℕ → List ℕ → ℕ
sign_of modulus [] = 0
sign_of modulus (c ∷ s) =
    if c == 45
    then (modulus - decimal 0 s % modulus) % modulus
    else if c == 43
    then decimal 0 s % modulus
    else decimal 0 (c ∷ s) % modulus

unfoldable pub atoi : ℕ → List ℕ → ℕ
unfolding decimal
atoi modulus [] = 0
atoi modulus (c ∷ s) =
    let rest = atoi modulus s in
    if c == 32 || leb 9 c && leb c 13 then rest else sign_of modulus (c ∷ s)

abbrev pub stored_uint16 : ℕ → Option (List ℕ) → Bool × ℕ
stored_uint16 destination none = (false, destination)
stored_uint16 destination (some value) =
    if leb (length value) 6
    then (not (atoi 65536 value == 0), atoi 65536 value)
    else (false, destination)

-- `parse_uint16_t_after_space`
unfoldable pub parse_uint16_t_after_space : ℕ → List ℕ → ℕ → Bool × ℕ
parse_uint16_t_after_space destination source max = stored_uint16 destination (value_of source max)

abbrev pub stored_uint8 : ℕ → Option (List ℕ) → Bool × ℕ
stored_uint8 destination none = (false, destination)
stored_uint8 destination (some value) =
    if leb (length value) 3 then (true, atoi 256 value) else (false, destination)

-- `parse_uint8_t_after_space`
unfoldable pub parse_uint8_t_after_space : ℕ → List ℕ → ℕ → Bool × ℕ
parse_uint8_t_after_space destination source max = stored_uint8 destination (value_of source max)

abbrev pub cons_piece : ℕ → List (List ℕ) → List (List ℕ)
cons_piece c [] = (c ∷ []) ∷ []
cons_piece c (t ∷ ts) = (c ∷ t) ∷ ts

-- The pieces between the separators, empty ones too.
unfoldable pub pieces : ℕ → List ℕ → List (List ℕ)
pieces separator [] = [] ∷ []
pieces separator (c ∷ s) =
    let rest = pieces separator s in if c == separator then [] ∷ rest else cons_piece c rest

unfoldable pub nonempty : List (List ℕ) → List (List ℕ)
nonempty [] = []
nonempty ([] ∷ ts) = nonempty ts
nonempty ((c ∷ t) ∷ ts) = (c ∷ t) ∷ nonempty ts

-- The tokens that successive calls of `strtok` return: never an empty one.
unfoldable pub strtok : ℕ → List ℕ → List (List ℕ)
strtok separator s = nonempty (pieces separator s)

abbrev pub set_byte : List ℕ → ℕ → ℕ → List ℕ
set_byte [] i x = []
set_byte (b ∷ bs) zero x = x ∷ bs
set_byte (b ∷ bs) (suc i) x = b ∷ set_byte bs i x

-- `while (found)`, with `numbers` bytes of the address stored.
unfoldable pub fill_ip : List ℕ → ℕ → List (List ℕ) → Bool × List ℕ
unfolding atoi
fill_ip destination numbers [] = (false, destination)
fill_ip destination numbers (t ∷ []) =
    if ltb 255 (atoi 65536 t)
    then (false, destination)
    else (suc numbers == 4, set_byte destination numbers (atoi 65536 t))
fill_ip destination numbers (t ∷ u ∷ ts) =
    let stored = set_byte destination numbers (atoi 65536 t) in
    let rest = fill_ip stored (suc numbers) (u ∷ ts) in
    if ltb 255 (atoi 65536 t)
    then (false, destination)
    else if suc numbers == 4
    then (false, stored)
    else rest

abbrev pub stored_ip : List ℕ → Option (List ℕ) → Bool × List ℕ
stored_ip destination none = (false, destination)
stored_ip destination (some value) =
    if ltb (length value) 17 && ltb 7 (length value)
    then fill_ip destination 0 (strtok 46 value)
    else (false, destination)

-- `parse_ipaddress_after_space`
unfoldable pub parse_ipaddress_after_space : List ℕ → List ℕ → ℕ → Bool × List ℕ
parse_ipaddress_after_space destination source max = stored_ip destination (value_of source max)
