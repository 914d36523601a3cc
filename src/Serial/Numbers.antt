-- ===== src/Serial/Numbers.antt =====
-- Numbers and words in the lines of LinuxSerialSocket.cpp: parseLong, strsep, and std::to_string of a
-- byte.
use linux_mqtt_sn_gateway.Base.{
  ℕ, zero, suc, ◌+◌, ◌-◌, ◌*◌, ◌/◌, ◌%◌, ◌^◌, ◌<◌, ◌≡◌, refl, Bool, true, false, not, ◌&&◌, ◌||◌,
  Option, none, some, List, [], ◌∷◌, ◌++◌, All, leb, ltb, ◌==◌, if◌then◌else◌, arith,
}

-- `strtol` returns a sign and a magnitude here, before it is cut to a `long`.
pub record Long : Type 0 where
  pub negative : Bool
  pub magnitude : ℕ

abbrev pub within : ℕ → ℕ → ℕ → Bool
within lo hi c = leb lo c && leb c hi

-- The value of a digit or letter; 36 for any other byte.
abbrev pub digit_of : ℕ → ℕ
digit_of c =
    if within b'0' b'9' c
    then c - 48
    else if within b'a' b'z' c
    then c - 87
    else if within b'A' b'Z' c
    then c - 55
    else 36

-- The number that the leading digits of a base give after `n`, and what follows them.
unfoldable pub digits_in : ℕ → ℕ → List ℕ → ℕ × List ℕ
digits_in base n [] = (n, [])
digits_in base n (c ∷ r) =
    let rest = digits_in base (n * base + digit_of c) r in
    if ltb (digit_of c) base then rest else (n, c ∷ r)

abbrev pub signed : Bool → ℕ × List ℕ → Option (Long × List ℕ)
signed negative (n, r) = some (record { negative = negative; magnitude = n }, r)

abbrev pub starts_with_digit : ℕ → List ℕ → Bool
starts_with_digit base [] = false
starts_with_digit base (c ∷ _) = ltb (digit_of c) base

abbrev pub in_base : Bool → ℕ → List ℕ → Option (Long × List ℕ)
in_base negative base s =
    if starts_with_digit base s then signed negative (digits_in base 0 s) else none

-- `0x` needs a hexadecimal digit behind it; otherwise the number is the `0`.
abbrev pub after_zero : Bool → List ℕ → Option (Long × List ℕ)
after_zero negative [] = signed negative (0, [])
after_zero negative (x ∷ r) =
    if (x == b'x' || x == b'X') && starts_with_digit 16 r
    then signed negative (digits_in 16 0 r)
    else signed negative (digits_in 8 0 (x ∷ r))

abbrev pub unsigned_part : Bool → List ℕ → Option (Long × List ℕ)
unsigned_part negative [] = none
unsigned_part negative (c ∷ r) =
    if c == b'0' then after_zero negative r else in_base negative 10 (c ∷ r)

abbrev pub sign_part : List ℕ → Option (Long × List ℕ)
sign_part [] = none
sign_part (c ∷ r) =
    if c == b'-'
    then unsigned_part true r
    else if c == b'+'
    then unsigned_part false r
    else unsigned_part false (c ∷ r)

-- `strtol(str, &temp, 0)`; `none` where `temp == str`.
unfoldable pub strtol : List ℕ → Option (Long × List ℕ)
unfolding digits_in
strtol [] = none
strtol (c ∷ r) = let rest = strtol r in if c == 32 || within 9 13 c then rest else sign_part (c ∷ r)

abbrev pub at_end : List ℕ → Bool
at_end [] = true
at_end (c ∷ _) = c == 0 || c == 10

abbrev pub out_of_range : Long → Bool
out_of_range v = if v.negative then ltb (2 ^ 63) v.magnitude else ltb (2 ^ 63 - 1) v.magnitude

abbrev pub checked : Option (Long × List ℕ) → Option Long
checked none = none
checked (some (v, rest)) = if at_end rest && not (out_of_range v) then some v else none

-- `parseLong`; `none` where it returns false.
unfoldable pub parse_long : List ℕ → Option Long
unfolding strtol
parse_long s = checked (strtol s)

abbrev pub to_byte : Option Long → Option ℕ
to_byte none = none
to_byte (some v) =
    if ltb 255 v.magnitude || (v.negative && not (v.magnitude == 0)) then none else some v.magnitude

-- `parseLong`, and the test `number > UINT8_MAX || number < 0` behind each of its calls.
unfoldable pub parse_byte : List ℕ → Option ℕ
unfolding parse_long
parse_byte s = to_byte (parse_long s)

-- `std::to_string` of a `uint8_t`.
unfoldable pub to_string : ℕ → List ℕ
to_string n =
    if ltb n 10
    then (48 + n) ∷ []
    else if ltb n 100
    then (48 + n / 10) ∷ (48 + n % 10) ∷ []
    else (48 + n / 100) ∷ (48 + n / 10 % 10) ∷ (48 + n % 10) ∷ []

abbrev pub cons_head : ℕ → List (List ℕ) → List (List ℕ)
cons_head c [] = (c ∷ []) ∷ []
cons_head c (t ∷ ts) = (c ∷ t) ∷ ts

-- The words that successive calls of `strsep(&buffer_p, " ")` return.
unfoldable pub split : List ℕ → List (List ℕ)
split [] = [] ∷ []
split (c ∷ r) = let rest = split r in if c == 32 then [] ∷ rest else cons_head c rest

-- `memcmp(token, word, strlen(word)) == 0`, behind the word stands a NUL.
unfoldable pub starts_with : List ℕ → List ℕ → Bool
starts_with [] s = true
starts_with (w ∷ ws) [] = false
starts_with (w ∷ ws) (c ∷ s) = w == c && starts_with ws s

-- Every byte is written and read back, at the end of a word and at the end of a line.
module _ (p : ℕ → Bool) where
  -- The test holds at the first `count` numbers.
  passes : ℕ → Bool
  passes zero = true
  passes (suc count) = passes count && p count

  passes-at : (count x : ℕ) → x < count → passes count ≡ true → p x ≡ true
  unfolding passes
  passes-at zero x lt h = absurd (omega arith)
  passes-at (suc count) x lt h = ground (arith, passes-at count x)

abbrev is_byte : ℕ → Option ℕ → Bool
is_byte b none = false
is_byte b (some n) = n == b

word_table : passes (λ b. is_byte b (parse_byte (to_string b))) 256 ≡ true
unfolding passes parse_byte to_string
word_table = refl

line_table : passes (λ b. is_byte b (parse_byte (to_string b ++ 10 ∷ []))) 256 ≡ true
unfolding passes parse_byte to_string
line_table = refl

is_byte-some : (b : ℕ) (o : Option ℕ) → is_byte b o ≡ true → o ≡ some b
is_byte-some b none h = absurd (ground arith)
is_byte-some b (some n) h = ground arith

pub parse_byte-to_string : (b : ℕ) → b < 256 → parse_byte (to_string b) ≡ some b
parse_byte-to_string b h =
    is_byte-some b (parse_byte (to_string b))
      (passes-at (λ n. is_byte n (parse_byte (to_string n))) 256 b h word_table)

pub parse_byte-to_string_line : (b : ℕ) → b < 256 → parse_byte (to_string b ++ 10 ∷ []) ≡ some b
parse_byte-to_string_line b h =
    is_byte-some b (parse_byte (to_string b ++ 10 ∷ []))
      (passes-at (λ n. is_byte n (parse_byte (to_string n ++ 10 ∷ []))) 256 b h line_table)

abbrev pub IsWord : List ℕ → Type 0
IsWord = All (λ c. (32 < c) × (c < 256))

pub to_string-IsWord : (b : ℕ) → b < 256 → IsWord (to_string b)
unfolding to_string
to_string-IsWord b h = ground arith

-- A word ends at a space.
pub split-space : (t r : List ℕ) → IsWord t → split (t ++ 32 ∷ r) ≡ t ∷ split r
unfolding split
split-space [] r h = refl
split-space (c ∷ t) r h = ground (arith, split-space t r h.1)

-- The last word takes the end of the line with it.
pub split-line : (t : List ℕ) → IsWord t → split (t ++ 10 ∷ []) ≡ (t ++ 10 ∷ []) ∷ []
unfolding split
split-line [] h = refl
split-line (c ∷ t) h = ground (arith, split-line t h.1)

pub starts_with-append : (w s : List ℕ) → starts_with w (w ++ s) ≡ true
unfolding starts_with
starts_with-append [] s = refl
starts_with-append (c ∷ w) s = ground (arith, starts_with-append w s)
