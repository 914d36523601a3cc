-- ===== src/Settings/Entries.antt =====
-- A line `key value` of a configuration file, in the buffer of the getters of
-- Implementation/LinuxPersistent.cpp.
use linux_mqtt_sn_gateway.Base.{
  ℕ, suc, ◌+◌, ◌-◌, ◌<◌, ◌≤◌, ◌≡◌, ◌≢◌, refl, ap, ◌∙◌, some, List, [], ◌∷◌, ◌++◌, length,
  length-append, All, All-append, replicate, c_str, arith,
}
use linux_mqtt_sn_gateway.Settings.Lines.{buffer_of, FitsLine}
use linux_mqtt_sn_gateway.Settings.Parse.{value_of}
use linux_mqtt_sn_gateway.Settings.Values.{
  IsLineText, behind_space, some_text, some_text-nonempty, value_of-buffer,
}
use linux_mqtt_sn_gateway.Settings.Getters.{line_length}

abbrev pub entry : List ℕ → List ℕ → List ℕ
entry key value = key ++ 32 ∷ value

-- A key without a space.
abbrev pub IsKey : List ℕ → Type 0
IsKey = All (λ c. (c ≢ 10) × (c ≢ 0) × (c ≢ 32))

-- A line of a buffer of `size` bytes.
abbrev pub IsEntry : ℕ → List ℕ → List ℕ → Type 0
IsEntry size key value =
    IsKey key × IsLineText value × (1 ≤ length value) × (length key + length value + 1 < size)

behind_space-entry :
    (key value : List ℕ) → IsKey key → behind_space (entry key value) ≡ some_text value
unfolding behind_space
behind_space-entry [] value h = refl
behind_space-entry (c ∷ key) value h = ground (arith, behind_space-entry key value h.1)

key-IsLineText : (key : List ℕ) → IsKey key → IsLineText key
key-IsLineText [] h = tt
key-IsLineText (c ∷ key) h = ((h.0.0, h.0.1), key-IsLineText key h.1)

pub entry-IsLineText :
    (size : ℕ) (key value : List ℕ) → IsEntry size key value → IsLineText (entry key value)
entry-IsLineText size key value h =
    All-append (λ c. (c ≢ 10) × (c ≢ 0)) key (32 ∷ value) (key-IsLineText key h.0)
      ((omega arith, omega arith), h.1)

text-IsOneLine : (s : List ℕ) → IsLineText s → All (λ c. c ≢ 10) s
text-IsOneLine [] h = tt
text-IsOneLine (c ∷ s) h = (h.0.0, text-IsOneLine s h.1)

pub entry-FitsLine :
    (size : ℕ) (key value : List ℕ) → IsEntry size key value → FitsLine size (entry key value)
entry-FitsLine size key value h = (
  text-IsOneLine (entry key value) (entry-IsLineText size key value h),
  omega (arith, length-append key (32 ∷ value)),
  omega (arith, length-append key (32 ∷ value), h),
)

c_str-padded : (s : List ℕ) (k : ℕ) → IsLineText s → c_str (s ++ replicate (suc k) 0) ≡ s
unfolding c_str
c_str-padded [] k h = refl
c_str-padded (c ∷ s) k h = ground (arith, c_str-padded s k h.1)

positive : (n : ℕ) → 1 ≤ n → n ≡ suc (n - 1)
positive n h = omega arith

-- The buffer of a text that fits ends with a NUL.
pub buffer_of-text :
    (size : ℕ) (s : List ℕ)
    → length s < size
    → buffer_of size s ≡ s ++ replicate (suc (size - length s - 1)) 0
buffer_of-text size s lt = ap (λ n. s ++ replicate n 0) (positive (size - length s) (omega arith))

pub line_length-buffer_of :
    (size : ℕ) (s : List ℕ)
    → IsLineText s
    → length s < size
    → line_length (buffer_of size s) ≡ length s + 1
line_length-buffer_of size s h lt =
    ap line_length (buffer_of-text size s lt)
    ∙ ap (λ l. length l + 1) (c_str-padded s (size - length s - 1) h)

pub value_of-entry :
    (size : ℕ) (key value : List ℕ)
    → IsEntry size key value
    → value_of (buffer_of size (entry key value)) (line_length (buffer_of size (entry key value)))
      ≡ some value
value_of-entry size key value h =
    let e = entry key value in
    let text = entry-IsLineText size key value h in
    let lt : length e < size = (entry-FitsLine size key value h).2 in
    ap (value_of (buffer_of size e)) (line_length-buffer_of size e text lt)
    ∙ ap (λ b. value_of b (length e + 1)) (buffer_of-text size e lt)
    ∙ value_of-buffer e (size - length e - 1) text
    ∙ behind_space-entry key value h.0
    ∙ some_text-nonempty value h.2
