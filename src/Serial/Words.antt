-- ===== src/Serial/Words.antt =====
-- The lines that `sendAddress` and `sendData` write, as the tokens that a `read…` method finds in them.
use linux_mqtt_sn_gateway.Base.{
  ℕ, ◌+◌, ◌*◌, ◌≤◌, ◌<◌, ◌≡◌, ap, ◌∙◌, some, List, [], ◌∷◌, ◌++◌, length, All, IsByte,
  length-append, append_assoc, append-nil, arith,
}
use linux_mqtt_sn_gateway.Serial.Numbers.{
  to_string, split, parse_byte, parse_byte-to_string, parse_byte-to_string_line, IsWord,
  to_string-IsWord, split-space, split-line,
}
use linux_mqtt_sn_gateway.Serial.State.{Bridge, done}
use linux_mqtt_sn_gateway.Serial.Read.{fill, fill_data}
use linux_mqtt_sn_gateway.Serial.Commands.{line_of, write_numbers}
use linux_mqtt_sn_gateway.Serial.Waiting.{IsPlain}

-- What `write_numbers` writes.
abbrev pub numbers : List ℕ → List ℕ
numbers [] = []
numbers (n ∷ bytes) = 32 ∷ (to_string n ++ numbers bytes)

pub write_numbers_lem :
    (bytes : List ℕ) (b : Bridge)
    → write_numbers bytes b ≡ done tt (record b { output = b.output ++ numbers bytes })
unfolding write_numbers
write_numbers_lem [] b = rw (append-nil b.output)
write_numbers_lem (n ∷ bytes) b =
    let out = (b.output ++ 32 ∷ []) ++ to_string n in
    let e : out ++ numbers bytes ≡ b.output ++ 32 ∷ (to_string n ++ numbers bytes) =
      append_assoc (b.output ++ 32 ∷ []) (to_string n) (numbers bytes)
      ∙ append_assoc b.output (32 ∷ []) (to_string n ++ numbers bytes) in
    write_numbers_lem bytes (record b { output = out })
    ∙ ap (λ o. done tt (record b { output = o })) e

-- The tokens of the word `t`, the numbers behind it and the end of the line.
abbrev pub tokens_of : List ℕ → List ℕ → List (List ℕ)
tokens_of t [] = line_of t ∷ []
tokens_of t (n ∷ bytes) = t ∷ tokens_of (to_string n) bytes

pub split-tokens_of :
    (t bytes : List ℕ)
    → IsWord t
    → All IsByte bytes
    → split (line_of (t ++ numbers bytes)) ≡ tokens_of t bytes
split-tokens_of t [] h k = ap (λ l. split (line_of l)) (append-nil t) ∙ split-line t h
split-tokens_of t (n ∷ bytes) h k =
    ap split (append_assoc t (32 ∷ (to_string n ++ numbers bytes)) (10 ∷ []))
    ∙ split-space t (line_of (to_string n ++ numbers bytes)) h
    ∙ ap (λ l. t ∷ l) (split-tokens_of (to_string n) bytes (to_string-IsWord n k.0) k.1)

fill-step :
    (size : ℕ) (so_far : List ℕ) (t : List ℕ) (n : ℕ) (ts : List (List ℕ))
    → parse_byte t ≡ some n
    → length so_far < size
    → fill size so_far (t ∷ ts) ≡ fill size (so_far ++ n ∷ []) ts
unfolding fill
fill-step size so_far t n ts h lt = ground (arith, h)

fill_data-step :
    (so_far : List ℕ) (t : List ℕ) (n : ℕ) (ts : List (List ℕ))
    → parse_byte t ≡ some n
    → fill_data so_far (t ∷ ts) ≡ fill_data (so_far ++ n ∷ []) ts
unfolding fill_data
fill_data-step so_far t n ts h = ground (arith, h)

pub fill-tokens_of :
    (size : ℕ) (so_far : List ℕ) (n : ℕ) (bytes : List ℕ)
    → All IsByte (n ∷ bytes)
    → length so_far + length (n ∷ bytes) ≤ size
    → fill size so_far (tokens_of (to_string n) bytes) ≡ some (so_far ++ n ∷ bytes)
unfolding fill
fill-tokens_of size so_far n [] h le =
    fill-step size so_far (line_of (to_string n)) n [] (parse_byte-to_string_line n h.0)
      (omega arith)
fill-tokens_of size so_far n (m ∷ bytes) h le =
    fill-step size so_far (to_string n) n (tokens_of (to_string m) bytes)
      (parse_byte-to_string n h.0) (omega arith)
    ∙ fill-tokens_of size (so_far ++ n ∷ []) m bytes h.1
        (omega (arith, length-append so_far (n ∷ [])))
    ∙ ap some (append_assoc so_far (n ∷ []) (m ∷ bytes))

pub fill_data-tokens_of :
    (so_far : List ℕ) (n : ℕ) (bytes : List ℕ)
    → All IsByte (n ∷ bytes)
    → fill_data so_far (tokens_of (to_string n) bytes) ≡ some (so_far ++ n ∷ bytes)
unfolding fill_data
fill_data-tokens_of so_far n [] h =
    fill_data-step so_far (line_of (to_string n)) n [] (parse_byte-to_string_line n h.0)
fill_data-tokens_of so_far n (m ∷ bytes) h =
    fill_data-step so_far (to_string n) n (tokens_of (to_string m) bytes)
      (parse_byte-to_string n h.0)
    ∙ fill_data-tokens_of (so_far ++ n ∷ []) m bytes h.1
    ∙ ap some (append_assoc so_far (n ∷ []) (m ∷ bytes))

-- The line has no other end and no NUL.
append-IsPlain : (t r : List ℕ) → IsWord t → IsPlain r → IsPlain (t ++ r)
append-IsPlain [] r h k = k
append-IsPlain (c ∷ t) r h k = ((omega arith, omega arith), append-IsPlain t r h.1 k)

pub numbers-IsPlain : (bytes : List ℕ) → All IsByte bytes → IsPlain (numbers bytes)
numbers-IsPlain [] h = tt
numbers-IsPlain (n ∷ bytes) h = (
  (omega arith, omega arith),
  append-IsPlain (to_string n) (numbers bytes) (to_string-IsWord n h.0) (numbers-IsPlain bytes h.1),
)

-- A number takes at most four bytes with its space, and from 100 on all four.
pub length-numbers_le : (bytes : List ℕ) → length (numbers bytes) ≤ 4 * length bytes
unfolding to_string
length-numbers_le [] = omega arith
length-numbers_le (n ∷ bytes) =
    ground (arith, length-append (to_string n) (numbers bytes), length-numbers_le bytes)

pub length-numbers :
    (bytes : List ℕ) → All (λ n. 100 ≤ n) bytes → length (numbers bytes) ≡ 4 * length bytes
unfolding to_string
length-numbers [] h = omega arith
length-numbers (n ∷ bytes) h =
    ground (arith, length-append (to_string n) (numbers bytes), length-numbers bytes h.1)
