-- ===== src/Serial/Configuration.antt =====
-- The lines that `updateConfiguration` of LinuxSerialSocket.cpp reads, each with its method.
use linux_mqtt_sn_gateway.Base.{
  ℕ, ◌+◌, ◌-◌, ◌≤◌, ◌<◌, ◌≡◌, refl, sym, ap, ◌∙◌, true, false, Option, none, some, List, [], ◌∷◌,
  ◌++◌, length, All, IsByte, length-append, append_assoc, append-nil, replicate, codes, leb, ◌==◌,
  if◌then◌else◌, arith,
}
use linux_mqtt_sn_gateway.Serial.Numbers.{
  to_string, starts_with, IsWord, split-space, split-line, parse_byte, parse_byte-to_string,
  parse_byte-to_string_line,
}
use linux_mqtt_sn_gateway.Serial.State.{Bridge, done, >>=-done}
use linux_mqtt_sn_gateway.Serial.Lines.{read_tokens}
use linux_mqtt_sn_gateway.Serial.Read.{
  fill_own, fill_broadcast, is_status, last_number, keyed_number, read_status, read_own_address,
  read_broadcast_address, read_maximum_message_length, read_serial_buffer_size,
}
use linux_mqtt_sn_gateway.Serial.Commands.{line_of}
use linux_mqtt_sn_gateway.Serial.Waiting.{IsPlain}
use linux_mqtt_sn_gateway.Serial.Words.{numbers, tokens_of, length-numbers_le}
use linux_mqtt_sn_gateway.Serial.RoundTrip.{
  number_tokens, read_tokens-line_of, starts_with-same, keyed-tokens_of, read_keyed,
}

-- A number is not `N/A`.
to_string-not_available :
    (n : ℕ) (r : List ℕ) → n < 256 → starts_with (codes "N/A") (to_string n ++ r) ≡ false
unfolding starts_with to_string
to_string-not_available n r h = ground arith

lt-leb : (m n : ℕ) → n < m → leb m n ≡ false
lt-leb m n h = ground arith

minus_same : (n : ℕ) → n - n ≡ 0
minus_same n = omega arith

-- A word that holds the number `n`.
abbrev Holds : ℕ → List ℕ → Type 0
Holds n t = (parse_byte t ≡ some n) × (starts_with (codes "N/A") t ≡ false)

line-Holds : (n : ℕ) → n < 256 → Holds n (line_of (to_string n))
line-Holds n h = (parse_byte-to_string_line n h, to_string-not_available n (10 ∷ []) h)

word-Holds : (n : ℕ) → n < 256 → Holds n (to_string n)
word-Holds n h = (
  parse_byte-to_string n h,
  ap (starts_with (codes "N/A")) (sym (append-nil (to_string n))) ∙ to_string-not_available n [] h,
)

fill_own-step :
    (size : ℕ) (so_far t : List ℕ) (n : ℕ) (ts : List (List ℕ))
    → Holds n t
    → fill_own size so_far (t ∷ ts)
      ≡ (if leb size (length so_far) then none else fill_own size (so_far ++ n ∷ []) ts)
unfolding fill_own
fill_own-step size so_far t n ts h = rw (h.1, h.0)

fill_broadcast-step :
    (size : ℕ) (so_far t : List ℕ) (n : ℕ) (ts : List (List ℕ))
    → Holds n t
    → fill_broadcast size so_far (t ∷ ts)
      ≡ (if leb size (length so_far) then none else fill_broadcast size (so_far ++ n ∷ []) ts)
unfolding fill_broadcast
fill_broadcast-step size so_far t n ts h = rw (h.1, h.0)

-- A loop over the tokens that stores each number until `size` of them are there.
abbrev Stores : ℕ → (List ℕ → List (List ℕ) → Option (List ℕ)) → Type 0
Stores size f =
    ((so_far t : List ℕ) (n : ℕ) (ts : List (List ℕ))
      → Holds n t
      → f so_far (t ∷ ts) ≡ (if leb size (length so_far) then none else f (so_far ++ n ∷ []) ts))
    × ((so_far : List ℕ) → f so_far [] ≡ some so_far)

Stores-tokens_of :
    (size : ℕ) (f : List ℕ → List (List ℕ) → Option (List ℕ)) (so_far : List ℕ) (n : ℕ)
    (ns : List ℕ)
    → Stores size f
    → All IsByte (n ∷ ns)
    → length so_far + length (n ∷ ns) ≤ size
    → f so_far (tokens_of (to_string n) ns) ≡ some (so_far ++ n ∷ ns)
Stores-tokens_of size f so_far n [] s h le =
    s.0 so_far (line_of (to_string n)) n [] (line-Holds n h.0)
    ∙ rw (lt-leb size (length so_far) (omega arith)) (s.1 (so_far ++ n ∷ []))
Stores-tokens_of size f so_far n (m ∷ ns) s h le =
    s.0 so_far (to_string n) n (tokens_of (to_string m) ns) (word-Holds n h.0)
    ∙ rw (lt-leb size (length so_far) (omega arith)) (
        Stores-tokens_of size f (so_far ++ n ∷ []) m ns s h.1
          (omega (arith, length-append so_far (n ∷ [])))
        ∙ ap some (append_assoc so_far (n ∷ []) (m ∷ ns)))

Stores-number_tokens :
    (f : List ℕ → List (List ℕ) → Option (List ℕ)) (a : List ℕ)
    → Stores (length a) f
    → All IsByte a
    → f [] (number_tokens a) ≡ some a
Stores-number_tokens f [] s h = s.1 []
Stores-number_tokens f (n ∷ ns) s h = Stores-tokens_of (length (n ∷ ns)) f [] n ns s h (omega arith)

fill_own-number_tokens :
    (a : List ℕ) → All IsByte a → fill_own (length a) [] (number_tokens a) ≡ some a
unfolding fill_own
fill_own-number_tokens a h =
    Stores-number_tokens (fill_own (length a)) a (fill_own-step (length a), λ _. refl) h

fill_broadcast-number_tokens :
    (a : List ℕ) → All IsByte a → fill_broadcast (length a) [] (number_tokens a) ≡ some a
unfolding fill_broadcast
fill_broadcast-number_tokens a h =
    Stores-number_tokens (fill_broadcast (length a)) a (fill_broadcast-step (length a), λ _. refl) h

equals-same : (n : ℕ) → (n == n) ≡ true
equals-same n = ground arith

-- The line of a keyword and some numbers.
abbrev pub keyed_line : List ℕ → List ℕ → List ℕ → List ℕ
keyed_line word bytes rest = (word ++ numbers bytes) ++ 10 ∷ rest

pub read_own_address_lem :
    (a rest : List ℕ) (b : Bridge)
    → All IsByte a
    → length a ≤ 252
    → read_own_address (length a) (record b { input = keyed_line (codes "OWN_ADDRESS") a rest })
      ≡ done true (record b { input = rest; own_address = a })
unfolding read_own_address
read_own_address_lem a rest b h le =
    >>=-done read_tokens _ _ (
      read_keyed (codes "OWN_ADDRESS") a rest b (ground arith) (ground arith) h
        (omega (arith, length-numbers_le a)))
    ∙ rw (
      keyed-tokens_of (fill_own (length a) []) (codes "OWN_ADDRESS") a,
      fill_own-number_tokens a h,
      equals-same (length a),
      minus_same (length a),
      append-nil a,
    )

pub read_broadcast_address_lem :
    (a rest : List ℕ) (b : Bridge)
    → All IsByte a
    → length a ≤ 251
    → read_broadcast_address
        (length a)
        (record b { input = keyed_line (codes "BROADCAST_ADDRESS") a rest })
      ≡ done true (record b { input = rest; broadcast_address = a })
unfolding read_broadcast_address
read_broadcast_address_lem a rest b h le =
    >>=-done read_tokens _ _ (
      read_keyed (codes "BROADCAST_ADDRESS") a rest b (ground arith) (ground arith) h
        (omega (arith, length-numbers_le a)))
    ∙ rw (
      keyed-tokens_of (fill_broadcast (length a) []) (codes "BROADCAST_ADDRESS") a,
      fill_broadcast-number_tokens a h,
      equals-same (length a),
    )

last_number-line : (n : ℕ) → n < 256 → last_number 0 (line_of (to_string n) ∷ []) ≡ some n
unfolding last_number
last_number-line n h =
    ap (λ o. elim o [ none ↦ none | some m ↦ some m ]) (parse_byte-to_string_line n h)

keyed_number-tokens_of :
    (word : List ℕ) (n : ℕ) → n < 256 → keyed_number word (tokens_of word (n ∷ [])) ≡ some n
keyed_number-tokens_of word n h = rw (starts_with-same word) (last_number-line n h)

pub read_maximum_message_length_lem :
    (n : ℕ) (rest : List ℕ) (b : Bridge)
    → n < 256
    → read_maximum_message_length
        (record b { input = keyed_line (codes "MAXIMUM_MESSAGE_LENGTH") (n ∷ []) rest })
      ≡ done true (record b { input = rest; maximum_message_length = n })
unfolding read_maximum_message_length
read_maximum_message_length_lem n rest b h =
    >>=-done read_tokens _ _ (
      read_keyed (codes "MAXIMUM_MESSAGE_LENGTH") (n ∷ []) rest b (ground arith) (ground arith)
        (h, tt) (omega (arith, length-numbers_le (n ∷ []))))
    ∙ rw (keyed_number-tokens_of (codes "MAXIMUM_MESSAGE_LENGTH") n h)

pub read_serial_buffer_size_lem :
    (n : ℕ) (rest : List ℕ) (b : Bridge)
    → n < 256
    → read_serial_buffer_size
        (record b { input = keyed_line (codes "SERIAL_BUFFER_SIZE") (n ∷ []) rest })
      ≡ done true (record b { input = rest; serial_buffer_size = n })
unfolding read_serial_buffer_size
read_serial_buffer_size_lem n rest b h =
    >>=-done read_tokens _ _ (
      read_keyed (codes "SERIAL_BUFFER_SIZE") (n ∷ []) rest b (ground arith) (ground arith) (h, tt)
        (omega (arith, length-numbers_le (n ∷ []))))
    ∙ rw (keyed_number-tokens_of (codes "SERIAL_BUFFER_SIZE") n h)

-- The line of a status; the status itself is a local variable of the method.
abbrev pub status_line : List ℕ → List ℕ → List ℕ
status_line status rest = (codes "STATUS" ++ 32 ∷ status) ++ 10 ∷ rest

abbrev pub IsStatus : List ℕ → Type 0
IsStatus status =
    IsWord status
    × IsPlain status
    × (length status ≤ 1000)
    × (is_status (line_of status ∷ []) ≡ true)

pub read_status_lem :
    (size : ℕ) (status rest : List ℕ) (b : Bridge)
    → IsStatus status
    → read_status size (record b { input = status_line status rest })
      ≡ done true (record b { input = rest; from_address = replicate size 0 })
unfolding read_status
read_status_lem size status rest b h =
    >>=-done read_tokens _ _ (
      read_tokens-line_of (codes "STATUS" ++ 32 ∷ status) rest b (ground (arith, h.1)) (omega arith)
      ∙ ap (λ ts. done ts (record b { input = rest }))
          (split-space (codes "STATUS") (line_of status) (ground arith)
            ∙ ap (λ ts. codes "STATUS" ∷ ts) (split-line status h.0)))
    ∙ rw (starts_with-same (codes "STATUS"), h.3)

-- An address that is too short.
fill_own-short :
    (size : ℕ) (a : List ℕ)
    → All IsByte a
    → length a ≤ size
    → fill_own size [] (number_tokens a) ≡ some a
unfolding fill_own
fill_own-short size [] h le = refl
fill_own-short size (n ∷ ns) h le =
    Stores-tokens_of size (fill_own size) [] n ns (fill_own-step size, λ _. refl) h (omega arith)

not_equals : (m n : ℕ) → m < n → (m == n) ≡ false
not_equals m n h = ground arith

-- An own address of fewer bytes than `size`, and at most 252, makes readOwnAddress return false,
-- with its bytes and zeros in own_address, and from_address cleared.
pub read_own_address_short :
    (size : ℕ) (a rest : List ℕ) (b : Bridge)
    → All IsByte a
    → length a < size
    → length a ≤ 252
    → read_own_address size (record b { input = keyed_line (codes "OWN_ADDRESS") a rest })
      ≡ done false (record b {
        input = rest;
        own_address = a ++ replicate (size - length a) 0;
        from_address = replicate size 0;
      })
unfolding read_own_address
read_own_address_short size a rest b h lt le =
    >>=-done read_tokens _ _ (
      read_keyed (codes "OWN_ADDRESS") a rest b (ground arith) (ground arith) h
        (omega (arith, length-numbers_le a)))
    ∙ rw (
      keyed-tokens_of (fill_own size []) (codes "OWN_ADDRESS") a,
      fill_own-short size a h (omega arith),
      not_equals (length a) size lt,
    )
