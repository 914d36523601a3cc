-- ===== src/Serial/RoundTrip.antt =====
-- Addresses and data between two ends of a bridge: `sendAddress` and `readSendAddress`, `sendData` and
-- `readData`.
use linux_mqtt_sn_gateway.Base.{
  ℕ, zero, suc, ◌%◌, ◌≤◌, ◌<◌, ◌≡◌, ◌≢◌, refl, sym, ap, ◌∙◌, true, Option, some, List, [], ◌∷◌,
  ◌++◌, length, take, All, IsByte, All-append, append_assoc, append-nil, codes, arith,
}
use linux_mqtt_sn_gateway.Serial.Numbers.{to_string, split, starts_with, IsWord, starts_with-append}
use linux_mqtt_sn_gateway.Serial.State.{
  Bridge, Run, done, stuck, overflow, write, ◌>>◌, >>=-done, >>=-overflow,
}
use linux_mqtt_sn_gateway.Serial.Lines.{read_tokens}
use linux_mqtt_sn_gateway.Serial.Read.{
  fill, fill_data, keyed, complete, read_send_address, read_data,
}
use linux_mqtt_sn_gateway.Serial.Commands.{line_of, write_numbers, send_address, send_data}
use linux_mqtt_sn_gateway.Serial.Waiting.{
  IsPlain, IsOneLine, plain-IsOneLine, take_line-line_of, take_line-too_long, c_str-plain,
}
use linux_mqtt_sn_gateway.Serial.Words.{
  numbers, write_numbers_lem, tokens_of, split-tokens_of, fill-tokens_of, fill_data-tokens_of,
  numbers-IsPlain, length-numbers_le, length-numbers,
}

-- The bytes that a call has written.
abbrev pub sent : {A : Type 0} → Run A → List ℕ
sent (done _ b) = b.output
sent stuck = []
sent overflow = []

abbrev pub address_text : List ℕ → List ℕ
address_text a = codes "ADDRESS" ++ numbers a

abbrev pub data_text : List ℕ → List ℕ
data_text m = codes "DATA" ++ numbers m

pub write_line_lem :
    (word a stop : List ℕ) (b : Bridge)
    → (write word >> (write_numbers a >> write stop)) b
      ≡ done tt (record b { output = b.output ++ ((word ++ numbers a) ++ stop) })
write_line_lem word a stop b =
    let e : ((b.output ++ word) ++ numbers a) ++ stop ≡ b.output ++ ((word ++ numbers a) ++ stop) =
      ap (λ o. o ++ stop) (append_assoc b.output word (numbers a))
      ∙ append_assoc b.output (word ++ numbers a) stop in
    let c = record b { output = b.output ++ word } in
    >>=-done (write_numbers a) (λ _. write stop) c (write_numbers_lem a c)
    ∙ ap (λ o. done tt (record b { output = o })) e

pub send_address_lem :
    (a : List ℕ) (b : Bridge)
    → send_address a b ≡ done tt (record b { output = b.output ++ line_of (address_text a) })
unfolding send_address
send_address_lem a b = write_line_lem (codes "ADDRESS") a (10 ∷ []) b

-- The bytes of the buffer that `sendData` writes.
pub send_data_lem :
    (m : List ℕ) (len : ℕ) (b : Bridge)
    → send_data m len b
      ≡ done tt (record b { output = b.output ++ line_of (data_text (take (len % 256) m)) })
unfolding send_data
send_data_lem m len b = write_line_lem (codes "DATA") (take (len % 256) m) (10 ∷ []) b

pub read_tokens-line_of :
    (t rest : List ℕ) (b : Bridge)
    → IsPlain t
    → length t ≤ 1022
    → read_tokens (record b { input = t ++ 10 ∷ rest })
      ≡ done (split (line_of t)) (record b { input = rest })
unfolding read_tokens
read_tokens-line_of t rest b h le =
    rw (take_line-line_of [] t rest (plain-IsOneLine t h) (omega arith), c_str-plain t h)

-- The tokens behind the keyword.
abbrev pub number_tokens : List ℕ → List (List ℕ)
number_tokens [] = []
number_tokens (n ∷ ns) = tokens_of (to_string n) ns

pub starts_with-same : (word : List ℕ) → starts_with word word ≡ true
starts_with-same word = ap (starts_with word) (sym (append-nil word)) ∙ starts_with-append word []

pub keyed-tokens_of :
    (f : List (List ℕ) → Option (List ℕ)) (word bytes : List ℕ)
    → keyed word f (tokens_of word bytes) ≡ f (number_tokens bytes)
keyed-tokens_of f word [] = rw (starts_with-append word (10 ∷ []))
keyed-tokens_of f word (n ∷ ns) = rw (starts_with-same word)

pub fill-number_tokens : (a : List ℕ) → All IsByte a → fill (length a) [] (number_tokens a) ≡ some a
unfolding fill
fill-number_tokens [] h = refl
fill-number_tokens (n ∷ ns) h = fill-tokens_of (length (n ∷ ns)) [] n ns h (omega arith)

pub fill_data-number_tokens : (m : List ℕ) → All IsByte m → fill_data [] (number_tokens m) ≡ some m
unfolding fill_data
fill_data-number_tokens [] h = refl
fill_data-number_tokens (n ∷ ns) h = fill_data-tokens_of [] n ns h

pub read_keyed :
    (word bytes rest : List ℕ) (b : Bridge)
    → IsWord word
    → IsPlain word
    → All IsByte bytes
    → length (word ++ numbers bytes) ≤ 1022
    → read_tokens (record b { input = (word ++ numbers bytes) ++ 10 ∷ rest })
      ≡ done (tokens_of word bytes) (record b { input = rest })
read_keyed word bytes rest b w p h le =
    read_tokens-line_of (word ++ numbers bytes) rest b
      (All-append (λ c. (c ≢ 10) × (c ≢ 0)) word (numbers bytes) p (numbers-IsPlain bytes h)) le
    ∙ ap (λ ts. done ts (record b { input = rest })) (split-tokens_of word bytes w h)

pub complete-length : (a : List ℕ) → complete (length a) (some a) ≡ a
complete-length a = ground arith

pub read_send_address_lem :
    (a rest : List ℕ) (b : Bridge)
    → All IsByte a
    → length (address_text a) ≤ 1022
    → read_send_address (length a) (record b { input = address_text a ++ 10 ∷ rest })
      ≡ done tt (record b { input = rest; from_address = a })
unfolding read_send_address
read_send_address_lem a rest b h le =
    >>=-done read_tokens _ (record b { input = address_text a ++ 10 ∷ rest })
      (read_keyed (codes "ADDRESS") a rest b (ground arith) (ground arith) h le)
    ∙ rw (
      keyed-tokens_of (fill (length a) []) (codes "ADDRESS") a,
      fill-number_tokens a h,
      complete-length a,
    )

pub read_data_lem :
    (m rest : List ℕ) (b : Bridge)
    → All IsByte m
    → length (data_text m) ≤ 1022
    → read_data (record b { input = data_text m ++ 10 ∷ rest })
      ≡ done tt (record b { input = rest; message = m })
unfolding read_data
read_data_lem m rest b h le =
    >>=-done read_tokens _ (record b { input = data_text m ++ 10 ∷ rest })
      (read_keyed (codes "DATA") m rest b (ground arith) (ground arith) h le)
    ∙ rw (keyed-tokens_of (fill_data []) (codes "DATA") m, fill_data-number_tokens m h)

take-length : (m : List ℕ) (k : ℕ) → k ≡ length m → take k m ≡ m
take-length [] zero e = refl
take-length [] (suc k) e = refl
take-length (x ∷ m) zero e = absurd (omega arith)
take-length (x ∷ m) (suc k) e = ap (λ l. x ∷ l) (take-length m k (omega arith))

sent_address :
    (a : List ℕ) (b : Bridge)
    → sent (send_address a (record b { output = [] })) ≡ line_of (address_text a)
sent_address a b = ap sent (send_address_lem a (record b { output = [] }))

sent_data :
    (m : List ℕ) (b : Bridge)
    → length m < 256
    → sent (send_data m (length m) (record b { output = [] })) ≡ line_of (data_text m)
sent_data m b lt =
    ap sent (send_data_lem m (length m) (record b { output = [] }))
    ∙ ap (λ l. line_of (data_text l)) (take-length m (length m % 256) (omega arith))

pub line_of-append : (t rest : List ℕ) → line_of t ++ rest ≡ t ++ 10 ∷ rest
line_of-append t rest = append_assoc t (10 ∷ []) rest

-- readSendAddress stores every address of at most 253 bytes from the line that sendAddress writes
-- for it, and leaves the input behind the line.
pub read_send_address-send_address :
    (a rest : List ℕ) (b c : Bridge)
    → All IsByte a
    → length a ≤ 253
    → read_send_address
        (length a)
        (record c { input = sent (send_address a (record b { output = [] })) ++ rest })
      ≡ done tt (record c { input = rest; from_address = a })
read_send_address-send_address a rest b c h le = rw (
  sent_address a b,
  line_of-append (address_text a) rest,
  read_send_address_lem a rest c h (omega (arith, length-numbers_le a)),
)

-- readData stores every message of at most 254 bytes from the line that sendData writes for it,
-- and leaves the input behind the line.
pub read_data-send_data :
    (m rest : List ℕ) (b c : Bridge)
    → All IsByte m
    → length m ≤ 254
    → read_data
        (record c { input = sent (send_data m (length m) (record b { output = [] })) ++ rest })
      ≡ done tt (record c { input = rest; message = m })
read_data-send_data m rest b c h le = rw (
  sent_data m b (omega arith),
  line_of-append (data_text m) rest,
  read_data_lem m rest c h (omega (arith, length-numbers_le m)),
)

read_tokens-too_long :
    (t rest : List ℕ) (b : Bridge)
    → IsOneLine t
    → 1023 ≤ length t
    → read_tokens (record b { input = t ++ 10 ∷ rest }) ≡ overflow
unfolding read_tokens
read_tokens-too_long t rest b h le = rw (take_line-too_long [] t rest h (omega arith))

data_text-IsOneLine : (m : List ℕ) → All IsByte m → IsOneLine (data_text m)
data_text-IsOneLine m h = plain-IsOneLine (data_text m) (
    All-append (λ c. (c ≢ 10) × (c ≢ 0)) (codes "DATA") (numbers m) (ground arith)
      (numbers-IsPlain m h))

-- For a message of 255 bytes, each from 100 to 255, the line that sendData writes takes readData
-- out of its buffer.
pub read_data_overflow :
    (m rest : List ℕ) (b c : Bridge)
    → All IsByte m
    → length m ≡ 255
    → All (λ n. 100 ≤ n) m
    → read_data
        (record c { input = sent (send_data m (length m) (record b { output = [] })) ++ rest })
      ≡ overflow
unfolding read_data
read_data_overflow m rest b c h e k =
    rw (sent_data m b (omega arith), line_of-append (data_text m) rest)
      (>>=-overflow read_tokens _ (record c { input = data_text m ++ 10 ∷ rest })
        (read_tokens-too_long (data_text m) rest c (data_text-IsOneLine m h)
          (omega (arith, length-numbers m k))))
