-- ===== src/Settings/Topics.antt =====
-- `get_predefined_topic_name` of Implementation/LinuxPersistent.cpp on a file with a topic id and a topic
-- name in each line.
use linux_mqtt_sn_gateway.Base.{
  ℕ, zero, suc, ◌<◌, ◌≤◌, ◌≡◌, ◌≢◌, refl, ap, ◌∙◌, Bool, true, false, Option, none, some, List, [],
  ◌∷◌, ◌++◌, length, length-append, All, All-append, leb, ◌==◌, if◌then◌else◌, c_str, append_assoc,
  arith,
}
use linux_mqtt_sn_gateway.Settings.Lines.{
  Outcome, finished, read_line, text_of, Stops, read_line-text_of, length-text_of,
}
use linux_mqtt_sn_gateway.Settings.Parse.{pieces, nonempty, strtok}
use linux_mqtt_sn_gateway.Settings.Decimal.{
  number_text, number_text-IsDigits, IsDigits, length-number_text, atoi-number_text,
}
use linux_mqtt_sn_gateway.Settings.Getters.{
  skipped, found, topic_tokens, topic_line, if_found, search_topics, get_predefined_topic_name,
}

-- A predefined topic: an id, and a name without space, NUL and newline.
abbrev pub IsName : List ℕ → Type 0
IsName = All (λ c. (c ≢ 10) × (c ≢ 0) × (c ≢ 32))

abbrev pub topic_text : ℕ × List ℕ → List ℕ
topic_text (id, name) = number_text 4 id ++ 32 ∷ name

abbrev pub IsTopic : ℕ × List ℕ → Type 0
IsTopic (id, name) =
    (id < 65536)
    × IsName name
    × (1 ≤ length name)
    × (length name ≤ 254)
    × (4 ≤ length (topic_text (id, name)))

abbrev pub topic_texts : List (ℕ × List ℕ) → List (List ℕ)
topic_texts [] = []
topic_texts (t ∷ ts) = topic_text t ∷ topic_texts ts

-- The name of the first topic with the id.
abbrev pub lookup : ℕ → List (ℕ × List ℕ) → Option (List ℕ)
lookup id [] = none
lookup id ((i, name) ∷ ts) = if i == id then some name else lookup id ts

digits-IsName : (s : List ℕ) → IsDigits s → IsName s
digits-IsName [] h = tt
digits-IsName (c ∷ s) h = ((omega arith, omega arith, omega arith), digits-IsName s h.1)

pieces-name : (s : List ℕ) → IsName s → pieces 32 s ≡ s ∷ []
unfolding pieces
pieces-name [] h = refl
pieces-name (c ∷ s) h = ground (arith, pieces-name s h.1)

pieces-space : (s t : List ℕ) → IsName s → pieces 32 (s ++ 32 ∷ t) ≡ s ∷ pieces 32 t
unfolding pieces
pieces-space [] t h = refl
pieces-space (c ∷ s) t h = ground (arith, pieces-space s t h.1)

nonempty-two : (s t : List ℕ) → 1 ≤ length s → 1 ≤ length t → nonempty (s ∷ t ∷ []) ≡ s ∷ t ∷ []
unfolding nonempty
nonempty-two [] t h k = absurd (omega arith)
nonempty-two (c ∷ s) [] h k = absurd (omega arith)
nonempty-two (c ∷ s) (d ∷ t) h k = refl

strtok-topic_text :
    (id : ℕ) (name : List ℕ)
    → IsName name
    → 1 ≤ length name
    → strtok 32 (topic_text (id, name)) ≡ number_text 4 id ∷ name ∷ []
unfolding strtok
strtok-topic_text id name h le =
    ap nonempty (
      pieces-space (number_text 4 id) name
        (digits-IsName (number_text 4 id) (number_text-IsDigits 4 id))
      ∙ ap (λ ts. number_text 4 id ∷ ts) (pieces-name name h))
    ∙ nonempty-two (number_text 4 id) name (length-number_text 4 id).0 le

c_str_whole : (t : List ℕ) → IsName t → c_str t ≡ t
unfolding c_str
c_str_whole [] h = refl
c_str_whole (c ∷ t) h = ground (arith, c_str_whole t h.1)

c_str-name : (s t : List ℕ) → IsName s → IsName t → c_str (s ++ 32 ∷ t) ≡ s ++ 32 ∷ t
unfolding c_str
c_str-name [] [] h k = refl
c_str-name [] (c ∷ t) h k = ground (arith, c_str_whole (c ∷ t) k)
c_str-name (c ∷ s) t h k = ground (arith, c_str-name s t h.1 k)

long_enough :
    {A : Type 0} (n : ℕ) (x y z : A)
    → 4 ≤ n
    → n < 262
    → (if leb n 3 then x else if leb 262 n then y else z) ≡ z
long_enough n x y z h k = ground arith

short_name : {A : Type 0} (n : ℕ) (x y : A) → n ≤ 254 → (if leb 255 n then x else y) ≡ y
short_name n x y le = ground arith

topic_tokens_lem :
    (id i : ℕ) (name : List ℕ)
    → i < 65536
    → length name ≤ 254
    → topic_tokens id (number_text 4 i ∷ name ∷ []) ≡ (if i == id then found name else skipped)
topic_tokens_lem id i name lt le =
    short_name (length name) _ _ le
    ∙ ap (λ n. if n == id then found name else skipped)
        (atoi-number_text 65536 4 i (omega arith) lt)

length-topic_text :
    (i : ℕ) (name : List ℕ) → length name ≤ 254 → length (topic_text (i, name)) < 262
length-topic_text i name le =
    omega (arith, length-append (number_text 4 i) (32 ∷ name), (length-number_text 4 i).1)

topic_line-topic_text :
    (id : ℕ) (t : ℕ × List ℕ)
    → IsTopic t
    → topic_line id (topic_text t) ≡ (if t.0 == id then found t.1 else skipped)
topic_line-topic_text id (i, name) h =
    long_enough (length (topic_text (i, name))) _ _ _ h.4 (length-topic_text i name h.3)
    ∙ ap (λ l. topic_tokens id (strtok 32 l))
        (c_str-name (number_text 4 i) name
          (digits-IsName (number_text 4 i) (number_text-IsDigits 4 i)) h.1)
    ∙ ap (topic_tokens id) (strtok-topic_text i name h.1 h.2)
    ∙ topic_tokens_lem id i name h.0 h.3

name-IsOneLine : (s : List ℕ) → IsName s → All (λ c. c ≢ 10) s
name-IsOneLine [] h = tt
name-IsOneLine (c ∷ s) h = (h.0.0, name-IsOneLine s h.1)

pair-IsOneLine : (s t : List ℕ) → IsName s → IsName t → All (λ c. c ≢ 10) (s ++ 32 ∷ t)
pair-IsOneLine s t h k =
    All-append (λ c. c ≢ 10) s (32 ∷ t) (name-IsOneLine s h) (omega arith, name-IsOneLine t k)

search_topics-next :
    (fuel id : ℕ) (l rest : List ℕ)
    → All (λ c. c ≢ 10) l
    → length l < 262
    → search_topics (suc fuel) id (l ++ 10 ∷ rest)
      ≡ if_found l (topic_line id l) (search_topics fuel id rest)
unfolding search_topics
search_topics-next fuel id l rest h lt =
    ap (λ (line, rest). if_found line (topic_line id line) (search_topics fuel id rest))
      (read_line-text_of 262 l rest h lt)

search_topics-stop :
    (fuel id : ℕ) (stop : List ℕ) → Stops stop → search_topics (suc fuel) id stop ≡ finished none
unfolding search_topics
search_topics-stop fuel id stop h =
    ap (λ line. if_found line (topic_line id line) (search_topics fuel id (read_line 262 stop).1))
      (h 262 (omega arith))

if_found-either :
    (l name : List ℕ) (hit : Bool) (o : Outcome (Option (List ℕ))) (r : Option (List ℕ))
    → 1 ≤ length l
    → o ≡ finished r
    → if_found l (if hit then found name else skipped) o ≡ finished (if hit then some name else r)
if_found-either [] name hit o r le e = absurd (omega arith)
if_found-either (c ∷ l) name true o r le e = refl
if_found-either (c ∷ l) name false o r le e = e

search_topics-lookup :
    (fuel id : ℕ) (ts : List (ℕ × List ℕ)) (stop : List ℕ)
    → length ts < fuel
    → All IsTopic ts
    → Stops stop
    → search_topics fuel id (text_of (topic_texts ts) ++ stop) ≡ finished (lookup id ts)
search_topics-lookup zero id ts stop lt h st = absurd (omega arith)
search_topics-lookup (suc fuel) id [] stop lt h st = search_topics-stop fuel id stop st
search_topics-lookup (suc fuel) id ((i, name) ∷ ts) stop lt h st =
    let l = topic_text (i, name) in
    ap (search_topics (suc fuel) id) (append_assoc l (10 ∷ text_of (topic_texts ts)) stop)
    ∙ search_topics-next fuel id l (text_of (topic_texts ts) ++ stop)
        (pair-IsOneLine (number_text 4 i) name
          (digits-IsName (number_text 4 i) (number_text-IsDigits 4 i)) h.0.1)
        (length-topic_text i name h.0.3)
    ∙ ap (λ t. if_found l t (search_topics fuel id (text_of (topic_texts ts) ++ stop)))
        (topic_line-topic_text id (i, name) h.0)
    ∙ if_found-either l name (i == id) _ (lookup id ts) (omega (arith, h.0.4))
        (search_topics-lookup fuel id ts stop (omega arith) h.1 st)

length-topic_texts : (ts : List (ℕ × List ℕ)) → length (topic_texts ts) ≡ length ts
length-topic_texts [] = refl
length-topic_texts (t ∷ ts) = ap suc (length-topic_texts ts)

-- Without an error, and on a file of lines of an id and a name, get_predefined_topic_name gives
-- the name of the first line with the id, and nothing where there is none. An id is a uint16_t, a
-- name has 1 to 254 characters and no space, a line has at least 4 characters, and behind the
-- lines the file ends or has an empty line.
pub get_predefined_topic_name-lookup :
    (id : ℕ) (ts : List (ℕ × List ℕ)) (stop : List ℕ)
    → All IsTopic ts
    → Stops stop
    → get_predefined_topic_name false (text_of (topic_texts ts) ++ stop) id
      ≡ finished (lookup id ts)
unfolding get_predefined_topic_name
get_predefined_topic_name-lookup id ts stop h st =
    search_topics-lookup (suc (length (text_of (topic_texts ts) ++ stop))) id ts stop
      (omega (arith, length-topic_texts ts, length-text_of (topic_texts ts) stop)) h st
