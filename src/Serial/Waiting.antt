-- ===== src/Serial/Waiting.antt =====
-- What `waitFor` and the line loops of LinuxSerialSocket.cpp make of whole lines.
use linux_mqtt_sn_gateway.Base.{
  ℕ, ◌+◌, ◌≤◌, ◌≡◌, ◌≢◌, refl, sym, ap, ◌∙◌, Bool, true, ◌&&◌, List, [], ◌∷◌, ◌++◌, length, leb,
  Bool-cases, inl, inr, ◌==◌, All, c_str, bytes_eq, bytes_eq_iff, length-append, append_assoc,
  arith,
}
use linux_mqtt_sn_gateway.Serial.Lines.{found, too_long, wait, take_line, wait_for}
use linux_mqtt_sn_gateway.Serial.State.{Bridge, done}
use linux_mqtt_sn_gateway.Serial.Commands.{line_of}

-- No end of a line, and no NUL.
abbrev pub IsPlain : List ℕ → Type 0
IsPlain = All (λ c. (c ≢ 10) × (c ≢ 0))

-- No end of a line.
abbrev pub IsOneLine : List ℕ → Type 0
IsOneLine = All (λ c. c ≢ 10)

pub c_str-plain : (t : List ℕ) → IsPlain t → c_str (line_of t) ≡ line_of t
unfolding c_str
c_str-plain [] h = refl
c_str-plain (c ∷ t) h = ground (arith, c_str-plain t h.1)

c_str_full : (t : List ℕ) → length (c_str t) ≡ length t → c_str t ≡ t
unfolding c_str
c_str_full [] h = refl
c_str_full (c ∷ t) h = ground (arith, c_str_full t)

take_line-end :
    (so_far rest : List ℕ)
    → length so_far ≤ 1022
    → take_line so_far (10 ∷ rest) ≡ found (so_far ++ 10 ∷ []) rest
unfolding take_line
take_line-end so_far rest le = ground (arith, length-append so_far (10 ∷ []))

take_line-more :
    (so_far : List ℕ) (c : ℕ) (rest : List ℕ)
    → c ≢ 10
    → length so_far ≤ 1023
    → take_line so_far (c ∷ rest) ≡ take_line (so_far ++ c ∷ []) rest
unfolding take_line
take_line-more so_far c rest h le = ground arith

pub take_line-line_of :
    (so_far t rest : List ℕ)
    → IsOneLine t
    → length so_far + length t ≤ 1022
    → take_line so_far (t ++ 10 ∷ rest) ≡ found (so_far ++ line_of t) rest
take_line-line_of so_far [] rest h le = take_line-end so_far rest (omega arith)
take_line-line_of so_far (c ∷ t) rest h le =
    take_line-more so_far c (t ++ 10 ∷ rest) h.0 (omega arith)
    ∙ take_line-line_of (so_far ++ c ∷ []) t rest h.1 (omega (arith, length-append so_far (c ∷ [])))
    ∙ ap (λ l. found l rest) (append_assoc so_far (c ∷ []) (line_of t))

take_line-full_end :
    (so_far rest : List ℕ) → 1023 ≤ length so_far → take_line so_far (10 ∷ rest) ≡ too_long
unfolding take_line
take_line-full_end so_far rest le = ground (arith, length-append so_far (10 ∷ []))

take_line-full :
    (so_far : List ℕ) (c : ℕ) (rest : List ℕ)
    → 1024 ≤ length so_far
    → take_line so_far (c ∷ rest) ≡ too_long
unfolding take_line
take_line-full so_far c rest le = ground arith

pub take_line-too_long :
    (so_far t rest : List ℕ)
    → IsOneLine t
    → 1023 ≤ length so_far + length t
    → take_line so_far (t ++ 10 ∷ rest) ≡ too_long
take_line-too_long so_far [] rest h le = take_line-full_end so_far rest (omega arith)
take_line-too_long so_far (c ∷ t) rest h le = elim (Bool-cases (leb 1024 (length so_far))) [
  | inl full ↦ take_line-full so_far c (t ++ 10 ∷ rest) (ground arith)
  | inr fits ↦
      take_line-more so_far c (t ++ 10 ∷ rest) h.0 (ground arith)
      ∙ take_line-too_long (so_far ++ c ∷ []) t rest h.1
          (omega (arith, length-append so_far (c ∷ [])))
]

abbrev matches : List ℕ → List ℕ → Bool
matches wanted line = length wanted == length line && bytes_eq (c_str line) wanted

matches_both :
    (wanted line : List ℕ)
    → matches wanted line ≡ true
    → (length wanted ≡ length line) × (c_str line ≡ wanted)
matches_both wanted line h = ground (arith, bytes_eq_iff (c_str line) wanted)

matches-plain : (t : List ℕ) → IsPlain t → matches (line_of t) (line_of t) ≡ true
matches-plain t h = ground (arith, c_str-plain t h, bytes_eq_iff (c_str (line_of t)) (line_of t))

matches_sound : (wanted line : List ℕ) → matches wanted line ≡ true → line ≡ wanted
matches_sound wanted line h =
    let (eq, m) = matches_both wanted line h in sym (c_str_full line (ap length m ∙ eq)) ∙ m

wait-other :
    (wanted so_far rest : List ℕ)
    → length so_far ≤ 1023
    → so_far ++ 10 ∷ [] ≢ wanted
    → wait wanted so_far (10 ∷ rest) ≡ wait wanted [] rest
unfolding wait
wait-other wanted so_far rest le ne = ground (arith, matches_sound wanted (so_far ++ 10 ∷ []))

wait-more :
    (wanted so_far : List ℕ) (c : ℕ) (rest : List ℕ)
    → c ≢ 10
    → length so_far ≤ 1023
    → wait wanted so_far (c ∷ rest) ≡ wait wanted (so_far ++ c ∷ []) rest
unfolding wait
wait-more wanted so_far c rest h le = ground arith

wait-match :
    (wanted so_far rest : List ℕ)
    → length so_far ≤ 1023
    → matches wanted (so_far ++ 10 ∷ []) ≡ true
    → wait wanted so_far (10 ∷ rest) ≡ found (so_far ++ 10 ∷ []) rest
unfolding wait
wait-match wanted so_far rest le m = ground arith

-- `t` as the end of a line that is not wanted.
pub wait-skip :
    (wanted so_far t rest : List ℕ)
    → IsOneLine t
    → length so_far + length t ≤ 1023
    → so_far ++ line_of t ≢ wanted
    → wait wanted so_far (t ++ 10 ∷ rest) ≡ wait wanted [] rest
wait-skip wanted so_far [] rest h le ne = wait-other wanted so_far rest (omega arith) ne
wait-skip wanted so_far (c ∷ t) rest h le ne =
    wait-more wanted so_far c (t ++ 10 ∷ rest) h.0 (omega arith)
    ∙ wait-skip wanted (so_far ++ c ∷ []) t rest h.1 (omega (arith, length-append so_far (c ∷ [])))
        (λ e. ne (sym (append_assoc so_far (c ∷ []) (line_of t)) ∙ e))

-- `t` as the end of the wanted line.
pub wait-hit :
    (wanted so_far t rest : List ℕ)
    → IsOneLine t
    → length so_far + length t ≤ 1023
    → matches wanted (so_far ++ line_of t) ≡ true
    → wait wanted so_far (t ++ 10 ∷ rest) ≡ found (so_far ++ line_of t) rest
wait-hit wanted so_far [] rest h le m = wait-match wanted so_far rest (omega arith) m
wait-hit wanted so_far (c ∷ t) rest h le m =
    wait-more wanted so_far c (t ++ 10 ∷ rest) h.0 (omega arith)
    ∙ wait-hit wanted (so_far ++ c ∷ []) t rest h.1 (omega (arith, length-append so_far (c ∷ [])))
        (ap (matches wanted) (append_assoc so_far (c ∷ []) (line_of t)) ∙ m)
    ∙ ap (λ l. found l rest) (append_assoc so_far (c ∷ []) (line_of t))

-- The lines of a text, each with its end.
abbrev pub text_of : List (List ℕ) → List ℕ
text_of [] = []
text_of (t ∷ ts) = t ++ 10 ∷ text_of ts

abbrev pub IsOther : List ℕ → List ℕ → Type 0
IsOther wanted t = IsOneLine t × (length t ≤ 1023) × (line_of t ≢ wanted)

pub plain-IsOneLine : (t : List ℕ) → IsPlain t → IsOneLine t
plain-IsOneLine [] h = tt
plain-IsOneLine (c ∷ t) h = (h.0.0, plain-IsOneLine t h.1)

pub wait-text_of :
    (t : List ℕ) (others : List (List ℕ)) (rest : List ℕ)
    → IsPlain t
    → length t ≤ 1023
    → All (IsOther (line_of t)) others
    → wait (line_of t) [] (text_of others ++ (t ++ 10 ∷ rest)) ≡ found (line_of t) rest
wait-text_of t [] rest h le o =
    wait-hit (line_of t) [] t rest (plain-IsOneLine t h) (omega arith) (matches-plain t h)
wait-text_of t (u ∷ us) rest h le o =
    ap (wait (line_of t) []) (append_assoc u (10 ∷ text_of us) (t ++ 10 ∷ rest))
    ∙ wait-skip (line_of t) [] u (text_of us ++ (t ++ 10 ∷ rest)) o.0.0 (omega arith) o.0.2
    ∙ wait-text_of t us rest h le o.1

-- waitFor reads any lines of at most 1023 bytes that differ from the wanted one, and returns
-- behind the first that is the wanted one, which has no NUL and no more than 1023 bytes before its
-- end.
pub wait_for-text_of :
    (t : List ℕ) (others : List (List ℕ)) (rest : List ℕ) (b : Bridge)
    → IsPlain t
    → length t ≤ 1023
    → All (IsOther (line_of t)) others
    → wait_for (line_of t) (record b { input = text_of others ++ (t ++ 10 ∷ rest) })
      ≡ done true (record b { input = rest })
unfolding wait_for
wait_for-text_of t others rest b h le o = rw (wait-text_of t others rest h le o)
