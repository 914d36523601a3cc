-- ===== src/Settings/Lines.antt =====
-- How `LinuxPersistent` reads a file line by line: `readCharUntil`, `readLine` and the loop
-- `while (readLine(buffer, sizeof(buffer)) > 0)`. A file is the list of its bytes.
use linux_mqtt_sn_gateway.Base.{
  ℕ, zero, suc, ◌-◌, ◌+◌, ◌<◌, ◌≤◌, ◌≡◌, ◌≢◌, refl, ap, ◌∙◌, Option, none, some, List, [], ◌∷◌,
  ◌++◌, length, length-append, append_assoc, All, leb, ◌==◌, if◌then◌else◌, replicate, arith,
}

-- `readCharUntil` with the room that is left in the buffer: what it stores, and the rest of the file.
unfoldable pub read_char_until : ℕ → ℕ → List ℕ → List ℕ × List ℕ
read_char_until terminator zero file = ([], file)
read_char_until terminator (suc room) [] = ([], [])
read_char_until terminator (suc room) (c ∷ file) =
    let (stored, rest) = read_char_until terminator room file in
    if c == terminator then ([], file) else (c ∷ stored, rest)

-- `readLine`
abbrev pub read_line : ℕ → List ℕ → List ℕ × List ℕ
read_line = read_char_until 10

-- A loop ends, accesses memory outside an array, or is still running when the fuel is used up.
pub data Outcome (S : Type 0) : Type 0 where
  finished : S → Outcome S
  outside : Outcome S
  out_of_fuel : Outcome S

-- The buffer of `size` bytes behind `memset` and `readLine`.
abbrev pub buffer_of : ℕ → List ℕ → List ℕ
buffer_of size line = line ++ replicate (size - length line) 0

-- One turn of the loop: a line that fills the buffer leaves no NUL for `strlen`, and `none` from the
-- body is an access outside an array.
abbrev pub turn : {S : Type 0} → ℕ → (List ℕ → S → Option S) → List ℕ → S → Option S
turn size body line s = if leb size (length line) then none else body (buffer_of size line) s

abbrev pub after_turn : {S : Type 0} → Option S → (S → Outcome S) → Outcome S
after_turn none k = outside
after_turn (some s) k = k s

-- The test `> 0` on the length of the line.
abbrev pub if_line : {S : Type 0} → List ℕ → S → Outcome S → Outcome S
if_line [] s o = finished s
if_line (_ ∷ _) s o = o

-- `while (readLine(buffer, size) > 0) { body }`
unfoldable pub each_line : {S : Type 0} → ℕ → ℕ → (List ℕ → S → Option S) → List ℕ → S → Outcome S
unfolding read_char_until
each_line zero size body file s = out_of_fuel
each_line (suc fuel) size body file s =
    let (line, rest) = read_line size file in
    if_line line s (after_turn (turn size body line s) (each_line fuel size body rest))

-- The loop on a whole file.
abbrev pub for_lines : {S : Type 0} → ℕ → (List ℕ → S → Option S) → List ℕ → S → Outcome S
for_lines size body file s = each_line (suc (length file)) size body file s

read_line-length :
    (size : ℕ) (file : List ℕ)
    → length (read_line size file).0 + length (read_line size file).1 ≤ length file
unfolding read_char_until
read_line-length zero file = omega arith
read_line-length (suc room) [] = omega arith
read_line-length (suc room) (c ∷ file) = ground (arith, read_line-length room file)

length-positive : (l : List ℕ) → l ≢ [] → 1 ≤ length l
length-positive [] ne = absurd (ne refl)
length-positive (c ∷ l) ne = omega arith

-- Every turn reads a byte, so that the fuel of `for_lines` lasts.
module _ {S : Type 0} where
  if_line-ends :
      (line : List ℕ) (s : S) (o : Outcome S)
      → (line ≢ [] → o ≢ out_of_fuel)
      → if_line line s o ≢ out_of_fuel
  if_line-ends [] s o h = λ e. absurd (ground (arith, e))
  if_line-ends (c ∷ line) s o h = h (λ e. absurd (ground (arith, e)))

  after_turn-ends :
      (t : Option S) (k : S → Outcome S)
      → ((s : S) → k s ≢ out_of_fuel)
      → after_turn t k ≢ out_of_fuel
  after_turn-ends none k h = λ e. absurd (ground (arith, e))
  after_turn-ends (some s) k h = h s

  each_line-ends :
      (size : ℕ) (body : List ℕ → S → Option S) (fuel : ℕ) (file : List ℕ) (s : S)
      → length file < fuel
      → each_line fuel size body file s ≢ out_of_fuel
  unfolding each_line
  each_line-ends size body zero file s lt = absurd (omega arith)
  each_line-ends size body (suc fuel) file s lt = if_line-ends (read_line size file).0 s _ λ ne.
      after_turn-ends (turn size body (read_line size file).0 s) _ λ t.
        each_line-ends size body fuel (read_line size file).1 t
          (omega (arith, read_line-length size file, length-positive (read_line size file).0 ne))

  -- On every file and with every body the loop over the lines ends within its fuel, one more than
  -- the bytes of the file.
  pub for_lines-ends :
      (size : ℕ) (body : List ℕ → S → Option S) (file : List ℕ) (s : S)
      → for_lines size body file s ≢ out_of_fuel
  for_lines-ends size body file s =
      each_line-ends size body (suc (length file)) file s (omega arith)

-- The lines of a file, each with its end.
abbrev pub text_of : List (List ℕ) → List ℕ
text_of [] = []
text_of (l ∷ ls) = l ++ 10 ∷ text_of ls

-- What the loop makes of a list of lines: its body on one behind the other.
abbrev pub fold_lines : {S : Type 0} → ℕ → (List ℕ → S → Option S) → List (List ℕ) → S → Option S
fold_lines size body [] s = some s
fold_lines size body (l ∷ ls) s = elim (turn size body l s) [
  | none ↦ none
  | some t ↦ fold_lines size body ls t
]

abbrev pub outcome_of : {S : Type 0} → Option S → Outcome S
outcome_of none = outside
outcome_of (some s) = finished s

-- A line that is not empty and fits into the buffer.
abbrev pub FitsLine : ℕ → List ℕ → Type 0
FitsLine size l = All (λ c. c ≢ 10) l × (1 ≤ length l) × (length l < size)

-- The loop stops here: the file ends, or an empty line comes.
abbrev pub Stops : List ℕ → Type 0
Stops file = (size : ℕ) → 1 ≤ size → (read_line size file).0 ≡ []

pub empty-Stops : Stops []
unfolding read_char_until
empty-Stops zero le = refl
empty-Stops (suc size) le = refl

pub read_line-text_of :
    (size : ℕ) (l rest : List ℕ)
    → All (λ c. c ≢ 10) l
    → length l < size
    → read_line size (l ++ 10 ∷ rest) ≡ (l, rest)
unfolding read_char_until
read_line-text_of zero l rest h lt = absurd (omega arith)
read_line-text_of (suc room) [] rest h lt = refl
read_line-text_of (suc room) (c ∷ l) rest h lt = ground (arith, read_line-text_of room l rest h.1)

module _ {S : Type 0} (size : ℕ) (body : List ℕ → S → Option S) where
  each_line-stop :
      (fuel : ℕ) (stop : List ℕ) (s : S)
      → 1 ≤ size
      → Stops stop
      → each_line (suc fuel) size body stop s ≡ finished s
  unfolding each_line
  each_line-stop fuel stop s le h =
      ap
        (λ line.
          if_line line s
            (after_turn (turn size body line s) (each_line fuel size body (read_line size stop).1)))
        (h size le)

  each_line-next :
      (fuel : ℕ) (l rest : List ℕ) (s : S)
      → FitsLine size l
      → each_line (suc fuel) size body (l ++ 10 ∷ rest) s
        ≡ after_turn (turn size body l s) (each_line fuel size body rest)
  unfolding each_line
  each_line-next fuel [] rest s h = absurd (omega arith)
  each_line-next fuel (c ∷ l) rest s h =
      ap
        (λ (line, rest).
          if_line line s (after_turn (turn size body line s) (each_line fuel size body rest)))
        (read_line-text_of size (c ∷ l) rest h.0 h.2)

  after_turn-outcome_of :
      (t : Option S) (k : S → Outcome S) (f : S → Option S)
      → ((u : S) → k u ≡ outcome_of (f u))
      → after_turn t k ≡ outcome_of (elim t [ none ↦ none | some u ↦ f u ])
  after_turn-outcome_of none k f h = refl
  after_turn-outcome_of (some u) k f h = h u

  each_line-text_of :
      (fuel : ℕ) (ls : List (List ℕ)) (stop : List ℕ) (s : S)
      → length ls < fuel
      → 1 ≤ size
      → All (FitsLine size) ls
      → Stops stop
      → each_line fuel size body (text_of ls ++ stop) s ≡ outcome_of (fold_lines size body ls s)
  each_line-text_of zero ls stop s lt le h st = absurd (omega arith)
  each_line-text_of (suc fuel) [] stop s lt le h st = each_line-stop fuel stop s le st
  each_line-text_of (suc fuel) (l ∷ ls) stop s lt le h st =
      ap (λ f. each_line (suc fuel) size body f s) (append_assoc l (10 ∷ text_of ls) stop)
      ∙ each_line-next fuel l (text_of ls ++ stop) s h.0
      ∙ after_turn-outcome_of (turn size body l s) (each_line fuel size body (text_of ls ++ stop))
          (fold_lines size body ls) (λ u. each_line-text_of fuel ls stop u (omega arith) le h.1 st)

pub length-text_of : (ls : List (List ℕ)) (stop : List ℕ) → length ls ≤ length (text_of ls ++ stop)
length-text_of [] stop = omega arith
length-text_of (l ∷ ls) stop = ground (
  arith,
  length-append (l ++ 10 ∷ text_of ls) stop,
  length-append l (10 ∷ text_of ls),
  length-append (text_of ls) stop,
  length-text_of ls stop,
)

-- On a file of lines, each of at least one byte and shorter than the buffer, the loop runs its
-- body on the buffer of one line behind the other, and stops behind them, where the file ends or
-- an empty line comes.
pub for_lines-text_of :
    {S : Type 0} (size : ℕ) (body : List ℕ → S → Option S) (ls : List (List ℕ)) (stop : List ℕ)
    (s : S)
    → 1 ≤ size
    → All (FitsLine size) ls
    → Stops stop
    → for_lines size body (text_of ls ++ stop) s ≡ outcome_of (fold_lines size body ls s)
for_lines-text_of size body ls stop s le h st =
    each_line-text_of size body (suc (length (text_of ls ++ stop))) ls stop s
      (omega (arith, length-text_of ls stop)) le h st
