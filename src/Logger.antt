-- ===== src/Logger.antt =====
-- The logger, Implementation/LinuxLogger.{h,cpp}. `Serial` and `millis` come from the Arduino
-- abstraction, a git submodule: what is printed is a list of bytes, and the text of the time that
-- `sprintf` makes with "%ld" an argument.
use linux_mqtt_sn_gateway.Base.{
  ℕ, ◌≡◌, ◌∙◌, refl, sym, ap, true, false, List, [], ◌∷◌, ◌++◌, ltb, if◌then◌else◌, Bool-cases, inl,
  inr, append_assoc, append-nil,
}

pub record LinuxLogger : Type 0 where
  pub current_log_lvl : ℕ
  pub last_started_log_lvl : ℕ
  pub printed : List ℕ

-- The initial values of the fields.
abbrev pub new_logger : LinuxLogger
new_logger = record { current_log_lvl = 2; last_started_log_lvl = 255; printed = [] }

-- `Serial.print`
abbrev pub print : List ℕ → LinuxLogger → LinuxLogger
print bytes s = record s { printed = s.printed ++ bytes }

-- `set_log_lvl`
abbrev pub set_log_lvl : ℕ → LinuxLogger → LinuxLogger
set_log_lvl log_lvl s = record s { current_log_lvl = log_lvl }

-- `set_current_log_lvl`
abbrev pub set_current_log_lvl : ℕ → LinuxLogger → LinuxLogger
set_current_log_lvl log_lvl s = record s { last_started_log_lvl = log_lvl }

-- The calls of `print` for a line: its end of line, the time, ": " and the message.
abbrev pub print_line : List ℕ → List ℕ → LinuxLogger → LinuxLogger
print_line millis msg s = print msg (print (58 ∷ 32 ∷ []) (print millis (print (10 ∷ []) s)))

-- `log`
unfoldable pub log : List ℕ → List ℕ → ℕ → LinuxLogger → LinuxLogger
log millis msg log_lvl s = if ltb s.current_log_lvl log_lvl then s else print_line millis msg s

-- `start_log`
unfoldable pub start_log : List ℕ → List ℕ → ℕ → LinuxLogger → LinuxLogger
start_log millis msg log_lvl s =
    let s' = record s { last_started_log_lvl = log_lvl } in
    if ltb s'.current_log_lvl s'.last_started_log_lvl then s' else print_line millis msg s'

-- `append_log`
unfoldable pub append_log : List ℕ → LinuxLogger → LinuxLogger
append_log msg s = if ltb s.current_log_lvl s.last_started_log_lvl then s else print msg s

-- Calls of `append_log` one after the other.
unfoldable pub append_logs : List (List ℕ) → LinuxLogger → LinuxLogger
append_logs [] s = s
append_logs (m ∷ ms) s = append_logs ms (append_log m s)

abbrev pub joined : List (List ℕ) → List ℕ
joined [] = []
joined (m ∷ ms) = m ++ joined ms

append_logs-shut :
    (ms : List (List ℕ)) (s : LinuxLogger)
    → ltb s.current_log_lvl s.last_started_log_lvl ≡ true
    → append_logs ms s ≡ s
unfolding append_logs append_log
append_logs-shut [] s h = refl
append_logs-shut (m ∷ ms) s h =
    ap (λ b. append_logs ms (if b then s else print m s)) h ∙ append_logs-shut ms s h

append_logs-open :
    (ms : List (List ℕ)) (s : LinuxLogger)
    → ltb s.current_log_lvl s.last_started_log_lvl ≡ false
    → append_logs ms s ≡ print (joined ms) s
unfolding append_logs append_log
append_logs-open [] s h = ap (λ l. record s { printed = l }) (sym (append-nil s.printed))
append_logs-open (m ∷ ms) s h =
    ap (λ b. append_logs ms (if b then s else print m s)) h
    ∙ append_logs-open ms (print m s) h
    ∙ ap (λ l. record s { printed = l }) (append_assoc s.printed m (joined ms))

-- A line that start_log begins and append_log continues is printed as a whole or not at all: all of it
-- when its level is at most the logger's, as one call of `log` with the joined text prints it, and
-- nothing when it is higher.
pub append_logs-start_log :
    (millis msg : List ℕ) (ms : List (List ℕ)) (log_lvl : ℕ) (s : LinuxLogger)
    → append_logs ms (start_log millis msg log_lvl s)
      ≡ log millis (msg ++ joined ms) log_lvl (record s { last_started_log_lvl = log_lvl })
unfolding start_log log
append_logs-start_log millis msg ms log_lvl s =
    let s' : LinuxLogger = record s { last_started_log_lvl = log_lvl } in
    elim (Bool-cases (ltb s.current_log_lvl log_lvl)) [
      | inl t ↦ rw t (append_logs-shut ms s' t)
      | inr f ↦ rw f (
          append_logs-open ms (print_line millis msg s') f
          ∙ ap (λ l. record s' { printed = l }) (append_assoc _ msg (joined ms)))
    ]
