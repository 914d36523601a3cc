-- ===== src/Serial/Lines.antt =====
-- How LinuxSerialSocket.cpp reads lines: `waitFor`, and the loop at the start of each `read…`.
use linux_mqtt_sn_gateway.Base.{
  ℕ, Bool, true, ◌&&◌, List, [], ◌∷◌, ◌++◌, length, leb, ◌==◌, if◌then◌else◌, c_str, bytes_eq,
}
use linux_mqtt_sn_gateway.Serial.State.{done, stuck, overflow, Action, ◌>>=◌}
use linux_mqtt_sn_gateway.Serial.Numbers.{split}

-- A line and the input behind it, or why there is none.
pub data Line : Type 0 where
  found : List ℕ → List ℕ → Line
  starved : Line
  too_long : Line

-- The loop of `waitFor`, `so_far` being the first `buffer_read` bytes of the buffer.
unfoldable pub wait : List ℕ → List ℕ → List ℕ → Line
wait wanted so_far [] = starved
wait wanted so_far (c ∷ input) =
    let line = so_far ++ c ∷ [] in
    let rest = wait wanted (if c == 10 then [] else line) input in
    if leb 1024 (length so_far)
    then too_long
    else if c == 10 && length wanted == length line && bytes_eq (c_str line) wanted
    then found line input
    else rest

-- The loop that fills the buffer of a `read…` up to the end of the line. A line of 1024 bytes leaves
-- no NUL for `strsep`.
unfoldable pub take_line : List ℕ → List ℕ → Line
take_line so_far [] = starved
take_line so_far (c ∷ input) =
    let line = so_far ++ c ∷ [] in
    let rest = take_line line input in
    if leb 1024 (length so_far)
    then too_long
    else if c == 10
    then if length line == 1024 then too_long else found line input
    else rest

abbrev pub from_line : Line → Action (List ℕ)
from_line (found line input) b = done line (record b { input = input })
from_line starved b = stuck
from_line too_long b = overflow

-- `waitFor`; it returns true or not at all.
unfoldable pub wait_for : List ℕ → Action Bool
unfolding wait
wait_for wanted b = (from_line (wait wanted [] b.input) >>= λ _. done true) b

-- The line in the buffer, as the tokens that `strsep` finds in it.
unfoldable pub read_tokens : Action (List (List ℕ))
unfolding take_line
read_tokens b = (from_line (take_line [] b.input) >>= λ line. done (split (c_str line))) b
