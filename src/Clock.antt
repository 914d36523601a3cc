-- ===== src/Clock.antt =====
-- The clock of the gateway, Implementation/LinuxSystem.{h,cpp}, over `millis` as an argument. All values
-- are uint32_t and wrap.
use linux_mqtt_sn_gateway.Base.{
  ℕ, ◌+◌, ◌-◌, ◌%◌, ◌^◌, ◌<◌, ◌≡◌, refl, Bool, true, false, List, [], ◌∷◌, ltb, if◌then◌else◌, All,
  arith,
}

pub record Clock : Type 0 where
  pub heartbeat_period : ℕ
  pub heartbeat_current : ℕ
  pub elapsed_current : ℕ

-- `a - b` on a `uint32_t`.
abbrev pub minus32 : ℕ → ℕ → ℕ
minus32 a b = (a + (2 ^ 32 - b)) % 2 ^ 32

-- `set_heartbeat`
unfoldable pub set_heartbeat : ℕ → Clock → Clock
set_heartbeat period s = record s { heartbeat_period = period }

-- `get_heartbeat`
unfoldable pub get_heartbeat : Clock → ℕ
get_heartbeat s = s.heartbeat_period

-- `has_beaten`, at the time `current`
unfoldable pub has_beaten : ℕ → Clock → Bool × Clock
has_beaten current s =
    if ltb s.heartbeat_period (minus32 current s.heartbeat_current)
    then (true, record s { heartbeat_current = current })
    else (false, s)

-- `get_elapsed_time`, at the time `current`
unfoldable pub get_elapsed_time : ℕ → Clock → ℕ × Clock
get_elapsed_time current s =
    (minus32 current s.elapsed_current, record s { elapsed_current = current })

-- The times of calls, each with the milliseconds since the one before, and their sum.
unfoldable pub total : List ℕ → ℕ
total [] = 0
total (d ∷ ds) = d + total ds

-- The sum of what `get_elapsed_time` gives when it is called after each of the pauses `ds`, the clock
-- `millis` wrapping at 2 ^ 32.
unfoldable pub elapsed_sum : ℕ → List ℕ → Clock → ℕ
elapsed_sum now [] s = 0
elapsed_sum now (d ∷ ds) s =
    let (elapsed, s') = get_elapsed_time ((now + d) % 2 ^ 32) s in
    elapsed + elapsed_sum (now + d) ds s'

elapsed-wraps : (now d : ℕ) → d < 2 ^ 32 → minus32 ((now + d) % 2 ^ 32) (now % 2 ^ 32) ≡ d
elapsed-wraps now d h = omega arith

-- Called after each of some pauses of less than 2 ^ 32 ms, from a moment that it has noted,
-- get_elapsed_time gives values whose sum is the whole time, also where millis and the noted
-- moments wrap.
pub elapsed_sum-total :
    (now : ℕ) (ds : List ℕ) (s : Clock)
    → All (λ d. d < 2 ^ 32) ds
    → s.elapsed_current ≡ now % 2 ^ 32
    → elapsed_sum now ds s ≡ total ds
unfolding elapsed_sum get_elapsed_time total
elapsed_sum-total now [] s h e = refl
elapsed_sum-total now (d ∷ ds) s h e =
    rw
      (
        e,
        elapsed-wraps now d h.0,
        elapsed_sum-total (now + d) ds (record s { elapsed_current = (now + d) % 2 ^ 32 }) h.1 refl,
      )
      refl
