-- ===== src/Delay/Time.antt =====
-- The 32-bit clock wraps around: which delays `due_reached` and `timeout_until` get right.
use rtbus.Base.{ℕ, ◌-◌, ◌^◌, ◌<◌, ◌≡◌, ◌≢◌, arith, leb, ◌==◌}
use rtbus.Base.Word.{add32, sub32}
use rtbus.Delay.{due_reached, timeout_until}

-- An event that was delayed by less than 2^31 ms is due `e` ms later exactly when `e` has reached
-- the delay, whenever the clock wraps around, as long as `e` is less than 2^31 too.
pub due_reached-add32 :
    (now d e : ℕ)
    → now < 2 ^ 32
    → d < 2 ^ 31
    → e < 2 ^ 31
    → due_reached (add32 now e) (add32 now d) ≡ leb d e
unfolding due_reached
due_reached-add32 now d e small_now small_d small_e = ground arith

-- The timeout of an event that was delayed by less than 2^31 ms is, less than 2^31 ms later, the
-- time that is left, or 0, whenever the clock wraps around.
pub timeout_until-add32 :
    (now d e : ℕ)
    → now < 2 ^ 32
    → d < 2 ^ 31
    → e < 2 ^ 31
    → timeout_until (add32 now e) (add32 now d) ≡ d - e
unfolding timeout_until
timeout_until-add32 now d e small_now small_d small_e = ground arith

-- The timeout of an event is 0 exactly when the event is due, but for the one difference of 2^31
-- ms.
pub timeout_until-due_reached :
    (now due : ℕ)
    → now < 2 ^ 32
    → due < 2 ^ 32
    → sub32 now due ≢ 2 ^ 31
    → (timeout_until now due == 0) ≡ due_reached now due
unfolding timeout_until due_reached
timeout_until-due_reached now due small_now small_due ne = ground arith
