-- ===== src/Serial/Process.antt =====
-- `rtbus_runtime_serial_process`: what the serial task does with its events.
use rtbus.Base.{ℕ, not, List, ◌==◌, if◌then◌else◌}
use rtbus.Base.Rc.{Rc, ok, err, Errno}
use rtbus.Native.{Board, Service}
use rtbus.Native.Result.{complete_result}
use rtbus.Serial.Ports.{Driver, Port, begin, start}

-- APPLICATION_RUNTIME_SERIAL_BEGIN carries a `struct application_runtime_serial_begin_req` of 12 bytes.
pub data SerialEvent : Type 0 where
  sys_init : SerialEvent
  serial_begin : (payload_len result_addr port baud : ℕ) → SerialEvent
  other_event : SerialEvent

-- The `int` that the application gets; `int_of` is the 32-bit pattern of a negated errno.
abbrev pub int_result : (int_of : Errno → ℕ) → Rc → ℕ
int_result int_of ok = 0
int_result int_of (err c) = int_of c

unfoldable pub process :
    (d : ℕ → Driver)
    → Board
    → (int_of : Errno → ℕ) → List Port
    → Service
    → SerialEvent
    → List Port × Service
process d board int_of ports s sys_init = (start d ports, s)
process d board int_of ports s (serial_begin payload_len result_addr port baud) =
    let begun = begin d ports port baud in
    if not (payload_len == 12)
    then (ports, s)
    else (begun.1, (complete_result board s result_addr (int_result int_of begun.0)).1)
process d board int_of ports s other_event = (ports, s)
