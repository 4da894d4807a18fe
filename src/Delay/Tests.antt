-- ===== src/Delay/Tests.antt =====
-- Instances of the theorems about delayed events, around the wrap of the clock.
use rtbus.Base.{◌^◌, ◌≡◌, ◌≢◌, true, false, [], ◌∷◌, arith, leb, none, some, ◌==◌, replicate}
use rtbus.Base.Word.{add32, sub32}
use rtbus.Pool.{Pool}
use rtbus.Emos.{Bus, Request}
use rtbus.Delay.{
  DelayedEvent, Facade, cleared, due_reached, timeout_until, rtbus_next_timeout_ms, move_due_events,
}
use rtbus.Delay.Time.{due_reached-add32, timeout_until-due_reached}
use rtbus.Delay.Timeout.{IsLeast, timeouts, next_timeout-IsLeast}
use rtbus.Delay.Move.{Moved, move_due_events-Moved}

abbrev pool : Pool
pool = record {
  last = 0;
  heap = 0;
  top = 0;
  active = false;
  hdr = λ q. record { busy = false; index = 0; next = 0 };
  bytes = λ q. 0;
}

abbrev bus : Bus
bus = record {
  store = record { pool = pool; next = λ q. 0 };
  ctx = λ q. record { task_id = 0; id = 0; payload_len = 0; payload = [] };
  task_tbl = λ i. 0;
  entry_count = 0;
  poll_next_index = 0;
  registry = record { find = λ i. none; get_by_index = λ i. none };
  signals = 0;
}

abbrev event : DelayedEvent
event = record {
  used = true;
  task_id = 7;
  ctx_id = 5;
  payload_len = 0;
  due_ms = 10;
  payload = replicate 32 0;
}

abbrev facade : Facade
facade = record { bus = bus; delayed_events = event ∷ cleared ∷ [] }

abbrev request : Request
request = record { task_id = 7; ctx_id = 6; payload = some (1 ∷ 2 ∷ []); payload_len = 2 }

due_reached-add32_example : due_reached (add32 4294967290 30) (add32 4294967290 20) ≡ leb 20 30
due_reached-add32_example =
    due_reached-add32 4294967290 20 30 (omega arith) (omega arith) (omega arith)

apart : sub32 4294967290 14 ≢ 2 ^ 31
apart h = ground (arith, h)

timeout_until-due_reached_example : (timeout_until 4294967290 14 == 0) ≡ due_reached 4294967290 14
timeout_until-due_reached_example =
    timeout_until-due_reached 4294967290 14 (omega arith) (omega arith) apart

next_timeout-IsLeast_example :
    IsLeast (timeouts 4294967290 (event ∷ cleared ∷ [])) (rtbus_next_timeout_ms facade 4294967290)
next_timeout-IsLeast_example = next_timeout-IsLeast facade 4294967290

move_due_events-Moved_example :
    let (rc, f') = move_due_events facade 11 in
    Moved 11 bus (event ∷ cleared ∷ []) (rc, f'.bus, f'.delayed_events)
move_due_events-Moved_example = move_due_events-Moved facade 11
