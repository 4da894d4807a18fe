-- ===== src/Delay.antt =====
-- zephyr/modules/rtbus/src/rtbus.c: the public bus, with events that wait for a time.
-- `now_ms` is what `k_uptime_get_32` returns, read once in each function.
pub mod Time
pub mod Timeout
pub mod Slots
pub mod Move
mod Tests
use rtbus.Base.{
  ℕ, ◌+◌, Bool, true, false, not, ◌&&◌, ◌||◌, List, [], ◌∷◌, ◌++◌, Option, none, some, ltb, leb,
  ◌==◌, if◌then◌else◌, take, drop, replicate,
}
use rtbus.Base.Rc.{Rc, ok, err, Errno, enoent, enomem, einval, emsgsize, enotsup}
use rtbus.Base.Word.{add32, sub32}
use rtbus.Entries.{Registry}
use rtbus.Emos.{Bus, Ctx, Request, Processed, failed, is_null, emos_post, emos_init, emos_process}

-- CONFIG_RTBUS_DELAYED_EVENT_DEPTH and CONFIG_RTBUS_DELAYED_EVENT_PAYLOAD_MAX
abbrev pub depth : ℕ
depth = 8

abbrev pub payload_max : ℕ
payload_max = 32

-- `struct rtbus_delayed_event`
pub record DelayedEvent : Type 0 where
  pub used : Bool
  pub task_id : ℕ
  pub ctx_id : ℕ
  pub payload_len : ℕ
  pub due_ms : ℕ
  pub payload : List ℕ

-- A slot after `memset`.
abbrev pub cleared : DelayedEvent
cleared = record {
  used = false;
  task_id = 0;
  ctx_id = 0;
  payload_len = 0;
  due_ms = 0;
  payload = replicate payload_max 0;
}

-- The core and `delayed_events`.
pub record Facade : Type 0 where
  pub bus : Bus
  pub delayed_events : List DelayedEvent

-- A 32-bit difference that is not negative as an `int32_t`.
unfoldable pub due_reached : (now_ms due_ms : ℕ) → Bool
due_reached now_ms due_ms = ltb (sub32 now_ms due_ms) 2147483648

unfoldable pub timeout_until : (now_ms due_ms : ℕ) → ℕ
timeout_until now_ms due_ms =
    if ltb (sub32 due_ms now_ms) 2147483648 then sub32 due_ms now_ms else 0

unfoldable pub reset_delayed_events : Facade → Facade
reset_delayed_events f = record f { delayed_events = replicate depth cleared }

-- `rtbus_init`; the backend enters as in `emos_init`.
unfoldable pub rtbus_init :
    Facade
    → (pool_addr pool_size : ℕ) → (reset registered : Registry) → (rc : Rc) → (count : ℕ)
    → Rc × Facade
rtbus_init f pool_addr pool_size reset registered rc count =
    let f' = reset_delayed_events f in
    let (rc', bus) = emos_init f'.bus pool_addr pool_size reset registered rc count in
    elim rc' [
      | ok ↦ (ok, record f' { bus = bus })
      | err c ↦ (err c, reset_delayed_events (record f' { bus = bus }))
    ]

-- ENOENT of the core is ENOTSUP for the public.
abbrev pub unsupported : Rc → Rc
unsupported ok = ok
unsupported (err enoent) = err enotsup
unsupported (err c) = err c

unfoldable pub rtbus_post : Facade → Request → Rc × Facade
rtbus_post f r = let (rc, bus) = emos_post f.bus r in (unsupported rc, record f { bus = bus })

-- The slot with the payload and the rest of the request.
abbrev pub fill : DelayedEvent → Request → (due_ms : ℕ) → DelayedEvent
fill event r due_ms = record {
  used = true;
  task_id = r.task_id;
  ctx_id = r.ctx_id;
  payload_len = r.payload_len;
  due_ms = due_ms;
  payload = elim r.payload [
    | none ↦ event.payload
    | some bytes ↦ take r.payload_len bytes ++ drop r.payload_len event.payload
  ];
}

-- The slots once the first free one is filled, `none` if there is none.
unfoldable pub claim : List DelayedEvent → Request → (due_ms : ℕ) → Option (List DelayedEvent)
claim [] r due_ms = none
claim (event ∷ events) r due_ms =
    let rest = claim events r due_ms in
    if not event.used
    then some (fill event r due_ms ∷ events)
    else elim rest [ none ↦ none | some events' ↦ some (event ∷ events') ]

unfoldable pub rtbus_post_delay : Facade → Request → (now_ms delay_ms : ℕ) → Rc × Facade
rtbus_post_delay f r now_ms delay_ms =
    if delay_ms == 0
    then rtbus_post f r
    else if not (r.payload_len == 0) && is_null r.payload
    then (err einval, f)
    else if ltb payload_max r.payload_len
    then (err emsgsize, f)
    else elim (claim f.delayed_events r (add32 now_ms delay_ms)) [
      | none ↦ (err enomem, f)
      | some events ↦ (
        ok,
        record { bus = record f.bus { signals = f.bus.signals + 1 }; delayed_events = events },
      )
    ]

abbrev pub sooner : ℕ → Option ℕ → Bool
sooner timeout_ms none = true
sooner timeout_ms (some next_timeout_ms) = ltb timeout_ms next_timeout_ms

-- The loop of `rtbus_next_timeout_ms`, with `found` and `next_timeout_ms` as one value.
unfoldable pub next_timeout : (now_ms : ℕ) → Option ℕ → List DelayedEvent → Option ℕ
next_timeout now_ms next [] = next
next_timeout now_ms next (event ∷ events) =
    let timeout_ms = timeout_until now_ms event.due_ms in
    if not event.used
    then next_timeout now_ms next events
    else next_timeout now_ms (if sooner timeout_ms next then some timeout_ms else next) events

-- `none` is the result -1.
unfoldable pub rtbus_next_timeout_ms : Facade → (now_ms : ℕ) → Option ℕ
rtbus_next_timeout_ms f now_ms = next_timeout now_ms none f.delayed_events

abbrev pub request_of : DelayedEvent → Request
request_of event = record {
  task_id = event.task_id;
  ctx_id = event.ctx_id;
  payload = if event.payload_len == 0 then none else some event.payload;
  payload_len = event.payload_len;
}

abbrev pub is_due : (now_ms : ℕ) → DelayedEvent → Bool
is_due now_ms event = not (not event.used || not (due_reached now_ms event.due_ms))

-- The loop of `rtbus_move_due_events`.
unfoldable pub move_due : (now_ms : ℕ) → Bus → List DelayedEvent → Rc × Bus × List DelayedEvent
move_due now_ms b [] = (ok, b, [])
move_due now_ms b (event ∷ events) =
    let (rc, b') = emos_post b (request_of event) in
    let rest = move_due now_ms b' events in
    let skipped = move_due now_ms b events in
    if is_due now_ms event
    then elim rc [ err c ↦ (err c, b', event ∷ events) | ok ↦ (rest.0, rest.1, cleared ∷ rest.2) ]
    else (skipped.0, skipped.1, event ∷ skipped.2)

unfoldable pub move_due_events : Facade → (now_ms : ℕ) → Rc × Facade
move_due_events f now_ms =
    let (rc, bus, events) = move_due now_ms f.bus f.delayed_events in
    (rc, record { bus = bus; delayed_events = events })

-- `rtbus_process`
unfoldable pub rtbus_process :
    (handler : ℕ → Ctx → List Request)
    → (async_posts : Bus → Rc × Bus) → Facade
    → (now_ms : ℕ) → Processed × Facade
rtbus_process handler async_posts f now_ms =
    let (rc, f') = move_due_events f now_ms in
    let (done, bus) = emos_process handler async_posts f'.bus in
    elim rc [ err c ↦ (failed c, f') | ok ↦ (done, record f' { bus = bus }) ]
