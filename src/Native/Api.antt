-- ===== src/Native/Api.antt =====
-- zephyr/modules/rtbus/services/native_service/api.c: what the native application calls, and the hook
-- that takes its posts to the bus. Of native_service.c, the events and the results.
-- The kernel's message queues, the GPIO driver and the driver of a serial port are parameters. What
-- `vsnprintk` writes is one too. The callback of the application is called, and what it does in turn
-- is not modelled.
use rtbus.Base.{
  ℕ, zero, suc, ◌+◌, ◌-◌, ◌≡◌, ◌≢◌, ◌<◌, ◌≤◌, Bool, true, false, not, ◌&&◌, ◌||◌, List, [], ◌∷◌,
  ◌++◌, Option, none, some, ltb, leb, ◌==◌, if◌then◌else◌, length, take,
}
use rtbus.Base.Rc.{Rc, ok, err, einval, emsgsize, eintr}
use rtbus.Emos.{Request, is_null}
use rtbus.Delay.{Facade, rtbus_post}
use rtbus.Native.{Service, PostMsg, Event}

-- `k_msgq_put` and `k_msgq_get` without waiting, on the messages that a queue holds.
pub record Msgq {ℓ} (A : Type ℓ) : Type ℓ where
  pub put : (depth : ℕ) → List A → A → Rc × List A
  pub get : List A → Option (A × List A)

-- What the kernel documents of them: first in, first out, and a queue that is full refuses.
pub record IsFifo {ℓ} {A : Type ℓ} (q : Msgq A) : Type ℓ where
  pub put_room :
      (depth : ℕ) (xs : List A) (x : A) → length xs < depth → q.put depth xs x ≡ (ok, xs ++ x ∷ [])
  pub put_full :
      (depth : ℕ) (xs : List A) (x : A)
      → depth ≤ length xs
      → ((q.put depth xs x).0 ≢ ok) × ((q.put depth xs x).1 ≡ xs)
  pub get_empty : q.get [] ≡ none
  pub get_first : (x : A) (xs : List A) → q.get (x ∷ xs) ≡ some (x, xs)

-- NATIVE_RTBUS_POST_QUEUE_DEPTH, NATIVE_RTBUS_POST_PAYLOAD_MAX, NATIVE_EVENT_QUEUE_DEPTH and
-- RUNTIME_EVENT_VALUE_MAX
abbrev pub post_queue_depth : ℕ
post_queue_depth = 8

abbrev pub post_payload_max : ℕ
post_payload_max = 32

abbrev pub event_queue_depth : ℕ
event_queue_depth = 8

abbrev pub event_value_max : ℕ
event_value_max = 256

abbrev pub bytes_of : Option (List ℕ) → (len : ℕ) → List ℕ
bytes_of none len = []
bytes_of (some bytes) len = take len bytes

abbrev pub is_ok : Rc → Bool
is_ok ok = true
is_ok (err _) = false

abbrev pub enter : Service → Service
enter s = record s { api_busy = s.api_busy + 1 }

abbrev pub leave : Service → Service
leave s = record s { api_busy = s.api_busy - 1 }

-- `native_api_rtbus_post`. A payload of `none` is NULL.
unfoldable pub api_rtbus_post :
    Msgq PostMsg
    → Service
    → (task_id ctx_id : ℕ) → (payload : Option (List ℕ)) → (payload_len : ℕ) → Rc × Service
api_rtbus_post q s task_id ctx_id payload payload_len =
    let msg : PostMsg = record {
      task_id = task_id;
      ctx_id = ctx_id;
      payload_len = payload_len;
      payload = bytes_of payload payload_len;
    } in
    let (rc, posts) = q.put post_queue_depth s.posts msg in
    if ltb post_payload_max payload_len
    then (err emsgsize, leave (enter s))
    else if not (payload_len == 0) && is_null payload
    then (err einval, leave (enter s))
    else (
      rc,
      leave (record (enter s) {
        posts = posts;
        runtime_signals = s.runtime_signals + (if is_ok rc then 1 else 0);
      }),
    )

-- `native_service_emit_event`. A value of `none` is NULL.
unfoldable pub emit_event :
    Msgq Event → Service → (group tag : ℕ) → (value : Option (List ℕ)) → (len : ℕ) → Rc × Service
emit_event q s group tag value len =
    let event : Event = record {
      group = group;
      tag = tag;
      len = len;
      value = bytes_of value len;
    } in
    let (rc, events) = q.put event_queue_depth s.events event in
    if ltb event_value_max len
    then (err emsgsize, s)
    else if not (len == 0) && is_null value
    then (err einval, s)
    else (rc, record s { events = events; wake_irq = s.wake_irq || is_ok rc })

-- The loop of `native_service_dispatch_events`, at most `fuel` rounds.
unfoldable pub dispatch_from : Msgq Event → (fuel : ℕ) → Service → Service
dispatch_from q zero s = s
dispatch_from q (suc fuel) s = elim (q.get s.events) [
  | none ↦ s
  | some (event, events) ↦ dispatch_from q fuel (record s {
    events = events;
    delivered = if s.event_callback == 0 then s.delivered else s.delivered ++ event ∷ [];
  })
]

-- One round more than there are events.
unfoldable pub dispatch_events : Msgq Event → Service → Service
dispatch_events q s = dispatch_from q (length s.events + 1) s

-- `native_api_on_event`
unfoldable pub on_event : Service → (callback : ℕ) → Rc × Service
on_event s callback = (ok, record s { event_callback = callback })

-- What `rtbus_process_async_posts` hands to `rtbus_post`.
abbrev pub request_of : PostMsg → Request
request_of m = record {
  task_id = m.task_id;
  ctx_id = m.ctx_id;
  payload = if m.payload_len == 0 then none else some m.payload;
  payload_len = m.payload_len;
}

-- The loop of `rtbus_process_async_posts`, at most `fuel` rounds. It returns when a post fails.
unfoldable pub post_from : Msgq PostMsg → (fuel : ℕ) → Service → Facade → Rc × Service × Facade
post_from q zero s f = (ok, s, f)
post_from q (suc fuel) s f = elim (q.get s.posts) [
  | none ↦ (ok, s, f)
  | some (m, posts) ↦
      let posted = rtbus_post f (request_of m) in
      let left = leave (enter (record s { posts = posts })) in
      let rest = post_from q fuel left posted.1 in
      elim posted.0 [ ok ↦ rest | err c ↦ (err c, left, posted.1) ]
]

-- One round more than there are posts.
unfoldable pub process_async_posts : Msgq PostMsg → Service → Facade → Rc × Service × Facade
process_async_posts q s f = post_from q (length s.posts + 1) s f

-- One look of `native_api_k_delay` at the clock and at `native_patch_handoff`, and the wait that
-- follows: the events that were put in the queue meanwhile, and whether `k_event_wait` returned with
-- NATIVE_WAKE_IRQ.
pub record Round : Type 0 where
  pub now_ms : ℕ
  pub handoff : Bool
  pub arrived : List Event
  pub irq : Bool

-- The service when a wait ends.
abbrev pub waited : Msgq Event → Service → Round → Service
waited q s r =
    let seen = record s { events = s.events ++ r.arrived } in
    if r.irq then dispatch_events q seen else seen

-- The loop of `native_api_k_delay`; it is still waiting when the rounds end.
unfoldable pub delay_from :
    Msgq Event → (deadline_ms : ℕ) → Service → List Round → Option Rc × Service
delay_from q deadline_ms s [] = (none, s)
delay_from q deadline_ms s (r ∷ rs) =
    let rest = delay_from q deadline_ms (waited q s r) rs in
    if r.handoff
    then (some (err eintr), s)
    else if leb deadline_ms r.now_ms
    then (some ok, dispatch_events q s)
    else rest

unfoldable pub k_delay :
    Msgq Event → Service → (uptime_ms delay_ms : ℕ) → List Round → Option Rc × Service
k_delay q s uptime_ms delay_ms rounds =
    delay_from q (uptime_ms + delay_ms) (dispatch_events q s) rounds
