-- ===== src/Native/Delay.antt =====
-- The events of the native application: they are handed to its callback in order, and `k_delay` hands
-- out all that come while it waits.
use mathlib.Core.List.{append-nil, append_assoc}
use rtbus.Base.{
  ℕ, zero, suc, ◌+◌, ◌<◌, ◌≡◌, ◌∙◌, refl, sym, ap, Bool, true, false, ◌||◌, ◌≢◌, List, [], ◌∷◌,
  ◌++◌, arith, leb, ◌==◌, if◌then◌else◌, Option, none, some, length, All,
}
use rtbus.Base.Rc.{Rc, ok, err, eintr}
use rtbus.Native.{Service, Event}
use rtbus.Native.Api.{
  Msgq, IsFifo, Round, dispatch_from, dispatch_events, waited, delay_from, k_delay,
}

-- The events of some rounds, in the order in which they came.
abbrev pub arrivals : List Round → List Event
arrivals [] = []
arrivals (r ∷ rs) = r.arrived ++ arrivals rs

-- The service when its callback has got some more events, and those in the queue are others.
abbrev pub with_events : Service → (delivered events : List Event) → Service
with_events s delivered events = record s { delivered = delivered; events = events }

module _ (q : Msgq Event) (fifo : IsFifo q) where
  dispatch_from-all :
      (events : List Event) (fuel : ℕ) (s : Service)
      → s.events ≡ events
      → length events < fuel
      → (s.event_callback == 0) ≡ false
      → dispatch_from q fuel s ≡ with_events s (s.delivered ++ events) []
  unfolding dispatch_from
  dispatch_from-all [] zero s k l e = absurd (omega (arith, l))
  dispatch_from-all (x ∷ events) zero s k l e = absurd (omega (arith, l))
  dispatch_from-all [] (suc fuel) s k l e =
      let none_got : q.get s.events ≡ none = ap q.get k ∙ fifo.get_empty in
      let same = sym (append-nil s.delivered) in
      rw (dispatch_from, none_got) (λ i. record s { delivered = same i; events = k i })
  dispatch_from-all (x ∷ events) (suc fuel) s k l e =
      let some_got : q.get s.events ≡ some (x, events) = ap q.get k ∙ fifo.get_first x events in
      let rest = record s { events = events; delivered = s.delivered ++ x ∷ [] } in
      rw (dispatch_from, some_got, e)
        (dispatch_from-all events fuel rest refl (omega (arith, l)) e
          ∙ ap (λ (z : List Event). with_events s z []) (append_assoc s.delivered (x ∷ []) events))

  pub dispatch_events-all :
      (s : Service)
      → (s.event_callback == 0) ≡ false
      → dispatch_events q s ≡ with_events s (s.delivered ++ s.events) []
  unfolding dispatch_events
  dispatch_events-all s e = dispatch_from-all s.events (length s.events + 1) s refl (omega arith) e

  -- What a round in which the delay goes on has seen.
  abbrev pub GoesOn : (deadline_ms : ℕ) → Round → Type 0
  GoesOn deadline_ms r = (r.handoff ≡ false) × (leb deadline_ms r.now_ms ≡ false)

  abbrev seen : Service → Round → Service
  seen s r = record s { events = s.events ++ r.arrived }

  all_of : (s : Service) → List Event → Option Rc × Service
  all_of s events = (some ok, with_events s (s.delivered ++ events) [])

  delay_from-on :
      (deadline_ms : ℕ) (r : Round) (rs : List Round) (s : Service)
      → GoesOn deadline_ms r
      → delay_from q deadline_ms s (r ∷ rs) ≡ delay_from q deadline_ms (waited q s r) rs
  unfolding delay_from
  delay_from-on deadline_ms r rs s on = simp (on.0, on.1) refl

  delay_from-delivers :
      (rounds : List Round) (deadline_ms : ℕ) (last : Round) (later : List Round) (s : Service)
      → (s.event_callback == 0) ≡ false
      → All (GoesOn deadline_ms) rounds
      → last.handoff ≡ false
      → leb deadline_ms last.now_ms ≡ true
      → delay_from q deadline_ms s (rounds ++ last ∷ later) ≡ all_of s (s.events ++ arrivals rounds)
  unfolding all_of delay_from
  delay_from-delivers [] deadline_ms last later s e on h l =
      simp (h, l)
        (ap (λ (z : Service). (some ok, z)) (dispatch_events-all s e)
          ∙ ap (all_of s) (sym (append-nil s.events)))
  delay_from-delivers (r ∷ rounds) deadline_ms last later s e on h l =
      delay_from-on deadline_ms r (rounds ++ last ∷ later) s on.0
      ∙ step r.irq refl (λ s' e'. delay_from-delivers rounds deadline_ms last later s' e' on.1 h l)
    where
      step :
          (irq : Bool)
          → r.irq ≡ irq
          → ((s' : Service)
              → (s'.event_callback == 0) ≡ false
              → delay_from q deadline_ms s' (rounds ++ last ∷ later)
                ≡ all_of s' (s'.events ++ arrivals rounds))
          → delay_from q deadline_ms (waited q s r) (rounds ++ last ∷ later)
            ≡ all_of s (s.events ++ (r.arrived ++ arrivals rounds))
      step true k ih =
          rw (k, dispatch_events-all (seen s r) e)
            (ih (with_events s (s.delivered ++ (s.events ++ r.arrived)) []) e
              ∙ ap (λ (z : List Event). (some ok, with_events s z []))
                  (append_assoc s.delivered (s.events ++ r.arrived) (arrivals rounds)
                    ∙ ap (λ (z : List Event). s.delivered ++ z)
                        (append_assoc s.events r.arrived (arrivals rounds))))
      step false k ih =
          rw k (ih (seen s r) e ∙ ap (all_of s) (append_assoc s.events r.arrived (arrivals rounds)))

  -- A delay that nothing asks to stop returns 0 in the first round at or after its deadline, and by
  -- then the callback of the application has got all events, those that waited and those that came in
  -- the rounds before, in order, and none is left.
  pub k_delay-delivers :
      (s : Service) (uptime_ms delay_ms : ℕ) (rounds : List Round) (last : Round)
      (later : List Round)
      → (s.event_callback == 0) ≡ false
      → All (GoesOn (uptime_ms + delay_ms)) rounds
      → last.handoff ≡ false
      → leb (uptime_ms + delay_ms) last.now_ms ≡ true
      → k_delay q s uptime_ms delay_ms (rounds ++ last ∷ later)
        ≡ (some ok, with_events s (s.delivered ++ (s.events ++ arrivals rounds)) [])
  unfolding k_delay all_of
  k_delay-delivers s uptime_ms delay_ms rounds last later e on h l = rw (dispatch_events-all s e) (
      delay_from-delivers rounds (uptime_ms + delay_ms) last later
        (with_events s (s.delivered ++ s.events) []) e on h l
      ∙ ap (λ (z : List Event). (some ok, with_events s z []))
          (append_assoc s.delivered s.events (arrivals rounds)))

-- The two ends of a delay, or what the rounds behind come to.
ends :
    (a b : Bool) (x y rest : Option Rc × Service)
    → x.0 ≢ none
    → y.0 ≢ none
    → ((a || b) ≡ false → rest.0 ≢ none)
    → (if a then x else if b then y else rest).0 ≢ none
ends true b x y rest g h k = g
ends false true x y rest g h k = h
ends false false x y rest g h k = k refl

delay_from-returns :
    (q : Msgq Event) (before : List Round) (deadline_ms : ℕ) (last : Round) (later : List Round)
    (s : Service)
    → (last.handoff || leb deadline_ms last.now_ms) ≡ true
    → (delay_from q deadline_ms s (before ++ last ∷ later)).0 ≢ none
unfolding delay_from
delay_from-returns q [] deadline_ms last later s h =
    ends last.handoff (leb deadline_ms last.now_ms) (some (err eintr), s)
      (some ok, dispatch_events q s) (delay_from q deadline_ms (waited q s last) later) (cc) (cc)
      (λ k. absurd (ground (arith, h, k)))
delay_from-returns q (r ∷ before) deadline_ms last later s h =
    ends r.handoff (leb deadline_ms r.now_ms) (some (err eintr), s) (some ok, dispatch_events q s)
      (delay_from q deadline_ms (waited q s r) (before ++ last ∷ later)) (cc) (cc)
      (λ k. delay_from-returns q before deadline_ms last later (waited q s r) h)

-- Once a round of a delay sees its deadline reached or the request to stop, the delay has returned,
-- whatever the rounds before saw and whatever events came.
pub k_delay-returns :
    (q : Msgq Event) (s : Service) (uptime_ms delay_ms : ℕ) (before : List Round) (last : Round)
    (later : List Round)
    → (last.handoff || leb (uptime_ms + delay_ms) last.now_ms) ≡ true
    → (k_delay q s uptime_ms delay_ms (before ++ last ∷ later)).0 ≢ none
unfolding k_delay
k_delay-returns q s uptime_ms delay_ms before last later h =
    delay_from-returns q before (uptime_ms + delay_ms) last later (dispatch_events q s) h
