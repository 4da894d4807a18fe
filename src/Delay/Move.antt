-- ===== src/Delay/Move.antt =====
-- `rtbus_move_due_events`: the events that are due go to the queues, in the order of their slots.
use rtbus.Base.{
  ℕ, ◌≡◌, refl, ap, inl, inr, Bool, true, false, ◌&&◌, List, [], ◌∷◌, ◌++◌, if◌then◌else◌,
  Bool-cases,
}
use rtbus.Base.Rc.{Rc, ok, err, Errno, is_ok}
use rtbus.Emos.{Bus, Request, emos_post}
use rtbus.Emos.{run_posts}
use rtbus.Delay.{DelayedEvent, Facade, cleared, is_due, request_of, move_due, move_due_events}

-- The requests of the due events, and the slots once they are cleared.
pub due_requests : (now_ms : ℕ) → List DelayedEvent → List Request
due_requests now_ms [] = []
due_requests now_ms (event ∷ events) =
    let rest = due_requests now_ms events in
    if is_due now_ms event then request_of event ∷ rest else rest

pub cleared_due : (now_ms : ℕ) → List DelayedEvent → List DelayedEvent
cleared_due now_ms [] = []
cleared_due now_ms (event ∷ events) =
    (if is_due now_ms event then cleared else event) ∷ cleared_due now_ms events

-- Every post of the requests, each on the bus that the one before left, returns 0.
pub accepts_all : Bus → List Request → Bool
accepts_all b [] = true
accepts_all b (r ∷ rs) = is_ok (emos_post b r).0 && accepts_all (emos_post b r).1 rs

-- The outcome of the loop from a bus: every due event is posted and its slot cleared, or the
-- posts stop at the due event `event`, which fails and stays, as do the slots behind it.
pub data Moved (now_ms : ℕ) (b : Bus) (events : List DelayedEvent)
    (o : Rc × Bus × List DelayedEvent) : Type 0 where
  moved :
      accepts_all b (due_requests now_ms events) ≡ true
      → o ≡ (ok, run_posts b (due_requests now_ms events), cleared_due now_ms events)
      → Moved now_ms b events o
  stuck_at :
      (before : List DelayedEvent) (event : DelayedEvent) (after : List DelayedEvent) (c : Errno)
      → events ≡ before ++ event ∷ after
      → is_due now_ms event ≡ true
      → accepts_all b (due_requests now_ms before) ≡ true
      → emos_post (run_posts b (due_requests now_ms before)) (request_of event) ≡ (err c, o.1)
      → o.0 ≡ err c
      → o.2 ≡ cleared_due now_ms before ++ event ∷ after
      → Moved now_ms b events o

module _ (now_ms : ℕ) (b : Bus) (event : DelayedEvent) (events : List DelayedEvent) where
  Moved-skipped :
      (o : Rc × Bus × List DelayedEvent)
      → is_due now_ms event ≡ false
      → Moved now_ms b events o
      → Moved now_ms b (event ∷ events) (o.0, o.1, event ∷ o.2)
  unfolding due_requests cleared_due accepts_all
  Moved-skipped o z (moved a e) = moved (rw z a) (rw (e, z))
  Moved-skipped o z (stuck_at before next after c e due a post rc slots) =
      stuck_at (event ∷ before) next after c (ap (λ xs. event ∷ xs) e) due (rw z a) (rw z post) rc
        (rw (z, slots))

  Moved-posted :
      (o : Rc × Bus × List DelayedEvent)
      → is_due now_ms event ≡ true
      → is_ok (emos_post b (request_of event)).0 ≡ true
      → Moved now_ms (emos_post b (request_of event)).1 events o
      → Moved now_ms b (event ∷ events) (o.0, o.1, cleared ∷ o.2)
  unfolding due_requests cleared_due run_posts accepts_all
  Moved-posted o y sent (moved a e) = moved (rw (y, sent) a) (rw (e, y))
  Moved-posted o y sent (stuck_at before next after c e due a post rc slots) =
      stuck_at (event ∷ before) next after c (ap (λ xs. event ∷ xs) e) due (rw (y, sent) a)
        (rw y post) rc (rw (y, slots))

move_due-Moved :
    (now_ms : ℕ) (events : List DelayedEvent) (b : Bus)
    → Moved now_ms b events (move_due now_ms b events)
unfolding move_due due_requests cleared_due run_posts accepts_all
move_due-Moved now_ms [] b = moved refl refl
move_due-Moved now_ms (event ∷ events) b = elim (Bool-cases (is_due now_ms event)) [
  | inl y ↦
      rw (move_due, y)
        (posted (emos_post b (request_of event)) refl y λ b'. move_due-Moved now_ms events b')
  | inr z ↦
      rw (move_due, z)
        (Moved-skipped now_ms b event events (move_due now_ms b events) z
          (move_due-Moved now_ms events b))
]
  where
    posted :
        (o : Rc × Bus)
        → emos_post b (request_of event) ≡ o
        → is_due now_ms event ≡ true
        → ((b' : Bus) → Moved now_ms b' events (move_due now_ms b' events))
        → Moved now_ms b (event ∷ events) (elim o.0 [
          | err c ↦ (err c, o.1, event ∷ events)
          | ok ↦ (
            (move_due now_ms o.1 events).0,
            (move_due now_ms o.1 events).1,
            cleared ∷ (move_due now_ms o.1 events).2,
          )
        ])
    posted (err c, b') e y rest = stuck_at [] event events c refl y refl e refl refl
    posted (ok, b') e y rest =
        Moved-posted now_ms b event events (move_due now_ms b' events) y (rw e refl)
          (rw e (rest b'))

-- Moving the due events either returns 0, posts every due event in the order of the slots, each post
-- with success, clears their slots and leaves the others, or returns the error of the first post that fails,
-- with the slots before it posted and cleared in the same way and that slot and those behind it as they were.
pub move_due_events-Moved :
    (f : Facade) (now_ms : ℕ)
    → let (rc, f') = move_due_events f now_ms in
      Moved now_ms f.bus f.delayed_events (rc, f'.bus, f'.delayed_events)
unfolding move_due_events
move_due_events-Moved f now_ms = move_due-Moved now_ms f.delayed_events f.bus
