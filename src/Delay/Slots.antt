-- ===== src/Delay/Slots.antt =====
-- `rtbus_post_delay`: the first free slot takes the event, and the others stay.
use rtbus.Base.{
  ℕ, ◌+◌, ◌≤◌, ◌<◌, ◌≡◌, ◌⊎◌, Bool, true, false, ◌&&◌, List, [], ◌∷◌, ◌++◌, ◌==◌, Option, none,
  some,
}
use rtbus.Base.Rc.{Rc, ok, err, enomem, einval, emsgsize}
use rtbus.Emos.{Request, is_null}
use rtbus.Delay.{DelayedEvent, Facade, fill, payload_max}

abbrev pub all_used : List DelayedEvent → Bool
all_used [] = true
all_used (event ∷ events) = event.used && all_used events

-- The outcome of a search for a slot.
pub data Claimed (events : List DelayedEvent) (r : Request) (due_ms : ℕ)
    : Option (List DelayedEvent) → Type 0 where
  full : all_used events ≡ true → Claimed events r due_ms none
  filled :
      (before : List DelayedEvent) (event : DelayedEvent) (after : List DelayedEvent)
      → events ≡ before ++ event ∷ after
      → all_used before ≡ true
      → event.used ≡ false
      → Claimed events r due_ms (some (before ++ fill event r due_ms ∷ after))

-- A payload is given if its length is not 0, and a slot has room for it.
pub record Fits (r : Request) : Type 0 where
  pub given : ((r.payload_len == 0) ≡ true) ⊎ (is_null r.payload ≡ false)
  pub room : r.payload_len ≤ payload_max

-- What `rtbus_post_delay` does with a delay that is not 0.
pub data Delayed (f : Facade) (r : Request) (due_ms : ℕ) : Rc × Facade → Type 0 where
  no_payload : (r.payload_len == 0) ≡ false → r.payload ≡ none → Delayed f r due_ms (err einval, f)
  too_long : payload_max < r.payload_len → Delayed f r due_ms (err emsgsize, f)
  no_slot : Fits r → all_used f.delayed_events ≡ true → Delayed f r due_ms (err enomem, f)
  waits :
      Fits r
      → (before : List DelayedEvent) (event : DelayedEvent) (after : List DelayedEvent)
      → f.delayed_events ≡ before ++ event ∷ after
      → all_used before ≡ true
      → event.used ≡ false
      → Delayed f r due_ms (
        ok,
        record {
          bus = record f.bus { signals = f.bus.signals + 1 };
          delayed_events = before ++ fill event r due_ms ∷ after;
        },
      )
