-- ===== src/Delay/Timeout.antt =====
-- `rtbus_next_timeout_ms`: the time until the next delayed event.
use rtbus.Base.{
  ℕ, ◌≤◌, ◌≡◌, refl, inl, inr, ◌⊎◌, true, false, List, [], ◌∷◌, arith, ltb, if◌then◌else◌, Option,
  none, some, Bool-cases, ap, length,
}
use rtbus.Delay.{DelayedEvent, Facade, next_timeout, rtbus_next_timeout_ms, timeout_until}

-- The least number, if there is one.
pub least : Option ℕ → List ℕ → Option ℕ
least next [] = next
least none (t ∷ ts) = least (some t) ts
least (some n) (t ∷ ts) = if ltb t n then least (some t) ts else least (some n) ts

-- The timeouts of the events in use.
pub timeouts : (now_ms : ℕ) → List DelayedEvent → List ℕ
timeouts now_ms [] = []
timeouts now_ms (event ∷ events) =
    let rest = timeouts now_ms events in
    if event.used then timeout_until now_ms event.due_ms ∷ rest else rest

next_timeout-least :
    (now_ms : ℕ) (events : List DelayedEvent) (next : Option ℕ)
    → next_timeout now_ms next events ≡ least next (timeouts now_ms events)
unfolding next_timeout least timeouts
next_timeout-least now_ms [] next = refl
next_timeout-least now_ms (event ∷ events) none = elim (Bool-cases event.used) [
  | inl y ↦ rw y (next_timeout-least now_ms events (some (timeout_until now_ms event.due_ms)))
  | inr z ↦ rw z (next_timeout-least now_ms events none)
]
next_timeout-least now_ms (event ∷ events) (some n) = elim (Bool-cases event.used) [
  | inl y ↦ elim (Bool-cases (ltb (timeout_until now_ms event.due_ms) n)) [
    | inl s ↦
        rw (y, s) (next_timeout-least now_ms events (some (timeout_until now_ms event.due_ms)))
    | inr s ↦ rw (y, s) (next_timeout-least now_ms events (some n))
  ]
  | inr z ↦ rw z (next_timeout-least now_ms events (some n))
]

-- A number stands in a list.
abbrev pub Member : ℕ → List ℕ → Type 0
Member n [] = ⊥
Member n (t ∷ ts) = (n ≡ t) ⊎ Member n ts

-- The least number of a list, or nothing for an empty one.
pub data IsLeast (ts : List ℕ) : Option ℕ → Type 0 where
  empty : ts ≡ [] → IsLeast ts none
  least_at : (n : ℕ) → Member n ts → ((t : ℕ) → Member t ts → n ≤ t) → IsLeast ts (some n)

cons-nil : {x : ℕ} {xs : List ℕ} → x ∷ xs ≡ [] → ⊥
cons-nil e = ground (arith, ap length e)

least-IsLeast : (n : ℕ) (ts : List ℕ) → IsLeast (n ∷ ts) (least (some n) ts)
unfolding least
least-IsLeast n [] = least_at n (inl refl) λ t m. only t m
  where
    only : (t : ℕ) → Member t (n ∷ []) → n ≤ t
    only t (inl e) = omega (arith, e)
    only t (inr e) = absurd e
least-IsLeast n (x ∷ ts) = elim (Bool-cases (ltb x n)) [
  | inl s ↦ rw s (widen_left s (least-IsLeast x ts))
  | inr s ↦ rw s (widen_right s (least-IsLeast n ts))
]
  where
    widen_left : ltb x n ≡ true → {o : Option ℕ} → IsLeast (x ∷ ts) o → IsLeast (n ∷ x ∷ ts) o
    widen_left s (empty e) = absurd (cons-nil e)
    widen_left s (least_at m at low) = least_at m (inr at) λ t k. bound t k
      where
        bound : (t : ℕ) → Member t (n ∷ x ∷ ts) → m ≤ t
        bound t (inl e) = ground (arith, low x (inl refl), e)
        bound t (inr k) = low t k

    widen_right : ltb x n ≡ false → {o : Option ℕ} → IsLeast (n ∷ ts) o → IsLeast (n ∷ x ∷ ts) o
    widen_right s (empty e) = absurd (cons-nil e)
    widen_right s (least_at m at low) = least_at m (later at) λ t k. bound t k
      where
        later : Member m (n ∷ ts) → Member m (n ∷ x ∷ ts)
        later (inl e) = inl e
        later (inr k) = inr (inr k)

        bound : (t : ℕ) → Member t (n ∷ x ∷ ts) → m ≤ t
        bound t (inl e) = low t (inl e)
        bound t (inr (inl e)) = ground (arith, low n (inl refl), e)
        bound t (inr (inr k)) = low t (inr k)

-- `rtbus_next_timeout_ms` is the least timeout of an event in use, and -1 when there is none.
pub next_timeout-IsLeast :
    (f : Facade) (now_ms : ℕ)
    → IsLeast (timeouts now_ms f.delayed_events) (rtbus_next_timeout_ms f now_ms)
unfolding rtbus_next_timeout_ms least
next_timeout-IsLeast f now_ms =
    rw (next_timeout-least now_ms f.delayed_events none)
      (from_none (timeouts now_ms f.delayed_events))
  where
    from_none : (ts : List ℕ) → IsLeast ts (least none ts)
    from_none [] = empty refl
    from_none (t ∷ ts) = least-IsLeast t ts
