-- ===== src/Serial/Steps.antt =====
-- The operations on a serial port, and what each of them keeps.
use mathlib.Core.Path.{subst}
use rtbus.Base.{
  ℕ, zero, suc, ◌≡◌, ◌∙◌, refl, sym, ap, inl, inr, Bool, true, false, not, ◌&&◌, ◌||◌, List, [],
  ◌∷◌, ◌++◌, Option, none, some, map, arith, ◌==◌, if◌then◌else◌, length, Bool-cases,
}
use rtbus.Base.Rc.{Rc, ok, err, enodev, einval}
use rtbus.Serial.{Ring, rx_put, rx_get, rx_clear}
use rtbus.Serial.Queue.{IsValid, rx_put-IsValid, rx_get-IsValid, rx_clear-IsValid}
use rtbus.Serial.Ports.{
  Port, Driver, UartConfig, Call, set_callback, irq_rx_enable, irq_rx_disable, uart_configure,
  uart_poll_out, called, is_missing, after_callback, prepare_rx, configure, after_prepare,
  after_configure, begin_port, start_port, is_usable, tx_ready, write_port, read_from, read_port,
}
use rtbus.Serial.Reads.{read_from-none, read_from-empty, read_from-polled, read_from-some}

-- Whether the driver has its receive interrupt enabled after some calls.
abbrev pub enabled_from : Bool → List Call → Bool
enabled_from b [] = b
enabled_from b (irq_rx_enable ∷ cs) = enabled_from true cs
enabled_from b (irq_rx_disable ∷ cs) = enabled_from false cs
enabled_from b (set_callback _ ∷ cs) = enabled_from b cs
enabled_from b (uart_configure _ ∷ cs) = enabled_from b cs
enabled_from b (uart_poll_out _ ∷ cs) = enabled_from b cs

enabled_from-append :
    (b : Bool) (xs ys : List Call) → enabled_from b (xs ++ ys) ≡ enabled_from (enabled_from b xs) ys
enabled_from-append b [] ys = refl
enabled_from-append b (irq_rx_enable ∷ xs) ys = enabled_from-append true xs ys
enabled_from-append b (irq_rx_disable ∷ xs) ys = enabled_from-append false xs ys
enabled_from-append b (set_callback _ ∷ xs) ys = enabled_from-append b xs ys
enabled_from-append b (uart_configure _ ∷ xs) ys = enabled_from-append b xs ys
enabled_from-append b (uart_poll_out _ ∷ xs) ys = enabled_from-append b xs ys

enabled_poll_out : (b : Bool) (bytes : List ℕ) → enabled_from b (map uart_poll_out bytes) ≡ b
enabled_poll_out b [] = refl
enabled_poll_out b (byte ∷ bytes) = enabled_poll_out b bytes

-- The ring is valid; the receive interrupt is enabled exactly when the port says so, which it does
-- if the port is prepared, and then there is a device.
pub record IsPort (size : ℕ) (p : Port) : Type 0 where
  pub ring_valid : IsValid size p.ring
  pub enabled : enabled_from false p.calls ≡ p.rx_ready
  pub started : (not p.prepared || p.rx_ready) ≡ true
  pub present : (not p.rx_ready || p.has_dev) ≡ true

-- The operations on a port, with the byte that the driver gives to the ring.
pub data Step (size : ℕ) : Port → Port → Type 0 where
  begins : (d : Driver) (baud : ℕ) {p : Port} → Step size p (begin_port d p baud).1
  starts : (d : Driver) {p : Port} → Step size p (start_port d p).1
  flushes : {p : Port} → Step size p (record p { ring = rx_clear p.ring })
  writes : (d : Driver) (bytes : Option (List ℕ)) {p : Port} → Step size p (write_port d p bytes).1
  reads :
      (d : Driver) (has_buffer : Bool) (n : ℕ) (polled : List ℕ) {p : Port}
      → Step size p (read_port size d p has_buffer n polled).1
  receives : (byte : ℕ) {p : Port} → Step size p (record p { ring = rx_put size p.ring byte })

module _ (size : ℕ) where
  called-IsPort :
      (p : Port) (cs : List Call)
      → IsPort size p
      → enabled_from p.rx_ready cs ≡ p.rx_ready
      → IsPort size (called p cs)
  called-IsPort p cs v e = record {
    ring_valid = v.ring_valid;
    enabled =
        enabled_from-append false p.calls cs ∙ ap (λ (b : Bool). enabled_from b cs) v.enabled ∙ e;
    started = v.started;
    present = v.present;
  }

  ring-IsPort :
      (p : Port) (r : Ring) → IsPort size p → IsValid size r → IsPort size (record p { ring = r })
  ring-IsPort p r v w = record {
    ring_valid = w;
    enabled = v.enabled;
    started = v.started;
    present = v.present;
  }

  -- What `prepare_rx` and `configure` make: the port is as before, or ready if they say so.
  IsMade : Rc × Port → Type 0
  IsMade (err c, p) = IsPort size p
  IsMade (ok, p) = IsPort size p × (p.rx_ready ≡ true)

  after_callback-IsMade :
      (p : Port) (rc : Rc) → IsPort size p → p.has_dev ≡ true → IsMade (after_callback p rc)
  unfolding after_callback IsMade
  after_callback-IsMade p (err c) v h = v
  after_callback-IsMade p ok v h = (
    record {
      ring_valid = v.ring_valid;
      enabled = enabled_from-append false p.calls (irq_rx_enable ∷ []);
      started = ground arith;
      present = h;
    },
    refl,
  )

  prepare_rx-IsMade : (d : Driver) (p : Port) → IsPort size p → IsMade (prepare_rx d p)
  unfolding prepare_rx IsMade
  prepare_rx-IsMade d p v = elim (Bool-cases p.rx_ready) [
    | inl ready ↦ subst IsMade (sym (prepared_ready ready)) (v, ready)
    | inr idle ↦ elim (Bool-cases (is_missing d p)) [
      | inl missing ↦ subst IsMade (sym (prepared_missing idle missing)) v
      | inr there ↦ subst IsMade (sym (prepared_there idle there)) (
          after_callback-IsMade (called p (set_callback p.is_cdc ∷ [])) d.callback_set
            (called-IsPort p (set_callback p.is_cdc ∷ []) v refl) (ground arith))
    ]
  ]
    where
      prepared_ready : p.rx_ready ≡ true → prepare_rx d p ≡ (ok, p)
      prepared_ready ready = rw ready refl

      prepared_missing :
          p.rx_ready ≡ false → is_missing d p ≡ true → prepare_rx d p ≡ (err enodev, p)
      prepared_missing idle missing = rw (idle, missing) refl

      prepared_there :
          p.rx_ready ≡ false
          → is_missing d p ≡ false
          → prepare_rx d p ≡ after_callback (called p (set_callback p.is_cdc ∷ [])) d.callback_set
      prepared_there idle there = rw (idle, there) refl

  IsMade-IsPort : (o : Rc × Port) → IsMade o → IsPort size o.1
  unfolding IsMade
  IsMade-IsPort (err c, p) m = m
  IsMade-IsPort (ok, p) m = m.0

  after_prepare-IsPort : (o : Rc × Port) → IsMade o → IsPort size (after_prepare o).1
  unfolding after_prepare IsMade
  after_prepare-IsPort (err c, p) m = m
  after_prepare-IsPort (ok, p) m = record {
    ring_valid = m.0.ring_valid;
    enabled = m.0.enabled;
    started = m.1;
    present = m.0.present;
  }

  choose-IsPort :
      {A : Type 0} (b : Bool) (x y : A × Port)
      → IsPort size x.1
      → IsPort size y.1
      → IsPort size (if b then x else y).1
  choose-IsPort true x y v w = v
  choose-IsPort false x y v w = w

  after_configure-IsPort :
      (d : Driver) (o : Rc × Port) → IsPort size o.1 → IsPort size (after_configure d o).1
  unfolding after_configure
  after_configure-IsPort d (err c, p) v = v
  after_configure-IsPort d (ok, p) v =
      choose-IsPort p.prepared (ok, p) (after_prepare (prepare_rx d p)) v
        (after_prepare-IsPort (prepare_rx d p) (prepare_rx-IsMade d p v))

  configure_calls :
      (p : Port) (config : UartConfig)
      → enabled_from p.rx_ready (
          if not p.is_cdc && p.rx_ready
          then irq_rx_disable ∷ uart_configure config ∷ irq_rx_enable ∷ []
          else uart_configure config ∷ [])
        ≡ p.rx_ready
  configure_calls p config = elim (Bool-cases (not p.is_cdc && p.rx_ready)) [
    | inl y ↦ let ready : p.rx_ready ≡ true = ground arith in rw y (sym ready)
    | inr n ↦ rw n refl
  ]

  configure-IsPort :
      (d : Driver) (p : Port) (baud : ℕ) → IsPort size p → IsPort size (configure d p baud).1
  unfolding configure
  configure-IsPort d p baud v =
      choose-IsPort (baud == 0) (err einval, p) _ v
        (choose-IsPort (is_missing d p) (err enodev, p) _ v
          (called-IsPort p _ v (configure_calls p _)))

  start_port-IsPort : (d : Driver) (p : Port) → IsPort size p → IsPort size (start_port d p).1
  unfolding start_port
  start_port-IsPort d p v =
      choose-IsPort (not p.has_dev) (ok, p) (after_prepare (prepare_rx d p)) v
        (after_prepare-IsPort (prepare_rx d p) (prepare_rx-IsMade d p v))

  write_port-IsPort :
      (d : Driver) (p : Port) (bytes : Option (List ℕ))
      → IsPort size p
      → IsPort size (write_port d p bytes).1
  unfolding write_port
  write_port-IsPort d p none v = v
  write_port-IsPort d p (some bytes) v =
      choose-IsPort (is_usable d p true (length bytes) && tx_ready d p)
        (length bytes, called p (map uart_poll_out bytes)) (0, p)
        (called-IsPort p (map uart_poll_out bytes) v (enabled_poll_out p.rx_ready bytes)) v

  read_from-IsPort :
      (n : ℕ) (p : Port) (polled : List ℕ)
      → IsPort size p
      → IsPort size (read_from size n p polled).1
  unfolding read_from
  read_from-IsPort zero p polled v = v
  read_from-IsPort (suc n) p polled v = step (rx_get size p.ring).0 polled refl (read_from-IsPort n)
    where
      IsKept : List ℕ × Port → Type 0
      IsKept o = IsPort size o.1

      step :
          (o : Option ℕ) (polled : List ℕ)
          → (rx_get size p.ring).0 ≡ o
          → ((p : Port) (polled : List ℕ)
              → IsPort size p
              → IsPort size (read_from size n p polled).1)
          → IsPort size (read_from size (suc n) p polled).1
      step (some byte) polled e ih = subst IsKept (sym (read_from-some size n p polled byte e)) (
          ih (record p { ring = (rx_get size p.ring).1 }) polled
            (ring-IsPort p (rx_get size p.ring).1 v (rx_get-IsValid v.ring_valid)))
      step none [] e ih = subst IsKept (sym (read_from-empty size n p e)) v
      step none (byte ∷ polled) e ih = elim (Bool-cases (p.is_cdc || p.rx_ready)) [
        | inl irq ↦ subst IsKept (sym (read_from-none size n p (byte ∷ polled) e irq)) v
        | inr poll ↦
            subst IsKept (sym (read_from-polled size n p byte polled e poll)) (ih p polled v)
      ]

  read_port-IsPort :
      (d : Driver) (p : Port) (has_buffer : Bool) (n : ℕ) (polled : List ℕ)
      → IsPort size p
      → IsPort size (read_port size d p has_buffer n polled).1
  unfolding read_port
  read_port-IsPort d p has_buffer n polled v =
      choose-IsPort (is_usable d p has_buffer n) (read_from size n p polled) ([], p)
        (read_from-IsPort n p polled v) v

  -- What every operation keeps.
  pub Step-IsPort : {p p' : Port} → Step size p p' → IsPort size p → IsPort size p'
  unfolding begin_port
  Step-IsPort (begins d baud {p}) v =
      after_configure-IsPort d (configure d p baud) (configure-IsPort d p baud v)
  Step-IsPort (starts d {p}) v = start_port-IsPort d p v
  Step-IsPort (flushes {p}) v = ring-IsPort p (rx_clear p.ring) v (rx_clear-IsValid v.ring_valid)
  Step-IsPort (writes d bytes {p}) v = write_port-IsPort d p bytes v
  Step-IsPort (reads d has_buffer n polled {p}) v = read_port-IsPort d p has_buffer n polled v
  Step-IsPort (receives byte {p}) v =
      ring-IsPort p (rx_put size p.ring byte) v (rx_put-IsValid v.ring_valid byte)
