-- ===== src/Native/Pins.antt =====
-- api.c: the pins and the serial ports as the native application uses them.
-- The table of pins is the board's. The GPIO driver is a parameter, and so is the text that
-- `vsnprintk` makes of a format and its arguments.
use mathlib.Core.Option.{some-injective}
use rtbus.Base.{
  ℕ, zero, suc, ap, sym, ◌∙◌, ◌≡◌, refl, inl, inr, Bool, true, false, not, ◌||◌, List, [], ◌∷◌,
  Option, none, some, map, ◌==◌, if◌then◌else◌, length, take, set, arith, Bool-cases,
}
use rtbus.Base.Rc.{Rc, ok, err, enodev, einval}
use rtbus.Native.{Service}
use rtbus.Serial.Ports.{
  Port, Driver, serial_port, called, tx_ready, uart_poll_out, read_port, write_port, write,
}

-- `struct native_board_gpio_pin`; `gpio` is the number of the pin's specification.
pub record GpioPin : Type 0 where
  pub app_pin : ℕ
  pub gpio : ℕ

-- GPIO_INPUT, GPIO_OUTPUT and the two with a pull.
pub data GpioFlags : Type 0 where
  input : GpioFlags
  output : GpioFlags
  input_pull_up : GpioFlags
  input_pull_down : GpioFlags

-- `gpio_is_ready_dt`, `gpio_pin_configure_dt`, `gpio_pin_set_dt` and `gpio_pin_get_dt`, which gives a
-- level when it does not fail.
pub record Gpio : Type 0 where
  pub is_ready : (gpio : ℕ) → Bool
  pub pin_configure : (gpio : ℕ) → GpioFlags → Rc
  pub pin_set : (gpio : ℕ) → (value : Bool) → Rc
  pub pin_get : (gpio : ℕ) → Rc × ℕ

-- `native_gpio_resolve`: the specification of a pin of the application.
unfoldable pub gpio_resolve : Gpio → List GpioPin → (pin : ℕ) → Rc × ℕ
gpio_resolve g [] pin = (err einval, 0)
gpio_resolve g (p ∷ pins) pin =
    let rest = gpio_resolve g pins pin in
    if p.app_pin == pin
    then (if not (g.is_ready p.gpio) then (err enodev, p.gpio) else (ok, p.gpio))
    else rest

-- RUNTIME_GPIO_MODE_INPUT and the other modes.
abbrev pub flags_of : (mode : ℕ) → Option GpioFlags
flags_of mode =
    if mode == 0
    then some input
    else if mode == 1
    then some output
    else if mode == 2
    then some input_pull_up
    else if mode == 3
    then some input_pull_down
    else none

unfoldable pub gpio_configure : Gpio → List GpioPin → (pin mode : ℕ) → Rc
gpio_configure g pins pin mode =
    let (rc, entry) = gpio_resolve g pins pin in
    elim rc [
      | err c ↦ err c
      | ok ↦ elim (flags_of mode) [ none ↦ err einval | some flags ↦ g.pin_configure entry flags ]
    ]

unfoldable pub gpio_write : Gpio → List GpioPin → (pin value : ℕ) → Rc
gpio_write g pins pin value =
    let (rc, entry) = gpio_resolve g pins pin in
    elim rc [ err c ↦ err c | ok ↦ g.pin_set entry (not (value == 0)) ]

unfoldable pub gpio_read : Gpio → List GpioPin → (pin : ℕ) → Rc × ℕ
gpio_read g pins pin =
    let (rc, entry) = gpio_resolve g pins pin in
    elim rc [ err c ↦ (err c, 0) | ok ↦ g.pin_get entry ]

-- `native_api_serial_write` on a port that there is; it does not ask whether the port is prepared.
unfoldable pub serial_write_port : Driver → Port → List ℕ → ℕ × Port
serial_write_port d p bytes =
    if not p.has_dev
    then (0, p)
    else if not d.device_is_ready
    then (0, p)
    else if not (tx_ready d p)
    then (0, p)
    else (length bytes, called p (map uart_poll_out bytes))

-- `native_api_serial_write`. A buffer of `none` is NULL.
unfoldable pub serial_write :
    (ℕ → Driver) → Service → List Port → (port : ℕ) → Option (List ℕ) → ℕ × List Port
serial_write d s ports port none = (0, ports)
serial_write d s ports port (some bytes) =
    if (length bytes == 0) || s.console_suppressed
    then (0, ports)
    else elim (serial_port ports port) [
      | none ↦ (0, ports)
      | some p ↦
          let (written, p') = serial_write_port (d port) p bytes in (written, set ports port p')
    ]

-- `native_api_serial_vprintf`. The text is none if the format is NULL; the buffer has room for 159
-- characters.
unfoldable pub serial_vprintf :
    (ℕ → Driver) → Service → List Port → (port : ℕ) → Option (List ℕ) → ℕ × List Port
serial_vprintf d s ports port none = (0, ports)
serial_vprintf d s ports port (some text) =
    if s.console_suppressed || (length text == 0)
    then (0, ports)
    else serial_write d s ports port (some (take 159 text))

-- `native_api_serial_read` on a port that there is: a byte, or `none` for -1.
unfoldable pub serial_read_port :
    (rx_buffer_size : ℕ) → Driver → Service → Port → (polled : List ℕ) → Option ℕ × Port
serial_read_port rx_buffer_size d s p polled =
    let (bytes, p') = read_port rx_buffer_size d p true 1 polled in
    if s.console_suppressed
    then (none, p)
    else elim bytes [ [] ↦ (none, p') | byte ∷ rest ↦ (some byte, p') ]

set_same :
    (ports : List Port) (i : ℕ) (p : Port) → serial_port ports i ≡ some p → set ports i p ≡ ports
set_same [] i p h = refl
set_same (x ∷ ports) zero p h = ap (λ z. z ∷ ports) (sym (some-injective x p h))
set_same (x ∷ ports) (suc i) p h = ap (λ z. x ∷ z) (set_same ports i p h)

write_port-same :
    (d : Driver) (p : Port) (bytes : List ℕ)
    → p.prepared ≡ true
    → (length bytes == 0) ≡ false
    → serial_write_port d p bytes ≡ write_port d p (some bytes)
unfolding serial_write_port write_port
write_port-same d p bytes prepared some_bytes = ground (arith, prepared, some_bytes)

write_port-nothing : (d : Driver) (p : Port) → write_port d p (some []) ≡ (0, p)
unfolding write_port
write_port-nothing d p = ground arith

write_there :
    (d : ℕ → Driver) (ports : List Port) (port : ℕ) (p : Port) (bytes : Option (List ℕ))
    → serial_port ports port ≡ some p
    → write d ports port bytes
      ≡ ((write_port (d port) p bytes).0, set ports port (write_port (d port) p bytes).1)
unfolding write
write_there d ports port p bytes there = rw (write, there) refl

-- An application that is not suppressed writes to a prepared port what the runtime would: the same
-- number of bytes, and the same calls of the driver.
pub serial_write-write :
    (d : ℕ → Driver) (s : Service) (ports : List Port) (port : ℕ) (p : Port) (bytes : List ℕ)
    → s.console_suppressed ≡ false
    → serial_port ports port ≡ some p
    → p.prepared ≡ true
    → serial_write d s ports port (some bytes) ≡ write d ports port (some bytes)
unfolding serial_write write
serial_write-write d s ports port p bytes heard there prepared =
    elim (Bool-cases (length bytes == 0)) [
      | inl empty ↦
          simp empty refl
          ∙ sym (write_there d ports port p (some bytes) there ∙ nothing bytes empty)
      | inr more ↦
          simp (more, heard, there, write_port-same (d port) p bytes prepared more) refl
          ∙ sym (write_there d ports port p (some bytes) there)
    ]
  where
    nothing :
        (bytes : List ℕ)
        → (length bytes == 0) ≡ true
        → ◌≡◌ {A = ℕ × List Port}
            (
              (write_port (d port) p (some bytes)).0,
              set ports port (write_port (d port) p (some bytes)).1,
            )
            (0, ports)
    nothing [] empty = rw (write_port-nothing (d port) p, set_same ports port p there) refl
    nothing (byte ∷ bytes) empty = absurd (ground (arith, empty))
