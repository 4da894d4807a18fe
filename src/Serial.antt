-- ===== src/Serial.antt =====
-- zephyr/runtime/src/services/rtbus_serial.c: the receive ring of a port, and the router that takes
-- control lines out of what port 0 receives.
-- The control line is the list of its first `control_line_len` characters, and `cli` collects what
-- goes to `rtbus_cli_submit_byte`. The driver, its callbacks and the locks are not modelled.
pub mod Lines
pub mod Ports
pub mod Process
pub mod Queue
pub mod Reached
pub mod Reads
pub mod Steps
mod Tests
use rtbus.Base.{
  ℕ, ◌+◌, ◌-◌, ◌%◌, Bool, true, false, not, ◌&&◌, ◌||◌, List, [], ◌∷◌, ◌++◌, Option, none, some,
  ltb, ◌==◌, if◌then◌else◌, length, get_or, set,
}

-- RTBUS_CLI_LINE_MAX
abbrev pub cli_line_max : ℕ
cli_line_max = 256

pub record Ring : Type 0 where
  pub rx_head : ℕ
  pub rx_tail : ℕ
  pub rx_buffer : List ℕ

unfoldable pub rx_clear : Ring → Ring
rx_clear port = record port { rx_head = 0; rx_tail = 0 }

-- CONFIG_RTBUS_RUNTIME_SERIAL_RX_BUFFER_SIZE
module _ (rx_buffer_size : ℕ) where
  unfoldable pub rx_put : Ring → (byte : ℕ) → Ring
  rx_put port byte =
      let next_head = (port.rx_head + 1) % rx_buffer_size in
      record {
        rx_head = next_head;
        rx_tail =
            if next_head == port.rx_tail then (port.rx_tail + 1) % rx_buffer_size else port.rx_tail;
        rx_buffer = set port.rx_buffer port.rx_head byte;
      }

  unfoldable pub rx_get : Ring → Option ℕ × Ring
  rx_get port =
      if not (port.rx_tail == port.rx_head)
      then (
        some (get_or port.rx_buffer port.rx_tail 0),
        record port { rx_tail = (port.rx_tail + 1) % rx_buffer_size },
      )
      else (none, port)

pub record Router : Type 0 where
  pub control_line : List ℕ
  pub control_active : Bool
  pub control_overflow : Bool
  pub line_start : Bool

-- The router, the bytes for the command line, and whether the byte is for the port.
pub record Routed : Type 0 where
  pub router : Router
  pub cli : List ℕ
  pub to_port : Bool

-- The router as it is at first and after a control line.
abbrev pub at_start : Router
at_start = record {
  control_line = [];
  control_active = false;
  control_overflow = false;
  line_start = true;
}

abbrev pub is_newline : ℕ → Bool
is_newline byte = (byte == 13) || (byte == 10)

unfoldable pub submit_control_line : Router → Routed
submit_control_line r = record {
  router = at_start;
  cli = if not r.control_overflow then r.control_line ++ 10 ∷ [] else [];
  to_port = false;
}

unfoldable pub route_byte : Router → (byte : ℕ) → Routed
route_byte r byte =
    let kept : Router =
      if ltb (length r.control_line) (cli_line_max - 1)
      then record r { control_line = r.control_line ++ byte ∷ [] }
      else record r { control_overflow = true } in
    let begun : Router = record {
      control_line = byte ∷ [];
      control_active = true;
      control_overflow = false;
      line_start = false;
    } in
    if r.control_active
    then (if is_newline byte
        then submit_control_line r
        else record { router = kept; cli = []; to_port = false })
    else if r.line_start && (byte == 64)
    then record { router = begun; cli = []; to_port = false }
    else record { router = record r { line_start = is_newline byte }; cli = []; to_port = true }

-- Port 0: the router, its ring, and all the bytes that went to the command line.
pub record Port0 : Type 0 where
  pub router : Router
  pub ring : Ring
  pub cli : List ℕ

module _ (rx_buffer_size : ℕ) where
  unfoldable pub receive_byte : Port0 → (byte : ℕ) → Port0
  receive_byte p byte =
      let routed = route_byte p.router byte in
      record {
        router = routed.router;
        ring = if not routed.to_port then p.ring else rx_put rx_buffer_size p.ring byte;
        cli = p.cli ++ routed.cli;
      }

  -- The loop of `rtbus_runtime_serial_drain_fifo` over the bytes of the driver.
  unfoldable pub drain : Port0 → List ℕ → Port0
  drain p [] = p
  drain p (byte ∷ bytes) = drain (receive_byte p byte) bytes
