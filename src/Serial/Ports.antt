-- ===== src/Serial/Ports.antt =====
-- The serial ports as the runtime uses them: how a port is configured and begun, and what reading
-- and writing do.
-- What the driver of a port answers during a call is a parameter, `Driver`. What the calls do to
-- the driver is the list `calls` of the port, in order.
use rtbus.Base.{
  ℕ, zero, suc, ◌+◌, Bool, true, false, not, ◌&&◌, ◌||◌, List, [], ◌∷◌, ◌++◌, Option, none, some,
  map, ◌==◌, if◌then◌else◌, length, get_elem?, set,
}
use rtbus.Base.Rc.{Rc, ok, err, enodev, einval, enosys, enotsup}
use rtbus.Serial.{Ring, rx_get, rx_clear}

-- `struct uart_config`; parity, stop bits, data bits and flow control are those of the enumerations.
pub record UartConfig : Type 0 where
  pub baudrate : ℕ
  pub parity : ℕ
  pub stop_bits : ℕ
  pub data_bits : ℕ
  pub flow_ctrl : ℕ

-- What `device_is_ready`, `uart_config_get`, `uart_configure`, `uart_irq_callback_user_data_set` and
-- `uart_line_ctrl_get` answer, and UART_CFG_PARITY_NONE with 1 stop bit, 8 data bits and no flow
-- control, at baudrate 0.
pub record Driver : Type 0 where
  pub device_is_ready : Bool
  pub config_get : Rc × UartConfig
  pub configured : UartConfig → Rc
  pub callback_set : Rc
  pub line_ctrl_dtr : Rc × ℕ
  pub plain_config : UartConfig

pub data Call : Type 0 where
  set_callback : (cdc : Bool) → Call
  irq_rx_enable : Call
  irq_rx_disable : Call
  uart_configure : UartConfig → Call
  uart_poll_out : (byte : ℕ) → Call

-- `struct rtbus_runtime_serial_port`; `has_dev` tells that `dev` is not NULL.
pub record Port : Type 0 where
  pub has_dev : Bool
  pub ring : Ring
  pub is_cdc : Bool
  pub rx_ready : Bool
  pub prepared : Bool
  pub calls : List Call

abbrev pub called : Port → List Call → Port
called p cs = record p { calls = p.calls ++ cs }

-- `p.dev == NULL || !device_is_ready(p.dev)`
abbrev pub is_missing : Driver → Port → Bool
is_missing d p = not p.has_dev || not d.device_is_ready

-- The callback is set: what `prepare_rx` makes of its answer.
unfoldable pub after_callback : Port → Rc → Rc × Port
after_callback p (err c) = (err c, p)
after_callback p ok = (ok, record p { calls = p.calls ++ irq_rx_enable ∷ []; rx_ready = true })

unfoldable pub prepare_rx : Driver → Port → Rc × Port
prepare_rx d p =
    if p.rx_ready
    then (ok, p)
    else if is_missing d p
    then (err enodev, p)
    else after_callback (called p (set_callback p.is_cdc ∷ [])) d.callback_set

-- The configuration that `configure` asks for.
unfoldable pub wanted_config : Driver → Rc → UartConfig → (baud : ℕ) → UartConfig
wanted_config d ok config baud = record config { baudrate = baud }
wanted_config d (err _) config baud = record (d.plain_config) { baudrate = baud }

abbrev pub is_unsupported : Rc → Bool
is_unsupported (err enosys) = true
is_unsupported (err enotsup) = true
is_unsupported _ = false

unfoldable pub configure : Driver → Port → (baud : ℕ) → Rc × Port
configure d p baud =
    let config = wanted_config d d.config_get.0 d.config_get.1 baud in
    let rx_was_enabled = not p.is_cdc && p.rx_ready in
    let rc = d.configured config in
    if baud == 0 then (err einval, p) else if is_missing d p then (err enodev, p) else (
      if is_unsupported rc && p.is_cdc then ok else rc,
      called p (
          if rx_was_enabled
          then irq_rx_disable ∷ uart_configure config ∷ irq_rx_enable ∷ []
          else uart_configure config ∷ []),
    )

-- The end of `begin` and of `start_port`, on what `prepare_rx` gave.
unfoldable pub after_prepare : Rc × Port → Rc × Port
after_prepare (err c, p) = (err c, p)
after_prepare (ok, p) = (ok, record p { prepared = true })

unfoldable pub after_configure : Driver → Rc × Port → Rc × Port
after_configure d (err c, p) = (err c, p)
after_configure d (ok, p) = if p.prepared then (ok, p) else after_prepare (prepare_rx d p)

-- `rtbus_runtime_serial_begin` on a port that exists.
unfoldable pub begin_port : Driver → Port → (baud : ℕ) → Rc × Port
begin_port d p baud = after_configure d (configure d p baud)

unfoldable pub start_port : Driver → Port → Rc × Port
start_port d p = if not p.has_dev then (ok, p) else after_prepare (prepare_rx d p)

unfoldable pub tx_ready : Driver → Port → Bool
tx_ready d p = not p.is_cdc || (is_ok d.line_ctrl_dtr.0 && not (d.line_ctrl_dtr.1 == 0))
  where
    is_ok : Rc → Bool
    is_ok ok = true
    is_ok (err _) = false

-- Whether `write` and `read` may use the port; a buffer of `false` is NULL.
abbrev pub is_usable : Driver → Port → (has_buffer : Bool) → (size : ℕ) → Bool
is_usable d p has_buffer size =
    p.has_dev && p.prepared && has_buffer && not (size == 0) && d.device_is_ready

-- `write` gives how many bytes it wrote. A buffer of `none` is NULL, and `size` is its length.
unfoldable pub write_port : Driver → Port → Option (List ℕ) → ℕ × Port
write_port d p none = (0, p)
write_port d p (some bytes) =
    if is_usable d p true (length bytes) && tx_ready d p
    then (length bytes, called p (map uart_poll_out bytes))
    else (0, p)

module _ (rx_buffer_size : ℕ) where
  -- The loop of `read` with `size` bytes to go, on a port without `rx_ready` too: `polled` holds the
  -- bytes that `uart_poll_in` would give. It gives the bytes it stored.
  unfoldable pub read_from : ℕ → Port → (polled : List ℕ) → List ℕ × Port
  read_from zero p polled = ([], p)
  read_from (suc size) p polled = elim (rx_get rx_buffer_size p.ring).0 [
    | some byte ↦
        let rest = read_from size (record p { ring = (rx_get rx_buffer_size p.ring).1 }) polled in
        (byte ∷ rest.0, rest.1)
    | none ↦ if p.is_cdc || p.rx_ready then ([], p) else elim polled [
      | [] ↦ ([], p)
      | byte ∷ polled ↦ let rest = read_from size p polled in (byte ∷ rest.0, rest.1)
    ]
  ]

  unfoldable pub read_port :
      Driver → Port → (has_buffer : Bool) → (size : ℕ) → (polled : List ℕ) → List ℕ × Port
  read_port d p has_buffer size polled =
      let read = read_from size p polled in if is_usable d p has_buffer size then read else ([], p)

-- `rtbus_runtime_serial_ports`, and the operations that take the number of a port. `d i` answers for
-- the driver of port `i`.
abbrev pub serial_port : List Port → (port : ℕ) → Option Port
serial_port ports port = get_elem? ports port

abbrev pub stored : List Port → (port : ℕ) → Rc × Port → Rc × List Port
stored ports port (rc, p) = (rc, set ports port p)

unfoldable pub begin : (ℕ → Driver) → List Port → (port baud : ℕ) → Rc × List Port
begin d ports port baud = elim (serial_port ports port) [
  | none ↦ (err einval, ports)
  | some p ↦ stored ports port (begin_port (d port) p baud)
]

unfoldable pub flush_rx : List Port → (port : ℕ) → Rc × List Port
flush_rx ports port = elim (serial_port ports port) [
  | none ↦ (err einval, ports)
  | some p ↦ (ok, set ports port (record p { ring = rx_clear p.ring }))
]

unfoldable pub write : (ℕ → Driver) → List Port → (port : ℕ) → Option (List ℕ) → ℕ × List Port
write d ports port bytes = elim (serial_port ports port) [
  | none ↦ (0, ports)
  | some p ↦ let (written, p') = write_port (d port) p bytes in (written, set ports port p')
]

-- The loop of `start`: a port that fails is logged and skipped.
unfoldable pub start_from : (ℕ → Driver) → (port : ℕ) → List Port → List Port
start_from d port [] = []
start_from d port (p ∷ ports) = (start_port (d port) p).1 ∷ start_from d (port + 1) ports

unfoldable pub start : (ℕ → Driver) → List Port → List Port
start d ports = start_from d 0 ports
