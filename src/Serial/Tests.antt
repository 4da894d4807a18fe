-- ===== src/Serial/Tests.antt =====
-- A control line at port 0, and a port that is started, receives and is read.
use rtbus.Base.{ℕ, ◌≡◌, refl, true, false, List, [], ◌∷◌, ◌++◌, arith, replicate, take, drop}
use rtbus.Base.Rc.{ok}
use rtbus.Serial.{Ring, at_start, drain}
use rtbus.Serial.Lines.{command_bytes, port0-line, put_all}
use rtbus.Serial.Ports.{
  UartConfig, Driver, Port, start_port, prepare_rx, after_callback, after_prepare, read_port,
}
use rtbus.Serial.Queue.{contents, newest}
use rtbus.Serial.Reached.{Reach, initial, after, Reach-IsPort, read_port-newest}
use rtbus.Serial.Steps.{IsPort, starts}

abbrev ring : Ring
ring = record { rx_head = 0; rx_tail = 0; rx_buffer = replicate 16 0 }

-- `@dfu` and a carriage return.
port0-line_example :
    drain 16 (record { router = at_start; ring = ring; cli = [] }) (64 ∷ 100 ∷ 102 ∷ 117 ∷ 13 ∷ [])
    ≡ record { router = at_start; ring = ring; cli = command_bytes (64 ∷ 100 ∷ 102 ∷ 117 ∷ []) }
port0-line_example =
    port0-line 16 [] 13 refl (64 ∷ 100 ∷ 102 ∷ 117 ∷ []) ring (refl, (refl, (refl, (refl, tt))))

-- A UART that answers, and its port from the start of the runtime on.
abbrev config : UartConfig
config = record { baudrate = 0; parity = 0; stop_bits = 1; data_bits = 3; flow_ctrl = 0 }

abbrev uart : Driver
uart = record {
  device_is_ready = true;
  config_get = (ok, config);
  configured = λ c. ok;
  callback_set = ok;
  line_ctrl_dtr = (ok, 1);
  plain_config = config;
}

abbrev at_boot : Port
at_boot = record {
  has_dev = true;
  ring = ring;
  is_cdc = false;
  rx_ready = false;
  prepared = false;
  calls = [];
}

abbrev started : Port
started = (start_port uart at_boot).1

started-Reach : Reach 16 started
started-Reach =
    after
      (initial true false ring
        (record { sized = refl; head_inside = omega arith; tail_inside = omega arith }))
      (starts uart)

Reach-IsPort_example : IsPort 16 started
Reach-IsPort_example = Reach-IsPort 16 started-Reach

abbrev came : List ℕ
came = 1 ∷ 2 ∷ 3 ∷ []

abbrev kept : List ℕ
kept = newest 15 (contents 16 started.ring ++ came)

read_port-newest_example :
    let read =
      read_port 16 uart (record started { ring = put_all 16 started.ring came }) true 2 [] in
    (read.0 ≡ take 2 kept) × (contents 16 read.1.ring ≡ drop 2 kept)
unfolding start_port prepare_rx after_callback after_prepare
read_port-newest_example = read_port-newest 16 uart started came 2 [] started-Reach refl
