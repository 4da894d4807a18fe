-- ===== src/Serial/Reached.antt =====
-- A serial port from the start of the runtime on, and what is read from it.
use rtbus.Base.{
  ℕ, ◌-◌, ◌≡◌, ◌∙◌, refl, ap, Bool, true, false, ◌||◌, List, [], ◌++◌, arith, take, drop,
}
use rtbus.Serial.{Ring}
use rtbus.Serial.Lines.{put_all}
use rtbus.Serial.Queue.{IsValid, contents, newest}
use rtbus.Serial.Ports.{Port, Driver, is_usable, read_port}
use rtbus.Serial.Reads.{put_all-IsValid, put_all-contents, read_from-contents}
use rtbus.Serial.Steps.{IsPort, Step, Step-IsPort}

-- A port that some operations lead to from the start of the program, when nothing is in its ring and
-- no call of the driver was made.
pub data Reach (size : ℕ) : Port → Type 0 where
  initial :
      (has_dev is_cdc : Bool) (r : Ring)
      → IsValid size r
      → Reach size (record {
        has_dev = has_dev;
        ring = r;
        is_cdc = is_cdc;
        rx_ready = false;
        prepared = false;
        calls = [];
      })
  after : {p p' : Port} → Reach size p → Step size p p' → Reach size p'

module _ (size : ℕ) where
  -- Whatever is done with a port, its ring stays valid, the driver has its receive interrupt enabled
  -- exactly when the port says that it is ready to receive, a prepared port is ready to receive, and
  -- a port that is ready has a device.
  pub Reach-IsPort : {p : Port} → Reach size p → IsPort size p
  Reach-IsPort (initial has_dev is_cdc r v) = record {
    ring_valid = v;
    enabled = refl;
    started = refl;
    present = refl;
  }
  Reach-IsPort (after k s) = Step-IsPort size s (Reach-IsPort k)

  -- A read of a port that can be read gives the oldest of what the ring held and of the bytes that
  -- came since, as far as the ring kept the newest of them, in order; the rest stays in the ring.
  pub read_port-newest :
      (d : Driver) (p : Port) (bytes : List ℕ) (n : ℕ) (polled : List ℕ)
      → Reach size p
      → is_usable d p true n ≡ true
      → let kept = newest (size - 1) (contents size p.ring ++ bytes) in
        let read = read_port size d (record p { ring = put_all size p.ring bytes }) true n polled in
        (read.0 ≡ take n kept) × (contents size read.1.ring ≡ drop n kept)
  unfolding read_port
  read_port-newest d p bytes n polled k usable =
      let v = Reach-IsPort k in
      let ready : (p.is_cdc || p.rx_ready) ≡ true = ground (arith, v.started) in
      let kept = put_all-contents bytes p.ring v.ring_valid in
      let got =
        read_from-contents size n (record p { ring = put_all size p.ring bytes }) polled
          (put_all-IsValid bytes p.ring v.ring_valid) ready in
      rw usable (got.0 ∙ ap (take n) kept, got.1 ∙ ap (drop n) kept)
