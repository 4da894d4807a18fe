-- ===== src/Serial/Lines.antt =====
-- What port 0 does with a whole line that begins where a line begins.
use mathlib.Core.List.{append-nil, append_assoc}
use rtbus.Base.{
  ℕ, ◌-◌, ◌≤◌, ◌≡◌, refl, sym, ap, inl, inr, Bool, true, false, List, [], ◌∷◌, ◌++◌, arith, ltb,
  ◌==◌, if◌then◌else◌, length, Bool-cases, All, ◌∙◌, length-append,
}
use rtbus.Serial.{
  Ring, Router, Port0, at_start, is_newline, cli_line_max, rx_put, route_byte, receive_byte, drain,
  submit_control_line,
}

abbrev pub is_command : List ℕ → Bool
is_command [] = false
is_command (byte ∷ bytes) = byte == 64

-- A control line as the command line gets it: nothing if it is too long, else with a newline.
abbrev pub command_bytes : List ℕ → List ℕ
command_bytes line = if ltb (cli_line_max - 1) (length line) then [] else line ++ 10 ∷ []

abbrev pub IsLine : List ℕ → Type 0
IsLine = All (λ byte. is_newline byte ≡ false)

abbrev within : List ℕ → Bool → Router
within line overflow = record {
  control_line = line;
  control_active = true;
  control_overflow = overflow;
  line_start = false;
}

-- The ring after some bytes.
unfoldable pub put_all : (rx_buffer_size : ℕ) → Ring → List ℕ → Ring
put_all rx_buffer_size r [] = r
put_all rx_buffer_size r (byte ∷ bytes) =
    put_all rx_buffer_size (rx_put rx_buffer_size r byte) bytes

module _ (rx_buffer_size : ℕ) (ring : Ring) where
  abbrev reading : List ℕ → Bool → List ℕ → Port0
  reading line overflow cli = record { router = within line overflow; ring = ring; cli = cli }

  abbrev finished : List ℕ → Port0
  finished cli = record { router = at_start; ring = ring; cli = cli }

  receive_byte-room :
      (byte : ℕ) (line : List ℕ) (overflow : Bool) (cli : List ℕ)
      → is_newline byte ≡ false
      → ltb (length line) 255 ≡ true
      → receive_byte rx_buffer_size (reading line overflow cli) byte
        ≡ reading (line ++ byte ∷ []) overflow cli
  unfolding receive_byte route_byte
  receive_byte-room byte line overflow cli l room = rw (l, room, append-nil cli)

  receive_byte-full :
      (byte : ℕ) (line : List ℕ) (overflow : Bool) (cli : List ℕ)
      → is_newline byte ≡ false
      → ltb (length line) 255 ≡ false
      → receive_byte rx_buffer_size (reading line overflow cli) byte ≡ reading line true cli
  unfolding receive_byte route_byte
  receive_byte-full byte line overflow cli l full = rw (l, full, append-nil cli)

  too_long :
      (line bytes : List ℕ)
      → 255 ≤ length line
      → (byte : ℕ) → command_bytes (line ++ byte ∷ bytes) ≡ []
  too_long line bytes h byte =
      let long : ltb 255 (length (line ++ byte ∷ bytes)) ≡ true =
        ground (arith, length-append line (byte ∷ bytes)) in
      rw long

  drain-within :
      (bytes : List ℕ) (line : List ℕ) (overflow : Bool) (cli : List ℕ) (newline : ℕ)
      → IsLine bytes
      → is_newline newline ≡ true
      → length line ≤ 255
      → drain rx_buffer_size (reading line overflow cli) (bytes ++ newline ∷ [])
        ≡ finished (cli ++ (if overflow then [] else command_bytes (line ++ bytes)))
  unfolding drain receive_byte route_byte submit_control_line
  drain-within [] line true cli newline l e small = rw e
  drain-within [] line false cli newline l e small =
      let fits : ltb 255 (length line) ≡ false = ground arith in rw (e, append-nil line, fits)
  drain-within (byte ∷ bytes) line overflow cli newline l e small =
      elim (Bool-cases (ltb (length line) 255)) [
        | inl room ↦
            ap (λ z. drain rx_buffer_size z (bytes ++ newline ∷ []))
              (receive_byte-room byte line overflow cli l.0 room)
            ∙ drain-within bytes (line ++ byte ∷ []) overflow cli newline l.1 e
                (ground (arith, length-append line (byte ∷ [])))
            ∙ ap (λ (z : List ℕ). finished (cli ++ (if overflow then [] else command_bytes z)))
                (append_assoc line (byte ∷ []) bytes)
        | inr full ↦
            ap (λ z. drain rx_buffer_size z (bytes ++ newline ∷ []))
              (receive_byte-full byte line overflow cli l.0 full)
            ∙ drain-within bytes line true cli newline l.1 e small
            ∙ ap (λ (z : List ℕ). finished (cli ++ z))
                (nothing overflow (too_long line bytes (ground arith) byte))
      ]
    where
      nothing : (o : Bool) {z : List ℕ} → z ≡ [] → [] ≡ (if o then [] else z)
      nothing true k = refl
      nothing false k = sym k

abbrev in_line : Router
in_line = record {
  control_line = [];
  control_active = false;
  control_overflow = false;
  line_start = false;
}

module _ (rx_buffer_size : ℕ) (cli : List ℕ) (newline : ℕ) (e : is_newline newline ≡ true) where
  drain-plain :
      (bytes : List ℕ) (ring : Ring)
      → IsLine bytes
      → drain rx_buffer_size
          (record { router = in_line; ring = ring; cli = cli })
          (bytes ++ newline ∷ [])
        ≡ record {
          router = at_start;
          ring = put_all rx_buffer_size ring (bytes ++ newline ∷ []);
          cli = cli;
        }
  unfolding drain receive_byte route_byte put_all
  drain-plain [] ring l = rw (e, append-nil cli)
  drain-plain (byte ∷ bytes) ring l =
      ap (λ z. drain rx_buffer_size z (bytes ++ newline ∷ [])) step
      ∙ drain-plain bytes (rx_put rx_buffer_size ring byte) l.1
    where
      step :
          receive_byte rx_buffer_size (record { router = in_line; ring = ring; cli = cli }) byte
          ≡ record { router = in_line; ring = rx_put rx_buffer_size ring byte; cli = cli }
      step = rw (l.0, append-nil cli)

  -- A whole line that port 0 receives where a line begins: a line that begins with `@` goes to the
  -- command line, with a newline and all at once, or to nobody if it has more than 255 bytes; any
  -- other line goes to the ring of the port, with its end. Then a line begins again.
  pub port0-line :
      (bytes : List ℕ) (ring : Ring)
      → IsLine bytes
      → drain rx_buffer_size
          (record { router = at_start; ring = ring; cli = cli })
          (bytes ++ newline ∷ [])
        ≡ (if is_command bytes
            then record { router = at_start; ring = ring; cli = cli ++ command_bytes bytes }
            else record {
              router = at_start;
              ring = put_all rx_buffer_size ring (bytes ++ newline ∷ []);
              cli = cli;
            })
  unfolding drain receive_byte route_byte put_all
  port0-line [] ring l =
      let other : (newline == 64) ≡ false = ground arith in rw (other, e, append-nil cli)
  port0-line (byte ∷ bytes) ring l = elim (Bool-cases (byte == 64)) [
    | inl y ↦
        ap (λ z. drain rx_buffer_size z (bytes ++ newline ∷ [])) (begin y)
        ∙ drain-within rx_buffer_size ring bytes (byte ∷ []) false cli newline l.1 e (omega arith)
        ∙ chosen
            (record { router = at_start; ring = ring; cli = cli ++ command_bytes (byte ∷ bytes) })
            plain_end y
    | inr n ↦
        ap (λ z. drain rx_buffer_size z (bytes ++ newline ∷ [])) (plain n)
        ∙ drain-plain bytes (rx_put rx_buffer_size ring byte) l.1
        ∙ other
            (record { router = at_start; ring = ring; cli = cli ++ command_bytes (byte ∷ bytes) })
            plain_end n
  ]
    where
      plain_end : Port0
      plain_end = record {
        router = at_start;
        ring = put_all rx_buffer_size ring (byte ∷ bytes ++ newline ∷ []);
        cli = cli;
      }

      begin :
          (byte == 64) ≡ true
          → receive_byte rx_buffer_size (record { router = at_start; ring = ring; cli = cli }) byte
            ≡ record { router = within (byte ∷ []) false; ring = ring; cli = cli }
      begin y = rw (y, append-nil cli)

      plain :
          (byte == 64) ≡ false
          → receive_byte rx_buffer_size (record { router = at_start; ring = ring; cli = cli }) byte
            ≡ record { router = in_line; ring = rx_put rx_buffer_size ring byte; cli = cli }
      plain n = rw (n, l.0, append-nil cli)

      chosen : (x y : Port0) → (byte == 64) ≡ true → x ≡ (if byte == 64 then x else y)
      chosen x y k = rw k

      other : (x y : Port0) → (byte == 64) ≡ false → y ≡ (if byte == 64 then x else y)
      other x y k = rw k
