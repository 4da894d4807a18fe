-- ===== src/Sender/Script.antt =====
-- The sender over a line that takes all writes and hands over the bytes that a receiver answers.
use Prim.Native.Nat.{bit_xor}
use mathlib.Core.List.{append-nil, append_assoc}
use rtbus.Base.{
  ℕ, zero, suc, ◌+◌, ◌-◌, ◌*◌, ◌/◌, ◌%◌, ◌≤◌, ◌<◌, ◌≡◌, refl, sym, ap, inl, inr, Bool, true, false,
  List, [], ◌∷◌, ◌++◌, Option, none, some, arith, leb, ◌==◌, ==_self, length, drop, replicate,
  length-drop, Bool-cases, ◌∙◌,
}
use rtbus.Base.Word.{u8}
use rtbus.Ymodem.{
  Arrival, header, silence, got, missed, soh, stx, eot, ack, nak, crc_request, ymodem_crc16,
  crc_from, crc_shift,
}
use rtbus.Ymodem.Frame.{frame, crc_from_small}
use rtbus.Sender.{
  Line, xmodem_shift, xmodem_from, crc16_xmodem, first_packet, block_packet, and_then, wait_from,
  wait_byte, send_packet, send_blocks, send_ymodem,
}

pub record Script : Type 0 where
  pub written : List ℕ
  pub replies : List ℕ

abbrev answer : Script → Option ℕ × Script
answer s = elim s.replies [
  | [] ↦ (none, s)
  | x ∷ replies ↦ (some x, record s { replies = replies })
]

abbrev pub script : Line Script
script = record {
  write_all = λ bytes s. (true, record s { written = s.written ++ bytes });
  read_byte = answer;
  reads_left = λ s. 1;
}

abbrev pub at : (written replies : List ℕ) → Script
at written replies = record { written = written; replies = replies }

xmodem_shift_lem : (k crc : ℕ) → xmodem_shift k crc ≡ crc_shift k crc
unfolding xmodem_shift crc_shift
xmodem_shift_lem zero crc = refl
xmodem_shift_lem (suc k) crc = elim (Bool-cases (leb 32768 crc)) [
  | inl y ↦ rw y (xmodem_shift_lem k (bit_xor (crc * 2) 4129 % 65536))
  | inr n ↦ rw n (xmodem_shift_lem k (crc * 2 % 65536))
]

xmodem_from_lem : (crc : ℕ) (bytes : List ℕ) → xmodem_from crc bytes ≡ crc_from crc bytes
unfolding xmodem_from crc_from
xmodem_from_lem crc [] = refl
xmodem_from_lem crc (x ∷ bytes) =
    ap (λ c. xmodem_from c bytes) (xmodem_shift_lem 8 (bit_xor crc (x * 256) % 65536))
    ∙ xmodem_from_lem (crc_shift 8 (bit_xor crc (x * 256) % 65536)) bytes

-- The CRC of the sender is the CRC of the receiver.
pub crc16_xmodem-ymodem_crc16 : (bytes : List ℕ) → crc16_xmodem bytes ≡ ymodem_crc16 bytes
unfolding crc16_xmodem ymodem_crc16
crc16_xmodem-ymodem_crc16 bytes = xmodem_from_lem 0 bytes

ymodem_crc16_small : (bytes : List ℕ) → ymodem_crc16 bytes < 65536
unfolding ymodem_crc16
ymodem_crc16_small bytes = crc_from_small 0 bytes (ground arith)

send_packet-frame :
    (start block_no : ℕ) (bytes w rs : List ℕ)
    → block_no < 256
    → send_packet script start block_no bytes (at w rs)
      ≡ (true, at (w ++ start ∷ frame block_no bytes) rs)
unfolding send_packet frame
send_packet-frame start block_no bytes w rs small =
    let crc = ymodem_crc16 bytes in
    let high : u8 (crc / 256) ≡ crc / 256 = ground (arith, ymodem_crc16_small bytes) in
    let other : u8 (255 - block_no) ≡ 255 - block_no = ground (arith, small) in
    ap (λ z. (true, at z rs))
      (rw (crc16_xmodem-ymodem_crc16 bytes, high, other)
        (append_assoc (w ++ start ∷ block_no ∷ (255 - block_no) ∷ []) bytes
            ((crc / 256) ∷ (crc % 256) ∷ [])
          ∙ append_assoc w (start ∷ block_no ∷ (255 - block_no) ∷ [])
              (bytes ++ (crc / 256) ∷ (crc % 256) ∷ [])))

wait_byte_ready :
    (expected : ℕ) (w rs : List ℕ)
    → wait_byte script expected (at w (expected ∷ rs)) ≡ (true, at w rs)
unfolding wait_byte wait_from
wait_byte_ready expected w rs = rw (==_self expected)

-- The packets of the blocks, as they arrive.
abbrev pub blocks : (fuel : ℕ) → (block_no : ℕ) → (rest : List ℕ) → List Arrival
blocks zero block_no rest = []
blocks (suc fuel) block_no [] = []
blocks (suc fuel) block_no (x ∷ rest) =
    header stx (got (frame block_no (block_packet (x ∷ rest))))
    ∷ blocks fuel (u8 (block_no + 1)) (drop 1024 (x ∷ rest))

-- The bytes on the line, and an ACK for each packet.
abbrev pub bytes_of : List Arrival → List ℕ
bytes_of [] = []
bytes_of (silence c ∷ arrivals) = bytes_of arrivals
bytes_of (header h (missed c) ∷ arrivals) = h ∷ bytes_of arrivals
bytes_of (header h (got bytes) ∷ arrivals) = h ∷ bytes ++ bytes_of arrivals

abbrev pub acks : List Arrival → List ℕ
acks [] = []
acks (a ∷ arrivals) = ack ∷ acks arrivals

send_blocks-blocks :
    (fuel block_no : ℕ) (rest w rs : List ℕ)
    → length rest ≤ fuel
    → block_no < 256
    → send_blocks script fuel block_no rest (at w (acks (blocks fuel block_no rest) ++ rs))
      ≡ (true, at (w ++ bytes_of (blocks fuel block_no rest)) rs)
unfolding send_blocks
send_blocks-blocks zero block_no [] w rs enough small =
    ap (λ z. (true, at z rs)) (sym (append-nil w))
send_blocks-blocks zero block_no (x ∷ rest) w rs enough small = absurd (omega (arith, enough))
send_blocks-blocks (suc fuel) block_no [] w rs enough small =
    ap (λ z. (true, at z rs)) (sym (append-nil w))
send_blocks-blocks (suc fuel) block_no (x ∷ rest) w rs enough small =
    let bytes = x ∷ rest in
    let one = stx ∷ frame block_no (block_packet bytes) in
    let later = blocks fuel (u8 (block_no + 1)) (drop 1024 bytes) in
    let more : (length bytes == 0) ≡ false = ground arith in
    rw more (
      ap
        (λ o. and_then script o λ p1.
          and_then script (wait_byte script ack p1)
            λ p2. send_blocks script fuel (u8 (block_no + 1)) (drop 1024 bytes) p2)
        (send_packet-frame stx block_no (block_packet bytes) w (ack ∷ acks later ++ rs) small)
      ∙ ap
          (λ o.
            and_then script o
              λ p2. send_blocks script fuel (u8 (block_no + 1)) (drop 1024 bytes) p2)
          (wait_byte_ready ack (w ++ one) (acks later ++ rs))
      ∙ send_blocks-blocks fuel (u8 (block_no + 1)) (drop 1024 bytes) (w ++ one) rs
          (omega (arith, length-drop 1024 bytes, enough)) (ground arith)
      ∙ ap (λ z. (true, at z rs)) (append_assoc w one (bytes_of later)))

-- The arrivals of a transfer, and the replies of a receiver that takes all of them.
abbrev pub transfer : (print_ulong : ℕ → List ℕ) → (path bytes : List ℕ) → List Arrival
transfer print_ulong path bytes =
    header soh (got (frame 0 (first_packet print_ulong path (length bytes))))
      ∷ blocks (length bytes) 1 bytes
    ++ header eot (got []) ∷ header eot (got []) ∷ header soh (got (frame 0 (replicate 128 0))) ∷ []

abbrev pub replies_to : (bytes : List ℕ) → List ℕ
replies_to bytes =
    ack ∷ crc_request ∷ acks (blocks (length bytes) 1 bytes) ++ nak ∷ ack ∷ crc_request ∷ ack ∷ []

bytes_of-append : (xs ys : List Arrival) → bytes_of (xs ++ ys) ≡ bytes_of xs ++ bytes_of ys
bytes_of-append [] ys = refl
bytes_of-append (silence c ∷ xs) ys = bytes_of-append xs ys
bytes_of-append (header h (missed c) ∷ xs) ys = ap (λ zs. h ∷ zs) (bytes_of-append xs ys)
bytes_of-append (header h (got bytes) ∷ xs) ys =
    ap (λ zs. h ∷ bytes ++ zs) (bytes_of-append xs ys)
    ∙ ap (λ zs. h ∷ zs) (sym (append_assoc bytes (bytes_of xs) (bytes_of ys)))

-- One call of a chain.
next_call :
    (o : Bool × Script) (s : Script) (k : Script → Bool × Script) (end : Bool × Script)
    → o ≡ (true, s)
    → k s ≡ end
    → and_then script o k ≡ end
next_call o s k end e rest = ap (λ o'. and_then script o' k) e ∙ rest

-- Over a line that takes every byte and hands over the replies of a receiver that takes every packet
-- (`replies_to`), the sender ends without an error, and what it has written is the bytes of the
-- transfer.
pub send_ymodem-transfer :
    (print_ulong : ℕ → List ℕ) (path bytes : List ℕ)
    → send_ymodem script print_ulong path bytes (at [] (replies_to bytes))
      ≡ (true, at (bytes_of (transfer print_ulong path bytes)) [])
unfolding send_ymodem
send_ymodem-transfer print_ulong path bytes =
    next_call _ _ _ _
      (send_packet-frame soh 0 (first_packet print_ulong path (length bytes)) [] _ (ground arith))
      (next_call _ _ _ _ (wait_byte_ready ack w1 _) (
        next_call _ _ _ _ (wait_byte_ready crc_request w1 _) (
          next_call _ _ _ _
            (send_blocks-blocks (length bytes) 1 bytes w1 _ (omega arith) (ground arith))
            (next_call _ _ _ _ (wait_byte_ready nak w2 _) (
              next_call _ _ _ _ (wait_byte_ready ack w3 _) (
                next_call _ _ _ _ (wait_byte_ready crc_request w3 _) (
                  next_call _ _ _ _ (send_packet-frame soh 0 (replicate 128 0) w3 _ (ground arith))
                    (wait_byte_ready ack w4 [] ∙ ap (λ z. (true, at z [])) joined))))))))
  where
    w1 : List ℕ
    w1 = soh ∷ frame 0 (first_packet print_ulong path (length bytes))

    middle : List ℕ
    middle = bytes_of (blocks (length bytes) 1 bytes)

    w2 : List ℕ
    w2 = (w1 ++ middle) ++ eot ∷ []

    w3 : List ℕ
    w3 = w2 ++ eot ∷ []

    w4 : List ℕ
    w4 = w3 ++ soh ∷ frame 0 (replicate 128 0)

    last : List ℕ
    last = frame 0 (replicate 128 0)

    one_eot : List ℕ
    one_eot = eot ∷ []

    tail : List Arrival
    tail = header eot (got []) ∷ header eot (got []) ∷ header soh (got last) ∷ []

    tail_bytes : bytes_of tail ≡ one_eot ++ one_eot ++ soh ∷ last
    tail_bytes = ap (λ z. eot ∷ eot ∷ soh ∷ z) (append-nil last)

    joined : w4 ≡ w1 ++ bytes_of (blocks (length bytes) 1 bytes ++ tail)
    joined =
        append_assoc w2 one_eot (soh ∷ last)
        ∙ append_assoc (w1 ++ middle) one_eot (one_eot ++ soh ∷ last)
        ∙ append_assoc w1 middle (one_eot ++ one_eot ++ soh ∷ last)
        ∙ ap (λ z. w1 ++ z)
            (ap (λ z. middle ++ z) (sym tail_bytes)
              ∙ sym (bytes_of-append (blocks (length bytes) 1 bytes) tail))
