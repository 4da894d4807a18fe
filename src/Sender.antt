-- ===== src/Sender.antt =====
-- system/ymodem_upload.c: the sender of a file over YMODEM.
-- The serial port and the clock are a parameter, `Line`: what a write and a read of a slice give, and
-- how many reads the deadline of a wait leaves. The printing of the size (`%lu`) is a parameter.
-- A result is true where the C function returns 0. The bytes of the protocol have the values of the
-- receiver's.
pub mod Script
pub mod Metadata
pub mod Blocks
pub mod Received
pub mod Stored
mod Tests
use Prim.Native.Nat.{bit_xor}
use rtbus.Base.{
  ℕ, zero, suc, ◌+◌, ◌-◌, ◌*◌, ◌/◌, ◌%◌, Bool, true, false, ◌||◌, List, [], ◌∷◌, ◌++◌, Option, none,
  some, leb, ◌==◌, if◌then◌else◌, length, take, drop, replicate,
}
use rtbus.Base.Word.{u8}
use rtbus.Ymodem.{soh, stx, eot, ack, nak, can, crc_request}

pub record Line (P : Type 0) : Type 0 where
  pub write_all : List ℕ → P → Bool × P
  pub read_byte : P → Option ℕ × P
  pub reads_left : P → ℕ

-- The inner loop of `crc16_xmodem`, a shift for each of `k` bits.
unfoldable pub xmodem_shift : ℕ → (crc : ℕ) → ℕ
xmodem_shift zero crc = crc
xmodem_shift (suc k) crc =
    xmodem_shift k (if leb 32768 crc then bit_xor (crc * 2) 4129 % 65536 else crc * 2 % 65536)

unfoldable pub xmodem_from : (crc : ℕ) → List ℕ → ℕ
xmodem_from crc [] = crc
xmodem_from crc (x ∷ bytes) = xmodem_from (xmodem_shift 8 (bit_xor crc (x * 256) % 65536)) bytes

unfoldable pub crc16_xmodem : List ℕ → ℕ
crc16_xmodem bytes = xmodem_from 0 bytes

-- What is behind the last slash or backslash, `last` if there is none.
unfoldable pub base_from : (last : List ℕ) → (path : List ℕ) → List ℕ
base_from last [] = last
base_from last (c ∷ path) =
    if (c == 47) || (c == 92) then base_from path path else base_from last path

unfoldable pub base_name : List ℕ → List ℕ
base_name path = base_from path path

-- The text that `snprintf` leaves in the first packet: 127 characters at most, and zeros.
unfoldable pub first_packet : (print_ulong : ℕ → List ℕ) → (path : List ℕ) → (size : ℕ) → List ℕ
first_packet print_ulong path size =
    let text = take 127 (base_name path ++ 0 ∷ print_ulong size) in
    text ++ replicate (128 - length text) 0

-- A block of 1024 bytes, filled up with 0x1a.
unfoldable pub block_packet : (rest : List ℕ) → List ℕ
block_packet rest = let chunk = take 1024 rest in chunk ++ replicate (1024 - length chunk) 26

module _ {P : Type 0} (line : Line P) where
  -- `||` of the results of calls: the next call is made only where the one before it gave 0.
  abbrev pub and_then : Bool × P → (P → Bool × P) → Bool × P
  and_then (false, p) next = (false, p)
  and_then (true, p) next = next p

  -- The loop of `wait_byte` on the reads that the deadline leaves.
  unfoldable pub wait_from : (reads : ℕ) → (expected : ℕ) → P → Bool × P
  wait_from zero expected p = (false, p)
  wait_from (suc reads) expected p =
      let (read, p') = line.read_byte p in
      let rest = wait_from reads expected p' in
      elim read [
        | none ↦ rest
        | some byte ↦
            if byte == expected then (true, p') else if byte == can then (false, p') else rest
      ]

  unfoldable pub wait_byte : (expected : ℕ) → P → Bool × P
  wait_byte expected p = wait_from (line.reads_left p) expected p

  unfoldable pub send_packet : (start block_no : ℕ) → List ℕ → P → Bool × P
  send_packet start block_no bytes p =
      let crc = crc16_xmodem bytes in
      and_then (line.write_all (start ∷ block_no ∷ u8 (255 - block_no) ∷ []) p) λ p1.
        and_then (line.write_all bytes p1) λ p2. line.write_all (u8 (crc / 256) ∷ u8 crc ∷ []) p2

  -- The loop of `send_ymodem` on the bytes that are left; `fuel` is their number at least.
  unfoldable pub send_blocks : (fuel : ℕ) → (block_no : ℕ) → (rest : List ℕ) → P → Bool × P
  send_blocks zero block_no rest p = (true, p)
  send_blocks (suc fuel) block_no rest p =
      if length rest == 0
      then (true, p)
      else and_then (send_packet stx block_no (block_packet rest) p) λ p1.
        and_then (wait_byte ack p1) λ p2. send_blocks fuel (u8 (block_no + 1)) (drop 1024 rest) p2

  unfoldable pub send_ymodem : (print_ulong : ℕ → List ℕ) → (path bytes : List ℕ) → P → Bool × P
  send_ymodem print_ulong path bytes p =
      and_then (send_packet soh 0 (first_packet print_ulong path (length bytes)) p) λ p1.
        and_then (wait_byte ack p1) λ p2. and_then (wait_byte crc_request p2) λ p3.
          and_then (send_blocks (length bytes) 1 bytes p3) λ p4.
            and_then (line.write_all (eot ∷ []) p4) λ p5. and_then (wait_byte nak p5) λ p6.
              and_then (line.write_all (eot ∷ []) p6) λ p7. and_then (wait_byte ack p7) λ p8.
                and_then (wait_byte crc_request p8)
                  λ p9. and_then (send_packet soh 0 (replicate 128 0) p9) λ p10. wait_byte ack p10
