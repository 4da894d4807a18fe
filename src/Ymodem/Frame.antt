-- ===== src/Ymodem/Frame.antt =====
-- A packet that a sender builds passes the checks of the receiver.
use mathlib.Core.Path.{subst}
use Prim.Native.Nat.{bit_xor}
use rtbus.Base.{
  ℕ, zero, suc, ◌+◌, ◌-◌, ◌*◌, ◌/◌, ◌%◌, ◌<◌, ◌≡◌, refl, ap, inl, inr, true, List, [], ◌∷◌, ◌++◌,
  arith, ◌==◌, leb, length, take, drop, get_or, Bool-cases, some, ==_iff, Option-cases,
}
use rtbus.Base.Rc.{Errno}
use rtbus.Base.Word.{u8}
use rtbus.Ymodem.{
  Packet, packet, broken, got, check_packet, read_packet, payload_length, ymodem_crc16, crc_shift,
  crc_from,
}

-- The bytes behind the header: the number and its complement, the data, and the CRC, high byte first.
unfoldable pub frame : (block_no : ℕ) → (bytes : List ℕ) → List ℕ
frame block_no bytes =
    block_no ∷ (255 - block_no) ∷ bytes
    ++ (ymodem_crc16 bytes / 256) ∷ (ymodem_crc16 bytes % 256) ∷ []

crc_shift_small : (k crc : ℕ) → crc < 65536 → crc_shift k crc < 65536
unfolding crc_shift
crc_shift_small zero crc h = h
crc_shift_small (suc k) crc h = elim (Bool-cases (leb 32768 crc)) [
  | inl y ↦ rw y (crc_shift_small k (bit_xor (crc * 2) 4129 % 65536) (omega arith))
  | inr n ↦ rw n (crc_shift_small k (crc * 2 % 65536) (omega arith))
]

pub crc_from_small : (crc : ℕ) (bytes : List ℕ) → crc < 65536 → crc_from crc bytes < 65536
unfolding crc_from
crc_from_small crc [] h = h
crc_from_small crc (x ∷ bytes) h =
    crc_from_small (crc_shift 8 (bit_xor crc (x * 256) % 65536)) bytes
      (crc_shift_small 8 (bit_xor crc (x * 256) % 65536) (omega arith))

take_prefix : (xs ys : List ℕ) → take (length xs) (xs ++ ys) ≡ xs
take_prefix [] ys = refl
take_prefix (x ∷ xs) ys = ap (λ z. x ∷ z) (take_prefix xs ys)

pub get_behind :
    (xs ys : List ℕ) (i j : ℕ) → j ≡ length xs + i → get_or (xs ++ ys) j 0 ≡ get_or ys i 0
get_behind [] ys i j e = ap (λ (z : ℕ). get_or ys z 0) (omega (arith, e))
get_behind (x ∷ xs) ys i zero e = absurd (omega (arith, e))
get_behind (x ∷ xs) ys i (suc j) e = get_behind xs ys i j (omega (arith, e))

check_packet-frame :
    (block_no n : ℕ) (bytes : List ℕ)
    → block_no < 256
    → length bytes ≡ n
    → check_packet n (frame block_no bytes) ≡ packet block_no bytes
unfolding check_packet frame ymodem_crc16
check_packet-frame block_no n bytes small e =
    let crc = crc_from 0 bytes in
    let tail = (crc / 256) ∷ (crc % 256) ∷ [] in
    let high : get_or (frame block_no bytes) (n + 2) 0 ≡ crc / 256 =
      get_behind (block_no ∷ (255 - block_no) ∷ bytes) tail 0 (n + 2) (omega (arith, e)) in
    let low : get_or (frame block_no bytes) (n + 3) 0 ≡ crc % 256 =
      get_behind (block_no ∷ (255 - block_no) ∷ bytes) tail 1 (n + 3) (omega (arith, e)) in
    let whole : take n (bytes ++ tail) ≡ bytes =
      subst (λ (k : ℕ). take k (bytes ++ tail) ≡ bytes) e (take_prefix bytes tail) in
    let numbered : (u8 (block_no + (255 - block_no)) == 255) ≡ true = ground arith in
    let joined : (crc == crc / 256 * 256 + crc % 256) ≡ true = ground arith in
    rw (numbered, whole, high, low, joined)

-- A packet with a block number of a byte and as much data as its header announces, framed with the
-- complement of the number and the CRC, is read back as it was.
pub read_packet-frame :
    (header block_no n : ℕ) (bytes : List ℕ)
    → payload_length header ≡ some n
    → block_no < 256
    → length bytes ≡ n
    → read_packet header (got (frame block_no bytes)) ≡ packet block_no bytes
unfolding read_packet
read_packet-frame header block_no n bytes h small e =
    rw (read_packet, h) (check_packet-frame block_no n bytes small e)

-- What the checks found.
pub data Checked (header : ℕ) (bytes : List ℕ) : Packet → Type 0 where
  refused : {c : Errno} → Checked header bytes (broken c)
  passed :
      (n : ℕ)
      → payload_length header ≡ some n
      → (get_or bytes 0 0 + get_or bytes 1 0) % 256 ≡ 255
      → ymodem_crc16 (take n (drop 2 bytes)) ≡ get_or bytes (n + 2) 0 * 256 + get_or bytes (n + 3) 0
      → Checked header bytes (packet (get_or bytes 0 0) (take n (drop 2 bytes)))

check_packet-Checked :
    (header n : ℕ) (bytes : List ℕ)
    → payload_length header ≡ some n
    → Checked header bytes (check_packet n bytes)
unfolding check_packet
check_packet-Checked header n bytes h =
    elim (Bool-cases (u8 (get_or bytes 0 0 + get_or bytes 1 0) == 255)) [
      | inr f ↦ rw f refused
      | inl t ↦
          elim (Bool-cases (
            ymodem_crc16 (take n (drop 2 bytes))
            == get_or bytes (n + 2) 0 * 256 + get_or bytes (n + 3) 0)) [
              | inr f ↦ rw (t, f) refused
              | inl c ↦ rw (t, c) (passed n h ((==_iff _ _).0 t) ((==_iff _ _).0 c))
            ]
    ]

-- A packet is read only if its header announces a length and the bytes behind it begin with a number
-- and its complement and carry the CRC of the data; then it has that number and those data.
pub read_packet-Checked :
    (header : ℕ) (bytes : List ℕ) → Checked header bytes (read_packet header (got bytes))
unfolding read_packet
read_packet-Checked header bytes = elim (Option-cases (payload_length header)) [
  | inl n ↦ rw (read_packet, n) refused
  | inr (n, h) ↦ rw (read_packet, h) (check_packet-Checked header n bytes h)
]
