-- ===== src/Ymodem.antt =====
-- zephyr/modules/rtbus/services/rtbus_ymodem.c: the receiver of a file transfer.
-- A turn of the loop of `rtbus_ymodem_recv` gets an `Arrival`: the header byte and what
-- `ymodem_read_exact` got behind it, or the failure to get a header. The clock and the serial line
-- below that are not modelled, nor is the opening of the line before the loop. The image store and
-- `strtoul` are parameters.
pub mod Frame
pub mod Session
pub mod Transfer
mod Tests
use Prim.Native.Nat.{bit_xor}
use rtbus.Base.{
  ℕ, zero, suc, ◌+◌, ◌-◌, ◌*◌, ◌%◌, min, Bool, true, false, not, ◌&&◌, ◌||◌, List, [], ◌∷◌, ◌++◌,
  Option, none, some, ltb, leb, ◌==◌, if◌then◌else◌, length, get_or, take, drop,
}
use rtbus.Base.Rc.{Rc, ok, err, Errno, einval, ebadmsg, ecanceled}
use rtbus.Base.Word.{u8}

abbrev pub soh : ℕ
soh = 1

abbrev pub stx : ℕ
stx = 2

abbrev pub eot : ℕ
eot = 4

abbrev pub ack : ℕ
ack = 6

abbrev pub nak : ℕ
nak = 21

abbrev pub can : ℕ
can = 24

-- YMODEM_CRC, 'C'
abbrev pub crc_request : ℕ
crc_request = 67

-- The inner loop of `ymodem_crc16` on a 16-bit number: a shift for each of `k` bits.
unfoldable pub crc_shift : ℕ → (crc : ℕ) → ℕ
crc_shift zero crc = crc
crc_shift (suc k) crc =
    if leb 32768 crc
    then crc_shift k (bit_xor (crc * 2) 4129 % 65536)
    else crc_shift k (crc * 2 % 65536)

unfoldable pub crc_from : (crc : ℕ) → List ℕ → ℕ
crc_from crc [] = crc
crc_from crc (x ∷ contents) = crc_from (crc_shift 8 (bit_xor crc (x * 256) % 65536)) contents

unfoldable pub ymodem_crc16 : List ℕ → ℕ
ymodem_crc16 contents = crc_from 0 contents

-- What a read gives: bytes, or the reason why there are none.
pub data Read : Type 0 where
  got : List ℕ → Read
  missed : Errno → Read

-- A packet that passed its checks: the block number and the data.
pub data Packet : Type 0 where
  packet : (block_no : ℕ) → (contents : List ℕ) → Packet
  broken : Errno → Packet

-- The length of the data that a header announces.
abbrev pub payload_length : (header : ℕ) → Option ℕ
payload_length header =
    if header == soh then some 128 else if header == stx then some 1024 else none

-- The checks of `ymodem_read_packet` on the bytes behind the header.
unfoldable pub check_packet : (payload_len : ℕ) → List ℕ → Packet
check_packet payload_len bytes =
    let contents = take payload_len (drop 2 bytes) in
    let expected_crc = get_or bytes (payload_len + 2) 0 * 256 + get_or bytes (payload_len + 3) 0 in
    if not (u8 (get_or bytes 0 0 + get_or bytes 1 0) == 255)
    then broken ebadmsg
    else if not (ymodem_crc16 contents == expected_crc)
    then broken ebadmsg
    else packet (get_or bytes 0 0) contents

unfoldable pub read_packet : (header : ℕ) → Read → Packet
read_packet header read = elim (payload_length header) [
  | none ↦ broken einval
  | some n ↦ elim read [ got bytes ↦ check_packet n bytes | missed c ↦ broken c ]
]

-- The scan for the end of the file name, from `pos` on.
unfoldable pub after_name : List ℕ → List ℕ
after_name [] = []
after_name (x ∷ block) = if x == 0 then block else after_name block

module _ (strtoul : List ℕ → ℕ) where
  unfoldable pub parse_file_size : (block : List ℕ) → ℕ
  parse_file_size block =
      if get_or (after_name block) 0 0 == 0 then 0 else strtoul (after_name block)

-- `rtbus_image_store_begin`, `_write` and `_finish`.
pub record ImageStore (S : Type 0) : Type 0 where
  pub begin : (image_size : ℕ) → S → Rc × S
  pub write : (offset : ℕ) → (contents : List ℕ) → S → Rc × S
  pub finish : Rc → S → Rc × S

-- The local variables of `rtbus_ymodem_recv`, the store, and the bytes that the turns sent by
-- `ymodem_put`, without the requests that `ymodem_wait_header` sends while it waits.
pub record Receiver (S : Type 0) : Type 0 where
  pub got_metadata : Bool
  pub store_active : Bool
  pub eot_seen : Bool
  pub expected_size : ℕ
  pub received_size : ℕ
  pub expected_block : ℕ
  pub store : S
  pub sent : List ℕ

pub data Arrival : Type 0 where
  silence : Errno → Arrival
  header : ℕ → Read → Arrival

-- A turn goes on with the loop or returns.
pub data Turn (S : Type 0) : Type 0 where
  continue : Receiver S → Turn S
  return : Rc → Receiver S → Turn S

module _ {S : Type 0} where
  abbrev pub put : Receiver S → List ℕ → Receiver S
  put r bytes = record r { sent = r.sent ++ bytes }

  module _ (store : ImageStore S) where
    -- The end of a transfer that fails: an active store is told.
    unfoldable pub abandon : Receiver S → Errno → Turn S
    abandon r c =
        if r.store_active
        then return (err c) (record r { store = (store.finish (err c) r.store).1 })
        else return (err c) r

    -- What follows a write of `write_len` bytes.
    abbrev pub after_write : Receiver S → (write_len : ℕ) → Rc × S → Turn S
    after_write r write_len (ok, s) = continue (
        put
          (record r {
            store = s;
            received_size = r.received_size + write_len;
            expected_block = u8 (r.expected_block + 1);
          })
          (ack ∷ []))
    after_write r write_len (err c, s) =
        return (err c) (put (record r { store = (store.finish (err c) s).1 }) (can ∷ []))

    -- The data block 1 and those behind it.
    unfoldable pub take_block : Receiver S → (block_no : ℕ) → (contents : List ℕ) → Turn S
    take_block r block_no contents =
        let write_len = min (length contents) (r.expected_size - r.received_size) in
        if not (block_no == r.expected_block)
        then continue (put r (nak ∷ []))
        else after_write r write_len (store.write r.received_size (take write_len contents) r.store)

    -- The empty block 0 behind the end of the file.
    abbrev pub after_finish : Receiver S → Rc × S → Turn S
    after_finish r (ok, s) =
        return ok (put (record r { store = s; store_active = false }) (ack ∷ []))
    after_finish r (err c, s) =
        return (err c) (put (record r { store = s; store_active = false }) (can ∷ []))

    unfoldable pub end_transfer : Receiver S → Turn S
    end_transfer r = after_finish r (store.finish ok r.store)

    abbrev pub after_begin : Receiver S → Rc × S → Turn S
    after_begin r (ok, s) = continue (record r { store = s; store_active = true })
    after_begin r (err c, s) = return (err c) (put (record r { store = s }) (can ∷ []))

    -- Block 0, with the name and the size of the file.
    unfoldable pub take_metadata : Receiver S → (expected_size : ℕ) → Turn S
    take_metadata r expected_size =
        let r' = record r { got_metadata = true; expected_size = expected_size } in
        if expected_size == 0
        then return (err einval) (put r' (nak ∷ []))
        else after_begin (put r' (ack ∷ crc_request ∷ [])) (store.begin expected_size r.store)

    -- A packet that passed its checks.
    unfoldable pub take_packet :
        (strtoul : List ℕ → ℕ) → Receiver S → (block_no : ℕ) → (contents : List ℕ) → Turn S
    take_packet strtoul r block_no contents =
        if not r.got_metadata
        then (if not (block_no == 0)
            then continue (put r (nak ∷ []))
            else take_metadata r (parse_file_size strtoul contents))
        else if r.eot_seen && (block_no == 0)
        then end_transfer r
        else take_block r block_no contents

    -- One turn of the loop.
    unfoldable pub turn : (strtoul : List ℕ → ℕ) → Receiver S → Arrival → Turn S
    turn strtoul r (silence c) = abandon r c
    turn strtoul r (header h read) =
        if h == can
        then abandon r ecanceled
        else if h == eot
        then (if not r.eot_seen
            then continue (put (record r { eot_seen = true }) (nak ∷ []))
            else continue (put r (ack ∷ crc_request ∷ [])))
        else elim (read_packet h read) [
          | broken c ↦ continue (put r (nak ∷ []))
          | packet block_no contents ↦ take_packet strtoul r block_no contents
        ]

    -- The loop on the arrivals of a transfer, until it returns.
    unfoldable pub receive : (strtoul : List ℕ → ℕ) → Receiver S → List Arrival → Turn S
    receive strtoul r [] = continue r
    receive strtoul r (a ∷ arrivals) = elim (turn strtoul r a) [
      | return rc r' ↦ return rc r'
      | continue r' ↦ receive strtoul r' arrivals
    ]
