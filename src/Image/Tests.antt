-- ===== src/Image/Tests.antt =====
-- Instances of the theorems about the image store, over areas that are functions.
use rtbus.Base.{
  ℕ, ◌+◌, ◌-◌, ◌≡◌, refl, true, false, List, [], ◌∷◌, ◌++◌, arith, replicate, get_or, ltb, leb,
  ◌==◌, ◌&&◌, if◌then◌else◌, length, take, drop, some, ap,
}
use rtbus.Base.Rc.{Rc, ok}
use rtbus.Image.{Driver, Config, Context, empty_context}
use rtbus.HeaderTool.{crc32_update, crc32_from, crc32_shift}
use rtbus.HeaderTool.Crc.{crc32_update-IsCrc}
use rtbus.Image.Header.{decode, is_valid}
use rtbus.Image.{store_read, read_header_from_store, calculate_store_payload_crc, crc_from}
use rtbus.Image.Store.{
  begin_area, store_write_flash, write_from, store_begin, store_write, store_finish, finish_active,
  flush_flash, flush_to, finish_checked, commit_store_to_slot, commit_from, copy_from,
}
use rtbus.Image.Flash.{IsDriver, slice}
use rtbus.Image.Flush.{Outcome}
use rtbus.Image.Session.{IsOpen, WriteFault, store_write-Outcome}
use rtbus.Image.Begin.{BeginFault, Begun, store_begin-Outcome}
use rtbus.Image.Check.{IsStored}
use rtbus.Image.Finish.{store_finish-IsStored}
use rtbus.Image.Complete.{IsReliable}
use rtbus.Image.Accepted.{IsRight, store_finish_right}
use rtbus.Image.Upload.{image_store, Stored, receive-IsStored}
use rtbus.Ymodem
use rtbus.Ymodem.{
  Receiver, Arrival, header, Turn, continue, return, got, receive, turn, read_packet, check_packet,
  ymodem_crc16, crc_shift, take_packet, take_metadata, take_block, end_transfer, parse_file_size,
  after_name,
}
use rtbus.Ymodem.Frame.{frame}
use rtbus.Sender.{base_name, base_from}
use rtbus.Sender.Script.{transfer, replies_to}
use rtbus.Sender.Metadata.{HasNoZero, none_yet, one_more, IsPrinted}
use rtbus.Sender.Blocks.{IsKeeper, Received}
use rtbus.Sender.Received.{receive-transfer}
use rtbus.Sender.Stored.{IsRoomy, held_by, IsIdle, IsTaking, HasStored, image_store-IsKeeper}

abbrev Areas : Type 0
Areas = ℕ → ℕ → ℕ

abbrev areas : Driver Areas
areas = record {
  open_area = λ area f. ok;
  is_ready = λ area f. true;
  fa_size = λ area. 4096;
  align = λ area. 8;
  read = λ area offset size f. (ok, slice (f area) offset size);
  write = λ area offset xs f. (
    ok,
    λ b i.
        if (b == area) && leb offset i && ltb i (offset + length xs)
        then get_or xs (i - offset) 0
        else f b i,
  );
  flatten = λ area f. (ok, λ b i. if b == area then 255 else f b i);
}

abbrev board : Config
board = record {
  slot_area = 1;
  store_area = 2;
  slot_size = 4096;
  pending_max = 128;
  ram_max = 1000;
  crc32_ieee_update = crc32_update;
}

abbrev contents_of : Areas → ℕ → ℕ → ℕ
contents_of f = f

areas-IsDriver : IsDriver areas contents_of
areas-IsDriver = record {
  read_ok = λ area offset size f e. refl;
  write_ok = λ area offset xs f e b i. refl;
  flatten_ok = λ area f e b i other. ap (λ t. if t then 255 else f b i) other;
}

-- An image with a payload of four bytes: magic number, versions, sizes and CRC, then the names, the
-- RAM, the flags and the reserved bytes.
abbrev image : List ℕ
image =
    (77 ∷ 67 ∷ 70 ∷ 87 ∷ 2 ∷ 0 ∷ 128 ∷ 0 ∷ 4 ∷ 0 ∷ 0 ∷ 0 ∷ 205 ∷ 251 ∷ 60 ∷ 182 ∷ replicate 80 0)
    ++ (100 ∷ 0 ∷ 0 ∷ 0 ∷ 1 ∷ 0 ∷ 0 ∷ 0 ∷ replicate 24 0)
    ++ (1 ∷ 2 ∷ 3 ∷ 4 ∷ [])

abbrev erased : Areas
erased area i = 255

-- The areas and the context of a store that has the image but for its last byte.
abbrev nearly : List ℕ
nearly = take 131 image

abbrev receiving : Areas
receiving area i = if (area == 2) && ltb i 128 then get_or image i 0 else 255

abbrev receiving_context : Context
receiving_context = record {
  flash_area = some 2;
  flash_write_offset = 128;
  flash_align = 8;
  flash_pending = drop 128 nearly;
  expected_size = 132;
  written = 131;
  active = true;
}

receiving-IsOpen :
    IsOpen areas board contents_of areas-IsDriver 2 receiving receiving_context nearly
receiving-IsOpen = record {
  flash_area = refl;
  active = refl;
  held = refl;
  written = refl;
  room = ground arith;
  bounded = ground arith;
  fits = ground arith;
  headed = ground arith;
  small = ground arith;
}

store_begin-Outcome_example :
    Outcome areas board contents_of areas-IsDriver 2
      (BeginFault areas board contents_of areas-IsDriver erased empty_context 132)
      (Begun areas board contents_of areas-IsDriver erased empty_context 132)
      (store_begin areas board erased empty_context 132)
store_begin-Outcome_example =
    store_begin-Outcome areas board contents_of areas-IsDriver erased empty_context 132
      (ground arith)

store_write-Outcome_example :
    Outcome areas board contents_of areas-IsDriver 2
      (WriteFault areas board contents_of areas-IsDriver 2 receiving_context (4 ∷ []))
      (λ f ctx.
        IsOpen areas board contents_of areas-IsDriver 2 f ctx (nearly ++ 4 ∷ [])
        × (ctx.expected_size ≡ 132)
        × (ctx.flash_align ≡ receiving_context.flash_align))
      (store_write areas board receiving receiving_context (length nearly) (4 ∷ []))
store_write-Outcome_example =
    store_write-Outcome areas board contents_of areas-IsDriver 2 receiving receiving_context nearly
      (4 ∷ []) receiving-IsOpen

abbrev full_context : Context
full_context = record receiving_context { flash_pending = drop 128 image; written = 132 }

full-IsOpen : IsOpen areas board contents_of areas-IsDriver 2 receiving full_context image
full-IsOpen = record {
  flash_area = refl;
  active = refl;
  held = refl;
  written = refl;
  room = ground arith;
  bounded = ground arith;
  fits = ground arith;
  headed = ground arith;
  small = ground arith;
}

abbrev finished : Rc × Areas × Context
finished = store_finish areas board receiving full_context ok

store_finish-IsStored_example :
    IsStored areas board contents_of areas-IsDriver finished.1 132 image
    × (finished.2 ≡ empty_context)
unfolding store_finish finish_active flush_flash flush_to read_header_from_store store_read decode
    is_valid finish_checked calculate_store_payload_crc crc_from crc32_update crc32_from crc32_shift
    commit_store_to_slot commit_from copy_from
store_finish-IsStored_example =
    store_finish-IsStored areas board contents_of areas-IsDriver crc32_update-IsCrc receiving
      full_context image finished.1 finished.2 full-IsOpen refl

-- A upload of the image in blocks of 128 bytes.
abbrev metadata : List ℕ
metadata = 65 ∷ 0 ∷ 49 ∷ replicate 125 0

abbrev size_of_image : List ℕ → ℕ
size_of_image digits = 132

abbrev waiting : Receiver (Areas × Context)
waiting = record {
  got_metadata = false;
  store_active = false;
  eot_seen = false;
  expected_size = 0;
  received_size = 0;
  expected_block = 1;
  store = (erased, empty_context);
  sent = [];
}

abbrev upload : List Arrival
upload =
    header 1 (got (frame 0 metadata))
    ∷ header 1 (got (frame 1 (take 128 image)))
    ∷ header 1 (got (frame 2 (drop 128 image ++ replicate 124 26)))
    ∷ header 4 (got [])
    ∷ header 4 (got [])
    ∷ header 1 (got (frame 0 (replicate 128 0)))
    ∷ []

abbrev left : Turn (Areas × Context) → Receiver (Areas × Context)
left (continue r) = r
left (return rc r) = r

abbrev uploaded : Receiver (Areas × Context)
uploaded = left (receive (image_store areas board) size_of_image waiting upload)

receive-IsStored_example : Stored areas board contents_of areas-IsDriver crc32_update-IsCrc uploaded
unfolding store_begin begin_area store_write store_write_flash write_from store_finish finish_active
    flush_flash flush_to read_header_from_store store_read decode is_valid finish_checked
    calculate_store_payload_crc crc_from crc32_update crc32_from crc32_shift commit_store_to_slot
    commit_from copy_from receive turn read_packet check_packet ymodem_crc16 Ymodem.crc_from
    crc_shift take_packet take_metadata take_block end_transfer parse_file_size after_name frame
receive-IsStored_example =
    receive-IsStored areas board contents_of areas-IsDriver crc32_update-IsCrc size_of_image
      (λ text. ground arith) upload waiting uploaded refl refl refl

areas-IsReliable : IsReliable areas
areas-IsReliable = record {
  opens = λ area f. refl;
  reads = λ area offset size f. refl;
  writes = λ area offset xs f. refl;
  flattens = λ area f. refl;
}

image-IsRight : IsRight areas board contents_of areas-IsDriver areas-IsReliable image
unfolding decode is_valid crc32_update crc32_from crc32_shift
image-IsRight = record { valid = refl; runnable = ground arith; intact = refl }

store_finish_right_example : (store_finish areas board receiving full_context ok).0 ≡ ok
store_finish_right_example =
    store_finish_right areas board contents_of areas-IsDriver areas-IsReliable crc32_update-IsCrc
      receiving full_context image full-IsOpen refl (ground arith) refl
      (record { room = ground arith; aligned = refl }) image-IsRight

-- The image as a file that the sender transfers to the receiver of the program and its image store: the
-- path "a/b", and numbers printed as one digit.
abbrev path : List ℕ
path = 97 ∷ 47 ∷ 98 ∷ []

abbrev print_digit : ℕ → List ℕ
print_digit n = (n + 1) ∷ []

abbrev read_digit : List ℕ → ℕ
read_digit text = get_or text 0 0 - 1

print_digit-IsPrinted : IsPrinted print_digit read_digit
print_digit-IsPrinted = record {
  digit = λ n k small. ground arith;
  read_back = λ n k small. omega arith;
}

path-HasNoZero : HasNoZero path
path-HasNoZero = one_more refl (one_more refl (one_more refl none_yet))

image-IsRoomy :
    IsRoomy areas board contents_of areas-IsDriver crc32_update-IsCrc areas-IsReliable image
image-IsRoomy = record {
  headed = ground arith;
  small = ground arith;
  in_slot = ground arith;
  ready = λ f. refl;
  in_store = ground arith;
  store_small = ground arith;
  aligned = refl;
  slot = record { room = ground arith; aligned = refl };
  right = image-IsRight;
}

abbrev at_start : Receiver (Areas × Context)
at_start = record {
  got_metadata = false;
  store_active = false;
  eot_seen = false;
  expected_size = 0;
  received_size = 0;
  expected_block = 1;
  store = (erased, empty_context);
  sent = [];
}

image-IsKeeper :
    IsKeeper
      (image_store areas board)
      (held_by areas board contents_of areas-IsDriver crc32_update-IsCrc areas-IsReliable image)
      (IsIdle areas board contents_of areas-IsDriver crc32_update-IsCrc areas-IsReliable image)
      (IsTaking areas board contents_of areas-IsDriver crc32_update-IsCrc areas-IsReliable image)
      (HasStored areas board contents_of areas-IsDriver crc32_update-IsCrc areas-IsReliable image)
      image
image-IsKeeper =
    image_store-IsKeeper areas board contents_of areas-IsDriver crc32_update-IsCrc areas-IsReliable
      image image-IsRoomy

receive-transfer_example :
    Received
      (image_store areas board)
      (held_by areas board contents_of areas-IsDriver crc32_update-IsCrc areas-IsReliable image)
      image
      image-IsKeeper
      read_digit
      (replies_to image)
      (receive (image_store areas board) read_digit at_start (transfer print_digit path image))
unfolding base_name base_from
receive-transfer_example =
    receive-transfer (image_store areas board)
      (held_by areas board contents_of areas-IsDriver crc32_update-IsCrc areas-IsReliable image)
      image image-IsKeeper read_digit print_digit path print_digit-IsPrinted path-HasNoZero
      (ground arith) at_start refl refl refl refl refl (ground arith) (ground arith) refl
