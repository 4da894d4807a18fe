-- ===== src/Image.antt =====
-- zephyr/modules/rtbus/services/rtbus_image.c: the image in the component slot, and the store that
-- receives a new one.
-- The flash map of Zephyr is a parameter: `Driver` over an unknown state of the flash. An area is
-- its number, and closing it does nothing. `crc32_ieee_update` is a parameter as well. Pointers that
-- the callers never pass as NULL are not modelled as such.
pub mod Header
pub mod Flash
pub mod Store
pub mod Flush
pub mod Session
pub mod Begin
pub mod Crc
pub mod Copy
pub mod Check
pub mod Finish
pub mod Status
pub mod Complete
pub mod Accepted
pub mod Upload
mod Tests
use rtbus.Base.{
  ℕ, zero, suc, ◌+◌, ◌-◌, ◌*◌, ◌%◌, min, Bool, true, false, not, ◌&&◌, ◌||◌, List, [], ◌∷◌, ◌++◌,
  Option, none, some, ltb, leb, ◌==◌, if◌then◌else◌, length, take, drop, replicate,
}
use rtbus.Base.Rc.{
  Rc, ok, err, Errno, einval, ebusy, efbig, enodev, enodata, enotsup, enomem, ebadmsg, eio,
}
use rtbus.Base.Word.{sub32}
use rtbus.Image.Header.{ImageHeader, decode, header_size, is_valid, le32}
use rtbus.Native.{Metadata}

-- The flash areas: `read` gives the bytes that it read.
pub record Driver (F : Type 0) : Type 0 where
  pub open_area : (area : ℕ) → F → Rc
  pub is_ready : (area : ℕ) → F → Bool
  pub fa_size : (area : ℕ) → ℕ
  pub align : (area : ℕ) → ℕ
  pub read : (area offset size : ℕ) → F → Rc × List ℕ
  pub write : (area offset : ℕ) → List ℕ → F → Rc × F
  pub flatten : (area : ℕ) → F → Rc × F

-- RTBUS_IMAGE_SLOT_AREA_ID, RTBUS_IMAGE_DIRECT_STORE_AREA_ID, the size of the slot in the device
-- tree, RTBUS_IMAGE_FLASH_PENDING_MAX, CONFIG_RTBUS_IMAGE_RAM_MAX, and the CRC.
pub record Config : Type 0 where
  pub slot_area : ℕ
  pub store_area : ℕ
  pub slot_size : ℕ
  pub pending_max : ℕ
  pub ram_max : ℕ
  pub crc32_ieee_update : (crc : ℕ) → List ℕ → ℕ

-- `struct rtbus_image_store_context`; `flash_area` is `none` for NULL, and `flash_pending` are its
-- first `flash_pending_len` bytes, since what is behind them is filled before it is used.
pub record Context : Type 0 where
  pub flash_area : Option ℕ
  pub flash_write_offset : ℕ
  pub flash_align : ℕ
  pub flash_pending : List ℕ
  pub expected_size : ℕ
  pub written : ℕ
  pub active : Bool

abbrev pub empty_context : Context
empty_context = record {
  flash_area = none;
  flash_write_offset = 0;
  flash_align = 0;
  flash_pending = [];
  expected_size = 0;
  written = 0;
  active = false;
}

-- ROUND_UP
abbrev pub round_up : (x align : ℕ) → ℕ
round_up x align = if x % align == 0 then x else x + (align - x % align)

module _ {F : Type 0} (driver : Driver F) (config : Config) where
  abbrev pub payload_capacity : (area : ℕ) → ℕ
  payload_capacity area =
      if leb (driver.fa_size area) header_size then 0 else driver.fa_size area - header_size

  -- `rtbus_image_store_read`, with the context's area, which may be NULL.
  abbrev pub read_area : F → (offset size : ℕ) → Option ℕ → Rc × List ℕ
  read_area f offset size none = (err einval, [])
  read_area f offset size (some area) =
      if ltb (driver.fa_size area) offset || ltb (sub32 (driver.fa_size area) offset) size
      then (err einval, [])
      else driver.read area offset size f

  unfoldable pub store_read : F → Context → (offset size : ℕ) → Rc × List ℕ
  store_read f ctx offset size =
      if ltb ctx.written offset || ltb (sub32 ctx.written offset) size
      then (err einval, [])
      else read_area f offset size ctx.flash_area

  abbrev pub no_header : ImageHeader
  no_header = decode []

  unfoldable pub read_header_from_area : F → (area : ℕ) → Rc × ImageHeader
  read_header_from_area f area =
      let (rc, bytes) = driver.read area 0 header_size f in
      elim rc [
        | err c ↦ (err c, no_header)
        | ok ↦
            if not (is_valid (decode bytes) (payload_capacity area))
            then (err enodata, decode bytes)
            else (ok, decode bytes)
      ]

  unfoldable pub read_header_from_store : F → Context → Rc × ImageHeader
  read_header_from_store f ctx =
      let (rc, bytes) = store_read f ctx 0 header_size in
      elim rc [
        | err c ↦ (err enodata, no_header)
        | ok ↦
            if not (is_valid (decode bytes) (sub32 ctx.expected_size header_size))
            then (err enodata, decode bytes)
            else (ok, decode bytes)
      ]

  -- The loop of both CRC functions over a way to read. `fuel` is the rest of the payload at least.
  unfoldable pub crc_from :
      (fuel : ℕ) → (read : (offset size : ℕ) → Rc × List ℕ) → (payload_size offset crc : ℕ) → Rc × ℕ
  crc_from zero read payload_size offset crc = (ok, crc)
  crc_from (suc fuel) read payload_size offset crc =
      let read_len = min 128 (payload_size - offset) in
      let (rc, buf) = read (header_size + offset) read_len in
      let rest =
        crc_from fuel read payload_size (offset + read_len) (config.crc32_ieee_update crc buf) in
      if leb payload_size offset then (ok, crc) else elim rc [ err c ↦ (err c, 0) | ok ↦ rest ]

  unfoldable pub calculate_payload_crc : F → (area payload_size : ℕ) → Rc × ℕ
  calculate_payload_crc f area payload_size =
      crc_from payload_size (λ offset size. driver.read area offset size f) payload_size 0 0

  unfoldable pub calculate_store_payload_crc : F → Context → (payload_size : ℕ) → Rc × ℕ
  calculate_store_payload_crc f ctx payload_size =
      crc_from payload_size (λ offset size. store_read f ctx offset size) payload_size 0 0

  -- `rtbus_image_get_status`: the return code with the header it is made from.
  abbrev pub checked_status : F → Rc × ImageHeader → Rc × ImageHeader
  checked_status f (err c, header) = (err c, header)
  checked_status f (ok, header) =
      let (rc, crc) = calculate_payload_crc f config.slot_area header.payload_size in
      elim rc [
        | err c ↦ (err c, header)
        | ok ↦ if crc == header.payload_crc32 then (ok, header) else (err ebadmsg, header)
      ]

  unfoldable pub get_status : F → Rc × ImageHeader
  get_status f = elim (driver.open_area config.slot_area f) [
    | err c ↦ (err c, no_header)
    | ok ↦ checked_status f (read_header_from_area f config.slot_area)
  ]

  -- `rtbus_image_read_payload`: the bytes that it read, `*read_size` of them.
  abbrev pub payload_of : F → (offset size : ℕ) → Rc × ImageHeader → Rc × List ℕ
  payload_of f offset size (err c, header) = (err c, [])
  payload_of f offset size (ok, header) =
      let len = min size (header.payload_size - offset) in
      let (rc, bytes) = driver.read config.slot_area (header_size + offset) len f in
      if leb header.payload_size offset
      then (ok, [])
      else elim rc [ err c ↦ (err c, []) | ok ↦ (ok, bytes) ]

  unfoldable pub read_payload : F → (offset size : ℕ) → Rc × List ℕ
  read_payload f offset size = elim (driver.open_area config.slot_area f) [
    | err c ↦ (err c, [])
    | ok ↦ payload_of f offset size (read_header_from_area f config.slot_area)
  ]

  -- `rtbus_image_get_native_metadata`, from the reserved bytes of the header.
  abbrev pub native_metadata : List ℕ → Metadata
  native_metadata reserved = record {
    entry_offset = le32 reserved 0;
    data_load_offset = le32 reserved 4;
    data_ram_offset = le32 reserved 8;
    data_size = le32 reserved 12;
    bss_ram_offset = le32 reserved 16;
    bss_size = le32 reserved 20;
  }

  abbrev pub no_metadata : Metadata
  no_metadata = native_metadata []

  -- RTBUS_IMAGE_FLAG_NATIVE is the lowest bit.
  abbrev pub metadata_of : Rc × ImageHeader → Rc × Metadata
  metadata_of (err c, header) = (err c, no_metadata)
  metadata_of (ok, header) =
      if header.flags % 2 == 0
      then (err enotsup, no_metadata)
      else (ok, native_metadata header.reserved)

  unfoldable pub get_native_metadata : F → Rc × Metadata
  get_native_metadata f = elim (driver.open_area config.slot_area f) [
    | err c ↦ (err c, no_metadata)
    | ok ↦ metadata_of (read_header_from_area f config.slot_area)
  ]
