-- ===== src/Image/Header.antt =====
-- `struct rtbus_image_header` of rtbus_image.c, in the byte order of the targets.
use rtbus.Base.{
  ◌<◌, ◌≡◌, ◌≤◌, arith, ℕ, ◌+◌, ◌*◌, Bool, true, ◌&&◌, not, List, leb, ◌==◌, get_or, take, drop,
}

abbrev pub header_size : ℕ
header_size = 128

-- RTBUS_IMAGE_MAGIC and RTBUS_IMAGE_HEADER_VERSION
abbrev pub image_magic : ℕ
image_magic = 1464222541

abbrev pub header_version : ℕ
header_version = 2

pub record ImageHeader : Type 0 where
  pub magic : ℕ
  pub version_number : ℕ
  pub size : ℕ
  pub payload_size : ℕ
  pub payload_crc32 : ℕ
  pub version : List ℕ
  pub name : List ℕ
  pub required_ram_size : ℕ
  pub flags : ℕ
  pub reserved : List ℕ

-- A little-endian number at an offset.
abbrev pub le16 : List ℕ → (offset : ℕ) → ℕ
le16 bytes offset = get_or bytes offset 0 + get_or bytes (offset + 1) 0 * 256

abbrev pub le32 : List ℕ → (offset : ℕ) → ℕ
le32 bytes offset =
    get_or bytes offset 0
    + get_or bytes (offset + 1) 0 * 256
    + get_or bytes (offset + 2) 0 * 65536
    + get_or bytes (offset + 3) 0 * 16777216

unfoldable pub decode : List ℕ → ImageHeader
decode bytes = record {
  magic = le32 bytes 0;
  version_number = le16 bytes 4;
  size = le16 bytes 6;
  payload_size = le32 bytes 8;
  payload_crc32 = le32 bytes 12;
  version = take 16 (drop 16 bytes);
  name = take 64 (drop 32 bytes);
  required_ram_size = le32 bytes 96;
  flags = le32 bytes 100;
  reserved = take 24 (drop 104 bytes);
}

-- The test of a header against the room for its payload.
unfoldable pub is_valid : ImageHeader → (capacity : ℕ) → Bool
is_valid h capacity =
    (h.magic == image_magic)
    && (h.version_number == header_version)
    && (h.size == header_size)
    && not (h.payload_size == 0)
    && leb h.payload_size capacity

-- A valid header's payload fits.
pub is_valid-fits :
    (h : ImageHeader) (capacity : ℕ) → is_valid h capacity ≡ true → h.payload_size ≤ capacity
unfolding is_valid
is_valid-fits h capacity e = ground (arith, e)

-- There is a payload.
pub is_valid-positive :
    (h : ImageHeader) (capacity : ℕ) → is_valid h capacity ≡ true → 0 < h.payload_size
unfolding is_valid
is_valid-positive h capacity e = ground (arith, e)

-- A header that is valid is valid where there is more room.
pub is_valid_mono : (h : ImageHeader) (a b : ℕ) → a ≤ b → is_valid h a ≡ true → is_valid h b ≡ true
unfolding is_valid
is_valid_mono h a b more e = ground (arith, more, e)
