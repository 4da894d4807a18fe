-- ===== src/HeaderTool.antt =====
-- system/header.c: the host tool that puts the header in front of an application.
-- The header is the bytes that `build_header` puts, in the order of their offsets, which leave no gap.
-- Files, arguments and the reading of the map file are not modelled.
pub mod Crc
pub mod Built
pub mod Component
pub mod Hex
pub mod HexRead
mod Tests
use Prim.Native.Nat.{bit_xor}
use rtbus.Base.{
  ℕ, zero, suc, ◌+◌, ◌-◌, ◌*◌, ◌/◌, ◌%◌, ◌^◌, min, Bool, true, false, ◌||◌, List, [], ◌∷◌, ◌++◌,
  Option, none, some, ltb, leb, ◌==◌, if◌then◌else◌, length, take, replicate,
}
use rtbus.Base.Word.{u8, sub32}

-- `struct application_symbols`
pub record Symbols : Type 0 where
  pub slot_start : ℕ
  pub flash_start : ℕ
  pub entry : ℕ
  pub data_load : ℕ
  pub data_start : ℕ
  pub data_end : ℕ
  pub bss_start : ℕ
  pub bss_end : ℕ
  pub ram_start : ℕ
  pub ram_end : ℕ

abbrev pub put_le16 : (value : ℕ) → List ℕ
put_le16 value = u8 value ∷ u8 (value / 256) ∷ []

abbrev pub put_le32 : (value : ℕ) → List ℕ
put_le32 value = u8 value ∷ u8 (value / 256) ∷ u8 (value / 65536) ∷ u8 (value / 16777216) ∷ []

-- A string that is too long is cut, and one that is short filled with zeros.
unfoldable pub put_fixed_string : (size : ℕ) → (value : List ℕ) → List ℕ
put_fixed_string size value =
    let len = if leb size (length value) then size - 1 else length value in
    take len value ++ replicate (size - len) 0

-- `~` on 32 bits.
abbrev pub not32 : ℕ → ℕ
not32 x = 4294967295 - x

-- The inner loop of `crc32_update`: a shift for each of `k` bits.
unfoldable pub crc32_shift : ℕ → (crc : ℕ) → ℕ
crc32_shift zero crc = crc
crc32_shift (suc k) crc =
    crc32_shift k (bit_xor (crc / 2) (if crc % 2 == 1 then 3988292384 else 0) % 4294967296)

unfoldable pub crc32_from : (crc : ℕ) → List ℕ → ℕ
crc32_from crc [] = crc
crc32_from crc (x ∷ bytes) = crc32_from (crc32_shift 8 (bit_xor crc x % 4294967296)) bytes

unfoldable pub crc32_update : (crc : ℕ) → List ℕ → ℕ
crc32_update crc bytes = not32 (crc32_from (not32 crc) bytes)

-- The size of the RAM, or the error.
unfoldable pub validate_symbols : Symbols → Option ℕ
validate_symbols s =
    if (s.slot_start == 0)
      || (s.flash_start == 0)
      || (s.entry == 0)
      || (s.data_load == 0)
      || (s.data_start == 0)
      || (s.data_end == 0)
      || (s.bss_start == 0)
      || (s.bss_end == 0)
      || (s.ram_start == 0)
      || (s.ram_end == 0)
    then none
    else if leb s.ram_end s.ram_start
    then none
    else if ltb s.data_start s.ram_start
        || ltb s.ram_end s.data_end
        || ltb s.bss_start s.ram_start
        || ltb s.ram_end s.bss_end
    then none
    else some (s.ram_end - s.ram_start)

-- RTBUS_IMAGE_FLAGS_MAKE_NATIVE_ABI: the version in the highest byte, and the lowest bit.
abbrev pub native_flags : (version : ℕ) → ℕ
native_flags version = u8 version * 16777216 + 1

-- The reserved bytes: where the parts of the application are.
abbrev pub reserved_bytes : Symbols → List ℕ
reserved_bytes s =
    put_le32 (sub32 s.entry s.flash_start)
    ++ (put_le32 (sub32 s.data_load s.flash_start)
        ++ (put_le32 (sub32 s.data_start s.ram_start)
            ++ (put_le32 (sub32 s.data_end s.data_start)
                ++ (put_le32 (sub32 s.bss_start s.ram_start)
                    ++ put_le32 (sub32 s.bss_end s.bss_start)))))

-- The words before the strings, and those behind them.
abbrev pub first_words : (payload_size payload_crc : ℕ) → List ℕ
first_words payload_size payload_crc =
    put_le32 1464222541
    ++ (put_le16 2 ++ (put_le16 128 ++ (put_le32 payload_size ++ put_le32 payload_crc)))

abbrev pub last_words : (api_version : ℕ) → Symbols → (ram_size : ℕ) → List ℕ
last_words api_version s ram_size =
    put_le32 ram_size ++ (put_le32 (native_flags api_version) ++ reserved_bytes s)

-- `build_header`; `api_version` is RTBUS_API_VERSION.
unfoldable pub build_header :
    (api_version : ℕ)
    → Symbols
    → (name version : List ℕ) → (ram_size payload_size payload_crc : ℕ) → List ℕ
build_header api_version s name version ram_size payload_size payload_crc =
    first_words payload_size payload_crc
    ++ (put_fixed_string 16 version
        ++ (put_fixed_string 64 name ++ last_words api_version s ram_size))

-- What `main` writes with `write_component_file`: the header, and the payload behind it.
unfoldable pub component_file :
    (api_version : ℕ)
    → Symbols
    → (name version : List ℕ) → (ram_size : ℕ) → (payload : List ℕ) → List ℕ
component_file api_version s name version ram_size payload =
    build_header api_version s name version ram_size (length payload % 2 ^ 32)
      (crc32_update 0 payload)
    ++ payload

-- What `main` writes with `write_component_file` for the symbols of the map file, if they are valid.
unfoldable pub make_component :
    (api_version : ℕ) → Symbols → (name version : List ℕ) → (payload : List ℕ) → Option (List ℕ)
make_component api_version s name version payload = elim (validate_symbols s) [
  | none ↦ none
  | some ram_size ↦ some (component_file api_version s name version ram_size payload)
]
