-- ===== src/HeaderTool/Hex.antt =====
-- system/header.c: the Intel HEX file of a component, as the list of its records.
-- How `fprintf` spells a record is not modelled.
use rtbus.Base.{
  ℕ, zero, suc, ◌+◌, ◌-◌, ◌/◌, ◌%◌, Bool, true, false, List, [], ◌∷◌, ◌++◌, Option, none, some,
  ◌==◌, length, take, drop,
}
use rtbus.Base.Word.{u8, u32}

-- IHEX_ROW_SIZE
abbrev pub ihex_row_size : ℕ
ihex_row_size = 16

pub record IhexRecord : Type 0 where
  pub len : ℕ
  pub address : ℕ
  pub kind : ℕ
  pub bytes : List ℕ
  pub checksum : ℕ

abbrev pub sum_from : (sum : ℕ) → List ℕ → ℕ
sum_from sum [] = sum
sum_from sum (byte ∷ bytes) = sum_from (u8 (sum + byte)) bytes

-- `write_ihex_record`
unfoldable pub ihex_record : (kind address : ℕ) → (bytes : List ℕ) → IhexRecord
ihex_record kind address bytes =
    let sum = u8 (length bytes + u8 (address / 256) + u8 address + kind) in
    record {
      len = length bytes;
      address = address;
      kind = kind;
      bytes = bytes;
      checksum = u8 (256 - sum_from sum bytes);
    }

-- The loop of `write_component_ihex` and the record behind it. `upper` is none for UINT32_MAX.
abbrev pub is_current : (upper : ℕ) → Option ℕ → Bool
is_current upper none = false
is_current upper (some current) = upper == current

abbrev pub ext_records : (upper : ℕ) → Bool → List IhexRecord
ext_records upper true = []
ext_records upper false = ihex_record 4 0 (u8 (upper / 256) ∷ u8 upper ∷ []) ∷ []

unfoldable pub ihex_rows :
    (fuel : ℕ) → (address : ℕ) → (current_upper : Option ℕ) → (bytes : List ℕ) → List IhexRecord
ihex_rows zero address current_upper bytes = ihex_record 1 0 [] ∷ []
ihex_rows (suc fuel) address current_upper [] = ihex_record 1 0 [] ∷ []
ihex_rows (suc fuel) address current_upper (byte ∷ bytes) =
    let row = take ihex_row_size (byte ∷ bytes) in
    let upper = address / 65536 in
    ext_records upper (is_current upper current_upper)
    ++ (ihex_record 0 (address % 65536) row
        ∷ ihex_rows fuel (u32 (address + length row)) (some upper)
            (drop ihex_row_size (byte ∷ bytes)))

-- `write_component_ihex` on the bytes of the header and the payload.
unfoldable pub component_ihex : (base_addr : ℕ) → (bytes : List ℕ) → List IhexRecord
component_ihex base_addr bytes = ihex_rows (length bytes) base_addr none bytes
