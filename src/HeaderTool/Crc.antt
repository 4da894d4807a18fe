-- ===== src/HeaderTool/Crc.antt =====
-- The CRC-32 of the tool is a CRC as the image store asks for one.
use Prim.Native.Nat.{bit_xor}
use rtbus.Base.{
  ℕ, zero, suc, ◌/◌, ◌%◌, ◌<◌, ◌≡◌, refl, sym, ap, List, [], ◌∷◌, ◌++◌, arith, ◌==◌, if◌then◌else◌,
  ◌∙◌,
}
use rtbus.HeaderTool.{crc32_shift, crc32_from, crc32_update, not32}
use rtbus.Image.Crc.{IsCrc}

crc32_from-append :
    (crc : ℕ) (xs ys : List ℕ) → crc32_from crc (xs ++ ys) ≡ crc32_from (crc32_from crc xs) ys
unfolding crc32_from
crc32_from-append crc [] ys = refl
crc32_from-append crc (x ∷ xs) ys =
    crc32_from-append (crc32_shift 8 (bit_xor crc x % 4294967296)) xs ys

crc32_shift_small : (k crc : ℕ) → crc < 4294967296 → crc32_shift k crc < 4294967296
unfolding crc32_shift
crc32_shift_small zero crc h = h
crc32_shift_small (suc k) crc h =
    crc32_shift_small k (bit_xor (crc / 2) (if crc % 2 == 1 then 3988292384 else 0) % 4294967296)
      (omega arith)

crc32_from_small : (crc : ℕ) (bytes : List ℕ) → crc < 4294967296 → crc32_from crc bytes < 4294967296
unfolding crc32_from
crc32_from_small crc [] h = h
crc32_from_small crc (x ∷ bytes) h =
    crc32_from_small (crc32_shift 8 (bit_xor crc x % 4294967296)) bytes
      (crc32_shift_small 8 (bit_xor crc x % 4294967296) (omega arith))

-- The CRC of the tool can be added up in parts, as the image store does on the device.
pub crc32_update-IsCrc : IsCrc crc32_update
unfolding crc32_update crc32_from
crc32_update-IsCrc = record {
  nothing = λ crc small. omega (arith, small);
  small = λ crc xs. omega arith;
  append = λ crc xs ys.
      let z = crc32_from (not32 crc) xs in
      let back : not32 (not32 z) ≡ z =
        omega (arith, crc32_from_small (not32 crc) xs (omega arith)) in
      ap not32 (ap (λ (c : ℕ). crc32_from c ys) back ∙ sym (crc32_from-append (not32 crc) xs ys));
}
