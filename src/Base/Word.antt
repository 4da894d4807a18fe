-- ===== src/Base/Word.antt =====
-- C's unsigned arithmetic on `size_t`, `uint32_t` and `uint8_t` of the 32-bit target.
use Prim.Native.Nat.{ℕ, ◌+◌, ◌-◌, ◌%◌, ◌^◌}

abbrev pub u32 : ℕ → ℕ
u32 a = a % 2 ^ 32

abbrev pub u8 : ℕ → ℕ
u8 a = a % 2 ^ 8

abbrev pub add32 : ℕ → ℕ → ℕ
add32 a b = (a + b) % 2 ^ 32

-- `-` on ℕ stops at 0, so the modulus is added first. It is meant for operands below it.
abbrev pub sub32 : ℕ → ℕ → ℕ
sub32 a b = (a + 2 ^ 32 - b) % 2 ^ 32
