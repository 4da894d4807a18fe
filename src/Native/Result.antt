-- ===== src/Native/Result.antt =====
-- `native_service_complete_result`: the result of a request, in the memory of the native application.
use rtbus.Base.{
  ℕ, ◌+◌, ◌*◌, ◌-◌, ◌%◌, ◌/◌, ◌∙◌, ap, ◌<◌, ◌≤◌, ◌≡◌, ◌≢◌, ◌⊎◌, refl, inl, inr, Bool, true, false,
  not, ◌&&◌, List, [], ◌∷◌, arith, leb, ltb, ◌==◌, if◌then◌else◌, Bool-cases, length, get_or,
}
use rtbus.Base.Rc.{Rc, ok, err, einval}
use rtbus.Base.Word.{add32, sub32}
use rtbus.Native.{Board, Service, copy}

unfoldable pub result_addr_valid : Board → (result_addr : ℕ) → Bool
result_addr_valid board result_addr =
    (result_addr % 4 == 0)
    && leb board.ram_base result_addr
    && leb result_addr (sub32 (add32 board.ram_base board.ram_size) 4)

-- An `int32_t` in memory; `result` is its 32-bit pattern.
abbrev pub int32_bytes : (result : ℕ) → List ℕ
int32_bytes result =
    (result % 256) ∷ (result / 256 % 256) ∷ (result / 65536 % 256) ∷ (result / 16777216 % 256) ∷ []

unfoldable pub complete_result : Board → Service → (result_addr result : ℕ) → Rc × Service
complete_result board s result_addr result =
    if result_addr == 0
    then (ok, s)
    else if not (result_addr_valid board result_addr)
    then (err einval, s)
    else (
      ok,
      record s {
        ram = copy s.ram result_addr (int32_bytes result);
        results = 1;
        wake_process = true;
      },
    )

-- What is read back as an `int32_t` of 32 bits at an address.
abbrev pub int32_at : (ℕ → ℕ) → (addr : ℕ) → ℕ
int32_at ram addr =
    ram addr + ram (addr + 1) * 256 + ram (addr + 2) * 65536 + ram (addr + 3) * 16777216

-- A multiple of 4 with four bytes in the memory of the application.
abbrev pub IsInside : Board → (result_addr : ℕ) → Type 0
IsInside board result_addr =
    (result_addr % 4 ≡ 0)
    × (board.ram_base ≤ result_addr)
    × (result_addr + 4 ≤ board.ram_base + board.ram_size)

-- The outcome for an address that is not 0.
pub data Completed (board : Board) (s : Service) (result_addr result : ℕ)
    : Rc × Service → Type 0 where
  rejected : ¬ (IsInside board result_addr) → Completed board s result_addr result (err einval, s)
  written :
      {s' : Service}
      → IsInside board result_addr
      → int32_at s'.ram result_addr ≡ result
      → ((a : ℕ)
          → (a < board.ram_base) ⊎ (board.ram_base + board.ram_size ≤ a)
          → s'.ram a ≡ s.ram a)
      → ((a : ℕ) → (a < result_addr) ⊎ (result_addr + 4 ≤ a) → s'.ram a ≡ s.ram a)
      → s'.results ≡ 1
      → Completed board s result_addr result (ok, s')

copy_inside :
    (ram : ℕ → ℕ) (at : ℕ) (bytes : List ℕ) (i : ℕ)
    → i < length bytes
    → copy ram at bytes (at + i) ≡ get_or bytes i 0
copy_inside ram at bytes i l =
    let inside : (leb at (at + i) && ltb (at + i) (at + length bytes)) ≡ true = ground arith in
    let same : at + i - at ≡ i = omega arith in rw (inside, same) refl

copy_outside :
    (ram : ℕ → ℕ) (at : ℕ) (bytes : List ℕ) (a : ℕ)
    → (a < at) ⊎ (at + length bytes ≤ a)
    → copy ram at bytes a ≡ ram a
copy_outside ram at bytes a o =
    let outside : (leb at a && ltb a (at + length bytes)) ≡ false = ground arith in rw outside refl

int32_round :
    (n : ℕ)
    → n < 4294967296
    → n % 256 + n / 256 % 256 * 256 + n / 65536 % 256 * 65536 + n / 16777216 % 256 * 16777216 ≡ n
int32_round n l = omega arith

int32_at-copy :
    (ram : ℕ → ℕ) (addr result : ℕ)
    → result < 4294967296
    → int32_at (copy ram addr (int32_bytes result)) addr ≡ result
int32_at-copy ram addr result l =
    let bytes = int32_bytes result in
    let at0 : copy ram addr bytes addr ≡ result % 256 =
      ap (copy ram addr bytes) (omega arith) ∙ copy_inside ram addr bytes 0 (omega arith) in
    rw
      (
        at0,
        copy_inside ram addr bytes 1 (omega arith),
        copy_inside ram addr bytes 2 (omega arith),
        copy_inside ram addr bytes 3 (omega arith),
      )
      (int32_round result l)

module _ (board : Board) (s : Service) (result_addr result : ℕ) where
  valid_inside :
      board.ram_base + board.ram_size < 4294967296
      → 4 ≤ board.ram_size
      → result_addr_valid board result_addr ≡ true
      → (result_addr % 4 ≡ 0)
        × (board.ram_base ≤ result_addr)
        × (result_addr + 4 ≤ board.ram_base + board.ram_size)
  unfolding result_addr_valid
  valid_inside small big h = ground arith

  inside_valid :
      board.ram_base + board.ram_size < 4294967296
      → 4 ≤ board.ram_size
      → IsInside board result_addr
      → result_addr_valid board result_addr ≡ true
  unfolding result_addr_valid
  inside_valid small big h = ground arith

  invalid_inside :
      result_addr_valid board result_addr ≡ true → result_addr_valid board result_addr ≢ false
  invalid_inside y n = cc

  -- A result goes to its address exactly when that is a multiple of 4 with four bytes in the memory of
  -- the application: there it can be read back, no other byte changes, and the semaphore of results is
  -- given. Any other address but 0 is refused, and nothing changes.
  pub complete_result-Completed :
      board.ram_base + board.ram_size < 4294967296
      → 4 ≤ board.ram_size
      → result < 4294967296
      → (result_addr == 0) ≡ false
      → Completed board s result_addr result (complete_result board s result_addr result)
  unfolding complete_result
  complete_result-Completed small big l nz =
      elim (Bool-cases (result_addr_valid board result_addr)) [
        | inl valid ↦
            let (aligned, low, high) = valid_inside small big valid in
            rw (nz, valid)
              (written (aligned, low, high) (int32_at-copy s.ram result_addr result l)
                (λ a o. copy_outside s.ram result_addr (int32_bytes result) a (ground arith))
                (λ a o. copy_outside s.ram result_addr (int32_bytes result) a o) refl)
        | inr invalid ↦
            rw (nz, invalid) (rejected (λ h. invalid_inside (inside_valid small big h) invalid))
      ]
