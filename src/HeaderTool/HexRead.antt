-- ===== src/HeaderTool/HexRead.antt =====
-- A reader of Intel HEX files gets back what `write_component_ihex` wrote.
use rtbus.Base.{
  ℕ, zero, suc, ◌+◌, ◌-◌, ◌*◌, ◌/◌, ◌%◌, ◌≤◌, ◌<◌, ◌≡◌, ◌∙◌, refl, sym, ap, Bool, true, false, not,
  ◌&&◌, List, [], ◌∷◌, ◌++◌, Option, none, some, arith, ◌==◌, ==_self, ==_iff, if◌then◌else◌,
  length, take, drop, length-take, length-drop, take-append-drop,
}
use rtbus.Base.Word.{u8, u32}
use rtbus.HeaderTool.Hex.{
  IhexRecord, ihex_row_size, sum_from, ihex_record, is_current, ext_records, ihex_rows,
  component_ihex,
}

-- A reader of Intel HEX: the bytes with their addresses, or `none` if a checksum is wrong, a record is
-- unknown, or there is no end.
abbrev pub total : List ℕ → ℕ
total [] = 0
total (byte ∷ bytes) = byte + total bytes

abbrev pub is_sound : IhexRecord → Bool
is_sound r =
    (r.len == length r.bytes)
    && ((r.len + r.address / 256 + r.address % 256 + r.kind + total r.bytes + r.checksum) % 256
        == 0)

abbrev pub numbered : (address : ℕ) → List ℕ → List (ℕ × ℕ)
numbered address [] = []
numbered address (byte ∷ bytes) = (address, byte) ∷ numbered (address + 1) bytes

abbrev pub prefix : List (ℕ × ℕ) → Option (List (ℕ × ℕ)) → Option (List (ℕ × ℕ))
prefix xs none = none
prefix xs (some ys) = some (xs ++ ys)

abbrev pub word_of : List ℕ → ℕ
word_of [] = 0
word_of (high ∷ []) = 0
word_of (high ∷ low ∷ rest) = high * 256 + low

unfoldable pub read_ihex : (upper : ℕ) → List IhexRecord → Option (List (ℕ × ℕ))
read_ihex upper [] = none
read_ihex upper (r ∷ rs) =
    let linear = read_ihex (word_of r.bytes) rs in
    let placed = prefix (numbered (upper * 65536 + r.address) r.bytes) (read_ihex upper rs) in
    if not (is_sound r)
    then none
    else if r.kind == 1
    then some []
    else if r.kind == 4
    then linear
    else if r.kind == 0
    then placed
    else none

sum_from-total : (sum : ℕ) (bytes : List ℕ) → sum_from sum bytes % 256 ≡ (sum + total bytes) % 256
sum_from-total sum [] = omega arith
sum_from-total sum (byte ∷ bytes) = omega (arith, sum_from-total (u8 (sum + byte)) bytes)

sum_from-lt : (sum : ℕ) (bytes : List ℕ) → sum < 256 → sum_from sum bytes < 256
sum_from-lt sum [] l = l
sum_from-lt sum (byte ∷ bytes) l = sum_from-lt (u8 (sum + byte)) bytes (omega arith)

-- A checksum makes the sum of a record 0.
checked_sum :
    (n h l k t f : ℕ)
    → h < 256
    → l < 256
    → f < 256
    → f % 256 ≡ ((n + h + l + k) % 256 + t) % 256
    → (n + h + l + k + t + (256 - f) % 256) % 256 ≡ 0
checked_sum n h l k t f a b c e = omega (arith, a, b, c, e)

-- Every record is written with the right checksum.
ihex_record-is_sound :
    (kind address : ℕ) (bytes : List ℕ)
    → address < 65536
    → is_sound (ihex_record kind address bytes) ≡ true
unfolding ihex_record
ihex_record-is_sound kind address bytes l =
    let high : address / 256 % 256 ≡ address / 256 = omega (arith, l) in
    let sum = (length bytes + address / 256 + address % 256 + kind) % 256 in
    let zero_sum =
      checked_sum (length bytes) (address / 256) (address % 256) kind (total bytes)
        (sum_from sum bytes) (omega (arith, l)) (omega arith) (sum_from-lt sum bytes (omega arith))
        (sum_from-total sum bytes) in
    rw (high, zero_sum, ==_self (length bytes)) refl

module _ (kind address : ℕ) (bytes : List ℕ) where
  kind_of : (ihex_record kind address bytes).kind ≡ kind
  unfolding ihex_record
  kind_of = refl

  address_of : (ihex_record kind address bytes).address ≡ address
  unfolding ihex_record
  address_of = refl

  bytes_of : (ihex_record kind address bytes).bytes ≡ bytes
  unfolding ihex_record
  bytes_of = refl

numbered-append :
    (address : ℕ) (xs ys : List ℕ)
    → numbered address (xs ++ ys) ≡ numbered address xs ++ numbered (address + length xs) ys
numbered-append address [] ys = ap (λ a. numbered a ys) (omega arith)
numbered-append address (x ∷ xs) ys =
    ap (λ z. (address, x) ∷ z)
      (numbered-append (address + 1) xs ys
        ∙ ap (λ a. numbered (address + 1) xs ++ numbered a ys) (omega arith))

read_data :
    (upper address : ℕ) (row : List ℕ) (rs : List IhexRecord)
    → address < 65536
    → read_ihex upper (ihex_record 0 address row ∷ rs)
      ≡ prefix (numbered (upper * 65536 + address) row) (read_ihex upper rs)
unfolding read_ihex
read_data upper address row rs l =
    rw
      (
        read_ihex,
        ihex_record-is_sound 0 address row l,
        kind_of 0 address row,
        address_of 0 address row,
        bytes_of 0 address row,
      )
      refl

read_end : (upper : ℕ) → read_ihex upper (ihex_record 1 0 [] ∷ []) ≡ some []
unfolding read_ihex ihex_record
read_end upper = refl

read_upper :
    (upper new : ℕ) (rs : List IhexRecord)
    → new < 65536
    → read_ihex upper (ext_records new false ++ rs) ≡ read_ihex new rs
unfolding read_ihex
read_upper upper new rs l =
    let same : new / 256 % 256 * 256 + new % 256 ≡ new = omega (arith, l) in
    let row = u8 (new / 256) ∷ u8 new ∷ [] in
    rw (read_ihex, ihex_record-is_sound 4 0 row (omega arith), kind_of 4 0 row, bytes_of 4 0 row)
      (ap (λ u. read_ihex u rs) same)

next_row :
    (address : ℕ) (all : List ℕ)
    → address + length all < 4294967296
    → u32 (address + length (take ihex_row_size all)) ≡ address + length (take ihex_row_size all)
next_row address all m = omega (arith, m, length-take ihex_row_size all)

-- The part of the file from a row on is read back, whatever the reader's upper half was, as long as
-- the writer's is none or the same.
read_rows :
    (fuel address : ℕ) (current : Option ℕ) (upper : ℕ) (bytes : List ℕ)
    → length bytes ≤ fuel
    → address + length bytes < 4294967296
    → (is_current (address / 65536) current ≡ true → upper ≡ address / 65536)
    → read_ihex upper (ihex_rows fuel address current bytes) ≡ some (numbered address bytes)
unfolding ihex_rows
read_rows zero address current upper [] l m h = read_end upper
read_rows zero address current upper (byte ∷ bytes) l m h = absurd (omega (arith, l))
read_rows (suc fuel) address current upper [] l m h = read_end upper
read_rows (suc fuel) address current upper (byte ∷ bytes) l m h =
    led (is_current (address / 65536) current) h
    ∙ read_row (
        read_rows fuel next (some (address / 65536)) (address / 65536) (drop ihex_row_size all)
          (omega (arith, l, length-drop ihex_row_size all))
          (omega (
            arith,
            m,
            next_row address all m,
            length-drop ihex_row_size all,
            length-take ihex_row_size all,
          ))
          (λ e. sym ((==_iff (next / 65536) (address / 65536)).0 e)))
  where
    all : List ℕ
    all = byte ∷ bytes

    row : List ℕ
    row = take ihex_row_size all

    next : ℕ
    next = u32 (address + length row)

    rs : List IhexRecord
    rs = ihex_rows fuel next (some (address / 65536)) (drop ihex_row_size all)

    led :
        (same : Bool)
        → (same ≡ true → upper ≡ address / 65536)
        → read_ihex upper
            (ext_records (address / 65536) same ++ (ihex_record 0 (address % 65536) row ∷ rs))
          ≡ read_ihex (address / 65536) (ihex_record 0 (address % 65536) row ∷ rs)
    led true h = ap (λ u. read_ihex u (ihex_record 0 (address % 65536) row ∷ rs)) (h refl)
    led false h =
        read_upper upper (address / 65536) (ihex_record 0 (address % 65536) row ∷ rs)
          (omega (arith, m))

    read_row :
        read_ihex (address / 65536) rs ≡ some (numbered next (drop ihex_row_size all))
        → read_ihex (address / 65536) (ihex_record 0 (address % 65536) row ∷ rs)
          ≡ some (numbered address all)
    read_row ih =
        let here : address / 65536 * 65536 + address % 65536 ≡ address = omega arith in
        read_data (address / 65536) (address % 65536) row rs (omega arith)
        ∙ ap (λ a. prefix (numbered a row) (read_ihex (address / 65536) rs)) here
        ∙ ap (prefix (numbered address row)) ih
        ∙ ap (λ a. some (numbered address row ++ numbered a (drop ihex_row_size all)))
            (next_row address all m)
        ∙ ap some (
            sym (numbered-append address row (drop ihex_row_size all))
            ∙ ap (numbered address) (take-append-drop ihex_row_size all))

-- The file of a component is read back: every checksum is right, and each byte of the header and the
-- payload is at its address from the base on, also behind a boundary of 64 KB, if the last address
-- fits in 32 bits.
pub read_ihex-component_ihex :
    (base_addr : ℕ) (bytes : List ℕ)
    → base_addr + length bytes < 4294967296
    → read_ihex 0 (component_ihex base_addr bytes) ≡ some (numbered base_addr bytes)
unfolding component_ihex
read_ihex-component_ihex base_addr bytes m =
    read_rows (length bytes) base_addr none 0 bytes (omega arith) m (λ e. absurd (none_current e))
  where
    none_current : false ≡ true → ⊥
    none_current e = cc
