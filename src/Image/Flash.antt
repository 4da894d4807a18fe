-- ===== src/Image/Flash.antt =====
-- The flash map as the image store relies on it, and the bytes in a range of an area.
use mathlib.Core.Path.{subst}
use mathlib.Core.List.{append_assoc}
use rtbus.Base.{
  ℕ, zero, suc, ◌+◌, ◌-◌, ◌≤◌, ◌<◌, ◌≡◌, refl, sym, ap, true, false, ◌&&◌, List, [], ◌∷◌, ◌++◌,
  arith, ltb, leb, ◌==◌, ==_self, if◌then◌else◌, length, take, drop, get_or, length-append,
  take-append, ◌∙◌,
}
use rtbus.Base.Rc.{ok}
use rtbus.Image.{Driver}

-- The bytes of an area from an offset on.
abbrev pub slice : (ℕ → ℕ) → (offset size : ℕ) → List ℕ
slice g offset zero = []
slice g offset (suc n) = g offset ∷ slice g (offset + 1) n

-- What the flash map promises: `bytes` are the contents of the areas, which a read that succeeds
-- gives, and a write that succeeds changes in its range and nowhere else.
pub record IsDriver {F : Type 0} (driver : Driver F) (bytes : F → ℕ → ℕ → ℕ) : Type 0 where
  pub read_ok :
      (area offset size : ℕ) (f : F)
      → (driver.read area offset size f).0 ≡ ok
      → (driver.read area offset size f).1 ≡ slice (bytes f area) offset size
  pub write_ok :
      (area offset : ℕ) (xs : List ℕ) (f : F)
      → (driver.write area offset xs f).0 ≡ ok
      → (b i : ℕ)
      → bytes (driver.write area offset xs f).1 b i ≡ (
          if (b == area) && leb offset i && ltb i (offset + length xs)
          then get_or xs (i - offset) 0
          else bytes f b i)
  pub flatten_ok :
      (area : ℕ) (f : F)
      → (driver.flatten area f).0 ≡ ok
      → (b i : ℕ) → (b == area) ≡ false
      → bytes (driver.flatten area f).1 b i ≡ bytes f b i

pub length-slice : (g : ℕ → ℕ) (offset n : ℕ) → length (slice g offset n) ≡ n
length-slice g offset zero = refl
length-slice g offset (suc n) = ap suc (length-slice g (offset + 1) n)

-- Slices depend on nothing but the bytes in their range.
pub slice-same :
    (g h : ℕ → ℕ) (offset n : ℕ)
    → ((i : ℕ) → offset ≤ i → i < offset + n → h i ≡ g i)
    → slice h offset n ≡ slice g offset n
slice-same g h offset zero same = refl
slice-same g h offset (suc n) same = rw (same offset (omega arith) (omega arith)) (
    ap (λ xs. g offset ∷ xs)
      (slice-same g h (offset + 1) n λ i l u. same i (omega arith) (omega arith)))

pub slice-append :
    (g : ℕ → ℕ) (offset m n : ℕ)
    → slice g offset (m + n) ≡ slice g offset m ++ slice g (offset + m) n
slice-append g offset zero n =
    let none_yet : offset + 0 ≡ offset = omega arith in
    let all : 0 + n ≡ n = omega arith in rw (none_yet, all)
slice-append g offset (suc m) n =
    let next : offset + suc m ≡ offset + 1 + m = omega arith in
    let more : suc m + n ≡ suc (m + n) = omega arith in
    rw (more, next) (ap (λ xs. g offset ∷ xs) (slice-append g (offset + 1) m n))

-- A range that holds the bytes of a list.
pub slice-get_or :
    (g : ℕ → ℕ) (offset : ℕ) (xs : List ℕ)
    → ((i : ℕ) → i < length xs → g (offset + i) ≡ get_or xs i 0)
    → slice g offset (length xs) ≡ xs
slice-get_or g offset [] h = refl
slice-get_or g offset (x ∷ xs) h =
    let here : g offset ≡ x = subst (λ (z : ℕ). g z ≡ x) (omega arith) (h 0 (omega arith)) in
    rw here (
      ap (λ ys. x ∷ ys)
        (slice-get_or g (offset + 1) xs
          λ i l. subst (λ (z : ℕ). g z ≡ get_or xs i 0) (omega arith) (h (suc i) (omega arith))))

pub take-slice : (g : ℕ → ℕ) (offset m n : ℕ) → m ≤ n → take m (slice g offset n) ≡ slice g offset m
take-slice g offset zero n h = refl
take-slice g offset (suc m) zero h = absurd (omega (arith, h))
take-slice g offset (suc m) (suc n) h =
    ap (λ xs. g offset ∷ xs) (take-slice g (offset + 1) m n (omega (arith, h)))

pub drop-slice :
    (g : ℕ → ℕ) (offset m n : ℕ) → drop m (slice g offset n) ≡ slice g (offset + m) (n - m)
drop-slice g offset zero n =
    let none_yet : offset + 0 ≡ offset = omega arith in
    let all : n - 0 ≡ n = omega arith in rw (none_yet, all)
drop-slice g offset (suc m) zero = let nothing : 0 - suc m ≡ 0 = omega arith in rw nothing
drop-slice g offset (suc m) (suc n) =
    let next : offset + suc m ≡ offset + 1 + m = omega arith in
    let less : suc n - suc m ≡ n - m = omega arith in
    rw (next, less) (drop-slice g (offset + 1) m n)

module _ {F : Type 0} (driver : Driver F) (bytes : F → ℕ → ℕ → ℕ) (laws : IsDriver driver bytes)
    (area : ℕ) where
  -- A write extends the bytes before its offset.
  pub slice-written :
      (f : F) (offset : ℕ) (xs : List ℕ)
      → (driver.write area offset xs f).0 ≡ ok
      → slice (bytes (driver.write area offset xs f).1 area) 0 (offset + length xs)
        ≡ slice (bytes f area) 0 offset ++ xs
  slice-written f offset xs done =
      let g = bytes (driver.write area offset xs f).1 area in
      let new = laws.write_ok area offset xs f done area in
      slice-append g 0 offset (length xs)
      ∙ ap (λ ys. ys ++ slice g (0 + offset) (length xs))
          (slice-same (bytes f area) g 0 offset λ i l u. new i ∙ before i u)
      ∙ ap (λ ys. slice (bytes f area) 0 offset ++ ys)
          (slice-get_or g (0 + offset) xs λ i l. new (0 + offset + i) ∙ inside i l)
    where
      before :
          (i : ℕ)
          → i < 0 + offset
          → (if (area == area) && leb offset i && ltb i (offset + length xs)
              then get_or xs (i - offset) 0
              else bytes f area i)
            ≡ bytes f area i
      before i u = let low : leb offset i ≡ false = ground arith in rw (==_self area, low)

      inside :
          (i : ℕ)
          → i < length xs
          → (if (area == area)
                && leb offset (0 + offset + i)
                && ltb (0 + offset + i) (offset + length xs)
              then get_or xs (0 + offset + i - offset) 0
              else bytes f area (0 + offset + i))
            ≡ get_or xs i 0
      inside i l =
          let low : leb offset (0 + offset + i) ≡ true = ground arith in
          let high : ltb (0 + offset + i) (offset + length xs) ≡ true = ground arith in
          let at : 0 + offset + i - offset ≡ i = omega arith in rw (==_self area, low, high, at)

  -- A write that fills its last block up extends the bytes before its offset by those before the fill.
  pub slice-padded :
      (f : F) (offset : ℕ) (xs padding : List ℕ)
      → (driver.write area offset (xs ++ padding) f).0 ≡ ok
      → slice (bytes (driver.write area offset (xs ++ padding) f).1 area) 0 (offset + length xs)
        ≡ slice (bytes f area) 0 offset ++ xs
  slice-padded f offset xs padding done =
      let g = bytes (driver.write area offset (xs ++ padding) f).1 area in
      let old = slice (bytes f area) 0 offset in
      let size : length (old ++ xs) ≡ offset + length xs =
        omega (arith, length-append old xs, length-slice (bytes f area) 0 offset) in
      sym (
        take-slice g 0 (offset + length xs) (offset + length (xs ++ padding))
          (omega (arith, length-append xs padding)))
      ∙ ap (λ zs. take (offset + length xs) zs)
          (slice-written f offset (xs ++ padding) done ∙ sym (append_assoc old xs padding))
      ∙ ap (λ (z : ℕ). take z ((old ++ xs) ++ padding)) (sym size)
      ∙ take-append (old ++ xs) padding

  -- A write leaves the other areas as they are.
  pub slice-other :
      (f : F) (b offset at size : ℕ) (xs : List ℕ)
      → (b == area) ≡ false
      → (driver.write area at xs f).0 ≡ ok
      → slice (bytes (driver.write area at xs f).1 b) offset size ≡ slice (bytes f b) offset size
  slice-other f b offset at size xs other done =
      slice-same (bytes f b) (bytes (driver.write area at xs f).1 b) offset size λ i l u.
        laws.write_ok area at xs f done b i
        ∙ ap
            (λ t.
              if t && leb at i && ltb i (at + length xs) then get_or xs (i - at) 0 else bytes f b i)
            other
