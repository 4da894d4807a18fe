-- ===== src/Image/Complete.antt =====
-- `rtbus_image_store_finish` on an image that is right, where no operation of the flash fails.
use mathlib.Core.Path.{subst}
use rtbus.Base.{
  ℕ, zero, suc, ◌+◌, ◌-◌, ◌^◌, ◌≤◌, ◌<◌, ◌≡◌, refl, sym, ap, Bool, true, false, not, ◌||◌, List, [],
  ◌++◌, some, arith, ltb, leb, ◌==◌, if◌then◌else◌, length, min, replicate,
}
use rtbus.Base.Rc.{Rc, ok, err, einval, efbig}
use rtbus.Base.Word.{sub32}
use rtbus.Image.{Driver, Config, Context, round_up, store_read, read_area}
use rtbus.Image.Store.{copy_from, commit_from, commit_area, commit_store_to_slot}
use rtbus.Image.Flash.{slice, IsDriver}
use rtbus.Image.Check.{IsWhole}

-- No operation of the flash fails.
pub record IsReliable {F : Type 0} (driver : Driver F) : Type 0 where
  pub opens : (area : ℕ) (f : F) → driver.open_area area f ≡ ok
  pub reads : (area offset size : ℕ) (f : F) → (driver.read area offset size f).0 ≡ ok
  pub writes : (area offset : ℕ) (xs : List ℕ) (f : F) → (driver.write area offset xs f).0 ≡ ok
  pub flattens : (area : ℕ) (f : F) → (driver.flatten area f).0 ≡ ok

module _ {F : Type 0} (driver : Driver F) (config : Config) (bytes : F → ℕ → ℕ → ℕ)
    (laws : IsDriver driver bytes) (reliable : IsReliable driver) where
  abbrev pub IsOk : Rc × F → Type 0
  IsOk o = o.0 ≡ ok

  copy_from_ok :
      (fuel : ℕ) (f : F) (from to n align offset : ℕ)
      → (copy_from driver config fuel f from to n align offset).0 ≡ ok
  unfolding copy_from
  copy_from_ok zero f from to n align offset = refl
  copy_from_ok (suc fuel) f from to n align offset =
      round (leb n offset) (driver.read from offset (min 128 (n - offset)) f)
        (reliable.reads from offset (min 128 (n - offset)) f) (λ ys. reliable.writes to offset ys f)
        λ f'. copy_from_ok fuel f' from to n align (offset + min 128 (n - offset))
    where
      size : ℕ
      size = min 128 (n - offset)

      wrote :
          (w : Rc × F)
          → w.0 ≡ ok
          → ((f' : F) → (copy_from driver config fuel f' from to n align (offset + size)).0 ≡ ok)
          → IsOk (elim w.0 [
            | err c ↦ (err c, w.1)
            | ok ↦ copy_from driver config fuel w.1 from to n align (offset + size)
          ])
      wrote (err c, f') good rest = absurd (ground (arith, good))
      wrote (ok, f') good rest = rest f'

      round :
          (done : Bool) (o : Rc × List ℕ)
          → o.0 ≡ ok
          → ((ys : List ℕ) → (driver.write to offset ys f).0 ≡ ok)
          → ((f' : F) → (copy_from driver config fuel f' from to n align (offset + size)).0 ≡ ok)
          → IsOk (
              let w =
                driver.write to offset (o.1 ++ replicate (round_up size align - size) 255) f in
              if done then (ok, f) else elim o.0 [
                | err c ↦ (err c, f)
                | ok ↦ elim w.0 [
                  | err c ↦ (err c, w.1)
                  | ok ↦ copy_from driver config fuel w.1 from to n align (offset + size)
                ]
              ])
      round true o good writes rest = refl
      round false (err c, ys) good writes rest = absurd (ground (arith, good))
      round false (ok, ys) good writes rest =
          wrote (driver.write to offset (ys ++ replicate (round_up size align - size) 255) f)
            (writes (ys ++ replicate (round_up size align - size) 255)) rest

  -- The slot can take the image.
  pub record IsSlotFor (size : ℕ) : Type 0 where
    pub room : size ≤ driver.fa_size config.slot_area
    pub aligned :
        ((driver.align config.slot_area == 0) || ltb 128 (driver.align config.slot_area)) ≡ false

  pub commit_store_to_slot_ok :
      (f : F) (ctx : Context)
      → ctx.flash_area ≡ some config.store_area
      → ctx.written ≡ ctx.expected_size
      → IsSlotFor ctx.expected_size
      → (commit_store_to_slot driver config f ctx).0 ≡ ok
  unfolding commit_store_to_slot commit_from
  commit_store_to_slot_ok f ctx at done v =
      subst (λ o. (commit_area driver config f ctx o).0 ≡ ok) (sym at)
        (checked (ctx.written == ctx.expected_size) (config.store_area == slot)
          (driver.open_area slot f) (ltb (driver.fa_size slot) ctx.expected_size)
          ((driver.align slot == 0) || ltb 128 (driver.align slot)) (driver.flatten slot f)
          (ground (arith, done)) (reliable.opens slot f) (ground (arith, v.room)) v.aligned
          (reliable.flattens slot f))
    where
      slot : ℕ
      slot = config.slot_area

      checked :
          (complete one_area : Bool) (opened : Rc) (big bad : Bool) (o : Rc × F)
          → complete ≡ true
          → opened ≡ ok
          → big ≡ false
          → bad ≡ false
          → o.0 ≡ ok
          → IsOk (
              if not complete then (err einval, f) else if one_area then (ok, f) else elim opened [
                | err c ↦ (err c, f)
                | ok ↦ if big then (err efbig, f) else if bad then (err einval, f) else elim o.0 [
                  | err c ↦ (err c, o.1)
                  | ok ↦
                      copy_from driver config ctx.expected_size o.1 config.store_area slot
                        ctx.expected_size
                        (driver.align slot)
                        0
                ]
              ])
      checked false a b c d o h1 h2 h3 h4 h5 = absurd (ground (arith, h1))
      checked true true b c d o h1 h2 h3 h4 h5 = refl
      checked true false (err e) c d o h1 h2 h3 h4 h5 = absurd (ground (arith, h2))
      checked true false ok true d o h1 h2 h3 h4 h5 = absurd (ground (arith, h3))
      checked true false ok false true o h1 h2 h3 h4 h5 = absurd (ground (arith, h4))
      checked true false ok false false (err e, f') h1 h2 h3 h4 h5 = absurd (ground (arith, h5))
      checked true false ok false false (ok, f') h1 h2 h3 h4 h5 =
          copy_from_ok ctx.expected_size f' config.store_area slot ctx.expected_size
            (driver.align slot) 0

  -- A read inside what was received gives it.
  pub store_read_ok :
      (f : F) (ctx : Context) (c : List ℕ) (offset size : ℕ)
      → IsWhole driver config bytes laws f ctx c
      → ctx.written ≡ length c
      → length c ≤ driver.fa_size config.store_area
      → driver.fa_size config.store_area < 2 ^ 32
      → offset + size ≤ length c
      → store_read driver config f ctx offset size
        ≡ (ok, slice (bytes f config.store_area) offset size)
  unfolding store_read
  store_read_ok f ctx c offset size w done fits small inside =
      subst
        (λ o. IsRead (
          if ltb ctx.written offset || ltb (sub32 ctx.written offset) size
          then (err einval, [])
          else read_area driver config f offset size o))
        (sym w.flash_area)
        (checked (ltb ctx.written offset || ltb (sub32 ctx.written offset) size)
          (ltb (driver.fa_size config.store_area) offset
            || ltb (sub32 (driver.fa_size config.store_area) offset) size)
          (driver.read config.store_area offset size f) (ground (arith, done, inside, fits, small))
          (ground (arith, inside, fits, small)) (reliable.reads config.store_area offset size f)
          (laws.read_ok config.store_area offset size f))
    where
      IsRead : Rc × List ℕ → Type 0
      IsRead o = o ≡ (ok, slice (bytes f config.store_area) offset size)

      checked :
          (a b : Bool) (o : Rc × List ℕ)
          → a ≡ false
          → b ≡ false
          → o.0 ≡ ok
          → (o.0 ≡ ok → o.1 ≡ slice (bytes f config.store_area) offset size)
          → IsRead (if a then (err einval, []) else if b then (err einval, []) else o)
      checked true b o h1 h2 good r = absurd (ground (arith, h1))
      checked false true o h1 h2 good r = absurd (ground (arith, h2))
      checked false false (err c', xs) h1 h2 good r = absurd (ground (arith, good))
      checked false false (ok, xs) h1 h2 good r = ap (λ ys. (ok, ys)) (r refl)
