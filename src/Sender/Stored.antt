-- ===== src/Sender/Stored.antt =====
-- The image store of the program takes a file that is a right image, where no operation of the flash
-- fails: it is a store as the transfer asks for.
use mathlib.Core.Path.{subst}
use rtbus.Base.{
  ℕ, ◌^◌, ◌≤◌, ◌<◌, ◌≡◌, ◌∙◌, refl, sym, ap, true, false, List, [], ◌++◌, arith, length,
  length-append,
}
use rtbus.Base.Rc.{Rc, ok, err, Errno}
use rtbus.Image.{Driver, Config, Context}
use rtbus.Image.Store.{store_begin, store_write, store_finish}
use rtbus.Image.Flash.{IsDriver}
use rtbus.Image.Flush.{
  Outcome, broke, went, Fault, misaligned, write_failed, is_misaligned, contents,
}
use rtbus.Image.Session.{IsOpen, WriteFault, flush_failed, too_long, store_write-Outcome}
use rtbus.Image.Begin.{
  BeginFault, Begun, too_short, busy, over_slot, not_opened, not_ready, over_store, not_flattened,
  store_begin-Outcome,
}
use rtbus.Image.Crc.{IsCrc}
use rtbus.Image.Check.{IsStored}
use rtbus.Image.Finish.{store_finish-IsStored}
use rtbus.Image.Complete.{IsReliable, IsSlotFor}
use rtbus.Image.Accepted.{IsRight, store_finish_right}
use rtbus.Image.Upload.{image_store}
use rtbus.Sender.Blocks.{IsKeeper}

-- A code is no success.
not_err : (c : Errno) → err c ≡ ok → ⊥
not_err c e = cc

module _ {F : Type 0} (driver : Driver F) (config : Config) (bytes : F → ℕ → ℕ → ℕ)
    (laws : IsDriver driver bytes) (crc_laws : IsCrc config.crc32_ieee_update)
    (reliable : IsReliable driver) (file : List ℕ) where
  -- A board on which the file can be stored.
  pub record IsRoomy : Type 0 where
    pub headed : 128 ≤ length file
    pub small : length file < 2 ^ 32
    pub in_slot : length file ≤ config.slot_size
    pub ready : (f : F) → driver.is_ready config.store_area f ≡ true
    pub in_store : length file ≤ driver.fa_size config.store_area
    pub store_small : driver.fa_size config.store_area < 2 ^ 32
    pub aligned :
        is_misaligned driver config bytes laws config.store_area (driver.align config.store_area)
        ≡ false
    pub slot : IsSlotFor driver config bytes laws reliable (length file)
    pub right : IsRight driver config bytes laws reliable file

  abbrev pub held_by : F × Context → List ℕ
  held_by s = contents driver config bytes laws config.store_area s.0 s.1

  abbrev pub IsIdle : F × Context → Type 0
  IsIdle s = s.1.active ≡ false

  pub record IsTaking (s : F × Context) : Type 0 where
    pub opened : IsOpen driver config bytes laws config.store_area s.0 s.1 (held_by s)
    pub expected : s.1.expected_size ≡ length file
    pub flash_align : s.1.flash_align ≡ driver.align config.store_area

  abbrev pub HasStored : F × Context → Type 0
  HasStored s = IsStored driver config bytes laws s.0 (length file) file

  module _ (roomy : IsRoomy) where
    no-BeginFault :
        (s : F × Context) (c : Errno)
        → IsIdle s
        → BeginFault driver config bytes laws s.0 s.1 (length file) c
        → ⊥
    no-BeginFault s c idle (too_short h) = omega (arith, h, roomy.headed)
    no-BeginFault s c idle (busy h) = ground (arith, h, idle)
    no-BeginFault s c idle (over_slot h) = omega (arith, h, roomy.in_slot)
    no-BeginFault s c idle (not_opened {c = e} h) =
        not_err e (sym h ∙ reliable.opens config.store_area s.0)
    no-BeginFault s c idle (not_ready h) = ground (arith, h, roomy.ready s.0)
    no-BeginFault s c idle (over_store h) = omega (arith, h, roomy.in_store)
    no-BeginFault s c idle (rtbus.Image.Begin.misaligned h) = ground (arith, h, roomy.aligned)
    no-BeginFault s c idle (not_flattened {c = e} h) =
        not_err e (sym h ∙ reliable.flattens config.store_area s.0)

    begun :
        (s : F × Context) (o : Rc × F × Context)
        → IsIdle s
        → Outcome driver config bytes laws config.store_area
            (BeginFault driver config bytes laws s.0 s.1 (length file))
            (Begun driver config bytes laws s.0 s.1 (length file))
            o
        → (o.0 ≡ ok) × (held_by (o.1, o.2) ≡ []) × IsTaking (o.1, o.2)
    begun s o idle (broke {c = c} why) = absurd (no-BeginFault s c idle why)
    begun s o idle (went {f = f} {ctx = ctx} k) = (
      refl,
      k.opened_store.held,
      record {
        opened =
            subst (IsOpen driver config bytes laws config.store_area f ctx)
              (sym k.opened_store.held) k.opened_store;
        expected = k.expected;
        flash_align = k.flash_align;
      },
    )

    start :
        (s : F × Context)
        → IsIdle s
        → let o = store_begin driver config s.0 s.1 (length file) in
          (o.0 ≡ ok) × (held_by (o.1, o.2) ≡ []) × IsTaking (o.1, o.2)
    start s idle =
        begun s (store_begin driver config s.0 s.1 (length file)) idle
          (store_begin-Outcome driver config bytes laws s.0 s.1 (length file) roomy.small)

    no-Fault :
        (align : ℕ) (c : Errno)
        → align ≡ driver.align config.store_area
        → Fault driver config bytes laws config.store_area align c
        → ⊥
    no-Fault align c e (misaligned h) = ground (
      arith,
      sym h ∙ ap (is_misaligned driver config bytes laws config.store_area) e ∙ roomy.aligned,
    )
    no-Fault align c e (write_failed {c = d} f offset xs h) =
        not_err d (sym h ∙ reliable.writes config.store_area offset xs f)

    no-WriteFault :
        (s : F × Context) (xs : List ℕ) (c : Errno)
        → IsTaking s
        → length (held_by s ++ xs) ≤ length file
        → WriteFault driver config bytes laws config.store_area s.1 xs c
        → ⊥
    no-WriteFault s xs c v fits (flush_failed {c = d} h) =
        no-Fault s.1.flash_align d v.flash_align h
    no-WriteFault s xs c v fits (too_long h) =
        omega (arith, h, fits, length-append (held_by s) xs, v.opened.written, v.expected)

    wrote :
        (s : F × Context) (xs : List ℕ) (o : Rc × F × Context)
        → IsTaking s
        → length (held_by s ++ xs) ≤ length file
        → Outcome driver config bytes laws config.store_area
            (WriteFault driver config bytes laws config.store_area s.1 xs)
            (λ f ctx.
              IsOpen driver config bytes laws config.store_area f ctx (held_by s ++ xs)
              × (ctx.expected_size ≡ s.1.expected_size)
              × (ctx.flash_align ≡ s.1.flash_align))
            o
        → (o.0 ≡ ok) × (held_by (o.1, o.2) ≡ held_by s ++ xs) × IsTaking (o.1, o.2)
    wrote s xs o v fits (broke {c = c} why) = absurd (no-WriteFault s xs c v fits why)
    wrote s xs o v fits (went {f = f} {ctx = ctx} (k, size, align)) = (
      refl,
      k.held,
      record {
        opened = subst (IsOpen driver config bytes laws config.store_area f ctx) (sym k.held) k;
        expected = size ∙ v.expected;
        flash_align = align ∙ v.flash_align;
      },
    )

    part_of : (xs rest : List ℕ) → xs ++ rest ≡ file → length xs ≤ length file
    part_of xs rest e = omega (arith, length-append xs rest, ap length e)

    add :
        (s : F × Context) (xs rest : List ℕ)
        → IsTaking s
        → (held_by s ++ xs) ++ rest ≡ file
        → let o = store_write driver config s.0 s.1 (length (held_by s)) xs in
          (o.0 ≡ ok) × (held_by (o.1, o.2) ≡ held_by s ++ xs) × IsTaking (o.1, o.2)
    add s xs rest v e =
        wrote s xs (store_write driver config s.0 s.1 (length (held_by s)) xs) v
          (part_of (held_by s ++ xs) rest e)
          (store_write-Outcome driver config bytes laws config.store_area s.0 s.1 (held_by s) xs
            v.opened)

    finish_ok :
        (s : F × Context)
        → IsTaking s
        → held_by s ≡ file
        → (store_finish driver config s.0 s.1 ok).0 ≡ ok
    finish_ok s v e =
        store_finish_right driver config bytes laws reliable crc_laws s.0 s.1 file
          (subst (IsOpen driver config bytes laws config.store_area s.0 s.1) e v.opened)
          (sym v.expected) roomy.store_small
          (ap (is_misaligned driver config bytes laws config.store_area) v.flash_align
            ∙ roomy.aligned)
          (subst (IsSlotFor driver config bytes laws reliable) (sym v.expected) roomy.slot)
          roomy.right

    finished :
        (s : F × Context)
        → IsTaking s
        → held_by s ≡ file
        → let o = store_finish driver config s.0 s.1 ok in HasStored (o.1, o.2)
    finished s v e =
        let o = store_finish driver config s.0 s.1 ok in
        subst (λ (n : ℕ). IsStored driver config bytes laws o.1 n file) v.expected
          (store_finish-IsStored driver config bytes laws crc_laws s.0 s.1 file o.1 o.2
            (subst (IsOpen driver config bytes laws config.store_area s.0 s.1) e v.opened)
            (ap (λ (rc : Rc). (rc, o.1, o.2)) (finish_ok s v e))).0

    -- Where no operation of the flash fails, the file is a right image, and the store and the slot have
    -- room for it and alignments that suit, the image store opens from a state that is not active, takes
    -- the file in parts, and lets it through to the slot.
    pub image_store-IsKeeper :
        IsKeeper (image_store driver config) held_by IsIdle IsTaking HasStored file
    image_store-IsKeeper = record {
      begin_ok = λ s idle. (start s idle).0;
      begun = λ s idle. (start s idle).1;
      begun_open = λ s idle. (start s idle).2;
      write_ok = λ s xs rest v e. (add s xs rest v e).0;
      written = λ s xs rest v e. (add s xs rest v e).1;
      written_open = λ s xs rest v e. (add s xs rest v e).2;
      finish_ok = finish_ok;
      finished = finished;
    }
