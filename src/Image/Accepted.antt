-- ===== src/Image/Accepted.antt =====
-- `rtbus_image_store_finish` lets a right image through: where the flash works, it returns 0.
use mathlib.Core.Path.{subst}
use rtbus.Base.{
  ℕ, ◌-◌, ◌^◌, ◌≤◌, ◌<◌, ◌≡◌, refl, sym, ap, Bool, true, false, not, List, arith, ltb, ◌==◌,
  ==_self, ==_iff, if◌then◌else◌, length, take, drop, ◌∙◌,
}
use rtbus.Base.Rc.{Rc, ok, err, einval, eio, ebadmsg, enomem, enodata}
use rtbus.Base.Word.{sub32}
use rtbus.Image.Header.{ImageHeader, decode, is_valid, is_valid-fits, is_valid-positive}
use rtbus.Image.{
  Driver, Config, Context, empty_context, no_header, store_read, read_header_from_store,
  calculate_store_payload_crc,
}
use rtbus.Image.Store.{
  commit_store_to_slot, flush_flash, finish_checked, after_header, after_flush, finish_active,
  store_finish,
}
use rtbus.Image.Flash.{slice, IsDriver, take-slice, drop-slice}
use rtbus.Image.Flush.{
  IsFlush, Fault, misaligned, write_failed, is_misaligned, Outcome, broke, went,
  flush_flash-Outcome,
}
use rtbus.Image.Session.{IsOpen}
use rtbus.Image.Crc.{IsCrc, crc_from-exact}
use rtbus.Image.Check.{IsWhole}
use rtbus.Image.Finish.{IsWhole-IsFlush}
use rtbus.Image.Complete.{IsReliable, IsSlotFor, IsOk, store_read_ok, commit_store_to_slot_ok}

not_over : (a p n : ℕ) → a ≡ n → p ≤ n → ltb a p ≡ false
not_over a p n e h = ground arith

module _ {F : Type 0} (driver : Driver F) (config : Config) (bytes : F → ℕ → ℕ → ℕ)
    (laws : IsDriver driver bytes) (reliable : IsReliable driver) where
  -- An image that is right: its header, the RAM it asks for, and its CRC.
  pub record IsRight (c : List ℕ) : Type 0 where
    pub valid : is_valid (decode (take 128 c)) (length c - 128) ≡ true
    pub runnable : (decode (take 128 c)).required_ram_size ≤ config.ram_max
    pub intact :
        config.crc32_ieee_update 0 (take (decode (take 128 c)).payload_size (drop 128 c))
        ≡ (decode (take 128 c)).payload_crc32

  module _ (f : F) (ctx : Context) (c : List ℕ) (w : IsWhole driver config bytes laws f ctx c)
      (done : ctx.written ≡ length c) (fits : length c ≤ driver.fa_size config.store_area)
      (small : driver.fa_size config.store_area < 2 ^ 32) (right : IsRight c) where
    abbrev head : ImageHeader
    head = decode (take 128 c)

    payload_fits : head.payload_size ≤ length c - 128
    payload_fits = is_valid-fits head (length c - 128) right.valid

    long : 128 < length c
    long = omega (arith, payload_fits, is_valid-positive head (length c - 128) right.valid)

    capacity : sub32 ctx.expected_size 128 ≡ length c - 128
    capacity = ground (arith, w.complete, long, small, fits)

    read_header_right : read_header_from_store driver config f ctx ≡ (ok, head)
    unfolding read_header_from_store
    read_header_right =
        subst
          (λ o. IsHeader (elim o.0 [
            | err c ↦ (err enodata, no_header driver config)
            | ok ↦
                if not (is_valid (decode o.1) (sub32 ctx.expected_size 128))
                then (err enodata, decode o.1)
                else (ok, decode o.1)
          ]))
          (sym (
            store_read_ok driver config bytes laws reliable f ctx c 0 128 w done fits small
              (omega (arith, long))
            ∙ ap (λ ys. (ok, ys)) head_is))
          (ap (λ b. if not b then (err enodata, head) else (ok, head))
            (ap (λ (z : ℕ). is_valid head z) capacity ∙ right.valid))
      where
        IsHeader : Rc × ImageHeader → Type 0
        IsHeader o = o ≡ (ok, head)

        head_is : slice (bytes f config.store_area) 0 128 ≡ take 128 c
        head_is =
            sym (take-slice (bytes f config.store_area) 0 128 (length c) (omega (arith, long)))
            ∙ ap (λ xs. take 128 xs) w.held

    module _ (crc_laws : IsCrc config.crc32_ieee_update) where
      payload_crc_right :
          calculate_store_payload_crc driver config f ctx head.payload_size
          ≡ (ok, head.payload_crc32)
      unfolding calculate_store_payload_crc
      payload_crc_right =
          let n = head.payload_size in
          let g = bytes f config.store_area in
          let all : n - 0 ≡ n = omega arith in
          crc_from-exact driver config bytes laws crc_laws
            (λ offset size. store_read driver config f ctx offset size) g n
            (λ offset size inside.
              store_read_ok driver config bytes laws reliable f ctx c offset size w done fits small
                (omega (arith, inside, payload_fits, long)))
            n 0 0 (ground arith) (omega arith)
          ∙ ap (λ (z : ℕ). (ok, config.crc32_ieee_update 0 (slice g 128 z))) all
          ∙ ap (λ xs. (ok, config.crc32_ieee_update 0 xs))
              (sym (take-slice g 128 n (length c - 128) payload_fits)
                ∙ ap (λ xs. take n xs)
                    (sym (drop-slice g 0 128 (length c)) ∙ ap (λ xs. drop 128 xs) w.held))
          ∙ ap (λ v. (ok, v)) right.intact

      finish_checked_right :
          IsSlotFor driver config bytes laws reliable ctx.expected_size
          → (finish_checked driver config f ctx head).0 ≡ ok
      unfolding finish_checked
      finish_checked_right slot =
          checked (ltb (sub32 ctx.expected_size 128) head.payload_size)
            (ltb config.ram_max head.required_ram_size)
            (calculate_store_payload_crc driver config f ctx head.payload_size)
            (not_over (sub32 ctx.expected_size 128) head.payload_size (length c - 128) capacity
              payload_fits)
            (not_over config.ram_max head.required_ram_size config.ram_max refl right.runnable)
            payload_crc_right
        where
          checked :
              (over big : Bool) (o : Rc × ℕ)
              → over ≡ false
              → big ≡ false
              → o ≡ (ok, head.payload_crc32)
              → IsOk driver config bytes laws reliable (
                  if over then (err ebadmsg, f) else if big then (err enomem, f) else elim o.0 [
                    | err c ↦ (err c, f)
                    | ok ↦
                        if not (o.1 == head.payload_crc32)
                        then (err ebadmsg, f)
                        else commit_store_to_slot driver config f ctx
                  ])
          checked true big o h1 h2 h3 = absurd (ground (arith, h1))
          checked false true o h1 h2 h3 = absurd (ground (arith, h2))
          checked false false o h1 h2 h3 =
              subst
                (λ o. IsOk driver config bytes laws reliable (elim o.0 [
                  | err c ↦ (err c, f)
                  | ok ↦
                      if not (o.1 == head.payload_crc32)
                      then (err ebadmsg, f)
                      else commit_store_to_slot driver config f ctx
                ]))
                (sym h3)
                (rw (==_self head.payload_crc32) (
                  commit_store_to_slot_ok driver config bytes laws reliable f ctx w.flash_area
                    (done ∙ sym w.complete) slot))

  -- Where no operation of the flash fails, the store's size is a 32-bit number, the alignments suit and
  -- the slot has room, an image that was received whole and is right is let
  -- through: the finish returns 0.
  pub store_finish_right :
      (crc_laws : IsCrc config.crc32_ieee_update) (f : F) (ctx : Context) (c : List ℕ)
      → IsOpen driver config bytes laws config.store_area f ctx c
      → length c ≡ ctx.expected_size
      → driver.fa_size config.store_area < 2 ^ 32
      → is_misaligned driver config bytes laws config.store_area ctx.flash_align ≡ false
      → IsSlotFor driver config bytes laws reliable ctx.expected_size
      → IsRight c
      → (store_finish driver config f ctx ok).0 ≡ ok
  unfolding store_finish finish_active
  store_finish_right crc_laws f ctx c v whole small aligned slot right =
      ended ctx.active (ctx.written == ctx.expected_size) (flush_flash driver config f ctx true)
        v.active (((==_iff ctx.written ctx.expected_size).1) (v.written ∙ whole))
        (flush_flash-Outcome driver config bytes laws config.store_area f ctx true v.flash_area)
    where
      IsDone : Rc × F × Context → Type 0
      IsDone o = o.0 ≡ ok

      done : ctx.written ≡ ctx.expected_size
      done = v.written ∙ whole

      checked :
          (f1 : F) (ctx1 : Context)
          → IsFlush driver config bytes laws config.store_area f ctx true f1 ctx1
          → IsOk driver config bytes laws reliable (after_flush driver config (ok, f1, ctx1))
      checked f1 ctx1 k =
          let w = IsWhole-IsFlush driver config bytes laws f ctx c f1 ctx1 v done k in
          let counted : ctx1.written ≡ length c = k.written ∙ v.written in
          let fits : length c ≤ driver.fa_size config.store_area = omega (arith, whole, v.fits) in
          subst (λ o. IsOk driver config bytes laws reliable (after_header driver config f1 ctx1 o))
            (sym (read_header_right f1 ctx1 c w counted fits small right))
            (finish_checked_right f1 ctx1 c w counted fits small right crc_laws (
              subst (λ (n : ℕ). IsSlotFor driver config bytes laws reliable n) (sym k.expected_size)
                slot))

      flushed :
          (o : Rc × F × Context)
          → Outcome driver config bytes laws config.store_area
              (Fault driver config bytes laws config.store_area ctx.flash_align)
              (λ f1 ctx1. IsFlush driver config bytes laws config.store_area f ctx true f1 ctx1)
              o
          → IsOk driver config bytes laws reliable (after_flush driver config o)
      flushed o (went {f = f1} {ctx = ctx1} k) = checked f1 ctx1 k
      flushed o (broke (misaligned m)) = absurd (ground (arith, aligned, m))
      flushed o (broke (write_failed f' offset xs e)) =
          absurd (ground (arith, sym (reliable.writes config.store_area offset xs f') ∙ e))

      ended :
          (active complete : Bool) (o : Rc × F × Context)
          → active ≡ true
          → complete ≡ true
          → Outcome driver config bytes laws config.store_area
              (Fault driver config bytes laws config.store_area ctx.flash_align)
              (λ f1 ctx1. IsFlush driver config bytes laws config.store_area f ctx true f1 ctx1)
              o
          → IsDone (
              let r = if not complete then (err eio, f) else after_flush driver config o in
              if not active then (err einval, f, ctx) else (r.0, r.1, empty_context))
      ended false b o h1 h2 out = absurd (ground (arith, h1))
      ended true false o h1 h2 out = absurd (ground (arith, h2))
      ended true true o h1 h2 out = flushed o out
