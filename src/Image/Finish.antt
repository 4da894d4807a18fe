-- ===== src/Image/Finish.antt =====
-- `rtbus_image_store_finish`: an image is in the slot only if it was received whole and its header and
-- CRC are right.
use mathlib.Core.Path.{subst}
use mathlib.Core.List.{append-nil}
use rtbus.Base.{
  ℕ, ◌≤◌, ◌≡◌, refl, sym, ap, Bool, true, false, not, List, ◌++◌, arith, ◌==◌, if◌then◌else◌,
  length, take, replicate, length-append, take-append, ◌∙◌,
}
use rtbus.Base.Rc.{Rc, ok, err, einval, eio}
use rtbus.Image.Header.{ImageHeader}
use rtbus.Image.{Driver, Config, Context, empty_context, read_header_from_store}
use rtbus.Image.Store.{finish_active, store_finish, after_flush, after_header, flush_flash}
use rtbus.Image.Flash.{slice, IsDriver, length-slice, take-slice}
use rtbus.Image.Session.{IsOpen}
use rtbus.Image.Flush.{IsFlush, Fault, flush_flash-Outcome, Outcome, broke, went}
use rtbus.Image.Crc.{IsCrc}
use rtbus.Image.Check.{IsWhole, IsStored, read_header_from_store-decode, finish_checked-IsStored}

module _ {F : Type 0} (driver : Driver F) (config : Config) (bytes : F → ℕ → ℕ → ℕ)
    (laws : IsDriver driver bytes) where
  pub IsWhole-IsFlush :
      (f : F) (ctx : Context) (c : List ℕ) (f' : F) (ctx' : Context)
      → IsOpen driver config bytes laws config.store_area f ctx c
      → ctx.written ≡ ctx.expected_size
      → IsFlush driver config bytes laws config.store_area f ctx true f' ctx'
      → IsWhole driver config bytes laws f' ctx' c
  IsWhole-IsFlush f ctx c f' ctx' v done k = record {
    flash_area = k.flash_area ∙ v.flash_area;
    complete = k.expected_size ∙ sym done ∙ v.written;
    held =
        sym (take-slice g 0 (length c) ctx'.flash_write_offset long)
        ∙ ap (λ xs. take (length c) xs) all
        ∙ take-append c padding;
  }
    where
      g : ℕ → ℕ
      g = bytes f' config.store_area

      padding : List ℕ
      padding = replicate k.padding 255

      all : slice g 0 ctx'.flash_write_offset ≡ c ++ padding
      all =
          sym (append-nil (slice g 0 ctx'.flash_write_offset))
          ∙ ap (λ xs. slice g 0 ctx'.flash_write_offset ++ xs) (sym (k.emptied refl))
          ∙ k.held
          ∙ ap (λ xs. xs ++ padding) v.held

      long : length c ≤ ctx'.flash_write_offset
      long =
          omega (
            arith,
            length-slice g 0 ctx'.flash_write_offset,
            ap length all,
            length-append c padding,
          )

  -- A finish of an open store that gives no error leaves the bytes that were received in the slot, all of them, with a
  -- valid header, RAM enough and the right CRC; and the store is free again.
  pub store_finish-IsStored :
      (crc_laws : IsCrc config.crc32_ieee_update) (f : F) (ctx : Context) (c : List ℕ) (f' : F)
      (ctx' : Context)
      → IsOpen driver config bytes laws config.store_area f ctx c
      → store_finish driver config f ctx ok ≡ (ok, f', ctx')
      → IsStored driver config bytes laws f' ctx.expected_size c × (ctx' ≡ empty_context)
  unfolding store_finish finish_active
  store_finish-IsStored crc_laws f ctx c f' ctx' v e =
      stopped ctx.active (finish_active driver config f ctx ok) v.active
        (received (ctx.written == ctx.expected_size) refl) e
    where
      Stored : Type 0
      Stored = IsStored driver config bytes laws f' ctx.expected_size c

      headed :
          (f1 : F) (ctx1 : Context) (o : Rc × ImageHeader)
          → IsWhole driver config bytes laws f1 ctx1 c
          → ctx1.expected_size ≡ ctx.expected_size
          → read_header_from_store driver config f1 ctx1 ≡ o
          → after_header driver config f1 ctx1 o ≡ (ok, f')
          → Stored
      headed f1 ctx1 (err c', header) w size r h = absurd (ground (arith, ap (λ r. r.0) h))
      headed f1 ctx1 (ok, header) w size r h =
          let (same, valid) =
            read_header_from_store-decode driver config bytes laws f1 ctx1 c header w
              (omega (arith, w.complete, size, v.headed)) (omega (arith, v.bounded, v.small)) r in
          subst (λ (n : ℕ). IsStored driver config bytes laws f' n c) size
            (finish_checked-IsStored driver config bytes laws crc_laws f1 ctx1 c header f' w same
              valid h)

      flushed :
          (o : Rc × F × Context)
          → ctx.written ≡ ctx.expected_size
          → Outcome driver config bytes laws config.store_area
              (Fault driver config bytes laws config.store_area ctx.flash_align)
              (λ f1 ctx1. IsFlush driver config bytes laws config.store_area f ctx true f1 ctx1)
              o
          → after_flush driver config o ≡ (ok, f')
          → Stored
      flushed o done (broke why) h = absurd (ground (arith, ap (λ r. r.0) h))
      flushed o done (went {f = f1} {ctx = ctx1} k) h =
          headed f1 ctx1 (read_header_from_store driver config f1 ctx1)
            (IsWhole-IsFlush f ctx c f1 ctx1 v done k) k.expected_size refl h

      received :
          (all : Bool)
          → (ctx.written == ctx.expected_size) ≡ all
          → (if not all
              then (err eio, f)
              else after_flush driver config (flush_flash driver config f ctx true))
            ≡ (ok, f')
          → Stored
      received false d h = absurd (ground (arith, ap (λ r. r.0) h))
      received true d h =
          flushed (flush_flash driver config f ctx true) (ground (arith, d))
            (flush_flash-Outcome driver config bytes laws config.store_area f ctx true v.flash_area)
            h

      IsResult : Rc × F × Context → Type 0
      IsResult o = o ≡ (ok, f', ctx')

      stopped :
          (active : Bool) (o : Rc × F)
          → active ≡ true
          → (o ≡ (ok, f') → Stored)
          → IsResult (if not active then (err einval, f, ctx) else (o.0, o.1, empty_context))
          → Stored × (ctx' ≡ empty_context)
      stopped false o a stored h = absurd (ground (arith, a))
      stopped true o a stored h = (stored (ap (λ r. (r.0, r.1)) h), ap (λ r. r.2) (sym h))
