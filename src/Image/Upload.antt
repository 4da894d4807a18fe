-- ===== src/Image/Upload.antt =====
-- The YMODEM receiver over the image store: what a transfer that returns 0 leaves in the slot.
use mathlib.Core.Path.{subst}
use rtbus.Base.{◌∙◌, ℕ, ◌^◌, ◌<◌, ◌≡◌, ap, List, [], ◌++◌, false, arith}
use rtbus.Base.Rc.{Rc, ok, Errno}
use rtbus.Ymodem.{ImageStore, Receiver, Arrival, Turn, continue, return, receive}
use rtbus.Ymodem.Transfer.{
  IsImageStore, IsTransfer, Standing, going, failed, stored, receive-Standing,
}
use rtbus.Image.{Driver, Config, Context}
use rtbus.Image.Store.{store_begin, store_write, store_finish}
use rtbus.Image.Flash.{IsDriver}
use rtbus.Image.Flush.{Outcome, broke, went}
use rtbus.Image.Session.{IsOpen, store_write-Outcome}
use rtbus.Image.Begin.{BeginFault, Begun, store_begin-Outcome}
use rtbus.Image.Crc.{IsCrc}
use rtbus.Image.Check.{IsStored}
use rtbus.Image.Finish.{store_finish-IsStored}

-- The functions that the receiver calls, over the flash and the store's context.
abbrev pub image_store : {F : Type 0} → Driver F → Config → ImageStore (F × Context)
image_store driver config = record {
  begin = λ size s. let (rc, f, ctx) = store_begin driver config s.0 s.1 size in (rc, (f, ctx));
  write = λ offset bytes s.
      let (rc, f, ctx) = store_write driver config s.0 s.1 offset bytes in (rc, (f, ctx));
  finish =
      λ status s. let (rc, f, ctx) = store_finish driver config s.0 s.1 status in (rc, (f, ctx));
}

module _ {F : Type 0} (driver : Driver F) (config : Config) (bytes : F → ℕ → ℕ → ℕ)
    (laws : IsDriver driver bytes) (crc_laws : IsCrc config.crc32_ieee_update) where
  -- The store is open for an image of a size, and has its first bytes.
  abbrev IsOpenFor : F × Context → ℕ → List ℕ → Type 0
  IsOpenFor s size c =
      IsOpen driver config bytes laws config.store_area s.0 s.1 c × (s.1.expected_size ≡ size)

  abbrev pub IsStoredFor : F × Context → ℕ → List ℕ → Type 0
  IsStoredFor s size c = IsStored driver config bytes laws s.0 size c

  -- What the slot holds when a transfer has returned.
  pub record Stored (r : Receiver (F × Context)) : Type 0 where
    pub contents : List ℕ
    pub in_slot : IsStoredFor r.store r.expected_size contents

  image_store-IsImageStore : IsImageStore (image_store driver config) IsOpenFor IsStoredFor
  image_store-IsImageStore = record {
    begun = λ size s small h.
        begun size s.1 s.0 _ (store_begin-Outcome driver config bytes laws s.0 s.1 size small) h;
    written = λ size c xs s v h.
        let (open_now, same_size) =
          opened _ s.1.expected_size s.1.flash_align (c ++ xs) _
            (store_write-Outcome driver config bytes laws config.store_area s.0 s.1 c xs v.0) h in
        (open_now, same_size ∙ v.1);
    finished = λ size c s v h.
        subst (λ (n : ℕ). IsStoredFor ((image_store driver config).finish ok s).1 n c) v.1
          (store_finish-IsStored driver config bytes laws crc_laws s.0 s.1 c _ _ v.0 (
            ap
              (λ rc. (
                rc,
                (store_finish driver config s.0 s.1 ok).1,
                (store_finish driver config s.0 s.1 ok).2,
              ))
              h)).0;
  }
    where
      begun :
          (size : ℕ) (ctx : Context) (f : F) (o : Rc × F × Context)
          → Outcome driver config bytes laws config.store_area
              (BeginFault driver config bytes laws f ctx size)
              (Begun driver config bytes laws f ctx size)
              o
          → o.0 ≡ ok
          → IsOpenFor (o.1, o.2) size []
      begun size ctx f o (broke why) h = absurd (ground (arith, h))
      begun size ctx f o (went k) h = (k.opened_store, k.expected)

      opened :
          (Why : Errno → Type 0) (size align : ℕ) (c : List ℕ) (o : Rc × F × Context)
          → Outcome driver config bytes laws config.store_area Why
              (λ f ctx.
                IsOpen driver config bytes laws config.store_area f ctx c
                × (ctx.expected_size ≡ size)
                × (ctx.flash_align ≡ align))
              o
          → o.0 ≡ ok
          → IsOpenFor (o.1, o.2) size c
      opened Why size align c o (broke why) h = absurd (ground (arith, h))
      opened Why size align c o (went v) h = (v.0, v.1)

  -- On any arrivals, a transfer into the image store that returns 0 has left bytes in the slot, as many
  -- as the metadata announced, with a valid header, RAM enough for it and the CRC that it names.
  -- `strtoul` gives 32-bit numbers, and no metadata has come before.
  pub receive-IsStored :
      (strtoul : List ℕ → ℕ)
      → ((text : List ℕ) → strtoul text < 2 ^ 32)
      → (arrivals : List Arrival) (r r' : Receiver (F × Context)) → r.got_metadata ≡ false
      → r.received_size ≡ 0
      → receive (image_store driver config) strtoul r arrivals ≡ return ok r'
      → Stored r'
  receive-IsStored strtoul bounded arrivals r r' fresh nothing e =
      answered (receive (image_store driver config) strtoul r arrivals)
        (receive-Standing (image_store driver config) IsOpenFor IsStoredFor image_store-IsImageStore
          strtoul bounded arrivals r before)
        e
    where
      before :
          IsTransfer (image_store driver config) IsOpenFor IsStoredFor image_store-IsImageStore r
      before = record {
        taken = [];
        none_yet = λ n. nothing;
        opened = λ y. absurd (ground (arith, fresh, y));
        count = λ y. absurd (ground (arith, fresh, y));
      }

      left : Turn (F × Context) → Receiver (F × Context)
      left (continue q) = q
      left (return rc q) = q

      answered :
          (t : Turn (F × Context))
          → Standing (image_store driver config) IsOpenFor IsStoredFor image_store-IsImageStore t
          → t ≡ return ok r'
          → Stored r'
      answered t (going w) h = absurd (ground (arith, h))
      answered t (failed {c = c}) h = absurd (ground (arith, h))
      answered t (stored {r = last} c w) h =
          subst (λ q. Stored q) (ap left h) (record { contents = c; in_slot = w })
