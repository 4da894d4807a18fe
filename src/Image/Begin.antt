-- ===== src/Image/Begin.antt =====
-- `rtbus_image_store_begin`: the store is open with nothing in it.
use rtbus.Base.{
  ℕ, ◌^◌, ◌≤◌, ◌<◌, ◌≡◌, refl, ap, Bool, true, false, not, ◌||◌, [], arith, ltb, ◌==◌,
  if◌then◌else◌, some,
}
use rtbus.Base.Rc.{Rc, ok, err, Errno, einval, ebusy, efbig, enodev}
use rtbus.Image.{Driver, Config, Context, empty_context}
use rtbus.Image.Store.{store_begin, begin_area}
use rtbus.Image.Flash.{IsDriver}
use rtbus.Image.Session.{IsOpen}
use rtbus.Image.Flush.{Outcome, broke, went}

module _ {F : Type 0} (driver : Driver F) (config : Config) (bytes : F → ℕ → ℕ → ℕ)
    (laws : IsDriver driver bytes) where
  -- Why a transfer does not start.
  pub data BeginFault (f : F) (ctx : Context) (image_size : ℕ) : Errno → Type 0 where
    too_short : image_size < 128 → BeginFault f ctx image_size einval
    busy : ctx.active ≡ true → BeginFault f ctx image_size ebusy
    over_slot : config.slot_size < image_size → BeginFault f ctx image_size efbig
    not_opened :
        {c : Errno} → driver.open_area config.store_area f ≡ err c → BeginFault f ctx image_size c
    not_ready : driver.is_ready config.store_area f ≡ false → BeginFault f ctx image_size enodev
    over_store : driver.fa_size config.store_area < image_size → BeginFault f ctx image_size efbig
    misaligned :
        ((driver.align config.store_area == 0)
            || ltb config.pending_max (driver.align config.store_area))
          ≡ true
        → BeginFault f ctx image_size einval
    not_flattened :
        {c : Errno} → (driver.flatten config.store_area f).0 ≡ err c → BeginFault f ctx image_size c

  -- An open store with nothing in it, and what was asked before it was opened: no transfer was active,
  -- the image fits into the slot and into the store, and the store's area was opened, its device is
  -- ready, and its alignment fits into the buffer.
  pub record Begun (f : F) (ctx : Context) (image_size : ℕ) (f' : F) (ctx' : Context) : Type 0 where
    pub opened_store : IsOpen driver config bytes laws config.store_area f' ctx' []
    pub expected : ctx'.expected_size ≡ image_size
    pub flash_align : ctx'.flash_align ≡ driver.align config.store_area
    pub headed : 128 ≤ image_size
    pub idle : ctx.active ≡ false
    pub fits_slot : image_size ≤ config.slot_size
    pub opened : driver.open_area config.store_area f ≡ ok
    pub ready : driver.is_ready config.store_area f ≡ true
    pub fits_store : image_size ≤ driver.fa_size config.store_area
    pub aligned : 0 < driver.align config.store_area
    pub buffered : driver.align config.store_area ≤ config.pending_max
    pub flattened : (driver.flatten config.store_area f).0 ≡ ok

  begin_area-Outcome :
      (f : F) (ctx : Context) (image_size : ℕ)
      → image_size < 2 ^ 32
      → 128 ≤ image_size
      → ctx.active ≡ false
      → image_size ≤ config.slot_size
      → driver.open_area config.store_area f ≡ ok
      → driver.is_ready config.store_area f ≡ true
      → image_size ≤ driver.fa_size config.store_area
      → 0 < driver.align config.store_area
      → driver.align config.store_area ≤ config.pending_max
      → Outcome driver config bytes laws config.store_area
          (BeginFault f ctx image_size)
          (Begun f ctx image_size)
          (begin_area driver config f image_size config.store_area)
  unfolding begin_area
  begin_area-Outcome f ctx image_size small headed idle slot opened ready fits pos room =
      flattened (driver.flatten config.store_area f) refl λ c e. not_flattened e
    where
      flattened :
          (o : Rc × F)
          → driver.flatten config.store_area f ≡ o
          → ((c : Errno) → o.0 ≡ err c → BeginFault f ctx image_size c)
          → Outcome driver config bytes laws config.store_area
              (BeginFault f ctx image_size)
              (Begun f ctx image_size)
              (elim o.0 [
                | err c ↦ (err c, o.1, empty_context)
                | ok ↦ (
                  ok,
                  o.1,
                  record empty_context {
                    flash_area = some config.store_area;
                    flash_align = driver.align config.store_area;
                    expected_size = image_size;
                    active = true;
                  },
                )
              ])
      flattened (err c, f') same why = broke (why c refl)
      flattened (ok, f') same why = went (record {
        opened_store = record {
          flash_area = refl;
          active = refl;
          held = refl;
          written = refl;
          room = omega (arith, pos, room);
          bounded = omega arith;
          fits = fits;
          headed = headed;
          small = small;
        };
        expected = refl;
        flash_align = refl;
        headed = headed;
        idle = idle;
        fits_slot = slot;
        opened = opened;
        ready = ready;
        fits_store = fits;
        aligned = pos;
        buffered = room;
        flattened = ap (λ z. z.0) same;
      })

  -- The outcome of the start of a transfer of a 32-bit size: an error with its cause, or an open store
  -- that expects that size and has nothing in it. It is opened only if no transfer is active, the image
  -- is not shorter than a header and fits into the slot and the store, and the store's area was opened
  -- and erased, its device is ready and its alignment fits into the buffer.
  pub store_begin-Outcome :
      (f : F) (ctx : Context) (image_size : ℕ)
      → image_size < 2 ^ 32
      → Outcome driver config bytes laws config.store_area
          (BeginFault f ctx image_size)
          (Begun f ctx image_size)
          (store_begin driver config f ctx image_size)
  unfolding store_begin
  store_begin-Outcome f ctx image_size small =
      checked (ltb image_size 128) ctx.active (ltb config.slot_size image_size)
        (driver.open_area area f) (driver.is_ready area f) (ltb (driver.fa_size area) image_size)
        ((driver.align area == 0) || ltb config.pending_max (driver.align area)) refl refl refl refl
        refl refl refl
    where
      area : ℕ
      area = config.store_area

      checked :
          (short active big : Bool) (opened : Rc) (ready over bad : Bool)
          → ltb image_size 128 ≡ short
          → ctx.active ≡ active
          → ltb config.slot_size image_size ≡ big
          → driver.open_area area f ≡ opened
          → driver.is_ready area f ≡ ready
          → ltb (driver.fa_size area) image_size ≡ over
          → ((driver.align area == 0) || ltb config.pending_max (driver.align area)) ≡ bad
          → Outcome driver config bytes laws area
              (BeginFault f ctx image_size)
              (Begun f ctx image_size)
              (if short
                then (err einval, f, ctx)
                else if active
                then (err ebusy, f, ctx)
                else if big
                then (err efbig, f, empty_context)
                else elim opened [
                  | err c ↦ (err c, f, empty_context)
                  | ok ↦
                      if not ready
                      then (err enodev, f, empty_context)
                      else if over
                      then (err efbig, f, empty_context)
                      else if bad
                      then (err einval, f, empty_context)
                      else begin_area driver config f image_size area
                ])
      checked true a b o r v w h1 h2 h3 h4 h5 h6 h7 = broke (too_short (ground (arith, h1)))
      checked false true b o r v w h1 h2 h3 h4 h5 h6 h7 = broke (busy h2)
      checked false false true o r v w h1 h2 h3 h4 h5 h6 h7 = broke (over_slot (ground (arith, h3)))
      checked false false false (err c) r v w h1 h2 h3 h4 h5 h6 h7 = broke (not_opened h4)
      checked false false false ok false v w h1 h2 h3 h4 h5 h6 h7 = broke (not_ready h5)
      checked false false false ok true true w h1 h2 h3 h4 h5 h6 h7 =
          broke (over_store (ground (arith, h6)))
      checked false false false ok true false true h1 h2 h3 h4 h5 h6 h7 = broke (misaligned h7)
      checked false false false ok true false false h1 h2 h3 h4 h5 h6 h7 =
          begin_area-Outcome f ctx image_size small (ground (arith, h1)) h2 (ground (arith, h3)) h4
            h5 (ground (arith, h6)) (ground (arith, h7)) (ground (arith, h7))
