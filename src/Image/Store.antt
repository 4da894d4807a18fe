-- ===== src/Image/Store.antt =====
-- The store that receives an image: begin, write, finish, and the commit to the slot.
use rtbus.Base.{
  ℕ, zero, suc, ◌+◌, ◌-◌, ◌%◌, min, Bool, true, false, not, ◌&&◌, ◌||◌, List, [], ◌++◌, Option,
  none, some, ltb, leb, ◌==◌, if◌then◌else◌, length, take, drop, replicate,
}
use rtbus.Base.Rc.{Rc, ok, err, einval, ebusy, efbig, enodev, enomem, ebadmsg, eio}
use rtbus.Base.Word.{sub32}
use rtbus.Image.Header.{ImageHeader, header_size}
use rtbus.Image.{
  Driver, Config, Context, empty_context, round_up, read_header_from_store,
  calculate_store_payload_crc,
}

module _ {F : Type 0} (driver : Driver F) (config : Config) where
  -- The loop of `rtbus_image_commit_store_to_slot`, from the store's area to the slot's.
  unfoldable pub copy_from : (fuel : ℕ) → F → (from to expected_size slot_align offset : ℕ) → Rc × F
  copy_from zero f from to expected_size slot_align offset = (ok, f)
  copy_from (suc fuel) f from to expected_size slot_align offset =
      let read_len = min 128 (expected_size - offset) in
      let write_len = round_up read_len slot_align in
      let (read_rc, buf) = driver.read from offset read_len f in
      let (write_rc, f') = driver.write to offset (buf ++ replicate (write_len - read_len) 255) f in
      let rest = copy_from fuel f' from to expected_size slot_align (offset + read_len) in
      if leb expected_size offset then (ok, f) else elim read_rc [
        | err c ↦ (err c, f)
        | ok ↦ elim write_rc [ err c ↦ (err c, f') | ok ↦ rest ]
      ]

  -- The commit once the area of the store is known.
  unfoldable pub commit_from : F → Context → (area : ℕ) → Rc × F
  commit_from f ctx area =
      let slot = config.slot_area in
      let (rc, f') = driver.flatten slot f in
      if area == slot then (ok, f) else elim (driver.open_area slot f) [
        | err c ↦ (err c, f)
        | ok ↦
            if ltb (driver.fa_size slot) ctx.expected_size
            then (err efbig, f)
            else if (driver.align slot == 0) || ltb 128 (driver.align slot)
            then (err einval, f)
            else elim rc [
              | err c ↦ (err c, f')
              | ok ↦
                  copy_from ctx.expected_size f' area slot ctx.expected_size (driver.align slot) 0
            ]
      ]

  abbrev pub commit_area : F → Context → Option ℕ → Rc × F
  commit_area f ctx none = (err einval, f)
  commit_area f ctx (some area) =
      if not (ctx.written == ctx.expected_size) then (err einval, f) else commit_from f ctx area

  unfoldable pub commit_store_to_slot : F → Context → Rc × F
  commit_store_to_slot f ctx = commit_area f ctx ctx.flash_area

  -- The bytes that a flush writes.
  abbrev pub flush_bytes : Context → (final : Bool) → List ℕ
  flush_bytes ctx final =
      ctx.flash_pending
      ++ replicate
          ((if final
              then round_up (length ctx.flash_pending) ctx.flash_align
              else config.pending_max)
            - length ctx.flash_pending)
          255

  unfoldable pub flush_to : F → Context → (area : ℕ) → (final : Bool) → Rc × F × Context
  flush_to f ctx area final =
      let bytes = flush_bytes ctx final in
      let (rc, f') = driver.write area ctx.flash_write_offset bytes f in
      elim rc [
        | err c ↦ (err c, f', ctx)
        | ok ↦ (
          ok,
          f',
          record ctx {
            flash_write_offset = ctx.flash_write_offset + length bytes;
            flash_pending = [];
          },
        )
      ]

  abbrev pub flush_area : F → Context → (final : Bool) → Option ℕ → Rc × F × Context
  flush_area f ctx final none = (err einval, f, ctx)
  flush_area f ctx final (some area) =
      if (ctx.flash_align == 0)
        || ltb config.pending_max ctx.flash_align
        || not (config.pending_max % ctx.flash_align == 0)
      then (err einval, f, ctx)
      else if length ctx.flash_pending == 0
      then (ok, f, ctx)
      else if not final && ltb (length ctx.flash_pending) config.pending_max
      then (ok, f, ctx)
      else flush_to f ctx area final

  unfoldable pub flush_flash : F → Context → (final : Bool) → Rc × F × Context
  flush_flash f ctx final = flush_area f ctx final ctx.flash_area

  -- The loop of `rtbus_image_store_write_flash`. Every round takes a byte at least while there is
  -- room in `flash_pending`.
  unfoldable pub write_from : (fuel : ℕ) → F → Context → (bytes : List ℕ) → Rc × F × Context
  write_from zero f ctx bytes = (ok, f, ctx)
  write_from (suc fuel) f ctx bytes =
      let copy_len = min (length bytes) (config.pending_max - length ctx.flash_pending) in
      let (rc, f', ctx') =
        flush_flash f (record ctx { flash_pending = ctx.flash_pending ++ take copy_len bytes })
          false in
      let rest = write_from fuel f' ctx' (drop copy_len bytes) in
      if length bytes == 0 then (ok, f, ctx) else elim rc [ err c ↦ (err c, f', ctx') | ok ↦ rest ]

  abbrev pub write_area : F → Context → (offset : ℕ) → List ℕ → Option ℕ → Rc × F × Context
  write_area f ctx offset bytes none = (err einval, f, ctx)
  write_area f ctx offset bytes (some area) =
      if not (offset == ctx.written)
      then (err einval, f, ctx)
      else write_from (length bytes) f ctx bytes

  unfoldable pub store_write_flash : F → Context → (offset : ℕ) → List ℕ → Rc × F × Context
  store_write_flash f ctx offset bytes = write_area f ctx offset bytes ctx.flash_area

  -- `rtbus_image_store_begin` once the area is open and has passed its checks.
  unfoldable pub begin_area : F → (image_size area : ℕ) → Rc × F × Context
  begin_area f image_size area =
      let (rc, f') = driver.flatten area f in
      elim rc [
        | err c ↦ (err c, f', empty_context)
        | ok ↦ (
          ok,
          f',
          record empty_context {
            flash_area = some area;
            flash_align = driver.align area;
            expected_size = image_size;
            active = true;
          },
        )
      ]

  unfoldable pub store_begin : F → Context → (image_size : ℕ) → Rc × F × Context
  store_begin f ctx image_size =
      let area = config.store_area in
      if ltb image_size header_size
      then (err einval, f, ctx)
      else if ctx.active
      then (err ebusy, f, ctx)
      else if ltb config.slot_size image_size
      then (err efbig, f, empty_context)
      else elim (driver.open_area area f) [
        | err c ↦ (err c, f, empty_context)
        | ok ↦
            if not (driver.is_ready area f)
            then (err enodev, f, empty_context)
            else if ltb (driver.fa_size area) image_size
            then (err efbig, f, empty_context)
            else if (driver.align area == 0) || ltb config.pending_max (driver.align area)
            then (err einval, f, empty_context)
            else begin_area f image_size area
      ]

  abbrev pub count_written : (size : ℕ) → Rc × F × Context → Rc × F × Context
  count_written size (err c, f, ctx) = (err c, f, ctx)
  count_written size (ok, f, ctx) = (ok, f, record ctx { written = ctx.written + size })

  unfoldable pub store_write : F → Context → (offset : ℕ) → List ℕ → Rc × F × Context
  store_write f ctx offset bytes =
      if not ctx.active
      then (err einval, f, ctx)
      else if not (offset == ctx.written)
      then (err einval, f, ctx)
      else if ltb (sub32 ctx.expected_size ctx.written) (length bytes)
      then (err efbig, f, ctx)
      else count_written (length bytes) (store_write_flash f ctx offset bytes)

  -- The checks of `rtbus_image_store_finish` on the header that was read, and the commit.
  unfoldable pub finish_checked : F → Context → ImageHeader → Rc × F
  finish_checked f ctx header =
      let (rc, crc) = calculate_store_payload_crc driver config f ctx header.payload_size in
      if ltb (sub32 ctx.expected_size header_size) header.payload_size
      then (err ebadmsg, f)
      else if ltb config.ram_max header.required_ram_size
      then (err enomem, f)
      else elim rc [
        | err c ↦ (err c, f)
        | ok ↦
            if not (crc == header.payload_crc32)
            then (err ebadmsg, f)
            else commit_store_to_slot f ctx
      ]

  -- `rtbus_image_store_finish` with status 0 of an image that is complete.
  abbrev pub after_header : F → Context → Rc × ImageHeader → Rc × F
  after_header f ctx (err c, header) = (err c, f)
  after_header f ctx (ok, header) = finish_checked f ctx header

  abbrev pub after_flush : Rc × F × Context → Rc × F
  after_flush (err c, f, ctx) = (err c, f)
  after_flush (ok, f, ctx) = after_header f ctx (read_header_from_store driver config f ctx)

  unfoldable pub finish_active : F → Context → (status : Rc) → Rc × F
  finish_active f ctx status = elim status [
    | err c ↦ (err c, f)
    | ok ↦
        if not (ctx.written == ctx.expected_size)
        then (err eio, f)
        else after_flush (flush_flash f ctx true)
  ]

  unfoldable pub store_finish : F → Context → (status : Rc) → Rc × F × Context
  store_finish f ctx status =
      let (rc, f') = finish_active f ctx status in
      if not ctx.active then (err einval, f, ctx) else (rc, f', empty_context)
