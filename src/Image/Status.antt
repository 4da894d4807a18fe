-- ===== src/Image/Status.antt =====
-- `rtbus_image_get_status` and `rtbus_image_read_payload` after a transfer.
use mathlib.Core.Path.{subst}
use rtbus.Base.{
  ℕ, ◌+◌, ◌-◌, ◌≤◌, ◌<◌, ◌≡◌, refl, sym, ap, Bool, true, false, not, List, [], arith, leb, ◌==◌,
  ==_self, if◌then◌else◌, length, take, drop, min, ◌∙◌,
}
use rtbus.Base.Rc.{Rc, ok, err, enodata, ebadmsg}
use rtbus.Image.Header.{
  ImageHeader, decode, is_valid, is_valid-fits, is_valid-positive, is_valid_mono,
}
use rtbus.Image.{
  Driver, Config, no_header, payload_capacity, read_header_from_area, calculate_payload_crc,
  get_status, read_payload, checked_status, payload_of,
}
use rtbus.Image.Flash.{slice, IsDriver, take-slice, drop-slice}
use rtbus.Image.Crc.{IsCrc, crc_from-exact}
use rtbus.Image.Check.{IsStored}

room : (a n : ℕ) → 128 < a → a ≤ n → a - 128 ≤ (if leb n 128 then 0 else n - 128)
room a n long more = ground arith

module _ {F : Type 0} (driver : Driver F) (config : Config) (bytes : F → ℕ → ℕ → ℕ)
    (laws : IsDriver driver bytes) where
  -- The slot opens, and no read inside it fails.
  pub record IsReadable (f : F) : Type 0 where
    pub opened : driver.open_area config.slot_area f ≡ ok
    pub reads :
        (offset size : ℕ)
        → offset + size ≤ driver.fa_size config.slot_area
        → (driver.read config.slot_area offset size f).0 ≡ ok

  module _ (f : F) (size : ℕ) (c : List ℕ) (stored : IsStored driver config bytes laws f size c)
      (readable : IsReadable f) (fits : length c ≤ driver.fa_size config.slot_area) where
    abbrev slot : ℕ → ℕ
    slot = bytes f config.slot_area

    abbrev pub stored_header : ImageHeader
    stored_header = decode (take 128 c)

    slice_stored :
        (offset n : ℕ) → offset + n ≤ length c → slice slot offset n ≡ take n (drop offset c)
    slice_stored offset n inside =
        let here : offset ≡ 0 + offset = omega arith in
        ap (λ (z : ℕ). slice slot z n) here
        ∙ sym (take-slice slot (0 + offset) n (length c - offset) (omega (arith, inside)))
        ∙ ap (λ ys. take n ys)
            (sym (drop-slice slot 0 offset (length c)) ∙ ap (λ ys. drop offset ys) stored.in_slot)

    -- A read inside the image gives its bytes.
    read_slot :
        (offset n : ℕ)
        → offset + n ≤ driver.fa_size config.slot_area
        → driver.read config.slot_area offset n f ≡ (ok, slice slot offset n)
    read_slot offset n inside =
        answered (driver.read config.slot_area offset n f) (readable.reads offset n inside)
          (laws.read_ok config.slot_area offset n f)
      where
        answered :
            (o : Rc × List ℕ)
            → o.0 ≡ ok
            → (o.0 ≡ ok → o.1 ≡ slice slot offset n)
            → o ≡ (ok, slice slot offset n)
        answered (err c', xs) good r = absurd (ground (arith, good))
        answered (ok, xs) good r = ap (λ ys. (ok, ys)) (r refl)

    payload_fits : stored_header.payload_size ≤ length c - 128
    payload_fits = is_valid-fits stored_header (length c - 128) stored.valid

    long : 128 < length c
    long =
        omega (arith, payload_fits, is_valid-positive stored_header (length c - 128) stored.valid)

    read_header_stored :
        read_header_from_area driver config f config.slot_area ≡ (ok, stored_header)
    unfolding read_header_from_area
    read_header_stored =
        subst (λ o. IsHeader o)
          (sym (
            read_slot 0 128 (omega (arith, long, fits))
            ∙ ap (λ ys. (ok, ys)) (slice_stored 0 128 (omega (arith, long)))))
          (tested (is_valid stored_header (payload_capacity driver config config.slot_area)) right)
      where
        IsHeader : Rc × List ℕ → Type 0
        IsHeader o =
            ◌≡◌ {A = Rc × ImageHeader}
              (elim o.0 [
                | err c ↦ (err c, no_header driver config)
                | ok ↦
                    if not (is_valid (decode o.1) (payload_capacity driver config config.slot_area))
                    then (err enodata, decode o.1)
                    else (ok, decode o.1)
              ])
              (ok, stored_header)

        right : is_valid stored_header (payload_capacity driver config config.slot_area) ≡ true
        right =
            is_valid_mono stored_header (length c - 128)
              (payload_capacity driver config config.slot_area)
              (room (length c) (driver.fa_size config.slot_area) long fits) stored.valid

        tested :
            (b : Bool)
            → b ≡ true
            → ◌≡◌ {A = Rc × ImageHeader}
                (if not b then (err enodata, stored_header) else (ok, stored_header))
                (ok, stored_header)
        tested true e = refl
        tested false e = absurd (ground (arith, e))

    module _ (crc_laws : IsCrc config.crc32_ieee_update) where
      payload_crc_stored :
          calculate_payload_crc driver config f config.slot_area stored_header.payload_size
          ≡ (ok, stored_header.payload_crc32)
      unfolding calculate_payload_crc
      payload_crc_stored =
          let n = stored_header.payload_size in
          let all : n - 0 ≡ n = omega arith in
          crc_from-exact driver config bytes laws crc_laws
            (λ offset size. driver.read config.slot_area offset size f) slot n
            (λ offset size inside.
              read_slot offset size (omega (arith, inside, payload_fits, long, fits)))
            n 0 0 (ground arith) (omega arith)
          ∙ ap (λ (z : ℕ). (ok, config.crc32_ieee_update 0 (slice slot 128 z))) all
          ∙ ap (λ xs. (ok, config.crc32_ieee_update 0 xs))
              (slice_stored 128 n (omega (arith, payload_fits, long)))
          ∙ ap (λ v. (ok, v)) stored.intact

      -- The status after a transfer: no error, and the header of the bytes that were received.
      pub get_status-IsStored : get_status driver config f ≡ (ok, stored_header)
      unfolding get_status
      get_status-IsStored =
          subst
            (λ o. IsStatus (elim o [
              | err c ↦ (err c, no_header driver config)
              | ok ↦
                  checked_status driver config f
                    (read_header_from_area driver config f config.slot_area)
            ]))
            (sym readable.opened)
            (subst (λ o. IsStatus (checked_status driver config f o)) (sym read_header_stored)
              (subst
                (λ o. IsStatus (elim o.0 [
                  | err c ↦ (err c, stored_header)
                  | ok ↦
                      if o.1 == stored_header.payload_crc32
                      then (ok, stored_header)
                      else (err ebadmsg, stored_header)
                ]))
                (sym payload_crc_stored)
                (ap (λ b. if b then (ok, stored_header) else (err ebadmsg, stored_header))
                  (==_self stored_header.payload_crc32))))
        where
          IsStatus : Rc × ImageHeader → Type 0
          IsStatus o = o ≡ (ok, stored_header)

    -- The payload after a transfer: the bytes of the image behind its header.
    pub read_payload-IsStored :
        (offset n : ℕ)
        → offset < stored_header.payload_size
        → read_payload driver config f offset n
          ≡ (ok, take (min n (stored_header.payload_size - offset)) (drop (128 + offset) c))
    unfolding read_payload
    read_payload-IsStored offset n inside =
        subst
          (λ o. IsPayload (elim o [
            | err c ↦ (err c, [])
            | ok ↦
                payload_of driver config f offset n
                  (read_header_from_area driver config f config.slot_area)
          ]))
          (sym readable.opened)
          (subst (λ o. IsPayload (payload_of driver config f offset n o)) (sym read_header_stored)
            (subst
              (λ o. IsPayload (
                if leb stored_header.payload_size offset
                then (ok, [])
                else elim o.0 [ err c ↦ (err c, []) | ok ↦ (ok, o.1) ]))
              (sym (
                read_slot (128 + offset) len (omega (arith, payload_fits, fits, inside))
                ∙ ap (λ ys. (ok, ys))
                    (slice_stored (128 + offset) len (omega (arith, payload_fits, inside)))))
              (ap (λ b. if b then (ok, []) else (ok, take len (drop (128 + offset) c))) past)))
      where
        len : ℕ
        len = min n (stored_header.payload_size - offset)

        past : leb stored_header.payload_size offset ≡ false
        past = ground (arith, inside)

        IsPayload : Rc × List ℕ → Type 0
        IsPayload o = o ≡ (ok, take len (drop (128 + offset) c))
