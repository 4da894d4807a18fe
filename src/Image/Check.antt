-- ===== src/Image/Check.antt =====
-- The checks of `rtbus_image_store_finish` on the header, the RAM and the CRC.
use mathlib.Core.Path.{subst}
use rtbus.Base.{
  ℕ, ◌-◌, ◌^◌, ◌≤◌, ◌<◌, ◌≡◌, refl, sym, ap, Bool, true, false, not, ◌||◌, List, [], arith, ltb,
  ◌==◌, if◌then◌else◌, length, take, drop, ◌∙◌, some,
}
use rtbus.Base.Rc.{Rc, ok, err, einval, enodata, enomem, ebadmsg}
use rtbus.Base.Word.{sub32}
use rtbus.Image.Header.{ImageHeader, decode, is_valid, is_valid-fits}
use rtbus.Image.{
  Driver, Config, Context, calculate_store_payload_crc, no_header, store_read, read_area,
  read_header_from_store,
}
use rtbus.Image.Store.{commit_store_to_slot, finish_checked}
use rtbus.Image.Flash.{slice, IsDriver, take-slice, drop-slice}
use rtbus.Image.Crc.{IsCrc, crc_from-slice}
use rtbus.Image.Copy.{commit_store_to_slot-slice}

module _ {F : Type 0} (driver : Driver F) (config : Config) (bytes : F → ℕ → ℕ → ℕ)
    (laws : IsDriver driver bytes) where
  -- The store is complete, and its area holds `c`.
  pub record IsWhole (f : F) (ctx : Context) (c : List ℕ) : Type 0 where
    pub flash_area : ctx.flash_area ≡ some config.store_area
    pub complete : ctx.expected_size ≡ length c
    pub held : slice (bytes f config.store_area) 0 (length c) ≡ c

  -- What a finish without an error promises of the bytes that were received.
  pub record IsStored (f : F) (size : ℕ) (c : List ℕ) : Type 0 where
    pub received : length c ≡ size
    pub valid : is_valid (decode (take 128 c)) (length c - 128) ≡ true
    pub runnable : (decode (take 128 c)).required_ram_size ≤ config.ram_max
    pub intact :
        config.crc32_ieee_update 0 (take (decode (take 128 c)).payload_size (drop 128 c))
        ≡ (decode (take 128 c)).payload_crc32
    pub in_slot : slice (bytes f config.slot_area) 0 (length c) ≡ c

  store_read-slice :
      (f : F) (ctx : Context) (offset size : ℕ)
      → ctx.flash_area ≡ some config.store_area
      → (store_read driver config f ctx offset size).0 ≡ ok
      → (store_read driver config f ctx offset size).1
        ≡ slice (bytes f config.store_area) offset size
  unfolding store_read
  store_read-slice f ctx offset size at =
      within (ltb ctx.written offset || ltb (sub32 ctx.written offset) size) (
        subst (λ o. IsRead (read_area driver config f offset size o)) (sym at)
          (inside (
            ltb (driver.fa_size config.store_area) offset
            || ltb (sub32 (driver.fa_size config.store_area) offset) size)))
    where
      IsRead : Rc × List ℕ → Type 0
      IsRead o = o.0 ≡ ok → o.1 ≡ slice (bytes f config.store_area) offset size

      within :
          (out : Bool)
          → IsRead (read_area driver config f offset size ctx.flash_area)
          → IsRead (
              if out
              then (err einval, [])
              else read_area driver config f offset size ctx.flash_area)
      within true h e = absurd (ground (arith, e))
      within false h e = h e

      inside :
          (out : Bool)
          → IsRead (if out then (err einval, []) else driver.read config.store_area offset size f)
      inside true e = absurd (ground (arith, e))
      inside false e = laws.read_ok config.store_area offset size f e

  -- The header that was read is the one in the bytes, and it is valid.
  pub read_header_from_store-decode :
      (f : F) (ctx : Context) (c : List ℕ) (header : ImageHeader)
      → IsWhole f ctx c
      → 128 ≤ length c
      → length c < 2 ^ 32
      → read_header_from_store driver config f ctx ≡ (ok, header)
      → (header ≡ decode (take 128 c)) × (is_valid header (length c - 128) ≡ true)
  unfolding read_header_from_store
  read_header_from_store-decode f ctx c header w long small e =
      answered (store_read driver config f ctx 0 128) (store_read-slice f ctx 0 128 w.flash_area) e
    where
      capacity : sub32 ctx.expected_size 128 ≡ length c - 128
      capacity = ground (arith, w.complete, long, small)

      head : slice (bytes f config.store_area) 0 128 ≡ take 128 c
      head =
          sym (take-slice (bytes f config.store_area) 0 128 (length c) long)
          ∙ ap (λ xs. take 128 xs) w.held

      IsHeader : Rc × ImageHeader → Type 0
      IsHeader o =
          o ≡ (ok, header)
          → (header ≡ decode (take 128 c)) × (is_valid header (length c - 128) ≡ true)

      tested :
          (xs : List ℕ) (b : Bool)
          → xs ≡ take 128 c
          → is_valid (decode xs) (sub32 ctx.expected_size 128) ≡ b
          → IsHeader (if not b then (err enodata, decode xs) else (ok, decode xs))
      tested xs false same d h = absurd (ground (arith, ap (λ r. r.0) h))
      tested xs true same d h =
          let right : decode xs ≡ header = ap (λ r. r.1) h in
          (
            sym right ∙ ap decode same,
            ap (λ g. is_valid g (length c - 128)) (sym right)
                ∙ ap (λ (z : ℕ). is_valid (decode xs) z) (sym capacity)
                ∙ d,
          )

      answered :
          (o : Rc × List ℕ)
          → (o.0 ≡ ok → o.1 ≡ slice (bytes f config.store_area) 0 128)
          → IsHeader (elim o.0 [
            | err c ↦ (err enodata, no_header driver config)
            | ok ↦
                if not (is_valid (decode o.1) (sub32 ctx.expected_size 128))
                then (err enodata, decode o.1)
                else (ok, decode o.1)
          ])
      answered (err c', xs) r h = absurd (ground (arith, ap (λ r. r.0) h))
      answered (ok, xs) r h = tested xs _ (r refl ∙ head) refl h

  -- The CRC that was computed is the one of the payload in the bytes.
  calculate_store_payload_crc-drop :
      (crc_laws : IsCrc config.crc32_ieee_update) (f : F) (ctx : Context) (c : List ℕ)
      (payload_size v : ℕ)
      → IsWhole f ctx c
      → payload_size ≤ length c - 128
      → calculate_store_payload_crc driver config f ctx payload_size ≡ (ok, v)
      → v ≡ config.crc32_ieee_update 0 (take payload_size (drop 128 c))
  unfolding calculate_store_payload_crc
  calculate_store_payload_crc-drop crc_laws f ctx c payload_size v w fits e =
      let g = bytes f config.store_area in
      let all : payload_size - 0 ≡ payload_size = omega arith in
      crc_from-slice driver config bytes laws crc_laws
        (λ offset size. store_read driver config f ctx offset size) g
        (λ offset size. store_read-slice f ctx offset size w.flash_area) payload_size payload_size 0
        0 v (ground arith) (omega arith) e
      ∙ ap (λ (z : ℕ). config.crc32_ieee_update 0 (slice g 128 z)) all
      ∙ ap (λ xs. config.crc32_ieee_update 0 xs)
          (sym (take-slice g 128 payload_size (length c - 128) fits)
            ∙ ap (λ xs. take payload_size xs)
                (sym (drop-slice g 0 128 (length c)) ∙ ap (λ xs. drop 128 xs) w.held))

  pub finish_checked-IsStored :
      (crc_laws : IsCrc config.crc32_ieee_update) (f : F) (ctx : Context) (c : List ℕ)
      (header : ImageHeader) (f' : F)
      → IsWhole f ctx c
      → header ≡ decode (take 128 c)
      → is_valid header (length c - 128) ≡ true
      → finish_checked driver config f ctx header ≡ (ok, f')
      → IsStored f' ctx.expected_size c
  unfolding finish_checked
  finish_checked-IsStored crc_laws f ctx c header f' w same valid e =
      checked (ltb (sub32 ctx.expected_size 128) header.payload_size)
        (ltb config.ram_max header.required_ram_size)
        (calculate_store_payload_crc driver config f ctx header.payload_size) refl refl e
    where
      stored :
          (v : ℕ)
          → ltb config.ram_max header.required_ram_size ≡ false
          → calculate_store_payload_crc driver config f ctx header.payload_size ≡ (ok, v)
          → (v == header.payload_crc32) ≡ true
          → commit_store_to_slot driver config f ctx ≡ (ok, f')
          → IsStored f' ctx.expected_size c
      stored v ram crc right h = record {
        received = sym w.complete;
        valid = subst (λ g. is_valid g (length c - 128) ≡ true) same valid;
        runnable = subst (λ g. g.required_ram_size ≤ config.ram_max) same (ground (arith, ram));
        intact =
            subst
              (λ g. config.crc32_ieee_update 0 (take g.payload_size (drop 128 c)) ≡ g.payload_crc32)
              same
              (sym (
                  calculate_store_payload_crc-drop crc_laws f ctx c header.payload_size v w
                    (is_valid-fits header (length c - 128) valid) crc)
                ∙ ground (arith, right));
        in_slot =
            subst
              (λ (n : ℕ).
                slice (bytes f' config.slot_area) 0 n ≡ slice (bytes f config.store_area) 0 n)
              w.complete
              (commit_store_to_slot-slice driver config bytes laws f ctx f' w.flash_area h)
            ∙ w.held;
      }

      right_crc :
          (v : ℕ) (b : Bool)
          → ltb config.ram_max header.required_ram_size ≡ false
          → calculate_store_payload_crc driver config f ctx header.payload_size ≡ (ok, v)
          → (v == header.payload_crc32) ≡ b
          → (if not b then (err ebadmsg, f) else commit_store_to_slot driver config f ctx)
            ≡ (ok, f')
          → IsStored f' ctx.expected_size c
      right_crc v false ram crc d h = absurd (ground (arith, ap (λ r. r.0) h))
      right_crc v true ram crc d h = stored v ram crc d h

      checked :
          (over big : Bool) (o : Rc × ℕ)
          → ltb config.ram_max header.required_ram_size ≡ big
          → calculate_store_payload_crc driver config f ctx header.payload_size ≡ o
          → (if over then (err ebadmsg, f) else if big then (err enomem, f) else elim o.0 [
            | err c ↦ (err c, f)
            | ok ↦
                if not (o.1 == header.payload_crc32)
                then (err ebadmsg, f)
                else commit_store_to_slot driver config f ctx
          ])
            ≡ (ok, f')
          → IsStored f' ctx.expected_size c
      checked true b o ram crc h = absurd (ground (arith, ap (λ r. r.0) h))
      checked false true o ram crc h = absurd (ground (arith, ap (λ r. r.0) h))
      checked false false (err c', v) ram crc h = absurd (ground (arith, ap (λ r. r.0) h))
      checked false false (ok, v) ram crc h = right_crc v (v == header.payload_crc32) ram crc refl h
