-- ===== src/Image/Crc.antt =====
-- The CRC loops of `rtbus_image_calculate_payload_crc` and `rtbus_image_calculate_store_payload_crc`.
use mathlib.Core.Path.{subst}
use rtbus.Base.{
  ℕ, zero, suc, ◌+◌, ◌-◌, min, ◌<◌, ◌≤◌, ◌≡◌, refl, sym, ap, Bool, true, false, List, [], ◌++◌,
  arith, leb, if◌then◌else◌, ◌∙◌,
}
use rtbus.Base.Rc.{Rc, ok, err}
use rtbus.Image.{Driver, Config, crc_from}
use rtbus.Image.Flash.{slice, IsDriver, slice-append}

-- What the CRC of Zephyr promises: it is a 32-bit number, and bytes can be added in parts.
pub record IsCrc (update : ℕ → List ℕ → ℕ) : Type 0 where
  pub nothing : (crc : ℕ) → crc < 4294967296 → update crc [] ≡ crc
  pub small : (crc : ℕ) (xs : List ℕ) → update crc xs < 4294967296
  pub append : (crc : ℕ) (xs ys : List ℕ) → update (update crc xs) ys ≡ update crc (xs ++ ys)

module _ {F : Type 0} (driver : Driver F) (config : Config) (bytes : F → ℕ → ℕ → ℕ)
    (laws : IsDriver driver bytes) where
  -- The CRC of a part and then of the rest is the CRC of both.
  crc_parts :
      (crc_laws : IsCrc config.crc32_ieee_update) (g : ℕ → ℕ) (n offset size crc : ℕ)
      → size ≤ n - offset
      → config.crc32_ieee_update
          (config.crc32_ieee_update crc (slice g (128 + offset) size))
          (slice g (128 + (offset + size)) (n - (offset + size)))
        ≡ config.crc32_ieee_update crc (slice g (128 + offset) (n - offset))
  crc_parts crc_laws g n offset size crc small =
      let rest = n - (offset + size) in
      let parts : size + rest ≡ n - offset = omega (arith, small) in
      let next : 128 + (offset + size) ≡ 128 + offset + size = omega arith in
      crc_laws.append crc (slice g (128 + offset) size) (slice g (128 + (offset + size)) rest)
      ∙ ap (λ zs. config.crc32_ieee_update crc zs)
          (rw next (sym (slice-append g (128 + offset) size rest))
            ∙ ap (λ z. slice g (128 + offset) z) parts)

  -- The CRC loop over a way to read the bytes `g`.
  pub crc_from-slice :
      (crc_laws : IsCrc config.crc32_ieee_update) (read : ℕ → ℕ → Rc × List ℕ) (g : ℕ → ℕ)
      → ((offset size : ℕ) → (read offset size).0 ≡ ok → (read offset size).1 ≡ slice g offset size)
      → (fuel n offset crc v : ℕ) → crc < 4294967296
      → n - offset ≤ fuel
      → crc_from driver config fuel read n offset crc ≡ (ok, v)
      → v ≡ config.crc32_ieee_update crc (slice g (128 + offset) (n - offset))
  unfolding crc_from
  crc_from-slice crc_laws read g reads zero n offset crc v bits enough e =
      let nothing : n - offset ≡ 0 = omega (arith, enough) in
      rw (nothing, crc_laws.nothing crc bits) (sym (ap (λ r. r.1) e))
  crc_from-slice crc_laws read g reads (suc fuel) n offset crc v bits enough e =
      round (leb n offset) (read (128 + offset) (min 128 (n - offset))) refl
        (reads (128 + offset) (min 128 (n - offset))) e
        λ d crc' bits' h.
          crc_from-slice crc_laws read g reads fuel n (offset + min 128 (n - offset)) crc' v bits'
            (ground (arith, d, enough)) h
    where
      size : ℕ
      size = min 128 (n - offset)

      update : ℕ → List ℕ → ℕ
      update = config.crc32_ieee_update

      round :
          (done : Bool) (o : Rc × List ℕ)
          → leb n offset ≡ done
          → (o.0 ≡ ok → o.1 ≡ slice g (128 + offset) size)
          → (if done then (ok, crc) else elim o.0 [
            | err c ↦ (err c, 0)
            | ok ↦ crc_from driver config fuel read n (offset + size) (update crc o.1)
          ])
            ≡ (ok, v)
          → (done ≡ false
              → (crc' : ℕ) → crc' < 4294967296
              → crc_from driver config fuel read n (offset + size) crc' ≡ (ok, v)
              → v ≡ update crc' (slice g (128 + (offset + size)) (n - (offset + size))))
          → v ≡ update crc (slice g (128 + offset) (n - offset))
      round true o d r e ih =
          let nothing : n - offset ≡ 0 = ground (arith, d) in
          rw (nothing, crc_laws.nothing crc bits) (sym (ap (λ r. r.1) e))
      round false (err c, ys) d r e ih = absurd (ground (arith, ap (λ r. r.0) e))
      round false (ok, ys) d r e ih =
          ih refl (update crc ys) (crc_laws.small crc ys) e
          ∙ ap
              (λ zs. update (update crc zs) (slice g (128 + (offset + size)) (n - (offset + size))))
              (r refl)
          ∙ crc_parts crc_laws g n offset size crc (omega arith)

  -- Where no read fails, the loop ends with the CRC of the bytes.
  pub crc_from-exact :
      (crc_laws : IsCrc config.crc32_ieee_update) (read : ℕ → ℕ → Rc × List ℕ) (g : ℕ → ℕ)
      → (n : ℕ)
      → ((offset size : ℕ) → offset + size ≤ 128 + n → read offset size ≡ (ok, slice g offset size))
      → (fuel offset crc : ℕ) → crc < 4294967296
      → n - offset ≤ fuel
      → crc_from driver config fuel read n offset crc
        ≡ (ok, config.crc32_ieee_update crc (slice g (128 + offset) (n - offset)))
  unfolding crc_from
  crc_from-exact crc_laws read g n reads zero offset crc bits enough =
      let nothing : n - offset ≡ 0 = omega (arith, enough) in
      rw (nothing, crc_laws.nothing crc bits)
  crc_from-exact crc_laws read g n reads (suc fuel) offset crc bits enough =
      round (leb n offset) (read (128 + offset) size) refl
        (λ d. reads (128 + offset) size (ground (arith, d)))
        λ d.
          crc_from-exact crc_laws read g n reads fuel (offset + min 128 (n - offset))
            (config.crc32_ieee_update crc (slice g (128 + offset) (min 128 (n - offset))))
            (crc_laws.small crc _) (ground (arith, d, enough))
    where
      size : ℕ
      size = min 128 (n - offset)

      update : ℕ → List ℕ → ℕ
      update = config.crc32_ieee_update

      result : Rc × ℕ
      result = (ok, update crc (slice g (128 + offset) (n - offset)))

      some_bytes : List ℕ
      some_bytes = slice g (128 + offset) size

      go : List ℕ → Rc × ℕ
      go ys = crc_from driver config fuel read n (offset + size) (update crc ys)

      round :
          (done : Bool) (o : Rc × List ℕ)
          → leb n offset ≡ done
          → (done ≡ false → o ≡ (ok, some_bytes))
          → (done ≡ false
              → go some_bytes ≡ (
                ok,
                update
                    (update crc some_bytes)
                    (slice g (128 + (offset + size)) (n - (offset + size))),
              ))
          → (if done then (ok, crc) else elim o.0 [ err c ↦ (err c, 0) | ok ↦ go o.1 ]) ≡ result
      round true o d r ih =
          let nothing : n - offset ≡ 0 = ground (arith, d) in
          rw (nothing, crc_laws.nothing crc bits)
      round false o d r ih =
          subst (λ q. elim q.0 [ err c ↦ (err c, 0) | ok ↦ go q.1 ] ≡ result) (sym (r refl))
            (ih refl ∙ ap (λ v. (ok, v)) (crc_parts crc_laws g n offset size crc (omega arith)))
