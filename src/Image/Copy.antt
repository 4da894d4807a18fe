-- ===== src/Image/Copy.antt =====
-- `rtbus_image_commit_store_to_slot`: the slot holds what the store holds.
use mathlib.Core.Path.{subst}
use mathlib.Core.List.{append-nil, append_assoc}
use rtbus.Base.{
  ℕ, zero, suc, ◌+◌, ◌-◌, min, ◌≤◌, ◌≡◌, refl, sym, ap, Bool, true, false, not, ◌||◌, List, ◌++◌,
  arith, ltb, leb, ◌==◌, if◌then◌else◌, length, replicate, ◌∙◌, some,
}
use rtbus.Base.Rc.{Rc, ok, err, einval, efbig}
use rtbus.Image.{Driver, Config, Context, round_up}
use rtbus.Image.Store.{copy_from, commit_from, commit_area, commit_store_to_slot}
use rtbus.Image.Flash.{
  slice, IsDriver, slice-same, slice-append, length-slice, slice-padded, slice-other,
}

module _ {F : Type 0} (driver : Driver F) (config : Config) (bytes : F → ℕ → ℕ → ℕ)
    (laws : IsDriver driver bytes) where
  copied_all :
      (f f' : F) (n offset : ℕ)
      → n - offset ≡ 0
      → offset ≤ n
      → f ≡ f'
      → slice (bytes f' config.slot_area) 0 n
        ≡ slice (bytes f config.slot_area) 0 offset
          ++ slice (bytes f config.store_area) offset (n - offset)
  copied_all f f' n offset nothing low same =
      let old = slice (bytes f config.slot_area) 0 offset in
      let all : n ≡ offset = omega (arith, nothing, low) in
      ap (λ h. slice (bytes h config.slot_area) 0 n) (sym same)
      ∙ ap (λ (z : ℕ). slice (bytes f config.slot_area) 0 z) all
      ∙ sym (append-nil old)
      ∙ ap (λ z. old ++ slice (bytes f config.store_area) offset z) (sym nothing)

  -- The loop of the commit: the bytes of the store from `offset` on are in the slot.
  copy_from-slice :
      (fuel : ℕ) (f : F) (n align offset : ℕ) (f' : F)
      → (config.store_area == config.slot_area) ≡ false
      → n - offset ≤ fuel
      → offset ≤ n
      → copy_from driver config fuel f config.store_area config.slot_area n align offset ≡ (ok, f')
      → slice (bytes f' config.slot_area) 0 n
        ≡ slice (bytes f config.slot_area) 0 offset
          ++ slice (bytes f config.store_area) offset (n - offset)
  unfolding copy_from
  copy_from-slice zero f n align offset f' apart enough low e =
      copied_all f f' n offset (omega (arith, enough)) low (ap (λ r. r.1) e)
  copy_from-slice (suc fuel) f n align offset f' apart enough low e =
      round (leb n offset) (driver.read config.store_area offset (min 128 (n - offset)) f) refl
        (laws.read_ok config.store_area offset (min 128 (n - offset)) f) e
        λ d f1 h.
          copy_from-slice fuel f1 n align (offset + min 128 (n - offset)) f' apart
            (ground (arith, d, enough)) (ground (arith, d)) h
    where
      size : ℕ
      size = min 128 (n - offset)

      slot : F → ℕ → ℕ
      slot h = bytes h config.slot_area

      store : F → ℕ → ℕ
      store h = bytes h config.store_area

      joined :
          (ys padding : List ℕ) (w : Rc × F)
          → ys ≡ slice (store f) offset size
          → (w.0 ≡ ok → slice (slot w.1) 0 (offset + length ys) ≡ slice (slot f) 0 offset ++ ys)
          → (w.0 ≡ ok → (at len : ℕ) → slice (store w.1) at len ≡ slice (store f) at len)
          → elim w.0 [
            | err c ↦ (err c, w.1)
            | ok ↦
                copy_from driver config fuel w.1 config.store_area config.slot_area n align
                  (offset + size)
          ]
            ≡ (ok, f')
          → ((f1 : F)
              → copy_from driver config fuel f1 config.store_area config.slot_area n align
                  (offset + size)
                ≡ (ok, f')
              → slice (slot f') 0 n
                ≡ slice (slot f1) 0 (offset + size)
                  ++ slice (store f1) (offset + size) (n - (offset + size)))
          → slice (slot f') 0 n ≡ slice (slot f) 0 offset ++ slice (store f) offset (n - offset)
      joined ys padding (err c, f1) same grown other e ih = absurd (ground (arith, ap (λ r. r.0) e))
      joined ys padding (ok, f1) same grown other e ih =
          let rest = n - (offset + size) in
          let parts : size + rest ≡ n - offset = omega arith in
          let long : length ys ≡ size = ap length same ∙ length-slice (store f) offset size in
          ih f1 e
          ∙ ap (λ (z : ℕ). slice (slot f1) 0 (offset + z) ++ slice (store f1) (offset + size) rest)
              (sym long)
          ∙ rw (grown refl, other refl (offset + size) rest, same)
              (append_assoc (slice (slot f) 0 offset) (slice (store f) offset size)
                  (slice (store f) (offset + size) rest)
                ∙ ap (λ zs. slice (slot f) 0 offset ++ zs)
                    (sym (slice-append (store f) offset size rest)
                      ∙ ap (λ z. slice (store f) offset z) parts))

      round :
          (done : Bool) (o : Rc × List ℕ)
          → leb n offset ≡ done
          → (o.0 ≡ ok → o.1 ≡ slice (store f) offset size)
          → (let w =
                driver.write config.slot_area offset
                  (o.1 ++ replicate (round_up size align - size) 255)
                  f in
              if done then (ok, f) else elim o.0 [
                | err c ↦ (err c, f)
                | ok ↦ elim w.0 [
                  | err c ↦ (err c, w.1)
                  | ok ↦
                      copy_from driver config fuel w.1 config.store_area config.slot_area n align
                        (offset + size)
                ]
              ])
            ≡ (ok, f')
          → (done ≡ false
              → (f1 : F)
              → copy_from driver config fuel f1 config.store_area config.slot_area n align
                  (offset + size)
                ≡ (ok, f')
              → slice (slot f') 0 n
                ≡ slice (slot f1) 0 (offset + size)
                  ++ slice (store f1) (offset + size) (n - (offset + size)))
          → slice (slot f') 0 n ≡ slice (slot f) 0 offset ++ slice (store f) offset (n - offset)
      round true o d r e ih = copied_all f f' n offset (ground (arith, d)) low (ap (λ r. r.1) e)
      round false (err c, ys) d r e ih = absurd (ground (arith, ap (λ r. r.0) e))
      round false (ok, ys) d r e ih =
          let padding = replicate (round_up size align - size) 255 in
          joined ys padding (driver.write config.slot_area offset (ys ++ padding) f) (r refl)
            (λ k. slice-padded driver bytes laws config.slot_area f offset ys padding k)
            (λ k at len.
              slice-other driver bytes laws config.slot_area f config.store_area at offset len
                (ys ++ padding) apart k)
            e (ih refl)

  -- The commit: the bytes of the store that were expected are in the slot.
  pub commit_store_to_slot-slice :
      (f : F) (ctx : Context) (f' : F)
      → ctx.flash_area ≡ some config.store_area
      → commit_store_to_slot driver config f ctx ≡ (ok, f')
      → slice (bytes f' config.slot_area) 0 ctx.expected_size
        ≡ slice (bytes f config.store_area) 0 ctx.expected_size
  unfolding commit_store_to_slot commit_from
  commit_store_to_slot-slice f ctx f' at e =
      full (not (ctx.written == ctx.expected_size))
        (subst (λ o. commit_area driver config f ctx o ≡ (ok, f')) at e)
    where
      slot : ℕ
      slot = config.slot_area

      store : ℕ
      store = config.store_area

      Goal : Type 0
      Goal = slice (bytes f' slot) 0 ctx.expected_size ≡ slice (bytes f store) 0 ctx.expected_size

      all : ctx.expected_size - 0 ≡ ctx.expected_size
      all = omega arith

      flattened :
          (store == slot) ≡ false
          → (o : Rc × F) → (o.0 ≡ ok → (i : ℕ) → bytes o.1 store i ≡ bytes f store i)
          → elim o.0 [
            | err c ↦ (err c, o.1)
            | ok ↦
                copy_from driver config ctx.expected_size o.1 store slot ctx.expected_size
                  (driver.align slot)
                  0
          ]
            ≡ (ok, f')
          → Goal
      flattened apart (err c, f1) kept h = absurd (ground (arith, ap (λ r. r.0) h))
      flattened apart (ok, f1) kept h =
          copy_from-slice ctx.expected_size f1 ctx.expected_size (driver.align slot) 0 f' apart
            (omega arith) (omega arith) h
          ∙ ap (λ z. slice (bytes f1 store) 0 z) all
          ∙ slice-same (bytes f store) (bytes f1 store) 0 ctx.expected_size λ i l u. kept refl i

      opened :
          (o : Rc) (big bad : Bool)
          → (store == slot) ≡ false
          → elim o [
            | err c ↦ (err c, f)
            | ok ↦
                if big
                then (err efbig, f)
                else if bad
                then (err einval, f)
                else elim (driver.flatten slot f).0 [
                  | err c ↦ (err c, (driver.flatten slot f).1)
                  | ok ↦
                      copy_from driver config ctx.expected_size
                        (driver.flatten slot f).1
                        store
                        slot
                        ctx.expected_size
                        (driver.align slot)
                        0
                ]
          ]
            ≡ (ok, f')
          → Goal
      opened (err c) g b apart h = absurd (ground (arith, ap (λ r. r.0) h))
      opened ok true b apart h = absurd (ground (arith, ap (λ r. r.0) h))
      opened ok false true apart h = absurd (ground (arith, ap (λ r. r.0) h))
      opened ok false false apart h =
          flattened apart (driver.flatten slot f) (λ k i. laws.flatten_ok slot f k store i apart) h

      one_area :
          (b : Bool) (o : Rc × F)
          → (store == slot) ≡ b
          → ((store == slot) ≡ false → o ≡ (ok, f') → Goal)
          → (if b then (ok, f) else o) ≡ (ok, f')
          → Goal
      one_area false o d two h = two d h
      one_area true o d two h =
          subst
            (λ g.
              slice (bytes g slot) 0 ctx.expected_size ≡ slice (bytes f store) 0 ctx.expected_size)
            (ap (λ r. r.1) h)
            (ap (λ (a : ℕ). slice (bytes f a) 0 ctx.expected_size) (ground (arith, d)))

      full :
          (partial : Bool)
          → (if partial then (err einval, f) else commit_from driver config f ctx store) ≡ (ok, f')
          → Goal
      full true h = absurd (ground (arith, ap (λ r. r.0) h))
      full false h =
          one_area (store == slot) _ refl
            (λ apart k.
              opened (driver.open_area slot f) (ltb (driver.fa_size slot) ctx.expected_size)
                ((driver.align slot == 0) || ltb 128 (driver.align slot)) apart k)
            h
