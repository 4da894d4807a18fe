-- ===== src/Image/Session.antt =====
-- The store between its begin and its finish: the flash and the pending bytes hold what was written.
use mathlib.Core.Path.{subst}
use mathlib.Core.List.{append-nil, append_assoc}
use rtbus.Base.{
  ℕ, zero, suc, ◌+◌, ◌-◌, ◌^◌, min, ◌≤◌, ◌<◌, ◌≡◌, refl, sym, ap, inl, inr, ◌⊎◌, Bool, true, false,
  not, List, [], ◌∷◌, ◌++◌, arith, ltb, ◌==◌, if◌then◌else◌, length, take, drop, replicate,
  Bool-cases, length-append, length-take, length-drop, take-append-drop, ◌∙◌, some,
}
use rtbus.Base.Rc.{Rc, ok, err, Errno, einval, efbig}
use rtbus.Base.Word.{sub32}
use rtbus.Image.{Driver, Config, Context}
use rtbus.Image.Store.{
  flush_flash, write_from, write_area, store_write_flash, store_write, count_written,
}
use rtbus.Image.Flash.{slice, IsDriver}
use rtbus.Image.Flush.{
  contents, IsFlush, Fault, Outcome, broke, went, Outcome-map, flush_flash-Outcome,
}

module _ {F : Type 0} (driver : Driver F) (config : Config) (bytes : F → ℕ → ℕ → ℕ)
    (laws : IsDriver driver bytes) (area : ℕ) where
  -- A write that went well.
  pub record IsWrite (f : F) (ctx : Context) (xs : List ℕ) (f' : F) (ctx' : Context) : Type 0 where
    pub flash_area : ctx'.flash_area ≡ ctx.flash_area
    pub expected_size : ctx'.expected_size ≡ ctx.expected_size
    pub written : ctx'.written ≡ ctx.written
    pub flash_align : ctx'.flash_align ≡ ctx.flash_align
    pub active : ctx'.active ≡ ctx.active
    pub held :
        contents driver config bytes laws area f' ctx'
        ≡ contents driver config bytes laws area f ctx ++ xs
    pub room : length ctx'.flash_pending < config.pending_max

  -- The pending bytes with some more of them.
  abbrev more : Context → List ℕ → Context
  more ctx xs = record ctx { flash_pending = ctx.flash_pending ++ xs }

  IsWrite-IsFlush :
      (f : F) (ctx : Context) (n : ℕ) (xs : List ℕ) (f' : F) (ctx' : Context) (f'' : F)
      (ctx'' : Context)
      → length (ctx.flash_pending ++ take n xs) ≤ config.pending_max
      → IsFlush driver config bytes laws area f (more ctx (take n xs)) false f' ctx'
      → IsWrite f' ctx' (drop n xs) f'' ctx''
      → IsWrite f ctx xs f'' ctx''
  IsWrite-IsFlush f ctx n xs f' ctx' f'' ctx'' small k w = record {
    flash_area = w.flash_area ∙ k.flash_area;
    expected_size = w.expected_size ∙ k.expected_size;
    written = w.written ∙ k.written;
    flash_align = w.flash_align ∙ k.flash_align;
    active = w.active ∙ k.active;
    held =
        w.held
        ∙ ap (λ ys. ys ++ drop n xs) (k.held ∙ unpadded)
        ∙ append_assoc (contents driver config bytes laws area f ctx) (take n xs) (drop n xs)
        ∙ ap (λ ys. contents driver config bytes laws area f ctx ++ ys) (take-append-drop n xs);
    room = w.room;
  }
    where
      unpadded :
          contents driver config bytes laws area f (more ctx (take n xs)) ++ replicate k.padding 255
          ≡ contents driver config bytes laws area f ctx ++ take n xs
      unpadded =
          ap
            (λ (z : ℕ).
              contents driver config bytes laws area f (more ctx (take n xs)) ++ replicate z 255)
            (k.whole refl small)
          ∙ append-nil (contents driver config bytes laws area f (more ctx (take n xs)))
          ∙ sym (
              append_assoc (slice (bytes f area) 0 ctx.flash_write_offset) ctx.flash_pending
                (take n xs))

  IsWrite-nothing :
      (f : F) (ctx : Context)
      → length ctx.flash_pending < config.pending_max
      → IsWrite f ctx [] f ctx
  IsWrite-nothing f ctx room = record {
    flash_area = refl;
    expected_size = refl;
    written = refl;
    flash_align = refl;
    active = refl;
    held = sym (append-nil (contents driver config bytes laws area f ctx));
    room = room;
  }

  -- One round of the loop, and the rest of it.
  IsWrite-round :
      (fuel : ℕ) (f : F) (ctx : Context) (n : ℕ) (xs : List ℕ) (o : Rc × F × Context)
      → length (ctx.flash_pending ++ take n xs) ≤ config.pending_max
      → Outcome driver config bytes laws area
          (Fault driver config bytes laws area ctx.flash_align)
          (λ f' ctx'. IsFlush driver config bytes laws area f (more ctx (take n xs)) false f' ctx')
          o
      → ((f' : F) (ctx' : Context)
          → IsFlush driver config bytes laws area f (more ctx (take n xs)) false f' ctx'
          → Outcome driver config bytes laws area
              (Fault driver config bytes laws area ctx'.flash_align)
              (λ f'' ctx''. IsWrite f' ctx' (drop n xs) f'' ctx'')
              (write_from driver config fuel f' ctx' (drop n xs)))
      → Outcome driver config bytes laws area
          (Fault driver config bytes laws area ctx.flash_align)
          (λ f' ctx'. IsWrite f ctx xs f' ctx')
          (elim o.0 [
            | err c ↦ (err c, o.1, o.2)
            | ok ↦ write_from driver config fuel o.1 o.2 (drop n xs)
          ])
  IsWrite-round fuel f ctx n xs o small (broke why) rest = broke why
  IsWrite-round fuel f ctx n xs o small (went {f = f'} {ctx = ctx'} k) rest =
      Outcome-map driver config bytes laws area
        (Fault driver config bytes laws area ctx'.flash_align)
        (Fault driver config bytes laws area ctx.flash_align)
        (λ f'' ctx''. IsWrite f' ctx' (drop n xs) f'' ctx'')
        (λ f'' ctx''. IsWrite f ctx xs f'' ctx'') _
        (λ c why. subst (λ (z : ℕ). Fault driver config bytes laws area z c) k.flash_align why)
        (λ f'' ctx'' w. IsWrite-IsFlush f ctx n xs f' ctx' f'' ctx'' small k w) (rest f' ctx' k)

  write_from-Outcome :
      (fuel : ℕ) (f : F) (ctx : Context) (xs : List ℕ)
      → length xs ≤ fuel
      → ctx.flash_area ≡ some area
      → length ctx.flash_pending < config.pending_max
      → Outcome driver config bytes laws area
          (Fault driver config bytes laws area ctx.flash_align)
          (λ f' ctx'. IsWrite f ctx xs f' ctx')
          (write_from driver config fuel f ctx xs)
  unfolding write_from
  write_from-Outcome zero f ctx [] h at room = went (IsWrite-nothing f ctx room)
  write_from-Outcome (suc fuel) f ctx [] h at room = went (IsWrite-nothing f ctx room)
  write_from-Outcome zero f ctx (x ∷ xs) h at room = absurd (omega (arith, h))
  write_from-Outcome (suc fuel) f ctx (x ∷ xs) h at room =
      let n = min (length (x ∷ xs)) (config.pending_max - length ctx.flash_pending) in
      let taken : length (ctx.flash_pending ++ take n (x ∷ xs)) ≤ config.pending_max =
        ground (arith, length-append ctx.flash_pending (take n (x ∷ xs)), length-take n (x ∷ xs)) in
      let some_more : (length (x ∷ xs) == 0) ≡ false = ground arith in
      rw some_more (
        IsWrite-round fuel f ctx n (x ∷ xs)
          (flush_flash driver config f (more ctx (take n (x ∷ xs))) false) taken
          (flush_flash-Outcome driver config bytes laws area f (more ctx (take n (x ∷ xs))) false
            at)
          λ f' ctx' k.
            write_from-Outcome fuel f' ctx' (drop n (x ∷ xs))
              (ground (arith, length-drop n (x ∷ xs))) (k.flash_area ∙ at)
              (k.room taken (omega (arith, room))))

  -- The store is open, and `c` was written to it.
  pub record IsOpen (f : F) (ctx : Context) (c : List ℕ) : Type 0 where
    pub flash_area : ctx.flash_area ≡ some area
    pub active : ctx.active ≡ true
    pub held : contents driver config bytes laws area f ctx ≡ c
    pub written : ctx.written ≡ length c
    pub room : length ctx.flash_pending < config.pending_max
    pub bounded : length c ≤ ctx.expected_size
    pub fits : ctx.expected_size ≤ driver.fa_size area
    pub headed : 128 ≤ ctx.expected_size
    pub small : ctx.expected_size < 2 ^ 32

  IsOpen-IsWrite :
      (f : F) (ctx : Context) (c xs : List ℕ) (f' : F) (ctx' : Context)
      → IsOpen f ctx c
      → ctx.written + length xs ≤ ctx.expected_size
      → IsWrite f ctx xs f' ctx'
      → IsOpen f' (record ctx' { written = ctx'.written + length xs }) (c ++ xs)
  IsOpen-IsWrite f ctx c xs f' ctx' v fits w = record {
    flash_area = w.flash_area ∙ v.flash_area;
    active = w.active ∙ v.active;
    held = w.held ∙ ap (λ ys. ys ++ xs) v.held;
    written = omega (arith, w.written, v.written, length-append c xs);
    room = w.room;
    bounded = omega (arith, length-append c xs, w.expected_size, v.written, fits);
    fits = omega (arith, w.expected_size, v.fits);
    headed = omega (arith, w.expected_size, v.headed);
    small = omega (arith, w.expected_size, v.small);
  }

  -- Why a write fails: a flush fails, or there is no room for the bytes.
  pub data WriteFault (ctx : Context) (xs : List ℕ) : Errno → Type 0 where
    flush_failed :
        {c : Errno} → Fault driver config bytes laws area ctx.flash_align c → WriteFault ctx xs c
    too_long : ctx.expected_size < ctx.written + length xs → WriteFault ctx xs efbig

  -- The outcome of a write to an open store at the end of what was written: an error with its cause, or
  -- the bytes are behind those that were written before, on the flash and in the pending bytes, and the
  -- store is open as before, for the same size and with the same alignment.
  pub store_write-Outcome :
      (f : F) (ctx : Context) (c xs : List ℕ)
      → IsOpen f ctx c
      → Outcome driver config bytes laws area
          (WriteFault ctx xs)
          (λ f' ctx'.
            IsOpen f' ctx' (c ++ xs)
            × (ctx'.expected_size ≡ ctx.expected_size)
            × (ctx'.flash_align ≡ ctx.flash_align))
          (store_write driver config f ctx (length c) xs)
  unfolding store_write store_write_flash
  store_write-Outcome f ctx c xs v =
      simp (v.active, here)
        (sized (Bool-cases (ltb (sub32 ctx.expected_size ctx.written) (length xs))))
    where
      here : (length c == ctx.written) ≡ true
      here = ground (arith, v.written)

      counted :
          (o : Rc × F × Context)
          → ctx.written + length xs ≤ ctx.expected_size
          → Outcome driver config bytes laws area
              (Fault driver config bytes laws area ctx.flash_align)
              (λ f' ctx'. IsWrite f ctx xs f' ctx')
              o
          → Outcome driver config bytes laws area
              (WriteFault ctx xs)
              (λ f' ctx'.
                IsOpen f' ctx' (c ++ xs)
                × (ctx'.expected_size ≡ ctx.expected_size)
                × (ctx'.flash_align ≡ ctx.flash_align))
              (count_written driver config (length xs) o)
      counted o fits (broke why) = broke (flush_failed why)
      counted o fits (went {f = f'} {ctx = ctx'} w) =
          went (IsOpen-IsWrite f ctx c xs f' ctx' v fits w, w.expected_size, w.flash_align)

      reached :
          (same : Bool)
          → same ≡ true
          → Outcome driver config bytes laws area
              (Fault driver config bytes laws area ctx.flash_align)
              (λ f' ctx'. IsWrite f ctx xs f' ctx')
              (if not same
                then (err einval, f, ctx)
                else write_from driver config (length xs) f ctx xs)
      reached true e = write_from-Outcome (length xs) f ctx xs (omega arith) v.flash_area v.room
      reached false e = absurd (ground (arith, e))

      sized :
          (ltb (sub32 ctx.expected_size ctx.written) (length xs) ≡ true)
            ⊎ (ltb (sub32 ctx.expected_size ctx.written) (length xs) ≡ false)
          → Outcome driver config bytes laws area
              (WriteFault ctx xs)
              (λ f' ctx'.
                IsOpen f' ctx' (c ++ xs)
                × (ctx'.expected_size ≡ ctx.expected_size)
                × (ctx'.flash_align ≡ ctx.flash_align))
              (if ltb (sub32 ctx.expected_size ctx.written) (length xs)
                then (err efbig, f, ctx)
                else count_written driver config
                    (length xs)
                    (store_write_flash driver config f ctx (length c) xs))
      sized (inl l) = simp l (broke (too_long (ground (arith, v.written, v.bounded, v.small, l))))
      sized (inr l) = simp l (
          counted (store_write_flash driver config f ctx (length c) xs)
            (ground (arith, v.written, v.bounded, v.small, l))
            (subst
              (λ o.
                Outcome driver config bytes laws area
                  (Fault driver config bytes laws area ctx.flash_align)
                  (λ f' ctx'. IsWrite f ctx xs f' ctx')
                  (write_area driver config f ctx (length c) xs o))
              (sym v.flash_area) (reached (length c == ctx.written) here)))
