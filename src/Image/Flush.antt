-- ===== src/Image/Flush.antt =====
-- A flush writes the pending bytes, with a fill behind them only at the end.
use mathlib.Core.Path.{subst}
use mathlib.Core.List.{append-nil, append_assoc}
use rtbus.Base.{
  ℕ, ◌+◌, ◌-◌, ◌%◌, ◌≤◌, ◌<◌, ◌≡◌, refl, sym, inl, inr, ◌⊎◌, Bool, true, false, not, ◌&&◌, ◌||◌,
  List, [], ◌∷◌, ◌++◌, arith, ltb, ◌==◌, if◌then◌else◌, length, replicate, Bool-cases, ◌∙◌, some,
}
use rtbus.Base.Rc.{Rc, ok, err, Errno, einval}
use rtbus.Image.{Driver, Config, Context, round_up}
use rtbus.Image.Store.{flush_bytes, flush_to, flush_area, flush_flash}
use rtbus.Image.Flash.{slice, IsDriver, slice-written}

module _ {F : Type 0} (driver : Driver F) (config : Config) (bytes : F → ℕ → ℕ → ℕ)
    (laws : IsDriver driver bytes) (area : ℕ) where
  -- What the store holds: the flash up to the write offset, and the pending bytes.
  abbrev pub contents : F → Context → List ℕ
  contents f ctx = slice (bytes f area) 0 ctx.flash_write_offset ++ ctx.flash_pending

  -- What a flush may do to a context.
  pub record IsFlush (f : F) (ctx : Context) (final : Bool) (f' : F) (ctx' : Context) : Type 0 where
    pub flash_area : ctx'.flash_area ≡ ctx.flash_area
    pub expected_size : ctx'.expected_size ≡ ctx.expected_size
    pub written : ctx'.written ≡ ctx.written
    pub flash_align : ctx'.flash_align ≡ ctx.flash_align
    pub active : ctx'.active ≡ ctx.active
    pub padding : ℕ
    pub held : contents f' ctx' ≡ contents f ctx ++ replicate padding 255
    pub whole : final ≡ false → length ctx.flash_pending ≤ config.pending_max → padding ≡ 0
    pub room :
        length ctx.flash_pending ≤ config.pending_max
        → 0 < config.pending_max
        → length ctx'.flash_pending < config.pending_max
    pub emptied : final ≡ true → ctx'.flash_pending ≡ []

  -- The outcome of an operation on the store.
  pub data Outcome (Why : Errno → Type 0) (P : F → Context → Type 0)
      : Rc × F × Context → Type 0 where
    broke : {c : Errno} {f : F} {ctx : Context} → Why c → Outcome Why P (err c, f, ctx)
    went : {f : F} {ctx : Context} → P f ctx → Outcome Why P (ok, f, ctx)

  -- The test of the alignment that every flush makes.
  abbrev pub is_misaligned : (align : ℕ) → Bool
  is_misaligned align =
      (align == 0) || ltb config.pending_max align || not (config.pending_max % align == 0)

  -- Why a flush fails: the alignment, or a write to the flash.
  pub data Fault (align : ℕ) : Errno → Type 0 where
    misaligned : is_misaligned align ≡ true → Fault align einval
    write_failed :
        {c : Errno} (f : F) (offset : ℕ) (xs : List ℕ)
        → (driver.write area offset xs f).0 ≡ err c
        → Fault align c

  IsFlush-self :
      (f : F) (ctx : Context) (final : Bool)
      → (length ctx.flash_pending ≡ 0)
        ⊎ ((final ≡ false) × (length ctx.flash_pending < config.pending_max))
      → IsFlush f ctx final f ctx
  IsFlush-self f ctx final why = record {
    flash_area = refl;
    expected_size = refl;
    written = refl;
    flash_align = refl;
    active = refl;
    padding = 0;
    held = sym (append-nil (contents f ctx));
    whole = λ e r. refl;
    room = λ r pos. small why pos;
    emptied = λ e. nothing ctx.flash_pending why e;
  }
    where
      small :
          (length ctx.flash_pending ≡ 0)
            ⊎ ((final ≡ false) × (length ctx.flash_pending < config.pending_max))
          → 0 < config.pending_max
          → length ctx.flash_pending < config.pending_max
      small (inl z) pos = omega (arith, z)
      small (inr l) pos = l.1

      nothing :
          (xs : List ℕ)
          → (length xs ≡ 0) ⊎ ((final ≡ false) × (length xs < config.pending_max))
          → final ≡ true
          → xs ≡ []
      nothing [] w e = refl
      nothing (x ∷ xs) (inl z) e = absurd (omega (arith, z))
      nothing (x ∷ xs) (inr l) e = absurd (ground (arith, l.0, e))

  flush_to-Outcome :
      (f : F) (ctx : Context) (final : Bool)
      → (final ≡ false → config.pending_max ≤ length ctx.flash_pending)
      → Outcome
          (Fault ctx.flash_align)
          (λ f' ctx'. IsFlush f ctx final f' ctx')
          (flush_to driver config f ctx area final)
  unfolding flush_to
  flush_to-Outcome f ctx final full =
      answered (driver.write area ctx.flash_write_offset (flush_bytes driver config ctx final) f)
        (λ c e. write_failed f ctx.flash_write_offset (flush_bytes driver config ctx final) e)
        (λ done.
          slice-written driver bytes laws area f ctx.flash_write_offset
            (flush_bytes driver config ctx final) done)
    where
      xs : List ℕ
      xs = flush_bytes driver config ctx final

      answered :
          (o : Rc × F)
          → ((c : Errno) → o.0 ≡ err c → Fault ctx.flash_align c)
          → (o.0 ≡ ok
              → slice (bytes o.1 area) 0 (ctx.flash_write_offset + length xs)
                ≡ slice (bytes f area) 0 ctx.flash_write_offset ++ xs)
          → Outcome
              (Fault ctx.flash_align)
              (λ f' ctx'. IsFlush f ctx final f' ctx')
              (elim o.0 [
                | err c ↦ (err c, o.1, ctx)
                | ok ↦ (
                  ok,
                  o.1,
                  record ctx {
                    flash_write_offset = ctx.flash_write_offset + length xs;
                    flash_pending = [];
                  },
                )
              ])
      answered (err c, f') why h = broke (why c refl)
      answered (ok, f') why h = went (record {
        flash_area = refl;
        expected_size = refl;
        written = refl;
        flash_align = refl;
        active = refl;
        padding =
            (if final
              then round_up (length ctx.flash_pending) ctx.flash_align
              else config.pending_max)
            - length ctx.flash_pending;
        held =
            append-nil _
            ∙ h refl
            ∙ sym
                (append_assoc (slice (bytes f area) 0 ctx.flash_write_offset) ctx.flash_pending _);
        whole = λ e r. rw e (omega (arith, full e));
        room = λ r pos. pos;
        emptied = λ e. refl;
      })

  pub flush_flash-Outcome :
      (f : F) (ctx : Context) (final : Bool)
      → ctx.flash_area ≡ some area
      → Outcome
          (Fault ctx.flash_align)
          (λ f' ctx'. IsFlush f ctx final f' ctx')
          (flush_flash driver config f ctx final)
  unfolding flush_flash
  flush_flash-Outcome f ctx final at =
      subst
        (λ o.
          Outcome (Fault ctx.flash_align) (λ f' ctx'. IsFlush f ctx final f' ctx')
            (flush_area driver config f ctx final o))
        (sym at)
        (checked
          ((ctx.flash_align == 0)
            || ltb config.pending_max ctx.flash_align
            || not (config.pending_max % ctx.flash_align == 0))
          refl (Bool-cases (length ctx.flash_pending == 0))
          (Bool-cases (not final && ltb (length ctx.flash_pending) config.pending_max)))
    where
      checked :
          (bad : Bool)
          → is_misaligned ctx.flash_align ≡ bad
          → ((length ctx.flash_pending == 0) ≡ true) ⊎ ((length ctx.flash_pending == 0) ≡ false)
          → ((not final && ltb (length ctx.flash_pending) config.pending_max) ≡ true)
            ⊎ ((not final && ltb (length ctx.flash_pending) config.pending_max) ≡ false)
          → Outcome
              (Fault ctx.flash_align)
              (λ f' ctx'. IsFlush f ctx final f' ctx')
              (if bad
                then (err einval, f, ctx)
                else if length ctx.flash_pending == 0
                then (ok, f, ctx)
                else if not final && ltb (length ctx.flash_pending) config.pending_max
                then (ok, f, ctx)
                else flush_to driver config f ctx area final)
      checked true m x y = broke (misaligned m)
      checked false m (inl x) y = simp x (went (IsFlush-self f ctx final (inl (ground (arith, x)))))
      checked false m (inr x) (inl y) =
          simp (x, y) (went (IsFlush-self f ctx final (inr (ground (arith, y), ground (arith, y)))))
      checked false m (inr x) (inr y) =
          simp (x, y) (flush_to-Outcome f ctx final λ e. ground (arith, y, e))

  pub Outcome-map :
      (Why Why' : Errno → Type 0) (P Q : F → Context → Type 0) (o : Rc × F × Context)
      → ((c : Errno) → Why c → Why' c)
      → ((f : F) (ctx : Context) → P f ctx → Q f ctx)
      → Outcome Why P o
      → Outcome Why' Q o
  Outcome-map Why Why' P Q o h g (broke {c = c} w) = broke (h c w)
  Outcome-map Why Why' P Q o h g (went {f = f} {ctx = ctx} k) = went (g f ctx k)
