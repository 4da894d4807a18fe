-- ===== src/Ble/Laid.antt =====
-- `rtbus_ble_app_gatt_notify_register_now` lays a service out as it should: there is always room for
-- its attributes, and each characteristic points at its own.
use mathlib.Core.List.{append-nil, append_assoc}
use mathlib.Core.Path.{subst}
use rtbus.Base.{
  ℕ, zero, suc, ◌+◌, ◌*◌, ◌<◌, ◌≤◌, ◌≡◌, ◌∙◌, refl, sym, ap, Bool, true, false, List, [], ◌∷◌, ◌++◌,
  arith, ltb, leb, length, get_or, replicate, All,
}
use rtbus.Base.Rc.{Rc, ok}
use rtbus.Base.Word.{u8}
use rtbus.Ble.{Gatt, Chrc, Attr, blank, declaration, value_of, ccc_of, blank_chrc, attr_max}
use rtbus.Ble.Register.{
  Masks, ChrcDef, value_copy, value_perm_of, ccc_perm_of, cccd_define, define_value, stage_from,
}
use rtbus.Ble.Staged.{
  IsGiven, value_bytes, notifies, layout_from, chrc_at, chrcs_from, Shape, define_value-Shape,
  cccd_define-Shape, get_or-append, length-snoc,
}

-- What the loop makes of a slot with `done` and `cdone` before it.
pub record Laid (m : Masks) (g : Gatt) (done : List Attr) (cdone : List Chrc) (i : ℕ)
    (defs : List ChrcDef) (o : Rc × ℕ × Gatt) : Type 0 where
  pub rc : o.0 ≡ ok
  pub at : o.1 ≡ length (done ++ layout_from m i defs)
  pub free : ℕ
  pub cfree : ℕ
  pub shape :
      Shape o.2 (done ++ layout_from m i defs) free (cdone ++ chrcs_from m (length done) defs) cfree
  pub service_uuid : o.2.service_uuid ≡ g.service_uuid
  pub registered : o.2.registered ≡ g.registered

value_copy-IsGiven :
    (c : Chrc) (def : ChrcDef)
    → IsGiven def
    → value_copy c def.value def.value_len ≡ (ok, record c { value = value_bytes def })
unfolding value_copy
value_copy-IsGiven c def v = rw (v.0, v.1) refl

module _ (m : Masks) where
  abbrev copied : Gatt → ℕ → ChrcDef → Rc × Chrc
  copied g i def = value_copy (get_or g.chrcs i blank_chrc) def.value def.value_len

  copied_given :
      (i : ℕ) (g : Gatt) (def : ChrcDef)
      → get_or g.chrcs i blank_chrc ≡ blank_chrc
      → IsGiven def
      → copied g i def ≡ (ok, record blank_chrc { value = value_bytes def })
  copied_given i g def b v =
      ap (λ z. value_copy z def.value def.value_len) b ∙ value_copy-IsGiven blank_chrc def v

  stage_from-plain :
      (i at : ℕ) (g : Gatt) (def : ChrcDef) (defs : List ChrcDef)
      → at + 2 ≤ attr_max
      → get_or g.chrcs i blank_chrc ≡ blank_chrc
      → IsGiven def
      → notifies m def ≡ false
      → stage_from m i at g (def ∷ defs)
        ≡ stage_from m
            (i + 1)
            (at + 2)
            (define_value m g i at def (record blank_chrc { value = value_bytes def }))
            defs
  unfolding stage_from
  stage_from-plain i at g def defs l b v n =
      let room : ltb attr_max (u8 (at + 2)) ≡ false = ground arith in
      let c = copied_given i g def b v in rw (room, c, n, c) refl

  stage_from-notify :
      (i at : ℕ) (g : Gatt) (def : ChrcDef) (defs : List ChrcDef)
      → at + 2 < attr_max
      → get_or g.chrcs i blank_chrc ≡ blank_chrc
      → IsGiven def
      → notifies m def ≡ true
      → stage_from m i at g (def ∷ defs)
        ≡ stage_from m
            (i + 1)
            (at + 2 + 1)
            (cccd_define m
              (define_value m g i at def (record blank_chrc { value = value_bytes def }))
              i
              (at + 2)
              (ccc_perm_of m def))
            defs
  unfolding stage_from
  stage_from-notify i at g def defs l b v y =
      let room : ltb attr_max (u8 (at + 2)) ≡ false = ground arith in
      let room' : leb attr_max (at + 2) ≡ false = ground arith in
      let c = copied_given i g def b v in rw (room, c, y, room', c) refl

Laid-after :
    (m : Masks) (g g' : Gatt) (done done' : List Attr) (cdone cdone' : List Chrc) (i : ℕ)
    (def : ChrcDef) (defs : List ChrcDef) (o : Rc × ℕ × Gatt)
    → done' ++ layout_from m (i + 1) defs ≡ done ++ layout_from m i (def ∷ defs)
    → cdone' ++ chrcs_from m (length done') defs ≡ cdone ++ chrcs_from m (length done) (def ∷ defs)
    → g'.service_uuid ≡ g.service_uuid
    → g'.registered ≡ g.registered
    → Laid m g' done' cdone' (i + 1) defs o
    → Laid m g done cdone i (def ∷ defs) o
Laid-after m g g' done done' cdone cdone' i def defs o same csame u r k = record {
  rc = k.rc;
  at = k.at ∙ ap length same;
  free = k.free;
  cfree = k.cfree;
  shape =
      subst (λ z. Shape o.2 z k.free (cdone ++ chrcs_from m (length done) (def ∷ defs)) k.cfree)
        same
        (subst (λ z. Shape o.2 (done' ++ layout_from m (i + 1) defs) k.free z k.cfree) csame
          k.shape);
  service_uuid = k.service_uuid ∙ u;
  registered = k.registered ∙ r;
}

append-3 {ℓ} :
    {A : Type ℓ} (xs : List A) (x y : A) (zs : List A)
    → ((xs ++ x ∷ []) ++ y ∷ []) ++ zs ≡ xs ++ (x ∷ y ∷ zs)
append-3 xs x y zs = append_assoc (xs ++ x ∷ []) (y ∷ []) zs ∙ append_assoc xs (x ∷ []) (y ∷ zs)

module _ (m : Masks) where
  abbrev with_value : List Attr → ℕ → ChrcDef → List Attr
  with_value done i def =
      (done ++ declaration i m.perm_read ∷ []) ++ value_of i (value_perm_of m def) ∷ []

  length-with_value :
      (done : List Attr) (i : ℕ) (def : ChrcDef) → length (with_value done i def) ≡ length done + 2
  length-with_value done i def = omega (
    arith,
    length-snoc (done ++ declaration i m.perm_read ∷ []) (value_of i (value_perm_of m def)),
    length-snoc done (declaration i m.perm_read),
  )

  after_plain :
      (done : List Attr) (i : ℕ) (def : ChrcDef) (defs : List ChrcDef)
      → notifies m def ≡ false
      → with_value done i def ++ layout_from m (i + 1) defs ≡ done ++ layout_from m i (def ∷ defs)
  after_plain done i def defs n =
      append-3 done (declaration i m.perm_read) (value_of i (value_perm_of m def))
        (layout_from m (i + 1) defs)
      ∙ rw n refl

  chrcs_after_plain :
      (done : List Attr) (cdone : List Chrc) (i : ℕ) (def : ChrcDef) (defs : List ChrcDef)
      → notifies m def ≡ false
      → (cdone ++ chrc_at m (length done) def false ∷ [])
          ++ chrcs_from m (length (with_value done i def)) defs
        ≡ cdone ++ chrcs_from m (length done) (def ∷ defs)
  chrcs_after_plain done cdone i def defs n =
      append_assoc cdone (chrc_at m (length done) def false ∷ [])
        (chrcs_from m (length (with_value done i def)) defs)
      ∙ rw (n, length-with_value done i def) refl

  abbrev with_ccc : List Attr → ℕ → ChrcDef → List Attr
  with_ccc done i def = with_value done i def ++ ccc_of i (ccc_perm_of m def) ∷ []

  length-with_ccc :
      (done : List Attr) (i : ℕ) (def : ChrcDef)
      → length (with_ccc done i def) ≡ length done + 2 + 1
  length-with_ccc done i def = omega (
    arith,
    length-snoc (with_value done i def) (ccc_of i (ccc_perm_of m def)),
    length-with_value done i def,
  )

  after_notify :
      (done : List Attr) (i : ℕ) (def : ChrcDef) (defs : List ChrcDef)
      → notifies m def ≡ true
      → with_ccc done i def ++ layout_from m (i + 1) defs ≡ done ++ layout_from m i (def ∷ defs)
  after_notify done i def defs y =
      append_assoc (with_value done i def) (ccc_of i (ccc_perm_of m def) ∷ [])
        (layout_from m (i + 1) defs)
      ∙ append-3 done (declaration i m.perm_read) (value_of i (value_perm_of m def))
          (ccc_of i (ccc_perm_of m def) ∷ layout_from m (i + 1) defs)
      ∙ rw y refl

  chrcs_after_notify :
      (done : List Attr) (cdone : List Chrc) (i : ℕ) (def : ChrcDef) (defs : List ChrcDef)
      → notifies m def ≡ true
      → (cdone ++ chrc_at m (length done) def true ∷ [])
          ++ chrcs_from m (length (with_ccc done i def)) defs
        ≡ cdone ++ chrcs_from m (length done) (def ∷ defs)
  chrcs_after_notify done cdone i def defs y =
      append_assoc cdone (chrc_at m (length done) def true ∷ [])
        (chrcs_from m (length (with_ccc done i def)) defs)
      ∙ rw (y, length-with_ccc done i def) refl

  defined_uuid :
      (g : Gatt) (i at : ℕ) (def : ChrcDef)
      → let d = define_value m g i at def (record blank_chrc { value = value_bytes def }) in
        (d.service_uuid ≡ g.service_uuid) × (d.registered ≡ g.registered)
  unfolding define_value
  defined_uuid g i at def = (refl, refl)

  configured_uuid :
      (g : Gatt) (i at : ℕ) (def : ChrcDef)
      → let d = define_value m g i at def (record blank_chrc { value = value_bytes def }) in
        let c = cccd_define m d i (at + 2) (ccc_perm_of m def) in
        (c.service_uuid ≡ g.service_uuid) × (c.registered ≡ g.registered)
  unfolding define_value cccd_define
  configured_uuid g i at def = (refl, refl)

  -- The loop never runs out of attributes.
  pub stage_from-Laid :
      (defs : List ChrcDef) (i at : ℕ) (g : Gatt) (done : List Attr) (k : ℕ) (cdone : List Chrc)
      (kc : ℕ)
      → Shape g done k cdone kc
      → at ≡ length done
      → i ≡ length cdone
      → 3 * length defs ≤ k
      → at + k ≤ attr_max
      → length defs ≤ kc
      → All IsGiven defs
      → Laid m g done cdone i defs (stage_from m i at g defs)
  unfolding stage_from
  stage_from-Laid [] i at g done k cdone kc s h hc room all croom v = record {
    rc = refl;
    at = h ∙ ap length (sym (append-nil done));
    free = k;
    cfree = kc;
    shape = record {
      attrs = s.attrs ∙ ap (λ z. z ++ replicate k blank) (sym (append-nil done));
      chrcs = s.chrcs ∙ ap (λ z. z ++ replicate kc blank_chrc) (sym (append-nil cdone));
    };
    service_uuid = refl;
    registered = refl;
  }
  stage_from-Laid (def ∷ defs) i at g done zero cdone kc s h hc room all croom v =
      absurd (omega (arith, room))
  stage_from-Laid (def ∷ defs) i at g done (suc zero) cdone kc s h hc room all croom v =
      absurd (omega (arith, room))
  stage_from-Laid (def ∷ defs) i at g done (suc (suc zero)) cdone kc s h hc room all croom v =
      absurd (omega (arith, room))
  stage_from-Laid (def ∷ defs) i at g done (suc (suc (suc k))) cdone zero s h hc room all croom v =
      absurd (omega (arith, croom))
  stage_from-Laid (def ∷ defs) i at g done (suc (suc (suc k))) cdone (suc kc) s h hc room all croom
        v =
      step (notifies m def) refl
        (stage_from-Laid defs (i + 1) (at + 2) defined (with_value done i def) (suc k)
          (cdone ++ chrc_at m at def false ∷ []) kc s'
          (omega (arith, h, length-with_value done i def))
          (omega (arith, hc, length-snoc cdone (chrc_at m at def false))) (omega (arith, room))
          (omega (arith, all)) (omega (arith, croom)) v.1)
        (λ s''.
          stage_from-Laid defs (i + 1) (at + 2 + 1) configured (with_ccc done i def) k
            (cdone ++ chrc_at m at def true ∷ []) kc s''
            (omega (arith, h, length-with_ccc done i def))
            (omega (arith, hc, length-snoc cdone (chrc_at m at def true))) (omega (arith, room))
            (omega (arith, all)) (omega (arith, croom)) v.1)
    where
      defined : Gatt
      defined = define_value m g i at def (record blank_chrc { value = value_bytes def })

      configured : Gatt
      configured = cccd_define m defined i (at + 2) (ccc_perm_of m def)

      s' : Shape defined (with_value done i def) (suc k) (cdone ++ chrc_at m at def false ∷ []) kc
      s' = define_value-Shape m g done (suc k) cdone kc i at def s h hc

      blank_there : get_or g.chrcs i blank_chrc ≡ blank_chrc
      blank_there =
          ap (λ z. get_or z i blank_chrc) s.chrcs
          ∙ get_or-append cdone blank_chrc (replicate kc blank_chrc) i blank_chrc hc

      step :
          (b : Bool)
          → notifies m def ≡ b
          → Laid m defined
              (with_value done i def)
              (cdone ++ chrc_at m at def false ∷ [])
              (i + 1)
              defs
              (stage_from m (i + 1) (at + 2) defined defs)
          → (Shape configured (with_ccc done i def) k (cdone ++ chrc_at m at def true ∷ []) kc
              → Laid m configured
                  (with_ccc done i def)
                  (cdone ++ chrc_at m at def true ∷ [])
                  (i + 1)
                  defs
                  (stage_from m (i + 1) (at + 2 + 1) configured defs))
          → Laid m g done cdone i (def ∷ defs) (stage_from m i at g (def ∷ defs))
      step false e plain notify =
          subst (Laid m g done cdone i (def ∷ defs))
            (sym (stage_from-plain m i at g def defs (omega (arith, all)) blank_there v.0 e))
            (Laid-after m g defined done (with_value done i def) cdone
              (cdone ++ chrc_at m at def false ∷ []) i def defs
              (stage_from m (i + 1) (at + 2) defined defs) (after_plain done i def defs e)
              (ap
                  (λ z.
                    (cdone ++ chrc_at m z def false ∷ [])
                    ++ chrcs_from m (length (with_value done i def)) defs)
                  h
                ∙ chrcs_after_plain done cdone i def defs e)
              (defined_uuid g i at def).0 (defined_uuid g i at def).1 plain)
      step true e plain notify =
          subst (Laid m g done cdone i (def ∷ defs))
            (sym (stage_from-notify m i at g def defs (omega (arith, all)) blank_there v.0 e))
            (Laid-after m g configured done (with_ccc done i def) cdone
              (cdone ++ chrc_at m at def true ∷ []) i def defs
              (stage_from m (i + 1) (at + 2 + 1) configured defs) (after_notify done i def defs e)
              (ap
                  (λ z.
                    (cdone ++ chrc_at m z def true ∷ [])
                    ++ chrcs_from m (length (with_ccc done i def)) defs)
                  h
                ∙ chrcs_after_notify done cdone i def defs e)
              (configured_uuid g i at def).0 (configured_uuid g i at def).1
              (notify (
                cccd_define-Shape m defined (with_value done i def) k cdone kc i at def s'
                  (omega (arith, h, length-with_value done i def)) hc)))
