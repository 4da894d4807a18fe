-- ===== src/Ble/Registered.antt =====
-- `rtbus_ble_app_gatt_notify_register_now`: what the slot of a new service holds, and what the
-- Bluetooth stack knows of it.
use mathlib.Core.Path.{subst}
use rtbus.Base.{
  ℕ, zero, suc, ◌+◌, ◌<◌, ◌≡◌, ◌∙◌, refl, sym, ap, Bool, true, false, ◌&&◌, ◌||◌, List, [], ◌∷◌,
  ◌++◌, some, arith, ltb, leb, ◌==◌, if◌then◌else◌, length, get_or, set, take, replicate,
  take-append, length-set, All,
}
use rtbus.Base.Rc.{is_ok, Rc, ok, err}
use rtbus.Ble.{
  Ble, Gatt, service_register, blank, primary, blank_chrc, blank_gatt, gatt_max, chrc_max,
}
use rtbus.Ble.Register.{
  Masks, ChrcDef, ServiceDef, new_gatt, ad_sync_service_uuid, register_ready, register_answer,
  with_handle, listed, staged, stage_from, notify_register_now,
}
use rtbus.Ble.Staged.{IsGiven, notifies, layout, chrcs_from, Shape}
use rtbus.Ble.Laid.{Laid, stage_from-Laid}

-- A slot with a service of the characteristics `defs`.
pub record IsLaidOut (m : Masks) (service_uuid : List ℕ) (defs : List ChrcDef) (g : Gatt)
    : Type 0 where
  pub prepared : g.prepared ≡ true
  pub service_uuid_kept : g.service_uuid ≡ service_uuid
  pub attr_count : g.attr_count ≡ length (layout m service_uuid defs)
  pub attrs : take g.attr_count g.attrs ≡ layout m service_uuid defs
  pub chrc_count : g.chrc_count ≡ length defs
  pub chrcs : take g.chrc_count g.chrcs ≡ chrcs_from m 1 defs

-- What comes of a definition that is accepted: the next slot is taken, and holds the service. The
-- stack is asked when it is ready, and its answer is returned.
pub record IsRegistered (m : Masks) (register : ℕ → Rc) (b : Ble) (service_uuid : List ℕ)
    (defs : List ChrcDef) (o : Rc × ℕ × Ble) : Type 0 where
  pub rc : o.0 ≡ (if b.ready then register b.gatt_count else ok)
  pub handle : o.1 ≡ (if is_ok o.0 then b.gatt_count else 0)
  pub taken : o.2.gatt_count ≡ b.gatt_count + 1
  pub laid_out : IsLaidOut m service_uuid defs (get_or o.2.gatts b.gatt_count blank_gatt)
  pub registered :
      (get_or o.2.gatts b.gatt_count blank_gatt).registered
      ≡ (b.ready && is_ok (register b.gatt_count))
  pub advertised : o.2.ad_has_service_uuid ≡ true
  pub asked :
      o.2.calls ≡ (if b.ready then b.calls ++ service_register b.gatt_count ∷ [] else b.calls)

pub get_or-set_self {ℓ} :
    {A : Type ℓ} (xs : List A) (i : ℕ) (v d : A) → i < length xs → get_or (set xs i v) i d ≡ v
get_or-set_self [] i v d l = elim l [ ]
get_or-set_self (x ∷ xs) zero v d l = refl
get_or-set_self (x ∷ xs) (suc i) v d l = get_or-set_self xs i v d (omega arith)

length-chrcs_from :
    (m : Masks) (at : ℕ) (defs : List ChrcDef) → length (chrcs_from m at defs) ≡ length defs
length-chrcs_from m at [] = refl
length-chrcs_from m at (def ∷ defs) =
    ap suc (length-chrcs_from m (if notifies m def then at + 2 + 1 else at + 2) defs)

take_of_append {ℓ} :
    {A : Type ℓ} (xs ys zs : List A) (n : ℕ) → xs ≡ ys ++ zs → n ≡ length ys → take n xs ≡ ys
take_of_append xs ys zs n e h = rw (e, h) (take-append ys zs)

take-all {ℓ} : {A : Type ℓ} (xs : List A) (n : ℕ) → n ≡ length xs → take n xs ≡ xs
take-all [] zero h = refl
take-all [] (suc n) h = refl
take-all (x ∷ xs) zero h = absurd (omega (arith, h))
take-all (x ∷ xs) (suc n) h = ap (λ z. x ∷ z) (take-all xs n (omega (arith, h)))

module _ (m : Masks) (register : ℕ → Rc) (b : Ble) (def : ServiceDef) (defs : List ChrcDef)
    (count : def.chrc_count ≡ length defs) (slots : b.gatt_count < length b.gatts) where
  finished : ℕ → Gatt → Gatt
  finished at g = record g { chrc_count = def.chrc_count; attr_count = at; prepared = true }

  finished-IsLaidOut :
      (at : ℕ) (g : Gatt)
      → Laid m
          (new_gatt m def.service_uuid)
          (primary def.service_uuid m.perm_read ∷ [])
          []
          0
          defs
          (ok, at, g)
      → IsLaidOut m def.service_uuid defs (finished at g)
  unfolding finished
  finished-IsLaidOut at g k = record {
    prepared = refl;
    service_uuid_kept = k.service_uuid;
    attr_count = k.at;
    attrs =
        take_of_append g.attrs (layout m def.service_uuid defs) (replicate k.free blank) at
          k.shape.attrs k.at;
    chrc_count = count;
    chrcs =
        take_of_append g.chrcs (chrcs_from m 1 defs) (replicate k.cfree blank_chrc) def.chrc_count
          k.shape.chrcs (count ∙ sym (length-chrcs_from m 1 defs));
  }

  listed_lem :
      (g : Gatt)
      → (get_or (listed b g).gatts b.gatt_count blank_gatt ≡ g)
        × ((listed b g).gatt_count ≡ b.gatt_count + 1)
        × ((listed b g).ad_has_service_uuid ≡ true)
        × (b.gatt_count < length (listed b g).gatts)
        × ((listed b g).calls ≡ b.calls)
  unfolding listed ad_sync_service_uuid
  listed_lem g =
      let some_gatts : (b.gatt_count + 1 == 0) ≡ false = ground arith in
      rw some_gatts (
        get_or-set_self b.gatts b.gatt_count g blank_gatt slots,
        refl,
        refl,
        omega (arith, slots, length-set b.gatts b.gatt_count g),
        refl,
      )

  IsDone : Rc × ℕ × Ble → Type 0
  IsDone o = IsRegistered m register b def.service_uuid defs o

  answered :
      (g : Gatt) (rc : Rc)
      → IsLaidOut m def.service_uuid defs g
      → g.registered ≡ false
      → b.ready ≡ true
      → register b.gatt_count ≡ rc
      → IsDone (with_handle b.gatt_count (register_answer (listed b g) b.gatt_count g rc))
  unfolding IsDone with_handle register_answer
  answered g (err c) v fresh ready h =
      let (there, taken, advertised, inside, calls) = listed_lem g in
      record {
        rc = simp (ready, h) refl;
        handle = refl;
        taken = taken;
        laid_out = subst (IsLaidOut m def.service_uuid defs) (sym there) v;
        registered = rw there (simp (ready, h) fresh);
        advertised = advertised;
        asked = simp (ready, calls) refl;
      }
  answered g ok v fresh ready h =
      let (there, taken, advertised, inside, calls) = listed_lem g in
      let kept =
        get_or-set_self (listed b g).gatts b.gatt_count (record g { registered = true }) blank_gatt
          inside in
      record {
        rc = simp (ready, h) refl;
        handle = refl;
        taken = taken;
        laid_out = subst (IsLaidOut m def.service_uuid defs) (sym kept) (record {
          prepared = v.prepared;
          service_uuid_kept = v.service_uuid_kept;
          attr_count = v.attr_count;
          attrs = v.attrs;
          chrc_count = v.chrc_count;
          chrcs = v.chrcs;
        });
        registered = rw kept (simp (ready, h) refl);
        advertised = advertised;
        asked = simp (ready, calls) refl;
      }

  asked :
      (g : Gatt)
      → g.registered ≡ false
      → register_ready register (listed b g) b.gatt_count
        ≡ register_answer (listed b g) b.gatt_count g (register b.gatt_count)
  unfolding register_ready
  asked g fresh = rw ((listed_lem g).0, fresh) refl

  chosen :
      (r : Bool) (x y : Rc × ℕ × Ble)
      → (r ≡ true → IsDone x)
      → (r ≡ false → IsDone y)
      → IsDone (if r then x else y)
  chosen true x y f g = f refl
  chosen false x y f g = g refl

  staged-IsRegistered :
      (o : Rc × ℕ × Gatt)
      → Laid m (new_gatt m def.service_uuid) (primary def.service_uuid m.perm_read ∷ []) [] 0 defs o
      → IsDone (staged m register b def o)
  unfolding staged finished IsDone
  staged-IsRegistered (err c, at, g) k = absurd (not_ok k.rc)
    where
      not_ok : err c ≡ ok → ⊥
      not_ok e = cc
  staged-IsRegistered (ok, at, g) k =
      chosen b.ready
        (with_handle b.gatt_count (register_ready register (listed b (finished at g)) b.gatt_count))
        (ok, b.gatt_count, listed b (finished at g)) asking later
    where
      laid : IsLaidOut m def.service_uuid defs (finished at g)
      laid = finished-IsLaidOut at g k

      asking :
          b.ready ≡ true
          → IsDone (
              with_handle b.gatt_count
                (register_ready register (listed b (finished at g)) b.gatt_count))
      asking ready =
          subst (λ z. IsDone (with_handle b.gatt_count z))
            (sym (asked (finished at g) k.registered))
            (answered (finished at g) (register b.gatt_count) laid k.registered ready refl)

      later : b.ready ≡ false → IsDone (ok, b.gatt_count, listed b (finished at g))
      later idle =
          let (there, taken, advertised, inside, calls) = listed_lem (finished at g) in
          record {
            rc = simp idle refl;
            handle = refl;
            taken = taken;
            laid_out = subst (IsLaidOut m def.service_uuid defs) (sym there) laid;
            registered = rw there (simp idle k.registered);
            advertised = advertised;
            asked = simp (idle, calls) refl;
          }

  new_gatt-Shape :
      Shape (new_gatt m def.service_uuid) (primary def.service_uuid m.perm_read ∷ []) 12 [] 4
  new_gatt-Shape = record { attrs = refl; chrcs = refl }

  -- A service of one to four characteristics, each with a value of at most 32 bytes, is accepted when
  -- a slot is free: the attributes never run out, and the next slot holds the service, its
  -- characteristics and its attributes as they should be. If the stack is ready, the one call made of it
  -- is to register that slot, and its answer is returned; else no call is made. Where 0 is returned the
  -- handle is that slot. The slot is taken even when the stack refuses.
  pub notify_register_now-IsRegistered :
      ((def.chrc_count == 0) || ltb chrc_max def.chrc_count) ≡ false
      → def.chrcs ≡ some defs
      → All IsGiven defs
      → b.gatt_count < gatt_max
      → IsRegistered m register b def.service_uuid defs
          (notify_register_now m register b (some def))
  unfolding notify_register_now IsDone
  notify_register_now-IsRegistered counted there given free =
      let room : leb gatt_max b.gatt_count ≡ false = ground arith in
      let all = take-all defs def.chrc_count count in
      let laid =
        stage_from-Laid m defs 0 1 (new_gatt m def.service_uuid)
          (primary def.service_uuid m.perm_read ∷ []) 12 [] 4 new_gatt-Shape refl refl
          (ground (arith, count, counted)) (omega arith) (ground (arith, count, counted)) given in
      simp (counted, there, room, all)
        (staged-IsRegistered (stage_from m 0 1 (new_gatt m def.service_uuid) defs) laid)
