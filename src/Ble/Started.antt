-- ===== src/Ble/Started.antt =====
-- `rtbus_ble_adv_start_now`: with a stack that takes every call, all services are registered and the
-- device advertises.
use mathlib.Core.Path.{subst}
use mathlib.Core.List.{append-nil, append_assoc}
use rtbus.Base.{
  ℕ, ◌+◌, ◌<◌, ◌≤◌, ◌≡◌, ◌∙◌, refl, sym, ap, ◌&&◌, ◌++◌, inl, inr, Bool, true, false, not, List, [],
  ◌∷◌, arith, ◌==◌, if◌then◌else◌, length, Bool-cases,
}
use rtbus.Base.Rc.{Rc, ok, err}
use rtbus.Ble.{Ble, Call, enable, auth_info_cb_register, settings_load, adv_start, adv_start_own}
use rtbus.Ble.Register.{ad_sync_service_uuid, register_from, register_pending}
use rtbus.Ble.Requests.{
  Config, Stack, called, and_then, unless_already, bring_up, start_advertising, adv_start_now,
}
use rtbus.Ble.Pending.{
  is_registered, registrations, registrations-registered, Pending, register_from-Pending,
  register_from-registrations,
}

-- The slots are there, and how many are taken.
abbrev HasSlots : (count : ℕ) → Ble → Type 0
HasSlots count b = (b.gatt_count ≡ count) × (count ≤ length b.gatts)

-- The program has the stack as up, the services as registered, and the device as advertising.
pub record IsOn (count : ℕ) (b : Ble) : Type 0 where
  pub count_kept : b.gatt_count ≡ count
  pub ready : b.ready ≡ true
  pub advertising : b.advertising ≡ true
  pub registered : (handle : ℕ) → handle < count → is_registered b handle ≡ true

-- The calls that bring the stack up, and the one that starts advertising: of the data that the
-- application gave, or else of the service's own.
abbrev pub up_calls : Config → List Call
up_calls cf =
    (enable ∷ [] ++ (if cf.smp then auth_info_cb_register ∷ [] else []))
    ++ (if cf.settings then settings_load ∷ [] else [])

abbrev pub adv_call : Ble → Call
adv_call b =
    if (length b.app_ad == 0) && (length b.app_sd == 0)
    then adv_start_own b.ad_has_service_uuid b.ad_service_uuid
    else adv_start b.app_ad b.app_sd

-- From the state `b` the calls of the stack are, in order: the registration of each service that was not
-- registered, what brings the stack up if it was not, and the start of advertising if it did not.
pub record IsStarted (count : ℕ) (cf : Config) (b : Ble) (o : Rc × Ble) : Type 0 where
  pub rc : o.0 ≡ ok
  pub on : IsOn count o.1
  pub asked :
      o.1.calls
      ≡ b.calls
        ++ ((registrations b.gatt_count 0 b.gatts ++ (if b.ready then [] else up_calls cf))
            ++ (if b.advertising then [] else adv_call o.1 ∷ []))

-- A stack that takes every call.
pub record IsAccepting (st : Stack) : Type 0 where
  pub register : (i : ℕ) → st.register i ≡ ok
  pub enabled : st.enabled ≡ ok
  pub auth_registered : unless_already st.auth_registered ≡ ok
  pub settings_loaded : st.settings_loaded ≡ ok
  pub adv_started : st.adv_started ≡ ok

and_then_ok :
    (P : Ble → Type 0) (Q : Rc × Ble → Type 0) (o : Rc × Ble) (f : Ble → Rc × Ble)
    → o.0 ≡ ok
    → P o.1
    → ((b : Ble) → P b → Q (f b))
    → Q (and_then o f)
and_then_ok P Q (err c, b) f e p k = absurd (not_ok e)
  where
    not_ok : err c ≡ ok → ⊥
    not_ok e = cc
and_then_ok P Q (ok, b) f e p k = k b p

module _ (cf : Config) (st : Stack) (accepts : IsAccepting st) (count : ℕ) (b0 : Ble) where
  -- What was called since `b0`, while it did not advertise anew.
  record Reaches (cs : List Call) (b : Ble) : Type 0 where
    slots : HasSlots count b
    calls : b.calls ≡ b0.calls ++ cs
    advertising : b.advertising ≡ b0.advertising

  IsListed : Ble → Type 0
  IsListed b = (handle : ℕ) → handle < count → is_registered b handle ≡ true

  Reaches-called :
      (cs : List Call) (b : Ble) (c : Call) → Reaches cs b → Reaches (cs ++ c ∷ []) (called b c)
  Reaches-called cs b c k = record {
    slots = k.slots;
    calls = ap (λ z. z ++ c ∷ []) k.calls ∙ append_assoc b0.calls cs (c ∷ []);
    advertising = k.advertising;
  }

  Reaches-optional :
      (t : Bool) (cs : List Call) (b : Ble) (rc : Rc) (c : Call)
      → rc ≡ ok
      → Reaches cs b
      → IsListed b
      → let o : Rc × Ble = if t then (rc, called b c) else (ok, b) in
        (o.0 ≡ ok) × Reaches (cs ++ (if t then c ∷ [] else [])) o.1 × IsListed o.1
  unfolding IsListed
  Reaches-optional true cs b rc c e k l = (e, Reaches-called cs b c k, l)
  Reaches-optional false cs b rc c e k l =
      (refl, subst (λ z. Reaches z b) (sym (append-nil cs)) k, l)

  -- The services that are not registered are, and the stack is called for exactly those.
  pending :
      (cs : List Call) (b : Ble)
      → Reaches cs b
      → let o = register_pending st.register b in
        (o.0 ≡ ok)
        × Reaches (cs ++ registrations b.gatt_count 0 b.gatts) o.1
        × IsListed o.1
        × (o.1.ready ≡ b.ready)
  unfolding register_pending IsListed
  pending cs b k =
      let all : 0 + b.gatt_count ≡ b.gatt_count = omega arith in
      let p =
        subst (λ n. Pending 0 n b (register_from st.register b.gatt_count 0 b)) all
          (register_from-Pending st.register accepts.register b.gatt_count 0 b
            (omega (arith, k.slots.0, k.slots.1))) in
      (
        p.rc,
        record {
          slots = (p.count ∙ k.slots.0, omega (arith, p.slots, k.slots.1));
          calls =
              register_from-registrations st.register accepts.register b.gatt_count 0 b
              ∙ ap (λ z. z ++ registrations b.gatt_count 0 b.gatts) k.calls
              ∙ append_assoc b0.calls cs (registrations b.gatt_count 0 b.gatts);
          advertising = p.advertising ∙ k.advertising;
        },
        λ handle l. p.registers handle (omega arith) (omega (arith, k.slots.0, l)),
        p.ready,
      )

  abbrev news : List Call
  news = registrations b0.gatt_count 0 b0.gatts

  start : HasSlots count b0 → Reaches [] b0
  start h = record { slots = h; calls = sym (append-nil b0.calls); advertising = refl }

  -- The stack is up, after these calls.
  IsUp : List Call → Rc × Ble → Type 0
  IsUp cs o = (o.0 ≡ ok) × Reaches cs o.1 × IsListed o.1 × (o.1.ready ≡ true)

  bring_up-IsUp :
      HasSlots count b0
      → IsUp
          (((news ++ enable ∷ []) ++ (if cf.smp then auth_info_cb_register ∷ [] else []))
            ++ (if cf.settings then settings_load ∷ [] else []))
          (bring_up cf st b0)
  unfolding bring_up IsUp IsListed
  bring_up-IsUp h =
      let (rc, k, l, same) = pending [] b0 (start h) in
      and_then_ok (λ b. Reaches news b × IsListed b) (IsUp _) (register_pending st.register b0) _ rc
        (k, l)
        (λ b1 (k1, l1).
          and_then_ok (λ b. Reaches (news ++ enable ∷ []) b × IsListed b) (IsUp _)
            (st.enabled, called b1 enable) _ accepts.enabled (Reaches-called news b1 enable k1, l1)
            (λ b2 (k2, l2).
              let a =
                Reaches-optional cf.smp _ b2 (unless_already st.auth_registered)
                  auth_info_cb_register accepts.auth_registered k2 l2 in
              and_then_ok
                (λ b.
                  Reaches
                    ((news ++ enable ∷ []) ++ (if cf.smp then auth_info_cb_register ∷ [] else [])) b
                  × IsListed b)
                (IsUp _) _ _ a.0 (a.1, a.2)
                (λ b3 (k3, l3).
                  let z =
                    Reaches-optional cf.settings _ b3 st.settings_loaded settings_load
                      accepts.settings_loaded k3 l3 in
                  and_then_ok
                    (λ b.
                      Reaches
                        (((news ++ enable ∷ [])
                            ++ (if cf.smp then auth_info_cb_register ∷ [] else []))
                          ++ (if cf.settings then settings_load ∷ [] else []))
                        b
                      × IsListed b)
                    (IsUp _) _ _ z.0 (z.1, z.2)
                    (λ b4 (k4, l4). (
                      refl,
                      record { slots = k4.slots; calls = k4.calls; advertising = k4.advertising },
                      l4,
                      refl,
                    )))))

  -- What brings the stack up, before its services are looked at again.
  ups : List Call
  ups = news ++ (if b0.ready then [] else up_calls cf)

  up-cases :
      HasSlots count b0
      → let o : Rc × Ble = if not b0.ready then bring_up cf st b0 else (ok, b0) in
        (o.0 ≡ ok)
        × (o.1.ready ≡ true)
        × Reaches (if b0.ready then [] else ups) o.1
        × (registrations o.1.gatt_count 0 o.1.gatts ≡ (if b0.ready then news else []))
  unfolding ups IsUp IsListed
  up-cases h = elim (Bool-cases b0.ready) [
    | inl y ↦ simp y (refl, refl, start h, refl)
    | inr n ↦
        let (rc, k, l, up) = bring_up-IsUp h in
        let whole =
          ap (λ z. z ++ (if cf.settings then settings_load ∷ [] else []))
            (append_assoc news (enable ∷ []) (if cf.smp then auth_info_cb_register ∷ [] else []))
          ∙ append_assoc news (enable ∷ [] ++ (if cf.smp then auth_info_cb_register ∷ [] else []))
              (if cf.settings then settings_load ∷ [] else []) in
        simp n (
          rc,
          up,
          subst (λ z. Reaches z (bring_up cf st b0).1) whole k,
          registrations-registered (bring_up cf st b0).1.gatt_count 0 (bring_up cf st b0).1.gatts
              λ j a z. l j (omega (arith, k.slots.0, z)),
        )
  ]

  -- All services are registered, and the stack is up.
  record IsRegisteredAll (b : Ble) : Type 0 where
    reaches : Reaches ups b
    listed : IsListed b
    up : b.ready ≡ true

  pending-IsRegisteredAll :
      (b : Ble)
      → b.ready ≡ true
      → Reaches (if b0.ready then [] else ups) b
      → registrations b.gatt_count 0 b.gatts ≡ (if b0.ready then news else [])
      → ((register_pending st.register b).0 ≡ ok)
        × IsRegisteredAll (register_pending st.register b).1
  unfolding ups
  pending-IsRegisteredAll b up k r =
      let (rc, k', l, same) = pending (if b0.ready then [] else ups) b k in
      (
        rc,
        record {
          reaches = subst (λ z. Reaches z (register_pending st.register b).1) (whole r) k';
          listed = l;
          up = same ∙ up;
        },
      )
    where
      whole :
          {xs : List Call}
          → xs ≡ (if b0.ready then news else [])
          → (if b0.ready then [] else ups) ++ xs ≡ ups
      whole {xs} e = elim (Bool-cases b0.ready) [
        | inl y ↦ ap (λ z. (if b0.ready then [] else ups) ++ z) e ∙ simp y (sym (append-nil news))
        | inr n ↦
            ap (λ z. (if b0.ready then [] else ups) ++ z) e
            ∙ simp n (append-nil (news ++ up_calls cf))
      ]

  sync-IsRegisteredAll : (b : Ble) → IsRegisteredAll b → IsRegisteredAll (ad_sync_service_uuid b)
  unfolding ad_sync_service_uuid IsListed
  sync-IsRegisteredAll b k = elim (Bool-cases (b.gatt_count == 0)) [
    | inl y ↦ rw y (record {
      reaches = record {
        slots = k.reaches.slots;
        calls = k.reaches.calls;
        advertising = k.reaches.advertising;
      };
      listed = k.listed;
      up = k.up;
    })
    | inr n ↦ rw n (record {
      reaches = record {
        slots = k.reaches.slots;
        calls = k.reaches.calls;
        advertising = k.reaches.advertising;
      };
      listed = k.listed;
      up = k.up;
    })
  ]

  start_advertising-IsStarted :
      (b : Ble) → IsRegisteredAll b → IsStarted count cf b0 (start_advertising st b)
  unfolding start_advertising ups IsListed
  start_advertising-IsStarted b k = elim (Bool-cases b.advertising) [
    | inl y ↦ simp y (record {
      rc = refl;
      on = record {
        count_kept = k.reaches.slots.0;
        ready = k.up;
        advertising = y;
        registered = k.listed;
      };
      asked =
          let on : b0.advertising ≡ true = sym k.reaches.advertising ∙ y in
          k.reaches.calls
          ∙ ap (λ z. b0.calls ++ z)
              (sym (append-nil ups)
                ∙ ap (λ t. ups ++ (if t then [] else adv_call b ∷ [])) (sym on));
    })
    | inr n ↦
        simp (n, accepts.adv_started)
          (record {
            rc = refl;
            on = record {
              count_kept = k.reaches.slots.0;
              ready = k.up;
              advertising = refl;
              registered = k.listed;
            };
            asked =
                let off : b0.advertising ≡ false = sym k.reaches.advertising ∙ n in
                ap (λ z. z ++ adv_call b ∷ []) k.reaches.calls
                ∙ append_assoc b0.calls ups (adv_call b ∷ [])
                ∙ ap (λ t. b0.calls ++ (ups ++ (if t then [] else adv_call b ∷ []))) (sym off);
          })
  ]

  -- With a stack that takes every call, the start of advertising returns 0. The calls of the stack are
  -- then, in order: the registration of each service that was not registered, in the order of the slots;
  -- enabling it and what the configuration adds to that, if it was not up; and the start of advertising,
  -- with the data of the application or else its own, if it did not advertise. All services are noted
  -- as registered, also those that were staged before, the stack as up and the device as advertising.
  pub adv_start_now-IsStarted :
      b0.gatt_count ≡ count
      → count ≤ length b0.gatts
      → IsStarted count cf b0 (adv_start_now cf st b0)
  unfolding adv_start_now
  adv_start_now-IsStarted c l =
      let (rc, up, k, r) = up-cases (c, l) in
      and_then_ok
        (λ b.
          (b.ready ≡ true)
          × Reaches (if b0.ready then [] else ups) b
          × (registrations b.gatt_count 0 b.gatts ≡ (if b0.ready then news else [])))
        (IsStarted count cf b0) _ _ rc (up, k, r)
        (λ b1 (up1, k1, r1).
          let (rc1, all) = pending-IsRegisteredAll b1 up1 k1 r1 in
          and_then_ok IsRegisteredAll (IsStarted count cf b0) (register_pending st.register b1) _
            rc1 all
            (λ b2 k2.
              start_advertising-IsStarted (ad_sync_service_uuid b2) (sync-IsRegisteredAll b2 k2)))
