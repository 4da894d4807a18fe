-- ===== src/Ble/Pending.antt =====
-- `rtbus_ble_app_gatt_register_pending` with a stack that takes every registration: which services are
-- registered, and with which calls.
use mathlib.Core.List.{append-nil, append_assoc}
use rtbus.Base.{
  ℕ, zero, suc, ◌+◌, ◌<◌, ◌≤◌, ◌≡◌, ◌≢◌, ◌∙◌, refl, sym, ap, ◌++◌, inl, inr, Bool, true, false,
  List, [], ◌∷◌, arith, ◌==◌, if◌then◌else◌, length, get_or, set, length-set, Bool-cases,
}
use rtbus.Base.Rc.{Rc, ok}
use rtbus.Ble.{Ble, Gatt, Call, blank_gatt, service_register}
use rtbus.Ble.Register.{register_answer, register_ready, register_from}
use rtbus.Ble.Registered.{get_or-set_self}

pub get_or-set_ne {ℓ} :
    {A : Type ℓ} (xs : List A) (i j : ℕ) (v d : A) → i ≢ j → get_or (set xs i v) j d ≡ get_or xs j d
get_or-set_ne [] i j v d n = refl
get_or-set_ne (x ∷ xs) zero zero v d n = absurd (n refl)
get_or-set_ne (x ∷ xs) zero (suc j) v d n = refl
get_or-set_ne (x ∷ xs) (suc i) zero v d n = refl
get_or-set_ne (x ∷ xs) (suc i) (suc j) v d n = get_or-set_ne xs i j v d (λ e. n (ap suc e))

abbrev pub is_registered : Ble → (handle : ℕ) → Bool
is_registered b handle = (get_or b.gatts handle blank_gatt).registered

-- The services that were not registered are registered with the stack, in the order of their slots.
pub registrations : (k i : ℕ) → List Gatt → List Call
registrations zero i gatts = []
registrations (suc k) i gatts =
    let rest = registrations k (i + 1) gatts in
    if (get_or gatts i blank_gatt).registered then rest else service_register i ∷ rest

registrations-set :
    (k j i : ℕ) (gatts : List Gatt) (g : Gatt)
    → i < j
    → registrations k j (set gatts i g) ≡ registrations k j gatts
unfolding registrations
registrations-set zero j i gatts g l = refl
registrations-set (suc k) j i gatts g l =
    let other : i ≢ j = λ e. absurd (omega (arith, e, l)) in
    rw
      (
        registrations,
        get_or-set_ne gatts i j g blank_gatt other,
        registrations-set k (j + 1) i gatts g (omega (arith, l)),
      )
      refl

pub registrations-registered :
    (k i : ℕ) (gatts : List Gatt)
    → ((j : ℕ) → i ≤ j → j < i + k → (get_or gatts j blank_gatt).registered ≡ true)
    → registrations k i gatts ≡ []
unfolding registrations
registrations-registered zero i gatts all = refl
registrations-registered (suc k) i gatts all =
    rw (registrations, all i (omega arith) (omega arith))
      (registrations-registered k (i + 1) gatts
        λ j l h. all j (omega (arith, l)) (omega (arith, h)))

-- What registering the services from `i` up to `n` makes of a state.
pub record Pending (i n : ℕ) (b : Ble) (o : Rc × Ble) : Type 0 where
  pub rc : o.0 ≡ ok
  pub count : o.1.gatt_count ≡ b.gatt_count
  pub ready : o.1.ready ≡ b.ready
  pub advertising : o.1.advertising ≡ b.advertising
  pub slots : length o.1.gatts ≡ length b.gatts
  pub keeps : (j : ℕ) → is_registered b j ≡ true → is_registered o.1 j ≡ true
  pub registers : (j : ℕ) → i ≤ j → j < n → is_registered o.1 j ≡ true

different : {x : Bool} → x ≡ false → x ≢ true
different e k = cc

module _ (register : ℕ → Rc) (accepts : (i : ℕ) → register i ≡ ok) where
  ready-Pending :
      (b : Ble) (h : ℕ) → h < length b.gatts → Pending h (h + 1) b (register_ready register b h)
  unfolding register_ready register_answer
  ready-Pending b h l = elim (Bool-cases (is_registered b h)) [
    | inl y ↦ rw y (record {
      rc = refl;
      count = refl;
      ready = refl;
      advertising = refl;
      slots = refl;
      keeps = λ j k. k;
      registers = λ j a z. let e : j ≡ h = omega arith in rw e y;
    })
    | inr n ↦
        rw (n, accepts h)
          (record {
            rc = refl;
            count = refl;
            ready = refl;
            advertising = refl;
            slots = length-set b.gatts h _;
            keeps = λ j k.
                let other : h ≢ j = λ e. different n (ap (is_registered b) e ∙ k) in
                ap (λ (g : Gatt). g.registered) (get_or-set_ne b.gatts h j _ blank_gatt other) ∙ k;
            registers = λ j a z.
                let e : j ≡ h = omega arith in
                rw e (ap (λ (g : Gatt). g.registered) (get_or-set_self b.gatts h _ blank_gatt l));
          })
  ]

  asked : ℕ → Ble → Ble
  asked i b = record b {
    calls = b.calls ++ service_register i ∷ [];
    gatts = set b.gatts i (record (get_or b.gatts i blank_gatt) { registered = true });
  }

  ready_known : (b : Ble) (i : ℕ) → is_registered b i ≡ true → register_ready register b i ≡ (ok, b)
  unfolding register_ready
  ready_known b i y = rw y refl

  ready_new :
      (b : Ble) (i : ℕ) → is_registered b i ≡ false → register_ready register b i ≡ (ok, asked i b)
  unfolding register_ready register_answer asked
  ready_new b i n = rw (n, accepts i) refl

  register_from-next :
      (k i : ℕ) (b b' : Ble)
      → register_ready register b i ≡ (ok, b')
      → register_from register (suc k) i b ≡ register_from register k (i + 1) b'
  unfolding register_from
  register_from-next k i b b' e =
      rw (register_from, ap (λ o. o.0) e) (ap (λ o. register_from register k (i + 1) o.1) e)

  -- Registering calls the stack for each service that was not registered, in order.
  pub register_from-registrations :
      (k i : ℕ) (b : Ble)
      → (register_from register k i b).1.calls ≡ b.calls ++ registrations k i b.gatts
  unfolding register_from registrations asked
  register_from-registrations zero i b = sym (append-nil b.calls)
  register_from-registrations (suc k) i b = elim (Bool-cases (is_registered b i)) [
    | inl y ↦
        ap (λ o. o.1.calls) (register_from-next k i b b (ready_known b i y))
        ∙ register_from-registrations k (i + 1) b
        ∙ rw (registrations, y) refl
    | inr n ↦
        ap (λ o. o.1.calls) (register_from-next k i b (asked i b) (ready_new b i n))
        ∙ register_from-registrations k (i + 1) (asked i b)
        ∙ append_assoc b.calls (service_register i ∷ []) (registrations k (i + 1) (asked i b).gatts)
        ∙ ap (λ z. b.calls ++ service_register i ∷ z)
            (registrations-set k (i + 1) i b.gatts
              (record (get_or b.gatts i blank_gatt) { registered = true }) (omega arith))
        ∙ rw (registrations, n) refl
  ]

  pub register_from-Pending :
      (k i : ℕ) (b : Ble)
      → i + k ≤ length b.gatts
      → Pending i (i + k) b (register_from register k i b)
  unfolding register_from
  register_from-Pending zero i b l = record {
    rc = refl;
    count = refl;
    ready = refl;
    advertising = refl;
    slots = refl;
    keeps = λ j k. k;
    registers = λ j a z. absurd (omega (arith, a, z));
  }
  register_from-Pending (suc k) i b l =
      let one = ready-Pending b i (omega arith) in
      both k i b one (
        register_from-Pending k (i + 1) (register_ready register b i).1
          (omega (arith, one.slots, l)))
    where
      both :
          (k i : ℕ) (b : Ble)
          → Pending i (i + 1) b (register_ready register b i)
          → Pending
              (i + 1)
              (i + 1 + k)
              (register_ready register b i).1
              (register_from register k (i + 1) (register_ready register b i).1)
          → Pending i (i + suc k) b (register_from register (suc k) i b)
      both k i b one rest =
          rw (register_from, one.rc)
            (record {
              rc = rest.rc;
              count = rest.count ∙ one.count;
              ready = rest.ready ∙ one.ready;
              advertising = rest.advertising ∙ one.advertising;
              slots = rest.slots ∙ one.slots;
              keeps = λ j e. rest.keeps j (one.keeps j e);
              registers = λ j a z. elim (Bool-cases (j == i)) [
                | inl y ↦ rest.keeps j (one.registers j a (ground arith))
                | inr n ↦ rest.registers j (ground arith) (omega (arith, z))
              ];
            })
