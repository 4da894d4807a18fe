-- ===== src/Ble/ValueSet.antt =====
-- `rtbus_ble_app_gatt_value_set_now`: which value changes, and who is told.
use rtbus.Base.{
  ℕ, ◌<◌, ◌≤◌, ◌≡◌, ◌≢◌, ◌∙◌, refl, sym, ap, inl, inr, Bool, true, false, not, ◌&&◌, ◌||◌, List, [],
  ◌∷◌, ◌++◌, Option, none, some, arith, ltb, leb, ◌==◌, if◌then◌else◌, length, get_or, set,
  Bool-cases,
}
use rtbus.Base.Rc.{Rc, ok, err, Errno, einval, emsgsize}
use rtbus.Ble.{Ble, Gatt, Chrc, notify, blank_gatt, blank_chrc, value_max}
use rtbus.Ble.Register.{copy_bytes, value_copy}
use rtbus.Ble.Registered.{get_or-set_self}
use rtbus.Ble.Requests.{Stack, ValueSetReq, called, value_copied, value_set_checked, value_set_now}
use rtbus.Ble.Staged.{bytes_or_none}
use rtbus.Ble.Pending.{get_or-set_ne}

abbrev pub gatt_at : Ble → (handle : ℕ) → Gatt
gatt_at b handle = get_or b.gatts handle blank_gatt

abbrev pub chrc_of : Ble → (handle chrc : ℕ) → Chrc
chrc_of b handle chrc = get_or (gatt_at b handle).chrcs chrc blank_chrc

abbrev pub value_at : Ble → (handle chrc : ℕ) → List ℕ
value_at b handle chrc = (chrc_of b handle chrc).value

-- The bytes of a request.
abbrev pub req_bytes : ValueSetReq → List ℕ
req_bytes req = bytes_or_none (copy_bytes req.value req.value_len)

abbrev pub is_given : Option (List ℕ) → Bool
is_given none = false
is_given (some _) = true

-- The value is short enough, and given unless it is empty.
abbrev pub is_copied : ValueSetReq → Bool
is_copied req = not (ltb value_max req.value_len) && ((req.value_len == 0) || is_given req.value)

-- The characteristic is there, and the value can be copied.
abbrev pub is_set : Ble → ValueSetReq → Bool
is_set b req =
    not (leb b.gatt_count req.handle)
    && (not (not (gatt_at b req.handle).prepared || leb (gatt_at b req.handle).chrc_count req.chrc)
        && is_copied req)

-- The peer is told: the service is registered, the characteristic has a configuration, and there is a
-- connection whose peer subscribed.
abbrev pub is_told : Stack → Ble → ValueSetReq → Bool
is_told st b req =
    (gatt_at b req.handle).registered
    && (chrc_of b req.handle req.chrc).has_ccc
    && not (b.current_conn == 0)
    && st.is_subscribed

-- A request is refused and nothing changes; or the value of its characteristic is set and no other,
-- and the stack is asked to notify exactly if the peer is to be told.
pub data ValueSet (st : Stack) (b : Ble) (req : ValueSetReq) (accepted : Bool)
    : Rc × Ble → Type 0 where
  refused : {c : Errno} → accepted ≡ false → ValueSet st b req accepted (err c, b)
  written :
      {rc : Rc} {b' : Ble}
      → accepted ≡ true
      → rc ≡ (if is_told st b req then st.notified else ok)
      → value_at b' req.handle req.chrc ≡ req_bytes req
      → ((handle chrc : ℕ)
          → ((handle == req.handle) && (chrc == req.chrc)) ≡ false
          → value_at b' handle chrc ≡ value_at b handle chrc)
      → b'.calls ≡ (
          if is_told st b req
          then b.calls ++ notify req.handle req.chrc (req_bytes req) ∷ []
          else b.calls)
      → ValueSet st b req accepted (rc, b')

module _ (b : Ble) (req : ValueSetReq) (c' : Chrc) where
  -- The state with another characteristic in the place of the request's.
  abbrev put_chrc : Ble
  put_chrc = record b {
    gatts =
        set b.gatts req.handle
          (record (gatt_at b req.handle) { chrcs = set (gatt_at b req.handle).chrcs req.chrc c' });
  }

  value_at-put_self :
      req.handle < length b.gatts
      → req.chrc < length (gatt_at b req.handle).chrcs
      → value_at put_chrc req.handle req.chrc ≡ c'.value
  value_at-put_self l k =
      ap (λ (g : Gatt). (get_or g.chrcs req.chrc blank_chrc).value)
        (get_or-set_self b.gatts req.handle _ blank_gatt l)
      ∙ ap (λ (c : Chrc). c.value)
          (get_or-set_self (gatt_at b req.handle).chrcs req.chrc c' blank_chrc k)

  value_at-put_ne :
      (handle chrc : ℕ)
      → req.handle < length b.gatts
      → ((handle == req.handle) && (chrc == req.chrc)) ≡ false
      → value_at put_chrc handle chrc ≡ value_at b handle chrc
  value_at-put_ne handle chrc l n = elim (Bool-cases (handle == req.handle)) [
    | inl y ↦
        let at : handle ≡ req.handle = ground arith in
        let other : req.chrc ≢ chrc = λ e. same_pair at (sym e) n in
        rw at (
          ap (λ (g : Gatt). (get_or g.chrcs chrc blank_chrc).value)
            (get_or-set_self b.gatts req.handle _ blank_gatt l)
          ∙ ap (λ (c : Chrc). c.value)
              (get_or-set_ne (gatt_at b req.handle).chrcs req.chrc chrc c' blank_chrc other))
    | inr m ↦
        let other : req.handle ≢ handle = ground arith in
        ap (λ (g : Gatt). (get_or g.chrcs chrc blank_chrc).value)
          (get_or-set_ne b.gatts req.handle handle _ blank_gatt other)
  ]
    where
      same_pair :
          handle ≡ req.handle
          → chrc ≡ req.chrc
          → ((handle == req.handle) && (chrc == req.chrc)) ≢ false
      same_pair e f k = absurd (ground arith)

and_assoc_4 : (p q r s : Bool) → ((p && q && r) && s) ≡ (p && q && r && s)
and_assoc_4 true true true s = refl
and_assoc_4 true true false s = refl
and_assoc_4 true false r s = refl
and_assoc_4 false q r s = refl

if_value :
    (t : Bool) (c c' : Chrc) (v : List ℕ)
    → c.value ≡ v
    → c'.value ≡ v
    → (if t then c else c').value ≡ v
if_value true c c' v e f = e
if_value false c c' v e f = f

-- Why a value is not copied.
abbrev code_of : (value_len : ℕ) → Errno
code_of value_len = if ltb value_max value_len then emsgsize else einval

value_copy_lem :
    (c : Chrc) (value : Option (List ℕ)) (value_len : ℕ)
    → value_copy c value value_len ≡ (
        if not (ltb value_max value_len) && ((value_len == 0) || is_given value)
        then (ok, record c { value = bytes_or_none (copy_bytes value value_len) })
        else (err (code_of value_len), c))
unfolding value_copy
value_copy_lem c value value_len = elim (Bool-cases (ltb value_max value_len)) [
  | inl long ↦ rw long refl
  | inr short ↦ rw short (given value)
]
  where
    given :
        (value : Option (List ℕ))
        → elim (copy_bytes value value_len) as (λ o. Rc × Chrc) [
          | none ↦ (err einval, c)
          | some bytes ↦ (ok, record c { value = bytes })
        ]
          ≡ (if (value_len == 0) || is_given value
              then (ok, record c { value = bytes_or_none (copy_bytes value value_len) })
              else (err einval, c))
    given none = elim (Bool-cases (value_len == 0)) [ inl z ↦ rw z refl | inr n ↦ rw n refl ]
    given (some bytes) = elim (Bool-cases (value_len == 0)) [
      | inl z ↦ rw z refl
      | inr n ↦ rw n refl
    ]

module _ (st : Stack) (b : Ble) (req : ValueSetReq) where
  abbrev copied : Chrc
  copied = record (chrc_of b req.handle req.chrc) { value = req_bytes req }

  abbrev asks : Bool
  asks =
      (gatt_at b req.handle).registered
      && (chrc_of b req.handle req.chrc).has_ccc
      && not (b.current_conn == 0)

  abbrev told_chrc : Chrc
  told_chrc = if asks then record copied { notify_enabled = st.is_subscribed } else copied

  told_value : told_chrc.value ≡ req_bytes req
  told_value = if_value asks _ _ (req_bytes req) refl refl

  value_copied-ValueSet :
      req.handle < length b.gatts
      → req.chrc < length (gatt_at b req.handle).chrcs
      → ValueSet st b req true (value_copied st b req (gatt_at b req.handle) copied)
  unfolding value_copied
  value_copied-ValueSet l k = pick (asks && st.is_subscribed) refl
    where
      same : is_told st b req ≡ (asks && st.is_subscribed)
      same = sym (
          and_assoc_4 (gatt_at b req.handle).registered (chrc_of b req.handle req.chrc).has_ccc
            (not (b.current_conn == 0)) st.is_subscribed)

      set_self : value_at (put_chrc b req told_chrc) req.handle req.chrc ≡ req_bytes req
      set_self = value_at-put_self b req told_chrc l k ∙ told_value

      others :
          (handle chrc : ℕ)
          → ((handle == req.handle) && (chrc == req.chrc)) ≡ false
          → value_at (put_chrc b req told_chrc) handle chrc ≡ value_at b handle chrc
      others handle chrc n = value_at-put_ne b req told_chrc handle chrc l n

      pick :
          (t : Bool)
          → (asks && st.is_subscribed) ≡ t
          → ValueSet st b req true (
              if t
              then (
                st.notified,
                called (put_chrc b req told_chrc) (notify req.handle req.chrc (req_bytes req)),
              )
              else (ok, put_chrc b req told_chrc))
      pick true y = let t = same ∙ y in written refl (rw t refl) set_self others (rw t refl)
      pick false n = let t = same ∙ n in written refl (rw t refl) set_self others (rw t refl)

  value_copy-ValueSet :
      req.handle < length b.gatts
      → req.chrc < length (gatt_at b req.handle).chrcs
      → (given : Bool)
      → value_copy (chrc_of b req.handle req.chrc) req.value req.value_len ≡ (
          if given
          then (ok, copied)
          else (err (code_of req.value_len), chrc_of b req.handle req.chrc))
      → ValueSet st b req given (
          value_set_checked st b req
            (gatt_at b req.handle)
            (value_copy (chrc_of b req.handle req.chrc) req.value req.value_len))
  unfolding value_set_checked
  value_copy-ValueSet l k true e = rw e (value_copied-ValueSet l k)
  value_copy-ValueSet l k false e = rw e (refused refl)

  checked :
      (absent missing given : Bool) (o : Rc × Ble)
      → (absent ≡ false → missing ≡ false → ValueSet st b req given o)
      → ValueSet st b req
          (not absent && (not missing && given))
          (if absent then (err einval, b) else if missing then (err einval, b) else o)
  checked true missing given o f = refused refl
  checked false true given o f = refused refl
  checked false false given o f = f refl refl

  -- A value is set exactly when its service is there, the characteristic is one of the service's, and
  -- the value has at most 32 bytes and is given unless it is empty: then that value changes and no
  -- other, and the stack is asked to notify, and answers for the result, exactly when the service is
  -- registered, the characteristic has a configuration, and the peer of a connection subscribed. Else
  -- nothing changes.
  pub value_set_now-ValueSet :
      b.gatt_count ≤ length b.gatts
      → (gatt_at b req.handle).chrc_count ≤ length (gatt_at b req.handle).chrcs
      → ValueSet st b req (is_set b req) (value_set_now st b req)
  unfolding value_set_now
  value_set_now-ValueSet slots chrcs =
      checked (leb b.gatt_count req.handle)
        (not (gatt_at b req.handle).prepared || leb (gatt_at b req.handle).chrc_count req.chrc)
        (is_copied req) _
        (λ there present.
          value_copy-ValueSet (ground (arith, there, slots)) (inside present) (is_copied req)
            (value_copy_lem (chrc_of b req.handle req.chrc) req.value req.value_len))
    where
      inside :
          (not (gatt_at b req.handle).prepared || leb (gatt_at b req.handle).chrc_count req.chrc)
            ≡ false
          → req.chrc < length (gatt_at b req.handle).chrcs
      inside present = within (not (gatt_at b req.handle).prepared) present
        where
          within :
              (a : Bool)
              → (a || leb (gatt_at b req.handle).chrc_count req.chrc) ≡ false
              → req.chrc < length (gatt_at b req.handle).chrcs
          within true e = absurd (cc)
          within false e = ground (arith, e, chrcs)
