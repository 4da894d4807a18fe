-- ===== src/Ble/Register.antt =====
-- rtbus_ble.c: the GATT services of the native application, how they are laid out as attributes and
-- registered with the Bluetooth stack.
use rtbus.Base.{
  ℕ, zero, suc, ◌+◌, Bool, true, false, ◌||◌, List, [], ◌∷◌, ◌++◌, Option, none, some, ltb, leb,
  ◌==◌, if◌then◌else◌, get_or, set, take, replicate,
}
use rtbus.Base.Rc.{Rc, ok, err, einval, emsgsize, enomem}
use rtbus.Base.Word.{u8}
use rtbus.Ble.{
  Ble, Gatt, Chrc, blank, primary, declaration, value_of, ccc_of, service_register, blank_chrc,
  blank_gatt, gatt_max, chrc_max, attr_max, value_max,
}

-- BT_GATT_CHRC_READ | BT_GATT_CHRC_NOTIFY, the test for BT_GATT_CHRC_NOTIFY, BT_GATT_PERM_READ, and
-- BT_GATT_PERM_READ | BT_GATT_PERM_WRITE.
pub record Masks : Type 0 where
  pub chrc_read_notify : ℕ
  pub has_notify : (properties : ℕ) → Bool
  pub perm_read : ℕ
  pub perm_read_write : ℕ

-- `struct runtime_ble_gatt_chrc_def`, with the bytes at `value_addr`.
pub record ChrcDef : Type 0 where
  pub value_uuid : List ℕ
  pub value_len : ℕ
  pub properties : ℕ
  pub value_perm : ℕ
  pub ccc_perm : ℕ
  pub value : Option (List ℕ)

-- `struct runtime_ble_gatt_service_def`, with the definitions at `chrcs_addr`.
pub record ServiceDef : Type 0 where
  pub service_uuid : List ℕ
  pub chrc_count : ℕ
  pub chrcs : Option (List ChrcDef)

-- `rtbus_ble_app_gatt_value_copy`
abbrev pub copy_bytes : Option (List ℕ) → (value_len : ℕ) → Option (List ℕ)
copy_bytes none value_len = if value_len == 0 then some [] else none
copy_bytes (some bytes) value_len = some (take value_len bytes)

unfoldable pub value_copy : Chrc → Option (List ℕ) → (value_len : ℕ) → Rc × Chrc
value_copy c value value_len =
    if ltb value_max value_len then (err emsgsize, c) else elim (copy_bytes value value_len) [
      | none ↦ (err einval, c)
      | some bytes ↦ (ok, record c { value = bytes })
    ]

abbrev pub or_default : (n d : ℕ) → ℕ
or_default n d = if n == 0 then d else n

-- `rtbus_ble_ad_sync_service_uuid`
unfoldable pub ad_sync_service_uuid : Ble → Ble
ad_sync_service_uuid b =
    if b.gatt_count == 0
    then record b { ad_has_service_uuid = false; ad_service_uuid = replicate 16 0 }
    else record b {
      ad_has_service_uuid = true;
      ad_service_uuid = (get_or b.gatts 0 blank_gatt).service_uuid;
    }

-- What `register_ready` makes of the stack's answer.
unfoldable pub register_answer : Ble → (handle : ℕ) → Gatt → Rc → Rc × Ble
register_answer b handle g (err c) =
    (err c, record b { calls = b.calls ++ service_register handle ∷ [] })
register_answer b handle g ok = (
  ok,
  record b {
    calls = b.calls ++ service_register handle ∷ [];
    gatts = set b.gatts handle (record g { registered = true });
  },
)

-- `rtbus_ble_app_gatt_register_ready`; `register` is what `bt_gatt_service_register` answers for
-- each handle.
unfoldable pub register_ready : (register : ℕ → Rc) → Ble → (handle : ℕ) → Rc × Ble
register_ready register b handle =
    let g = get_or b.gatts handle blank_gatt in
    if g.registered then (ok, b) else register_answer b handle g (register handle)

-- The loop of `rtbus_ble_app_gatt_register_pending` over `k` slots from `i` on.
unfoldable pub register_from : (register : ℕ → Rc) → (k i : ℕ) → Ble → Rc × Ble
register_from register zero i b = (ok, b)
register_from register (suc k) i b =
    let one = register_ready register b i in
    let rest = register_from register k (i + 1) one.1 in
    elim one.0 [ err c ↦ (err c, one.1) | ok ↦ rest ]

unfoldable pub register_pending : (register : ℕ → Rc) → Ble → Rc × Ble
register_pending register b = register_from register b.gatt_count 0 b

-- The next slot is taken by a service.
unfoldable pub listed : Ble → Gatt → Ble
listed b g =
    ad_sync_service_uuid
      (record b { gatts = set b.gatts b.gatt_count g; gatt_count = b.gatt_count + 1 })

-- The handle is returned if the registration did not fail.
unfoldable pub with_handle : (handle : ℕ) → Rc × Ble → Rc × ℕ × Ble
with_handle handle (err c, b) = (err c, 0, b)
with_handle handle (ok, b) = (ok, handle, b)

module _ (m : Masks) where
  abbrev pub properties_of : ChrcDef → ℕ
  properties_of def = or_default def.properties m.chrc_read_notify

  abbrev pub value_perm_of : ChrcDef → ℕ
  value_perm_of def = or_default def.value_perm m.perm_read

  abbrev pub ccc_perm_of : ChrcDef → ℕ
  ccc_perm_of def = or_default def.ccc_perm m.perm_read_write

  -- `rtbus_ble_app_gatt_cccd_define`, for characteristic `i`.
  unfoldable pub cccd_define : Gatt → (i attr_index perm : ℕ) → Gatt
  cccd_define g i attr_index perm = record g {
    attrs = set g.attrs attr_index (ccc_of i perm);
    chrcs =
        set g.chrcs i
          (record (get_or g.chrcs i blank_chrc) { ccc_attr_index = attr_index; has_ccc = true });
  }

  -- Characteristic `i` with its value `c` copied: its declaration and its value.
  unfoldable pub define_value : Gatt → (i attr_index : ℕ) → ChrcDef → Chrc → Gatt
  define_value g i attr_index def c = record g {
    attrs =
        set (set g.attrs attr_index (declaration i m.perm_read)) (attr_index + 1)
          (value_of i (value_perm_of def));
    chrcs = set g.chrcs i (record c {
      value_uuid = def.value_uuid;
      properties = properties_of def;
      value_attr_index = attr_index + 1;
    });
  }

  -- The loop over the characteristics from `i` on. On an error the slot is cleared.
  unfoldable pub stage_from : (i attr_index : ℕ) → Gatt → List ChrcDef → Rc × ℕ × Gatt
  stage_from i attr_index g [] = (ok, attr_index, g)
  stage_from i attr_index g (def ∷ defs) =
      let copied = value_copy (get_or g.chrcs i blank_chrc) def.value def.value_len in
      let defined = define_value g i attr_index def copied.1 in
      let at = attr_index + 2 in
      let plain = stage_from (i + 1) at defined defs in
      let with_ccc =
        stage_from (i + 1) (at + 1) (cccd_define defined i at (ccc_perm_of def)) defs in
      if ltb attr_max (u8 at) then (err enomem, 0, blank_gatt) else elim copied.0 [
        | err c ↦ (err c, 0, blank_gatt)
        | ok ↦
            if m.has_notify (properties_of def)
            then (if leb attr_max at then (err enomem, 0, blank_gatt) else with_ccc)
            else plain
      ]

  -- The slot of a service before its characteristics.
  abbrev pub new_gatt : List ℕ → Gatt
  new_gatt uuid = record blank_gatt {
    service_uuid = uuid;
    attrs = set (replicate attr_max blank) 0 (primary uuid m.perm_read);
  }

  -- The end of `notify_register_now`, on the slot that the loop made.
  unfoldable pub staged : (register : ℕ → Rc) → Ble → ServiceDef → Rc × ℕ × Gatt → Rc × ℕ × Ble
  staged register b def (err c, attr_index, g) =
      (err c, 0, record b { gatts = set b.gatts b.gatt_count g })
  staged register b def (ok, attr_index, g) =
      let g' = record g { chrc_count = def.chrc_count; attr_count = attr_index; prepared = true } in
      let b' = listed b g' in
      if b.ready
      then with_handle b.gatt_count (register_ready register b' b.gatt_count)
      else (ok, b.gatt_count, b')

  -- `rtbus_ble_app_gatt_notify_register_now`: an error, or the handle of the service. A definition of
  -- `none` is NULL.
  unfoldable pub notify_register_now : (register : ℕ → Rc) → Ble → Option ServiceDef → Rc × ℕ × Ble
  notify_register_now register b none = (err einval, 0, b)
  notify_register_now register b (some def) =
      if (def.chrc_count == 0) || ltb chrc_max def.chrc_count
      then (err einval, 0, b)
      else elim def.chrcs [
        | none ↦ (err einval, 0, b)
        | some defs ↦
            if leb gatt_max b.gatt_count
            then (err enomem, 0, b)
            else staged register b def
                (stage_from 0 1 (new_gatt def.service_uuid) (take def.chrc_count defs))
      ]
