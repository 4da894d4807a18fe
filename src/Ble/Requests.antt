-- ===== src/Ble/Requests.antt =====
-- rtbus_ble.c: advertising, values, security and connections.
-- CONFIG_BT_SMP and CONFIG_SETTINGS are parameters. Pairing callbacks only log and forget stale bonds,
-- and are not modelled.
use rtbus.Base.{
  ℕ, zero, suc, ◌+◌, Bool, true, false, not, ◌&&◌, ◌||◌, List, [], ◌∷◌, ◌++◌, Option, none, some,
  ltb, leb, ◌==◌, if◌then◌else◌, length, get_or, set, take, replicate,
}
use rtbus.Base.Rc.{Rc, ok, err, einval, emsgsize, enomem, enotsup, enotconn, ealready}
use rtbus.Native.{Service, Event}
use rtbus.Native.Api.{Msgq, emit_event}
use rtbus.Native.Result.{int32_bytes}
use rtbus.Ble.{
  Ble, Gatt, Chrc, GapData, Call, service_unregister, adv_start, adv_start_own, adv_stop, enable,
  auth_info_cb_register, settings_load, conn_set_security, notify, blank_chrc, blank_gatt, gatt_max,
  gap_data_max, gap_data_value_max,
}
use rtbus.Ble.Register.{value_copy, ad_sync_service_uuid, register_pending}

pub record Config : Type 0 where
  pub smp : Bool
  pub settings : Bool

-- What the Bluetooth stack answers; `register` and `unregister` for each handle.
pub record Stack : Type 0 where
  pub register : ℕ → Rc
  pub enabled : Rc
  pub auth_registered : Rc
  pub settings_loaded : Rc
  pub adv_started : Rc
  pub security_set : Rc
  pub is_subscribed : Bool
  pub notified : Rc

abbrev pub called : Ble → Call → Ble
called b c = record b { calls = b.calls ++ c ∷ [] }

abbrev pub and_then : Rc × Ble → (Ble → Rc × Ble) → Rc × Ble
and_then (err c, b) f = (err c, b)
and_then (ok, b) f = f b

-- `rtbus_ble_register_auth_info_callbacks`
abbrev pub unless_already : Rc → Rc
unless_already (err ealready) = ok
unless_already rc = rc

-- The part of `adv_start_now` that brings the stack up.
unfoldable pub bring_up : Config → Stack → Ble → Rc × Ble
bring_up cf st b = and_then (register_pending st.register b) (λ b.
    and_then (st.enabled, called b enable)
      (λ b.
        and_then
          (if cf.smp
            then (unless_already st.auth_registered, called b auth_info_cb_register)
            else (ok, b))
          (λ b.
            and_then (if cf.settings then (st.settings_loaded, called b settings_load) else (ok, b))
              (λ b. (ok, record b { ready = true })))))

-- The end of `adv_start_now`.
unfoldable pub start_advertising : Stack → Ble → Rc × Ble
start_advertising st b =
    let own = (length b.app_ad == 0) && (length b.app_sd == 0) in
    let c =
      if own
      then adv_start_own b.ad_has_service_uuid b.ad_service_uuid
      else adv_start b.app_ad b.app_sd in
    if b.advertising
    then (ok, b)
    else and_then (st.adv_started, called b c) (λ b. (ok, record b { advertising = true }))

unfoldable pub adv_start_now : Config → Stack → Ble → Rc × Ble
adv_start_now cf st b = and_then (if not b.ready then bring_up cf st b else (ok, b)) (λ b.
    and_then (register_pending st.register b) (λ b. start_advertising st (ad_sync_service_uuid b)))

-- `rtbus_ble_app_gatt_reset` and `rtbus_ble_reset_app_state`; what the stack answers is only logged.
unfoldable pub unregister_from : (k i : ℕ) → Ble → Ble
unregister_from zero i b = b
unregister_from (suc k) i b =
    unregister_from k (i + 1)
      (if (get_or b.gatts i blank_gatt).registered then called b (service_unregister i) else b)

unfoldable pub app_gatt_reset : Ble → Ble
app_gatt_reset b = ad_sync_service_uuid (record (unregister_from b.gatt_count 0 b) {
  gatt_count = 0;
  gatts = replicate gatt_max blank_gatt;
})

unfoldable pub reset_app_state : Ble → Ble
reset_app_state b =
    app_gatt_reset (record (if b.ready && b.advertising then called b adv_stop else b) {
      advertising = false;
      current_conn = 0;
      gap_security_level = 0;
      gap_flags = 0;
      app_ad = [];
      app_sd = [];
    })

-- `struct application_ble_gatt_value_set_req`, with the bytes at `value_addr`.
pub record ValueSetReq : Type 0 where
  pub handle : ℕ
  pub chrc : ℕ
  pub value_len : ℕ
  pub value : Option (List ℕ)

-- `gatt_value_set_now` once the value is copied: `g` is the service and `c` its characteristic.
unfoldable pub value_copied : Stack → Ble → ValueSetReq → Gatt → Chrc → Rc × Ble
value_copied st b req g c =
    let asks = g.registered && c.has_ccc && not (b.current_conn == 0) in
    let c' = if asks then record c { notify_enabled = st.is_subscribed } else c in
    let b' = record b {
      gatts = set b.gatts req.handle (record g { chrcs = set g.chrcs req.chrc c' });
    } in
    if asks && st.is_subscribed
    then (st.notified, called b' (notify req.handle req.chrc c.value))
    else (ok, b')

unfoldable pub value_set_checked : Stack → Ble → ValueSetReq → Gatt → Rc × Chrc → Rc × Ble
value_set_checked st b req g (err c, _) = (err c, b)
value_set_checked st b req g (ok, c) = value_copied st b req g c

-- `rtbus_ble_app_gatt_value_set_now`
unfoldable pub value_set_now : Stack → Ble → ValueSetReq → Rc × Ble
value_set_now st b req =
    let g = get_or b.gatts req.handle blank_gatt in
    if leb b.gatt_count req.handle
    then (err einval, b)
    else if not g.prepared || leb g.chrc_count req.chrc
    then (err einval, b)
    else value_set_checked st b req g
        (value_copy (get_or g.chrcs req.chrc blank_chrc) req.value req.value_len)

-- `struct runtime_ble_gap_data_def` and `struct runtime_ble_gap_def`, with the entries at its addresses.
pub record GapDataDef : Type 0 where
  pub kind : ℕ
  pub data_len : ℕ
  pub bytes : List ℕ

pub record GapDef : Type 0 where
  pub security_level : ℕ
  pub flags : ℕ
  pub adv_data_count : ℕ
  pub scan_data_count : ℕ
  pub adv_data : Option (List GapDataDef)
  pub scan_data : Option (List GapDataDef)

-- The loop of `gap_data_copy`: the entries, or `none` if one is too long.
unfoldable pub copy_entries : List GapDataDef → Option (List GapData)
copy_entries [] = some []
copy_entries (d ∷ defs) = elim (copy_entries defs) [
  | none ↦ none
  | some rest ↦
      if ltb gap_data_value_max d.data_len
      then none
      else some (record { kind = d.kind; bytes = take d.data_len d.bytes } ∷ rest)
]

abbrev pub or_empty : Option (List GapData) → Rc × List GapData
or_empty none = (err emsgsize, [])
or_empty (some xs) = (ok, xs)

-- `rtbus_ble_gap_data_copy` over the entries `old`.
unfoldable pub gap_data_copy :
    (old : List GapData) → (count : ℕ) → Option (List GapDataDef) → Rc × List GapData
gap_data_copy old count none =
    if ltb gap_data_max count
    then (err enomem, old)
    else if not (count == 0)
    then (err einval, old)
    else (ok, [])
gap_data_copy old count (some defs) =
    if ltb gap_data_max count then (err enomem, old) else or_empty (copy_entries (take count defs))

-- `rtbus_ble_gap_init_now`
unfoldable pub gap_init_now : Ble → Option GapDef → Rc × Ble
gap_init_now b none = (err einval, b)
gap_init_now b (some def) =
    let ad = gap_data_copy b.app_ad def.adv_data_count def.adv_data in
    let sd = gap_data_copy b.app_sd def.scan_data_count def.scan_data in
    and_then (ad.0, record b { app_ad = ad.1 })
      (λ b.
        and_then (sd.0, record b { app_sd = sd.1 })
          (λ b. (ok, record b { gap_security_level = def.security_level; gap_flags = def.flags })))

-- `rtbus_ble_set_security_now` and `rtbus_ble_pair_now`, which asks for BT_SECURITY_L2.
unfoldable pub set_security_now : Config → Stack → Ble → (conn_handle level : ℕ) → Rc × Ble
set_security_now cf st b conn_handle level =
    if not cf.smp
    then (err enotsup, b)
    else if (conn_handle == 0) || (b.current_conn == 0) || not (conn_handle == b.current_conn)
    then (err enotconn, b)
    else (st.security_set, called b (conn_set_security conn_handle level))

unfoldable pub pair_now : (security_l2 : ℕ) → Config → Stack → Ble → (conn_handle : ℕ) → Rc × Ble
pair_now security_l2 cf st b conn_handle = set_security_now cf st b conn_handle security_l2

-- RUNTIME_EVENT_GROUP_BLE and its tags.
abbrev pub group_ble : ℕ
group_ble = 1

abbrev pub connected_tag : ℕ
connected_tag = 1

abbrev pub disconnected_tag : ℕ
disconnected_tag = 2

abbrev pub recycled_tag : ℕ
recycled_tag = 3

abbrev pub connect_failed_tag : ℕ
connect_failed_tag = 5

module _ (q : Msgq Event) where
  -- `rtbus_ble_connected`, `rtbus_ble_disconnected` and `rtbus_ble_recycled`
  unfoldable pub connected : Ble → Service → (conn failure : ℕ) → Ble × Service
  connected b s conn failure =
      let told = emit_event q s group_ble connected_tag (some (int32_bytes conn)) 4 in
      let failed = emit_event q s group_ble connect_failed_tag (some (failure ∷ [])) 1 in
      let b' = record b { advertising = false; current_conn = conn } in
      if not (failure == 0)
      then (record b { advertising = false; current_conn = 0 }, failed.1)
      else (
        if not (b.gap_security_level == 0)
            then called b' (conn_set_security conn b.gap_security_level)
            else b',
        told.1,
      )

  unfoldable pub disconnected : Ble → Service → (conn reason : ℕ) → Ble × Service
  disconnected b s conn reason = (
    if b.current_conn == conn then record b { current_conn = 0 } else b,
    (emit_event q s group_ble disconnected_tag (some (reason ∷ [])) 1).1,
  )

  unfoldable pub recycled : Ble → Service → Ble × Service
  recycled b s = (record b { current_conn = 0 }, (emit_event q s group_ble recycled_tag none 0).1)
