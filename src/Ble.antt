-- ===== src/Ble.antt =====
-- zephyr/runtime/src/services/rtbus_ble.c: the Bluetooth service, with the GATT services, the
-- advertising data and the connection of the native application.
-- What the Bluetooth stack answers during a call is a parameter, `Stack`; what the calls do to the
-- stack is the list `calls`, in order. What the code reads at an address that the application gives is
-- part of the request, with `none` for address 0. Only the entries of an array that a count covers are
-- kept where the code looks at no others.
pub mod Laid
pub mod Process
pub mod Register
pub mod Staged
pub mod Pending
pub mod Started
mod Tests
pub mod ValueSet
pub mod Registered
pub mod Requests
use rtbus.Base.{ℕ, Bool, true, false, List, [], replicate}

abbrev pub gatt_max : ℕ
gatt_max = 2

abbrev pub chrc_max : ℕ
chrc_max = 4

-- RTBUS_BLE_APP_GATT_ATTR_MAX
abbrev pub attr_max : ℕ
attr_max = 13

-- RUNTIME_BLE_GATT_VALUE_MAX, RUNTIME_BLE_GAP_DATA_MAX and RUNTIME_BLE_GAP_DATA_VALUE_MAX
abbrev pub value_max : ℕ
value_max = 32

abbrev pub gap_data_max : ℕ
gap_data_max = 4

abbrev pub gap_data_value_max : ℕ
gap_data_value_max = 31

-- `struct rtbus_ble_app_gatt_chrc`; the value is its first `value_len` bytes.
pub record Chrc : Type 0 where
  pub notify_enabled : Bool
  pub has_ccc : Bool
  pub value_attr_index : ℕ
  pub ccc_attr_index : ℕ
  pub value_uuid : List ℕ
  pub properties : ℕ
  pub value : List ℕ

-- `struct bt_gatt_attr` as the service fills it: what `uuid`, `read`, `write` and `user_data` come to,
-- the latter by the index of the characteristic, and the permissions.
pub data Attr : Type 0 where
  blank : Attr
  primary : (service_uuid : List ℕ) (perm : ℕ) → Attr
  declaration : (chrc perm : ℕ) → Attr
  value_of : (chrc perm : ℕ) → Attr
  ccc_of : (chrc perm : ℕ) → Attr

-- `struct rtbus_ble_app_gatt`
pub record Gatt : Type 0 where
  pub prepared : Bool
  pub registered : Bool
  pub attr_count : ℕ
  pub chrc_count : ℕ
  pub service_uuid : List ℕ
  pub chrcs : List Chrc
  pub attrs : List Attr

abbrev pub blank_chrc : Chrc
blank_chrc = record {
  notify_enabled = false;
  has_ccc = false;
  value_attr_index = 0;
  ccc_attr_index = 0;
  value_uuid = [];
  properties = 0;
  value = [];
}

-- A slot after `memset`.
abbrev pub blank_gatt : Gatt
blank_gatt = record {
  prepared = false;
  registered = false;
  attr_count = 0;
  chrc_count = 0;
  service_uuid = [];
  chrcs = replicate chrc_max blank_chrc;
  attrs = replicate attr_max blank;
}

-- An entry of the advertising data.
pub record GapData : Type 0 where
  pub kind : ℕ
  pub bytes : List ℕ

-- The calls of the stack that change it. `own_data` advertises the service's own data, with the UUID
-- if there is one.
pub data Call : Type 0 where
  service_register : (handle : ℕ) → Call
  service_unregister : (handle : ℕ) → Call
  adv_start : (ad sd : List GapData) → Call
  adv_start_own : (has_service_uuid : Bool) → (service_uuid : List ℕ) → Call
  adv_stop : Call
  enable : Call
  auth_info_cb_register : Call
  settings_load : Call
  conn_set_security : (conn level : ℕ) → Call
  notify : (handle chrc : ℕ) → (value : List ℕ) → Call

-- The static variables.
pub record Ble : Type 0 where
  pub ready : Bool
  pub advertising : Bool
  pub current_conn : ℕ
  pub gap_security_level : ℕ
  pub gap_flags : ℕ
  pub app_ad : List GapData
  pub app_sd : List GapData
  pub ad_has_service_uuid : Bool
  pub ad_service_uuid : List ℕ
  pub gatts : List Gatt
  pub gatt_count : ℕ
  pub calls : List Call
