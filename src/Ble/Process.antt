-- ===== src/Ble/Process.antt =====
-- `rtbus_ble_process`: what the Bluetooth task does with the requests of the native application.
use rtbus.Base.{ℕ, not, Option, ◌==◌, if◌then◌else◌}
use rtbus.Base.Rc.{Rc, ok, err, Errno}
use rtbus.Native.{Board, Service}
use rtbus.Native.Result.{complete_result}
use rtbus.Ble.{Ble}
use rtbus.Ble.Register.{Masks, ServiceDef, notify_register_now}
use rtbus.Ble.Requests.{
  Config, Stack, ValueSetReq, GapDef, reset_app_state, adv_start_now, pair_now, set_security_now,
  gap_init_now, value_set_now,
}

-- What an event of the task asks for; the requests that have a result carry its address.
pub data Request : Type 0 where
  pair : (conn : ℕ) → Request
  set_security : (conn level : ℕ) → Request
  gap_init : Option GapDef → Request
  gatt_notify_register : Option ServiceDef → Request
  gatt_value_set : ValueSetReq → Request

pub data BleEvent : Type 0 where
  sys_init : BleEvent
  adv_start_event : BleEvent
  request : (payload_len result_addr : ℕ) → Request → BleEvent
  other_event : BleEvent

-- APPLICATION_BLE_PAIR_PAYLOAD_SIZE and the other sizes.
abbrev pub payload_size : Request → ℕ
payload_size (pair _) = 8
payload_size (set_security _ _) = 12
payload_size (gap_init _) = 8
payload_size (gatt_notify_register _) = 8
payload_size (gatt_value_set _) = 12

abbrev pub without_value : Rc × Ble → Rc × ℕ × Ble
without_value (rc, b) = (rc, 0, b)

-- The board and the stack; `int_of` is the 32-bit pattern of a negated errno.
module _ (m : Masks) (cf : Config) (st : Stack) (security_l2 : ℕ) (board : Board)
    (int_of : Errno → ℕ) where
  unfoldable pub perform : Ble → Request → Rc × ℕ × Ble
  perform b (pair conn) = without_value (pair_now security_l2 cf st b conn)
  perform b (set_security conn level) = without_value (set_security_now cf st b conn level)
  perform b (gap_init def) = without_value (gap_init_now b def)
  perform b (gatt_notify_register def) = notify_register_now m st.register b def
  perform b (gatt_value_set req) = without_value (value_set_now st b req)

  -- The `int` that an operation returns.
  abbrev pub returned : Rc × ℕ × Ble → ℕ
  returned (ok, value, b) = value
  returned (err c, value, b) = int_of c

  unfoldable pub process : Ble → Service → BleEvent → Ble × Service
  process b s sys_init = (reset_app_state b, s)
  process b s adv_start_event = ((adv_start_now cf st b).1, s)
  process b s (request payload_len result_addr r) =
      let done = perform b r in
      if not (payload_len == payload_size r)
      then (b, s)
      else (done.2, (complete_result board s result_addr (returned done)).1)
  process b s other_event = (b, s)
