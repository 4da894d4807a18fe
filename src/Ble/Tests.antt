-- ===== src/Ble/Tests.antt =====
-- A service of two characteristics, of which one notifies: it is staged, advertised and set.
use rtbus.Base.{ℕ, ◌/◌, ◌%◌, refl, true, false, List, [], ◌∷◌, some, arith, ◌==◌, replicate}
use rtbus.Base.Rc.{Rc, ok, err, enomem}
use rtbus.Ble.{Ble, Gatt, primary, declaration, value_of, ccc_of, blank, blank_chrc, blank_gatt}
use rtbus.Ble.Register.{Masks, ChrcDef, ServiceDef, notify_register_now}
use rtbus.Ble.Registered.{IsRegistered, notify_register_now-IsRegistered}
use rtbus.Ble.Requests.{Config, Stack, ValueSetReq, adv_start_now, value_set_now}
use rtbus.Ble.Started.{IsAccepting, IsStarted, adv_start_now-IsStarted}
use rtbus.Ble.ValueSet.{ValueSet, value_set_now-ValueSet}

abbrev masks : Masks
masks = record {
  chrc_read_notify = 18;
  has_notify = λ p. p / 16 % 2 == 1;
  perm_read = 1;
  perm_read_write = 3;
}

abbrev off : Ble
off = record {
  ready = false;
  advertising = false;
  current_conn = 0;
  gap_security_level = 0;
  gap_flags = 0;
  app_ad = [];
  app_sd = [];
  ad_has_service_uuid = false;
  ad_service_uuid = replicate 16 0;
  gatts = replicate 2 blank_gatt;
  gatt_count = 0;
  calls = [];
}

abbrev level : ChrcDef
level = record {
  value_uuid = 7 ∷ [];
  value_len = 1;
  properties = 0;
  value_perm = 0;
  ccc_perm = 0;
  value = some (99 ∷ []);
}

abbrev name : ChrcDef
name = record {
  value_uuid = 8 ∷ [];
  value_len = 2;
  properties = 2;
  value_perm = 0;
  ccc_perm = 0;
  value = some (65 ∷ 66 ∷ []);
}

abbrev defs : List ChrcDef
defs = level ∷ name ∷ []

abbrev battery : ServiceDef
battery = record { service_uuid = 1 ∷ []; chrc_count = 2; chrcs = some defs }

-- A stack that is up and refuses: the slot is taken all the same.
abbrev up : Ble
up = record off { ready = true }

refuses : ℕ → Rc
refuses handle = err enomem

notify_register_now-IsRegistered_example :
    IsRegistered masks refuses up
      (1 ∷ [])
      defs
      (notify_register_now masks refuses up (some battery))
notify_register_now-IsRegistered_example =
    notify_register_now-IsRegistered masks refuses up battery defs refl (omega arith) refl refl
      ((refl, refl), ((refl, refl), tt)) (omega arith)

abbrev willing : Stack
willing = record {
  register = λ handle. ok;
  enabled = ok;
  auth_registered = ok;
  settings_loaded = ok;
  adv_started = ok;
  security_set = ok;
  is_subscribed = true;
  notified = ok;
}

willing-IsAccepting : IsAccepting willing
willing-IsAccepting = record {
  register = λ i. refl;
  enabled = refl;
  auth_registered = refl;
  settings_loaded = refl;
  adv_started = refl;
}

abbrev configured : Config
configured = record { smp = true; settings = true }

abbrev slot : Gatt
slot = record {
  prepared = true;
  registered = true;
  attr_count = 4;
  chrc_count = 1;
  service_uuid = 1 ∷ [];
  chrcs =
      record blank_chrc { has_ccc = true; value_attr_index = 2; ccc_attr_index = 3 }
      ∷ replicate 3 blank_chrc;
  attrs = primary (1 ∷ []) 1 ∷ declaration 0 1 ∷ value_of 0 1 ∷ ccc_of 0 3 ∷ replicate 9 blank;
}

abbrev staged : Ble
staged = record off { gatts = record slot { registered = false } ∷ blank_gatt ∷ []; gatt_count = 1 }

adv_start_now-IsStarted_example :
    IsStarted 1 configured staged (adv_start_now configured willing staged)
adv_start_now-IsStarted_example =
    adv_start_now-IsStarted configured willing willing-IsAccepting 1 staged refl (omega arith)

abbrev connected : Ble
connected = record up { gatts = slot ∷ blank_gatt ∷ []; gatt_count = 1; current_conn = 4096 }

abbrev set_level : ValueSetReq
set_level = record { handle = 0; chrc = 0; value_len = 1; value = some (42 ∷ []) }

value_set_now-ValueSet_example :
    ValueSet willing connected set_level true (value_set_now willing connected set_level)
value_set_now-ValueSet_example =
    value_set_now-ValueSet willing connected set_level (omega arith) (omega arith)
