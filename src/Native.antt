-- ===== src/Native.antt =====
-- zephyr/modules/rtbus/services/native_service/native_service.c: loading the native application,
-- starting it, and taking it down for an upgrade.
-- The image service, the sizes of the board and the API version are parameters. A kernel object is
-- what the service can tell of it: whether the thread exists, what is in a queue, and which bits of
-- an event are set.
pub mod Api
pub mod Delay
pub mod Drained
pub mod Load
pub mod Pins
pub mod Posts
pub mod Result
mod Tests
use rtbus.Base.{
  ℕ, zero, suc, ◌+◌, ◌-◌, ◌/◌, ◌%◌, Bool, true, false, not, ◌&&◌, ◌||◌, List, [], ◌∷◌, ltb, leb,
  ◌==◌, if◌then◌else◌, length, get_or,
}
use rtbus.Base.Rc.{Rc, ok, err, Errno, enotsup, eprotonosupport, einval, eio, ebusy, etimedout}
use rtbus.Base.Word.{add32, sub32}

-- `struct rtbus_image_status`, as far as the service reads it, with the two parts of its flags.
pub record Status : Type 0 where
  pub is_native : Bool
  pub abi_version : ℕ
  pub payload_size : ℕ

-- `struct rtbus_image_native_metadata`
pub record Metadata : Type 0 where
  pub entry_offset : ℕ
  pub data_load_offset : ℕ
  pub data_ram_offset : ℕ
  pub data_size : ℕ
  pub bss_ram_offset : ℕ
  pub bss_size : ℕ

-- `rtbus_image_get_status`, `rtbus_image_get_native_metadata` and `rtbus_image_read_payload`, which
-- gives the bytes it read.
pub record Image : Type 0 where
  pub get_status : Rc × Status
  pub get_native_metadata : Rc × Metadata
  pub read_payload : (offset size : ℕ) → Rc × List ℕ

-- NATIVE_RAM_BASE, NATIVE_RAM_SIZE, NATIVE_FLASH_BASE with RTBUS_IMAGE_HEADER_SIZE behind it, and
-- NATIVE_REQUIRED_ABI_VERSION.
pub record Board : Type 0 where
  pub ram_base : ℕ
  pub ram_size : ℕ
  pub payload_base : ℕ
  pub required_abi_version : ℕ

-- `struct native_rtbus_post_msg`; the payload is its first `payload_len` bytes.
pub record PostMsg : Type 0 where
  pub task_id : ℕ
  pub ctx_id : ℕ
  pub payload_len : ℕ
  pub payload : List ℕ

-- `struct runtime_event_tlv`; the value is its first `len` bytes.
pub record Event : Type 0 where
  pub group : ℕ
  pub tag : ℕ
  pub len : ℕ
  pub value : List ℕ

-- The static variables; `has_thread` tells that `native_thread_id` is not NULL. The queues hold their
-- messages, the oldest first, and `wake_irq` and `wake_process` are the two bits of
-- `native_wake_event`. `delivered` has the events that the callback was called with, and
-- `runtime_signals` counts the calls of `runtime_event_signal`.
pub record Service : Type 0 where
  pub has_thread : Bool
  pub entry : ℕ
  pub patch_handoff : Bool
  pub last_error : Rc
  pub console_suppressed : Bool
  pub api_busy : ℕ
  pub event_callback : ℕ
  pub posts : List PostMsg
  pub events : List Event
  pub results : ℕ
  pub wake_irq : Bool
  pub wake_process : Bool
  pub delivered : List Event
  pub runtime_signals : ℕ
  pub ram : ℕ → ℕ

unfoldable pub native_validate_metadata : Board → Status → Metadata → Rc
native_validate_metadata board status m =
    if not status.is_native
    then err enotsup
    else if not (status.abi_version == board.required_abi_version)
    then err eprotonosupport
    else if leb status.payload_size m.entry_offset
        || ltb status.payload_size m.data_load_offset
        || ltb (sub32 status.payload_size m.data_load_offset) m.data_size
        || ltb board.ram_size m.data_ram_offset
        || ltb (sub32 board.ram_size m.data_ram_offset) m.data_size
        || ltb board.ram_size m.bss_ram_offset
        || ltb (sub32 board.ram_size m.bss_ram_offset) m.bss_size
    then err einval
    else ok

abbrev pub copy : (ℕ → ℕ) → (at : ℕ) → List ℕ → ℕ → ℕ
copy ram at bytes a =
    if leb at a && ltb a (at + length bytes) then get_or bytes (a - at) 0 else ram a

abbrev pub clear : (ℕ → ℕ) → (at size : ℕ) → ℕ → ℕ
clear ram at size a = if leb at a && ltb a (at + size) then 0 else ram a

abbrev pub fail : Service → Errno → Rc × Service
fail s c = (err c, record s { last_error = err c })

-- `entry_addr | 1`
abbrev pub thumb : ℕ → ℕ
thumb entry_addr = if entry_addr % 2 == 0 then entry_addr + 1 else entry_addr

-- The end of `native_load`, when the data was read.
unfoldable pub finish_load : Board → Service → Metadata → List ℕ → Rc × Service
finish_load board s m bytes =
    let loaded = copy s.ram (board.ram_base + m.data_ram_offset) bytes in
    if not (length bytes == m.data_size) then fail (record s { ram = loaded }) eio else (
      ok,
      record s {
        ram = clear loaded (board.ram_base + m.bss_ram_offset) m.bss_size;
        entry = thumb (board.payload_base + m.entry_offset);
        last_error = ok;
      },
    )

-- `native_load` once the metadata is checked.
unfoldable pub load_payload : Board → Image → Service → Metadata → Rc × Service
load_payload board image s m =
    let (rc, bytes) = image.read_payload m.data_load_offset m.data_size in
    elim rc [
      | err c ↦ fail (record s { ram = copy s.ram (board.ram_base + m.data_ram_offset) bytes }) c
      | ok ↦ finish_load board s m bytes
    ]

unfoldable pub native_load : Board → Image → Service → Rc × Service
native_load board image s =
    let (status_rc, status) = image.get_status in
    let (metadata_rc, m) = image.get_native_metadata in
    elim status_rc [
      | err c ↦ fail s c
      | ok ↦ elim metadata_rc [
        | err c ↦ fail s c
        | ok ↦ elim (native_validate_metadata board status m) [
          | err c ↦ fail s c
          | ok ↦ load_payload board image s m
        ]
      ]
    ]

unfoldable pub request_stop_for_upgrade : Service → Service
request_stop_for_upgrade s = record s {
  patch_handoff = true;
  console_suppressed = true;
  wake_process = true;
}

unfoldable pub force_stop_thread : Service → Service
force_stop_thread s = record s {
  has_thread = false;
  entry = 0;
  event_callback = 0;
  posts = [];
  events = [];
  results = 0;
  wake_irq = false;
  wake_process = false;
}

-- `native_service_handoff_ram_for_patch`. Each round of the wait sees `native_api_busy` anew, and
-- the list has these values until the deadline.
unfoldable pub wait_idle : Service → List ℕ → Rc × Service
wait_idle s [] = (err etimedout, s)
wait_idle s (busy ∷ later) =
    if busy == 0 then (ok, force_stop_thread (record s { api_busy = busy })) else wait_idle s later

unfoldable pub handoff_ram_for_patch : Service → List ℕ → Rc × Service
handoff_ram_for_patch s busy =
    let s' = request_stop_for_upgrade s in if not s.has_thread then (ok, s') else wait_idle s' busy

unfoldable pub native_service_start : Board → Image → Service → Rc × Service
native_service_start board image s =
    let (rc, s') = native_load board image s in
    if s.patch_handoff then (err ebusy, s) else if s.has_thread then (ok, s) else elim rc [
      | err c ↦ (err c, record (force_stop_thread s') { last_error = err c })
      | ok ↦ (ok, record s' { has_thread = true })
    ]

unfoldable pub resume_after_upgrade : Board → Image → Service → Service
resume_after_upgrade board image s =
    record (native_service_start board image
      (force_stop_thread (record s { patch_handoff = false; api_busy = 0 }))).1 {
        console_suppressed = false;
      }
