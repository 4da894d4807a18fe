-- ===== src/Native/Tests.antt =====
-- Loading an image of two data bytes into the memory of a board, and calls of its application.
use Prim.{tt}
use rtbus.Base.{
  ℕ, ◌≤◌, ◌≡◌, ◌≢◌, refl, inl, true, false, List, [], ◌∷◌, ◌++◌, Option, none, some, arith, ltb,
  if◌then◌else◌, length, take, length-take,
}
use rtbus.Base.Rc.{Rc, ok, err, other}
use rtbus.Delay.{Facade}
use rtbus.Emos.{Ctx, ctx_of}
use rtbus.Emos.Queues.{IsBus}
use rtbus.Entries.{Entry, Registry, find_entry}
use rtbus.Native.{Image, Board, Service, Event, native_load}
use rtbus.Native.Api.{Msgq, IsFifo, Round, api_rtbus_post, k_delay, process_async_posts}
use rtbus.Native.Delay.{with_events, k_delay-delivers, k_delay-returns}
use rtbus.Native.Drained.{Drained, process_async_posts-Drained}
use rtbus.Native.Load.{native_load-Outside}
use rtbus.Native.Posts.{ApiPosted, msg_of, api_rtbus_post-ApiPosted}
use rtbus.Native.Result.{Completed, complete_result, complete_result-Completed}
use rtbus.Pool.{Pool, init_mem_pool}
use rtbus.Pool.Init.{init_mem_pool-IsTiled}

abbrev board : Board
board = record { ram_base = 4096; ram_size = 1024; payload_base = 65536; required_abi_version = 1 }

abbrev bytes : List ℕ
bytes = 5 ∷ 6 ∷ []

abbrev image : Image
image = record {
  get_status = (ok, record { is_native = true; abi_version = 1; payload_size = 64 });
  get_native_metadata = (
    ok,
    record {
      entry_offset = 8;
      data_load_offset = 16;
      data_ram_offset = 0;
      data_size = 2;
      bss_ram_offset = 4;
      bss_size = 8;
    },
  );
  read_payload = λ offset size. (ok, take size bytes);
}

abbrev service : Service
service = record {
  has_thread = false;
  entry = 0;
  patch_handoff = false;
  last_error = ok;
  console_suppressed = false;
  api_busy = 0;
  event_callback = 0;
  posts = [];
  events = [];
  results = 0;
  wake_irq = false;
  wake_process = false;
  delivered = [];
  runtime_signals = 0;
  ram = λ q. 9;
}

short : (o n : ℕ) → length (image.read_payload o n).1 ≤ n
short o n = ground (arith, length-take n bytes)

native_load-Outside_example : (native_load board image service).1.ram 4095 ≡ 9
native_load-Outside_example =
    native_load-Outside board image service (omega arith) short 4095 (inl (omega arith))

-- The kernel's queues as lists.
put_list : {A : Type 0} → (depth : ℕ) → List A → A → Rc × List A
put_list depth xs x = if ltb (length xs) depth then (ok, xs ++ x ∷ []) else (err (other 35), xs)

get_list : {A : Type 0} → List A → Option (A × List A)
get_list [] = none
get_list (x ∷ xs) = some (x, xs)

abbrev queues : {A : Type 0} → Msgq A
queues = record { put = put_list; get = get_list }

queues-IsFifo : {A : Type 0} → IsFifo (queues {A = A})
unfolding put_list get_list
queues-IsFifo = record {
  put_room = λ depth xs x l. let room : ltb (length xs) depth ≡ true = ground arith in rw room refl;
  put_full = λ depth xs x l.
      let full : ltb (length xs) depth ≡ false = ground arith in rw full ((λ e. cc), refl);
  get_empty = refl;
  get_first = λ x xs. refl;
}

abbrev bytes3 : Option (List ℕ)
bytes3 = some (1 ∷ 2 ∷ 3 ∷ [])

api_rtbus_post-ApiPosted_example :
    ApiPosted service
      (msg_of 9 5 bytes3 3)
      (ctx_of (record { task_id = 9; ctx_id = 5; payload = bytes3; payload_len = 3 }))
      true
      (api_rtbus_post queues service 9 5 bytes3 3)
api_rtbus_post-ApiPosted_example =
    api_rtbus_post-ApiPosted queues queues-IsFifo service 9 5 bytes3 3

complete_result-Completed_example :
    Completed board service 4100 4294967295 (complete_result board service 4100 4294967295)
complete_result-Completed_example =
    complete_result-Completed board service 4100 4294967295 (omega arith) (omega arith)
      (omega arith) refl

abbrev pressed : Event
pressed = record { group = 1; tag = 2; len = 0; value = [] }

abbrev listening : Service
listening = record service { event_callback = 512; events = pressed ∷ [] }

abbrev waiting : Round
waiting = record { now_ms = 100; handoff = false; arrived = pressed ∷ []; irq = true }

abbrev over : Round
over = record { now_ms = 150; handoff = false; arrived = []; irq = false }

k_delay-delivers_example :
    k_delay queues listening 100 50 (waiting ∷ over ∷ [])
    ≡ (some ok, with_events listening (pressed ∷ pressed ∷ []) [])
k_delay-delivers_example =
    k_delay-delivers queues queues-IsFifo listening 100 50 (waiting ∷ []) over [] refl
      ((refl, refl), tt) refl refl

k_delay-returns_example : (k_delay queues listening 100 50 (waiting ∷ over ∷ [])).0 ≢ none
k_delay-returns_example = k_delay-returns queues listening 100 50 (waiting ∷ []) over [] refl

abbrev radio : Entry
radio = record { task_id = 9; priority = 2; task_entry = 512; init = false; always = true }

abbrev tasks : Registry
tasks = record { find = λ i. find_entry i (radio ∷ []); get_by_index = λ i. none }

abbrev blank_pool : Pool
blank_pool = record {
  last = 0;
  heap = 0;
  top = 0;
  active = false;
  hdr = λ q. record { busy = false; index = 0; next = 0 };
  bytes = λ q. 0;
}

abbrev facade : Facade
facade = record {
  bus = record {
    store = record { pool = init_mem_pool blank_pool 0 4096 1024; next = λ q. 0 };
    ctx = λ q. record { task_id = 0; id = 0; payload_len = 0; payload = [] };
    task_tbl = λ i. 0;
    entry_count = 1;
    poll_next_index = 0;
    registry = tasks;
    signals = 0;
  };
  delayed_events = [];
}

abbrev no_contexts : ℕ → List Ctx
no_contexts i = []

facade-IsBus : IsBus facade.bus no_contexts
facade-IsBus = record {
  blocks = [];
  nodes = λ i. [];
  tiled =
      (init_mem_pool-IsTiled blank_pool 0 4096 1024 (omega arith) (omega arith) (omega arith)
        (omega arith)).0;
  chain = λ i. refl;
  distinct = λ i. tt;
  apart = λ i j x ne h. refl;
  owned = λ i x h. absurd (ground arith);
  view = λ i. refl;
}

abbrev posting : Service
posting = record service { posts = msg_of 9 5 bytes3 3 ∷ msg_of 9 6 none 0 ∷ [] }

process_async_posts-Drained_example :
    Drained facade no_contexts posting.posts (process_async_posts queues posting facade)
process_async_posts-Drained_example =
    process_async_posts-Drained queues queues-IsFifo posting facade no_contexts facade-IsBus
      (ground arith, (ground arith, tt))
