-- ===== src/Emos/Tests.antt =====
-- Instances of the theorems about the bus, on a pool of 1024 bytes and two tasks.
use Prim.{tt}
use rtbus.Base.{
  All, Bool, not, Option, none, Bool-cases, inl, inr, ◌+◌, ℕ, zero, suc, ◌≤◌, ◌<◌, ◌≡◌, refl, true,
  false, List, [], ◌∷◌, arith, some, ◌==◌, if◌then◌else◌, get_elem?,
}
use rtbus.Base.Rc.{is_ok, Rc, ok}
use rtbus.Pool.{Pool, init_mem_pool, bmalloc, bmalloc_rounded, search, mark}
use rtbus.Pool.Init.{init_mem_pool-IsTiled}
use rtbus.Entries.{Entry, Registry, find_entry}
use rtbus.Emos.{
  node_size, Bus, Ctx, Request, ran, alloc_len, ctx_of, emos_post, emos_init, dispatch,
  emos_process_queued_event, emos_process_poll_event, polls,
}
use rtbus.Emos.Queues.{IsBus}
use rtbus.Emos.Post.{enqueue}
use rtbus.Emos.Posted.{IsWhole, Posted, rejected, queued, emos_post-Posted, emos_post-accepts}
use rtbus.Emos.Dispatch.{
  calls, task_posts, is_waiting, Dispatched, dispatch-Dispatched, process_queued-first,
}
use rtbus.Emos.Start.{Started, with_inits, emos_init-Started}
use rtbus.Emos.Poll.{polled, turn, poll_event-turn}

abbrev blank_pool : Pool
blank_pool = record {
  last = 0;
  heap = 0;
  top = 0;
  active = false;
  hdr = λ q. record { busy = false; index = 0; next = 0 };
  bytes = λ q. 0;
}

abbrev serial : Entry
serial = record { task_id = 7; priority = 0; task_entry = 256; init = true; always = false }

abbrev radio : Entry
radio = record { task_id = 9; priority = 2; task_entry = 512; init = false; always = true }

abbrev entries : List Entry
entries = serial ∷ radio ∷ []

abbrev tasks : Registry
tasks = record { find = λ i. find_entry i entries; get_by_index = λ i. get_elem? entries i }

abbrev empty : Bus
empty = record {
  store = record { pool = init_mem_pool blank_pool 0 4096 1024; next = λ q. 0 };
  ctx = λ q. record { task_id = 0; id = 0; payload_len = 0; payload = [] };
  task_tbl = λ i. 0;
  entry_count = 2;
  poll_next_index = 0;
  registry = tasks;
  signals = 0;
}

abbrev no_contexts : ℕ → List Ctx
no_contexts i = []

empty-IsBus : IsBus empty no_contexts
empty-IsBus = record {
  blocks = [];
  nodes = λ i. [];
  tiled =
      (init_mem_pool-IsTiled blank_pool 0 4096 1024 (omega arith) (omega arith) (omega arith)
        (omega arith)).0;
  chain = λ i. refl;
  distinct = λ i. tt;
  apart = λ i j x ne h. refl;
  owned = λ i x h. absurd (ground arith);
  view = λ i. refl;
}

abbrev message : Request
message = record { task_id = 9; ctx_id = 5; payload = some (1 ∷ 2 ∷ 3 ∷ []); payload_len = 3 }

-- A serial task answers each event with one for the radio.
abbrev answer : ℕ → Ctx → List Request
answer task_entry c = if task_entry == 256 then message ∷ [] else []

found : tasks.find 9 ≡ some radio
unfolding find_entry
found = refl

accepted : (emos_post empty message).0 ≡ ok
unfolding bmalloc bmalloc_rounded init_mem_pool mark search alloc_len
accepted =
    emos_post-accepts empty no_contexts empty-IsBus radio message refl found refl (omega arith)
      (omega arith) (omega arith) (omega arith)

IsBus-Posted :
    (b : Bus) (queue : ℕ → List Ctx) (e : Entry) (r : Request) (n : ℕ) (o : Rc × Bus)
    → Posted b queue e r n o
    → is_ok o.0 ≡ true
    → IsBus o.1 (enqueue queue e.priority (ctx_of r))
IsBus-Posted b queue e r n o (rejected v k) h = absurd (ground arith)
IsBus-Posted b queue e r n o (queued v m k) h = v

abbrev waiting : Bus
waiting = (emos_post empty message).1

abbrev one_context : ℕ → List Ctx
one_context = enqueue no_contexts 2 (ctx_of message)

waiting-IsBus : IsBus waiting one_context
waiting-IsBus =
    IsBus-Posted empty no_contexts radio message (node_size + message.payload_len)
      (emos_post empty message)
      (emos_post-Posted empty no_contexts empty-IsBus radio message refl found (ground arith))
      (rw accepted refl)

answer-IsWhole : (task_entry : ℕ) (c : Ctx) → All IsWhole (answer task_entry c)
answer-IsWhole task_entry c = elim (Bool-cases (task_entry == 256)) [
  | inl y ↦ rw y (ground arith, tt)
  | inr n ↦ rw n tt
]

calls-IsWhole : (b : Bus) (c : Ctx) → All IsWhole (calls answer b c)
calls-IsWhole b c = found_or (b.registry.find c.task_id)
  where
    posted : (z : Bool) (task_entry : ℕ) → All IsWhole (if not z then answer task_entry c else [])
    posted true task_entry = tt
    posted false task_entry = answer-IsWhole task_entry c

    found_or :
        (o : Option Entry) → All IsWhole (elim o [ none ↦ [] | some e ↦ task_posts answer e c ])
    found_or none = tt
    found_or (some e) = posted (e.task_entry == 0) e.task_entry

dispatch-Dispatched_example :
    Dispatched answer waiting one_context 2 (ctx_of message) (dispatch answer waiting 2)
dispatch-Dispatched_example =
    dispatch-Dispatched answer waiting one_context 2 (ctx_of message) [] waiting-IsBus refl
      (calls-IsWhole waiting (ctx_of message))

none_before : (j : ℕ) → j < 2 → is_waiting (one_context j) ≡ false
none_before zero h = refl
none_before (suc zero) h = refl
none_before (suc (suc j)) h = absurd (omega (arith, h))

process_queued-first_example :
    emos_process_queued_event answer waiting ≡ (ran, dispatch answer waiting 2)
process_queued-first_example =
    process_queued-first answer waiting one_context 2 waiting-IsBus (omega arith) none_before refl

emos_init-Started_example :
    Started (with_inits tasks 2 0 no_contexts) (emos_init empty 4096 1024 tasks tasks ok 2)
emos_init-Started_example =
    emos_init-Started empty 4096 1024 (omega arith) (omega arith) (omega arith) tasks tasks ok 2

abbrev turns : ℕ → Entry
turns i = if i == 0 then serial else radio

turns-get_by_index : (i : ℕ) → i ≤ 1 → tasks.get_by_index (turn empty i) ≡ some (turns i)
turns-get_by_index zero h = refl
turns-get_by_index (suc zero) h = refl
turns-get_by_index (suc (suc i)) h = absurd (omega (arith, h))

turns-idle : (i : ℕ) → i < 1 → polls (turns i) ≡ false
turns-idle zero h = refl
turns-idle (suc i) h = absurd (omega (arith, h))

poll_event-turn_example :
    emos_process_poll_event answer empty ≡ (ran, polled answer empty (omega arith) radio 1)
poll_event-turn_example =
    poll_event-turn answer empty (omega arith) 1 turns turns-get_by_index turns-idle refl
      (omega arith)
