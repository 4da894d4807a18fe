-- ===== src/Emos.antt =====
-- zephyr/modules/rtbus/src/emos.c: the event queues and the scheduler.
-- The queues are lists of nodes from the pool, one for each priority, and a node holds a context
-- behind its list header. What a task does when it is called enters as `handler`: the posts that the
-- function at a pointer makes for a context, in order. Other effects of tasks do not reach the bus.
pub mod Queues
pub mod Post
pub mod Posted
pub mod Dispatch
pub mod Dropped
pub mod Grown
pub mod Poll
pub mod Start
mod Tests
use rtbus.Base.{
  ℕ, zero, suc, ◌+◌, ◌*◌, ◌%◌, Bool, true, false, not, ◌&&◌, ◌||◌, List, [], ◌∷◌, Option, none,
  some, ltb, leb, ◌==◌, if◌then◌else◌, take,
}
use rtbus.Base.Rc.{Rc, ok, err, Errno, enoent, enomem, enodev, einval}
use rtbus.Base.Word.{add32, u8}
use rtbus.Pool.{Pool, init_mem_pool}
use rtbus.LinkList.{Store, linklist_new, linklist_remove}
use rtbus.Entries.{Entry, Registry, priority_number}

-- `emos_ctx_t`
pub record Ctx : Type 0 where
  pub task_id : ℕ
  pub id : ℕ
  pub payload_len : ℕ
  pub payload : List ℕ

-- The arguments of `emos_post`; a payload of `none` is NULL.
pub record Request : Type 0 where
  pub task_id : ℕ
  pub ctx_id : ℕ
  pub payload : Option (List ℕ)
  pub payload_len : ℕ

-- `param[POOL_ID]`, the pool and the nodes. `ctx` is the context stored in the node at an address,
-- and `signals` counts the calls of EMOS_POST_AFTER.
pub record Bus : Type 0 where
  pub store : Store
  pub ctx : ℕ → Ctx
  pub task_tbl : ℕ → ℕ
  pub entry_count : ℕ
  pub poll_next_index : ℕ
  pub registry : Registry
  pub signals : ℕ

-- What `emos_process` and its parts return: 0, 1, or the failure of the hook.
pub data Processed : Type 0 where
  idle : Processed
  ran : Processed
  failed : Errno → Processed

abbrev pub pool_id : ℕ
pool_id = 0

-- sizeof(emos_proc_list_t) + sizeof(emos_ctx_t)
abbrev pub node_size : ℕ
node_size = 4 + 12

abbrev pub uint16_max : ℕ
uint16_max = 65535

abbrev pub sys_init : ℕ
sys_init = 1

abbrev pub sys_poll : ℕ
sys_poll = 2

-- CTX_SYS_SHIFT, and SYS_EVT: the system id in the top 4 bits, no application id.
abbrev pub ctx_sys_shift : ℕ → ℕ
ctx_sys_shift x = x % 16 * 268435456

abbrev pub update {ℓ} : {A : Type ℓ} → (ℕ → A) → ℕ → A → ℕ → A
update f i v j = if j == i then v else f j

-- `alloc_len`, in `size_t`.
unfoldable pub alloc_len : ℕ → ℕ
alloc_len payload_len = add32 node_size payload_len

-- The context that a request leaves in its node.
abbrev pub ctx_of : Request → Ctx
ctx_of r = record {
  task_id = r.task_id;
  id = r.ctx_id;
  payload_len = r.payload_len;
  payload = elim r.payload [ none ↦ [] | some bytes ↦ take r.payload_len bytes ];
}

abbrev pub is_null : Option (List ℕ) → Bool
is_null none = true
is_null (some _) = false

-- `emos_post` once the task is found and the request has passed its checks.
unfoldable pub post_checked : Bus → Entry → Request → Rc × Bus
post_checked b e r =
    let m = linklist_new pool_id b.store (b.task_tbl e.priority) (alloc_len r.payload_len) in
    let tbl = update b.task_tbl e.priority m.head in
    if m.node == 0 then (err enomem, record b { store = m.store; task_tbl = tbl }) else (
      ok,
      record b {
        store = m.store;
        task_tbl = tbl;
        ctx = update b.ctx m.node (ctx_of r);
        signals = b.signals + 1;
      },
    )

unfoldable pub emos_post : Bus → Request → Rc × Bus
emos_post b r = if b.entry_count == 0 then (err enodev, b) else elim (b.registry.find r.task_id) [
  | none ↦ (err enoent, b)
  | some e ↦
      if not (r.payload_len == 0) && is_null r.payload
      then (err einval, b)
      else if leb priority_number e.priority
      then (err einval, b)
      else if ltb uint16_max (alloc_len r.payload_len)
      then (err enomem, b)
      else post_checked b e r
]

-- `linklist_remove` on the queue of a priority.
unfoldable pub drop_node : Bus → (priority node : ℕ) → Bus
drop_node b priority node =
    let (head, store) = linklist_remove pool_id b.store (b.task_tbl priority) node in
    record b { store = store; task_tbl = update b.task_tbl priority head }

-- `emos_init_pool`: the tables are cleared, and `registry` is the backend's after its reset.
unfoldable pub emos_init_pool : Bus → Registry → (pool_addr pool_size : ℕ) → Rc × Bus
emos_init_pool b registry pool_addr pool_size =
    let cleared = record b {
      task_tbl = λ _. 0;
      registry = registry;
      entry_count = 0;
      poll_next_index = 0;
    } in
    let pool = init_mem_pool b.store.pool pool_id pool_addr pool_size in
    if (pool_addr == 0) || (pool_size == 0)
    then (err einval, cleared)
    else (ok, record cleared { store = record b.store { pool = pool } })

abbrev pub init_request : Entry → Request
init_request e = record {
  task_id = e.task_id;
  ctx_id = ctx_sys_shift sys_init;
  payload = none;
  payload_len = 0;
}

-- The loop of `emos_init`, from index `i` with `k` rounds left.
unfoldable pub post_inits : ℕ → (i : ℕ) → Bus → Rc × Bus
post_inits zero i b = (ok, b)
post_inits (suc k) i b = elim (b.registry.get_by_index i) [
  | none ↦ (err einval, b)
  | some e ↦
      let posted = emos_post b (init_request e) in
      let rest = post_inits k (i + 1) posted.1 in
      let skipped = post_inits k (i + 1) b in
      if e.init then (elim posted.0 [ ok ↦ rest | err c ↦ (err c, posted.1) ]) else skipped
]

-- `emos_init`. `reset` and `registered` are the backend after `emos_entries_reset` and after
-- `emos_entries_init`, which returns `rc` and the count.
unfoldable pub emos_init :
    Bus
    → (pool_addr pool_size : ℕ) → (reset registered : Registry) → (rc : Rc) → (count : ℕ) → Rc × Bus
emos_init b pool_addr pool_size reset registered rc count =
    let (rc', b') = emos_init_pool b reset pool_addr pool_size in
    let b'' = record b' { registry = registered } in
    elim rc' [
      | err c ↦ (err c, b')
      | ok ↦ elim rc [
        | err c ↦ (err c, b'')
        | ok ↦ post_inits count 0 (record b'' { entry_count = count })
      ]
    ]

-- The posts of a handler, each whatever became of the one before.
unfoldable pub run_posts : Bus → List Request → Bus
run_posts b [] = b
run_posts b (r ∷ rs) = run_posts (emos_post b r).1 rs

-- The context of a poll, and the test for an entry that is polled.
abbrev pub poll_ctx : Entry → Ctx
poll_ctx e = record {
  task_id = e.task_id;
  id = ctx_sys_shift sys_poll;
  payload_len = 0;
  payload = [];
}

abbrev pub polls : Entry → Bool
polls e = not (not e.always || (e.task_entry == 0))

module _ (handler : ℕ → Ctx → List Request) where
  -- The call of a task: the function pointer may be NULL.
  unfoldable pub call_task : Bus → Entry → Ctx → Bus
  call_task b e c = if not (e.task_entry == 0) then run_posts b (handler e.task_entry c) else b

  -- The event at the head of the queue of a priority.
  unfoldable pub dispatch : Bus → (task_priority : ℕ) → Bus
  dispatch b task_priority =
      let emos_proc = b.task_tbl task_priority in
      let p_ctx = b.ctx emos_proc in
      elim (b.registry.find p_ctx.task_id) [
        | none ↦ drop_node b task_priority emos_proc
        | some this_task ↦ drop_node (call_task b this_task p_ctx) task_priority emos_proc
      ]

  -- The loop of `emos_process_queued_event`, from a priority with `k` rounds left.
  unfoldable pub process_from : ℕ → (task_priority : ℕ) → Bus → Processed × Bus
  process_from zero task_priority b = (idle, b)
  process_from (suc k) task_priority b =
      let rest = process_from k (task_priority + 1) b in
      if not (b.task_tbl task_priority == 0) then (ran, dispatch b task_priority) else rest

  unfoldable pub emos_process_queued_event : Bus → Processed × Bus
  emos_process_queued_event b = process_from priority_number 0 b

  -- The loop of `emos_process_poll_event`, at round `i` with `k` rounds left.
  unfoldable pub poll_from : ℕ → (i : ℕ) → Bus → Processed × Bus
  poll_from zero i b = (idle, b)
  poll_from (suc k) i b =
      let index = u8 ((b.poll_next_index + i) % b.entry_count) in
      let rest = poll_from k (i + 1) b in
      elim (b.registry.get_by_index index) [
        | none ↦ (idle, b)
        | some e ↦
            if polls e
            then (
              ran,
              record (run_posts b (handler e.task_entry (poll_ctx e))) {
                poll_next_index = u8 ((index + 1) % b.entry_count);
              },
            )
            else rest
      ]

  unfoldable pub emos_process_poll_event : Bus → Processed × Bus
  emos_process_poll_event b = poll_from b.entry_count 0 b

  -- `emos_process`, with the hook EMOS_PROCESS_ASYNC_POSTS.
  unfoldable pub emos_process : (Bus → Rc × Bus) → Bus → Processed × Bus
  emos_process async_posts b =
      let (rc, b') = async_posts b in
      let (done, b'') = emos_process_queued_event b' in
      if b.entry_count == 0 then (idle, b) else elim rc [
        | err c ↦ (failed c, b')
        | ok ↦ elim done [
          | idle ↦ emos_process_poll_event b''
          | ran ↦ (ran, b'')
          | failed c ↦ (failed c, b'')
        ]
      ]
