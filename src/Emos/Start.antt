-- ===== src/Emos/Start.antt =====
-- `emos_init`: the bus starts with the INIT events of its tasks, in the order of their entries.
use mathlib.Core.Path.{subst}
use rtbus.Base.{
  ℕ, zero, suc, ◌+◌, ◌^◌, ◌<◌, ◌≡◌, refl, sym, inl, inr, false, ◌||◌, List, [], arith, ◌==◌,
  if◌then◌else◌, Bool-cases, none, some, Option-cases,
}
use rtbus.Base.Rc.{Rc, ok, err, Errno}
use rtbus.Pool.{header_size, init_mem_pool}
use rtbus.Pool.Init.{init_mem_pool-IsTiled}
use rtbus.Entries.{Entry, Registry}
use rtbus.Emos.{
  Bus, Ctx, Request, emos_post, emos_init, emos_init_pool, post_inits, init_request, ctx_of,
  pool_id, alloc_len,
}
use rtbus.Emos.Queues.{IsBus}
use rtbus.Emos.Post.{enqueue}
use rtbus.Emos.Posted.{Posted, rejected, queued, emos_post-Posted_any}

-- `queue` with the INIT contexts of the entries from index `i` on behind it, `k` entries in all.
pub with_inits : Registry → ℕ → (i : ℕ) → (ℕ → List Ctx) → ℕ → List Ctx
with_inits reg zero i queue = queue
with_inits reg (suc k) i queue = elim (reg.get_by_index i) [
  | none ↦ queue
  | some e ↦
      if e.init
      then elim (reg.find e.task_id) [
        | none ↦ queue
        | some f ↦ with_inits reg k (i + 1) (enqueue queue f.priority (ctx_of (init_request e)))
      ]
      else with_inits reg k (i + 1) queue
]

-- A start that fails, or a bus with exactly the queues `queue`.
pub data Started (queue : ℕ → List Ctx) : Rc × Bus → Type 0 where
  stopped : {c : Errno} {b : Bus} → Started queue (err c, b)
  started : {b : Bus} → IsBus b queue → Started queue (ok, b)

-- A post of an INIT event: a failure, or a context behind the queue of the entry that is found.
data InitPost (b : Bus) (queue : ℕ → List Ctx) (r : Request) : Rc × Bus → Type 0 where
  init_failed : {c : Errno} {b' : Bus} → InitPost b queue r (err c, b')
  init_queued :
      {b' : Bus} (f : Entry)
      → b.registry.find r.task_id ≡ some f
      → IsBus b' (enqueue queue f.priority (ctx_of r))
      → b'.registry ≡ b.registry
      → InitPost b queue r (ok, b')

InitPost-Posted :
    (b : Bus) (queue : ℕ → List Ctx) (f : Entry) (r : Request) (n : ℕ) (o : Rc × Bus)
    → b.registry.find r.task_id ≡ some f
    → Posted b queue f r n o
    → InitPost b queue r o
InitPost-Posted b queue f r n o e (rejected v k) = init_failed
InitPost-Posted b queue f r n o e (queued v h k) = init_queued f e v k.registry

emos_post-InitPost :
    (b : Bus) (queue : ℕ → List Ctx) (r : Request)
    → IsBus b queue
    → InitPost b queue r (emos_post b r)
unfolding emos_post
emos_post-InitPost b queue r v = elim (Bool-cases (b.entry_count == 0)) [
  | inl z ↦ rw z init_failed
  | inr nz ↦ elim (Option-cases (b.registry.find r.task_id)) [
    | inl n ↦ rw (nz, n) init_failed
    | inr (e, k) ↦
        InitPost-Posted b queue e r (alloc_len r.payload_len) (emos_post b r) k
          (emos_post-Posted_any b queue v e r nz k)
  ]
]

-- The rest of the loop behind a post.
Started-InitPost :
    (k i : ℕ) (b : Bus) (queue : ℕ → List Ctx) (e : Entry) (o : Rc × Bus)
    → ((b' : Bus) (q : ℕ → List Ctx)
        → IsBus b' q
        → Started (with_inits b'.registry k (i + 1) q) (post_inits k (i + 1) b'))
    → InitPost b queue (init_request e) o
    → Started
        (elim (b.registry.find e.task_id) [
          | none ↦ queue
          | some f ↦
              with_inits b.registry k (i + 1) (enqueue queue f.priority (ctx_of (init_request e)))
        ])
        (elim o.0 [ ok ↦ post_inits k (i + 1) o.1 | err c ↦ (err c, o.1) ])
Started-InitPost k i b queue e o rest init_failed = stopped
Started-InitPost k i b queue e o rest (init_queued {b'} f at v same) =
    rw (at, ← same) (rest b' (enqueue queue f.priority (ctx_of (init_request e))) v)

post_inits-Started :
    (k i : ℕ) (b : Bus) (queue : ℕ → List Ctx)
    → IsBus b queue
    → Started (with_inits b.registry k i queue) (post_inits k i b)
unfolding post_inits with_inits
post_inits-Started zero i b queue v = started v
post_inits-Started (suc k) i b queue v = elim (Option-cases (b.registry.get_by_index i)) [
  | inl n ↦ rw (post_inits, with_inits, n) stopped
  | inr (e, at) ↦ elim (Bool-cases e.init) [
    | inl y ↦
        rw (post_inits, with_inits, at, y)
          (Started-InitPost k i b queue e (emos_post b (init_request e))
            (λ b' q w. post_inits-Started k (i + 1) b' q w)
            (emos_post-InitPost b queue (init_request e) v))
    | inr z ↦ rw (post_inits, with_inits, at, z) (post_inits-Started k (i + 1) b queue v)
  ]
]

-- The bus before its first post.
abbrev cleared : Bus → Registry → (count pool_addr pool_size : ℕ) → Bus
cleared b registered count pool_addr pool_size = record b {
  store = record b.store { pool = init_mem_pool b.store.pool pool_id pool_addr pool_size };
  task_tbl = λ _. 0;
  registry = registered;
  entry_count = count;
  poll_next_index = 0;
}

module _ (b : Bus) (pool_addr pool_size : ℕ) (pos : 0 < pool_addr)
    (fit : pool_addr + pool_size < 2 ^ 32) (big : header_size + 3 < pool_size) where
  IsBus-cleared :
      (registered : Registry) (count : ℕ)
      → IsBus (cleared b registered count pool_addr pool_size) (λ i. [])
  IsBus-cleared registered count = record {
    blocks = [];
    nodes = λ i. [];
    tiled =
        (init_mem_pool-IsTiled b.store.pool pool_id pool_addr pool_size (omega arith) pos fit
          big).0;
    chain = λ i. refl;
    distinct = λ i. tt;
    apart = λ i j x ne h. refl;
    owned = λ i x h. absurd (ground arith);
    view = λ i. refl;
  }

  emos_init_pool-cleared :
      (reset : Registry)
      → emos_init_pool b reset pool_addr pool_size ≡ (ok, cleared b reset 0 pool_addr pool_size)
  unfolding emos_init_pool
  emos_init_pool-cleared reset =
      let usable : ((pool_addr == 0) || (pool_size == 0)) ≡ false = ground arith in rw usable

  -- With a usable range of memory for the pool, the start either fails or gives a well-formed
  -- bus, in whose queues stand exactly the INIT events of the tasks that ask for one, in the
  -- order of the entries, each in the queue of its task's priority.
  pub emos_init-Started :
      (reset registered : Registry) (rc : Rc) (count : ℕ)
      → Started
          (with_inits registered count 0 (λ i. []))
          (emos_init b pool_addr pool_size reset registered rc count)
  unfolding emos_init
  emos_init-Started reset registered rc count =
      subst
        (λ z. Started (with_inits registered count 0 (λ i. [])) (elim z.0 [
          | err c ↦ (err c, z.1)
          | ok ↦ elim rc [
            | err c ↦ (err c, record z.1 { registry = registered })
            | ok ↦ post_inits count 0 (record z.1 { registry = registered; entry_count = count })
          ]
        ]))
        (sym (emos_init_pool-cleared reset)) (by_rc rc)
    where
      by_rc :
          (c : Rc)
          → Started (with_inits registered count 0 (λ i. [])) (elim c [
            | err d ↦ (err d, cleared b registered 0 pool_addr pool_size)
            | ok ↦ post_inits count 0 (cleared b registered count pool_addr pool_size)
          ])
      by_rc (err d) = stopped
      by_rc ok =
          post_inits-Started count 0 (cleared b registered count pool_addr pool_size) (λ i. [])
            (IsBus-cleared registered count)
