-- ===== src/Emos/Posted.antt =====
-- `emos_post` puts a context at the end of the queue of its task's priority, or changes no queue.
use mathlib.Core.Path.{subst}
use rtbus.Base.{
  ◌+◌, ◌^◌, ◌∙◌, ==_iff, ==_self, ap, sym, [], ◌∷◌, ◌++◌, ℕ, ◌≤◌, ◌<◌, ◌≡◌, refl, inl, inr, Bool,
  true, false, not, ◌&&◌, List, arith, ltb, leb, ◌==◌, if◌then◌else◌, Bool-cases, ◌⊎◌, some,
}
use rtbus.Base.Rc.{Rc, ok, err, Errno, enomem, einval}
use rtbus.Pool.{Pool, mark, bmalloc}
use rtbus.Pool.Tiles.{Block, IsTiled, owns-lt}
use rtbus.Pool.Owned.{Adds, Answer, refused, granted, bmalloc_fresh, heap-bmalloc}
use rtbus.LinkList.{Made, node_header, linklist_new}
use rtbus.LinkList.Append.{linklist_new_lem, linklist_new_short}
use rtbus.Entries.{Entry, priority_number}
use rtbus.Emos.{
  update, Bus, Ctx, Request, alloc_len, uint16_max, ctx_of, post_checked, emos_post, pool_id,
  is_null, node_size,
}
use rtbus.Emos.Queues.{IsBus, length-nodes}
use rtbus.LinkList.Chain.{Chain}
use rtbus.Emos.Post.{
  update_self, enqueue, IsBus-refused, IsBus-appended, appended, not-mem_of_fresh,
}

-- The heads of the queues that hold something stay, and so do the tasks.
pub record Keeps (b b' : Bus) : Type 0 where
  pub heads : (i : ℕ) → 0 < b.task_tbl i → b'.task_tbl i ≡ b.task_tbl i
  pub registry : b'.registry ≡ b.registry
  pub entry_count : b'.entry_count ≡ b.entry_count
  pub poll_next_index : b'.poll_next_index ≡ b.poll_next_index

-- The length of the node of a request does not wrap around.
abbrev pub IsWhole : Request → Type 0
IsWhole r = node_size + r.payload_len < 2 ^ 32

-- The context is in a node that was not allocated before, with `n` bytes in a block of the pool, and
-- all that was allocated before stays allocated and keeps its bytes.
pub record Housed (b b' : Bus) (n : ℕ) (c : Ctx) : Type 0 where
  pub node : ℕ
  pub before : List Block
  pub after : List Block
  pub tiled_before : IsTiled b.store.pool before
  pub tiled_after : IsTiled b'.store.pool after
  pub adds : Adds b'.store.pool.heap before after n node
  pub holds : b'.ctx node ≡ c

-- The outcome of a post to the task `e`, with a node of `n` bytes.
pub data Posted (b : Bus) (queue : ℕ → List Ctx) (e : Entry) (r : Request) (n : ℕ)
    : Rc × Bus → Type 0 where
  rejected : {c : Errno} {b' : Bus} → IsBus b' queue → Keeps b b' → Posted b queue e r n (err c, b')
  queued :
      {b' : Bus}
      → IsBus b' (enqueue queue e.priority (ctx_of r))
      → Housed b b' n (ctx_of r)
      → Keeps b b'
      → Posted b queue e r n (ok, b')

-- A list keeps its head when a node is put behind its nodes.
head_kept :
    (f g : ℕ → ℕ) (p p' r : ℕ) (xs : List ℕ)
    → Chain f p xs
    → Chain g p' (xs ++ r ∷ [])
    → 0 < p
    → p' ≡ p
head_kept f g p p' r [] c d pos = absurd (omega (arith, c))
head_kept f g p p' r (x ∷ xs) c d pos = d.0 ∙ sym c.0

alloc_len-whole : (n : ℕ) → node_size + n < 2 ^ 32 → alloc_len n ≡ node_size + n
unfolding alloc_len
alloc_len-whole n whole = ground (arith, whole)

pub Keeps-self : (b : Bus) → Keeps b b
Keeps-self b = record {
  heads = λ i pos. refl;
  registry = refl;
  entry_count = refl;
  poll_next_index = refl;
}

module _ (b : Bus) (queue : ℕ → List Ctx) (v : IsBus b queue) (e : Entry) (r : Request) where
  abbrev size : ℕ
  size = alloc_len r.payload_len

  made_none :
      (pool : Pool)
      → linklist_new pool_id b.store (b.task_tbl e.priority) (alloc_len r.payload_len)
        ≡ record { node = 0; head = b.task_tbl e.priority; store = record b.store { pool = pool } }
      → IsTiled pool v.blocks
      → pool.heap ≡ b.store.pool.heap
      → Posted b queue e r size (post_checked b e r)
  unfolding post_checked
  made_none pool q t h = rw q (
      rejected (IsBus-refused b queue e.priority pool v t h) (record {
        heads = λ i pos. update_self b.task_tbl e.priority i;
        registry = refl;
        entry_count = refl;
        poll_next_index = refl;
      }))

  abbrev taken : ℕ × Pool
  taken = bmalloc pool_id b.store.pool size

  made_node :
      (cs : List Block)
      → node_header ≤ size
      → 0 < taken.0
      → IsTiled taken.1 cs
      → Adds taken.1.heap v.blocks cs size taken.0
      → Posted b queue e r size (post_checked b e r)
  unfolding post_checked appended
  made_node cs big pos t adds =
      let h = heap-bmalloc pool_id b.store.pool size in
      let m = linklist_new pool_id b.store (b.task_tbl e.priority) size in
      let k =
        (linklist_new_lem pool_id b.store (b.task_tbl e.priority) size (v.nodes e.priority)
            (length-nodes b queue v e.priority) (v.distinct e.priority) (v.chain e.priority) big).1
          pos (not-mem_of_fresh b queue v taken.0 (rw h at adds.fresh) e.priority) in
      let ne : (m.node == 0) ≡ false = ground (arith, k.node) in
      rw ne (
        queued (IsBus-appended b queue v e.priority (ctx_of r) m taken.0 taken.1 cs size k t adds h)
          (record {
            node = m.node;
            before = v.blocks;
            after = cs;
            tiled_before = v.tiled;
            tiled_after = rw k.pool t;
            adds = rw (k.pool, k.node) adds;
            holds = rw (==_self m.node) refl;
          })
          (record {
            heads = heads_kept m (
                head_kept b.store.next m.store.next (b.task_tbl e.priority) m.head taken.0
                  (v.nodes e.priority) (v.chain e.priority) k.chain);
            registry = refl;
            entry_count = refl;
            poll_next_index = refl;
          }))
    where
      heads_kept :
          (m : Made)
          → (0 < b.task_tbl e.priority → m.head ≡ b.task_tbl e.priority)
          → (i : ℕ) → 0 < b.task_tbl i
          → update b.task_tbl e.priority m.head i ≡ b.task_tbl i
      heads_kept m same i pos = elim (Bool-cases (i == e.priority)) [
        | inl k ↦
            let at = (==_iff i e.priority).0 k in
            rw k (same (rw (← at) pos) ∙ ap b.task_tbl (sym at))
        | inr k ↦ rw k
      ]

  granted_pos :
      (cs : List Block)
      → IsTiled taken.1 cs
      → Adds taken.1.heap v.blocks cs size taken.0
      → 0 < taken.0
  granted_pos cs t adds = ground (
    arith,
    owns-lt taken.1.hdr taken.1.heap cs (mark taken.1) taken.0 t.tiles,
    adds.owned taken.0,
  )

  answered :
      node_header ≤ size
      → Answer v.blocks size taken.0 taken.1
      → Posted b queue e r size (post_checked b e r)
  answered big (refused z t) =
      made_none taken.1
        ((linklist_new_lem pool_id b.store (b.task_tbl e.priority) size (v.nodes e.priority)
            (length-nodes b queue v e.priority) (v.distinct e.priority) (v.chain e.priority) big).0
          z)
        t (heap-bmalloc pool_id b.store.pool size)
  answered big (granted cs t adds) = made_node cs big (granted_pos cs t adds) t adds

  post_checked-Posted : size ≤ uint16_max → Posted b queue e r size (post_checked b e r)
  post_checked-Posted small = elim (Bool-cases (ltb size node_header)) [
    | inl short ↦
        made_none b.store.pool
          (linklist_new_short pool_id b.store (b.task_tbl e.priority) size (ground arith)) v.tiled
          refl
    | inr long ↦ answered (ground arith) (
        bmalloc_fresh b.store.pool v.blocks pool_id size v.tiled (omega arith) (ground arith)
          (omega arith))
  ]

  -- The same of any length, with a node of the length that wraps around.
  pub emos_post-Posted_any :
      (b.entry_count == 0) ≡ false
      → b.registry.find r.task_id ≡ some e
      → Posted b queue e r size (emos_post b r)
  unfolding emos_post
  emos_post-Posted_any some_entries found =
      rw (some_entries, found)
        (guarded (not (r.payload_len == 0) && is_null r.payload) (leb priority_number e.priority))
    where
      sized :
          (ltb uint16_max (alloc_len r.payload_len) ≡ true)
            ⊎ (ltb uint16_max (alloc_len r.payload_len) ≡ false)
          → Posted b queue e r size (
              if ltb uint16_max (alloc_len r.payload_len)
              then (err enomem, b)
              else post_checked b e r)
      sized (inl large) = rw large (rejected v (Keeps-self b))
      sized (inr fits) = rw fits (post_checked-Posted (ground arith))

      guarded :
          (x y : Bool)
          → Posted b queue e r size (
              if x
              then (err einval, b)
              else if y
              then (err einval, b)
              else if ltb uint16_max (alloc_len r.payload_len)
              then (err enomem, b)
              else post_checked b e r)
      guarded true y = rejected v (Keeps-self b)
      guarded false true = rejected v (Keeps-self b)
      guarded false false = sized (Bool-cases _)

  pub emos_post-Posted :
      (b.entry_count == 0) ≡ false
      → b.registry.find r.task_id ≡ some e
      → node_size + r.payload_len < 2 ^ 32
      → Posted b queue e r (node_size + r.payload_len) (emos_post b r)
  unfolding alloc_len
  emos_post-Posted some_entries found whole =
      subst (λ n. Posted b queue e r n (emos_post b r)) (alloc_len-whole r.payload_len whole)
        (emos_post-Posted_any some_entries found)

  -- A post returns 0 when the task is found with a priority of the table, a payload is given if
  -- its length is not 0, the length of the node is in range and holds a list header, and the
  -- pool has room for the node.
  pub emos_post-accepts :
      (b.entry_count == 0) ≡ false
      → b.registry.find r.task_id ≡ some e
      → (not (r.payload_len == 0) && is_null r.payload) ≡ false
      → e.priority < priority_number
      → size ≤ uint16_max
      → node_header ≤ size
      → 0 < taken.0
      → (emos_post b r).0 ≡ ok
  unfolding emos_post post_checked
  emos_post-accepts some_entries found whole low small big pos =
      let checked : leb priority_number e.priority ≡ false = ground arith in
      let fits : ltb uint16_max (alloc_len r.payload_len) ≡ false = ground arith in
      let k = made (
        bmalloc_fresh b.store.pool v.blocks pool_id size v.tiled (omega arith) (ground arith)
          (omega arith)) in
      let ne : ((linklist_new pool_id b.store (b.task_tbl e.priority)
              (alloc_len r.payload_len)).node
            == 0)
          ≡ false =
        ground (arith, k) in
      rw (some_entries, found, whole, checked, fits, ne)
    where
      made :
          Answer v.blocks size taken.0 taken.1
          → (linklist_new pool_id b.store (b.task_tbl e.priority) size).node ≡ taken.0
      made (refused z t) = absurd (omega (arith, z, pos))
      made (granted cs t adds) =
          ((linklist_new_lem pool_id b.store (b.task_tbl e.priority) size (v.nodes e.priority)
              (length-nodes b queue v e.priority) (v.distinct e.priority) (v.chain e.priority)
              big).1
            pos
            (not-mem_of_fresh b queue v taken.0
              (rw (heap-bmalloc pool_id b.store.pool size) at adds.fresh) e.priority)).node
