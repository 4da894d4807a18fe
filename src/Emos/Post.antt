-- ===== src/Emos/Post.antt =====
-- The bus after a node is appended to one of its queues, or after the pool refused one.
use mathlib.Core.List.{map-append}
use rtbus.Base.{
  ℕ, ◌+◌, ◌≡◌, refl, ap, inl, inr, true, false, List, [], ◌∷◌, ◌++◌, arith, ◌==◌, ==_iff, ==_self,
  Bool-cases, map, ◌⊎◌,
}
use rtbus.Pool.{Pool}
use rtbus.Pool.Tiles.{Block, IsTiled, owns}
use rtbus.Pool.Owned.{Adds}
use rtbus.LinkList.{Made}
use rtbus.LinkList.Chain.{mem, Distinct, Chain, Chain-frame, mem-append, Distinct-append}
use rtbus.LinkList.Append.{Linked}
use rtbus.Emos.{Bus, Ctx, update}
use rtbus.Emos.Queues.{IsBus}

-- A context behind the others of its priority.
abbrev pub enqueue : (ℕ → List Ctx) → ℕ → Ctx → ℕ → List Ctx
enqueue queue i c = update queue i (queue i ++ c ∷ [])

map-update {ℓ} :
    {A : Type ℓ} (f : ℕ → A) (r : ℕ) (c : A) (xs : List ℕ)
    → mem r xs ≡ false
    → map (update f r c) xs ≡ map f xs
map-update f r c [] h = refl
map-update f r c (x ∷ xs) h =
    let e : (x == r) ≡ false = ground arith in rw (e, map-update f r c xs (ground arith))

pub update_self {ℓ} : {A : Type ℓ} (f : ℕ → A) (i j : ℕ) → update f i (f i) j ≡ f j
update_self f i j = elim (Bool-cases (j == i)) [ inl e ↦ rw (e, (==_iff j i).0 e) | inr e ↦ rw e ]

-- A bus whose queues are at the same nodes, over a pool with the same blocks.
pub IsBus-refused :
    (b : Bus) (queue : ℕ → List Ctx) (p : ℕ) (pool : Pool)
    → (v : IsBus b queue) → IsTiled pool v.blocks
    → pool.heap ≡ b.store.pool.heap
    → IsBus
        (record b {
          store = record b.store { pool = pool };
          task_tbl = update b.task_tbl p (b.task_tbl p);
        })
        queue
IsBus-refused b queue p pool v t h = record {
  blocks = v.blocks;
  nodes = v.nodes;
  tiled = t;
  chain = λ i. rw (update_self b.task_tbl p i) (v.chain i);
  distinct = v.distinct;
  apart = v.apart;
  owned = λ i x m. rw h (v.owned i x m);
  view = v.view;
}

-- A payload that is not allocated is in no queue.
pub not-mem_of_fresh :
    (b : Bus) (queue : ℕ → List Ctx) (v : IsBus b queue) (r : ℕ)
    → owns b.store.pool.heap v.blocks r ≡ false
    → (i : ℕ) → mem r (v.nodes i) ≡ false
not-mem_of_fresh b queue v r h i = elim (Bool-cases (mem r (v.nodes i))) [
  | inl e ↦ absurd (ground (arith, v.owned i r e))
  | inr e ↦ e
]

module _ (b : Bus) (queue : ℕ → List Ctx) (v : IsBus b queue) (p : ℕ) (c : Ctx) (m : Made) (r : ℕ)
    (pool : Pool) (cs : List Block) (n : ℕ) (k : Linked b.store pool r (v.nodes p) m)
    (t : IsTiled pool cs) (adds : Adds pool.heap v.blocks cs n r)
    (h : pool.heap ≡ b.store.pool.heap) where
  fresh : (i : ℕ) → mem r (v.nodes i) ≡ false
  fresh i = not-mem_of_fresh b queue v r (rw h at adds.fresh) i

  nodes' : ℕ → List ℕ
  nodes' = update v.nodes p (v.nodes p ++ r ∷ [])

  unfoldable pub appended : Bus
  appended = record b {
    store = m.store;
    task_tbl = update b.task_tbl p m.head;
    ctx = update b.ctx m.node c;
    signals = b.signals + 1;
  }

  appended-Chain : (i : ℕ) → Chain m.store.next (update b.task_tbl p m.head i) (nodes' i)
  unfolding nodes'
  appended-Chain i = elim (Bool-cases (i == p)) [
    | inl e ↦ rw e k.chain
    | inr e ↦ rw e (
        Chain-frame b.store.next m.store.next (b.task_tbl i) (v.nodes i)
          (λ q o. k.same q (ground (arith, fresh i, v.apart i p q e o, elsewhere i q o)))
          (v.chain i))
  ]
    where
      elsewhere : (i q : ℕ) → mem q (v.nodes i) ≡ true → (q == r) ≡ false
      elsewhere i q o = elim (Bool-cases (q == r)) [
        | inl e ↦
            absurd (ground (arith, fresh i, ap (λ (z : ℕ). mem z (v.nodes i)) ((==_iff q r).0 e)))
        | inr e ↦ e
      ]

  appended-Distinct : (i : ℕ) → Distinct (nodes' i)
  unfolding nodes'
  appended-Distinct i = elim (Bool-cases (i == p)) [
    | inl e ↦ rw e (Distinct-append (v.nodes p) r (v.distinct p) (fresh p))
    | inr e ↦ rw e (v.distinct i)
  ]

  -- A node of a new queue is the new node, or stood in that queue.
  appended-mem :
      (i x : ℕ)
      → mem x (nodes' i) ≡ true
      → (mem x (v.nodes i) ≡ true) ⊎ (((i == p) ≡ true) × (x ≡ r))
  unfolding nodes'
  appended-mem i x o = elim (Bool-cases (i == p)) [
    | inl e ↦
        let same : i ≡ p = (==_iff i p).0 e in
        elim (Bool-cases (mem x (v.nodes i))) [
          | inl y ↦ inl y
          | inr z ↦ inr (
            e,
            ground (
              arith,
              mem-append x (v.nodes p) (r ∷ []),
              ap (λ (a : ℕ). mem x (v.nodes a)) same,
              rw e at o,
            ),
          )
        ]
    | inr e ↦ inl (rw e at o)
  ]

  appended-apart :
      (i j x : ℕ) → (i == j) ≡ false → mem x (nodes' i) ≡ true → mem x (nodes' j) ≡ false
  appended-apart i j x ne o = elim (Bool-cases (mem x (nodes' j))) [
    | inr z ↦ z
    | inl y ↦ absurd (clash (appended-mem i x o) (appended-mem j x y))
  ]
    where
      clash :
          (mem x (v.nodes i) ≡ true) ⊎ (((i == p) ≡ true) × (x ≡ r))
          → (mem x (v.nodes j) ≡ true) ⊎ (((j == p) ≡ true) × (x ≡ r))
          → ⊥
      clash (inl y) (inl z) = ground (arith, v.apart i j x ne y)
      clash (inl y) (inr z) = ground (arith, fresh i, ap (λ (a : ℕ). mem a (v.nodes i)) z.1)
      clash (inr y) (inl z) = ground (arith, fresh j, ap (λ (a : ℕ). mem a (v.nodes j)) y.1)
      clash (inr y) (inr z) = ground arith

  appended-owned : (i x : ℕ) → mem x (nodes' i) ≡ true → owns pool.heap cs x ≡ true
  appended-owned i x o = elim (appended-mem i x o) [
    | inl y ↦ ground (arith, adds.owned x, rw (← h) at (v.owned i x y))
    | inr z ↦ ground (arith, adds.owned x)
  ]

  appended-view : (i : ℕ) → map (update b.ctx r c) (nodes' i) ≡ enqueue queue p c i
  unfolding nodes'
  appended-view i = elim (Bool-cases (i == p)) [
    | inl e ↦ rw (e, map-append, map-update b.ctx r c (v.nodes p) (fresh p), v.view p, ==_self r)
    | inr e ↦ rw (e, map-update b.ctx r c (v.nodes i) (fresh i)) (v.view i)
  ]

  pub IsBus-appended : IsBus appended (enqueue queue p c)
  unfolding appended
  IsBus-appended = record {
    blocks = cs;
    nodes = nodes';
    tiled = rw k.pool t;
    chain = appended-Chain;
    distinct = appended-Distinct;
    apart = appended-apart;
    owned = λ i x o. rw k.pool (appended-owned i x o);
    view = λ i. rw k.node (appended-view i);
  }
