-- ===== src/Emos/Dropped.antt =====
-- `drop_node` at the head of a queue: the oldest context of a priority leaves.
use mathlib.Core.Path.{subst}
use rtbus.Base.{
  ℕ, ◌≡◌, ap, inl, inr, true, false, List, ◌∷◌, arith, ◌==◌, ==_iff, Bool-cases, map, ◌⊎◌,
}
use rtbus.Pool.{Pool, mark, bfree}
use rtbus.Pool.Tiles.{owns}
use rtbus.Pool.Free.{free_blocks, bfree-refines, heap-bfree, owns-free_blocks}
use rtbus.LinkList.{linklist_remove}
use rtbus.LinkList.Chain.{mem, Distinct, Chain, Chain-frame, Chain-pos}
use rtbus.LinkList.Remove.{linklist_remove_head}
use rtbus.Emos.{Bus, Ctx, update, drop_node, pool_id}
use rtbus.Emos.Queues.{IsBus}

module _ (b : Bus) (queue : ℕ → List Ctx) (v : IsBus b queue) (p t : ℕ) (xs : List ℕ)
    (e : v.nodes p ≡ t ∷ xs) where
  nodes' : ℕ → List ℕ
  nodes' = update v.nodes p xs

  distinct : Distinct (t ∷ xs)
  distinct = subst Distinct e (v.distinct p)

  first : Chain b.store.next (b.task_tbl p) (t ∷ xs)
  first = subst (Chain b.store.next (b.task_tbl p)) e (v.chain p)

  mem-nodes : (x : ℕ) → mem x (v.nodes p) ≡ mem x (t ∷ xs)
  mem-nodes x = ap (mem x) e

  mem-first : (i : ℕ) → (i == p) ≡ true → mem t (v.nodes i) ≡ true
  mem-first i k = rw ((==_iff i p).0 k, e) (ground arith)

  dropped-mem :
      (i x : ℕ) → mem x (nodes' i) ≡ true → (mem x (v.nodes i) ≡ true) × ((x == t) ≡ false)
  unfolding nodes'
  dropped-mem i x o = elim (Bool-cases (i == p)) [
    | inl k ↦ (
      ground (arith, mem-nodes x, ap (λ (z : ℕ). mem x (v.nodes z)) ((==_iff i p).0 k), rw k at o),
      differ (rw k at o) (Bool-cases (x == t)),
    )
    | inr k ↦ (rw k at o, other k (rw k at o) (Bool-cases (x == t)))
  ]
    where
      differ : mem x xs ≡ true → ((x == t) ≡ true) ⊎ ((x == t) ≡ false) → (x == t) ≡ false
      differ y (inl z) =
          absurd (ground (arith, distinct.0, ap (λ (a : ℕ). mem a xs) ((==_iff x t).0 z)))
      differ y (inr z) = z

      other :
          (i == p) ≡ false
          → mem x (v.nodes i) ≡ true
          → ((x == t) ≡ true) ⊎ ((x == t) ≡ false)
          → (x == t) ≡ false
      other k y (inl z) = absurd (ground (arith, v.apart i p x k y, mem-nodes x))
      other k y (inr z) = z

  dropped-Chain :
      (head : ℕ) (next : ℕ → ℕ)
      → Chain b.store.next head xs
      → ((q : ℕ) → next q ≡ b.store.next q)
      → (i : ℕ) → Chain next (update b.task_tbl p head i) (nodes' i)
  unfolding nodes'
  dropped-Chain head next c same i = elim (Bool-cases (i == p)) [
    | inl k ↦ rw k (Chain-frame b.store.next next head xs (λ q o. same q) c)
    | inr k ↦
        rw k (Chain-frame b.store.next next (b.task_tbl i) (v.nodes i) (λ q o. same q) (v.chain i))
  ]

  dropped-Distinct : (i : ℕ) → Distinct (nodes' i)
  unfolding nodes'
  dropped-Distinct i = elim (Bool-cases (i == p)) [
    | inl k ↦ rw k distinct.1
    | inr k ↦ rw k (v.distinct i)
  ]

  dropped-apart :
      (i j x : ℕ) → (i == j) ≡ false → mem x (nodes' i) ≡ true → mem x (nodes' j) ≡ false
  dropped-apart i j x ne o = elim (Bool-cases (mem x (nodes' j))) [
    | inr z ↦ z
    | inl y ↦ absurd (ground (arith, v.apart i j x ne (dropped-mem i x o).0, (dropped-mem j x y).0))
  ]

  dropped-owned :
      (pool : Pool)
      → pool ≡ bfree pool_id b.store.pool t
      → (i x : ℕ) → (mem x (v.nodes i) ≡ true) × ((x == t) ≡ false)
      → owns pool.heap (free_blocks t b.store.pool.heap v.blocks) x ≡ true
  dropped-owned pool same i x o =
      rw (same, heap-bfree pool_id b.store.pool t)
        (ground (
          arith,
          owns-free_blocks b.store.pool.hdr (mark b.store.pool) t x b.store.pool.heap v.blocks
              v.tiled.tiles,
          v.owned i x o.0,
          o.1,
        ))

  dropped-view : (i : ℕ) → map b.ctx (nodes' i) ≡ update queue p (map b.ctx xs) i
  unfolding nodes'
  dropped-view i = elim (Bool-cases (i == p)) [ inl k ↦ rw k | inr k ↦ rw k (v.view i) ]

  pub IsBus-dropped : IsBus (drop_node b p t) (update queue p (map b.ctx xs))
  unfolding drop_node
  IsBus-dropped =
      let k = linklist_remove_head pool_id b.store (b.task_tbl p) t xs first in
      let removed = linklist_remove pool_id b.store (b.task_tbl p) t in
      record {
        blocks = free_blocks t b.store.pool.heap v.blocks;
        nodes = nodes';
        tiled = rw k.2 (
            bfree-refines b.store.pool v.blocks pool_id t v.tiled (ground arith)
              (Chain-pos b.store.next (b.task_tbl p) t (t ∷ xs) first (ground arith)));
        chain = dropped-Chain removed.0 removed.1.next k.0 k.1;
        distinct = dropped-Distinct;
        apart = dropped-apart;
        owned = λ i x o. dropped-owned removed.1.pool k.2 i x (dropped-mem i x o);
        view = dropped-view;
      }
