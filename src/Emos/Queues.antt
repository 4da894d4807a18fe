-- ===== src/Emos/Queues.antt =====
-- The abstract view of the bus: one queue of contexts for each priority.
use rtbus.Base.{
  ℕ, suc, ◌+◌, ◌≤◌, ◌<◌, ◌≡◌, refl, ap, inl, inr, true, false, List, [], ◌∷◌, arith, ◌==◌, ==_iff,
  if◌then◌else◌, length, Bool-cases, map, ◌⊎◌,
}
use rtbus.Pool.{Pool, header_size, mark}
use rtbus.Pool.Tiles.{Block, IsTiled, owns, Tiles-le}
use rtbus.LinkList.{node_fuel}
use rtbus.LinkList.Chain.{mem, Distinct, Chain}
use rtbus.Emos.{Bus, Ctx}

-- The pool is tiled, the queue at each priority is a list of distinct nodes that are allocated and
-- in no other queue, and `queue i` are the contexts in them, oldest first.
pub record IsBus (b : Bus) (queue : ℕ → List Ctx) : Type 0 where
  pub blocks : List Block
  pub nodes : ℕ → List ℕ
  pub tiled : IsTiled b.store.pool blocks
  pub chain : (i : ℕ) → Chain b.store.next (b.task_tbl i) (nodes i)
  pub distinct : (i : ℕ) → Distinct (nodes i)
  pub apart : (i j x : ℕ) → (i == j) ≡ false → mem x (nodes i) ≡ true → mem x (nodes j) ≡ false
  pub owned : (i x : ℕ) → mem x (nodes i) ≡ true → owns b.store.pool.heap blocks x ≡ true
  pub view : (i : ℕ) → map b.ctx (nodes i) ≡ queue i

-- Distinct allocated nodes are no more than the blocks.
without : ℕ → List ℕ → List ℕ
without t [] = []
without t (x ∷ xs) = if x == t then xs else x ∷ without t xs

mem-without : (q t : ℕ) (xs : List ℕ) → mem q (without t xs) ≡ true → mem q xs ≡ true
unfolding without
mem-without q t [] h = h
mem-without q t (x ∷ xs) h = ground (arith, mem-without q t xs)

not-mem-without : (t : ℕ) (xs : List ℕ) → Distinct xs → mem t (without t xs) ≡ false
unfolding without
not-mem-without t [] d = refl
not-mem-without t (x ∷ xs) d = elim (Bool-cases (x == t)) [
  | inl e ↦ rw (e, ← (==_iff x t).0 e) d.0
  | inr e ↦ rw e (ground (arith, not-mem-without t xs d.1))
]

Distinct-without : (t : ℕ) (xs : List ℕ) → Distinct xs → Distinct (without t xs)
unfolding without
Distinct-without t [] d = tt
Distinct-without t (x ∷ xs) d = elim (Bool-cases (x == t)) [
  | inl e ↦ rw e d.1
  | inr e ↦ rw e (absent (Bool-cases (mem x (without t xs))), Distinct-without t xs d.1)
]
  where
    absent :
        (mem x (without t xs) ≡ true) ⊎ (mem x (without t xs) ≡ false)
        → mem x (without t xs) ≡ false
    absent (inl h) = absurd (ground (arith, mem-without x t xs h, d.0))
    absent (inr h) = h

length-without : (t : ℕ) (xs : List ℕ) → length xs ≤ suc (length (without t xs))
unfolding without
length-without t [] = omega arith
length-without t (x ∷ xs) = ground (arith, length-without t xs)

length-le-blocks :
    (a : ℕ) (bs : List Block) (xs : List ℕ)
    → Distinct xs
    → ((x : ℕ) → mem x xs ≡ true → owns a bs x ≡ true)
    → length xs ≤ length bs
length-le-blocks a [] [] d h = omega arith
length-le-blocks a [] (x ∷ xs) d h = absurd (ground (arith, h x (ground arith)))
length-le-blocks a (b ∷ bs) xs d h =
    let t = a + header_size in
    omega (
      arith,
      length-without t xs,
      length-le-blocks (a + b.size) bs (without t xs) (Distinct-without t xs d)
          λ x k. ground (arith, h x (mem-without x t xs k), not-mem-without t xs d, later x k),
    )
  where
    later : (x : ℕ) → mem x (without (a + header_size) xs) ≡ true → (x == a + header_size) ≡ false
    later x k = elim (Bool-cases (x == a + header_size)) [
      | inl e ↦ absurd (
          ground (
            arith,
            not-mem-without (a + header_size) xs d,
            ap (λ (z : ℕ). mem z (without (a + header_size) xs)) ((==_iff x (a + header_size)).0 e),
          ))
      | inr e ↦ e
    ]

blocks-le-fuel : (p : Pool) (bs : List Block) → IsTiled p bs → length bs < node_fuel p
unfolding mark
blocks-le-fuel p bs v = ground (arith, Tiles-le p.hdr p.heap bs (mark p) v.tiles, v.based)

-- The fuel of the list functions is enough for every queue.
pub length-nodes :
    (b : Bus) (queue : ℕ → List Ctx) (v : IsBus b queue) (i : ℕ)
    → length (v.nodes i) < node_fuel b.store.pool
length-nodes b queue v i = omega (
  arith,
  blocks-le-fuel b.store.pool v.blocks v.tiled,
  length-le-blocks b.store.pool.heap v.blocks (v.nodes i) (v.distinct i) (v.owned i),
)
