-- ===== src/LinkList/Remove.antt =====
-- `linklist_remove` unlinks a node and frees it.
use rtbus.Base.{
  ℕ, zero, suc, ◌+◌, ◌-◌, ◌<◌, ◌≡◌, refl, ap, true, false, not, ◌||◌, List, [], ◌∷◌, ◌++◌, arith,
  ◌==◌, if◌then◌else◌, length, length-append,
}
use rtbus.LinkList.{Store, set_next, find_node, unlink, linklist_remove, node_fuel}
use rtbus.LinkList.Chain.{mem, Distinct, Chain, Chain-set_next, Chain-pos, mem-append}
use rtbus.Pool.{bfree}

-- The scan finds nothing on a list without the node.
pub find_node-absent :
    (k : ℕ) (next : ℕ → ℕ) (t pre cur : ℕ) (xs : List ℕ)
    → length xs < k
    → Chain next cur xs
    → mem t xs ≡ false
    → (find_node k next t pre cur).cur ≡ 0
unfolding find_node
find_node-absent zero next t pre cur xs fuel c h = absurd (omega arith)
find_node-absent (suc k) next t pre cur [] fuel c h = ground arith
find_node-absent (suc k) next t pre cur (x ∷ xs) fuel c h =
    let go : ((cur == 0) || (cur == t)) ≡ false = ground arith in
    rw (go, c.0) (find_node-absent k next t x (next x) xs (omega arith) c.2 (ground arith))

-- The node at the head is found at once, with no node before it.
pub find_node-head :
    (k : ℕ) (next : ℕ → ℕ) (pre t : ℕ)
    → find_node (suc k) next t pre t ≡ record { pre = pre; cur = t }
unfolding find_node
find_node-head k next pre t = ground arith

-- The node `t` behind `as` and `y`, found from `cur` with `pre` before it.
pub find_node-behind :
    (k : ℕ) (next : ℕ → ℕ) (t pre cur y : ℕ) (ws xs : List ℕ)
    → length ws + 1 < k
    → Chain next cur (ws ++ y ∷ t ∷ xs)
    → mem t (ws ++ y ∷ []) ≡ false
    → find_node k next t pre cur ≡ record { pre = y; cur = t }
unfolding find_node
find_node-behind zero next t pre cur y ws xs fuel c h = absurd (omega arith)
find_node-behind (suc zero) next t pre cur y ws xs fuel c h = absurd (omega arith)
find_node-behind (suc (suc k)) next t pre cur y [] xs fuel c h =
    let go : ((cur == 0) || (cur == t)) ≡ false = ground arith in
    let hit : ((next cur == 0) || (next cur == t)) ≡ true = ground (arith, ap next c.0) in
    rw (go, hit, c.0, c.2.0)
find_node-behind (suc (suc k)) next t pre cur y (w ∷ ws) xs fuel c h =
    let go : ((cur == 0) || (cur == t)) ≡ false = ground arith in
    rw (go, c.0)
      (find_node-behind (suc k) next t w (next w) y ws xs (omega arith) c.2 (ground arith))

-- The pointers once `t` behind `y` is unlinked.
abbrev pub skip : (ℕ → ℕ) → (y t : ℕ) → ℕ → ℕ
skip f y t = set_next (set_next f y (f t)) t 0

skip-Chain :
    (f : ℕ → ℕ) (p y t : ℕ) (ws xs : List ℕ)
    → Distinct (ws ++ y ∷ t ∷ xs)
    → Chain f p (ws ++ y ∷ t ∷ xs)
    → Chain (skip f y t) p (ws ++ y ∷ xs)
skip-Chain f p y t [] xs d c =
    let jump : skip f y t y ≡ f t = ground arith in
    (
      c.0,
      c.1,
      rw jump (
          Chain-set_next (set_next f y (f t)) (f t) t 0 xs d.1.0
            (Chain-set_next f (f t) y (f t) xs (ground arith) c.2.2)),
    )
skip-Chain f p y t (w ∷ ws) xs d c =
    let here : skip f y t w ≡ f w = ground (arith, mem-append w ws (y ∷ t ∷ xs)) in
    (c.0, c.1, rw here (skip-Chain f (f w) y t ws xs d.1 c.2))

module _ (ix : ℕ) (s : Store) (p t : ℕ) where
  -- Removing the first node leaves the rest of the list, writes no pointer and frees the node.
  pub linklist_remove_head :
      (xs : List ℕ)
      → Chain s.next p (t ∷ xs)
      → let (p', s') = linklist_remove ix s p t in
        Chain s.next p' xs × ((q : ℕ) → s'.next q ≡ s.next q) × (s'.pool ≡ bfree ix s.pool t)
  unfolding linklist_remove unlink
  linklist_remove_head xs c =
      let ne : (t == 0) ≡ false = ground arith in
      rw (c.0, find_node-head (s.pool.last - s.pool.heap) s.next 0 t, ne)
        (settled xs c.2, λ q. refl, refl)
    where
      settled :
          (ys : List ℕ)
          → Chain s.next (s.next t) ys
          → Chain s.next (if not (s.next t == 0) then s.next t else 0) ys
      settled [] e = ground arith
      settled (y ∷ ys) e = let some_next : (s.next t == 0) ≡ false = ground arith in rw some_next e

  -- Removing a node behind another from a list of distinct nodes takes it, and nothing else, out
  -- of the list and frees it.
  pub linklist_remove_behind :
      (y : ℕ) (ws xs : List ℕ)
      → length (ws ++ y ∷ t ∷ xs) < node_fuel s.pool
      → Distinct (ws ++ y ∷ t ∷ xs)
      → Chain s.next p (ws ++ y ∷ t ∷ xs)
      → let (p', s') = linklist_remove ix s p t in
        (p' ≡ p) × Chain s'.next p (ws ++ y ∷ xs) × (s'.pool ≡ bfree ix s.pool t)
  unfolding linklist_remove unlink
  linklist_remove_behind y ws xs fuel d c =
      let at =
        find_node-behind (node_fuel s.pool) s.next t 0 p y ws xs
          (omega (arith, length-append ws (y ∷ t ∷ xs))) c (apart ws d) in
      let t_pos : (t == 0) ≡ false =
        ground (arith, Chain-pos s.next p t (ws ++ y ∷ t ∷ xs) c, mem-append t ws (y ∷ t ∷ xs)) in
      let y_pos : (y == 0) ≡ false =
        ground (arith, Chain-pos s.next p y (ws ++ y ∷ t ∷ xs) c, mem-append y ws (y ∷ t ∷ xs)) in
      rw (at, t_pos, y_pos) (refl, skip-Chain s.next p y t ws xs d c, refl)
    where
      apart : (vs : List ℕ) → Distinct (vs ++ y ∷ t ∷ xs) → mem t (vs ++ y ∷ []) ≡ false
      apart [] e = ground arith
      apart (v ∷ vs) e = ground (arith, apart vs e.1, mem-append v vs (y ∷ t ∷ xs))

  -- Removing an address that is not in the list changes nothing.
  pub linklist_remove_absent :
      (xs : List ℕ)
      → length xs < node_fuel s.pool
      → Chain s.next p xs
      → mem t xs ≡ false
      → linklist_remove ix s p t ≡ (p, s)
  unfolding linklist_remove
  linklist_remove_absent xs fuel c out =
      let e : ((find_node (node_fuel s.pool) s.next t 0 p).cur == 0) ≡ true =
        ground (arith, find_node-absent (node_fuel s.pool) s.next t 0 p xs fuel c out) in
      rw e
