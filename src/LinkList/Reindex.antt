-- ===== src/LinkList/Reindex.antt =====
-- `linklist_reidx`, which is to move a node to the end of its list.
use mathlib.Core.Path.{subst}
use rtbus.Base.{
  ℕ, ◌-◌, ◌<◌, ◌≡◌, refl, sym, ap, inl, inr, true, false, List, [], ◌∷◌, ◌++◌, arith, ◌==◌, ==_iff,
  length, Bool-cases, length-append,
}
use rtbus.LinkList.{Store, set_next, last_node, unlink, relink, linklist_reidx, node_fuel}
use rtbus.LinkList.Chain.{mem, Distinct, Chain, Chain-frame, Chain-pos, mem-append}
use rtbus.LinkList.Remove.{find_node-head, find_node-behind}
use rtbus.LinkList.Append.{last_or, mem-last_or, last_node-last_or, extend}

module _ (s : Store) (p t : ℕ) where
  -- Reindexing a node behind another, in a list of distinct nodes, loses every other node: the
  -- list becomes that node alone.
  pub linklist_reidx_behind :
      (y : ℕ) (ws xs : List ℕ)
      → length (ws ++ y ∷ t ∷ xs) < node_fuel s.pool
      → Distinct (ws ++ y ∷ t ∷ xs)
      → Chain s.next p (ws ++ y ∷ t ∷ xs)
      → let (p', s') = linklist_reidx s p t in Chain s'.next p' (t ∷ [])
  unfolding linklist_reidx unlink relink last_node
  linklist_reidx_behind y ws xs fuel d c =
      let at =
        find_node-behind (node_fuel s.pool) s.next t 0 p y ws xs
          (omega (arith, length-append ws (y ∷ t ∷ xs))) c (apart ws d) in
      let t_pos : (t == 0) ≡ false =
        ground (arith, Chain-pos s.next p t (ws ++ y ∷ t ∷ xs) c, mem-append t ws (y ∷ t ∷ xs)) in
      let y_pos : (y == 0) ≡ false =
        ground (arith, Chain-pos s.next p y (ws ++ y ∷ t ∷ xs) c, mem-append y ws (y ∷ t ∷ xs)) in
      rw (at, t_pos, y_pos) (refl, ground arith, ground arith)
    where
      apart : (vs : List ℕ) → Distinct (vs ++ y ∷ t ∷ xs) → mem t (vs ++ y ∷ []) ≡ false
      apart [] e = ground arith
      apart (v ∷ vs) e = ground (arith, apart vs e.1, mem-append v vs (y ∷ t ∷ xs))

  moved :
      (x : ℕ) (xs : List ℕ)
      → length (t ∷ x ∷ xs) < node_fuel s.pool
      → Chain s.next p (t ∷ x ∷ xs)
      → linklist_reidx s p t
        ≡ (s.next t, record s { next = set_next (set_next s.next (last_or x xs) t) t 0 })
  unfolding linklist_reidx unlink relink
  moved x xs fuel c =
      let ne : (t == 0) ≡ false = ground arith in
      let go : (s.next t == 0) ≡ false = ground arith in
      let last : last_node (node_fuel s.pool) s.next (s.next t) ≡ last_or x xs =
        last_node-last_or (node_fuel s.pool) s.next (s.next t) (x ∷ xs) (omega arith) c.2 in
      let far : (last_or x xs == 0) ≡ false =
        ground (arith, Chain-pos s.next (s.next t) (last_or x xs) (x ∷ xs) c.2, mem-last_or x xs) in
      rw (c.0, find_node-head (s.pool.last - s.pool.heap) s.next 0 t, ne, go, last, far)

  -- Reindexing the first node of a list of distinct nodes moves it to the end of the list.
  pub linklist_reidx_head :
      (xs : List ℕ)
      → length (t ∷ xs) < node_fuel s.pool
      → Distinct (t ∷ xs)
      → Chain s.next p (t ∷ xs)
      → let (p', s') = linklist_reidx s p t in Chain s'.next p' (xs ++ t ∷ [])
  unfolding linklist_reidx unlink relink
  linklist_reidx_head [] fuel d c =
      let ne : (t == 0) ≡ false = ground arith in
      let stop : (s.next t == 0) ≡ true = ground arith in
      let last : last_node (node_fuel s.pool) s.next (s.next t) ≡ 0 =
        last_node-last_or (node_fuel s.pool) s.next (s.next t) [] (omega arith) c.2 in
      rw (c.0, find_node-head (s.pool.last - s.pool.heap) s.next 0 t, ne, stop, last)
        (refl, c.1, ground arith)
  linklist_reidx_head (x ∷ xs) fuel d c =
      subst (λ (m : ℕ × Store). Chain m.1.next m.0 (x ∷ xs ++ t ∷ [])) (sym (moved x xs fuel c))
        (Chain-frame (set_next (set_next s.next t 0) (last_or x xs) t)
          (set_next (set_next s.next (last_or x xs) t) t 0) (s.next t) (x ∷ xs ++ t ∷ [])
          (λ q h. swapped q) (extend s.next (s.next t) x t xs c.1 d.1 d.0 c.2))
    where
      swapped :
          (q : ℕ)
          → set_next (set_next s.next (last_or x xs) t) t 0 q
            ≡ set_next (set_next s.next t 0) (last_or x xs) t q
      swapped q = elim (Bool-cases (t == last_or x xs)) [
        | inl e ↦ absurd (
            ground (
              arith,
              d.0,
              mem-last_or x xs,
              ap (λ (z : ℕ). mem z (x ∷ xs)) ((==_iff t (last_or x xs)).0 e),
            ))
        | inr e ↦ ground arith
      ]
