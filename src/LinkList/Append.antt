-- ===== src/LinkList/Append.antt =====
-- `linklist_new` puts the new node at the end of the list.
use rtbus.Base.{
  ℕ, zero, suc, ◌≤◌, ◌<◌, ◌≡◌, refl, sym, ap, inl, inr, true, false, ◌||◌, List, [], ◌∷◌, ◌++◌,
  arith, ltb, ◌==◌, length, Bool-cases, ==_iff,
}
use rtbus.LinkList.{
  Store, Made, set_next, last_node, link_last, linklist_new, node_fuel, node_header,
}
use rtbus.LinkList.Chain.{mem, Distinct, Chain, Chain-pos}
use rtbus.Pool.{Pool, bmalloc}
use mathlib.Core.Path.{subst}

-- The last node, or `d`.
abbrev pub last_or : ℕ → List ℕ → ℕ
last_or d [] = d
last_or d (x ∷ xs) = last_or x xs

pub mem-last_or : (x : ℕ) (xs : List ℕ) → mem (last_or x xs) (x ∷ xs) ≡ true
mem-last_or x [] = ground arith
mem-last_or x (y ∷ ys) = ground (arith, mem-last_or y ys)

pub last_node-last_or :
    (k : ℕ) (next : ℕ → ℕ) (p : ℕ) (xs : List ℕ)
    → length xs < k
    → Chain next p xs
    → last_node k next p ≡ last_or 0 xs
unfolding last_node
last_node-last_or zero next p xs fuel c = absurd (omega arith)
last_node-last_or (suc k) next p [] fuel c = ground arith
last_node-last_or (suc k) next p (x ∷ []) fuel c = ground (arith, ap next c.0)
last_node-last_or (suc k) next p (x ∷ y ∷ ys) fuel c =
    let go : ((p == 0) || (next p == 0)) ≡ false = ground (arith, ap next c.0) in
    rw (go, c.0) (last_node-last_or k next (next x) (y ∷ ys) (omega arith) c.2)

-- Writing the last pointer of a chain extends it.
pub extend :
    (f : ℕ → ℕ) (p x r : ℕ) (xs : List ℕ)
    → 0 < r
    → Distinct (x ∷ xs)
    → mem r (x ∷ xs) ≡ false
    → Chain f p (x ∷ xs)
    → Chain (set_next (set_next f r 0) (last_or x xs) r) p ((x ∷ xs) ++ r ∷ [])
extend f p x r [] pos d out c = (c.0, c.1, (ground arith, pos, ground arith))
extend f p x r (y ∷ ys) pos d out c =
    let ih = extend f (f x) y r ys pos d.1 (ground arith) c.2 in
    let far : (x == last_or y ys) ≡ false = elim (Bool-cases (x == last_or y ys)) [
      | inl e ↦ absurd (
          ground (
            arith,
            d.0,
            mem-last_or y ys,
            ap (λ (z : ℕ). mem z (y ∷ ys)) ((==_iff x (last_or y ys)).0 e),
          ))
      | inr e ↦ e
    ] in
    let near : (x == r) ≡ false = ground arith in (c.0, c.1, rw (far, near) ih)

-- The list at the head is `xs` and the new node, which is returned; the pool is `after`, and only
-- the pointers of the nodes of the list are written.
pub record Linked (s : Store) (after : Pool) (r : ℕ) (xs : List ℕ) (m : Made) : Type 0 where
  pub node : m.node ≡ r
  pub chain : Chain m.store.next m.head (xs ++ r ∷ [])
  pub pool : m.store.pool ≡ after
  pub same : (q : ℕ) → mem q (r ∷ xs) ≡ false → m.store.next q ≡ s.next q

link_last-first :
    (s : Store) (p r : ℕ)
    → link_last s p 0 r
      ≡ record { node = r; head = r; store = record s { next = set_next s.next r 0 } }
unfolding link_last
link_last-first s p r = refl

link_last-behind :
    (s : Store) (p l r : ℕ)
    → (l == 0) ≡ false
    → link_last s p l r ≡ record {
      node = r;
      head = p;
      store = record s { next = set_next (set_next s.next r 0) l r };
    }
unfolding link_last
link_last-behind s p l r e = rw e

pub link_last-Linked :
    (s : Store) (p r : ℕ) (xs : List ℕ)
    → 0 < r
    → Distinct xs
    → mem r xs ≡ false
    → Chain s.next p xs
    → Linked s s.pool r xs (link_last s p (last_or 0 xs) r)
link_last-Linked s p r [] pos d out c =
    subst (Linked s s.pool r []) (sym (link_last-first s p r)) (record {
      node = refl;
      chain = (refl, pos, ground arith);
      pool = refl;
      same = λ q h. ground arith;
    })
link_last-Linked s p r (x ∷ xs) pos d out c =
    let l : (last_or x xs == 0) ≡ false =
      ground (arith, Chain-pos s.next p (last_or x xs) (x ∷ xs) c, mem-last_or x xs) in
    subst (Linked s s.pool r (x ∷ xs)) (sym (link_last-behind s p (last_or x xs) r l)) (record {
      node = refl;
      chain = extend s.next p x r xs pos d out c;
      pool = refl;
      same = λ q h. spare q h;
    })
  where
    spare :
        (q : ℕ)
        → mem q (r ∷ x ∷ xs) ≡ false
        → set_next (set_next s.next r 0) (last_or x xs) r q ≡ s.next q
    spare q h = elim (Bool-cases (q == last_or x xs)) [
      | inl e ↦ absurd (
          ground (
            arith,
            mem-last_or x xs,
            ap (λ (z : ℕ). mem z (x ∷ xs)) ((==_iff q (last_or x xs)).0 e),
          ))
      | inr e ↦ ground arith
    ]

-- `linklist_new` on a list of distinct nodes, asked for at least a list header: where the pool
-- refuses the request it returns no node and leaves the list, and where the pool returns an
-- address that is no node of the list, that address is the new node, at the end of the list.
pub linklist_new_lem :
    (ix : ℕ) (s : Store) (p len : ℕ) (xs : List ℕ)
    → length xs < node_fuel s.pool
    → Distinct xs
    → Chain s.next p xs
    → node_header ≤ len
    → let (r, pool) = bmalloc ix s.pool len in
      let m = linklist_new ix s p len in
      (r ≡ 0 → m ≡ record { node = 0; head = p; store = record s { pool = pool } })
      × (0 < r → mem r xs ≡ false → Linked s pool r xs m)
unfolding linklist_new
linklist_new_lem ix s p len xs fuel d c big =
    let test : ltb len node_header ≡ false = ground arith in
    (
      λ z. rw (test, z),
      λ pos out.
          let ne : ((bmalloc ix s.pool len).0 == 0) ≡ false = ground arith in
          rw (test, ne, last_node-last_or (node_fuel s.pool) s.next p xs fuel c)
            (let s' = record s { pool = (bmalloc ix s.pool len).1 } in
              let k = link_last-Linked s' p (bmalloc ix s.pool len).0 xs pos d out c in
              record { node = k.node; chain = k.chain; pool = k.pool; same = k.same }),
    )

-- A request shorter than a list header is refused before the pool is asked.
pub linklist_new_short :
    (ix : ℕ) (s : Store) (p len : ℕ)
    → len < node_header
    → linklist_new ix s p len ≡ record { node = 0; head = p; store = s }
unfolding linklist_new
linklist_new_short ix s p len h = let test : ltb len node_header ≡ true = ground arith in rw test
