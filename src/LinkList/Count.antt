-- ===== src/LinkList/Count.antt =====
-- `linklist_count` and `linklist_get` read the list.
use rtbus.Base.{
  ℕ, zero, suc, ◌+◌, ◌<◌, ◌≡◌, refl, ap, true, false, ◌||◌, List, [], ◌∷◌, arith, ◌==◌, length,
  get_or,
}
use rtbus.LinkList.{Store, node_fuel, count_from, linklist_count, get_from, linklist_get}
use rtbus.LinkList.Chain.{Chain}

count_from-length :
    (k : ℕ) (next : ℕ → ℕ) (p n x : ℕ) (xs : List ℕ)
    → length xs < k
    → Chain next p (x ∷ xs)
    → count_from k next p n ≡ n + length xs
unfolding count_from
count_from-length zero next p n x xs fuel c = absurd (omega arith)
count_from-length (suc k) next p n x [] fuel c = ground (arith, ap next c.0)
count_from-length (suc k) next p n x (y ∷ ys) fuel c =
    let go : ((p == 0) || (next p == 0)) ≡ false = ground (arith, ap next c.0) in
    rw (go, c.0) (omega (arith, count_from-length k next (next x) (n + 1) y ys (omega arith) c.2))

count_from-none : (k : ℕ) (next : ℕ → ℕ) (p n : ℕ) → p ≡ 0 → count_from k next p n ≡ n
unfolding count_from
count_from-none zero next p n e = refl
count_from-none (suc k) next p n e = ground arith

-- `linklist_count` of a list is the number of its nodes.
pub linklist_count-length :
    (s : Store) (p : ℕ) (xs : List ℕ)
    → length xs < node_fuel s.pool
    → Chain s.next p xs
    → linklist_count s p ≡ length xs
unfolding linklist_count
linklist_count-length s p [] fuel c =
    let none_at : (p == 0) ≡ true = ground arith in
    rw none_at (count_from-none (node_fuel s.pool) s.next p 0 c)
linklist_count-length s p (x ∷ xs) fuel c =
    let some_node : (p == 0) ≡ false = ground arith in
    rw some_node
      (omega (arith, count_from-length (node_fuel s.pool) s.next p 1 x xs (omega arith) c))

get_from-get_or :
    (k : ℕ) (next : ℕ → ℕ) (i p n j : ℕ) (xs : List ℕ)
    → length xs < k
    → i ≡ n + j
    → Chain next p xs
    → get_from k next i p n ≡ get_or xs j 0
unfolding get_from
get_from-get_or zero next i p n j xs fuel e c = absurd (omega arith)
get_from-get_or (suc k) next i p n j [] fuel e c = ground arith
get_from-get_or (suc k) next i p n zero (x ∷ xs) fuel e c = ground arith
get_from-get_or (suc k) next i p n (suc j) (x ∷ []) fuel e c = ground (arith, ap next c.0)
get_from-get_or (suc k) next i p n (suc j) (x ∷ y ∷ ys) fuel e c =
    let far : (n == i) ≡ false = ground arith in
    let go : ((p == 0) || (next p == 0)) ≡ false = ground (arith, ap next c.0) in
    rw (far, go, c.0)
      (get_from-get_or k next i (next x) (n + 1) j (y ∷ ys) (omega arith) (omega arith) c.2)

-- `linklist_get` of a list is the node at the position, or NULL past the end.
pub linklist_get-get_or :
    (s : Store) (p i : ℕ) (xs : List ℕ)
    → length xs < node_fuel s.pool
    → Chain s.next p xs
    → linklist_get s p i ≡ get_or xs i 0
unfolding linklist_get
linklist_get-get_or s p i xs fuel c =
    get_from-get_or (node_fuel s.pool) s.next i p 0 i xs fuel (omega arith) c
