-- ===== src/LinkList.antt =====
-- zephyr/modules/rtbus/lib/linklist.c: singly linked lists of nodes from a pool.
-- A node is the payload address of a block; `next` is the first word of the node at each address.
-- `source` is the address of a list head, which the callers own: a function that writes `*source`
-- returns the new head. The loops take one unit of fuel for each node.
pub mod Chain
pub mod Append
pub mod Remove
pub mod Count
pub mod Reindex
mod Tests
use rtbus.Base.{
  ℕ, zero, suc, ◌+◌, ◌-◌, Bool, true, false, not, ◌&&◌, ◌||◌, ltb, ◌==◌, if◌then◌else◌,
}
use rtbus.Pool.{Pool, bmalloc, bfree}

pub record Store : Type 0 where
  pub pool : Pool
  pub next : ℕ → ℕ

abbrev pub set_next : (ℕ → ℕ) → ℕ → ℕ → ℕ → ℕ
set_next f a v q = if q == a then v else f q

-- sizeof(linklist_t)
abbrev pub node_header : ℕ
node_header = 4

-- More than the blocks, and so more than the nodes, that the pool can hold.
abbrev pub node_fuel : Pool → ℕ
node_fuel p = suc (p.last - p.heap)

-- The do-while loop that walks to the last node. Its test is the negation of the break at its
-- start, so the test is made once in a round.
unfoldable pub last_node : ℕ → (ℕ → ℕ) → ℕ → ℕ
last_node zero next last_tmp = last_tmp
last_node (suc k) next last_tmp =
    let rest = last_node k next (next last_tmp) in
    if (last_tmp == 0) || (next last_tmp == 0) then last_tmp else rest

-- The new node (0 if there is none), the new head and the store.
pub record Made : Type 0 where
  pub node : ℕ
  pub head : ℕ
  pub store : Store

-- The node is linked in behind `last_tmp`.
unfoldable pub link_last : Store → (head last_tmp new_tmp : ℕ) → Made
link_last s head last_tmp new_tmp =
    let next' = set_next s.next new_tmp 0 in
    if last_tmp == 0
    then record { node = new_tmp; head = new_tmp; store = record s { next = next' } }
    else record {
      node = new_tmp;
      head = head;
      store = record s { next = set_next next' last_tmp new_tmp };
    }

unfoldable pub linklist_new : (pool_id : ℕ) → Store → (head new_datalen : ℕ) → Made
linklist_new pool_id s head new_datalen =
    let last_tmp = last_node (node_fuel s.pool) s.next head in
    let r = bmalloc pool_id s.pool new_datalen in
    let s' = record s { pool = r.1 } in
    if ltb new_datalen node_header
    then record { node = 0; head = head; store = s }
    else if r.0 == 0
    then record { node = 0; head = head; store = s' }
    else link_last s' head last_tmp r.0

-- The scan for `target`: the node before (0 at the head) and the node (0 if it is not there).
pub record Place : Type 0 where
  pub pre : ℕ
  pub cur : ℕ

unfoldable pub find_node : ℕ → (ℕ → ℕ) → (target pre cur : ℕ) → Place
find_node zero next target pre cur = record { pre = pre; cur = cur }
find_node (suc k) next target pre cur =
    let rest = find_node k next target cur (next cur) in
    if (cur == 0) || (cur == target) then record { pre = pre; cur = cur } else rest

-- The head and the `next` pointers once the node at the place is unlinked.
pub record Links : Type 0 where
  pub head : ℕ
  pub next : ℕ → ℕ

unfoldable pub unlink : (ℕ → ℕ) → (head : ℕ) → Place → Links
unlink next head at =
    if not (at.pre == 0)
    then record { head = head; next = set_next (set_next next at.pre (next at.cur)) at.cur 0 }
    else record { head = if not (next at.cur == 0) then next at.cur else 0; next = next }

unfoldable pub linklist_remove : (pool_id : ℕ) → Store → (head kill_target : ℕ) → ℕ × Store
linklist_remove pool_id s head kill_target =
    let at = find_node (node_fuel s.pool) s.next kill_target 0 head in
    let links = unlink s.next head at in
    if at.cur == 0
    then (head, s)
    else (links.head, record { pool = bfree pool_id s.pool at.cur; next = links.next })

-- `linklist_reidx`: where the walk to the last node starts. `last_tmp` is set only in the branch
-- that unlinks the first node.
abbrev pub reidx_start : (ℕ → ℕ) → Place → ℕ
reidx_start next at = if not (at.pre == 0) then 0 else next at.cur

unfoldable pub relink : ℕ → Links → (start cur : ℕ) → Links
relink fuel l start cur =
    let last_tmp = last_node fuel l.next start in
    if last_tmp == 0
    then record { head = cur; next = set_next l.next cur 0 }
    else record { head = l.head; next = set_next (set_next l.next last_tmp cur) cur 0 }

unfoldable pub linklist_reidx : Store → (head reidx_target : ℕ) → ℕ × Store
linklist_reidx s head reidx_target =
    let at = find_node (node_fuel s.pool) s.next reidx_target 0 head in
    let l = relink (node_fuel s.pool) (unlink s.next head at) (reidx_start s.next at) at.cur in
    if at.cur == 0 then (head, s) else (l.head, record s { next = l.next })

-- The loop of `linklist_count`, with the count so far.
unfoldable pub count_from : ℕ → (ℕ → ℕ) → (last_tmp func_count : ℕ) → ℕ
count_from zero next last_tmp func_count = func_count
count_from (suc k) next last_tmp func_count =
    let rest = count_from k next (next last_tmp) (func_count + 1) in
    if (last_tmp == 0) || (next last_tmp == 0) then func_count else rest

unfoldable pub linklist_count : Store → (head : ℕ) → ℕ
linklist_count s head = count_from (node_fuel s.pool) s.next head (if not (head == 0) then 1 else 0)

-- The loop of `linklist_get`: `last_tmp` is the node at position `func_count`.
unfoldable pub get_from : ℕ → (ℕ → ℕ) → (index last_tmp func_count : ℕ) → ℕ
get_from zero next index last_tmp func_count = 0
get_from (suc k) next index last_tmp func_count =
    let rest = get_from k next index (next last_tmp) (func_count + 1) in
    if func_count == index
    then last_tmp
    else if (last_tmp == 0) || (next last_tmp == 0)
    then 0
    else rest

unfoldable pub linklist_get : Store → (head index : ℕ) → ℕ
linklist_get s head index = get_from (node_fuel s.pool) s.next index head 0
