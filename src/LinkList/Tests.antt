-- ===== src/LinkList/Tests.antt =====
-- Runs of the list functions on a list of three nodes, and instances of their theorems there.
use rtbus.Base.{ℕ, ◌+◌, refl, true, List, [], ◌∷◌, arith}
use rtbus.Pool.{Pool}
use rtbus.LinkList.{Store, set_next, linklist_reidx}
use rtbus.LinkList.Chain.{Distinct, Chain}
use rtbus.LinkList.Reindex.{linklist_reidx_behind}

abbrev pool : Pool
pool = record {
  last = 4192;
  heap = 4096;
  top = 5119;
  active = true;
  hdr = λ q. record { busy = true; index = 0; next = q + 32 };
  bytes = λ q. 0;
}

abbrev next : ℕ → ℕ
next = set_next (set_next (λ q. 0) 4104 4136) 4136 4168

abbrev store : Store
store = record { pool = pool; next = next }

abbrev nodes : List ℕ
nodes = 4104 ∷ 4136 ∷ 4168 ∷ []

nodes-Chain : Chain next 4104 nodes
nodes-Chain = (refl, omega arith, (refl, omega arith, (refl, omega arith, refl)))

nodes-Distinct : Distinct nodes
nodes-Distinct = (refl, (refl, (refl, tt)))

linklist_reidx_behind_example :
    let (p', s') = linklist_reidx store 4104 4136 in Chain s'.next p' (4136 ∷ [])
linklist_reidx_behind_example =
    linklist_reidx_behind store 4104 4136 4104 [] (4168 ∷ []) (omega arith) nodes-Distinct
      nodes-Chain
