-- ===== src/Pool/Init.antt =====
-- `init_mem_pool`: which memory it accepts, and the empty pool that it sets up.
use rtbus.Base.{ℕ, ◌+◌, ◌-◌, ◌^◌, ◌≤◌, ◌<◌, ◌≡◌, refl, true, false, [], arith, leb, ◌==◌, ◌||◌}
use rtbus.Base.Word.{add32}
use rtbus.Pool.{Pool, header_size, mark, pool_num_max, align_up, init_mem_pool}
use rtbus.Pool.Tiles.{IsTiled}

-- A range of memory inside the address space that leaves more than a header once its start is
-- aligned becomes an empty tiled pool inside the range, all of it zeroed.
pub init_mem_pool-IsTiled :
    (p : Pool) (ix heap len : ℕ)
    → ix < pool_num_max
    → 0 < heap
    → heap + len < 2 ^ 32
    → header_size + 3 < len
    → let q = init_mem_pool p ix heap len in
      IsTiled q []
      × (heap ≤ q.heap)
      × (q.top + 1 ≡ heap + len)
      × ((a : ℕ) → q.heap ≤ a → a ≤ q.top → q.bytes a ≡ 0)
unfolding init_mem_pool mark
init_mem_pool-IsTiled p ix heap len low pos fit big =
    let here : leb pool_num_max ix ≡ false = ground arith in
    let some_room : ((heap == 0) || leb len header_size) ≡ false = ground arith in
    let room : leb len (add32 (align_up heap - heap) header_size) ≡ false = ground arith in
    rw (here, some_room, room)
      (
        record {
          active = refl;
          based = omega arith;
          aligned = omega arith;
          room = omega arith;
          small = omega arith;
          tiles = refl;
        },
        omega arith,
        omega arith,
        λ a lo hi. ground arith,
      )

-- NULL and a range of at most a header leave the slot inactive.
pub init_mem_pool-inactive :
    (p : Pool) (ix heap len : ℕ)
    → ix < pool_num_max
    → (heap == 0) || leb len header_size ≡ true
    → (init_mem_pool p ix heap len).active ≡ false
unfolding init_mem_pool
init_mem_pool-inactive p ix heap len low h = ground arith
