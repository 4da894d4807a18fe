-- ===== src/Pool/Tests.antt =====
-- Runs of the allocator on a pool of 1024 bytes, and instances of its theorems there.
use rtbus.Base.{refl, false, [], ◌∷◌, arith}
use rtbus.Pool.{Pool, mark, init_mem_pool, bmalloc, bfree, bmalloc_rounded, search}
use rtbus.Pool.Tiles.{used, IsTiled}
use rtbus.Pool.Alloc.{Allocated, alloc_blocks, bmalloc-refines}
use rtbus.Pool.Owned.{Answer, bmalloc_fresh}
use rtbus.Pool.Free.{free_blocks, bfree-refines}

abbrev blank : Pool
blank = record {
  last = 0;
  heap = 0;
  top = 0;
  active = false;
  hdr = λ q. record { busy = false; index = 0; next = 0 };
  bytes = λ q. 0;
}

abbrev fresh_pool : Pool
fresh_pool = init_mem_pool blank 0 4096 1024

abbrev one_block : Pool
one_block = (bmalloc 0 fresh_pool 20).1

abbrev two_blocks : Pool
two_blocks = (bmalloc 0 one_block 40).1

two_blocks-IsTiled : IsTiled two_blocks (used 28 ∷ used 48 ∷ [])
unfolding bmalloc bmalloc_rounded init_mem_pool mark search
two_blocks-IsTiled = record {
  active = refl;
  based = omega arith;
  aligned = refl;
  room = omega arith;
  small = omega arith;
  tiles = (refl, refl, omega arith, refl, (refl, refl, omega arith, refl, refl));
}

bmalloc-refines_example :
    Allocated
      (used 28 ∷ used 48 ∷ [])
      (alloc_blocks two_blocks.heap (mark two_blocks) two_blocks.top 100 (used 28 ∷ used 48 ∷ []))
      (bmalloc 0 two_blocks 100)
bmalloc-refines_example =
    bmalloc-refines two_blocks (used 28 ∷ used 48 ∷ []) two_blocks-IsTiled 0 100 (omega arith)
      (omega arith) (omega arith)

bmalloc_fresh_example :
    Answer (used 28 ∷ used 48 ∷ []) 100 (bmalloc 0 two_blocks 100).0 (bmalloc 0 two_blocks 100).1
bmalloc_fresh_example =
    bmalloc_fresh two_blocks (used 28 ∷ used 48 ∷ []) 0 100 two_blocks-IsTiled (omega arith)
      (omega arith) (omega arith)

bfree-refines_example :
    IsTiled (bfree 0 two_blocks 4104) (free_blocks 4104 two_blocks.heap (used 28 ∷ used 48 ∷ []))
bfree-refines_example =
    bfree-refines two_blocks (used 28 ∷ used 48 ∷ []) 0 4104 two_blocks-IsTiled (omega arith)
      (omega arith)
