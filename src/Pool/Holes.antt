-- ===== src/Pool/Holes.antt =====
-- Fragmentation: no two holes touch, and the block at the high-water mark is allocated.
use rtbus.Base.{
  ℕ, ◌+◌, ◌-◌, ◌^◌, ◌<◌, ◌≡◌, refl, inl, inr, Bool, true, false, ◌&&◌, not, List, [], ◌∷◌, ◌++◌,
  arith, Option, none, some, Bool-cases, ltb, leb,
}
use rtbus.Pool.{Pool, header_size, mark, pool_num_max, bmalloc, bfree}
use rtbus.Pool.Tiles.{Block, used, IsTiled}
use rtbus.Pool.Search.{first_fit, block_fits, carve}
use rtbus.Pool.Release.{settle}
use rtbus.Pool.Alloc.{rounded, alloc_blocks, Allocated, bmalloc-refines}
use rtbus.Pool.Free.{free_after, free_blocks, bfree-refines}

-- The blocks behind a hole (`h ≡ true`) or an allocated block.
abbrev pub Spaced : Bool → List Block → Type 0
Spaced h [] = h ≡ false
Spaced h (b ∷ bs) = ((h && not b.busy) ≡ false) × Spaced (not b.busy) bs

abbrev pub IsCoalesced : List Block → Type 0
IsCoalesced bs = Spaced false bs

Spaced-weaken : (h : Bool) (bs : List Block) → Spaced h bs → Spaced false bs
Spaced-weaken h [] s = refl
Spaced-weaken h (b ∷ bs) s = (refl, s.1)

settle-Spaced :
    (h : Bool) (s : ℕ) (cs : List Block) → h ≡ false → Spaced false cs → Spaced h (settle s cs)
unfolding settle
settle-Spaced h s [] e k = e
settle-Spaced h s (c ∷ []) e k = ground arith
settle-Spaced h s (c ∷ d ∷ ds) e k = ground arith

free_after-Spaced :
    (t : ℕ) (h : Bool) (b : Block) (a : ℕ) (bs : List Block)
    → Spaced h (b ∷ bs)
    → Spaced h (free_after t b a bs)
unfolding free_after
free_after-Spaced t h b a [] k = k
free_after-Spaced t h b a (c ∷ cs) k = ground (
  arith,
  free_after-Spaced t (not b.busy) c (a + b.size) cs k.1,
  settle-Spaced (not b.busy) c.size cs,
  settle-Spaced h (b.size + c.size) cs,
  Spaced-weaken (not c.busy) cs k.1.1,
)

free_blocks-Spaced : (t a : ℕ) (bs : List Block) → IsCoalesced bs → IsCoalesced (free_blocks t a bs)
unfolding free_blocks
free_blocks-Spaced t a [] k = k
free_blocks-Spaced t a (b ∷ bs) k = ground (
  arith,
  free_after-Spaced t false b a bs k,
  settle-Spaced false b.size bs refl,
  Spaced-weaken (not b.busy) bs k.1,
)

abbrev FitSpaced : Bool → Option (ℕ × List Block) → Type 0
FitSpaced h none = Unit
FitSpaced h (some (d, cs)) = Spaced h cs

first_fit-Spaced : (n : ℕ) (h : Bool) (bs : List Block) → Spaced h bs → FitSpaced h (first_fit n bs)
unfolding first_fit
first_fit-Spaced n h [] k = tt
first_fit-Spaced n h (b ∷ bs) k = elim (Bool-cases (block_fits n b)) [
  | inl hit ↦ rw hit (split hit)
  | inr miss ↦ rw miss (cons (first_fit n bs) (first_fit-Spaced n (not b.busy) bs k.1))
]
  where
    split : block_fits n b ≡ true → Spaced h (carve n b ++ bs)
    split hit = elim (Bool-cases (ltb header_size (b.size - (n + header_size)))) [
      | inl s ↦ rw s (ground arith)
      | inr s ↦ rw s (ground (arith, Spaced-weaken (not b.busy) bs k.1))
    ]

    cons :
        (o : Option (ℕ × List Block))
        → FitSpaced (not b.busy) o
        → FitSpaced h (elim o [ none ↦ none | some (d, cs) ↦ some (b.size + d, b ∷ cs) ])
    cons none f = tt
    cons (some (d, cs)) f = (k.0, f)

append-Spaced : (h : Bool) (bs : List Block) (n : ℕ) → Spaced h bs → Spaced h (bs ++ used n ∷ [])
append-Spaced h [] n k = (rw k refl, refl)
append-Spaced h (b ∷ bs) n k = (k.0, append-Spaced (not b.busy) bs n k.1)

alloc_blocks-Spaced :
    (a l top n : ℕ) (bs : List Block) → IsCoalesced bs → FitSpaced false (alloc_blocks a l top n bs)
unfolding alloc_blocks
alloc_blocks-Spaced a l top n bs k = elim (Bool-cases (leb (rounded n + header_size) (top - l))) [
  | inl fit ↦ rw fit (append-Spaced false bs (rounded n + header_size) k)
  | inr full ↦ rw full (pass (first_fit (rounded n) bs) (first_fit-Spaced (rounded n) false bs k))
]
  where
    pass :
        (o : Option (ℕ × List Block))
        → FitSpaced false o
        → FitSpaced false (elim o [ none ↦ none | some (d, cs) ↦ some (a + d + header_size, cs) ])
    pass none f = tt
    pass (some (d, cs)) f = f

-- A tiled pool whose holes are coalesced.
pub record IsCompact (p : Pool) : Type 0 where
  pub blocks : List Block
  pub tiled : IsTiled p blocks
  pub coalesced : IsCoalesced blocks

module _ (p : Pool) (ix : ℕ) (low : ix < pool_num_max) (v : IsCompact p) where
  -- `bmalloc` keeps the pool tiled by blocks of which no two neighbours are free and the last is
  -- allocated, whether it succeeds or not.
  pub bmalloc-IsCompact : (n : ℕ) → 0 < n → n + 16 < 2 ^ 32 → IsCompact (bmalloc ix p n).1
  bmalloc-IsCompact n pos size =
      done (alloc_blocks p.heap (mark p) p.top n v.blocks)
        (bmalloc-refines p v.blocks v.tiled ix n size low pos)
        (alloc_blocks-Spaced p.heap (mark p) p.top n v.blocks v.coalesced)
    where
      done :
          (o : Option (ℕ × List Block))
          → Allocated v.blocks o (bmalloc ix p n)
          → FitSpaced false o
          → IsCompact (bmalloc ix p n).1
      done none k f = record { blocks = v.blocks; tiled = k.1; coalesced = v.coalesced }
      done (some (d, cs)) k f = record { blocks = cs; tiled = k.1; coalesced = f }

  -- `bfree` of any address but NULL keeps the pool tiled by blocks of which no two neighbours are
  -- free and the last is allocated.
  pub bfree-IsCompact : (t : ℕ) → 0 < t → IsCompact (bfree ix p t)
  bfree-IsCompact t pos = record {
    blocks = free_blocks t p.heap v.blocks;
    tiled = bfree-refines p v.blocks ix t v.tiled low pos;
    coalesced = free_blocks-Spaced t p.heap v.blocks v.coalesced;
  }
