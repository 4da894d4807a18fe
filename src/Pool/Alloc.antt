-- ===== src/Pool/Alloc.antt =====
-- `bmalloc` on a tiled pool: the blocks that it leaves, and what the caller gets.
use rtbus.Base.{
  ℕ, suc, ◌+◌, ◌-◌, ◌*◌, ◌/◌, ◌^◌, ◌≤◌, ◌<◌, ◌≡◌, inl, inr, true, false, ◌||◌, not, List, [], ◌∷◌,
  ◌++◌, arith, ◌==◌, if◌then◌else◌, length, Option, none, some, Bool-cases, leb,
}
use rtbus.Base.Word.{add32, sub32}
use rtbus.Pool.{
  Header, Pool, header_size, mark, pool_num_max, align_up, set_hdr, memset, bmalloc,
  bmalloc_rounded,
}
use rtbus.Pool.Tiles.{Block, used, Tiles, IsTiled, Tiles-le, Tiles-frame, Tiles-append, Tiles-below}
use rtbus.Pool.Search.{first_fit, Found, search-first_fit}

-- `n` rounded up to the alignment
abbrev pub rounded : ℕ → ℕ
rounded n = (n + 3) / 4 * 4

-- The outcome on blocks, the payload address and the blocks after: a new block at the high-water
-- mark if the room above takes it, else first fit.
unfoldable pub alloc_blocks : (heap mark top n : ℕ) → List Block → Option (ℕ × List Block)
alloc_blocks heap mark top n bs =
    if leb (rounded n + header_size) (top - mark)
    then some (mark + header_size, bs ++ used (rounded n + header_size) ∷ [])
    else elim (first_fit (rounded n) bs) [
      | none ↦ none
      | some (d, cs) ↦ some (heap + d + header_size, cs)
    ]

-- The pool after an outcome on blocks.
abbrev pub Allocated : List Block → Option (ℕ × List Block) → ℕ × Pool → Type 0
Allocated bs none (r, p) = (r ≡ 0) × IsTiled p bs
Allocated bs (some (a, cs)) (r, p) = (r ≡ a) × IsTiled p cs

mark_pos : (p : Pool) → 0 < p.last → mark p ≡ p.last
unfolding mark
mark_pos p h = ground arith

module _ (p : Pool) (bs : List Block) (v : IsTiled p bs) (ix n : ℕ) (size : n + 16 < 2 ^ 32) where
  rounded_up : align_up n ≡ rounded n
  rounded_up = omega arith

  heap-le-mark : p.heap + length bs ≤ mark p
  heap-le-mark = Tiles-le p.hdr p.heap bs (mark p) v.tiles

  top_path :
      leb (rounded n + header_size) (p.top - mark p) ≡ true
      → 0 < n
      → Allocated bs
          (some (mark p + header_size, bs ++ used (rounded n + header_size) ∷ []))
          (bmalloc_rounded ix p (rounded n))
  unfolding bmalloc_rounded
  top_path fit pos =
      let l = mark p + add32 (rounded n) header_size in
      let test : leb (add32 (rounded n) header_size) (sub32 p.top (mark p)) ≡ true =
        ground (arith, v.room, v.small) in
      let big : l ≡ mark p + (rounded n + header_size) = omega arith in
      let g = set_hdr p.hdr (mark p) (record { busy = true; index = ix; next = l }) in
      let q = record p {
        last = l;
        hdr = g;
        bytes = memset p.bytes (l - rounded n) 0 (rounded n);
      } in
      let up : mark q ≡ l = mark_pos q (omega arith) in
      rw test (
        omega arith,
        record {
          active = v.active;
          based = v.based;
          aligned = v.aligned;
          room = rw up (ground (arith, v.room, v.small));
          small = v.small;
          tiles = rw up (
              Tiles-append g p.heap bs (used (rounded n + header_size) ∷ []) (mark p) l
                (Tiles-below p.hdr g p.heap bs (mark p) (λ a h. ground arith) v.tiles)
                (ground arith, ground arith, omega arith, omega arith, omega arith));
        },
      )

  retile :
      (g : ℕ → Header) (cs : List Block)
      → Tiles g p.heap cs (mark p)
      → IsTiled (record p { last = mark p; hdr = g }) cs
  retile g cs t =
      let q = record p { last = mark p; hdr = g } in
      let up : mark q ≡ mark p = mark_pos q (omega (arith, heap-le-mark, v.based)) in
      record {
        active = v.active;
        based = v.based;
        aligned = v.aligned;
        room = rw up v.room;
        small = v.small;
        tiles = rw up t;
      }

  slow-Found :
      (o : Option (ℕ × List Block)) (r : ℕ × (ℕ → Header))
      → Found p.hdr p.heap (mark p) o r
      → Allocated bs
          (elim o [ none ↦ none | some (d, cs) ↦ some (p.heap + d + header_size, cs) ])
          (r.0, record p { last = mark p; hdr = r.1 })
  slow-Found none (r, g) (e, same) = (
    e,
    retile g bs (Tiles-frame p.hdr g p.heap bs (mark p) (λ q h. same q (omega arith)) v.tiles),
  )
  slow-Found (some (d, cs)) (r, g) (e, t, same) = (e, retile g cs t)

  slow_path :
      leb (rounded n + header_size) (p.top - mark p) ≡ false
      → 0 < n
      → Allocated bs
          (elim (first_fit (rounded n) bs) [
            | none ↦ none
            | some (d, cs) ↦ some (p.heap + d + header_size, cs)
          ])
          (bmalloc_rounded ix p (rounded n))
  unfolding bmalloc_rounded
  slow_path full pos =
      let test : leb (add32 (rounded n) header_size) (sub32 p.top (mark p)) ≡ false =
        ground (arith, v.room, v.small) in
      rw test (
        slow-Found (first_fit (rounded n) bs) _ (
          search-first_fit p.hdr ix (mark p) (rounded n) (omega (arith, v.room, v.small))
            (omega arith) (omega arith) (suc (mark p - p.heap)) p.heap bs
            (omega (arith, heap-le-mark)) v.tiles))

  -- On a tiled pool `bmalloc` of a request that is not empty and is more than 16 bytes below 2^32 (so
  -- that rounding it and adding a header do not wrap around) acts on the blocks as `alloc_blocks` says, and
  -- leaves a tiled pool: a new block at the high-water mark, else the first free block with room,
  -- else 0 and the blocks as they were.
  pub bmalloc-refines :
      ix < pool_num_max
      → 0 < n
      → Allocated bs (alloc_blocks p.heap (mark p) p.top n bs) (bmalloc ix p n)
  unfolding bmalloc alloc_blocks
  bmalloc-refines low pos =
      let pass : (leb pool_num_max ix || not p.active || (n == 0)) ≡ false =
        ground (arith, v.active) in
      rw (pass, rounded_up)
        (elim (Bool-cases (leb (rounded n + header_size) (p.top - mark p))) [
          | inl fit ↦ rw fit (top_path fit pos)
          | inr full ↦ rw full (slow_path full pos)
        ])
