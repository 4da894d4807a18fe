-- ===== src/Pool/Search.antt =====
-- The slow path of `bmalloc` is first fit on the blocks.
use rtbus.Base.{
  ℕ, zero, suc, ◌+◌, ◌-◌, ◌%◌, ◌^◌, ◌<◌, ◌≡◌, refl, inl, inr, Bool, true, false, ◌&&◌, not, List,
  [], ◌∷◌, ◌++◌, arith, if◌then◌else◌, length, Option, none, some, Bool-cases, ltb, leb,
}
use rtbus.Pool.{Header, header_size, search, make_new_mem_hole, fits, take_hole}
use rtbus.Pool.Tiles.{Block, used, hole, Tiles, SameFrom, SameBelow, Tiles-le, Tiles-frame}

-- A free block is taken whole, unless what it leaves over can hold a header and more.
abbrev pub carve : ℕ → Block → List Block
carve n b =
    if ltb header_size (b.size - (n + header_size))
    then used (n + header_size) ∷ hole (b.size - (n + header_size)) ∷ []
    else used b.size ∷ []

abbrev pub block_fits : ℕ → Block → Bool
block_fits n b = not b.busy && leb (n + header_size) b.size

-- The first free block with room for `n` bytes: its distance from the start, and the blocks after.
unfoldable pub first_fit : ℕ → List Block → Option (ℕ × List Block)
first_fit n [] = none
first_fit n (b ∷ bs) =
    if block_fits n b
    then some (0, carve n b ++ bs)
    else elim (first_fit n bs) [ none ↦ none | some (d, cs) ↦ some (b.size + d, b ∷ cs) ]

-- What a search from `a` does, against the outcome on blocks.
abbrev pub Found : (ℕ → Header) → (a l : ℕ) → Option (ℕ × List Block) → ℕ × (ℕ → Header) → Type 0
Found f a l none (p, g) = (p ≡ 0) × SameFrom 0 f g
Found f a l (some (d, cs)) (p, g) = (p ≡ a + d + header_size) × Tiles g a cs l × SameBelow a f g

module _ (f : ℕ → Header) (ix l n : ℕ) (small : l < 2 ^ 32) (pos : 0 < n)
    (rounded : n % 4 ≡ 0) where
  fits-block_fits :
      (a : ℕ) (b : Block) (bs : List Block) → Tiles f a (b ∷ bs) l → fits f a n ≡ block_fits n b
  fits-block_fits a b bs t = ground (arith, t.0, t.1, Tiles-le f (a + b.size) bs l t.4)

  take_hole-split :
      (a : ℕ) (b : Block) (bs : List Block)
      → Tiles f a (b ∷ bs) l
      → block_fits n b ≡ true
      → ltb header_size (b.size - (n + header_size)) ≡ true
      → Tiles
          (take_hole f ix a n)
          a
          (used (n + header_size) ∷ hole (b.size - (n + header_size)) ∷ bs)
          l
  unfolding make_new_mem_hole
  take_hole-split a b bs t h s = (
    ground (arith, t.1, Tiles-le f (a + b.size) bs l t.4),
    ground (arith, t.1, Tiles-le f (a + b.size) bs l t.4),
    omega arith,
    omega arith,
    (
      ground (arith, t.1, Tiles-le f (a + b.size) bs l t.4),
      ground (arith, t.1, Tiles-le f (a + b.size) bs l t.4),
      ground arith,
      ground (arith, t.3),
      let e : a + b.size ≡ a + (n + header_size) + (b.size - (n + header_size)) = ground arith in
          rw (← e) (
            Tiles-frame f (take_hole f ix a n) (a + b.size) bs l
              (λ q le. ground (arith, t.1, t.2, Tiles-le f (a + b.size) bs l t.4)) t.4),
    ),
  )

  take_hole-whole :
      (a : ℕ) (b : Block) (bs : List Block)
      → Tiles f a (b ∷ bs) l
      → block_fits n b ≡ true
      → ltb header_size (b.size - (n + header_size)) ≡ false
      → Tiles (take_hole f ix a n) a (used b.size ∷ bs) l
  unfolding make_new_mem_hole
  take_hole-whole a b bs t h s = (
    ground (arith, t.1, Tiles-le f (a + b.size) bs l t.4),
    ground (arith, t.1, Tiles-le f (a + b.size) bs l t.4),
    t.2,
    t.3,
    Tiles-frame f (take_hole f ix a n) (a + b.size) bs l
        (λ q le. ground (arith, t.1, t.2, Tiles-le f (a + b.size) bs l t.4)) t.4,
  )

  take_hole-carve :
      (a : ℕ) (b : Block) (bs : List Block)
      → Tiles f a (b ∷ bs) l
      → block_fits n b ≡ true
      → Tiles (take_hole f ix a n) a (carve n b ++ bs) l
  take_hole-carve a b bs t h = elim (Bool-cases (ltb header_size (b.size - (n + header_size)))) [
    | inl s ↦ rw s (take_hole-split a b bs t h s)
    | inr s ↦ rw s (take_hole-whole a b bs t h s)
  ]

  take_hole-SameBelow : (a : ℕ) → SameBelow a f (take_hole f ix a n)
  unfolding make_new_mem_hole
  take_hole-SameBelow a q h = ground arith

  Found-cons :
      (a : ℕ) (b : Block) (bs : List Block) (r : ℕ × (ℕ → Header)) (o : Option (ℕ × List Block))
      → Tiles f a (b ∷ bs) l
      → Found f (a + b.size) l o r
      → Found f a l (elim o [ none ↦ none | some (d, cs) ↦ some (b.size + d, b ∷ cs) ]) r
  Found-cons a b bs (p, g) none t found = found
  Found-cons a b bs (p, g) (some (d, cs)) t found = (
    omega arith,
    (rw (found.2 a (omega arith)) t.0, rw (found.2 a (omega arith)) t.1, t.2, t.3, found.1),
    λ q h. found.2 q (omega arith),
  )

  -- The search of `bmalloc` from the address of a block finds what first fit finds in the list
  -- of blocks, and writes no header below that address.
  pub search-first_fit :
      (k a : ℕ) (bs : List Block)
      → length bs < k
      → Tiles f a bs l
      → Found f a l (first_fit n bs) (search k f ix l n a)
  unfolding search first_fit
  search-first_fit zero a bs fuel t = absurd (omega arith)
  search-first_fit (suc k) a [] fuel t =
      let stop : ltb a l ≡ false = ground arith in rw stop (refl, λ q h. refl)
  search-first_fit (suc k) a (b ∷ bs) fuel t =
      let go : ltb a l ≡ true = ground (arith, Tiles-le f (a + b.size) bs l t.4) in
      rw (go, fits-block_fits a b bs t)
        (elim (Bool-cases (block_fits n b)) [
          | inl hit ↦ rw hit (omega arith, take_hole-carve a b bs t hit, take_hole-SameBelow a)
          | inr miss ↦
              rw (miss, t.1)
                (Found-cons a b bs _ (first_fit n bs) t
                  (search-first_fit k (a + b.size) bs (omega arith) t.4))
        ])
