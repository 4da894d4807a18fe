-- ===== src/Pool/Owned.antt =====
-- What `bmalloc` hands out: fresh, aligned payloads that overlap nothing allocated.
use rtbus.Base.{
  ℕ, ◌+◌, ◌-◌, ◌%◌, ◌^◌, ◌≤◌, ◌<◌, ◌≡◌, refl, inl, inr, true, false, ◌&&◌, ◌||◌, List, [], ◌∷◌,
  ◌++◌, arith, ◌==◌, if◌then◌else◌, Option, none, some, Bool-cases, ltb, leb,
}
use rtbus.Pool.{Header, Pool, header_size, mark, pool_num_max, bmalloc, bmalloc_rounded}
use rtbus.Pool.Tiles.{Block, used, Tiles, owns, IsTiled, Tiles-le, owns-lt, not-owns_below}
use rtbus.Pool.Search.{first_fit, block_fits, carve}
use rtbus.Pool.Alloc.{alloc_blocks, Allocated, rounded, bmalloc-refines}

-- The bytes behind the payload address `q` of an allocated block.
abbrev pub extent : ℕ → List Block → ℕ → ℕ
extent a [] q = 0
extent a (b ∷ bs) q =
    if b.busy && (q == a + header_size) then b.size - header_size else extent (a + b.size) bs q

-- From `bs` to `cs` the payload `r` of at least `n` bytes is added, and nothing else changes.
pub record Adds (a : ℕ) (bs cs : List Block) (n r : ℕ) : Type 0 where
  pub fresh : owns a bs r ≡ false
  pub owned : (q : ℕ) → owns a cs q ≡ ((q == r) || owns a bs q)
  pub holds : n ≤ extent a cs r
  pub kept : (q : ℕ) → owns a bs q ≡ true → extent a cs q ≡ extent a bs q

abbrev Takes : ℕ → List Block → ℕ → Option (ℕ × List Block) → Type 0
Takes a bs n none = Unit
Takes a bs n (some (d, cs)) = Adds a bs cs n (a + d + header_size)

module _ (f : ℕ → Header) (l n : ℕ) where
  carve-Adds :
      (a : ℕ) (b : Block) (bs : List Block)
      → Tiles f a (b ∷ bs) l
      → block_fits n b ≡ true
      → Adds a (b ∷ bs) (carve n b ++ bs) n (a + 0 + header_size)
  carve-Adds a b bs t h = elim (Bool-cases (ltb header_size (b.size - (n + header_size)))) [
    | inl s ↦
        let e : a + (n + header_size) + (b.size - (n + header_size)) ≡ a + b.size = ground arith in
        rw s (record {
          fresh =
              ground
                (arith, not-owns_below f (a + b.size) bs l (a + 0 + header_size) t.4 (omega arith));
          owned = λ q. rw e (ground arith);
          holds = ground arith;
          kept = λ q o. rw e (ground (arith, owns-lt f (a + b.size) bs l q t.4));
        })
    | inr s ↦ rw s (record {
      fresh =
          ground
            (arith, not-owns_below f (a + b.size) bs l (a + 0 + header_size) t.4 (omega arith));
      owned = λ q. ground arith;
      holds = ground arith;
      kept = λ q o. ground (arith, owns-lt f (a + b.size) bs l q t.4);
    })
  ]

  Takes-cons :
      (a : ℕ) (b : Block) (bs : List Block) (o : Option (ℕ × List Block))
      → Tiles f a (b ∷ bs) l
      → Takes (a + b.size) bs n o
      → Takes a (b ∷ bs) n (elim o [ none ↦ none | some (d, cs) ↦ some (b.size + d, b ∷ cs) ])
  Takes-cons a b bs none t k = tt
  Takes-cons a b bs (some (d, cs)) t k =
      let e : a + (b.size + d) + header_size ≡ a + b.size + d + header_size = omega arith in
      rw e (record {
        fresh = ground (arith, k.fresh);
        owned = λ q. ground (arith, k.owned q);
        holds = ground (arith, k.holds, t.2);
        kept = λ q o. ground (arith, k.kept q);
      })

  first_fit-Takes : (a : ℕ) (bs : List Block) → Tiles f a bs l → Takes a bs n (first_fit n bs)
  unfolding first_fit
  first_fit-Takes a [] t = tt
  first_fit-Takes a (b ∷ bs) t = elim (Bool-cases (block_fits n b)) [
    | inl hit ↦ rw hit (carve-Adds a b bs t hit)
    | inr miss ↦
        rw miss (Takes-cons a b bs (first_fit n bs) t (first_fit-Takes (a + b.size) bs t.4))
  ]

append-Adds :
    (f : ℕ → Header) (a : ℕ) (bs : List Block) (l n : ℕ)
    → Tiles f a bs l
    → Adds a bs (bs ++ used (n + header_size) ∷ []) n (l + header_size)
append-Adds f a [] l n t = record {
  fresh = refl;
  owned = λ q. ground arith;
  holds = ground arith;
  kept = λ q o. absurd (ground arith);
}
append-Adds f a (b ∷ bs) l n t =
    let k = append-Adds f (a + b.size) bs l n t.4 in
    let le = Tiles-le f (a + b.size) bs l t.4 in
    record {
      fresh = ground (arith, k.fresh, le);
      owned = λ q. ground (arith, k.owned q);
      holds = ground (arith, k.holds, le);
      kept = λ q o. ground (arith, k.kept q);
    }

Adds-weaken : {a n m r : ℕ} {bs cs : List Block} → Adds a bs cs m r → n ≤ m → Adds a bs cs n r
Adds-weaken k h = record {
  fresh = k.fresh;
  owned = k.owned;
  holds = omega (arith, k.holds);
  kept = k.kept;
}

-- In a pool tiled by blocks, two allocated payloads do not overlap, and the later one starts
-- behind a header of its own.
pub owns_apart :
    (f : ℕ → Header) (a : ℕ) (bs : List Block) (l q r : ℕ)
    → Tiles f a bs l
    → owns a bs q ≡ true
    → owns a bs r ≡ true
    → q < r
    → q + extent a bs q + header_size ≤ r
owns_apart f a [] l q r t hq hr lt = absurd (ground arith)
owns_apart f a (b ∷ bs) l q r t hq hr lt = ground (
  arith,
  owns_apart f (a + b.size) bs l q r t.4,
  owns-lt f (a + b.size) bs l r t.4,
  owns-lt f (a + b.size) bs l q t.4,
)

-- An allocated payload is aligned, not NULL, and ends inside the pool.
pub owns_inside :
    (f : ℕ → Header) (a : ℕ) (bs : List Block) (l q : ℕ)
    → Tiles f a bs l
    → a % 4 ≡ 0
    → owns a bs q ≡ true
    → (q % 4 ≡ 0) × (a + header_size ≤ q) × (q + extent a bs q ≤ l)
owns_inside f a [] l q t m h = absurd (ground arith)
owns_inside f a (b ∷ bs) l q t m h =
    ground (arith, owns_inside f (a + b.size) bs l q t.4, Tiles-le f (a + b.size) bs l t.4, t.3)

-- What the caller of `bmalloc` gets.
pub data Answer (bs : List Block) (n : ℕ) (r : ℕ) (p : Pool) : Type 0 where
  refused : r ≡ 0 → IsTiled p bs → Answer bs n r p
  granted : (cs : List Block) → IsTiled p cs → Adds p.heap bs cs n r → Answer bs n r p

pub heap-bmalloc : (ix : ℕ) (p : Pool) (n : ℕ) → (bmalloc ix p n).1.heap ≡ p.heap
unfolding bmalloc bmalloc_rounded
heap-bmalloc ix p n = ground arith

abbrev Grants : ℕ → List Block → ℕ → Option (ℕ × List Block) → Type 0
Grants a bs n none = Unit
Grants a bs n (some (r, cs)) = Adds a bs cs n r

first_fit-Grants :
    (a : ℕ) (bs : List Block) (n m : ℕ) (o : Option (ℕ × List Block))
    → n ≤ m
    → Takes a bs m o
    → Grants a bs n (elim o [ none ↦ none | some (d, cs) ↦ some (a + d + header_size, cs) ])
first_fit-Grants a bs n m none h k = tt
first_fit-Grants a bs n m (some (d, cs)) h k = Adds-weaken k h

alloc_blocks-Grants :
    (f : ℕ → Header) (heap mark top n : ℕ) (bs : List Block)
    → Tiles f heap bs mark
    → Grants heap bs n (alloc_blocks heap mark top n bs)
unfolding alloc_blocks
alloc_blocks-Grants f heap mark top n bs t =
    elim (Bool-cases (leb (rounded n + header_size) (top - mark))) [
      | inl fit ↦ rw fit (Adds-weaken (append-Adds f heap bs mark (rounded n) t) (omega arith))
      | inr full ↦ rw full (
          first_fit-Grants heap bs n (rounded n) (first_fit (rounded n) bs) (omega arith)
            (first_fit-Takes f mark (rounded n) heap bs t))
    ]

answer :
    (a : ℕ) (bs : List Block) (n : ℕ) (o : Option (ℕ × List Block)) (r : ℕ) (p : Pool)
    → p.heap ≡ a
    → Allocated bs o (r, p)
    → Grants a bs n o
    → Answer bs n r p
answer a bs n none r p e (z, v) k = refused z v
answer a bs n (some (d, cs)) r p e (z, v) k = granted cs v (rw (e, z) k)

-- `bmalloc` on a tiled pool, of a request that is not empty and is more than 16 bytes below 2^32, either returns 0 and leaves the blocks as they
-- were, or returns the address of a payload of at least the requested size that was not allocated;
-- then exactly that payload is allocated besides those before, which keep their sizes.
pub bmalloc_fresh :
    (p : Pool) (bs : List Block) (ix n : ℕ)
    → IsTiled p bs
    → ix < pool_num_max
    → 0 < n
    → n + 16 < 2 ^ 32
    → Answer bs n (bmalloc ix p n).0 (bmalloc ix p n).1
bmalloc_fresh p bs ix n v low pos size =
    answer p.heap bs n (alloc_blocks p.heap (mark p) p.top n bs) _ _ (heap-bmalloc ix p n)
      (bmalloc-refines p bs v ix n size low pos)
      (alloc_blocks-Grants p.hdr p.heap (mark p) p.top n bs v.tiles)

-- In a tiled pool every allocated payload is aligned, is not NULL and ends at or below the
-- high-water mark.
pub payload_inside :
    (p : Pool) (bs : List Block) (q : ℕ)
    → IsTiled p bs
    → owns p.heap bs q ≡ true
    → (q % 4 ≡ 0) × (0 < q) × (q + extent p.heap bs q ≤ mark p)
payload_inside p bs q v h =
    ground (arith, v.based, owns_inside p.hdr p.heap bs (mark p) q v.tiles v.aligned h)
