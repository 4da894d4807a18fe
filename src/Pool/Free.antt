-- ===== src/Pool/Free.antt =====
-- `bfree` on a tiled pool, on blocks.
use rtbus.Base.{
  ℕ, zero, suc, ◌+◌, ◌-◌, ◌≤◌, ◌<◌, ◌≡◌, refl, inl, inr, true, false, ◌&&◌, ◌||◌, not, List, [],
  ◌∷◌, arith, ◌==◌, if◌then◌else◌, length, Bool-cases, ltb, leb, ◌∙◌, ap,
}
use rtbus.Pool.{
  Header, Pool, header_size, mark, pool_num_max, release, free_from, bfree, merge_before,
  merge_after,
}
use rtbus.Pool.Tiles.{Block, Tiles, owns, IsTiled, Tiles-le, not-owns_below}
use rtbus.Pool.Release.{settle, Freed, Freed-cons, release_alone, release_joined}

-- The blocks `b ∷ bs` from `a` on after freeing the payload `t`, which is not that of `b`.
unfoldable pub free_after : (t : ℕ) → Block → (a : ℕ) → List Block → List Block
free_after t b a [] = b ∷ []
free_after t b a (c ∷ cs) =
    if t == a + b.size + header_size
    then (if c.busy
        then (if b.busy then b ∷ settle c.size cs else settle (b.size + c.size) cs)
        else b ∷ c ∷ cs)
    else b ∷ free_after t c (a + b.size) cs

-- The blocks from `a` on after freeing the payload `t`: it becomes a hole, which joins the holes
-- beside it and disappears at the high-water mark.
unfoldable pub free_blocks : (t a : ℕ) → List Block → List Block
free_blocks t a [] = []
free_blocks t a (b ∷ bs) =
    if t == a + header_size
    then (if b.busy then settle b.size bs else b ∷ bs)
    else free_after t b a bs

unchanged : (p : Pool) (a : ℕ) (bs : List Block) → Tiles p.hdr a bs p.last → Freed p a bs p
unchanged p a bs t = record {
  tiles = t;
  same = λ q h. refl;
  last_le = omega arith;
  heap = refl;
  top = refl;
  active = refl;
  bytes = λ q. refl;
}

release_idle : (p : Pool) (prev curr : ℕ) → (p.hdr curr).busy ≡ false → release p prev curr ≡ p
unfolding release
release_idle p prev curr h = rw h

module _ (p : Pool) (t : ℕ) where
  release_behind :
      (a : ℕ) (b c : Block) (cs : List Block)
      → Tiles p.hdr a (b ∷ c ∷ cs) p.last
      → Freed p a
          (if c.busy
            then (if b.busy then b ∷ settle c.size cs else settle (b.size + c.size) cs)
            else b ∷ c ∷ cs)
          (release p a (a + b.size))
  release_behind a b c cs u = elim (Bool-cases c.busy) [
    | inr f ↦
        simp (f, release_idle p a (a + b.size) (ground (arith, u.4.0)))
          (unchanged p a (b ∷ c ∷ cs) u)
    | inl y ↦ elim (Bool-cases b.busy) [
      | inl z ↦
          simp (y, z)
            (Freed-cons p _ a b (c ∷ cs) (settle c.size cs) u
              (release_alone p a (a + b.size) c cs y u.4 (ground (arith, u.0))))
      | inr z ↦
          simp (y, z)
            (release_joined p a (a + b.size) c cs y u.4 b.size u.2 u.3 (ground (arith, u.0)) refl)
    ]
  ]

  free_from-after :
      (k a : ℕ) (b : Block) (bs : List Block)
      → length bs < k
      → Tiles p.hdr a (b ∷ bs) p.last
      → Freed p a (free_after t b a bs) (free_from k p a (a + b.size) t)
  unfolding free_from free_after
  free_from-after zero a b bs fuel u = absurd (omega arith)
  free_from-after (suc k) a b [] fuel u =
      let stop : ltb (a + b.size) p.last ≡ false = ground (arith, u.4) in
      rw stop (unchanged p a (b ∷ []) u)
  free_from-after (suc k) a b (c ∷ cs) fuel u =
      let go : ltb (a + b.size) p.last ≡ true =
        ground (arith, Tiles-le p.hdr (a + b.size + c.size) cs p.last u.4.4) in
      rw go (elim (Bool-cases (t == a + b.size + header_size)) [
        | inl hit ↦ rw hit (release_behind a b c cs u)
        | inr miss ↦
            rw (miss, u.4.1)
              (Freed-cons p _ a b (c ∷ cs) _ u
                (free_from-after k (a + b.size) c cs (omega arith) u.4))
      ])

  free_from-blocks :
      (k a : ℕ) (bs : List Block)
      → length bs < k
      → Tiles p.hdr a bs p.last
      → Freed p a (free_blocks t a bs) (free_from k p a a t)
  unfolding free_from free_blocks
  free_from-blocks zero a bs fuel u = absurd (omega arith)
  free_from-blocks (suc k) a [] fuel u =
      let stop : ltb a p.last ≡ false = ground arith in rw stop (unchanged p a [] u)
  free_from-blocks (suc k) a (b ∷ bs) fuel u =
      let go : ltb a p.last ≡ true = ground (arith, Tiles-le p.hdr (a + b.size) bs p.last u.4) in
      rw go (elim (Bool-cases (t == a + header_size)) [
        | inl hit ↦ rw hit (first hit)
        | inr miss ↦ rw (miss, u.1) (free_from-after k a b bs (omega arith) u)
      ])
    where
      first :
          (t == a + header_size) ≡ true
          → Freed p a (if b.busy then settle b.size bs else b ∷ bs) (release p a a)
      first hit = elim (Bool-cases b.busy) [
        | inl y ↦ simp y (release_alone p a a b bs y u (ground (arith, u.0)))
        | inr f ↦ simp (f, release_idle p a a (ground (arith, u.0))) (unchanged p a (b ∷ bs) u)
      ]

IsTiled-Freed :
    (p p' : Pool) (bs cs : List Block)
    → IsTiled p bs
    → mark p ≡ p.last
    → Freed p p.heap cs p'
    → IsTiled p' cs
unfolding mark
IsTiled-Freed p p' bs cs v m k =
    let high : p.heap + length cs ≤ p'.last = Tiles-le p'.hdr p.heap cs p'.last k.tiles in
    let up : mark p' ≡ p'.last = ground (arith, v.based) in
    record {
      active = k.active ∙ v.active;
      based = omega (arith, k.heap, v.based);
      aligned = omega (arith, k.heap, v.aligned);
      room = omega (arith, up, k.last_le, m, v.room, k.top);
      small = omega (arith, k.top, v.small);
      tiles = rw (up, k.heap) k.tiles;
    }

mark_set : (p : Pool) (b : Block) (bs : List Block) → IsTiled p (b ∷ bs) → mark p ≡ p.last
unfolding mark
mark_set p b bs v = ground (arith, Tiles-le p.hdr p.heap (b ∷ bs) (mark p) v.tiles)

empty_last : (p : Pool) → IsTiled p [] → ltb p.heap p.last ≡ false
unfolding mark
empty_last p v = ground (arith, v.tiles)

-- On a tiled pool `bfree` acts on the blocks as `free_blocks` says, and leaves a tiled pool.
pub bfree-refines :
    (p : Pool) (bs : List Block) (ix t : ℕ)
    → IsTiled p bs
    → ix < pool_num_max
    → 0 < t
    → IsTiled (bfree ix p t) (free_blocks t p.heap bs)
unfolding bfree free_from free_blocks
bfree-refines p [] ix t v low pos =
    let pass : (leb pool_num_max ix || not p.active || (t == 0)) ≡ false =
      ground (arith, v.active) in
    rw (pass, empty_last p v) v
bfree-refines p (b ∷ bs) ix t v low pos =
    let pass : (leb pool_num_max ix || not p.active || (t == 0)) ≡ false =
      ground (arith, v.active) in
    let m = mark_set p b bs v in
    rw pass (
      IsTiled-Freed p _ (b ∷ bs) _ v m (
        free_from-blocks p t (suc (p.last - p.heap)) p.heap (b ∷ bs)
          (omega (arith, m, Tiles-le p.hdr p.heap (b ∷ bs) (mark p) v.tiles)) (rw m at v.tiles)))

settle-owns :
    (f : ℕ → Header) (a s y : ℕ) (cs : List Block) (l q : ℕ)
    → y ≡ a + s
    → Tiles f y cs l
    → owns a (settle s cs) q ≡ owns y cs q
unfolding settle
settle-owns f a s y [] l q e t = refl
settle-owns f a s y (c ∷ []) l q e t = ground arith
settle-owns f a s y (c ∷ d ∷ ds) l q e t =
    let here : a + (s + c.size) ≡ y + c.size = omega arith in
    ground (arith, e, ap (λ (z : ℕ). owns z (d ∷ ds) q) here)

module _ (f : ℕ → Header) (l t q : ℕ) where
  owns-free_after :
      (a : ℕ) (b : Block) (bs : List Block)
      → Tiles f a (b ∷ bs) l
      → (t == a + header_size) ≡ false
      → owns a (free_after t b a bs) q ≡ (owns a (b ∷ bs) q && not (q == t))
  unfolding free_after
  owns-free_after a b [] u ne = ground arith
  owns-free_after a b (c ∷ cs) u ne = ground (
    arith,
    owns-free_after (a + b.size) c cs u.4,
    settle-owns f (a + b.size) c.size (a + b.size + c.size) cs l q refl u.4.4,
    settle-owns f a (b.size + c.size) (a + b.size + c.size) cs l q (omega arith) u.4.4,
    not-owns_below f (a + b.size + c.size) cs l t u.4.4,
    not-owns_below f (a + b.size + c.size) cs l (a + header_size) u.4.4,
    u.2,
    u.4.2,
  )

  pub owns-free_blocks :
      (a : ℕ) (bs : List Block)
      → Tiles f a bs l
      → owns a (free_blocks t a bs) q ≡ (owns a bs q && not (q == t))
  unfolding free_blocks
  owns-free_blocks a [] u = refl
  owns-free_blocks a (b ∷ bs) u = ground (
    arith,
    owns-free_after a b bs u,
    settle-owns f a b.size (a + b.size) bs l q refl u.4,
    not-owns_below f (a + b.size) bs l t u.4,
    u.2,
  )

heap-release : (p : Pool) (prev curr : ℕ) → (release p prev curr).heap ≡ p.heap
unfolding release merge_before merge_after
heap-release p prev curr = ground arith

heap-free_from : (k : ℕ) (p : Pool) (prev curr t : ℕ) → (free_from k p prev curr t).heap ≡ p.heap
unfolding free_from
heap-free_from zero p prev curr t = refl
heap-free_from (suc k) p prev curr t =
    ground (arith, heap-release p prev curr, heap-free_from k p curr (p.hdr curr).next t)

pub heap-bfree : (ix : ℕ) (p : Pool) (t : ℕ) → (bfree ix p t).heap ≡ p.heap
unfolding bfree
heap-bfree ix p t = ground (arith, heap-free_from (suc (p.last - p.heap)) p p.heap p.heap t)
