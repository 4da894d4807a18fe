-- ===== src/Pool/Release.antt =====
-- `bfree` at the block that holds the pointer: it becomes a hole, joins its neighbours that are
-- holes, and disappears if it reaches the high-water mark.
use rtbus.Base.{
  ℕ, suc, ◌+◌, ◌%◌, ◌≤◌, ◌<◌, ◌≡◌, refl, inl, inr, ◌≢◌, true, false, List, [], ◌∷◌, arith, ◌==◌,
  if◌then◌else◌, Bool-cases, ltb, sym,
}
use mathlib.Core.Path.{subst}
use rtbus.Pool.{Header, Pool, lower_mark, merge_before, merge_after, release}
use rtbus.Pool.Tiles.{Block, hole, Tiles, SameFrom, SameBelow, Tiles-le, Tiles-frame}

-- A hole of `s` bytes before the blocks, which the next free block has been joined to.
abbrev pub trim : ℕ → List Block → List Block
trim s [] = []
trim s (c ∷ cs) = hole s ∷ c ∷ cs

-- A block of `s` bytes before the blocks becomes free.
unfoldable pub settle : ℕ → List Block → List Block
settle s [] = []
settle s (c ∷ cs) = if c.busy then hole s ∷ c ∷ cs else trim (s + c.size) cs

-- The pool `p'` after a change of `p` at addresses from `x` on, where it now has the blocks `bs`.
pub record Freed (p : Pool) (x : ℕ) (bs : List Block) (p' : Pool) : Type 0 where
  pub tiles : Tiles p'.hdr x bs p'.last
  pub same : SameBelow x p.hdr p'.hdr
  pub last_le : p'.last ≤ p.last
  pub heap : p'.heap ≡ p.heap
  pub top : p'.top ≡ p.top
  pub active : p'.active ≡ p.active
  pub bytes : (q : ℕ) → p'.bytes q ≡ p.bytes q

pub Freed-cons :
    (p p' : Pool) (x : ℕ) (b : Block) (bs cs : List Block)
    → Tiles p.hdr x (b ∷ bs) p.last
    → Freed p (x + b.size) cs p'
    → Freed p x (b ∷ cs) p'
Freed-cons p p' x b bs cs t k = record {
  tiles = (rw (k.same x (omega arith)) t.0, rw (k.same x (omega arith)) t.1, t.2, t.3, k.tiles);
  same = λ q h. k.same q (omega arith);
  last_le = k.last_le;
  heap = k.heap;
  top = k.top;
  active = k.active;
  bytes = k.bytes;
}

-- where the header of the freed block comes to point
abbrev after : ℕ → List Block → ℕ
after y [] = y
after y (c ∷ cs) = if c.busy then y else y + c.size

settle-Tiles :
    (f g : ℕ → Header) (x s l : ℕ) (cs : List Block)
    → 8 < s
    → s % 4 ≡ 0
    → Tiles f (x + s) cs l
    → (g x).busy ≡ false
    → (g x).next ≡ after (x + s) cs
    → SameFrom (suc x) f g
    → Tiles g x (settle s cs) (if (g x).next == l then x else l)
unfolding settle
settle-Tiles f g x s l [] big mul t free next same = ground arith
settle-Tiles f g x s l (c ∷ cs) big mul t free next same = elim (Bool-cases c.busy) [
  | inl b ↦
      let e : settle s (c ∷ cs) ≡ hole s ∷ c ∷ cs = ground arith in
      subst (λ z. Tiles g x z (if (g x).next == l then x else l)) (sym e) (kept (ground arith))
  | inr b ↦ rw b (joined cs t.4 (ground arith))
]
  where
    kept : (g x).next ≡ x + s → Tiles g x (hole s ∷ c ∷ cs) (if (g x).next == l then x else l)
    kept e =
        let ne : ((g x).next == l) ≡ false = ground (arith, Tiles-le f (x + s + c.size) cs l t.4) in
        rw ne
          (free, e, big, mul, Tiles-frame f g (x + s) (c ∷ cs) l (λ q h. same q (omega arith)) t)

    joined :
        (ds : List Block)
        → Tiles f (x + s + c.size) ds l
        → (g x).next ≡ x + s + c.size
        → Tiles g x (trim (s + c.size) ds) (if (g x).next == l then x else l)
    joined [] u e = ground arith
    joined (d ∷ ds) u e =
        let ne : ((g x).next == l) ≡ false =
          ground (arith, Tiles-le f (x + s + c.size + d.size) ds l u.4) in
        let here : x + (s + c.size) ≡ x + s + c.size = omega arith in
        rw (ne, here)
          (
            free,
            e,
            omega arith,
            omega arith,
            Tiles-frame f g (x + s + c.size) (d ∷ ds) l (λ q h. same q (omega arith)) u,
          )

-- The header that `bfree` looks at behind `curr`.
next_header :
    (f : ℕ → Header) (curr y l : ℕ) (cs : List Block)
    → (f curr).busy ≡ true
    → Tiles f y cs l
    → (let h = if ltb y l then y else curr in if (f h).busy then y else (f h).next) ≡ after y cs
next_header f curr y l [] busy t = ground arith
next_header f curr y l (c ∷ cs) busy t = ground (arith, Tiles-le f (y + c.size) cs l t.4)

Freed-at :
    (p : Pool) (g : ℕ → Header) (x s : ℕ) (cs : List Block)
    → 8 < s
    → s % 4 ≡ 0
    → Tiles p.hdr (x + s) cs p.last
    → (g x).busy ≡ false
    → (g x).next ≡ after (x + s) cs
    → SameFrom (suc x) p.hdr g
    → SameBelow x p.hdr g
    → Freed p x (settle s cs) (lower_mark (record p { hdr = g }) x)
Freed-at p g x s cs big mul t free next up down = elim (Bool-cases ((g x).next == p.last)) [
  | inl e ↦ rw e (record {
    tiles = rw e at (settle-Tiles p.hdr g x s p.last cs big mul t free next up);
    same = down;
    last_le = omega (arith, Tiles-le p.hdr (x + s) cs p.last t);
    heap = refl;
    top = refl;
    active = refl;
    bytes = λ q. refl;
  })
  | inr e ↦ rw e (record {
    tiles = rw e at (settle-Tiles p.hdr g x s p.last cs big mul t free next up);
    same = down;
    last_le = omega arith;
    heap = refl;
    top = refl;
    active = refl;
    bytes = λ q. refl;
  })
]

module _ (p : Pool) (prev curr : ℕ) (c : Block) (cs : List Block) (busy : c.busy ≡ true)
    (t : Tiles p.hdr curr (c ∷ cs) p.last) where
  freed_busy : (p.hdr curr).busy ≡ true
  freed_busy = ground arith

  merge_after_lem :
      ((merge_after p curr curr).busy ≡ false)
      × ((merge_after p curr curr).next ≡ after (curr + c.size) cs)
  unfolding merge_after
  merge_after_lem =
      ground (arith, t.1, next_header p.hdr curr (curr + c.size) p.last cs freed_busy t.4)

  merge_before_lem :
      (p.hdr prev).busy ≡ false
      → ((merge_before p prev curr prev).busy ≡ false)
        × ((merge_before p prev curr prev).next ≡ after (curr + c.size) cs)
  unfolding merge_before
  merge_before_lem free =
      ground (arith, t.1, next_header p.hdr curr (curr + c.size) p.last cs freed_busy t.4)

  merge_after_same : (q : ℕ) → q ≢ curr → merge_after p curr q ≡ p.hdr q
  unfolding merge_after
  merge_after_same q h = ground arith

  merge_before_same : (q : ℕ) → q ≢ prev → merge_before p prev curr q ≡ p.hdr q
  unfolding merge_before
  merge_before_same q h = ground arith

  -- The block before is allocated, or there is none and `prev` is the block itself.
  pub release_alone :
      (p.hdr prev).busy ≡ true → Freed p curr (settle c.size cs) (release p prev curr)
  unfolding release
  release_alone before =
      rw (freed_busy, before)
        (Freed-at p (merge_after p curr) curr c.size cs t.2 t.3 t.4 merge_after_lem.0
          merge_after_lem.1 (λ q h. merge_after_same q (omega arith))
          (λ q h. merge_after_same q (omega arith)))

  -- The block before is a hole of `s` bytes.
  pub release_joined :
      (s : ℕ)
      → 8 < s
      → s % 4 ≡ 0
      → (p.hdr prev).busy ≡ false
      → curr ≡ prev + s
      → Freed p prev (settle (s + c.size) cs) (release p prev curr)
  unfolding release
  release_joined s big mul free at =
      let e : curr + c.size ≡ prev + (s + c.size) = omega arith in
      rw (freed_busy, free)
        (Freed-at p (merge_before p prev curr) prev (s + c.size) cs (omega arith)
          (omega (arith, t.3)) (rw e at t.4) (merge_before_lem free).0
          (rw e at (merge_before_lem free).1) (λ q h. merge_before_same q (omega arith))
          (λ q h. merge_before_same q (omega arith)))
