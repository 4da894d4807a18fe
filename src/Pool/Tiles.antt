-- ===== src/Pool/Tiles.antt =====
-- The abstract view of a pool: the blocks that tile it in address order, and which payloads are
-- allocated.
use rtbus.Base.{
  ℕ, ◌+◌, ◌%◌, ◌^◌, ◌≤◌, ◌<◌, ◌≡◌, Bool, true, false, ◌&&◌, ◌||◌, List, [], ◌∷◌, ◌++◌, arith, ◌==◌,
  length, Bool-cases, inl, inr,
}
use rtbus.Pool.{Header, Pool, header_size, mark}

-- A block with its header: `size` counts both.
pub record Block : Type 0 where
  pub busy : Bool
  pub size : ℕ

abbrev pub used : ℕ → Block
used n = record { busy = true; size = n }

abbrev pub hole : ℕ → Block
hole n = record { busy = false; size = n }

-- From address `a` the `next` pointers lead through the blocks to `l`.
abbrev pub Tiles : (ℕ → Header) → ℕ → List Block → ℕ → Type 0
Tiles hdr a [] l = a ≡ l
Tiles hdr a (b ∷ bs) l =
    ((hdr a).busy ≡ b.busy)
    × ((hdr a).next ≡ a + b.size)
    × (8 < b.size)
    × (b.size % 4 ≡ 0)
    × Tiles hdr (a + b.size) bs l

-- `q` is the payload address of an allocated block.
abbrev pub owns : ℕ → List Block → ℕ → Bool
owns a [] q = false
owns a (b ∷ bs) q = (b.busy && (q == a + header_size)) || owns (a + b.size) bs q

-- A pool that `init_mem_pool` has set up, tiled by the blocks `bs`.
pub record IsTiled (p : Pool) (bs : List Block) : Type 0 where
  pub active : p.active ≡ true
  pub based : 0 < p.heap
  pub aligned : p.heap % 4 ≡ 0
  pub room : mark p ≤ p.top
  pub small : p.top < 2 ^ 32
  pub tiles : Tiles p.hdr p.heap bs (mark p)

abbrev pub SameFrom : ℕ → (ℕ → Header) → (ℕ → Header) → Type 0
SameFrom a f g = (q : ℕ) → a ≤ q → g q ≡ f q

abbrev pub SameBelow : ℕ → (ℕ → Header) → (ℕ → Header) → Type 0
SameBelow a f g = (q : ℕ) → q < a → g q ≡ f q

pub Tiles-le :
    (f : ℕ → Header) (a : ℕ) (bs : List Block) (l : ℕ) → Tiles f a bs l → a + length bs ≤ l
Tiles-le f a [] l t = omega arith
Tiles-le f a (b ∷ bs) l t = omega (arith, Tiles-le f (a + b.size) bs l t.4)

-- Blocks depend on nothing but the headers from their address on.
pub Tiles-frame :
    (f g : ℕ → Header) (a : ℕ) (bs : List Block) (l : ℕ)
    → SameFrom a f g
    → Tiles f a bs l
    → Tiles g a bs l
Tiles-frame f g a [] l same t = t
Tiles-frame f g a (b ∷ bs) l same t = (
  rw (same a (omega arith)) t.0,
  rw (same a (omega arith)) t.1,
  t.2,
  t.3,
  Tiles-frame f g (a + b.size) bs l (λ q h. same q (omega arith)) t.4,
)

-- and on nothing from their end on.
pub Tiles-below :
    (f g : ℕ → Header) (a : ℕ) (bs : List Block) (l : ℕ)
    → SameBelow l f g
    → Tiles f a bs l
    → Tiles g a bs l
Tiles-below f g a [] l same t = t
Tiles-below f g a (b ∷ bs) l same t =
    let low : a < l = omega (arith, Tiles-le f (a + b.size) bs l t.4) in
    (rw (same a low) t.0, rw (same a low) t.1, t.2, t.3, Tiles-below f g (a + b.size) bs l same t.4)

-- What a run of blocks owns lies at or above its first payload.
pub owns-lt :
    (f : ℕ → Header) (a : ℕ) (bs : List Block) (l q : ℕ)
    → Tiles f a bs l
    → owns a bs q ≡ true
    → (a + header_size ≤ q) × (q < l)
owns-lt f a [] l q t h = absurd (ground arith)
owns-lt f a (b ∷ bs) l q t h =
    ground (arith, owns-lt f (a + b.size) bs l q t.4, Tiles-le f (a + b.size) bs l t.4)

pub not-owns_below :
    (f : ℕ → Header) (a : ℕ) (bs : List Block) (l q : ℕ)
    → Tiles f a bs l
    → q < a + header_size
    → owns a bs q ≡ false
not-owns_below f a bs l q t h = elim (Bool-cases (owns a bs q)) [
  | inl e ↦ absurd (omega (arith, owns-lt f a bs l q t e))
  | inr e ↦ e
]

pub owns-append :
    (a : ℕ) (bs cs : List Block) (q : ℕ) (e : ℕ) (f : ℕ → Header)
    → Tiles f a bs e
    → owns a (bs ++ cs) q ≡ (owns a bs q || owns e cs q)
owns-append a [] cs q e f t = rw t
owns-append a (b ∷ bs) cs q e f t = ground (arith, owns-append (a + b.size) bs cs q e f t.4)

pub Tiles-append :
    (f : ℕ → Header) (a : ℕ) (bs cs : List Block) (m l : ℕ)
    → Tiles f a bs m
    → Tiles f m cs l
    → Tiles f a (bs ++ cs) l
Tiles-append f a [] cs m l t u = rw t u
Tiles-append f a (b ∷ bs) cs m l t u =
    (t.0, t.1, t.2, t.3, Tiles-append f (a + b.size) bs cs m l t.4 u)

-- Every block of the pool is a multiple of 4 bytes long, so their ends keep the alignment.
pub Tiles-mod :
    (f : ℕ → Header) (a : ℕ) (bs : List Block) (l : ℕ) → Tiles f a bs l → a % 4 ≡ 0 → l % 4 ≡ 0
Tiles-mod f a [] l t h = omega arith
Tiles-mod f a (b ∷ bs) l t h = Tiles-mod f (a + b.size) bs l t.4 (omega arith)
