-- ===== src/LinkList/Chain.antt =====
-- The list of nodes that a head leads to.
use rtbus.Base.{
  ℕ, ◌<◌, ◌≡◌, refl, ap, inl, inr, Bool, true, false, ◌||◌, List, [], ◌∷◌, ◌++◌, arith, ◌==◌,
  Bool-cases,
}
use rtbus.LinkList.{set_next}

abbrev pub mem : ℕ → List ℕ → Bool
mem q [] = false
mem q (x ∷ xs) = (q == x) || mem q xs

abbrev pub Distinct : List ℕ → Type 0
Distinct [] = Unit
Distinct (x ∷ xs) = (mem x xs ≡ false) × Distinct xs

-- From `p` the `next` pointers lead through the nodes `xs` to NULL.
abbrev pub Chain : (ℕ → ℕ) → ℕ → List ℕ → Type 0
Chain next p [] = p ≡ 0
Chain next p (x ∷ xs) = (p ≡ x) × (0 < x) × Chain next (next x) xs

-- A chain depends on nothing but the pointers of its nodes.
pub Chain-frame :
    (f g : ℕ → ℕ) (p : ℕ) (xs : List ℕ)
    → ((q : ℕ) → mem q xs ≡ true → g q ≡ f q)
    → Chain f p xs
    → Chain g p xs
Chain-frame f g p [] same c = c
Chain-frame f g p (x ∷ xs) same c =
    let here : g x ≡ f x = same x (ground arith) in
    (c.0, c.1, rw here (Chain-frame f g (f x) xs (λ q h. same q (ground arith)) c.2))

pub Chain-set_next :
    (f : ℕ → ℕ) (p a v : ℕ) (xs : List ℕ)
    → mem a xs ≡ false
    → Chain f p xs
    → Chain (set_next f a v) p xs
Chain-set_next f p a v xs out c = Chain-frame f (set_next f a v) p xs (λ q h. differ q h) c
  where
    differ : (q : ℕ) → mem q xs ≡ true → set_next f a v q ≡ f q
    differ q h = elim (Bool-cases (q == a)) [
      | inl e ↦
          let same : q ≡ a = ground arith in absurd (ground (arith, ap (λ (z : ℕ). mem z xs) same))
      | inr e ↦ rw e
    ]

pub mem-append : (q : ℕ) (xs ys : List ℕ) → mem q (xs ++ ys) ≡ (mem q xs || mem q ys)
mem-append q [] ys = refl
mem-append q (x ∷ xs) ys = ground (arith, mem-append q xs ys)

pub Distinct-append :
    (xs : List ℕ) (y : ℕ) → Distinct xs → mem y xs ≡ false → Distinct (xs ++ y ∷ [])
Distinct-append [] y d h = (refl, tt)
Distinct-append (x ∷ xs) y d h =
    (ground (arith, mem-append x xs (y ∷ [])), Distinct-append xs y d.1 (ground arith))

-- Two heads that are equal lead to the same nodes.
pub Chain-pos : (f : ℕ → ℕ) (p q : ℕ) (xs : List ℕ) → Chain f p xs → mem q xs ≡ true → 0 < q
Chain-pos f p q [] c h = absurd (ground arith)
Chain-pos f p q (x ∷ xs) c h = ground (arith, Chain-pos f (f x) q xs c.2)
