-- ===== src/Serial/Queue.antt =====
-- The receive ring of a port as the queue of the bytes that it holds: what `rx_put`, `rx_get` and
-- `rx_clear` do to that queue.
use rtbus.Base.{
  ℕ, zero, suc, ◌+◌, ◌-◌, ◌%◌, ◌<◌, ◌≤◌, ◌≡◌, ◌≢◌, ◌⊎◌, inl, inr, refl, ap, true, false, List, [],
  ◌∷◌, ◌++◌, Option, none, some, arith, leb, ◌==◌, if◌then◌else◌, length, get_or, set, drop,
  length-append, length-set, Bool-cases,
}
use native.Mathlib.Nat.{mod-eq_of_lt, mod_self}
use rtbus.Serial.{Ring, rx_put, rx_get, rx_clear}

get_or-set_self : (buffer : List ℕ) (x i : ℕ) → i < length buffer → get_or (set buffer i x) i 0 ≡ x
get_or-set_self [] x i l = elim l [ ]
get_or-set_self (y ∷ buffer) x zero l = refl
get_or-set_self (y ∷ buffer) x (suc i) l = get_or-set_self buffer x i (omega arith)

get_or-set_ne :
    (buffer : List ℕ) (x : ℕ) {i j : ℕ} → i ≢ j → get_or (set buffer i x) j 0 ≡ get_or buffer j 0
get_or-set_ne [] x n = refl
get_or-set_ne (y ∷ buffer) x {i = zero} {j = zero} n = absurd (n refl)
get_or-set_ne (y ∷ buffer) x {i = zero} {j = suc j} n = refl
get_or-set_ne (y ∷ buffer) x {i = suc i} {j = zero} n = refl
get_or-set_ne (y ∷ buffer) x {i = suc i} {j = suc j} n = get_or-set_ne buffer x (λ e. n (ap suc e))

-- The index after `h`, going round at `size`.
abbrev pub next : (size h : ℕ) → ℕ
next size h = if suc h == size then 0 else suc h

next-% : {size h : ℕ} → h < size → (h + 1) % size ≡ next size h
next-% {size} {h} l = ground (arith, mod-eq_of_lt {n = h + 1} {m = size}, mod_self (h + 1))

-- The `n` bytes of a buffer from index `h` on, going round.
abbrev pub window : (buffer : List ℕ) (size h n : ℕ) → List ℕ
window buffer size h zero = []
window buffer size h (suc n) = get_or buffer h 0 ∷ window buffer size (next size h) n

pub length-window : (buffer : List ℕ) (size h n : ℕ) → length (window buffer size h n) ≡ n
length-window buffer size h zero = refl
length-window buffer size h (suc n) = ap suc (length-window buffer size (next size h) n)

-- Index `i` is `n` steps after `h`.
abbrev IsAfter : (size h n i : ℕ) → Type 0
IsAfter size h n i = (i < size) × (h < size) × ((i ≡ h + n) ⊎ (i + size ≡ h + n))

IsAfter-next :
    (size h n i : ℕ) → suc n < size → IsAfter size h (suc n) i → IsAfter size (next size h) n i
IsAfter-next size h n i l a = ground arith

-- Writing just past a window extends it by that byte.
window-set :
    (buffer : List ℕ) (size x n h i : ℕ)
    → length buffer ≡ size
    → n < size
    → IsAfter size h n i
    → window (set buffer i x) size h (suc n) ≡ window buffer size h n ++ x ∷ []
window-set buffer size x zero h i e l a =
    let same : i ≡ h = omega arith in rw (same, get_or-set_self buffer x h (omega arith))
window-set buffer size x (suc n) h i e l a =
    let other : i ≢ h = omega arith in
    rw (
      get_or-set_ne buffer x other,
      window-set buffer size x n (next size h) i e (omega arith) (IsAfter-next size h n i l a),
    )

-- How many bytes a ring holds.
unfoldable pub count : (size : ℕ) → Ring → ℕ
count size r =
    if leb r.rx_tail r.rx_head then r.rx_head - r.rx_tail else r.rx_head + size - r.rx_tail

-- What a ring holds, the oldest byte first.
abbrev pub contents : (size : ℕ) → Ring → List ℕ
contents size r = window r.rx_buffer size r.rx_tail (count size r)

pub record IsValid (size : ℕ) (r : Ring) : Type 0 where
  pub sized : length r.rx_buffer ≡ size
  pub head_inside : r.rx_head < size
  pub tail_inside : r.rx_tail < size

-- The last `n` bytes of a list.
abbrev pub newest : ℕ → List ℕ → List ℕ
newest n bytes = drop (length bytes - n) bytes

module _ {size : ℕ} {r : Ring} (v : IsValid size r) where
  pub rx_put-IsValid : (byte : ℕ) → IsValid size (rx_put size r byte)
  unfolding rx_put
  rx_put-IsValid byte = record {
    sized = ground (arith, v.sized, length-set r.rx_buffer r.rx_head byte);
    head_inside = ground (arith, next-% v.head_inside, v.head_inside);
    tail_inside = ground (arith, next-% v.tail_inside, v.tail_inside);
  }

  pub rx_get-IsValid : IsValid size (rx_get size r).1
  unfolding rx_get
  rx_get-IsValid = record {
    sized = ground (arith, v.sized);
    head_inside = ground (arith, v.head_inside);
    tail_inside = ground (arith, next-% v.tail_inside, v.tail_inside);
  }

  pub rx_clear-IsValid : IsValid size (rx_clear r)
  unfolding rx_clear
  rx_clear-IsValid = record {
    sized = v.sized;
    head_inside = ground (arith, v.head_inside);
    tail_inside = ground (arith, v.head_inside);
  }

pub rx_clear-contents : (size : ℕ) (r : Ring) → contents size (rx_clear r) ≡ []
unfolding rx_clear count
rx_clear-contents size r = refl

-- `rx_get` gives the oldest byte, if there is one, and takes it out.
abbrev pub first : List ℕ → Option ℕ
first [] = none
first (byte ∷ bytes) = some byte

window_first :
    (buffer : List ℕ) (size h n : ℕ)
    → 0 < n
    → window buffer size h n ≡ get_or buffer h 0 ∷ window buffer size (next size h) (n - 1)
window_first buffer size h zero l = elim l [ ]
window_first buffer size h (suc n) l = ap (λ k. window buffer size h (suc k)) (omega arith)

module _ {size : ℕ} {r : Ring} (v : IsValid size r) where
  pub count_inside : count size r < size
  unfolding count
  count_inside = ground (arith, v.head_inside, v.tail_inside)

  head-IsAfter : IsAfter size r.rx_tail (count size r) r.rx_head
  unfolding count
  head-IsAfter = ground (arith, v.head_inside, v.tail_inside)

  -- What the guards of the code see of the count.
  count_of_get :
      (r.rx_tail == r.rx_head) ≡ false
      → (0 < count size r)
        × (count size (record r { rx_tail = next size r.rx_tail }) ≡ count size r - 1)
  unfolding count
  count_of_get n = ground (arith, v.head_inside, v.tail_inside)

  count_of_put :
      (buffer : List ℕ)
      → (next size r.rx_head == r.rx_tail) ≡ false
      → (suc (count size r) < size)
        × (count size (record r { rx_head = next size r.rx_head; rx_buffer = buffer })
            ≡ suc (count size r))
  unfolding count
  count_of_put buffer n = ground (arith, v.head_inside, v.tail_inside)

  count_of_full :
      (buffer : List ℕ)
      → (next size r.rx_head == r.rx_tail) ≡ true
      → (suc (count size r) ≡ size)
        × (count size (record {
          rx_head = next size r.rx_head;
          rx_tail = next size r.rx_tail;
          rx_buffer = buffer;
        })
            ≡ count size r)
  unfolding count
  count_of_full buffer y = ground (arith, v.head_inside, v.tail_inside)

  count_of_none : (r.rx_tail == r.rx_head) ≡ true → count size r ≡ 0
  unfolding count
  count_of_none y = ground arith

  pub rx_get-contents :
      ((rx_get size r).0 ≡ first (contents size r))
      × (contents size (rx_get size r).1 ≡ drop 1 (contents size r))
  unfolding rx_get
  rx_get-contents = elim (Bool-cases (r.rx_tail == r.rx_head)) [
    | inl y ↦ (rw (y, count_of_none y) refl, rw (y, count_of_none y) refl)
    | inr n ↦
        let (some_held, rest) = count_of_get n in
        let held = window_first r.rx_buffer size r.rx_tail (count size r) some_held in
        (rw (n, held) refl, rw (n, held, next-% v.tail_inside, rest) refl)
  ]

-- Writing at the end of a full window and moving on puts the new byte in for the oldest.
window_full :
    (buffer : List ℕ) (size x n h i : ℕ)
    → length buffer ≡ size
    → suc n ≡ size
    → IsAfter size h n i
    → window (set buffer i x) size (next size h) n ≡ drop 1 (window buffer size h n ++ x ∷ [])
window_full buffer size x zero h i e l a = refl
window_full buffer size x (suc n) h i e l a =
    window-set buffer size x n (next size h) i e (omega arith)
      (IsAfter-next size h n i (omega arith) a)

pub newest_within : (n : ℕ) (bytes : List ℕ) → length bytes ≤ n → newest n bytes ≡ bytes
newest_within n bytes l = let all : length bytes - n ≡ 0 = omega arith in rw all

newest_over : (n : ℕ) (bytes : List ℕ) → length bytes ≡ suc n → newest n bytes ≡ drop 1 bytes
newest_over n bytes l = let over : length bytes - n ≡ 1 = omega arith in rw over

length-contents_put :
    (size : ℕ) (r : Ring) (byte : ℕ) → length (contents size r ++ byte ∷ []) ≡ suc (count size r)
length-contents_put size r byte = omega (
  arith,
  length-append (contents size r) (byte ∷ []),
  length-window r.rx_buffer size r.rx_tail (count size r),
)

-- `rx_put` appends a byte; a ring that is full loses its oldest.
module _ {size : ℕ} {r : Ring} (v : IsValid size r) where
  pub rx_put-contents :
      (byte : ℕ)
      → contents size (rx_put size r byte) ≡ newest (size - 1) (contents size r ++ byte ∷ [])
  unfolding rx_put
  rx_put-contents byte = elim (Bool-cases (next size r.rx_head == r.rx_tail)) [
    | inl y ↦
        let (all, same) = count_of_full v (set r.rx_buffer r.rx_head byte) y in
        rw
          (
            next-% v.head_inside,
            next-% v.tail_inside,
            y,
            same,
            newest_over (size - 1) (contents size r ++ byte ∷ [])
                (omega (arith, length-contents_put size r byte)),
          )
          (window_full r.rx_buffer size byte (count size r) r.rx_tail r.rx_head v.sized all
            (head-IsAfter v))
    | inr n ↦
        let (room, more) = count_of_put v (set r.rx_buffer r.rx_head byte) n in
        rw
          (
            next-% v.head_inside,
            n,
            more,
            newest_within (size - 1) (contents size r ++ byte ∷ [])
                (omega (arith, length-contents_put size r byte)),
          )
          (window-set r.rx_buffer size byte (count size r) r.rx_tail r.rx_head v.sized
            (count_inside v) (head-IsAfter v))
  ]
