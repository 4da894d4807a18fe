-- ===== src/Serial/Reads.antt =====
-- What is read from a port is what it received: the ring keeps the newest bytes, in order.
use mathlib.Core.List.{append-nil, append_assoc}
use rtbus.Base.{
  ℕ, zero, suc, ◌+◌, ◌-◌, ◌≤◌, ◌≡◌, ◌∙◌, refl, sym, ap, inl, inr, true, false, ◌||◌, List, [], ◌∷◌,
  ◌++◌, none, some, arith, length, take, drop, length-append, length-drop, Bool-cases,
}
use rtbus.Serial.{Ring, rx_put, rx_get}
use rtbus.Serial.Lines.{put_all}
use rtbus.Serial.Queue.{
  IsValid, contents, count, count_inside, newest_within, length-window, newest, first,
  rx_put-IsValid, rx_put-contents, rx_get-IsValid, rx_get-contents,
}
use rtbus.Serial.Ports.{Port, read_from}

drop-append : (n : ℕ) (xs ys : List ℕ) → n ≤ length xs → drop n (xs ++ ys) ≡ drop n xs ++ ys
drop-append zero xs ys l = refl
drop-append (suc n) [] ys l = elim l [ ]
drop-append (suc n) (x ∷ xs) ys l = drop-append n xs ys (omega arith)

drop-nil : (n : ℕ) → drop {A = ℕ} n [] ≡ []
drop-nil zero = refl
drop-nil (suc n) = refl

suc_add : (n m : ℕ) → suc (n + m) ≡ suc n + m
suc_add n m = omega arith

drop-drop : (m n : ℕ) (xs : List ℕ) → drop m (drop n xs) ≡ drop (n + m) xs
drop-drop m zero xs = ap (λ k. drop k xs) (omega arith)
drop-drop m (suc n) [] = drop-nil m ∙ sym (drop-nil (suc n + m))
drop-drop m (suc n) (x ∷ xs) = drop-drop m n xs ∙ ap (λ k. drop k (x ∷ xs)) (suc_add n m)

-- Dropping early what would be dropped later changes nothing.
newest-append : (n : ℕ) (xs ys : List ℕ) → newest n (newest n xs ++ ys) ≡ newest n (xs ++ ys)
newest-append n xs ys =
    let k = length xs - n in
    let m = length (drop k xs ++ ys) - n in
    let total : k + m ≡ length (xs ++ ys) - n =
      omega (arith, length-append (drop k xs) ys, length-append xs ys, length-drop k xs) in
    ap (drop m) (sym (drop-append k xs ys (omega arith)))
    ∙ drop-drop m k (xs ++ ys)
    ∙ ap (λ j. drop j (xs ++ ys)) total

module _ {size : ℕ} where
  pub put_all-IsValid :
      (bytes : List ℕ) (r : Ring) → IsValid size r → IsValid size (put_all size r bytes)
  unfolding put_all
  put_all-IsValid [] r v = v
  put_all-IsValid (byte ∷ bytes) r v =
      put_all-IsValid bytes (rx_put size r byte) (rx_put-IsValid v byte)

  length-contents : (r : Ring) → IsValid size r → length (contents size r) ≤ size - 1
  length-contents r v =
      omega (arith, count_inside v, length-window r.rx_buffer size r.rx_tail (count size r))

  -- A ring that takes bytes keeps the newest of all, one fewer than its size.
  pub put_all-contents :
      (bytes : List ℕ) (r : Ring)
      → IsValid size r
      → contents size (put_all size r bytes) ≡ newest (size - 1) (contents size r ++ bytes)
  unfolding put_all
  put_all-contents [] r v = sym (
      ap (newest (size - 1)) (append-nil (contents size r))
      ∙ newest_within (size - 1) (contents size r) (length-contents r v))
  put_all-contents (byte ∷ bytes) r v =
      put_all-contents bytes (rx_put size r byte) (rx_put-IsValid v byte)
      ∙ ap (λ z. newest (size - 1) (z ++ bytes)) (rx_put-contents v byte)
      ∙ newest-append (size - 1) (contents size r ++ byte ∷ []) bytes
      ∙ ap (newest (size - 1)) (append_assoc (contents size r) (byte ∷ []) bytes)

module _ (size : ℕ) where
  pub read_from-none :
      (n : ℕ) (p : Port) (polled : List ℕ)
      → (rx_get size p.ring).0 ≡ none
      → (p.is_cdc || p.rx_ready) ≡ true
      → read_from size (suc n) p polled ≡ ([], p)
  unfolding read_from
  read_from-none n p polled got e = rw (read_from, got, e) refl

  pub read_from-empty :
      (n : ℕ) (p : Port) → (rx_get size p.ring).0 ≡ none → read_from size (suc n) p [] ≡ ([], p)
  unfolding read_from
  read_from-empty n p got = elim (Bool-cases (p.is_cdc || p.rx_ready)) [
    | inl y ↦ rw (read_from, got, y) refl
    | inr no_irq ↦ rw (read_from, got, no_irq) refl
  ]

  pub read_from-polled :
      (n : ℕ) (p : Port) (byte : ℕ) (polled : List ℕ)
      → (rx_get size p.ring).0 ≡ none
      → (p.is_cdc || p.rx_ready) ≡ false
      → let rest = read_from size n p polled in
        read_from size (suc n) p (byte ∷ polled) ≡ (byte ∷ rest.0, rest.1)
  unfolding read_from
  read_from-polled n p byte polled got e = rw (read_from, got, e) refl

  pub read_from-some :
      (n : ℕ) (p : Port) (polled : List ℕ) (byte : ℕ)
      → (rx_get size p.ring).0 ≡ some byte
      → let rest = read_from size n (record p { ring = (rx_get size p.ring).1 }) polled in
        read_from size (suc n) p polled ≡ (byte ∷ rest.0, rest.1)
  unfolding read_from
  read_from-some n p polled byte got = rw (read_from, got) refl

  -- The loop of `read` gives the oldest bytes of the ring, and leaves the others.
  pub read_from-contents :
      (n : ℕ) (p : Port) (polled : List ℕ)
      → IsValid size p.ring
      → (p.is_cdc || p.rx_ready) ≡ true
      → ((read_from size n p polled).0 ≡ take n (contents size p.ring))
        × (contents size (read_from size n p polled).1.ring ≡ drop n (contents size p.ring))
  unfolding read_from
  read_from-contents zero p polled v e = (refl, refl)
  read_from-contents (suc n) p polled v e =
      step (contents size p.ring) refl (rx_get-contents v).0 (rx_get-contents v).1 (
        read_from-contents n (record p { ring = (rx_get size p.ring).1 }) polled (rx_get-IsValid v)
          e)
    where
      p' : Port
      p' = record p { ring = (rx_get size p.ring).1 }

      step :
          (c : List ℕ)
          → contents size p.ring ≡ c
          → (rx_get size p.ring).0 ≡ first (contents size p.ring)
          → contents size (rx_get size p.ring).1 ≡ drop 1 (contents size p.ring)
          → (((read_from size n p' polled).0 ≡ take n (contents size (rx_get size p.ring).1))
              × (contents size (read_from size n p' polled).1.ring
                  ≡ drop n (contents size (rx_get size p.ring).1)))
          → ((read_from size (suc n) p polled).0 ≡ take (suc n) (contents size p.ring))
            × (contents size (read_from size (suc n) p polled).1.ring
                ≡ drop (suc n) (contents size p.ring))
      step [] k got left ih =
          let none_got : (rx_get size p.ring).0 ≡ none = got ∙ ap first k in
          let all = read_from-none n p polled none_got e in (rw (all, k) refl, rw (all, k) refl)
      step (byte ∷ bytes) k got left ih =
          let some_got : (rx_get size p.ring).0 ≡ some byte = got ∙ ap first k in
          let rest : contents size (rx_get size p.ring).1 ≡ bytes = left ∙ ap (drop 1) k in
          let all = read_from-some n p polled byte some_got in
          (
            rw (all, k) (ap (λ z. byte ∷ z) (ih.0 ∙ ap (take n) rest)),
            rw (all, k) (ih.1 ∙ ap (drop n) rest),
          )
