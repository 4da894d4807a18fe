-- ===== src/Sender/Metadata.antt =====
-- The first packet of the sender: the receiver reads the size of the file from it.
use mathlib.Core.Path.{subst}
use mathlib.Core.List.{append_assoc}
use rtbus.Base.{
  ℕ, zero, suc, ◌+◌, ◌<◌, ◌^◌, ◌-◌, ◌≤◌, ◌≡◌, refl, ap, Bool, true, false, ◌||◌, List, [], ◌∷◌,
  ◌++◌, arith, ◌==◌, if◌then◌else◌, length, take, min, get_or, replicate, length-append,
  length-replicate, length-take, take-append, ◌∙◌,
}
use rtbus.Ymodem.{after_name, parse_file_size}
use rtbus.Sender.{first_packet, block_packet, base_name, base_from}

-- No character is the zero byte.
pub data HasNoZero : List ℕ → Type 0 where
  none_yet : HasNoZero []
  one_more : {c : ℕ} {text : List ℕ} → (c == 0) ≡ false → HasNoZero text → HasNoZero (c ∷ text)

-- What `%lu` and strtoul promise of a number that fits into an unsigned long of 32 bits: printed, it starts with a digit, and strtoul reads it
-- back where a zero byte follows.
pub record IsPrinted (print_ulong : ℕ → List ℕ) (strtoul : List ℕ → ℕ) : Type 0 where
  pub digit :
      (n k : ℕ) → n < 2 ^ 32 → (get_or (print_ulong n ++ replicate (suc k) 0) 0 0 == 0) ≡ false
  pub read_back : (n k : ℕ) → n < 2 ^ 32 → strtoul (print_ulong n ++ replicate (suc k) 0) ≡ n

base_from-HasNoZero :
    (last path : List ℕ) → HasNoZero last → HasNoZero path → HasNoZero (base_from last path)
unfolding base_from
base_from-HasNoZero last [] l p = l
base_from-HasNoZero last (c ∷ path) l (one_more z p) =
    either ((c == 47) || (c == 92)) (base_from-HasNoZero path path p p)
      (base_from-HasNoZero last path l p)
  where
    either :
        (slash : Bool)
        → HasNoZero (base_from path path)
        → HasNoZero (base_from last path)
        → HasNoZero (if slash then base_from path path else base_from last path)
    either true h k = h
    either false h k = k

base_name-HasNoZero : (path : List ℕ) → HasNoZero path → HasNoZero (base_name path)
unfolding base_name
base_name-HasNoZero path p = base_from-HasNoZero path path p p

take_all : (n : ℕ) (xs : List ℕ) → length xs ≤ n → take n xs ≡ xs
take_all zero [] h = refl
take_all (suc n) [] h = refl
take_all zero (x ∷ xs) h = absurd (omega (arith, h))
take_all (suc n) (x ∷ xs) h = ap (λ ys. x ∷ ys) (take_all n xs (omega (arith, h)))

after_name-HasNoZero :
    (name rest : List ℕ) → HasNoZero name → after_name (name ++ (0 ∷ rest)) ≡ rest
unfolding after_name
after_name-HasNoZero [] rest h = refl
after_name-HasNoZero (c ∷ name) rest (one_more z h) = rw z (after_name-HasNoZero name rest h)

module _ (print_ulong : ℕ → List ℕ) (path : List ℕ) (size : ℕ)
    (fits : length (base_name path) + length (print_ulong size) ≤ 126) where
  text_fits : length (base_name path ++ 0 ∷ print_ulong size) ≤ 127
  text_fits = omega (arith, length-append (base_name path) (0 ∷ print_ulong size), fits)

  first_packet_whole :
      first_packet print_ulong path size
      ≡ base_name path
        ++ (0
            ∷ (print_ulong size
                ++ replicate (suc (127 - length (base_name path ++ 0 ∷ print_ulong size))) 0))
  unfolding first_packet
  first_packet_whole =
      let text = base_name path ++ 0 ∷ print_ulong size in
      let left : 128 - length text ≡ suc (127 - length text) = omega (arith, text_fits) in
      ap (λ t. t ++ replicate (128 - length t) 0) (take_all 127 text text_fits)
      ∙ ap (λ (n : ℕ). text ++ replicate n 0) left
      ∙ append_assoc (base_name path) (0 ∷ print_ulong size) (replicate (suc (127 - length text)) 0)

  pub length-first_packet : length (first_packet print_ulong path size) ≡ 128
  unfolding first_packet
  length-first_packet =
      let text = take 127 (base_name path ++ 0 ∷ print_ulong size) in
      omega (
        arith,
        length-append text (replicate (128 - length text) 0),
        length-replicate {A = ℕ} (128 - length text) 0,
        length-take 127 (base_name path ++ 0 ∷ print_ulong size),
      )

  pub parse_file_size-first_packet :
      (strtoul : List ℕ → ℕ)
      → IsPrinted print_ulong strtoul
      → HasNoZero path
      → size < 2 ^ 32
      → parse_file_size strtoul (first_packet print_ulong path size) ≡ size
  unfolding parse_file_size
  parse_file_size-first_packet strtoul laws named small =
      let k = 127 - length (base_name path ++ 0 ∷ print_ulong size) in
      let digits = print_ulong size ++ replicate (suc k) 0 in
      ap (λ t. if get_or (after_name t) 0 0 == 0 then 0 else strtoul (after_name t))
        first_packet_whole
      ∙ ap (λ t. if get_or t 0 0 == 0 then 0 else strtoul t)
          (after_name-HasNoZero (base_name path) digits (base_name-HasNoZero path named))
      ∙ ap (λ b. if b then 0 else strtoul digits) (laws.digit size k small)
      ∙ laws.read_back size k small

-- A block has 1024 bytes, and begins with as many of the bytes as there are.
pub length-block_packet : (rest : List ℕ) → length (block_packet rest) ≡ 1024
unfolding block_packet
length-block_packet rest = omega (
  arith,
  length-append (take 1024 rest) (replicate (1024 - length (take 1024 rest)) 26),
  length-replicate {A = ℕ} (1024 - length (take 1024 rest)) 26,
  length-take 1024 rest,
)

pub take-block_packet :
    (rest : List ℕ) → take (min 1024 (length rest)) (block_packet rest) ≡ take 1024 rest
unfolding block_packet
take-block_packet rest =
    subst (λ (n : ℕ). take n (block_packet rest) ≡ take 1024 rest) (length-take 1024 rest)
      (take-append (take 1024 rest) (replicate (1024 - length (take 1024 rest)) 26))
