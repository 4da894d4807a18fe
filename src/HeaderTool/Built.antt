-- ===== src/HeaderTool/Built.antt =====
-- The image store reads from a header what the tool has put into it.
use mathlib.Core.Path.{subst}
use rtbus.Base.{
  ℕ, zero, suc, ◌+◌, ◌-◌, ◌%◌, ◌^◌, ◌≤◌, ◌<◌, ◌≡◌, refl, sym, ap, true, List, [], ◌∷◌, ◌++◌, arith,
  leb, if◌then◌else◌, length, take, drop, replicate, length-append, length-replicate, length-take,
  take-append, ◌∙◌,
}
use rtbus.Base.Word.{u8}
use rtbus.Ymodem.Frame.{get_behind}
use rtbus.Image.Header.{ImageHeader, decode, is_valid, le32, image_magic}
use rtbus.HeaderTool.Crc.{crc32_update-IsCrc}
use rtbus.HeaderTool.{
  Symbols, component_file, crc32_update, put_le32, put_fixed_string, native_flags, reserved_bytes,
  build_header,
}

put_le32-le32 : (x : ℕ) (rest : List ℕ) → x < 4294967296 → le32 (put_le32 x ++ rest) 0 ≡ x
put_le32-le32 x rest small = omega (arith, small)

length-put_fixed_string :
    (size : ℕ) (value : List ℕ) → 0 < size → length (put_fixed_string size value) ≡ size
unfolding put_fixed_string
length-put_fixed_string size value pos =
    let len = if leb size (length value) then size - 1 else length value in
    let short : len ≤ size = ground arith in
    let enough : len ≤ length value = ground arith in
    omega (
      arith,
      length-append (take len value) (replicate (size - len) 0),
      length-take len value,
      length-replicate {A = ℕ} (size - len) 0,
      short,
      enough,
      pos,
    )

le32_behind : (xs ys : List ℕ) (i j : ℕ) → j ≡ length xs + i → le32 (xs ++ ys) j ≡ le32 ys i
le32_behind xs ys i j e =
    rw
      (
        get_behind xs ys i j e,
        get_behind xs ys (i + 1) (j + 1) (omega (arith, e)),
        get_behind xs ys (i + 2) (j + 2) (omega (arith, e)),
        get_behind xs ys (i + 3) (j + 3) (omega (arith, e)),
      )
      refl

drop_behind : (xs ys : List ℕ) (i j : ℕ) → j ≡ length xs + i → drop j (xs ++ ys) ≡ drop i ys
drop_behind [] ys i j e = ap (λ (z : ℕ). drop z ys) (omega (arith, e))
drop_behind (x ∷ xs) ys i zero e = absurd (omega (arith, e))
drop_behind (x ∷ xs) ys i (suc j) e = drop_behind xs ys i j (omega (arith, e))

take_whole : (xs : List ℕ) → take (length xs) xs ≡ xs
take_whole [] = refl
take_whole (x ∷ xs) = ap (λ ys. x ∷ ys) (take_whole xs)

take_front : (xs ys : List ℕ) (n : ℕ) → length xs ≡ n → take n (xs ++ ys) ≡ xs
take_front xs ys n e = subst (λ (k : ℕ). take k (xs ++ ys) ≡ xs) e (take-append xs ys)

module _ (api_version : ℕ) (s : Symbols) (name version : List ℕ)
    (ram_size payload_size payload_crc : ℕ) where
  -- The header that the store is to see.
  abbrev pub built : ImageHeader
  built = record {
    magic = image_magic;
    version_number = 2;
    size = 128;
    payload_size = payload_size;
    payload_crc32 = payload_crc;
    version = put_fixed_string 16 version;
    name = put_fixed_string 64 name;
    required_ram_size = ram_size;
    flags = native_flags api_version;
    reserved = reserved_bytes s;
  }

  abbrev front : List ℕ
  front =
      put_le32 1464222541
      ++ (u8 2 ∷ 0 ∷ u8 128 ∷ 0 ∷ (put_le32 payload_size ++ put_le32 payload_crc))

  abbrev back : List ℕ
  back = put_le32 ram_size ++ (put_le32 (native_flags api_version) ++ reserved_bytes s)

  abbrev names : List ℕ
  names = put_fixed_string 16 version ++ (put_fixed_string 64 name ++ back)

  build_header_parts :
      build_header api_version s name version ram_size payload_size payload_crc ≡ front ++ names
  unfolding build_header
  build_header_parts = refl

  length-version : length (put_fixed_string 16 version) ≡ 16
  length-version = length-put_fixed_string 16 version (ground arith)

  length-name : length (put_fixed_string 64 name) ≡ 64
  length-name = length-put_fixed_string 64 name (ground arith)

  back_at : (i j : ℕ) → j ≡ 96 + i → le32 (front ++ names) j ≡ le32 back i
  back_at i j e =
      le32_behind front names (80 + i) j (omega (arith, e))
      ∙ le32_behind (put_fixed_string 16 version) (put_fixed_string 64 name ++ back) (64 + i)
          (80 + i) (omega (arith, length-version))
      ∙ le32_behind (put_fixed_string 64 name) back i (64 + i) (omega (arith, length-name))

  version_back : take 16 (drop 16 (front ++ names)) ≡ put_fixed_string 16 version
  version_back =
      ap (λ z. take 16 z) (drop_behind front names 0 16 refl)
      ∙ take_front (put_fixed_string 16 version) (put_fixed_string 64 name ++ back) 16
          length-version

  name_back : take 64 (drop 32 (front ++ names)) ≡ put_fixed_string 64 name
  name_back =
      ap (λ z. take 64 z)
        (drop_behind front names 16 32 refl
          ∙ drop_behind (put_fixed_string 16 version) (put_fixed_string 64 name ++ back) 0 16
              (omega (arith, length-version)))
      ∙ take_front (put_fixed_string 64 name) back 64 length-name

  reserved_back : take 24 (drop 104 (front ++ names)) ≡ reserved_bytes s
  reserved_back =
      ap (λ z. take 24 z)
        (drop_behind front names 88 104 refl
          ∙ drop_behind (put_fixed_string 16 version) (put_fixed_string 64 name ++ back) 72 88
              (omega (arith, length-version))
          ∙ drop_behind (put_fixed_string 64 name) back 8 72 (omega (arith, length-name)))

  -- What the tool puts into a header is what the store reads from it, for sizes and a CRC of 32 bits.
  pub decode-build_header :
      payload_size < 2 ^ 32
      → payload_crc < 2 ^ 32
      → ram_size < 2 ^ 32
      → decode (build_header api_version s name version ram_size payload_size payload_crc) ≡ built
  unfolding decode
  decode-build_header sized summed ram = ap decode build_header_parts ∙ λ i. record {
    magic = image_magic;
    version_number = 2;
    size = 128;
    payload_size = put_le32-le32 payload_size (put_le32 payload_crc ++ names) sized i;
    payload_crc32 = put_le32-le32 payload_crc names summed i;
    version = version_back i;
    name = name_back i;
    required_ram_size =
        (back_at 0 96 refl
            ∙ put_le32-le32 ram_size (put_le32 (native_flags api_version) ++ reserved_bytes s) ram)
          i;
    flags =
        (back_at 4 100 refl
            ∙ put_le32-le32 (native_flags api_version) (reserved_bytes s) (omega arith))
          i;
    reserved = reserved_back i;
  }

  length-build_header :
      length (build_header api_version s name version ram_size payload_size payload_crc) ≡ 128
  length-build_header =
      ap length build_header_parts
      ∙ omega (
        arith,
        length-append front names,
        length-append (put_fixed_string 16 version) (put_fixed_string 64 name ++ back),
        length-append (put_fixed_string 64 name) back,
        length-version,
        length-name,
      )

built-is_valid :
    (api_version : ℕ) (s : Symbols) (name version : List ℕ)
    (ram_size payload_size payload_crc capacity : ℕ)
    → 0 < payload_size
    → payload_size ≤ capacity
    → is_valid (built api_version s name version ram_size payload_size payload_crc) capacity ≡ true
unfolding is_valid
built-is_valid api_version s name version ram_size payload_size payload_crc capacity some_bytes
      fits =
    ground arith

-- What the store asks of the bytes that it received.
pub record IsAccepted (c : List ℕ) (ram_size : ℕ) : Type 0 where
  pub valid : is_valid (decode (take 128 c)) (length c - 128) ≡ true
  pub intact :
      crc32_update 0 (take (decode (take 128 c)).payload_size (drop 128 c))
      ≡ (decode (take 128 c)).payload_crc32
  pub required : (decode (take 128 c)).required_ram_size ≡ ram_size

pub component_file-IsAccepted :
    (api_version : ℕ) (s : Symbols) (name version : List ℕ) (ram_size : ℕ) (payload : List ℕ)
    → 0 < length payload
    → length payload < 2 ^ 32
    → ram_size < 2 ^ 32
    → IsAccepted (component_file api_version s name version ram_size payload) ram_size
unfolding component_file
component_file-IsAccepted api_version s name version ram_size payload some_bytes sized ram =
    let size = length payload % 2 ^ 32 in
    let whole : size ≡ length payload = ground (arith, sized) in
    let crc = crc32_update 0 payload in
    let head = build_header api_version s name version ram_size size crc in
    let long : length head ≡ 128 =
      length-build_header api_version s name version ram_size size crc in
    let front_is : take 128 (head ++ payload) ≡ head = take_front head payload 128 long in
    let rest_is : drop 128 (head ++ payload) ≡ payload =
      drop_behind head payload 0 128 (omega (arith, long)) in
    let seen : decode (take 128 (head ++ payload))
        ≡ built api_version s name version ram_size size crc =
      ap decode front_is
      ∙ decode-build_header api_version s name version ram_size size crc
          (omega (arith, whole, sized)) (crc32_update-IsCrc.small 0 payload) ram in
    record {
      valid =
          subst (λ h. is_valid h (length (head ++ payload) - 128) ≡ true) (sym seen)
            (built-is_valid api_version s name version ram_size size crc
              (length (head ++ payload) - 128) (omega (arith, whole, some_bytes))
              (omega (arith, length-append head payload, long, whole)));
      intact =
          ap (λ h. crc32_update 0 (take h.payload_size (drop 128 (head ++ payload)))) seen
          ∙ ap (λ z. crc32_update 0 (take size z)) rest_is
          ∙ ap (λ z. crc32_update 0 z) (ap (λ (n : ℕ). take n payload) whole ∙ take_whole payload)
          ∙ ap (λ h. h.payload_crc32) (sym seen);
      required = ap (λ h. h.required_ram_size) seen;
    }
