-- ===== src/Native/Load.antt =====
-- Where the loader writes.
use rtbus.Base.{
  ℕ, ◌+◌, ◌^◌, ◌≤◌, ◌<◌, ◌≡◌, refl, inl, inr, ◌⊎◌, true, List, arith, ◌==◌, length, Bool-cases, ◌∙◌,
}
use rtbus.Base.Rc.{is_ok, Rc, ok, err}
use rtbus.Native.{
  Status, Metadata, Image, Board, Service, native_validate_metadata, copy, clear, fail, finish_load,
  load_payload, native_load,
}

-- The memory outside the range that the board gives to the application.
abbrev pub Outside : Board → ℕ → Type 0
Outside board a = (a < board.ram_base) ⊎ (board.ram_base + board.ram_size ≤ a)

-- The data and the zeroed part lie in that range.
pub record IsPlaced (board : Board) (m : Metadata) : Type 0 where
  pub loaded : m.data_ram_offset + m.data_size ≤ board.ram_size
  pub zeroed : m.bss_ram_offset + m.bss_size ≤ board.ram_size

validate-IsPlaced :
    (board : Board) (status : Status) (m : Metadata)
    → board.ram_size < 2 ^ 32
    → is_ok (native_validate_metadata board status m) ≡ true
    → IsPlaced board m
unfolding native_validate_metadata
validate-IsPlaced board status m small h = record { loaded = ground arith; zeroed = ground arith }

module _ (board : Board) (image : Image) (s : Service) (small : board.ram_size < 2 ^ 32)
    (short : (o n : ℕ) → length (image.read_payload o n).1 ≤ n) (a : ℕ)
    (out : Outside board a) where
  -- The byte at `a` is as it was.
  abbrev Same : Rc × Service → Type 0
  Same o = o.1.ram a ≡ s.ram a

  copy_outside :
      (m : Metadata) (bytes : List ℕ)
      → IsPlaced board m
      → length bytes ≤ m.data_size
      → copy s.ram (board.ram_base + m.data_ram_offset) bytes a ≡ s.ram a
  copy_outside m bytes v fits = elim out [
    | inl low ↦ ground (arith, v.loaded)
    | inr high ↦ ground (arith, v.loaded)
  ]

  clear_outside :
      (m : Metadata) (ram : ℕ → ℕ)
      → IsPlaced board m
      → clear ram (board.ram_base + m.bss_ram_offset) m.bss_size a ≡ ram a
  clear_outside m ram v = elim out [
    | inl low ↦ ground (arith, v.zeroed)
    | inr high ↦ ground (arith, v.zeroed)
  ]

  finish_load_outside :
      (m : Metadata) (bytes : List ℕ)
      → IsPlaced board m
      → length bytes ≤ m.data_size
      → (finish_load board s m bytes).1.ram a ≡ s.ram a
  unfolding finish_load
  finish_load_outside m bytes v fits = elim (Bool-cases (length bytes == m.data_size)) [
    | inl y ↦ rw y (
        clear_outside m (copy s.ram (board.ram_base + m.data_ram_offset) bytes) v
        ∙ copy_outside m bytes v fits)
    | inr n ↦ rw n (copy_outside m bytes v fits)
  ]

  load_payload_outside :
      (m : Metadata) → IsPlaced board m → (load_payload board image s m).1.ram a ≡ s.ram a
  unfolding load_payload
  load_payload_outside m v =
      answered (image.read_payload m.data_load_offset m.data_size)
        (short m.data_load_offset m.data_size)
    where
      answered :
          (o : Rc × List ℕ)
          → length o.1 ≤ m.data_size
          → Same (elim o.0 [
            | err c ↦
                fail (record s { ram = copy s.ram (board.ram_base + m.data_ram_offset) o.1 }) c
            | ok ↦ finish_load board s m o.1
          ])
      answered (err c, bytes) fits = copy_outside m bytes v fits
      answered (ok, bytes) fits = finish_load_outside m bytes v fits

  -- Loading an application, whatever the image says and whether it succeeds or not, writes no memory
  -- outside the range that the board gives to applications, as long as that range is less than 2^32
  -- bytes and a read gives no more bytes than it is asked for.
  pub native_load-Outside : (native_load board image s).1.ram a ≡ s.ram a
  unfolding native_load
  native_load-Outside = by_status image.get_status.0
    where
      validated :
          (rc : Rc)
          → native_validate_metadata board image.get_status.1 image.get_native_metadata.1 ≡ rc
          → Same (elim rc [
            | err c ↦ fail s c
            | ok ↦ load_payload board image s image.get_native_metadata.1
          ])
      validated (err c) e = refl
      validated ok e =
          load_payload_outside image.get_native_metadata.1 (
            validate-IsPlaced board image.get_status.1 image.get_native_metadata.1 small
              (rw e refl))

      by_metadata :
          (rc : Rc)
          → Same (elim rc [
            | err c ↦ fail s c
            | ok ↦
                elim (native_validate_metadata board image.get_status.1
                  image.get_native_metadata.1) [
                    | err c ↦ fail s c
                    | ok ↦ load_payload board image s image.get_native_metadata.1
                  ]
          ])
      by_metadata (err c) = refl
      by_metadata ok = validated _ refl

      by_status :
          (rc : Rc)
          → Same (elim rc [
            | err c ↦ fail s c
            | ok ↦ elim image.get_native_metadata.0 [
              | err c ↦ fail s c
              | ok ↦
                  elim (native_validate_metadata board image.get_status.1
                    image.get_native_metadata.1) [
                      | err c ↦ fail s c
                      | ok ↦ load_payload board image s image.get_native_metadata.1
                    ]
            ]
          ])
      by_status (err c) = refl
      by_status ok = by_metadata image.get_native_metadata.0
