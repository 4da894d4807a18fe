-- ===== src/Ymodem/Transfer.antt =====
-- The receiver over a store that says which images it lets through: what a transfer that ends well
-- has stored.
use mathlib.Core.Path.{subst}
use rtbus.Base.{
  ℕ, ◌-◌, ◌^◌, min, ◌<◌, ◌≡◌, refl, sym, Bool, true, false, not, ◌&&◌, List, [], ◌∷◌, ◌++◌, arith,
  ◌==◌, if◌then◌else◌, length, take, get_or, length-append, length-take,
}
use rtbus.Base.Rc.{Rc, ok, err, Errno, einval, ecanceled}
use rtbus.Ymodem.{
  ImageStore, Receiver, Arrival, silence, header, Turn, continue, return, Packet, packet, broken,
  put, nak, ack, can, eot, crc_request, abandon, after_write, after_begin, after_finish, take_block,
  end_transfer, take_metadata, take_packet, read_packet, turn, receive, parse_file_size, after_name,
}

-- A store that knows what it was given: `IsOpen s size c` while it has `c` of `size` bytes, and
-- `IsStored s size c` once it has let `c` through.
pub record IsImageStore {S : Type 0} (store : ImageStore S)
    (IsOpen IsStored : S → ℕ → List ℕ → Type 0) : Type 0 where
  pub begun :
      (size : ℕ) (s : S)
      → size < 2 ^ 32
      → (store.begin size s).0 ≡ ok
      → IsOpen (store.begin size s).1 size []
  pub written :
      (size : ℕ) (c bytes : List ℕ) (s : S)
      → IsOpen s size c
      → (store.write (length c) bytes s).0 ≡ ok
      → IsOpen (store.write (length c) bytes s).1 size (c ++ bytes)
  pub finished :
      (size : ℕ) (c : List ℕ) (s : S)
      → IsOpen s size c
      → (store.finish ok s).0 ≡ ok
      → IsStored (store.finish ok s).1 size c

module _ {S : Type 0} (store : ImageStore S) (IsOpen IsStored : S → ℕ → List ℕ → Type 0)
    (laws : IsImageStore store IsOpen IsStored) where
  -- A transfer that runs: the store is open from the metadata on.
  pub record IsTransfer (r : Receiver S) : Type 0 where
    pub taken : List ℕ
    pub none_yet : r.got_metadata ≡ false → r.received_size ≡ 0
    pub opened : r.got_metadata ≡ true → IsOpen r.store r.expected_size taken
    pub count : r.got_metadata ≡ true → length taken ≡ r.received_size

  -- Where a transfer may stand: it goes on, it has failed, or the store has let its bytes through.
  pub data Standing : Turn S → Type 0 where
    going : {r : Receiver S} → IsTransfer r → Standing (continue r)
    failed : {c : Errno} {r : Receiver S} → Standing (return (err c) r)
    stored :
        {r : Receiver S} (c : List ℕ) → IsStored r.store r.expected_size c → Standing (return ok r)

  again : (r : Receiver S) (bytes : List ℕ) → IsTransfer r → Standing (continue (put r bytes))
  again r bytes v =
      going (record { taken = v.taken; none_yet = v.none_yet; opened = v.opened; count = v.count })

  abandon-Standing : (r : Receiver S) (c : Errno) → Standing (abandon store r c)
  unfolding abandon
  abandon-Standing r c = either r.store_active
    where
      either :
          (active : Bool)
          → Standing (
              if active
              then return (err c) (record r { store = (store.finish (err c) r.store).1 })
              else return (err c) r)
      either true = failed
      either false = failed

  take_block-Standing :
      (r : Receiver S) (block_no : ℕ) (bytes : List ℕ)
      → IsTransfer r
      → r.got_metadata ≡ true
      → Standing (take_block store r block_no bytes)
  unfolding take_block
  take_block-Standing r block_no bytes v m = numbered (block_no == r.expected_block)
    where
      n : ℕ
      n = min (length bytes) (r.expected_size - r.received_size)

      wrote :
          (o : Rc × S)
          → (o.0 ≡ ok → IsOpen o.1 r.expected_size (v.taken ++ take n bytes))
          → Standing (after_write store r n o)
      wrote (err c, s) holds = failed
      wrote (ok, s) holds = going (record {
        taken = v.taken ++ take n bytes;
        none_yet = λ z. absurd (ground (arith, m, z));
        opened = λ y. holds refl;
        count = λ y.
            omega (arith, length-append v.taken (take n bytes), length-take n bytes, v.count m);
      })

      numbered :
          (next : Bool)
          → Standing (
              if not next
              then continue (put r (nak ∷ []))
              else after_write store r n (store.write r.received_size (take n bytes) r.store))
      numbered false = again r (nak ∷ []) v
      numbered true = wrote (store.write r.received_size (take n bytes) r.store) (
          subst
            (λ (k : ℕ).
              (store.write k (take n bytes) r.store).0 ≡ ok
              → IsOpen (store.write k (take n bytes) r.store).1 r.expected_size
                  (v.taken ++ take n bytes))
            (v.count m) (laws.written r.expected_size v.taken (take n bytes) r.store (v.opened m)))

  take_metadata-Standing :
      (r : Receiver S) (size : ℕ)
      → size < 2 ^ 32
      → IsTransfer r
      → r.got_metadata ≡ false
      → Standing (take_metadata store r size)
  unfolding take_metadata
  take_metadata-Standing r size small v m = sized (size == 0)
    where
      r' : Receiver S
      r' = put (record r { got_metadata = true; expected_size = size }) (ack ∷ crc_request ∷ [])

      begun : (o : Rc × S) → (o.0 ≡ ok → IsOpen o.1 size []) → Standing (after_begin store r' o)
      begun (err c, s) holds = failed
      begun (ok, s) holds = going (record {
        taken = [];
        none_yet = λ z. absurd (ground arith);
        opened = λ y. holds refl;
        count = λ y. sym (v.none_yet m);
      })

      sized :
          (nothing : Bool)
          → Standing (
              if nothing
              then return
                  (err einval)
                  (put (record r { got_metadata = true; expected_size = size }) (nak ∷ []))
              else after_begin store r' (store.begin size r.store))
      sized true = failed
      sized false = begun (store.begin size r.store) (laws.begun size r.store small)

  end_transfer-Standing :
      (r : Receiver S) → IsTransfer r → r.got_metadata ≡ true → Standing (end_transfer store r)
  unfolding end_transfer
  end_transfer-Standing r v m =
      finished (store.finish ok r.store)
        (laws.finished r.expected_size v.taken r.store (v.opened m))
    where
      finished :
          (o : Rc × S)
          → (o.0 ≡ ok → IsStored o.1 r.expected_size v.taken)
          → Standing (after_finish store r o)
      finished (err c, s) h = failed
      finished (ok, s) h = stored v.taken (h refl)

  module _ (strtoul : List ℕ → ℕ) (bounded : (text : List ℕ) → strtoul text < 2 ^ 32) where
    parse_file_size-bounded : (block : List ℕ) → parse_file_size strtoul block < 2 ^ 32
    unfolding parse_file_size
    parse_file_size-bounded block = either (get_or (after_name block) 0 0 == 0)
      where
        either : (nothing : Bool) → (if nothing then 0 else strtoul (after_name block)) < 2 ^ 32
        either true = ground arith
        either false = bounded (after_name block)

    take_packet-Standing :
        (r : Receiver S) (block_no : ℕ) (bytes : List ℕ)
        → IsTransfer r
        → Standing (take_packet store strtoul r block_no bytes)
    unfolding take_packet
    take_packet-Standing r block_no bytes v =
        chosen r.got_metadata (block_no == 0) (r.eot_seen && (block_no == 0)) refl
      where
        size : ℕ
        size = parse_file_size strtoul bytes

        chosen :
            (got_metadata zero_block last : Bool)
            → r.got_metadata ≡ got_metadata
            → Standing (
                if not got_metadata
                then (if not zero_block
                    then continue (put r (nak ∷ []))
                    else take_metadata store r size)
                else if last
                then end_transfer store r
                else take_block store r block_no bytes)
        chosen true z true m = end_transfer-Standing r v m
        chosen true z false m = take_block-Standing r block_no bytes v m
        chosen false false l m = again r (nak ∷ []) v
        chosen false true l m = take_metadata-Standing r size (parse_file_size-bounded bytes) v m

    turn-Standing :
        (r : Receiver S) (a : Arrival) → IsTransfer r → Standing (turn store strtoul r a)
    unfolding turn
    turn-Standing r (silence c) v = abandon-Standing r c
    turn-Standing r (header h read) v = chosen (h == can) (h == eot) r.eot_seen (read_packet h read)
      where
        chosen :
            (cancelled ended again_ended : Bool) (p : Packet)
            → Standing (
                if cancelled
                then abandon store r ecanceled
                else if ended
                then (if not again_ended
                    then continue (put (record r { eot_seen = true }) (nak ∷ []))
                    else continue (put r (ack ∷ crc_request ∷ [])))
                else elim p [
                  | broken c ↦ continue (put r (nak ∷ []))
                  | packet block_no contents ↦ take_packet store strtoul r block_no contents
                ])
        chosen true e x p = abandon-Standing r ecanceled
        chosen false true true p = again r (ack ∷ crc_request ∷ []) v
        chosen false true false p =
            again (record r { eot_seen = true }) (nak ∷ [])
              (record {
                taken = v.taken;
                none_yet = v.none_yet;
                opened = v.opened;
                count = v.count;
              })
        chosen false false x (broken c) = again r (nak ∷ []) v
        chosen false false x (packet block_no bytes) = take_packet-Standing r block_no bytes v

    -- On any arrivals, a transfer goes on with the store open, fails, or returns ok; and it returns
    -- ok only when the store has let through the bytes that it was given.
    pub receive-Standing :
        (arrivals : List Arrival) (r : Receiver S)
        → IsTransfer r
        → Standing (receive store strtoul r arrivals)
    unfolding receive
    receive-Standing [] r v = going v
    receive-Standing (a ∷ arrivals) r v =
        rest (turn store strtoul r a) (turn-Standing r a v) λ r' w. receive-Standing arrivals r' w
      where
        rest :
            (t : Turn S)
            → Standing t
            → ((r' : Receiver S) → IsTransfer r' → Standing (receive store strtoul r' arrivals))
            → Standing (elim t [
              | return rc r' ↦ return rc r'
              | continue r' ↦ receive store strtoul r' arrivals
            ])
        rest t (going {r = r'} w) go = go r' w
        rest t failed go = failed
        rest t (stored c w) go = stored c w
