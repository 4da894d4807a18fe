-- ===== src/Ymodem/Session.antt =====
-- The receiver keeps count: what the store holds is what was received, and no more than the file.
use mathlib.Core.Path.{subst}
use rtbus.Base.{
  ℕ, ◌+◌, ◌-◌, min, ◌≤◌, ◌≡◌, refl, sym, ap, inl, inr, Bool, true, false, not, ◌&&◌, List, [], ◌∷◌,
  ◌++◌, arith, ◌==◌, if◌then◌else◌, length, take, Bool-cases, length-append, length-take, ◌∙◌,
}
use rtbus.Base.Rc.{Rc, ok, err, Errno, ecanceled}
use rtbus.Ymodem.{
  ImageStore, Receiver, Arrival, silence, header, Turn, continue, return, Packet, packet, broken,
  put, nak, ack, can, eot, crc_request, abandon, after_write, after_begin, after_finish, take_block,
  end_transfer, take_metadata, take_packet, read_packet, turn, receive, parse_file_size,
}

-- What the store holds is `contents`, and the store appends what is written at its end.
pub record IsStore {S : Type 0} (store : ImageStore S) (contents : S → List ℕ) : Type 0 where
  pub begun : (n : ℕ) (s : S) → (store.begin n s).0 ≡ ok → contents (store.begin n s).1 ≡ []
  pub written :
      (bytes : List ℕ) (s : S)
      → (store.write (length (contents s)) bytes s).0 ≡ ok
      → contents (store.write (length (contents s)) bytes s).1 ≡ contents s ++ bytes

-- Between two turns the store is active exactly when the metadata has come; then it holds as many
-- bytes as were received, which are no more than the file has.
pub record IsSession {S : Type 0} (contents : S → List ℕ) (r : Receiver S) : Type 0 where
  pub active : r.store_active ≡ r.got_metadata
  pub bounded : r.received_size ≤ r.expected_size
  pub none_yet : r.got_metadata ≡ false → r.received_size ≡ 0
  pub held : r.got_metadata ≡ true → length (contents r.store) ≡ r.received_size

module _ {S : Type 0} (store : ImageStore S) (contents : S → List ℕ)
    (laws : IsStore store contents) where
  -- A turn that goes on keeps the session, and one that returns has received no more than the file.
  abbrev pub Kept : Turn S → Type 0
  Kept (continue r) = IsSession contents r
  Kept (return rc r) = r.received_size ≤ r.expected_size

  sent_more :
      (r : Receiver S) (bytes : List ℕ) → IsSession contents r → IsSession contents (put r bytes)
  sent_more r bytes v = record {
    active = v.active;
    bounded = v.bounded;
    none_yet = v.none_yet;
    held = v.held;
  }

  Kept-abandon : (r : Receiver S) (c : Errno) → IsSession contents r → Kept (abandon store r c)
  unfolding abandon
  Kept-abandon r c v = elim (Bool-cases r.store_active) [
    | inl y ↦ simp y v.bounded
    | inr z ↦ simp z v.bounded
  ]

  Kept-after_write :
      (r : Receiver S) (bytes : List ℕ) (o : Rc × S)
      → IsSession contents r
      → r.got_metadata ≡ true
      → r.received_size + length bytes ≤ r.expected_size
      → (o.0 ≡ ok → contents o.1 ≡ contents r.store ++ bytes)
      → Kept (after_write store r (length bytes) o)
  Kept-after_write r bytes (ok, s) v m fits stored = record {
    active = v.active;
    bounded = fits;
    none_yet = λ n. absurd (ground arith);
    held = λ y.
        ap length (stored refl)
        ∙ length-append (contents r.store) bytes
        ∙ ap (λ (z : ℕ). z + length bytes) (v.held m);
  }
  Kept-after_write r bytes (err c, s) v m fits stored = v.bounded

  Kept-take_block :
      (r : Receiver S) (block_no : ℕ) (bytes : List ℕ)
      → IsSession contents r
      → r.got_metadata ≡ true
      → Kept (take_block store r block_no bytes)
  unfolding take_block
  Kept-take_block r block_no bytes v m = elim (Bool-cases (block_no == r.expected_block)) [
    | inr z ↦ simp z (sent_more r (nak ∷ []) v)
    | inl y ↦ simp y (part (min (length bytes) (r.expected_size - r.received_size)) refl)
  ]
    where
      part :
          (n : ℕ)
          → n ≡ min (length bytes) (r.expected_size - r.received_size)
          → Kept (after_write store r n (store.write r.received_size (take n bytes) r.store))
      part n e =
          let whole : length (take n bytes) ≡ n = ground (arith, length-take n bytes) in
          subst
            (λ k. Kept (after_write store r k (store.write r.received_size (take n bytes) r.store)))
            whole
            (Kept-after_write r (take n bytes) (store.write r.received_size (take n bytes) r.store)
              v m (omega (arith, whole, e, v.bounded))
              (subst
                (λ k.
                  (store.write k (take n bytes) r.store).0 ≡ ok
                  → contents (store.write k (take n bytes) r.store).1
                    ≡ contents r.store ++ take n bytes)
                (v.held m) (laws.written (take n bytes) r.store)))

  Kept-take_metadata :
      (r : Receiver S) (size : ℕ)
      → IsSession contents r
      → r.got_metadata ≡ false
      → Kept (take_metadata store r size)
  unfolding take_metadata
  Kept-take_metadata r size v m = elim (Bool-cases (size == 0)) [
    | inl z ↦ simp z (omega (arith, v.none_yet m))
    | inr nz ↦ simp nz (begun (store.begin size r.store) (laws.begun size r.store))
  ]
    where
      begun :
          (o : Rc × S)
          → (o.0 ≡ ok → contents o.1 ≡ [])
          → Kept (
              after_begin store
                (put
                  (record r { got_metadata = true; expected_size = size })
                  (ack ∷ crc_request ∷ []))
                o)
      begun (ok, s) empty = record {
        active = refl;
        bounded = omega (arith, v.none_yet m);
        none_yet = λ n. v.none_yet m;
        held = λ y. ap length (empty refl) ∙ sym (v.none_yet m);
      }
      begun (err c, s) empty = omega (arith, v.none_yet m)

  Kept-end_transfer : (r : Receiver S) → IsSession contents r → Kept (end_transfer store r)
  unfolding end_transfer
  Kept-end_transfer r v = finished (store.finish ok r.store)
    where
      finished : (o : Rc × S) → Kept (after_finish store r o)
      finished (ok, s) = v.bounded
      finished (err c, s) = v.bounded

  Kept-take_packet :
      (strtoul : List ℕ → ℕ) (r : Receiver S) (block_no : ℕ) (bytes : List ℕ)
      → IsSession contents r
      → Kept (take_packet store strtoul r block_no bytes)
  unfolding take_packet
  Kept-take_packet strtoul r block_no bytes v = chosen r.got_metadata refl
    where
      first :
          (y : Bool)
          → r.got_metadata ≡ false
          → Kept (
              if not y
              then continue (put r (nak ∷ []))
              else take_metadata store r (parse_file_size strtoul bytes))
      first true n = Kept-take_metadata r (parse_file_size strtoul bytes) v n
      first false n = sent_more r (nak ∷ []) v

      later :
          (y : Bool)
          → r.got_metadata ≡ true
          → Kept (if y then end_transfer store r else take_block store r block_no bytes)
      later true m = Kept-end_transfer r v
      later false m = Kept-take_block r block_no bytes v m

      chosen :
          (x : Bool)
          → r.got_metadata ≡ x
          → Kept (
              if not x
              then (if not (block_no == 0)
                  then continue (put r (nak ∷ []))
                  else take_metadata store r (parse_file_size strtoul bytes))
              else if r.eot_seen && (block_no == 0)
              then end_transfer store r
              else take_block store r block_no bytes)
      chosen true m = later (r.eot_seen && (block_no == 0)) m
      chosen false n = first (block_no == 0) n

  -- One turn of the loop.
  pub turn-Kept :
      (strtoul : List ℕ → ℕ) (r : Receiver S) (a : Arrival)
      → IsSession contents r
      → Kept (turn store strtoul r a)
  unfolding turn
  turn-Kept strtoul r (silence c) v = Kept-abandon r c v
  turn-Kept strtoul r (header h read) v = elim (Bool-cases (h == can)) [
    | inl y ↦ rw y (Kept-abandon r ecanceled v)
    | inr n ↦ elim (Bool-cases (h == eot)) [
      | inl y ↦ rw (n, y) (ended r.eot_seen)
      | inr z ↦ rw (n, z) (arrived (read_packet h read))
    ]
  ]
    where
      after_eot : IsSession contents (record r { eot_seen = true })
      after_eot = record {
        active = v.active;
        bounded = v.bounded;
        none_yet = v.none_yet;
        held = v.held;
      }

      ended :
          (x : Bool)
          → Kept (
              if not x
              then continue (put (record r { eot_seen = true }) (nak ∷ []))
              else continue (put r (ack ∷ crc_request ∷ [])))
      ended true = (sent_more r (ack ∷ crc_request ∷ []) v)
      ended false = (sent_more (record r { eot_seen = true }) (nak ∷ []) after_eot)

      arrived :
          (p : Packet)
          → Kept (elim p [
            | broken c ↦ continue (put r (nak ∷ []))
            | packet block_no bytes ↦ take_packet store strtoul r block_no bytes
          ])
      arrived (broken c) = sent_more r (nak ∷ []) v
      arrived (packet block_no bytes) = Kept-take_packet strtoul r block_no bytes v

  -- Over a store that starts empty and appends, any arrivals leave a session well formed while
  -- the loop goes on: the store is active exactly when the metadata has come, and holds as many
  -- bytes as were received, no more than the file has. A transfer that returns has received no
  -- more than that either.
  pub receive-Kept :
      (strtoul : List ℕ → ℕ) (arrivals : List Arrival) (r : Receiver S)
      → IsSession contents r
      → Kept (receive store strtoul r arrivals)
  unfolding receive
  receive-Kept strtoul [] r v = v
  receive-Kept strtoul (a ∷ arrivals) r v =
      rest (turn store strtoul r a) (turn-Kept strtoul r a v)
        λ r' w. receive-Kept strtoul arrivals r' w
    where
      rest :
          (t : Turn S)
          → Kept t
          → ((r' : Receiver S) → IsSession contents r' → Kept (receive store strtoul r' arrivals))
          → Kept (elim t [
            | return rc r' ↦ return rc r'
            | continue r' ↦ receive store strtoul r' arrivals
          ])
      rest (continue r') k go = go r' k
      rest (return rc r') k go = k
