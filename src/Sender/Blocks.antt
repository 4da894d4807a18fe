-- ===== src/Sender/Blocks.antt =====
-- The receiver on the blocks of the sender.
use mathlib.Core.Path.{subst}
use mathlib.Core.List.{append-nil, append_assoc}
use rtbus.Base.{
  ℕ, zero, suc, ◌+◌, ◌-◌, ◌≤◌, ◌<◌, ◌≡◌, refl, sym, ap, Bool, true, false, not, List, [], ◌∷◌, ◌++◌,
  some, arith, ◌==◌, if◌then◌else◌, length, take, drop, min, length-append, length-drop,
  length-take, take-append-drop, ◌∙◌,
}
use rtbus.Base.Rc.{Rc, ok, err}
use rtbus.Base.Word.{u8}
use rtbus.Ymodem.{
  ImageStore, Receiver, Arrival, header, Turn, continue, return, got, put, stx, eot, ack, nak, can,
  payload_length, turn, take_packet, take_block, end_transfer, after_write, receive,
}
use rtbus.Ymodem.Frame.{frame, read_packet-frame}
use rtbus.Sender.{block_packet}
use rtbus.Sender.Script.{blocks, acks}
use rtbus.Sender.Metadata.{length-block_packet, take-block_packet}

-- A store that takes a file: from an idle state it opens with nothing in it; while it is open it appends
-- the bytes that are the next part of the file, and stays open; and once it has the whole file it lets
-- it through and is in a state that has stored it. Nothing is asked of it in other states.
pub record IsKeeper {S : Type 0} (store : ImageStore S) (contents : S → List ℕ)
    (Idle Open Stored : S → Type 0) (file : List ℕ) : Type 0 where
  pub begin_ok : (s : S) → Idle s → (store.begin (length file) s).0 ≡ ok
  pub begun : (s : S) → Idle s → contents (store.begin (length file) s).1 ≡ []
  pub begun_open : (s : S) → Idle s → Open (store.begin (length file) s).1
  pub write_ok :
      (s : S) (bytes rest : List ℕ)
      → Open s
      → (contents s ++ bytes) ++ rest ≡ file
      → (store.write (length (contents s)) bytes s).0 ≡ ok
  pub written :
      (s : S) (bytes rest : List ℕ)
      → Open s
      → (contents s ++ bytes) ++ rest ≡ file
      → contents (store.write (length (contents s)) bytes s).1 ≡ contents s ++ bytes
  pub written_open :
      (s : S) (bytes rest : List ℕ)
      → Open s
      → (contents s ++ bytes) ++ rest ≡ file
      → Open (store.write (length (contents s)) bytes s).1
  pub finish_ok : (s : S) → Open s → contents s ≡ file → (store.finish ok s).0 ≡ ok
  pub finished : (s : S) → Open s → contents s ≡ file → Stored (store.finish ok s).1

module _ {S : Type 0} {Idle Open Stored : S → Type 0} (store : ImageStore S) (contents : S → List ℕ)
    (file : List ℕ) (laws : IsKeeper store contents Idle Open Stored file)
    (strtoul : List ℕ → ℕ) where
  -- The transfer runs: `rest` is still to come, and `sent` is what was answered.
  pub record IsAt (rest sent : List ℕ) (r : Receiver S) : Type 0 where
    pub got_metadata : r.got_metadata ≡ true
    pub eot_seen : r.eot_seen ≡ false
    pub expected_size : r.expected_size ≡ length file
    pub received_size : r.received_size ≡ length (contents r.store)
    pub joined : contents r.store ++ rest ≡ file
    pub opened : Open r.store
    pub answered : r.sent ≡ sent

  -- A turn that goes on with some property.
  pub data Goes (P : Receiver S → Type 0) : Turn S → Type 0 where
    goes : {r : Receiver S} → P r → Goes P (continue r)

  -- The transfer has returned 0 with the file in the store, and these bytes were answered.
  pub data Received (sent : List ℕ) : Turn S → Type 0 where
    received : {r : Receiver S} → Stored r.store → r.sent ≡ sent → Received sent (return ok r)

  pub receive-Goes :
      (r : Receiver S) (a : Arrival) (arrivals : List Arrival) (P : Receiver S → Type 0)
      (sent : List ℕ)
      → Goes P (turn store strtoul r a)
      → ((r' : Receiver S) → P r' → Received sent (receive store strtoul r' arrivals))
      → Received sent (receive store strtoul r (a ∷ arrivals))
  unfolding receive
  receive-Goes r a arrivals P sent g next = answered (turn store strtoul r a) g
    where
      answered :
          (t : Turn S)
          → Goes P t
          → Received sent (elim t [
            | return rc r' ↦ return rc r'
            | continue r' ↦ receive store strtoul r' arrivals
          ])
      answered t (goes {r = r'} p) = next r' p

  pub turn_packet :
      (r : Receiver S) (h n block_no : ℕ) (bytes : List ℕ)
      → (h == can) ≡ false
      → (h == eot) ≡ false
      → payload_length h ≡ some n
      → block_no < 256
      → length bytes ≡ n
      → turn store strtoul r (header h (got (frame block_no bytes)))
        ≡ take_packet store strtoul r block_no bytes
  unfolding turn
  turn_packet r h n block_no bytes no_can no_eot len small e =
      rw (no_can, no_eot, read_packet-frame h block_no n bytes len small e) refl

  take_packet_later :
      (r : Receiver S) (block_no : ℕ) (bytes : List ℕ)
      → r.got_metadata ≡ true
      → r.eot_seen ≡ false
      → take_packet store strtoul r block_no bytes ≡ take_block store r block_no bytes
  unfolding take_packet
  take_packet_later r block_no bytes m e = simp (m, e) refl

  pub take_packet_last :
      (r : Receiver S) (bytes : List ℕ)
      → r.got_metadata ≡ true
      → r.eot_seen ≡ true
      → take_packet store strtoul r 0 bytes ≡ end_transfer store r
  unfolding take_packet
  take_packet_last r bytes m e = simp (m, e) refl

  take_block-IsAt :
      (r : Receiver S) (block_no : ℕ) (rest sent : List ℕ)
      → IsAt rest sent r
      → r.expected_block ≡ block_no
      → Goes
          (λ r'.
            IsAt (drop 1024 rest) (sent ++ ack ∷ []) r' × (r'.expected_block ≡ u8 (block_no + 1)))
          (take_block store r block_no (block_packet rest))
  unfolding take_block
  take_block-IsAt r block_no rest sent v numbered =
      at_block (block_no == r.expected_block) (ground (arith, numbered))
    where
      file_size : length (contents r.store) + length rest ≡ length file
      file_size = sym (length-append (contents r.store) rest) ∙ ap length v.joined

      write_len : ℕ
      write_len = min (length (block_packet rest)) (r.expected_size - r.received_size)

      right_len : write_len ≡ min 1024 (length rest)
      right_len =
          omega (arith, length-block_packet rest, v.expected_size, v.received_size, file_size)

      chunk : List ℕ
      chunk = take 1024 rest

      right_chunk : take write_len (block_packet rest) ≡ chunk
      right_chunk = ap (λ (n : ℕ). take n (block_packet rest)) right_len ∙ take-block_packet rest

      parts : (contents r.store ++ chunk) ++ drop 1024 rest ≡ file
      parts =
          append_assoc (contents r.store) chunk (drop 1024 rest)
          ∙ ap (λ ys. contents r.store ++ ys) (take-append-drop 1024 rest)
          ∙ v.joined

      write_is :
          store.write r.received_size (take write_len (block_packet rest)) r.store
          ≡ store.write (length (contents r.store)) chunk r.store
      write_is =
          ap (λ (k : ℕ). store.write k (take write_len (block_packet rest)) r.store) v.received_size
          ∙ ap (λ ys. store.write (length (contents r.store)) ys r.store) right_chunk

      wrote :
          (o : Rc × S)
          → o.0 ≡ ok
          → contents o.1 ≡ contents r.store ++ chunk
          → Open o.1
          → Goes
              (λ r'.
                IsAt (drop 1024 rest) (sent ++ ack ∷ []) r'
                × (r'.expected_block ≡ u8 (block_no + 1)))
              (after_write store r write_len o)
      wrote (err c, s) good held still = absurd (ground (arith, good))
      wrote (ok, s) good held still = goes (
        record {
          got_metadata = v.got_metadata;
          eot_seen = v.eot_seen;
          expected_size = v.expected_size;
          received_size = omega (
            arith,
            v.received_size,
            right_len,
            ap length held,
            length-append (contents r.store) chunk,
            length-take 1024 rest,
          );
          joined = ap (λ ys. ys ++ drop 1024 rest) held ∙ parts;
          opened = still;
          answered = ap (λ ys. ys ++ ack ∷ []) v.answered;
        },
        ap (λ (b : ℕ). u8 (b + 1)) numbered,
      )

      at_block :
          (same : Bool)
          → same ≡ true
          → Goes
              (λ r'.
                IsAt (drop 1024 rest) (sent ++ ack ∷ []) r'
                × (r'.expected_block ≡ u8 (block_no + 1)))
              (if not same
                then continue (put r (nak ∷ []))
                else after_write store r write_len
                    (store.write r.received_size (take write_len (block_packet rest)) r.store))
      at_block false e = absurd (ground (arith, e))
      at_block true e =
          wrote (store.write r.received_size (take write_len (block_packet rest)) r.store)
            (ap (λ o. o.0) write_is ∙ laws.write_ok r.store chunk (drop 1024 rest) v.opened parts)
            (ap (λ o. contents o.1) write_is
              ∙ laws.written r.store chunk (drop 1024 rest) v.opened parts)
            (subst (λ o. Open o.1) (sym write_is)
              (laws.written_open r.store chunk (drop 1024 rest) v.opened parts))

  -- The blocks of the sender, and what follows them.
  pub receive_blocks :
      (fuel block_no : ℕ) (rest before sent : List ℕ) (tail : List Arrival) (r : Receiver S)
      → length rest ≤ fuel
      → block_no < 256
      → IsAt rest before r
      → r.expected_block ≡ block_no
      → ((r' : Receiver S)
          → IsAt [] (before ++ acks (blocks fuel block_no rest)) r'
          → Received sent (receive store strtoul r' tail))
      → Received sent (receive store strtoul r (blocks fuel block_no rest ++ tail))
  receive_blocks zero block_no [] before sent tail r enough small v numbered next =
      next r (subst (λ z. IsAt [] z r) (sym (append-nil before)) v)
  receive_blocks (suc fuel) block_no [] before sent tail r enough small v numbered next =
      next r (subst (λ z. IsAt [] z r) (sym (append-nil before)) v)
  receive_blocks zero block_no (x ∷ rest) before sent tail r enough small v numbered next =
      absurd (omega (arith, enough))
  receive_blocks (suc fuel) block_no (x ∷ rest) before sent tail r enough small v numbered next =
      let bytes = x ∷ rest in
      let later = blocks fuel (u8 (block_no + 1)) (drop 1024 bytes) in
      receive-Goes r (header stx (got (frame block_no (block_packet bytes)))) (later ++ tail)
        (λ r'.
          IsAt (drop 1024 bytes) (before ++ ack ∷ []) r' × (r'.expected_block ≡ u8 (block_no + 1)))
        sent
        (subst
          (λ t.
            Goes
              (λ r'.
                IsAt (drop 1024 bytes) (before ++ ack ∷ []) r'
                × (r'.expected_block ≡ u8 (block_no + 1)))
              t)
          (sym (
            turn_packet r stx 1024 block_no (block_packet bytes) refl refl refl small
              (length-block_packet bytes)
            ∙ take_packet_later r block_no (block_packet bytes) v.got_metadata v.eot_seen))
          (take_block-IsAt r block_no bytes before v numbered))
        λ r' w.
          receive_blocks fuel (u8 (block_no + 1)) (drop 1024 bytes) (before ++ ack ∷ []) sent tail
            r' (omega (arith, length-drop 1024 bytes, enough)) (ground arith) w.0 w.1
            λ q k. next q (subst (λ z. IsAt [] z q) (append_assoc before (ack ∷ []) (acks later)) k)
