-- ===== src/Sender/Received.antt =====
-- The receiver on the packets of the sender: it answers as the sender expects, and stores the file.
use mathlib.Core.Path.{subst}
use mathlib.Core.List.{append-nil, append_assoc}
use rtbus.Base.{
  ℕ, ◌+◌, ◌≤◌, ◌<◌, ◌^◌, ◌≡◌, refl, sym, ap, true, false, List, [], ◌∷◌, ◌++◌, arith, ◌==◌, length,
  replicate, ◌∙◌,
}
use rtbus.Base.Rc.{Rc, ok, err}
use rtbus.Ymodem.{
  ImageStore, Receiver, Arrival, header, Turn, continue, return, got, put, soh, eot, ack, nak,
  crc_request, turn, take_packet, take_metadata, end_transfer, after_begin, after_finish, receive,
}
use rtbus.Ymodem.Frame.{frame}
use rtbus.Sender.{first_packet, base_name}
use rtbus.Sender.Script.{blocks, acks, transfer, replies_to}
use rtbus.Sender.Metadata.{HasNoZero, IsPrinted, length-first_packet, parse_file_size-first_packet}
use rtbus.Sender.Blocks.{
  IsKeeper, IsAt, Goes, goes, Received, received, receive-Goes, turn_packet, take_packet_last,
  receive_blocks,
}

module _ {S : Type 0} {Idle Open Stored : S → Type 0} (store : ImageStore S) (contents : S → List ℕ)
    (file : List ℕ) (laws : IsKeeper store contents Idle Open Stored file)
    (strtoul : List ℕ → ℕ) where
  -- The end of the file was seen, and the file is in the store.
  record IsEnded (sent : List ℕ) (r : Receiver S) : Type 0 where
    got_metadata : r.got_metadata ≡ true
    eot_seen : r.eot_seen ≡ true
    held : contents r.store ≡ file
    opened : Open r.store
    answered : r.sent ≡ sent

  turn_first_eot :
      (r : Receiver S) (sent : List ℕ)
      → IsAt store contents file laws strtoul [] sent r
      → Goes store contents file laws strtoul
          (IsEnded (sent ++ nak ∷ []))
          (turn store strtoul r (header eot (got [])))
  unfolding turn
  turn_first_eot r sent v = simp v.eot_seen (
      goes (record {
        got_metadata = v.got_metadata;
        eot_seen = refl;
        held = sym (append-nil (contents r.store)) ∙ v.joined;
        opened = v.opened;
        answered = ap (λ ys. ys ++ nak ∷ []) v.answered;
      }))

  turn_next_eot :
      (r : Receiver S) (sent : List ℕ)
      → IsEnded sent r
      → Goes store contents file laws strtoul
          (IsEnded (sent ++ ack ∷ crc_request ∷ []))
          (turn store strtoul r (header eot (got [])))
  unfolding turn
  turn_next_eot r sent v = simp v.eot_seen (
      goes (record {
        got_metadata = v.got_metadata;
        eot_seen = refl;
        held = v.held;
        opened = v.opened;
        answered = ap (λ ys. ys ++ ack ∷ crc_request ∷ []) v.answered;
      }))

  end_transfer-Received :
      (r : Receiver S) (sent : List ℕ)
      → IsEnded sent r
      → Received store contents file laws strtoul (sent ++ ack ∷ []) (end_transfer store r)
  unfolding end_transfer
  end_transfer-Received r sent v =
      finished (store.finish ok r.store) (laws.finish_ok r.store v.opened v.held)
        (laws.finished r.store v.opened v.held)
    where
      finished :
          (o : Rc × S)
          → o.0 ≡ ok
          → Stored o.1
          → Received store contents file laws strtoul (sent ++ ack ∷ []) (after_finish store r o)
      finished (err c, s) good held = absurd (ground (arith, good))
      finished (ok, s) good held = received held (ap (λ ys. ys ++ ack ∷ []) v.answered)

  abbrev last_arrivals : List Arrival
  last_arrivals =
      header eot (got []) ∷ header eot (got []) ∷ header soh (got (frame 0 (replicate 128 0))) ∷ []

  receive_last :
      (r : Receiver S) (sent : List ℕ)
      → IsEnded sent r
      → Received store contents file laws strtoul
          (sent ++ ack ∷ [])
          (receive store strtoul r (header soh (got (frame 0 (replicate 128 0))) ∷ []))
  unfolding receive
  receive_last r sent v =
      kept (turn store strtoul r (header soh (got (frame 0 (replicate 128 0))))) (
        subst (λ t. Received store contents file laws strtoul (sent ++ ack ∷ []) t)
          (sym (
            turn_packet store contents file laws strtoul r soh 128 0 (replicate 128 0) refl refl
              refl (ground arith) refl
            ∙ take_packet_last store contents file laws strtoul r (replicate 128 0) v.got_metadata
                v.eot_seen))
          (end_transfer-Received r sent v))
    where
      kept :
          (t : Turn S)
          → Received store contents file laws strtoul (sent ++ ack ∷ []) t
          → Received store contents file laws strtoul
              (sent ++ ack ∷ [])
              (elim t [ return rc q ↦ return rc q | continue q ↦ receive store strtoul q [] ])
      kept t (received held said) = received held said

  receive_end :
      (r : Receiver S) (sent : List ℕ)
      → IsAt store contents file laws strtoul [] sent r
      → Received store contents file laws strtoul
          (sent ++ (nak ∷ ack ∷ crc_request ∷ ack ∷ []))
          (receive store strtoul r last_arrivals)
  receive_end r sent v =
      receive-Goes store contents file laws strtoul r (header eot (got [])) _
        (IsEnded (sent ++ nak ∷ [])) _ (turn_first_eot r sent v)
        λ r1 v1.
          receive-Goes store contents file laws strtoul r1 (header eot (got [])) _
            (IsEnded ((sent ++ nak ∷ []) ++ ack ∷ crc_request ∷ [])) _
            (turn_next_eot r1 (sent ++ nak ∷ []) v1)
            λ r2 v2.
              subst
                (λ z.
                  Received store contents file laws strtoul z
                    (receive store strtoul r2 (header soh (got (frame 0 (replicate 128 0))) ∷ [])))
                (append_assoc (sent ++ nak ∷ []) (ack ∷ crc_request ∷ []) (ack ∷ [])
                  ∙ append_assoc sent (nak ∷ []) (ack ∷ crc_request ∷ ack ∷ []))
                (receive_last r2 ((sent ++ nak ∷ []) ++ ack ∷ crc_request ∷ []) v2)

  take_metadata-IsAt :
      (r : Receiver S)
      → r.eot_seen ≡ false
      → r.received_size ≡ 0
      → r.sent ≡ []
      → 0 < length file
      → Idle r.store
      → Goes store contents file laws strtoul
          (λ r'.
            IsAt store contents file laws strtoul file (ack ∷ crc_request ∷ []) r'
            × (r'.expected_block ≡ r.expected_block))
          (take_metadata store r (length file))
  unfolding take_metadata
  take_metadata-IsAt r no_eot nothing silent some_bytes idle =
      let size : (length file == 0) ≡ false = ground (arith, some_bytes) in
      rw size (
        begun (store.begin (length file) r.store) (laws.begin_ok r.store idle)
          (laws.begun r.store idle) (laws.begun_open r.store idle))
    where
      r' : Receiver S
      r' =
          put (record r { got_metadata = true; expected_size = length file })
            (ack ∷ crc_request ∷ [])

      begun :
          (o : Rc × S)
          → o.0 ≡ ok
          → contents o.1 ≡ []
          → Open o.1
          → Goes store contents file laws strtoul
              (λ q.
                IsAt store contents file laws strtoul file (ack ∷ crc_request ∷ []) q
                × (q.expected_block ≡ r.expected_block))
              (after_begin store r' o)
      begun (err c, s) good empty now = absurd (ground (arith, good))
      begun (ok, s) good empty now = goes (
        record {
          got_metadata = refl;
          eot_seen = no_eot;
          expected_size = refl;
          received_size = nothing ∙ ap length (sym empty);
          joined = ap (λ ys. ys ++ file) empty;
          opened = now;
          answered = ap (λ ys. ys ++ ack ∷ crc_request ∷ []) silent;
        },
        refl,
      )

  module _ (print_ulong : ℕ → List ℕ) (path : List ℕ) (printed : IsPrinted print_ulong strtoul)
      (named : HasNoZero path)
      (fits : length (base_name path) + length (print_ulong (length file)) ≤ 126) where
    take_packet_first :
        (r : Receiver S)
        → r.got_metadata ≡ false
        → length file < 2 ^ 32
        → take_packet store strtoul r 0 (first_packet print_ulong path (length file))
          ≡ take_metadata store r (length file)
    unfolding take_packet
    take_packet_first r m small = simp m (
        ap (λ (n : ℕ). take_metadata store r n)
          (parse_file_size-first_packet print_ulong path (length file) fits strtoul printed named
            small))

    -- The receiver, from its start and over an idle store that takes the file, returns 0 on the packets
    -- that the sender makes of a file that is not empty and whose size fits into 32 bits; the store has
    -- the file, and the answers are those that the sender waits for. The name and the size fit into the
    -- first packet, the name has no zero byte, and strtoul reads what was printed.
    pub receive-transfer :
        (r : Receiver S)
        → r.got_metadata ≡ false
        → r.eot_seen ≡ false
        → r.received_size ≡ 0
        → r.expected_block ≡ 1
        → r.sent ≡ []
        → 0 < length file
        → length file < 2 ^ 32
        → Idle r.store
        → Received store contents file laws strtoul
            (replies_to file)
            (receive store strtoul r (transfer print_ulong path file))
    receive-transfer r m e nothing first silent some_bytes small idle =
        let text = first_packet print_ulong path (length file) in
        receive-Goes store contents file laws strtoul r (header soh (got (frame 0 text))) _
          (λ r'.
            IsAt store contents file laws strtoul file (ack ∷ crc_request ∷ []) r'
            × (r'.expected_block ≡ r.expected_block))
          _
          (subst
            (λ t.
              Goes store contents file laws strtoul
                (λ r'.
                  IsAt store contents file laws strtoul file (ack ∷ crc_request ∷ []) r'
                  × (r'.expected_block ≡ r.expected_block))
                t)
            (sym (
              turn_packet store contents file laws strtoul r soh 128 0 text refl refl refl
                (ground arith) (length-first_packet print_ulong path (length file) fits)
              ∙ take_packet_first r m small))
            (take_metadata-IsAt r e nothing silent some_bytes idle))
          λ r1 v.
            receive_blocks store contents file laws strtoul (length file) 1 file
              (ack ∷ crc_request ∷ []) (replies_to file) last_arrivals r1 (omega arith)
              (ground arith) v.0 (v.1 ∙ first)
              λ r2 w. receive_end r2 (ack ∷ crc_request ∷ acks (blocks (length file) 1 file)) w
