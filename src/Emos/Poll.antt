-- ===== src/Emos/Poll.antt =====
-- Polling: the tasks with `always` take turns when no event waits.
use rtbus.Base.{
  ℕ, All, zero, suc, ◌+◌, ◌%◌, ◌^◌, ◌≤◌, ◌<◌, ◌≡◌, ap, inl, inr, true, false, List, arith, ◌==◌,
  ==_iff, Bool-cases, ◌∙◌, some,
}
use native.Mathlib.Nat.{mod-add-mod, add_assoc}
use rtbus.Base.Word.{u8}
use rtbus.Entries.{Entry}
use rtbus.Emos.{
  Bus, Ctx, Request, ran, run_posts, poll_ctx, polls, poll_from, emos_process_poll_event,
}
use rtbus.Emos.Posted.{IsWhole}
use rtbus.Emos.Queues.{IsBus}
use rtbus.Emos.Grown.{Posts, run_posts-Grown}

-- The index `i` places behind the next one to poll.
abbrev pub turn : Bus → ℕ → ℕ
turn b i = (b.poll_next_index + i) % b.entry_count

module _ (handler : ℕ → Ctx → List Request) (b : Bus) (low : b.entry_count < 2 ^ 8) where
  -- The bus once the entry at place `i` was polled.
  abbrev pub polled : Entry → (i : ℕ) → Bus
  polled e i = record (run_posts b (handler e.task_entry (poll_ctx e))) {
    poll_next_index = turn b (i + 1);
  }

  turn_small : (i : ℕ) → 0 < b.entry_count → u8 (turn b i) ≡ turn b i
  turn_small i pos = ground arith

  turn-suc : (i : ℕ) → 0 < b.entry_count → u8 ((turn b i + 1) % b.entry_count) ≡ turn b (i + 1)
  turn-suc i pos = ground (
    arith,
    mod-add-mod (b.poll_next_index + i) b.entry_count 1,
    ap (λ (z : ℕ). z % b.entry_count) (add_assoc b.poll_next_index i 1),
  )

  module _ (k : ℕ) (entry : ℕ → Entry)
      (at : (i : ℕ) → i ≤ k → b.registry.get_by_index (turn b i) ≡ some (entry i))
      (skip : (i : ℕ) → i < k → polls (entry i) ≡ false) (here : polls (entry k) ≡ true) where
    poll_from-turn :
        (n i : ℕ)
        → i ≤ k
        → k < i + n
        → 0 < b.entry_count
        → poll_from handler n i b ≡ (ran, polled (entry k) k)
    unfolding poll_from
    poll_from-turn zero i low high pos = absurd (omega arith)
    poll_from-turn (suc n) i low high pos = elim (Bool-cases (i == k)) [
      | inl e ↦
          let same : i ≡ k = (==_iff i k).0 e in
          rw (poll_from, same, turn_small k pos, at k (omega arith), here)
            (ap
              (λ (z : ℕ). (
                ran,
                record (run_posts b (handler (entry k).task_entry (poll_ctx (entry k)))) {
                  poll_next_index = z;
                },
              ))
              (ap (λ (z : ℕ). u8 ((z + 1) % b.entry_count)) (turn_small i pos)
                ∙ turn-suc i pos
                ∙ ap (λ (z : ℕ). turn b (z + 1)) same))
      | inr e ↦
          rw (poll_from, turn_small i pos, at i low, skip i (ground arith))
            (poll_from-turn n (i + 1) (ground arith) (omega arith) pos)
    ]

    -- Where the entry `k` places behind the next one to poll is the first that is polled, and
    -- there are fewer than 256 entries and more than `k`, polling calls exactly that entry's
    -- task, and the turn passes to the entry behind it.
    pub poll_event-turn :
        k < b.entry_count → emos_process_poll_event handler b ≡ (ran, polled (entry k) k)
    unfolding emos_process_poll_event
    poll_event-turn high = poll_from-turn b.entry_count 0 (omega arith) (omega arith) (omega arith)

  -- After an entry was polled the bus is well formed, and its queues come from those before by
  -- the requests of the task, each put behind a queue or refused.
  pub polled-IsBus :
      (queue : ℕ → List Ctx) (e : Entry) (i : ℕ)
      → IsBus b queue
      → All IsWhole (handler e.task_entry (poll_ctx e))
      → (queue' : ℕ → List Ctx) × Posts b
          (handler e.task_entry (poll_ctx e))
          queue
          queue'
          (run_posts b (handler e.task_entry (poll_ctx e)))
        × IsBus (polled e i) queue'
  polled-IsBus queue e i v whole =
      let g = run_posts-Grown (handler e.task_entry (poll_ctx e)) b queue v whole in
      (
        g.queue',
        g.posts,
        record {
          blocks = g.is_bus.blocks;
          nodes = g.is_bus.nodes;
          tiled = g.is_bus.tiled;
          chain = g.is_bus.chain;
          distinct = g.is_bus.distinct;
          apart = g.is_bus.apart;
          owned = g.is_bus.owned;
          view = g.is_bus.view;
        },
      )
