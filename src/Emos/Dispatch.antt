-- ===== src/Emos/Dispatch.antt =====
-- The scheduler runs the oldest event of the first priority that has one.
use mathlib.Core.Path.{subst}
use rtbus.Base.{
  ℕ, All, zero, suc, ◌+◌, ◌≤◌, ◌<◌, ◌≡◌, refl, sym, ap, inl, inr, Bool, true, false, not, List, [],
  ◌∷◌, arith, ◌==◌, ==_iff, if◌then◌else◌, Bool-cases, map, ◌∙◌, Option, none, some,
}
use rtbus.Entries.{Entry, priority_number}
use rtbus.LinkList.Chain.{Chain}
use rtbus.Emos.{
  Bus, Ctx, Request, idle, ran, update, run_posts, call_task, dispatch, process_from, drop_node,
  emos_process_queued_event,
}
use rtbus.Emos.Posted.{IsWhole}
use rtbus.Emos.Queues.{IsBus}
use rtbus.Emos.Grown.{Posts, Grown, run_posts-Grown}
use rtbus.Emos.Dropped.{IsBus-dropped}

abbrev pub tail : List Ctx → List Ctx
tail [] = []
tail (c ∷ cs) = cs

head_or : Ctx → List Ctx → Ctx
head_or d [] = d
head_or d (c ∷ cs) = c

-- Whether a priority has an event.
abbrev pub is_waiting : List Ctx → Bool
is_waiting [] = false
is_waiting (c ∷ cs) = true

waiting-head :
    (f : ℕ → ℕ) (g : ℕ → Ctx) (p : ℕ) (xs : List ℕ) (cs : List Ctx)
    → Chain f p xs
    → map g xs ≡ cs
    → is_waiting cs ≡ not (p == 0)
waiting-head f g p [] cs c e = rw (← e) (ground (arith, c))
waiting-head f g p (x ∷ xs) cs c e = rw (← e) (ground (arith, c.0, c.1))

-- A queue is empty exactly when its head is NULL.
is_waiting-head :
    (b : Bus) (queue : ℕ → List Ctx) (v : IsBus b queue) (i : ℕ)
    → is_waiting (queue i) ≡ not (b.task_tbl i == 0)
is_waiting-head b queue v i =
    waiting-head b.store.next b.ctx (b.task_tbl i) (v.nodes i) (queue i) (v.chain i) (v.view i)

-- The nodes of a queue that is not empty.
nodes-cases :
    (f : ℕ → ℕ) (p : ℕ) (xs : List ℕ) → Chain f p xs → 0 < p → (ys : List ℕ) × (xs ≡ p ∷ ys)
nodes-cases f p [] c pos = absurd (omega (arith, c))
nodes-cases f p (x ∷ xs) c pos = (xs, ap (λ (z : ℕ). z ∷ xs) (sym c.0))

module _ (handler : ℕ → Ctx → List Request) where
  -- What the call of the task makes.
  abbrev pub task_posts : Entry → Ctx → List Request
  task_posts e c = if not (e.task_entry == 0) then handler e.task_entry c else []

  abbrev pub calls : Bus → Ctx → List Request
  calls b c = elim (b.registry.find c.task_id) [ none ↦ [] | some e ↦ task_posts e c ]

  call_task-run_posts :
      (b : Bus) (e : Entry) (c : Ctx) → call_task handler b e c ≡ run_posts b (task_posts e c)
  unfolding call_task run_posts
  call_task-run_posts b e c = elim (Bool-cases (e.task_entry == 0)) [ inl z ↦ rw z | inr z ↦ rw z ]

  dispatch-drop :
      (b : Bus) (p : ℕ)
      → dispatch handler b p
        ≡ drop_node (run_posts b (calls b (b.ctx (b.task_tbl p)))) p (b.task_tbl p)
  unfolding dispatch run_posts
  dispatch-drop b p = looked_up (b.registry.find (b.ctx (b.task_tbl p)).task_id)
    where
      looked_up :
          (o : Option Entry)
          → elim o [
            | none ↦ drop_node b p (b.task_tbl p)
            | some e ↦ drop_node (call_task handler b e (b.ctx (b.task_tbl p))) p (b.task_tbl p)
          ]
            ≡ drop_node
                (run_posts b (elim o [ none ↦ [] | some e ↦ task_posts e (b.ctx (b.task_tbl p)) ]))
                p
                (b.task_tbl p)
      looked_up none = refl
      looked_up (some e) =
          ap (λ z. drop_node z p (b.task_tbl p)) (call_task-run_posts b e (b.ctx (b.task_tbl p)))

  -- The bus and its queues after the event `c` of the priority `p` was handled: on `bus'`, with the
  -- queues `queue'`, what the task posted is behind the old contexts; then the first context of `p`
  -- is gone.
  pub record Dispatched (b : Bus) (queue : ℕ → List Ctx) (p : ℕ) (c : Ctx) (b' : Bus) : Type 0 where
    pub queue' : ℕ → List Ctx
    pub bus' : Bus
    pub posts : Posts b (calls b c) queue queue' bus'
    pub dropped : b' ≡ drop_node bus' p (b.task_tbl p)
    pub is_bus : IsBus b' (update queue' p (tail (queue' p)))

  dropped-Grown :
      (b b' : Bus) (queue : ℕ → List Ctx) (p : ℕ) (rs : List Request)
      → 0 < b.task_tbl p
      → (g : Grown b queue rs b')
      → IsBus (drop_node b' p (b.task_tbl p)) (update g.queue' p (tail (g.queue' p)))
  dropped-Grown b b' queue p rs pos g =
      let at : b'.task_tbl p ≡ b.task_tbl p = g.keeps.heads p pos in
      let (xs, k) =
        nodes-cases b'.store.next (b.task_tbl p) (g.is_bus.nodes p) (rw (← at) (g.is_bus.chain p))
          pos in
      let same : map b'.ctx xs ≡ tail (g.queue' p) =
        ap tail (ap (map b'.ctx) (sym k) ∙ g.is_bus.view p) in
      subst (λ z. IsBus (drop_node b' p (b.task_tbl p)) (update g.queue' p z)) same
        (IsBus-dropped b' g.queue' g.is_bus p (b.task_tbl p) xs k)

  -- Handling the event at the head of a queue that holds the context `c` first: the requests that the
  -- function of the task makes for `c` are posted in order, each on the bus that the one before left.
  -- Those whose post returns 0 are behind the queue of the priority of their task, and those whose post
  -- returns an error change no queue. The context of a post that returns 0 is in a new
  -- node with room for it; the lengths of the requests do not wrap around with the node's headers. Then the node that was at the head is dropped, and exactly the
  -- first context of that queue leaves. The bus stays well formed. A task that is not registered or
  -- has no function makes no requests.
  pub dispatch-Dispatched :
      (b : Bus) (queue : ℕ → List Ctx) (p : ℕ) (c : Ctx) (cs : List Ctx)
      → IsBus b queue
      → queue p ≡ c ∷ cs
      → All IsWhole (calls b c)
      → Dispatched b queue p c (dispatch handler b p)
  unfolding head_or
  dispatch-Dispatched b queue p c cs v e whole =
      let pos : 0 < b.task_tbl p = ground (arith, is_waiting-head b queue v p, ap is_waiting e) in
      let (xs, k) = nodes-cases b.store.next (b.task_tbl p) (v.nodes p) (v.chain p) pos in
      let first : b.ctx (b.task_tbl p) ≡ c =
        ap (head_or c) (ap (map b.ctx) (sym k) ∙ v.view p ∙ e) in
      let g = run_posts-Grown (calls b c) b queue v whole in
      record {
        queue' = g.queue';
        bus' = run_posts b (calls b c);
        posts = g.posts;
        dropped = rw (dispatch-drop b p, first) refl;
        is_bus =
            rw (dispatch-drop b p, first)
              (dropped-Grown b (run_posts b (calls b c)) queue p (calls b c) pos g);
      }

  process_from-waiting :
      (k i p : ℕ) (b : Bus) (queue : ℕ → List Ctx)
      → IsBus b queue
      → i ≤ p
      → p < i + k
      → ((j : ℕ) → i ≤ j → j < p → is_waiting (queue j) ≡ false)
      → is_waiting (queue p) ≡ true
      → process_from handler k i b ≡ (ran, dispatch handler b p)
  unfolding process_from
  process_from-waiting zero i p b queue v low high none_before some_here = absurd (omega arith)
  process_from-waiting (suc k) i p b queue v low high none_before some_here =
      elim (Bool-cases (i == p)) [
        | inl e ↦
            let at : i ≡ p = (==_iff i p).0 e in
            let go : (b.task_tbl p == 0) ≡ false = ground (arith, is_waiting-head b queue v p) in
            rw (at, go)
        | inr e ↦
            let skip : (b.task_tbl i == 0) ≡ true =
              ground
                (arith, is_waiting-head b queue v i, none_before i (omega arith) (ground arith)) in
            rw skip (
              process_from-waiting k (i + 1) p b queue v (ground arith) (omega arith)
                (λ j l h. none_before j (omega arith) h) some_here)
      ]

  process_from-idle :
      (k i : ℕ) (b : Bus) (queue : ℕ → List Ctx)
      → IsBus b queue
      → ((j : ℕ) → i ≤ j → j < i + k → is_waiting (queue j) ≡ false)
      → process_from handler k i b ≡ (idle, b)
  unfolding process_from
  process_from-idle zero i b queue v empty = refl
  process_from-idle (suc k) i b queue v empty =
      let skip : (b.task_tbl i == 0) ≡ true =
        ground (arith, is_waiting-head b queue v i, empty i (omega arith) (omega arith)) in
      rw skip (process_from-idle k (i + 1) b queue v λ j l h. empty j (omega arith) (omega arith))

  -- The scheduler returns 1 and handles the event of the first priority whose queue is not
  -- empty, once.
  pub process_queued-first :
      (b : Bus) (queue : ℕ → List Ctx) (p : ℕ)
      → IsBus b queue
      → p < priority_number
      → ((j : ℕ) → j < p → is_waiting (queue j) ≡ false)
      → is_waiting (queue p) ≡ true
      → emos_process_queued_event handler b ≡ (ran, dispatch handler b p)
  unfolding emos_process_queued_event
  process_queued-first b queue p v low before here =
      process_from-waiting priority_number 0 p b queue v (omega arith) (omega arith)
        (λ j l h. before j h) here

  -- The scheduler returns 0 and does nothing when all queues are empty.
  pub process_queued-idle :
      (b : Bus) (queue : ℕ → List Ctx)
      → IsBus b queue
      → ((j : ℕ) → j < priority_number → is_waiting (queue j) ≡ false)
      → emos_process_queued_event handler b ≡ (idle, b)
  unfolding emos_process_queued_event
  process_queued-idle b queue v empty =
      process_from-idle priority_number 0 b queue v λ j l h. empty j (omega arith)
