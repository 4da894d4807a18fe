-- ===== src/Emos/Grown.antt =====
-- The posts of a handler: each request is put behind a queue or leaves the queues alone.
use rtbus.Base.{
  ℕ, ◌+◌, All, ◌≡◌, refl, some, sym, ap, inl, inr, true, false, List, [], ◌∷◌, ◌++◌, ◌==◌, ==_iff,
  Bool-cases, ◌⊎◌, ◌∙◌, Option-cases,
}
use mathlib.Core.List.{append-nil, append_assoc}
use rtbus.Base.Rc.{Rc, is_ok}
use rtbus.Entries.{Entry}
use rtbus.Emos.{Bus, Ctx, Request, ctx_of, emos_post, run_posts, node_size}
use rtbus.Emos.Queues.{IsBus}
use rtbus.Emos.Post.{enqueue}
use rtbus.Emos.Posted.{
  Keeps, Posted, rejected, queued, Keeps-self, Housed, IsWhole, emos_post-Posted,
}

-- What a list of requests makes of a bus and its queues: each is posted on the bus that the one
-- before left. A post that returns an error leaves the queues, and one that returns 0 puts its context
-- behind the queue of the priority of its task,
-- in a new node with room for it.
pub data Posts : Bus → List Request → (ℕ → List Ctx) → (ℕ → List Ctx) → Bus → Type 0 where
  done : {b : Bus} {q : ℕ → List Ctx} → Posts b [] q q b
  refuse :
      {b b' : Bus} {r : Request} {rs : List Request} {q q' : ℕ → List Ctx}
      → is_ok (emos_post b r).0 ≡ false
      → Posts (emos_post b r).1 rs q q' b'
      → Posts b (r ∷ rs) q q' b'
  accept :
      {b b' : Bus} {r : Request} {rs : List Request} {q q' : ℕ → List Ctx} (e : Entry)
      → is_ok (emos_post b r).0 ≡ true
      → b.registry.find r.task_id ≡ some e
      → Housed b (emos_post b r).1 (node_size + r.payload_len) (ctx_of r)
      → Posts (emos_post b r).1 rs (enqueue q e.priority (ctx_of r)) q' b'
      → Posts b (r ∷ rs) q q' b'

Keeps-trans : (a b c : Bus) → Keeps a b → Keeps b c → Keeps a c
Keeps-trans a b c k l = record {
  heads = λ i pos. l.heads i (rw (k.heads i pos) pos) ∙ k.heads i pos;
  registry = l.registry ∙ k.registry;
  entry_count = l.entry_count ∙ k.entry_count;
  poll_next_index = l.poll_next_index ∙ k.poll_next_index;
}

-- A bus whose queues come from `queue` by the requests.
pub record Grown (b : Bus) (queue : ℕ → List Ctx) (rs : List Request) (b' : Bus) : Type 0 where
  pub queue' : ℕ → List Ctx
  pub posts : Posts b rs queue queue' b'
  pub is_bus : IsBus b' queue'
  pub keeps : Keeps b b'

-- One post, whatever the request.
pub data Step (b : Bus) (queue : ℕ → List Ctx) (r : Request) (o : Rc × Bus) : Type 0 where
  same : is_ok o.0 ≡ false → IsBus o.1 queue → Keeps b o.1 → Step b queue r o
  more :
      (e : Entry)
      → is_ok o.0 ≡ true
      → b.registry.find r.task_id ≡ some e
      → IsBus o.1 (enqueue queue e.priority (ctx_of r))
      → Housed b o.1 (node_size + r.payload_len) (ctx_of r)
      → Keeps b o.1
      → Step b queue r o

Step-Posted :
    (b : Bus) (queue : ℕ → List Ctx) (e : Entry) (r : Request) (o : Rc × Bus)
    → b.registry.find r.task_id ≡ some e
    → Posted b queue e r (node_size + r.payload_len) o
    → Step b queue r o
Step-Posted b queue e r o f (rejected v k) = same refl v k
Step-Posted b queue e r o f (queued v h k) = more e refl f v h k

emos_post-Step :
    (b : Bus) (queue : ℕ → List Ctx) (r : Request)
    → IsBus b queue
    → IsWhole r
    → Step b queue r (emos_post b r)
unfolding emos_post
emos_post-Step b queue r v whole = elim (Bool-cases (b.entry_count == 0)) [
  | inl z ↦ rw z (same refl v (Keeps-self b))
  | inr nz ↦ elim (Option-cases (b.registry.find r.task_id)) [
    | inl f ↦ rw (nz, f) (same refl v (Keeps-self b))
    | inr (e, f) ↦
        Step-Posted b queue e r (emos_post b r) f (emos_post-Posted b queue v e r nz f whole)
  ]
]

Grown-Step :
    (b b'' : Bus) (queue : ℕ → List Ctx) (r : Request) (rs : List Request)
    → Step b queue r (emos_post b r)
    → ((q : ℕ → List Ctx) → IsBus (emos_post b r).1 q → Grown (emos_post b r).1 q rs b'')
    → Grown b queue (r ∷ rs) b''
Grown-Step b b'' queue r rs (same failed v k) rest =
    let g = rest queue v in
    record {
      queue' = g.queue';
      posts = refuse failed g.posts;
      is_bus = g.is_bus;
      keeps = Keeps-trans b (emos_post b r).1 b'' k g.keeps;
    }
Grown-Step b b'' queue r rs (more e good f v h k) rest =
    let g = rest (enqueue queue e.priority (ctx_of r)) v in
    record {
      queue' = g.queue';
      posts = accept e good f h g.posts;
      is_bus = g.is_bus;
      keeps = Keeps-trans b (emos_post b r).1 b'' k g.keeps;
    }

pub run_posts-Grown :
    (rs : List Request) (b : Bus) (queue : ℕ → List Ctx)
    → IsBus b queue
    → All IsWhole rs
    → Grown b queue rs (run_posts b rs)
unfolding run_posts
run_posts-Grown [] b queue v whole = record {
  queue' = queue;
  posts = done;
  is_bus = v;
  keeps = Keeps-self b;
}
run_posts-Grown (r ∷ rs) b queue v whole =
    Grown-Step b (run_posts (emos_post b r).1 rs) queue r rs (emos_post-Step b queue r v whole.0)
      λ q w. run_posts-Grown rs (emos_post b r).1 q w whole.1

-- However many requests are made, the old contexts of a queue stay in front of it, in their
-- order.
pub Posts-prefix :
    (rs : List Request) (b b' : Bus) (q q' : ℕ → List Ctx)
    → Posts b rs q q' b'
    → (i : ℕ) → (added : List Ctx) × (q' i ≡ q i ++ added)
Posts-prefix [] b b' q q' done i = ([], sym (append-nil (q i)))
Posts-prefix (r ∷ rs) b b' q q' (refuse failed h) i = Posts-prefix rs (emos_post b r).1 b' q q' h i
Posts-prefix (r ∷ rs) b b' q q' (accept e good f n h) i =
    grow (Posts-prefix rs (emos_post b r).1 b' (enqueue q p (ctx_of r)) q' h i)
      (Bool-cases (i == p))
  where
    p : ℕ
    p = e.priority

    grow :
        (added : List Ctx) × (q' i ≡ enqueue q p (ctx_of r) i ++ added)
        → ((i == p) ≡ true) ⊎ ((i == p) ≡ false)
        → (added : List Ctx) × (q' i ≡ q i ++ added)
    grow (added, k) (inr n) = (added, rw n at k)
    grow (added, k) (inl y) =
        let here : q' i ≡ (q p ++ ctx_of r ∷ []) ++ added = rw y at k in
        let at : p ≡ i = sym ((==_iff i p).0 y) in
        (
          ctx_of r ∷ added,
          here
              ∙ append_assoc (q p) (ctx_of r ∷ []) added
              ∙ ap (λ (z : ℕ). q z ++ ctx_of r ∷ added) at,
        )
