-- ===== src/Native/Drained.antt =====
-- The hook of the bus that takes the posts of the native application: they reach the queues of the
-- bus in the order in which they were posted.
use mathlib.Core.Path.{subst}
use rtbus.Base.{
  ℕ, All, zero, suc, ◌+◌, ◌<◌, ◌≡◌, ◌∙◌, refl, sym, ap, inl, inr, Bool, true, ◌&&◌, List, [], ◌∷◌,
  ◌++◌, arith, ◌==◌, Bool-cases, none, some, Option-cases, length,
}
use rtbus.Base.Rc.{Rc, ok, err, Errno, is_ok, enoent, enotsup}
use rtbus.Entries.{Entry, Registry}
use rtbus.Emos.{Bus, Ctx, Request, emos_post, ctx_of, node_size}
use rtbus.Emos.Queues.{IsBus}
use rtbus.Emos.Post.{enqueue}
use rtbus.Emos.Posted.{Posted, rejected, queued, IsWhole, emos_post-Posted}
use rtbus.Delay.{Facade, rtbus_post, unsupported}
use rtbus.Native.{Service, PostMsg}
use rtbus.Native.Api.{Msgq, IsFifo, request_of, leave, enter, post_from, process_async_posts}

-- The queues of the bus with some posts behind them, each at the priority of its task.
pub with_posts : Registry → (ℕ → List Ctx) → List PostMsg → ℕ → List Ctx
with_posts reg queue [] = queue
with_posts reg queue (m ∷ ms) = elim (reg.find m.task_id) [
  | none ↦ with_posts reg queue ms
  | some e ↦ with_posts reg (enqueue queue e.priority (ctx_of (request_of m))) ms
]

-- A post to the bus: it fails and the queues stay, or its context is in the queue of its task.
data Sent (reg : Registry) (queue : ℕ → List Ctx) (r : Request) : Rc × Facade → Type 0 where
  refused :
      {c : Errno} {f' : Facade}
      → IsBus f'.bus queue
      → f'.bus.registry ≡ reg
      → Sent reg queue r (err c, f')
  sent :
      {f' : Facade} (e : Entry)
      → reg.find r.task_id ≡ some e
      → IsBus f'.bus (enqueue queue e.priority (ctx_of r))
      → f'.bus.registry ≡ reg
      → Sent reg queue r (ok, f')

-- An error of the core as `rtbus_post` returns it.
public_code : Errno → Errno
public_code enoent = enotsup
public_code c = c

unsupported_err : (c : Errno) → unsupported (err c) ≡ err (public_code c)
unfolding public_code
unsupported_err enoent = refl
unsupported_err c = refl

module _ (f : Facade) (queue : ℕ → List Ctx) (r : Request) where
  made : Rc × Bus → Rc × Facade
  made o = (unsupported o.0, record f { bus = o.1 })

  IsSent : Rc × Facade → Type 0
  IsSent o = Sent f.bus.registry queue r o

  unsupported-Sent :
      (c : Errno) (f' : Facade)
      → IsBus f'.bus queue
      → f'.bus.registry ≡ f.bus.registry
      → IsSent (unsupported (err c), f')
  unfolding IsSent
  unsupported-Sent c f' v k = subst (λ rc. IsSent (rc, f')) (sym (unsupported_err c)) (refused v k)

  Sent-Posted :
      (e : Entry) (o : Rc × Bus)
      → f.bus.registry.find r.task_id ≡ some e
      → Posted f.bus queue e r (node_size + r.payload_len) o
      → IsSent (made o)
  unfolding made IsSent unsupported-Sent
  Sent-Posted e o k (rejected {c} {b'} v h) =
      unsupported-Sent c (record f { bus = b' }) v h.registry
  Sent-Posted e o k (queued v n h) = sent e k v h.registry

  rtbus_post-Sent : IsBus f.bus queue → IsWhole r → IsSent (rtbus_post f r)
  unfolding rtbus_post emos_post made IsSent
  rtbus_post-Sent v whole = elim (Bool-cases (f.bus.entry_count == 0)) [
    | inl z ↦ rw z (refused v refl)
    | inr nz ↦ elim (Option-cases (f.bus.registry.find r.task_id)) [
      | inl n ↦ rw (nz, n) (refused v refl)
      | inr (e, k) ↦
          Sent-Posted e (emos_post f.bus r) k (emos_post-Posted f.bus queue v e r nz k whole)
    ]
  ]

-- The bus once `rtbus_post` was called for each post, and whether every call returned 0.
pub posted_all : Facade → List PostMsg → Facade
posted_all f [] = f
posted_all f (m ∷ ms) = posted_all (rtbus_post f (request_of m)).1 ms

pub all_taken : Facade → List PostMsg → Bool
all_taken f [] = true
all_taken f (m ∷ ms) =
    is_ok (rtbus_post f (request_of m)).0 && all_taken (rtbus_post f (request_of m)).1 ms

-- What the hook makes of the posts `ms`: every `rtbus_post` returned 0, and all of them are on the
-- bus, in order; or it stops at the post `lost`, for which `rtbus_post` returned an error, with those
-- before it on the bus and those behind it still waiting.
pub data Drained (f : Facade) (queue : ℕ → List Ctx) (ms : List PostMsg)
    : Rc × Service × Facade → Type 0 where
  drained :
      {s' : Service} {f' : Facade}
      → all_taken f ms ≡ true
      → posted_all f ms ≡ f'
      → IsBus f'.bus (with_posts f.bus.registry queue ms)
      → s'.posts ≡ []
      → Drained f queue ms (ok, s', f')
  stopped :
      {c : Errno} {s' : Service} {f' : Facade} (before : List PostMsg) (lost : PostMsg)
      → ms ≡ before ++ (lost ∷ s'.posts)
      → all_taken f before ≡ true
      → rtbus_post (posted_all f before) (request_of lost) ≡ (err c, f')
      → IsBus f'.bus (with_posts f.bus.registry queue before)
      → Drained f queue ms (err c, s', f')

Drained-after :
    (f f1 : Facade) (queue : ℕ → List Ctx) (m : PostMsg) (ms : List PostMsg) (e : Entry)
    (o : Rc × Service × Facade)
    → f.bus.registry.find m.task_id ≡ some e
    → rtbus_post f (request_of m) ≡ (ok, f1)
    → f1.bus.registry ≡ f.bus.registry
    → Drained f1 (enqueue queue e.priority (ctx_of (request_of m))) ms o
    → Drained f queue (m ∷ ms) o
unfolding with_posts posted_all all_taken
Drained-after f f1 queue m ms e o k p r (drained a b v empty) =
    drained (rw p a) (rw p b)
      (rw (with_posts, k)
        (subst
          (λ reg.
            IsBus o.2.bus (with_posts reg (enqueue queue e.priority (ctx_of (request_of m))) ms))
          r v))
      empty
Drained-after f f1 queue m ms e o k p r (stopped before lost split a b v) =
    stopped (m ∷ before) lost (ap (λ z. m ∷ z) split) (rw p a) (rw p b) (
      rw (with_posts, k)
        (subst
          (λ reg.
            IsBus o.2.bus
              (with_posts reg (enqueue queue e.priority (ctx_of (request_of m))) before))
          r v))

module _ (q : Msgq PostMsg) (fifo : IsFifo q) where
  post_from-none :
      (fuel : ℕ) (s : Service) (f : Facade) → s.posts ≡ [] → post_from q (suc fuel) s f ≡ (ok, s, f)
  unfolding post_from
  post_from-none fuel s f k =
      let none_got : q.get s.posts ≡ none = ap q.get k ∙ fifo.get_empty in
      rw (post_from, none_got) refl

  left_of : Service → List PostMsg → Service
  left_of s posts = leave (enter (record s { posts = posts }))

  post_from-some :
      (fuel : ℕ) (s : Service) (f : Facade) (m : PostMsg) (ms : List PostMsg)
      → s.posts ≡ m ∷ ms
      → post_from q (suc fuel) s f ≡ elim (rtbus_post f (request_of m)).0 [
        | ok ↦ post_from q fuel (left_of s ms) (rtbus_post f (request_of m)).1
        | err c ↦ (err c, left_of s ms, (rtbus_post f (request_of m)).1)
      ]
  unfolding post_from left_of
  post_from-some fuel s f m ms k =
      let some_got : q.get s.posts ≡ some (m, ms) = ap q.get k ∙ fifo.get_first m ms in
      rw (post_from, some_got) refl

  after-Sent :
      (f : Facade) (queue : ℕ → List Ctx) (fuel : ℕ) (s : Service) (m : PostMsg) (ms : List PostMsg)
      (o : Rc × Facade)
      → rtbus_post f (request_of m) ≡ o
      → Sent f.bus.registry queue (request_of m) o
      → ((f' : Facade) (queue' : ℕ → List Ctx)
          → IsBus f'.bus queue'
          → Drained f' queue' ms (post_from q fuel (left_of s ms) f'))
      → Drained f queue (m ∷ ms) (elim o.0 as (λ rc. Rc × Service × Facade) [
        | ok ↦ post_from q fuel (left_of s ms) o.1
        | err c ↦ (err c, left_of s ms, o.1)
      ])
  unfolding with_posts left_of posted_all all_taken
  after-Sent f queue fuel s m ms o p (refused v k) ih = stopped [] m refl refl p v
  after-Sent f queue fuel s m ms o p (sent {f'} e found v k) ih =
      Drained-after f f' queue m ms e (post_from q fuel (left_of s ms) f') found p k
        (ih f' (enqueue queue e.priority (ctx_of (request_of m))) v)

  -- Fuel beyond the number of posts is enough.
  post_from-Drained :
      (ms : List PostMsg) (fuel : ℕ) (s : Service) (f : Facade) (queue : ℕ → List Ctx)
      → s.posts ≡ ms
      → length ms < fuel
      → IsBus f.bus queue
      → All (λ m. IsWhole (request_of m)) ms
      → Drained f queue ms (post_from q fuel s f)
  unfolding with_posts left_of rtbus_post-Sent IsSent posted_all all_taken
  post_from-Drained [] zero s f queue k l v whole = absurd (omega (arith, l))
  post_from-Drained (m ∷ ms) zero s f queue k l v whole = absurd (omega (arith, l))
  post_from-Drained [] (suc fuel) s f queue k l v whole =
      subst (Drained f queue []) (sym (post_from-none fuel s f k)) (drained refl refl v k)
  post_from-Drained (m ∷ ms) (suc fuel) s f queue k l v whole =
      subst (Drained f queue (m ∷ ms)) (sym (post_from-some fuel s f m ms k)) (
        after-Sent f queue fuel s m ms (rtbus_post f (request_of m)) refl
          (rtbus_post-Sent f queue (request_of m) v whole.0)
          (λ f' queue' v'.
            post_from-Drained ms fuel (left_of s ms) f' queue' refl (omega (arith, l)) v' whole.1))

  -- The hook calls `rtbus_post` for the posts in the order in which they were posted. Either every call
  -- returns 0, the hook returns 0, each post is on the bus behind the queue of its task's priority, and
  -- none is left; or it returns the error that `rtbus_post` returns for the first post that fails, which
  -- is lost, when those before it are on the bus and those behind it are left. The bus is then the one
  -- that these calls leave. The lengths of the payloads do not wrap around with the node's headers.
  pub process_async_posts-Drained :
      (s : Service) (f : Facade) (queue : ℕ → List Ctx)
      → IsBus f.bus queue
      → All (λ m. IsWhole (request_of m)) s.posts
      → Drained f queue s.posts (process_async_posts q s f)
  unfolding process_async_posts
  process_async_posts-Drained s f queue v whole =
      post_from-Drained s.posts (length s.posts + 1) s f queue refl (omega arith) v whole
