-- ===== src/Native/Posts.antt =====
-- `native_api_rtbus_post`: which posts of the native application are taken, and what the bus gets.
use mathlib.Core.Path.{subst}
use rtbus.Base.{
  ℕ, ◌+◌, ◌-◌, ◌≡◌, ◌≢◌, refl, sym, ap, inl, inr, Bool, true, false, not, ◌&&◌, List, [], ◌∷◌, ◌++◌,
  arith, ltb, ◌==◌, if◌then◌else◌, Bool-cases, Option, none, some, length, take, zero, suc,
}
use rtbus.Base.Rc.{Rc, ok, err, Errno, emsgsize, einval}
use rtbus.Emos.{Ctx, ctx_of, is_null}
use rtbus.Native.{Service, PostMsg}
use rtbus.Native.Api.{
  Msgq, IsFifo, bytes_of, request_of, is_ok, api_rtbus_post, post_payload_max, post_queue_depth,
  leave, enter,
}

-- The message of a post.
abbrev pub msg_of : (task_id ctx_id : ℕ) → Option (List ℕ) → (payload_len : ℕ) → PostMsg
msg_of task_id ctx_id payload payload_len = record {
  task_id = task_id;
  ctx_id = ctx_id;
  payload_len = payload_len;
  payload = bytes_of payload payload_len;
}

-- The payload is short enough and there if it has to be, and there is room in the queue.
abbrev pub takes : Service → Option (List ℕ) → (payload_len : ℕ) → Bool
takes s payload payload_len =
    not (ltb post_payload_max payload_len)
    && not (not (payload_len == 0) && is_null payload)
    && ltb (length s.posts) post_queue_depth

-- A post is refused and nothing changes; or its message is in the queue, the runtime is signalled, and
-- the bus will get the context `c` of it.
pub data ApiPosted (s : Service) (m : PostMsg) (c : Ctx) (taken : Bool)
    : Rc × Service → Type 0 where
  refused : {e : Errno} → taken ≡ false → ApiPosted s m c taken (err e, s)
  queued :
      taken ≡ true
      → ctx_of (request_of m) ≡ c
      → ApiPosted s m c taken
          (ok, record s { posts = s.posts ++ m ∷ []; runtime_signals = s.runtime_signals + 1 })

take-take : (n : ℕ) (xs : List ℕ) → take n (take n xs) ≡ take n xs
take-take zero xs = refl
take-take (suc n) [] = refl
take-take (suc n) (x ∷ xs) = ap (λ z. x ∷ z) (take-take n xs)

ctx_of-request_of :
    (task_id ctx_id : ℕ) (payload : Option (List ℕ)) (payload_len : ℕ)
    → (not (payload_len == 0) && is_null payload) ≡ false
    → ctx_of (request_of (msg_of task_id ctx_id payload payload_len))
      ≡ ctx_of (record {
        task_id = task_id;
        ctx_id = ctx_id;
        payload = payload;
        payload_len = payload_len;
      })
ctx_of-request_of task_id ctx_id none zero h = refl
ctx_of-request_of task_id ctx_id none (suc n) h = absurd (ground (arith, h))
ctx_of-request_of task_id ctx_id (some bytes) zero h = refl
ctx_of-request_of task_id ctx_id (some bytes) (suc n) h =
    let some_bytes : (suc n == 0) ≡ false = ground arith in
    let same = take-take (suc n) bytes in
    rw some_bytes
      (λ i. record { task_id = task_id; id = ctx_id; payload_len = suc n; payload = same i })

module _ (q : Msgq PostMsg) (fifo : IsFifo q) (s : Service) where
  abbrev made : Rc × List PostMsg → Rc × Service
  made (rc, posts) = (
    rc,
    leave (record (enter s) {
      posts = posts;
      runtime_signals = s.runtime_signals + (if is_ok rc then 1 else 0);
    }),
  )

  back : s.api_busy + 1 - 1 ≡ s.api_busy
  back = omega arith

  left : leave (enter s) ≡ s
  left = λ i. record s { api_busy = back i }

  made_full :
      (m : PostMsg) (c : Ctx) (rc : Rc) (posts : List PostMsg)
      → rc ≢ ok
      → posts ≡ s.posts
      → ApiPosted s m c false (made (rc, posts))
  made_full m c ok posts n k = absurd (n refl)
  made_full m c (err e) posts n k =
      subst (λ z. ApiPosted s m c false (err e, z)) (sym same) (refused refl)
    where
      same : (made (err e, posts)).1 ≡ s
      same =
          let plus : s.runtime_signals + 0 ≡ s.runtime_signals = omega arith in
          λ i. record s { api_busy = back i; posts = k i; runtime_signals = plus i }

  -- What the queue makes of a message.
  put-ApiPosted :
      (m : PostMsg) (c : Ctx)
      → ctx_of (request_of m) ≡ c
      → ApiPosted s m c
          (ltb (length s.posts) post_queue_depth)
          (made (q.put post_queue_depth s.posts m))
  put-ApiPosted m c view = elim (Bool-cases (ltb (length s.posts) post_queue_depth)) [
    | inl room ↦
        rw (room, fifo.put_room post_queue_depth s.posts m (ground arith))
          (subst
            (λ b. ApiPosted s m c true (
              ok,
              record s {
                api_busy = b;
                posts = s.posts ++ m ∷ [];
                runtime_signals = s.runtime_signals + 1;
              },
            ))
            (sym back) (queued refl view))
    | inr full ↦
        let (n, k) = fifo.put_full post_queue_depth s.posts m (ground arith) in
        rw full (
          made_full m c (q.put post_queue_depth s.posts m).0 (q.put post_queue_depth s.posts m).1 n
            k)
  ]

  -- The checks of a post.
  checked :
      (m : PostMsg) (c : Ctx) (long absent room : Bool) (o : Rc × Service)
      → (absent ≡ false → ApiPosted s m c room o)
      → ApiPosted s m c (not long && not absent && room) (
          if long
          then (err emsgsize, leave (enter s))
          else if absent
          then (err einval, leave (enter s))
          else o)
  checked m c true absent room o k =
      subst (λ z. ApiPosted s m c false (err emsgsize, z)) (sym left) (refused refl)
  checked m c false true room o k =
      subst (λ z. ApiPosted s m c false (err einval, z)) (sym left) (refused refl)
  checked m c false false room o k = k refl

  -- A post is taken exactly when its payload has at most 32 bytes, is not NULL unless it is empty, and
  -- the queue has room: then its message is behind the others in the queue, the runtime is signalled,
  -- and the context that the bus gets of it is that of the same post to the bus itself; else nothing
  -- changes.
  pub api_rtbus_post-ApiPosted :
      (task_id ctx_id : ℕ) (payload : Option (List ℕ)) (payload_len : ℕ)
      → ApiPosted s
          (msg_of task_id ctx_id payload payload_len)
          (ctx_of (record {
            task_id = task_id;
            ctx_id = ctx_id;
            payload = payload;
            payload_len = payload_len;
          }))
          (takes s payload payload_len)
          (api_rtbus_post q s task_id ctx_id payload payload_len)
  unfolding api_rtbus_post
  api_rtbus_post-ApiPosted task_id ctx_id payload payload_len =
      let m = msg_of task_id ctx_id payload payload_len in
      let c = ctx_of (record {
        task_id = task_id;
        ctx_id = ctx_id;
        payload = payload;
        payload_len = payload_len;
      }) in
      checked m c (ltb post_payload_max payload_len) (not (payload_len == 0) && is_null payload)
        (ltb (length s.posts) post_queue_depth) (made (q.put post_queue_depth s.posts m))
        (λ given. put-ApiPosted m c (ctx_of-request_of task_id ctx_id payload payload_len given))
