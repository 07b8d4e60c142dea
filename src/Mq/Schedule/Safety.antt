-- ===== src/Mq/Schedule/Safety.antt =====
-- The invariant that the comment on `in_global` in skynet_mq.c states, and what follows from it.
use dn_server.Common.{ℕ, ◌+◌, ◌≤◌, ◌≡◌, ◌≢◌, refl, ap, subst, ◌⊎◌, inl, inr, [], none, arith}
use dn_server.Mq.{
  Message, GlobalQueue, mq_in_global, mq_dispatching, mq_locked, mq_create, mq_push, mq_force_push,
  mq_pushglobal,
}
use dn_server.Mq.Contents
use dn_server.Mq.Refine.{Pushes, mq_push-Pushes}
use dn_server.Mq.Global.{IsValid, contents, contents-globalmq_push}
use dn_server.Mq.Schedule.{
  System, Step, other_push, other_pop, launch, take, pop_empty, pop_message, send, lock, finish,
  Reach, here, next, start, count,
}
use dn_server.Mq.Schedule.Steps.{
  count-globalmq_push, count-globalmq_pop, mq_pop-none, mq_pop-some, mq_push-Sends, mq_push-IsValid,
  mq_lock-some, mq_force_push-some, mq_pushglobal-some,
}

-- How often the queue stands in the global queue or in the hands of a thread.
abbrev pub tokens : System → ℕ
tokens s = count s.queue.addr (contents s.global) + s.launching + s.taken + s.running

-- The four values of `in_global`: at rest, in the global queue or with a thread, dispatching after
-- "LOCK", and locked at rest.
abbrev pub Phase : System → Type 0
Phase s =
    ((s.queue.in_global ≡ 0)
      × (s.queue.lock_session ≡ 0)
      × (tokens s ≡ 0)
      × (Contents.size s.queue ≡ 0))
    ⊎ ((s.queue.in_global ≡ mq_in_global) × (s.queue.lock_session ≡ 0) × (tokens s ≡ 1))
    ⊎ ((s.queue.in_global ≡ mq_dispatching) × (s.running ≡ 1) × (tokens s ≡ 1))
    ⊎ ((s.queue.in_global ≡ mq_locked) × (s.queue.lock_session ≢ 0) × (tokens s ≡ 0))

pub record IsScheduled (s : System) : Type 0 where
  pub ring : IsValid s.global
  pub valid : Contents.IsValid s.queue
  pub phase : Phase s

Step-IsScheduled : {s t : System} → Step s t → IsScheduled s → IsScheduled t
Step-IsScheduled {s} (other_push a ne room) i =
    let c = count-globalmq_push s.global s.queue.addr a i.ring room in
    record {
      ring = (contents-globalmq_push s.global a i.ring room).0;
      valid = i.valid;
      phase = ground (arith, c, i.phase);
    }
Step-IsScheduled {s} (other_pop a g e ne) i =
    let c = count-globalmq_pop s.global g s.queue.addr a i.ring e in
    record { ring = c.0; valid = i.valid; phase = ground (arith, c.1, i.phase) }
Step-IsScheduled {s} (launch l g n room e) i =
    let (ne, g-eq) = mq_force_push-some s.global g s.queue e in
    let c = count-globalmq_push s.global s.queue.addr s.queue.addr i.ring room in
    rw g-eq (record {
      ring = (contents-globalmq_push s.global s.queue.addr i.ring room).0;
      valid = i.valid;
      phase = ground (arith, c, i.phase);
    })
Step-IsScheduled {s} (take g e) i =
    let c = count-globalmq_pop s.global g s.queue.addr s.queue.addr i.ring e in
    record { ring = c.0; valid = i.valid; phase = ground (arith, c.1, i.phase) }
Step-IsScheduled {s} (pop_empty t q n e) i =
    let (same, none_left) = mq_pop-none s.queue q i.valid e in
    rw same (record {
      ring = i.ring;
      valid = record {
        cells = i.valid.cells;
        head_in = i.valid.head_in;
        tail_in = i.valid.tail_in;
      };
      phase = ground (arith, none_left, i.phase);
    })
Step-IsScheduled {s} (pop_message t m q n e) i =
    let (v, same) = mq_pop-some s.queue q m i.valid e in
    record { ring = i.ring; valid = v; phase = ground (arith, same, i.phase) }
Step-IsScheduled {s} (send m g q room e) i =
    let c = count-globalmq_push s.global s.queue.addr s.queue.addr i.ring room in
    let r = (contents-globalmq_push s.global s.queue.addr i.ring room).0 in
    let w = mq_push-Sends s.global g s.queue q m e in
    record {
      ring = ground (arith, r, w);
      valid = mq_push-IsValid s.global g s.queue q m i.valid e;
      phase = ground (arith, c, w, i.phase);
    }
Step-IsScheduled {s} (lock r session q n ne e) i =
    let (free, once, same) = mq_lock-some s.queue q session e in
    rw same (record {
      ring = i.ring;
      valid = record {
        cells = i.valid.cells;
        head_in = i.valid.head_in;
        tail_in = i.valid.tail_in;
      };
      phase = ground (arith, free, once, i.phase);
    })
Step-IsScheduled {s} (finish r g q n room e) i =
    let c = count-globalmq_push s.global s.queue.addr s.queue.addr i.ring room in
    let ring' = (contents-globalmq_push s.global s.queue.addr i.ring room).0 in
    let w = mq_pushglobal-some s.global g s.queue q e in
    record {
      ring = ground (arith, ring', w);
      valid = ground (arith, i.valid, w);
      phase = ground (arith, c, w, i.phase);
    }

mq_create-IsValid : (addr handle : ℕ) → Contents.IsValid (mq_create addr handle)
unfolding mq_create
mq_create-IsValid addr handle = omega arith

start-IsScheduled :
    (g : GlobalQueue) (addr handle : ℕ)
    → IsValid g
    → count addr (contents g) ≡ 0
    → IsScheduled (start g addr handle)
unfolding start
start-IsScheduled g addr handle v fresh = record {
  ring = v;
  valid = mq_create-IsValid addr handle;
  phase = unfold mq_create in inr (inl (refl, refl, omega (arith, fresh)));
}

Reach-IsScheduled : {s t : System} → IsScheduled s → Reach s t → IsScheduled t
Reach-IsScheduled i here = i
Reach-IsScheduled i (next r st) = Step-IsScheduled st (Reach-IsScheduled i r)

module _ (g : GlobalQueue) (addr handle : ℕ) (v : IsValid g)
    (fresh : count addr (contents g) ≡ 0) where
  reached : (s : System) → Reach (start g addr handle) s → IsScheduled s
  reached s r = Reach-IsScheduled (start-IsScheduled g addr handle v fresh) r

  -- From the creation of a queue that stands nowhere in a valid global queue, whatever the threads
  -- do: it stands in the global queue or with a thread, at most once and at one of them.
  pub one_token : (s : System) → Reach (start g addr handle) s → tokens s ≤ 1
  one_token s r = let i = reached s r in ground (arith, i.phase)

  -- In every state reached from the creation of a queue that stands nowhere in a valid global
  -- queue: where the queue holds a message, it stands in the global queue or with a thread, exactly
  -- once, unless it is locked at rest for a session.
  pub not_lost :
      (s : System)
      → Reach (start g addr handle) s
      → Contents.contents s.queue ≢ []
      → (tokens s ≡ 1) ⊎ ((s.queue.in_global ≡ mq_locked) × (s.queue.lock_session ≢ 0))
  not_lost s r ne =
      let i = reached s r in
      let some_held : Contents.size s.queue ≢ 0 = λ e. ne (ap (Contents.window s.queue) e) in
      ground (arith, some_held, i.phase)

  -- In every state reached from the creation of a queue that stands nowhere in a valid global
  -- queue: no push fails by its assert, nor does `skynet_mq_pushglobal` while a worker dispatches,
  -- nor `skynet_mq_force_push` while the service is launched.
  pub no_assert_fails :
      (s : System) (m : Message)
      → Reach (start g addr handle) s
      → (mq_push s.global s.queue m ≢ none)
        × (s.running ≢ 0 → mq_pushglobal s.global s.queue ≢ none)
        × (s.launching ≢ 0 → mq_force_push s.global s.queue ≢ none)
  no_assert_fails s m r =
      let i = reached s r in
      (
        (λ e.
            let p : Pushes s.global s.queue m none =
              subst (Pushes s.global s.queue m) e (mq_push-Pushes s.global s.queue m i.valid) in
            ground (arith, p, i.phase)),
        (λ busy e. unfold mq_pushglobal in ground (arith, i.phase)),
        (λ busy e. unfold mq_force_push in ground (arith, i.phase)),
      )
