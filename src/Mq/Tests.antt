-- ===== src/Mq/Tests.antt =====
-- Runs of the queue code on small inputs, and each theorem at an input.
use dn_server.Common.{
  ℕ, ◌+◌, ◌^◌, ◌≤◌, ◌≡◌, ◌≢◌, refl, ◌⊎◌, true, false, [], ◌∷◌, none, some, arith,
}
use dn_server.Mq.{
  Message, MessageQueue, GlobalQueue, freed, dropped, uninit, update, globalmq_push, globalmq_pop,
  mq_create, mq_pop, mq_push, mq_release, mq_locked, mq_pushglobal, mq_force_push, push_tail,
  room_before_head, write_head, unlock_session, pushhead, wake, copy_cells, dispose,
}
use dn_server.Mq.Contents
use dn_server.Mq.Refine.{Pops, Pushes, mq_pop-Pops, mq_push-Pushes}
use dn_server.Mq.Global
use dn_server.Mq.Global.{Takes}
use dn_server.Mq.Drop.{dispose_all, mq_release-drops}
use dn_server.Mq.Schedule.{System, Reach, here, next, start, launch, send, take}
use dn_server.Mq.Schedule.Safety.{tokens, one_token, not_lost, no_assert_fails}

abbrev pub msg : ℕ → Message
msg session = record { source = 9; session = session; payload = 100 + session; sz = 2 ^ 24 }

-- Two of four cells, round the end; locked at rest for session 5.
abbrev pub wrapped : MessageQueue
wrapped = record {
  addr = 7;
  handle = 1;
  cap = 4;
  head = 3;
  tail = 1;
  release = false;
  lock_session = 5;
  in_global = mq_locked;
  queue = msg 2 ∷ uninit ∷ uninit ∷ msg 1 ∷ [];
}

-- Three of four cells: the next push grows the array.
abbrev nearly_full : MessageQueue
nearly_full = record wrapped { tail = 2; queue = msg 2 ∷ msg 3 ∷ uninit ∷ msg 1 ∷ [] }

abbrev pub empty_ring : GlobalQueue
empty_ring = record { head = 0; tail = 0; queue = λ _. 0; flag = λ _. false }

pub wrapped-IsValid : Contents.IsValid wrapped
wrapped-IsValid = omega arith

nearly_full-IsValid : Contents.IsValid nearly_full
nearly_full-IsValid = omega arith

mq_pop-Pops_example : Pops wrapped (mq_pop wrapped)
mq_pop-Pops_example = mq_pop-Pops wrapped wrapped-IsValid

-- The awaited message goes in front, and the array grows.
push_front_runs :
    mq_push empty_ring nearly_full (msg 5)
    ≡ some (
      globalmq_push empty_ring 7,
      record nearly_full {
        cap = 8;
        head = 7;
        tail = 3;
        lock_session = 0;
        in_global = 1;
        queue = msg 1 ∷ msg 2 ∷ msg 3 ∷ uninit ∷ uninit ∷ uninit ∷ uninit ∷ msg 5 ∷ [];
      },
    )
unfolding mq_push pushhead room_before_head write_head unlock_session copy_cells
push_front_runs = refl

mq_push-Pushes_example :
    Pushes empty_ring nearly_full (msg 5) (mq_push empty_ring nearly_full (msg 5))
mq_push-Pushes_example = mq_push-Pushes empty_ring nearly_full (msg 5) nearly_full-IsValid

mq_release-drops_example :
    mq_release empty_ring (record wrapped { release = true })
    ≡ some (dropped (freed 101 ∷ freed 102 ∷ []))
unfolding dispose_all dispose
mq_release-drops_example =
    mq_release-drops empty_ring (record wrapped { release = true }) (omega arith) refl

pub empty_ring-IsValid : Global.IsValid empty_ring
empty_ring-IsValid = record {
  head_small = omega arith;
  tail_small = omega arith;
  room = omega arith;
  flags = λ i h. absurd (omega arith);
}

contents-globalmq_push_example :
    Global.IsValid (globalmq_push empty_ring 7)
    × (Global.contents (globalmq_push empty_ring 7) ≡ 7 ∷ [])
contents-globalmq_push_example =
    Global.contents-globalmq_push empty_ring 7 empty_ring-IsValid (omega arith)

globalmq_pop-Takes_example :
    Takes (globalmq_push empty_ring 7) (globalmq_pop (globalmq_push empty_ring 7))
globalmq_pop-Takes_example =
    Global.globalmq_pop-Takes (globalmq_push empty_ring 7) contents-globalmq_push_example.0

-- The service is launched, a message comes, and a worker takes the queue.
abbrev served : System
served = record {
  global = record {
    head = 1;
    tail = 1;
    queue = update (λ _. 0) 0 7;
    flag = update (update (λ _. false) 0 true) 0 false;
  };
  queue = push_tail (mq_create 7 1) (msg 1);
  launching = 0;
  taken = 1;
  running = 0;
}

served_reached : Reach (start empty_ring 7 1) served
unfolding start globalmq_push globalmq_pop mq_create mq_force_push mq_push push_tail wake
served_reached =
    next
      (next (next here (launch 0 (globalmq_push empty_ring 7) refl (omega arith) refl)) (
        send (msg 1) (globalmq_push empty_ring 7) (push_tail (mq_create 7 1) (msg 1)) (omega arith)
          refl))
      (take served.global refl)

one_token_example : tokens served ≤ 1
one_token_example = one_token empty_ring 7 1 empty_ring-IsValid refl served served_reached

not_lost_example :
    (tokens served ≡ 1) ⊎ ((served.queue.in_global ≡ mq_locked) × (served.queue.lock_session ≢ 0))
unfolding push_tail mq_create
not_lost_example = not_lost empty_ring 7 1 empty_ring-IsValid refl served served_reached (λ e. cc)

no_assert_fails_example :
    (mq_push served.global served.queue (msg 2) ≢ none)
    × (served.running ≢ 0 → mq_pushglobal served.global served.queue ≢ none)
    × (served.launching ≢ 0 → mq_force_push served.global served.queue ≢ none)
no_assert_fails_example =
    no_assert_fails empty_ring 7 1 empty_ring-IsValid refl served (msg 2) served_reached
