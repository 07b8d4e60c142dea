-- ===== src/Mq/Schedule/Steps.antt =====
-- What each operation of skynet_mq.c does to the fields that schedule a queue.
use dn_server.Common.{
  ℕ, suc, ◌+◌, ◌<◌, ◌≡◌, ◌≢◌, refl, ap, ◌∙◌, subst, ◌⊎◌, inl, inr, true, none, some, ◌==◌,
  if◌then◌else◌, arith, length, Bool-cases, ne→==,
}
use dn_server.Mq.{
  Message, MessageQueue, GlobalQueue, max_global_mq, mq_in_global, mq_dispatching, mq_locked,
  globalmq_push, globalmq_pop, mq_pop, mq_push, mq_lock, mq_force_push, mq_pushglobal, is_unlock,
  expand_queue, push_tail, pushhead, room_before_head, write_head, unlock_session, wake,
}
use dn_server.Mq.Contents
use dn_server.Mq.Refine.{Pops, Pushes, mq_pop-Pops, mq_push-Pushes}
use dn_server.Mq.Global.{IsValid, size, contents, Takes, contents-globalmq_push, globalmq_pop-Takes}
use dn_server.Mq.Schedule.{count, count-append_one}

pub count-globalmq_push :
    (g : GlobalQueue) (a b : ℕ)
    → IsValid g
    → size g + 1 < max_global_mq
    → count a (contents (globalmq_push g b)) ≡ count a (contents g) + (if b == a then 1 else 0)
count-globalmq_push g a b v room =
    ap (count a) (contents-globalmq_push g b v room).1 ∙ count-append_one a b (contents g)

pub count-globalmq_pop :
    (g g' : GlobalQueue) (a b : ℕ)
    → IsValid g
    → globalmq_pop g ≡ some (b, g')
    → IsValid g'
      × (count a (contents g)
          ≡ (if b == a then suc (count a (contents g')) else count a (contents g')))
count-globalmq_pop g g' a b v e =
    let t : Takes g (some (b, g')) = subst (Takes g) e (globalmq_pop-Takes g v) in
    (t.1, ap (count a) t.0)

pub mq_pop-none :
    (q q' : MessageQueue)
    → Contents.IsValid q
    → mq_pop q ≡ (none, q')
    → (q' ≡ record q { in_global = 0 }) × (Contents.size q ≡ 0)
mq_pop-none q q' v e =
    let p : Pops q (none, q') = subst (Pops q) e (mq_pop-Pops q v) in
    (p.1, omega (arith, ap length p.0, Contents.length-contents q))

pub mq_pop-some :
    (q q' : MessageQueue) (m : Message)
    → Contents.IsValid q
    → mq_pop q ≡ (some m, q')
    → Contents.IsValid q' × (q' ≡ record q { head = q'.head })
mq_pop-some q q' m v e =
    let p : Pops q (some m, q') = subst (Pops q) e (mq_pop-Pops q v) in (p.1, p.2)

-- The fields that the other side of a push reads or writes.
abbrev pub SameFields : MessageQueue → MessageQueue → Type 0
SameFields q q' =
    (q'.addr ≡ q.addr) × (q'.in_global ≡ q.in_global) × (q'.lock_session ≡ q.lock_session)

push_tail_same : (q : MessageQueue) (m : Message) → SameFields q (push_tail q m)
unfolding push_tail expand_queue
push_tail_same q m = ground arith

push_head_same : (q : MessageQueue) (m : Message) → SameFields q (write_head (room_before_head q) m)
unfolding room_before_head write_head expand_queue
push_head_same q m = ground arith

-- What a push does to the scheduling fields and to the global queue.
abbrev pub Sends : GlobalQueue → MessageQueue → Message → GlobalQueue → MessageQueue → Type 0
Sends g q m g' q' =
    (q'.addr ≡ q.addr)
    × (((is_unlock q m ≡ true)
          × (q.in_global ≡ mq_locked)
          × (q'.in_global ≡ mq_in_global)
          × (q'.lock_session ≡ 0)
          × (g' ≡ globalmq_push g q.addr))
        ⊎ ((is_unlock q m ≡ true)
            × (q.in_global ≡ mq_dispatching)
            × (q'.in_global ≡ mq_dispatching)
            × (q'.lock_session ≡ 0)
            × (g' ≡ g))
        ⊎ ((q.lock_session ≡ 0)
            × (q.in_global ≡ 0)
            × (q'.in_global ≡ mq_in_global)
            × (q'.lock_session ≡ 0)
            × (g' ≡ globalmq_push g q.addr))
        ⊎ (((q.lock_session ≢ 0) ⊎ (q.in_global ≢ 0))
            × (q'.in_global ≡ q.in_global)
            × (q'.lock_session ≡ q.lock_session)
            × (g' ≡ g)))

unlock-Sends :
    (g g' : GlobalQueue) (q q₁ q' : MessageQueue) (m : Message)
    → is_unlock q m ≡ true
    → SameFields q q₁
    → unlock_session g q₁ ≡ some (g', q')
    → Sends g q m g' q'
unfolding unlock_session
unlock-Sends g g' q q₁ q' m u same e = elim (Bool-cases (q₁.in_global == mq_locked)) [
  | inl locked ↦ (ground arith, inl (u, ground arith, ground arith, ground arith, ground arith))
  | inr other ↦ elim (Bool-cases (q₁.in_global == mq_dispatching)) [
    | inl busy ↦
        (ground arith, inr (inl (u, ground arith, ground arith, ground arith, ground arith)))
    | inr idle ↦ absurd (ground arith)
  ]
]

wake-Sends :
    (g g' : GlobalQueue) (q q₁ q' : MessageQueue) (m : Message)
    → SameFields q q₁
    → some (wake g q₁) ≡ some (g', q')
    → Sends g q m g' q'
unfolding wake
wake-Sends g g' q q₁ q' m same e = elim (Bool-cases (q₁.lock_session == 0)) [
  | inl free ↦ elim (Bool-cases (q₁.in_global == 0)) [
    | inl rest ↦ (
      ground arith,
      inr (inr (inl (ground arith, ground arith, ground arith, ground arith, ground arith))),
    )
    | inr busy ↦ (
      ground arith,
      inr (inr (inr (inr (ground arith), ground arith, ground arith, ground arith))),
    )
  ]
  | inr held ↦
      (ground arith, inr (inr (inr (inl (ground arith), ground arith, ground arith, ground arith))))
]

pub mq_push-Sends :
    (g g' : GlobalQueue) (q q' : MessageQueue) (m : Message)
    → mq_push g q m ≡ some (g', q')
    → Sends g q m g' q'
unfolding mq_push pushhead
mq_push-Sends g g' q q' m e = elim (Bool-cases (is_unlock q m)) [
  | inl u ↦
      unlock-Sends g g' q (write_head (room_before_head q) m) q' m u (push_head_same q m)
        (rw (u, mq_push) at e)
  | inr u ↦ wake-Sends g g' q (push_tail q m) q' m (push_tail_same q m) (rw (u, mq_push) at e)
]

pub mq_push-IsValid :
    (g g' : GlobalQueue) (q q' : MessageQueue) (m : Message)
    → Contents.IsValid q
    → mq_push g q m ≡ some (g', q')
    → Contents.IsValid q'
mq_push-IsValid g g' q q' m v e =
    (let p : Pushes g q m (some (g', q')) = subst (Pushes g q m) e (mq_push-Pushes g q m v) in p.0)

pub mq_lock-some :
    (q q' : MessageQueue) (session : ℕ)
    → mq_lock q session ≡ some q'
    → (q.lock_session ≡ 0)
      × (q.in_global ≡ mq_in_global)
      × (q' ≡ record q { in_global = mq_dispatching; lock_session = session })
unfolding mq_lock
mq_lock-some q q' session e = (ground arith, ground arith, ground arith)

pub mq_force_push-some :
    (g g' : GlobalQueue) (q : MessageQueue)
    → mq_force_push g q ≡ some g'
    → (q.in_global ≢ 0) × (g' ≡ globalmq_push g q.addr)
unfolding mq_force_push
mq_force_push-some g g' q e = (ground arith, ground arith)

-- What the end of a dispatch does: a locked queue stays out of the global queue.
pub mq_pushglobal-some :
    (g g' : GlobalQueue) (q q' : MessageQueue)
    → mq_pushglobal g q ≡ some (g', q')
    → (q.in_global ≢ 0)
      × (((q.lock_session ≡ 0)
            × (q' ≡ record q { in_global = mq_in_global })
            × (g' ≡ globalmq_push g q.addr))
          ⊎ ((q.lock_session ≢ 0)
              × (g' ≡ g)
              × (q' ≡ record q {
                in_global = if q.in_global == mq_dispatching then mq_locked else q.in_global;
              })))
unfolding mq_pushglobal
mq_pushglobal-some g g' q q' e = elim (Bool-cases (q.lock_session == 0)) [
  | inl free ↦ (ground arith, inl (ground arith, ground arith, ground arith))
  | inr held ↦ (ground arith, inr (ground arith, ground arith, ground arith))
]

pub mq_force_push-in_global :
    (g : GlobalQueue) (q : MessageQueue)
    → q.in_global ≡ mq_in_global
    → mq_force_push g q ≡ some (globalmq_push g q.addr)
unfolding mq_force_push
mq_force_push-in_global g q e =
    let ne : q.in_global ≢ 0 = omega (arith, e) in rw (ne→== q.in_global 0 ne) refl
