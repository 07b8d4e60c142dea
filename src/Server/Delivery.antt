-- ===== src/Server/Delivery.antt =====
-- The push of a message to a handle: who gets it, and that the reference is given back.
use dn_server.Common.{
  ℕ, ◌+◌, ◌-◌, ◌%◌, ◌^◌, ◌<◌, ◌≡◌, ◌≢◌, refl, sym, ap, subst, ◌∙◌, inl, inr, Option, none, some,
  ◌==◌, arith, Option-cases, eq→==, ne→==, ==→eq, Bool-cases,
}
use dn_server.Context.{Context, Heap, context_grab}
use dn_server.Handle.{HandleStorage, write, grab, resolve}
use dn_server.Mq.{Message, MessageQueue, GlobalQueue, mq_push}
use dn_server.Mq.Contents
use dn_server.Mq.Refine.{Pushes, mq_push-Pushes}
use dn_server.Mq.Wakes.{Wakes, mq_push-Wakes}
use dn_server.Server.{
  Node, set_queue, push_to, release_context, Pushed, pushed, nobody, push_grabbed, context_push,
}

-- Every context that a handle resolves to is held by a reference, and all queues are valid.
pub record IsLive (w : Node) : Type 0 where
  pub refs :
      (handle ctx : ℕ)
      → resolve w.heap w.handles handle ≡ some ctx
      → (0 < (w.heap ctx).ref) × ((w.heap ctx).ref < 2 ^ 32)
  pub queues : (ctx : ℕ) → Contents.IsValid (w.queues ctx)

-- What a push to a handle does: it fails by the assert of `skynet_mq_push`; or the handle resolves
-- to no context and nothing changes; or the queue of its context alone changes, as by a push, and
-- enters the global queue where the push wakes it. Nothing else of the node changes.
abbrev pub Delivers : Node → ℕ → Message → Option Pushed → Type 0
Delivers w handle m none =
    (ctx : ℕ) × (resolve w.heap w.handles handle ≡ some ctx) × Pushes w.global (w.queues ctx) m none
Delivers w handle m (some (nobody w')) = (resolve w.heap w.handles handle ≡ none) × (w' ≡ w)
Delivers w handle m (some (pushed w')) =
    (ctx : ℕ) × (resolve w.heap w.handles handle ≡ some ctx)
    × Pushes w.global (w.queues ctx) m (some (w'.global, w'.queues ctx))
    × Wakes w.global (w.queues ctx) m (some (w'.global, w'.queues ctx))
    × ((c : ℕ) → c ≢ ctx → w'.queues c ≡ w.queues c)
    × ((c : ℕ) → w'.heap c ≡ w.heap c)
    × (w'.handles ≡ w.handles)
    × (w'.harbor ≡ w.harbor)
    × (w'.remote ≡ w.remote)
    × (w'.rmsgs ≡ w.rmsgs)

-- A reference that is counted on top of others is given back without a deletion.
pub release_context-counted :
    (w : Node) (ctx r : ℕ)
    → 0 < r
    → r < 2 ^ 32
    → (w.heap ctx).ref ≡ (r + 1) % 2 ^ 32
    → release_context w ctx
      ≡ some (record w { heap = write w.heap ctx (record (w.heap ctx) { ref = r }) })
unfolding release_context
release_context-counted w ctx r pos bound e =
    let back : ((w.heap ctx).ref + 2 ^ 32 - 1) % 2 ^ 32 ≡ r = omega (arith, e) in
    rw (back, ne→== r 0 (omega arith)) refl

-- The state after the push of a message to the queue of a grabbed context.
abbrev after : Node → ℕ → GlobalQueue → MessageQueue → Node
after w ctx g q = record w {
  heap = write w.heap ctx (context_grab (w.heap ctx));
  global = g;
  queues = set_queue w ctx q;
}

pub grab-found :
    (heap : Heap) (s : HandleStorage) (handle ctx : ℕ)
    → resolve heap s handle ≡ some ctx
    → grab heap s handle ≡ (some ctx, write heap ctx (context_grab (heap ctx)))
unfolding grab
grab-found heap s handle ctx e = rw (e, grab) refl

pub push_to-some :
    (w : Node) (ctx : ℕ) (m : Message) (g : GlobalQueue) (q : MessageQueue)
    → mq_push w.global (w.queues ctx) m ≡ some (g, q)
    → push_to w ctx m ≡ some (record w { global = g; queues = set_queue w ctx q })
unfolding push_to
push_to-some w ctx m g q e = rw (e, push_to) refl

pub push_to-none :
    (w : Node) (ctx : ℕ) (m : Message)
    → mq_push w.global (w.queues ctx) m ≡ none
    → push_to w ctx m ≡ none
unfolding push_to
push_to-none w ctx m e = rw (e, push_to) refl

context_push-found :
    (w : Node) (handle ctx : ℕ) (m : Message) (g : GlobalQueue) (q : MessageQueue)
    → resolve w.heap w.handles handle ≡ some ctx
    → mq_push w.global (w.queues ctx) m ≡ some (g, q)
    → 0 < (w.heap ctx).ref
    → (w.heap ctx).ref < 2 ^ 32
    → context_push w handle m
      ≡ some (
          pushed (record (after w ctx g q) {
            heap =
                write
                  (after w ctx g q).heap
                  ctx
                  (record ((after w ctx g q).heap ctx) { ref = (w.heap ctx).ref });
          }))
unfolding context_push push_grabbed
context_push-found w handle ctx m g q e p pos bound =
    let heap = write w.heap ctx (context_grab (w.heap ctx)) in
    let released =
      release_context-counted (after w ctx g q) ctx (w.heap ctx).ref pos bound
        (rw (eq→== ctx ctx refl) refl) in
    let grabbed = grab-found w.heap w.handles handle ctx e in
    let put = push_to-some (record w { heap = heap }) ctx m g q p in
    ap (push_grabbed w m) grabbed ∙ rw (put, push_grabbed) (rw (released, push_grabbed) refl)

context_push-nobody :
    (w : Node) (handle : ℕ) (m : Message)
    → resolve w.heap w.handles handle ≡ none
    → context_push w handle m ≡ some (nobody w)
unfolding context_push push_grabbed grab
context_push-nobody w handle m e =
    let grabbed : grab w.heap w.handles handle ≡ (none, w.heap) = rw (e, grab) refl in
    ap (push_grabbed w m) grabbed

context_push-refused :
    (w : Node) (handle ctx : ℕ) (m : Message)
    → resolve w.heap w.handles handle ≡ some ctx
    → mq_push w.global (w.queues ctx) m ≡ none
    → context_push w handle m ≡ none
unfolding context_push push_grabbed
context_push-refused w handle ctx m e p =
    let heap = write w.heap ctx (context_grab (w.heap ctx)) in
    let grabbed = grab-found w.heap w.handles handle ctx e in
    let put = push_to-none (record w { heap = heap }) ctx m p in
    ap (push_grabbed w m) grabbed ∙ rw (put, push_grabbed) refl

-- Two writes to one context, the second of which takes the first back.
write_back :
    (heap : Heap) (ctx : ℕ) (d : Context)
    → heap ctx ≡ d
    → (c₁ : Context) (c : ℕ) → write (write heap ctx c₁) ctx d c ≡ heap c
write_back heap ctx d e c₁ c = elim (Bool-cases (c == ctx)) [
  | inl same ↦ let at : c ≡ ctx = ==→eq c ctx same in rw same (sym (ap heap at ∙ e))
  | inr other ↦ rw other refl
]

-- `skynet_context_push` in a live state pushes the message to the queue of the context that the
-- handle resolves to, or changes nothing where it resolves to none; it fails only by the assert of
-- `skynet_mq_push`. A queue that the push wakes goes to the end of the global queue, which stays
-- as it is otherwise; the reference that it takes is given back, and nothing else changes.
pub context_push-Delivers :
    (w : Node) (handle : ℕ) (m : Message) → IsLive w → Delivers w handle m (context_push w handle m)
context_push-Delivers w handle m live = elim (Option-cases (resolve w.heap w.handles handle)) [
  | inl e ↦ subst (Delivers w handle m) (sym (context_push-nobody w handle m e)) (e, refl)
  | inr (ctx, e) ↦
      let pushes = mq_push-Pushes w.global (w.queues ctx) m (live.queues ctx) in
      let woken = mq_push-Wakes w.global (w.queues ctx) m in
      elim (Option-cases (mq_push w.global (w.queues ctx) m)) [
        | inl p ↦
            subst (Delivers w handle m) (sym (context_push-refused w handle ctx m e p))
              (ctx, e, subst (Pushes w.global (w.queues ctx) m) p pushes)
        | inr ((g, q), p) ↦
            let (pos, bound) = live.refs handle ctx e in
            subst (Delivers w handle m) (sym (context_push-found w handle ctx m g q e p pos bound))
              (
                ctx,
                e,
                rw (eq→== ctx ctx refl) (subst (Pushes w.global (w.queues ctx) m) p pushes),
                rw (eq→== ctx ctx refl) (subst (Wakes w.global (w.queues ctx) m) p woken),
                λ c ne. rw (ne→== c ctx ne) refl,
                write_back w.heap ctx
                    (record (write w.heap ctx (context_grab (w.heap ctx)) ctx) {
                      ref = (w.heap ctx).ref;
                    })
                    (rw (eq→== ctx ctx refl) refl) (context_grab (w.heap ctx)),
                refl,
                refl,
                refl,
                refl,
              )
      ]
]
