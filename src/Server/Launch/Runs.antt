-- ===== src/Server/Launch/Runs.antt =====
-- What a launch leaves: the context, its handle and its queue.
use dn_server.Common.{
  ℕ, ◌+◌, ◌-◌, ◌%◌, ◌^◌, ◌<◌, ◌≤◌, ◌≡◌, ◌≢◌, refl, sym, ap, subst, ◌∙◌, Bool, true, false, [], ◌∷◌,
  ◌++◌, Option, none, some, arith, eq→==, ne→==,
}
use dn_server.Context.{Context, Heap, context_init, context_release}
use dn_server.Handle.{
  HandleStorage, handle_bits, write, resolve, register, registered, aborted, out_of_fuel,
  Registered, slot_at,
}
use dn_server.Handle.Slots
use dn_server.Handle.Register.{Registers, register-Registers}
use dn_server.Handle.Retire.{resolve-same, write_same}
use dn_server.Mq.{mq_create, globalmq_push, max_global_mq}
use dn_server.Mq.Global
use dn_server.Mq.Schedule.Steps.{mq_force_push-in_global}
use dn_server.Mq.Global.{size, contents, contents-globalmq_push}
use dn_server.Server.{Node, set_queue, release_context}
use dn_server.Server.Launch.{
  Launched, launched, ended, refused, new_context, mark_launched, start_context, context_new,
}

-- The reference of the launch is given back, one is left.
release_context-first :
    (w : Node) (ctx : ℕ)
    → (w.heap ctx).ref ≡ 2
    → release_context w ctx
      ≡ some (record w { heap = write w.heap ctx (record (w.heap ctx) { ref = 1 }) })
unfolding release_context
release_context-first w ctx e =
    let back : ((w.heap ctx).ref + 2 ^ 32 - 1) % 2 ^ 32 ≡ 1 = omega (arith, e) in rw back refl

release-kept : (c : Context) → c.ref ≡ 2 → (context_release c).1 ≡ false
release-kept c e = let back : (c.ref + 2 ^ 32 - 1) % 2 ^ 32 ≡ 1 = omega (arith, e) in rw back refl

-- A node in which the context has its handle, two references and a new queue.
pub record IsMade (w : Node) (ctx handle : ℕ) : Type 0 where
  pub resolves : resolve w.heap w.handles handle ≡ some ctx
  pub refs : (w.heap ctx).ref ≡ 2
  pub waits : (w.queues ctx).in_global ≡ 1

-- The service runs: its handle resolves to it, it is initialised with one reference left, and its
-- queue stands last in the global queue.
abbrev pub Runs : Node → ℕ → ℕ → Node → Type 0
Runs w ctx handle w' =
    (resolve w'.heap w'.handles handle ≡ some ctx)
    × ((k : ℕ) → resolve w'.heap w'.handles k ≡ resolve w.heap w.handles k)
    × (w'.heap ctx ≡ record (w.heap ctx) { ref = 1; init = true })
    × ((c : ℕ) → c ≢ ctx → w'.heap c ≡ w.heap c)
    × Global.IsValid w'.global
    × (contents w'.global ≡ contents w.global ++ (w.queues ctx).addr ∷ [])
    × (w'.queues ≡ w.queues)

start_context-Runs :
    (w : Node) (ctx handle : ℕ)
    → IsMade w ctx handle
    → Global.IsValid w.global
    → size w.global + 1 < max_global_mq
    → (w' : Node) × (start_context w ctx handle ≡ some (launched w' handle)) × Runs w ctx handle w'
unfolding start_context mark_launched
start_context-Runs w ctx handle made v room =
    let one = record (w.heap ctx) { ref = 1 } in
    let heap = write w.heap ctx one in
    let heap' = write heap ctx (record (heap ctx) { init = true }) in
    let (valid, last) = contents-globalmq_push w.global (w.queues ctx).addr v room in
    let released = release_context-first w ctx made.refs in
    let put = mq_force_push-in_global w.global (w.queues ctx) made.waits in
    let same = λ (c : ℕ).
      write_same heap ctx (record (heap ctx) { init = true }) refl c
      ∙ write_same w.heap ctx one refl c in
    (
      record w { global = globalmq_push w.global (w.queues ctx).addr; heap = heap' },
      rw (released, start_context)
          (rw put (rw (release-kept (w.heap ctx) made.refs, mark_launched) refl)),
      (
        resolve-same w.heap heap' w.handles handle same ∙ made.resolves,
        λ k. resolve-same w.heap heap' w.handles k same,
        rw (eq→== ctx ctx refl) refl,
        λ c ne. rw (ne→== c ctx ne) refl,
        valid,
        last,
        refl,
      ),
    )

-- The node with a context just registered, and its queue.
abbrev pub made : Node → ℕ → ℕ → ℕ × HandleStorage × Heap → Node
made w ctx addr (handle, s, heap) = record w {
  handles = s;
  heap = heap;
  queues = set_queue w ctx (mq_create addr handle);
}

-- What a launch does: it fails where all 2 ^ 24 slots are taken, else the service runs under a new
-- handle, and all other handles, contexts and queues are as they were.
abbrev pub Launches : Node → ℕ → ℕ → Option Launched → Type 0
Launches w ctx addr none =
    (handle_bits ≤ w.handles.slot_size)
    × ((i : ℕ) → i < w.handles.slot_size → (c : ℕ) × (slot_at w.handles.slot i ≡ some c))
Launches w ctx addr (some (ended w')) = ⊥
Launches w ctx addr (some (refused w' r)) = ⊥
Launches w ctx addr (some (launched w' handle)) =
    (resolve (write w.heap ctx new_context) w.handles handle ≡ none)
    × (resolve w'.heap w'.handles handle ≡ some ctx)
    × ((k : ℕ)
        → k ≢ handle
        → resolve w'.heap w'.handles k ≡ resolve (write w.heap ctx new_context) w.handles k)
    × (w'.heap ctx ≡ record new_context { handle = handle; ref = 1; init = true })
    × ((c : ℕ) → c ≢ ctx → w'.heap c ≡ w.heap c)
    × (contents w'.global ≡ contents w.global ++ addr ∷ [])
    × (w'.queues ctx ≡ mq_create addr handle)
    × ((c : ℕ) → c ≢ ctx → w'.queues c ≡ w.queues c)

made-IsMade :
    (w : Node) (ctx addr handle : ℕ) (s : HandleStorage) (heap : Heap)
    → resolve heap s handle ≡ some ctx
    → heap
      ≡ write
          (write w.heap ctx new_context)
          ctx
          (context_init ((write w.heap ctx new_context) ctx) handle)
    → IsMade (made w ctx addr (handle, s, heap)) ctx handle
unfolding mq_create
made-IsMade w ctx addr handle s heap r e = record {
  resolves = r;
  refs = ap (λ h. (h ctx).ref) e ∙ rw (eq→== ctx ctx refl) refl;
  waits = rw (eq→== ctx ctx refl) refl;
}

context_new-registered :
    (init : Node → Node × Bool) (w : Node) (ctx addr : ℕ) (r : ℕ × HandleStorage × Heap)
    → ((w₁ : Node) → init w₁ ≡ (w₁, true))
    → register (write w.heap ctx new_context) w.handles ctx ≡ registered r
    → context_new init w ctx addr ≡ start_context (made w ctx addr r) ctx r.0
unfolding context_new
context_new-registered init w ctx addr r quiet e =
    rw (e, context_new) (rw (quiet (made w ctx addr r)) refl)

context_new-aborted :
    (init : Node → Node × Bool) (w : Node) (ctx addr : ℕ)
    → register (write w.heap ctx new_context) w.handles ctx ≡ aborted
    → context_new init w ctx addr ≡ none
unfolding context_new
context_new-aborted init w ctx addr e = rw (e, context_new) refl

registered-Launches :
    (init : Node → Node × Bool) (w : Node) (ctx addr : ℕ) (r : Registered)
    → ((w₁ : Node) → init w₁ ≡ (w₁, true))
    → register (write w.heap ctx new_context) w.handles ctx ≡ r
    → Registers (write w.heap ctx new_context) w.handles ctx r
    → Global.IsValid w.global
    → size w.global + 1 < max_global_mq
    → Launches w ctx addr (context_new init w ctx addr)
unfolding mq_create
registered-Launches init w ctx addr aborted quiet e g ring room =
    subst (Launches w ctx addr) (sym (context_new-aborted init w ctx addr e)) g
registered-Launches init w ctx addr out_of_fuel quiet e g ring room = absurd g
registered-Launches init w ctx addr (registered (h, s, heap)) quiet e g ring room =
    let (fresh, found, kept, _, _, _, at) = g in
    let (w', starts, runs) =
      start_context-Runs (made w ctx addr (h, s, heap)) ctx h
        (made-IsMade w ctx addr h s heap found at) ring room in
    let (resolves, stays, mine, others, _, last, queues) = runs in
    let q = context_new-registered init w ctx addr (h, s, heap) quiet e ∙ starts in
    subst (Launches w ctx addr) (sym q) (
      fresh,
      resolves,
      λ k ne. stays k ∙ kept k ne,
      mine ∙ ap (λ f. record (f ctx) { ref = 1; init = true }) at ∙ rw (eq→== ctx ctx refl) refl,
      λ c ne. others c ne ∙ (ap (λ f. f c) at ∙ rw (ne→== c ctx ne) refl),
      last ∙ rw (eq→== ctx ctx refl) refl,
      ap (λ f. f ctx) queues ∙ rw (eq→== ctx ctx refl) refl,
      λ c ne. ap (λ f. f c) queues ∙ rw (ne→== c ctx ne) refl,
    )

-- `skynet_context_new` of a context that stands in no slot of a valid storage, with an `init` that
-- succeeds and leaves the node as it is, while there is room in a valid global queue: the service
-- runs under a new handle with one reference, initialised, and its new queue waits last; all other
-- handles, contexts and queues are as they were. It fails only where 2 ^ 24 slots are all taken.
pub context_new-Launches :
    (init : Node → Node × Bool) (w : Node) (ctx addr : ℕ)
    → ((w₁ : Node) → init w₁ ≡ (w₁, true))
    → Slots.IsValid (write w.heap ctx new_context) w.handles
    → ((i : ℕ) → slot_at w.handles.slot i ≢ some ctx)
    → Global.IsValid w.global
    → size w.global + 1 < max_global_mq
    → Launches w ctx addr (context_new init w ctx addr)
context_new-Launches init w ctx addr quiet v new ring room =
    let heap = write w.heap ctx new_context in
    registered-Launches init w ctx addr (register heap w.handles ctx) quiet refl
      (register-Registers heap w.handles ctx v new) ring room
