-- ===== src/Server/Routing.antt =====
-- Where `skynet_send` sends: to the handle in this node, or to the harbor service.
use dn_server.Common.{
  ℕ, ◌%◌, ◌^◌, ◌<◌, ◌≡◌, ◌≢◌, refl, sym, ap, subst, ◌∙◌, inl, inr, false, Option, none, some, ◌==◌,
  if◌then◌else◌, Option-cases, Bool-cases, ne→==, ==→eq, ◌⊎◌,
}
use dn_server.Context.{Context, Heap, context_newsession}
use dn_server.Handle.{write}
use dn_server.Mq.{Message}
use dn_server.Server.{
  Node, message_isremote, context_push, Pushed, pushed, nobody, Sent, sent, failed, send, route,
  send_message, Args, filter_args,
}
use dn_server.Server.Delivery.{IsLive, Delivers, context_push-Delivers}
use dn_server.Server.Tags.{Filters, filter_args-Filters}
use dn_server.Handle.Retire.{resolve-same, write_same}

newsession_same :
    (c : Context)
    → ((context_newsession c).0.handle ≡ c.handle) × ((context_newsession c).0.ref ≡ c.ref)
unfolding context_newsession
newsession_same c = (refl, refl)

filtered_same :
    (c : Context) (copy type session payload sz : ℕ) (a : Args)
    → Filters c copy type session payload sz (some a)
    → (a.context.handle ≡ c.handle) × (a.context.ref ≡ c.ref)
filtered_same c copy type session payload sz a (_, inl (_, _, e), _) =
    let same = newsession_same c in
    let at : a.context ≡ (context_newsession c).0 = ap (λ p. p.0) e in
    (ap (λ x. x.handle) at ∙ same.0, ap (λ x. x.ref) at ∙ same.1)
filtered_same c copy type session payload sz a (_, inr (_, e, _), _) =
    (ap (λ x. x.handle) e, ap (λ x. x.ref) e)

-- The node with the context that `_filter_args` leaves.
abbrev pub filtered : Node → ℕ → Args → Node
filtered w ctx a = record w { heap = write w.heap ctx a.context }

write_ref :
    (heap : Heap) (ctx : ℕ) (c : Context) (b : ℕ)
    → c.ref ≡ (heap ctx).ref
    → (write heap ctx c b).ref ≡ (heap b).ref
write_ref heap ctx c b e = elim (Bool-cases (b == ctx)) [
  | inl q ↦ rw q (e ∙ ap (λ x. (heap x).ref) (sym (==→eq b ctx q)))
  | inr q ↦ rw q refl
]

filtered-IsLive :
    (w : Node) (ctx : ℕ) (a : Args)
    → (a.context.handle ≡ (w.heap ctx).handle) × (a.context.ref ≡ (w.heap ctx).ref)
    → IsLive w
    → IsLive (filtered w ctx a)
filtered-IsLive w ctx a (h, r) live = record {
  refs = λ handle b e.
      let old = live.refs handle b (
        sym (
          resolve-same w.heap (write w.heap ctx a.context) w.handles handle
            (write_same w.heap ctx a.context h))
        ∙ e) in
      subst (λ k. (0 < k) × (k < 2 ^ 32)) (sym (write_ref w.heap ctx a.context b r)) old;
  queues = live.queues;
}

-- The message that `skynet_send` makes of the filtered arguments.
abbrev pub message_of : Node → ℕ → ℕ → Args → Message
message_of w ctx source a = record {
  source = if source == 0 then (w.heap ctx).handle else source;
  session = a.session;
  payload = a.payload;
  sz = a.sz;
}

-- The result of a push to a handle, as `skynet_send` returns it.
abbrev pub result_of : Args → Option Pushed → Option Sent
result_of a none = none
result_of a (some (pushed w)) = some (sent w a.session)
result_of a (some (nobody w)) = some (failed w a.payload)

-- What a send to a handle of this node does: it fails by the asserts of `_filter_args`, or the
-- message of the filtered arguments is delivered and the result tells how, a failure by the assert
-- of `skynet_mq_push` included.
abbrev pub SendsHere : Node → ℕ → ℕ → ℕ → ℕ → ℕ → ℕ → ℕ → ℕ → Option Sent → Type 0
SendsHere w ctx copy source destination type session payload sz r =
    Filters (w.heap ctx) copy type session payload sz none × (r ≡ none)
    ⊎ ((a : Args) × Filters (w.heap ctx) copy type session payload sz (some a)
        × ((p : Option Pushed) × Delivers (filtered w ctx a) destination (message_of w ctx source a)
              p
            × (r ≡ result_of a p)))

route-here :
    (w : Node) (addr destination : ℕ) (m : Message) (a : Args)
    → destination ≢ 0
    → message_isremote w.harbor destination ≡ false
    → m.session ≡ a.session
    → m.payload ≡ a.payload
    → route w addr destination m ≡ result_of a (context_push w destination m)
unfolding route send_message
route-here w addr destination m a ne here s p =
    rw (ne→== destination 0 ne, here)
      (elim (Option-cases (context_push w destination m)) [
        | inl e ↦ rw e refl
        | inr (pushed w', e) ↦ rw e (ap (λ k. some (sent w' k)) s)
        | inr (nobody w', e) ↦ rw e (ap (λ k. some (failed w' k)) p)
      ])

-- `skynet_send` in a live state, with a type below 128, to a handle that is not 0 and of this
-- node, fails by the asserts of `_filter_args` or by that of `skynet_mq_push`, or pushes the message
-- of the filtered arguments to the context of the handle, which enters the global queue where the
-- push wakes it, and returns the session, or frees the data where the handle resolves to none.
pub send-SendsHere :
    (w : Node) (ctx copy addr source destination type session payload sz : ℕ)
    → IsLive w
    → type % 2 ^ 8 < 128
    → destination ≢ 0
    → message_isremote w.harbor destination ≡ false
    → SendsHere w ctx copy source destination type session payload sz
        (send w ctx copy addr source destination type session payload sz)
unfolding send
send-SendsHere w ctx copy addr source destination type session payload sz live t ne here =
    let c = w.heap ctx in
    let filters = filter_args-Filters c copy type session payload sz t in
    let Goal = SendsHere w ctx copy source destination type session payload sz in
    let result = send w ctx copy addr source destination type session payload sz in
    elim (Option-cases (filter_args c copy type session payload sz)) [
      | inl e ↦
          let q : result ≡ none = rw (e, send) refl in
          subst Goal (sym q) (inl (subst (Filters c copy type session payload sz) e filters, refl))
      | inr (a, e) ↦
          let f = subst (Filters c copy type session payload sz) e filters in
          let w' = filtered w ctx a in
          let m = message_of w ctx source a in
          let q : result ≡ route w' addr destination m = rw (e, send) refl in
          inr (
            a,
            f,
            (
              context_push w' destination m,
              context_push-Delivers w' destination m
                  (filtered-IsLive w ctx a (filtered_same c copy type session payload sz a f) live),
              q ∙ route-here w' addr destination m a ne here refl refl,
            ),
          )
    ]
