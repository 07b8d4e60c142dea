-- ===== src/Server/Remote.antt =====
-- A message to a handle of another node: what the harbor service gets.
use dn_server.Common.{
  ℕ, ◌+◌, ◌≡◌, ◌≢◌, refl, sym, subst, inl, inr, true, false, Option, none, some, ◌==◌, arith,
  Option-cases, Bool-cases, eq→==, ne→==, ◌⊎◌, not, ◌&&◌,
}
use dn_server.Mq.{Message, mq_push}
use dn_server.Mq.Contents
use dn_server.Mq.Refine.{Pushes, mq_push-Pushes}
use dn_server.Server.{
  Node, RemoteMessage, ptype_system, ptype_harbor, unpack, shifted_type, rmsg_size, push_to,
  context_send, harbor_send, send_remote,
}
use dn_server.Server.Delivery.{push_to-some, push_to-none}

-- The message to the harbor service: it carries the type and the address of the remote message.
abbrev pub envelope : ℕ → Message → Message
envelope addr m = record {
  source = m.source;
  session = m.session;
  payload = addr;
  sz = rmsg_size + shifted_type (unpack m.sz).0;
}

-- What a send to another node does: it fails where the type is one of the node's own or by the
-- assert of `skynet_mq_push`; else the queue of the harbor service alone gets the envelope, and
-- the remote message has the destination, the data and the size without the type.
abbrev pub Forwards : Node → ℕ → ℕ → Message → Option Node → Type 0
Forwards w addr des m none =
    ((unpack m.sz).0 ≡ ptype_system ⊎ (unpack m.sz).0 ≡ ptype_harbor)
    ⊎ Pushes w.global (w.queues w.remote) (envelope addr m) none
Forwards w addr des m (some w') =
    ((unpack m.sz).0 ≢ ptype_system)
    × ((unpack m.sz).0 ≢ ptype_harbor)
    × Pushes w.global (w.queues w.remote) (envelope addr m) (some (w'.global, w'.queues w.remote))
    × ((c : ℕ) → c ≢ w.remote → w'.queues c ≡ w.queues c)
    × (w'.rmsgs addr ≡ record { destination = des; message = m.payload; sz = (unpack m.sz).1 })
    × ((a : ℕ) → a ≢ addr → w'.rmsgs a ≡ w.rmsgs a)

reserved_type :
    (type : ℕ)
    → (not (type == ptype_system) && not (type == ptype_harbor)) ≡ false
    → type ≡ ptype_system ⊎ type ≡ ptype_harbor
reserved_type type h = ground arith

free_type :
    (type : ℕ)
    → (not (type == ptype_system) && not (type == ptype_harbor)) ≡ true
    → (type ≢ ptype_system) × (type ≢ ptype_harbor)
free_type type h = ground arith

push_to-Forwards :
    (w : Node) (addr des : ℕ) (m : Message) (rmsgs : ℕ → RemoteMessage)
    → Contents.IsValid (w.queues w.remote)
    → (not ((unpack m.sz).0 == ptype_system) && not ((unpack m.sz).0 == ptype_harbor)) ≡ true
    → rmsgs addr ≡ record { destination = des; message = m.payload; sz = (unpack m.sz).1 }
    → ((a : ℕ) → a ≢ addr → rmsgs a ≡ w.rmsgs a)
    → Forwards w addr des m (push_to (record w { rmsgs = rmsgs }) w.remote (envelope addr m))
push_to-Forwards w addr des m rmsgs v free at others =
    let e = envelope addr m in
    let q₀ = w.queues w.remote in
    let w₁ = record w { rmsgs = rmsgs } in
    let pushes = mq_push-Pushes w.global q₀ e v in
    let (system, harbor) = free_type (unpack m.sz).0 free in
    elim (Option-cases (mq_push w.global q₀ e)) [
      | inl p ↦
          subst (Forwards w addr des m) (sym (push_to-none w₁ w.remote e p))
            (inr (subst (Pushes w.global q₀ e) p pushes))
      | inr ((g, q), p) ↦ subst (Forwards w addr des m) (sym (push_to-some w₁ w.remote e g q p)) (
        system,
        harbor,
        rw (eq→== w.remote w.remote refl) (subst (Pushes w.global q₀ e) p pushes),
        λ c ne. rw (ne→== c w.remote ne) refl,
        at,
        others,
      )
    ]

-- A message to another node, of which the harbor service has a valid queue, is wrapped in a remote
-- message, which the queue of the harbor service alone gets as an envelope; the send fails exactly
-- where the type is one of the node's own or by the assert of `skynet_mq_push`.
pub send_remote-Forwards :
    (w : Node) (addr des : ℕ) (m : Message)
    → Contents.IsValid (w.queues w.remote)
    → Forwards w addr des m (send_remote w addr des m)
unfolding send_remote harbor_send context_send
send_remote-Forwards w addr des m v =
    let type = (unpack m.sz).0 in
    rw (eq→== addr addr refl)
      (elim (Bool-cases (not (type == ptype_system) && not (type == ptype_harbor))) [
        | inl free ↦ rw free (
            push_to-Forwards w addr des m _ v free (rw (eq→== addr addr refl) refl)
              (λ a ne. rw (ne→== a addr ne) refl))
        | inr reserved ↦ rw reserved (inl (reserved_type type reserved))
      ])
