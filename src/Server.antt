-- ===== src/Server.antt =====
-- How a message gets to a service: dn/skynet-src/skynet_server.c with dn/skynet-src/skynet_harbor.c.
-- A call runs without other threads between its steps. Addresses that `malloc` returns are given.
-- `skynet_error` only writes to the log, so it is left out; a result `none` is a failed assert.
-- `type` is the bit pattern of an `int`, `size_t` has 64 bits.
pub mod Tags
pub mod Delivery
pub mod Remote
pub mod Launch
pub mod Routing
pub mod Tests
use dn_server.Common.{
  ℕ, zero, suc, ◌+◌, ◌-◌, ◌*◌, ◌/◌, ◌%◌, ◌^◌, Bool, true, false, List, [], ◌∷◌, Option, none, some,
  ltb, ◌==◌, if◌then◌else◌, ◌&&◌, ◌||◌, not, assert,
}
use dn_server.Context.{Context, Heap, context_grab, context_release, context_newsession}
use dn_server.Handle.{
  HandleStorage, write, grab, retire, register, registered, aborted, out_of_fuel,
}
use dn_server.Mq.{
  Message, MessageQueue, GlobalQueue, mq_push, mq_mark_release, mq_force_push, mq_release,
  mq_create, Released,
}

-- `struct remote_message`, sent to a handle.
pub record RemoteMessage : Type 0 where
  pub destination : ℕ
  pub message : ℕ
  pub sz : ℕ

-- The state that the functions share: `HARBOR` and `REMOTE` of skynet_harbor.c, the handle storage,
-- the contexts and the queue of each by address, the global queue, and the remote messages.
pub record Node : Type 0 where
  pub harbor : ℕ
  pub remote : ℕ
  pub handles : HandleStorage
  pub heap : Heap
  pub queues : ℕ → MessageQueue
  pub global : GlobalQueue
  pub rmsgs : ℕ → RemoteMessage

abbrev pub ptype_system : ℕ
ptype_system = 4

abbrev pub ptype_harbor : ℕ
ptype_harbor = 5

-- `skynet_harbor_init`: the value of `HARBOR`.
abbrev pub harbor_init : ℕ → ℕ
harbor_init harbor = harbor * 2 ^ 24 % 2 ^ 32

-- `skynet_harbor_message_isremote`: `handle & ~HANDLE_MASK` clears the low 24 bits.
abbrev pub message_isremote : ℕ → ℕ → Bool
message_isremote harbor handle = not (handle / 2 ^ 24 * 2 ^ 24 == harbor)

-- `type << HANDLE_REMOTE_SHIFT` as a `size_t`: the 32-bit `int` with its sign.
abbrev pub shifted_type : ℕ → ℕ
shifted_type type =
    let v = type * 2 ^ 24 % 2 ^ 32 in if ltb v (2 ^ 31) then v else v + (2 ^ 64 - 2 ^ 32)

-- `msg->sz >> HANDLE_REMOTE_SHIFT` as an `int`, and `msg->sz & HANDLE_MASK`
abbrev pub unpack : ℕ → ℕ × ℕ
unpack sz = (sz / 2 ^ 24 % 2 ^ 32, sz % 2 ^ 24)

abbrev pub set_queue : Node → ℕ → MessageQueue → ℕ → MessageQueue
set_queue w ctx q c = if c == ctx then q else w.queues c

-- `skynet_mq_push` to the queue of a context
pub push_to : Node → ℕ → Message → Option Node
push_to w ctx m = elim (mq_push w.global (w.queues ctx) m) [
  | none ↦ none
  | some (g, q) ↦ some (record w { global = g; queues = set_queue w ctx q })
]

-- `skynet_context_release`, with the mark of the queue in `_delete_context`.
pub release_context : Node → ℕ → Option Node
release_context w ctx =
    let (c, deleted) = context_release (w.heap ctx) in
    let w' = record w { heap = write w.heap ctx c } in
    if deleted
    then elim (mq_mark_release w.global (w.queues ctx)) [
      | none ↦ none
      | some (g, q) ↦ some (record w' { global = g; queues = set_queue w ctx q })
    ]
    else some w'

-- How `skynet_context_push` ends: the returned 0 or -1.
pub data Pushed : Type 0 where
  pushed : Node → Pushed
  nobody : Node → Pushed

-- `skynet_context_push` after the grab
pub push_grabbed : Node → Message → Option ℕ × Heap → Option Pushed
push_grabbed w m (none, heap) = some (nobody (record w { heap = heap }))
push_grabbed w m (some ctx, heap) = elim (push_to (record w { heap = heap }) ctx m) [
  | none ↦ none
  | some w' ↦ elim (release_context w' ctx) [ none ↦ none | some w'' ↦ some (pushed w'') ]
]

-- `skynet_context_push`
pub context_push : Node → ℕ → Message → Option Pushed
context_push w handle m = push_grabbed w m (grab w.heap w.handles handle)

-- `skynet_context_send`; `sz` is below 2 ^ 24.
pub context_send : Node → ℕ → ℕ → ℕ → ℕ → ℕ → ℕ → Option Node
context_send w ctx msg sz source type session =
    push_to w ctx
      (record { source = source; session = session; payload = msg; sz = sz + shifted_type type })

-- `sizeof(struct remote_message)`
abbrev pub rmsg_size : ℕ
rmsg_size = 40

-- `skynet_harbor_send` of the remote message at an address.
pub harbor_send : Node → ℕ → ℕ → ℕ → Option Node
harbor_send w addr source session =
    let rmsg = w.rmsgs addr in
    let (type, sz) = unpack rmsg.sz in
    let w' = record w { rmsgs = λ a. if a == addr then record rmsg { sz = sz } else w.rmsgs a } in
    assert (not (type == ptype_system) && not (type == ptype_harbor))
      (context_send w' w.remote addr rmsg_size source type session)

-- How a send ends: delivered, or the data at an address is freed.
pub data Outcome : Type 0 where
  delivered : Node → Outcome
  dropped : Node → ℕ → Outcome

-- The remote message that `malloc` puts at `addr`, for `_send_message` and `skynet_send`.
pub send_remote : Node → ℕ → ℕ → Message → Option Node
send_remote w addr des m =
    let rmsg : RemoteMessage = record { destination = des; message = m.payload; sz = m.sz } in
    harbor_send (record w { rmsgs = λ a. if a == addr then rmsg else w.rmsgs a }) addr m.source
      m.session

-- `_send_message`
pub send_message : Node → ℕ → ℕ → Message → Option Outcome
send_message w addr des m =
    if message_isremote w.harbor des
    then elim (send_remote w addr des m) [ none ↦ none | some w' ↦ some (delivered w') ]
    else elim (context_push w des m) [
      | none ↦ none
      | some (pushed w') ↦ some (delivered w')
      | some (nobody w') ↦ some (dropped w' m.payload)
    ]

-- `skynet_forward`
pub forward : Context → ℕ → Option Context
forward c destination = assert (c.forward == 0) (some (record c { forward = destination }))

-- `_forwarding`: `none` stands for the returned 0.
pub forwarding : Node → ℕ → ℕ → Message → Option (Option Outcome)
forwarding w addr ctx m =
    let c = w.heap ctx in
    if c.forward == 0
    then some none
    else elim (send_message (record w { heap = write w.heap ctx (record c { forward = 0 }) }) addr
        c.forward m) [ none ↦ none | some o ↦ some (some o) ]

-- What `_filter_args` leaves: the context, the session, the data and the size.
pub record Args : Type 0 where
  pub context : Context
  pub session : ℕ
  pub payload : ℕ
  pub sz : ℕ

abbrev pub is_dontcopy : ℕ → Bool
is_dontcopy type = type / 2 ^ 16 % 2 == 1

abbrev pub is_allocsession : ℕ → Bool
is_allocsession type = type / 2 ^ 17 % 2 == 1

-- `_filter_args`; a copy of the data is made at `copy`.
pub filter_args : Context → ℕ → ℕ → ℕ → ℕ → ℕ → Option Args
filter_args c copy type session payload sz =
    let (c', session') = if is_allocsession type then context_newsession c else (c, session) in
    let payload' = if not (is_dontcopy type) && not (payload == 0) then copy else payload in
    assert (not (is_allocsession type) || session == 0) (
      assert (ltb sz (2 ^ 24)) (
        some (record {
          context = c';
          session = session';
          payload = payload';
          sz = sz + shifted_type (type % 2 ^ 8);
        })))

-- How `skynet_send` ends: a session, or -1 with the data freed.
pub data Sent : Type 0 where
  sent : Node → ℕ → Sent
  failed : Node → ℕ → Sent

-- The part of `skynet_send` after `_filter_args`; it sends in the two ways of `_send_message`.
pub route : Node → ℕ → ℕ → Message → Option Sent
route w addr destination m =
    if destination == 0 then some (sent w m.session) else elim (send_message w addr destination m) [
      | none ↦ none
      | some (delivered w') ↦ some (sent w' m.session)
      | some (dropped w' payload) ↦ some (failed w' payload)
    ]

-- `skynet_send` by the context at `ctx`, with the addresses of the copy and the remote message.
pub send : Node → ℕ → ℕ → ℕ → ℕ → ℕ → ℕ → ℕ → ℕ → ℕ → Option Sent
send w ctx copy addr source destination type session payload sz =
    elim (filter_args (w.heap ctx) copy type session payload sz) [
      | none ↦ none
      | some a ↦
          let source' = if source == 0 then (w.heap ctx).handle else source in
          route (record w { heap = write w.heap ctx a.context }) addr destination
            (record { source = source'; session = a.session; payload = a.payload; sz = a.sz })
    ]
