-- ===== src/Harbor/Remote/Master.antt =====
-- The requests of the harbor service to the master, and what a name that is not known holds.
use dn_server.Common.{
  ℕ, ◌*◌, ◌%◌, ◌^◌, ◌≡◌, ◌≢◌, refl, sym, ap, ◌∙◌, subst, inl, inr, List, [], ◌++◌, Option, none,
  some, arith, Bool-cases, Option-cases,
}
use dn_server.GlobalNames.{hash_search, hash_obtain}
use dn_server.GlobalNames.Find.{hash_obtain-item}
use dn_server.Harbor.{
  hash_size, Msg, MsgQueue, header_to_message, Entry, new_entry, Network, Harbor, htonl,
}
use dn_server.Harbor.Contents
use dn_server.Harbor.Contents.{contents, contents-push_queue, new_queue-IsValid}
use dn_server.Harbor.Remote.{send_package, close_fd, request_master}
use dn_server.Harbor.Remote.Dispatch.{Works, sent_as}
use dn_server.Harbor.Remote.Package.{Outgoing, packet, frame}

-- The node of a name, as the functions obtain it.
abbrev pub entry_of : {World : Type 0} → Harbor World → List ℕ → Entry
entry_of h name = (hash_obtain hash_size h.names name new_entry).0

abbrev pub held_by : Option MsgQueue → List Msg
held_by none = []
held_by (some q) = contents q

abbrev pub QueueIsValid : Option MsgQueue → Type 0
QueueIsValid none = Unit
QueueIsValid (some q) = Contents.IsValid q

-- The name is not known, and the messages wait for it, oldest first.
pub record Waits {World : Type 0} (h : Harbor World) (name : List ℕ) (ms : List Msg) : Type 0 where
  pub unknown : (entry_of h name).value ≡ 0
  pub valid : QueueIsValid ((entry_of h name).queue)
  pub messages : held_by ((entry_of h name).queue) ≡ ms

-- A name that the table has not yet.
pub new_name-Waits :
    {World : Type 0} (h : Harbor World) (name : List ℕ)
    → hash_search hash_size h.names name ≡ none
    → Waits h name []
new_name-Waits h name e =
    let fresh : entry_of h name ≡ new_entry =
      hash_obtain-item hash_size h.names name new_entry ∙ rw e refl in
    record {
      unknown = ap (λ n. n.value) fresh;
      valid = subst (λ n. QueueIsValid n.queue) (sym fresh) tt;
      messages = ap (λ n. held_by n.queue) fresh;
    }

-- The message as it waits.
abbrev pub as_msg : Outgoing → Msg
as_msg m = record {
  buffer = m.message;
  header = record {
    source = m.source;
    destination = m.type * 2 ^ 24 % 2 ^ 32;
    session = m.session;
  };
}

pub sent_as-as_msg :
    (handle : ℕ) (m : Outgoing) → sent_as handle (as_msg m) ≡ frame (packet m handle)
sent_as-as_msg handle m =
    ap
      (λ d. frame (
        m.message
        ++ header_to_message (record { source = m.source; destination = d; session = m.session })))
      (omega arith)

send_package-other :
    {World : Type 0} (net : Network World) (log : World → List (List ℕ)) (fd : ℕ)
    → Works net log fd
    → (w : World) (d : Option ℕ) (bytes : List ℕ) → d ≢ some fd
    → log ((send_package net w d bytes).1) ≡ log w
unfolding send_package
send_package-other net log fd works w none bytes ne = refl
send_package-other net log fd works w (some d) bytes ne = works.other_fd w d _ (λ e. ne (ap some e))

close_fd-other :
    {World : Type 0} (net : Network World) (log : World → List (List ℕ)) (fd : ℕ)
    → Works net log fd
    → (w : World) (d : Option ℕ) → d ≢ some fd
    → log (close_fd net w d) ≡ log w
close_fd-other net log fd works w none ne = refl
close_fd-other net log fd works w (some d) ne = works.closes w d (λ e. ne (ap some e))

-- Only the network and the socket of the master differ, and nothing was written to `fd`.
abbrev pub Quiet :
    {World : Type 0} → (World → List (List ℕ)) → ℕ → Harbor World → Harbor World → Type 0
Quiet log fd h h' =
    (h' ≡ record h { master_fd = h'.master_fd; world = h'.world })
    × (log h'.world ≡ log h.world)
    × (h'.master_fd ≢ some fd)

pub request_master-Quiet :
    {World : Type 0} (net : Network World) (log : World → List (List ℕ)) (fd : ℕ)
    → Works net log fd
    → (h : Harbor World) (name : List ℕ) (handle : ℕ) → h.master_addr ≢ none
    → h.master_fd ≢ some fd
    → (h' : Harbor World) × (request_master net h name handle ≡ some h') × Quiet log fd h h'
unfolding request_master
request_master-Quiet net log fd works h name handle there ne =
    let bytes = htonl handle ++ name in
    let (ok, w) = send_package net h.world h.master_fd bytes in
    let first = send_package-other net log fd works h.world h.master_fd bytes ne in
    elim (Bool-cases ok) [
      | inl e ↦ rw e (_, refl, (refl, first, ne))
      | inr e ↦ elim (Option-cases h.master_addr) [
        | inl null ↦ absurd (there null)
        | inr (addr, a) ↦
            let closed = close_fd net w h.master_fd in
            let (d, w₁) = net.connect closed addr in
            let fresh = works.fresh closed addr in
            rw (e, a)
              (
                _,
                refl,
                (
                  refl,
                  send_package-other net log fd works w₁ d bytes fresh
                      ∙ works.connects closed addr
                      ∙ close_fd-other net log fd works w h.master_fd ne
                      ∙ first,
                  fresh,
                ),
              )
      ]
    ]
