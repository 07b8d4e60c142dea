-- ===== src/Harbor/Remote/Waiting.antt =====
-- Messages to a global name that is not known yet: they wait, and are sent when it is.
use dn_server.Common.{
  ℕ, ◌≡◌, ◌≢◌, refl, sym, ap, ◌∙◌, subst, false, List, [], ◌∷◌, ◌++◌, Option, none, some, take,
  ◌>>=◌,
}
use dn_server.GlobalNames.{HashMap, globalname_length, hash_search, hash_put}
use dn_server.GlobalNames.Find.{is_same, is_same_self, hash_obtain-item, hash_search-put}
use dn_server.Harbor.{
  hash_size, Msg, MsgQueue, Entry, new_entry, new_queue, push_queue, Network, Harbor, name_length,
}
use dn_server.Harbor.Contents
use dn_server.Harbor.Contents.{contents, contents-push_queue, new_queue-IsValid}
use dn_server.Harbor.Remote.{queue_or_new, request_master, remote_register_name, remote_send_name}
use dn_server.Harbor.Remote.Dispatch.{Works}
use dn_server.Harbor.Remote.Package.{Outgoing}
use dn_server.Harbor.Remote.Master.{
  entry_of, held_by, QueueIsValid, as_msg, request_master-Quiet, Waits,
}

-- The node that is put for a name is the one that is found.
entry_of-put :
    {World : Type 0} (h : Harbor World) (names : HashMap Entry) (name : List ℕ) (node : Entry)
    → h.names ≡ hash_put hash_size names name new_entry node
    → entry_of h name ≡ node
entry_of-put h names name node e =
    hash_obtain-item hash_size h.names name new_entry
    ∙ rw (e, hash_search-put hash_size names name name new_entry node, is_same_self name) refl

pub push-IsValid :
    (o : Option MsgQueue) (m : Outgoing)
    → QueueIsValid o
    → Contents.IsValid (push_queue (queue_or_new o) m.message (as_msg m).header)
      × (contents (push_queue (queue_or_new o) m.message (as_msg m).header)
          ≡ held_by o ++ as_msg m ∷ [])
unfolding queue_or_new
push-IsValid none m v =
    let (valid, none_yet) = new_queue-IsValid in
    let (valid', all) = contents-push_queue new_queue m.message (as_msg m).header valid in
    (valid', all ∙ ap (λ ms. ms ++ as_msg m ∷ []) none_yet)
push-IsValid (some q) m v = contents-push_queue q m.message (as_msg m).header v

-- What a send to a name that is not known does, where the socket `fd` is not the master's.
pub record Queues {World : Type 0} (log : World → List (List ℕ)) (fd : ℕ) (name : List ℕ)
    (ms : List Msg) (h h' : Harbor World) : Type 0 where
  pub waits : Waits h' name ms
  pub same : h' ≡ record h { names = h'.names; master_fd = h'.master_fd; world = h'.world }
  pub other_names :
      (q : List ℕ)
      → is_same name q ≡ false
      → hash_search hash_size h'.names q ≡ hash_search hash_size h.names q
  pub unwritten : log h'.world ≡ log h.world
  pub master : h'.master_fd ≢ some fd

-- The service with a message put to the queue of a name.
abbrev enqueued : {World : Type 0} → Harbor World → List ℕ → Outgoing → Harbor World
enqueued h name m =
    let node = entry_of h name in
    record h {
      names = hash_put hash_size h.names name new_entry (record node {
        queue = some (push_queue (queue_or_new node.queue) m.message (as_msg m).header);
      });
    }

remote_send_name-unknown :
    {World : Type 0} (net : Network World) (h : Harbor World) (name : List ℕ) (m : Outgoing)
    → (entry_of h name).value ≡ 0
    → remote_send_name net h m.source name m.type m.session m.message ≡ (
        request_master net (enqueued h name m) (take (name_length globalname_length name) name) 0
        >>= λ h'. some (false, h'))
unfolding remote_send_name remote_register_name
remote_send_name-unknown net h name m e = rw (e, remote_send_name) refl

-- A message to a name that is not known waits behind those that wait, and the master is asked:
-- nothing is written to any other harbor, and no other name changes.
pub remote_send_name-Queues :
    {World : Type 0} (net : Network World) (log : World → List (List ℕ)) (fd : ℕ)
    → Works net log fd
    → (h : Harbor World) (name : List ℕ) (ms : List Msg) (m : Outgoing) → Waits h name ms
    → h.master_addr ≢ none
    → h.master_fd ≢ some fd
    → (h' : Harbor World) × (remote_send_name net h m.source name m.type m.session m.message
        ≡ some (false, h'))
      × Queues log fd name (ms ++ as_msg m ∷ []) h h'
remote_send_name-Queues net log fd works h name ms m waits there ne =
    let asked = take (name_length globalname_length name) name in
    let h₁ = enqueued h name m in
    let node = entry_of h name in
    let q = push_queue (queue_or_new node.queue) m.message (as_msg m).header in
    let (h', answered, (same, unwritten, master)) =
      request_master-Quiet net log fd works h₁ asked 0 there ne in
    let names : h'.names ≡ h₁.names = ap (λ k. k.names) same in
    let (valid, all) = push-IsValid node.queue m waits.valid in
    let at = entry_of-put h' h.names name (record node { queue = some q }) names in
    (
      h',
      remote_send_name-unknown net h name m waits.unknown
          ∙ ap (λ o. o >>= λ k. some (false, k)) answered,
      record {
        waits = record {
          unknown = ap (λ n. n.value) at ∙ waits.unknown;
          valid = subst (λ n. QueueIsValid n.queue) (sym at) valid;
          messages =
              ap (λ n. held_by n.queue) at ∙ all ∙ ap (λ l. l ++ as_msg m ∷ []) waits.messages;
        };
        same = same ∙ rw names refl;
        other_names = λ p other.
            ap (λ k. hash_search hash_size k p) names
            ∙ hash_search-put hash_size h.names name p new_entry (record node { queue = some q })
            ∙ rw other refl;
        unwritten = unwritten;
        master = master;
      },
    )
