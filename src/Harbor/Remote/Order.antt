-- ===== src/Harbor/Remote/Order.antt =====
-- Messages to a global name arrive in the order in which they were sent, though the name is known
-- only later.
use dn_server.Common.{
  ℕ, ◌/◌, ◌^◌, ◌≡◌, ◌≢◌, refl, sym, ap, ◌∙◌, subst, List, [], ◌∷◌, ◌++◌, map, append-nil,
  append_assoc, Option, none, some, inl, inr, Option-cases, if◌then◌else◌, ◌>>=◌,
}
use dn_server.GlobalNames.{hash_search, hash_put}
use dn_server.GlobalNames.Find.{is_same, is_same_self, hash_search-put}
use dn_server.Harbor.{hash_size, Msg, MsgQueue, Entry, new_entry, Network, Harbor}
use dn_server.Harbor.Remote.{remote_send_name, update_remote_name, dispatch_queue}
use dn_server.Harbor.Remote.Dispatch.{Works, sent_as, dispatch_queue-Delivers}
use dn_server.Harbor.Remote.Package.{Outgoing, packet, frame}
use dn_server.Harbor.Remote.Waiting.{remote_send_name-Queues}
use dn_server.Harbor.Remote.Master.{entry_of, held_by, QueueIsValid, Waits, as_msg, sent_as-as_msg}

-- The node of a name whose handle is known.
abbrev pub known : ℕ → Entry
known handle = record { value = handle; queue = none }

-- What the update of a name does: what waits for it is written, it has the handle, and no other
-- name changes.
record Updates {World : Type 0} (log : World → List (List ℕ)) (name : List ℕ) (handle : ℕ)
    (ms : List Msg) (h h' : Harbor World) : Type 0 where
  pub written : log h'.world ≡ log h.world ++ map (sent_as handle) ms
  pub finds :
      (q : List ℕ)
      → hash_search hash_size h'.names q
        ≡ (if is_same name q then some (known handle) else hash_search hash_size h.names q)
  pub same : h' ≡ record h { names = h'.names; world = h'.world }

abbrev renamed : {World : Type 0} → Harbor World → List ℕ → ℕ → Harbor World
renamed h name handle = record h {
  names = hash_put hash_size h.names name new_entry (known handle);
}

update_remote_name-none :
    {World : Type 0} (net : Network World) (h : Harbor World) (name : List ℕ) (handle : ℕ)
    → (entry_of h name).queue ≡ none
    → update_remote_name net h name handle ≡ some (renamed h name handle)
unfolding update_remote_name
update_remote_name-none net h name handle e = rw (e, update_remote_name) refl

update_remote_name-some :
    {World : Type 0} (net : Network World) (h : Harbor World) (name : List ℕ) (handle : ℕ)
    (q : MsgQueue)
    → (entry_of h name).queue ≡ some q
    → update_remote_name net h name handle ≡ dispatch_queue net (renamed h name handle) q handle
unfolding update_remote_name
update_remote_name-some net h name handle q e = rw (e, update_remote_name) refl

-- The handle of a name becomes known, of a harbor that is connected.
update_remote_name-Updates :
    {World : Type 0} (net : Network World) (log : World → List (List ℕ)) (fd : ℕ)
    → Works net log fd
    → (h : Harbor World) (name : List ℕ) (handle : ℕ) (ms : List Msg)
    → QueueIsValid ((entry_of h name).queue)
    → held_by ((entry_of h name).queue) ≡ ms
    → handle / 2 ^ 24 ≢ 0
    → h.remote_fd (handle / 2 ^ 24) ≡ some fd
    → (h' : Harbor World) × (update_remote_name net h name handle ≡ some h')
      × Updates log name handle ms h h'
update_remote_name-Updates net log fd works h name handle ms v held far at =
    let finds = λ (q : List ℕ). hash_search-put hash_size h.names name q new_entry (known handle) in
    elim (Option-cases ((entry_of h name).queue)) [
      | inl e ↦
          let nil : ms ≡ [] = sym held ∙ ap held_by e in
          (
            renamed h name handle,
            update_remote_name-none net h name handle e,
            record {
              written = rw nil (sym (append-nil (log h.world)));
              finds = finds;
              same = refl;
            },
          )
      | inr (q, e) ↦
          let (h', run, (same, written)) =
            dispatch_queue-Delivers net log fd works handle (renamed h name handle) q
              (subst QueueIsValid e v) far at in
          let names = ap (λ k. k.names) same in
          (
            h',
            update_remote_name-some net h name handle q e ∙ run,
            record {
              written =
                  written
                  ∙ ap (λ l. log h.world ++ map (sent_as handle) l) (ap held_by (sym e) ∙ held);
              finds = λ p. ap (λ k. hash_search hash_size k p) names ∙ finds p;
              same = same ∙ rw names refl;
            },
          )
    ]

-- Messages to one name, one after the other.
abbrev pub send_all :
    {World : Type 0} → Network World → List ℕ → List Outgoing → Harbor World → Option (Harbor World)
send_all net name [] h = some h
send_all net name (m ∷ ms) h =
    remote_send_name net h m.source name m.type m.session m.message >>= λ r.
    send_all net name ms (r.1)

-- Nothing was written to `fd`, and its owner has not changed.
record Keeps {World : Type 0} (log : World → List (List ℕ)) (fd : ℕ) (h h' : Harbor World)
    : Type 0 where
  pub unwritten : log h'.world ≡ log h.world
  pub remote : h'.remote_fd ≡ h.remote_fd

send_all-Waits :
    {World : Type 0} (net : Network World) (log : World → List (List ℕ)) (fd : ℕ)
    → Works net log fd
    → (name : List ℕ) (ms : List Outgoing) (h : Harbor World) (before : List Msg)
    → Waits h name before
    → h.master_addr ≢ none
    → h.master_fd ≢ some fd
    → (h' : Harbor World) × (send_all net name ms h ≡ some h')
      × Waits h' name (before ++ map as_msg ms)
      × Keeps log fd h h'
send_all-Waits net log fd works name [] h before waits there ne = (
  h,
  refl,
  subst (Waits h name) (sym (append-nil before)) waits,
  record { unwritten = refl; remote = refl },
)
send_all-Waits net log fd works name (m ∷ ms) h before waits there ne =
    let (h₁, sent, queues) =
      remote_send_name-Queues net log fd works h name before m waits there ne in
    let there₁ = subst (λ a. a ≢ none) (sym (ap (λ k. k.master_addr) queues.same)) there in
    let (h', run, waits', keeps) =
      send_all-Waits net log fd works name ms h₁ (before ++ as_msg m ∷ []) queues.waits there₁
        queues.master in
    (
      h',
      ap (λ o. o >>= λ r. send_all net name ms (r.1)) sent ∙ run,
      subst (Waits h' name) (append_assoc before (as_msg m ∷ []) (map as_msg ms)) waits',
      record {
        unwritten = keeps.unwritten ∙ queues.unwritten;
        remote = keeps.remote ∙ ap (λ k. k.remote_fd) queues.same;
      },
    )

map-sent_as :
    (handle : ℕ) (ms : List Outgoing)
    → map (sent_as handle) (map as_msg ms) ≡ map (λ m. frame (packet m handle)) ms
map-sent_as handle [] = refl
map-sent_as handle (m ∷ ms) = cc (sent_as-as_msg handle m, map-sent_as handle ms)

-- Messages that are sent to a name for which none waits yet and whose handle is not known, on a
-- socket that works and is not the master's, whose address the service has: once the handle is known, they are written to the
-- socket of its harbor, all, in their order, as if they had been sent to the handle, and the name
-- is known.
pub remote_send_name-in_order :
    {World : Type 0} (net : Network World) (log : World → List (List ℕ)) (fd : ℕ)
    → Works net log fd
    → (name : List ℕ) (ms : List Outgoing) (h : Harbor World) (handle : ℕ) → Waits h name []
    → h.master_addr ≢ none
    → h.master_fd ≢ some fd
    → handle / 2 ^ 24 ≢ 0
    → h.remote_fd (handle / 2 ^ 24) ≡ some fd
    → (h' : Harbor World) × (send_all net name ms h
          >>= (λ h₁. update_remote_name net h₁ name handle)
        ≡ some h')
      × (log h'.world ≡ log h.world ++ map (λ m. frame (packet m handle)) ms)
      × (hash_search hash_size h'.names name ≡ some (known handle))
remote_send_name-in_order net log fd works name ms h handle waits there ne far at =
    let (h₁, sent, waits', keeps) = send_all-Waits net log fd works name ms h [] waits there ne in
    let (h', run, updates) =
      update_remote_name-Updates net log fd works h₁ name handle (map as_msg ms) waits'.valid
        waits'.messages far (ap (λ f. f (handle / 2 ^ 24)) keeps.remote ∙ at) in
    (
      h',
      ap (λ o. o >>= λ k. update_remote_name net k name handle) sent ∙ run,
      updates.written ∙ cc (keeps.unwritten, map-sent_as handle ms),
      updates.finds name ∙ rw (is_same_self name) refl,
    )
