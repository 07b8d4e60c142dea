-- ===== src/Harbor/Remote.antt =====
-- What the harbor service does with its sockets and its table of names: the functions of
-- dn/service-src/service_harbor.c that take the service, up to the callback `_mainloop`. `|` of a
-- type in the high 8 bits and a handle in the low 24 adds them.
pub mod Package
pub mod Dispatch
pub mod Master
pub mod Waiting
pub mod Order
pub mod Broken
pub mod Addresses
pub mod Mainloop
pub mod Init
pub mod Run
use dn_server.Common.{
  ℕ, zero, suc, ◌+◌, ◌-◌, ◌*◌, ◌/◌, ◌%◌, ◌^◌, Bool, true, false, List, [], ◌∷◌, ◌++◌, Option, none,
  some, ltb, leb, ◌==◌, if◌then◌else◌, ◌&&◌, not, assert, length, take, drop, ◌>>=◌,
}
use dn_server.GlobalNames.{globalname_length, hash_obtain, hash_put}
use dn_server.Harbor.{
  hash_size, remote_max, tag_dontcopy, RemoteMessageHeader, LocalSend, MsgQueue, new_queue,
  push_queue, pop_queue, Entry, new_entry, Network, writev, Harbor, htonl, ntohl, header_to_message,
  message_to_header, put_at, name_of, low_bits, name_length,
}

-- `type | PTYPE_TAG_DONTCOPY`
abbrev pub with_dontcopy : ℕ → ℕ
with_dontcopy type = type / 2 ^ 17 * 2 ^ 17 + tag_dontcopy + type % 2 ^ 16

pub queue_or_new : Option MsgQueue → MsgQueue
queue_or_new none = new_queue
queue_or_new (some q) = q

-- The addresses when the socket of a harbor, if there is one, is closed.
drop_addr : Option ℕ → (ℕ → Option (List ℕ)) → ℕ → ℕ → Option (List ℕ)
drop_addr none addrs harbor_id = addrs
drop_addr (some fd) addrs harbor_id = put_at addrs harbor_id none

-- The addresses when the new socket is connected, or is not.
keep_addr : Option ℕ → (ℕ → Option (List ℕ)) → ℕ → List ℕ → ℕ → Option (List ℕ)
keep_addr none addrs harbor_id ipaddr = addrs
keep_addr (some fd) addrs harbor_id ipaddr = put_at addrs harbor_id (some ipaddr)

-- The header of a waiting message when its name is known.
abbrev pub address_header : RemoteMessageHeader → ℕ → RemoteMessageHeader
address_header cookie handle = record cookie { destination = cookie.destination + low_bits handle }

-- `sizeof(rmsg->destination)`: a name and a handle.
abbrev pub destination_size : ℕ
destination_size = 20

-- What `_mainloop` gets, by its type: `PTYPE_HARBOR`; `PTYPE_SYSTEM`, with its size `sz`; or any
-- other.
pub data Request : Type 0 where
  package_in : List ℕ → Request
  register_name : ℕ → List ℕ → ℕ → Request
  message_out : ℕ → ℕ → ℕ → List ℕ → ℕ → List ℕ → Request

module _ {World : Type 0} (net : Network World) where
  -- `_send_package`; a write to -1 fails.
  pub send_package : World → Option ℕ → List ℕ → Bool × World
  send_package w none bs = (false, w)
  send_package w (some fd) bs = writev net w fd (htonl (length bs) ++ bs)

  -- `_send_remote`
  pub write_remote : World → ℕ → List ℕ → RemoteMessageHeader → Bool × World
  write_remote w fd buffer cookie =
      writev net w fd (htonl (length buffer + 12) ++ buffer ++ header_to_message cookie)

  -- `close`; that of -1 does nothing.
  abbrev pub close_fd : World → Option ℕ → World
  close_fd w none = w
  close_fd w (some fd) = net.close w fd

  -- Where a write to a harbor failed: the socket is closed, and the address connected to again.
  pub reconnect : Harbor World → ℕ → ℕ → Option (Harbor World)
  reconnect h fd harbor_id = h.remote_addr harbor_id >>= λ addr.
      let (new_fd, w) = net.connect (net.close h.world fd) addr in
      some (record h { remote_fd = put_at h.remote_fd harbor_id new_fd; world = w })

  -- `_update_remote_address`
  pub update_remote_address : Harbor World → ℕ → List ℕ → Option (Harbor World)
  update_remote_address h harbor_id ipaddr =
      let old = h.remote_fd harbor_id in
      let (new_fd, w) = net.connect (close_fd h.world old) ipaddr in
      if harbor_id == h.id
      then some h
      else assert (ltb 0 harbor_id && ltb harbor_id remote_max) (
          some (record h {
            remote_fd = put_at h.remote_fd harbor_id new_fd;
            remote_addr = keep_addr new_fd (drop_addr old h.remote_addr harbor_id) harbor_id ipaddr;
            world = w;
          }))

  -- The loop of `_dispatch_queue`; it keeps to the descriptor that it started with. `none` is no
  -- fuel.
  pub dispatch_loop : ℕ → Harbor World → ℕ → ℕ → MsgQueue → ℕ → Option (Harbor World)
  dispatch_loop zero h fd harbor_id q handle = none
  dispatch_loop (suc fuel) h fd harbor_id q handle =
      let (popped, q') = pop_queue q in
      elim popped [
        | none ↦ some h
        | some m ↦
            let bytes = m.buffer ++ header_to_message (address_header m.header handle) in
            let (ok, w) = send_package h.world (some fd) bytes in
            let h' = record h { world = w } in
            elim ok [
              | true ↦ dispatch_loop fuel h' fd harbor_id q' handle
              | false ↦ reconnect h' fd harbor_id >>= λ h''. elim (h''.remote_fd harbor_id) [
                | none ↦ some h''
                | some new_fd ↦ dispatch_loop fuel h'' fd harbor_id q' handle
              ]
            ]
      ]

  -- `_dispatch_queue`
  pub dispatch_queue : Harbor World → MsgQueue → ℕ → Option (Harbor World)
  dispatch_queue h q handle =
      let harbor_id = handle / 2 ^ 24 in
      assert (not (harbor_id == 0)) (elim (h.remote_fd harbor_id) [
        | none ↦ some h
        | some fd ↦ dispatch_loop (q.size + 1) h fd harbor_id q handle
      ])

  -- `_update_remote_name`
  pub update_remote_name : Harbor World → List ℕ → ℕ → Option (Harbor World)
  update_remote_name h name handle =
      let (node, names) = hash_obtain hash_size h.names name new_entry in
      let h' = record h {
        names = hash_put hash_size h.names name new_entry (record { value = handle; queue = none });
      } in
      elim node.queue [ none ↦ some h' | some q ↦ dispatch_queue h' q handle ]

  -- `_request_master`; where the first write fails, the address of the master is read.
  pub request_master : Harbor World → List ℕ → ℕ → Option (Harbor World)
  request_master h name handle =
      let bytes = htonl handle ++ name in
      let (ok, w) = send_package h.world h.master_fd bytes in
      let reopened : List ℕ → Option (Harbor World) = λ addr.
        (let (fd, w₁) = net.connect (close_fd w h.master_fd) addr in
          some (record h { master_fd = fd; world = (send_package w₁ fd bytes).1 })) in
      if ok then some (record h { world = w }) else h.master_addr >>= reopened

  -- `_remote_register_name`
  pub remote_register_name : Harbor World → List ℕ → ℕ → Option (Harbor World)
  remote_register_name h name handle =
      (if handle == 0 then some h else update_remote_name h name handle) >>= λ h'.
      request_master h' (take (name_length globalname_length name) name) handle

  -- `_report_local_address`
  pub report_local_address : Harbor World → List ℕ → ℕ → Option (Harbor World)
  report_local_address h local_address harbor_id = request_master h local_address harbor_id

  -- `_remote_send_handle`: whether the message was for this node, the result of the source.
  pub remote_send_handle : Harbor World → ℕ → ℕ → ℕ → ℕ → List ℕ → Option (Bool × Harbor World)
  remote_send_handle h source destination type session msg =
      let harbor_id = destination / 2 ^ 24 in
      let cookie : RemoteMessageHeader = record {
        source = source;
        destination = low_bits destination + type * 2 ^ 24 % 2 ^ 32;
        session = session;
      } in
      assert (not (harbor_id == 0)) (
        if harbor_id == h.id
        then some (
          true,
          record h {
            sends =
                h.sends
                ++ record {
                  source = source;
                  destination = destination;
                  type = with_dontcopy type;
                  session = session;
                  payload = msg;
                }
                  ∷ [];
          },
        )
        else elim (h.remote_fd harbor_id) [
          | none ↦ request_master h [] harbor_id >>= λ h'. some (false, h')
          | some fd ↦
              let (ok, w) = write_remote h.world fd msg cookie in
              let h' = record h { world = w } in
              elim ok [
                | true ↦ some (false, h')
                | false ↦ reconnect h' fd harbor_id >>= λ h''. some (false, h'')
              ]
        ])

  -- `_remote_send_name`
  pub remote_send_name : Harbor World → ℕ → List ℕ → ℕ → ℕ → List ℕ → Option (Bool × Harbor World)
  remote_send_name h source name type session msg =
      let (node, names) = hash_obtain hash_size h.names name new_entry in
      let header : RemoteMessageHeader = record {
        source = source;
        destination = type * 2 ^ 24 % 2 ^ 32;
        session = session;
      } in
      let waiting = record node {
        queue = some (push_queue (queue_or_new node.queue) msg header);
      } in
      if node.value == 0
      then (remote_register_name
            (record h { names = hash_put hash_size h.names name new_entry waiting }) name 0
          >>= λ h'. some (false, h'))
      else remote_send_handle (record h { names = names }) source node.value type session msg

  -- `_mainloop` for a package of another node, of type `PTYPE_HARBOR`: the result, and the service.
  pub remote_message_in : Harbor World → List ℕ → Option (ℕ × Harbor World)
  remote_message_in h msg =
      let sz = length msg - 12 in
      let header = message_to_header (drop sz msg) in
      let send : LocalSend = record {
        source = header.source;
        destination = low_bits header.destination + h.id * 2 ^ 24 % 2 ^ 32;
        type = with_dontcopy (header.destination / 2 ^ 24);
        session = header.session;
        payload = take sz msg;
      } in
      assert (leb 12 (length msg)) (
        if header.source == 0
        then ((if ltb header.destination remote_max
              then update_remote_address h header.destination (take sz msg)
              else update_remote_name h (name_of msg) header.destination)
            >>= λ h'. some (0, h'))
        else some (1, record h { sends = h.sends ++ send ∷ [] }))

  -- `_mainloop` for a message to another node, of any type but those two.
  pub remote_message_out :
      Harbor World → ℕ → ℕ → ℕ → List ℕ → ℕ → List ℕ → Option (Bool × Harbor World)
  remote_message_out h type session source name handle message =
      if handle == 0
      then remote_send_name h source name type session message
      else remote_send_handle h source handle type session message

  -- `_mainloop`: the result, and the service. The data of a message that was sent is freed.
  pub mainloop : Harbor World → Request → Option (ℕ × Harbor World)
  mainloop h (package_in msg) = remote_message_in h msg
  mainloop h (register_name sz name handle) =
      assert (sz == destination_size) (remote_register_name h name handle >>= λ h'. some (0, h'))
  mainloop h (message_out type session source name handle message) =
      remote_message_out h type session source name handle message >>= λ r. some (0, r.1)
