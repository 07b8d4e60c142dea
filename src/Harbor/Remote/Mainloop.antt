-- ===== src/Harbor/Remote/Mainloop.antt =====
-- The messages that the harbor service gets: what keeps it from a failed assert and from NULL.
use dn_server.Common.{
  ℕ, ◌+◌, ◌-◌, ◌*◌, ◌/◌, ◌%◌, ◌^◌, ◌<◌, ◌≤◌, ◌≡◌, ◌≢◌, refl, ◌∙◌, subst, ◌⊎◌, inl, inr, Bool, true,
  false, List, [], ◌++◌, Option, none, some, arith, ltb, leb, length, take, drop, Bool-cases,
  Option-cases, ne→==, ◌==◌, ◌&&◌, ap, ◌>>=◌,
}
use dn_server.GlobalNames.{globalname_length, hash_search}
use dn_server.GlobalNames.Find.{hash_obtain-item, hash_obtain-some}
use dn_server.Harbor.{
  hash_size, new_entry, Network, Harbor, put_at, push_queue, name_length, RemoteMessageHeader,
  remote_max, message_to_header, name_of, low_bits, htonl,
}
use dn_server.Harbor.Remote.{
  queue_or_new, send_package, write_remote, update_remote_name, request_master,
  remote_register_name, remote_send_handle, remote_send_name, remote_message_out, drop_addr,
  keep_addr, update_remote_address, remote_message_in, close_fd,
}
use dn_server.Harbor.Remote.Waiting.{push-IsValid}
use dn_server.Harbor.Remote.Master.{entry_of, QueueIsValid, as_msg}
use dn_server.Harbor.Remote.Package.{Outgoing}
use dn_server.Harbor.Remote.Addresses.{
  IsFar, IsValid, Ends, reconnect-Ends, world-IsValid, dispatch_queue-Ends, entry_of-IsValid,
  names-IsValid,
}

-- A send ends in a valid state.
abbrev pub SendEnds : {World : Type 0} → Option (Bool × Harbor World) → Type 0
SendEnds {World = World} o = (b : Bool) × (h' : Harbor World) × (o ≡ some (b, h')) × IsValid h'

-- A package that has the room of a header, and where it does not come from a service, is about
-- the address of a harbor or the handle of a name.
abbrev pub IsPackage : List ℕ → Type 0
IsPackage msg =
    let header = message_to_header (drop (length msg - 12) msg) in
    (12 ≤ length msg)
    × (header.source ≡ 0
        → ((0 < header.destination) × (header.destination < remote_max)) ⊎ IsFar header.destination)

module _ {World : Type 0} (net : Network World) where
  pub update_remote_name-Ends :
      (h : Harbor World) (name : List ℕ) (handle : ℕ)
      → IsValid h
      → IsFar handle
      → Ends (update_remote_name net h name handle)
  unfolding update_remote_name
  update_remote_name-Ends h name handle v far =
      let node = entry_of h name in
      let v' = names-IsValid h name (record { value = handle; queue = none }) v (inr far, tt) in
      elim (Option-cases node.queue) [
        | inl e ↦ rw (e, update_remote_name) (_, refl, v')
        | inr (q, e) ↦
            rw (e, update_remote_name)
              (dispatch_queue-Ends net _ q handle v'
                (subst QueueIsValid e (entry_of-IsValid h name v).1) far)
      ]

  pub request_master-Ends :
      (h : Harbor World) (name : List ℕ) (handle : ℕ)
      → IsValid h
      → Ends (request_master net h name handle)
  unfolding request_master
  request_master-Ends h name handle v =
      elim (Bool-cases ((send_package net h.world h.master_fd (htonl handle ++ name)).0)) [
        | inl e ↦
            rw e (_, refl, record { master = v.master; addressed = v.addressed; named = v.named })
        | inr e ↦ elim (Option-cases h.master_addr) [
          | inl null ↦ absurd (v.master null)
          | inr (addr, a) ↦
              rw (e, a)
                (
                  _,
                  refl,
                  record {
                    master = λ n. v.master (a ∙ n);
                    addressed = v.addressed;
                    named = v.named;
                  },
                )
        ]
      ]

  remote_send_handle-Ends :
      (h : Harbor World) (source destination type session : ℕ) (msg : List ℕ)
      → IsValid h
      → IsFar destination
      → SendEnds (remote_send_handle net h source destination type session msg)
  unfolding remote_send_handle
  remote_send_handle-Ends h source destination type session msg v far =
      let id = destination / 2 ^ 24 in
      rw (ne→== id 0 far) (elim (Bool-cases (id == h.id)) [
        | inl e ↦
            rw e
              (_, _, refl, record { master = v.master; addressed = v.addressed; named = v.named })
        | inr e ↦ rw e (elim (Option-cases (h.remote_fd id)) [
          | inl f ↦
              let (h', answered, v') = request_master-Ends h [] id v in
              rw (f, answered) (_, _, refl, v')
          | inr (fd, f) ↦
              let cookie : RemoteMessageHeader = record {
                source = source;
                destination = low_bits destination + type * 2 ^ 24 % 2 ^ 32;
                session = session;
              } in
              let (ok, w) = write_remote net h.world fd msg cookie in
              let v₁ = world-IsValid h w v in
              elim (Bool-cases ok) [
                | inl y ↦ rw (f, y) (_, _, refl, v₁)
                | inr n ↦
                    let (h', opened, v', _) =
                      reconnect-Ends net (record h { world = w }) fd id v₁ (v.addressed id fd f) in
                    rw (f, n, opened) (_, _, refl, v')
              ]
        ])
      ])

  remote_send_name-Ends :
      (h : Harbor World) (source : ℕ) (name : List ℕ) (type session : ℕ) (msg : List ℕ)
      → IsValid h
      → SendEnds (remote_send_name net h source name type session msg)
  unfolding remote_send_name remote_register_name
  remote_send_name-Ends h source name type session msg v =
      let node = entry_of h name in
      elim (Bool-cases (node.value == 0)) [
        | inl e ↦
            let m : Outgoing = record {
              source = source;
              type = type;
              session = session;
              message = msg;
            } in
            let (_, valid) = entry_of-IsValid h name v in
            let q = push_queue (queue_or_new node.queue) msg (as_msg m).header in
            let v₁ =
              names-IsValid h name (record node { queue = some q }) v
                (inl (ground arith), (push-IsValid node.queue m valid).0) in
            let (h', answered, v') =
              request_master-Ends _ (take (name_length globalname_length name) name) 0 v₁ in
            rw (e, remote_send_name) (false, h', ap (λ o. o >>= λ k. some (false, k)) answered, v')
        | inr e ↦ elim (Option-cases (hash_search hash_size h.names name)) [
          | inl s ↦
              let fresh : node ≡ new_entry =
                hash_obtain-item hash_size h.names name new_entry ∙ rw s refl in
              absurd (let now = (rw fresh at e) in cc)
          | inr (n, s) ↦
              let at = hash_obtain-some hash_size h.names name new_entry n s in
              let far : IsFar n.value = elim (v.named name n s).0 [
                | inl z ↦ absurd (let now = (rw (at, entry_of) at e) in ground arith)
                | inr far ↦ far
              ] in
              let e' = (rw (at, entry_of) at e) in
              rw (at, remote_send_name, e')
                (remote_send_handle-Ends h source n.value type session msg v far)
        ]
      ]

  -- A message to a handle of some node, or to a name, in a valid service ends without a failed
  -- assert and without a read through NULL, and leaves the service in a valid state.
  pub remote_message_out-Ends :
      (h : Harbor World) (type session source : ℕ) (name : List ℕ) (handle : ℕ) (message : List ℕ)
      → IsValid h
      → (handle ≡ 0) ⊎ IsFar handle
      → SendEnds (remote_message_out net h type session source name handle message)
  unfolding remote_message_out
  remote_message_out-Ends h type session source name handle message v to =
      elim (Bool-cases (handle == 0)) [
        | inl e ↦ rw e (remote_send_name-Ends h source name type session message v)
        | inr e ↦ rw e (
            remote_send_handle-Ends h source handle type session message v
              (elim to [ inl z ↦ absurd (ground arith) | inr far ↦ far ]))
      ]

  -- Where the socket of a harbor is replaced, it has the new address if it is connected.
  replaced-addressed :
      (h : Harbor World) (id : ℕ) (ip : List ℕ) (old d : Option ℕ) (i fd : ℕ)
      → IsValid h
      → put_at h.remote_fd id d i ≡ some fd
      → keep_addr d (drop_addr old h.remote_addr id) id ip i ≢ none
  unfolding keep_addr drop_addr
  replaced-addressed h id ip none none i fd v e = ground (arith, v.addressed i fd)
  replaced-addressed h id ip none (some n) i fd v e = ground (arith, v.addressed i fd)
  replaced-addressed h id ip (some o) none i fd v e = ground (arith, v.addressed i fd)
  replaced-addressed h id ip (some o) (some n) i fd v e = ground (arith, v.addressed i fd)

  update_remote_address-Ends :
      (h : Harbor World) (id : ℕ) (ip : List ℕ)
      → IsValid h
      → 0 < id
      → id < remote_max
      → Ends (update_remote_address net h id ip)
  unfolding update_remote_address
  update_remote_address-Ends h id ip v low high = elim (Bool-cases (id == h.id)) [
    | inl e ↦ rw e (_, refl, v)
    | inr e ↦
        let in_range : (ltb 0 id && ltb id remote_max) ≡ true = ground arith in
        let old = h.remote_fd id in
        let (d, _) = net.connect (close_fd net h.world old) ip in
        rw (e, in_range)
          (
            _,
            refl,
            record {
              master = v.master;
              addressed = λ i fd f. replaced-addressed h id ip old d i fd v f;
              named = v.named;
            },
          )
  ]

  -- A package, as the predicate says, ends without a failed assert and without a read through NULL,
  -- and leaves the service in a valid state.
  pub remote_message_in-Ends :
      (h : Harbor World) (msg : List ℕ)
      → IsValid h
      → IsPackage msg
      → (result : ℕ) × (h' : Harbor World) × (remote_message_in net h msg ≡ some (result, h'))
        × IsValid h'
  unfolding remote_message_in
  remote_message_in-Ends h msg v (long, about) =
      let sz = length msg - 12 in
      let header = message_to_header (drop sz msg) in
      let fits : leb 12 (length msg) ≡ true = ground arith in
      rw fits (elim (Bool-cases (header.source == 0)) [
        | inr e ↦
            rw e
              (_, _, refl, record { master = v.master; addressed = v.addressed; named = v.named })
        | inl e ↦ rw e (elim (about (ground arith)) [
          | inl (low, high) ↦
              let small : ltb header.destination remote_max ≡ true = ground arith in
              let (h', run, v') =
                update_remote_address-Ends h header.destination (take sz msg) v low high in
              rw (small, run) (_, _, refl, v')
          | inr far ↦
              let large : ltb header.destination remote_max ≡ false = ground arith in
              let (h', run, v') =
                update_remote_name-Ends h (name_of msg) header.destination v far in
              rw (large, run) (_, _, refl, v')
        ])
      ])
