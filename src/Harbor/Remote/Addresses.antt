-- ===== src/Harbor/Remote/Addresses.antt =====
-- What keeps the harbor service from a failed assert and from the address NULL.
use dn_server.Common.{
  ℕ, zero, suc, ◌+◌, ◌/◌, ◌^◌, ◌<◌, ◌≡◌, ◌≢◌, refl, sym, ap, ◌∙◌, subst, ◌⊎◌, inl, inr, List,
  Option, none, some, arith, length, Bool-cases, Option-cases, ne→==, ==→eq, ◌==◌,
}
use dn_server.GlobalNames.{hash_search, hash_put}
use dn_server.GlobalNames.Find.{is_same, hash_obtain-item, hash_search-put}
use dn_server.Harbor.{
  hash_size, MsgQueue, Entry, new_entry, Network, writev, Harbor, put_at, pop_queue,
}
use dn_server.Harbor.Contents
use dn_server.Harbor.Contents.{contents, pop_queue-none, pop_queue-some, length-contents, held-lt}
use dn_server.Harbor.Remote.{reconnect, dispatch_loop, dispatch_queue}
use dn_server.Harbor.Remote.Dispatch.{sent_as, dispatch_loop-empty, dispatch_loop-sent}
use dn_server.Harbor.Remote.Broken.{dispatch_loop-broken, dispatch_loop-closed}
use dn_server.Harbor.Remote.Master.{entry_of, QueueIsValid}

-- A handle of some node.
abbrev pub IsFar : ℕ → Type 0
IsFar handle = handle / 2 ^ 24 ≢ 0

abbrev pub EntryIsValid : Entry → Type 0
EntryIsValid e = ((e.value ≡ 0) ⊎ IsFar e.value) × QueueIsValid e.queue

-- The master and a connected harbor have an address, and a name has no handle, or that of a node.
pub record IsValid {World : Type 0} (h : Harbor World) : Type 0 where
  pub master : h.master_addr ≢ none
  pub addressed : (id fd : ℕ) → h.remote_fd id ≡ some fd → h.remote_addr id ≢ none
  pub named :
      (name : List ℕ) (e : Entry) → hash_search hash_size h.names name ≡ some e → EntryIsValid e

-- The service ends in a valid state.
abbrev pub Ends : {World : Type 0} → Option (Harbor World) → Type 0
Ends {World = World} o = (h' : Harbor World) × (o ≡ some h') × IsValid h'

module _ {World : Type 0} where
  -- The descriptor of one harbor changes, whose address is there.
  put-IsValid :
      (h : Harbor World) (id : ℕ) (d : Option ℕ) (w : World)
      → IsValid h
      → h.remote_addr id ≢ none
      → IsValid (record h { remote_fd = put_at h.remote_fd id d; world = w })
  put-IsValid h id d w v there = record {
    master = v.master;
    addressed = λ i fd e. elim (Bool-cases (i == id)) [
      | inl same ↦ subst (λ k. h.remote_addr k ≢ none) (sym (==→eq i id same)) there
      | inr ne ↦ v.addressed i fd (rw ne at e)
    ];
    named = v.named;
  }

  pub world-IsValid : (h : Harbor World) (w : World) → IsValid h → IsValid (record h { world = w })
  world-IsValid h w v = record { master = v.master; addressed = v.addressed; named = v.named }

  pub entry_of-IsValid :
      (h : Harbor World) (name : List ℕ) → IsValid h → EntryIsValid (entry_of h name)
  entry_of-IsValid h name v =
      subst EntryIsValid (sym (hash_obtain-item hash_size h.names name new_entry))
        (elim (Option-cases (hash_search hash_size h.names name)) [
          | inl e ↦ rw e (inl refl, tt)
          | inr (n, e) ↦ rw e (v.named name n e)
        ])

  -- A valid node is put for a name.
  pub names-IsValid :
      (h : Harbor World) (name : List ℕ) (node : Entry)
      → IsValid h
      → EntryIsValid node
      → IsValid (record h { names = hash_put hash_size h.names name new_entry node })
  names-IsValid h name node v nv = record {
    master = v.master;
    addressed = v.addressed;
    named = λ q e found.
        let at = sym (hash_search-put hash_size h.names name q new_entry node) ∙ found in
        elim (Bool-cases (is_same name q)) [
          | inl same ↦
              let put = (rw same at at) in
              let same_node : node ≡ e = cc in subst EntryIsValid same_node nv
          | inr other ↦ v.named q e (rw other at at)
        ];
  }

module _ {World : Type 0} (net : Network World) where
  pub reconnect-Ends :
      (h : Harbor World) (fd id : ℕ)
      → IsValid h
      → h.remote_addr id ≢ none
      → (h' : Harbor World) × (reconnect net h fd id ≡ some h')
        × IsValid h'
        × (h'.remote_addr ≡ h.remote_addr)
  unfolding reconnect
  reconnect-Ends h fd id v there = elim (Option-cases (h.remote_addr id)) [
    | inl e ↦ absurd (there e)
    | inr (addr, e) ↦
        let (d, w) = net.connect (net.close h.world fd) addr in
        (_, rw e refl, put-IsValid h id d w v there, refl)
  ]

  dispatch_loop-Ends :
      (fuel : ℕ) (h : Harbor World) (fd id : ℕ) (q : MsgQueue) (handle : ℕ)
      → IsValid h
      → h.remote_addr id ≢ none
      → Contents.IsValid q
      → length (contents q) < fuel
      → Ends (dispatch_loop net fuel h fd id q handle)
  dispatch_loop-Ends zero h fd id q handle v there qv enough = absurd (omega arith)
  dispatch_loop-Ends (suc fuel) h fd id q handle v there qv enough =
      elim (Option-cases ((pop_queue q).0)) [
        | inl e ↦ (h, dispatch_loop-empty net fuel fd id handle h q e, v)
        | inr (m, e) ↦
            let (qv', front) = pop_queue-some q m qv e in
            let less : length (contents ((pop_queue q).1)) < fuel =
              omega (arith, enough, ap length front) in
            let bytes = sent_as handle m in
            let (ok, w) = writev net h.world fd bytes in
            let h₁ = record h { world = w } in
            elim (Bool-cases ok) [
              | inl y ↦
                  let (h', run, v') =
                    dispatch_loop-Ends fuel h₁ fd id ((pop_queue q).1) handle (world-IsValid h w v)
                      there qv' less in
                  (h', dispatch_loop-sent net fuel fd id handle h q m e y ∙ run, v')
              | inr n ↦
                  let (h₂, opened, v₂, addr) =
                    reconnect-Ends h₁ fd id (world-IsValid h w v) there in
                  elim (Option-cases (h₂.remote_fd id)) [
                    | inl down ↦ (
                      h₂,
                      dispatch_loop-closed net fuel fd id handle h h₂ q m e n opened down,
                      v₂,
                    )
                    | inr (d, up) ↦
                        let there₂ = subst (λ f. f id ≢ none) (sym addr) there in
                        let (h', run, v') =
                          dispatch_loop-Ends fuel h₂ fd id ((pop_queue q).1) handle v₂ there₂ qv'
                            less in
                        (
                          h',
                          dispatch_loop-broken net fuel fd id handle d h h₂ q m e n opened up ∙ run,
                          v',
                        )
                  ]
            ]
      ]

  pub dispatch_queue-Ends :
      (h : Harbor World) (q : MsgQueue) (handle : ℕ)
      → IsValid h
      → Contents.IsValid q
      → IsFar handle
      → Ends (dispatch_queue net h q handle)
  unfolding dispatch_queue
  dispatch_queue-Ends h q handle v qv far =
      let id = handle / 2 ^ 24 in
      elim (Option-cases (h.remote_fd id)) [
        | inl e ↦ (h, rw (ne→== id 0 far, e) refl, v)
        | inr (fd, e) ↦
            rw (ne→== id 0 far, e)
              (dispatch_loop-Ends (q.size + 1) h fd id q handle v (v.addressed id fd e) qv
                (omega (arith, length-contents q, held-lt q qv)))
      ]
