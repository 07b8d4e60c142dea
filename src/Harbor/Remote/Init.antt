-- ===== src/Harbor/Remote/Init.antt =====
-- `harbor_init` of dn/service-src/service_harbor.c: the start of the harbor service.
use dn_server.Common.{
  ℕ, ◌≡◌, ◌≢◌, ap, inl, inr, List, [], ◌∷◌, ◌++◌, Option, none, some, arith, ne→==, Option-cases,
  ◌==◌, if◌then◌else◌, ◌>>=◌,
}
use dn_server.GlobalNames.Find.{hash_search-new}
use dn_server.Harbor.{hash_size, LocalSend, Entry, Network, Harbor, harbor_create}
use dn_server.Harbor.Remote.{report_local_address}
use dn_server.Harbor.Remote.Addresses.{IsValid}
use dn_server.Harbor.Remote.Mainloop.{request_master-Ends}

-- The two messages to the gate, `broker` with the address of the service, and `start`.
abbrev pub gate_sends : ℕ → List ℕ → List LocalSend
gate_sends gate self_addr =
    record {
      source = 0;
      destination = gate;
      type = 0;
      session = 0;
      payload = 98 ∷ 114 ∷ 111 ∷ 107 ∷ 101 ∷ 114 ∷ 32 ∷ self_addr;
    }
    ∷ record {
      source = 0;
      destination = gate;
      type = 0;
      session = 0;
      payload = 115 ∷ 116 ∷ 97 ∷ 114 ∷ 116 ∷ [];
    }
    ∷ []

module _ {World : Type 0} (net : Network World) where
  -- `harbor_init` with its arguments parsed, the handle that the launch of the gate gives, 0 where it
  -- fails, and the address of the service: the result, and the service.
  pub init_service : Harbor World → List ℕ → List ℕ → ℕ → ℕ → List ℕ → Option (ℕ × Harbor World)
  init_service h master_addr local_addr harbor_id gate self_addr =
      let (master_fd, w) = net.connect h.world master_addr in
      let connected = record h {
        master_addr = some master_addr;
        master_fd = master_fd;
        world = w;
      } in
      let ready = record connected {
        id = harbor_id;
        sends = h.sends ++ gate_sends gate self_addr;
      } in
      elim master_fd [
        | none ↦ some (1, record h { world = w })
        | some fd ↦
            if gate == 0
            then some (1, connected)
            else report_local_address net ready local_addr harbor_id >>= λ h'. some (0, h')
      ]

  -- The service that `harbor_init` has started is valid.
  pub init_service-IsValid :
      (w : World) (master_addr local_addr : List ℕ) (harbor_id gate : ℕ) (self_addr : List ℕ)
      → gate ≢ 0
      → (net.connect w master_addr).0 ≢ none
      → (h : Harbor World) × (init_service
            (harbor_create w)
            master_addr
            local_addr
            harbor_id
            gate
            self_addr
          ≡ some (0, h))
        × IsValid h
  unfolding init_service report_local_address
  init_service-IsValid w master_addr local_addr harbor_id gate self_addr ne open_master =
      elim (Option-cases ((net.connect w master_addr).0)) [
        | inl e ↦ absurd (open_master e)
        | inr (fd, e) ↦
            let ready : Harbor World = record (harbor_create w) {
              id = harbor_id;
              master_addr = some master_addr;
              master_fd = (net.connect w master_addr).0;
              sends = [] ++ gate_sends gate self_addr;
              world = (net.connect w master_addr).1;
            } in
            let v : IsValid ready = record {
              master = λ n. ground arith;
              addressed = λ i d f. ground arith;
              named =
                  λ name n found. let new = hash_search-new {A = Entry} hash_size name in absurd cc;
            } in
            let (h, answered, v') = request_master-Ends net ready local_addr harbor_id v in
            rw (e, init_service, ne→== gate 0 ne) (h, ap (λ o. o >>= λ k. some (0, k)) answered, v')
      ]
