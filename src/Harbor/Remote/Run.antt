-- ===== src/Harbor/Remote/Run.antt =====
-- The harbor service over all its messages.
use dn_server.Common.{
  ℕ, ◌≡◌, refl, ap, ◌∙◌, ◌⊎◌, inl, inr, List, [], ◌∷◌, Option, some, ◌==◌, ◌>>=◌, Bool-cases, arith,
  take, true,
}
use dn_server.GlobalNames.{globalname_length}
use dn_server.Harbor.{Network, Harbor, name_length}
use dn_server.Harbor.Remote.{
  Request, package_in, register_name, message_out, mainloop, remote_register_name, destination_size,
}
use dn_server.Harbor.Remote.Addresses.{IsFar, IsValid, Ends}
use dn_server.Harbor.Remote.Mainloop.{
  IsPackage, update_remote_name-Ends, request_master-Ends, remote_message_in-Ends,
  remote_message_out-Ends,
}

-- A package that is well formed, a name with no handle or that of some node in a message of its
-- size, or a message to a name or to a handle of some node.
abbrev pub IsRequest : Request → Type 0
IsRequest (package_in msg) = IsPackage msg
IsRequest (register_name sz name handle) = (sz ≡ destination_size) × ((handle ≡ 0) ⊎ IsFar handle)
IsRequest (message_out type session source name handle message) = (handle ≡ 0) ⊎ IsFar handle

abbrev pub AllRequests : List Request → Type 0
AllRequests [] = Unit
AllRequests (r ∷ rs) = IsRequest r × AllRequests rs

module _ {World : Type 0} (net : Network World) where
  remote_register_name-Ends :
      (h : Harbor World) (name : List ℕ) (handle : ℕ)
      → IsValid h
      → (handle ≡ 0) ⊎ IsFar handle
      → Ends (remote_register_name net h name handle)
  unfolding remote_register_name
  remote_register_name-Ends h name handle v about =
      let asked = take (name_length globalname_length name) name in
      elim (Bool-cases (handle == 0)) [
        | inl e ↦ rw e (request_master-Ends net h asked handle v)
        | inr e ↦
            let far : IsFar handle = elim about [ inl z ↦ absurd (ground arith) | inr far ↦ far ] in
            let (h', run, v') = update_remote_name-Ends net h name handle v far in
            rw (e, run) (request_master-Ends net h' asked handle v')
      ]

  mainloop-Ends :
      (h : Harbor World) (r : Request)
      → IsValid h
      → IsRequest r
      → (result : ℕ) × (h' : Harbor World) × (mainloop net h r ≡ some (result, h')) × IsValid h'
  unfolding mainloop
  mainloop-Ends h (package_in msg) v about = remote_message_in-Ends net h msg v about
  mainloop-Ends h (register_name sz name handle) v (size, about) =
      let (h', run, v') = remote_register_name-Ends h name handle v about in
      let whole : (sz == destination_size) ≡ true = ground arith in
      rw whole (0, h', ap (λ o. o >>= λ k. some (0, k)) run, v')
  mainloop-Ends h (message_out type session source name handle message) v about =
      let (b, h', run, v') =
        remote_message_out-Ends net h type session source name handle message v about in
      (0, h', ap (λ o. o >>= λ r. some (0, r.1)) run, v')

  -- The requests, one after the other.
  abbrev pub run_all : List Request → Harbor World → Option (Harbor World)
  run_all [] h = some h
  run_all (r ∷ rs) h = mainloop net h r >>= λ p. run_all rs (p.1)

  -- From a valid service, as `harbor_init` leaves one that it has started, every sequence of
  -- requests that are well formed is handled to its end, whatever the network answers, where the
  -- retries of each write end: no assert fails, no address is read through NULL, and the service
  -- stays valid.
  pub run_all-Ends :
      (rs : List Request) (h : Harbor World) → IsValid h → AllRequests rs → Ends (run_all rs h)
  run_all-Ends [] h v all = (h, refl, v)
  run_all-Ends (r ∷ rs) h v (first, all) =
      let (result, h₁, step, v₁) = mainloop-Ends h r v first in
      let (h', run, v') = run_all-Ends rs h₁ v₁ all in
      (h', ap (λ o. o >>= λ p. run_all rs (p.1)) step ∙ run, v')
