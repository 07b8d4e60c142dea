-- ===== src/Multicast/Race.antt =====
-- The end of `skynet_multicast_castgroup`, which gives back copies also where none is left over.
use dn_server.Common.{
  ℕ, zero, suc, ◌+◌, ◌<◌, ◌^◌, ◌≡◌, refl, subst, List, [], ◌∷◌, length, arith, true,
}
use dn_server.Multicast.{
  MulticastMessage, freed, corrupt, access, castgroup_end, Casting, cast_begin, send, return,
  dispatch, Reach, here, next, multicast_dispatch,
}
use dn_server.Multicast.Count.{Holds, Holds-sound, Holds-multicast_dispatch, Holds-cast_begin}

-- All receivers exist: the rest of the loop pushes one copy to each.
send_all :
    (s t : Casting) (ps : List ℕ) (k : ℕ)
    → t.dests ≡ ps
    → length ps + t.queued ≡ k
    → Reach castgroup_end s t
    → Reach castgroup_end s (record t { dests = []; queued = k })
send_all s t [] k e n r =
    subst (λ ds. Reach castgroup_end s (record t { dests = ds; queued = k })) e
      (subst (λ j. Reach castgroup_end s (record t { queued = j })) (omega (arith, n)) r)
send_all s t (p ∷ ps) k e n r =
    send_all s (record t { dests = ps; queued = suc t.queued }) ps k refl (omega (arith, n))
      (next r (send p ps e))

-- The receivers dispatch all copies before the call goes on.
dispatch_all :
    (s t : Casting) (q : ℕ)
    → t.queued ≡ q
    → Holds q t.memory
    → Reach castgroup_end s t
    → Reach castgroup_end s (record t { memory = freed; queued = 0 })
dispatch_all s t zero e h r =
    subst (λ k. Reach castgroup_end s (record t { memory = freed; queued = k })) e
      (subst (λ m. Reach castgroup_end s (record t { memory = m }))
        ((Holds-sound 0 t.memory h).2 refl) r)
dispatch_all s t (suc q) e h r =
    dispatch_all s
      (record t { memory = access (λ mc. (multicast_dispatch true mc).1) t.memory; queued = q }) q
      refl (Holds-multicast_dispatch q true t.memory h) (next r (dispatch q true e))

-- Whatever the receivers of a group cast of a new message are, at least one and fewer than 2 ^ 32,
-- when all exist and dispatch their copies before `skynet_multicast_castgroup` returns, it touches
-- the message after it was freed.
pub castgroup-corrupt :
    (mc : MulticastMessage) (p : ℕ) (ps : List ℕ)
    → mc.ref ≡ 0
    → length (p ∷ ps) < 2 ^ 32
    → (t : Casting) × Reach castgroup_end (cast_begin mc (p ∷ ps)) t × (t.memory ≡ corrupt)
unfolding cast_begin castgroup_end access
castgroup-corrupt mc p ps z bound =
    let s = cast_begin mc (p ∷ ps) in
    let sent = send_all s s (p ∷ ps) (length (p ∷ ps)) refl (omega arith) here in
    let done =
      dispatch_all s (record s { dests = []; queued = length (p ∷ ps) }) (length (p ∷ ps)) refl
        (Holds-cast_begin mc (p ∷ ps) z bound) sent in
    (_, next done (return refl refl), refl)
