-- ===== src/Multicast/Count.antt =====
-- The counter of a shared message: when it is freed, whatever the order of the steps.
use dn_server.Common.{
  ℕ, suc, ◌+◌, ◌^◌, ◌<◌, ◌≡◌, ◌≢◌, refl, ap, subst, inl, inr, Bool, false, List, [], ◌==◌, length,
  arith, Bool-cases,
}
use dn_server.Multicast.{
  MulticastMessage, multicast_copy, multicast_dispatch, Memory, live, freed, corrupt, access,
  negative, cast_end, Casting, cast_begin, Step, send, skip, return, dispatch, Reach, here, next,
}

-- The copies that are still to be dispatched or given back.
abbrev pub owed : Casting → ℕ
owed s = length s.dests + s.release + s.queued

-- The memory is live with the counter `k`, and freed where nothing is owed.
abbrev pub Holds : ℕ → Memory → Type 0
Holds k (live mc) = (mc.ref ≡ k) × (0 < k) × (k < 2 ^ 32)
Holds k freed = k ≡ 0
Holds k corrupt = ⊥

Holds-multicast_copy :
    (k d : ℕ) (m : Memory)
    → 0 < d
    → Holds (k + d) m
    → Holds k (access (multicast_copy (negative d)) m)
unfolding access multicast_copy
Holds-multicast_copy k d (live mc) pos (r, _, bound) = rw r (ground arith)
Holds-multicast_copy k d freed pos z = absurd (omega (arith, z))
Holds-multicast_copy k d corrupt pos h = absurd h

pub Holds-multicast_dispatch :
    (k : ℕ) (func : Bool) (m : Memory)
    → Holds (suc k) m
    → Holds k (access (λ mc. (multicast_dispatch func mc).1) m)
unfolding access multicast_dispatch
Holds-multicast_dispatch k func (live mc) (r, _, bound) = rw r (ground arith)
Holds-multicast_dispatch k func freed z = absurd (omega (arith, z))
Holds-multicast_dispatch k func corrupt h = absurd h

-- What a reachable state of a cast is like: the counter is what is owed, and after the return only
-- the copies in queues are.
pub record IsCounted (s : Casting) : Type 0 where
  pub holds : Holds (owed s) s.memory
  pub returned : s.active ≡ false → (s.dests ≡ []) × (s.release ≡ 0)

Holds-cast_end : (k release : ℕ) (m : Memory) → Holds (k + release) m → Holds k (cast_end release m)
unfolding cast_end
Holds-cast_end k d m h = elim (Bool-cases (d == 0)) [
  | inl none_left ↦ rw none_left (subst (λ j. Holds j m) (ground arith) h)
  | inr more ↦ rw more (Holds-multicast_copy k d m (ground arith) h)
]

Step-IsCounted : {s t : Casting} → Step cast_end s t → IsCounted s → IsCounted t
Step-IsCounted {s} (send p ps e) i = record {
  holds = subst (λ k. Holds k s.memory) (ground (arith, ap length e)) i.holds;
  returned = λ off. ground (arith, i.returned off);
}
Step-IsCounted {s} (skip p ps e) i = record {
  holds = subst (λ k. Holds k s.memory) (ground (arith, ap length e)) i.holds;
  returned = λ off. ground (arith, i.returned off);
}
Step-IsCounted {s} (return e on) i = record {
  holds =
      Holds-cast_end (length s.dests + 0 + s.queued) s.release s.memory
        (subst (λ k. Holds k s.memory) (omega arith) i.holds);
  returned = λ off. (e, refl);
}
Step-IsCounted {s} (dispatch q func e) i = record {
  holds =
      Holds-multicast_dispatch (owed (record s { queued = q })) func s.memory
        (subst (λ k. Holds k s.memory) (omega (arith, e)) i.holds);
  returned = i.returned;
}

Reach-IsCounted : {s t : Casting} → Reach cast_end s t → IsCounted s → IsCounted t
Reach-IsCounted here i = i
Reach-IsCounted (next r step) i = Step-IsCounted step (Reach-IsCounted r i)

pub Holds-cast_begin :
    (mc : MulticastMessage) (dests : List ℕ)
    → mc.ref ≡ 0
    → length dests < 2 ^ 32
    → Holds (length dests) (cast_begin mc dests).memory
unfolding cast_begin access multicast_copy
Holds-cast_begin mc dests z bound = rw z (ground arith)

cast_begin-IsCounted :
    (mc : MulticastMessage) (dests : List ℕ)
    → mc.ref ≡ 0
    → length dests < 2 ^ 32
    → IsCounted (cast_begin mc dests)
unfolding cast_begin
cast_begin-IsCounted mc dests z bound = record {
  holds =
      subst (λ k. Holds k (cast_begin mc dests).memory) (ground arith)
        (Holds-cast_begin mc dests z bound);
  returned = λ off. ground arith;
}

-- The message has not been touched after its end, and it is freed exactly where nothing is owed.
abbrev pub IsSound : Casting → Type 0
IsSound s = (s.memory ≢ corrupt) × (s.memory ≡ freed → owed s ≡ 0) × (owed s ≡ 0 → s.memory ≡ freed)

pub Holds-sound :
    (k : ℕ) (m : Memory) → Holds k m → (m ≢ corrupt) × (m ≡ freed → k ≡ 0) × (k ≡ 0 → m ≡ freed)
Holds-sound k (live mc) h = ground arith
Holds-sound k freed h = ground arith
Holds-sound k corrupt h = absurd h

-- In every state that a cast of a new message by `skynet_multicast_cast` to fewer than 2 ^ 32
-- receivers reaches, whatever receivers exist and in whatever order they dispatch, nothing has
-- touched the message after it was freed, and it is freed exactly where no copy is owed.
pub cast-IsSound :
    (mc : MulticastMessage) (dests : List ℕ) {t : Casting}
    → mc.ref ≡ 0
    → length dests < 2 ^ 32
    → Reach cast_end (cast_begin mc dests) t
    → IsSound t
cast-IsSound mc dests {t} z bound r =
    Holds-sound (owed t) t.memory (Reach-IsCounted r (cast_begin-IsCounted mc dests z bound)).holds
