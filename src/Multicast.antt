-- ===== src/Multicast.antt =====
-- dn/skynet-src/skynet_multicast.c: one message that many services share. Its counter `ref` is the
-- bit pattern of an `int`. A cast grabs each receiver, pushes a pointer to the message to its
-- queue, and the receivers dispatch it on other threads meanwhile: each is a step of its own. That
-- a queue which is dropped dispatches its copies without a callback is the case `false` below.
pub mod Count
pub mod Race
pub mod Group
mod Tests
use dn_server.Common.{
  ℕ, zero, suc, ◌+◌, ◌-◌, ◌%◌, ◌^◌, ◌≡◌, Bool, true, false, List, [], ◌∷◌, Option, none, some, ◌==◌,
  if◌then◌else◌, length,
}

-- `struct skynet_multicast_message`
pub record MulticastMessage : Type 0 where
  pub ref : ℕ
  pub msg : ℕ
  pub sz : ℕ
  pub source : ℕ

-- `skynet_multicast_create`
pub multicast_create : ℕ → ℕ → ℕ → MulticastMessage
multicast_create msg sz source = record { ref = 0; msg = msg; sz = sz; source = source }

-- `skynet_multicast_copy`; `none`: the message is freed.
pub multicast_copy : ℕ → MulticastMessage → Option MulticastMessage
multicast_copy copy mc =
    let r = (mc.ref + copy) % 2 ^ 32 in if r == 0 then none else some (record mc { ref = r })

-- `skynet_multicast_dispatch`: the call of `func`, where there is one, and the message after it.
pub multicast_dispatch : Bool → MulticastMessage → List (ℕ × ℕ × ℕ) × Option MulticastMessage
multicast_dispatch func mc =
    let ref = (mc.ref + 2 ^ 32 - 1) % 2 ^ 32 in
    (
      if func then (mc.source, mc.msg, mc.sz) ∷ [] else [],
      if ref == 0 then none else some (record mc { ref = ref }),
    )

-- The memory of the message: `corrupt` is what an access to freed memory leaves.
pub data Memory : Type 0 where
  live : MulticastMessage → Memory
  freed : Memory
  corrupt : Memory

pub access : (MulticastMessage → Option MulticastMessage) → Memory → Memory
access f (live mc) = elim (f mc) [ none ↦ freed | some mc' ↦ live mc' ]
access f freed = corrupt
access f corrupt = corrupt

-- the bit pattern of `-release`
abbrev pub negative : ℕ → ℕ
negative release = (2 ^ 32 - release) % 2 ^ 32

-- The end of `skynet_multicast_cast`.
pub cast_end : ℕ → Memory → Memory
cast_end release m = if release == 0 then m else access (multicast_copy (negative release)) m

-- The end of `skynet_multicast_castgroup`.
pub castgroup_end : ℕ → Memory → Memory
castgroup_end release m = access (multicast_copy (negative release)) m

-- A cast: the receivers that its loop has still to visit, how many did not exist, whether the call
-- has not returned, and how many copies are in the queues of services.
pub record Casting : Type 0 where
  pub memory : Memory
  pub dests : List ℕ
  pub release : ℕ
  pub active : Bool
  pub queued : ℕ

-- Up to the loop: the counter is raised by the number of receivers.
unfoldable pub cast_begin : MulticastMessage → List ℕ → Casting
cast_begin mc dests = record {
  memory = access (multicast_copy (length dests)) (live mc);
  dests = dests;
  release = 0;
  active = true;
  queued = 0;
}

-- The steps of a cast with the given end, and of the receivers.
pub data Step (end : ℕ → Memory → Memory) (s : Casting) : Casting → Type 0 where
  send :
      (p : ℕ) (ps : List ℕ)
      → s.dests ≡ p ∷ ps
      → Step end s (record s { dests = ps; queued = suc s.queued })
  skip :
      (p : ℕ) (ps : List ℕ)
      → s.dests ≡ p ∷ ps
      → Step end s (record s { dests = ps; release = suc s.release })
  return :
      s.dests ≡ []
      → s.active ≡ true
      → Step end s (record s { memory = end s.release s.memory; release = 0; active = false })
  dispatch :
      (q : ℕ) (func : Bool)
      → s.queued ≡ suc q
      → Step end s
          (record s { memory = access (λ mc. (multicast_dispatch func mc).1) s.memory; queued = q })

pub data Reach (end : ℕ → Memory → Memory) (s : Casting) : Casting → Type 0 where
  here : Reach end s s
  next : {t u : Casting} → Reach end s t → Step end t u → Reach end s u
