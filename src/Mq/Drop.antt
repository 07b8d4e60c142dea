-- ===== src/Mq/Drop.antt =====
-- Dropping a released queue: `_drop_queue` and `skynet_mq_release` of skynet_mq.c.
use dn_server.Common.{
  ℕ, zero, suc, ◌<◌, ◌≡◌, refl, List, [], ◌∷◌, Option, none, some, arith, true, ap, length,
}
use dn_server.Mq.{
  Message, MessageQueue, GlobalQueue, Disposal, dispose, mq_pop, drop_loop, dropped, mq_release,
}
use dn_server.Mq.Contents.{IsValid, contents, size, length-contents, size-lt-cap}
use dn_server.Mq.Refine.{Pops, mq_pop-Pops}

-- What becomes of a list of messages: each is disposed of once, in order.
unfoldable pub dispose_all : List Message → Option (List Disposal)
dispose_all [] = some []
dispose_all (m ∷ ms) = elim (dispose m) [
  | none ↦ none
  | some d ↦ elim (dispose_all ms) [ none ↦ none | some ds ↦ some (d ∷ ds) ]
]

-- One round of the loop, after a pop.
drop_step :
    (fuel : ℕ) (q : MessageQueue) (r : Option Message × MessageQueue)
    → size q < suc fuel
    → mq_pop q ≡ r
    → Pops q r
    → ((q' : MessageQueue)
        → IsValid q'
        → size q' < fuel
        → drop_loop fuel q' ≡ dispose_all (contents q'))
    → drop_loop (suc fuel) q ≡ dispose_all (contents q)
unfolding drop_loop dispose_all
drop_step fuel q (none, q') h e p ih = rw (e, p.0, drop_loop)
drop_step fuel q (some m, q') h e p ih =
    let l : size q' < fuel = omega (arith, ap length p.0, length-contents q, length-contents q') in
    rw p.0 (ground (arith, e, ih q' p.1 l))

drop_loop-eq-dispose_all :
    (fuel : ℕ) (q : MessageQueue)
    → IsValid q
    → size q < fuel
    → drop_loop fuel q ≡ dispose_all (contents q)
drop_loop-eq-dispose_all zero q v h = absurd (omega arith)
drop_loop-eq-dispose_all (suc fuel) q v h =
    drop_step fuel q (mq_pop q) h refl (mq_pop-Pops q v) (drop_loop-eq-dispose_all fuel)

-- The release of a marked queue disposes of each message that it holds once, the oldest first,
-- and ends: it can fail only by the assert on the size of a multicast message.
pub mq_release-drops :
    (g : GlobalQueue) (q : MessageQueue)
    → IsValid q
    → q.release ≡ true
    → mq_release g q ≡ elim (dispose_all (contents q)) [ none ↦ none | some ds ↦ some (dropped ds) ]
unfolding mq_release
mq_release-drops g q v r = simp (r, drop_loop-eq-dispose_all q.cap q v (size-lt-cap v))
