-- ===== src/Harbor/Remote/Broken.antt =====
-- The loop of `_dispatch_queue` on a socket that has broken: it connects again for each message, and
-- writes to the old descriptor.
use dn_server.Common.{
  ℕ, zero, suc, ◌+◌, ◌/◌, ◌^◌, ◌<◌, ◌≡◌, ◌≢◌, refl, ap, ◌∙◌, inl, inr, false, List, none, some,
  arith, length, Option-cases, eq→==, ne→==, ◌>>=◌,
}
use dn_server.Harbor.{Msg, MsgQueue, Network, writev, Harbor, put_at, pop_queue}
use dn_server.Harbor.Contents.{IsValid, contents, pop_queue-some, length-contents, held-lt}
use dn_server.Harbor.Remote.{send_package, reconnect, dispatch_loop, dispatch_queue}
use dn_server.Harbor.Remote.Dispatch.{sent_as, dispatch_loop-empty}

-- All writes to a descriptor fail, and the address can be connected to; `log` is what the other
-- node has got on any socket.
pub record Breaks {World : Type 0} (net : Network World) (log : World → List (List ℕ)) (fd : ℕ)
    (addr : List ℕ) : Type 0 where
  pub fails : (w : World) (bytes : List ℕ) → (writev net w fd bytes).0 ≡ false
  pub silent : (w : World) (bytes : List ℕ) → log ((writev net w fd bytes).1) ≡ log w
  pub closes : (w : World) → log (net.close w fd) ≡ log w
  pub connects : (w : World) → log ((net.connect w addr).1) ≡ log w
  pub answers : (w : World) → (d : ℕ) × ((net.connect w addr).0 ≡ some d)

-- The service after a failed write and the new connection.
abbrev again :
    {World : Type 0} → Network World → Harbor World → ℕ → ℕ → List ℕ → List ℕ → Harbor World
again net h fd id addr bytes =
    let (new_fd, w) = net.connect (net.close ((writev net h.world fd bytes).1) fd) addr in
    record h { remote_fd = put_at h.remote_fd id new_fd; world = w }

reconnect-again :
    {World : Type 0} (net : Network World) (fd id : ℕ) (addr bytes : List ℕ) (h : Harbor World)
    → h.remote_addr id ≡ some addr
    → reconnect net (record h { world = (writev net h.world fd bytes).1 }) fd id
      ≡ some (again net h fd id addr bytes)
unfolding reconnect
reconnect-again net fd id addr bytes h at = rw at refl

-- A failed write, with the harbor connected again or not.
pub dispatch_loop-broken :
    {World : Type 0} (net : Network World) (fuel fd id handle d : ℕ) (h h₁ : Harbor World)
    (q : MsgQueue) (m : Msg)
    → (pop_queue q).0 ≡ some m
    → (writev net h.world fd (sent_as handle m)).0 ≡ false
    → reconnect net (record h { world = (writev net h.world fd (sent_as handle m)).1 }) fd id
      ≡ some h₁
    → h₁.remote_fd id ≡ some d
    → dispatch_loop net (suc fuel) h fd id q handle
      ≡ dispatch_loop net fuel h₁ fd id ((pop_queue q).1) handle
unfolding dispatch_loop send_package
dispatch_loop-broken net fuel fd id handle d h h₁ q m e bad opened up =
    rw (e, dispatch_loop, send_package, bad, opened, ◌>>=◌, up) refl

pub dispatch_loop-closed :
    {World : Type 0} (net : Network World) (fuel fd id handle : ℕ) (h h₁ : Harbor World)
    (q : MsgQueue) (m : Msg)
    → (pop_queue q).0 ≡ some m
    → (writev net h.world fd (sent_as handle m)).0 ≡ false
    → reconnect net (record h { world = (writev net h.world fd (sent_as handle m)).1 }) fd id
      ≡ some h₁
    → h₁.remote_fd id ≡ none
    → dispatch_loop net (suc fuel) h fd id q handle ≡ some h₁
unfolding dispatch_loop send_package
dispatch_loop-closed net fuel fd id handle h h₁ q m e bad opened down =
    rw (e, dispatch_loop, send_package, bad, opened, ◌>>=◌, down) refl

-- Nothing arrives, though the harbor is connected.
abbrev pub Loses :
    {World : Type 0} → (World → List (List ℕ)) → ℕ → Harbor World → Harbor World → Type 0
Loses log id h h' = (log h'.world ≡ log h.world) × (h'.remote_fd id ≢ none)

dispatch_loop-Loses :
    {World : Type 0} (net : Network World) (log : World → List (List ℕ)) (fd : ℕ) (addr : List ℕ)
    → Breaks net log fd addr
    → (fuel id handle : ℕ) (h : Harbor World) (q : MsgQueue) → IsValid q
    → length (contents q) < fuel
    → h.remote_addr id ≡ some addr
    → h.remote_fd id ≢ none
    → (h' : Harbor World) × (dispatch_loop net fuel h fd id q handle ≡ some h') × Loses log id h h'
dispatch_loop-Loses net log fd addr bad zero id handle h q v enough at up = absurd (omega arith)
dispatch_loop-Loses net log fd addr bad (suc fuel) id handle h q v enough at up =
    elim (Option-cases ((pop_queue q).0)) [
      | inl e ↦ (h, dispatch_loop-empty net fuel fd id handle h q e, (refl, up))
      | inr (m, e) ↦
          let (v', front) = pop_queue-some q m v e in
          let bytes = sent_as handle m in
          let w = net.close ((writev net h.world fd bytes).1) fd in
          let (d, answered) = bad.answers w in
          let h₁ = again net h fd id addr bytes in
          let up₁ : h₁.remote_fd id ≡ some d = rw (eq→== id id refl) answered in
          let (h', run, (lost, up')) =
            dispatch_loop-Loses net log fd addr bad fuel id handle h₁ ((pop_queue q).1) v'
              (omega (arith, enough, ap length front)) at
              (λ none_now. absurd (cc (up₁, none_now))) in
          (
            h',
            dispatch_loop-broken net fuel fd id handle d h h₁ q m e (bad.fails h.world bytes)
                  (reconnect-again net fd id addr bytes h at) up₁
                ∙ run,
            (
              lost
                  ∙ bad.connects w
                  ∙ bad.closes ((writev net h.world fd bytes).1)
                  ∙ bad.silent h.world bytes,
              up',
            ),
          )
    ]

-- Where every write to the descriptor of the harbor fails, also once it is closed, and its address
-- can be connected to, the messages that wait for a name are all lost: nothing arrives, on any
-- socket, though the harbor is connected at the end.
pub dispatch_queue-Loses :
    {World : Type 0} (net : Network World) (log : World → List (List ℕ)) (fd : ℕ) (addr : List ℕ)
    → Breaks net log fd addr
    → (handle : ℕ) (h : Harbor World) (q : MsgQueue) → IsValid q
    → handle / 2 ^ 24 ≢ 0
    → h.remote_fd (handle / 2 ^ 24) ≡ some fd
    → h.remote_addr (handle / 2 ^ 24) ≡ some addr
    → (h' : Harbor World) × (dispatch_queue net h q handle ≡ some h')
      × Loses log (handle / 2 ^ 24) h h'
unfolding dispatch_queue
dispatch_queue-Loses net log fd addr bad handle h q v far at known =
    rw (ne→== (handle / 2 ^ 24) 0 far, at)
      (dispatch_loop-Loses net log fd addr bad (q.size + 1) (handle / 2 ^ 24) handle h q v
        (omega (arith, length-contents q, held-lt q v)) known
        (λ none_now. absurd (cc (at, none_now))))
