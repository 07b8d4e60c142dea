-- ===== src/Harbor/Remote/Dispatch.antt =====
-- What the messages that wait for a name become when its handle is known.
use dn_server.Common.{
  ℕ, zero, suc, ◌+◌, ◌/◌, ◌^◌, ◌<◌, ◌≡◌, ◌≢◌, refl, sym, ap, ◌∙◌, inl, inr, true, List, [], ◌∷◌,
  ◌++◌, map, append-nil, append_assoc, none, some, arith, length, Option-cases, ne→==,
}
use dn_server.Harbor.{Msg, MsgQueue, Network, writev, Harbor, header_to_message, pop_queue}
use dn_server.Harbor.Contents.{
  IsValid, contents, pop_queue-none, pop_queue-some, length-contents, held-lt,
}
use dn_server.Harbor.Remote.{send_package, address_header, dispatch_loop, dispatch_queue}
use dn_server.Harbor.Remote.Package.{frame}

-- A socket that works: what is written to it arrives, and only that.
pub record Works {World : Type 0} (net : Network World) (log : World → List (List ℕ)) (fd : ℕ)
    : Type 0 where
  pub written : (w : World) (bytes : List ℕ) → (writev net w fd bytes).0 ≡ true
  pub arrives : (w : World) (bytes : List ℕ) → log ((writev net w fd bytes).1) ≡ log w ++ bytes ∷ []
  pub other_fd :
      (w : World) (d : ℕ) (bytes : List ℕ) → d ≢ fd → log ((writev net w d bytes).1) ≡ log w
  pub connects : (w : World) (addr : List ℕ) → log ((net.connect w addr).1) ≡ log w
  pub fresh : (w : World) (addr : List ℕ) → (net.connect w addr).0 ≢ some fd
  pub closes : (w : World) (d : ℕ) → d ≢ fd → log (net.close w d) ≡ log w

-- What is written for a message that waited.
abbrev pub sent_as : ℕ → Msg → List ℕ
sent_as handle m = frame (m.buffer ++ header_to_message (address_header m.header handle))

pub dispatch_loop-empty :
    {World : Type 0} (net : Network World) (fuel fd id handle : ℕ) (h : Harbor World) (q : MsgQueue)
    → (pop_queue q).0 ≡ none
    → dispatch_loop net (suc fuel) h fd id q handle ≡ some h
unfolding dispatch_loop
dispatch_loop-empty net fuel fd id handle h q e = rw (e, dispatch_loop) refl

pub dispatch_loop-sent :
    {World : Type 0} (net : Network World) (fuel fd id handle : ℕ) (h : Harbor World) (q : MsgQueue)
    (m : Msg)
    → (pop_queue q).0 ≡ some m
    → (writev net h.world fd (sent_as handle m)).0 ≡ true
    → dispatch_loop net (suc fuel) h fd id q handle
      ≡ dispatch_loop net fuel
          (record h { world = (writev net h.world fd (sent_as handle m)).1 })
          fd
          id
          ((pop_queue q).1)
          handle
unfolding dispatch_loop send_package
dispatch_loop-sent net fuel fd id handle h q m e ok = rw (e, dispatch_loop, send_package, ok) refl

-- The loop writes all messages in order, and leaves the rest of the service as it is.
abbrev pub Delivers :
    {World : Type 0} → (World → List (List ℕ)) → ℕ → List Msg → Harbor World → Harbor World → Type 0
Delivers log handle ms h h' =
    (h' ≡ record h { world = h'.world }) × (log h'.world ≡ log h.world ++ map (sent_as handle) ms)

dispatch_loop-Delivers :
    {World : Type 0} (net : Network World) (log : World → List (List ℕ)) (fd : ℕ)
    → Works net log fd
    → (fuel id handle : ℕ) (h : Harbor World) (q : MsgQueue) → IsValid q
    → length (contents q) < fuel
    → (h' : Harbor World) × (dispatch_loop net fuel h fd id q handle ≡ some h')
      × Delivers log handle (contents q) h h'
dispatch_loop-Delivers net log fd works zero id handle h q v enough = absurd (omega arith)
dispatch_loop-Delivers net log fd works (suc fuel) id handle h q v enough =
    elim (Option-cases ((pop_queue q).0)) [
      | inl e ↦
          let none_left = pop_queue-none q v e in
          (
            h,
            dispatch_loop-empty net fuel fd id handle h q e,
            (refl, sym (rw none_left (append-nil (log h.world)))),
          )
      | inr (m, e) ↦
          let (v', front) = pop_queue-some q m v e in
          let bytes = sent_as handle m in
          let h₁ = record h { world = (writev net h.world fd bytes).1 } in
          let (h', run, (same, all)) =
            dispatch_loop-Delivers net log fd works fuel id handle h₁ ((pop_queue q).1) v'
              (omega (arith, enough, ap length front)) in
          (
            h',
            dispatch_loop-sent net fuel fd id handle h q m e (works.written h.world bytes) ∙ run,
            (
              same,
              all
                  ∙ ap (λ l. l ++ map (sent_as handle) (contents ((pop_queue q).1)))
                      (works.arrives h.world bytes)
                  ∙ append_assoc (log h.world) (bytes ∷ []) _
                  ∙ ap (λ ms. log h.world ++ map (sent_as handle) ms) (sym front),
            ),
          )
    ]

-- Where the harbor of the handle is connected, the messages that wait are written to it in order.
pub dispatch_queue-Delivers :
    {World : Type 0} (net : Network World) (log : World → List (List ℕ)) (fd : ℕ)
    → Works net log fd
    → (handle : ℕ) (h : Harbor World) (q : MsgQueue) → IsValid q
    → handle / 2 ^ 24 ≢ 0
    → h.remote_fd (handle / 2 ^ 24) ≡ some fd
    → (h' : Harbor World) × (dispatch_queue net h q handle ≡ some h')
      × Delivers log handle (contents q) h h'
unfolding dispatch_queue
dispatch_queue-Delivers net log fd works handle h q v far at =
    rw (ne→== (handle / 2 ^ 24) 0 far, at)
      (dispatch_loop-Delivers net log fd works (q.size + 1) (handle / 2 ^ 24) handle h q v
        (omega (arith, length-contents q, held-lt q v)))
