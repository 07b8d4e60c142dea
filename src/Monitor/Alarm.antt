-- ===== src/Monitor/Alarm.antt =====
-- When a check raises the alarm, and what the alarm does to the service.
use dn_server.Common.{
  ℕ, ◌+◌, ◌%◌, ◌^◌, ◌<◌, ◌≡◌, ◌≢◌, refl, sym, ap, subst, ◌∙◌, ◌⊎◌, inl, inr, List, [], ◌∷◌, Option,
  none, some, ◌==◌, true, length, arith, Option-cases, Bool-cases, eq→==, ne→==, ==→eq,
}
use dn_server.Context.{context_grab}
use dn_server.Handle.{write, grab, resolve}
use dn_server.Server.{Node}
use dn_server.Server.Delivery.{IsLive, release_context-counted, grab-found}
use dn_server.Monitor.{
  Monitor, monitor_trigger, triggers, mark_grabbed, context_endless, monitor_check,
}

-- What the alarm for a handle does: the context of the handle alone is marked, and no reference
-- is kept; where there is none, nothing.
abbrev pub Marks : Node → ℕ → Option Node → Type 0
Marks w handle none = ⊥
Marks w handle (some w') =
    (resolve w.heap w.handles handle ≡ none) × (w' ≡ w)
    ⊎ ((ctx : ℕ) × (resolve w.heap w.handles handle ≡ some ctx)
        × (w'.heap ctx ≡ record (w.heap ctx) { endless = true })
        × ((c : ℕ) → c ≢ ctx → w'.heap c ≡ w.heap c)
        × (w'.handles ≡ w.handles)
        × (w'.queues ≡ w.queues)
        × (w'.global ≡ w.global))

context_endless-nobody :
    (w : Node) (handle : ℕ)
    → resolve w.heap w.handles handle ≡ none
    → context_endless w handle ≡ some w
unfolding context_endless mark_grabbed grab
context_endless-nobody w handle e =
    let grabbed : grab w.heap w.handles handle ≡ (none, w.heap) = rw (e, grab) refl in
    ap (mark_grabbed w) grabbed

-- The context with the mark and the counted reference.
abbrev marked : Node → ℕ → Node
marked w ctx =
    let heap = write w.heap ctx (context_grab (w.heap ctx)) in
    record w { heap = write heap ctx (record (heap ctx) { endless = true }) }

context_endless-found :
    (w : Node) (handle ctx : ℕ)
    → resolve w.heap w.handles handle ≡ some ctx
    → 0 < (w.heap ctx).ref
    → (w.heap ctx).ref < 2 ^ 32
    → context_endless w handle
      ≡ some (record (marked w ctx) {
        heap =
            write
              (marked w ctx).heap
              ctx
              (record ((marked w ctx).heap ctx) { ref = (w.heap ctx).ref });
      })
unfolding context_endless mark_grabbed
context_endless-found w handle ctx e pos bound =
    ap (mark_grabbed w) (grab-found w.heap w.handles handle ctx e)
    ∙ release_context-counted (marked w ctx) ctx (w.heap ctx).ref pos bound
        (rw (eq→== ctx ctx refl) refl)

context_endless-Marks :
    (w : Node) (handle : ℕ) → IsLive w → Marks w handle (context_endless w handle)
context_endless-Marks w handle live = elim (Option-cases (resolve w.heap w.handles handle)) [
  | inl e ↦ subst (Marks w handle) (sym (context_endless-nobody w handle e)) (inl (e, refl))
  | inr (ctx, e) ↦
      let (pos, bound) = live.refs handle ctx e in
      subst (Marks w handle) (sym (context_endless-found w handle ctx e pos bound)) (
        inr (
          ctx,
          e,
          rw (eq→== ctx ctx refl) refl,
          λ c ne. rw (ne→== c ctx ne) refl,
          refl,
          refl,
          refl,
        ))
]

version-triggers :
    (ts : List (ℕ × ℕ)) (sm : Monitor)
    → sm.version < 2 ^ 32
    → ((triggers ts sm).version ≡ (sm.version + length ts) % 2 ^ 32)
      × ((triggers ts sm).check_version ≡ sm.check_version)
unfolding triggers monitor_trigger
version-triggers [] sm b = (omega arith, refl)
version-triggers ((source, destination) ∷ ts) sm b =
    let (v, c) = version-triggers ts (monitor_trigger sm source destination) (omega arith) in
    (omega (arith, v), c)

-- What a check does after the given triggers since the last: without any the dispatch that was
-- announced last, if it is still going, is taken for endless, else the check only remembers.
abbrev pub Checks : Node → Monitor → List (ℕ × ℕ) → Option (Node × Monitor) → Type 0
Checks w sm [] r =
    (sm.destination ≡ 0) × (r ≡ some (w, sm))
    ⊎ (sm.destination ≢ 0) × ((w' : Node) × Marks w sm.destination (some w') × (r ≡ some (w', sm)))
Checks w sm (t ∷ ts) r =
    let sm' = triggers (t ∷ ts) sm in r ≡ some (w, record sm' { check_version = sm'.version })

monitor_check-moved :
    (w : Node) (sm : Monitor)
    → sm.version ≢ sm.check_version
    → monitor_check w sm ≡ some (w, record sm { check_version = sm.version })
unfolding monitor_check
monitor_check-moved w sm ne = rw (ne→== sm.version sm.check_version ne) refl

monitor_check-idle :
    (w : Node) (sm : Monitor)
    → sm.version ≡ sm.check_version
    → sm.destination ≡ 0
    → monitor_check w sm ≡ some (w, sm)
unfolding monitor_check
monitor_check-idle w sm e z =
    rw (eq→== sm.version sm.check_version e, eq→== sm.destination 0 z) refl

monitor_check-alarm :
    (w w' : Node) (sm : Monitor)
    → sm.version ≡ sm.check_version
    → sm.destination ≢ 0
    → context_endless w sm.destination ≡ some w'
    → monitor_check w sm ≡ some (w', sm)
unfolding monitor_check
monitor_check-alarm w w' sm e ne m =
    rw (eq→== sm.version sm.check_version e, ne→== sm.destination 0 ne, m) refl

-- A check of a live node after fewer than 2 ^ 32 triggers since the last check raises the alarm
-- exactly where there was none and the last one announced a dispatch; it marks the service then,
-- and else changes nothing but the version it remembers.
pub monitor_check-Checks :
    (w : Node) (sm : Monitor) (ts : List (ℕ × ℕ))
    → IsLive w
    → sm.version ≡ sm.check_version
    → sm.version < 2 ^ 32
    → length ts < 2 ^ 32
    → Checks w sm ts (monitor_check w (triggers ts sm))
unfolding triggers
monitor_check-Checks w sm [] live e b l = elim (Bool-cases (sm.destination == 0)) [
  | inl z ↦ let idle = ==→eq sm.destination 0 z in inl (idle, monitor_check-idle w sm e idle)
  | inr nz ↦
      let ne : sm.destination ≢ 0 = ground arith in
      let marks = context_endless-Marks w sm.destination live in
      inr (
        ne,
        elim (Option-cases (context_endless w sm.destination)) [
          | inl m ↦ absurd (subst (Marks w sm.destination) m marks)
          | inr (w', m) ↦
              (w', subst (Marks w sm.destination) m marks, monitor_check-alarm w w' sm e ne m)
        ],
      )
]
monitor_check-Checks w sm (t ∷ ts) live e b l =
    let (v, c) = version-triggers (t ∷ ts) sm b in
    monitor_check-moved w (triggers (t ∷ ts) sm) (λ same. omega (arith, same, v, c, e))
