-- ===== src/Timer/Wheel.antt =====
-- What adding a timer to the wheel does.
use native.Mathlib.Decide.{ℕ_discrete}
use dn_server.Common.{
  ℕ, ◌/◌, ◌%◌, ◌^◌, ◌≤◌, ◌<◌, ◌≡◌, ◌≢◌, refl, sym, ap, ◌∙◌, subst, inl, inr, List, [], ◌∷◌, ◌++◌,
  arith, eq→==, ne→==, some, append-nil, append_assoc,
}
use dn_server.Timer.{TimerNode, Timer, link_near, link_level, add_node, add_nodes}
use dn_server.Timer.Places.{Place, near, level, home, home-cases}
use dn_server.Timer.Due.{
  lists, Place-discrete, All, All-append, All-map, due, due-append, Placed, pending, IsValid,
}

abbrev pub link : Timer → Place → TimerNode → Timer
link w (near k) n = link_near w k n
link w (level i d) n = link_level w i d n

lists-link_self :
    (w : Timer) (p : Place) (n : TimerNode) → lists (link w p n) p ≡ lists w p ++ n ∷ []
lists-link_self w (near k) n = ground arith
lists-link_self w (level i d) n = ground arith

lists-link_ne : (w : Timer) (p q : Place) (n : TimerNode) → p ≢ q → lists (link w p n) q ≡ lists w q
lists-link_ne w (near k) (near j) n h = let ne : j ≢ k = λ e. h (ap near (sym e)) in ground arith
lists-link_ne w (near k) (level i d) n h = refl
lists-link_ne w (level i d) (near k) n h = refl
lists-link_ne w (level i d) (level j c) n h = elim (ℕ_discrete j i) [
  | no ne ↦ ground arith
  | yes e ↦
      let ne : c ≢ d = λ q. h (ap (λ x. level x d) (sym e) ∙ ap (level j) (sym q)) in ground arith
]

time-link : (w : Timer) (p : Place) (n : TimerNode) → (link w p n).time ≡ w.time
time-link w (near k) n = refl
time-link w (level i d) n = refl

-- A timer that does not expire before the present goes to its place.
add_node-link :
    (w : Timer) (n : TimerNode)
    → w.time ≤ n.expire
    → n.expire < 2 ^ 32
    → add_node w n ≡ some (link w (home w.time n.expire) n)
unfolding add_node
add_node-link w n h l = elim (home-cases w.time n.expire) [
  | inl a ↦ rw (eq→== (n.expire / 2 ^ 8) (w.time / 2 ^ 8) a)
  | inr (inl (a, b)) ↦ rw (
    ne→== (n.expire / 2 ^ 8) (w.time / 2 ^ 8) a,
    eq→== (n.expire / 2 ^ 14) (w.time / 2 ^ 14) b,
    ne→== (n.expire / 2 ^ 8 % 64) 0 (omega arith),
  )
  | inr (inr (inl (a, b))) ↦ rw (
    ne→== (n.expire / 2 ^ 8) (w.time / 2 ^ 8) (omega arith),
    ne→== (n.expire / 2 ^ 14) (w.time / 2 ^ 14) a,
    eq→== (n.expire / 2 ^ 20) (w.time / 2 ^ 20) b,
    ne→== (n.expire / 2 ^ 14 % 64) 0 (omega arith),
  )
  | inr (inr (inr (inl (a, b)))) ↦ rw (
    ne→== (n.expire / 2 ^ 8) (w.time / 2 ^ 8) (omega arith),
    ne→== (n.expire / 2 ^ 14) (w.time / 2 ^ 14) (omega arith),
    ne→== (n.expire / 2 ^ 20) (w.time / 2 ^ 20) a,
    eq→== (n.expire / 2 ^ 26) (w.time / 2 ^ 26) b,
    ne→== (n.expire / 2 ^ 20 % 64) 0 (omega arith),
  )
  | inr (inr (inr (inr a))) ↦ rw (
    ne→== (n.expire / 2 ^ 8) (w.time / 2 ^ 8) (omega arith),
    ne→== (n.expire / 2 ^ 14) (w.time / 2 ^ 14) (omega arith),
    ne→== (n.expire / 2 ^ 20) (w.time / 2 ^ 20) (omega arith),
    ne→== (n.expire / 2 ^ 26) (w.time / 2 ^ 26) a,
    ne→== (n.expire / 2 ^ 26 % 64) 0 (omega arith),
  )
]

-- `w'` is `w` with the timers `ns` added, each behind those that expire with it.
pub record Adds (from : ℕ) (w : Timer) (ns : List TimerNode) (w' : Timer) : Type 0 where
  pub valid : IsValid from w'
  pub time : w'.time ≡ w.time
  pub joins : (e : ℕ) → pending w' e ≡ pending w e ++ due e ns

link-IsValid :
    (from : ℕ) (w : Timer) (n : TimerNode)
    → IsValid from w
    → from ≤ n.expire
    → n.expire < 2 ^ 32
    → IsValid from (link w (home w.time n.expire) n)
link-IsValid from w n v h l =
    let p = home w.time n.expire in
    let s = time-link w p n in
    record {
      small = rw s v.small;
      placed = λ q. rw s (elim (Place-discrete p q) [
        | yes e ↦
            subst (λ x. All (Placed w.time from x) (lists (link w p n) x)) e
              (rw (lists-link_self w p n) (
                All-append (Placed w.time from p) (lists w p) (n ∷ []) (v.placed p)
                  ((refl, h, l), tt)))
        | no ne ↦ rw (lists-link_ne w p q n ne) (v.placed q)
      ]);
    }

pending-link :
    (w : Timer) (n : TimerNode) (e : ℕ)
    → pending (link w (home w.time n.expire) n) e ≡ pending w e ++ due e (n ∷ [])
pending-link w n e =
    let p = home w.time n.expire in
    rw (time-link w p n) (elim (ℕ_discrete n.expire e) [
      | yes q ↦
          subst
            (λ x.
              due x (lists (link w p n) (home w.time x))
              ≡ due x (lists w (home w.time x)) ++ due x (n ∷ []))
            q (rw (lists-link_self w p n) (due-append n.expire (lists w p) (n ∷ [])))
      | no q ↦
          let last : due e (n ∷ []) ≡ [] = ground arith in
          rw last (elim (Place-discrete p (home w.time e)) [
            | yes r ↦
                subst (λ x. due e (lists (link w p n) x) ≡ due e (lists w x) ++ []) r
                  (rw (lists-link_self w p n)
                    (due-append e (lists w p) (n ∷ []) ∙ ap (◌++◌ (due e (lists w p))) last))
            | no r ↦ rw (lists-link_ne w p (home w.time e) n r) (sym (append-nil (pending w e)))
          ])
    ])

-- One timer, and a list of timers: none is out of bounds.
pub add_node-Adds :
    (from : ℕ) (w : Timer) (n : TimerNode)
    → IsValid from w
    → w.time ≤ n.expire
    → from ≤ n.expire
    → n.expire < 2 ^ 32
    → (w' : Timer) × (add_node w n ≡ some w') × Adds from w (n ∷ []) w'
add_node-Adds from w n v h f l = (
  link w (home w.time n.expire) n,
  add_node-link w n h l,
  record {
    valid = link-IsValid from w n v f l;
    time = time-link w (home w.time n.expire) n;
    joins = pending-link w n;
  },
)

pub add_nodes-Adds :
    (from : ℕ) (w : Timer) (ns : List TimerNode)
    → IsValid from w
    → All (λ n. (w.time ≤ n.expire) × (from ≤ n.expire) × (n.expire < 2 ^ 32)) ns
    → (w' : Timer) × (add_nodes w ns ≡ some w') × Adds from w ns w'
unfolding add_nodes
add_nodes-Adds from w [] v h =
    (w, refl, record { valid = v; time = refl; joins = λ e. sym (append-nil (pending w e)) })
add_nodes-Adds from w (n ∷ ns) v h =
    let (w₁, r, a) = add_node-Adds from w n v h.0.0 h.0.1 h.0.2 in
    let later =
      All-map (λ m. (w.time ≤ m.expire) × (from ≤ m.expire) × (m.expire < 2 ^ 32))
        (λ m. (w₁.time ≤ m.expire) × (from ≤ m.expire) × (m.expire < 2 ^ 32)) ns
        (λ m x. rw a.time x) h.1 in
    let (w₂, q, b) = add_nodes-Adds from w₁ ns a.valid later in
    (
      w₂,
      rw (r, add_nodes) q,
      record {
        valid = b.valid;
        time = b.time ∙ a.time;
        joins = λ e.
            b.joins e
            ∙ ap (λ x. x ++ due e ns) (a.joins e)
            ∙ append_assoc (pending w e) (due e (n ∷ [])) (due e ns)
            ∙ ap (◌++◌ (pending w e)) (sym (due-append e (n ∷ []) ns));
      },
    )
