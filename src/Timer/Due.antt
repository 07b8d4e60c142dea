-- ===== src/Timer/Due.antt =====
-- The timers of the wheel by the time at which they expire.
use native.Mathlib.Decide.{ℕ_discrete}
use dn_server.Common.{
  ℕ, ◌^◌, ◌≤◌, ◌<◌, ◌≡◌, ◌≢◌, refl, sym, ap, ◌∙◌, List, [], ◌∷◌, ◌++◌, ◌==◌, if◌then◌else◌, arith,
}
use dn_server.Timer.{TimerNode, Timer}
use dn_server.Timer.Places.{Place, near, level, home}

abbrev pub lists : Timer → Place → List TimerNode
lists w (near k) = w.near k
lists w (level i d) = w.t i d

pub Place-discrete : Discrete Place
Place-discrete = hlevel ℕ_discrete

abbrev pub All {ℓ} : (TimerNode → Type ℓ) → List TimerNode → Type ℓ
All P [] = Unit
All P (n ∷ ns) = P n × All P ns

pub All-append {ℓ} :
    (P : TimerNode → Type ℓ) (xs ys : List TimerNode) → All P xs → All P ys → All P (xs ++ ys)
All-append P [] ys hx hy = hy
All-append P (x ∷ xs) ys hx hy = (hx.0, All-append P xs ys hx.1 hy)

pub All-map {ℓ κ} :
    (P : TimerNode → Type ℓ) (Q : TimerNode → Type κ) (xs : List TimerNode)
    → ((n : TimerNode) → P n → Q n)
    → All P xs
    → All Q xs
All-map P Q [] f h = tt
All-map P Q (x ∷ xs) f h = (f x h.0, All-map P Q xs f h.1)

-- The timers of a list that expire at `e`, in their order.
abbrev pub due : ℕ → List TimerNode → List TimerNode
due e [] = []
due e (n ∷ ns) = if n.expire == e then n ∷ due e ns else due e ns

pub due-append : (e : ℕ) (xs ys : List TimerNode) → due e (xs ++ ys) ≡ due e xs ++ due e ys
due-append e [] ys = refl
due-append e (x ∷ xs) ys = ground (arith, due-append e xs ys)

pub due_none : (e : ℕ) (xs : List TimerNode) → All (λ n. n.expire ≢ e) xs → due e xs ≡ []
due_none e [] h = refl
due_none e (x ∷ xs) h = ground (arith, due_none e xs h.1)

pub due-All : (e : ℕ) (xs : List TimerNode) → All (λ n. n.expire ≡ e) xs → due e xs ≡ xs
due-All e [] h = refl
due-All e (x ∷ xs) h = ground (arith, due-All e xs h.1)

-- A timer in place `p` of a wheel at `time` in which nothing expires before `from`.
abbrev pub Placed : ℕ → ℕ → Place → TimerNode → Type 0
Placed time from p n = (home time n.expire ≡ p) × (from ≤ n.expire) × (n.expire < 2 ^ 32)

-- Every timer stands where its time belongs, and expires at `from` at the earliest.
pub record IsValid (from : ℕ) (w : Timer) : Type 0 where
  pub small : w.time < 2 ^ 32
  pub placed : (p : Place) → All (Placed w.time from p) (lists w p)

-- The timers that expire at `e`, in the order of their addition.
abbrev pub pending : Timer → ℕ → List TimerNode
pending w e = due e (lists w (home w.time e))

-- No other list holds a timer that expires at `e`.
pub due-elsewhere :
    (from e : ℕ) (w : Timer) (p : Place)
    → IsValid from w
    → home w.time e ≢ p
    → due e (lists w p) ≡ []
due-elsewhere from e w p v ne = due_none e (lists w p) (
    All-map (Placed w.time from p) (λ n. n.expire ≢ e) (lists w p)
      (λ n h q. ne (ap (home w.time) (sym q) ∙ h.0)) (v.placed p))
