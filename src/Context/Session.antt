-- ===== src/Context/Session.antt =====
-- Session numbers: `skynet_context_newsession` of skynet_server.c.
use dn_server.Common.{ℕ, zero, suc, ◌+◌, ◌-◌, ◌%◌, ◌^◌, ◌<◌, ◌≡◌, ◌≢◌, arith}
use dn_server.Context.{Context, context_newsession}

-- The session that the `n`-th call from now on returns.
pub nth_session : Context → ℕ → ℕ
nth_session c zero = (context_newsession c).1
nth_session c (suc n) = nth_session (context_newsession c).0 n

nth_session-eq : (c : Context) (n : ℕ) → nth_session c n ≡ (c.session_id + n + 1) % 2 ^ 31
unfolding nth_session context_newsession
nth_session-eq c zero = omega arith
nth_session-eq c (suc n) = omega (arith, nth_session-eq (context_newsession c).0 n)

-- Fewer than 2 ^ 31 calls apart, two sessions of a context differ. Each is below 2 ^ 31, and 0 exactly
-- when the counter passes a multiple of 2 ^ 31, though the comment in the source says that it is
-- always positive.
pub nth_session-ne :
    (c : Context) (m n : ℕ)
    → m < n
    → n < m + 2 ^ 31
    → (nth_session c m ≢ nth_session c n)
      × (nth_session c m < 2 ^ 31)
      × (nth_session c m ≡ 0 → (c.session_id + m) % 2 ^ 31 ≡ 2 ^ 31 - 1)
      × ((c.session_id + m) % 2 ^ 31 ≡ 2 ^ 31 - 1 → nth_session c m ≡ 0)
nth_session-ne c m n h l =
    let p = nth_session-eq c m in
    let q = nth_session-eq c n in (omega arith, omega arith, omega arith, omega arith)
