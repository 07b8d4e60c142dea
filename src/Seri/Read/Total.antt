-- ===== src/Seri/Read/Total.antt =====
-- That unpacking ends, whatever the stream holds.
use dn_server.Common.{
  ℕ, zero, suc, ◌+◌, not, ◌*◌, ◌/◌, ◌%◌, ◌^◌, ◌≤◌, ◌<◌, ◌≡◌, refl, ◌∙◌, List, [], ◌∷◌, none, leb,
  ◌==◌, if◌then◌else◌, length, arith,
}
use dn_server.Seri.{Value, nil, boolean, userdata, remote, no_entries}
use dn_server.Seri.Read.{
  Result, ok, invalid, crash, out_of_fuel, into, rb_read, read_number, get_integer, get_number,
  get_buffer, get_long_string, is_nil, get_array_size, unpack_one, unpack_items, unpack_entries,
  unpack_all, luaseri_unpack,
}
use dn_server.Seri.Read.Leaves.{unpack_short}
use dn_server.Seri.Read.Ends.{
  Ends, bind-Ends, into-Ends, if-Ends, Ends-le, read_number-Ends, get_buffer-Ends, get_integer-Ends,
  get_number-Ends, get_long_string-Ends, get_array_size-Ends,
}

module _ (to_int : ℕ → ℕ) where
  unpack_one-empty : (f : ℕ) → 0 < f → unpack_one to_int f [] ≡ invalid
  unfolding unpack_one
  unpack_one-empty zero h = absurd (omega arith)
  unpack_one-empty (suc f) h = refl

  mutual
    unfolding unpack_one unpack_items unpack_entries

    unpack_one-Ends :
        (f : ℕ) (s : List ℕ) (n : ℕ)
        → 2 * length s < f
        → length s ≤ suc n
        → Ends n (unpack_one to_int f s)
    unpack_one-Ends zero s n h l = absurd (omega arith)
    unpack_one-Ends (suc f) [] n h l = tt
    unpack_one-Ends (suc f) (t ∷ s) n h l =
        Ends-le (length s) n (unpack_one to_int (suc f) (t ∷ s)) (omega arith) (
          if-Ends (length s) (t % 8 == 0) (ok nil s) _ (omega arith) (
            if-Ends (length s) (t % 8 == 1) (ok (boolean (not (t / 8 == 0))) s) _ (omega arith) (
              if-Ends (length s) (t % 8 == 2) (get_number (t / 8) s) _ (get_number-Ends (t / 8) s) (
                if-Ends (length s) (t % 8 == 3) (into userdata (read_number 8 s)) _
                  (into-Ends (length s) userdata (read_number 8 s) (read_number-Ends 8 s))
                  (if-Ends (length s) (t % 8 == 4) (get_buffer (t / 8) s) _
                    (get_buffer-Ends (t / 8) s)
                    (if-Ends (length s) (t % 8 == 5) (get_long_string (t / 8) s) _
                      (get_long_string-Ends (t / 8) s)
                      (if-Ends (length s) (t % 8 == 6) _ (into remote (get_integer (t / 8) s))
                        (bind-Ends (length s) (length s) (get_array_size to_int (t / 8) s) _
                          (get_array_size-Ends to_int (t / 8) s)
                          (λ size s₁ l₁.
                            let n = if leb (2 ^ 31) size then 0 else size in
                            bind-Ends (length s) (length s) (unpack_items to_int f n s₁) _
                              (Ends-le (length s₁) (length s) (unpack_items to_int f n s₁) l₁
                                (unpack_items-Ends f n s₁ (omega arith)))
                              (λ vs s₂ l₂.
                                bind-Ends (length s) (length s) (unpack_entries to_int f s₂) _
                                  (Ends-le (length s₂) (length s) (unpack_entries to_int f s₂) l₂
                                    (unpack_entries-Ends f s₂ (omega arith)))
                                  (λ es s₃ l₃. l₃))))
                        (into-Ends (length s) remote (get_integer (t / 8) s)
                          (get_integer-Ends (t / 8) s)))))))))

    unpack_items-Ends :
        (f n : ℕ) (s : List ℕ) → 2 * length s + 1 < f → Ends (length s) (unpack_items to_int f n s)
    unpack_items-Ends zero n s h = absurd (omega arith)
    unpack_items-Ends (suc f) zero s h = omega arith
    unpack_items-Ends (suc f) (suc n) [] h = rw (unpack_one-empty f (omega arith)) tt
    unpack_items-Ends (suc f) (suc n) (b ∷ s) h =
        bind-Ends (length s) (suc (length s)) (unpack_one to_int f (b ∷ s)) _
          (unpack_one-Ends f (b ∷ s) (length s) (omega arith) (omega arith))
          (λ v s₁ l₁.
            bind-Ends (length s) (suc (length s)) (unpack_items to_int f n s₁) _
              (Ends-le (length s₁) (length s) (unpack_items to_int f n s₁) l₁
                (unpack_items-Ends f n s₁ (omega arith)))
              (λ vs s₂ l₂. omega arith))

    unpack_entries-Ends :
        (f : ℕ) (s : List ℕ) → 2 * length s + 1 < f → Ends (length s) (unpack_entries to_int f s)
    unpack_entries-Ends zero s h = absurd (omega arith)
    unpack_entries-Ends (suc f) [] h = rw (unpack_one-empty f (omega arith)) tt
    unpack_entries-Ends (suc f) (b ∷ s) h =
        bind-Ends (length s) (suc (length s)) (unpack_one to_int f (b ∷ s)) _
          (unpack_one-Ends f (b ∷ s) (length s) (omega arith) (omega arith))
          (λ k s₁ l₁. if-Ends (suc (length s)) (is_nil k) (ok no_entries s₁) _ (omega arith) (
            bind-Ends (length s) (suc (length s)) (unpack_one to_int f s₁) _
              (Ends-le (length s₁) (length s) (unpack_one to_int f s₁) l₁
                (unpack_one-Ends f s₁ (length s₁) (omega arith) (omega arith)))
              (λ v s₂ l₂.
                bind-Ends (length s) (suc (length s)) (unpack_entries to_int f s₂) _
                  (Ends-le (length s₂) (length s) (unpack_entries to_int f s₂) l₂
                    (unpack_entries-Ends f s₂ (omega arith)))
                  (λ es s₃ l₃. omega arith))))

  unpack_all-Ends : (f : ℕ) (s : List ℕ) → 2 * length s + 1 < f → Ends 0 (unpack_all to_int f s)
  unfolding unpack_all
  unpack_all-Ends zero s h = absurd (omega arith)
  unpack_all-Ends (suc f) [] h = omega arith
  unpack_all-Ends (suc f) (b ∷ s) h =
      bind-Ends (length s) 0 (unpack_one to_int f (b ∷ s)) _
        (unpack_one-Ends f (b ∷ s) (length s) (omega arith) (omega arith))
        (λ v s₁ l₁.
          bind-Ends 0 0 (unpack_all to_int f s₁) _ (unpack_all-Ends f s₁ (omega arith))
            (λ vs s₂ l₂. l₂))

-- What the end of unpacking is: the whole stream is read, or an error.
abbrev pub Ended : Result (List Value) → Type 0
Ended (ok vs rest) = rest ≡ []
Ended invalid = Unit
Ended crash = Unit
Ended out_of_fuel = ⊥

Ends-Ended : (r : Result (List Value)) → Ends 0 r → Ended r
Ends-Ended (ok vs []) h = refl
Ends-Ended (ok vs (b ∷ s)) h = absurd (omega arith)
Ends-Ended invalid h = tt
Ends-Ended crash h = tt
Ends-Ended out_of_fuel h = h

-- Unpacking ends on every stream: the values take the whole of it, or it meets an error.
pub luaseri_unpack-Ended : (to_int : ℕ → ℕ) (s : List ℕ) → Ended (luaseri_unpack to_int s)
unfolding luaseri_unpack
luaseri_unpack-Ended to_int s =
    Ends-Ended (unpack_all to_int (2 * length s + 2) s)
      (unpack_all-Ends to_int (2 * length s + 2) s (omega arith))

rb_read-short : (n : ℕ) (s : List ℕ) → length s < n → rb_read n s ≡ none
unfolding rb_read
rb_read-short zero s h = absurd (omega arith)
rb_read-short (suc n) [] h = refl
rb_read-short (suc n) (b ∷ s) h = rw (rb_read-short n s (omega arith)) refl

get_buffer-short : (n : ℕ) (s : List ℕ) → length s < n → get_buffer n s ≡ crash
unfolding get_buffer
get_buffer-short n s h = rw (rb_read-short n s h, get_buffer) refl

-- A short string at the end of the stream that is shorter than its cookie says is read through the
-- NULL that `rb_read` returns.
pub luaseri_unpack-crash :
    (to_int : ℕ → ℕ) (len : ℕ) (s : List ℕ)
    → len < 32
    → length s < len
    → luaseri_unpack to_int ((4 + len * 8) ∷ s) ≡ crash
unfolding luaseri_unpack unpack_all
luaseri_unpack-crash to_int len s h short =
    let fuel : 2 * length ((4 + len * 8) ∷ s) + 2 ≡ suc (suc (2 * length s + 2)) = omega arith in
    let e = unpack_short to_int (2 * length s + 2) len s ∙ get_buffer-short len s short in
    rw fuel (rw e refl)
