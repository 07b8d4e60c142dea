-- ===== src/Rwlock/Exclusion.antt =====
-- That a writer is alone, whatever the schedule of the threads.
use dn_server.Common.{
  ℕ, zero, suc, ◌+◌, ◌^◌, ◌≤◌, ◌<◌, ◌≡◌, refl, sym, ap, subst, ◌⊎◌, inl, inr, List, [], ◌∷◌,
  if◌then◌else◌, get_or, set, length, length-set, arith,
}
use dn_server.Rwlock.{
  Rwlock, rwlock_init, Thread, looking, checking, backing_off, reading, setting, waiting, writing,
  finished, advance, Threads, tick, run,
}

-- How many threads count for a predicate with the values 0 and 1.
abbrev pub number : (Thread → ℕ) → List Thread → ℕ
number f [] = 0
number f (t ∷ ts) = f t + number f ts

abbrev pub is_reading : Thread → ℕ
is_reading reading = 1
is_reading _ = 0

abbrev pub is_writing : Thread → ℕ
is_writing writing = 1
is_writing _ = 0

-- a thread that has counted itself in `read`
abbrev pub counts : Thread → ℕ
counts checking = 1
counts backing_off = 1
counts reading = 1
counts _ = 0

-- a thread that has set `write`
abbrev pub owns : Thread → ℕ
owns waiting = 1
owns writing = 1
owns _ = 0

number-set :
    (f : Thread → ℕ) (ts : List Thread) (i : ℕ) (t : Thread)
    → (length ts ≤ i → f t ≡ f finished)
    → number f (set ts i t) + f (get_or ts i finished) ≡ number f ts + f t
number-set f [] i t h = omega (arith, h (omega arith))
number-set f (u ∷ ts) zero t h = omega arith
number-set f (u ∷ ts) (suc i) t h = omega (arith, number-set f ts i t (λ le. h (omega (arith, le))))

number-le :
    (f g : Thread → ℕ) → ((t : Thread) → f t ≤ g t) → (ts : List Thread) → number f ts ≤ number g ts
number-le f g le [] = omega arith
number-le f g le (t ∷ ts) = omega (arith, le t, number-le f g le ts)

reading-counts : (t : Thread) → is_reading t ≤ counts t
reading-counts t = ground arith

writing-owns : (t : Thread) → is_writing t ≤ owns t
writing-owns t = ground arith

number-get_or :
    (f : Thread → ℕ) (ts : List Thread) (i : ℕ)
    → f finished ≡ 0
    → f (get_or ts i finished) ≤ number f ts
number-get_or f [] i z = omega (arith, z)
number-get_or f (t ∷ ts) zero z = omega arith
number-get_or f (t ∷ ts) (suc i) z = omega (arith, number-get_or f ts i z)

number-length :
    (f : Thread → ℕ) → ((t : Thread) → f t ≤ 1) → (ts : List Thread) → number f ts ≤ length ts
number-length f le [] = omega arith
number-length f le (t ∷ ts) = omega (arith, le t, number-length f le ts)

counts_one : (t : Thread) → counts t ≤ 1
counts_one t = ground arith

get_or-out : (ts : List Thread) (i : ℕ) → length ts ≤ i → get_or ts i finished ≡ finished
get_or-out [] i h = refl
get_or-out (t ∷ ts) zero h = absurd (omega arith)
get_or-out (t ∷ ts) (suc i) h = get_or-out ts i (omega arith)

advance-out :
    (ts : List Thread) (i : ℕ) (l : Rwlock)
    → length ts ≤ i
    → (advance (get_or ts i finished) l).0 ≡ finished
unfolding advance
advance-out ts i l le = rw (get_or-out ts i le) refl

-- The lock with the numbers of threads that are counted, own it, read and write: all counted are in
-- `read`, `write` tells whether a thread owns it, which is one at most, and no reader is in its
-- section while a writer is.
abbrev pub Agrees : Rwlock → ℕ → ℕ → ℕ → ℕ → Type 0
Agrees l c o r w =
    (l.read ≡ c) × (o ≡ (if l.write then 1 else 0)) × (r ≤ c) × (w ≤ o) × (w ≡ 0 ⊎ r ≡ 0)

-- One access keeps the agreement, where the numbers change by what the thread does.
Agrees-advance :
    (u : Thread) (l : Rwlock) (c o r w c' o' r' w' : ℕ)
    → c' < 2 ^ 32
    → c < 2 ^ 32
    → Agrees l c o r w
    → counts u ≤ c
    → owns u ≤ o
    → is_reading u ≤ r
    → is_writing u ≤ w
    → r' ≤ c'
    → w' ≤ o'
    → c' + counts u ≡ c + counts (advance u l).0
    → o' + owns u ≡ o + owns (advance u l).0
    → r' + is_reading u ≡ r + is_reading (advance u l).0
    → w' + is_writing u ≡ w + is_writing (advance u l).0
    → Agrees (advance u l).1 c' o' r' w'
unfolding advance
Agrees-advance u l c o r w c' o' r' w' b b' a x1 x2 x3 x4 y1 y2 e1 e2 e3 e4 = ground arith

-- Fewer threads than an `int` counts, and the numbers of threads agree with the lock.
abbrev pub IsExclusive : Threads → Type 0
IsExclusive s =
    (length s.threads < 2 ^ 32)
    × Agrees s.lock (number counts s.threads) (number owns s.threads) (number is_reading s.threads)
        (number is_writing s.threads)

tick-IsExclusive : (i : ℕ) (s : Threads) → IsExclusive s → IsExclusive (tick i s)
unfolding tick
tick-IsExclusive i s (few, a) =
    let ts = s.threads in
    let u = get_or ts i finished in
    let t = (advance u s.lock).0 in
    let out : length ts ≤ i → t ≡ finished = λ le. advance-out ts i s.lock le in
    let few' : length (set ts i t) < 2 ^ 32 =
      subst (λ k. k < 2 ^ 32) (sym (length-set ts i t)) few in
    let moves = λ (f : Thread → ℕ). number-set f ts i t (λ le. ap f (out le)) in
    (
      few',
      Agrees-advance u s.lock (number counts ts) (number owns ts) (number is_reading ts)
          (number is_writing ts) (number counts (set ts i t)) (number owns (set ts i t))
          (number is_reading (set ts i t)) (number is_writing (set ts i t))
          (omega (arith, number-length counts counts_one (set ts i t)))
          (omega (arith, number-length counts counts_one ts)) a (number-get_or counts ts i refl)
          (number-get_or owns ts i refl) (number-get_or is_reading ts i refl)
          (number-get_or is_writing ts i refl)
          (number-le is_reading counts reading-counts (set ts i t))
          (number-le is_writing owns writing-owns (set ts i t)) (moves counts) (moves owns)
          (moves is_reading) (moves is_writing),
    )

run-IsExclusive : (is : List ℕ) (s : Threads) → IsExclusive s → IsExclusive (run is s)
unfolding run
run-IsExclusive [] s e = e
run-IsExclusive (i ∷ is) s e = run-IsExclusive is (tick i s) (tick-IsExclusive i s e)

-- No thread has begun.
abbrev pub AreOutside : List Thread → Type 0
AreOutside [] = Unit
AreOutside (t ∷ ts) = (t ≡ looking ⊎ t ≡ setting) × AreOutside ts

number-outside :
    (f : Thread → ℕ)
    → f looking ≡ 0
    → f setting ≡ 0
    → (ts : List Thread) → AreOutside ts
    → number f ts ≡ 0
number-outside f l s [] out = refl
number-outside f l s (t ∷ ts) (inl e, out) = omega (arith, ap f e, l, number-outside f l s ts out)
number-outside f l s (t ∷ ts) (inr e, out) = omega (arith, ap f e, s, number-outside f l s ts out)

start-IsExclusive :
    (ts : List Thread)
    → length ts < 2 ^ 32
    → AreOutside ts
    → IsExclusive (record { lock = rwlock_init; threads = ts })
unfolding rwlock_init
start-IsExclusive ts few out =
    let none_of =
      λ (f : Thread → ℕ) (l : f looking ≡ 0) (s : f setting ≡ 0). number-outside f l s ts out in
    ground (
      arith,
      few,
      none_of counts refl refl,
      none_of owns refl refl,
      none_of is_reading refl refl,
      none_of is_writing refl refl,
    )

-- After any schedule of fewer than 2 ^ 32 threads that begin outside, no writer is in its section,
-- or one is and no reader is.
pub run-excludes :
    (ts : List Thread) (schedule : List ℕ)
    → length ts < 2 ^ 32
    → AreOutside ts
    → (let s = run schedule (record { lock = rwlock_init; threads = ts }) in
        number is_writing s.threads ≡ 0
        ⊎ (number is_writing s.threads ≡ 1) × (number is_reading s.threads ≡ 0))
run-excludes ts schedule few out =
    let (_, a) =
      run-IsExclusive schedule (record { lock = rwlock_init; threads = ts })
        (start-IsExclusive ts few out) in
    ground (arith, a)
