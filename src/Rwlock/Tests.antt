-- ===== src/Rwlock/Tests.antt =====
-- Runs of the lock, and the exclusion at an input.
use dn_server.Common.{ℕ, ◌≡◌, ◌⊎◌, inl, inr, refl, [], ◌∷◌, arith, true, List}
use dn_server.Rwlock.{rwlock_init, Thread, looking, setting, writing, advance, tick, run}
use dn_server.Rwlock.Exclusion.{number, is_reading, is_writing, run-excludes}

abbrev two_threads : List Thread
two_threads = looking ∷ setting ∷ []

-- The reader looks, the writer sets the flag, and the reader counts itself and backs off.
abbrev schedule : List ℕ
schedule = 0 ∷ 1 ∷ 0 ∷ 0 ∷ 1 ∷ 0 ∷ 1 ∷ []

writer_wins :
    run schedule (record { lock = rwlock_init; threads = two_threads })
    ≡ record { lock = record { write = true; read = 0 }; threads = looking ∷ writing ∷ [] }
unfolding run tick advance rwlock_init
writer_wins = refl

run-excludes_example :
    (let s = run schedule (record { lock = rwlock_init; threads = two_threads }) in
      number is_writing s.threads ≡ 0
      ⊎ (number is_writing s.threads ≡ 1) × (number is_reading s.threads ≡ 0))
run-excludes_example = run-excludes two_threads schedule (omega arith) (inl refl, (inr refl, _))
