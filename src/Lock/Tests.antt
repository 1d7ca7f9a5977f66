-- ===== src/Lock/Tests.antt =====
-- packages/core/src/session-lock.ts: runs of two calls of two processes.
use pickforge.Base.{ℕ, ◌≡◌, inl, refl, true, List, [], ◌∷◌, ◌++◌}
use pickforge.Lock.Protocol.{owned, made, holding, goes_on, Lock, Event, call, dies, run, start}
use pickforge.Lock.Exclusion.{IsHolder, run-mutual_exclusion}
use pickforge.Lock.Progress.{alone, run-replaces, run-orphan_stays}

abbrev pid : ℕ → ℕ
pid i = i

-- Call 0 takes the lock, and its process dies; call 1 arrives.
abbrev left_behind : Lock
left_behind = run pid start (alone 0 3 ++ dies 0 ∷ call 1 goes_on ∷ [])

run-mutual_exclusion_example : ◌≡◌ {A = ℕ} 0 0
unfolding run alone
run-mutual_exclusion_example =
    run-mutual_exclusion pid (alone 0 3) 0 0 refl refl (inl refl) (inl refl)

run-replaces_example :
    ((run pid left_behind (alone 1 7)).phases 1 ≡ holding)
    × ((run pid left_behind (alone 1 7)).file ≡ owned 1)
unfolding run alone
run-replaces_example = run-replaces pid left_behind 1 refl refl 0 refl refl refl

abbrev cut_short : List Event
cut_short = alone 0 2 ++ dies 0 ∷ []

run-orphan_stays_example :
    ((run pid (run pid start cut_short) (alone 1 9)).file ≡ made 0)
    × ((i : ℕ)
        → (run pid (run pid start cut_short) (alone 1 9)).alive (pid i) ≡ true
        → ¬ IsHolder ((run pid (run pid start cut_short) (alone 1 9)).phases i))
unfolding run alone
run-orphan_stays_example = run-orphan_stays pid cut_short (alone 1 9) 0 (refl, refl)
