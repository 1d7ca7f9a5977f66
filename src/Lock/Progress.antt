-- ===== src/Lock/Progress.antt =====
-- packages/core/src/session-lock.ts: which dead owners are replaced.
use pickforge.Base.{ℕ, zero, suc, ◌≡◌, refl, Bool, true, false, List, [], ◌∷◌, if◌then◌else◌, arith}
use pickforge.Lock.Protocol.{
  made, owned, Phase, trying, holding, unlinking, removing, Lock, Move, goes_on, Event, call, dies,
  advance, step, run, start,
}
use pickforge.Lock.Invariant.{Inv, step-Inv, run-Inv, start-Inv}
use pickforge.Lock.Exclusion.{IsHolder}

-- A call that goes on for so many steps, with nobody else between.
unfoldable pub alone : ℕ → ℕ → List Event
alone i zero = []
alone i (suc n) = call i goes_on ∷ alone i n

module _ (pid : ℕ → ℕ) (l : Lock) (i : ℕ) (a : l.alive (pid i) ≡ true)
    (t : l.phases i ≡ trying) where
  -- A lock whose owner died, before or after it began its operation, and whose sentinel is still
  -- there, is replaced by the next caller in seven steps if nobody comes between, whatever the
  -- caller's time limit.
  pub run-replaces :
      (j : ℕ)
      → l.file ≡ owned j
      → l.alive (pid j) ≡ false
      → l.sentinels j ≡ true
      → ((run pid l (alone i 7)).phases i ≡ holding) × ((run pid l (alone i 7)).file ≡ owned i)
  unfolding run alone
  run-replaces j f d s = ground arith

-- An empty lock file of a dead call.
abbrev pub Orphaned : (ℕ → ℕ) → ℕ → Lock → Type 0
Orphaned pid j l = (l.file ≡ made j) × (l.alive (pid j) ≡ false)

module _ (pid : ℕ → ℕ) (l : Lock) (inv : Inv pid l) (j : ℕ) (h : Orphaned pid j l) where
  advance-Orphaned :
      (i : ℕ) (p : Phase) (m : Move)
      → l.alive (pid i) ≡ true
      → l.phases i ≡ p
      → Orphaned pid j (advance pid i l p m)
  unfolding advance
  advance-Orphaned i (unlinking k) m a e =
      (ground (arith, inv.stale i k), ground (arith, inv.stale i k))
  advance-Orphaned i removing m a e =
      (ground (arith, inv.mine i (owned i) a), ground (arith, inv.mine i (owned i) a))
  advance-Orphaned i p m a e = (ground arith, ground arith)

  call-Orphaned :
      (i : ℕ) (m : Move) (b : Bool)
      → l.alive (pid i) ≡ b
      → Orphaned pid j (if b then advance pid i l (l.phases i) m else l)
  call-Orphaned i m true a = advance-Orphaned i (l.phases i) m a refl
  call-Orphaned i m false a = h

  step-Orphaned : (e : Event) → Orphaned pid j (step pid l e)
  unfolding step
  step-Orphaned (call i m) = call-Orphaned i m (l.alive (pid i)) refl
  step-Orphaned (dies q) = (h.0, ground arith)

run-Orphaned :
    (pid : ℕ → ℕ) (l : Lock) (es : List Event) (j : ℕ)
    → Inv pid l
    → Orphaned pid j l
    → Orphaned pid j (run pid l es)
unfolding run
run-Orphaned pid l [] j inv h = h
run-Orphaned pid l (e ∷ es) j inv h =
    run-Orphaned pid (step pid l e) es j (step-Inv pid l e inv) (step-Orphaned pid l inv j h e)

-- Where a process died between the making of the lock file and the write of its owner, the empty
-- file stays whatever the others do, and no living call holds the lock again.
pub run-orphan_stays :
    (pid : ℕ → ℕ) (before later : List Event) (j : ℕ)
    → Orphaned pid j (run pid start before)
    → ((run pid (run pid start before) later).file ≡ made j)
      × ((i : ℕ)
          → (run pid (run pid start before) later).alive (pid i) ≡ true
          → ¬ IsHolder ((run pid (run pid start before) later).phases i))
run-orphan_stays pid before later j h =
    let inv = run-Inv pid start before (start-Inv pid) in
    let l = run pid (run pid start before) later in
    let stays = run-Orphaned pid (run pid start before) later j inv h in
    (
      stays.0,
      λ i a holder.
          ground
            (arith, stays.0, (run-Inv pid (run pid start before) later inv).mine i (owned i) a),
    )
