-- ===== src/Lock/Exclusion.antt =====
-- packages/core/src/session-lock.ts: the lock excludes, and what keeps it from being broken.
use pickforge.Base.{ℕ, ◌≡◌, ◌⊎◌, true, List, arith}
use pickforge.Lock.Protocol.{
  owned, Phase, holding, releasing, reconfirming, removing, Lock, Event, run, start,
}
use pickforge.Lock.Invariant.{Inv, run-Inv, start-Inv}

-- A call whose operation has begun, and whose lock is not yet unlinked.
abbrev pub IsHolder : Phase → Type 0
IsHolder p = (p ≡ holding) ⊎ ((p ≡ releasing) ⊎ ((p ≡ reconfirming) ⊎ (p ≡ removing)))

holder_file :
    (pid : ℕ → ℕ) (l : Lock)
    → Inv pid l
    → (i : ℕ) → l.alive (pid i) ≡ true
    → IsHolder (l.phases i)
    → l.file ≡ owned i
holder_file pid l inv i a h = inv.mine i (owned i) a (ground arith)

-- In every run, whatever processes die and wherever they die, at most one call of a living process
-- holds the lock.
pub run-mutual_exclusion :
    (pid : ℕ → ℕ) (es : List Event) (i j : ℕ)
    → (run pid start es).alive (pid i) ≡ true
    → (run pid start es).alive (pid j) ≡ true
    → IsHolder ((run pid start es).phases i)
    → IsHolder ((run pid start es).phases j)
    → i ≡ j
run-mutual_exclusion pid es i j a b h k =
    let inv = run-Inv pid start es (start-Inv pid) in
    ground (
      arith,
      holder_file pid (run pid start es) inv i a h,
      holder_file pid (run pid start es) inv j b k,
    )
