-- ===== src/Lock/Invariant.antt =====
-- packages/core/src/session-lock.ts: who may change the lock file.
use pickforge.Base.{
  ℕ, ◌≡◌, refl, Bool, true, false, Option, none, some, List, [], ◌∷◌, if◌then◌else◌, arith,
}
use pickforge.Lock.Protocol.{
  LockFile, made, owned, Phase, arriving, trying, writing, breaking, confirming, unlinking, holding,
  releasing, reconfirming, removing, Lock, Move, goes_on, advance, Event, call, dies, step, run,
  start,
}

-- The file that a living call counts on.
abbrev pub expected : ℕ → Phase → Option LockFile
expected i writing = some (made i)
expected i holding = some (owned i)
expected i releasing = some (owned i)
expected i reconfirming = some (owned i)
expected i removing = some (owned i)
expected i _ = none

-- The call whose lock is being broken, and from when its sentinel is gone.
abbrev pub target : Phase → Option ℕ
target (breaking j) = some j
target (confirming j) = some j
target (unlinking j) = some j
target _ = none

abbrev pub claimed : Phase → Option ℕ
claimed (confirming j) = some j
claimed (unlinking j) = some j
claimed _ = none

abbrev pub broken : Phase → Option ℕ
broken (unlinking j) = some j
broken _ = none

pub record Inv (pid : ℕ → ℕ) (l : Lock) : Type 0 where
  pub mine :
      (i : ℕ) (f : LockFile)
      → l.alive (pid i) ≡ true
      → expected i (l.phases i) ≡ some f
      → l.file ≡ f
  pub dead : (i j : ℕ) → target (l.phases i) ≡ some j → l.alive (pid j) ≡ false
  pub gone : (i j : ℕ) → claimed (l.phases i) ≡ some j → l.sentinels j ≡ false
  pub once : (i k j : ℕ) → claimed (l.phases i) ≡ some j → claimed (l.phases k) ≡ some j → i ≡ k
  pub stale : (i j : ℕ) → broken (l.phases i) ≡ some j → l.file ≡ owned j

module _ (pid : ℕ → ℕ) (l : Lock) (inv : Inv pid l) (i : ℕ) (a : l.alive (pid i) ≡ true) where
  open inv use {mine, dead, gone, once, stale}

  advance-dead :
      (p : Phase) (m : Move)
      → l.phases i ≡ p
      → (x j : ℕ) → target ((advance pid i l p m).phases x) ≡ some j
      → (advance pid i l p m).alive (pid j) ≡ false
  unfolding advance
  advance-dead arriving goes_on e x j t = ground (arith, dead x j)
  advance-dead (breaking k) m e x j t = ground (arith, dead x j, dead i j)
  advance-dead p m e x j t = ground (arith, dead x j, dead i j)

  advance-gone :
      (p : Phase) (m : Move)
      → l.phases i ≡ p
      → (x j : ℕ) → claimed ((advance pid i l p m).phases x) ≡ some j
      → (advance pid i l p m).sentinels j ≡ false
  unfolding advance
  advance-gone arriving goes_on e x j t = ground (arith, gone x j, gone i j, dead x j, a)
  advance-gone p m e x j t = ground (arith, gone x j, gone i j)

  advance-once :
      (p : Phase) (m : Move)
      → l.phases i ≡ p
      → (x y j : ℕ) → claimed ((advance pid i l p m).phases x) ≡ some j
      → claimed ((advance pid i l p m).phases y) ≡ some j
      → x ≡ y
  unfolding advance
  advance-once arriving goes_on e x y j t u = ground (arith, once x y j)
  advance-once p m e x y j t u =
      ground (arith, once x y j, once i y j, once x i j, gone x j, gone y j)

  advance-stale :
      (p : Phase) (m : Move)
      → l.phases i ≡ p
      → (x j : ℕ) → broken ((advance pid i l p m).phases x) ≡ some j
      → (advance pid i l p m).file ≡ owned j
  unfolding advance
  advance-stale arriving goes_on e x j t = ground (arith, stale x j)
  advance-stale (unlinking k) m e x j t = ground (arith, stale x j, stale i k, once x i j)
  advance-stale p m e x j t =
      ground (arith, stale x j, mine i (made i) a, mine i (owned i) a, dead x j, a)

  advance-mine :
      (p : Phase) (m : Move)
      → l.phases i ≡ p
      → (x : ℕ) (f : LockFile) → (advance pid i l p m).alive (pid x) ≡ true
      → expected x ((advance pid i l p m).phases x) ≡ some f
      → (advance pid i l p m).file ≡ f
  unfolding advance
  advance-mine trying m e x f t u = ground (arith, mine x f)
  advance-mine writing m e x f t u = ground (arith, mine x f, mine i (made i) a)
  advance-mine (unlinking k) m e x f t u = ground (arith, mine x f, stale i k, dead i k)
  advance-mine removing m e x f t u = ground (arith, mine x f, mine i (owned i) a)
  advance-mine p m e x f t u = ground (arith, mine x f, mine i (owned i) a)

  pub advance-Inv : (m : Move) → Inv pid (advance pid i l (l.phases i) m)
  advance-Inv m = record {
    mine = advance-mine (l.phases i) m refl;
    dead = advance-dead (l.phases i) m refl;
    gone = advance-gone (l.phases i) m refl;
    once = advance-once (l.phases i) m refl;
    stale = advance-stale (l.phases i) m refl;
  }

dies-Inv : (pid : ℕ → ℕ) (l : Lock) (q : ℕ) → Inv pid l → Inv pid (step pid l (dies q))
unfolding step
dies-Inv pid l q inv = record {
  mine = λ i f a u. ground (arith, inv.mine i f);
  dead = λ i j t. ground (arith, inv.dead i j);
  gone = inv.gone;
  once = inv.once;
  stale = inv.stale;
}

call-Inv :
    (pid : ℕ → ℕ) (l : Lock) (i : ℕ) (m : Move) (b : Bool)
    → l.alive (pid i) ≡ b
    → Inv pid l
    → Inv pid (if b then advance pid i l (l.phases i) m else l)
call-Inv pid l i m true a inv = advance-Inv pid l inv i a m
call-Inv pid l i m false a inv = inv

pub step-Inv : (pid : ℕ → ℕ) (l : Lock) (e : Event) → Inv pid l → Inv pid (step pid l e)
unfolding step
step-Inv pid l (call i m) inv = call-Inv pid l i m (l.alive (pid i)) refl inv
step-Inv pid l (dies q) inv = dies-Inv pid l q inv

pub run-Inv : (pid : ℕ → ℕ) (l : Lock) (es : List Event) → Inv pid l → Inv pid (run pid l es)
unfolding run
run-Inv pid l [] inv = inv
run-Inv pid l (e ∷ es) inv = run-Inv pid (step pid l e) es (step-Inv pid l e inv)

pub start-Inv : (pid : ℕ → ℕ) → Inv pid start
start-Inv pid = record {
  mine = λ i f a u. ground arith;
  dead = λ i j t. ground arith;
  gone = λ i j t. refl;
  once = λ i k j t u. ground arith;
  stale = λ i j t. ground arith;
}
