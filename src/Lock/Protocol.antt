-- ===== src/Lock/Protocol.antt =====
-- packages/core/src/session-lock.ts: the lock file, the sentinels and the calls of
-- `withSessionVncLock`, a file operation at a time. A call is a number, which stands for its token.
use pickforge.Base.{ℕ, Bool, true, false, Option, none, some, List, [], ◌∷◌, if◌then◌else◌, ◌==◌}

-- The lock file: not there, made by a call and still empty, or with the text of its owner.
pub data LockFile : Type 0 where
  absent : LockFile
  made owned : ℕ → LockFile

-- `readVncLockOwner`: an empty file has no owner that can be read.
unfoldable pub read_vnc_lock_owner : LockFile → Option ℕ
read_vnc_lock_owner (owned j) = some j
read_vnc_lock_owner _ = none

-- What a call does next. `breaking`, `confirming` and `unlinking` are the steps of
-- `breakStaleVncLock`, and `releasing` to `cleaning` those of `releaseVncLock`.
pub data Phase : Type 0 where
  arriving trying writing reading waiting failing : Phase
  breaking confirming unlinking : ℕ → Phase
  holding releasing reconfirming removing cleaning finished : Phase

pub record Lock : Type 0 where
  pub file : LockFile
  pub sentinels : ℕ → Bool
  pub phases : ℕ → Phase
  pub alive : ℕ → Bool

abbrev pub at_call {ℓ} : {A : Type ℓ} (calls : ℕ → A) (i : ℕ) (now : A) → ℕ → A
at_call calls i now = λ j. if i == j then now else calls j

-- A step goes on as the files say, or the wait, the write or the session's check throws.
pub data Move : Type 0 where
  goes_on throws : Move

abbrev pub go : Lock → ℕ → Phase → Lock
go l i p = record l { phases = at_call l.phases i p }

abbrev pub owner_is : LockFile → ℕ → Bool
owner_is (owned j) i = j == i
owner_is _ i = false

-- `open(lockPath, "wx")`
unfoldable pub try_create : Lock → ℕ → Lock
try_create l i = elim l.file [
  | absent ↦ record (go l i writing) { file = made i }
  | _ ↦ go l i reading
]

-- The write goes to the file that the call has made, which another may have unlinked.
unfoldable pub write_owner : LockFile → ℕ → LockFile
write_owner (made j) i = if j == i then owned i else made j
write_owner f i = f

-- The owner, if there is one and its process is gone. `pid` gives the process of a call.
unfoldable pub check_owner : (ℕ → ℕ) → Lock → ℕ → Lock
unfolding read_vnc_lock_owner
check_owner pid l i = elim (read_vnc_lock_owner l.file) [
  | none ↦ go l i waiting
  | some j ↦ if l.alive (pid j) then go l i waiting else go l i (breaking j)
]

-- Of all that see the dead owner, the one that unlinks its sentinel may go on.
unfoldable pub claim_sentinel : Lock → ℕ → ℕ → Lock
claim_sentinel l i j =
    if l.sentinels j
    then record (go l i (confirming j)) { sentinels = at_call l.sentinels j false }
    else go l i waiting

-- `unlink(lockPath)` of `breakStaleVncLock`
unfoldable pub unlink_stale : Lock → ℕ → Lock
unlink_stale l i = elim l.file [
  | absent ↦ go l i waiting
  | _ ↦ record (go l i trying) { file = absent }
]

unfoldable pub advance : (ℕ → ℕ) → ℕ → Lock → Phase → Move → Lock
unfolding try_create write_owner check_owner claim_sentinel unlink_stale
advance pid i l arriving goes_on = record (go l i trying) { sentinels = at_call l.sentinels i true }
advance pid i l trying goes_on = try_create l i
advance pid i l trying throws = go l i failing
advance pid i l writing goes_on = record (go l i holding) { file = write_owner l.file i }
advance pid i l writing throws = go l i failing
advance pid i l reading goes_on = check_owner pid l i
advance pid i l (breaking j) goes_on = claim_sentinel l i j
advance pid i l (confirming j) goes_on =
    if owner_is l.file j then go l i (unlinking j) else go l i waiting
advance pid i l (unlinking j) goes_on = unlink_stale l i
advance pid i l waiting goes_on = go l i trying
advance pid i l waiting throws = go l i failing
advance pid i l failing goes_on = record (go l i finished) {
  sentinels = at_call l.sentinels i false;
}
advance pid i l holding goes_on = go l i releasing
advance pid i l releasing goes_on =
    if owner_is l.file i then go l i reconfirming else go l i cleaning
advance pid i l reconfirming goes_on =
    if owner_is l.file i then go l i removing else go l i cleaning
advance pid i l removing goes_on = record (go l i cleaning) { file = absent }
advance pid i l cleaning goes_on = record (go l i finished) {
  sentinels = at_call l.sentinels i false;
}
advance pid i l p m = l

-- A call of a living process goes on, or a process dies.
pub data Event : Type 0 where
  call : ℕ → Move → Event
  dies : ℕ → Event

unfoldable pub step : (ℕ → ℕ) → Lock → Event → Lock
unfolding advance
step pid l (call i m) = if l.alive (pid i) then advance pid i l (l.phases i) m else l
step pid l (dies p) = record l { alive = at_call l.alive p false }

unfoldable pub run : (ℕ → ℕ) → Lock → List Event → Lock
unfolding step
run pid l [] = l
run pid l (e ∷ es) = run pid (step pid l e) es

-- No call has begun.
abbrev pub start : Lock
start = record { file = absent; sentinels = λ i. false; phases = λ i. arriving; alive = λ p. true }
