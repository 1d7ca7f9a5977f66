-- ===== src/Gate/Calls.antt =====
-- packages/browser/src/devtools-permits.ts: the map from request ids to queues of forwarded calls.
-- A call is its permit, or `none` once the permit was released.
use pickforge.Base.{
  ℕ, ◌+◌, ◌≡◌, String, str_eq, Bool, true, false, Option, none, some, List, [], ◌∷◌, ◌++◌,
  if◌then◌else◌, any, ◌==◌, arith,
}
use pickforge.Json.{Json, Number, nat, other, infinite, str, num, Fields, prop}

pub data RequestId : Type 0 where
  text : String → RequestId
  number : Number → RequestId

abbrev same_number : Number → Number → Bool
same_number (nat a) (nat b) = a == b
same_number (other a) (other b) = a == b
same_number infinite infinite = true
same_number _ _ = false

-- Equality of a map's keys.
abbrev pub same_id : RequestId → RequestId → Bool
same_id (text a) (text b) = str_eq a b
same_id (number a) (number b) = same_number a b
same_id _ _ = false

abbrev id_of : Json → Option RequestId
id_of (str s) = some (text s)
id_of (num n) = some (number n)
id_of _ = none

-- `jsonRpcRequestId`
unfoldable pub json_rpc_request_id : Fields → Option RequestId
unfolding prop
json_rpc_request_id message = id_of (prop "id" message)

abbrev pub Queue : Type 0
Queue = List (Option String)

abbrev pub Calls : Type 0
Calls = List (RequestId × Queue)

-- The end of the id's queue, or a new queue after all others.
unfoldable pub push_call : RequestId → String → Calls → Calls
push_call id permit [] = (id, some permit ∷ []) ∷ []
push_call id permit ((j, queue) ∷ calls) =
    if same_id j id
    then (j, queue ++ some permit ∷ []) ∷ calls
    else (j, queue) ∷ push_call id permit calls

abbrev left_over : RequestId → Queue → Calls → Calls
left_over id [] calls = calls
left_over id queue calls = (id, queue) ∷ calls

abbrev shift_queue : RequestId → Queue → Calls → Calls × Option String
shift_queue id [] calls = (calls, none)
shift_queue id (permit ∷ queue) calls = (left_over id queue calls, permit)

abbrev beside : RequestId × Queue → Calls × Option String → Calls × Option String
beside entry (calls, permit) = (entry ∷ calls, permit)

-- `queue.shift()` on the id's queue, which goes when it is empty, and the permit of the call.
unfoldable pub shift_call : RequestId → Calls → Calls × Option String
shift_call id [] = ([], none)
shift_call id ((j, queue) ∷ calls) =
    let rest = shift_call id calls in
    if same_id j id then shift_queue j queue calls else beside (j, queue) rest

abbrev pub held_queue : Queue → List String
held_queue [] = []
held_queue (none ∷ queue) = held_queue queue
held_queue (some permit ∷ queue) = permit ∷ held_queue queue

-- `heldCalls`, as the permits.
unfoldable pub held : Calls → List String
held [] = []
held ((id, queue) ∷ calls) = held_queue queue ++ held calls

abbrev among : List String → String → Bool
among permits permit = any (str_eq permit) permits

abbrev pub keep_unless : List String → Queue → Queue
keep_unless permits [] = []
keep_unless permits (none ∷ queue) = none ∷ keep_unless permits queue
keep_unless permits (some p ∷ queue) =
    (if among permits p then none else some p) ∷ keep_unless permits queue

-- `releaseCalls` on the calls that hold the given permits: what is left, and what was released.
unfoldable pub release_calls : List String → Calls → Calls
release_calls permits [] = []
release_calls permits ((id, queue) ∷ calls) =
    (id, keep_unless permits queue) ∷ release_calls permits calls

abbrev pub taken : List String → List String → List String
taken permits [] = []
taken permits (p ∷ ps) = if among permits p then p ∷ taken permits ps else taken permits ps

-- How often a permit stands in a list.
unfoldable pub count : String → List String → ℕ
count p [] = 0
count p (q ∷ qs) = (if str_eq q p then 1 else 0) + count p qs

pub count-append : (p : String) (xs ys : List String) → count p (xs ++ ys) ≡ count p xs + count p ys
unfolding count
count-append p [] ys = omega arith
count-append p (x ∷ xs) ys = omega (arith, count-append p xs ys)

count-held_queue_end :
    (p q : String) (queue : Queue)
    → count p (held_queue (queue ++ some q ∷ [])) ≡ count p (held_queue queue) + count p (q ∷ [])
unfolding count
count-held_queue_end p q [] = omega arith
count-held_queue_end p q (none ∷ queue) = count-held_queue_end p q queue
count-held_queue_end p q (some r ∷ queue) = omega (arith, count-held_queue_end p q queue)

pub count-push_call :
    (p q : String) (id : RequestId) (calls : Calls)
    → count p (held (push_call id q calls)) ≡ count p (held calls) + count p (q ∷ [])
unfolding count held push_call
count-push_call p q id [] = omega arith
count-push_call p q id ((j, queue) ∷ calls) = ground (
  arith,
  count-append p (held_queue (queue ++ some q ∷ [])) (held calls),
  count-append p (held_queue queue) (held calls),
  count-held_queue_end p q queue,
  count-append p (held_queue queue) (held (push_call id q calls)),
  count-push_call p q id calls,
)

abbrev pub optional_list : Option String → List String
optional_list none = []
optional_list (some p) = p ∷ []

count-left_over :
    (p : String) (id : RequestId) (queue : Queue) (calls : Calls)
    → count p (held (left_over id queue calls)) ≡ count p (held_queue queue) + count p (held calls)
unfolding held count
count-left_over p id [] calls = omega arith
count-left_over p id (c ∷ queue) calls = count-append p (held_queue (c ∷ queue)) (held calls)

pub count-shift_call :
    (p : String) (id : RequestId) (calls : Calls)
    → count p (held calls)
      ≡ count p (optional_list (shift_call id calls).1) + count p (held (shift_call id calls).0)
unfolding held shift_call count
count-shift_call p id [] = omega arith
count-shift_call p id ((j, []) ∷ calls) = ground (arith, count-shift_call p id calls)
count-shift_call p id ((j, none ∷ queue) ∷ calls) = ground (
  arith,
  count-left_over p j queue calls,
  count-append p (held_queue queue) (held calls),
  count-append p (held_queue queue) (held (shift_call id calls).0),
  count-shift_call p id calls,
)
count-shift_call p id ((j, some q ∷ queue) ∷ calls) = ground (
  arith,
  count-left_over p j queue calls,
  count-append p (held_queue queue) (held calls),
  count-append p (held_queue queue) (held (shift_call id calls).0),
  count-shift_call p id calls,
)

count-keep_unless :
    (p : String) (permits : List String) (queue : Queue)
    → count p (held_queue queue)
      ≡ count p (taken permits (held_queue queue))
        + count p (held_queue (keep_unless permits queue))
unfolding count
count-keep_unless p permits [] = omega arith
count-keep_unless p permits (none ∷ queue) = count-keep_unless p permits queue
count-keep_unless p permits (some q ∷ queue) = ground (arith, count-keep_unless p permits queue)

count-taken-append :
    (p : String) (permits xs ys : List String)
    → count p (taken permits (xs ++ ys)) ≡ count p (taken permits xs) + count p (taken permits ys)
unfolding count
count-taken-append p permits [] ys = omega arith
count-taken-append p permits (x ∷ xs) ys = ground (arith, count-taken-append p permits xs ys)

pub count-release_calls :
    (p : String) (permits : List String) (calls : Calls)
    → count p (held calls)
      ≡ count p (taken permits (held calls)) + count p (held (release_calls permits calls))
unfolding held release_calls count
count-release_calls p permits [] = omega arith
count-release_calls p permits ((j, queue) ∷ calls) = omega (
  arith,
  count-append p (held_queue queue) (held calls),
  count-keep_unless p permits queue,
  count-taken-append p permits (held_queue queue) (held calls),
  count-release_calls p permits calls,
  count-append p (held_queue (keep_unless permits queue)) (held (release_calls permits calls)),
)
