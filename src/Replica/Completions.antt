-- ===== src/Replica/Completions.antt =====
-- common/completion.h: `Completion`, the one result that a caller waits for. The trackers share
-- completions by pointers: an identifier into a store here, and one that the store does not hold is
-- the null pointer. The lock and the condition variable are left out, so that an operation is one
-- step.
pub mod Gives
use adviskv.Base.{
  ℕ, ◌≡◌, refl, ◌≢◌, Bool, true, false, Option, none, some, List, [], ◌∷◌, String, ◌==◌, nat_eq,
  if◌then◌else◌, Dict, lookup, assign, lookup-assign, Option-cases, inl, inr, arith,
}
use adviskv.Model.{Status, ok}

pub data CompletionState : Type 0 where
  pending completed timed_out : CompletionState

pub data CompleteStatus : Type 0 where
  delivered already_completed too_late : CompleteStatus

-- `CompletionResult<Value>`; that of a write has no value.
pub record CompletionResult : Type 0 where
  pub status : Status
  pub value : Option String

abbrev pub success : Option String → CompletionResult
success value = record { status = ok; value = value }

abbrev pub failure : Status → CompletionResult
failure status = record { status = status; value = none }

pub record Completion : Type 0 where
  pub state : CompletionState
  pub result : Option CompletionResult

abbrev pub new_completion : Completion
new_completion = record { state = pending; result = none }

abbrev pub is_pending : CompletionState → Bool
is_pending pending = true
is_pending _ = false

unfoldable pub complete_in :
    CompletionState → Completion → CompletionResult → Completion × CompleteStatus
complete_in pending c r = (record { state = completed; result = some r }, delivered)
complete_in completed c r = (c, already_completed)
complete_in timed_out c r = (c, too_late)

unfoldable pub complete : Completion → CompletionResult → Completion × CompleteStatus
unfolding complete_in
complete c r = complete_in c.state c r

-- `wait_for` at the end of its time, the status of the timeout given; then `take_result`.
unfoldable pub expire : Completion → Status → Completion × Option CompletionResult
expire c timeout_status =
    if is_pending c.state
    then (record { state = timed_out; result = none }, some (failure timeout_status))
    else (record c { result = none }, c.result)

abbrev pub Completions : Type 0
Completions = Dict ℕ Completion

unfoldable pub finish_found : ℕ → CompletionResult → Completions → Option Completion → Completions
finish_found id r cs none = cs
finish_found id r cs (some c) = assign id (complete c r).0 cs

-- `completion->complete(r)`, its answer ignored.
unfoldable pub finish : ℕ → CompletionResult → Completions → Completions
unfolding finish_found
finish id r cs = finish_found id r cs (lookup id cs)

unfoldable pub finish_all : List ℕ → CompletionResult → Completions → Completions
finish_all [] r cs = cs
finish_all (id ∷ ids) r cs = finish_all ids r (finish id r cs)

unfoldable pub waits : Option Completion → Bool
waits none = false
waits (some c) = is_pending c.state

-- `completion->needs_result()`
unfoldable pub needs_result : ℕ → Completions → Bool
unfolding waits
needs_result id cs = waits (lookup id cs)

-- The completion of `id` after `finish`, whichever is finished.
unfoldable pub finished_by : CompletionResult → Option Completion → Option Completion
finished_by r none = none
finished_by r (some c) = some (complete c r).0

pub lookup-finish :
    (id j : ℕ) (r : CompletionResult) (cs : Completions)
    → lookup j (finish id r cs) ≡ (if id == j then finished_by r (lookup j cs) else lookup j cs)
unfolding finish finish_found finished_by
lookup-finish id j r cs = elim (Option-cases (lookup id cs)) [
  | inl absent ↦ rw absent ground (arith, nat_eq.same_iff id j, absent)
  | inr (c, held) ↦
      rw held ground (arith, nat_eq.same_iff id j, held, lookup-assign id j (complete c r).0 cs)
]

-- The caller that waits for `id` is given `r`.
abbrev pub Answered : Completions → ℕ → CompletionResult → Type 0
Answered cs id r = lookup id cs ≡ some (record { state = completed; result = some r })

pub Answered-done :
    (cs : Completions) (id : ℕ) (r : CompletionResult)
    → Answered cs id r
    → needs_result id cs ≡ false
unfolding needs_result waits
Answered-done cs id r a = ground (arith, a)

-- To finish a completion answers the one that waits, and no other.
pub finish-Answered :
    (id j : ℕ) (r r' : CompletionResult) (cs : Completions)
    → needs_result j cs ≡ true
    → Answered (finish id r cs) j r'
    → (id ≡ j) × (r ≡ r')
unfolding needs_result waits finished_by complete complete_in
finish-Answered id j r r' cs w a =
    ground (arith, lookup-finish id j r cs, w, a, nat_eq.same_iff id j)

-- A result that has been given is never replaced.
pub finish-kept :
    (id j : ℕ) (r : CompletionResult) (cs : Completions)
    → needs_result j cs ≡ false
    → lookup j (finish id r cs) ≡ lookup j cs
unfolding needs_result waits finished_by complete complete_in
finish-kept id j r cs w = ground (arith, lookup-finish id j r cs, w, nat_eq.same_iff id j)

-- Who waits after `finish`.
pub needs_result-finish :
    (id j : ℕ) (r : CompletionResult) (cs : Completions)
    → needs_result j (finish id r cs) ≡ (if id == j then false else needs_result j cs)
unfolding needs_result waits finished_by complete complete_in
needs_result-finish id j r cs = ground (arith, lookup-finish id j r cs, nat_eq.same_iff id j)
