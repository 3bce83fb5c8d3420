-- ===== src/Kv/Effect.antt =====
-- What an entry does to each key (kv_state_machine.cpp).
use adviskv.Base.{
  ℕ, ◌≡◌, refl, String, Bool, true, false, ◌&&◌, not, Option, none, some, ◌==◌, string_eq,
  if◌then◌else◌, Dict, lookup, lookup-assign, lookup-remove, arith,
}
use adviskv.Model.{
  Status, ok, key_not_found, condition_not_met, LogEntry, WriteOpType, is_kv_write_op,
}
use adviskv.Kv.{KvStateMachine, execute, execute_cas, put, get, del, find_request, has_id, apply}

-- What a write makes of the value under its key, read off the operation alone.
abbrev pub written : WriteOpType → String → String → Option String → Option String
written WriteOpType.put value expected old = some value
written WriteOpType.del value expected old = none
written WriteOpType.cas value expected none = none
written WriteOpType.cas value expected (some v) = if v == expected then some value else some v
written _ value expected old = old

-- The outcome that the request's record keeps.
abbrev pub outcome : WriteOpType → String → Option String → Status
outcome WriteOpType.cas expected none = key_not_found
outcome WriteOpType.cas expected (some v) = if v == expected then ok else condition_not_met
outcome _ expected old = ok

execute-lookup :
    (m : Dict String String) (e : LogEntry) (op : WriteOpType) (k : String)
    → lookup k (execute m e op).engine
      ≡ (if e.key == k then written op e.value e.expected (lookup e.key m) else lookup k m)
unfolding execute put get del execute_cas
execute-lookup m e WriteOpType.put k = lookup-assign e.key k e.value m
execute-lookup m e WriteOpType.del k =
    ground (arith, lookup-remove e.key k m, string_eq.same_iff e.key k)
execute-lookup m e WriteOpType.cas k =
    ground (arith, lookup-assign e.key k e.value m, string_eq.same_iff e.key k)
execute-lookup m e WriteOpType.none k = ground (arith, string_eq.same_iff e.key k)
execute-lookup m e WriteOpType.add_learner k = ground (arith, string_eq.same_iff e.key k)
execute-lookup m e WriteOpType.promote_voter k = ground (arith, string_eq.same_iff e.key k)
execute-lookup m e WriteOpType.remove_member k = ground (arith, string_eq.same_iff e.key k)

pub execute-status :
    (m : Dict String String) (e : LogEntry) (op : WriteOpType) → (execute m e op).status ≡ ok
unfolding execute put get del execute_cas
execute-status m e WriteOpType.put = refl
execute-status m e WriteOpType.del = ground arith
execute-status m e WriteOpType.cas = ground arith
execute-status m e WriteOpType.none = refl
execute-status m e WriteOpType.add_learner = refl
execute-status m e WriteOpType.promote_voter = refl
execute-status m e WriteOpType.remove_member = refl

pub execute-outcome :
    (m : Dict String String) (e : LogEntry) (op : WriteOpType)
    → (execute m e op).apply_status ≡ outcome op e.expected (lookup e.key m)
unfolding execute put get del execute_cas
execute-outcome m e WriteOpType.put = refl
execute-outcome m e WriteOpType.del = ground arith
execute-outcome m e WriteOpType.cas = ground arith
execute-outcome m e WriteOpType.none = refl
execute-outcome m e WriteOpType.add_learner = refl
execute-outcome m e WriteOpType.promote_voter = refl
execute-outcome m e WriteOpType.remove_member = refl

abbrev pub is_some {ℓ} : {A : Type ℓ} → Option A → Bool
is_some none = false
is_some (some _) = true

abbrev pub recorded : KvStateMachine → LogEntry → Bool
recorded s e = is_some (lookup e.request_id s.request_records)

abbrev pub refused : LogEntry → Bool
refused e = has_id e && not (is_kv_write_op e.op_type)

module _ (payload_hash : WriteOpType → String → String → String → ℕ) where
  -- An entry that is not refused is applied with success. Unless its request has been recorded
  -- before, it writes what its operation says under its key and leaves every other key; a request
  -- that has been recorded leaves all keys. The machine has then applied the entry's index and term.
  pub apply_lem :
      (s : KvStateMachine) (e : LogEntry) (k : String)
      → refused e ≡ false
      → let (status, s') = apply payload_hash s e in
        (status ≡ ok)
        × (s'.apply_index ≡ e.index)
        × (s'.apply_term ≡ e.term)
        × (lookup k s'.engine ≡ (
            if has_id e && recorded s e
            then lookup k s.engine
            else if e.key == k
            then written e.op_type e.value e.expected (lookup e.key s.engine)
            else lookup k s.engine))
  unfolding apply find_request
  apply_lem s e k h =
      ground (arith, h, execute-status s.engine e e.op_type, execute-lookup s.engine e e.op_type k)

  pub apply-status :
      (s : KvStateMachine) (e : LogEntry) → refused e ≡ false → (apply payload_hash s e).0 ≡ ok
  apply-status s e h = (apply_lem s e e.key h).0
