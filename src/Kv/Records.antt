-- ===== src/Kv/Records.antt =====
-- Each request is executed once, however often its entry is applied (kv_state_machine.cpp).
use adviskv.Base.{
  ℕ, ◌≡◌, refl, String, true, some, List, [], ◌∷◌, All, ◌==◌, string_eq, if◌then◌else◌, lookup,
  lookup-emplace, or_default, arith, ==_refl,
}
use adviskv.Model.{ok, LogEntry, WriteOpType, is_kv_write_op}
use adviskv.Kv.{KvStateMachine, find_request, remember, has_id, apply, record_of}
use adviskv.Kv.Effect.{execute-status, execute-outcome, outcome, recorded}

-- A write that carries a request id.
abbrev pub IsRequest : LogEntry → Type 0
IsRequest e = (has_id e ≡ true) × (is_kv_write_op e.op_type ≡ true)

module _ (payload_hash : WriteOpType → String → String → String → ℕ) where
  -- After a write with a request id has been applied, its record is the one that was there before,
  -- or, where there was none, that of this execution and its outcome. The other requests' records
  -- stay.
  pub apply-record :
      (s : KvStateMachine) (e : LogEntry) (id : String)
      → IsRequest e
      → lookup id (apply payload_hash s e).1.request_records ≡ (
          if e.request_id == id
          then some (
              or_default
                (record_of payload_hash e (outcome e.op_type e.expected (lookup e.key s.engine)))
                (lookup e.request_id s.request_records))
          else lookup id s.request_records)
  unfolding apply find_request remember
  apply-record s e id h = ground (
    arith,
    h.0,
    h.1,
    execute-status s.engine e e.op_type,
    execute-outcome s.engine e e.op_type,
    string_eq.same_iff e.request_id id,
    lookup-emplace e.request_id id
        (record_of payload_hash e (outcome e.op_type e.expected (lookup e.key s.engine)))
        s.request_records,
  )

  apply-recorded :
      (s : KvStateMachine) (e : LogEntry)
      → IsRequest e
      → recorded s e ≡ true
      → apply payload_hash s e ≡ (ok, record s { apply_term = e.term; apply_index = e.index })
  unfolding apply find_request
  apply-recorded s e h r = ground (arith, h.0, h.1, r)

  recorded_after :
      (s : KvStateMachine) (e e' : LogEntry)
      → IsRequest e
      → e'.request_id ≡ e.request_id
      → recorded (apply payload_hash s e).1 e' ≡ true
  recorded_after s e e' h same =
      rw (apply-record s e e'.request_id h, same, ==_refl e.request_id) refl

  -- The same request, as a second entry, changes neither the keys nor the records.
  pub apply_again :
      (s : KvStateMachine) (e e' : LogEntry)
      → IsRequest e
      → IsRequest e'
      → e'.request_id ≡ e.request_id
      → let s' = (apply payload_hash s e).1 in
        apply payload_hash s' e' ≡ (ok, record s' { apply_term = e'.term; apply_index = e'.index })
  apply_again s e e' h h' same =
      apply-recorded (apply payload_hash s e).1 e' h' (recorded_after s e e' h same)

  abbrev pub apply_all : KvStateMachine → List LogEntry → KvStateMachine
  apply_all s [] = s
  apply_all s (e ∷ es) = apply_all (apply payload_hash s e).1 es

  recorded_kept :
      (s : KvStateMachine) (e e' : LogEntry)
      → IsRequest e
      → recorded s e' ≡ true
      → recorded (apply payload_hash s e).1 e' ≡ true
  recorded_kept s e e' h r = ground (arith, apply-record s e e'.request_id h, r)

  recorded_through :
      (s : KvStateMachine) (es : List LogEntry) (e' : LogEntry)
      → All IsRequest es
      → recorded s e' ≡ true
      → recorded (apply_all s es) e' ≡ true
  recorded_through s [] e' h r = r
  recorded_through s (e ∷ es) e' h r =
      recorded_through (apply payload_hash s e).1 es e' h.1 (recorded_kept s e e' h.0 r)

  recorded_at_end :
      (s : KvStateMachine) (es : List LogEntry)
      → All IsRequest es
      → All (λ e. recorded (apply_all s es) e ≡ true) es
  recorded_at_end s [] h = tt
  recorded_at_end s (e ∷ es) h =
      let s' = (apply payload_hash s e).1 in
      (recorded_through s' es e h.1 (recorded_after s e e h.0 refl), recorded_at_end s' es h.1)

  applied_nothing :
      (s : KvStateMachine) (es : List LogEntry)
      → All IsRequest es
      → All (λ e. recorded s e ≡ true) es
      → ((apply_all s es).engine ≡ s.engine)
        × ((apply_all s es).request_records ≡ s.request_records)
  applied_nothing s [] h r = (refl, refl)
  applied_nothing s (e ∷ es) h r =
      rw (apply_all, apply-recorded s e h.0 r.0)
        (applied_nothing (record s { apply_term = e.term; apply_index = e.index }) es h.1 r.1)

  -- To apply a sequence of writes that carry request ids a second time, say because clients sent
  -- all of them again, changes neither the keys nor the records.
  pub apply_all_twice :
      (s : KvStateMachine) (es : List LogEntry)
      → All IsRequest es
      → let s' = apply_all s es in
        ((apply_all s' es).engine ≡ s'.engine)
        × ((apply_all s' es).request_records ≡ s'.request_records)
  apply_all_twice s es h = applied_nothing (apply_all s es) es h (recorded_at_end s es h)
