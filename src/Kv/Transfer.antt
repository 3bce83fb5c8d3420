-- ===== src/Kv/Transfer.antt =====
-- A snapshot carries the whole machine (kv_state_machine.cpp).
use adviskv.Base.{
  ℕ, ◌≡◌, refl, ap, ◌∙◌, sym, String, false, ◌&&◌, not, [], ◌∷◌, ◌++◌, map, ◌==◌, string_eq, Dict,
  assign, emplace, Bool-cases, inl, inr, arith,
}
use adviskv.Base.Unique.{
  Unique, assign_new, Unique-front, Unique-assign, Unique-emplace, Unique-remove,
}
use mathlib.Core.List.{append-nil, append_assoc}
use adviskv.Model.{Status, ok, fail, LogEntry, WriteOpType, is_kv_write_op}
use adviskv.Kv.{
  KvStateMachine, RequestRecord, capture_snapshot, restore, restore_kvs, restore_requests, apply,
  execute, execute_cas, put, del, get, find_request, remember, has_id, record_of,
}
use adviskv.Kv.Effect.{refused, execute-status}

restore_kvs-all : (kvs m : Dict String String) → Unique (m ++ kvs) → restore_kvs kvs m ≡ m ++ kvs
unfolding restore_kvs
restore_kvs-all [] m u = sym (append-nil m)
restore_kvs-all ((k, v) ∷ kvs) m u =
    let shift : m ++ (k, v) ∷ kvs ≡ (m ++ (k, v) ∷ []) ++ kvs =
      sym (append_assoc m ((k, v) ∷ []) kvs) in
    rw (assign_new k v m (Unique-front k v m kvs u))
      (restore_kvs-all kvs (m ++ (k, v) ∷ []) (rw shift at u) ∙ sym shift)

-- A record stands under its own request id, which is not empty.
abbrev pub Keyed : Dict String RequestRecord → Type 0
Keyed [] = Unit {0}
Keyed ((k, r) ∷ m) = (r.request_id ≡ k) × ((k == "") ≡ false) × Keyed m

restore_requests-all :
    (records m : Dict String RequestRecord)
    → Keyed records
    → Unique (m ++ records)
    → restore_requests (map (λ p. p.1) records) m ≡ (ok, m ++ records)
unfolding restore_requests
restore_requests-all [] m h u = ap (λ x. (ok, x)) (sym (append-nil m))
restore_requests-all ((k, r) ∷ records) m h u =
    let shift : m ++ (k, r) ∷ records ≡ (m ++ (k, r) ∷ []) ++ records =
      sym (append_assoc m ((k, r) ∷ []) records) in
    let named : (r.request_id == "") ≡ false = ap (λ id. id == "") h.0 ∙ h.1 in
    let added : assign r.request_id r m ≡ m ++ (k, r) ∷ [] =
      ap (λ id. assign id r m) h.0 ∙ assign_new k r m (Unique-front k r m records u) in
    rw (named, added)
      (restore_requests-all records (m ++ (k, r) ∷ []) h.2 (rw shift at u)
        ∙ ap (λ x. (ok, x)) (sym shift))

-- What every machine that the operations make satisfies.
pub record IsWhole (s : KvStateMachine) : Type 0 where
  pub keys : Unique s.engine
  pub requests : Unique s.request_records
  pub keyed : Keyed s.request_records

-- A machine that restores the snapshot of a well-formed machine becomes that machine, whatever it
-- held before.
pub restore-capture :
    (s target : KvStateMachine) → IsWhole s → restore target (capture_snapshot s) ≡ (ok, s)
unfolding restore capture_snapshot
restore-capture s target v =
    rw
      (
        restore_kvs-all s.engine [] v.keys,
        restore_requests-all s.request_records [] v.keyed v.requests,
      )
      refl

execute-Unique :
    (m : Dict String String) (e : LogEntry) (op : WriteOpType)
    → Unique m
    → Unique (execute m e op).engine
unfolding execute put get del execute_cas
execute-Unique m e WriteOpType.put u = Unique-assign e.key e.value m u
execute-Unique m e WriteOpType.del u = ground (arith, u, Unique-remove e.key m u)
execute-Unique m e WriteOpType.cas u = ground (arith, u, Unique-assign e.key e.value m u)
execute-Unique m e WriteOpType.none u = u
execute-Unique m e WriteOpType.add_learner u = u
execute-Unique m e WriteOpType.promote_voter u = u
execute-Unique m e WriteOpType.remove_member u = u

Keyed-emplace :
    (k : String) (r : RequestRecord) (m : Dict String RequestRecord)
    → r.request_id ≡ k
    → (k == "") ≡ false
    → Keyed m
    → Keyed (emplace k r m)
unfolding emplace
Keyed-emplace k r [] same h u = (same, h, tt)
Keyed-emplace k r ((j, w) ∷ m) same h u = ground (arith, u, same, h, Keyed-emplace k r m same h u.2)

module _ (payload_hash : WriteOpType → String → String → String → ℕ) where
  remember-Unique :
      (s : KvStateMachine) (e : LogEntry) (status : Status)
      → IsWhole s
      → Unique (remember payload_hash e status s.request_records)
        × Keyed (remember payload_hash e status s.request_records)
  unfolding remember
  remember-Unique s e status v =
      let r = record_of payload_hash e status in
      ground (
        arith,
        v.requests,
        v.keyed,
        Unique-emplace e.request_id r s.request_records v.requests,
        Keyed-emplace e.request_id r s.request_records refl,
      )

  -- Applying an entry to a well-formed machine keeps every key and every request unique, and each
  -- record under its own id.
  pub apply-IsWhole :
      (s : KvStateMachine) (e : LogEntry) → IsWhole s → IsWhole (apply payload_hash s e).1
  unfolding apply
  apply-IsWhole s e v =
      let x = execute s.engine e e.op_type in
      let (requests, keyed) = remember-Unique s e x.apply_status v in
      elim (Bool-cases (refused e)) [
        | inl bad ↦ rw bad v
        | inr good ↦
            elim (Bool-cases (
              has_id e
              && (is_kv_write_op e.op_type && not (fail (find_request s e.request_id).0)))) [
                | inl again ↦
                    rw (good, again)
                      (record { keys = v.keys; requests = v.requests; keyed = v.keyed })
                | inr new ↦
                    rw (good, new, execute-status s.engine e e.op_type)
                      (record {
                        keys = execute-Unique s.engine e e.op_type v.keys;
                        requests = requests;
                        keyed = keyed;
                      })
              ]
      ]
