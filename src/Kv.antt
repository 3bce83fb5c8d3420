-- ===== src/Kv.antt =====
-- storage/raft/state_machine/kv_state_machine.{h,cpp} and storage/engine/map_engine.cpp: the map that
-- applied entries write to, and the records of the requests among them. The engine's lock and the
-- metrics are left out; the only engine is the map, so that there always is one.
pub mod Effect
pub mod Records
pub mod Transfer
use adviskv.Base.{
  ℕ, String, Bool, true, false, ◌&&◌, not, Option, none, some, List, [], ◌∷◌, map, ◌==◌, string_eq,
  if◌then◌else◌, Dict, lookup, assign, emplace, remove,
}
use adviskv.Model.{
  Status, ok, error, invalid_argument, key_not_found, condition_not_met, fail, LogEntry,
  WriteOpType, is_kv_write_op,
}
use adviskv.Raft.Message.{SnapshotHeader}

pub record RequestRecord : Type 0 where
  pub request_id : String
  pub op : WriteOpType
  pub payload_hash : ℕ
  pub apply_status : Status

pub record KvStateMachine : Type 0 where
  pub engine : Dict String String
  pub apply_index : ℕ
  pub apply_term : ℕ
  pub request_records : Dict String RequestRecord

-- MapEngine.
unfoldable pub put : Dict String String → String → String → Status × Dict String String
put m key value = (ok, assign key value m)

unfoldable pub get : Dict String String → String → Status × Option String
get m key = elim (lookup key m) [ none ↦ (key_not_found, none) | some value ↦ (ok, some value) ]

unfoldable pub del : Dict String String → String → Status × Dict String String
del m key = elim (lookup key m) [ none ↦ (ok, m) | some _ ↦ (ok, remove key m) ]

unfoldable pub find_request : KvStateMachine → String → Status × Option RequestRecord
find_request s request_id =
    if request_id == ""
    then (invalid_argument, none)
    else elim (lookup request_id s.request_records) [
      | none ↦ (key_not_found, none)
      | some found ↦ (ok, some found)
    ]

-- What the `switch` of `apply` leaves: `status`, `apply_status` and the engine.
pub record Executed : Type 0 where
  pub status : Status
  pub apply_status : Status
  pub engine : Dict String String

unfoldable pub execute_cas : Dict String String → LogEntry → Option String → Executed
unfolding put
execute_cas m e none = record { status = ok; apply_status = key_not_found; engine = m }
execute_cas m e (some current) =
    if not (current == e.expected)
    then record { status = ok; apply_status = condition_not_met; engine = m }
    else (let (status, m') = put m e.key e.value in
        record { status = status; apply_status = ok; engine = m' })

unfoldable pub execute : Dict String String → LogEntry → WriteOpType → Executed
unfolding put get del execute_cas
execute m e WriteOpType.put =
    let (status, m') = put m e.key e.value in
    record { status = status; apply_status = ok; engine = m' }
execute m e WriteOpType.del =
    let (status, m') = del m e.key in record { status = status; apply_status = ok; engine = m' }
execute m e WriteOpType.cas = execute_cas m e (get m e.key).1
execute m e _ = record { status = ok; apply_status = ok; engine = m }

abbrev pub has_id : LogEntry → Bool
has_id e = not (e.request_id == "")

-- `payload_hash` is `RequestRecord::request_payload_hash`.
module _ (payload_hash : WriteOpType → String → String → String → ℕ) where
  abbrev pub record_of : LogEntry → Status → RequestRecord
  record_of e apply_status = record {
    request_id = e.request_id;
    op = e.op_type;
    payload_hash = payload_hash e.op_type e.key e.value e.expected;
    apply_status = apply_status;
  }

  unfoldable pub remember :
      LogEntry → Status → Dict String RequestRecord → Dict String RequestRecord
  remember e apply_status records =
      if has_id e && is_kv_write_op e.op_type
      then emplace e.request_id (record_of e apply_status) records
      else records

  unfoldable pub apply : KvStateMachine → LogEntry → Status × KvStateMachine
  unfolding find_request execute remember
  apply s e =
      let done = record s { apply_term = e.term; apply_index = e.index } in
      if has_id e && not (is_kv_write_op e.op_type)
      then (invalid_argument, s)
      else if has_id e && (is_kv_write_op e.op_type && not (fail (find_request s e.request_id).0))
      then (ok, done)
      else (let x = execute s.engine e e.op_type in
          if fail x.status then (x.status, s) else (
            ok,
            record done {
              engine = x.engine;
              request_records = remember e x.apply_status s.request_records;
            },
          ))

pub record SnapshotData : Type 0 where
  pub header : SnapshotHeader
  pub kvs : List (String × String)
  pub request_records : List RequestRecord

-- The members of the header are the caller's.
unfoldable pub capture_snapshot : KvStateMachine → SnapshotData
capture_snapshot s = record {
  header = record { apply_index = s.apply_index; apply_term = s.apply_term; members = [] };
  kvs = s.engine;
  request_records = map (λ p. p.1) s.request_records;
}

unfoldable pub restore_kvs : List (String × String) → Dict String String → Dict String String
restore_kvs [] m = m
restore_kvs ((key, value) ∷ kvs) m = restore_kvs kvs (assign key value m)

unfoldable pub restore_requests :
    List RequestRecord → Dict String RequestRecord → Status × Dict String RequestRecord
restore_requests [] m = (ok, m)
restore_requests (r ∷ rs) m =
    let rest = restore_requests rs (assign r.request_id r m) in
    if r.request_id == "" then (invalid_argument, m) else rest

-- From the key-value pairs and the records that a snapshot file yields.
unfoldable pub restore : KvStateMachine → SnapshotData → Status × KvStateMachine
unfolding restore_kvs restore_requests
restore s snap =
    let kvs = restore_kvs snap.kvs [] in
    let (status, records) = restore_requests snap.request_records [] in
    if fail status then (status, record s { engine = kvs; request_records = records }) else (
      ok,
      record {
        engine = kvs;
        apply_index = snap.header.apply_index;
        apply_term = snap.header.apply_term;
        request_records = records;
      },
    )
