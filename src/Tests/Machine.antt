-- ===== src/Tests/Machine.antt =====
-- Runs of the state machine and of the log file.
use adviskv.Base.{
  ℕ, ◌≡◌, refl, String, false, ◌&&◌, List, [], ◌∷◌, map, drop, lookup, string_eq, ◌==◌,
  if◌then◌else◌, arith,
}
use adviskv.Model.{ok, LogEntry, no_entry, WriteOpType}
use adviskv.Raft.Log.Shape.{Contiguous}
use adviskv.Kv.{KvStateMachine, RequestRecord, apply, restore, capture_snapshot, has_id}
use adviskv.Kv.Effect.{apply_lem, written, recorded}
use adviskv.Kv.Records.{apply_all, apply_all_twice}
use adviskv.Kv.Transfer.{IsWhole, restore-capture, apply-IsWhole}
use adviskv.Wal.{WalRecord, decoded, corrupt, recover}
use adviskv.Wal.Recovery.{recover-Contiguous, recover_intact}
use adviskv.Tests.{put_entry}

-- A hash that tells texts apart is not needed here.
abbrev pub no_hash : WriteOpType → String → String → String → ℕ
no_hash op key value expected = 0

abbrev swap : LogEntry
swap = record no_entry {
  term = 2;
  index = 5;
  op_type = WriteOpType.cas;
  key = "k";
  value = "w";
  expected = "v";
  request_id = "c";
}

abbrev first_record : RequestRecord
first_record = record {
  request_id = "a";
  op = WriteOpType.put;
  payload_hash = 0;
  apply_status = ok;
}

abbrev pub machine : KvStateMachine
machine = record {
  engine = ("k", "v") ∷ [];
  apply_index = 4;
  apply_term = 1;
  request_records = ("a", first_record) ∷ [];
}

machine-IsWhole : IsWhole machine
unfolding lookup
machine-IsWhole = record { keys = (refl, tt); requests = (refl, tt); keyed = (refl, refl, tt) }

apply_lem_example :
    let (status, s') = apply no_hash machine swap in
    (status ≡ ok)
    × (s'.apply_index ≡ 5)
    × (s'.apply_term ≡ 2)
    × (lookup "k" s'.engine ≡ (
        if has_id swap && recorded machine swap
        then lookup "k" machine.engine
        else if swap.key == "k"
        then written WriteOpType.cas "w" "v" (lookup "k" machine.engine)
        else lookup "k" machine.engine))
apply_lem_example = apply_lem no_hash machine swap "k" refl

abbrev requests : List LogEntry
requests = put_entry 1 5 "b" ∷ swap ∷ []

apply_all_twice_example :
    let s' = apply_all no_hash machine requests in
    ((apply_all no_hash s' requests).engine ≡ s'.engine)
    × ((apply_all no_hash s' requests).request_records ≡ s'.request_records)
apply_all_twice_example =
    apply_all_twice no_hash machine requests ((refl, refl), ((refl, refl), tt))

abbrev fresh : KvStateMachine
fresh = record { engine = []; apply_index = 0; apply_term = 0; request_records = [] }

restore-capture_example : restore fresh (capture_snapshot machine) ≡ (ok, machine)
restore-capture_example = restore-capture machine fresh machine-IsWhole

apply-IsWhole_example : IsWhole (apply no_hash machine swap).1
apply-IsWhole_example = apply-IsWhole no_hash machine swap machine-IsWhole

-- A snapshot of index 3, and a file that ends in a torn record.
abbrev torn : List WalRecord
torn = decoded (put_entry 1 3 "") ∷ decoded (put_entry 1 4 "") ∷ corrupt ∷ []

recover-Contiguous_example : Contiguous 3 (recover 3 torn).wal_entries
recover-Contiguous_example = recover-Contiguous 3 torn

abbrev stored : List LogEntry
stored = put_entry 1 3 "" ∷ put_entry 1 4 "" ∷ []

recover_intact_example :
    recover 3 (map decoded stored) ≡ record { wal_entries = drop 1 stored; need_recover = false }
recover_intact_example = recover_intact 3 2 stored (refl, (refl, tt)) (omega arith)
