-- ===== src/Meta/Nodes.antt =====
-- meta/reconcile/node_reconciler.cpp: the status of a node by the time of its last heartbeat.
use adviskv.Base.{
  ℕ, suc, ◌+◌, String, Bool, true, false, Option, none, some, List, [], ◌∷◌, ◌++◌, map, length,
  is_empty, ltb, leb, ◌==◌, nat_eq, if◌then◌else◌,
}
use adviskv.Model.{Status, ok}
use adviskv.Meta.Model.{Node, NodeStatus, NodeOfflineReason}
use adviskv.Meta.Txn.{MetaStoreTxn, get_node, put_node, list_nodes}
use adviskv.Meta.Store.{MetaStore, MetaPersistedRecord, begin_txn, write_with}

abbrev heartbeat_check_batch_size : ℕ
heartbeat_check_batch_size = 16

abbrev pub heartbeat_suspect_timeout_ms : ℕ
heartbeat_suspect_timeout_ms = 10000

abbrev pub heartbeat_offline_timeout_ms : ℕ
heartbeat_offline_timeout_ms = 30000

abbrev heartbeat_startup_grace_ms : ℕ
heartbeat_startup_grace_ms = 30000

abbrev status_code : NodeStatus → ℕ
status_code NodeStatus.online = 0
status_code NodeStatus.suspect = 1
status_code NodeStatus.offline = 2

abbrev is_mismatch : NodeOfflineReason → Bool
is_mismatch NodeOfflineReason.topology_mismatch = true
is_mismatch NodeOfflineReason.no_reason = false

-- The node is written only where its status changes.
unfoldable pub mark_node : NodeStatus → Node → MetaStoreTxn → MetaStoreTxn
mark_node status n t =
    if status_code n.state.status == status_code status
    then t
    else put_node (record n { state = record n.state { status = status } }) t

-- A difference of times is compared without the subtraction, since it may be negative.
unfoldable pub check_and_modify_node : ℕ → ℕ → Node → MetaStoreTxn → MetaStoreTxn
unfolding mark_node
check_and_modify_node start_ts_ms now n t =
    if is_mismatch n.state.offline_reason
    then mark_node NodeStatus.offline n t
    else if leb now (n.state.last_heartbeat_ts + heartbeat_suspect_timeout_ms)
    then mark_node NodeStatus.online n t
    else if leb now (start_ts_ms + heartbeat_startup_grace_ms)
    then t
    else if ltb (n.state.last_heartbeat_ts + heartbeat_offline_timeout_ms) now
    then mark_node NodeStatus.offline n t
    else if status_code n.state.status == 0
    then mark_node NodeStatus.suspect n t
    else t

abbrev check_found : ℕ → ℕ → Option Node → MetaStoreTxn → MetaStoreTxn
check_found start_ts_ms now none t = t
check_found start_ts_ms now (some n) t = check_and_modify_node start_ts_ms now n t

-- The loop over a batch.
unfoldable pub check_nodes : ℕ → ℕ → List String → MetaStoreTxn → MetaStoreTxn
unfolding check_and_modify_node
check_nodes start_ts_ms now [] t = t
check_nodes start_ts_ms now (id ∷ ids) t =
    check_nodes start_ts_ms now ids (check_found start_ts_ms now (get_node t id) t)

-- The batches, the first of which begins with `batch`.
unfoldable pub batches {ℓ} : {A : Type ℓ} → List A → List A → List (List A)
batches batch [] = if is_empty batch then [] else batch ∷ []
batches batch (x ∷ xs) = elim (suc (length batch) == heartbeat_check_batch_size) [
  | true ↦ (batch ++ x ∷ []) ∷ batches [] xs
  | false ↦ batches (batch ++ x ∷ []) xs
]

module _ {D : Type 0} (save_meta : MetaPersistedRecord → D → Status × D)
    (less : String → String → Bool) (start_ts_ms now : ℕ) where
  -- A failure of one batch is only logged.
  unfoldable pub check_batches : List (List String) → MetaStore D → MetaStore D
  unfolding check_nodes
  check_batches [] s = s
  check_batches (ids ∷ rest) s =
      check_batches rest (write_with save_meta (λ t. (ok, check_nodes start_ts_ms now ids t)) s).1

  unfoldable pub run_nodes : MetaStore D → Status × MetaStore D
  unfolding check_batches batches
  run_nodes s =
      (ok, check_batches (batches [] (map (λ n. n.id) (list_nodes less (begin_txn s.published)))) s)
