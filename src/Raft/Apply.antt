-- ===== src/Raft/Apply.antt =====
-- storage/raft/raft_apply.{h,cpp}: how far the log is committed and applied. The log is an argument
-- here; the source keeps a reference to it. A text is measured in bytes.
pub mod Batches
use Prim.Native.String.{len}
use adviskv.Base.{
  ℕ, zero, suc, ◌+◌, ◌-◌, min, Bool, true, false, ◌&&◌, Option, none, some, List, [], ◌∷◌, ◌++◌,
  leb, ltb, ◌==◌, nat_eq, if◌then◌else◌,
}
use adviskv.Model.{LogEntry, is_config_change_op}
use adviskv.Raft.Log.{RaftLog, last_log_index, term_at, entry_at}

pub record RaftApply : Type 0 where
  pub commit_index : ℕ
  pub last_applied : ℕ

unfoldable pub set_commit_index : RaftApply → ℕ → RaftApply
set_commit_index a commit_index = record a { commit_index = commit_index }

unfoldable pub advance_commit_index_from_leader : RaftApply → RaftLog → ℕ → RaftApply
advance_commit_index_from_leader a l leader_commit =
    if ltb a.commit_index leader_commit
    then record a { commit_index = min leader_commit (last_log_index l) }
    else a

unfoldable pub advance_last_applied : RaftApply → ℕ → RaftApply
advance_last_applied a applied =
    if ltb a.last_applied applied then record a { last_applied = applied } else a

unfoldable pub install_snapshot : RaftApply → ℕ → RaftApply
install_snapshot a snapshot_index = record {
  commit_index = if ltb a.commit_index snapshot_index then snapshot_index else a.commit_index;
  last_applied = if ltb a.last_applied snapshot_index then snapshot_index else a.last_applied;
}

-- The locals of `extract_committed_entries`.
pub record Batch : Type 0 where
  pub entries : List LogEntry
  pub kv_count : ℕ
  pub kv_bytes : ℕ
  pub budget_exhausted : Bool
  pub has_more : Bool

-- Whether the loop goes on after a round.
pub data Round : Type 0 where
  next stop : Batch → Round

abbrev pub entry_bytes : LogEntry → ℕ
entry_bytes e = len e.key + len e.value

unfoldable pub take_kv : Batch → LogEntry → Batch
take_kv b e = record b {
  entries = b.entries ++ e ∷ [];
  kv_count = b.kv_count + 1;
  kv_bytes = b.kv_bytes + entry_bytes e;
}

unfoldable pub extract_entry : ℕ → ℕ → Batch → LogEntry → Round
unfolding take_kv
extract_entry budget_entries budget_bytes b e =
    if is_config_change_op e.op_type
    then next (record b { entries = b.entries ++ e ∷ [] })
    else if b.budget_exhausted
    then stop (record b { has_more = true })
    else if leb budget_entries b.kv_count
    then next (record b { budget_exhausted = true; has_more = true })
    else if ltb 0 b.kv_count
        && (ltb 0 budget_bytes && ltb budget_bytes (b.kv_bytes + entry_bytes e))
    then stop (record b { budget_exhausted = true; has_more = true })
    else next (take_kv b e)

-- An index that the log does not hold is skipped.
unfoldable pub extract_at : ℕ → ℕ → Batch → Option LogEntry → Round
unfolding extract_entry
extract_at budget_entries budget_bytes b none = next b
extract_at budget_entries budget_bytes b (some e) = extract_entry budget_entries budget_bytes b e

-- The loop over the `n` indices from `i` on.
unfoldable pub extract_from : RaftLog → ℕ → ℕ → ℕ → ℕ → Batch → Batch
extract_from l budget_entries budget_bytes zero i b = b
extract_from l budget_entries budget_bytes (suc n) i b =
    elim (extract_at budget_entries budget_bytes b (entry_at l i)) [
      | next b' ↦ extract_from l budget_entries budget_bytes n (suc i) b'
      | stop b' ↦ b'
    ]

abbrev pub empty_batch : Batch
empty_batch = record {
  entries = [];
  kv_count = 0;
  kv_bytes = 0;
  budget_exhausted = false;
  has_more = false;
}

-- The entries and `has_more`.
unfoldable pub extract_committed_entries : RaftApply → RaftLog → ℕ → ℕ → List LogEntry × Bool
extract_committed_entries a l budget_entries budget_bytes =
    let b =
      extract_from l budget_entries budget_bytes (a.commit_index - a.last_applied)
        (a.last_applied + 1) empty_batch in
    (b.entries, b.has_more)

-- The loop down over the `n` indices from `i` on.
unfoldable pub any_term : RaftLog → ℕ → ℕ → ℕ → Bool
any_term l term zero i = false
any_term l term (suc n) i = elim (term_at l i == term) [
  | true ↦ true
  | false ↦ any_term l term n (i - 1)
]

unfoldable pub has_committed_current_term_entry : RaftApply → RaftLog → ℕ → Bool
has_committed_current_term_entry a l current_term =
    if ltb 0 l.snapshot_index
      && (leb l.snapshot_index a.commit_index && l.snapshot_term == current_term)
    then true
    else any_term l current_term (a.commit_index - l.snapshot_index) a.commit_index
