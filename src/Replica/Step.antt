-- ===== src/Replica/Step.antt =====
-- storage/replica/raft_step.cpp: `RaftEffectExecutor`, which stores the effects of a step before it
-- sends the messages. A store answers with a status; `save`, `rewrite` and `append_batch` stand for
-- storage/persist. The dispatcher is the list of what has been handed to it.
use adviskv.Base.{
  ◌≡◌, Bool, false, not, Option, none, some, List, [], is_empty, ◌⊎◌, if◌then◌else◌, arith,
}
use adviskv.Model.{Status, ok, invalid_argument, fail, LogEntry}
use adviskv.Raft.Election.{RaftMeta}
use adviskv.Raft.Message.{RaftEffects, RaftMessage}

-- `PersistEngine`: the meta store and the log store of one replica.
pub record PersistEngine (D : Type 0) : Type 0 where
  pub save : RaftMeta → D → Status × D
  pub rewrite : List LogEntry → D → Status × D
  pub append_batch : List LogEntry → D → Status × D

module _ {D : Type 0} (persist : PersistEngine D) where
  unfoldable pub save_hard_state : Option RaftMeta → D → Status × D
  save_hard_state none disk = (ok, disk)
  save_hard_state (some meta) disk = persist.save meta disk

  unfoldable pub rewrite_entries : Option (List LogEntry) → D → Status × D
  rewrite_entries none disk = (ok, disk)
  rewrite_entries (some entries) disk = persist.rewrite entries disk

  unfoldable pub append_entries : List LogEntry → D → Status × D
  append_entries entries disk =
      if is_empty entries then (ok, disk) else persist.append_batch entries disk

  abbrev pub both : RaftEffects → Bool
  both fx = elim fx.entries_to_rewrite [
    | none ↦ false
    | some _ ↦ not (is_empty fx.entries_to_append)
  ]

  unfoldable pub persist_effects : RaftEffects → D → Status × D
  unfolding save_hard_state rewrite_entries append_entries
  persist_effects fx disk =
      if both fx
      then (invalid_argument, disk)
      else (let (saved, disk1) = save_hard_state fx.hard_state disk in
          if fail saved
          then (saved, disk1)
          else (let (rewritten, disk2) = rewrite_entries fx.entries_to_rewrite disk1 in
              if fail rewritten
              then (rewritten, disk2)
              else append_entries fx.entries_to_append disk2))

  -- What `execute` does once `step` has returned `status` and the effects: the result, the stores and
  -- the messages handed over. The status of sending is the dispatcher's.
  unfoldable pub execute :
      Status → RaftEffects → (List RaftMessage → Status) → D → Status × D × List RaftMessage
  execute status fx async_send disk =
      let (persisted, disk') = persist_effects fx disk in
      if fail persisted
      then (persisted, disk', [])
      else if fail status
      then (status, disk', [])
      else (async_send fx.messages, disk', fx.messages)

  -- Nothing is sent of a step whose effects could not be stored, or that was refused.
  pub execute_sends_after_persist :
      (status : Status) (fx : RaftEffects) (async_send : List RaftMessage → Status) (disk : D)
      → let (_, _, sent) = execute status fx async_send disk in
        (sent ≡ [])
        ⊎ ((sent ≡ fx.messages)
            × (fail (persist_effects fx disk).0 ≡ false)
            × (fail status ≡ false))
  unfolding execute
  execute_sends_after_persist status fx async_send disk = ground arith
