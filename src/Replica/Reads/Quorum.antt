-- ===== src/Replica/Reads/Quorum.antt =====
-- The voters that confirm a read are a quorum (storage/replica/read_tracker.cpp).
use mathlib.Core.List.{Memᴰ}
use adviskv.Base.{ℕ, ◌≡◌, true, String, List, [], ◌∷◌, All, contains, Dict, nat_eq}
use adviskv.Model.{Status, ReplicaId, replica_id_eq}
use adviskv.Raft.Election.{is_leader}
use adviskv.Raft.Core.{RaftCore, current_term}
use adviskv.Raft.Membership.Quorum.{NoDuplicates}
use adviskv.Kv.{KvStateMachine}
use adviskv.Replica.Completions.{Completions}
use adviskv.Replica.Reads.{
  PendingRead, ReadTracker, establish, on_read_quorum_response, advance, fail_all,
}

-- What happens to a tracker, the core and the machine being those of the moment. `others` is what
-- callers do meanwhile: new completions, and timeouts.
pub data ReadEvent : Type 0 where
  established : RaftCore → String → ℕ → ReadEvent
  responded : ReplicaId → ℕ → ℕ → ReadEvent
  advanced : RaftCore → KvStateMachine → ReadEvent
  failed : Status → ReadEvent
  others : Completions → ReadEvent

-- Who has confirmed that the leader of the read's term leads: a replica that answered the check of
-- this read in that term, or the leader itself, which took up the read.
pub data Confirms (past : List ReadEvent) (seq : ℕ) (read : PendingRead) (v : ReplicaId)
    : Type 0 where
  answered : Memᴰ (responded v seq read.read_term) past → Confirms past seq read v
  leads :
      {c : RaftCore}
      → Memᴰ (established c read.key read.completion) past
      → c.self_id ≡ v
      → is_leader c.election ≡ true
      → current_term c ≡ read.read_term
      → Confirms past seq read v

-- The confirmed voters of a read are voters, each counted once, and each has confirmed.
pub record IsConfirmed (past : List ReadEvent) (seq : ℕ) (read : PendingRead) : Type 0 where
  pub once : NoDuplicates read.confirmed_voters
  pub voters : All (λ v. contains read.voter_ids v ≡ true) read.confirmed_voters
  pub heard : All (Confirms past seq read) read.confirmed_voters

abbrev pub AllConfirmed : List ReadEvent → Dict ℕ PendingRead → Type 0
AllConfirmed past reads = All (λ p. IsConfirmed past p.0 p.1) reads

unfoldable pub read_step : ReadEvent → ReadTracker × Completions → ReadTracker × Completions
read_step (established c key id) (t, cs) = let (_, t', _) = establish c key id cs t in (t', cs)
read_step (responded sender seq term) (t, cs) = (on_read_quorum_response sender seq term cs t, cs)
read_step (advanced c s) (t, cs) = let (t', cs', _) = advance c s t cs in (t', cs')
read_step (failed status) (t, cs) = fail_all status t cs
read_step (others cs') (t, cs) = (t, cs')

unfoldable pub run_reads : List ReadEvent → ReadTracker × Completions → ReadTracker × Completions
run_reads [] st = st
run_reads (ev ∷ evs) st = run_reads evs (read_step ev st)
