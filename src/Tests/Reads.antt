-- ===== src/Tests/Reads.antt =====
-- Runs of the trackers of a replica.
use mathlib.Core.List.{Memᴰ}
use adviskv.Base.{◌≡◌, refl, false, List, [], ◌∷◌}
use adviskv.Raft.Core.{RaftCore, new_core}
use adviskv.Replica.Completions.{Completions, new_completion, needs_result}
use adviskv.Replica.Reads.{ReadTracker, PendingRead, advance}
use adviskv.Replica.Reads.Settle.{must_wait, ready_read_ends}
use adviskv.Replica.Reads.Quorum.{ReadEvent, established, responded, others}
use adviskv.Tests.{replica}
use adviskv.Tests.Machine.{machine}
use adviskv.Tests.Node.{leading}

abbrev reading : RaftCore
reading = record leading { raft_apply = record { commit_index = 5; last_applied = 5 } }

abbrev caller : Completions
caller = (7, new_completion) ∷ []

abbrev confirmed_read : PendingRead
confirmed_read = record {
  key = "k";
  completion = 7;
  read_index = 5;
  read_term = 2;
  voter_ids = replica 1 ∷ replica 2 ∷ replica 3 ∷ [];
  confirmed_voters = replica 2 ∷ replica 1 ∷ [];
}

abbrev one_read : ReadTracker
one_read = record { pending_reads = (1, confirmed_read) ∷ []; next_read_seq = 2; checking = false }

abbrev read_run : List ReadEvent
read_run = others caller ∷ established reading "k" 7 ∷ responded (replica 2) 1 2 ∷ []

confirmed-ready : must_wait reading machine confirmed_read ≡ false
unfolding must_wait new_core
confirmed-ready = refl

ready_read_ends_example :
    let (_, cs', _) = advance reading machine one_read caller in needs_result 7 cs' ≡ false
ready_read_ends_example =
    ready_read_ends reading machine one_read caller 1 confirmed_read refl (Memᴰ.head refl)
      confirmed-ready
