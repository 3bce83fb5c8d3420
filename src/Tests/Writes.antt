-- ===== src/Tests/Writes.antt =====
-- A run of the tracker of writes.
use mathlib.Core.List.{Memᴰ}
use adviskv.Base.{
  ◌≡◌, refl, string_eq, String, true, false, List, [], ◌∷◌, All, length, Dict, lookup, assign,
}
use adviskv.Base.Distinct.{Distinct}
use adviskv.Model.{ok, WriteOpType}
use adviskv.Raft.Core.{new_core}
use adviskv.Replica.Completions.{
  new_completion, Completions, needs_result, waits, finish, finish_found, finish_all, complete,
  complete_in, Answered,
}
use adviskv.Replica.Proposals.{
  Entry, told, ProposeCall, submit_calls, advance, advance_entries, commit_entry, commit_answers,
  commits, is_applied, applied_answers,
}
use adviskv.Replica.Proposals.Fresh.{IsNew, submit_calls-IsNew}
use adviskv.Replica.Proposals.Answers.{AnswerFor, earned_answers}
use adviskv.Replica.Proposals.Settle.{is_due, due_write_ends}
use adviskv.Tests.{put_param}
use adviskv.Tests.Machine.{machine, no_hash}
use adviskv.Tests.Node.{leading}

abbrev put_entry_of_7 : Entry
put_entry_of_7 = record {
  op = WriteOpType.put;
  payload_hash = 0;
  index = 5;
  committed = false;
  completions = 7 ∷ [];
}

abbrev one_write : Dict String Entry
one_write = ("w", put_entry_of_7) ∷ []

abbrev writer : Completions
writer = (7, new_completion) ∷ []

writer-waits : needs_result 7 writer ≡ true
unfolding needs_result waits lookup
writer-waits = refl

writer-Answered : Answered (advance leading machine one_write writer).1 7 (told ok)
unfolding advance advance_entries commit_entry commit_answers commits is_applied applied_answers
    finish finish_found finish_all complete complete_in assign lookup new_core
writer-Answered = refl

earned_answers_example : AnswerFor leading machine one_write 7 (told ok)
earned_answers_example =
    earned_answers leading machine one_write writer 7 (told ok) writer-waits writer-Answered

write-due : is_due leading machine put_entry_of_7 ≡ true
unfolding is_due new_core
write-due = refl

due_write_ends_example : needs_result 7 (advance leading machine one_write writer).1 ≡ false
due_write_ends_example =
    due_write_ends leading machine one_write writer "w" put_entry_of_7 7 (Memᴰ.head refl) write-due
      (Memᴰ.head refl)

abbrev twice : List ProposeCall
twice =
    record { param = put_param; completion = 7 } ∷ record { param = put_param; completion = 8 } ∷ []

submit_calls-IsNew_example :
    let st =
      submit_calls no_hash leading machine twice
        (record { entries = one_write; completions = writer; params = []; candidate_ids = [] }) in
    Distinct st.candidate_ids
    × All (IsNew one_write leading machine) st.candidate_ids
    × (length st.params ≡ length st.candidate_ids)
submit_calls-IsNew_example = submit_calls-IsNew no_hash leading machine one_write twice writer
