-- ===== src/Raft/Apply/Batches.antt =====
-- Which committed entries a batch holds (raft_apply.cpp).
use mathlib.Core.List.{append-nil, append_assoc}
use adviskv.Base.{
  ℕ, zero, suc, ◌+◌, ◌-◌, ◌≡◌, ◌≤◌, ◌<◌, refl, ap, ◌∙◌, sym, Bool, true, false, none, some, List,
  [], ◌∷◌, ◌++◌, take, drop, length, get_elem?, get_elem?-within, Bool-cases, Option-cases, inl,
  inr, arith,
}
use adviskv.Model.{LogEntry, is_config_change_op}
use adviskv.Raft.Log.{RaftLog, last_log_index, entry_at}
use adviskv.Raft.Log.Shape.{IsValid, entry_at_above, last_log_index-eq}
use adviskv.Raft.Apply.{
  RaftApply, Batch, next, empty_batch, take_kv, extract_entry, extract_at, extract_from,
  extract_committed_entries,
}

-- The entries that the log holds under the `n` indices from `i` on.
unfoldable pub collect : RaftLog → ℕ → ℕ → List LogEntry
collect l zero i = []
collect l (suc n) i = elim (entry_at l i) [
  | none ↦ collect l n (suc i)
  | some e ↦ e ∷ collect l n (suc i)
]

abbrev pub is_config : LogEntry → Bool
is_config e = is_config_change_op e.op_type

extract_at-config :
    (budget bytes : ℕ) (b : Batch) (e : LogEntry)
    → is_config e ≡ true
    → extract_at budget bytes b (some e) ≡ next (record b { entries = b.entries ++ e ∷ [] })
unfolding extract_at extract_entry
extract_at-config budget bytes b e config = rw config refl

extract_at-kv :
    (budget : ℕ) (b : Batch) (e : LogEntry)
    → is_config e ≡ false
    → b.budget_exhausted ≡ false
    → b.kv_count < budget
    → extract_at budget 0 b (some e) ≡ next (take_kv b e)
unfolding extract_at extract_entry
extract_at-kv budget b e kv fresh room = ground (arith, kv, fresh, room)

-- The round in which the loop passes over a write.
extract_at-skip :
    (budget bytes : ℕ) (b : Batch) (e : LogEntry)
    → is_config e ≡ false
    → b.budget_exhausted ≡ false
    → budget ≤ b.kv_count
    → extract_at budget bytes b (some e)
      ≡ next (record b { budget_exhausted = true; has_more = true })
unfolding extract_at extract_entry
extract_at-skip budget bytes b e kv fresh full = ground (arith, kv, fresh, full)

extract_from-next :
    (l : RaftLog) (budget bytes n i : ℕ) (b b' : Batch)
    → extract_at budget bytes b (entry_at l i) ≡ next b'
    → extract_from l budget bytes (suc n) i b ≡ extract_from l budget bytes n (suc i) b'
unfolding extract_from
extract_from-next l budget bytes n i b b' h = rw (extract_from, h) refl

collect-found :
    (l : RaftLog) (n i : ℕ) (e : LogEntry)
    → entry_at l i ≡ some e
    → collect l (suc n) i ≡ e ∷ collect l n (suc i)
unfolding collect
collect-found l n i e h = rw (collect, h) refl

collect-gone :
    (l : RaftLog) (n i : ℕ) → entry_at l i ≡ none → collect l (suc n) i ≡ collect l n (suc i)
unfolding collect
collect-gone l n i h = rw (collect, h) refl

abbrev Taken : List LogEntry → Bool → Batch → Type 0
Taken es has_more b = (b.entries ≡ es) × (b.has_more ≡ has_more)

extract_at-gone : (budget bytes : ℕ) (b : Batch) → extract_at budget bytes b none ≡ next b
unfolding extract_at
extract_at-gone budget bytes b = refl

push-collect :
    (l : RaftLog) (es : List LogEntry) (n i : ℕ) (e : LogEntry)
    → entry_at l i ≡ some e
    → (es ++ e ∷ []) ++ collect l n (suc i) ≡ es ++ collect l (suc n) i
push-collect l es n i e found =
    append_assoc es (e ∷ []) (collect l n (suc i))
    ∙ ap (λ xs. es ++ xs) (sym (collect-found l n i e found))

extract_within :
    (l : RaftLog) (budget n i : ℕ) (b : Batch)
    → b.budget_exhausted ≡ false
    → b.kv_count + n ≤ budget
    → Taken (b.entries ++ collect l n i) b.has_more (extract_from l budget 0 n i b)
unfolding extract_from collect take_kv
extract_within l budget zero i b fresh room = (sym (append-nil b.entries), refl)
extract_within l budget (suc n) i b fresh room = elim (Option-cases (entry_at l i)) [
  | inl gone ↦
      let round = ap (extract_at budget 0 b) gone ∙ extract_at-gone budget 0 b in
      let (entries, more) = extract_within l budget n (suc i) b fresh (omega (arith, room)) in
      rw (extract_from-next l budget 0 n i b b round)
        (entries ∙ ap (λ xs. b.entries ++ xs) (sym (collect-gone l n i gone)), more)
  | inr (e, found) ↦ elim (Bool-cases (is_config e)) [
    | inl config ↦
        let b' : Batch = record b { entries = b.entries ++ e ∷ [] } in
        let round = ap (extract_at budget 0 b) found ∙ extract_at-config budget 0 b e config in
        let (entries, more) = extract_within l budget n (suc i) b' fresh (omega (arith, room)) in
        rw (extract_from-next l budget 0 n i b b' round)
          (entries ∙ push-collect l b.entries n i e found, more)
    | inr kv ↦
        let b' : Batch = take_kv b e in
        let round =
          ap (extract_at budget 0 b) found
          ∙ extract_at-kv budget b e kv fresh (omega (arith, room)) in
        let (entries, more) = extract_within l budget n (suc i) b' fresh (omega (arith, room)) in
        rw (extract_from-next l budget 0 n i b b' round)
          (entries ∙ push-collect l b.entries n i e found, more)
  ]
]

drop-get_elem? :
    (es : List LogEntry) (k : ℕ) (e : LogEntry)
    → get_elem? es k ≡ some e
    → drop k es ≡ e ∷ drop (suc k) es
drop-get_elem? [] k e h = absurd (ground (arith, h))
drop-get_elem? (x ∷ es) zero e h = ground (arith, h)
drop-get_elem? (x ∷ es) (suc k) e h = drop-get_elem? es k e h

collect-all :
    (l : RaftLog) (n i : ℕ)
    → l.snapshot_index < i
    → i + n ≤ l.snapshot_index + length l.log_entries + 1
    → collect l n i ≡ take n (drop (i - l.snapshot_index - 1) l.log_entries)
unfolding collect
collect-all l zero i above within = refl
collect-all l (suc n) i above within =
    let k = i - l.snapshot_index - 1 in
    let (e, there) = get_elem?-within l.log_entries k (omega (arith, above, within)) in
    let found : entry_at l i ≡ some e = entry_at_above l i above ∙ there in
    let up : suc i - l.snapshot_index - 1 ≡ suc k = omega (arith, above) in
    collect-found l n i e found
    ∙ ap (λ es. e ∷ es) (collect-all l n (suc i) (omega (arith, above)) (omega (arith, within)))
    ∙ rw (up, drop-get_elem? l.log_entries k e there) refl

-- On a well-formed log that holds the entries committed and not applied, where they are no more
-- than the budget allows (and bytes are not limited, as in the replica's loop), a batch is all of
-- them in the order of the log, and nothing is left for a further batch.
pub extract-all :
    (a : RaftApply) (l : RaftLog) (budget : ℕ)
    → IsValid l
    → l.snapshot_index ≤ a.last_applied
    → a.commit_index ≤ last_log_index l
    → a.last_applied ≤ a.commit_index
    → a.commit_index - a.last_applied ≤ budget
    → extract_committed_entries a l budget 0 ≡ (
      take
          (a.commit_index - a.last_applied)
          (drop (a.last_applied - l.snapshot_index) l.log_entries),
      false,
    )
unfolding extract_committed_entries
extract-all a l budget v applied committed order room =
    let n = a.commit_index - a.last_applied in
    let i = a.last_applied + 1 in
    let (entries, more) = extract_within l budget n i empty_batch refl (omega (arith, room)) in
    let last = last_log_index-eq l v in
    let k : i - l.snapshot_index - 1 ≡ a.last_applied - l.snapshot_index = omega (arith, applied) in
    let all = collect-all l n i (omega (arith, applied)) (omega (arith, last, committed, order)) in
    rw (entries, more, all, k) refl

-- The entries under the `n` indices from `i` on are there, and none changes the configuration.
abbrev pub Writes : RaftLog → ℕ → ℕ → Type 0
Writes l zero i = Unit {0}
Writes l (suc n) i =
    ((e : LogEntry) × (entry_at l i ≡ some e) × (is_config e ≡ false)) × Writes l n (suc i)

extract_skips-from :
    (l : RaftLog) (budget n i : ℕ) (b : Batch) (skipped config : LogEntry)
    → b.budget_exhausted ≡ false
    → b.kv_count + n ≡ budget
    → Writes l n i
    → entry_at l (i + n) ≡ some skipped
    → is_config skipped ≡ false
    → entry_at l (i + n + 1) ≡ some config
    → is_config config ≡ true
    → Taken (b.entries ++ collect l n i ++ config ∷ []) true (extract_from l budget 0 (n + 2) i b)
unfolding extract_from collect take_kv
extract_skips-from l budget zero i b skipped config fresh full w s kv c changes =
    let b1 : Batch = record b { budget_exhausted = true; has_more = true } in
    let b2 : Batch = record b1 { entries = b1.entries ++ config ∷ [] } in
    let here : i + 0 ≡ i = omega arith in
    let there : i + 0 + 1 ≡ suc i = omega arith in
    let first =
      ap (extract_at budget 0 b) (rw here at s)
      ∙ extract_at-skip budget 0 b skipped kv fresh (omega (arith, full)) in
    let second =
      ap (extract_at budget 0 b1) (rw there at c) ∙ extract_at-config budget 0 b1 config changes in
    rw
      (
        extract_from-next l budget 0 1 i b b1 first,
        extract_from-next l budget 0 0 (suc i) b1 b2 second,
      )
      (ap (λ es. es ++ config ∷ []) (sym (append-nil b.entries)), refl)
extract_skips-from l budget (suc n) i b skipped config fresh full w s kv c changes =
    let (e, found, write) = w.0 in
    let b' : Batch = take_kv b e in
    let shift : i + suc n ≡ suc i + n = omega arith in
    let two : suc n + 2 ≡ suc (n + 2) = omega arith in
    let round =
      ap (extract_at budget 0 b) found
      ∙ extract_at-kv budget b e write fresh (omega (arith, full)) in
    let (entries, more) =
      extract_skips-from l budget n (suc i) b' skipped config fresh (omega (arith, full)) w.1
        (rw shift at s) kv (rw shift at c) changes in
    let grown = ap (λ es. es ++ config ∷ []) (push-collect l b.entries n i e found) in
    rw (two, extract_from-next l budget 0 (n + 2) i b b' round) (entries ∙ grown, more)

-- Where the writes up to the budget are followed by one more write and then by a change of the
-- configuration, all of them committed, a batch holds the first writes and the change, but not the
-- write between them.
pub extract_skips :
    (a : RaftApply) (l : RaftLog) (budget : ℕ) (skipped config : LogEntry)
    → Writes l budget (a.last_applied + 1)
    → entry_at l (a.last_applied + 1 + budget) ≡ some skipped
    → is_config skipped ≡ false
    → entry_at l (a.last_applied + 1 + budget + 1) ≡ some config
    → is_config config ≡ true
    → a.commit_index ≡ a.last_applied + (budget + 2)
    → extract_committed_entries a l budget 0
      ≡ (collect l budget (a.last_applied + 1) ++ config ∷ [], true)
unfolding extract_committed_entries
extract_skips a l budget skipped config w s kv c changes committed =
    let count : a.commit_index - a.last_applied ≡ budget + 2 = omega (arith, committed) in
    let (entries, more) =
      extract_skips-from l budget budget (a.last_applied + 1) empty_batch skipped config refl
        (omega arith) w s kv c changes in
    rw (count, entries, more) refl
