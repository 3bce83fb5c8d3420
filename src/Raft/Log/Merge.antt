-- ===== src/Raft/Log/Merge.antt =====
-- `append_entries_from_leader` (raft_log.cpp) against the rule of Raft: an entry that conflicts with
-- the leader's deletes itself and all that follow, then the leader's new entries are appended.
use mathlib.Core.List.{append_assoc}
use native.Mathlib.Decide.{dec_lt}
use adviskv.Base.{
  length-append, length-take_le, ℕ, zero, suc, ◌+◌, ◌-◌, ◌≤◌, ◌<◌, ◌≡◌, refl, ap, ◌∙◌, sym, true,
  false, inl, inr, some, List, [], ◌∷◌, ◌++◌, length, get_elem?, take, drop, eqb, if◌then◌else◌,
  Bool-cases, arith,
}
use adviskv.Model.{LogEntry}
use adviskv.Raft.Log.{MergeState, back_index, term_or_zero, resize, merge_entry, merge_entries}
use adviskv.Raft.Log.Shape.{Contiguous, Contiguous-append, Contiguous-take, back_index-eq}

-- The leader's entries laid over the local ones from the same index on.
abbrev pub overwrite : List LogEntry → List LogEntry → List LogEntry
overwrite [] es = es
overwrite (o ∷ os) [] = o ∷ os
overwrite (o ∷ os) (e ∷ es) = if eqb o.term e.term then o ∷ overwrite os es else e ∷ es

-- The same for entries that follow index `prev`, over a log that follows index `base`.
abbrev pub overwrite_after : ℕ → List LogEntry → ℕ → List LogEntry → List LogEntry
overwrite_after base old prev es =
    take (prev - base) old ++ overwrite (drop (prev - base) old) (drop (base - prev) es)

resize-take : (n : ℕ) (es : List LogEntry) → n ≤ length es → resize n es ≡ take n es
unfolding resize
resize-take zero es h = refl
resize-take (suc n) [] h = elim h [ ]
resize-take (suc n) (e ∷ es) h = ap (λ r. e ∷ r) (resize-take n es (omega arith))

take-append-drop {ℓ} : {A : Type ℓ} (n : ℕ) (xs : List A) → take n xs ++ drop n xs ≡ xs
take-append-drop zero xs = refl
take-append-drop (suc n) [] = refl
take-append-drop (suc n) (x ∷ xs) = ap (λ r. x ∷ r) (take-append-drop n xs)

drop-nil {ℓ} : {A : Type ℓ} (n : ℕ) → drop {A = A} n [] ≡ []
drop-nil zero = refl
drop-nil (suc n) = refl

overwrite-nil : (os : List LogEntry) → overwrite os [] ≡ os
overwrite-nil [] = refl
overwrite-nil (o ∷ os) = refl

overwrite_at_end :
    (j : ℕ) (w es : List LogEntry) → length w ≡ j → take j w ++ overwrite (drop j w) es ≡ w ++ es
overwrite_at_end zero [] es h = refl
overwrite_at_end zero (x ∷ w) es h = absurd (omega arith)
overwrite_at_end (suc j) [] es h = absurd (omega arith)
overwrite_at_end (suc j) (x ∷ w) es h = ap (λ r. x ∷ r) (overwrite_at_end j w es (omega arith))

overwrite_same :
    (i : ℕ) (u es : List LogEntry) (e : LogEntry)
    → i < length u
    → eqb (term_or_zero (get_elem? u i)) e.term ≡ true
    → take i u ++ overwrite (drop i u) (e ∷ es) ≡ take (suc i) u ++ overwrite (drop (suc i) u) es
overwrite_same i [] es e h same = elim h [ ]
overwrite_same zero (x ∷ u) es e h same = rw same
overwrite_same (suc i) (x ∷ u) es e h same =
    ap (λ r. x ∷ r) (overwrite_same i u es e (omega arith) same)

overwrite_conflict :
    (i : ℕ) (u es : List LogEntry) (e : LogEntry)
    → i < length u
    → eqb (term_or_zero (get_elem? u i)) e.term ≡ false
    → take i u ++ overwrite (drop i u) (e ∷ es) ≡ take i u ++ e ∷ es
overwrite_conflict i [] es e h other = elim h [ ]
overwrite_conflict zero (x ∷ u) es e h other = rw other
overwrite_conflict (suc i) (x ∷ u) es e h other =
    ap (λ r. x ∷ r) (overwrite_conflict i u es e (omega arith) other)

-- One round, for an entry that follows index `p` of the leader's log.
abbrev Round : ℕ → ℕ → ℕ → MergeState → LogEntry → Type 0
Round s t p m e =
    (m' : MergeState) × (merge_entry s t m e ≡ some m')
    × ((es : List LogEntry)
        → overwrite_after s m.updated_entries p (e ∷ es)
          ≡ overwrite_after s m'.updated_entries (suc p) es)
    × Contiguous s m'.updated_entries
    × (suc p ≤ s + length m'.updated_entries)

module _ (s t p : ℕ) (m : MergeState) (e : LogEntry) (shape : Contiguous s m.updated_entries)
    (at : e.index ≡ suc p) where
  round_old : p < s → p ≤ s + length m.updated_entries → Round s t p m e
  unfolding merge_entry
  round_old h r = (m, ground arith, λ es. skip es, shape, omega arith)
    where
      skip :
          (es : List LogEntry)
          → overwrite_after s m.updated_entries p (e ∷ es)
            ≡ overwrite_after s m.updated_entries (suc p) es
      skip es =
          let a : s - p ≡ suc (s - suc p) = omega arith in
          let b : p - s ≡ 0 = omega arith in let c : suc p - s ≡ 0 = omega arith in rw (a, b, c)

  round_same :
      s ≤ p
      → p < s + length m.updated_entries
      → eqb (term_or_zero (get_elem? m.updated_entries (p - s))) e.term ≡ true
      → Round s t p m e
  unfolding merge_entry
  round_same h r same = (m, ground (arith, last, place), same_after, shape, omega arith)
    where
      last : back_index s m.updated_entries ≡ s + length m.updated_entries
      last = back_index-eq s m.updated_entries shape

      place : e.index - s - 1 ≡ p - s
      place = omega arith

      same_after :
          (es : List LogEntry)
          → overwrite_after s m.updated_entries p (e ∷ es)
            ≡ overwrite_after s m.updated_entries (suc p) es
      same_after es =
          let a : s - p ≡ 0 = omega arith in
          let b : s - suc p ≡ 0 = omega arith in
          let c : suc p - s ≡ suc (p - s) = omega arith in
          rw (a, b, c) (overwrite_same (p - s) m.updated_entries es e (omega arith) same)

  round_conflict :
      s ≤ p
      → p < s + length m.updated_entries
      → eqb (term_or_zero (get_elem? m.updated_entries (p - s))) e.term ≡ false
      → Round s t p m e
  unfolding merge_entry
  round_conflict h r other = (
    record {
      updated_entries = cut ++ e ∷ [];
      new_entries = m.new_entries ++ e ∷ [];
      need_rewrite_wal = true;
    },
    ground (arith, last, place, resized),
    after,
    contiguous,
    fits,
  )
    where
      last : back_index s m.updated_entries ≡ s + length m.updated_entries
      last = back_index-eq s m.updated_entries shape

      place : e.index - s - 1 ≡ p - s
      place = omega arith

      cut : List LogEntry
      cut = take (p - s) m.updated_entries

      resized : resize (p - s) m.updated_entries ≡ cut
      resized = resize-take (p - s) m.updated_entries (omega arith)

      size : length cut ≡ p - s
      size = length-take_le (p - s) m.updated_entries (omega arith)

      size' : length (cut ++ e ∷ []) ≡ suc (p - s)
      size' = omega (arith, length-append cut (e ∷ []), size)

      contiguous : Contiguous s (cut ++ e ∷ [])
      contiguous =
          Contiguous-append s cut e (Contiguous-take s (p - s) m.updated_entries shape)
            (omega (arith, size))

      fits : suc p ≤ s + length (cut ++ e ∷ [])
      fits = omega (arith, size')

      after :
          (es : List LogEntry)
          → overwrite_after s m.updated_entries p (e ∷ es)
            ≡ overwrite_after s (cut ++ e ∷ []) (suc p) es
      after es =
          let a : s - p ≡ 0 = omega arith in
          let b : s - suc p ≡ 0 = omega arith in
          let c : suc p - s ≡ suc (p - s) = omega arith in
          rw (a, b, c)
            (overwrite_conflict (p - s) m.updated_entries es e (omega arith) other
              ∙ sym (
                  overwrite_at_end (suc (p - s)) (cut ++ e ∷ []) es size'
                  ∙ append_assoc cut (e ∷ []) es))

  round_new : p ≡ s + length m.updated_entries → Round s t p m e
  unfolding merge_entry
  round_new h = (
    record m {
      updated_entries = m.updated_entries ++ e ∷ [];
      new_entries = m.new_entries ++ e ∷ [];
    },
    ground (arith, last),
    after,
    Contiguous-append s m.updated_entries e shape (omega arith),
    omega (arith, size),
  )
    where
      last : back_index s m.updated_entries ≡ s + length m.updated_entries
      last = back_index-eq s m.updated_entries shape

      size : length (m.updated_entries ++ e ∷ []) ≡ suc (length m.updated_entries)
      size = omega (arith, length-append m.updated_entries (e ∷ []))

      after :
          (es : List LogEntry)
          → overwrite_after s m.updated_entries p (e ∷ es)
            ≡ overwrite_after s (m.updated_entries ++ e ∷ []) (suc p) es
      after es =
          let a : s - p ≡ 0 = omega arith in
          let b : s - suc p ≡ 0 = omega arith in
          rw (a, b)
            (overwrite_at_end (p - s) m.updated_entries (e ∷ es) (omega arith)
              ∙ sym (
                  overwrite_at_end (suc p - s) (m.updated_entries ++ e ∷ []) es
                    (omega (arith, size))
                  ∙ append_assoc m.updated_entries (e ∷ []) es))

round :
    (s t p : ℕ) (m : MergeState) (e : LogEntry)
    → Contiguous s m.updated_entries
    → e.index ≡ suc p
    → p ≤ s + length m.updated_entries
    → Round s t p m e
round s t p m e shape at r = elim (dec_lt p s) [
  | yes h ↦ round_old s t p m e shape at h r
  | no h ↦ elim (dec_lt p (s + length m.updated_entries)) [
    | yes k ↦ elim (Bool-cases (eqb (term_or_zero (get_elem? m.updated_entries (p - s))) e.term)) [
      | inl same ↦ round_same s t p m e shape at (omega arith) k same
      | inr other ↦ round_conflict s t p m e shape at (omega arith) k other
    ]
    | no k ↦ round_new s t p m e shape at (omega arith)
  ]
]

-- The whole loop: no gap is met, and the entries are those of the rule.
pub merge_entries_lem :
    (s t p : ℕ) (m : MergeState) (es : List LogEntry)
    → Contiguous s m.updated_entries
    → Contiguous p es
    → p ≤ s + length m.updated_entries
    → (m' : MergeState) × (merge_entries s t m es ≡ some m')
      × (m'.updated_entries ≡ overwrite_after s m.updated_entries p es)
      × Contiguous s m'.updated_entries
unfolding merge_entries
merge_entries_lem s t p m [] shape c r = (
  m,
  refl,
  sym (rw (drop-nil (s - p), overwrite-nil) (take-append-drop _ m.updated_entries)),
  shape,
)
merge_entries_lem s t p m (e ∷ es) shape c r =
    let (m1, done, after, shape1, r1) = round s t p m e shape c.0 r in
    let (m2, rest, eq, shape2) = merge_entries_lem s t (suc p) m1 es shape1 c.1 r1 in
    (m2, rw (done, merge_entries) rest, eq ∙ sym (after es), shape2)
