-- ===== src/Wal/Recovery.antt =====
-- What recovery returns (storage/persist/wal_store.cpp).
use adviskv.Base.{
  ℕ, zero, suc, ◌+◌, ◌-◌, ◌≤◌, ◌<◌, ◌≡◌, refl, sym, subst, true, false, none, some, List, [], ◌∷◌,
  map, keep, ltb, leb, leb→le, drop, length, Bool-cases, inl, inr, arith,
}
use adviskv.Model.{LogEntry}
use adviskv.Raft.Log.Shape.{Contiguous, Contiguous-drop}
use adviskv.Wal.{WalRecord, decoded, corrupt, read_wal, recover, starts_after, follows}

-- The entries number consecutively from the first one on, whichever that is.
abbrev pub Linked : List LogEntry → Type 0
Linked [] = Unit {0}
Linked (e ∷ es) = Contiguous e.index es

read_wal-Contiguous : (i : ℕ) (rs : List WalRecord) → Contiguous i (read_wal (some i) rs).entries
unfolding read_wal
read_wal-Contiguous i [] = tt
read_wal-Contiguous i (corrupt ∷ rs) = tt
read_wal-Contiguous i (decoded e ∷ rs) = ground (arith, read_wal-Contiguous e.index rs)

read_wal-Linked : (rs : List WalRecord) → Linked (read_wal none rs).entries
unfolding read_wal
read_wal-Linked [] = tt
read_wal-Linked (corrupt ∷ rs) = tt
read_wal-Linked (decoded e ∷ rs) = read_wal-Contiguous e.index rs

keep_all :
    (s base : ℕ) (es : List LogEntry)
    → Contiguous base es
    → s ≤ base
    → keep (λ e. ltb s e.index) es ≡ es
keep_all s base [] c h = refl
keep_all s base (e ∷ es) c h =
    let above : ltb s e.index ≡ true = ground (arith, c.0) in
    rw (above, keep_all s (suc base) es c.1 (omega arith)) refl

abbrev no_entries : List LogEntry
no_entries = []

drop-nil : (n : ℕ) → drop n no_entries ≡ []
drop-nil zero = refl
drop-nil (suc n) = refl

-- What a snapshot at `s` leaves of consecutive entries that begin at or before it.
keep_above :
    (s base : ℕ) (es : List LogEntry)
    → Contiguous base es
    → base ≤ s
    → keep (λ e. ltb s e.index) es ≡ drop (s - base) es
keep_above s base [] c h = sym (drop-nil (s - base))
keep_above s base (e ∷ es) c h = elim (Bool-cases (ltb s e.index)) [
  | inl above ↦
      let same : s - base ≡ 0 = ground (arith, c.0) in
      rw (above, same, keep_all s (suc base) es c.1 (ground (arith, c.0))) refl
  | inr below ↦
      let later : s - base ≡ suc (s - suc base) = ground (arith, c.0) in
      rw (below, later) (keep_above s (suc base) es c.1 (ground (arith, c.0)))
]

kept_Contiguous :
    (s base : ℕ) (es : List LogEntry)
    → Contiguous base es
    → starts_after s (keep (λ e. ltb s e.index) es) ≡ true
    → Contiguous s (keep (λ e. ltb s e.index) es)
kept_Contiguous s base [] c h = tt
kept_Contiguous s base (e ∷ es) c h = elim (Bool-cases (ltb s e.index)) [
  | inl above ↦
      let start : e.index ≡ s + 1 = ground (arith, rw above at h) in
      let same : base ≡ s = omega (arith, c.0, start) in
      rw (above, keep_all s (suc base) es c.1 (omega (arith, same)))
        (omega (arith, start), subst (λ i. Contiguous (suc i) es) same c.1)
  | inr below ↦ rw below (kept_Contiguous s (suc base) es c.1 (rw below at h))
]

kept_Linked :
    (s : ℕ) (es : List LogEntry)
    → Linked es
    → starts_after s (keep (λ e. ltb s e.index) es) ≡ true
    → Contiguous s (keep (λ e. ltb s e.index) es)
kept_Linked s [] c h = tt
kept_Linked s (e ∷ es) c h = elim (Bool-cases (ltb s e.index)) [
  | inl above ↦
      let start : e.index ≡ suc s = ground (arith, rw above at h) in
      rw (above, keep_all s e.index es c (omega (arith, start)))
        (start, subst (λ i. Contiguous i es) start c)
  | inr below ↦ rw below (kept_Contiguous s e.index es c (rw below at h))
]

-- Whatever the file holds, corrupt records included, the recovered entries number consecutively from
-- the snapshot on.
pub recover-Contiguous : (s : ℕ) (file : List WalRecord) → Contiguous s (recover s file).wal_entries
unfolding recover
recover-Contiguous s file =
    let es = keep (λ e. ltb s e.index) (read_wal none file).entries in
    elim (Bool-cases (starts_after s es)) [
      | inl fits ↦ rw fits (kept_Linked s (read_wal none file).entries (read_wal-Linked file) fits)
      | inr gap ↦ rw gap tt
    ]

read_wal-intact :
    (i : ℕ) (es : List LogEntry)
    → Contiguous i es
    → read_wal (some i) (map decoded es) ≡ record { entries = es; error = false }
unfolding read_wal
read_wal-intact i [] c = refl
read_wal-intact i (e ∷ es) c =
    let next : follows (some i) e ≡ true = ground (arith, c.0) in
    rw (next, read_wal-intact e.index es (rw c.0 c.1)) refl

read_wal-decoded :
    (base : ℕ) (es : List LogEntry)
    → Contiguous base es
    → read_wal none (map decoded es) ≡ record { entries = es; error = false }
unfolding read_wal
read_wal-decoded base [] c = refl
read_wal-decoded base (e ∷ es) c =
    rw (read_wal-intact e.index es (subst (λ i. Contiguous i es) (sym c.0) c.1)) refl

starts_after-Contiguous : (s : ℕ) (es : List LogEntry) → Contiguous s es → starts_after s es ≡ true
starts_after-Contiguous s [] c = refl
starts_after-Contiguous s (e ∷ es) c = ground (arith, c.0)

drop-beyond : (n : ℕ) (es : List LogEntry) → length es < n → drop n es ≡ []
drop-beyond zero es h = elim h [ ]
drop-beyond (suc n) [] h = refl
drop-beyond (suc n) (e ∷ es) h = drop-beyond n es (omega arith)

starts_after-drop :
    (s base : ℕ) (es : List LogEntry)
    → Contiguous base es
    → base ≤ s
    → starts_after s (drop (s - base) es) ≡ true
starts_after-drop s base es c h = elim (Bool-cases (leb (s - base) (length es))) [
  | inl within ↦ starts_after-Contiguous s _ (
      subst (λ i. Contiguous i (drop (s - base) es)) (omega arith)
        (Contiguous-drop base (s - base) es c (leb→le (s - base) (length es) within)))
  | inr beyond ↦ rw (drop-beyond (s - base) es (ground arith)) refl
]

-- A file of consecutive entries that begin at most right after the snapshot is recovered in full:
-- what the snapshot covers is left out, and nothing has to be recovered from the leader.
pub recover_intact :
    (s base : ℕ) (es : List LogEntry)
    → Contiguous base es
    → base ≤ s
    → recover s (map decoded es) ≡ record { wal_entries = drop (s - base) es; need_recover = false }
unfolding recover
recover_intact s base es c h =
    rw (read_wal-decoded base es c, keep_above s base es c h, starts_after-drop s base es c h) refl
