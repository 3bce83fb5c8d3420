-- ===== src/Raft/Log/Shape.antt =====
-- The shape of a log (raft_log.cpp): entries number consecutively from the snapshot on, and the
-- request index is the one that a rebuild makes.
use adviskv.Base.{
  ℕ, zero, suc, ◌+◌, ◌-◌, ◌≤◌, ◌<◌, ◌≡◌, refl, ◌∙◌, String, some, List, [], ◌∷◌, ◌++◌, length,
  get_elem?, take, drop, arith, Dict,
}
use adviskv.Model.{LogEntry}
use adviskv.Raft.Log.{
  RaftLog, back_index, last_log_index, get_term, entry_at, term_or_zero, index_request_id,
  index_requests, rebuild_request_index,
}

abbrev pub Contiguous : ℕ → List LogEntry → Type 0
Contiguous base [] = Unit {0}
Contiguous base (e ∷ es) = (e.index ≡ suc base) × Contiguous (suc base) es

pub record IsValid (l : RaftLog) : Type 0 where
  pub contiguous : Contiguous l.snapshot_index l.log_entries
  pub indexed : l.request_index ≡ index_requests [] l.log_entries

pub Contiguous-append :
    (base : ℕ) (es : List LogEntry) (e : LogEntry)
    → Contiguous base es
    → e.index ≡ base + length es + 1
    → Contiguous base (es ++ e ∷ [])
Contiguous-append base [] e c h = (omega arith, tt)
Contiguous-append base (x ∷ es) e c h = (c.0, Contiguous-append (suc base) es e c.1 (omega arith))

pub Contiguous-take :
    (base n : ℕ) (es : List LogEntry) → Contiguous base es → Contiguous base (take n es)
Contiguous-take base zero es c = tt
Contiguous-take base (suc n) [] c = tt
Contiguous-take base (suc n) (x ∷ es) c = (c.0, Contiguous-take (suc base) n es c.1)

pub Contiguous-drop :
    (base n : ℕ) (es : List LogEntry)
    → Contiguous base es
    → n ≤ length es
    → Contiguous (base + n) (drop n es)
Contiguous-drop base zero es c h = let e : base + zero ≡ base = omega arith in rw e c
Contiguous-drop base (suc n) [] c h = elim h [ ]
Contiguous-drop base (suc n) (x ∷ es) c h =
    let e : base + suc n ≡ suc base + n = omega arith in
    rw e (Contiguous-drop (suc base) n es c.1 (omega arith))

pub back_index-eq :
    (base : ℕ) (es : List LogEntry) → Contiguous base es → back_index base es ≡ base + length es
unfolding back_index
back_index-eq base [] c = omega arith
back_index-eq base (e ∷ es) c =
    let i : e.index ≡ suc base = c.0 in rw i (back_index-eq (suc base) es c.1 ∙ omega arith)

pub last_log_index-eq :
    (l : RaftLog) → IsValid l → last_log_index l ≡ l.snapshot_index + length l.log_entries
unfolding last_log_index
last_log_index-eq l v = back_index-eq l.snapshot_index l.log_entries v.contiguous

-- An entry is found under its own index.
pub get_elem?-Contiguous :
    (base : ℕ) (es : List LogEntry) (i : ℕ) (e : LogEntry)
    → Contiguous base es
    → get_elem? es i ≡ some e
    → e.index ≡ base + i + 1
get_elem?-Contiguous base [] i e c h = cc
get_elem?-Contiguous base (x ∷ es) zero e c h = ground arith
get_elem?-Contiguous base (x ∷ es) (suc i) e c h =
    omega (arith, get_elem?-Contiguous (suc base) es i e c.1 h)

pub get_term_above :
    (s t : ℕ) (es : List LogEntry) (i : ℕ)
    → s < i
    → get_term s t es i ≡ term_or_zero (get_elem? es (i - s - 1))
unfolding get_term
get_term_above s t es i h = ground arith

pub entry_at_above :
    (l : RaftLog) (i : ℕ)
    → l.snapshot_index < i
    → entry_at l i ≡ get_elem? l.log_entries (i - l.snapshot_index - 1)
unfolding entry_at
entry_at_above l i h = ground arith

-- Whatever `entry_at` returns carries the index that was asked for.
pub entry_at-index :
    (l : RaftLog) (i : ℕ) (e : LogEntry) → IsValid l → entry_at l i ≡ some e → e.index ≡ i
unfolding entry_at
entry_at-index l i e v h = ground (
  arith,
  get_elem?-Contiguous l.snapshot_index l.log_entries (i - l.snapshot_index - 1) e v.contiguous,
)

pub index_requests-append :
    (m : Dict String ℕ) (es : List LogEntry) (e : LogEntry)
    → index_requests m (es ++ e ∷ []) ≡ index_request_id e (index_requests m es)
unfolding index_requests
index_requests-append m [] e = refl
index_requests-append m (x ∷ es) e = index_requests-append (index_request_id x m) es e

pub rebuild-IsValid :
    (l : RaftLog) → Contiguous l.snapshot_index l.log_entries → IsValid (rebuild_request_index l)
unfolding rebuild_request_index
rebuild-IsValid l c = record { contiguous = c; indexed = refl }
