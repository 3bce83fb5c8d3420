-- ===== src/Raft/Log/Requests.antt =====
-- The request index (raft_log.cpp, `request_index_`) finds what a scan of the log would find.
use adviskv.Base.{
  ℕ, suc, ◌-◌, ◌<◌, ◌≡◌, ◌≢◌, ap, ◌∙◌, String, ◌&&◌, Option, none, some, List, [], ◌∷◌, ◌==◌,
  string_eq, Dict, lookup, lookup-emplace, or_default, if◌then◌else◌, Bool-cases, Option-cases, inl,
  inr, get_elem?, arith,
}
use adviskv.Model.{LogEntry, is_kv_write_op}
use adviskv.Raft.Log.{RaftLog, index_request_id, index_requests, find_request}
use adviskv.Raft.Log.Shape.{Contiguous, IsValid, entry_at_above}

-- A scan for the first write with the request id.
abbrev pub first_request : String → List LogEntry → Option LogEntry
first_request id [] = none
first_request id (e ∷ es) =
    if e.request_id == id && is_kv_write_op e.op_type then some e else first_request id es

abbrev or_index : Option ℕ → Option LogEntry → Option ℕ
or_index (some i) o = some i
or_index none none = none
or_index none (some e) = some e.index

lookup-index_request_id :
    (id : String) (e : LogEntry) (m : Dict String ℕ)
    → id ≢ ""
    → lookup id (index_request_id e m) ≡ (
        if e.request_id == id && is_kv_write_op e.op_type
        then some (or_default e.index (lookup id m))
        else lookup id m)
unfolding index_request_id
lookup-index_request_id id e m h = ground (
  arith,
  lookup-emplace e.request_id id e.index m,
  string_eq.same_iff e.request_id id,
  string_eq.same_iff e.request_id "",
)

lookup-index_requests :
    (id : String) (m : Dict String ℕ) (es : List LogEntry)
    → id ≢ ""
    → lookup id (index_requests m es) ≡ or_index (lookup id m) (first_request id es)
unfolding index_requests
lookup-index_requests id m [] h = ground arith
lookup-index_requests id m (e ∷ es) h =
    lookup-index_requests id (index_request_id e m) es h
    ∙ ground (arith, lookup-index_request_id id e m h)

first_request-place :
    (base : ℕ) (id : String) (es : List LogEntry) (e : LogEntry)
    → Contiguous base es
    → first_request id es ≡ some e
    → (base < e.index) × (get_elem? es (e.index - base - 1) ≡ some e)
first_request-place base id [] e c h = cc
first_request-place base id (x ∷ es) e c h =
    elim (Bool-cases (x.request_id == id && is_kv_write_op x.op_type)) [
      | inl hit ↦
          let same : x ≡ e = cc (rw hit at h) in
          let place : e.index ≡ suc base = rw (← same) (c.0) in
          let offset : e.index - base - 1 ≡ 0 = omega arith in
          (omega arith, rw offset (ap some same))
      | inr miss ↦
          let (above, found) = first_request-place (suc base) id es e c.1 (rw miss at h) in
          let offset : e.index - base - 1 ≡ suc (e.index - suc base - 1) = omega arith in
          (omega arith, rw offset found)
    ]

-- On a well-formed log the index finds, for every request id that is not empty, the first write
-- that carries it, and nothing when the log has no such write.
pub find_request-first :
    (l : RaftLog) (id : String)
    → IsValid l
    → id ≢ ""
    → find_request l id ≡ first_request id l.log_entries
unfolding find_request lookup
find_request-first l id v h = elim (Option-cases (first_request id l.log_entries)) [
  | inl missing ↦ ground (arith, v.indexed, string_eq.same_iff id "", missing, found)
  | inr (e, hit) ↦
      let (above, place) =
        first_request-place l.snapshot_index id l.log_entries e v.contiguous hit in
      ground (
        arith,
        v.indexed,
        string_eq.same_iff id "",
        hit,
        found,
        entry_at_above l e.index above,
        place,
      )
]
  where
    found : lookup id l.request_index ≡ or_index none (first_request id l.log_entries)
    found = rw v.indexed (lookup-index_requests id [] l.log_entries h)
