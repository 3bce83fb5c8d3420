-- ===== src/Wal.antt =====
-- storage/persist/wal_store.cpp: reading the log file back, and its recovery after a crash. The file
-- is the list of what `decode_crc` finds in it, record by record; the codec, the flushing and the
-- renaming of files are left out.
pub mod Recovery
use adviskv.Base.{
  ℕ, ◌+◌, Bool, true, false, not, Option, none, some, List, [], ◌∷◌, keep, ltb, ◌==◌, nat_eq,
  if◌then◌else◌,
}
use adviskv.Model.{LogEntry}

-- A partial record is read like a corrupt one.
pub data WalRecord : Type 0 where
  decoded : LogEntry → WalRecord
  corrupt : WalRecord

pub record WalReadResult : Type 0 where
  pub entries : List LogEntry
  pub error : Bool

abbrev pub follows : Option ℕ → LogEntry → Bool
follows none e = true
follows (some prev_index) e = e.index == prev_index + 1

abbrev push_front : LogEntry → WalReadResult → WalReadResult
push_front e result = record result { entries = e ∷ result.entries }

-- The loop of `read_wal_from_disk`, from the previous index on.
unfoldable pub read_wal : Option ℕ → List WalRecord → WalReadResult
read_wal prev_index [] = record { entries = []; error = false }
read_wal prev_index (corrupt ∷ rs) = record { entries = []; error = true }
read_wal prev_index (decoded e ∷ rs) =
    let rest = push_front e (read_wal (some e.index) rs) in
    if follows prev_index e then rest else record { entries = []; error = true }

pub record RecoverResult : Type 0 where
  pub wal_entries : List LogEntry
  pub need_recover : Bool

abbrev pub starts_after : ℕ → List LogEntry → Bool
starts_after snapshot_index [] = true
starts_after snapshot_index (e ∷ es) = e.index == snapshot_index + 1

-- The entries that `recover` returns are also those to which it rewrites the file.
unfoldable pub recover : ℕ → List WalRecord → RecoverResult
unfolding read_wal
recover snapshot_index file =
    let result = read_wal none file in
    let entries = keep (λ e. ltb snapshot_index e.index) result.entries in
    if not (starts_after snapshot_index entries)
    then record { wal_entries = []; need_recover = true }
    else record { wal_entries = entries; need_recover = result.error }
