-- ===== src/Storage/Index.antt =====
-- The offset index of a segment (internal/storage/index.go): the entries in memory, and the bytes of
-- the file. The code's `writtenSize` is the length of the file at every moment.
pub mod Search
use pocketkafka.Prelude.{
  ℕ, zero, suc, ◌+◌, ◌-◌, ◌*◌, ◌/◌, ◌%◌, ◌<◌, Bool, true, Bytes, ltb, eqb, not, if◌then◌else◌,
  length, List, [], ◌∷◌, ◌++◌, drop,
}
use pocketkafka.Prelude.Ints.{ℤ, pos, ◌-ℤ◌, ltb_ℤ, unsigned}
use pocketkafka.Prelude.Words.{be_bytes, be_value}
use pocketkafka.Prelude.Slices.{slice}
use pocketkafka.Storage.Runs.{Run, done, failed, StorageError, eof}

pub record IndexEntry : Type 0 where
  pub relative_offset : ℕ
  pub position : ℕ

abbrev pub index_entry_size : ℕ
index_entry_size = 8

pub record IndexFile : Type 0 where
  pub base_offset : ℤ
  pub interval : ℤ
  pub entries : List IndexEntry
  pub file : Bytes

-- The loop over the read bytes, with the count of whole entries.
unfoldable pub entries_of : ℕ → Bytes → List IndexEntry
entries_of zero buf = []
entries_of (suc n) buf =
    record { relative_offset = be_value (slice 0 4 buf); position = be_value (slice 4 4 buf) }
    ∷ entries_of n (drop 8 buf)

-- The file is cut to whole entries, but the buffer has the size from before, so that ReadAt, past
-- the end of the file, returns io.EOF.
unfoldable pub open_index : Bytes → ℤ → ℤ → Run IndexFile
open_index file base_offset interval =
    if not (eqb (length file % index_entry_size) 0)
    then failed eof
    else done (record {
      base_offset = base_offset;
      interval = interval;
      entries = entries_of (length file / index_entry_size) file;
      file = file;
    })

abbrev pub last_position : List IndexEntry → ℕ
last_position [] = 0
last_position (e ∷ []) = e.position
last_position (e ∷ e' ∷ es) = last_position (e' ∷ es)

unfoldable pub entry_of : IndexFile → ℤ → ℕ → IndexEntry
entry_of idx absolute_offset position = record {
  relative_offset = unsigned 32 (absolute_offset -ℤ idx.base_offset);
  position = unsigned 32 (pos position);
}

unfoldable pub append : IndexFile → ℤ → ℕ → IndexFile
append idx absolute_offset position =
    let e = entry_of idx absolute_offset position in
    record {
      base_offset = idx.base_offset;
      interval = idx.interval;
      entries = idx.entries ++ e ∷ [];
      file = idx.file ++ (be_bytes 4 e.relative_offset ++ be_bytes 4 e.position);
    }

unfoldable pub maybe_append : IndexFile → ℤ → ℕ → IndexFile
maybe_append idx absolute_offset position =
    if ltb_ℤ (pos position -ℤ pos (last_position idx.entries)) idx.interval
    then idx
    else append idx absolute_offset position

-- sort.Search: the least index below `j`, and from `i` on, at which the test passes, or `j`.
unfoldable pub search_loop : ℕ → (ℕ → Bool) → ℕ → ℕ → ℕ
search_loop zero test i j = i
search_loop (suc fuel) test i j =
    let h = (i + j) / 2 in
    elim (ltb i j) [
      | true ↦ elim (test h) [
        | true ↦ search_loop fuel test i h
        | _ ↦ search_loop fuel test (h + 1) j
      ]
      | _ ↦ i
    ]

unfoldable pub search : ℕ → (ℕ → Bool) → ℕ
search n test = search_loop n test 0 n

-- The test of an entry, with the entry's index; the search asks for no index out of range.
unfoldable pub is_beyond : List IndexEntry → ℕ → ℕ → Bool
is_beyond [] rel i = true
is_beyond (e ∷ es) rel zero = ltb rel e.relative_offset
is_beyond (e ∷ es) rel (suc i) = is_beyond es rel i

unfoldable pub position_at : List IndexEntry → ℕ → ℕ
position_at [] i = 0
position_at (e ∷ es) zero = e.position
position_at (e ∷ es) (suc i) = position_at es i

unfoldable pub position_below : List IndexEntry → ℕ → ℕ
position_below es zero = 0
position_below es (suc i) = position_at es i

-- An index without entries is a case of its own in the code.
unfoldable pub position_for_offset : IndexFile → ℤ → ℕ
position_for_offset idx target_offset =
    let rel = unsigned 32 (target_offset -ℤ idx.base_offset) in
    let n = length idx.entries in
    if eqb n 0 then 0 else position_below idx.entries (search n (is_beyond idx.entries rel))

unfoldable pub reset : IndexFile → IndexFile
reset idx = record {
  base_offset = idx.base_offset;
  interval = idx.interval;
  entries = [];
  file = [];
}
