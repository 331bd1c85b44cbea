-- ===== src/Index/Parse.antt =====
-- src/demuxer.rs: `parse_indx`, `parse_ix_chunk` and `AviIndexType`'s conversions.
use oxideav_avi.Base.{
  ℕ, zero, suc, ◌+◌, ◌-◌, ◌*◌, ◌/◌, ◌%◌, ◌^◌, List, [], ◌∷◌, Bool, true, ◌&&◌, Option, none, some,
  Outcome, ok, ◌>>=◌, length, min, ltb, ◌==◌, if◌then◌else◌, invalid, guard, ◌>>◌, leb,
}
use oxideav_avi.Bytes.{byte_at, u16_at, u32_at, u64_at, fourcc_at, Fourcc}
use oxideav_avi.Index.{
  AviIndexType, of_indexes, of_chunks, is_data, other_type, SuperIndexEntry, SuperIndex,
  StdIndexEntry, StdIndex, default_super_index, avi_index_of_indexes, avi_index_of_chunks,
  avi_index_is_data, avi_index_sub_2field,
}

unfoldable pub index_type_from_raw : ℕ → AviIndexType
index_type_from_raw raw =
    if raw == avi_index_of_indexes
    then of_indexes
    else if raw == avi_index_of_chunks
    then of_chunks
    else if raw == avi_index_is_data
    then is_data
    else other_type raw

unfoldable pub index_type_to_raw : AviIndexType → ℕ
index_type_to_raw of_indexes = avi_index_of_indexes
index_type_to_raw of_chunks = avi_index_of_chunks
index_type_to_raw is_data = avi_index_is_data
index_type_to_raw (other_type raw) = raw

-- Entry `i` and those behind it, `n` in all.
unfoldable pub parse_super_entries : List ℕ → ℕ → ℕ → Outcome (List SuperIndexEntry)
parse_super_entries body zero i = ok []
parse_super_entries body (suc n) i = do
  let base = 24 + i * 16
  qw_offset ← u64_at body base
  dw_size ← u32_at body (base + 8)
  dw_duration ← u32_at body (base + 12)
  rest ← parse_super_entries body n (i + 1)
  ok (record { qw_offset = qw_offset; dw_size = dw_size; dw_duration = dw_duration } ∷ rest)

-- The entry table is read only from an index of indexes that is long enough for its declared count.
unfoldable pub parse_super_table : List ℕ → ℕ → Outcome (List SuperIndexEntry)
parse_super_table body n = do
  guard (leb (24 + n * 16) (length body)) invalid
  parse_super_entries body n 0

unfoldable pub parse_indx : List ℕ → Outcome SuperIndex
parse_indx body = do
  guard (leb 24 (length body)) invalid
  w_longs_per_entry ← u16_at body 0
  b_index_sub_type ← byte_at body 2
  b_index_type ← byte_at body 3
  n_entries_in_use ← u32_at body 4
  chunk_id ← fourcc_at body 8
  r0 ← u32_at body 12
  r1 ← u32_at body 16
  r2 ← u32_at body 20
  let table = parse_super_table body n_entries_in_use
  if b_index_type == avi_index_of_indexes
      then table >>= (λ entries. ok (record {
        w_longs_per_entry = w_longs_per_entry;
        b_index_sub_type = b_index_sub_type;
        b_index_type = b_index_type;
        present = true;
        dw_reserved = (r0, r1, r2);
        chunk_id = chunk_id;
        entries = entries;
        strl_std_index = none;
      }))
      else ok (record default_super_index {
        b_index_type = b_index_type;
        present = true;
        dw_reserved = (r0, r1, r2);
      })

-- `match w_longs_per_entry`: eight or twelve bytes to an entry, or no index.
unfoldable pub entry_size_of : ℕ → ℕ → Option ℕ
entry_size_of w_longs sub_type =
    if w_longs == 2
    then some 8
    else if (w_longs == 3) && (sub_type == avi_index_sub_2field)
    then some 12
    else none

-- `AVISTDINDEX_DELTA_BIT` is bit 31: `raw & bit == 0` and `raw & !bit` of a 32-bit number.
abbrev pub no_delta_bit : ℕ → Bool
no_delta_bit raw = raw / 2 ^ 31 % 2 == 0

abbrev pub without_delta_bit : ℕ → ℕ
without_delta_bit raw = raw % 2 ^ 31

unfoldable pub parse_std_entries : List ℕ → ℕ → ℕ → ℕ → Outcome (List StdIndexEntry)
parse_std_entries body entry_size zero i = ok []
parse_std_entries body entry_size (suc n) i = do
  let base = 24 + i * entry_size
  dw_offset ← u32_at body base
  dw_size_raw ← u32_at body (base + 4)
  dw_offset_field2 ← (if entry_size == 12 then u32_at body (base + 8) else ok 0)
  rest ← parse_std_entries body entry_size n (i + 1)
  ok (
      record {
        dw_offset = dw_offset;
        dw_size = without_delta_bit dw_size_raw;
        is_keyframe = no_delta_bit dw_size_raw;
        dw_offset_field2 = dw_offset_field2;
      }
      ∷ rest)

-- From the entry count on: as many entries as are declared and fit.
unfoldable pub parse_ix_entries : Fourcc → List ℕ → ℕ → ℕ → ℕ → Outcome (Option StdIndex)
parse_ix_entries own_fourcc body b_index_sub_type b_index_type entry_size = do
  declared_n_entries ← u32_at body 4
  chunk_id ← fourcc_at body 8
  qw_base_offset ← u64_at body 12
  dw_reserved3 ← u32_at body 20
  let available_entries = (length body - 24) / entry_size
  entries ← parse_std_entries body entry_size (min declared_n_entries available_entries) 0
  ok (
      some (record {
        own_fourcc = own_fourcc;
        chunk_offset = 0;
        chunk_id = chunk_id;
        qw_base_offset = qw_base_offset;
        b_index_sub_type = b_index_sub_type;
        b_index_type = b_index_type;
        dw_reserved3 = dw_reserved3;
        declared_n_entries = declared_n_entries;
        entries = entries;
      }))

unfoldable pub parse_ix_chunk : Fourcc → List ℕ → Outcome (Option StdIndex)
unfolding parse_ix_entries
parse_ix_chunk own_fourcc body =
    let parsed : Outcome (Option StdIndex) = (do
      w_longs_per_entry ← u16_at body 0
      b_index_sub_type ← byte_at body 2
      b_index_type ← byte_at body 3
      let with_size = parse_ix_entries own_fourcc body b_index_sub_type b_index_type
      if b_index_type == avi_index_of_chunks
          then elim (entry_size_of w_longs_per_entry b_index_sub_type) [
            | none ↦ ok none
            | some entry_size ↦ with_size entry_size
          ]
          else ok none) in
    if ltb (length body) 24 then ok none else parsed
