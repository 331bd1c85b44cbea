-- ===== src/Tests/Indexes.antt =====
-- The OpenDML indexes and `idx1` at concrete inputs.
use oxideav_avi.Base.{
  ℕ, ◌+◌, ◌^◌, ◌≡◌, List, [], ◌∷◌, ◌++◌, Option, none, some, ok, arith, true, false, ◌>>=◌, map,
  take, replicate,
}
use oxideav_avi.Bytes.{Fourcc, fourcc}
use oxideav_avi.Index.{IxStdEntry, IxChunkRecord, StdIndex}
use oxideav_avi.Index.Parse.{parse_ix_chunk, parse_indx}
use oxideav_avi.Index.Write.{ix_payload, super_payload}
use oxideav_avi.Index.Standard.{parse_ix_chunk-ix_payload}
use oxideav_avi.Index.Super.{
  entry_of, records_bytes, super_head, super_payload-eq, parse_indx-super_payload,
}
use oxideav_avi.Index.Total.{FitsBody, SuperResult, parse_ix_chunk_total, parse_indx_total}
use oxideav_avi.Seek.{IdxEntry, StreamInfo}
use oxideav_avi.Idx1.{
  IndexEntry, serialize_idx1, raw_entries, base_offset, locate, build_idx_table,
  scan_idx1_sideband_counts, compute_palette_change_positions,
}
use oxideav_avi.Idx1.Table.{raw_entries-serialize_idx1, build_idx_table_lem, erase, Rising}
use oxideav_avi.Idx1.Sideband.{Counts, scan_idx1_sideband_counts-positions}

abbrev ix_00 : Fourcc
ix_00 = fourcc b'i' b'x' b'0' b'0'

abbrev dc_00 : Fourcc
dc_00 = fourcc b'0' b'0' b'd' b'c'

abbrev pc_00 : Fourcc
pc_00 = fourcc b'0' b'0' b'p' b'c'

abbrev two_entries : List IxStdEntry
two_entries =
    record { dw_offset = 300; dw_size_with_flag = 4000; dw_offset_field2 = 0 }
    ∷ record { dw_offset = 4308; dw_size_with_flag = 0x80000000 + 5; dw_offset_field2 = 0 }
    ∷ []

parse_ix_chunk-ix_payload_example :
    parse_ix_chunk ix_00 (ix_payload false dc_00 2048 two_entries ++ 0 ∷ [])
    ≡ ok (
        some (record {
          own_fourcc = ix_00;
          chunk_offset = 0;
          chunk_id = dc_00;
          qw_base_offset = 2048;
          b_index_sub_type = 0;
          b_index_type = 1;
          dw_reserved3 = 0;
          declared_n_entries = 2;
          entries =
              record { dw_offset = 300; dw_size = 4000; is_keyframe = true; dw_offset_field2 = 0 }
              ∷ record { dw_offset = 4308; dw_size = 5; is_keyframe = false; dw_offset_field2 = 0 }
              ∷ [];
        }))
parse_ix_chunk-ix_payload_example =
    parse_ix_chunk-ix_payload ix_00 dc_00 false 2048 two_entries (0 ∷ []) (omega arith)
      (omega arith)
      (
        record {
          dw_offset = omega arith;
          dw_size_with_flag = omega arith;
          dw_offset_field2 = omega arith;
        },
        (
          record {
            dw_offset = omega arith;
            dw_size_with_flag = omega arith;
            dw_offset_field2 = omega arith;
          },
          tt,
        ),
      )

abbrev two_records : List IxChunkRecord
two_records =
    record { qw_offset = 5000; dw_size = 64; dw_duration = 2 }
    ∷ record { qw_offset = 2 ^ 33; dw_size = 80; dw_duration = 3 }
    ∷ []

super_payload-eq_example :
    super_payload 48 dc_00 false two_records
    ≡ ok (super_head dc_00 false 1 ++ (records_bytes (take 1 two_records) ++ replicate 8 0))
super_payload-eq_example = super_payload-eq 48 dc_00 false two_records (omega arith)

parse_indx-super_payload_example :
    super_payload 56 dc_00 false two_records >>= parse_indx
    ≡ ok (record {
      w_longs_per_entry = 4;
      b_index_sub_type = 0;
      b_index_type = 0;
      present = true;
      dw_reserved = (0, 0, 0);
      chunk_id = dc_00;
      entries = map entry_of two_records;
      strl_std_index = none;
    })
parse_indx-super_payload_example =
    parse_indx-super_payload 56 dc_00 false two_records (omega arith) (omega arith) (
      record { qw_offset = omega arith; dw_size = omega arith; dw_duration = omega arith },
      (record { qw_offset = omega arith; dw_size = omega arith; dw_duration = omega arith }, tt),
    )

abbrev hostile : List ℕ
hostile = 2 ∷ 0 ∷ 0 ∷ 1 ∷ 255 ∷ 255 ∷ 255 ∷ 255 ∷ replicate 24 0

parse_ix_chunk_total_example :
    (r : Option StdIndex) × (parse_ix_chunk ix_00 hostile ≡ ok r) × FitsBody hostile r
parse_ix_chunk_total_example = parse_ix_chunk_total ix_00 hostile

parse_indx_total_example : SuperResult hostile (parse_indx hostile)
parse_indx_total_example = parse_indx_total hostile

abbrev small_index : List IndexEntry
small_index =
    record { ckid = pc_00; flags = 0x100; offset = 4; size = 8 }
    ∷ record { ckid = dc_00; flags = 0x10; offset = 20; size = 700 }
    ∷ record { ckid = pc_00; flags = 0x100; offset = 730; size = 8 }
    ∷ []

raw_entries-serialize_idx1_example :
    raw_entries (serialize_idx1 true false [] small_index) ≡ small_index
raw_entries-serialize_idx1_example = raw_entries-serialize_idx1 true false [] small_index tt (
  record { flags = omega arith; offset = omega arith; size = omega arith },
  (
    record { flags = omega arith; offset = omega arith; size = omega arith },
    (record { flags = omega arith; offset = omega arith; size = omega arith }, tt),
  ),
)

abbrev small_raw : List ℕ
small_raw = 48 ∷ 48 ∷ 100 ∷ 99 ∷ 16 ∷ 0 ∷ 0 ∷ 0 ∷ 4 ∷ 0 ∷ 0 ∷ 0 ∷ 9 ∷ 0 ∷ 0 ∷ 0 ∷ []

abbrev video : StreamInfo
video = record { is_audio = false; channels = none; sample_bytes = none }

build_idx_table_lem_example :
    (t : List IdxEntry) × (build_idx_table [] small_raw 4 (video ∷ [])
      ≡ ok (t, (locate (base_offset [] 4 (raw_entries small_raw)) 1 (raw_entries small_raw)).1))
    × (map erase t
        ≡ (locate (base_offset [] 4 (raw_entries small_raw)) 1 (raw_entries small_raw)).0)
    × Rising t
build_idx_table_lem_example = build_idx_table_lem [] small_raw 4 (video ∷ [])

scan_idx1_sideband_counts-positions_example :
    Counts
      (compute_palette_change_positions small_raw 2)
      (scan_idx1_sideband_counts small_raw 2 (0 ∷ 0 ∷ [], 0 ∷ 0 ∷ [])).0
scan_idx1_sideband_counts-positions_example = scan_idx1_sideband_counts-positions small_raw 2
