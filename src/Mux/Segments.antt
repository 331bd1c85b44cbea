-- ===== src/Mux/Segments.antt =====
-- src/muxer.rs: `rec ` clusters, `ix##` chunks and segments of `AviMuxer`.
use oxideav_avi.Base.{
  ℕ, zero, suc, ◌+◌, ◌-◌, [], ◌∷◌, ◌++◌, Option, none, some, length, min, leb, ◌==◌, if◌then◌else◌,
  Bool, true, false, ◌&&◌,
}
use oxideav_avi.Bytes.{Fourcc, fourcc}
use oxideav_avi.Io.{M, ◌>>=◌, ◌>>◌, pure, stream_position}
use oxideav_avi.Riff.{riff, list, u32_max, write_chunk, begin_list, finish_chunk}
use oxideav_avi.Index.Write.{ix_payload}
use oxideav_avi.Idx1.{IndexEntry, serialize_idx1}
use oxideav_avi.Seek.{update, elem_at}
use oxideav_avi.Stream.{packet_fourcc_for}
use oxideav_avi.Packets.{lift}
use oxideav_avi.Mux.{TrackState, Muxer, minus, contains, is_open_dml, is_primary}

abbrev pub rec_form : Fourcc
rec_form = fourcc b'r' b'e' b'c' b' '

abbrev pub movi_form : Fourcc
movi_form = fourcc b'm' b'o' b'v' b'i'

abbrev pub avix_form : Fourcc
avix_form = fourcc b'A' b'V' b'I' b'X'

abbrev pub idx1_id : Fourcc
idx1_id = fourcc b'i' b'd' b'x' b'1'

abbrev pub aviif_list : ℕ
aviif_list = 0x01

-- The cluster's own entry, where the index reaches: its place and the grown index.
unfoldable pub push_rec_entry : Muxer → ℕ → Muxer
push_rec_entry m list_hdr_off =
    let rel = list_hdr_off - m.movi_start_off in
    if is_primary m && (leb m.movi_start_off list_hdr_off && leb rel u32_max)
    then record m {
      rec_open_idx1_slot = some (length m.index);
      index =
          m.index ++ record { ckid = rec_form; flags = aviif_list; offset = rel; size = 0 } ∷ [];
    }
    else record m { rec_open_idx1_slot = none }

unfoldable pub open_rec_cluster : Muxer → M Muxer
unfolding push_rec_entry
open_rec_cluster m = do
  list_hdr_off ← stream_position
  off ← begin_list list rec_form
  pure (
      push_rec_entry
        (record m {
          rec_open_size_off = some off;
          rec_packets_in_cluster = 0;
          rec_bytes_in_cluster = 0;
        })
        list_hdr_off)

-- `self.index[slot].size = body_size`
abbrev pub set_size : ℕ → IndexEntry → IndexEntry
set_size size e = record e { size = size }

unfoldable pub patch_rec_entry : Muxer → ℕ → Option ℕ → M Muxer
patch_rec_entry m body_size none = pure m
patch_rec_entry m body_size (some slot) =
    if leb body_size u32_max
    then (do
      _ ← lift (elem_at m.index slot)
      pure (record m { index = update slot (set_size body_size) m.index }))
    else pure m

unfoldable pub close_open_cluster : Muxer → ℕ → M Muxer
unfolding patch_rec_entry
close_open_cluster m off = do
  here ← stream_position
  finish_chunk off
  m₁ ← patch_rec_entry m (here - (off + 4)) m.rec_open_idx1_slot
  pure (record m₁ {
    rec_open_size_off = none;
    rec_open_idx1_slot = none;
    rec_packets_in_cluster = 0;
    rec_bytes_in_cluster = 0;
  })

unfoldable pub close_rec_cluster : Muxer → M Muxer
unfolding close_open_cluster
close_rec_cluster m = elim m.rec_open_size_off [
  | none ↦ pure m
  | some off ↦ close_open_cluster m off
]

-- `ix` and the two digits of the stream.
unfoldable pub ix_id : ℕ → M Fourcc
ix_id track_idx = do
  digits ← lift (packet_fourcc_for track_idx b'x' b'x')
  pure (fourcc b'i' b'x' digits.b0 digits.b1)

-- The track after its entries have gone into a chunk at `chunk_offset`.
unfoldable pub flushed : TrackState → ℕ → ℕ → TrackState
flushed t chunk_offset payload_len = record t {
  ix_entries = [];
  ticks_at_last_ix_flush = t.sample_count;
  ix_chunk_records =
      t.ix_chunk_records
      ++ record {
        qw_offset = chunk_offset;
        dw_size = min (8 + payload_len) u32_max;
        dw_duration = min (t.sample_count - t.ticks_at_last_ix_flush) u32_max;
      }
        ∷ [];
}

unfoldable pub flush_entries : Muxer → ℕ → TrackState → M Muxer
unfolding flushed ix_id
flush_entries m track_idx t = do
  id ← ix_id track_idx
  let payload =
      ix_payload (contains track_idx m.options.field2_streams) t.packet_fourcc
        (m.movi_start_off + 4) t.ix_entries
  chunk_offset ← stream_position
  write_chunk id payload
  pure (record m {
    tracks = update track_idx (λ x. flushed x chunk_offset (length payload)) m.tracks;
  })

unfoldable pub flush_ix_for_track : Muxer → ℕ → M Muxer
unfolding flush_entries
flush_ix_for_track m track_idx = do
  t ← lift (elem_at m.tracks track_idx)
  if length t.ix_entries == 0 then pure m else flush_entries m track_idx t

-- The tracks from `i` on, `n` of them.
unfoldable pub flush_tracks : ℕ → ℕ → Muxer → M Muxer
unfolding flush_ix_for_track
flush_tracks zero i m = pure m
flush_tracks (suc n) i m = do m₁ ← flush_ix_for_track m i; flush_tracks n (suc i) m₁

unfoldable pub flush_ix_chunks : Muxer → M Muxer
unfolding flush_tracks
flush_ix_chunks m = flush_tracks (length m.tracks) 0 m

unfoldable pub write_idx1 : Bool → Muxer → M (Unit {0})
write_idx1 true m = write_chunk idx1_id (
    serialize_idx1 m.options.synthesise_idx1_from_ix (is_open_dml m.kind) m.primary_ix_snapshot
      m.index)
write_idx1 false m = pure tt

-- The end of the `RIFF` list, recorded as a segment.
unfoldable pub close_riff : Muxer → M Muxer
close_riff m = do
  finish_chunk m.riff_size_off
  after_riff ← stream_position
  riff_start ← lift (minus m.riff_size_off 4)
  total_size ← lift (minus after_riff riff_start)
  pure (record m {
    segments =
        m.segments
        ++ record {
          riff_offset = riff_start;
          total_size = total_size;
          packet_count = m.current_segment_packets;
          indexed_packet_count = m.current_segment_indexed_packets;
        }
          ∷ [];
  })

unfoldable pub close_current_segment : Muxer → M Muxer
unfolding close_rec_cluster flush_ix_chunks write_idx1 close_riff
close_current_segment m = do
  m₁ ← close_rec_cluster (record m { strl_std_active = false })
  m₂ ← flush_ix_chunks m₁
  finish_chunk m₂.movi_size_off
  write_idx1 (is_primary m) m₂
  close_riff m₂

unfoldable pub open_avix_segment : Muxer → M Muxer
open_avix_segment m = do
  riff_size_off ← begin_list riff avix_form
  movi_size_off ← begin_list list movi_form
  pure (record m {
    riff_size_off = riff_size_off;
    movi_size_off = movi_size_off;
    movi_start_off = movi_size_off + 4;
    current_segment_packets = 0;
    current_segment_indexed_packets = 0;
    rec_open_idx1_slot = none;
    rec_open_size_off = none;
    rec_packets_in_cluster = 0;
    rec_bytes_in_cluster = 0;
  })
