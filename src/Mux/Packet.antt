-- ===== src/Mux/Packet.antt =====
-- `AviMuxer::write_packet` of src/muxer.rs.
use oxideav_avi.Base.{
  ℕ, ◌+◌, ◌-◌, ◌%◌, ◌^◌, List, [], ◌∷◌, ◌++◌, Option, none, some, ok, length, max, get_elem?, leb,
  ltb, ◌==◌, if◌then◌else◌, Bool, false, ◌&&◌, ◌||◌, invalid, other, unsupported,
}
use oxideav_avi.Bytes.{Fourcc}
use oxideav_avi.Io.{M, ◌>>=◌, ◌>>◌, pure, fail, guard, stream_position}
use oxideav_avi.Riff.{u32_max, write_chunk}
use oxideav_avi.Index.{IxStdEntry}
use oxideav_avi.Idx1.{IndexEntry}
use oxideav_avi.Seek.{update, elem_at}
use oxideav_avi.Packets.{lift}
use oxideav_avi.Mux.{
  OutPacket, AviKind, avi10, open_dml, TrackState, Muxer, minus, count_up, add_u64, contains,
  is_some, is_open_dml, is_primary, emit_padding_junk_for, sample_count_of_packet, relaid,
}
use oxideav_avi.Mux.Segments.{
  close_rec_cluster, open_rec_cluster, flush_ix_for_track, close_current_segment, open_avix_segment,
}

-- The bytes of a chunk with a body of `n` bytes.
abbrev pub chunk_len : ℕ → ℕ
chunk_len n = 8 + n + n % 2

-- Another segment, if this one would grow past its limit; and the position, if it is known.
unfoldable pub roll_open_dml : Muxer → ℕ → ℕ → M (Muxer × Option ℕ)
roll_open_dml m limit n = do
  pos ← stream_position
  segment_start ← lift (minus m.riff_size_off 4)
  let segment_used = pos + chunk_len n + 16 - segment_start
  (if ltb 0 m.current_segment_packets && ltb limit segment_used
      then (do m₁ ← close_current_segment m; m₂ ← open_avix_segment m₁; pure (m₂, none))
      else pure (m, some pos))

unfoldable pub roll_segment : Muxer → ℕ → M (Muxer × Option ℕ)
unfolding roll_open_dml
roll_segment m n = elim m.kind [ avi10 ↦ pure (m, none) | open_dml limit ↦ roll_open_dml m limit n ]

abbrev pub wants_clusters : Muxer → Bool
wants_clusters m = is_some m.options.rec_cluster_packets || is_some m.options.rec_cluster_bytes

-- The open cluster has its packets, or has no room for the bytes.
unfoldable pub cluster_is_full : Muxer → ℕ → Bool
cluster_is_full m n =
    elim m.options.rec_cluster_packets [ none ↦ false | some k ↦ leb k m.rec_packets_in_cluster ]
    || elim m.options.rec_cluster_bytes [
      | none ↦ false
      | some k ↦ ltb 0 m.rec_packets_in_cluster && ltb k (m.rec_bytes_in_cluster + chunk_len n)
    ]

unfoldable pub enter_cluster : Muxer → Option ℕ → ℕ → Option ℕ → M (Muxer × Option ℕ)
unfolding cluster_is_full
enter_cluster m cached_pos n none = do m₁ ← open_rec_cluster m; pure (m₁, none)
enter_cluster m cached_pos n (some off) =
    if cluster_is_full m n
    then (do m₁ ← close_rec_cluster m; m₂ ← open_rec_cluster m₁; pure (m₂, none))
    else pure (m, cached_pos)

unfoldable pub choose_cluster : Muxer → Option ℕ → ℕ → M (Muxer × Option ℕ)
unfolding enter_cluster
choose_cluster m cached_pos n =
    if wants_clusters m
    then enter_cluster m cached_pos n m.rec_open_size_off
    else pure (m, cached_pos)

abbrev pub add_cluster_bytes : Muxer → ℕ → Muxer
add_cluster_bytes m n =
    if is_some m.rec_open_size_off
    then record m { rec_bytes_in_cluster = m.rec_bytes_in_cluster + n }
    else m

unfoldable pub align : Muxer → Option ℕ → M (Muxer × Option ℕ)
align m cached_pos = elim m.options.padding_granularity [
  | none ↦ pure (m, cached_pos)
  | some n ↦ do
    before ← stream_position
    emit_padding_junk_for n
    after ← stream_position
    pure (add_cluster_bytes m (after - before), some after)
]

unfoldable pub position_or : Option ℕ → M ℕ
position_or (some p) = pure p
position_or none = stream_position

-- `AVIIF_KEYFRAME`, and `AVIIF_FIRSTPART | AVIIF_LASTPART` of a two-field stream.
unfoldable pub packet_flags : Bool → Bool → ℕ
packet_flags keyframe two_field = (if keyframe then 0x10 else 0) + (if two_field then 0x60 else 0)

-- `size | 0x8000_0000` unless it is a keyframe.
unfoldable pub size_with_flag : Bool → ℕ → ℕ
size_with_flag keyframe size =
    if keyframe then size else if ltb size (2 ^ 31) then size + 2 ^ 31 else size

unfoldable pub field2_offset : Bool → ℕ → Option ℕ → ℕ
field2_offset two_field d none = 0
field2_offset two_field d (some payload_off) =
    if two_field && leb (d + payload_off) u32_max then d + payload_off else 0

abbrev pub capacity : Option ℕ → ℕ
capacity none = 0
capacity (some k) = k

unfoldable pub check_strl_std_overflow : ℕ → Muxer → M Muxer
check_strl_std_overflow i m =
    if m.strl_std_active
    then (do
      t ← lift (elem_at m.tracks i)
      let cap = capacity m.options.strl_std_index_capacity
      pure (if ltb cap (length t.ix_entries) then record m { strl_std_active = false } else m))
    else pure m

-- What the packet adds to the `ix##` entries, at `d` from the base.
unfoldable pub push_std_entry : Muxer → ℕ → Fourcc → IxStdEntry → IndexEntry → M Muxer
unfolding check_strl_std_overflow
push_std_entry m i id e snapshot = do
  m₁ ← check_strl_std_overflow i (record m {
    tracks = update i (λ t. record t { ix_entries = t.ix_entries ++ e ∷ [] }) m.tracks;
  })
  pure (
      if m₁.options.synthesise_idx1_from_ix && is_primary m₁
      then record m₁ { primary_ix_snapshot = m₁.primary_ix_snapshot ++ snapshot ∷ [] }
      else m₁)

-- The `AVISTDINDEX_ENTRY` of a packet whose header will stand at `chunk_off`.
unfoldable pub index_std : Muxer → ℕ → Fourcc → Bool → Option ℕ → ℕ → ℕ → M Muxer
unfolding push_std_entry size_with_flag field2_offset packet_flags
index_std m i id keyframe field2 chunk_off size =
    let two_field = contains i m.options.field2_streams in
    let d = chunk_off + 8 - (m.movi_start_off + 4) in
    if is_open_dml m.kind && (leb (m.movi_start_off + 4) (chunk_off + 8) && leb d u32_max)
    then push_std_entry m i id
        (record {
          dw_offset = d;
          dw_size_with_flag = size_with_flag keyframe size;
          dw_offset_field2 = field2_offset two_field d field2;
        })
        (record { ckid = id; flags = packet_flags keyframe two_field; offset = d - 4; size = size })
    else pure m

-- The track's counts after a chunk of `size` bytes.
unfoldable pub note_track : ℕ → Option ℕ → TrackState → M TrackState
note_track size duration t = do
  n ← lift (count_up t.packet_count)
  bytes ← lift (add_u64 t.total_bytes size)
  samples ← lift (add_u64 t.sample_count (sample_count_of_packet t size duration))
  pure (record t {
    packet_count = n;
    max_chunk_size = max t.max_chunk_size size;
    total_bytes = bytes;
    sample_count = samples;
  })

unfoldable pub note_segment : Muxer → ℕ → M Muxer
note_segment m i = do
  n ← lift (count_up m.current_segment_packets)
  k ← lift (
      if i == 0
      then count_up m.current_segment_indexed_packets
      else ok m.current_segment_indexed_packets)
  pure (record m { current_segment_packets = n; current_segment_indexed_packets = k })

unfoldable pub note_cluster : Muxer → ℕ → M Muxer
note_cluster m n =
    if wants_clusters m
    then (do
      k ← lift (count_up m.rec_packets_in_cluster)
      pure (record m {
        rec_packets_in_cluster = k;
        rec_bytes_in_cluster = m.rec_bytes_in_cluster + chunk_len n;
      }))
    else pure m

-- The index with the entry of a chunk in the primary segment, if its offset fits.
unfoldable pub with_entry : Muxer → Fourcc → ℕ → ℕ → ℕ → List IndexEntry
with_entry m id flags chunk_off size =
    let rel_off = chunk_off - m.movi_start_off in
    if is_primary m && (leb m.movi_start_off chunk_off && leb rel_off u32_max)
    then m.index ++ record { ckid = id; flags = flags; offset = rel_off; size = size } ∷ []
    else m.index

abbrev pub push_index : Muxer → Fourcc → ℕ → ℕ → ℕ → Muxer
push_index m id flags chunk_off size = record m { index = with_entry m id flags chunk_off size }

abbrev pub cadence_of : ℕ → List (ℕ × ℕ) → Option ℕ
cadence_of i [] = none
cadence_of i (s ∷ ss) = let rest = cadence_of i ss in if s.0 == i then some s.1 else rest

-- The `ix##` chunk inside `movi`, once the stream has as many entries as it asked for.
unfoldable pub flush_at_cadence : Muxer → ℕ → Option ℕ → M Muxer
flush_at_cadence m i none = pure m
flush_at_cadence m i (some n) = do
  t ← lift (elem_at m.tracks i)
  (if ltb 0 n && leb n (length t.ix_entries % 2 ^ 32)
      then (do m₁ ← close_rec_cluster m; flush_ix_for_track m₁ i)
      else pure m)

unfoldable pub mid_movi_flush : Muxer → ℕ → M Muxer
unfolding flush_at_cadence
mid_movi_flush m i =
    if is_open_dml m.kind
    then flush_at_cadence m i (cadence_of i m.options.mid_movi_index_streams)
    else pure m

-- The limit of an AVI 1.0 file.
unfoldable pub check_ceiling : AviKind → ℕ → ℕ → M (Unit {0})
check_ceiling avi10 chunk_off size =
    if ltb (2 ^ 31 - 1024) (chunk_off + chunk_len size) then fail unsupported else pure tt
check_ceiling (open_dml limit) chunk_off size = pure tt

-- The chunk and everything that is counted from it.
unfoldable pub put_chunk : Muxer → ℕ → Fourcc → Bool → Option ℕ → List ℕ → ℕ → M Muxer
unfolding note_track note_segment note_cluster with_entry packet_flags
put_chunk m i id keyframe duration wire chunk_off = do
  write_chunk id wire
  t ← lift (elem_at m.tracks i)
  t₁ ← note_track (length wire) duration t
  m₁ ← note_segment (record m { tracks = update i (λ _. t₁) m.tracks }) i
  m₂ ← note_cluster m₁ (length wire)
  pure (
      push_index m₂ id (packet_flags keyframe (contains i m.options.field2_streams)) chunk_off
        (length wire))

-- The packet's chunk, in the place that has been made for it.
unfoldable pub place_chunk : Muxer → OutPacket → List ℕ → ℕ → M Muxer
unfolding index_std put_chunk mid_movi_flush check_ceiling
place_chunk m p wire chunk_off = do
  t ← lift (elem_at m.tracks p.stream_index)
  m₁ ←
      index_std (record m { pending_field2_offset = none }) p.stream_index t.packet_fourcc
        p.keyframe m.pending_field2_offset chunk_off (length wire)
  m₂ ← put_chunk m₁ p.stream_index t.packet_fourcc p.keyframe p.duration wire chunk_off
  m₃ ← mid_movi_flush m₂ p.stream_index
  check_ceiling m₃.kind chunk_off (length wire)
  pure m₃

unfoldable pub write_wire : Muxer → OutPacket → List ℕ → M Muxer
unfolding roll_segment choose_cluster align position_or place_chunk
write_wire m p wire = do
  rolled ← roll_segment m (length wire)
  entered ← choose_cluster rolled.0 rolled.1 (length wire)
  aligned ← align entered.0 entered.1
  chunk_off ← position_or aligned.1
  place_chunk aligned.0 p wire chunk_off

unfoldable pub write_packet_of : Muxer → OutPacket → Option TrackState → M Muxer
unfolding write_wire
write_packet_of m p none = fail invalid
write_packet_of m p (some t) = do
  guard (leb (length p.payload) u32_max) invalid
  wire ← lift (relaid t p)
  write_wire m p wire

unfoldable pub write_packet : Muxer → OutPacket → M Muxer
unfolding write_packet_of
write_packet m p = do
  guard m.header_written other
  write_packet_of m p (get_elem? m.tracks p.stream_index)
