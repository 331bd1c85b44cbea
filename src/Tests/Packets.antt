-- ===== src/Tests/Packets.antt =====
-- Packets written and read back at concrete inputs.
use oxideav_avi.Base.{
  some, ℕ, zero, suc, ◌<◌, ◌≤◌, ◌+◌, ◌%◌, ◌≡◌, refl, List, [], ◌∷◌, ◌++◌, none, ok, err, eof, Bool,
  true, false, length, replicate, arith, map, ◌⊎◌, All,
}
use oxideav_avi.Bytes.{Fourcc, fourcc}
use oxideav_avi.Riff.Write.{at_end, chunk_bytes}
use oxideav_avi.Seek.{StreamInfo, IdxEntry, is_keyframe}
use oxideav_avi.Packets.{PacketState, SidebandStore, Packet, keyframe_at}
use oxideav_avi.Packets.Ends.{Ends}
use oxideav_avi.Packets.Loop.{next_packet, prepare, same_suffix, suffix_of, pc_suffix}
use oxideav_avi.Packets.Keyframes.{keyframe_by_offset, keyframe_at-keyframe_by_offset}
use oxideav_avi.Packets.Total.{Result, next_packet-Ends}
use oxideav_avi.Packets.Delivery.{IsReady}
use oxideav_avi.Packets.Reading.{Item}
use oxideav_avi.Packets.Sequence.{at}
use oxideav_avi.Stream.{packet_fourcc_for}
use oxideav_avi.Mux.Packet.{packet_flags}
use oxideav_avi.Remux.{item-IsPacketOf}
use oxideav_avi.Packets.Movi.{next_packets, movi_bytes, packets_of, all_passed, budget, Follows}
use oxideav_avi.Packets.Playback.{next_packets-packets_of, next_packet-eof}
use oxideav_avi.Mux.{
  OutPacket, Muxer, MuxOptions, TrackState, avi10, open_dml, emit_padding_junk_for, junk,
}
use oxideav_avi.Mux.Batch.{write_packets, names, items_of, HasRoom, entries_of, name_at}
use oxideav_avi.Mux.Ticks.{most_ticks, all_ticks}
use oxideav_avi.Mux.Invariant.{left, IsOpen}
use oxideav_avi.Mux.Open.{write_packets-IsOpen}
use oxideav_avi.Mux.Written.{Written, write_packets-Written}
use oxideav_avi.Mux.Padding.{emit_padding_junk_for-aligns}
use oxideav_avi.Remux.RoundTrip.{Opened, next_packets-write_packets, received, sent}

abbrev whole_reads : ℕ → ℕ
whole_reads p = 1000

abbrev video : StreamInfo
video = record { is_audio = false; channels = none; sample_bytes = none }

abbrev no_sidebands : SidebandStore
no_sidebands = record { counts = []; bodies = [] }

abbrev dc_name : Fourcc
dc_name = fourcc b'0' b'0' b'd' b'c'

abbrev options : MuxOptions
options = record {
  rec_cluster_packets = none;
  rec_cluster_bytes = none;
  padding_granularity = none;
  field2_streams = [];
  mid_movi_index_streams = [];
  synthesise_idx1_from_ix = false;
  strl_std_index_capacity = none;
}

abbrev track : TrackState
track = record {
  is_auds = false;
  sample_size = 0;
  raw_layout = none;
  packet_fourcc = dc_name;
  packet_count = 0;
  sample_count = 0;
  max_chunk_size = 0;
  total_bytes = 0;
  ix_entries = [];
  ix_chunk_records = [];
  ticks_at_last_ix_flush = 0;
}

-- The muxer behind a header of twelve bytes, the last four of them `movi`.
abbrev head : List ℕ
head = 82 ∷ 73 ∷ 70 ∷ 70 ∷ 0 ∷ 0 ∷ 0 ∷ 0 ∷ 109 ∷ 111 ∷ 118 ∷ 105 ∷ []

abbrev muxer : Muxer
muxer = record {
  tracks = track ∷ [];
  kind = avi10;
  options = options;
  riff_size_off = 4;
  movi_size_off = 4;
  movi_start_off = 8;
  index = [];
  strl_std_active = false;
  segments = [];
  current_segment_packets = 0;
  current_segment_indexed_packets = 0;
  rec_open_idx1_slot = none;
  rec_open_size_off = none;
  rec_packets_in_cluster = 0;
  rec_bytes_in_cluster = 0;
  pending_field2_offset = none;
  primary_ix_snapshot = [];
  header_written = true;
}

abbrev packet : Bool → List ℕ → OutPacket
packet k payload = record {
  stream_index = 0;
  keyframe = k;
  header = false;
  duration = none;
  payload = payload;
}

abbrev two_packets : List OutPacket
two_packets = packet true (1 ∷ 2 ∷ 3 ∷ []) ∷ packet false (4 ∷ 5 ∷ []) ∷ []

-- The index of the two packets, as the demuxer holds it.
abbrev entry : ℕ → ℕ → ℕ → IdxEntry
entry flags offset size = record {
  stream = 0;
  flags = flags;
  offset = offset;
  size = size;
  pts = 0;
}

abbrev table : List IdxEntry
table = entry 16 12 3 ∷ entry 0 24 2 ∷ []

abbrev player : PacketState
player = record {
  streams = video ∷ [];
  packet_chunk_suffix = (b'd', b'c') ∷ [];
  movi_segments = (12, 34) ∷ [];
  current_segment = 0;
  per_stream_counter = 0 ∷ [];
  palette_change = no_sidebands;
  text_chunk = no_sidebands;
  sideband_data_loaded = false;
  keyframe_by_offset = keyframe_by_offset table [];
  raw_layouts = [];
}

has_room : HasRoom muxer (length head) two_packets
unfolding movi_bytes all_ticks most_ticks
has_room = record {
  plain = record {
    header_written = refl;
    kind = refl;
    no_packets_cap = refl;
    no_bytes_cap = refl;
    no_padding = refl;
  };
  primary = refl;
  tracks = ((refl, (omega arith, (omega arith, omega arith))), tt);
  packets = ((omega arith, omega arith), ((omega arith, omega arith), tt));
  in_segment = omega arith;
  indexed = omega arith;
  in_movi = omega arith;
  below_ceiling = omega arith;
}

dc_named :
    (i : ℕ)
    → i < 1
    → packet_fourcc_for i (name_at (dc_name ∷ []) i).b2 (name_at (dc_name ∷ []) i).b3
      ≡ ok (name_at (dc_name ∷ []) i)
unfolding packet_fourcc_for
dc_named zero h = refl
dc_named (suc i) h = absurd (omega arith)

dc_no_palette :
    (i : ℕ) → i < 1 → same_suffix (suffix_of (name_at (dc_name ∷ []) i)) pc_suffix ≡ false
dc_no_palette zero h = refl
dc_no_palette (suc i) h = absurd (omega arith)

opened : Opened player muxer (length head) two_packets
unfolding movi_bytes entries_of budget packet_flags
opened = record {
  segment = (12, 34);
  table = table;
  std_indexes = [];
  agrees = record {
    few = omega arith;
    streams = refl;
    suffixes = refl;
    named = dc_named;
    no_palette = dc_no_palette;
    plain = λ i. refl;
  };
  current = refl;
  reaches = omega arith;
  counters = refl;
  low = (omega arith, tt);
  keys = refl;
  entries = refl;
}

next_packets-write_packets_example :
    (m' : Muxer) × (out : List ℕ) × (qs : List Packet) × (d' : PacketState) × (write_packets
        two_packets muxer
        (at_end head)
      ≡ ok (m', at_end out))
    × (next_packets whole_reads 2 player (at (out ++ (1 ∷ [])) 12)
        ≡ ok ((qs, d'), at (out ++ (1 ∷ [])) (length out)))
    × (map received qs ≡ map sent two_packets)
next_packets-write_packets_example =
    next_packets-write_packets whole_reads muxer player head (1 ∷ []) two_packets has_room opened

write_packets-Written_example :
    (m' : Muxer) × (write_packets two_packets muxer (at_end head)
      ≡ ok (m', at_end (head ++ movi_bytes (items_of (names muxer.tracks) two_packets))))
    × Written muxer head two_packets m'
write_packets-Written_example = write_packets-Written two_packets muxer head has_room

abbrev movi_file : List ℕ
movi_file = head ++ chunk_bytes dc_name 3 (1 ∷ 2 ∷ 3 ∷ []) ++ chunk_bytes dc_name 2 (4 ∷ 5 ∷ [])

ready : IsReady (length movi_file) (prepare player)
unfolding prepare
ready = record { suffixes = refl; counters = refl; low = (omega arith, tt); layouts = tt }

next_packet-Ends_example :
    Ends (Result (prepare player) movi_file) (next_packet whole_reads player (at movi_file 12))
next_packet-Ends_example = next_packet-Ends whole_reads player (at movi_file 12) ready

keyframe_at-keyframe_by_offset_example :
    All (λ e. keyframe_at (keyframe_by_offset table []) e.offset ≡ is_keyframe e.flags) table
keyframe_at-keyframe_by_offset_example =
    keyframe_at-keyframe_by_offset table [] ((omega arith, tt), (tt, tt))

emit_padding_junk_for-aligns_example :
    (out : List ℕ) × (emit_padding_junk_for 512 (at_end head) ≡ ok (tt, at_end out))
    × (length out % 512 ≡ 0)
    × ((out ≡ head) ⊎ ((k : ℕ) × (out ≡ head ++ chunk_bytes junk k (replicate k 0))))
emit_padding_junk_for-aligns_example =
    emit_padding_junk_for-aligns 256 head (omega arith) (omega arith) refl

abbrev one_item : List Item
one_item = record { id = dc_name; stream = 0; body = 1 ∷ 2 ∷ 3 ∷ [] } ∷ []

follows : Follows player (12, 34) one_item
unfolding budget
follows = record {
  items = (
    item-IsPacketOf player (dc_name ∷ []) opened.agrees (packet true (1 ∷ 2 ∷ 3 ∷ []))
        (omega arith, omega arith),
    tt,
  );
  current = refl;
  counters = refl;
  low = (omega arith, tt);
}

in_segment : 12 + length (movi_bytes one_item) ≤ 34
unfolding movi_bytes
in_segment = omega arith

next_packets-packets_of_example :
    next_packets whole_reads 1 player (at (head ++ (movi_bytes one_item ++ (7 ∷ []))) 12)
    ≡ ok (
      (packets_of player 12 one_item, all_passed player one_item),
      at (head ++ (movi_bytes one_item ++ (7 ∷ []))) (12 + length (movi_bytes one_item)),
    )
next_packets-packets_of_example =
    next_packets-packets_of whole_reads (12, 34) one_item player head (7 ∷ []) follows in_segment

past_the_last_packet : next_packet whole_reads player (at movi_file 34) ≡ err eof
past_the_last_packet =
    next_packet-eof whole_reads player (at movi_file 34) (12, 34) refl refl (omega arith) refl

-- An OpenDML muxer with clusters of two packets, padding, and an `ix##` chunk behind every packet.
abbrev busy : Muxer
busy = record muxer {
  kind = open_dml 30;
  options = record {
    rec_cluster_packets = some 2;
    rec_cluster_bytes = none;
    padding_granularity = some 16;
    field2_streams = [];
    mid_movi_index_streams = (0, 1) ∷ [];
    synthesise_idx1_from_ix = true;
    strl_std_index_capacity = some 1;
  };
  strl_std_active = true;
}

busy-IsOpen :
    IsOpen (left (length two_packets + 0) 1 (all_ticks two_packets + 0)) busy (at_end head)
unfolding all_ticks most_ticks
busy-IsOpen = record {
  last = refl;
  riff_after = omega arith;
  riff_inside = omega arith;
  movi_inside = omega arith;
  cluster_inside = tt;
  slot_inside = tt;
  few = (refl, omega arith);
  granularity = omega arith;
  tracks = ((omega arith, (tt, (omega arith, omega arith))), tt);
  in_segment = omega arith;
  indexed = omega arith;
  in_cluster = omega arith;
}

write_packets-IsOpen_example :
    Ends (IsOpen (left 0 1 0)) (write_packets two_packets busy (at_end head))
write_packets-IsOpen_example = write_packets-IsOpen two_packets 0 1 0 busy (at_end head) busy-IsOpen
